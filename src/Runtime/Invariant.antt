-- ===== src/Runtime/Invariant.antt =====
-- runtime.go: what holds of a Runtime between two calls.
pub mod Calls
pub mod Turns
pub mod Run
pub mod Lookup
use gx.Base.{
  subst, Bool-cases, inl, inr, ◌≡◌, refl, ap, ◌∙◌, sym, ℕ, zero, suc, Bool, true, false, ◌||◌,
  Option, none, some, List, [], ◌∷◌, ◌++◌, length, get_elem?, set, if◌then◌else◌, ◌==◌, ==_iff,
  arith,
}
use gx.Base.Exec.{Exec, modify}
use gx.Base.Exec.Keeps.{Keeps, Keeps-modify}
use gx.Dict.{nat_eq, list_eq, list_beq_iff, ◌=?◌, insert, lookup}
use gx.Dict.Laws.{beq_sym}
use gx.Runtime.Types.{Name, RType, Ref, Store, Container, Runtime}
use gx.Runtime.Calls.{Action, is_empty, has_name, new_container, update}
use gx.Runtime.Keeps.{put, update-Keeps}

or_false : (a b : Bool) → (a || b) ≡ false → (a ≡ false) × (b ≡ false)
or_false a b h = ground arith

pub some_inj {ℓ} : {A : Type ℓ} {a b : A} → some a ≡ some b → a ≡ b
some_inj e = cc

module _ {ℓ} {V : Type ℓ} where
  -- Each value stands under the type that it was stored with.
  abbrev pub IsTyped : Store V → Type 0
  IsTyped [] = Unit
  IsTyped ((t, a) ∷ m) = (t ≡ a.0) × IsTyped m

  pub insert-IsTyped :
      (t : RType) (v : Option V) (m : Store V) → IsTyped m → IsTyped (insert t (t, v) m)
  unfolding insert
  insert-IsTyped t v [] h = (refl, tt)
  insert-IsTyped t v ((u, a) ∷ m) h = ground (arith, insert-IsTyped t v m h.1, h.0)

  pub lookup-IsTyped :
      (t : RType) (m : Store V) {a : RType × Option V} → IsTyped m → lookup t m ≡ some a → a.0 ≡ t
  unfolding lookup
  lookup-IsTyped t [] h e = absurd (cc)
  lookup-IsTyped t ((u, b) ∷ m) {a} h e = elim (Bool-cases (u == t)) [
    | inl q ↦
        ap (λ x. x.0) (sym (some_inj (sym (ap (λ x. if x then some b else lookup t m) q) ∙ e)))
        ∙ sym h.0
        ∙ (==_iff u t).0 q
    | inr q ↦ lookup-IsTyped t m h.1 (sym (ap (λ x. if x then some b else lookup t m) q) ∙ e)
  ]

module _ {ℓ} {V E : Type ℓ} where
  -- A Container counts its running tasks, and its dependencies stand under their types.
  pub record IsSound (c : Container V E) : Type 0 where
    pub counted : c.wg ≡ length c.running
    pub typed : IsTyped c.store

  abbrev pub AllSound : List (Container V E) → Type 0
  AllSound [] = Unit
  AllSound (c ∷ cs) = IsSound c × AllSound cs

  -- The Containers have names, and no two the same.
  abbrev pub AreNamed : List (Container V E) → Type 0
  AreNamed [] = Unit
  AreNamed (c ∷ cs) = (is_empty c.name ≡ false) × (has_name c.name cs ≡ false) × AreNamed cs

  pub record WellFormed (r : Runtime V E) : Type 0 where
    pub sound : AllSound r.containers
    pub named : AreNamed r.containers
    pub typed : IsTyped r.store

  pub AllSound-get :
      (cs : List (Container V E)) (i : ℕ) {c : Container V E}
      → AllSound cs
      → get_elem? cs i ≡ some c
      → IsSound c
  AllSound-get [] i h e = absurd (cc)
  AllSound-get (d ∷ cs) zero h e = subst IsSound (some_inj e) h.0
  AllSound-get (d ∷ cs) (suc i) h e = AllSound-get cs i h.1 e

  pub AllSound-set :
      (cs : List (Container V E)) (i : ℕ) {c : Container V E}
      → AllSound cs
      → IsSound c
      → AllSound (set cs i c)
  AllSound-set [] i h g = tt
  AllSound-set (d ∷ cs) zero h g = (g, h.1)
  AllSound-set (d ∷ cs) (suc i) h g = (h.0, AllSound-set cs i h.1 g)

  pub AllSound-snoc :
      (cs : List (Container V E)) (c : Container V E)
      → AllSound cs
      → IsSound c
      → AllSound (cs ++ c ∷ [])
  AllSound-snoc [] c h g = (g, tt)
  AllSound-snoc (d ∷ cs) c h g = (h.0, AllSound-snoc cs c h.1 g)

  has_name-set :
      (n : Name) (cs : List (Container V E)) (i : ℕ) {c : Container V E} (d : Container V E)
      → get_elem? cs i ≡ some c
      → d.name ≡ c.name
      → has_name n (set cs i d) ≡ has_name n cs
  has_name-set n [] i d e same = refl
  has_name-set n (b ∷ cs) zero d e same =
      ap (λ x. (x =? n) || has_name n cs) (same ∙ ap (λ c. c.name) (sym (some_inj e)))
  has_name-set n (b ∷ cs) (suc i) d e same =
      ap (λ x. (b.name =? n) || x) (has_name-set n cs i d e same)

  pub AreNamed-set :
      (cs : List (Container V E)) (i : ℕ) {c : Container V E} (d : Container V E)
      → get_elem? cs i ≡ some c
      → d.name ≡ c.name
      → AreNamed cs
      → AreNamed (set cs i d)
  AreNamed-set [] i d e same h = tt
  AreNamed-set (b ∷ cs) zero d e same h =
      let q = ap (λ c. c.name) (some_inj e) ∙ sym same in
      (subst (λ n. is_empty n ≡ false) q h.0, subst (λ n. has_name n cs ≡ false) q h.1, h.2)
  AreNamed-set (b ∷ cs) (suc i) d e same h =
      (h.0, has_name-set b.name cs i d e same ∙ h.1, AreNamed-set cs i d e same h.2)

  has_name-snoc :
      (n : Name) (cs : List (Container V E)) (d : Container V E)
      → has_name n (cs ++ d ∷ []) ≡ (has_name n cs || (d.name =? n))
  has_name-snoc n [] d = ground arith
  has_name-snoc n (b ∷ cs) d = ground (arith, has_name-snoc n cs d)

  pub AreNamed-snoc :
      (cs : List (Container V E)) (d : Container V E)
      → is_empty d.name ≡ false
      → has_name d.name cs ≡ false
      → AreNamed cs
      → AreNamed (cs ++ d ∷ [])
  AreNamed-snoc [] d e f h = (e, refl, tt)
  AreNamed-snoc (b ∷ cs) d e f h = (
    h.0,
    has_name-snoc b.name cs d
        ∙ ap (λ x. x || (d.name =? b.name)) h.1
        ∙ beq_sym d.name b.name
        ∙ (or_false _ _ f).0,
    AreNamed-snoc cs d e (or_false (b.name =? d.name) _ f).1 h.2,
  )

  pub update-WellFormed :
      (i : Ref) (f : Container V E → Container V E)
      → ((c : Container V E) → IsSound c → IsSound (f c))
      → ((c : Container V E) → (f c).name ≡ c.name)
      → Keeps WellFormed (update i f)
  update-WellFormed i f k same = update-Keeps WellFormed i f (λ r c e w. record {
    sound = AllSound-set r.containers i w.sound (k c (AllSound-get r.containers i w.sound e));
    named = AreNamed-set r.containers i (f c) e (same c) w.named;
    typed = w.typed;
  })

  -- What happens outside the Containers and the store changes nothing of this.
  pub elsewhere-WellFormed :
      (f : Runtime V E → Runtime V E)
      → ((r : Runtime V E) → (f r).containers ≡ r.containers)
      → ((r : Runtime V E) → (f r).store ≡ r.store)
      → Keeps WellFormed (modify f)
  elsewhere-WellFormed f same same' = Keeps-modify f (λ r w. record {
    sound = subst AllSound (sym (same r)) w.sound;
    named = subst AreNamed (sym (same r)) w.named;
    typed = subst IsTyped (sym (same' r)) w.typed;
  })
