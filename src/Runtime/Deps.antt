-- ===== src/Runtime/Deps.antt =====
-- runtime.go: the dependencies that a Container holds by type.
use gx.Base.{
  ◌≡◌, ◌≢◌, inl, inr, Bool-cases, refl, ap, ◌∙◌, sym, ℕ, zero, suc, Bool, true, false, ◌||◌, Option,
  none, some, List, [], ◌∷◌, get_elem?, set, if◌then◌else◌, ==_iff, ne→==_false, arith,
}
use gx.Base.Exec.{Result, ok, panicked}
use gx.Dict.{nat_eq, lookup, insert, found}
use gx.Dict.Laws.{beq_refl, lookup-insert}
use gx.Runtime.Types.{Ref, RType, Container, Runtime}
use gx.Runtime.Store.{store_get, store_set, get_value}
use gx.Runtime.Calls.{container, update, takes_hooks, is_starting, set_local, found_value, get_try}
use gx.Runtime.Keeps.{put}

pub get_elem?-set {ℓ} :
    {A : Type ℓ} (xs : List A) (i : ℕ) {x : A} (y : A)
    → get_elem? xs i ≡ some x
    → get_elem? (set xs i y) i ≡ some y
get_elem?-set [] i y e = absurd (cc)
get_elem?-set (x ∷ xs) zero y e = refl
get_elem?-set (x ∷ xs) (suc i) y e = get_elem?-set xs i y e

module _ {ℓ} {V E : Type ℓ} where
  -- A dependency stored.
  abbrev with_dep : RType → Option V → Container V E → Container V E
  with_dep t v c = record c { store = insert t (t, v) c.store }

  abbrev takes_deps : Container V E → Bool
  takes_deps c = takes_hooks c.state || is_starting c.state

  -- The outcome of a `Set` on `r`: whether it may, whether the type has a value, and `r` with the new one.
  abbrev outcome : Bool → Bool → Runtime V E → Runtime V E → Result (Unit {0}) × Runtime V E
  outcome true false r r' = (ok tt, r')
  outcome true true r r' = (panicked, r)
  outcome false b r r' = (panicked, r)

  set_local-at :
      (i : Ref) (t : RType) (v : Option V) (r : Runtime V E) {c : Container V E}
      → get_elem? r.containers i ≡ some c
      → set_local i t v r
        ≡ outcome (takes_deps c) (found (lookup t c.store)) r (put i (with_dep t v c) r)
  unfolding set_local container update store_set
  set_local-at i t v r {c} e = elim (Bool-cases (takes_deps c)) [
    | inr h ↦ simp (e, h)
    | inl h ↦ elim (Bool-cases (found (lookup t c.store))) [
      | inl g ↦ simp (e, h, g)
      | inr g ↦ simp (e, h, g)
    ]
  ]

  pub get_try-at :
      (i : Ref) (t : RType) (r : Runtime V E) {c : Container V E}
      → get_elem? r.containers i ≡ some c
      → get_try i t r ≡ found_value t (lookup t c.store) r
  unfolding get_try container store_get
  get_try-at i t r e = simp (e)

  outcome-ok :
      (a b : Bool) (r y : Runtime V E) {r' : Runtime V E}
      → outcome a b r y ≡ (ok tt, r')
      → (a ≡ true) × (b ≡ false) × (y ≡ r')
  outcome-ok true false r y q = (refl, refl, ap (λ p. p.1) q)
  outcome-ok true true r y q = absurd (cc)
  outcome-ok false b r y q = absurd (cc)

  outcome-panicked : (a : Bool) (r y : Runtime V E) → (outcome a true r y).0 ≡ panicked
  outcome-panicked true r y = refl
  outcome-panicked false r y = refl

  found_value_self :
      (t : RType) (v : Option V) (r : Runtime V E)
      → (found_value {E = E} t (some (t, v)) r).0 ≡ ok (some v)
  unfolding get_value
  found_value_self t none r = refl
  found_value_self t (some a) r = simp ((==_iff t t).1 refl)

  found_value-result :
      (t : RType) (o : Option (RType × Option V)) (r r' : Runtime V E)
      → (found_value t o r).0 ≡ (found_value t o r').0
  unfolding get_value
  found_value-result t none r r' = refl
  found_value-result t (some (u, none)) r r' = refl
  found_value-result t (some (u, some a)) r r' = ground (arith)

  -- After a `Set` of a dependency on a Container that did not panic: `GetTry` finds that value under its
  -- type, what it finds under another type is as before, and another `Set` of that type panics.
  pub set_local-get_try :
      (i : Ref) (t : RType) (v : Option V) (r : Runtime V E) {r' : Runtime V E} {c : Container V E}
      → get_elem? r.containers i ≡ some c
      → set_local i t v r ≡ (ok tt, r')
      → ((get_try i t r').0 ≡ ok (some v))
        × ((u : RType) → u ≢ t → (get_try i u r').0 ≡ (get_try i u r).0)
        × ((w : Option V) → (set_local i t w r').0 ≡ panicked)
  set_local-get_try i t v r {r'} {c} e s = (
    ap (λ p. p.0) (get_try-at i t r' there)
        ∙ ap (λ o. (found_value t o r').0)
            (lookup-insert t t (t, v) c.store
              ∙ ap (λ b. if b then some (t, v) else lookup t c.store) (beq_refl t))
        ∙ found_value_self t v r',
    (λ u h.
        ap (λ p. p.0) (get_try-at i u r' there)
        ∙ ap (λ o. (found_value u o r').0)
            (lookup-insert t u (t, v) c.store
              ∙ ap (λ b. if b then some (t, v) else lookup u c.store)
                  (ne→==_false t u (λ q. h (sym q))))
        ∙ found_value-result u (lookup u c.store) r' r
        ∙ sym (ap (λ p. p.0) (get_try-at i u r e))),
    (λ w.
        ap (λ p. p.0) (set_local-at i t w r' there)
        ∙ ap
            (λ o.
              (outcome (takes_deps c) (found o) r' (put i (with_dep t w (with_dep t v c)) r')).0)
            (lookup-insert t t (t, v) c.store
              ∙ ap (λ b. if b then some (t, v) else lookup t c.store) (beq_refl t))
        ∙ outcome-panicked (takes_deps c) r' _),
  )
    where
      there : get_elem? r'.containers i ≡ some (with_dep t v c)
      there =
          ap (λ q. get_elem? q.containers i)
            (sym
              (outcome-ok (takes_deps c) (found (lookup t c.store)) r _
                (sym (set_local-at i t v r e) ∙ s)).2)
          ∙ get_elem?-set r.containers i (with_dep t v c) e
