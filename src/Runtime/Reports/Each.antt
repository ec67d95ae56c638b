-- ===== src/Runtime/Reports/Each.antt =====
-- runtime.go: the shutdown of all Containers.
use gx.Base.{
  ◌≡◌, refl, ap, ◌∙◌, sym, subst, ℕ, zero, suc, ◌+◌, length, arith, ◌++◌, Bool, true, false, inl,
  inr, ◌||◌, Option, none, some, List, [], ◌∷◌, reverse, get_elem?, if◌then◌else◌, ◌⊎◌,
}
use mathlib.Core.List.{reverse-append}
use gx.Base.Exec.{Result, ok, Exec, pure, gets, block_unless, ◌>>=◌, ◌>>◌}
use gx.Base.Exec.Keeps.{Keeps}
use gx.Runtime.Types.{Ref, Error, Container, Runtime, Event}
use gx.Runtime.Calls.{Action, container, is_setup}
use gx.Runtime.Lifecycle.{or_first, is_stopped, stop_container, container_shutdown}
use gx.Runtime.Run.{
  refs_from, all_refs, record_stop_err, shutdown_each, shutdown_first, runtime_shutdown,
}
use gx.Runtime.Frame.{View, Under}
use gx.Runtime.Stages.{container_shutdown-Under}
use gx.Runtime.Executed.{bind_ok, or_first-none, or_first_assoc}
use gx.Runtime.Shutdown.{container_ok, ShutDown, stop_container-ShutDown}

-- What a computation keeps holds of the state that it leaves.
pub kept {σ π α} :
    {S : Type σ} {A : Type α} {P : S → Type π} {m : Exec S A}
    → Keeps P m
    → (s : S) {r : Result A} {t : S} → P s
    → m s ≡ (r, t)
    → P t
kept {P = P} k s p e = subst (λ q. P q.1) e (k.at s p)

-- `shutdownOnce` is as told, and so is the error recorded so far.
abbrev pub Tells {ℓ} : {E : Type ℓ} → Bool → Option (Error E) → View E → Type ℓ
Tells once err v = (v.shutdown_once ≡ once) × (v.stop_err ≡ err)

abbrev pub Recorded {ℓ} : {V E : Type ℓ} → Bool → Option (Error E) → Runtime V E → Type ℓ
Recorded once err = Under (Tells once err)

-- The `n` places from `i` on, the last one first.
abbrev down_to : ℕ → ℕ → List Ref
down_to i zero = []
down_to i (suc n) = (i + n) ∷ down_to i n

down_to-suc : (i n : ℕ) → down_to i (suc n) ≡ down_to (suc i) n ++ i ∷ []
down_to-suc i zero = ap (λ k. k ∷ []) (omega arith)
down_to-suc i (suc n) =
    ap (λ k. k ∷ down_to i (suc n)) (omega arith) ∙ ap (◌∷◌ (suc i + n)) (down_to-suc i n)

refs_from-down_to : (i n : ℕ) → reverse (refs_from i n) ≡ down_to i n
refs_from-down_to i zero = refl
refs_from-down_to i (suc n) =
    reverse-append (i ∷ []) (refs_from (suc i) n)
    ∙ ap (λ l. l ++ i ∷ []) (refs_from-down_to (suc i) n)
    ∙ sym (down_to-suc i n)

-- The places of all Containers, the one registered last first.
abbrev pub last_first {ℓ} : {V E : Type ℓ} → Runtime V E → List Ref
last_first r = down_to 0 (length r.containers)

-- The state from which the Containers are shut down.
abbrev pub marked {ℓ} : {V E : Type ℓ} → Runtime V E → Runtime V E
marked r = record r { shutdown_once = true }

module _ {ℓ} {V E : Type ℓ} (is_canceled : E → Bool) (schedule : ℕ → List (Event V E)) where
  -- The Containers at these places have been shut down, in this order, and the error is the first of
  -- theirs; one that was set up only or stopped was left alone.
  pub data EachShut : List Ref → Option (Error E) → Runtime V E → Runtime V E → Type ℓ where
    all_shut : {r : Runtime V E} → EachShut [] none r r
    shut :
        {i : Ref} {is : List Ref} {c : Container V E} {err later : Option (Error E)}
        {r s r' : Runtime V E}
        → get_elem? r.containers i ≡ some c
        → is_setup c.state ≡ false
        → is_stopped c.state ≡ false
        → ShutDown is_canceled schedule i c err r s
        → EachShut is later (record s { stop_err = or_first s.stop_err err }) r'
        → EachShut (i ∷ is) (or_first err later) r r'
    left_alone :
        {i : Ref} {is : List Ref} {c : Container V E} {later : Option (Error E)}
        {r r' : Runtime V E}
        → get_elem? r.containers i ≡ some c
        → (is_setup c.state ≡ true) ⊎ (is_stopped c.state ≡ true)
        → EachShut is later r r'
        → EachShut (i ∷ is) later r r'

  container_shutdown-Recorded :
      (i : Ref) (once : Bool) (err : Option (Error E))
      → Keeps (Recorded once err) (container_shutdown is_canceled schedule i)
  container_shutdown-Recorded i once err =
      container_shutdown-Under is_canceled schedule (Tells once err)
        (record { logs = λ c v m s h. h; moves = λ i s v h. h })
        (record { logs = λ c v m s h. h; moves = λ i s v h. h }) i

  -- How the shutdown of one Container goes.
  data OneShut (i : Ref) (r : Runtime V E) : Option (Error E) → Runtime V E → Type ℓ where
    one_shut :
        {c : Container V E} {err : Option (Error E)} {s : Runtime V E}
        → get_elem? r.containers i ≡ some c
        → is_setup c.state ≡ false
        → is_stopped c.state ≡ false
        → ShutDown is_canceled schedule i c err r s
        → OneShut i r err s
    one_left :
        {c : Container V E}
        → get_elem? r.containers i ≡ some c
        → (is_setup c.state ≡ true) ⊎ (is_stopped c.state ≡ true)
        → OneShut i r none r

  container_shutdown-OneShut :
      (i : Ref) (r : Runtime V E) {err : Option (Error E)} {s : Runtime V E}
      → container_shutdown is_canceled schedule i r ≡ (ok err, s)
      → OneShut i r err s
  unfolding container_shutdown
  container_shutdown-OneShut i r {err} {s} e =
      let (c, r1, found, rest) = bind_ok (container i) finish r e in
      let (there, same) = container_ok i r found in
      at c there (is_setup c.state) (is_stopped c.state) refl refl
        (subst (λ x. finish c x ≡ (ok err, s)) (sym same) rest)
    where
      finish : Container V E → Action V E (Option (Error E))
      finish c =
          if is_setup c.state || is_stopped c.state
          then pure none
          else stop_container is_canceled schedule i c

      left :
          {c : Container V E}
          → get_elem? r.containers i ≡ some c
          → (is_setup c.state ≡ true) ⊎ (is_stopped c.state ≡ true)
          → pure none r ≡ (ok err, s)
          → OneShut i r err s
      left there h f =
          subst (λ x. OneShut i r x s) (cc) (subst (OneShut i r none) (cc) (one_left there h))

      at :
          (c : Container V E)
          → get_elem? r.containers i ≡ some c
          → (a b : Bool) → is_setup c.state ≡ a
          → is_stopped c.state ≡ b
          → (if a || b then pure none else stop_container is_canceled schedule i c) r ≡ (ok err, s)
          → OneShut i r err s
      at c there true b p q f = left there (inl p) f
      at c there false true p q f = left there (inr q) f
      at c there false false p q f =
          one_shut there p q (stop_container-ShutDown is_canceled schedule i c r f)

  abbrev recorded : Option (Error E) → Runtime V E → Runtime V E
  recorded err r = record r { stop_err = or_first r.stop_err err }

  record_stop_err-Recorded :
      (once : Bool) (before err : Option (Error E)) (s : Runtime V E)
      → Recorded once before s
      → Recorded once (or_first before err) (recorded err s)
  record_stop_err-Recorded once before err s u = (u.0, (u.1.0, ap (λ o. or_first o err) u.1.1))

  -- What the loop of the shutdown comes to.
  abbrev pub LoopShut : List Ref → Option (Error E) → Runtime V E → Runtime V E → Type ℓ
  LoopShut is before r r' =
      (first : Option (Error E)) × EachShut is first r r' × Recorded true (or_first before first) r'

  one_more :
      (i : Ref) (is : List Ref) (before err : Option (Error E)) (r s r' : Runtime V E)
      → OneShut i r err s
      → LoopShut is (or_first before err) (recorded err s) r'
      → LoopShut (i ∷ is) before r r'
  one_more i is before err r s r' (one_shut there a b done) (first, each, u) = (
    or_first err first,
    shut there a b done each,
    subst (λ o. Recorded true o r') (or_first_assoc before err first) u,
  )
  one_more i is before err r s r' (one_left there h) (first, each, u) = (
    first,
    left_alone there h (
        subst (λ x. EachShut is first x r')
          (ap (λ o. record r { stop_err = o }) (or_first-none r.stop_err)) each),
    subst (λ o. Recorded true (or_first o first) r') (or_first-none before) u,
  )

  shutdown_each-EachShut :
      (is : List Ref) (before : Option (Error E)) (r : Runtime V E) {u : Unit {0}}
      {r' : Runtime V E}
      → Recorded true before r
      → shutdown_each is_canceled schedule is r ≡ (ok u, r')
      → LoopShut is before r r'
  unfolding shutdown_each record_stop_err
  shutdown_each-EachShut [] before r {u} {r'} w e =
      subst (LoopShut [] before r) (cc)
        (none, all_shut, subst (λ o. Recorded true o r) (sym (or_first-none before)) w)
  shutdown_each-EachShut (i ∷ is) before r {u} {r'} w e =
      let (err, s, one, rest) = bind_ok (container_shutdown is_canceled schedule i) next r e in
      one_more i is before err r s r' (container_shutdown-OneShut i r one) (
        shutdown_each-EachShut is (or_first before err) (recorded err s)
          (record_stop_err-Recorded true before err s
            (kept (container_shutdown-Recorded i true before) r w one))
          rest)
    where
      next : Option (Error E) → Action V E (Unit {0})
      next err = do record_stop_err err; shutdown_each is_canceled schedule is

  -- The first call of `shutdown` shuts down all Containers, and the second nothing.
  pub runtime_shutdown_first :
      (before : Option (Error E)) (r : Runtime V E) {u : Unit {0}} {r' : Runtime V E}
      → Recorded false before r
      → runtime_shutdown is_canceled schedule r ≡ (ok u, r')
      → LoopShut (last_first r) before (marked r) r'
  unfolding runtime_shutdown shutdown_first
  runtime_shutdown_first before r {u} {r'} w e =
      let (_, s, waits, rest) =
        bind_ok (block_unless r.startup_done) (λ _. next) (marked r)
          (subst (λ b. (if b then pure tt else shutdown_first is_canceled schedule) r ≡ (ok u, r'))
            w.1.0 e) in
      subst (λ is. LoopShut is before (marked r) r') (refs_from-down_to 0 (length r.containers))
        (shutdown_each-EachShut (reverse (all_refs r)) before (marked r) (w.0, (refl, w.1.1))
          (subst (λ x. next x ≡ (ok u, r')) (cc) rest))
    where
      next : Action V E (Unit {0})
      next = gets all_refs >>= λ is. shutdown_each is_canceled schedule (reverse is)

  pub runtime_shutdown_again :
      (before : Option (Error E)) (r : Runtime V E) {u : Unit {0}} {r' : Runtime V E}
      → Recorded true before r
      → runtime_shutdown is_canceled schedule r ≡ (ok u, r')
      → r ≡ r'
  unfolding runtime_shutdown
  runtime_shutdown_again before r {u} {r'} w e =
      let same : (if true then pure tt else shutdown_first is_canceled schedule) r ≡ (ok u, r') =
        subst (λ b. (if b then pure tt else shutdown_first is_canceled schedule) r ≡ (ok u, r'))
          w.1.0 e in
      ap (λ p. p.1) same
