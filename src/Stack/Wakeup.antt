-- ===== src/Stack/Wakeup.antt =====
-- Goroutines that share a Stack: who sleeps in `Pop`, and who is woken.
use gx.Base.{
  ◌≤◌, ◌<◌, ◌≡◌, refl, sym, ap, ◌∙◌, subst, Bool, true, false, Option, none, some, arith, inl, inr,
  Bool-cases, ◌==◌, ==_iff,
}
use gx.Base.Int.{ℤ}
use gx.Sync.{broadcast, wait, resume}
use gx.Sync.Sleepers.{
  Counts, Pass, takes, ends, sleeps, Move, adds, stays, passes, shuts, IsAwake, Move-IsAwake,
  IsAwake-sleeper, landed,
}
use gx.Sync.Sleepers
use gx.Stack.{Stack, new_stack, close, push, pop_locked, try_pop, pop, resumed}
use gx.Stack.Slots.{IsValid, new_stack-IsValid, push_open, pop_locked_lem}
use gx.Stack.Refine.{push_closed}

-- Any goroutine may call a method next; one that was woken may go on.
pub data Step {ℓ} {A : Type ℓ} (zero_value : A) (s s' : Stack A) : Type ℓ where
  pushes : (x : A) (ok : Bool) → push zero_value s x ≡ some (ok, s') → Step zero_value s s'
  tries : (r : A × Bool) → try_pop zero_value s ≡ some (r, s') → Step zero_value s s'
  pops : (r : Option (A × Bool)) → pop zero_value s ≡ some (r, s') → Step zero_value s s'
  wakes :
      (r : Option (A × Bool))
      → 0 < s.cond.notified
      → resumed zero_value s ≡ some (r, s')
      → Step zero_value s s'
  closes : close s ≡ s' → Step zero_value s s'

pub data Reach {ℓ} {A : Type ℓ} (zero_value : A) (c : ℤ) : Stack A → Type ℓ where
  start : Reach zero_value c (new_stack zero_value c)
  later : {s s' : Stack A} → Reach zero_value c s → Step zero_value s s' → Reach zero_value c s'

module _ {ℓ} {A : Type ℓ} where
  abbrev counts : Stack A → Counts
  counts s = record { closed = s.closed; cond = s.cond; len = s.len }

  -- A method keeps the Stack valid, and does to its counts what it may.
  abbrev Moves : Stack A → Stack A → Type 0
  Moves s s' = IsValid s' × Move (counts s) (counts s')

  abbrev PassesTo : Stack A → Stack A → Type 0
  PassesTo s s' = IsValid s' × Pass (counts s) (counts s')

  close-Moves : (s s' : Stack A) → close s ≡ s' → IsValid s → Moves s s'
  unfolding close
  close-Moves s s' e v = elim (Bool-cases s.closed) [
    | inl c ↦ let p : s ≡ s' = sym (simp c) ∙ e in (subst IsValid p v, stays (ap counts p))
    | inr c ↦
        let p : record s { closed = true; cond = broadcast s.cond } ≡ s' = sym (simp c) ∙ e in
        subst (Moves s) p (record { slots = v.slots; len_in = v.len_in }, shuts refl refl)
  ]

module _ {ℓ} {A : Type ℓ} (zero_value : A) where
  push-Moves :
      (s s' : Stack A) (x : A) (ok : Bool)
      → push zero_value s x ≡ some (ok, s')
      → IsValid s
      → Moves s s'
  push-Moves s s' x ok e v = elim (Bool-cases s.closed) [
    | inl c ↦ subst (Moves s) (landed (push_closed zero_value s x c) e) (v, stays refl)
    | inr o ↦
        let (t, p, v', _, o', l, n) = push_open zero_value s x v o in
        subst (Moves s) (landed p e) (v', adds o' l n)
  ]

  try_pop_found :
      (s s' : Stack A) (a : A)
      → (s.len == 0) ≡ false
      → pop_locked zero_value s ≡ some (a, s')
      → try_pop zero_value s ≡ some ((a, true), s')
  unfolding try_pop
  try_pop_found s s' a e f = simp (e, f)

  try_pop_empty :
      (s : Stack A) → (s.len == 0) ≡ true → try_pop zero_value s ≡ some ((zero_value, false), s)
  unfolding try_pop
  try_pop_empty s e = simp e

  pop_sleeps :
      (s : Stack A)
      → (s.len == 0) ≡ true
      → s.closed ≡ false
      → pop zero_value s ≡ some (none, record s { cond = wait s.cond })
  unfolding pop
  pop_sleeps s e c = simp (e, c)

  pop_drained :
      (s : Stack A)
      → (s.len == 0) ≡ true
      → s.closed ≡ true
      → pop zero_value s ≡ some (some (zero_value, false), s)
  unfolding pop
  pop_drained s e c = simp (e, c)

  pop_found :
      (s s' : Stack A) (a : A)
      → (s.len == 0) ≡ false
      → pop_locked zero_value s ≡ some (a, s')
      → pop zero_value s ≡ some (some (a, true), s')
  unfolding pop
  pop_found s s' a e f = simp (e, f)

  try_pop-Moves :
      (s s' : Stack A) (r : A × Bool) → try_pop zero_value s ≡ some (r, s') → IsValid s → Moves s s'
  try_pop-Moves s s' r e v = elim (Bool-cases (s.len == 0)) [
    | inl c ↦ subst (Moves s) (landed (try_pop_empty s c) e) (v, stays refl)
    | inr c ↦
        let p : 0 < s.len = ground arith in
        let (a, t, f, v', _, l, o, n) = pop_locked_lem zero_value s v p in
        subst (Moves s) (landed (try_pop_found s t a c f) e) (v', passes (takes p o l n))
  ]

  -- A pass through the loop of `Pop`.
  pop-PassesTo :
      (s s' : Stack A) (r : Option (A × Bool))
      → pop zero_value s ≡ some (r, s')
      → IsValid s
      → PassesTo s s'
  pop-PassesTo s s' r e v = elim (Bool-cases (s.len == 0)) [
    | inl c ↦
        let z : s.len ≡ 0 = (==_iff s.len 0).0 c in
        elim (Bool-cases s.closed) [
          | inl d ↦ subst (PassesTo s) (landed (pop_drained s c d) e) (v, ends d d refl)
          | inr d ↦
              subst (PassesTo s) (landed (pop_sleeps s c d) e)
                (record { slots = v.slots; len_in = v.len_in }, sleeps z d d z)
        ]
    | inr c ↦
        let p : 0 < s.len = ground arith in
        let (a, t, f, v', _, l, o, n) = pop_locked_lem zero_value s v p in
        subst (PassesTo s) (landed (pop_found s t a c f) e) (v', takes p o l n)
  ]

  Step-Moves : {s s' : Stack A} → Step zero_value s s' → IsValid s → Moves s s'
  unfolding resumed
  Step-Moves (pushes x ok e) v = push-Moves _ _ x ok e v
  Step-Moves (tries r e) v = try_pop-Moves _ _ r e v
  Step-Moves (pops r e) v = let (v', p) = pop-PassesTo _ _ r e v in (v', passes p)
  Step-Moves {s} (wakes r h e) v =
      let (v', p) =
        pop-PassesTo (record s { cond = resume s.cond }) _ r e
          (record { slots = v.slots; len_in = v.len_in }) in
      (v', Sleepers.wakes h p)
  Step-Moves (closes e) v = close-Moves _ _ e v

  Reach-IsAwake : {c : ℤ} {s : Stack A} → Reach zero_value c s → IsValid s × IsAwake (counts s)
  unfolding new_stack
  Reach-IsAwake {c} start =
      (new_stack-IsValid zero_value c, record { covered = omega arith; drained = λ e. refl })
  Reach-IsAwake (later {s} {s'} r m) =
      let (v, w) = Reach-IsAwake r in
      let (v', n) = Step-Moves m v in (v', Move-IsAwake (counts s) (counts s') n w)

  -- No wakeup is lost. However goroutines interleave their calls, in every state reached from a new
  -- Stack in which some goroutine sleeps in `Pop`, there are at least as many goroutines woken and on
  -- their way as there are values held, and the Stack is not closed.
  pub no_sleeper_forgotten :
      {c : ℤ} {s : Stack A}
      → Reach zero_value c s
      → 0 < s.cond.waiting
      → (s.len ≤ s.cond.notified) × (s.closed ≡ false)
  no_sleeper_forgotten {s} r h = IsAwake-sleeper (counts s) (Reach-IsAwake r).1 h
