-- ===== src/Buffer/Wakeup.antt =====
-- Goroutines that share a Buffer: who sleeps in `Next`, and who is woken.
use gx.Base.{
  ◌≤◌, ◌<◌, ◌≡◌, refl, sym, ap, ◌∙◌, subst, Bool, true, false, Option, none, some, arith, inl, inr,
  Bool-cases, ◌==◌, ==_iff,
}
use gx.Base.Int.{ℤ}
use gx.Sync.{broadcast, wait, resume}
use gx.Sync.Sleepers.{
  Counts, Pass, takes, ends, sleeps, Move, adds, stays, passes, shuts, IsAwake, Move-IsAwake,
  IsAwake-sleeper, landed,
}
use gx.Sync.Sleepers
use gx.Buffer.{Buffer, new_buffer, close, push, next_locked, try_next, next, resumed}
use gx.Buffer.Refine.{IsValid}
use gx.Buffer.Take.{next_locked_lem}
use gx.Buffer.Fifo.{new_buffer-IsValid, push_open, push_closed}

-- Any goroutine may call a method next; one that was woken may go on.
pub data Step {ℓ} {A : Type ℓ} (zero_value : A) (b b' : Buffer A) : Type ℓ where
  pushes : (x : A) (ok : Bool) → push zero_value b x ≡ some (ok, b') → Step zero_value b b'
  tries : (r : A × Bool) → try_next zero_value b ≡ some (r, b') → Step zero_value b b'
  calls : (r : Option (A × Bool)) → next zero_value b ≡ some (r, b') → Step zero_value b b'
  wakes :
      (r : Option (A × Bool))
      → 0 < b.cond.notified
      → resumed zero_value b ≡ some (r, b')
      → Step zero_value b b'
  closes : close b ≡ b' → Step zero_value b b'

pub data Reach {ℓ} {A : Type ℓ} (zero_value : A) (c : ℤ) : Buffer A → Type ℓ where
  start : Reach zero_value c (new_buffer zero_value c)
  later : {b b' : Buffer A} → Reach zero_value c b → Step zero_value b b' → Reach zero_value c b'

module _ {ℓ} {A : Type ℓ} where
  abbrev counts : Buffer A → Counts
  counts b = record { closed = b.closed; cond = b.cond; len = b.len }

  -- A method keeps the Buffer valid, and does to its counts what it may.
  abbrev Moves : Buffer A → Buffer A → Type 0
  Moves b b' = IsValid b' × Move (counts b) (counts b')

  abbrev PassesTo : Buffer A → Buffer A → Type 0
  PassesTo b b' = IsValid b' × Pass (counts b) (counts b')

  close-Moves : (b b' : Buffer A) → close b ≡ b' → IsValid b → Moves b b'
  unfolding close
  close-Moves b b' e v = elim (Bool-cases b.closed) [
    | inl c ↦ let p : b ≡ b' = sym (simp c) ∙ e in (subst IsValid p v, stays (ap counts p))
    | inr c ↦
        let p : record b { closed = true; cond = broadcast b.cond } ≡ b' = sym (simp c) ∙ e in
        subst (Moves b) p
          (record { slots = v.slots; head_in = v.head_in; len_in = v.len_in }, shuts refl refl)
  ]

module _ {ℓ} {A : Type ℓ} (zero_value : A) where
  push-Moves :
      (b b' : Buffer A) (x : A) (ok : Bool)
      → push zero_value b x ≡ some (ok, b')
      → IsValid b
      → Moves b b'
  push-Moves b b' x ok e v = elim (Bool-cases b.closed) [
    | inl c ↦ subst (Moves b) (landed (push_closed zero_value b x c) e) (v, stays refl)
    | inr o ↦
        let (t, p, v', _, o', l, n) = push_open zero_value b x v o in
        subst (Moves b) (landed p e) (v', adds o' l n)
  ]

  try_next_found :
      (b b' : Buffer A) (a : A)
      → (b.len == 0) ≡ false
      → next_locked zero_value b ≡ some (a, b')
      → try_next zero_value b ≡ some ((a, true), b')
  unfolding try_next
  try_next_found b b' a e f = simp (e, f)

  try_next_empty :
      (b : Buffer A) → (b.len == 0) ≡ true → try_next zero_value b ≡ some ((zero_value, false), b)
  unfolding try_next
  try_next_empty b e = simp e

  next_sleeps :
      (b : Buffer A)
      → (b.len == 0) ≡ true
      → b.closed ≡ false
      → next zero_value b ≡ some (none, record b { cond = wait b.cond })
  unfolding next
  next_sleeps b e c = simp (e, c)

  next_drained :
      (b : Buffer A)
      → (b.len == 0) ≡ true
      → b.closed ≡ true
      → next zero_value b ≡ some (some (zero_value, false), b)
  unfolding next
  next_drained b e c = simp (e, c)

  next_found :
      (b b' : Buffer A) (a : A)
      → (b.len == 0) ≡ false
      → next_locked zero_value b ≡ some (a, b')
      → next zero_value b ≡ some (some (a, true), b')
  unfolding next
  next_found b b' a e f = simp (e, f)

  try_next-Moves :
      (b b' : Buffer A) (r : A × Bool)
      → try_next zero_value b ≡ some (r, b')
      → IsValid b
      → Moves b b'
  try_next-Moves b b' r e v = elim (Bool-cases (b.len == 0)) [
    | inl c ↦ subst (Moves b) (landed (try_next_empty b c) e) (v, stays refl)
    | inr c ↦
        let p : 0 < b.len = ground arith in
        let (a, t, f, v', _, l, o, n) = next_locked_lem zero_value b v p in
        subst (Moves b) (landed (try_next_found b t a c f) e) (v', passes (takes p o l n))
  ]

  -- A pass through the loop of `Next`.
  next-PassesTo :
      (b b' : Buffer A) (r : Option (A × Bool))
      → next zero_value b ≡ some (r, b')
      → IsValid b
      → PassesTo b b'
  next-PassesTo b b' r e v = elim (Bool-cases (b.len == 0)) [
    | inl c ↦
        let z : b.len ≡ 0 = (==_iff b.len 0).0 c in
        elim (Bool-cases b.closed) [
          | inl d ↦ subst (PassesTo b) (landed (next_drained b c d) e) (v, ends d d refl)
          | inr d ↦
              subst (PassesTo b) (landed (next_sleeps b c d) e)
                (record { slots = v.slots; head_in = v.head_in; len_in = v.len_in }, sleeps z d d z)
        ]
    | inr c ↦
        let p : 0 < b.len = ground arith in
        let (a, t, f, v', _, l, o, n) = next_locked_lem zero_value b v p in
        subst (PassesTo b) (landed (next_found b t a c f) e) (v', takes p o l n)
  ]

  Step-Moves : {b b' : Buffer A} → Step zero_value b b' → IsValid b → Moves b b'
  unfolding resumed
  Step-Moves (pushes x ok e) v = push-Moves _ _ x ok e v
  Step-Moves (tries r e) v = try_next-Moves _ _ r e v
  Step-Moves (calls r e) v = let (v', p) = next-PassesTo _ _ r e v in (v', passes p)
  Step-Moves {b} (wakes r h e) v =
      let (v', p) =
        next-PassesTo (record b { cond = resume b.cond }) _ r e
          (record { slots = v.slots; head_in = v.head_in; len_in = v.len_in }) in
      (v', Sleepers.wakes h p)
  Step-Moves (closes e) v = close-Moves _ _ e v

  Reach-IsAwake : {c : ℤ} {b : Buffer A} → Reach zero_value c b → IsValid b × IsAwake (counts b)
  unfolding new_buffer
  Reach-IsAwake {c} start =
      (new_buffer-IsValid zero_value c, record { covered = omega arith; drained = λ e. refl })
  Reach-IsAwake (later {b} {b'} r m) =
      let (v, w) = Reach-IsAwake r in
      let (v', n) = Step-Moves m v in (v', Move-IsAwake (counts b) (counts b') n w)

  -- No wakeup is lost. However goroutines interleave their calls, in every state reached from a new
  -- Buffer in which some goroutine sleeps in `Next`, there are at least as many goroutines woken and on
  -- their way as there are values held, and the Buffer is not closed.
  pub no_lost_wakeup :
      {c : ℤ} {b : Buffer A}
      → Reach zero_value c b
      → 0 < b.cond.waiting
      → (b.len ≤ b.cond.notified) × (b.closed ≡ false)
  no_lost_wakeup {b} r h = IsAwake-sleeper (counts b) (Reach-IsAwake r).1 h
