-- ===== src/Buffer/Fifo.antt =====
-- A Buffer implements the queue of Buffer/Spec: no call panics, and every reply is the queue's.
use gx.Base.{
  ℕ, zero, suc, ◌+◌, ◌%◌, ◌<◌, ◌≡◌, refl, sym, ap, ap₂, ◌∙◌, Bool, true, false, Option, some, List,
  [], ◌∷◌, ◌++◌, arith, length, set, take, replicate, length-set, length-replicate, take-set,
  set?_in, mod?_in, inl, inr, Bool-cases, ==_iff, if◌then◌else◌, ◌==◌,
}
use native.Mathlib.Nat.{mod-lt}
use gx.Base.Int.{ℤ, pos, negsuc, leb_ℤ, pos_part}
use gx.Sync.{signal, broadcast, wait}
use gx.Buffer.{Buffer, new_buffer, close, push, try_next, next, call, run}
use gx.Buffer.Spec
use gx.Buffer.Spec.{
  Fifo, Op, push_op, try_next_op, next_op, len_op, close_op, Reply, done, sleeps, pushed, value,
  size,
}
use gx.Buffer.Ring.{rotate, length-rotate, rotate-set}
use gx.Buffer.Refine.{IsValid, contents, length-contents, grow_locked_lem}
use gx.Buffer.Take.{next_locked_lem}

abbrev pub view {ℓ} : {A : Type ℓ} → Buffer A → Fifo A
view b = record { closed = b.closed; values = contents b }

abbrev pub fifo {ℓ} : {A : Type ℓ} → Bool → List A → Fifo A
fifo closed values = record { closed = closed; values = values }

slot_count : (c : ℤ) → 0 < (if leb_ℤ c (pos 0) then 1 else pos_part c)
slot_count (pos zero) = omega arith
slot_count (pos (suc n)) = ground arith
slot_count (negsuc n) = ground arith

module _ {ℓ} {A : Type ℓ} (zero_value : A) where
  pub new_buffer-IsValid : (c : ℤ) → IsValid (new_buffer zero_value c)
  unfolding new_buffer
  new_buffer-IsValid c =
      let n : ℕ = if leb_ℤ c (pos 0) then 1 else pos_part c in
      let some_slot : 0 < length (replicate n zero_value) =
        omega (arith, slot_count c, length-replicate n zero_value) in
      record { slots = some_slot; head_in = some_slot; len_in = omega arith }

  -- A store in the slot behind the values extends them.
  stored_contents :
      (b : Buffer A) (x : A)
      → IsValid b
      → b.len < length b.items
      → take (b.len + 1) (rotate b.head (set b.items ((b.head + b.len) % length b.items) x))
        ≡ contents b ++ x ∷ []
  stored_contents b x v p =
      let more : b.len + 1 ≡ suc b.len = omega arith in
      ap (λ k. take k (rotate b.head (set b.items ((b.head + b.len) % length b.items) x))) more
      ∙ ap (take (suc b.len)) (rotate-set b.items b.head b.len _ x v.head_in p refl)
      ∙ take-set (rotate b.head b.items) b.len x (omega (arith, length-rotate b.head b.items))

  -- A push on an open Buffer does not panic, and puts the value behind the others.
  pub push_open :
      (b : Buffer A) (x : A)
      → IsValid b
      → b.closed ≡ false
      → (b' : Buffer A) × (push zero_value b x ≡ some (true, b'))
        × IsValid b'
        × (contents b' ≡ contents b ++ x ∷ [])
        × (b'.closed ≡ false)
        × (b'.len ≡ b.len + 1)
        × (b'.cond ≡ signal b.cond)
  unfolding push
  push_open b x v e =
      let (g, eg, vg, cg, lt, lg, clg, cog) = grow_locked_lem zero_value b v in
      let i : ℕ = (g.head + g.len) % length g.items in
      let i_in : i < length g.items = mod-lt (g.head + g.len) vg.slots in
      let count = length-set g.items i x in
      (
        record g { items = set g.items i x; len = g.len + 1; cond = signal g.cond },
        simp (
          e,
          eg,
          mod?_in (g.head + g.len) (length g.items) (omega (arith, vg.slots)),
          set?_in g.items i x i_in,
        ),
        record {
          slots = omega (arith, vg.slots, count);
          head_in = omega (arith, vg.head_in, count);
          len_in = omega (arith, lt, count);
        },
        stored_contents g x vg lt ∙ ap (λ l. l ++ x ∷ []) cg,
        clg ∙ e,
        ap (λ n. n + 1) lg,
        ap signal cog,
      )

  -- How a call of a valid Buffer answers a call of its queue.
  abbrev Answers : Fifo A → Op A → Option (Reply A × Buffer A) → Type ℓ
  Answers q o r =
      (b' : Buffer A) × (r ≡ some ((Spec.step zero_value q o).0, b'))
      × IsValid b'
      × (view b' ≡ (Spec.step zero_value q o).1)

  pub push_closed : (b : Buffer A) (x : A) → b.closed ≡ true → push zero_value b x ≡ some (false, b)
  unfolding push
  push_closed b x e = simp e

  push-Answers :
      (b : Buffer A) (x : A)
      → IsValid b
      → Answers (view b) (push_op x) (call zero_value b (push_op x))
  unfolding call Spec.step
  push-Answers b x v = elim (Bool-cases b.closed) [
    | inl e ↦ (b, simp (push_closed b x e, e), v, simp e)
    | inr e ↦
        let (b', p, v', c, o, _, _) = push_open b x v e in
        (b', simp (p, e), v', simp e (ap₂ fifo o c))
  ]

  contents_empty : (b : Buffer A) → (b.len == 0) ≡ true → contents b ≡ []
  contents_empty b e = ap (λ k. take k (rotate b.head b.items)) ((==_iff b.len 0).0 e)

  len_pos : (n : ℕ) → (n == 0) ≡ false → 0 < n
  len_pos n e = ground arith

  try_next-Answers :
      (b : Buffer A) → IsValid b → Answers (view b) try_next_op (call zero_value b try_next_op)
  unfolding call try_next Spec.step
  try_next-Answers b v = elim (Bool-cases (b.len == 0)) [
    | inl e ↦ (b, simp (contents_empty b e, e), v, simp (contents_empty b e))
    | inr e ↦
        let (a, b', p, v', c, l, o, _) = next_locked_lem zero_value b v (len_pos b.len e) in
        (b', simp (c, e, p), v', simp c (ap₂ fifo o refl))
  ]

  next-Answers : (b : Buffer A) → IsValid b → Answers (view b) next_op (call zero_value b next_op)
  unfolding call next Spec.step
  next-Answers b v = elim (Bool-cases (b.len == 0)) [
    | inl e ↦ elim (Bool-cases b.closed) [
      | inl c ↦ (b, simp (contents_empty b e, e, c), v, simp (contents_empty b e))
      | inr c ↦ (
        record b { cond = wait b.cond },
        simp (contents_empty b e, e, c),
        record { slots = v.slots; head_in = v.head_in; len_in = v.len_in },
        simp (contents_empty b e),
      )
    ]
    | inr e ↦
        let (a, b', p, v', c, l, o, _) = next_locked_lem zero_value b v (len_pos b.len e) in
        (b', simp (c, e, p), v', simp c (ap₂ fifo o refl))
  ]

  close-Answers :
      (b : Buffer A) → IsValid b → Answers (view b) close_op (call zero_value b close_op)
  unfolding call close Spec.step
  close-Answers b v = elim (Bool-cases b.closed) [
    | inl e ↦ (b, simp e, v, ap₂ fifo e refl)
    | inr e ↦ (
      record b { closed = true; cond = broadcast b.cond },
      simp e,
      record { slots = v.slots; head_in = v.head_in; len_in = v.len_in },
      refl,
    )
  ]

  -- Every call of a valid Buffer returns, with the reply of the queue, and leaves a valid Buffer of
  -- the queue's values.
  pub call-Answers :
      (b : Buffer A) (o : Op A) → IsValid b → Answers (view b) o (call zero_value b o)
  unfolding call Spec.step
  call-Answers b (push_op x) v = push-Answers b x v
  call-Answers b try_next_op v = try_next-Answers b v
  call-Answers b next_op v = next-Answers b v
  call-Answers b len_op v = (b, ap (λ n. some (size n, b)) (sym (length-contents b v)), v, refl)
  call-Answers b close_op v = close-Answers b v

  -- So does any sequence of calls.
  pub run_answers :
      (b : Buffer A) (os : List (Op A))
      → IsValid b
      → (b' : Buffer A) × (run zero_value b os ≡ some ((Spec.run zero_value (view b) os).0, b'))
        × IsValid b'
        × (view b' ≡ (Spec.run zero_value (view b) os).1)
  unfolding run Spec.run
  run_answers b [] v = (b, refl, v, refl)
  run_answers b (o ∷ os) v =
      let (b', e, v', w) = call-Answers b o v in
      let (b'', e', v'', w') = run_answers b' os v' in (b'', rw (e, ← w, e'), v'', rw (← w) w')

  -- What a new Buffer returns over any sequence of calls is what an empty queue returns, whatever the
  -- initial capacity: it grows as needed, never panics, and loses, repeats or reorders no value.
  pub new_buffer-run :
      (c : ℤ) (os : List (Op A))
      → (b' : Buffer A) × (run zero_value (new_buffer zero_value c) os
          ≡ some ((Spec.run zero_value (fifo false []) os).0, b'))
        × IsValid b'
        × (view b' ≡ (Spec.run zero_value (fifo false []) os).1)
  unfolding new_buffer
  new_buffer-run c os = run_answers (new_buffer zero_value c) os (new_buffer-IsValid c)
