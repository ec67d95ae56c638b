-- ===== src/Stack/Refine.antt =====
-- A Stack implements the stack of Stack/Spec: no call panics, and every reply is the stack's.
use gx.Base.{
  ℕ, ◌<◌, ◌≡◌, refl, sym, ap, ap₂, true, false, Option, some, List, [], ◌∷◌, reverse, arith, take,
  inl, inr, Bool-cases, ==_iff, ◌==◌,
}
use gx.Base.Int.{ℤ}
use gx.Sync.{broadcast, wait}
use gx.Stack.{Stack, new_stack, close, push, try_pop, pop, call, run}
use gx.Stack.Spec
use gx.Stack.Spec.{
  Lifo, Op, push_op, try_pop_op, pop_op, len_op, close_op, Reply, done, sleeps, pushed, value, size,
}
use gx.Stack.Slots.{
  IsValid, contents, lifo, view, length-contents, new_stack-IsValid, push_open, pop_locked_lem,
}

module _ {ℓ} {A : Type ℓ} (zero_value : A) where
  -- How a call of a valid Stack answers a call of its specification.
  abbrev Answers : Lifo A → Op A → Option (Reply A × Stack A) → Type ℓ
  Answers q o r =
      (s' : Stack A) × (r ≡ some ((Spec.step zero_value q o).0, s'))
      × IsValid s'
      × (view s' ≡ (Spec.step zero_value q o).1)

  pub push_closed : (s : Stack A) (x : A) → s.closed ≡ true → push zero_value s x ≡ some (false, s)
  unfolding push
  push_closed s x e = simp e

  push-Answers :
      (s : Stack A) (x : A)
      → IsValid s
      → Answers (view s) (push_op x) (call zero_value s (push_op x))
  unfolding call Spec.step
  push-Answers s x v = elim (Bool-cases s.closed) [
    | inl e ↦ (s, simp (push_closed s x e, e), v, simp e)
    | inr e ↦
        let (s', p, v', c, o, _, _) = push_open zero_value s x v e in
        (s', simp (p, e), v', simp e (ap₂ lifo o c))
  ]

  contents_empty : (s : Stack A) → (s.len == 0) ≡ true → contents s ≡ []
  contents_empty s e = ap (λ k. reverse (take k s.items)) ((==_iff s.len 0).0 e)

  len_pos : (n : ℕ) → (n == 0) ≡ false → 0 < n
  len_pos n e = ground arith

  try_pop-Answers :
      (s : Stack A) → IsValid s → Answers (view s) try_pop_op (call zero_value s try_pop_op)
  unfolding call try_pop Spec.step
  try_pop-Answers s v = elim (Bool-cases (s.len == 0)) [
    | inl e ↦ (s, simp (contents_empty s e, e), v, simp (contents_empty s e))
    | inr e ↦
        let (a, s', p, v', c, l, o, _) = pop_locked_lem zero_value s v (len_pos s.len e) in
        (s', simp (c, e, p), v', simp c (ap₂ lifo o refl))
  ]

  pop-Answers : (s : Stack A) → IsValid s → Answers (view s) pop_op (call zero_value s pop_op)
  unfolding call pop Spec.step
  pop-Answers s v = elim (Bool-cases (s.len == 0)) [
    | inl e ↦ elim (Bool-cases s.closed) [
      | inl c ↦ (s, simp (contents_empty s e, e, c), v, simp (contents_empty s e))
      | inr c ↦ (
        record s { cond = wait s.cond },
        simp (contents_empty s e, e, c),
        record { slots = v.slots; len_in = v.len_in },
        simp (contents_empty s e),
      )
    ]
    | inr e ↦
        let (a, s', p, v', c, l, o, _) = pop_locked_lem zero_value s v (len_pos s.len e) in
        (s', simp (c, e, p), v', simp c (ap₂ lifo o refl))
  ]

  close-Answers : (s : Stack A) → IsValid s → Answers (view s) close_op (call zero_value s close_op)
  unfolding call close Spec.step
  close-Answers s v = elim (Bool-cases s.closed) [
    | inl e ↦ (s, simp e, v, ap₂ lifo e refl)
    | inr e ↦ (
      record s { closed = true; cond = broadcast s.cond },
      simp e,
      record { slots = v.slots; len_in = v.len_in },
      refl,
    )
  ]

  -- Every call of a valid Stack returns, with the reply of the specification, and leaves a valid Stack
  -- of its values.
  pub call-Answers : (s : Stack A) (o : Op A) → IsValid s → Answers (view s) o (call zero_value s o)
  unfolding call Spec.step
  call-Answers s (push_op x) v = push-Answers s x v
  call-Answers s try_pop_op v = try_pop-Answers s v
  call-Answers s pop_op v = pop-Answers s v
  call-Answers s len_op v = (s, ap (λ n. some (size n, s)) (sym (length-contents s v)), v, refl)
  call-Answers s close_op v = close-Answers s v

  run_answers :
      (s : Stack A) (os : List (Op A))
      → IsValid s
      → (s' : Stack A) × (run zero_value s os ≡ some ((Spec.run zero_value (view s) os).0, s'))
        × IsValid s'
        × (view s' ≡ (Spec.run zero_value (view s) os).1)
  unfolding run Spec.run
  run_answers s [] v = (s, refl, v, refl)
  run_answers s (o ∷ os) v =
      let (s', e, v', w) = call-Answers s o v in
      let (s'', e', v'', w') = run_answers s' os v' in (s'', rw (e, ← w, e'), v'', rw (← w) w')

  -- What a new Stack returns over any sequence of calls is what an empty last-in-first-out list
  -- returns, whatever the initial capacity, and none of the calls panics.
  pub new_stack-run :
      (c : ℤ) (os : List (Op A))
      → (s' : Stack A) × (run zero_value (new_stack zero_value c) os
          ≡ some ((Spec.run zero_value (lifo false []) os).0, s'))
        × IsValid s'
        × (view s' ≡ (Spec.run zero_value (lifo false []) os).1)
  unfolding new_stack
  new_stack-run c os = run_answers (new_stack zero_value c) os (new_stack-IsValid zero_value c)
