-- ===== src/Queue/Choices.antt =====
-- queue.go: what a send and each `select` may do.
use gx.Base.{
  ◌≡◌, refl, sym, ap, ◌∙◌, subst, ℕ, zero, suc, true, false, Bool-cases, Option, none, some,
  Option-cases, List, [], ◌∷◌, ◌++◌, ◌⊎◌, inl, inr, get_elem?, length, arith, if◌then◌else◌, ltb,
}
use gx.Sync.Chan
use gx.Sync.Chan.{Chan, Comm, blocked, panicked, ready}
use gx.Sync.Context.{Cause}
use gx.Queue.{
  Queue, Error, accepted, push_locked, Selected, panics, returns, push_wait_select, sending,
  ctx_done, woken_select, Worked, stops, takes, work_select, stopped, receiving,
}

module _ {ℓ} {A : Type ℓ} where
  get_elem?-append :
      (xs ys : List A) (n : ℕ) (x : A)
      → get_elem? (xs ++ ys) n ≡ some x
      → (get_elem? xs n ≡ some x) ⊎ ((m : ℕ) × (get_elem? ys m ≡ some x))
  get_elem?-append [] ys n x e = inr (n, e)
  get_elem?-append (y ∷ xs) ys zero x e = inl e
  get_elem?-append (y ∷ xs) ys (suc n) x e = get_elem?-append xs ys n x e

  only : (y x : A) (n : ℕ) → get_elem? (y ∷ []) n ≡ some x → y ≡ x
  only y x zero e = ground arith
  only y x (suc n) e = absurd (cc)

  -- The three outcomes of a send.
  pub send_cases :
      (c : Chan A) (x : A)
      → ((c.closed ≡ true) × (Chan.send c x ≡ panicked))
        ⊎ (c.closed ≡ false)
          × ((Chan.send c x ≡ blocked)
              ⊎ (Chan.send c x ≡ ready (record c { buf = c.buf ++ x ∷ [] })))
  unfolding Chan.send
  send_cases c x = elim (Bool-cases c.closed) [
    | inl e ↦ inl (e, simp e)
    | inr e ↦ inr (
      e,
      elim (Bool-cases (ltb (length c.buf) c.cap)) [
        | inl f ↦ inr (simp (e, f))
        | inr f ↦ inl (simp (e, f))
      ],
    )
  ]

  List-cases : (xs : List A) → (xs ≡ []) ⊎ ((x : A) × (rest : List A) × (xs ≡ x ∷ rest))
  List-cases [] = inl refl
  List-cases (x ∷ rest) = inr (x, rest, refl)

  at_end :
      (c : Chan A) → c.buf ≡ [] → Chan.receive c ≡ (if c.closed then ready (none, c) else blocked)
  unfolding Chan.receive
  at_end c b =
      ap
        (λ xs. elim xs [
          | x ∷ rest ↦ ready (some x, record c { buf = rest })
          | [] ↦ if c.closed then ready (none, c) else blocked
        ])
        b

  at_item :
      (c : Chan A) (x : A) (rest : List A)
      → c.buf ≡ x ∷ rest
      → Chan.receive c ≡ ready (some x, record c { buf = rest })
  unfolding Chan.receive
  at_item c x rest b =
      ap
        (λ xs. elim xs [
          | y ∷ ys ↦ ready (some y, record c { buf = ys })
          | [] ↦ if c.closed then ready (none, c) else blocked
        ])
        b

  -- The three outcomes of a receive.
  receive_cases :
      (c : Chan A)
      → ((x : A) × (rest : List A) × (c.buf ≡ x ∷ rest)
          × (Chan.receive c ≡ ready (some x, record c { buf = rest })))
        ⊎ (((c.buf ≡ []) × (c.closed ≡ true) × (Chan.receive c ≡ ready (none, c)))
            ⊎ (Chan.receive c ≡ blocked))
  unfolding Chan.receive
  receive_cases c = elim (List-cases c.buf) [
    | inr (x, rest, b) ↦ inl (x, rest, b, at_item c x rest b)
    | inl b ↦ elim (Bool-cases c.closed) [
      | inl e ↦ inr (inl (b, e, at_end c b ∙ ap (λ z. if z then ready (none, c) else blocked) e))
      | inr e ↦ inr (inr (at_end c b ∙ ap (λ z. if z then ready (none, c) else blocked) e))
    ]
  ]

module _ {ℓ κ} {T : Type ℓ} {X : Type κ} where
  abbrev pub with_buf : Queue T X → List T → Queue T X
  with_buf q b = record q { queue = record q.queue { buf = b } }

  -- A send that goes through.
  abbrev pub IsSent : Queue T X → T → Queue T X → Type (ℓ ⊔ κ)
  IsSent q item q' = (q.queue.closed ≡ false) × (q' ≡ with_buf q (q.queue.buf ++ item ∷ []))

  pub push_locked-accepted :
      (q q' : Queue T X) (item : T) → push_locked q item ≡ some (accepted, q') → IsSent q item q'
  unfolding push_locked
  push_locked-accepted q q' item e = elim (Bool-cases q.closed) [
    | inl c ↦ absurd (ground arith)
    | inr c ↦ elim (send_cases q.queue item) [
      | inl (_, s) ↦ absurd (ground arith)
      | inr (o, inl s) ↦ absurd (ground arith)
      | inr (o, inr s) ↦ (o, ground arith)
    ]
  ]

  -- What is true of an outcome of the `select` of `PushWait`.
  abbrev pub Chosen : Queue T X → T → Selected T X → Type (ℓ ⊔ κ)
  Chosen q item panics = (q.queue.closed ≡ true) × (q ≡ q)
  Chosen q item (returns none q') = IsSent q item q'
  Chosen q item (returns (some err) q') = q' ≡ q

  sending-Chosen :
      (q : Queue T X) (item : T) (n : ℕ) (r : Selected T X)
      → get_elem? (sending q (Chan.send q.queue item)) n ≡ some r
      → Chosen q item r
  sending-Chosen q item n r e = elim (send_cases q.queue item) [
    | inl (c, s) ↦
        subst (Chosen q item) (only panics r n (sym (ap (λ z. get_elem? (sending q z) n) s) ∙ e))
          (c, refl)
    | inr (o, inl s) ↦ absurd (cc)
    | inr (o, inr s) ↦
        subst (Chosen q item)
          (only (returns none _) r n (sym (ap (λ z. get_elem? (sending q z) n) s) ∙ e)) (o, refl)
  ]

  ctx_done-Chosen :
      (q : Queue T X) (item : T) (ctx : Option (Error X)) (n : ℕ) (r : Selected T X)
      → get_elem? (ctx_done q ctx) n ≡ some r
      → Chosen q item r
  ctx_done-Chosen q item none n r e = absurd (cc)
  ctx_done-Chosen q item (some err) n r e =
      subst (Chosen q item) (only (returns (some err) q) r n e) refl

  woken-Chosen :
      (q : Queue T X) (item : T) (n : ℕ) (r : Selected T X)
      → get_elem? (woken_select q) n ≡ some r
      → Chosen q item r
  woken-Chosen q item n r e = elim (Bool-cases q.push_wait_done) [
    | inl w ↦
        subst (Chosen q item)
          (only _ r n (
            sym
              (ap (λ z. get_elem? (if z then returns (some Error.queue_closed) q ∷ [] else []) n) w)
            ∙ e))
          refl
    | inr w ↦ absurd (ground arith)
  ]

  pub push_wait_select-Chosen :
      (q : Queue T X) (item : T) (ctx : Option (Error X)) (n : ℕ) (r : Selected T X)
      → get_elem? (push_wait_select q item ctx) n ≡ some r
      → Chosen q item r
  unfolding push_wait_select
  push_wait_select-Chosen q item ctx n r e =
      elim (get_elem?-append (sending q (Chan.send q.queue item) ++ ctx_done q ctx) (woken_select q)
        n r e) [
          | inl f ↦
              elim (get_elem?-append (sending q (Chan.send q.queue item)) (ctx_done q ctx) n r f) [
                | inl g ↦ sending-Chosen q item n r g
                | inr (k, g) ↦ ctx_done-Chosen q item ctx k r g
              ]
          | inr (m, f) ↦ woken-Chosen q item m r f
        ]

  -- What is true of an outcome of a worker's `select`.
  abbrev pub Work : Queue T X → Worked T X → Type (ℓ ⊔ κ)
  Work q stops =
      ((q.queue.closed ≡ true) × (q.queue.buf ≡ [])) ⊎ ((c : Cause (Error X)) × (q.cause ≡ some c))
  Work q (takes item q') = (rest : List T) × (q.queue.buf ≡ item ∷ rest) × (q' ≡ with_buf q rest)

  receiving-Work :
      (q : Queue T X) (n : ℕ) (r : Worked T X)
      → get_elem? (receiving q (Chan.receive q.queue)) n ≡ some r
      → Work q r
  receiving-Work q n r e = elim (receive_cases q.queue) [
    | inl (x, rest, b, s) ↦
        subst (Work q)
          (only (takes x (with_buf q rest)) r n (sym (ap (λ z. get_elem? (receiving q z) n) s) ∙ e))
          (rest, b, refl)
    | inr (inl (b, c, s)) ↦
        subst (Work q) (only stops r n (sym (ap (λ z. get_elem? (receiving q z) n) s) ∙ e))
          (inl (c, b))
    | inr (inr s) ↦ absurd (cc)
  ]

  pub work_select-Work :
      (q : Queue T X) (n : ℕ) (r : Worked T X) → get_elem? (work_select q) n ≡ some r → Work q r
  unfolding work_select
  work_select-Work q n r e = elim (get_elem?-append (stopped q.cause) _ n r e) [
    | inl f ↦ elim (Option-cases q.cause) [
      | inl c ↦ absurd (cc)
      | inr (c, s) ↦
          subst (Work q) (only stops r n (sym (ap (λ z. get_elem? (stopped {X = X} z) n) s) ∙ f))
            (inr (c, s))
    ]
    | inr (m, f) ↦ receiving-Work q m r f
  ]
