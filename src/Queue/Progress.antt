-- ===== src/Queue/Progress.antt =====
-- queue.go: no section of `Push`, `PushWait` or `Close` panics, and what the workers have been handed.
use gx.Base.{
  ◌≡◌, ◌≢◌, refl, sym, ap, ◌∙◌, ℕ, zero, suc, Bool, true, false, Bool-cases, Option, none, some,
  List, [], ◌∷◌, ◌++◌, ◌⊎◌, inl, inr, get_elem?, not, ◌&&◌, append-nil, arith, if◌then◌else◌,
}
use gx.Sync.Context.{cancel_cause}
use gx.Queue.{
  Queue, Error, Options, push_locked, close_mark, close_wake, close_seal, panics, returns,
  push_wait_select, stops, work_select, work_failed, run_result, drain_select,
}
use gx.Queue.Steps.{Closing, unclosed, marked, woken, sealed, System, Step, Reach}
use gx.Queue.Choices.{send_cases, push_locked-accepted, push_wait_select-Chosen, work_select-Work}
use gx.Queue.Invariant.{Reach-Inv, Inv, is_marked, is_woken, is_sealed}

-- The section of `Close` that is next.
abbrev pub close_section {ℓ κ} :
    {T : Type ℓ} {X : Type κ} → Closing → Queue T X → Option (Queue T X)
close_section unclosed q = some (close_mark q)
close_section marked q = close_wake q
close_section woken q = close_seal q
close_section sealed q = some q

module _ {ℓ} {A : Type ℓ} where
  cons_not_empty : (before after : List A) (x : A) → before ++ x ∷ after ≢ []
  cons_not_empty [] after x e = absurd (cc)
  cons_not_empty (b ∷ before) after x e = absurd (cc)

module _ {ℓ κ} {T : Type ℓ} {X : Type κ} {s : System T X} where
  queue_open : Inv s → s.q.closed ≡ false → s.q.queue.closed ≡ false
  queue_open v c = elim (Closing-cases s.closing) [
    | inl k ↦ let x : s.q.closed ≡ true = v.closed_at ∙ ap is_marked k in absurd (cc)
    | inr k ↦ v.sealed_at ∙ k
  ]
    where
      Closing-cases : (c : Closing) → (c ≡ sealed) ⊎ (is_sealed c ≡ false)
      Closing-cases unclosed = inr refl
      Closing-cases marked = inr refl
      Closing-cases woken = inr refl
      Closing-cases sealed = inl refl

  pub closed_sealed : Inv s → s.q.queue.closed ≡ true → s.closing ≡ sealed
  closed_sealed v c = go s.closing (sym v.sealed_at ∙ c)
    where
      go : (k : Closing) → is_sealed k ≡ true → k ≡ sealed
      go unclosed e = absurd (cc)
      go marked e = absurd (cc)
      go woken e = absurd (cc)
      go sealed e = refl

  push_locked-safe : Inv s → (item : T) → push_locked s.q item ≢ none
  unfolding push_locked
  push_locked-safe v item e = elim (Bool-cases s.q.closed) [
    | inl c ↦ absurd (ground arith)
    | inr c ↦
        let o : s.q.queue.closed ≡ false = queue_open v c in
        elim (send_cases s.q.queue item) [
          | inl (p, _) ↦ absurd (cc)
          | inr (_, inl f) ↦ absurd (ground arith)
          | inr (_, inr f) ↦ absurd (ground arith)
        ]
  ]

  close_section-safe : Inv s → close_section s.closing s.q ≢ none
  unfolding close_wake close_seal
  close_section-safe v = go s.closing s.q v.woken_at v.sealed_at
    where
      go :
          (k : Closing) (q : Queue T X)
          → q.push_wait_done ≡ is_woken k
          → q.queue.closed ≡ is_sealed k
          → close_section k q ≢ none
      go unclosed q w c e = absurd (cc)
      go marked q w c e = absurd (ground arith)
      go woken q w c e = absurd (ground arith)
      go sealed q w c e = absurd (cc)

  -- No step of any goroutine sends once the channel is closed.
  closed-sends_none :
      {s' : System T X} → Inv s → s.q.queue.closed ≡ true → Step s s' → s'.sent ≡ s.sent
  closed-sends_none v c (Step.push_accepted item q' p e) =
      let (o, _) = push_locked-accepted s.q q' item p in absurd (cc)
  closed-sends_none v c (Step.push_failed e) = ap (λ s. s.sent) e
  closed-sends_none v c (Step.enter _ e) = ap (λ s. s.sent) e
  closed-sends_none v c (Step.check_open _ _ _ _ _ e) = ap (λ s. s.sent) e
  closed-sends_none v c (Step.check_closed _ _ _ _ _ e) = ap (λ s. s.sent) e
  closed-sends_none v c (Step.select_sent item _ _ ctx n q' _ p e) =
      let (o, _) = push_wait_select-Chosen s.q item ctx n (returns none q') p in absurd (cc)
  closed-sends_none v c (Step.select_gave_up _ _ _ _ _ _ _ _ _ e) = ap (λ s. s.sent) e
  closed-sends_none v c (Step.mark _ e) = ap (λ s. s.sent) e
  closed-sends_none v c (Step.wake _ _ _ e) = ap (λ s. s.sent) e
  closed-sends_none v c (Step.seal _ _ _ _ _ e) = ap (λ s. s.sent) e
  closed-sends_none v c (Step.begin _ _ _ e) = ap (λ s. s.sent) e
  closed-sends_none v c (Step.cancelled _ _ e) = ap (λ s. s.sent) e
  closed-sends_none v c (Step.take _ _ _ _ _ _ e) = ap (λ s. s.sent) e
  closed-sends_none v c (Step.stop _ _ _ _ e) = ap (λ s. s.sent) e
  closed-sends_none v c (Step.worked _ _ _ _ e) = ap (λ s. s.sent) e
  closed-sends_none v c (Step.work_fails _ _ _ _ _ e) = ap (λ s. s.sent) e
  closed-sends_none v c (Step.end _ _ _ e) = ap (λ s. s.sent) e

module _ {ℓ κ} {T : Type ℓ} {X : Type κ} {opts : Options} {s : System T X} where
  -- `Push` never panics: however the goroutines that share a Queue interleave, in every state reached
  -- from a new Queue the section of `Push` under the lock has a result.
  pub push_never_panics : Reach opts s → (item : T) → push_locked s.q item ≢ none
  push_never_panics r = push_locked-safe (Reach-Inv r)

  -- `PushWait` never panics: in every state reached from a new Queue, for every call that waits in its
  -- `select`, whether its context is done or not, none of the choices that it has is a send on a
  -- closed channel.
  pub push_wait_never_panics :
      Reach opts s
      → (item : T) (before after : List T) → s.selecting ≡ before ++ item ∷ after
      → (ctx : Option (Error X)) (n : ℕ) → get_elem? (push_wait_select s.q item ctx) n ≢ some panics
  push_wait_never_panics r item before after l ctx n e =
      let v = Reach-Inv r in
      let (c, _) = push_wait_select-Chosen s.q item ctx n panics e in
      let none_left : s.selecting ≡ [] = v.no_sender (closed_sealed v c) in
      cons_not_empty before after item (sym l ∙ none_left)

  -- `Close` never panics: in every state reached from a new Queue, the section that its one run comes
  -- to next closes a channel that is open.
  pub close_never_panics : Reach opts s → close_section s.closing s.q ≢ none
  close_never_panics r = close_section-safe (Reach-Inv r)

  -- No item is lost, doubled or put out of order: in every state reached from a new Queue, the items
  -- sent so far are those that workers were handed, in the order they were sent, and then those in
  -- the channel.
  pub sent_items_are_handed : Reach opts s → s.sent ≡ s.handed ++ s.q.queue.buf
  sent_items_are_handed r = (Reach-Inv r).fifo

  -- Closing drains: when a worker of a reachable state stops though its context is not cancelled,
  -- every item sent has been handed to a worker, and no step of any goroutine from there sends
  -- another.
  pub stopped_worker_drained :
      {s' : System T X}
      → Reach opts s
      → (n : ℕ) → get_elem? (work_select s.q) n ≡ some stops
      → s.q.cause ≡ none
      → Step s s'
      → (s.sent ≡ s.handed) × (s'.sent ≡ s.sent)
  stopped_worker_drained r n p c t =
      let v = Reach-Inv r in
      elim (work_select-Work s.q n stops p) [
        | inl (o, b) ↦
            (v.fifo ∙ ap (λ l. s.handed ++ l) b ∙ append-nil s.handed, closed-sends_none v o t)
        | inr (_, k) ↦ absurd (cc)
      ]

module _ {ℓ κ} {T : Type ℓ} {X : Type κ} where
  -- The first failure is the one that is reported: whatever fails after a worker of a run whose
  -- context was not cancelled, `run` then returns that worker's error, if neither the parent context
  -- nor the error itself is a cancellation, and nil if one of them is.
  pub first_failure_returned :
      (q : Queue T X) (first second : X) (is_canceled : Error X → Bool) (parent_canceled : Bool)
      → q.cause ≡ none
      → run_result is_canceled parent_canceled (work_failed (work_failed q first) second).cause ≡ (
          if parent_canceled
          then none
          else if is_canceled (Error.worker_failed first)
          then none
          else some (Error.worker_failed first))
  unfolding run_result work_failed cancel_cause
  first_failure_returned q first second is_canceled parent_canceled e =
      ap
        (λ c. run_result is_canceled parent_canceled (
          cancel_cause (cancel_cause c (some (Error.worker_failed first)))
            (some (Error.worker_failed second))))
        e

  -- `Drain` returns nil only when it found no run or the run that it found has ended, and then it
  -- leaves the queue as it was; any other outcome returns the error of its own context, which is done.
  pub drain_outcomes :
      (q : Queue T X) (running ended : Bool) (ctx : Option (Error X)) (n : ℕ)
      (err : Option (Error X)) (q' : Queue T X)
      → get_elem? (drain_select q running ended ctx) n ≡ some (err, q')
      → ((err ≡ none) × (q' ≡ q) × ((running && not ended) ≡ false)) ⊎ ((err ≢ none) × (err ≡ ctx))
  unfolding drain_select
  drain_outcomes q false ended ctx zero err q' e = ground arith
  drain_outcomes q false ended ctx (suc n) err q' e = absurd (cc)
  drain_outcomes q true false none n err q' e = absurd (cc)
  drain_outcomes q true false (some x) zero err q' e = ground arith
  drain_outcomes q true false (some x) (suc n) err q' e = absurd (cc)
  drain_outcomes q true true none zero err q' e = ground arith
  drain_outcomes q true true none (suc n) err q' e = absurd (cc)
  drain_outcomes q true true (some x) zero err q' e = ground arith
  drain_outcomes q true true (some x) (suc zero) err q' e = ground arith
  drain_outcomes q true true (some x) (suc (suc n)) err q' e = absurd (cc)
