-- ===== src/Queue/Complete.antt =====
-- queue.go: what a run has done when it ends and nothing has cancelled it.
use gx.Base.{
  ℕ, ◌+◌, ◌<◌, ◌≡◌, refl, sym, ap, ◌∙◌, subst, true, Option, none, some, [], ◌++◌, append-nil,
  length, ◌⊎◌, inl, inr, arith, if_both, ◌≢◌,
}
use gx.Base.Int.{ℤ}
use gx.Sync.Context.{Cause, cancel_cause}
use gx.Queue.{
  Queue, Error, Options, new_queue, worker_count, push_full, fail, close_mark, returns, run_begin,
  stops, takes, work_failed, run_end,
}
use gx.Queue.Steps.{woken, sealed, System, Step, Reach, start, later}
use gx.Queue.Choices.{push_locked-accepted, push_wait_select-Chosen, work_select-Work, IsSent}
use gx.Queue.Invariant.{Reach-Inv, is_marked, wakes, seals}
use gx.Queue.Progress.{closed_sealed}

worker_count_pos : (n : ℤ) → 0 < worker_count n
worker_count_pos n = ground arith

cancel_cause-ne-none {ℓ} :
    {E : Type ℓ} (c : Option (Cause E)) (err : Option E) → cancel_cause c err ≢ none
unfolding cancel_cause
cancel_cause-ne-none none err e = absurd (cc)
cancel_cause-ne-none (some c) err e = absurd (cc)

module _ {ℓ κ} {T : Type ℓ} {X : Type κ} where
  -- The channel is closed and empty.
  abbrev IsDrained : Queue T X → Type ℓ
  IsDrained q = (q.queue.closed ≡ true) × (q.queue.buf ≡ [])

  abbrev at_work : System T X → ℕ
  at_work s = s.idle + length s.busy

  -- While a run is under way that nothing has cancelled, some worker is left, or no item.
  record Busy (s : System T X) : Type (ℓ ⊔ κ) where
    workers : 0 < s.q.workers
    going : s.q.running ≡ true → s.q.cause ≡ none → (0 < at_work s) ⊎ IsDrained s.q

  keeps-Busy :
      (s s' : System T X)
      → s'.q.workers ≡ s.q.workers
      → (s'.q.running ≡ true → s.q.running ≡ true)
      → (s'.q.cause ≡ none → s.q.cause ≡ none)
      → (0 < at_work s → 0 < at_work s')
      → (IsDrained s.q → IsDrained s'.q)
      → Busy s
      → Busy s'
  keeps-Busy s s' w r c n d b = record {
    workers = subst (λ k. 0 < k) (sym w) b.workers;
    going = λ running alive. elim (b.going (r running) (c alive)) [
      | inl p ↦ inl (n p)
      | inr p ↦ inr (d p)
    ];
  }

  -- The parts of `q` that this is about.
  Same : Queue T X → Queue T X → Type (ℓ ⊔ κ)
  Same q q' =
      (q'.workers ≡ q.workers)
      × (q'.running ≡ q.running)
      × (q'.cause ≡ none → q.cause ≡ none)
      × (q'.queue ≡ q.queue)

  Same-Busy : (s : System T X) (q' : Queue T X) → Same s.q q' → Busy s → Busy (record s { q = q' })
  unfolding Same
  Same-Busy s q' (w, r, c, e) b =
      keeps-Busy s (record s { q = q' }) w (λ h. sym r ∙ h) c (λ h. h)
        (λ d. (ap (λ c. c.closed) e ∙ d.0, ap (λ c. c.buf) e ∙ d.1)) b

  fail-Same : (q : Queue T X) (err : Option (Error X)) → Same q (fail q err)
  unfolding Same fail cancel_cause
  fail-Same q none = (refl, refl, λ h. h, refl)
  fail-Same q (some err) = (ground arith, ground arith, λ h. ground arith, ground arith)

  push_full-Same : (q : Queue T X) → Same q (push_full q)
  unfolding Same push_full
  push_full-Same q =
      if_both (Same q) q.fail_on_full (fail q (some Error.queue_full)) q
        (fail-Same q (some Error.queue_full)) (refl, refl, λ h. h, refl)

  -- An item that is sent finds the channel open.
  sends-Busy :
      (s : System T X) (q' : Queue T X) (item : T)
      → IsSent s.q item q'
      → Busy s
      → Busy (record s { q = q' })
  sends-Busy s q' item (o, e) b =
      keeps-Busy s (record s { q = q' }) (ap (λ q. q.workers) e)
        (λ h. sym (ap (λ q. q.running) e) ∙ h) (λ h. sym (ap (λ q. q.cause) e) ∙ h) (λ h. h)
        (λ d. let x : s.q.queue.closed ≡ true = d.0 in absurd (cc)) b

  begins :
      (q q' : Queue T X) (parent : Option (Cause (Error X)))
      → run_begin q parent ≡ (none, q')
      → q'.workers ≡ q.workers
  unfolding run_begin
  begins q q' parent e = ground arith

  sealed-Busy :
      (s : System T X)
      → Busy s
      → Busy (record s { q = record s.q { queue = record s.q.queue { closed = true } } })
  sealed-Busy s b =
      keeps-Busy s (record s { q = record s.q { queue = record s.q.queue { closed = true } } }) refl
        (λ h. h) (λ h. h) (λ h. h) (λ d. (refl, d.1)) b

  Step-Busy : {s s' : System T X} → Step s s' → Busy s → Busy s'
  unfolding close_mark work_failed run_end Same
  Step-Busy {s} (Step.push_accepted item q' p e) b = subst Busy (sym e) (
      let c = sends-Busy s q' item (push_locked-accepted s.q q' item p) b in
      record { workers = c.workers; going = c.going })
  Step-Busy {s} (Step.push_failed e) b =
      subst Busy (sym e) (Same-Busy s (push_full s.q) (push_full-Same s.q) b)
  Step-Busy (Step.enter item e) b =
      subst Busy (sym e) (record { workers = b.workers; going = b.going })
  Step-Busy (Step.check_open item before after c o e) b =
      subst Busy (sym e) (record { workers = b.workers; going = b.going })
  Step-Busy (Step.check_closed item before after c o e) b =
      subst Busy (sym e) (record { workers = b.workers; going = b.going })
  Step-Busy {s} (Step.select_sent item before after ctx n q' l p e) b =
      let c = sends-Busy s q' item (push_wait_select-Chosen s.q item ctx n (returns none q') p) b in
      subst Busy (sym e) (record { workers = c.workers; going = c.going })
  Step-Busy {s} (Step.select_gave_up item before after ctx n err q' l p e) b =
      let c : q' ≡ s.q = push_wait_select-Chosen s.q item ctx n (returns (some err) q') p in
      let d =
        subst (λ q. Busy (record s { q = q })) (sym c)
          (record { workers = b.workers; going = b.going }) in
      subst Busy (sym e) (record { workers = d.workers; going = d.going })
  Step-Busy (Step.mark k e) b = subst Busy (sym e) (record { workers = b.workers; going = b.going })
  Step-Busy {s} (Step.wake q' k p e) b =
      subst Busy (sym (e ∙ ap (λ q. record s { q = q; closing = woken }) (wakes s q' p)))
        (record { workers = b.workers; going = b.going })
  Step-Busy {s} (Step.seal q' k _ l p e) b =
      subst Busy (sym (e ∙ ap (λ q. record s { q = q; closing = sealed }) (seals s q' p)))
        (let d = sealed-Busy s b in record { workers = d.workers; going = d.going })
  Step-Busy {s} (Step.begin parent q' p e) b = subst Busy (sym e) (record {
    workers = subst (λ k. 0 < k) (sym (begins s.q q' parent p)) b.workers;
    going = λ _ _. inl (omega (arith, b.workers));
  })
  Step-Busy (Step.cancelled c _ e) b =
      subst Busy (sym e) (record { workers = b.workers; going = λ _ h. absurd (cc) })
  Step-Busy {s} (Step.take others n item q' _ p e) b =
      let (rest, l, c) = work_select-Work s.q n (takes item q') p in
      subst Busy (sym e) (record {
        workers = subst (λ k. 0 < k) (sym (ap (λ q. q.workers) c)) b.workers;
        going = λ _ _. inl (omega arith);
      })
  Step-Busy {s} (Step.stop others n _ p e) b = subst Busy (sym e) (record {
    workers = b.workers;
    going = λ _ alive. elim (work_select-Work s.q n stops p) [
      | inl d ↦ inr d
      | inr (c, k) ↦ absurd (cc)
    ];
  })
  Step-Busy (Step.worked item before after _ e) b =
      subst Busy (sym e) (record { workers = b.workers; going = λ _ _. inl (omega arith) })
  Step-Busy {s} (Step.work_fails item before after err _ e) b =
      subst Busy (sym e)
        (record { workers = b.workers; going = λ _ h. absurd (cancel_cause-ne-none s.q.cause _ h) })
  Step-Busy (Step.end _ _ _ e) b =
      subst Busy (sym e) (record { workers = b.workers; going = λ h _. absurd (cc) })

  Reach-Busy : {opts : Options} {s : System T X} → Reach opts s → Busy s
  unfolding new_queue
  Reach-Busy {opts} start = record {
    workers = worker_count_pos opts.workers;
    going = λ h _. absurd (cc);
  }
  Reach-Busy (later r t) = Step-Busy t (Reach-Busy r)

  -- A run that ends though nothing has cancelled it has done all the work: in every state reached from
  -- a new Queue in which a run is under way, its context is not cancelled and none of its workers is
  -- left, waiting or busy, the Queue is closed, and every item that was sent has been handed to a
  -- worker and none is still being processed.
  pub finished_run_complete :
      {opts : Options} {s : System T X}
      → Reach opts s
      → s.q.running ≡ true
      → s.q.cause ≡ none
      → s.idle ≡ 0
      → s.busy ≡ []
      → (s.sent ≡ s.handed) × (s.q.closed ≡ true)
  finished_run_complete {opts} {s} r running alive i l =
      let v = Reach-Inv r in
      elim ((Reach-Busy r).going running alive) [
        | inl p ↦ absurd (omega (arith, ap length l))
        | inr (c, b) ↦ (
          v.fifo ∙ ap (λ l. s.handed ++ l) b ∙ append-nil s.handed,
          v.closed_at ∙ ap is_marked (closed_sealed v c),
        )
      ]
