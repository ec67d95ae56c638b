-- ===== src/Queue/Invariant.antt =====
-- queue.go: what the goroutines that share a Queue keep true of its flags and its channels.
use gx.Base.{
  ◌≡◌, refl, sym, ap, ◌∙◌, subst, Bool, true, false, Option, none, some, List, [], ◌∷◌, ◌++◌,
  append_assoc, arith,
}
use gx.Sync.Context.{Cause}
use gx.Queue.{
  Queue, Error, Options, new_queue, push_full, close_mark, close_wake, close_seal, returns,
  run_begin, takes, work_failed, run_end, fail,
}
use gx.Queue.Steps.{Closing, unclosed, woken, sealed, System, Step, Reach, start, later}
use gx.Queue.Choices.{
  with_buf, IsSent, push_locked-accepted, push_wait_select-Chosen, work_select-Work,
}

abbrev pub is_marked : Closing → Bool
is_marked unclosed = false
is_marked _ = true

abbrev pub is_woken : Closing → Bool
is_woken woken = true
is_woken sealed = true
is_woken _ = false

abbrev pub is_sealed : Closing → Bool
is_sealed sealed = true
is_sealed _ = false

-- `closed_at`, `woken_at` and `sealed_at` tie the flags to how far `Close` has come. `no_sender`: no
-- `PushWait` is at its `select` once the channel is closed. `fifo`: the items sent are those handed to
-- workers and then those in the channel.
pub record Inv {ℓ κ} {T : Type ℓ} {X : Type κ} (s : System T X) : Type (ℓ ⊔ κ) where
  pub closed_at : s.q.closed ≡ is_marked s.closing
  pub woken_at : s.q.push_wait_done ≡ is_woken s.closing
  pub sealed_at : s.q.queue.closed ≡ is_sealed s.closing
  pub no_sender : s.closing ≡ sealed → s.selecting ≡ []
  pub fifo : s.sent ≡ s.handed ++ s.q.queue.buf

module _ {ℓ} {A : Type ℓ} where
  not_empty : (before after : List A) (x : A) → before ++ x ∷ after ≡ [] → (before ++ after ≡ [])
  not_empty [] after x e = absurd (cc)
  not_empty (b ∷ before) after x e = absurd (cc)

module _ {ℓ κ} {T : Type ℓ} {X : Type κ} where
  -- The fields of `q` that the invariant is about.
  Agrees : Queue T X → Queue T X → Type ℓ
  Agrees q q' =
      (q'.closed ≡ q.closed) × (q'.push_wait_done ≡ q.push_wait_done) × (q'.queue ≡ q.queue)

  keeps :
      (s s' : System T X)
      → Inv s
      → Agrees s.q s'.q
      → s'.closing ≡ s.closing
      → (s.closing ≡ sealed → s.selecting ≡ [] → s'.selecting ≡ [])
      → s'.sent ≡ s.sent
      → s'.handed ≡ s.handed
      → Inv s'
  unfolding Agrees
  keeps s s' v (c, w, q) k e f g = record {
    closed_at = c ∙ v.closed_at ∙ ap is_marked (sym k);
    woken_at = w ∙ v.woken_at ∙ ap is_woken (sym k);
    sealed_at = ap (λ c. c.closed) q ∙ v.sealed_at ∙ ap is_sealed (sym k);
    no_sender = λ h. e (sym k ∙ h) (v.no_sender (sym k ∙ h));
    fifo = f ∙ v.fifo ∙ ap (λ h. h ++ s.q.queue.buf) (sym g) ∙ ap (λ c. s'.handed ++ c.buf) (sym q);
  }

  fail-Agrees : (q : Queue T X) (err : Option (Error X)) → Agrees q (fail q err)
  unfolding Agrees fail
  fail-Agrees q none = (refl, refl, refl)
  fail-Agrees q (some err) = ground arith

  push_full-Agrees : (q : Queue T X) → Agrees q (push_full q)
  unfolding Agrees push_full
  push_full-Agrees q = ground (arith, fail-Agrees q (some Error.queue_full))

  run_begin-Agrees :
      (q q' : Queue T X) (parent : Option (Cause (Error X)))
      → run_begin q parent ≡ (none, q')
      → Agrees q q'
  unfolding Agrees run_begin
  run_begin-Agrees q q' parent e = ground arith

  -- An item goes into the channel, which is open.
  sends :
      (s s' : System T X) (item : T) (q' : Queue T X)
      → Inv s
      → IsSent s.q item q'
      → s'.q ≡ q'
      → s'.closing ≡ s.closing
      → s'.sent ≡ s.sent ++ item ∷ []
      → s'.handed ≡ s.handed
      → Inv s'
  sends s s' item q' v (o, e) p k f g = record {
    closed_at = ap (λ q. q.closed) (p ∙ e) ∙ v.closed_at ∙ ap is_marked (sym k);
    woken_at = ap (λ q. q.push_wait_done) (p ∙ e) ∙ v.woken_at ∙ ap is_woken (sym k);
    sealed_at = ap (λ q. q.queue.closed) (p ∙ e) ∙ v.sealed_at ∙ ap is_sealed (sym k);
    no_sender = λ h.
        let x : s.q.queue.closed ≡ true = v.sealed_at ∙ ap is_sealed (sym k ∙ h) in absurd (cc);
    fifo =
        f
        ∙ ap (λ l. l ++ item ∷ []) v.fifo
        ∙ append_assoc s.handed s.q.queue.buf (item ∷ [])
        ∙ ap (λ h. h ++ (s.q.queue.buf ++ item ∷ [])) (sym g)
        ∙ ap (λ q. s'.handed ++ q.queue.buf) (sym (p ∙ e));
  }

  -- A worker takes an item.
  receives :
      (s s' : System T X) (item : T) (rest : List T)
      → Inv s
      → s.q.queue.buf ≡ item ∷ rest
      → s'.q ≡ with_buf s.q rest
      → s'.closing ≡ s.closing
      → s'.selecting ≡ s.selecting
      → s'.sent ≡ s.sent
      → s'.handed ≡ s.handed ++ item ∷ []
      → Inv s'
  receives s s' item rest v b p k l f g = record {
    closed_at = ap (λ q. q.closed) p ∙ v.closed_at ∙ ap is_marked (sym k);
    woken_at = ap (λ q. q.push_wait_done) p ∙ v.woken_at ∙ ap is_woken (sym k);
    sealed_at = ap (λ q. q.queue.closed) p ∙ v.sealed_at ∙ ap is_sealed (sym k);
    no_sender = λ h. l ∙ v.no_sender (sym k ∙ h);
    fifo =
        f
        ∙ v.fifo
        ∙ ap (λ xs. s.handed ++ xs) b
        ∙ sym (append_assoc s.handed (item ∷ []) rest)
        ∙ ap (λ h. h ++ rest) (sym g)
        ∙ ap (λ q. s'.handed ++ q.queue.buf) (sym p);
  }

  pub wakes :
      (s : System T X) (q' : Queue T X)
      → close_wake s.q ≡ some q'
      → q' ≡ record s.q { push_wait_done = true }
  unfolding close_wake
  wakes s q' e = ground arith

  pub seals :
      (s : System T X) (q' : Queue T X)
      → close_seal s.q ≡ some q'
      → q' ≡ record s.q { queue = record s.q.queue { closed = true } }
  unfolding close_seal
  seals s q' e = ground arith

  pub Step-Inv : {s s' : System T X} → Step s s' → Inv s → Inv s'
  unfolding Agrees close_mark work_failed run_end
  Step-Inv {s} (Step.push_accepted item q' p e) v =
      subst Inv (sym e)
        (sends s _ item q' v (push_locked-accepted s.q q' item p) refl refl refl refl)
  Step-Inv {s} (Step.push_failed e) v =
      subst Inv (sym e) (keeps s _ v (push_full-Agrees s.q) refl (λ _ h. h) refl refl)
  Step-Inv {s} (Step.enter item e) v =
      subst Inv (sym e) (keeps s _ v (refl, refl, refl) refl (λ _ h. h) refl refl)
  Step-Inv {s} (Step.check_open item before after c o e) v = subst Inv (sym e) (
      keeps s _ v (refl, refl, refl) refl
        (λ h. let x : s.q.closed ≡ true = v.closed_at ∙ ap is_marked h in absurd (cc)) refl refl)
  Step-Inv {s} (Step.check_closed item before after c o e) v =
      subst Inv (sym e) (keeps s _ v (refl, refl, refl) refl (λ _ h. h) refl refl)
  Step-Inv {s} (Step.select_sent item before after ctx n q' l p e) v = subst Inv (sym e) (
      sends s _ item q' v (push_wait_select-Chosen s.q item ctx n (returns none q') p) refl refl
        refl refl)
  Step-Inv {s} (Step.select_gave_up item before after ctx n err q' l p e) v =
      let c : q' ≡ s.q = push_wait_select-Chosen s.q item ctx n (returns (some err) q') p in
      subst Inv (sym e) (
        keeps s _ v (ap (λ q. q.closed) c, ap (λ q. q.push_wait_done) c, ap (λ q. q.queue) c) refl
          (λ _ h. not_empty before after item (sym l ∙ h)) refl refl)
  Step-Inv {s} (Step.mark k e) v = subst Inv (sym e) (record {
    closed_at = refl;
    woken_at = v.woken_at ∙ ap is_woken k;
    sealed_at = v.sealed_at ∙ ap is_sealed k;
    no_sender = λ h. absurd (cc);
    fifo = v.fifo;
  })
  Step-Inv {s} (Step.wake q' k p e) v =
      subst Inv (sym (e ∙ ap (λ q. record s { q = q; closing = woken }) (wakes s q' p))) (record {
        closed_at = v.closed_at ∙ ap is_marked k;
        woken_at = refl;
        sealed_at = v.sealed_at ∙ ap is_sealed k;
        no_sender = λ h. absurd (cc);
        fifo = v.fifo;
      })
  Step-Inv {s} (Step.seal q' k _ l p e) v =
      subst Inv (sym (e ∙ ap (λ q. record s { q = q; closing = sealed }) (seals s q' p))) (record {
        closed_at = v.closed_at ∙ ap is_marked k;
        woken_at = v.woken_at ∙ ap is_woken k;
        sealed_at = refl;
        no_sender = λ _. l;
        fifo = v.fifo;
      })
  Step-Inv {s} (Step.begin parent q' p e) v =
      subst Inv (sym e) (keeps s _ v (run_begin-Agrees s.q q' parent p) refl (λ _ h. h) refl refl)
  Step-Inv {s} (Step.cancelled c _ e) v =
      subst Inv (sym e) (keeps s _ v (refl, refl, refl) refl (λ _ h. h) refl refl)
  Step-Inv {s} (Step.take others n item q' _ p e) v =
      let (rest, b, c) = work_select-Work s.q n (takes item q') p in
      subst Inv (sym e) (receives s _ item rest v b c refl refl refl refl)
  Step-Inv {s} (Step.stop others n _ _ e) v =
      subst Inv (sym e) (keeps s _ v (refl, refl, refl) refl (λ _ h. h) refl refl)
  Step-Inv {s} (Step.worked item before after _ e) v =
      subst Inv (sym e) (keeps s _ v (refl, refl, refl) refl (λ _ h. h) refl refl)
  Step-Inv {s} (Step.work_fails item before after err _ e) v =
      subst Inv (sym e) (keeps s _ v (refl, refl, refl) refl (λ _ h. h) refl refl)
  Step-Inv {s} (Step.end _ _ _ e) v =
      subst Inv (sym e) (keeps s _ v (refl, refl, refl) refl (λ _ h. h) refl refl)

  pub Reach-Inv : {opts : Options} {s : System T X} → Reach opts s → Inv s
  unfolding new_queue
  Reach-Inv start = record {
    closed_at = refl;
    woken_at = refl;
    sealed_at = refl;
    no_sender = λ h. absurd (cc);
    fifo = refl;
  }
  Reach-Inv (later r t) = Step-Inv t (Reach-Inv r)
