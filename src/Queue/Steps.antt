-- ===== src/Queue/Steps.antt =====
-- The goroutines that share a Queue, a section of their code at a time.
use gx.Base.{ℕ, suc, true, false, Option, none, some, List, [], ◌∷◌, ◌++◌, ◌≡◌, get_elem?}
use gx.Sync.Context.{Cause}
use gx.Queue.{
  Queue, Error, Options, new_queue, accepted, push_locked, push_full, close_mark, close_wake,
  close_seal, returns, push_wait_select, run_begin, stops, takes, work_select, work_failed, run_end,
}

-- How far the one call of `Close` that runs has come.
pub data Closing : Type 0 where
  unclosed marked woken sealed : Closing

-- `checking` and `selecting` are the items of the calls of `PushWait` that hold `pushWaitMu`, before
-- and after they have read `closed`. `idle` counts the workers in their `select`, `busy` has the items
-- that are being processed. `sent` and `handed` are the items that went into the channel and those
-- that workers took from it, in order.
pub record System {ℓ κ} (T : Type ℓ) (X : Type κ) : Type (ℓ ⊔ κ) where
  pub q : Queue T X
  pub closing : Closing
  pub checking : List T
  pub selecting : List T
  pub idle : ℕ
  pub busy : List T
  pub sent : List T
  pub handed : List T

abbrev pub init {ℓ κ} : {T : Type ℓ} {X : Type κ} → Options → System T X
init opts = record {
  q = new_queue opts;
  closing = unclosed;
  checking = [];
  selecting = [];
  idle = 0;
  busy = [];
  sent = [];
  handed = [];
}

module _ {ℓ κ} {T : Type ℓ} {X : Type κ} where
  -- A step of one goroutine. Of what a `select` may do, `n` is the one that is chosen. A `PushWait`
  -- may enter at any time, also while the closing goroutine waits for `pushWaitMu`; that goroutine
  -- seals the channel when no `PushWait` holds the lock.
  pub data Step (s s' : System T X) : Type (ℓ ⊔ κ) where
    push_accepted :
        (item : T) (q' : Queue T X)
        → push_locked s.q item ≡ some (accepted, q')
        → s' ≡ record s { q = q'; sent = s.sent ++ item ∷ [] }
        → Step s s'
    push_failed : s' ≡ record s { q = push_full s.q } → Step s s'
    enter : (item : T) → s' ≡ record s { checking = item ∷ s.checking } → Step s s'
    check_open :
        (item : T) (before after : List T)
        → s.checking ≡ before ++ item ∷ after
        → s.q.closed ≡ false
        → s' ≡ record s { checking = before ++ after; selecting = item ∷ s.selecting }
        → Step s s'
    check_closed :
        (item : T) (before after : List T)
        → s.checking ≡ before ++ item ∷ after
        → s.q.closed ≡ true
        → s' ≡ record s { checking = before ++ after }
        → Step s s'
    select_sent :
        (item : T) (before after : List T) (ctx : Option (Error X)) (n : ℕ) (q' : Queue T X)
        → s.selecting ≡ before ++ item ∷ after
        → get_elem? (push_wait_select s.q item ctx) n ≡ some (returns none q')
        → s' ≡ record s { q = q'; selecting = before ++ after; sent = s.sent ++ item ∷ [] }
        → Step s s'
    select_gave_up :
        (item : T) (before after : List T) (ctx : Option (Error X)) (n : ℕ) (err : Error X)
        (q' : Queue T X)
        → s.selecting ≡ before ++ item ∷ after
        → get_elem? (push_wait_select s.q item ctx) n ≡ some (returns (some err) q')
        → s' ≡ record s { q = q'; selecting = before ++ after }
        → Step s s'
    mark : s.closing ≡ unclosed → s' ≡ record s { q = close_mark s.q; closing = marked } → Step s s'
    wake :
        (q' : Queue T X)
        → s.closing ≡ marked
        → close_wake s.q ≡ some q'
        → s' ≡ record s { q = q'; closing = woken }
        → Step s s'
    seal :
        (q' : Queue T X)
        → s.closing ≡ woken
        → s.checking ≡ []
        → s.selecting ≡ []
        → close_seal s.q ≡ some q'
        → s' ≡ record s { q = q'; closing = sealed }
        → Step s s'
    begin :
        (parent : Option (Cause (Error X))) (q' : Queue T X)
        → run_begin s.q parent ≡ (none, q')
        → s' ≡ record s { q = q'; idle = s.q.workers }
        → Step s s'
    cancelled :
        (c : Cause (Error X))
        → s.q.cause ≡ none
        → s' ≡ record s { q = record s.q { cause = some c } }
        → Step s s'
    take :
        (others n : ℕ) (item : T) (q' : Queue T X)
        → s.idle ≡ suc others
        → get_elem? (work_select s.q) n ≡ some (takes item q')
        → s'
          ≡ record s { q = q'; idle = others; busy = item ∷ s.busy; handed = s.handed ++ item ∷ [] }
        → Step s s'
    stop :
        (others n : ℕ)
        → s.idle ≡ suc others
        → get_elem? (work_select s.q) n ≡ some stops
        → s' ≡ record s { idle = others }
        → Step s s'
    worked :
        (item : T) (before after : List T)
        → s.busy ≡ before ++ item ∷ after
        → s' ≡ record s { idle = suc s.idle; busy = before ++ after }
        → Step s s'
    work_fails :
        (item : T) (before after : List T) (err : X)
        → s.busy ≡ before ++ item ∷ after
        → s' ≡ record s { q = work_failed s.q err; busy = before ++ after }
        → Step s s'
    end :
        s.q.running ≡ true
        → s.idle ≡ 0
        → s.busy ≡ []
        → s' ≡ record s { q = run_end s.q }
        → Step s s'

  pub data Reach (opts : Options) : System T X → Type (ℓ ⊔ κ) where
    start : Reach opts (init opts)
    later : {s s' : System T X} → Reach opts s → Step s s' → Reach opts s'
