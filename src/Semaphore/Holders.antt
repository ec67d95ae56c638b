-- ===== src/Semaphore/Holders.antt =====
-- The slots in use are the successful acquisitions that no release has followed.
use gx.Base.{
  ℕ, suc, ◌+◌, ◌≤◌, ◌<◌, ◌≡◌, ◌≢◌, ◌↔◌, refl, sym, ◌∙◌, subst, Bool, true, false, Option, none,
  some, List, [], ◌∷◌, ◌++◌, arith, length, length-append, inl, inr, ◌⊎◌, if◌then◌else◌,
}
use gx.Base.Int.{ℤ, pos, pos_part, leb_ℤ}
use gx.Sync.Chan.{send, receive}
use gx.Semaphore.{Semaphore, new_semaphore, acquire, try_acquire, release}

-- One of the outcomes that a list holds.
abbrev pub OneOf : {A : Type 0} → A → List A → Type 0
OneOf x [] = ⊥
OneOf x (y ∷ ys) = (x ≡ y) ⊎ OneOf x ys

-- Goroutines that share a new Semaphore, with the number of slots they hold.
pub data Reach (E : Type 0) (size : ℤ) : ℕ → Semaphore → Type 0 where
  start : Reach E size 0 (new_semaphore size)
  acquires :
      {n : ℕ} {s s' : Semaphore} (ctx : Option E)
      → OneOf (none, s') (acquire s ctx)
      → Reach E size n s
      → Reach E size (suc n) s'
  gives_up :
      {n : ℕ} {s s' : Semaphore} (ctx : Option E) (err : E)
      → OneOf (some err, s') (acquire s ctx)
      → Reach E size n s
      → Reach E size n s'
  tries :
      {n : ℕ} {s s' : Semaphore}
      → try_acquire s ≡ (true, s')
      → Reach E size n s
      → Reach E size (suc n) s'
  fails :
      {n : ℕ} {s s' : Semaphore}
      → try_acquire s ≡ (false, s')
      → Reach E size n s
      → Reach E size n s'
  releases :
      {n : ℕ} {s s' : Semaphore} → release s ≡ some s' → Reach E size (suc n) s → Reach E size n s'

abbrev pub slots : ℤ → ℕ
slots size = if leb_ℤ size (pos 0) then 1 else pos_part size

pub record IsHeld (size : ℤ) (n : ℕ) (s : Semaphore) : Type 0 where
  pub used : length s.ch.buf ≡ n
  pub within : n ≤ slots size
  pub cap : s.ch.cap ≡ slots size
  pub opened : s.ch.closed ≡ false

-- The state after a slot is taken.
abbrev pub taken : Semaphore → Semaphore
taken s = record { ch = record s.ch { buf = s.ch.buf ++ tt ∷ [] } }

module _ {E : Type 0} where
  -- The outcomes of `Acquire`: a slot, where one is free, or the context's error, where it is done.
  pub acquire_cases :
      (s s' : Semaphore) (ctx r : Option E)
      → s.ch.closed ≡ false
      → OneOf (r, s') (acquire s ctx)
      → ((r ≡ none) × (length s.ch.buf < s.ch.cap) × (s' ≡ taken s))
        ⊎ ((r ≡ ctx) × (r ≢ none) × (s' ≡ s))
  unfolding acquire send
  acquire_cases s s' none r c o = ground arith
  acquire_cases s s' (some e) r c o = ground arith

try_cases :
    (s s' : Semaphore) (b : Bool)
    → s.ch.closed ≡ false
    → try_acquire s ≡ (b, s')
    → ((b ≡ true) × (length s.ch.buf < s.ch.cap) × (s' ≡ taken s))
      ⊎ ((b ≡ false) × (s.ch.cap ≤ length s.ch.buf) × (s' ≡ s))
unfolding try_acquire send
try_cases s s' b c e = ground arith

release_cases :
    (s s' : Semaphore)
    → s.ch.closed ≡ false
    → release s ≡ some s'
    → (length s.ch.buf ≡ length s'.ch.buf + 1)
      × (s'.ch.cap ≡ s.ch.cap)
      × (s'.ch.closed ≡ s.ch.closed)
unfolding release receive
release_cases s s' c e = ground arith

taken-IsHeld :
    (size : ℤ) (n : ℕ) (s s' : Semaphore)
    → IsHeld size n s
    → length s.ch.buf < s.ch.cap
    → s' ≡ taken s
    → IsHeld size (suc n) s'
taken-IsHeld size n s s' v l e = rw e (record {
  used = omega (arith, length-append s.ch.buf (tt ∷ []), v.used);
  within = omega (arith, v.used, v.cap);
  cap = v.cap;
  opened = v.opened;
})

pub Reach-IsHeld :
    {E : Type 0} {size : ℤ} {n : ℕ} {s : Semaphore} → Reach E size n s → IsHeld size n s
unfolding new_semaphore
Reach-IsHeld start = record { used = refl; within = omega arith; cap = refl; opened = refl }
Reach-IsHeld (acquires {n} {s} {s'} ctx o r) =
    let v = Reach-IsHeld r in
    elim (acquire_cases s s' ctx none v.opened o) [
      | inl (_, l, e) ↦ taken-IsHeld _ n s s' v l e
      | inr (_, h, _) ↦ absurd (h refl)
    ]
Reach-IsHeld (gives_up {n} {s} {s'} ctx err o r) =
    let v = Reach-IsHeld r in
    elim (acquire_cases s s' ctx (some err) v.opened o) [
      | inl (h, _, _) ↦ absurd (cc)
      | inr (_, _, e) ↦ subst (IsHeld _ n) (sym e) v
    ]
Reach-IsHeld (tries {n} {s} {s'} t r) =
    let v = Reach-IsHeld r in
    elim (try_cases s s' true v.opened t) [
      | inl (_, l, e) ↦ taken-IsHeld _ n s s' v l e
      | inr (h, _, _) ↦ absurd (cc)
    ]
Reach-IsHeld (fails {n} {s} {s'} t r) =
    let v = Reach-IsHeld r in
    elim (try_cases s s' false v.opened t) [
      | inl (h, _, _) ↦ absurd (cc)
      | inr (_, _, e) ↦ subst (IsHeld _ n) (sym e) v
    ]
Reach-IsHeld (releases {n} {s} {s'} t r) =
    let v = Reach-IsHeld r in
    let (u, c, o) = release_cases s s' v.opened t in
    record {
      used = omega (arith, u, v.used);
      within = omega (arith, v.within);
      cap = c ∙ v.cap;
      opened = o ∙ v.opened;
    }

acquire-nil :
    {E : Type 0} (s : Semaphore) (ctx : Option E)
    → s.ch.closed ≡ false
    → (acquire s ctx ≡ []) ↔ ((s.ch.cap ≤ length s.ch.buf) × (ctx ≡ none))
unfolding acquire send
acquire-nil s none c = ground arith
acquire-nil s (some e) c = ground arith

-- However goroutines interleave their calls, a Semaphore never has more holders than its size, which
-- is one for a size that is not positive; and `Acquire` blocks exactly when it has that many holders and
-- the context is not done.
pub acquire-blocks :
    {E : Type 0} {size : ℤ} {n : ℕ} {s : Semaphore} (ctx : Option E)
    → Reach E size n s
    → (n ≤ slots size) × ((acquire s ctx ≡ []) ↔ ((n ≡ slots size) × (ctx ≡ none)))
acquire-blocks {s} ctx r =
    let v = Reach-IsHeld r in
    let b = acquire-nil s ctx v.opened in
    (
      v.within,
      (
        λ e. (omega (arith, b.0 e, v.used, v.cap, v.within), (b.0 e).1),
        λ h. b.1 (omega (arith, h.0, v.used, v.cap), h.1),
      ),
    )
