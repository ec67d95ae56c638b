-- ===== src/Web/Response/Protocol.antt =====
-- web/context.go: what the wrapped writer is sent.
use gx.Base.{◌≡◌, refl, sym, subst, Bool, true, false, List, [], ◌∷◌, ◌++◌, if◌then◌else◌}
use gx.Base.Int.{ℤ, pos}
use gx.Web.Response.{
  Sent, set_header, header, body, flushed, hijacked, pushed, Abilities, ResponseWriter,
  is_informational, new_writer, send, send_header, write_header, write, flush, hijack, push,
  WriterCall, sets_header, writes_header, writes, flushes, hijacks, pushes, apply, apply_all,
}

if-map :
    (b : Bool) {A B C D : Type 0} → (A → C) → (B → D) → (if b then A else B) → (if b then C else D)
if-map true f g = f
if-map false f g = g

if-elim {ℓ} :
    {X : Type ℓ} (P : X → Type 0) (b : Bool) (x y : X)
    → (b ≡ true → P x)
    → (b ≡ false → P y)
    → P (if b then x else y)
if-elim P true x y f g = f refl
if-elim P false x y f g = g refl

module _ {ℓ} {Body : Type ℓ} where
  -- No header any more.
  abbrev pub IsBody : List (Sent Body) → Type 0
  IsBody [] = Unit
  IsBody (header status ∷ sent) = ⊥
  IsBody (body b ∷ sent) = IsBody sent
  IsBody (flushed ∷ sent) = IsBody sent
  IsBody (set_header key value ∷ sent) = IsBody sent
  IsBody (hijacked ∷ sent) = IsBody sent
  IsBody (pushed target ∷ sent) = IsBody sent

  -- Informational headers, then at most one other header or a flush, and no body before that.
  abbrev pub IsResponse : List (Sent Body) → Type 0
  IsResponse [] = Unit
  IsResponse (header status ∷ sent) =
      if is_informational status then IsResponse sent else IsBody sent
  IsResponse (body b ∷ sent) = ⊥
  IsResponse (flushed ∷ sent) = IsBody sent
  IsResponse (set_header key value ∷ sent) = IsResponse sent
  IsResponse (hijacked ∷ sent) = IsResponse sent
  IsResponse (pushed target ∷ sent) = IsResponse sent

  -- The same, of what was sent before the header was written, or after.
  abbrev SoFar : Bool → List (Sent Body) → Type 0
  SoFar b [] = b ≡ false
  SoFar b (header status ∷ sent) =
      if is_informational status then SoFar b sent else ((b ≡ true) × IsBody sent)
  SoFar b (body c ∷ sent) = ⊥
  SoFar b (flushed ∷ sent) = (b ≡ true) × IsBody sent
  SoFar b (set_header key value ∷ sent) = SoFar b sent
  SoFar b (hijacked ∷ sent) = SoFar b sent
  SoFar b (pushed target ∷ sent) = SoFar b sent

  SoFar-IsResponse : (b : Bool) (sent : List (Sent Body)) → SoFar b sent → IsResponse sent
  SoFar-IsResponse b [] h = tt
  SoFar-IsResponse b (header status ∷ sent) h =
      if-map (is_informational status) (SoFar-IsResponse b sent) (λ k. k.1) h
  SoFar-IsResponse b (flushed ∷ sent) h = h.1
  SoFar-IsResponse b (body c ∷ sent) h = h
  SoFar-IsResponse b (set_header key value ∷ sent) h = SoFar-IsResponse b sent h
  SoFar-IsResponse b (hijacked ∷ sent) h = SoFar-IsResponse b sent h
  SoFar-IsResponse b (pushed target ∷ sent) h = SoFar-IsResponse b sent h

  IsBody-snoc : (sent more : List (Sent Body)) → IsBody sent → IsBody more → IsBody (sent ++ more)
  IsBody-snoc [] more h g = g
  IsBody-snoc (header status ∷ sent) more h g = h
  IsBody-snoc (body b ∷ sent) more h g = IsBody-snoc sent more h g
  IsBody-snoc (flushed ∷ sent) more h g = IsBody-snoc sent more h g
  IsBody-snoc (set_header key value ∷ sent) more h g = IsBody-snoc sent more h g
  IsBody-snoc (hijacked ∷ sent) more h g = IsBody-snoc sent more h g
  IsBody-snoc (pushed target ∷ sent) more h g = IsBody-snoc sent more h g

  -- Nothing but informational headers comes before the rest.
  SoFar-false :
      (b : Bool) (sent more : List (Sent Body))
      → SoFar false sent
      → SoFar b more
      → SoFar b (sent ++ more)
  SoFar-false b [] more h g = g
  SoFar-false b (header status ∷ sent) more h g =
      if-map (is_informational status) (λ k. SoFar-false b sent more k g)
        (λ k. absurd (false_true k.0)) h
    where
      false_true : ¬ (false ≡ true)
      false_true e = cc
  SoFar-false b (body c ∷ sent) more h g = h
  SoFar-false b (flushed ∷ sent) more h g = absurd (cc)
  SoFar-false b (set_header key value ∷ sent) more h g = SoFar-false b sent more h g
  SoFar-false b (hijacked ∷ sent) more h g = SoFar-false b sent more h g
  SoFar-false b (pushed target ∷ sent) more h g = SoFar-false b sent more h g

  SoFar-true :
      (sent more : List (Sent Body)) → SoFar true sent → IsBody more → SoFar true (sent ++ more)
  SoFar-true [] more h g = absurd (cc)
  SoFar-true (header status ∷ sent) more h g =
      if-map (is_informational status) (λ k. SoFar-true sent more k g)
        (λ k. (k.0, IsBody-snoc sent more k.1 g)) h
  SoFar-true (body c ∷ sent) more h g = h
  SoFar-true (flushed ∷ sent) more h g = (h.0, IsBody-snoc sent more h.1 g)
  SoFar-true (set_header key value ∷ sent) more h g = SoFar-true sent more h g
  SoFar-true (hijacked ∷ sent) more h g = SoFar-true sent more h g
  SoFar-true (pushed target ∷ sent) more h g = SoFar-true sent more h g

  -- What may stand anywhere.
  abbrev IsAside : Sent Body → Type 0
  IsAside (header status) = ⊥
  IsAside (body b) = ⊥
  IsAside flushed = ⊥
  IsAside (set_header key value) = Unit
  IsAside hijacked = Unit
  IsAside (pushed target) = Unit

  SoFar-aside :
      (b : Bool) (sent : List (Sent Body)) (s : Sent Body)
      → IsAside s
      → SoFar b sent
      → SoFar b (sent ++ s ∷ [])
  SoFar-aside true sent (set_header key value) a h =
      SoFar-true sent (set_header key value ∷ []) h tt
  SoFar-aside true sent hijacked a h = SoFar-true sent (hijacked ∷ []) h tt
  SoFar-aside true sent (pushed target) a h = SoFar-true sent (pushed target ∷ []) h tt
  SoFar-aside false sent (set_header key value) a h =
      SoFar-false false sent (set_header key value ∷ []) h refl
  SoFar-aside false sent hijacked a h = SoFar-false false sent (hijacked ∷ []) h refl
  SoFar-aside false sent (pushed target) a h = SoFar-false false sent (pushed target ∷ []) h refl
  SoFar-aside b sent (header status) a h = absurd a
  SoFar-aside b sent (body c) a h = absurd a
  SoFar-aside b sent flushed a h = absurd a

  abbrev Holds : ResponseWriter Body → Type 0
  Holds w = SoFar w.header_written w.sent

  send_header-Holds :
      (w : ResponseWriter Body) (status : ℤ)
      → is_informational status ≡ false
      → Holds w
      → Holds (send_header status w) × ((send_header status w).header_written ≡ true)
  send_header-Holds w status i h = go w.header_written refl h
    where
      last : SoFar true (header status ∷ [])
      last =
          subst (λ b. if b then (true ≡ false) else ((true ≡ true) × Unit {0})) (sym i) (refl, tt)

      go :
          (b : Bool)
          → w.header_written ≡ b
          → SoFar b w.sent
          → Holds (if b then w else record (send (header status) w) { header_written = true })
            × ((if b
                  then w
                  else record (send (header status) w) { header_written = true }).header_written
                ≡ true)
      go true e k = (h, e)
      go false e k = (SoFar-false true w.sent (header status ∷ []) k last, refl)

  write_header-Holds :
      (w : ResponseWriter Body) (status : ℤ) → Holds w → Holds (write_header w status)
  unfolding write_header
  write_header-Holds w status h =
      if-elim Holds (is_informational status) _ _
        (λ i.
          if-elim Holds w.header_written w (send (header status) w) (λ _. h)
            (λ e.
              subst (λ b. SoFar b (w.sent ++ header status ∷ [])) (sym e)
                (SoFar-false false w.sent (header status ∷ []) (subst (λ b. SoFar b w.sent) e h)
                  (early i))))
        (λ i. (send_header-Holds w status i h).0)
    where
      early : is_informational status ≡ true → SoFar false (header status ∷ [])
      early i = subst (λ b. if b then (false ≡ false) else ((false ≡ true) × Unit {0})) (sym i) refl

  write-Holds : (w : ResponseWriter Body) (b : Body) → Holds w → Holds (write w b)
  unfolding write is_informational
  write-Holds w b h =
      let (k, e) = send_header-Holds w (pos 200) refl h in
      let w' : ResponseWriter Body = send_header (pos 200) w in
      subst (λ c. SoFar c (w'.sent ++ body b ∷ [])) (sym e)
        (SoFar-true w'.sent (body b ∷ []) (subst (λ c. SoFar c w'.sent) e k) tt)

  flush-Holds : (w : ResponseWriter Body) → Holds w → Holds (flush w)
  unfolding flush
  flush-Holds w h = if-elim Holds w.abilities.flusher _ w (λ _. go w.header_written h) (λ _. h)
    where
      go : (b : Bool) → SoFar b w.sent → SoFar true (w.sent ++ flushed ∷ [])
      go true k = SoFar-true w.sent (flushed ∷ []) k tt
      go false k = SoFar-false true w.sent (flushed ∷ []) k (refl, tt)

  apply-Holds : (w : ResponseWriter Body) (c : WriterCall Body) → Holds w → Holds (apply w c)
  unfolding hijack push
  apply-Holds w (writes_header status) h = write_header-Holds w status h
  apply-Holds w (writes b) h = write-Holds w b h
  apply-Holds w flushes h = flush-Holds w h
  apply-Holds w (sets_header key value) h =
      SoFar-aside w.header_written w.sent (set_header key value) tt h
  apply-Holds w hijacks h =
      if-elim Holds w.abilities.hijacker (send hijacked w) w
        (λ _. SoFar-aside w.header_written w.sent hijacked tt h) (λ _. h)
  apply-Holds w (pushes target) h =
      if-elim Holds w.abilities.pusher (send (pushed target) w) w
        (λ _. SoFar-aside w.header_written w.sent (pushed target) tt h) (λ _. h)

  apply_all-Holds :
      (w : ResponseWriter Body) (cs : List (WriterCall Body)) → Holds w → Holds (apply_all w cs)
  apply_all-Holds w [] h = h
  apply_all-Holds w (c ∷ cs) h = apply_all-Holds (apply w c) cs (apply-Holds w c h)

  -- Whatever a handler calls, and in whatever order: the wrapped writer is sent informational headers
  -- first, then at most one other header or a flush, and after that no header; and nothing of the body
  -- before that.
  pub apply_all-IsResponse :
      (abilities : Abilities) (cs : List (WriterCall Body))
      → IsResponse (apply_all (new_writer abilities) cs).sent
  apply_all-IsResponse abilities cs =
      (let w : ResponseWriter Body = apply_all (new_writer abilities) cs in
        SoFar-IsResponse w.header_written w.sent (apply_all-Holds (new_writer abilities) cs refl))
