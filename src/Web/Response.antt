-- ===== src/Web/Response.antt =====
-- web/context.go: the writer of a response, with the calls that it makes of the http.ResponseWriter that
-- it wraps. `Body` is the type of the bytes.
pub mod Protocol
use gx.Base.{Bool, true, false, ◌&&◌, ◌||◌, List, [], ◌∷◌, ◌++◌, if◌then◌else◌}
use gx.Base.Int.{ℤ, pos, ltb_ℤ, leb_ℤ}
use gx.Base.Text.{Text}

-- A call of the wrapped writer; `set_header` is one of `Set` on its `Header()`.
pub data Sent {ℓ} (Body : Type ℓ) : Type ℓ where
  set_header : Text → Text → Sent Body
  header : ℤ → Sent Body
  body : Body → Sent Body
  flushed hijacked : Sent Body
  pushed : Text → Sent Body

-- What the wrapped writer is besides: an http.Flusher, an http.Hijacker, an http.Pusher.
pub record Abilities : Type 0 where
  pub flusher : Bool
  pub hijacker : Bool
  pub pusher : Bool

pub record ResponseWriter {ℓ} (Body : Type ℓ) : Type ℓ where
  pub header_written : Bool
  pub abilities : Abilities
  pub sent : List (Sent Body)

-- 1xx but for 101, which ends the header.
unfoldable pub is_informational : ℤ → Bool
is_informational status =
    leb_ℤ (pos 100) status
    && ltb_ℤ status (pos 200)
    && (ltb_ℤ status (pos 101) || ltb_ℤ (pos 101) status)

module _ {ℓ} {Body : Type ℓ} where
  abbrev pub new_writer : Abilities → ResponseWriter Body
  new_writer abilities = record { header_written = false; abilities = abilities; sent = [] }

  abbrev pub send : Sent Body → ResponseWriter Body → ResponseWriter Body
  send s w = record w { sent = w.sent ++ s ∷ [] }

  -- `headerWritten` is set, by the one that finds it not set.
  abbrev pub send_header : ℤ → ResponseWriter Body → ResponseWriter Body
  send_header status w =
      if w.header_written then w else record (send (header status) w) { header_written = true }

  unfoldable pub write_header : ResponseWriter Body → ℤ → ResponseWriter Body
  write_header w status =
      if is_informational status
      then (if w.header_written then w else send (header status) w)
      else send_header status w

  unfoldable pub write : ResponseWriter Body → Body → ResponseWriter Body
  write w b = send (body b) (send_header (pos 200) w)

  unfoldable pub flush : ResponseWriter Body → ResponseWriter Body
  flush w = if w.abilities.flusher then record (send flushed w) { header_written = true } else w

  unfoldable pub hijack : ResponseWriter Body → ResponseWriter Body
  hijack w = if w.abilities.hijacker then send hijacked w else w

  unfoldable pub push : ResponseWriter Body → Text → ResponseWriter Body
  push w target = if w.abilities.pusher then send (pushed target) w else w

-- What a handler calls.
pub data WriterCall {ℓ} (Body : Type ℓ) : Type ℓ where
  sets_header : Text → Text → WriterCall Body
  writes_header : ℤ → WriterCall Body
  writes : Body → WriterCall Body
  flushes hijacks : WriterCall Body
  pushes : Text → WriterCall Body

module _ {ℓ} {Body : Type ℓ} where
  abbrev pub apply : ResponseWriter Body → WriterCall Body → ResponseWriter Body
  apply w (sets_header key value) = send (set_header key value) w
  apply w (writes_header status) = write_header w status
  apply w (writes b) = write w b
  apply w flushes = flush w
  apply w hijacks = hijack w
  apply w (pushes target) = push w target

  abbrev pub apply_all : ResponseWriter Body → List (WriterCall Body) → ResponseWriter Body
  apply_all w [] = w
  apply_all w (c ∷ cs) = apply_all (apply w c) cs
