-- ===== src/Web/Handler.antt =====
-- web/server.go: handlers for one request, how their errors are answered, and middleware. A handler is
-- what it does with the context of the request, and its error.
pub mod Answer
pub mod Order
pub mod Writes
use gx.Base.{Bool, ◌||◌, Option, none, some, List, [], ◌∷◌, reverse, if◌then◌else◌}
use gx.Base.Int.{ℤ, pos, ltb_ℤ}
use gx.Web.Error.{StatusError}
use gx.Web.Context.{
  Request, Library, Context, HttpWriter, default_options, new_context, response_written,
}
use gx.Web.Context.Logs.{log_error, log_error_response_write}
use gx.Web.Context.Formats.{json}

abbrev pub Handler {ℓ κ} : Type ℓ → Type κ → Type (ℓ ⊔ κ)
Handler E Any = Context E Any → Option E × Context E Any

abbrev pub Middleware {ℓ κ} : Type ℓ → Type κ → Type (ℓ ⊔ κ)
Middleware E Any = Handler E Any → Handler E Any

abbrev pub ErrorHandler {ℓ κ} : Type ℓ → Type κ → Type (ℓ ⊔ κ)
ErrorHandler E Any = Context E Any → StatusError E → Context E Any

module _ {κ} {E : Type κ} where
  -- The error as one with a status.
  unfoldable pub with_status : Option (StatusError E) → E → StatusError E
  with_status none err = record { err = err; status = pos 500 }
  with_status (some s) err = s

unfoldable pub answer_status : ℤ → ℤ
answer_status status = if ltb_ℤ status (pos 400) || ltb_ℤ (pos 599) status then pos 500 else status

module _ {ℓ κ} {E : Type ℓ} {Any : Type κ} (lib : Library E Any) where
  abbrev pub log_failure : Option E × Context E Any → Context E Any
  log_failure (none, c) = c
  log_failure (some err, c) = log_error_response_write lib c err

  unfoldable pub json_error : Context E Any → StatusError E → Context E Any
  json_error c err =
      log_failure
        (json lib c (lib.error_object (lib.errors.message err.err)) (answer_status err.status ∷ []))

  -- `handler` is that of the context, which may be nil.
  unfoldable pub answer_error :
      Option (ErrorHandler E Any) → StatusError E → Context E Any → Context E Any
  answer_error handler err c =
      if response_written c then c else elim handler [ some f ↦ f c err | none ↦ json_error c err ]

  unfoldable pub answer :
      Option (ErrorHandler E Any) → StatusError E → Context E Any → Context E Any
  answer handler err c = answer_error handler err (log_error lib c (answer_status err.status) err)

  abbrev pub served : Option (ErrorHandler E Any) → Option E × Context E Any → Context E Any
  served handler (none, c) = c
  served handler (some err, c) = answer handler (with_status (lib.as_status err) err) c

  -- `HandlerFunc.Serve`
  unfoldable pub serve : Option (ErrorHandler E Any) → Handler E Any → Context E Any → Context E Any
  serve handler h c = served handler (h c)

  -- `HandlerFunc.ServeHTTP`
  unfoldable pub serve_default : Handler E Any → HttpWriter → Request E Any → Context E Any
  unfolding new_context
  serve_default h w r = serve none h (new_context w r default_options)

module _ {ℓ κ} {E : Type ℓ} {Any : Type κ} where
  unfoldable pub chain : Handler E Any → List (Middleware E Any) → Handler E Any
  chain h [] = h
  chain h (m ∷ ms) = chain (m h) ms

  -- The middleware of a Server round `mux`.
  unfoldable pub middleware_chain : Handler E Any → List (Middleware E Any) → Handler E Any
  middleware_chain mux ms = chain mux (reverse ms)
