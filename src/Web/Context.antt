-- ===== src/Web/Context.antt =====
-- web/context.go: the context of a request, and what handlers do with it. `E` is the type of errors and
-- `Any` that of the values that JSON and contexts take; the library's functions on them are fields of
-- `Library`. The error handler of a context is an argument where it is called, since it takes contexts.
pub mod Logs
pub mod Formats
pub mod Binds
use mathlib.Core.Option
use gx.Base.{Bool, true, false, Option, none, some, List, [], ◌∷◌, ◌++◌, ◌⊎◌, if◌then◌else◌}
use gx.Base.Int.{ℤ, pos}
use gx.Base.Text.{Text, codes}
use gx.Web.Error
use gx.Web.Error.{StatusError}
use gx.Web.Response.{
  Sent, Abilities, ResponseWriter, new_writer, write_header, WriterCall, hijack, push,
}
use gx.Web.Bind.{Read, BindError, invalid_type, invalid_body, too_large, bind_status, bind}

-- `content_type` is that header of the request, `pretty` whether its query has "pretty", `body` what
-- reading its body comes to under a limit, `value` the method of its context.
pub record Request {ℓ κ} (E : Type ℓ) (Any : Type κ) : Type (ℓ ⊔ κ) where
  pub method : Text
  pub host : Text
  pub request_uri : Text
  pub proto : Text
  pub remote_addr : Text
  pub content_type : Text
  pub tls : Bool
  pub pretty : Bool
  pub body : Option ℤ → Read E
  pub value : Any → Option Any

-- `call_error` is what the last of the calls of the wrapped writer returns, `as_status` what
-- `errors.AsType` finds in an error, `marshal` is told whether to indent, `error_object` is the object
-- with one text at "error", `same` is the equality of keys, and `redirect` the calls that
-- `http.Redirect` makes.
pub record Library {ℓ κ} (E : Type ℓ) (Any : Type κ) : Type (ℓ ⊔ κ) where
  pub errors : Error.Library Text E
  pub as_status : E → Option (StatusError E)
  pub not_supported : E
  pub call_error : List (Sent Text) → Option E
  pub marshal : Bool → Any → E ⊎ Text
  pub error_object : Text → Any
  pub decimal : ℤ → Text
  pub same : Any → Any → Bool
  pub redirect : Request E Any → Text → ℤ → List (WriterCall Text)

pub data Level : Type 0 where
  info warn error : Level

-- What the logger is given; the attribute is a name with a text.
pub record LogRecord : Type 0 where
  pub level : Level
  pub message : Text
  pub attribute : Option (Text × Text)

-- `contextOptions` but for its error handler; `logger` is whether there is one.
pub record ContextOptions : Type 0 where
  pub logger : Bool
  pub log_prefix : Text
  pub max_read_size : ℤ

-- `value` is the method of `ctx`, `logged` what the logger has been given.
pub record Context {ℓ κ} (E : Type ℓ) (Any : Type κ) : Type (ℓ ⊔ κ) where
  pub request : Request E Any
  pub value : Any → Option Any
  pub opts : ContextOptions
  pub writer : ResponseWriter Text
  pub logged : List LogRecord

-- An http.ResponseWriter: one of this package, or another.
pub data HttpWriter : Type 0 where
  wrapper : ResponseWriter Text → HttpWriter
  other : Abilities → HttpWriter

abbrev pub to_writer : HttpWriter → ResponseWriter Text
to_writer (wrapper w) = w
to_writer (other abilities) = new_writer abilities

-- What `NewContext` passes.
abbrev pub default_options : ContextOptions
default_options = record { logger = false; log_prefix = []; max_read_size = pos 5242880 }

module _ {ℓ κ} {E : Type ℓ} {Any : Type κ} where
  unfoldable pub new_context : HttpWriter → Request E Any → ContextOptions → Context E Any
  new_context w r opts = record {
    request = r;
    value = r.value;
    opts = opts;
    writer = to_writer w;
    logged = [];
  }

  unfoldable pub get : Context E Any → Any → Option Any
  get c key = c.value key

  unfoldable pub status : Context E Any → ℤ → Context E Any
  status c code = record c { writer = write_header c.writer code }

  abbrev pub response_written : Context E Any → Bool
  response_written c = c.writer.header_written

module _ {ℓ κ} {E : Type ℓ} {Any : Type κ} (lib : Library E Any) where
  abbrev pub with_value : (Any → Option Any) → Any → Any → (Any → Option Any)
  with_value value key v k = if lib.same k key then some v else value k

  -- `Set`
  unfoldable pub set_value : Context E Any → Any → Any → Context E Any
  set_value c key v = record c {
    value = with_value c.value key v;
    request = record c.request { value = with_value c.value key v };
  }

  unfoldable pub hijack_writer : ResponseWriter Text → Option E × ResponseWriter Text
  hijack_writer w = (
    if w.abilities.hijacker
        then lib.call_error (hijack w).sent
        else some (lib.errors.new (codes "hijacker not supported")),
    hijack w,
  )

  unfoldable pub push_target : ResponseWriter Text → Text → Option E × ResponseWriter Text
  push_target w target = (
    if w.abilities.pusher then lib.call_error (push w target).sent else some lib.not_supported,
    push w target,
  )

  -- The errors of `bind` as errors with a status.
  unfoldable pub bind_error : BindError E → StatusError E
  unfolding bind_status Error.error
  bind_error invalid_type =
      Error.error lib.errors (pos 400) (codes "invalid content type, expected application/json")
  bind_error invalid_body = Error.error lib.errors (pos 400) (codes "invalid json body")
  bind_error (too_large err) = record { err = err; status = pos 413 }

  unfoldable pub bind_request : Context E Any → Bool → Option (StatusError E)
  unfolding bind_error
  bind_request c validate =
      Option.map bind_error (
        bind lib.errors.to_lower c.request.body c.opts.max_read_size c.request.content_type
          validate)

  -- `Bind` and `BindAnyContentType`
  pub bind_json : Context E Any → Option (StatusError E)
  bind_json c = bind_request c true

  pub bind_any_content_type : Context E Any → Option (StatusError E)
  bind_any_content_type c = bind_request c false
