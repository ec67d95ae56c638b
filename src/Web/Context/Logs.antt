-- ===== src/Web/Context/Logs.antt =====
-- web/context.go: what a context gives the logger.
use gx.Base.{◌&&◌, none, some, [], ◌∷◌, ◌++◌, Bool, if◌then◌else◌}
use gx.Base.Int.{ℤ, pos, ltb_ℤ, leb_ℤ}
use gx.Base.Text.{Text, codes}
use gx.Web.Error.{StatusError}
use gx.Web.Context.{Request, Library, Level, info, warn, error, LogRecord, Context}

-- A warning from 400 to 499, an error elsewhere.
unfoldable pub level_of : ℤ → Level
level_of status = if leb_ℤ (pos 400) status && ltb_ℤ status (pos 500) then warn else error

abbrev pub scheme : Bool → Text
scheme tls = if tls then codes "https" else codes "http"

module _ {ℓ κ} {E : Type ℓ} {Any : Type κ} where
  abbrev pub request_url : Request E Any → Text
  request_url r = scheme r.tls ++ (codes "://" ++ (r.host ++ r.request_uri))

  -- "GET http://host/path HTTP/1.1 from address"
  unfoldable pub request_line : Request E Any → Text
  request_line r =
      r.method
      ++ (codes " "
          ++ (request_url r ++ (codes " " ++ (r.proto ++ (codes " from " ++ r.remote_addr)))))

  abbrev pub log : Context E Any → LogRecord → Context E Any
  log c r = if c.opts.logger then record c { logged = c.logged ++ r ∷ [] } else c

  abbrev pub request_record : Context E Any → LogRecord
  request_record c = record {
    level = info;
    message = c.opts.log_prefix ++ (codes ": " ++ request_line c.request);
    attribute = none;
  }

  unfoldable pub log_request : Context E Any → Context E Any
  log_request c = log c (request_record c)

module _ {ℓ κ} {E : Type ℓ} {Any : Type κ} (lib : Library E Any) where
  abbrev pub error_record : Context E Any → ℤ → StatusError E → LogRecord
  error_record c status err = record {
    level = level_of status;
    message =
        c.opts.log_prefix
        ++ (codes ": "
            ++ (request_line c.request ++ (codes " (" ++ (lib.decimal status ++ codes ")"))));
    attribute = some (codes "err", lib.errors.message err.err);
  }

  unfoldable pub log_error : Context E Any → ℤ → StatusError E → Context E Any
  log_error c status err = log c (error_record c status err)

  abbrev pub write_error_record : Context E Any → E → LogRecord
  write_error_record c err = record {
    level = error;
    message = c.opts.log_prefix ++ codes ": failed to write error response";
    attribute = some (codes "err", lib.errors.message err);
  }

  unfoldable pub log_error_response_write : Context E Any → E → Context E Any
  log_error_response_write c err = log c (write_error_record c err)
