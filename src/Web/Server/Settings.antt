-- ===== src/Web/Server/Settings.antt =====
-- web/server.go: the options of a Server and their defaults. A time is in nanoseconds.
use gx.Base.{Bool, true, false, ◌&&◌, Option, [], ◌∷◌, if◌then◌else◌}
use gx.Base.Int.{ℤ, pos, ltb_ℤ, leb_ℤ}
use gx.Base.Text.{Text, codes}
use gx.Web.Handler.{ErrorHandler}

-- `logger` is whether there is one.
pub record Options {ℓ κ} (E : Type ℓ) (Any : Type κ) : Type (ℓ ⊔ κ) where
  pub addr : Text
  pub cert_file : Text
  pub cert_key_file : Text
  pub idle_timeout : ℤ
  pub logger : Bool
  pub log_prefix : Text
  pub error_handler : Option (ErrorHandler E Any)
  pub max_read_size : ℤ
  pub max_header_bytes : ℤ
  pub max_header_value_count : ℤ
  pub read_header_timeout : ℤ
  pub read_timeout : ℤ
  pub shutdown_timeout : ℤ
  pub write_timeout : ℤ

-- The http.Server, but for its handler, which is that of the Server.
pub record HttpServer : Type 0 where
  pub addr : Text
  pub idle_timeout : ℤ
  pub max_header_bytes : ℤ
  pub max_header_value_count : ℤ
  pub read_header_timeout : ℤ
  pub read_timeout : ℤ
  pub write_timeout : ℤ

abbrev pub is_empty : Text → Bool
is_empty [] = true
is_empty (c ∷ text) = false

abbrev pub or_default : ℤ → ℤ → ℤ
or_default z default = if leb_ℤ z (pos 0) && leb_ℤ (pos 0) z then default else z

abbrev pub or_http : Text → Text
or_http text = if is_empty text then codes "http" else text

-- `contextOpts.maxReadSize`, where 0 is no limit.
unfoldable pub context_max_read_size : ℤ → ℤ
context_max_read_size size =
    if ltb_ℤ (pos 0) size then size else if ltb_ℤ size (pos 0) then pos 0 else pos 5242880

module _ {ℓ κ} {E : Type ℓ} {Any : Type κ} where
  unfoldable pub with_defaults : Options E Any → Options E Any
  with_defaults opts = record opts {
    log_prefix = or_http opts.log_prefix;
    read_header_timeout = or_default opts.read_header_timeout (pos 3000000000);
    read_timeout = or_default opts.read_timeout (pos 5000000000);
    shutdown_timeout = or_default opts.shutdown_timeout (pos 2000000000);
    write_timeout = or_default opts.write_timeout (pos 5000000000);
  }

  abbrev pub http_server : Options E Any → HttpServer
  http_server opts = record {
    addr = opts.addr;
    idle_timeout = opts.idle_timeout;
    max_header_bytes = opts.max_header_bytes;
    max_header_value_count = opts.max_header_value_count;
    read_header_timeout = opts.read_header_timeout;
    read_timeout = opts.read_timeout;
    write_timeout = opts.write_timeout;
  }
