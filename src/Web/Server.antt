-- ===== src/Web/Server.antt =====
-- web/server.go: a Server, its routes and its life. What `ListenAndServe` and `Shutdown` of net/http
-- return is an argument, and so is what http.ServeMux does with a pattern and with a request. The
-- chain of middleware that the first request makes is kept as the list that it is made from.
pub mod Settings
pub mod Requests
pub mod Invariant
pub mod Order
use gx.Base.{
  ℕ, Bool, true, false, not, ◌&&◌, Option, none, some, List, [], ◌∷◌, ◌++◌, map, if◌then◌else◌,
}
use gx.Base.Int.{ℤ}
use gx.Base.Text.{Text, codes}
use gx.Web.Response.{WriterCall}
use gx.Web.Context.{Request, ContextOptions, info, LogRecord}
use gx.Web.Handler.{Handler, Middleware, ErrorHandler, chain}
use Settings.{Options, HttpServer, with_defaults, context_max_read_size, http_server, is_empty}

-- `accepts` is whether `Handle` takes a pattern beside those registered, where it does not panic;
-- `select` the place of the pattern that a request matches; `unmatched` the calls of the writer where it
-- matches none.
pub record ServeMux {ℓ κ} (E : Type ℓ) (Any : Type κ) : Type (ℓ ⊔ κ) where
  pub accepts : List Text → Text → Bool
  pub select : List Text → Request E Any → Option ℕ
  pub unmatched : List Text → Request E Any → List (WriterCall Text)

-- `routes` is what `mux` has been given, `chained` what the first request makes `middlewareChain`,
-- `logged` what the logger has been given.
pub record Server {ℓ κ} (E : Type ℓ) (Any : Type κ) : Type (ℓ ⊔ κ) where
  pub context_opts : ContextOptions
  pub error_handler : Option (ErrorHandler E Any)
  pub middleware : List (Middleware E Any)
  pub chained : Option (List (Middleware E Any))
  pub routes : List (Text × Handler E Any)
  pub opts : Options E Any
  pub server : HttpServer
  pub stopping : Bool
  pub logged : List LogRecord

module _ {ℓ κ} {E : Type ℓ} {Any : Type κ} where
  -- The options with their defaults in place.
  abbrev server_with : Options E Any → Server E Any
  server_with opts = record {
    context_opts = record {
      logger = opts.logger;
      log_prefix = opts.log_prefix;
      max_read_size = context_max_read_size opts.max_read_size;
    };
    error_handler = opts.error_handler;
    middleware = [];
    chained = none;
    routes = [];
    opts = opts;
    server = http_server opts;
    stopping = false;
    logged = [];
  }

  unfoldable pub new_server : Options E Any → Server E Any
  new_server opts = server_with (with_defaults opts)

  -- `Use`
  unfoldable pub use_all : Server E Any → List (Middleware E Any) → Server E Any
  use_all s ms = record s { middleware = s.middleware ++ ms }

  abbrev pub patterns : Server E Any → List Text
  patterns s = map (λ r. r.0) s.routes

  abbrev pub log_info : Server E Any → Text → Server E Any
  log_info s message =
      if s.context_opts.logger
      then record s {
        logged =
            s.logged
            ++ record {
              level = info;
              message = s.opts.log_prefix ++ (codes ": " ++ message);
              attribute = some (codes "addr", s.opts.addr);
            }
              ∷ [];
      }
      else s

  -- `Start` up to the call of `ListenAndServe`, and whether that is `ListenAndServeTLS`.
  unfoldable pub start : Server E Any → Server E Any × Bool
  start s = (
    log_info s (codes "starting server"),
    not (is_empty s.opts.cert_file) && not (is_empty s.opts.cert_key_file),
  )

  -- What `Start` returns when `ListenAndServe` has returned `err`, by then in the state `s`.
  unfoldable pub start_result : (E → Bool) → Server E Any → Option E → Option E
  start_result is_closed s none = none
  start_result is_closed s (some err) = if is_closed err && s.stopping then none else some err

  abbrev pub stopped : Server E Any → Option E → Server E Any
  stopped s none = log_info s (codes "stopped server")
  stopped s (some err) = s

  -- `Stop`, where `Shutdown` returns `err`.
  unfoldable pub stop : Server E Any → Option E → Option E × Server E Any
  stop s err =
      (err, stopped (log_info (record s { stopping = true }) (codes "stopping server")) err)

module _ {ℓ κ} {E : Type ℓ} {Any : Type κ} (mux : ServeMux E Any) where
  -- `Handle`, or none where the mux panics.
  unfoldable pub handle :
      Server E Any → Text → Handler E Any → List (Middleware E Any) → Option (Server E Any)
  unfolding chain
  handle s pattern handler ms =
      if mux.accepts (patterns s) pattern
      then some (record s { routes = s.routes ++ (pattern, chain handler ms) ∷ [] })
      else none

  pub delete : Server E Any → Text → Handler E Any → List (Middleware E Any) → Option (Server E Any)
  delete s pattern handler ms = handle s (codes "DELETE " ++ pattern) handler ms

  pub get : Server E Any → Text → Handler E Any → List (Middleware E Any) → Option (Server E Any)
  get s pattern handler ms = handle s (codes "GET " ++ pattern) handler ms

  pub patch : Server E Any → Text → Handler E Any → List (Middleware E Any) → Option (Server E Any)
  patch s pattern handler ms = handle s (codes "PATCH " ++ pattern) handler ms

  pub post : Server E Any → Text → Handler E Any → List (Middleware E Any) → Option (Server E Any)
  post s pattern handler ms = handle s (codes "POST " ++ pattern) handler ms

  pub put : Server E Any → Text → Handler E Any → List (Middleware E Any) → Option (Server E Any)
  put s pattern handler ms = handle s (codes "PUT " ++ pattern) handler ms
