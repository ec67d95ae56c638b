-- ===== src/Web/Tests.antt =====
-- A Server without options but a logger, with one middleware and one route that fails.
use gx.Base.{ℕ, ◌≡◌, refl, true, false, none, some, [], ◌∷◌, ◌++◌, ◌==◌, inr, if◌then◌else◌}
use gx.Base.Int.{pos}
use gx.Base.Text.{Text, codes}
use gx.Web.Response.{
  set_header, header, body, Abilities, writes_header, write_header, is_informational, write,
}
use gx.Web.Response.Protocol.{IsResponse}
use gx.Web.Bind.{bound, exceeded}
use gx.Web.Bind.Accepts.{IsJson}
use gx.Web.Context.{
  Request, Library, other, Context, new_context, status, bind_json, bind_any_content_type,
}
use gx.Web.Context.Binds.{Binds, media_type, bind_request-Binds}
use gx.Web.Context.Logs.{level_of, log_request, log_error}
use gx.Web.Context.Formats.{json, respond}
use gx.Web.Handler.{
  Handler, Middleware, with_status, answer_status, json_error, answer_error, answer, serve, chain,
  middleware_chain,
}
use gx.Web.Handler.Answer.{Answered, error_of, serve-Answered}
use gx.Web.Handler.Writes.{Writes}
use gx.Web.Server.Settings.{Options, with_defaults, context_max_read_size}
use gx.Web.Server.{ServeMux, Server, new_server, use_all, handle, start_result, stop}
use gx.Web.Server.Requests.{serve_route, serve_mux, mux_handler, server_handler, serve_http}
use gx.Web.Server.Invariant.{opened, handles, serve_http-IsResponse}
use gx.Web.Server.Order

-- Errors are numbers, of which 404 has a status, and values are texts.
abbrev lib : Library ℕ Text
lib = record {
  errors = record {
    new = λ t. 1;
    message = λ e. e ∷ [];
    status_text = λ s. [];
    to_lower = λ t. t;
    empty = λ t. false;
  };
  as_status = λ e. if e == 404 then some (record { err = e; status = pos e }) else none;
  not_supported = 2;
  call_error = λ sent. none;
  marshal = λ pretty v. inr v;
  error_object = λ t. t;
  decimal = λ z. codes "404";
  same = λ x y. true;
  redirect = λ r url code. writes_header code ∷ [];
}

abbrev mux : ServeMux ℕ Text
mux = record {
  accepts = λ patterns p. true;
  select = λ patterns r. some 0;
  unmatched = λ patterns r. writes_header (pos 404) ∷ [];
}

abbrev no_options : Options ℕ Text
no_options = record {
  addr = codes ":80";
  cert_file = [];
  cert_key_file = [];
  idle_timeout = pos 0;
  logger = true;
  log_prefix = [];
  error_handler = none;
  max_read_size = pos 0;
  max_header_bytes = pos 0;
  max_header_value_count = pos 0;
  read_header_timeout = pos 0;
  read_timeout = pos 0;
  shutdown_timeout = pos 0;
  write_timeout = pos 0;
}

abbrev request : Request ℕ Text
request = record {
  method = codes "GET";
  host = codes "h";
  request_uri = codes "/";
  proto = codes "HTTP/1.1";
  remote_addr = codes "a";
  content_type = [];
  tls = true;
  pretty = false;
  body = λ limit. bound;
  value = λ k. none;
}

-- A body that is too large, said to be JSON.
abbrev posted : Request ℕ Text
posted = record request {
  content_type = codes "application/json ; charset";
  body = λ limit. exceeded 7;
}

abbrev able : Abilities
able = record { flusher = false; hijacker = false; pusher = false }

-- It sends an informational header and fails.
abbrev fails : Handler ℕ Text
fails c = (some 404, status c (pos 103))

-- It names the server first.
abbrev names : Middleware ℕ Text
names h c =
    h (record c { writer = record c.writer { sent = c.writer.sent ++ set_header [] [] ∷ [] } })

abbrev server : Server ℕ Text
server = new_server no_options

abbrev route : Text
route = codes "GET /"

abbrev routed : Server ℕ Text
routed = record server { routes = (route, fails) ∷ [] }

abbrev wrapped : Server ℕ Text
wrapped = use_all routed (names ∷ [])

defaults :
    (server.context_opts.max_read_size ≡ pos 5242880)
    × (server.opts.shutdown_timeout ≡ pos 2000000000)
    × (server.opts.log_prefix ≡ codes "http")
unfolding new_server with_defaults context_max_read_size
defaults = (refl, refl, refl)

-- 1 is http.ErrServerClosed.
stop_silences :
    (start_result (λ e. e == 1) server (some 1) ≡ some 1)
    × (start_result (λ e. e == 1) (stop server none).1 (some 1) ≡ none)
unfolding new_server with_defaults start_result stop
stop_silences = (refl, refl)

-- The whole of what the http.ResponseWriter is sent.
answers_404 :
    (serve_http lib mux wrapped (other able) request).0.writer.sent
    ≡ set_header [] []
      ∷ header (pos 103)
      ∷ set_header (codes "Content-Type") (codes "application/json")
      ∷ header (pos 404)
      ∷ body (404 ∷ [])
      ∷ []
unfolding new_server with_defaults use_all new_context serve_http server_handler mux_handler
    serve_mux serve_route middleware_chain chain serve answer answer_error json_error json respond
    status with_status answer_status level_of write write_header is_informational log_request
    log_error
answers_404 = refl

abbrev first : Context ℕ Text
first = new_context (other able) request server.context_opts

abbrev posting : Context ℕ Text
posting = new_context (other able) posted server.context_opts

bind_request-Binds_example :
    Binds lib posting (IsJson (media_type lib posting)) (bind_json lib posting)
    × Binds lib posting Unit (bind_any_content_type lib posting)
bind_request-Binds_example = bind_request-Binds lib posting

-- What `fails` leaves.
abbrev left : Context ℕ Text
left = record {
  request = request;
  value = request.value;
  opts = record { logger = true; log_prefix = codes "http"; max_read_size = pos 5242880 };
  writer = record { header_written = false; abilities = able; sent = header (pos 103) ∷ [] };
  logged = [];
}

fails_lem : fails first ≡ (some 404, left)
unfolding new_server with_defaults context_max_read_size new_context status write_header
    is_informational
fails_lem = refl

routed_lem : handle mux server route fails [] ≡ some routed
unfolding new_server with_defaults handle
routed_lem = refl

serve-Answered_example : Answered lib (error_of lib 404) left (serve lib none fails first)
serve-Answered_example = serve-Answered lib fails first left 404 fails_lem

fails-Writes : Writes fails
unfolding status
fails-Writes c = (writes_header (pos 103) ∷ [], refl)

serve_http-IsResponse_example :
    IsResponse (serve_http lib mux routed (other able) request).0.writer.sent
serve_http-IsResponse_example =
    serve_http-IsResponse lib mux routed able request
      (handles route fails [] fails-Writes tt routed_lem (opened no_options tt))

-- The Server before its first request.
set_up : Order.SetUp lib mux (names ∷ []) wrapped
set_up = Order.used (names ∷ []) (Order.handled route fails [] routed_lem (Order.opened no_options))

serve_http_settled_example :
    (serve_http lib mux
      (Order.do_all lib mux
        (serve_http lib mux wrapped (other able) request).1
        (Order.uses (names ∷ names ∷ []) ∷ []))
      (other able)
      request).0
    ≡ serve lib wrapped.error_handler
        (Order.wrap_all (names ∷ []) (mux_handler lib mux wrapped))
        (log_request (new_context (other able) request wrapped.context_opts))
serve_http_settled_example =
    Order.serve_http_settled lib mux (names ∷ []) wrapped (other able) (other able) request request
      (Order.uses (names ∷ names ∷ []) ∷ []) set_up
