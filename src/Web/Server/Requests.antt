-- ===== src/Web/Server/Requests.antt =====
-- web/server.go: how a Server serves a request.
use gx.Base.{Option, none, some, List, [], ◌++◌, get_elem?}
use gx.Base.Text.{Text}
use gx.Web.Response.{ResponseWriter, apply_all}
use gx.Web.Context.{Request, Library, LogRecord, Context, HttpWriter, wrapper, new_context}
use gx.Web.Context.Logs.{log_request}
use gx.Web.Handler.{Handler, Middleware, serve, middleware_chain}
use gx.Web.Server.{ServeMux, Server, patterns}

module _ {ℓ κ} {E : Type ℓ} {Any : Type κ} where
  -- What `middlewareChain` is made from, at the first request.
  abbrev pub chain_of : Server E Any → List (Middleware E Any)
  chain_of s = elim s.chained [ none ↦ s.middleware | some ms ↦ ms ]

module _ {ℓ κ} {E : Type ℓ} {Any : Type κ} (lib : Library E Any) (mux : ServeMux E Any) where
  -- The http.Handler that `Handle` registers.
  unfoldable pub serve_route :
      Server E Any → Handler E Any → HttpWriter → Request E Any → Context E Any
  serve_route s h w r = serve lib s.error_handler h (new_context w r s.context_opts)

  abbrev pub route_of : Server E Any → Request E Any → Option (Text × Handler E Any)
  route_of s r = elim (mux.select (patterns s) r) [ none ↦ none | some i ↦ get_elem? s.routes i ]

  -- `ServeHTTP` of the mux, with the writer that the context gives it: what that is in the end, and
  -- what is logged.
  unfoldable pub serve_mux :
      Server E Any
      → Option (Text × Handler E Any)
      → ResponseWriter Text
      → Request E Any
      → ResponseWriter Text × List LogRecord
  serve_mux s none w r = (apply_all w (mux.unmatched (patterns s) r), [])
  serve_mux s (some (pattern, h)) w r =
      let c = serve_route s h (wrapper w) r in (c.writer, c.logged)

  -- The handler inside all middleware.
  unfoldable pub mux_handler : Server E Any → Handler E Any
  mux_handler s c =
      let (w, logged) = serve_mux s (route_of s c.request) c.writer c.request in
      (none, record c { writer = w; logged = c.logged ++ logged })

  -- The handler that `middlewareChain` returns.
  unfoldable pub server_handler : Server E Any → Handler E Any
  unfolding middleware_chain
  server_handler s = middleware_chain (mux_handler s) (chain_of s)

  -- `serveHTTP`
  unfoldable pub serve_http :
      Server E Any → HttpWriter → Request E Any → Context E Any × Server E Any
  serve_http s w r =
      let c =
        serve lib s.error_handler (server_handler s)
          (log_request (new_context w r s.context_opts)) in
      (c, record s { chained = some (chain_of s); logged = s.logged ++ c.logged })
