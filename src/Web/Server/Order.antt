-- ===== src/Web/Server/Order.antt =====
-- web/server.go: the order of a Server's middleware, and when it is settled.
use gx.Base.{
  ◌≡◌, refl, ap, ◌∙◌, subst, Bool, true, false, Option, none, some, List, [], ◌∷◌, ◌++◌,
  if◌then◌else◌,
}
use gx.Base.Text.{Text}
use gx.Web.Context.{Request, Library, Context, ContextOptions, HttpWriter, new_context}
use gx.Web.Context.Logs.{log_request}
use gx.Web.Handler.{Handler, Middleware, ErrorHandler, serve, chain, middleware_chain}
use gx.Web.Handler.Order.{middleware_chain-cons}
use gx.Web.Server.Settings.{Options}
use gx.Web.Server.{ServeMux, Server, patterns, new_server, use_all, handle}
use gx.Web.Server.Requests.{
  chain_of, serve_route, serve_mux, mux_handler, server_handler, serve_http,
}

module _ {ℓ κ} {E : Type ℓ} {Any : Type κ} where
  -- The middleware round a handler, the first outermost.
  abbrev pub wrap_all : List (Middleware E Any) → Handler E Any → Handler E Any
  wrap_all [] h = h
  wrap_all (m ∷ ms) h = m (wrap_all ms h)

  middleware_chain-wrap_all :
      (h : Handler E Any) (ms : List (Middleware E Any)) → middleware_chain h ms ≡ wrap_all ms h
  unfolding middleware_chain chain
  middleware_chain-wrap_all h [] = refl
  middleware_chain-wrap_all h (m ∷ ms) =
      middleware_chain-cons h m ms ∙ ap m (middleware_chain-wrap_all h ms)

module _ {ℓ κ} {E : Type ℓ} {Any : Type κ} (lib : Library E Any) (mux : ServeMux E Any) where
  -- What may come after the first request.
  pub data Later : Type (ℓ ⊔ κ) where
    uses : List (Middleware E Any) → Later
    serves : HttpWriter → Request E Any → Later

  abbrev pub do_all : Server E Any → List Later → Server E Any
  do_all s [] = s
  do_all s (uses ms ∷ more) = do_all (use_all s ms) more
  do_all s (serves w r ∷ more) = do_all (serve_http lib mux s w r).1 more

  -- A Server like `s`, with the chain that `s` makes.
  record Settled (s t : Server E Any) : Type (ℓ ⊔ κ) where
    chained : t.chained ≡ some (chain_of s)
    routes : t.routes ≡ s.routes
    error_handler : t.error_handler ≡ s.error_handler
    context_opts : t.context_opts ≡ s.context_opts

  chain_of-Settled : (s t : Server E Any) → Settled s t → chain_of t ≡ chain_of s
  chain_of-Settled s t h =
      ap
        (λ (o : Option (List (Middleware E Any))).
          let ms : List (Middleware E Any) = elim o [ none ↦ t.middleware | some ns ↦ ns ] in ms)
        h.chained

  do_all-Settled :
      (s t : Server E Any) (more : List Later) → Settled s t → Settled s (do_all t more)
  unfolding use_all serve_http
  do_all-Settled s t [] h = h
  do_all-Settled s t (uses ms ∷ more) h = do_all-Settled s (use_all t ms) more (record {
    chained = h.chained;
    routes = h.routes;
    error_handler = h.error_handler;
    context_opts = h.context_opts;
  })
  do_all-Settled s t (serves w r ∷ more) h =
      do_all-Settled s (serve_http lib mux t w r).1 more (record {
        chained = ap some (chain_of-Settled s t h);
        routes = h.routes;
        error_handler = h.error_handler;
        context_opts = h.context_opts;
      })

  -- How a request is served depends on no more of a Server than these.
  abbrev served_by :
      Server E Any
      → HttpWriter
      → Request E Any
      → List (Text × Handler E Any)
      → Option (ErrorHandler E Any)
      → ContextOptions
      → List (Middleware E Any)
      → Context E Any
  served_by s v q routes f opts ms =
      let t : Server E Any = record s {
        routes = routes;
        error_handler = f;
        context_opts = opts;
        chained = some ms;
      } in
      (serve_http lib mux t v q).0

  serve_http-Settled :
      (s t : Server E Any) (v : HttpWriter) (q : Request E Any)
      → Settled s t
      → (serve_http lib mux t v q).0 ≡ (serve_http lib mux s v q).0
  unfolding serve_http server_handler mux_handler serve_mux serve_route
  serve_http-Settled s t v q h =
      ap (λ x. served_by s v q x t.error_handler t.context_opts (chain_of t)) h.routes
      ∙ ap (λ x. served_by s v q s.routes x t.context_opts (chain_of t)) h.error_handler
      ∙ ap (λ x. served_by s v q s.routes s.error_handler x (chain_of t)) h.context_opts
      ∙ ap (λ x. served_by s v q s.routes s.error_handler s.context_opts x) (chain_of-Settled s t h)

  -- A Server that has served no request, and the middleware that `Use` has been given, in that order.
  pub data SetUp : List (Middleware E Any) → Server E Any → Type (ℓ ⊔ κ) where
    opened : (opts : Options E Any) → SetUp [] (new_server opts)
    used :
        {given : List (Middleware E Any)} {s : Server E Any} (ms : List (Middleware E Any))
        → SetUp given s
        → SetUp (given ++ ms) (use_all s ms)
    handled :
        {given : List (Middleware E Any)} {s t : Server E Any} (pattern : Text) (h : Handler E Any)
        (ms : List (Middleware E Any))
        → handle mux s pattern h ms ≡ some t
        → SetUp given s
        → SetUp given t

  record Unserved (given : List (Middleware E Any)) (s : Server E Any) : Type (ℓ ⊔ κ) where
    chained : s.chained ≡ none
    middleware : s.middleware ≡ given

  handle-Unserved :
      (given : List (Middleware E Any)) (s t : Server E Any) (pattern : Text) (h : Handler E Any)
      (ms : List (Middleware E Any))
      → handle mux s pattern h ms ≡ some t
      → Unserved given s
      → Unserved given t
  unfolding handle
  handle-Unserved given s t pattern h ms e u =
      at (mux.accepts (patterns s) pattern)
        (record s { routes = s.routes ++ (pattern, chain h ms) ∷ [] }) e
        (record { chained = u.chained; middleware = u.middleware })
    where
      at :
          (b : Bool) (r : Server E Any)
          → (if b then some r else none) ≡ some t
          → Unserved given r
          → Unserved given t
      at true r f v = subst (Unserved given) (cc) v
      at false r f v = absurd (cc)

  SetUp-Unserved :
      {given : List (Middleware E Any)} {s : Server E Any} → SetUp given s → Unserved given s
  unfolding new_server use_all
  SetUp-Unserved (opened opts) = record { chained = refl; middleware = refl }
  SetUp-Unserved (used ms h) =
      let u = SetUp-Unserved h in
      record { chained = u.chained; middleware = ap (λ l. l ++ ms) u.middleware }
  SetUp-Unserved (handled pattern h ms e before) =
      handle-Unserved _ _ _ pattern h ms e (SetUp-Unserved before)

  chain_of-Unserved :
      (given : List (Middleware E Any)) (s : Server E Any) → Unserved given s → chain_of s ≡ given
  chain_of-Unserved given s u =
      ap
        (λ (o : Option (List (Middleware E Any))).
          let ms : List (Middleware E Any) = elim o [ none ↦ s.middleware | some ns ↦ ns ] in ms)
        u.chained
      ∙ u.middleware

  -- A new Server that `Use` and `Handle` have been called on, and then a request: whatever `Use` adds
  -- and whatever requests come after that, a request is served by all the middleware that `Use` was given
  -- before the first request, and by no other, round the routes, with the one that was given first outermost.
  pub serve_http_settled :
      (given : List (Middleware E Any)) (s : Server E Any) (w v : HttpWriter) (r q : Request E Any)
      (more : List Later)
      → SetUp given s
      → (serve_http lib mux (do_all (serve_http lib mux s w r).1 more) v q).0
        ≡ serve lib s.error_handler
            (wrap_all given (mux_handler lib mux s))
            (log_request (new_context v q s.context_opts))
  unfolding serve_http server_handler
  serve_http_settled given s w v r q more before =
      serve_http-Settled s (do_all (serve_http lib mux s w r).1 more) v q (
        do_all-Settled s (serve_http lib mux s w r).1 more
          (record { chained = refl; routes = refl; error_handler = refl; context_opts = refl }))
      ∙ ap (λ h. serve lib s.error_handler h (log_request (new_context v q s.context_opts)))
          (middleware_chain-wrap_all (mux_handler lib mux s) (chain_of s))
      ∙ ap
          (λ ms.
            serve lib s.error_handler (wrap_all ms (mux_handler lib mux s))
              (log_request (new_context v q s.context_opts)))
          (chain_of-Unserved given s (SetUp-Unserved before))
