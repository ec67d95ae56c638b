-- ===== src/Web/Server/Invariant.antt =====
-- web/server.go: what a Server holds whatever is done with it, and what its responses are.
use gx.Base.{
  ◌≡◌, refl, sym, subst, true, if_both, if-eq-some, Option, none, some, List, [], ◌∷◌, ◌++◌, ℕ,
  zero, suc, get_elem?,
}
use gx.Base.Text.{Text}
use gx.Web.Response.{Abilities, ResponseWriter, new_writer}
use gx.Web.Response.Protocol.{IsResponse, apply_all-IsResponse}
use gx.Web.Context.{Request, Library, Context, HttpWriter, wrapper, other, new_context}
use gx.Web.Context.Logs.{log_request}
use gx.Web.Handler.{Handler, Middleware, chain}
use gx.Web.Handler.Writes.{
  Reached, Writes, AllKeepWrites, AnswersByWriting, AllKeepWrites-append, chain-Writes,
  middleware_chain-Writes, log-writer, serve-Reached,
}
use gx.Web.Server.Settings.{Options, with_defaults}
use gx.Web.Server.{ServeMux, Server, patterns, new_server, use_all, log_info, start, stop, handle}
use gx.Web.Server.Requests.{
  serve_route, route_of, serve_mux, mux_handler, chain_of, server_handler, serve_http,
}

module _ {ℓ κ} {E : Type ℓ} {Any : Type κ} where
  abbrev AllWrite : List (Text × Handler E Any) → Type (ℓ ⊔ κ)
  AllWrite [] = Unit
  AllWrite ((pattern, h) ∷ routes) = Writes h × AllWrite routes

  abbrev FoundWrites : Option (Text × Handler E Any) → Type (ℓ ⊔ κ)
  FoundWrites none = Unit
  FoundWrites (some (pattern, h)) = Writes h

  AllWrite-snoc :
      (routes : List (Text × Handler E Any)) (pattern : Text) (h : Handler E Any)
      → AllWrite routes
      → Writes h
      → AllWrite (routes ++ (pattern, h) ∷ [])
  AllWrite-snoc [] pattern h a w = (w, tt)
  AllWrite-snoc ((p, g) ∷ routes) pattern h a w = (a.0, AllWrite-snoc routes pattern h a.1 w)

  AllWrite-get_elem? :
      (routes : List (Text × Handler E Any)) (i : ℕ)
      → AllWrite routes
      → FoundWrites (get_elem? routes i)
  AllWrite-get_elem? [] i a = tt
  AllWrite-get_elem? ((p, g) ∷ routes) zero a = a.0
  AllWrite-get_elem? ((p, g) ∷ routes) (suc i) a = AllWrite-get_elem? routes i a.1

  abbrev ChainKeeps : Option (List (Middleware E Any)) → Type (ℓ ⊔ κ)
  ChainKeeps none = Unit
  ChainKeeps (some ms) = AllKeepWrites ms

  -- All that it calls writes only by the methods of the writer.
  record WritesOnly (s : Server E Any) : Type (ℓ ⊔ κ) where
    routes : AllWrite s.routes
    middleware : AllKeepWrites s.middleware
    chained : ChainKeeps s.chained
    error_handler : AnswersByWriting s.error_handler

  new_server-WritesOnly :
      (opts : Options E Any) → AnswersByWriting opts.error_handler → WritesOnly (new_server opts)
  unfolding new_server with_defaults
  new_server-WritesOnly opts a = record {
    routes = tt;
    middleware = tt;
    chained = tt;
    error_handler = a;
  }

  use_all-WritesOnly :
      (s : Server E Any) (ms : List (Middleware E Any))
      → AllKeepWrites ms
      → WritesOnly s
      → WritesOnly (use_all s ms)
  unfolding use_all
  use_all-WritesOnly s ms k h = record {
    routes = h.routes;
    middleware = AllKeepWrites-append s.middleware ms h.middleware k;
    chained = h.chained;
    error_handler = h.error_handler;
  }

  log_info-WritesOnly :
      (s : Server E Any) (message : Text) → WritesOnly s → WritesOnly (log_info s message)
  log_info-WritesOnly s message v =
      if_both WritesOnly s.context_opts.logger _ s
        (record {
          routes = v.routes;
          middleware = v.middleware;
          chained = v.chained;
          error_handler = v.error_handler;
        })
        v

  abbrev stopping_now : Server E Any → Server E Any
  stopping_now s = record s { stopping = true }

  stopping_now-WritesOnly : (s : Server E Any) → WritesOnly s → WritesOnly (stopping_now s)
  stopping_now-WritesOnly s v = record {
    routes = v.routes;
    middleware = v.middleware;
    chained = v.chained;
    error_handler = v.error_handler;
  }

  abbrev with_route : Server E Any → Text → Handler E Any → Server E Any
  with_route s pattern h = record s { routes = s.routes ++ (pattern, h) ∷ [] }

  start-WritesOnly : (s : Server E Any) → WritesOnly s → WritesOnly (start s).0
  unfolding start
  start-WritesOnly s v = log_info-WritesOnly s _ v

  stop-WritesOnly : (s : Server E Any) (err : Option E) → WritesOnly s → WritesOnly (stop s err).1
  unfolding stop
  stop-WritesOnly s none v =
      log_info-WritesOnly _ _ (log_info-WritesOnly (stopping_now s) _ (stopping_now-WritesOnly s v))
  stop-WritesOnly s (some err) v =
      log_info-WritesOnly (stopping_now s) _ (stopping_now-WritesOnly s v)

module _ {ℓ κ} {E : Type ℓ} {Any : Type κ} (mux : ServeMux E Any) where
  handle-WritesOnly :
      (s t : Server E Any) (pattern : Text) (h : Handler E Any) (ms : List (Middleware E Any))
      → handle mux s pattern h ms ≡ some t
      → Writes h
      → AllKeepWrites ms
      → WritesOnly s
      → WritesOnly t
  unfolding handle
  handle-WritesOnly s t pattern h ms e w k v =
      subst WritesOnly
        (if-eq-some (mux.accepts (patterns s) pattern) (with_route s pattern (chain h ms)) t e)
        (record {
          routes = AllWrite-snoc s.routes pattern (chain h ms) v.routes (chain-Writes h ms w k);
          middleware = v.middleware;
          chained = v.chained;
          error_handler = v.error_handler;
        })

module _ {ℓ κ} {E : Type ℓ} {Any : Type κ} (lib : Library E Any) (mux : ServeMux E Any) where
  serve_mux-Reached :
      (s : Server E Any) (found : Option (Text × Handler E Any)) (w : ResponseWriter Text)
      (r : Request E Any)
      → AnswersByWriting s.error_handler
      → FoundWrites found
      → Reached w (serve_mux lib mux s found w r).0
  unfolding serve_mux serve_route new_context
  serve_mux-Reached s none w r a f = (mux.unmatched (patterns s) r, refl)
  serve_mux-Reached s (some (pattern, h)) w r a f =
      serve-Reached lib s.error_handler h (new_context (wrapper w) r s.context_opts) a f

  route_of-FoundWrites :
      (s : Server E Any) (r : Request E Any)
      → AllWrite s.routes
      → FoundWrites (route_of lib mux s r)
  route_of-FoundWrites s r a = go (mux.select (patterns s) r)
    where
      go :
          (o : Option ℕ)
          → FoundWrites (
              let f : Option (Text × Handler E Any) = elim o [
                | none ↦ none
                | some i ↦ get_elem? s.routes i
              ] in
              f)
      go none = tt
      go (some i) = AllWrite-get_elem? s.routes i a

  mux_handler-Writes : (s : Server E Any) → WritesOnly s → Writes (mux_handler lib mux s)
  unfolding mux_handler
  mux_handler-Writes s v c =
      serve_mux-Reached s (route_of lib mux s c.request) c.writer c.request v.error_handler
        (route_of-FoundWrites s c.request v.routes)

  chain_of-AllKeepWrites : (s : Server E Any) → WritesOnly s → AllKeepWrites (chain_of s)
  chain_of-AllKeepWrites s v = go s.chained v.chained
    where
      go :
          (o : Option (List (Middleware E Any)))
          → ChainKeeps o
          → AllKeepWrites (
              let ms : List (Middleware E Any) = elim o [ none ↦ s.middleware | some ns ↦ ns ] in
              ms)
      go none k = v.middleware
      go (some ms) k = k

  server_handler-Writes : (s : Server E Any) → WritesOnly s → Writes (server_handler lib mux s)
  unfolding server_handler
  server_handler-Writes s v =
      middleware_chain-Writes (mux_handler lib mux s) (chain_of s) (mux_handler-Writes s v)
        (chain_of-AllKeepWrites s v)

  serve_http-WritesOnly :
      (s : Server E Any) (w : HttpWriter) (r : Request E Any)
      → WritesOnly s
      → WritesOnly (serve_http lib mux s w r).1
  unfolding serve_http
  serve_http-WritesOnly s w r v = record {
    routes = v.routes;
    middleware = v.middleware;
    chained = chain_of-AllKeepWrites s v;
    error_handler = v.error_handler;
  }

  serve_http-Reached :
      (s : Server E Any) (abilities : Abilities) (r : Request E Any)
      → WritesOnly s
      → Reached (new_writer abilities) (serve_http lib mux s (other abilities) r).0.writer
  unfolding serve_http log_request new_context
  serve_http-Reached s abilities r v =
      let c : Context E Any = new_context (other abilities) r s.context_opts in
      subst (λ w. Reached w (serve_http lib mux s (other abilities) r).0.writer) (log-writer c _)
        (serve-Reached lib s.error_handler (server_handler lib mux s) (log_request c)
          v.error_handler (server_handler-Writes s v))

  -- What can be done with a Server: `Use`, `Handle`, requests, `Start` and `Stop`, with handlers,
  -- middleware and an error handler that come at the wrapped writer only through the methods of the
  -- writer that they are given.
  pub data Reach : Server E Any → Type (ℓ ⊔ κ) where
    opened : (opts : Options E Any) → AnswersByWriting opts.error_handler → Reach (new_server opts)
    uses :
        {s : Server E Any} (ms : List (Middleware E Any))
        → AllKeepWrites ms
        → Reach s
        → Reach (use_all s ms)
    handles :
        {s t : Server E Any} (pattern : Text) (h : Handler E Any) (ms : List (Middleware E Any))
        → Writes h
        → AllKeepWrites ms
        → handle mux s pattern h ms ≡ some t
        → Reach s
        → Reach t
    serves :
        {s : Server E Any} (w : HttpWriter) (r : Request E Any)
        → Reach s
        → Reach (serve_http lib mux s w r).1
    starts : {s : Server E Any} → Reach s → Reach (start s).0
    stops : {s : Server E Any} (err : Option E) → Reach s → Reach (stop s err).1

  Reach-WritesOnly : {s : Server E Any} → Reach s → WritesOnly s
  Reach-WritesOnly (opened opts a) = new_server-WritesOnly opts a
  Reach-WritesOnly (uses {s} ms k reach) = use_all-WritesOnly s ms k (Reach-WritesOnly reach)
  Reach-WritesOnly (handles {s} {t} pattern h ms w k e reach) =
      handle-WritesOnly mux s t pattern h ms e w k (Reach-WritesOnly reach)
  Reach-WritesOnly (serves {s} w r reach) = serve_http-WritesOnly s w r (Reach-WritesOnly reach)
  Reach-WritesOnly (starts {s} reach) = start-WritesOnly s (Reach-WritesOnly reach)
  Reach-WritesOnly (stops {s} err reach) = stop-WritesOnly s err (Reach-WritesOnly reach)

  -- Whatever the routes, the middleware and the request, and whatever was done with the Server before:
  -- if its handlers, its middleware and its error handler come at the http.ResponseWriter only through
  -- the methods of the writer that they are given, then that one, when `serveHTTP` is done, has been
  -- sent a response: no header after the one that is not informational or a flush, and nothing of the
  -- body before that.
  pub serve_http-IsResponse :
      (s : Server E Any) (abilities : Abilities) (r : Request E Any)
      → Reach s
      → IsResponse (serve_http lib mux s (other abilities) r).0.writer.sent
  serve_http-IsResponse s abilities r reach =
      let (cs, e) = serve_http-Reached s abilities r (Reach-WritesOnly reach) in
      subst (λ (w : ResponseWriter Text). IsResponse w.sent) (sym e)
        (apply_all-IsResponse abilities cs)
