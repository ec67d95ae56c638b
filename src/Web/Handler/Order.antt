-- ===== src/Web/Handler/Order.antt =====
-- web/server.go: the order of middleware.
use gx.Base.{◌≡◌, refl, ap, ◌∙◌, List, [], ◌∷◌, ◌++◌, reverse}
use mathlib.Core.List.{reverse-append}
use gx.Web.Handler.{Handler, Middleware, chain, middleware_chain}

module _ {ℓ κ} {E : Type ℓ} {Any : Type κ} where
  chain-append :
      (h : Handler E Any) (ms ns : List (Middleware E Any))
      → chain h (ms ++ ns) ≡ chain (chain h ms) ns
  unfolding chain
  chain-append h [] ns = refl
  chain-append h (m ∷ ms) ns = chain-append (m h) ms ns

  -- The middleware that a Server uses first is the outermost.
  pub middleware_chain-cons :
      (mux : Handler E Any) (m : Middleware E Any) (ms : List (Middleware E Any))
      → middleware_chain mux (m ∷ ms) ≡ m (middleware_chain mux ms)
  unfolding middleware_chain chain
  middleware_chain-cons mux m ms =
      ap (chain mux) (reverse-append (m ∷ []) ms) ∙ chain-append mux (reverse ms) (m ∷ [])
