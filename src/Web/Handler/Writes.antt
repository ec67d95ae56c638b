-- ===== src/Web/Handler/Writes.antt =====
-- web/server.go: handlers that come at the wrapped writer only through the methods of the writer that
-- they are given, and what serves them.
use gx.Base.{
  ◌≡◌, refl, sym, subst, ◌∙◌, ap, Bool-cases, if_both, Option, none, some, List, [], ◌∷◌, ◌++◌, inl,
  inr, ◌⊎◌,
}
use gx.Base.Int.{ℤ}
use gx.Base.Text.{Text, codes}
use gx.Web.Error.{StatusError}
use gx.Web.Response.{
  ResponseWriter, WriterCall, sets_header, writes_header, writes, apply, apply_all,
}
use gx.Web.Context.{Library, LogRecord, Context, status, response_written}
use gx.Web.Context.Logs.{log, log_error, log_error_response_write, write_error_record}
use gx.Web.Context.Formats.{respond, respond_json, json}
use gx.Web.Handler.{
  Handler, Middleware, ErrorHandler, with_status, log_failure, json_error, answer_error, answer,
  served, serve, chain, middleware_chain,
}
use gx.Web.Handler.Order.{middleware_chain-cons}

-- The second comes from the first by calls of its methods.
abbrev pub Reached {ℓ} : {Body : Type ℓ} → ResponseWriter Body → ResponseWriter Body → Type ℓ
Reached {Body} w w' = (cs : List (WriterCall Body)) × (w' ≡ apply_all w cs)

module _ {ℓ} {Body : Type ℓ} where
  pub apply_all-append :
      (w : ResponseWriter Body) (cs ds : List (WriterCall Body))
      → apply_all w (cs ++ ds) ≡ apply_all (apply_all w cs) ds
  apply_all-append w [] ds = refl
  apply_all-append w (c ∷ cs) ds = apply_all-append (apply w c) cs ds

  pub Reached-refl : (w : ResponseWriter Body) → Reached w w
  Reached-refl w = ([], refl)

  pub Reached-trans : (u v w : ResponseWriter Body) → Reached u v → Reached v w → Reached u w
  Reached-trans u v w (cs, p) (ds, q) =
      (cs ++ ds, q ∙ ap (λ x. apply_all x ds) p ∙ sym (apply_all-append u cs ds))

module _ {ℓ κ} {E : Type ℓ} {Any : Type κ} where
  abbrev pub Writes : Handler E Any → Type (ℓ ⊔ κ)
  Writes h = (c : Context E Any) → Reached c.writer (h c).1.writer

  abbrev pub KeepsWrites : Middleware E Any → Type (ℓ ⊔ κ)
  KeepsWrites m = (h : Handler E Any) → Writes h → Writes (m h)

  abbrev pub AllKeepWrites : List (Middleware E Any) → Type (ℓ ⊔ κ)
  AllKeepWrites [] = Unit
  AllKeepWrites (m ∷ ms) = KeepsWrites m × AllKeepWrites ms

  abbrev pub AnswersByWriting : Option (ErrorHandler E Any) → Type (ℓ ⊔ κ)
  AnswersByWriting none = Unit
  AnswersByWriting (some f) =
      (c : Context E Any) (err : StatusError E) → Reached c.writer (f c err).writer

  pub AllKeepWrites-append :
      (ms ns : List (Middleware E Any))
      → AllKeepWrites ms
      → AllKeepWrites ns
      → AllKeepWrites (ms ++ ns)
  AllKeepWrites-append [] ns h k = k
  AllKeepWrites-append (m ∷ ms) ns h k = (h.0, AllKeepWrites-append ms ns h.1 k)

  pub chain-Writes :
      (h : Handler E Any) (ms : List (Middleware E Any))
      → Writes h
      → AllKeepWrites ms
      → Writes (chain h ms)
  unfolding chain
  chain-Writes h [] w k = w
  chain-Writes h (m ∷ ms) w k = chain-Writes (m h) ms (k.0 h w) k.1

  pub middleware_chain-Writes :
      (h : Handler E Any) (ms : List (Middleware E Any))
      → Writes h
      → AllKeepWrites ms
      → Writes (middleware_chain h ms)
  unfolding middleware_chain chain
  middleware_chain-Writes h [] w k = w
  middleware_chain-Writes h (m ∷ ms) w k =
      subst Writes (sym (middleware_chain-cons h m ms))
        (k.0 (middleware_chain h ms) (middleware_chain-Writes h ms w k.1))

  pub log-writer : (c : Context E Any) (r : LogRecord) → (log c r).writer ≡ c.writer
  log-writer c r = elim (Bool-cases c.opts.logger) [ inl e ↦ simp (e) | inr e ↦ simp (e) ]

module _ {ℓ κ} {E : Type ℓ} {Any : Type κ} (lib : Library E Any) where
  pub respond-Reached :
      (type : Text) (c : Context E Any) (text : Text) (given : List ℤ)
      → Reached c.writer (respond lib type c text given).1.writer
  unfolding respond status
  respond-Reached type c text [] =
      (sets_header (codes "Content-Type") type ∷ writes text ∷ [], refl)
  respond-Reached type c text (code ∷ rest) =
      (sets_header (codes "Content-Type") type ∷ writes_header code ∷ writes text ∷ [], refl)

  respond_json-Reached :
      (c : Context E Any) (given : List ℤ) (r : E ⊎ Text)
      → Reached c.writer (respond_json lib c given r).1.writer
  respond_json-Reached c given (inl err) = Reached-refl c.writer
  respond_json-Reached c given (inr text) = respond-Reached (codes "application/json") c text given

  pub json-Reached :
      (c : Context E Any) (v : Any) (given : List ℤ)
      → Reached c.writer (json lib c v given).1.writer
  unfolding json
  json-Reached c v given = respond_json-Reached c given (lib.marshal c.request.pretty v)

  log_failure-writer : (r : Option E × Context E Any) → (log_failure lib r).writer ≡ r.1.writer
  unfolding log_error_response_write
  log_failure-writer (none, c) = refl
  log_failure-writer (some err, c) = log-writer c (write_error_record lib c err)

  json_error-Reached :
      (c : Context E Any) (err : StatusError E) → Reached c.writer (json_error lib c err).writer
  unfolding json_error
  json_error-Reached c err =
      subst (Reached c.writer) (sym (log_failure-writer _)) (json-Reached c _ _)

  answer_error-Reached :
      (f : Option (ErrorHandler E Any)) (err : StatusError E) (c : Context E Any)
      → AnswersByWriting f
      → Reached c.writer (answer_error lib f err c).writer
  unfolding answer_error
  answer_error-Reached none err c a =
      if_both (λ d. Reached c.writer d.writer) (response_written c) c (json_error lib c err)
        (Reached-refl c.writer) (json_error-Reached c err)
  answer_error-Reached (some f) err c a =
      if_both (λ d. Reached c.writer d.writer) (response_written c) c (f c err)
        (Reached-refl c.writer) (a c err)

  answer-Reached :
      (f : Option (ErrorHandler E Any)) (err : StatusError E) (c : Context E Any)
      → AnswersByWriting f
      → Reached c.writer (answer lib f err c).writer
  unfolding answer log_error
  answer-Reached f err c a =
      subst (λ w. Reached w (answer lib f err c).writer) (log-writer c _)
        (answer_error-Reached f err _ a)

  served-Reached :
      (f : Option (ErrorHandler E Any)) (r : Option E × Context E Any)
      → AnswersByWriting f
      → Reached r.1.writer (served lib f r).writer
  served-Reached f (none, c) a = Reached-refl c.writer
  served-Reached f (some err, c) a = answer-Reached f (with_status (lib.as_status err) err) c a

  -- What serves a handler that writes only so writes only so.
  pub serve-Reached :
      (f : Option (ErrorHandler E Any)) (h : Handler E Any) (c : Context E Any)
      → AnswersByWriting f
      → Writes h
      → Reached c.writer (serve lib f h c).writer
  unfolding serve
  serve-Reached f h c a w = Reached-trans c.writer (h c).1.writer _ (w c) (served-Reached f (h c) a)
