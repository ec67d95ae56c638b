-- ===== src/Web/Handler/Answer.antt =====
-- web/server.go: the answer to a handler that fails.
use gx.Base.{
  ◌&&◌, ◌≡◌, refl, ap, ◌∙◌, sym, false, Bool-cases, Option, none, some, List, [], ◌∷◌, ◌++◌,
  append-nil, append_assoc, inl, inr, if◌then◌else◌, arith, ◌⊎◌, if_same, by_cases, subst,
}
use gx.Base.Int.{ℤ, pos, ltb_ℤ, leb_ℤ}
use gx.Base.Text.{Text, codes}
use gx.Web.Error.{StatusError}
use gx.Web.Response.{
  Sent, set_header, header, body, ResponseWriter, is_informational, send, write_header, write,
}
use gx.Web.Context.{Request, Library, warn, error, LogRecord, Context, status}
use gx.Web.Context.Logs.{level_of, request_line, error_record, log_error, log_error_response_write}
use gx.Web.Context.Formats.{respond, respond_json, json}
use gx.Web.Handler.{
  Handler, with_status, answer_status, log_failure, json_error, answer_error, answer, served, serve,
}

answer_status-is_informational : (status : ℤ) → is_informational (answer_status status) ≡ false
unfolding answer_status is_informational
answer_status-is_informational status = ground arith

level_of-answer_status :
    (status : ℤ)
    → level_of (answer_status status)
      ≡ (if ltb_ℤ (answer_status status) (pos 500) then warn else error)
unfolding level_of answer_status
level_of-answer_status status = ground arith

-- The status of the answer to an error: its own if that is from 400 to 599.
abbrev pub expected_status : ℤ → ℤ
expected_status status =
    if leb_ℤ (pos 400) status && leb_ℤ status (pos 599) then status else pos 500

answer_status-expected_status : (status : ℤ) → answer_status status ≡ expected_status status
unfolding answer_status
answer_status-expected_status status = ground arith

module _ {ℓ} {Body : Type ℓ} where
  -- The answer to an error where nothing has ended the header.
  write_header-write :
      (w : ResponseWriter Body) (status : ℤ) (b : Body)
      → is_informational status ≡ false
      → w.header_written ≡ false
      → (write (write_header w status) b).sent ≡ w.sent ++ header status ∷ body b ∷ []
  unfolding write_header write
  write_header-write w status b i f =
      simp (i, f, append_assoc w.sent (header status ∷ []) (body b ∷ []))

module _ {ℓ κ} {E : Type ℓ} {Any : Type κ} (lib : Library E Any) where
  -- The error with the status that it has, or 500 where it has none.
  abbrev pub error_of : E → StatusError E
  error_of err = elim (lib.as_status err) [
    | none ↦ record { err = err; status = pos 500 }
    | some e ↦ e
  ]

  with_status_lem :
      (o : Option (StatusError E)) (err : E)
      → with_status o err ≡ elim o [ none ↦ record { err = err; status = pos 500 } | some e ↦ e ]
  unfolding with_status
  with_status_lem none err = refl
  with_status_lem (some e) err = refl

  -- "https://host/path" of a request.
  abbrev pub address : Request E Any → Text
  address r =
      (if r.tls then codes "https" else codes "http") ++ (codes "://" ++ (r.host ++ r.request_uri))

  -- What the logger is given of an error: the request and the status of the answer, the error beside them.
  abbrev pub expected_record : Context E Any → ℤ → E → LogRecord
  expected_record c code err = record {
    level = if ltb_ℤ code (pos 500) then warn else error;
    message =
        c.opts.log_prefix
        ++ (codes ": "
            ++ ((c.request.method
                  ++ (codes " "
                      ++ (address c.request
                          ++ (codes " "
                              ++ (c.request.proto ++ (codes " from " ++ c.request.remote_addr))))))
                ++ (codes " (" ++ (lib.decimal code ++ codes ")"))));
    attribute = some (codes "err", lib.errors.message err);
  }

  error_record-expected_record :
      (c : Context E Any) (err : StatusError E)
      → error_record lib c (answer_status err.status) err
        ≡ expected_record c (expected_status err.status) err.err
  unfolding request_line
  error_record-expected_record c err =
      ap
        (λ l. record {
          level = l;
          message = (error_record lib c (answer_status err.status) err).message;
          attribute = some (codes "err", lib.errors.message err.err);
        })
        (level_of-answer_status err.status)
      ∙ ap (λ code. expected_record c code err.err) (answer_status-expected_status err.status)

  -- The failure to send an answer, for the logger.
  abbrev pub failures : Context E Any → Option E → List LogRecord
  failures c none = []
  failures c (some err) =
      record {
        level = error;
        message = c.opts.log_prefix ++ codes ": failed to write error response";
        attribute = some (codes "err", lib.errors.message err);
      }
      ∷ []

  log_failure_lem :
      (o : Option E) (c : Context E Any)
      → ((log_failure lib (o, c)).writer ≡ c.writer)
        × ((log_failure lib (o, c)).logged
            ≡ (if c.opts.logger then c.logged ++ failures c o else c.logged))
  unfolding log_error_response_write
  log_failure_lem none c = elim (Bool-cases c.opts.logger) [
    | inl e ↦ (refl, rw e (sym (append-nil c.logged)))
    | inr e ↦ (refl, rw e)
  ]
  log_failure_lem (some err) c = elim (Bool-cases c.opts.logger) [
    | inl e ↦ (simp (e), simp (e))
    | inr e ↦ (simp (e), simp (e))
  ]

  abbrev message_json : Context E Any → StatusError E → E ⊎ Text
  message_json c err = lib.marshal c.request.pretty (lib.error_object (lib.errors.message err.err))

  -- What is sent of a message, which may have no JSON, and the error that comes of it.
  abbrev pub message_sent : ℤ → E ⊎ Text → List (Sent Text)
  message_sent code (inl err) = []
  message_sent code (inr text) =
      set_header (codes "Content-Type") (codes "application/json") ∷ header code ∷ body text ∷ []

  abbrev pub message_error : E ⊎ Text → ResponseWriter Text → Option E
  message_error (inl err) w = some err
  message_error (inr text) w = lib.call_error w.sent

  abbrev answer_writer : Context E Any → ℤ → Text → ResponseWriter Text
  answer_writer c code text =
      write
        (write_header (send (set_header (codes "Content-Type") (codes "application/json")) c.writer)
          code)
        text

  answer_writer-sent :
      (c : Context E Any) (code : ℤ) (text : Text)
      → is_informational code ≡ false
      → c.writer.header_written ≡ false
      → (answer_writer c code text).sent ≡ c.writer.sent ++ message_sent code (inr text)
  answer_writer-sent c code text i f =
      write_header-write
        (send (set_header (codes "Content-Type") (codes "application/json")) c.writer) code text i f
      ∙ append_assoc c.writer.sent
          (set_header (codes "Content-Type") (codes "application/json") ∷ [])
          (header code ∷ body text ∷ [])

  log_failure-respond_json :
      (c : Context E Any) (code : ℤ) (r : E ⊎ Text)
      → is_informational code ≡ false
      → c.writer.header_written ≡ false
      → let a = log_failure lib (respond_json lib c (code ∷ []) r) in
        (a.writer.sent ≡ c.writer.sent ++ message_sent code r)
        × (a.logged ≡ (
            if c.opts.logger then c.logged ++ failures c (message_error r a.writer) else c.logged))
  unfolding respond status
  log_failure-respond_json c code (inl err) i f =
      let (p, q) = log_failure_lem (some err) c in
      (ap (λ w. w.sent) p ∙ sym (append-nil c.writer.sent), q)
  log_failure-respond_json c code (inr text) i f =
      let w : ResponseWriter Text = answer_writer c code text in
      let (p, q) = log_failure_lem (lib.call_error w.sent) (record c { writer = w }) in
      (
        ap (λ x. x.sent) p ∙ answer_writer-sent c code text i f,
        q
            ∙ ap
                (λ x.
                  if c.opts.logger
                  then c.logged ++ failures c (lib.call_error x.sent)
                  else c.logged)
                (sym p),
      )

  -- What follows the first record of an error.
  abbrev pub later_records : StatusError E → Context E Any → ResponseWriter Text → List LogRecord
  later_records err d w =
      if d.writer.header_written then [] else failures d (message_error (message_json d err) w)

  answer_error_lem :
      (c : Context E Any) (err : StatusError E)
      → ((answer_error lib none err c).writer.sent ≡ (
          if c.writer.header_written
          then c.writer.sent
          else c.writer.sent ++ message_sent (answer_status err.status) (message_json c err)))
        × ((answer_error lib none err c).logged ≡ (
            if c.opts.logger
            then c.logged ++ later_records err c (answer_error lib none err c).writer
            else c.logged))
  unfolding answer_error json_error json
  answer_error_lem c err =
      by_cases
        (λ b.
          let a : Context E Any = if b then c else json_error lib c err in
          (a.writer.sent ≡ (
            if b
            then c.writer.sent
            else c.writer.sent ++ message_sent (answer_status err.status) (message_json c err)))
          × (a.logged ≡ (
              if c.opts.logger
              then c.logged
                ++ (if b then [] else failures c (message_error (message_json c err) a.writer))
              else c.logged)))
        c.writer.header_written
        (λ _. (refl, rw (append-nil c.logged) (if_same c.opts.logger c.logged)))
        (log_failure-respond_json c (answer_status err.status) (message_json c err)
          (answer_status-is_informational err.status))

  -- What serving comes to with a status and the first record, for a handler that leaves `d` and fails
  -- with `err`.
  abbrev pub Answers : ℤ → LogRecord → StatusError E → Context E Any → Context E Any → Type 0
  Answers code r err d c =
      (c.writer.sent ≡ (
        if d.writer.header_written
        then d.writer.sent
        else d.writer.sent ++ message_sent code (message_json d err)))
      × (c.logged
          ≡ (if d.opts.logger then d.logged ++ r ∷ later_records err d c.writer else d.logged))

  abbrev pub Answered : StatusError E → Context E Any → Context E Any → Type 0
  Answered err d c =
      Answers (expected_status err.status) (expected_record d (expected_status err.status) err.err)
        err d c

  answer-Answers :
      (d : Context E Any) (err : StatusError E)
      → Answers
          (answer_status err.status)
          (error_record lib d (answer_status err.status) err)
          err
          d
          (answer lib none err d)
  unfolding answer log_error
  answer-Answers d err =
      let r : LogRecord = error_record lib d (answer_status err.status) err in
      let told : Context E Any = record d { logged = d.logged ++ r ∷ [] } in
      by_cases
        (λ b.
          (b ≡ d.opts.logger)
          → let a : Context E Any = answer_error lib none err (if b then told else d) in
            (a.writer.sent ≡ (
              if d.writer.header_written
              then d.writer.sent
              else d.writer.sent ++ message_sent (answer_status err.status) (message_json d err)))
            × (a.logged ≡ (if b then d.logged ++ r ∷ later_records err d a.writer else d.logged)))
        d.opts.logger
        (λ _ l.
          let (p, q) = answer_error_lem told err in
          (
            p,
            q
                ∙ ap
                    (λ b.
                      if b
                      then told.logged
                        ++ later_records err d (answer_error lib none err told).writer
                      else told.logged)
                    (sym l)
                ∙ append_assoc d.logged (r ∷ [])
                    (later_records err d (answer_error lib none err told).writer),
          ))
        (λ _ l.
          let (p, q) = answer_error_lem d err in
          (
            p,
            q
                ∙ ap
                    (λ b.
                      if b
                      then d.logged ++ later_records err d (answer_error lib none err d).writer
                      else d.logged)
                    (sym l),
          ))
        refl

  answer-Answered :
      (d : Context E Any) (err : StatusError E) → Answered err d (answer lib none err d)
  answer-Answered d err =
      subst
        (λ code.
          Answers code (expected_record d (expected_status err.status) err.err) err d
            (answer lib none err d))
        (answer_status-expected_status err.status)
        (subst (λ r. Answers (answer_status err.status) r err d (answer lib none err d))
          (error_record-expected_record d err) (answer-Answers d err))

  -- A handler that fails, where no error handler is set. Where its header is written nothing more is
  -- sent; else the type, one header and the message follow, or nothing where the message has no JSON.
  -- The status is that of the error if that is from 400 to 599, and 500 if it is not or if the error
  -- has none. A logger is given the request line, the status and the error's message, as a warning where
  -- the status is below 500 and as an error elsewhere, and after that the failure to send the message, as
  -- an error, if there is one.
  pub serve-Answered :
      (h : Handler E Any) (c d : Context E Any) (err : E)
      → h c ≡ (some err, d)
      → Answered (error_of err) d (serve lib none h c)
  unfolding serve
  serve-Answered h c d err e =
      subst (λ r. Answered (error_of err) d (served lib none r)) (sym e)
        (subst (λ x. Answered (error_of err) d (answer lib none x d))
          (sym (with_status_lem (lib.as_status err) err)) (answer-Answered d (error_of err)))
