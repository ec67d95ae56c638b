-- ===== src/Web/Context/Formats.antt =====
-- web/context.go: the formats of a response. A `status ...int` is a list, of which the first counts.
use gx.Base.{Option, some, List, [], ◌∷◌, inl, inr, ◌⊎◌}
use gx.Base.Int.{ℤ, pos}
use gx.Base.Text.{Text, codes}
use gx.Web.Response.{write, sets_header, apply, apply_all}
use gx.Web.Context.{Library, Context, status}

abbrev pub redirect_status : List ℤ → ℤ
redirect_status [] = pos 303
redirect_status (code ∷ rest) = code

module _ {ℓ κ} {E : Type ℓ} {Any : Type κ} where
  abbrev pub set_content_type : Context E Any → Text → Context E Any
  set_content_type c type = record c {
    writer = apply c.writer (sets_header (codes "Content-Type") type);
  }

  -- The status, where one is given.
  abbrev pub given_status : Context E Any → List ℤ → Context E Any
  given_status c [] = c
  given_status c (code ∷ rest) = status c code

module _ {ℓ κ} {E : Type ℓ} {Any : Type κ} (lib : Library E Any) where
  -- A write with its error.
  abbrev pub write_body : Context E Any → Text → Option E × Context E Any
  write_body c text =
      let w = write c.writer text in (lib.call_error w.sent, record c { writer = w })

  unfoldable pub respond : Text → Context E Any → Text → List ℤ → Option E × Context E Any
  unfolding status
  respond type c text given = write_body (given_status (set_content_type c type) given) text

  unfoldable pub html : Context E Any → Text → List ℤ → Option E × Context E Any
  unfolding respond
  html c s given = respond (codes "text/html; charset=utf-8") c s given

  unfoldable pub string : Context E Any → Text → List ℤ → Option E × Context E Any
  unfolding respond
  string c s given = respond (codes "text/plain; charset=utf-8") c s given

  -- Nothing is sent where the value has no JSON.
  abbrev pub respond_json : Context E Any → List ℤ → E ⊎ Text → Option E × Context E Any
  respond_json c given (inl err) = (some err, c)
  respond_json c given (inr text) = respond (codes "application/json") c text given

  unfoldable pub json : Context E Any → Any → List ℤ → Option E × Context E Any
  unfolding respond
  json c v given = respond_json c given (lib.marshal c.request.pretty v)

  unfoldable pub redirect : Context E Any → Text → List ℤ → Context E Any
  redirect c url given = record c {
    writer = apply_all c.writer (lib.redirect c.request url (redirect_status given));
  }
