-- ===== src/Web/Context/Binds.antt =====
-- web/context.go: what Bind and BindAnyContentType return.
use gx.Base.{
  zero, suc, ◌≡◌, refl, ap, ◌⊎◌, inl, inr, ◌∙◌, sym, arith, Bool, true, false, not, ◌&&◌, Option,
  none, some, if◌then◌else◌,
}
use mathlib.Core.Option
use gx.Base.Int.{ℤ, pos, negsuc}
use gx.Base.Text.{Text, codes}
use gx.Env.Strings.{trim_space}
use gx.Web.Error
use gx.Web.Error.{StatusError}
use gx.Web.Bind.{
  Read, bound, exceeded, malformed, invalid_type, read_error, read_limit, accepts_type, bind,
}
use gx.Web.Bind.Accepts.{IsJson, accepts_type_iff}
use gx.Web.Context.{Library, Context, bind_error, bind_request, bind_json, bind_any_content_type}

-- The limit that the options ask for: one that is positive.
abbrev pub limit : ℤ → Option ℤ
limit (pos zero) = none
limit (pos (suc n)) = some (pos (suc n))
limit (negsuc n) = none

read_limit-limit : (max : ℤ) → read_limit max ≡ limit max
unfolding read_limit
read_limit-limit (pos zero) = refl
read_limit-limit (pos (suc n)) = ground arith
read_limit-limit (negsuc n) = ground arith

false-ne-true : ¬ (false ≡ true)
false-ne-true h = absurd (cc)

module _ {ℓ κ} {E : Type ℓ} {Any : Type κ} (lib : Library E Any) (c : Context E Any) where
  -- The media type of the request, as `bind` compares it.
  abbrev pub media_type : Text
  media_type = lib.errors.to_lower (trim_space c.request.content_type)

  -- What reading the body comes to, under the limit of the options if that is positive and under none
  -- if it is not.
  abbrev pub reading : Read E
  reading = c.request.body (limit c.opts.max_read_size)

  read-reading : c.request.body (read_limit c.opts.max_read_size) ≡ reading
  read-reading = ap c.request.body (read_limit-limit c.opts.max_read_size)

  abbrev pub bad_request : Text → StatusError E
  bad_request text = Error.error lib.errors (pos 400) text

  -- What a bind returns, where `Type` is what it asks of the content type.
  abbrev pub Binds : Type 0 → Option (StatusError E) → Type ℓ
  Binds Fits none = Fits × (reading ≡ bound)
  Binds Fits (some e) =
      ((¬ Fits) × (e ≡ bad_request (codes "invalid content type, expected application/json")))
      ⊎ (Fits
          × (((err : E) × (reading ≡ exceeded err) × (e ≡ record { err = err; status = pos 413 }))
              ⊎ ((err : E) × (reading ≡ malformed err)
                  × (e ≡ bad_request (codes "invalid json body")))))

  reads-Binds :
      {Fits : Type 0}
      → Fits
      → (read : Read E) → reading ≡ read
      → Binds Fits (Option.map (bind_error lib) (read_error read))
  unfolding read_error bind_error
  reads-Binds f bound e = (f, e)
  reads-Binds f (exceeded err) e = inr (f, inl (err, e, refl))
  reads-Binds f (malformed err) e = inr (f, inr (err, e, refl))

  -- Bind returns nil exactly when the content type is JSON, parameters allowed, and the body is read, under
  -- the limit of the options where that is positive and under none elsewhere; a content type that is not is refused with 400 whatever the body, a body
  -- beyond the limit with 413 and the error that told it, and any other failure to read it with 400.
  -- BindAnyContentType returns the same for every content type as Bind for JSON.
  pub bind_request-Binds :
      Binds (IsJson media_type) (bind_json lib c) × Binds Unit (bind_any_content_type lib c)
  unfolding bind_json bind_any_content_type bind_request bind
  bind_request-Binds = (
    at (accepts_type lib.errors.to_lower c.request.content_type) refl,
    reads-Binds tt (c.request.body (read_limit c.opts.max_read_size)) (sym read-reading),
  )
    where
      refused :
          accepts_type lib.errors.to_lower c.request.content_type ≡ false → IsJson media_type → ⊥
      refused h j =
          false-ne-true (sym h ∙ (accepts_type_iff lib.errors.to_lower c.request.content_type).1 j)

      at :
          (b : Bool)
          → accepts_type lib.errors.to_lower c.request.content_type ≡ b
          → Binds (IsJson media_type) (
              Option.map (bind_error lib) (
                if true && not b
                then some invalid_type
                else read_error (c.request.body (read_limit c.opts.max_read_size))))
      at true h = reads-Binds ((accepts_type_iff _ _).0 h) _ (sym read-reading)
      at false h = inl (λ j. absurd (refused h j), refl)
