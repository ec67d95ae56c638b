-- ===== src/Web/Error/Messages.antt =====
-- web/error.go: what the errors say.
use gx.Base.{◌≡◌, refl, ap, ◌∙◌, false, Bool-cases, List, [], ◌∷◌, inl, inr, if◌then◌else◌}
use gx.Base.Int.{ℤ, pos}
use gx.Web.Error.{Library, error_message, error, error_status, status_of}

-- What the code relies on: an error says the text that it was made with, the text of status 500 is not
-- empty, and no text becomes empty in lower case.
pub record IsLibrary {ℓ κ} {Text : Type ℓ} {E : Type κ} (lib : Library Text E) : Type (ℓ ⊔ κ) where
  pub message-new : (t : Text) → lib.message (lib.new t) ≡ t
  pub fallback : lib.empty (lib.status_text (pos 500)) ≡ false
  pub empty-to_lower : (t : Text) → lib.empty (lib.to_lower t) ≡ lib.empty t

abbrev pub given_or : List ℤ → ℤ
given_or [] = pos 500
given_or (s ∷ rest) = s

module _ {ℓ κ} {Text : Type ℓ} {E : Type κ} (lib : Library Text E) where
  known_text : (t u : Text) → lib.empty u ≡ false → lib.empty (if lib.empty t then u else t) ≡ false
  known_text t u h = elim (Bool-cases (lib.empty t)) [
    | inl e ↦ ap (λ b. lib.empty (if b then u else t)) e ∙ h
    | inr e ↦ ap (λ b. lib.empty (if b then u else t)) e ∙ e
  ]

  -- An error that `ErrorStatus` makes has the first of the statuses given, or 500 if none is, and always
  -- says something, whether the status has a text or not.
  pub error_status_lem :
      (given : List ℤ)
      → IsLibrary lib
      → (status_of (error_status lib given) ≡ given_or given)
        × (lib.empty (error_message lib (error_status lib given)) ≡ false)
  unfolding error_status error error_message status_of
  error_status_lem [] v = (
    refl,
    ap lib.empty (v.message-new _)
        ∙ v.empty-to_lower _
        ∙ known_text (lib.status_text (pos 500)) (lib.status_text (pos 500)) v.fallback,
  )
  error_status_lem (s ∷ rest) v = (
    refl,
    ap lib.empty (v.message-new _)
        ∙ v.empty-to_lower _
        ∙ known_text (lib.status_text s) (lib.status_text (pos 500)) v.fallback,
  )
