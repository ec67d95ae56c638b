-- ===== src/Web/Error.antt =====
-- web/error.go: errors with an HTTP status. `E` is the type of errors, `Text` that of strings. What
-- `errors.New`, `http.StatusText` and `strings.ToLower` return is a parameter.
pub mod Messages
mod Tests
use gx.Base.{ℕ, Bool, Option, none, some, List, [], ◌∷◌, if◌then◌else◌}
use gx.Base.Int.{ℤ, pos}

pub record StatusError {ℓ} (E : Type ℓ) : Type ℓ where
  pub err : E
  pub status : ℤ

-- `message` is the method `Error` of an error, `empty` the test `text == ""`.
pub record Library {ℓ κ} (Text : Type ℓ) (E : Type κ) : Type (ℓ ⊔ κ) where
  pub new : Text → E
  pub message : E → Text
  pub status_text : ℤ → Text
  pub to_lower : Text → Text
  pub empty : Text → Bool

module _ {ℓ κ} {Text : Type ℓ} {E : Type κ} (lib : Library Text E) where
  -- The methods `Error`, `Status` and `Unwrap`.
  pub error_message : StatusError E → Text
  error_message s = lib.message s.err

  unfoldable pub error : ℤ → Text → StatusError E
  error status text = record { err = lib.new text; status = status }

  pub error_status : List ℤ → StatusError E
  unfolding error
  error_status given =
      let status : ℤ = elim given [ [] ↦ pos 500 | s ∷ rest ↦ s ] in
      let text = lib.status_text status in
      error status (lib.to_lower (if lib.empty text then lib.status_text (pos 500) else text))

module _ {κ} {E : Type κ} where
  -- `make` is `fmt.Errorf`.
  unfoldable pub errorf {ℓ α} :
      {Text : Type ℓ} {Any : Type α} → (Text → List Any → E) → ℤ → Text → List Any → StatusError E
  errorf make status format a = record { err = make format a; status = status }

  pub status_of : StatusError E → ℤ
  status_of s = s.status

  pub unwrap : StatusError E → E
  unwrap s = s.err

  -- `none` is nil.
  pub error_wrap : ℤ → Option E → Option (StatusError E)
  error_wrap status none = none
  error_wrap status (some err) = some (record { err = err; status = status })
