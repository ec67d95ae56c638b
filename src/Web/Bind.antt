-- ===== src/Web/Bind.antt =====
-- web/context.go: `bind`, which reads a JSON body after a look at its content type. `strings.ToLower` is
-- a parameter, and so is what `json.UnmarshalRead` comes to under a limit on the bytes.
pub mod Accepts
mod Tests
use gx.Base.{
  ℕ, Bool, true, false, not, ◌&&◌, Option, none, some, List, [], ◌∷◌, ◌==◌, if◌then◌else◌,
}
use gx.Base.Int.{ℤ, pos, ltb_ℤ}
use gx.Base.Text.{Text, codes}
use gx.Env.Strings.{trim_space}

-- `strings.CutPrefix`
unfoldable pub cut_prefix : Text → Text → Option Text
cut_prefix text [] = some text
cut_prefix [] (p ∷ prefix) = none
cut_prefix (c ∷ text) (p ∷ prefix) =
    let rest = cut_prefix text prefix in if c == p then rest else none

-- "application/json"
abbrev pub json_type : Text
json_type = codes "application/json"

-- What follows the type: nothing, or parameters after ";".
unfoldable pub accepts_suffix : Option Text → Bool
accepts_suffix none = false
accepts_suffix (some []) = true
accepts_suffix (some (c ∷ suffix)) = elim (trim_space (c ∷ suffix)) [
  | [] ↦ false
  | d ∷ rest ↦ d == 59
]

unfoldable pub accepts_type : (Text → Text) → Text → Bool
accepts_type to_lower content_type =
    accepts_suffix (cut_prefix (to_lower (trim_space content_type)) json_type)

-- What reading the body comes to.
pub data Read {ℓ} (E : Type ℓ) : Type ℓ where
  bound : Read E
  exceeded malformed : E → Read E

-- The errors of `bind`, with their statuses.
pub data BindError {ℓ} (E : Type ℓ) : Type ℓ where
  invalid_type invalid_body : BindError E
  too_large : E → BindError E

unfoldable pub bind_status {ℓ} : {E : Type ℓ} → BindError E → ℤ
bind_status invalid_type = pos 400
bind_status invalid_body = pos 400
bind_status (too_large err) = pos 413

-- `none` is no limit.
unfoldable pub read_limit : ℤ → Option ℤ
read_limit max = if ltb_ℤ (pos 0) max then some max else none

module _ {ℓ} {E : Type ℓ} where
  unfoldable pub read_error : Read E → Option (BindError E)
  read_error bound = none
  read_error (exceeded err) = some (too_large err)
  read_error (malformed err) = some invalid_body

  unfoldable pub bind : (Text → Text) → (Option ℤ → Read E) → ℤ → Text → Bool → Option (BindError E)
  bind to_lower read max content_type validate =
      if validate && not (accepts_type to_lower content_type)
      then some invalid_type
      else read_error (read (read_limit max))
