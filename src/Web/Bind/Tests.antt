-- ===== src/Web/Bind/Tests.antt =====
-- Bodies of "ok", with content types in lower case.
use gx.Base.{ℕ, ◌≡◌, refl, true, Option, none, some, [], ◌∷◌, ◌++◌}
use gx.Base.Int.{pos}
use gx.Env.Strings.{Text, trim_space, trim_left, is_space}
use gx.Web.Bind.{
  cut_prefix, json_type, accepts_suffix, accepts_type, bound, BindError, invalid_type, read_error,
  read_limit, bind,
}

abbrev bound_as : Text → Option (BindError ℕ)
bound_as content_type = bind (λ t. t) (λ limit. bound) (pos 5) content_type true

-- " application/json ;x", "application/jsonx" and none at all.
binds_json :
    (bound_as (32 ∷ json_type ++ 32 ∷ 59 ∷ 120 ∷ []) ≡ none)
    × (bound_as (json_type ++ 120 ∷ []) ≡ some invalid_type)
    × (bound_as [] ≡ some invalid_type)
unfolding bind accepts_type accepts_suffix cut_prefix read_error read_limit trim_space trim_left
    is_space
binds_json = (refl, refl, refl)
