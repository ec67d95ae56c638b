-- ===== src/Env.antt =====
-- env/env.go: environment variables with a fallback, or required. A text is its code points. The parsers
-- of strconv and time are parameters, with `none` for their errors.
pub mod Strings
pub mod Read
mod Tests
use gx.Base.{ℕ, Option, none, some, List, [], ◌∷◌, ◌++◌, ◌⊎◌, inl, inr}
use Strings.{Text, split, trim_space, comma}

-- `os.LookupEnv`
abbrev pub Environment : Type 0
Environment = Text → Option Text

-- The panics, with the key that they name.
pub data Panic : Type 0 where
  missing invalid : Text → Panic

-- `if v != ""`, and the append.
abbrev append_part : List Text → Text → List Text
append_part parts [] = parts
append_part parts (c ∷ v) = parts ++ (c ∷ v) ∷ []

append_parts : List Text → List Text → List Text
append_parts parts [] = parts
append_parts parts (v ∷ rest) = append_parts (append_part parts (trim_space v)) rest

pub split_and_trim : Text → ℕ → List Text
unfolding append_parts
split_and_trim s sep = append_parts [] (split sep s)

module _ (lookup_env : Environment) where
  pub must : Text → Panic ⊎ Text
  must key = elim (lookup_env key) [
    | none ↦ inl (missing key)
    | some [] ↦ inl (missing key)
    | some (c ∷ v) ↦ inr (c ∷ v)
  ]

  pub string : Text → Text → Text
  string key fallback = elim (lookup_env key) [ none ↦ fallback | some v ↦ v ]

  pub strings : Text → List Text → List Text
  unfolding split_and_trim
  strings key fallback = elim (lookup_env key) [ none ↦ fallback | some v ↦ split_and_trim v comma ]

  pub must_string : Text → Panic ⊎ Text
  unfolding must
  must_string key = must key

  pub must_strings : Text → Panic ⊎ List Text
  unfolding must split_and_trim
  must_strings key = elim (must key) [ inl p ↦ inl p | inr v ↦ inr (split_and_trim v comma) ]

  module _ {ℓ} {A : Type ℓ} (parse : Text → Option A) where
    -- `Bool`, `Duration`, `Float64` and `Int`, which differ in the parser.
    pub parsed : Text → A → A
    parsed key fallback = elim (lookup_env key) [
      | none ↦ fallback
      | some v ↦ elim (parse v) [ none ↦ fallback | some a ↦ a ]
    ]

    -- `MustBool`, `MustDuration`, `MustFloat64` and `MustInt`.
    pub must_parsed : Text → Panic ⊎ A
    unfolding must
    must_parsed key = elim (must key) [
      | inl p ↦ inl p
      | inr v ↦ elim (parse v) [ none ↦ inl (invalid key) | some a ↦ inr a ]
    ]
