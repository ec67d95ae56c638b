-- ===== src/Env/Read.antt =====
-- env/env.go: what the functions read.
use gx.Base.{ℕ, ◌≡◌, false, Option, List, [], ◌∷◌, inr, arith, ◌==◌}
use gx.Env.Strings.{Text, trim_space}
use gx.Env.{Environment, append_part, must, parsed, must_parsed}

-- The separator is not in the text.
abbrev pub Without : ℕ → Text → Type 0
Without sep [] = Unit
Without sep (c ∷ s) = ((c == sep) ≡ false) × Without sep s

-- A text that is not empty and has no separator, nor white space at either end.
pub record IsWord (sep : ℕ) (w : Text) : Type 0 where
  pub without : Without sep w
  pub trimmed : trim_space w ≡ w
  pub not_empty : append_part [] w ≡ w ∷ []

abbrev pub AllWords : ℕ → List Text → Type 0
AllWords sep [] = Unit
AllWords sep (w ∷ ws) = IsWord sep w × AllWords sep ws

module _ {ℓ} {A : Type ℓ} (lookup_env : Environment) (parse : Text → Option A) (key : Text) where
  -- A required variable and one with a fallback agree: where the function with `Must` does not panic,
  -- the one without returns the same value, whatever its fallback and whatever the parser.
  pub parsed-must_parsed :
      (fallback a : A)
      → must_parsed lookup_env parse key ≡ inr a
      → parsed lookup_env parse key fallback ≡ a
  unfolding must_parsed parsed must
  parsed-must_parsed fallback a e = ground arith
