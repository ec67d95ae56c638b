-- ===== src/Env/Tests.antt =====
-- Environments with one variable.
use gx.Base.{ℕ, ◌≡◌, refl, Option, none, some, List, [], ◌∷◌}
use gx.Env.{Environment, must_parsed, parsed, must, split_and_trim, append_parts}
use gx.Env.Strings.{Text, comma, join, split, trim_space, trim_left, is_space}
use gx.Env.Read.{AllWords, parsed-must_parsed}

-- "ab" and "c d"
abbrev two_words : List Text
two_words = (97 ∷ 98 ∷ []) ∷ (99 ∷ 32 ∷ 100 ∷ []) ∷ []

abbrev joined : Environment
joined key = some (join comma two_words)

-- "ab, ,c " has two parts.
blanks_are_dropped :
    split_and_trim (97 ∷ 98 ∷ 44 ∷ 32 ∷ 44 ∷ 99 ∷ 32 ∷ []) comma ≡ (97 ∷ 98 ∷ []) ∷ (99 ∷ []) ∷ []
unfolding split_and_trim append_parts split trim_space trim_left is_space
blanks_are_dropped = refl

abbrev two_words-AllWords : AllWords comma two_words
unfolding trim_space trim_left is_space
two_words-AllWords = (
  record { without = (refl, (refl, tt)); trimmed = refl; not_empty = refl },
  (record { without = (refl, (refl, (refl, tt))); trimmed = refl; not_empty = refl }, tt),
)

-- The code point of a text that has just one.
abbrev one_point : Text → Option ℕ
one_point (c ∷ []) = some c
one_point s = none

abbrev seven : Environment
seven key = some (7 ∷ [])

reads_seven : parsed seven one_point (75 ∷ []) 3 ≡ 7
unfolding must_parsed must
reads_seven = parsed-must_parsed seven one_point (75 ∷ []) 3 7 refl
