-- ===== src/Base/Int.antt =====
-- Go's `int` (64 bits, two's complement) over the integers: every operation wraps.
use Prim.Native.Nat.{ℕ, suc, ◌+◌, ◌-◌, ◌%◌, ◌^◌, ◌≤◌, ◌<◌}
use mathlib.Core.Path.{◌≡◌}
use mathlib.Core.Bool.{Bool}
use native.Mathlib.Omega.{arith}
use gx.Base.Tests.{ltb, leb, if◌then◌else◌}

-- `negsuc n` is -(n + 1).
pub data ℤ : Type 0 where
  pos : ℕ → ℤ
  negsuc : ℕ → ℤ

abbrev pub pos_part : ℤ → ℕ
pos_part (pos n) = n
pos_part (negsuc n) = 0

abbrev pub neg_part : ℤ → ℕ
neg_part (pos n) = 0
neg_part (negsuc n) = suc n

abbrev pub sub_ℕ : ℕ → ℕ → ℤ
sub_ℕ a b = if leb b a then pos (a - b) else negsuc (b - a - 1)

infixl 65 ◌+ℤ◌ ◌-ℤ◌
infix 50 ◌≤ℤ◌ ◌<ℤ◌
unfoldable pub ◌+ℤ◌ : ℤ → ℤ → ℤ
a +ℤ b = sub_ℕ (pos_part a + pos_part b) (neg_part a + neg_part b)

unfoldable pub ◌-ℤ◌ : ℤ → ℤ → ℤ
a -ℤ b = sub_ℕ (pos_part a + neg_part b) (neg_part a + pos_part b)

abbrev pub ◌≤ℤ◌ : ℤ → ℤ → Type 0
a ≤ℤ b = pos_part a + neg_part b ≤ pos_part b + neg_part a

abbrev pub ◌<ℤ◌ : ℤ → ℤ → Type 0
a <ℤ b = pos_part a + neg_part b < pos_part b + neg_part a

abbrev pub ltb_ℤ : ℤ → ℤ → Bool
ltb_ℤ a b = ltb (pos_part a + neg_part b) (pos_part b + neg_part a)

abbrev pub leb_ℤ : ℤ → ℤ → Bool
leb_ℤ a b = leb (pos_part a + neg_part b) (pos_part b + neg_part a)

-- One lemma for each operation lets `omega` work with the operations shut.
pub +ℤ_parts :
    (a b : ℤ)
    → pos_part (a +ℤ b) + neg_part a + neg_part b ≡ neg_part (a +ℤ b) + pos_part a + pos_part b
unfolding ◌+ℤ◌
+ℤ_parts a b = ground arith

pub -ℤ_parts :
    (a b : ℤ)
    → pos_part (a -ℤ b) + neg_part a + pos_part b ≡ neg_part (a -ℤ b) + pos_part a + neg_part b
unfolding ◌-ℤ◌
-ℤ_parts a b = ground arith

pub eq_of_parts : (a b : ℤ) → pos_part a + neg_part b ≡ pos_part b + neg_part a → a ≡ b
eq_of_parts a b h = ground arith

pub ruleset int_laws = (arith, +ℤ_parts, -ℤ_parts, eq_of_parts)

abbrev word : ℤ → ℕ
word (pos n) = n % 2 ^ 64
word (negsuc n) = 2 ^ 64 - 1 - n % 2 ^ 64

-- The `int` with the low 64 bits of an integer.
unfoldable pub wrap : ℤ → ℤ
wrap z = if ltb (word z) (2 ^ 63) then pos (word z) else negsuc (2 ^ 64 - 1 - word z)

-- The values of an `int`.
abbrev pub IsInt : ℤ → Type 0
IsInt z = (pos_part z < 2 ^ 63) × (neg_part z ≤ 2 ^ 63)

pub wrap-IsInt : (z : ℤ) → IsInt (wrap z)
unfolding wrap
wrap-IsInt (pos n) = ground arith
wrap-IsInt (negsuc n) = ground arith

pub wrap_of_IsInt : (z : ℤ) → IsInt z → wrap z ≡ z
unfolding wrap
wrap_of_IsInt (pos n) h = ground arith
wrap_of_IsInt (negsuc n) h = ground arith

-- `a + b` on `int`.
unfoldable pub add_int : ℤ → ℤ → ℤ
unfolding wrap ◌+ℤ◌
add_int a b = wrap (a +ℤ b)

word-wrap : (z : ℤ) → word (wrap z) ≡ word z
unfolding wrap
word-wrap (pos n) = ground arith
word-wrap (negsuc n) = ground arith

word-+ℤ : (a b : ℤ) → word (a +ℤ b) ≡ (word a + word b) % 2 ^ 64
unfolding ◌+ℤ◌
word-+ℤ a b = ground arith

wrap_of_word : (a b : ℤ) → word a ≡ word b → wrap a ≡ wrap b
unfolding wrap
wrap_of_word a b e = ground arith

pub add_int_comm : (a b : ℤ) → add_int a b ≡ add_int b a
unfolding add_int
add_int_comm a b = wrap_of_word (a +ℤ b) (b +ℤ a) (omega (arith, word-+ℤ a b, word-+ℤ b a))

pub add_int_assoc : (a b c : ℤ) → add_int (add_int a b) c ≡ add_int a (add_int b c)
unfolding add_int
add_int_assoc a b c = wrap_of_word (wrap (a +ℤ b) +ℤ c) (a +ℤ wrap (b +ℤ c)) (
    omega (
      arith,
      word-+ℤ (wrap (a +ℤ b)) c,
      word-+ℤ a (wrap (b +ℤ c)),
      word-wrap (a +ℤ b),
      word-wrap (b +ℤ c),
      word-+ℤ a b,
      word-+ℤ b c,
    ))

-- A sum is a value of `int` already, so nothing is lost by adding zero to it.
pub add_int-zero : (a b : ℤ) → add_int (add_int a b) (pos 0) ≡ add_int a b
unfolding add_int
add_int-zero a b =
    wrap_of_word (wrap (a +ℤ b) +ℤ pos 0) (a +ℤ b)
      (omega (arith, word-+ℤ (wrap (a +ℤ b)) (pos 0), word-wrap (a +ℤ b), word-+ℤ a b))
