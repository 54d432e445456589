-- ===== src/Prelude/Integers.antt =====
-- Go's signed integers: the numbers that a request or the environment may give, and the
-- wrap-around of 64-bit arithmetic.
use Prim.Native.Nat.{ℕ, zero, suc, ◌+◌, ◌-◌, ◌*◌, ◌%◌, ◌^◌, ◌<◌, ◌≤◌}
use mathlib.Core.Path.{◌≡◌, ap, ◌∙◌}
use native.Mathlib.Omega.{arith}
use mathlib.Core.Bool.{Bool, true, false}
use notifyx.Prelude.Tests.{if◌then◌else◌, ltb}

-- `negsuc n` is −(n + 1).
pub data ℤ : Type 0 where
  pos : ℕ → ℤ
  negsuc : ℕ → ℤ

-- z > 0
unfoldable pub is_positive : ℤ → Bool
is_positive (pos zero) = false
is_positive (pos (suc n)) = true
is_positive (negsuc n) = false

-- The value of a number that is not negative.
unfoldable pub to_nat : ℤ → ℕ
to_nat (pos n) = n
to_nat (negsuc n) = 0

-- The bits of an int64, as a number below 2^64.
unfoldable pub to_word : ℤ → ℕ
to_word (pos n) = n % 2 ^ 64
to_word (negsuc n) = 2 ^ 64 - suc (n % 2 ^ 64)

-- The int64 with the bits of n.
unfoldable pub to_int64 : ℕ → ℤ
to_int64 n = let m = n % 2 ^ 64 in if ltb m (2 ^ 63) then pos m else negsuc (2 ^ 64 - suc m)

-- z − 1
unfoldable pub minus_one : ℤ → ℤ
unfolding to_word to_int64
minus_one z = to_int64 (to_word z + (2 ^ 64 - 1))

infixl 70 ◌*ℤ◌
unfoldable pub ◌*ℤ◌ : ℤ → ℤ → ℤ
unfolding to_word to_int64
a *ℤ b = to_int64 (to_word a * to_word b)

-- z < n
unfoldable pub is_below : ℤ → ℕ → Bool
is_below (pos m) n = ltb m n
is_below (negsuc m) n = true

pub minus_one-pos : (n : ℕ) → suc n < 2 ^ 63 → minus_one (pos (suc n)) ≡ pos n
unfolding minus_one to_word to_int64
minus_one-pos n h = ground arith

to_word-pos : (n : ℕ) → n < 2 ^ 63 → to_word (pos n) ≡ n
unfolding to_word
to_word-pos n h = omega (arith, h)

pub to_int64-small : (n : ℕ) → n < 2 ^ 63 → to_int64 n ≡ pos n
unfolding to_int64
to_int64-small n h = ground arith

-- From 2^63 on the bits are those of a negative number.
pub to_int64-large : (n : ℕ) → 2 ^ 63 ≤ n → n < 2 ^ 64 → to_int64 n ≡ negsuc (2 ^ 64 - suc n)
unfolding to_int64
to_int64-large n h k = ground arith

pub *ℤ-pos : (a b : ℕ) → a < 2 ^ 63 → b < 2 ^ 63 → pos a *ℤ pos b ≡ to_int64 (a * b)
unfolding ◌*ℤ◌
*ℤ-pos a b ha hb =
    ap (λ x. to_int64 (x * to_word (pos b))) (to_word-pos a ha)
    ∙ ap (λ y. to_int64 (a * y)) (to_word-pos b hb)
