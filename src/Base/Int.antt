-- ===== src/Base/Int.antt =====
-- Go's `int` and `int64` (64 bits): signed integers over the native numbers, with wrap-around.
use truthmetal.Base.{ℕ, suc, ◌+◌, ◌-◌, ◌%◌, ◌^◌, ◌≤◌, ◌<◌, ◌≡◌, Bool, arith, ltb, leb, nat_eq}
use truthmetal.Base.{if◌then◌else◌, true}

-- `negsuc n` is -(n + 1).
pub data ℤ : Type 0 where
  pos : ℕ → ℤ
  negsuc : ℕ → ℤ

abbrev pub pos_part : ℤ → ℕ
pos_part (pos n) = n
pos_part (negsuc n) = 0

abbrev pub neg_part : ℤ → ℕ
neg_part (pos n) = 0
neg_part (negsuc n) = suc n

infix 50 ◌≤ℤ◌
abbrev pub ◌≤ℤ◌ : ℤ → ℤ → Type 0
a ≤ℤ b = pos_part a + neg_part b ≤ pos_part b + neg_part a

abbrev pub leb_ℤ : ℤ → ℤ → Bool
leb_ℤ a b = leb (pos_part a + neg_part b) (pos_part b + neg_part a)

abbrev pub ltb_ℤ : ℤ → ℤ → Bool
ltb_ℤ a b = ltb (pos_part a + neg_part b) (pos_part b + neg_part a)

abbrev pub eq_ℤ : ℤ → ℤ → Bool
eq_ℤ a b = nat_eq (pos_part a + neg_part b) (pos_part b + neg_part a)

abbrev pub two64 : ℕ
two64 = 2 ^ 64

abbrev pub two63 : ℕ
two63 = 2 ^ 63

-- The bit pattern of an integer, and the integer of a bit pattern.
abbrev pub bits64 : ℤ → ℕ
bits64 (pos n) = n % two64
bits64 (negsuc n) = two64 - 1 - n % two64

abbrev pub from_bits64 : ℕ → ℤ
from_bits64 u = if ltb u two63 then pos u else negsuc (two64 - 1 - u)

-- `a + b` on int64.
unfoldable pub add64 : ℤ → ℤ → ℤ
add64 a b = from_bits64 ((bits64 a + bits64 b) % two64)

-- The values of an int64.
abbrev pub InInt64 : ℤ → Type 0
InInt64 a = (pos_part a < two63) × (neg_part a ≤ two63)

-- Without overflow the sum of naturals is exact.
pub add64-pos : (m n : ℕ) → m + n < two63 → add64 (pos m) (pos n) ≡ pos (m + n)
unfolding add64
add64-pos m n h = ground arith

pub add64-InInt64 : (a b : ℤ) → InInt64 (add64 a b)
unfolding add64
add64-InInt64 a b = ground arith

pub eq_ℤ_sound : (a b : ℤ) → eq_ℤ a b ≡ true → a ≡ b
eq_ℤ_sound a b h = ground arith
