-- ===== src/Prelude/Int.antt =====
-- Signed integers over the native numbers, under the library's names (its ℤ stands on the unary
-- ℕ). Go's `int` and `int64` are 64 bits wide: `incr` wraps.
use howk.Prelude.Tests.{ltb, ◌==◌, if◌then◌else◌}
use Prim.Native.Nat.{ℕ, zero, suc, ◌+◌, ◌≤◌, ◌<◌}
use mathlib.Core.Path.{◌≡◌, refl}
use mathlib.Core.Logic.{◌≢◌, ◌↔◌, ◌⊎◌, inl, inr}
use mathlib.Core.Bool.{Bool, true, false}
use native.Mathlib.Omega.{arith}

-- `negsuc n` is -(n + 1).
pub data ℤ : Type 0 where
  pos : ℕ → ℤ
  negsuc : ℕ → ℤ

abbrev pub pos_part : ℤ → ℕ
pos_part (pos n) = n
pos_part (negsuc n) = 0

abbrev pub neg_part : ℤ → ℕ
neg_part (pos n) = 0
neg_part (negsuc n) = suc n

infix 50 ◌≤ℤ◌ ◌<ℤ◌
abbrev pub ◌≤ℤ◌ : ℤ → ℤ → Type 0
a ≤ℤ b = pos_part a + neg_part b ≤ pos_part b + neg_part a

abbrev pub ◌<ℤ◌ : ℤ → ℤ → Type 0
a <ℤ b = pos_part a + neg_part b < pos_part b + neg_part a

abbrev pub ltb_ℤ : ℤ → ℤ → Bool
ltb_ℤ a b = ltb (pos_part a + neg_part b) (pos_part b + neg_part a)

abbrev pub eq_ℤ : ℤ → ℤ → Bool
eq_ℤ (pos m) (pos n) = m == n
eq_ℤ (negsuc m) (negsuc n) = m == n
eq_ℤ _ _ = false

-- The largest `int64`.
abbrev pub max_int64 : ℕ
max_int64 = 9223372036854775807

-- `a++` on an `int64`.
unfoldable pub incr : ℤ → ℤ
incr (pos n) = if n == max_int64 then negsuc max_int64 else pos (n + 1)
incr (negsuc zero) = pos 0
incr (negsuc (suc n)) = negsuc n

pub eq_ℤ_iff : (a b : ℤ) → (eq_ℤ a b ≡ true) ↔ (a ≡ b)
eq_ℤ_iff (pos m) (pos n) = ground arith
eq_ℤ_iff (pos m) (negsuc n) = ground arith
eq_ℤ_iff (negsuc m) (pos n) = ground arith
eq_ℤ_iff (negsuc m) (negsuc n) = ground arith

pub eq_ℤ_refl : (a : ℤ) → eq_ℤ a a ≡ true
eq_ℤ_refl (pos m) = ground arith
eq_ℤ_refl (negsuc m) = ground arith

-- Below the largest value `incr` adds one.
pub incr_parts :
    (a : ℤ)
    → pos_part a < max_int64
    → pos_part (incr a) + neg_part a ≡ neg_part (incr a) + pos_part a + 1
unfolding incr
incr_parts (pos n) h = ground arith
incr_parts (negsuc zero) h = omega arith
incr_parts (negsuc (suc n)) h = omega arith

-- `a--` on an `int64`.
unfoldable pub decr : ℤ → ℤ
decr (pos zero) = negsuc 0
decr (pos (suc n)) = pos n
decr (negsuc n) = if n == max_int64 then pos max_int64 else negsuc (n + 1)

pub decr_parts :
    (a : ℤ)
    → neg_part a ≤ max_int64
    → pos_part (decr a) + neg_part a + 1 ≡ neg_part (decr a) + pos_part a
unfolding decr
decr_parts (pos zero) h = omega arith
decr_parts (pos (suc n)) h = omega arith
decr_parts (negsuc n) h = ground arith

pub eq_of_parts : (a b : ℤ) → pos_part a + neg_part b ≡ pos_part b + neg_part a → a ≡ b
eq_of_parts a b h = ground arith

-- The sign of a number is one.
pub parts_apart : (a : ℤ) → (pos_part a ≡ 0) ⊎ (neg_part a ≡ 0)
parts_apart (pos n) = inr refl
parts_apart (negsuc n) = inl refl

pub decr-incr : (a : ℤ) → neg_part a ≤ max_int64 → decr (incr a) ≡ a
unfolding incr decr
decr-incr (pos n) h = ground arith
decr-incr (negsuc zero) h = refl
decr-incr (negsuc (suc n)) h = ground arith

pub incr-decr : (a : ℤ) → pos_part a ≤ max_int64 → incr (decr a) ≡ a
unfolding incr decr
incr-decr (pos zero) h = refl
incr-decr (pos (suc n)) h = ground arith
incr-decr (negsuc n) h = ground arith

-- Unequal integers have unequal parts.
pub parts-ne : (a b : ℤ) → eq_ℤ a b ≡ false → pos_part a + neg_part b ≢ pos_part b + neg_part a
parts-ne (pos m) (pos n) h = ground arith
parts-ne (pos m) (negsuc n) h = omega arith
parts-ne (negsuc m) (pos n) h = omega arith
parts-ne (negsuc m) (negsuc n) h = ground arith
