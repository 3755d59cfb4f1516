-- ===== src/Base/Int.antt =====
-- Go's `int` on a 64-bit platform: an integer whose sum wraps around.
-- Orders go through the two parts of an integer, which are numbers that `omega` reads.
use Prim.Native.Nat.{ℕ, suc, ◌+◌, ◌-◌, ◌*◌, ◌%◌, ◌^◌, ◌≤◌, ◌<◌}
use mathlib.Core.Path.{◌≡◌}
use mathlib.Core.Bool.{Bool}
use native.Mathlib.Omega.{arith}
use web_based_jobs_worker_se.Base.Tests.{ltb, leb, if◌then◌else◌}

-- `negsuc n` is -(n + 1).
pub data ℤ : Type 0 where
  pos : ℕ → ℤ
  negsuc : ℕ → ℤ

abbrev pub pos_part : ℤ → ℕ
pos_part (pos n) = n
pos_part (negsuc n) = 0

abbrev pub neg_part : ℤ → ℕ
neg_part (pos n) = 0
neg_part (negsuc n) = suc n

-- a - b, as an integer.
abbrev pub sub_ℕ : ℕ → ℕ → ℤ
sub_ℕ a b = if leb b a then pos (a - b) else negsuc (b - a - 1)

infix 50 ◌≤ℤ◌ ◌<ℤ◌
abbrev pub ◌≤ℤ◌ : ℤ → ℤ → Type 0
a ≤ℤ b = pos_part a + neg_part b ≤ pos_part b + neg_part a

abbrev pub ◌<ℤ◌ : ℤ → ℤ → Type 0
a <ℤ b = pos_part a + neg_part b < pos_part b + neg_part a

abbrev pub ltb_ℤ : ℤ → ℤ → Bool
ltb_ℤ a b = ltb (pos_part a + neg_part b) (pos_part b + neg_part a)

abbrev pub leb_ℤ : ℤ → ℤ → Bool
leb_ℤ a b = leb (pos_part a + neg_part b) (pos_part b + neg_part a)

-- The bit pattern of an integer, and the integer that a bit pattern stands for.
abbrev pub to_bits : ℤ → ℕ
to_bits (pos n) = n % 2 ^ 64
to_bits (negsuc n) = 2 ^ 64 - 1 - n % 2 ^ 64

abbrev pub of_bits : ℕ → ℤ
of_bits b = if ltb b (2 ^ 63) then pos b else negsuc (2 ^ 64 - 1 - b)

pub wrap : ℤ → ℤ
wrap n = of_bits (to_bits n)

-- `n += 1` on an `int`.
unfoldable pub int_inc : ℤ → ℤ
unfolding wrap
int_inc n = wrap (sub_ℕ (pos_part n + 1) (neg_part n))

-- `n * k` on an `int`, for a factor `k` that is a constant of the program.
unfoldable pub int_scale : ℤ → ℕ → ℤ
unfolding wrap
int_scale n k = wrap (sub_ℕ (pos_part n * k) (neg_part n * k))

pub int_inc-pos : (n : ℕ) → n < 9223372036854775807 → int_inc (pos n) ≡ pos (n + 1)
unfolding int_inc
int_inc-pos n h = ground arith

pub int_scale-pos : (n k : ℕ) → n * k < 9223372036854775808 → int_scale (pos n) k ≡ pos (n * k)
unfolding int_scale
int_scale-pos n k h = ground arith
