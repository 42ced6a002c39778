-- ===== src/Base/Word.antt =====
-- The arithmetic of `uint32_t` and `int32_t`: a word is a number below 2 ^ 32, a signed word is
-- the same pattern read in two's complement.
use Prim.Native.Nat.{ℕ, ◌+◌, ◌-◌, ◌*◌, ◌/◌, ◌%◌, ◌^◌, ◌<◌}
use mathlib.Core.Path.{◌≡◌}
use mathlib.Core.Bool.{Bool, true, false, not}
use native.Mathlib.Omega.{arith}
use llvm_mipt.Base.Tests.{ltb, if◌then◌else◌}

abbrev pub u32_mod : ℕ
u32_mod = 2 ^ 32

abbrev pub u32 : ℕ → ℕ
u32 n = n % 2 ^ 32

abbrev pub add32 : ℕ → ℕ → ℕ
add32 a b = (a + b) % 2 ^ 32

abbrev pub sub32 : ℕ → ℕ → ℕ
sub32 a b = (a + 2 ^ 32 - b) % 2 ^ 32

abbrev pub mul32 : ℕ → ℕ → ℕ
mul32 a b = (a * b) % 2 ^ 32

-- `x << k` and `x >> k` on `unsigned`.
abbrev pub shl32 : ℕ → ℕ → ℕ
shl32 x k = (x * 2 ^ k) % 2 ^ 32

abbrev pub shr : ℕ → ℕ → ℕ
shr x k = x / 2 ^ k

abbrev pub not32 : ℕ → ℕ
not32 x = 2 ^ 32 - 1 - x

-- `negsuc n` is -(n + 1).
pub data ℤ : Type 0 where
  pos : ℕ → ℤ
  negsuc : ℕ → ℤ

-- `(int32_t) w`
abbrev pub int32 : ℕ → ℤ
int32 w = if ltb w (2 ^ 31) then pos w else negsuc (2 ^ 32 - 1 - w)

-- The conversion of an `int` to `unsigned`.
abbrev pub to_u32 : ℤ → ℕ
to_u32 (pos n) = n % 2 ^ 32
to_u32 (negsuc n) = 2 ^ 32 - 1 - n % 2 ^ 32

abbrev pub times_four : ℤ → ℤ
times_four (pos n) = pos (n * 4)
times_four (negsuc n) = negsuc (n * 4 + 3)

abbrev pub ltℤ : ℤ → ℤ → Bool
ltℤ (pos a) (pos b) = ltb a b
ltℤ (pos a) (negsuc b) = false
ltℤ (negsuc a) (pos b) = true
ltℤ (negsuc a) (negsuc b) = ltb b a

abbrev pub slt : ℕ → ℕ → Bool
slt a b = ltℤ (int32 a) (int32 b)

abbrev pub sle : ℕ → ℕ → Bool
sle a b = not (slt b a)

pub to_u32-int32 : (w : ℕ) → w < 2 ^ 32 → to_u32 (int32 w) ≡ w
to_u32-int32 w h = ground arith

-- A signed offset of `w` instructions, in bytes, is the wrapped product.
pub to_u32-times_four : (w : ℕ) → w < 2 ^ 32 → to_u32 (times_four (int32 w)) ≡ (w * 4) % 2 ^ 32
to_u32-times_four w h = ground arith
