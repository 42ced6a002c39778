-- ===== src/Base/Bits.antt =====
-- `&`, `|` and `^` at variables: the digit equations, the splitting of a word into fields at
-- bit `k`, and the bounds.
use Prim.Native.Nat.{
  ℕ, zero, suc, ◌+◌, ◌-◌, ◌*◌, ◌/◌, ◌%◌, ◌^◌, ◌≤◌, ◌<◌, min, max, digits, differ, bit_and, bit_or,
  bit_xor, bit_and-bitwise, bit_or-bitwise, bit_xor-bitwise,
}
use mathlib.Core.Path.{◌≡◌, refl, ap, subst}
use native.Mathlib.Omega.{arith}
use native.Mathlib.Nat.{pow-suc, one-le-pow, div-add-mod', mod-lt}

-- Enough fuel for the digits of the first number is as good as any other.
module _ (z : ℕ → ℕ) (f : ℕ → ℕ → ℕ) where
  digits-fuel : (m n a b : ℕ) → a ≤ m → a ≤ n → digits z f m a b ≡ digits z f n a b
  digits-fuel m zero zero b p q = at_zero m
    where
      at_zero : (m : ℕ) → digits z f m zero b ≡ z b
      at_zero zero = refl
      at_zero (suc m) = refl
  digits-fuel zero (suc n) zero b p q = refl
  digits-fuel (suc m) (suc n) zero b p q = refl
  digits-fuel zero n (suc a) b p q = absurd (omega arith)
  digits-fuel (suc m) zero (suc a) b p q = absurd (omega arith)
  digits-fuel (suc m) (suc n) (suc a) b p q =
      ap (λ (t : ℕ). t * 2 + f (suc a % 2) (b % 2))
        (digits-fuel m n (suc a / 2) (b / 2) (omega arith) (omega arith))

  digits-step :
      (a b : ℕ)
      → digits z f (suc a) (suc a) b
        ≡ digits z f (suc a / 2) (suc a / 2) (b / 2) * 2 + f (suc a % 2) (b % 2)
  digits-step a b =
      ap (λ (t : ℕ). t * 2 + f (suc a % 2) (b % 2))
        (digits-fuel a (suc a / 2) (suc a / 2) (b / 2) (omega arith) (omega arith))

pub and_step : (a b : ℕ) → bit_and a b ≡ bit_and (a / 2) (b / 2) * 2 + min (a % 2) (b % 2)
and_step zero b = simp bit_and-bitwise (omega arith)
and_step (suc a) b = simp bit_and-bitwise (digits-step (λ y. 0) min a b)

pub or_step : (a b : ℕ) → bit_or a b ≡ bit_or (a / 2) (b / 2) * 2 + max (a % 2) (b % 2)
or_step zero b = simp bit_or-bitwise (omega arith)
or_step (suc a) b = simp bit_or-bitwise (digits-step (λ y. y) max a b)

differ-le : (a b : ℕ) → a < 2 → b < 2 → differ a b < 2
differ-le zero b p q = q
differ-le (suc a) zero p q = p
differ-le (suc a) (suc b) p q = differ-le a b (omega arith) (omega arith)

differ-zero : (b : ℕ) → differ 0 b ≡ b
differ-zero b = refl

pub xor_step : (a b : ℕ) → bit_xor a b ≡ bit_xor (a / 2) (b / 2) * 2 + differ (a % 2) (b % 2)
xor_step zero b = simp bit_xor-bitwise (omega arith)
xor_step (suc a) b = simp bit_xor-bitwise (digits-step (λ y. y) differ a b)

-- Dropping the lowest bit of a number whose fields meet at bit `k + 1`.
double_pow : (q k : ℕ) → q * 2 ^ suc k ≡ 2 * (q * 2 ^ k)
double_pow q k = omega (arith, ap (λ (t : ℕ). q * t) (pow-suc 2 k))

or_nothing : (n a : ℕ) → a ≤ n → bit_or a 0 ≡ a
or_nothing n zero h = refl
or_nothing zero (suc a) h = absurd (omega arith)
or_nothing (suc n) (suc a) h =
    omega (arith, or_step (suc a) 0, or_nothing n (suc a / 2) (omega arith))

and_nothing : (n a : ℕ) → a ≤ n → bit_and a 0 ≡ 0
and_nothing n zero h = refl
and_nothing zero (suc a) h = absurd (omega arith)
and_nothing (suc n) (suc a) h =
    omega (arith, and_step (suc a) 0, and_nothing n (suc a / 2) (omega arith))

pub bit_or-zero : (a : ℕ) → bit_or a 0 ≡ a
bit_or-zero a = or_nothing a a (omega arith)

pub bit_and-zero : (a : ℕ) → bit_and a 0 ≡ 0
bit_and-zero a = and_nothing a a (omega arith)

-- A field above bit `k` and one below it are joined by addition.
pub or_join : (k q r : ℕ) → r < 2 ^ k → bit_or (q * 2 ^ k) r ≡ q * 2 ^ k + r
or_join zero q r h = ground (arith, bit_or-zero q)
or_join (suc k) q r h = ground (
  arith,
  or_step (q * 2 ^ suc k) r,
  double_pow q k,
  pow-suc 2 k,
  or_join k q (r / 2) (omega (arith, pow-suc 2 k)),
)

-- A mask that starts at bit `k` sees only the field above it.
pub and_high : (k q m r : ℕ) → r < 2 ^ k → bit_and (q * 2 ^ k + r) (m * 2 ^ k) ≡ bit_and q m * 2 ^ k
and_high zero q m r h =
    let e : q * 2 ^ 0 + r ≡ q = omega arith in
    let d : m * 2 ^ 0 ≡ m = omega arith in rw (e, d) (omega arith)
and_high (suc k) q m r h =
    let e : (q * 2 ^ suc k + r) / 2 ≡ q * 2 ^ k + r / 2 = omega (arith, double_pow q k) in
    let d : m * 2 ^ suc k / 2 ≡ m * 2 ^ k = omega (arith, double_pow m k) in
    rw (and_step (q * 2 ^ suc k + r) (m * 2 ^ suc k), e, d)
      (omega (
        arith,
        and_high k q m (r / 2) (omega (arith, pow-suc 2 k)),
        double_pow (bit_and q m) k,
        double_pow m k,
      ))

-- A mask of `k` ones keeps the field below bit `k`.
and_low : (k q r : ℕ) → r < 2 ^ k → bit_and (q * 2 ^ k + r) (2 ^ k - 1) ≡ r
and_low zero q r h = omega (arith, bit_and-zero (q * 2 ^ 0 + r))
and_low (suc k) q r h =
    let e : (q * 2 ^ suc k + r) / 2 ≡ q * 2 ^ k + r / 2 = omega (arith, double_pow q k) in
    let d : (2 ^ suc k - 1) / 2 ≡ 2 ^ k - 1 = omega (arith, pow-suc 2 k) in
    rw (and_step (q * 2 ^ suc k + r) (2 ^ suc k - 1), e, d)
      (omega (
        arith,
        and_low k q (r / 2) (omega (arith, pow-suc 2 k)),
        double_pow q k,
        pow-suc 2 k,
        one-le-pow k 2 (omega arith),
      ))

pub and_mask : (k a : ℕ) → bit_and a (2 ^ k - 1) ≡ a % 2 ^ k
and_mask k a =
    subst (λ t. bit_and t (2 ^ k - 1) ≡ a % 2 ^ k) (div-add-mod' a (2 ^ k))
      (and_low k (a / 2 ^ k) (a % 2 ^ k) (mod-lt a (one-le-pow k 2 (omega arith))))

zero-bit_and : (b : ℕ) → bit_and 0 b ≡ 0
zero-bit_and b = bit_and-bitwise 0 b

pub zero-bit_or : (b : ℕ) → bit_or 0 b ≡ b
zero-bit_or b = bit_or-bitwise 0 b

-- The three operations stay within the width of their operands.
pub bit_and-lt : (k a b : ℕ) → a < 2 ^ k → bit_and a b < 2 ^ k
bit_and-lt zero a b h = let e : a ≡ 0 = omega arith in rw e (omega (arith, zero-bit_and b))
bit_and-lt (suc k) a b h =
    omega
      (arith, and_step a b, pow-suc 2 k, bit_and-lt k (a / 2) (b / 2) (omega (arith, pow-suc 2 k)))

pub bit_or-lt : (k a b : ℕ) → a < 2 ^ k → b < 2 ^ k → bit_or a b < 2 ^ k
bit_or-lt zero a b h g =
    let e : a ≡ 0 = omega arith in let d : b ≡ 0 = omega arith in rw (e, d) (omega arith)
bit_or-lt (suc k) a b h g = omega (
  arith,
  or_step a b,
  pow-suc 2 k,
  bit_or-lt k (a / 2) (b / 2) (omega (arith, pow-suc 2 k)) (omega (arith, pow-suc 2 k)),
)

pub bit_xor-lt : (k a b : ℕ) → a < 2 ^ k → b < 2 ^ k → bit_xor a b < 2 ^ k
bit_xor-lt zero a b h g =
    let e : a ≡ 0 = omega arith in let d : b ≡ 0 = omega arith in rw (e, d) (omega arith)
bit_xor-lt (suc k) a b h g = omega (
  arith,
  xor_step a b,
  pow-suc 2 k,
  differ-le (a % 2) (b % 2) (omega arith) (omega arith),
  bit_xor-lt k (a / 2) (b / 2) (omega (arith, pow-suc 2 k)) (omega (arith, pow-suc 2 k)),
)

-- `|` with a field above bit `k` leaves the field below it.
pub or_high :
    (k q m r : ℕ) → r < 2 ^ k → bit_or (q * 2 ^ k + r) (m * 2 ^ k) ≡ bit_or q m * 2 ^ k + r
or_high zero q m r h =
    let e : q * 2 ^ 0 + r ≡ q = omega arith in
    let d : m * 2 ^ 0 ≡ m = omega arith in rw (e, d) (omega arith)
or_high (suc k) q m r h =
    let e : (q * 2 ^ suc k + r) / 2 ≡ q * 2 ^ k + r / 2 = omega (arith, double_pow q k) in
    let d : m * 2 ^ suc k / 2 ≡ m * 2 ^ k = omega (arith, double_pow m k) in
    rw (or_step (q * 2 ^ suc k + r) (m * 2 ^ suc k), e, d)
      (omega (
        arith,
        or_high k q m (r / 2) (omega (arith, pow-suc 2 k)),
        double_pow (bit_or q m) k,
        double_pow q k,
        double_pow m k,
      ))
