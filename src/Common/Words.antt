-- ===== src/Common/Words.antt =====
-- Arithmetic of `size_t`, `uint32_t` and the bit patterns of `int`, which are 32 bits wide on the
-- target, and the masks that the code applies to a byte.
use Prim.Native.Nat.{ℕ, zero, suc, ◌+◌, ◌-◌, ◌*◌, ◌/◌, ◌%◌, ◌^◌, ◌≤◌, ◌<◌, max, bit_and, bit_or}
use Prim.Native.Nat.{digits, bit_or-bitwise}
use mathlib.Core.Path.{◌≡◌, refl, ap}
use mathlib.Core.Bool.{Bool, true, false}
use native.Mathlib.Omega.{arith}
use native.Mathlib.Nat.{pow-suc}
use delta_updates_for_embedd.Common.Tests.{◌==◌, if◌then◌else◌}

abbrev pub word : ℕ
word = 2 ^ 32

abbrev pub add32 : ℕ → ℕ → ℕ
add32 a b = (a + b) % word

-- The difference of two words, wrapping below 0.
abbrev pub sub32 : ℕ → ℕ → ℕ
sub32 a b = (a + word - b) % word

-- `-1 * a` on the pattern of an `int`.
abbrev pub neg32 : ℕ → ℕ
neg32 a = (word - a) % word

abbrev pub shl32 : ℕ → ℕ → ℕ
shl32 a k = a * 2 ^ k % word

module _ (f g : ℕ → ℕ) where
  agrees : ℕ → Bool
  agrees zero = true
  agrees (suc n) = if f n == g n then agrees n else false

  agrees→eq : (n : ℕ) → agrees n ≡ true → (i : ℕ) → i < n → f i ≡ g i
  unfolding agrees
  agrees→eq zero e i h = absurd (omega arith)
  agrees→eq (suc n) e i h = ground (arith, agrees→eq n (ground arith) i)

pub bit_and_0x7f : (b : ℕ) → b < 256 → bit_and b 0x7f ≡ b % 128
unfolding agrees
bit_and_0x7f = agrees→eq _ _ 256 refl

pub bit_and_0x3f : (b : ℕ) → b < 256 → bit_and b 0x3f ≡ b % 64
unfolding agrees
bit_and_0x3f = agrees→eq _ _ 256 refl

pub bit_and_0x80 : (b : ℕ) → b < 256 → bit_and b 0x80 ≡ b / 128 * 128
unfolding agrees
bit_and_0x80 = agrees→eq _ _ 256 refl

pub bit_and_0x40 : (b : ℕ) → b < 256 → bit_and b 0x40 ≡ b / 64 % 2 * 64
unfolding agrees
bit_and_0x40 = agrees→eq _ _ 256 refl

pub bit_and_0x07 : (b : ℕ) → b < 256 → bit_and b 0x7 ≡ b % 8
unfolding agrees
bit_and_0x07 = agrees→eq _ _ 256 refl

pub bit_and_0x0f : (b : ℕ) → b < 256 → bit_and b 0xf ≡ b % 16
unfolding agrees
bit_and_0x0f = agrees→eq _ _ 256 refl

-- `|` digit by digit, from the definition that the native operation stands for.
abbrev or_digits : ℕ → ℕ → ℕ → ℕ
or_digits n a b = digits (λ b. b) max n a b

or_digits_fuel : (n m a b : ℕ) → a ≤ n → a ≤ m → or_digits n a b ≡ or_digits m a b
or_digits_fuel zero zero a b p q = refl
or_digits_fuel zero (suc m) zero b p q = refl
or_digits_fuel zero (suc m) (suc a) b p q = absurd (omega arith)
or_digits_fuel (suc n) zero zero b p q = refl
or_digits_fuel (suc n) zero (suc a) b p q = absurd (omega arith)
or_digits_fuel (suc n) (suc m) zero b p q = refl
or_digits_fuel (suc n) (suc m) (suc a) b p q =
    omega (arith, or_digits_fuel n m (suc a / 2) (b / 2) (omega arith) (omega arith))

zero-bit_or : (b : ℕ) → bit_or 0 b ≡ b
zero-bit_or b = bit_or-bitwise 0 b

bit_or_step : (a b : ℕ) → bit_or a b ≡ bit_or (a / 2) (b / 2) * 2 + max (a % 2) (b % 2)
bit_or_step zero b = omega (arith, zero-bit_or b, zero-bit_or (b / 2))
bit_or_step (suc a) b = omega (
  arith,
  bit_or-bitwise (suc a) b,
  bit_or-bitwise (suc a / 2) (b / 2),
  or_digits_fuel a (suc a / 2) (suc a / 2) (b / 2) (omega arith) (omega arith),
)

double_shift : (x k : ℕ) → x * 2 ^ suc k ≡ 2 * (x * 2 ^ k)
double_shift x k = omega (arith, ap (λ (t : ℕ). x * t) (pow-suc 2 k))

-- Bits shifted past those of `v` are added to it by `|`.
pub bit_or_shifted : (k v x : ℕ) → v < 2 ^ k → bit_or v (x * 2 ^ k) ≡ v + x * 2 ^ k
bit_or_shifted zero v x h = let e : v ≡ 0 = omega arith in rw e (omega (arith, zero-bit_or (x * 1)))
bit_or_shifted (suc k) v x h =
    let y = x * 2 ^ k in
    let e : x * 2 ^ suc k ≡ 2 * y = double_shift x k in
    let half : 2 * y / 2 ≡ y = omega arith in
    rw e (
      omega (
        arith,
        bit_or_step v (2 * y),
        ap (bit_or (v / 2)) half,
        bit_or_shifted k (v / 2) x (omega (arith, pow-suc 2 k)),
      ))
