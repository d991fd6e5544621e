-- ===== src/Prelude/Bits.antt =====
-- `&` and `|` as arithmetic: a mask of seven bits, the top bit of a byte, and disjoint fields.
use Prim.Native.Nat.{
  ℕ, zero, suc, ◌+◌, ◌*◌, ◌/◌, ◌%◌, ◌^◌, ◌≤◌, ◌<◌, min, max, bit_and, bit_or, digits,
  bit_and-bitwise, bit_or-bitwise,
}
use mathlib.Core.Path.{◌≡◌, refl, ap}
use native.Mathlib.Omega.{arith}
use native.Mathlib.Nat.{pow-suc}

-- `digits f op n a b` is the digit recursion by which the native operations are specified.
-- Its fuel does not matter once it reaches `a`.
module _ (f : ℕ → ℕ) (op : ℕ → ℕ → ℕ) where
  fuel_irrelevant : (n m a b : ℕ) → a ≤ n → a ≤ m → digits f op n a b ≡ digits f op m a b
  fuel_irrelevant zero zero a b p q = refl
  fuel_irrelevant zero (suc m) zero b p q = refl
  fuel_irrelevant zero (suc m) (suc a) b p q = absurd (omega arith)
  fuel_irrelevant (suc n) zero zero b p q = refl
  fuel_irrelevant (suc n) zero (suc a) b p q = absurd (omega arith)
  fuel_irrelevant (suc n) (suc m) zero b p q = refl
  fuel_irrelevant (suc n) (suc m) (suc a) b p q =
      omega (arith, fuel_irrelevant n m (suc a / 2) (b / 2) (omega arith) (omega arith))

bit_or_zero_left : (b : ℕ) → bit_or 0 b ≡ b
bit_or_zero_left b = bit_or-bitwise 0 b

bit_or_halves : (a b : ℕ) → bit_or a b ≡ bit_or (a / 2) (b / 2) * 2 + max (a % 2) (b % 2)
bit_or_halves zero b = omega (arith, bit_or_zero_left b, bit_or_zero_left (b / 2))
bit_or_halves (suc a) b = omega (
  arith,
  bit_or-bitwise (suc a) b,
  bit_or-bitwise (suc a / 2) (b / 2),
  fuel_irrelevant (λ b. b) max a (suc a / 2) (suc a / 2) (b / 2) (omega arith) (omega arith),
)

double_shift : (b s : ℕ) → b * 2 ^ suc s ≡ 2 * (b * 2 ^ s)
double_shift b s = omega (arith, ap (λ (t : ℕ). b * t) (pow-suc 2 s))

bit_and_zero_left : (b : ℕ) → bit_and 0 b ≡ 0
bit_and_zero_left b = bit_and-bitwise 0 b

bit_and_halves : (a b : ℕ) → bit_and a b ≡ bit_and (a / 2) (b / 2) * 2 + min (a % 2) (b % 2)
bit_and_halves zero b = omega (arith, bit_and_zero_left b, bit_and_zero_left (b / 2))
bit_and_halves (suc a) b = omega (
  arith,
  bit_and-bitwise (suc a) b,
  bit_and-bitwise (suc a / 2) (b / 2),
  fuel_irrelevant (λ b. zero) min a (suc a / 2) (suc a / 2) (b / 2) (omega arith) (omega arith),
)

bit_and_zero : (n a : ℕ) → a ≤ n → bit_and a 0 ≡ 0
bit_and_zero n zero h = refl
bit_and_zero zero (suc a) h = absurd (omega arith)
bit_and_zero (suc n) (suc a) h =
    omega (arith, bit_and_halves (suc a) 0, bit_and_zero n (suc a / 2) (omega arith))

-- One bit of a mask, set or clear.
bit_and_odd : (a m : ℕ) → bit_and a (2 * m + 1) ≡ bit_and (a / 2) m * 2 + a % 2
bit_and_odd a m = ground (arith, bit_and_halves a (2 * m + 1))

bit_and_even : (a m : ℕ) → bit_and a (2 * m) ≡ bit_and (a / 2) m * 2
bit_and_even a m = ground (arith, bit_and_halves a (2 * m))

bit_and_1 : (a : ℕ) → bit_and a 1 ≡ a % 2
bit_and_1 a = omega (arith, bit_and_odd a 0, bit_and_zero (a / 2) (a / 2) (omega arith))

bit_and_7 : (a : ℕ) → bit_and a 7 ≡ a % 8
bit_and_7 a = omega (arith, bit_and_odd a 3, bit_and_odd (a / 2) 1, bit_and_1 (a / 2 / 2))

pub bit_and_127 : (a : ℕ) → bit_and a 0x7f ≡ a % 128
bit_and_127 a = omega (
  arith,
  bit_and_odd a 63,
  bit_and_odd (a / 2) 31,
  bit_and_odd (a / 2 / 2) 15,
  bit_and_odd (a / 2 / 2 / 2) 7,
  bit_and_7 (a / 2 / 2 / 2 / 2),
)

bit_and_8 : (a : ℕ) → bit_and a 8 ≡ a / 8 % 2 * 8
bit_and_8 a = omega (
  arith,
  bit_and_even a 4,
  bit_and_even (a / 2) 2,
  bit_and_even (a / 2 / 2) 1,
  bit_and_1 (a / 2 / 2 / 2),
)

pub bit_and_128 : (b : ℕ) → bit_and b 0x80 ≡ b / 128 % 2 * 128
bit_and_128 b = omega (
  arith,
  bit_and_even b 64,
  bit_and_even (b / 2) 32,
  bit_and_even (b / 2 / 2) 16,
  bit_and_even (b / 2 / 2 / 2) 8,
  bit_and_8 (b / 2 / 2 / 2 / 2),
)

pub bit_and_64 : (b : ℕ) → bit_and b 0x40 ≡ b / 64 % 2 * 64
bit_and_64 b = omega (
  arith,
  bit_and_even b 32,
  bit_and_even (b / 2) 16,
  bit_and_even (b / 2 / 2) 8,
  bit_and_8 (b / 2 / 2 / 2),
)

-- `a | (b << s)` is a sum when `a` fits `s` bits.
pub bit_or_shifted : (s a b : ℕ) → a < 2 ^ s → bit_or a (b * 2 ^ s) ≡ a + b * 2 ^ s
bit_or_shifted zero a b fits = ground (arith, bit_or_zero_left b)
bit_or_shifted (suc s) a b fits = ground (
  arith,
  bit_or_halves a (b * 2 ^ suc s),
  double_shift b s,
  pow-suc 2 s,
  bit_or_shifted s (a / 2) b (omega (arith, pow-suc 2 s)),
)

bit_or_even : (m g : ℕ) → bit_or (2 * m) g ≡ bit_or m (g / 2) * 2 + g % 2
bit_or_even m g = ground (arith, bit_or_halves (2 * m) g)

bit_or_1 : bit_or 1 0 ≡ 1
bit_or_1 = refl

bit_or_8 : (g : ℕ) → g < 8 → bit_or 8 g ≡ g + 8
bit_or_8 g h =
    let top : g / 2 / 2 / 2 ≡ 0 = omega arith in
    omega
      (arith, bit_or_even 4 g, bit_or_even 2 (g / 2), bit_or_even 1 (g / 2 / 2), ap (bit_or 1) top)

-- The continuation bit over a group of seven bits.
pub bit_or_128 : (g : ℕ) → g < 128 → bit_or 0x80 g ≡ g + 128
bit_or_128 g h = omega (
  arith,
  bit_or_even 64 g,
  bit_or_even 32 (g / 2),
  bit_or_even 16 (g / 2 / 2),
  bit_or_even 8 (g / 2 / 2 / 2),
  bit_or_8 (g / 2 / 2 / 2 / 2) (omega arith),
)

pub bit_or_top : (g : ℕ) → g < 128 → bit_or g 0x80 ≡ g + 128
bit_or_top g h = bit_or_shifted 7 g 1 h
