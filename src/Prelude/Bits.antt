-- ===== src/Prelude/Bits.antt =====
-- Masks, shifted fields and single bits of native numbers, for every width.
use Prim.Native.Nat.{
  ℕ, zero, suc, ◌+◌, ◌*◌, ◌/◌, ◌%◌, ◌^◌, ◌≤◌, ◌<◌, min, max, digits, bit_and, bit_or,
  bit_and-bitwise, bit_or-bitwise,
}
use mathlib.Core.Path.{◌≡◌, refl, ap, ◌∙◌, sym}
use native.Mathlib.Omega.{arith}
use native.Mathlib.Nat.{
  div-add-mod', mul-add-mod_self_right, mod-eq_of_lt, mod-lt, pow-suc, pow-succ' as pow-suc',
  div-div-eq-div-mul,
}

-- One digit of a bitwise operation that keeps or drops what is left of its second argument.
module _ (rest : ℕ → ℕ) (op : ℕ → ℕ → ℕ) where
  more_fuel : (m n a b : ℕ) → a ≤ m → a ≤ n → digits rest op m a b ≡ digits rest op n a b
  more_fuel zero zero zero b p q = refl
  more_fuel zero zero (suc a) b p q = absurd (omega arith)
  more_fuel zero (suc n) zero b p q = refl
  more_fuel zero (suc n) (suc a) b p q = absurd (omega arith)
  more_fuel (suc m) zero zero b p q = refl
  more_fuel (suc m) zero (suc a) b p q = absurd (omega arith)
  more_fuel (suc m) (suc n) zero b p q = refl
  more_fuel (suc m) (suc n) (suc a) b p q =
      ap (λ (t : ℕ). t * 2 + op (suc a % 2) (b % 2))
        (more_fuel m n (suc a / 2) (b / 2) (omega arith) (omega arith))

zero_and : (b : ℕ) → bit_and 0 b ≡ 0
zero_and b = bit_and-bitwise 0 b

zero_or : (b : ℕ) → bit_or 0 b ≡ b
zero_or b = bit_or-bitwise 0 b

pub and_digit : (a b : ℕ) → bit_and a b ≡ bit_and (a / 2) (b / 2) * 2 + min (a % 2) (b % 2)
and_digit zero b = omega (arith, zero_and b, zero_and (b / 2))
and_digit (suc a) b = omega (
  arith,
  bit_and-bitwise (suc a) b,
  bit_and-bitwise (suc a / 2) (b / 2),
  more_fuel (λ _. zero) min a (suc a / 2) (suc a / 2) (b / 2) (omega arith) (omega arith),
)

pub or_digit : (a b : ℕ) → bit_or a b ≡ bit_or (a / 2) (b / 2) * 2 + max (a % 2) (b % 2)
or_digit zero b = omega (arith, zero_or b, zero_or (b / 2))
or_digit (suc a) b = omega (
  arith,
  bit_or-bitwise (suc a) b,
  bit_or-bitwise (suc a / 2) (b / 2),
  more_fuel (λ t. t) max a (suc a / 2) (suc a / 2) (b / 2) (omega arith) (omega arith),
)

and_zero_below : (n a : ℕ) → a ≤ n → bit_and a 0 ≡ 0
and_zero_below zero zero h = zero_and 0
and_zero_below zero (suc a) h = absurd (omega arith)
and_zero_below (suc n) zero h = zero_and 0
and_zero_below (suc n) (suc a) h =
    omega (arith, and_digit (suc a) 0, and_zero_below n (suc a / 2) (omega arith))

pub and_zero : (a : ℕ) → bit_and a 0 ≡ 0
and_zero a = and_zero_below a a (omega arith)

or_zero_below : (n a : ℕ) → a ≤ n → bit_or a 0 ≡ a
or_zero_below zero zero h = zero_or 0
or_zero_below zero (suc a) h = absurd (omega arith)
or_zero_below (suc n) zero h = zero_or 0
or_zero_below (suc n) (suc a) h =
    omega (arith, or_digit (suc a) 0, or_zero_below n (suc a / 2) (omega arith))

pub or_zero : (a : ℕ) → bit_or a 0 ≡ a
or_zero a = or_zero_below a a (omega arith)

-- `(1 << k) - 1`
abbrev pub mask : ℕ → ℕ
mask zero = 0
mask (suc k) = mask k * 2 + 1

pub two_pow_pos : (k : ℕ) → 0 < 2 ^ k
two_pow_pos zero = omega arith
two_pow_pos (suc k) = omega (arith, two_pow_pos k, pow-suc 2 k)

mod_double : (x n : ℕ) → 0 < n → x % (n * 2) ≡ (x / 2 % n) * 2 + x % 2
mod_double x n h =
    ap (λ (t : ℕ). t % (n * 2)) split
    ∙ mul-add-mod_self_right (x / 2 / n) (n * 2) ((x / 2 % n) * 2 + x % 2)
    ∙ mod-eq_of_lt (omega (arith, mod-lt (x / 2) h))
  where
    split : x ≡ (x / 2 / n) * (n * 2) + ((x / 2 % n) * 2 + x % 2)
    split = omega (arith, div-add-mod' (x / 2) n)

-- `x & ((1 << k) - 1)` is the remainder by `1 << k`.
pub and_mask : (k x : ℕ) → bit_and x (mask k) ≡ x % 2 ^ k
and_mask zero x = omega (arith, and_zero x)
and_mask (suc k) x = omega (
  arith,
  and_digit x (mask k * 2 + 1),
  ap (bit_and (x / 2)) (half (mask k)),
  and_mask k (x / 2),
  mod_double x (2 ^ k) (two_pow_pos k),
  ap (λ (t : ℕ). x % t) (pow-suc 2 k),
)
  where
    half : (m : ℕ) → (m * 2 + 1) / 2 ≡ m
    half m = omega arith

-- `(a << k) | b` for a field `b` of `k` bits is their sum.
pub or_field : (k a b : ℕ) → b < 2 ^ k → bit_or (a * 2 ^ k) b ≡ a * 2 ^ k + b
or_field zero a b h =
    ap (bit_or (a * 1)) (let e : b ≡ 0 = omega arith in e) ∙ or_zero (a * 1) ∙ omega arith
or_field (suc k) a b h = omega (
  arith,
  or_digit (a * 2 ^ suc k) b,
  ap (λ (t : ℕ). bit_or (t / 2) (b / 2)) double,
  ap (λ (t : ℕ). bit_or t (b / 2)) (half (a * 2 ^ k)),
  or_field k a (b / 2) (omega (arith, pow-suc 2 k)),
  double,
)
  where
    double : a * 2 ^ suc k ≡ (a * 2 ^ k) * 2
    double = omega (arith, ap (λ (t : ℕ). a * t) (pow-suc 2 k))

    half : (m : ℕ) → (m * 2) / 2 ≡ m
    half m = omega arith

-- `x & (1 << k)` is the bit `k` in its place.
pub and_bit : (k x : ℕ) → bit_and x (2 ^ k) ≡ (x / 2 ^ k % 2) * 2 ^ k
and_bit zero x = omega (arith, and_mask 1 x)
and_bit (suc k) x = omega (
  arith,
  and_digit x (2 ^ suc k),
  ap (λ (t : ℕ). bit_and (x / 2) (t / 2)) (pow-suc 2 k),
  ap (bit_and (x / 2)) (half (2 ^ k)),
  and_bit k (x / 2),
  ap (λ (t : ℕ). x / t) (pow-suc' 2 k),
  div-div-eq-div-mul x 2 (2 ^ k),
  ap (λ (t : ℕ). (x / 2 / 2 ^ k % 2) * t) (pow-suc 2 k),
  pow-suc 2 k,
  ap (λ (t : ℕ). (t % 2) * 2 ^ suc k)
      (div-div-eq-div-mul x 2 (2 ^ k) ∙ ap (λ (t : ℕ). x / t) (sym (pow-suc' 2 k))),
)
  where
    half : (m : ℕ) → (m * 2) / 2 ≡ m
    half m = omega arith

-- Setting the lowest bit.
pub or_one : (a : ℕ) → bit_or a 1 ≡ (a / 2) * 2 + 1
or_one a = omega (arith, or_digit a 1, or_zero (a / 2))

-- `x & (m << k)` is a field of `x` in its place.
pub and_shift : (k m x : ℕ) → bit_and x (m * 2 ^ k) ≡ bit_and (x / 2 ^ k) m * 2 ^ k
and_shift zero m x =
    ap (bit_and x) (let e : m * 1 ≡ m = omega arith in e)
    ∙ ap (λ (t : ℕ). bit_and t m) (let e : x ≡ x / 1 = omega arith in e)
    ∙ omega arith
and_shift (suc k) m x = omega (
  arith,
  ap (bit_and x) double,
  and_digit x ((m * 2 ^ k) * 2),
  ap (bit_and (x / 2)) (half (m * 2 ^ k)),
  and_shift k m (x / 2),
  ap (λ (t : ℕ). bit_and t m * 2 ^ k)
      (div-div-eq-div-mul x 2 (2 ^ k) ∙ ap (λ (t : ℕ). x / t) (sym (pow-suc' 2 k))),
  ap (λ (t : ℕ). bit_and (x / 2 ^ suc k) m * t) (pow-suc 2 k),
)
  where
    double : m * 2 ^ suc k ≡ (m * 2 ^ k) * 2
    double = omega (arith, ap (λ (t : ℕ). m * t) (pow-suc 2 k))

    half : (n : ℕ) → (n * 2) / 2 ≡ n
    half n = omega arith
