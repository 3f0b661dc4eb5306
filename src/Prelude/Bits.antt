-- ===== src/Prelude/Bits.antt =====
-- Masks of machine words as arithmetic. The native operations have no laws at variables but their
-- recursion on binary digits with fuel, which is turned into one equation for the lowest digit first.
use Prim.Native.Nat.{ℕ, zero, suc, ◌+◌, ◌-◌, ◌*◌, ◌/◌, ◌%◌, ◌^◌, ◌≤◌, ◌<◌, min, max}
use Prim.Native.Nat.{bit_and, bit_or, digits, bit_and-bitwise, bit_or-bitwise}
use mathlib.Core.Path.{◌≡◌, refl, ap}
use native.Mathlib.Nat.{pow-suc, one-le-pow, le_refl}
use native.Mathlib.Omega.{arith}

module _ (z : ℕ → ℕ) (f : ℕ → ℕ → ℕ) where
  -- More fuel than digits changes nothing.
  enough_fuel : (n m a b : ℕ) → a ≤ n → a ≤ m → digits z f n a b ≡ digits z f m a b
  enough_fuel zero zero a b p q = refl
  enough_fuel zero (suc m) zero b p q = refl
  enough_fuel zero (suc m) (suc a) b p q = absurd (omega arith)
  enough_fuel (suc n) zero zero b p q = refl
  enough_fuel (suc n) zero (suc a) b p q = absurd (omega arith)
  enough_fuel (suc n) (suc m) zero b p q = refl
  enough_fuel (suc n) (suc m) (suc a) b p q =
      rw (enough_fuel n m (suc a / 2) (b / 2) (omega arith) (omega arith))

abbrev and_digits : ℕ → ℕ → ℕ → ℕ
and_digits n a b = digits (λ y. zero) min n a b

abbrev or_digits : ℕ → ℕ → ℕ → ℕ
or_digits n a b = digits (λ y. y) max n a b

and_digits-suc :
    (a b : ℕ)
    → and_digits (suc a) (suc a) b
      ≡ and_digits (suc a / 2) (suc a / 2) (b / 2) * 2 + min (suc a % 2) (b % 2)
and_digits-suc a b =
    omega (
      arith,
      enough_fuel (λ y. zero) min a (suc a / 2) (suc a / 2) (b / 2) (omega arith) (le_refl _),
    )

or_digits-suc :
    (a b : ℕ)
    → or_digits (suc a) (suc a) b
      ≡ or_digits (suc a / 2) (suc a / 2) (b / 2) * 2 + max (suc a % 2) (b % 2)
or_digits-suc a b =
    omega
      (arith, enough_fuel (λ y. y) max a (suc a / 2) (suc a / 2) (b / 2) (omega arith) (le_refl _))

-- The lowest digit of a conjunction and of a disjunction.
pub bit_and-digit : (a b : ℕ) → bit_and a b ≡ bit_and (a / 2) (b / 2) * 2 + min (a % 2) (b % 2)
bit_and-digit zero b = omega (arith, bit_and-bitwise 0 b, bit_and-bitwise 0 (b / 2))
bit_and-digit (suc a) b =
    omega
      (arith, bit_and-bitwise (suc a) b, bit_and-bitwise (suc a / 2) (b / 2), and_digits-suc a b)

pub bit_or-digit : (a b : ℕ) → bit_or a b ≡ bit_or (a / 2) (b / 2) * 2 + max (a % 2) (b % 2)
bit_or-digit zero b = omega (arith, bit_or-bitwise 0 b, bit_or-bitwise 0 (b / 2))
bit_or-digit (suc a) b =
    omega (arith, bit_or-bitwise (suc a) b, bit_or-bitwise (suc a / 2) (b / 2), or_digits-suc a b)

-- With a bound on the digits of the left operand.
and-zero_below : (n a : ℕ) → a ≤ n → bit_and a 0 ≡ 0
and-zero_below n zero h = omega (arith, bit_and-bitwise 0 0)
and-zero_below zero (suc a) h = absurd (omega arith)
and-zero_below (suc n) (suc a) h =
    omega (arith, bit_and-digit (suc a) 0, and-zero_below n (suc a / 2) (omega arith))

or-zero_below : (n a : ℕ) → a ≤ n → bit_or a 0 ≡ a
or-zero_below n zero h = omega (arith, bit_or-bitwise 0 0)
or-zero_below zero (suc a) h = absurd (omega arith)
or-zero_below (suc n) (suc a) h =
    omega (arith, bit_or-digit (suc a) 0, or-zero_below n (suc a / 2) (omega arith))

double-pow : (q k : ℕ) → q * 2 ^ suc k ≡ 2 * (q * 2 ^ k)
double-pow q k = omega (arith, ap (λ (t : ℕ). q * t) (pow-suc 2 k))

-- Ones below the place `k` keep what is below it.
keep_low : (k q r : ℕ) → r < 2 ^ k → bit_and (q * 2 ^ k + r) (2 ^ k - 1) ≡ r
keep_low zero q r h = rw (and-zero_below (q * 1 + r) (q * 1 + r) (omega arith)) (omega arith)
keep_low (suc k) q r h = ground (
  arith,
  bit_and-digit (q * 2 ^ suc k + r) (2 ^ suc k - 1),
  double-pow q k,
  pow-suc 2 k,
  keep_low k q (r / 2) (omega (arith, pow-suc 2 k)),
)

-- Ones from the place `k` up keep what is there, as far as they go.
keep_high :
    (k w q r : ℕ)
    → r < 2 ^ k
    → q < 2 ^ w
    → bit_and (q * 2 ^ k + r) ((2 ^ w - 1) * 2 ^ k) ≡ q * 2 ^ k
keep_high zero w q r h b = ground (arith, keep_low w 0 q b)
keep_high (suc k) w q r h b = ground (
  arith,
  bit_and-digit (q * 2 ^ suc k + r) ((2 ^ w - 1) * 2 ^ suc k),
  double-pow q k,
  double-pow (2 ^ w - 1) k,
  pow-suc 2 k,
  keep_high k w q (r / 2) (omega (arith, pow-suc 2 k)) b,
)

-- Bits below the place `k` join a number that has none there by addition.
join_low : (k q r : ℕ) → r < 2 ^ k → bit_or (q * 2 ^ k) r ≡ q * 2 ^ k + r
join_low zero q r h = ground (arith, or-zero_below (q * 1) (q * 1) (omega arith))
join_low (suc k) q r h = ground (
  arith,
  bit_or-digit (q * 2 ^ suc k) r,
  double-pow q k,
  join_low k q (r / 2) (omega (arith, pow-suc 2 k)),
)

pub and-low_mask : (k a : ℕ) → bit_and a (2 ^ k - 1) ≡ a % 2 ^ k
and-low_mask k a = ground (arith, one-le-pow k 2, keep_low k (a / 2 ^ k) (a % 2 ^ k))

pub and-high_mask :
    (k w a : ℕ) → a / 2 ^ k < 2 ^ w → bit_and a ((2 ^ w - 1) * 2 ^ k) ≡ a / 2 ^ k * 2 ^ k
and-high_mask k w a b = ground (arith, one-le-pow k 2, keep_high k w (a / 2 ^ k) (a % 2 ^ k))

pub or-low : (k a r : ℕ) → r < 2 ^ k → bit_or (a / 2 ^ k * 2 ^ k) r ≡ a / 2 ^ k * 2 ^ k + r
or-low k a r h = join_low k (a / 2 ^ k) r h

-- A single one picks the digit at its place.
pick : (k q r : ℕ) → r < 2 ^ k → bit_and (q * 2 ^ k + r) (2 ^ k) ≡ q % 2 * 2 ^ k
pick zero q r h = ground (arith, and-low_mask 1 (q * 1 + r))
pick (suc k) q r h = ground (
  arith,
  bit_and-digit (q * 2 ^ suc k + r) (2 ^ suc k),
  double-pow q k,
  double-pow (q % 2) k,
  pow-suc 2 k,
  pick k q (r / 2) (omega (arith, pow-suc 2 k)),
)

pub and-bit : (k a : ℕ) → bit_and a (2 ^ k) ≡ a / 2 ^ k % 2 * 2 ^ k
and-bit k a = ground (arith, one-le-pow k 2, pick k (a / 2 ^ k) (a % 2 ^ k))
