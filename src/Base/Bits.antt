-- ===== src/Base/Bits.antt =====
-- Exclusive or on the native numbers: its binary digit recursion, and the laws that the byte
-- ciphers of the connection code need, for words of every width.
use Prim.Native.Nat.{
  ℕ, zero, suc, ◌+◌, ◌*◌, ◌/◌, ◌%◌, ◌^◌, ◌-◌, ◌≤◌, ◌<◌, bit_xor, digits, differ, bit_xor-bitwise,
}
use mathlib.Core.Path.{subst, ◌≡◌, refl, ◌∙◌}
use native.Mathlib.Nat.{add-zero, le_refl, pow-suc, pow-succ', one-le-pow}
use native.Mathlib.Numerals.{unary_clauses}
use native.Mathlib.Omega.{arith}

-- The digits of an exclusive or, on fuel.
xor_digits : ℕ → ℕ → ℕ → ℕ
xor_digits fuel x y = digits (λ y. y) differ fuel x y

-- Fuel beyond the first word changes nothing.
spare_fuel : (k n y x : ℕ) → x ≤ n → xor_digits (n + k) x y ≡ xor_digits n x y
unfolding xor_digits
spare_fuel zero n y x h = rw add-zero refl
spare_fuel (suc k) zero y zero h = simp unary_clauses refl
spare_fuel (suc k) zero y (suc x) h = absurd (omega arith)
spare_fuel (suc k) (suc n) y zero h = simp unary_clauses refl
spare_fuel (suc k) (suc n) y (suc x) h =
    rw (one_more n k, spare_fuel (suc k) n (y / 2) (suc x / 2) (omega arith)) refl
  where
    one_more : (n k : ℕ) → suc n + suc k ≡ suc (n + suc k)
    one_more n k = omega arith

lowest_digit :
    (x y : ℕ)
    → xor_digits (suc x) (suc x) y
      ≡ xor_digits (suc x / 2) (suc x / 2) (y / 2) * 2 + differ (suc x % 2) (y % 2)
unfolding xor_digits
lowest_digit x y =
    let half = spare_fuel (x - suc x / 2) (suc x / 2) (y / 2) (suc x / 2) (le_refl _) in
    omega (
      arith,
      subst (λ n. xor_digits n (suc x / 2) (y / 2) ≡ xor_digits (suc x / 2) (suc x / 2) (y / 2))
          fuel half,
    )
  where
    fuel : suc x / 2 + (x - suc x / 2) ≡ x
    fuel = omega arith

differ_bits : (x y : ℕ) → x < 2 → y < 2 → differ x y ≡ (x + y) % 2
differ_bits zero y hx hy = omega arith
differ_bits (suc zero) zero hx hy = refl
differ_bits (suc zero) (suc zero) hx hy = refl
differ_bits (suc zero) (suc (suc y)) hx hy = absurd (omega arith)
differ_bits (suc (suc x)) y hx hy = absurd (omega arith)

pub bit_xor_step : (a b : ℕ) → bit_xor a b ≡ bit_xor (a / 2) (b / 2) * 2 + (a + b) % 2
unfolding xor_digits
bit_xor_step zero b = simp bit_xor-bitwise (omega arith)
bit_xor_step (suc a) b =
    simp bit_xor-bitwise
      (omega (arith, lowest_digit a b, differ_bits (suc a % 2) (b % 2) (omega arith) (omega arith)))

bit_xor_cancel_fuel : (n a k : ℕ) → a ≤ n → k ≤ n → bit_xor (bit_xor a k) k ≡ a
bit_xor_cancel_fuel zero zero zero ha hk = refl
bit_xor_cancel_fuel zero zero (suc k) ha hk = absurd (omega arith)
bit_xor_cancel_fuel zero (suc a) k ha hk = absurd (omega arith)
bit_xor_cancel_fuel (suc n) a k ha hk =
    bit_xor_step (bit_xor a k) k
    ∙ rw halves (
        omega (
          arith,
          bit_xor_step a k,
          bit_xor_cancel_fuel n (a / 2) (k / 2) (omega arith) (omega arith),
        ))
  where
    halves : bit_xor a k / 2 ≡ bit_xor (a / 2) (k / 2)
    halves = omega (arith, bit_xor_step a k)

-- A second exclusive or with the same word undoes the first.
pub bit_xor_cancel : (a k : ℕ) → bit_xor (bit_xor a k) k ≡ a
bit_xor_cancel a k = bit_xor_cancel_fuel (a + k) a k (omega arith) (omega arith)

pub bit_xor_zero : (a : ℕ) → bit_xor 0 a ≡ a
bit_xor_zero a = bit_xor-bitwise 0 a

mod_double : (m y b : ℕ) → 0 < m → b < 2 → (y * 2 + b) % (2 * m) ≡ (y % m) * 2 + b
mod_double m y b hm hb = grind arith

xor_low :
    (m a k : ℕ) → 0 < m → bit_xor a k % (2 * m) ≡ bit_xor (a / 2) (k / 2) % m * 2 + (a + k) % 2
xor_low m a k h =
    rw (bit_xor_step a k) (mod_double m (bit_xor (a / 2) (k / 2)) ((a + k) % 2) h (omega arith))

half_high : (m a c : ℕ) → (a + c * (2 * m)) / 2 ≡ a / 2 + c * m
half_high m a c = omega arith

-- The low digits of an exclusive or do not depend on the digits above them.
pub bit_xor_mod : (w a c k : ℕ) → bit_xor (a + c * 2 ^ w) k % 2 ^ w ≡ bit_xor a k % 2 ^ w
bit_xor_mod zero a c k = omega arith
bit_xor_mod (suc w) a c k = rw (pow-succ' 2 w) (
    xor_low (2 ^ w) (a + c * (2 * 2 ^ w)) k (one-le-pow w 2 (omega arith))
    ∙ rw
        (
          half_high (2 ^ w) a c,
          bit_xor_mod w (a / 2) c (k / 2),
          xor_low (2 ^ w) a k (one-le-pow w 2 (omega arith)),
        )
        (omega arith))

bit_xor-lt_zero : (a k : ℕ) → a < 1 → k < 1 → bit_xor a k < 1
bit_xor-lt_zero zero zero ha hk = omega arith
bit_xor-lt_zero zero (suc k) ha hk = absurd (omega arith)
bit_xor-lt_zero (suc a) k ha hk = absurd (omega arith)

-- An exclusive or of two words of `w` bits has `w` bits.
pub bit_xor-lt : (w a k : ℕ) → a < 2 ^ w → k < 2 ^ w → bit_xor a k < 2 ^ w
bit_xor-lt zero a k ha hk = omega (arith, bit_xor-lt_zero a k)
bit_xor-lt (suc w) a k ha hk =
    rw (bit_xor_step a k, pow-suc 2 w)
      (omega (
        arith,
        bit_xor-lt w (a / 2) (k / 2) (omega (arith, pow-suc 2 w)) (omega (arith, pow-suc 2 w)),
      ))
