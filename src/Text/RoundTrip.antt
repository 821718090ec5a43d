-- ===== src/Text/RoundTrip.antt =====
-- Printed numbers read back, and a printed address comes apart at its colon.
use openrom.Base.{
  ℕ, zero, suc, ◌+◌, ◌-◌, ◌*◌, ◌/◌, ◌%◌, ◌^◌, ◌≤◌, ◌<◌, ◌≡◌, ◌≢◌, refl, arith, List, [], ◌∷◌, ◌++◌,
  true, false, some, length, ltb, leb, ◌==◌, ◌&&◌, All, All-append, Bool-cases, length-append, inl,
  inr,
}
use openrom.Text.{digits_of, decimal, strtoul, strtoul_from, split_at, c_string}

abbrev pub IsDigit : ℕ → Type 0
IsDigit c = (48 ≤ c) × (c ≤ 57)

digits_of-IsDigit : (fuel n : ℕ) → All IsDigit (digits_of fuel n)
unfolding digits_of
digits_of-IsDigit zero n = tt
digits_of-IsDigit (suc fuel) n = elim (Bool-cases (ltb n 10)) [
  | inl one ↦ rw (one, digits_of) ((omega arith, ground arith), tt)
  | inr more ↦
      rw (more, digits_of)
        (All-append IsDigit (digits_of fuel (n / 10)) _ (digits_of-IsDigit fuel (n / 10))
          ((omega arith, omega arith), tt))
]

pub decimal-IsDigit : (n : ℕ) → All IsDigit (decimal n)
unfolding decimal
decimal-IsDigit n = digits_of-IsDigit (suc n) n

strtoul_from-append :
    (acc : ℕ) (cs : List ℕ) (c : ℕ)
    → All IsDigit cs
    → IsDigit c
    → strtoul_from acc (cs ++ (c ∷ [])) ≡ strtoul_from acc cs * 10 + (c - 48)
unfolding strtoul_from
strtoul_from-append acc [] c all digit = ground arith
strtoul_from-append acc (d ∷ ds) c (one, all) digit =
    rw (isdigit d one, strtoul_from) (strtoul_from-append (acc * 10 + (d - 48)) ds c all digit)
  where
    isdigit : (d : ℕ) → IsDigit d → (leb 48 d && leb d 57) ≡ true
    isdigit d one = ground arith

strtoul-digits_of : (fuel n : ℕ) → n < fuel → strtoul_from 0 (digits_of fuel n) ≡ n
unfolding digits_of strtoul_from
strtoul-digits_of zero n small = absurd (omega arith)
strtoul-digits_of (suc fuel) n small = elim (Bool-cases (ltb n 10)) [
  | inl one ↦ rw (one, digits_of) (ground arith)
  | inr more ↦
      rw
        (
          more,
          digits_of,
          strtoul_from-append 0 (digits_of fuel (n / 10)) (48 + n % 10)
              (digits_of-IsDigit fuel (n / 10)) (omega arith, omega arith),
          strtoul-digits_of fuel (n / 10) (ground arith),
        )
        (omega arith)
]

pub strtoul-decimal : (n : ℕ) → strtoul (decimal n) ≡ n
unfolding decimal strtoul
strtoul-decimal n = strtoul-digits_of (suc n) n (omega arith)

length-digits_of : (k fuel n : ℕ) → n < 10 ^ suc k → length (digits_of fuel n) ≤ suc k
unfolding digits_of
length-digits_of k zero n small = omega arith
length-digits_of zero (suc fuel) n small = rw (few, digits_of) (omega arith)
  where
    few : ltb n 10 ≡ true
    few = ground arith
length-digits_of (suc k) (suc fuel) n small = elim (Bool-cases (ltb n 10)) [
  | inl one ↦ rw (one, digits_of) (omega arith)
  | inr more ↦
      rw (more, digits_of, length-append {0} (digits_of fuel (n / 10)) ((48 + n % 10) ∷ []))
        (omega (arith, length-digits_of k fuel (n / 10) (omega (arith, ten_times k))))
]
  where
    ten_times : (k : ℕ) → 10 ^ suc (suc k) ≡ 10 * 10 ^ suc k
    ten_times k = omega arith

pub length-decimal : (k n : ℕ) → n < 10 ^ suc k → length (decimal n) ≤ suc k
unfolding decimal
length-decimal k n small = length-digits_of k (suc n) n small

pub split_at-append :
    (c : ℕ) (before behind : List ℕ)
    → All (λ d. d ≢ c) before
    → split_at c (before ++ (c ∷ behind)) ≡ some (before, behind)
unfolding split_at
split_at-append c [] behind none_of = rw (same c, split_at) refl
  where
    same : (c : ℕ) → (c == c) ≡ true
    same c = ground arith
split_at-append c (d ∷ ds) behind (other, none_of) =
    rw (differs other, split_at-append c ds behind none_of, split_at) refl
  where
    differs : d ≢ c → (d == c) ≡ false
    differs h = ground arith

pub c_string-append : (s rest : List ℕ) → All (λ c. c ≢ 0) s → c_string (s ++ (0 ∷ rest)) ≡ s
unfolding c_string
c_string-append [] rest all = refl
c_string-append (c ∷ cs) rest (one, all) =
    rw (differs one, c_string-append cs rest all, c_string) refl
  where
    differs : c ≢ 0 → (c == 0) ≡ false
    differs h = ground arith

pub length-decimal_positive : (n : ℕ) → 0 < length (decimal n)
unfolding decimal digits_of
length-decimal_positive n = elim (Bool-cases (ltb n 10)) [
  | inl one ↦ rw (one, digits_of) (omega arith)
  | inr more ↦
      rw (more, digits_of)
        (omega (arith, length-append {0} (digits_of n (n / 10)) ((48 + n % 10) ∷ [])))
]
