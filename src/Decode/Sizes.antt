-- ===== src/Decode/Sizes.antt =====
-- GetConstantSize and Fill agree on the built-in types.
use native.Mathlib.Nat.{le-div_iff_mul-le, mul_comm}
use openrom.Base.{
  ℕ, zero, suc, ◌*◌, ◌/◌, ◌≤◌, ◌<◌, ◌≡◌, refl, sym, subst, arith, List, length, Option, none, some,
  if◌then◌else◌, if_either, if_split, ltb, ◌==◌,
}
use openrom.Decode.{
  ℤ, pos, negsuc, Event, Builtin, number, string, float, double, length_field, unixtime,
  check_fixed, fill_number, fill_string, fill_float, fill_length, fill_builtin, constant_builtin,
}

-- A result is a refusal, zero, or `n`.
abbrev pub IsAllOrNothing : ℕ → ℤ → Type 0
IsAllOrNothing n (pos zero) = Unit {0}
IsAllOrNothing n (pos (suc r)) = suc r ≡ n
IsAllOrNothing n (negsuc r) = Unit {0}

exactly : (n : ℕ) → IsAllOrNothing n (pos n)
exactly zero = tt
exactly (suc n) = refl

check_fixed-all : (fixed : Option ℕ) (first n : ℕ) → IsAllOrNothing n (check_fixed fixed first n)
unfolding check_fixed
check_fixed-all none first n = exactly n
check_fixed-all (some v) first n = if_either (IsAllOrNothing n) (first == v) (exactly n) tt

-- With enough bytes for all of the numbers, all of them are counted.
counts_all :
    (width count n : ℕ)
    → 0 < width
    → width * count ≤ n
    → (if ltb count (n / width) then count else n / width) ≡ count
counts_all width count n w h = ground (arith, enough)
  where
    enough : count ≤ n / width
    enough = (le-div_iff_mul-le w).1 (omega (arith, mul_comm width count))

fill_number-all :
    (width count : ℕ) (fixed : Option ℕ) (old : ℕ) (bytes : List ℕ)
    → 0 < width
    → IsAllOrNothing (width * count) (fill_number width count count fixed old bytes).0
unfolding fill_number
fill_number-all width count fixed old bytes w =
    if_split (λ (m : ℤ × List Event). IsAllOrNothing (width * count) m.0)
      (ltb (length bytes) (width * count)) (λ short. tt)
      (λ enough.
        rw (counts_all width count (length bytes) w (ground arith))
          (check_fixed-all fixed _ (width * count)))

fill_string-all : (len : ℕ) (bytes : List ℕ) → IsAllOrNothing len (fill_string len len bytes).0
unfolding fill_string
fill_string-all len bytes =
    if_split (λ (m : ℤ × List Event). IsAllOrNothing len m.0) (ltb (length bytes) len) (λ short. tt)
      (λ enough. rw enough (exactly len))

fill_float-all :
    (width count : ℕ) (bytes : List ℕ)
    → IsAllOrNothing (count * width) (fill_float width count bytes).0
unfolding fill_float
fill_float-all width count bytes =
    if_either (λ (m : ℤ × List Event). IsAllOrNothing (count * width) m.0)
      (ltb (length bytes) (count * width)) tt (exactly (count * width))

fill_length-all : (bytes : List ℕ) → IsAllOrNothing 4 (fill_length bytes).0
unfolding fill_length
fill_length-all bytes = ground arith

positive : (count width : ℕ) → 0 < count * width → 0 < width
positive count zero h = absurd (omega arith)
positive count (suc width) h = omega arith

-- A size by a test for equality that is not 0.
tested : (a b n : ℕ) → 0 < (if a == b then n else 0) → (a ≡ b) × ((if a == b then n else 0) ≡ n)
tested a b n h = ground arith

-- The Fill of a built-in type whose `GetConstantSize` is not 0 takes exactly that many bytes, or
-- answers that it took none.
pub fill_builtin-all :
    (b : Builtin) (bytes : List ℕ)
    → 0 < constant_builtin b
    → IsAllOrNothing (constant_builtin b) (fill_builtin b bytes).0
unfolding constant_builtin fill_builtin
fill_builtin-all (number width count min_count fixed old) bytes h =
    let (same, size) = tested count min_count (count * width) h in
    rw size (
      subst (λ m. IsAllOrNothing (count * width) (fill_number width count m fixed old bytes).0) same
        (rw (mul_comm count width) (
          fill_number-all width count fixed old bytes
            (positive count width (subst (λ n. 0 < n) size h)))))
fill_builtin-all (string len min_length) bytes h =
    let (same, size) = tested min_length len len h in
    rw size (
      subst (λ m. IsAllOrNothing len (fill_string len m bytes).0) (sym same)
        (fill_string-all len bytes))
fill_builtin-all (float count) bytes h = fill_float-all 4 count bytes
fill_builtin-all (double count) bytes h = fill_float-all 8 count bytes
fill_builtin-all length_field bytes h = fill_length-all bytes
fill_builtin-all unixtime bytes h = fill_float-all 4 1 bytes
