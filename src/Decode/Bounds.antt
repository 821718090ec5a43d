-- ===== src/Decode/Bounds.antt =====
-- No Fill takes more than the bytes that are left.
use openrom.Base.{
  ℕ, ◌*◌, ◌/◌, ◌≤◌, arith, List, length, Option, none, some, if◌then◌else◌, if_either, ltb,
}
use native.Mathlib.Nat.{mul-le-mul_left, mul-div-le}
use openrom.Decode.{
  ℤ, pos, negsuc, ◌-ℤ◌, Builtin, number, string, float, double, length_field, unixtime, fill_number,
  fill_string, fill_float, fill_length, check_fixed, Kind, Event, builtin, struct, DecodeState,
  fill, fill_builtin,
}

abbrev pub IsWithin : ℕ → ℤ → Type 0
IsWithin n (pos r) = r ≤ n
IsWithin n (negsuc r) = Unit {0}

fill_float-IsWithin :
    (width count : ℕ) (bytes : List ℕ) → IsWithin (length bytes) (fill_float width count bytes).0
unfolding fill_float
fill_float-IsWithin width count bytes = ground arith

fill_string-IsWithin :
    (len min_length : ℕ) (bytes : List ℕ)
    → IsWithin (length bytes) (fill_string len min_length bytes).0
unfolding fill_string
fill_string-IsWithin len min_length bytes = ground arith

fill_length-IsWithin : (bytes : List ℕ) → IsWithin (length bytes) (fill_length bytes).0
unfolding fill_length
fill_length-IsWithin bytes = ground arith

check_fixed-IsWithin :
    (fixed : Option ℕ) (first taken n : ℕ) → taken ≤ n → IsWithin n (check_fixed fixed first taken)
unfolding check_fixed
check_fixed-IsWithin none first taken n h = h
check_fixed-IsWithin (some v) first taken n h = ground arith

-- As many numbers as the source counts fit in the bytes.
counted_fits :
    (width count n : ℕ) → width * (if ltb count (n / width) then count else n / width) ≤ n
counted_fits width count n = omega (arith, mul-le-mul_left width (num_le), mul-div-le n width)
  where
    num_le : (if ltb count (n / width) then count else n / width) ≤ n / width
    num_le = ground arith

fill_number-IsWithin :
    (width count min_count : ℕ) (fixed : Option ℕ) (old : ℕ) (bytes : List ℕ)
    → IsWithin (length bytes) (fill_number width count min_count fixed old bytes).0
unfolding fill_number
fill_number-IsWithin width count min_count fixed old bytes =
    if_either (λ (m : ℤ × List Event). IsWithin (length bytes) m.0)
      (ltb (length bytes) (width * min_count)) (omega arith)
      (check_fixed-IsWithin fixed _ _ (length bytes) (counted_fits width count (length bytes)))

fill_builtin-IsWithin :
    (b : Builtin) (bytes : List ℕ) → IsWithin (length bytes) (fill_builtin b bytes).0
unfolding fill_builtin
fill_builtin-IsWithin (number width count min_count fixed old) bytes =
    fill_number-IsWithin width count min_count fixed old bytes
fill_builtin-IsWithin (string len min_length) bytes = fill_string-IsWithin len min_length bytes
fill_builtin-IsWithin (float count) bytes = fill_float-IsWithin 4 count bytes
fill_builtin-IsWithin (double count) bytes = fill_float-IsWithin 8 count bytes
fill_builtin-IsWithin length_field bytes = fill_length-IsWithin bytes
fill_builtin-IsWithin unixtime bytes = fill_float-IsWithin 4 1 bytes

diff-IsWithin : (m n : ℕ) → IsWithin m (m -ℤ n)
unfolding ◌-ℤ◌
diff-IsWithin m n = ground arith

-- A Fill answers at most the number of bytes that are left.
pub fill-IsWithin : (k : Kind) (st : DecodeState) → IsWithin (length st.bytes) (fill k st).0
unfolding fill
fill-IsWithin (builtin b) st = fill_builtin-IsWithin b st.bytes
fill-IsWithin (struct count min_count actions) st = diff-IsWithin (length st.bytes) _
