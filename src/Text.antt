-- ===== src/Text.antt =====
-- What the proxies use of the C library on strings: lib/address.cc prints an address, and
-- romproxy/gameproxy.cc and romproxy/loginproxy.cc take it apart again. A string is the list of its
-- bytes, without the terminating zero.
pub mod RoundTrip
pub mod Memory
use openrom.Base.{
  ℕ, zero, suc, ◌+◌, ◌-◌, ◌*◌, ◌/◌, ◌%◌, ◌≤◌, ◌<◌, List, [], ◌∷◌, ◌++◌, Bool, true, false, Option,
  none, some, length, take, drop, ltb, leb, ◌==◌, ◌&&◌, if◌then◌else◌,
}

-- `%u`, on fuel for the digits.
unfoldable pub digits_of : ℕ → ℕ → List ℕ
digits_of zero n = []
digits_of (suc fuel) n = elim (ltb n 10) [
  | true ↦ (48 + n) ∷ []
  | false ↦ digits_of fuel (n / 10) ++ ((48 + n % 10) ∷ [])
]

unfoldable pub decimal : ℕ → List ℕ
decimal n = digits_of (suc n) n

-- `strtoul(s, NULL, 10)` of a string that begins with a digit, and whose number is not too large.
unfoldable pub strtoul_from : ℕ → List ℕ → ℕ
strtoul_from acc [] = acc
strtoul_from acc (c ∷ cs) = elim (leb 48 c && leb c 57) [
  | true ↦ strtoul_from (acc * 10 + (c - 48)) cs
  | false ↦ acc
]

unfoldable pub strtoul : List ℕ → ℕ
strtoul s = strtoul_from 0 s

-- `strchr(s, c)`, with a zero written over the character: the string before it, and the one behind.
pub split_at : ℕ → List ℕ → Option (List ℕ × List ℕ)
split_at c [] = none
split_at c (d ∷ ds) = elim (d == c) [
  | true ↦ some ([], ds)
  | false ↦ elim (split_at c ds) [ none ↦ none | some (before, behind) ↦ some (d ∷ before, behind) ]
]

-- The string that some memory begins with. One that does not end would be read past the memory.
unfoldable pub c_string : List ℕ → List ℕ
c_string [] = []
c_string (c ∷ cs) = elim (c == 0) [ true ↦ [] | false ↦ c ∷ c_string cs ]

-- A copy of some bytes to an offset in memory.
pub write_at : ℕ → List ℕ → List ℕ → List ℕ
write_at offset bytes m = take offset m ++ (bytes ++ drop (offset + length bytes) m)

-- `memcmp(a, b, n) == 0`
unfoldable pub same_bytes : List ℕ → List ℕ → Bool
same_bytes [] [] = true
same_bytes [] (b ∷ bs) = false
same_bytes (a ∷ rest) [] = false
same_bytes (a ∷ rest) (b ∷ bs) = (a == b) && same_bytes rest bs
