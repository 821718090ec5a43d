-- ===== src/Definition/Numbers.antt =====
-- strtol() of the C library, and the conversions of its result that lib/protocoldefinition.cc makes.
use openrom.Base.{
  ℕ, zero, suc, ◌+◌, ◌-◌, ◌*◌, ◌%◌, ◌^◌, List, [], ◌∷◌, Bool, true, false, not, ltb, leb, ◌==◌,
  ◌&&◌, ◌||◌, if◌then◌else◌,
}
use openrom.Decode.{ℤ, pos, negsuc}
use Prim.Native.String.{String}
use Prim.Native.Char.{code}

-- The bytes of a text in ASCII.
abbrev pub codes : String → List ℕ
codes String.[] = []
codes (String.◌∷◌ c s) = code c ∷ codes s

-- The value of a digit, and 36 for what is none.
pub digit : ℕ → ℕ
digit c =
    if leb 48 c && leb c 57
    then c - 48
    else if leb 97 c && leb c 122
    then c - 87
    else if leb 65 c && leb c 90
    then c - 55
    else 36

-- The number that some digits write, and what follows them.
pub digits_from : ℕ → ℕ → List ℕ → ℕ × List ℕ
digits_from base acc [] = (acc, [])
digits_from base acc (c ∷ cs) = elim (ltb (digit c) base) [
  | true ↦ digits_from base (acc * base + digit c) cs
  | false ↦ (acc, c ∷ cs)
]

starts_digit : ℕ → List ℕ → Bool
starts_digit base [] = false
starts_digit base (c ∷ cs) = ltb (digit c) base

-- Behind the sign: the base 0 stands for 16, 8 or 10 by the prefix. An x without a digit ends the number.
is_x : List ℕ → Bool
is_x [] = false
is_x (c ∷ cs) = (c == 120 || c == 88) && starts_digit 16 cs

tail_of : List ℕ → List ℕ
tail_of [] = []
tail_of (c ∷ cs) = cs

unsigned_from : ℕ → List ℕ → ℕ × List ℕ
unsigned_from base [] = (0, [])
unsigned_from base (c ∷ cs) =
    if not (base == 0)
    then digits_from base 0 (c ∷ cs)
    else if not (c == 48)
    then digits_from 10 0 (c ∷ cs)
    else if is_x cs
    then digits_from 16 0 (tail_of cs)
    else digits_from 8 0 (c ∷ cs)

negated : ℕ → ℤ
negated zero = pos 0
negated (suc n) = negsuc n

abbrev at_most : ℕ → ℕ → ℕ
at_most bound n = if ltb bound n then bound else n

is_space : ℕ → Bool
is_space c = c == 32 || (leb 9 c && leb c 13)

skip_spaces : List ℕ → List ℕ
skip_spaces [] = []
skip_spaces (c ∷ cs) = let rest = skip_spaces cs in if is_space c then rest else c ∷ cs

is_empty : List ℕ → Bool
is_empty [] = true
is_empty (c ∷ cs) = false

-- The number, held between the least and the greatest long, and whether it is all of the text.
converted : Bool → ℕ × List ℕ → ℤ × Bool
converted true (n, rest) = (negated (at_most (2 ^ 63) n), is_empty rest)
converted false (n, rest) = (pos (at_most (2 ^ 63 - 1) n), is_empty rest)

-- Without a digit nothing of the text is taken.
signed_from : ℕ → Bool → List ℕ → List ℕ → ℤ × Bool
signed_from base negative cs text =
    if starts_digit (if base == 0 then 10 else base) cs
    then converted negative (unsigned_from base cs)
    else (pos 0, is_empty text)

from_sign : ℕ → List ℕ → List ℕ → ℤ × Bool
from_sign base [] text = (pos 0, is_empty text)
from_sign base (c ∷ cs) text =
    if c == 45
    then signed_from base true cs text
    else if c == 43
    then signed_from base false cs text
    else signed_from base false (c ∷ cs) text

unfoldable pub strtol : ℕ → String → ℤ × Bool
unfolding from_sign signed_from skip_spaces converted unsigned_from digits_from digit negated
    is_space is_empty starts_digit is_x tail_of
strtol base s = from_sign base (skip_spaces (codes s)) (codes s)

-- The conversion of a long to an int, and to a uint32_t.
unfoldable pub to_int : ℤ → ℤ
to_int (pos n) =
    if ltb (n % 2 ^ 32) (2 ^ 31) then pos (n % 2 ^ 32) else negsuc (2 ^ 32 - 1 - n % 2 ^ 32)
to_int (negsuc n) =
    if ltb (n % 2 ^ 32) (2 ^ 31) then negsuc (n % 2 ^ 32) else pos (2 ^ 32 - 1 - n % 2 ^ 32)

pub to_u32 : ℤ → ℕ
to_u32 (pos n) = n % 2 ^ 32
to_u32 (negsuc n) = 2 ^ 32 - 1 - n % 2 ^ 32
