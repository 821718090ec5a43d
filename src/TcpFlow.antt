-- ===== src/TcpFlow.antt =====
-- romdump/tcpflowparser.cc: the text that tcpflow prints of a captured connection. A file is the list
-- of its bytes from its position on, and a line the list of its bytes, without the terminating zero.
pub mod Groups
pub mod Dump
mod Tests
use openrom.Base.{
  ℕ, zero, suc, ◌+◌, ◌-◌, ◌*◌, ◌/◌, ◌%◌, ◌^◌, List, [], ◌∷◌, ◌++◌, Bool, true, false, not, Option,
  none, some, get_elem?, length, drop, ltb, leb, ◌==◌, ◌&&◌, ◌||◌, if◌then◌else◌,
}
use openrom.Text.{c_string}
use openrom.PacketLog.{Address}
use Prim.Native.Nat.{bit_or}

-- The value of a digit of strtoul(), up to base 16.
unfoldable pub digit_value : ℕ → Option ℕ
digit_value c =
    if leb 48 c && leb c 57
    then some (c - 48)
    else if leb 97 c && leb c 102
    then some (c - 87)
    else if leb 65 c && leb c 70
    then some (c - 55)
    else none

-- The digits from here on: the number, and what is behind them.
unfoldable pub read_digits : ℕ → ℕ → List ℕ → ℕ × List ℕ
read_digits base acc [] = (acc, [])
read_digits base acc (c ∷ cs) = elim (digit_value c) [
  | none ↦ (acc, c ∷ cs)
  | some d ↦ if ltb d base then read_digits base (acc * base + d) cs else (acc, c ∷ cs)
]

unfoldable pub is_white : ℕ → Bool
is_white c = c == 32 || (leb 9 c && leb c 13)

unfoldable pub skip_space : List ℕ → List ℕ
skip_space [] = []
skip_space (c ∷ cs) = let rest = skip_space cs in if is_white c then rest else c ∷ cs

-- A sign, and whether it is a minus.
unfoldable pub past_sign : List ℕ → Bool × List ℕ
past_sign [] = (false, [])
past_sign (c ∷ cs) =
    if c == 45 then (true, cs) else if c == 43 then (false, cs) else (false, c ∷ cs)

unfoldable pub is_digit : ℕ → List ℕ → Bool
is_digit base [] = false
is_digit base (c ∷ cs) = elim (digit_value c) [ none ↦ false | some d ↦ ltb d base ]

-- `0x` before a digit of base 16.
unfoldable pub past_prefix : ℕ → List ℕ → List ℕ
past_prefix base (c ∷ (x ∷ cs)) =
    if base == 16 && (c == 48 && ((x == 120 || x == 88) && is_digit base cs))
    then cs
    else c ∷ (x ∷ cs)
past_prefix base s = s

-- A number over ULONG_MAX is ULONG_MAX.
unfoldable pub unsigned_long : Bool → ℕ → ℕ
unsigned_long negative n =
    if leb (2 ^ 64) n then 2 ^ 64 - 1 else if negative then (2 ^ 64 - n) % 2 ^ 64 else n

-- strtoul(): the number, and the string from its end on. Without a digit nothing is taken.
unfoldable pub strtoul_end : ℕ → List ℕ → ℕ × List ℕ
strtoul_end base s =
    let (negative, digits) = past_sign (skip_space s) in
    let start = past_prefix base digits in
    let (n, rest) = read_digits base 0 start in
    if is_digit base start then (unsigned_long negative n, rest) else (0, s)

-- fgets() into a buffer for `room` bytes, with what it leaves of the file.
unfoldable pub fgets : ℕ → List ℕ → List ℕ × List ℕ
fgets zero file = ([], file)
fgets (suc room) [] = ([], [])
fgets (suc room) (c ∷ cs) =
    let (line, rest) = fgets room cs in if c == 10 then (c ∷ [], cs) else (c ∷ line, rest)

-- A dot, and what is behind it.
pub past_dot : List ℕ → Option (List ℕ)
past_dot [] = none
past_dot (c ∷ cs) = if c == 46 then some cs else none

-- `a << 24 | b << 16 | c << 8 | d`
pub ipv4 : ℕ → ℕ → ℕ → ℕ → ℕ
ipv4 a b c d =
    bit_or (bit_or (bit_or (a * 2 ^ 24 % 2 ^ 32) (b * 2 ^ 16 % 2 ^ 32)) (c * 2 ^ 8 % 2 ^ 32)) d

infixl 5 ◌>>=◌
abbrev pub ◌>>=◌ {ℓ κ} : {A : Type ℓ} {B : Type κ} → Option A → (A → Option B) → Option B
none >>= f = none
some a >>= f = f a

-- A number as an unsigned int with a dot behind it.
pub parse_part : List ℕ → Option (ℕ × List ℕ)
parse_part s = do let (n, end) = strtoul_end 10 s; rest ← past_dot end; some (n % 2 ^ 32, rest)

-- `none` is the NULL for a text that is no address.
pub parse_ipv4_address : List ℕ → Option (Address × List ℕ)
parse_ipv4_address s0 = do
  (a, s1) ← parse_part s0
  (b, s2) ← parse_part s1
  (c, s3) ← parse_part s2
  (d, s4) ← parse_part s3
  let (e, s5) = strtoul_end 10 s4
  some (record { address = ipv4 a b c d; port = e % 2 ^ 16 }, s5)

-- What ParseHeader answers: 0 at the end of the file, -1, or 1 with the addresses; or it goes on
-- behind the end of the line.
pub data HeaderResult : Type 0 where
  end_of_file : HeaderResult
  malformed : HeaderResult
  addresses : Address → Address → List ℕ → HeaderResult
  overrun : HeaderResult

pub ends_in_colon : Address → Address → List ℕ → List ℕ → HeaderResult
ends_in_colon source dest file [] = malformed
ends_in_colon source dest file (c ∷ cs) = if c == 58 then addresses source dest file else malformed

-- The second address, one character behind the first.
pub parse_dest : Address → List ℕ → List ℕ → HeaderResult
parse_dest source file [] = overrun
parse_dest source file (c ∷ cs) = elim (parse_ipv4_address cs) [
  | none ↦ malformed
  | some (dest, end) ↦ ends_in_colon source dest file end
]

-- LINE_MAX, less the zero that is written and the one of fgets.
abbrev pub line_room : ℕ
line_room = 254

-- `TCPFlowParser::ParseHeader`
pub parse_flow_header : List ℕ → HeaderResult
parse_flow_header [] = end_of_file
parse_flow_header (c ∷ cs) =
    let (line, file) = fgets line_room (c ∷ cs) in
    elim (parse_ipv4_address (c_string line)) [
      | none ↦ malformed
      | some (source, end) ↦ parse_dest source file end
    ]

-- What a line leaves: the bytes in the buffer and the room behind them; or a failed assertion.
pub data Bytes : Type 0 where
  stored : List ℕ → ℕ → Bytes
  failed : Bytes
  exhausted : Bytes

-- The bytes of `count` pairs of digits.
pub stored_bytes : ℕ → ℕ → List ℕ
stored_bytes count v = if ltb 1 count then v / 256 % 256 ∷ (v % 256 ∷ []) else v % 256 ∷ []

pub past_space : List ℕ → List ℕ
past_space [] = []
past_space (c ∷ cs) = if c == 32 then cs else c ∷ cs

pub at_space : List ℕ → Bool
at_space [] = false
at_space (c ∷ cs) = c == 32

-- The loop over the groups of digits, on fuel: each takes two characters or more. `room` is
-- iMaxLength, and `out` what is in the buffer.
pub parse_groups : ℕ → List ℕ → ℕ → List ℕ → Bytes
parse_groups zero s room out = exhausted
parse_groups (suc fuel) s room out =
    let (v, end) = strtoul_end 16 s in
    let count = (length s - length end) / 2 in
    let next =
      parse_groups fuel (past_space end) (room - count) (out ++ stored_bytes count (v % 2 ^ 32)) in
    if at_space s || count == 0
    then stored out room
    else if ltb 2 count || ltb room count
    then failed
    else next

-- The line up to its newline.
unfoldable pub without_newline : List ℕ → List ℕ
without_newline [] = []
without_newline (c ∷ cs) = let rest = without_newline cs in if c == 10 then [] else c ∷ rest

-- A line, without its newline.
pub read_line : List ℕ → List ℕ × List ℕ
read_line file =
    let (whole, rest) = fgets line_room file in (without_newline (c_string whole), rest)

pub is_colon : Option ℕ → Bool
is_colon none = false
is_colon (some c) = c == 58

-- What a line is: blank, a row with the bytes that it adds, or something else. A line of five
-- characters is read behind its end.
pub data LineKind : Type 0 where
  blank : LineKind
  odd : LineKind
  short : LineKind
  row : Bytes → LineKind

pub parse_line : List ℕ → ℕ → List ℕ → LineKind
parse_line [] room out = blank
parse_line (c ∷ cs) room out =
    if ltb 4 (length (c ∷ cs)) && is_colon (get_elem? (c ∷ cs) 4)
    then if length (c ∷ cs) == 5
      then short
      else row (parse_groups (suc (length (c ∷ cs))) (drop 6 (c ∷ cs)) room out)
    else odd

-- What ParsePacket answers: the bytes in the buffer and the rest of the file, or -1; or it fails an
-- assertion or reads behind a line.
pub data PacketResult : Type 0 where
  parsed : List ℕ → List ℕ → PacketResult
  bad_line : PacketResult
  fault : PacketResult
  out_of_fuel : PacketResult

-- The loop of `TCPFlowParser::ParsePacket` over the lines. Each takes a byte of the file or more, so
-- one more than the length of the file is fuel enough.
pub parse_lines : ℕ → List ℕ → ℕ → List ℕ → PacketResult
parse_lines zero file room out = out_of_fuel
parse_lines (suc fuel) [] room out = parsed out []
parse_lines (suc fuel) (c ∷ cs) room out =
    let (line, rest) = read_line (c ∷ cs) in
    elim (parse_line line room out) [
      | blank ↦ parsed out rest
      | odd ↦ bad_line
      | short ↦ fault
      | row failed ↦ fault
      | row exhausted ↦ out_of_fuel
      | row (stored out' room') ↦ parse_lines fuel rest room' out'
    ]

-- `TCPFlowParser::ParsePacket`
pub parse_flow_packet : List ℕ → ℕ → PacketResult
parse_flow_packet file room = parse_lines (suc (length file)) file room []
