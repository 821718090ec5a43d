-- ===== src/TcpFlow/Dump.antt =====
-- What tcpflow prints of a packet, and that ParsePacket reads it back. A row has an offset of four
-- characters, a colon and a space, groups of bytes in hexadecimal with a space behind each, and behind
-- another space the bytes as text.
use openrom.Base.{
  ℕ, zero, suc, ◌-◌, ◌≤◌, ◌<◌, ◌≡◌, ◌≢◌, refl, ap, ◌∙◌, arith, List, [], ◌∷◌, ◌++◌, append_assoc,
  append-nil, true, false, length, All, length-append, ltb, ◌==◌,
}
use openrom.Text.{c_string}
use openrom.TcpFlow.{
  fgets, stored, without_newline, read_line, parse_line, row, parse_lines, parse_flow_packet,
  parsed, line_room, is_colon,
}
use openrom.TcpFlow.Groups.{
  Group, two, one, AreBytes, group_text, groups_text, groups_bytes, parse_groups-groups_text,
}

-- A row without its newline.
pub record Row : Type 0 where
  pub offset_0 : ℕ
  pub offset_1 : ℕ
  pub offset_2 : ℕ
  pub offset_3 : ℕ
  pub groups : List Group
  pub text : List ℕ

unfoldable pub row_text : Row → List ℕ
row_text r =
    r.offset_0
    ∷ (r.offset_1 ∷ (r.offset_2 ∷ (r.offset_3 ∷ (58 ∷ (32 ∷ groups_text r.groups (32 ∷ r.text))))))

-- Neither a zero nor a newline.
abbrev pub IsPrinted : ℕ → Type 0
IsPrinted c = (0 < c) × (c ≢ 10)

pub record IsRow (r : Row) : Type 0 where
  pub all_printed : All IsPrinted (row_text r)
  pub line_fits : length (row_text r) < line_room
  pub all_bytes : All AreBytes r.groups

pub fgets-line :
    (room : ℕ) (line file : List ℕ)
    → All IsPrinted line
    → length line < room
    → fgets room (line ++ (10 ∷ file)) ≡ (line ++ (10 ∷ []), file)
unfolding fgets
fgets-line zero line file h less = absurd (omega arith)
fgets-line (suc room) [] file h less = refl
fgets-line (suc room) (c ∷ cs) file ((positive, ne), h) less =
    rw (fgets-line room cs file h (omega arith), other c ne) refl
  where
    other : (c : ℕ) → c ≢ 10 → (c == 10) ≡ false
    other c ne = ground arith

pub line_back :
    (line : List ℕ) → All IsPrinted line → without_newline (c_string (line ++ (10 ∷ []))) ≡ line
unfolding without_newline c_string
line_back [] h = refl
line_back (c ∷ cs) ((positive, ne), h) =
    rw (not_zero c positive, other c ne, line_back cs h, c_string, without_newline) refl
  where
    not_zero : (c : ℕ) → 0 < c → (c == 0) ≡ false
    not_zero c h = ground arith

    other : (c : ℕ) → c ≢ 10 → (c == 10) ≡ false
    other c ne = ground arith

length-groups_text : (gs : List Group) (rest : List ℕ) → length gs ≤ length (groups_text gs rest)
unfolding groups_text group_text
length-groups_text [] rest = omega arith
length-groups_text (two a b ∷ gs) rest = omega (arith, length-groups_text gs rest)
length-groups_text (one b ∷ gs) rest = omega (arith, length-groups_text gs rest)

long_line :
    (n : ℕ)
    → (ltb 4 (suc (suc (suc (suc (suc (suc n)))))) ≡ true)
      × ((suc (suc (suc (suc (suc (suc n))))) == 5) ≡ false)
long_line n = (ground arith, ground arith)

read_line-row :
    (line file : List ℕ)
    → All IsPrinted line
    → length line < line_room
    → read_line (line ++ (10 ∷ file)) ≡ (line, file)
unfolding read_line
read_line-row line file h fits = rw (fgets-line line_room line file h fits, line_back line h) refl

parse_line-row :
    (r : Row) (room : ℕ) (out : List ℕ)
    → IsRow r
    → length (groups_bytes r.groups) ≤ room
    → parse_line (row_text r) room out
      ≡ row (stored (out ++ groups_bytes r.groups) (room - length (groups_bytes r.groups)))
unfolding parse_line row_text is_colon
parse_line-row r room out v fits =
    let groups = groups_text r.groups (32 ∷ r.text) in
    let (long, other) = long_line (length groups) in
    rw
      (
        long,
        other,
        parse_groups-groups_text (suc (length (row_text r))) r.groups r.text room out v.all_bytes
            (omega (arith, length-groups_text r.groups (32 ∷ r.text))) fits,
      )
      refl

-- A pass of the loop takes a row.
parse_lines-next :
    (fuel : ℕ) (file line rest : List ℕ) (room room' : ℕ) (out out' : List ℕ)
    → 0 < length file
    → read_line file ≡ (line, rest)
    → parse_line line room out ≡ row (stored out' room')
    → parse_lines (suc fuel) file room out ≡ parse_lines fuel rest room' out'
unfolding parse_lines
parse_lines-next fuel [] line rest room room' out out' h r p = absurd (omega arith)
parse_lines-next fuel (c ∷ cs) line rest room room' out out' h r p =
    rw (r, p, parse_lines)
      (ap (λ (x : List ℕ). parse_lines fuel x room' out') (ap (λ (y : List ℕ × List ℕ). y.1) r))

-- The rows of a packet, with a blank line behind them.
pub packet_text : List Row → List ℕ → List ℕ
packet_text [] rest = 10 ∷ rest
packet_text (r ∷ rs) rest = row_text r ++ (10 ∷ packet_text rs rest)

unfoldable pub packet_bytes : List Row → List ℕ
packet_bytes [] = []
packet_bytes (r ∷ rs) = groups_bytes r.groups ++ packet_bytes rs

parse_lines-packet_text :
    (fuel : ℕ) (rs : List Row) (rest : List ℕ) (room : ℕ) (out : List ℕ)
    → All IsRow rs
    → length rs < fuel
    → length (packet_bytes rs) ≤ room
    → parse_lines fuel (packet_text rs rest) room out ≡ parsed (out ++ packet_bytes rs) rest
unfolding packet_text packet_bytes
parse_lines-packet_text zero rs rest room out h less fits = absurd (omega arith)
parse_lines-packet_text (suc fuel) [] rest room out h less fits =
    rw (append-nil) (unfold parse_lines read_line fgets c_string without_newline parse_line in refl)
parse_lines-packet_text (suc fuel) (r ∷ rs) rest room out (v, h) less fits =
    let both = length-append {0} (groups_bytes r.groups) (packet_bytes rs) in
    let line = row_text r in
    parse_lines-next fuel (line ++ (10 ∷ packet_text rs rest)) line (packet_text rs rest) room
      (room - length (groups_bytes r.groups)) out (out ++ groups_bytes r.groups)
      (omega (arith, length-append {0} line (10 ∷ packet_text rs rest)))
      (read_line-row line (packet_text rs rest) v.all_printed v.line_fits)
      (parse_line-row r room out v (omega (arith, both)))
    ∙ parse_lines-packet_text fuel rs rest (room - length (groups_bytes r.groups))
        (out ++ groups_bytes r.groups) h (omega arith) (omega (arith, both))
    ∙ ap (λ bytes. parsed bytes rest) (append_assoc out (groups_bytes r.groups) (packet_bytes rs))

length-packet_text : (rs : List Row) (rest : List ℕ) → length rs ≤ length (packet_text rs rest)
unfolding packet_text
length-packet_text [] rest = omega arith
length-packet_text (r ∷ rs) rest =
    omega
      (arith, length-append {0} (row_text r) (10 ∷ packet_text rs rest), length-packet_text rs rest)

-- Take a packet that tcpflow printed: rows of fewer than 254 characters without a zero or a newline in
-- them, and a blank line. When the buffer has room for the bytes of all groups, ParsePacket fills it
-- with these bytes, in order, and the file goes on behind the blank line.
pub parse_flow_packet-packet_text :
    (rs : List Row) (rest : List ℕ) (room : ℕ)
    → All IsRow rs
    → length (packet_bytes rs) ≤ room
    → parse_flow_packet (packet_text rs rest) room ≡ parsed (packet_bytes rs) rest
unfolding parse_flow_packet
parse_flow_packet-packet_text rs rest room h fits =
    parse_lines-packet_text (suc (length (packet_text rs rest))) rs rest room [] h
      (omega (arith, length-packet_text rs rest)) fits
