-- ===== src/TcpFlow/Groups.antt =====
-- The groups of digits in tcpflow's output, of two bytes or of one, and how ParsePacket reads them.
use openrom.Base.{
  ℕ, zero, suc, ◌+◌, ◌-◌, ◌*◌, ◌/◌, ◌%◌, ◌^◌, ◌≤◌, ◌<◌, ◌≡◌, refl, sym, ap, ap₂, ◌∙◌, arith, List,
  [], ◌∷◌, ◌++◌, append_assoc, append-nil, true, false, some, length, All, length-append, ltb,
  if◌then◌else◌,
}
use openrom.TcpFlow.{
  digit_value, read_digits, is_white, skip_space, past_sign, is_digit, past_prefix, unsigned_long,
  strtoul_end, stored_bytes, past_space, at_space, parse_groups, stored,
}

unfoldable pub hex_digit : ℕ → ℕ
hex_digit d = if ltb d 10 then 48 + d else 87 + d

pub data Group : Type 0 where
  two : ℕ → ℕ → Group
  one : ℕ → Group

pub hex_byte : ℕ → List ℕ
hex_byte b = hex_digit (b / 16) ∷ (hex_digit (b % 16) ∷ [])

unfoldable pub group_text : Group → List ℕ → List ℕ
group_text (two a b) rest =
    hex_digit (a / 16)
    ∷ (hex_digit (a % 16) ∷ (hex_digit (b / 16) ∷ (hex_digit (b % 16) ∷ (32 ∷ rest))))
group_text (one b) rest = hex_digit (b / 16) ∷ (hex_digit (b % 16) ∷ (32 ∷ rest))

unfoldable pub group_bytes : Group → List ℕ
group_bytes (two a b) = a ∷ (b ∷ [])
group_bytes (one b) = b ∷ []

abbrev pub AreBytes : Group → Type 0
AreBytes (two a b) = (a < 256) × (b < 256)
AreBytes (one b) = b < 256

digit_value-hex_digit : (d : ℕ) → d < 16 → digit_value (hex_digit d) ≡ some d
unfolding digit_value hex_digit
digit_value-hex_digit d h = ground arith

-- Such a digit begins a number.
begins :
    (d : ℕ) (cs : List ℕ)
    → d < 16
    → past_sign (skip_space (hex_digit d ∷ cs)) ≡ (false, hex_digit d ∷ cs)
unfolding past_sign skip_space is_white hex_digit
begins d cs h = ground arith

no_prefix :
    (d e : ℕ) (cs : List ℕ)
    → d < 16
    → e < 16
    → past_prefix 16 (hex_digit d ∷ (hex_digit e ∷ cs)) ≡ hex_digit d ∷ (hex_digit e ∷ cs)
unfolding past_prefix hex_digit
no_prefix d e cs h k = ground arith

read_digit :
    (acc d : ℕ) (cs : List ℕ)
    → d < 16
    → read_digits 16 acc (hex_digit d ∷ cs) ≡ read_digits 16 (acc * 16 + d) cs
unfolding read_digits
read_digit acc d cs h = rw (digit_value-hex_digit d h, small d h, read_digits) refl
  where
    small : (d : ℕ) → d < 16 → ltb d 16 ≡ true
    small d h = ground arith

read_end : (acc : ℕ) (cs : List ℕ) → read_digits 16 acc (32 ∷ cs) ≡ (acc, 32 ∷ cs)
unfolding read_digits digit_value
read_end acc cs = refl

is_digit-hex_digit : (d : ℕ) (cs : List ℕ) → d < 16 → is_digit 16 (hex_digit d ∷ cs) ≡ true
unfolding is_digit
is_digit-hex_digit d cs h = ground (arith, digit_value-hex_digit d h)

strtoul_end-hex :
    (d e n : ℕ) (cs rest : List ℕ)
    → d < 16
    → e < 16
    → n < 2 ^ 32
    → read_digits 16 0 (hex_digit d ∷ (hex_digit e ∷ cs)) ≡ (n, rest)
    → strtoul_end 16 (hex_digit d ∷ (hex_digit e ∷ cs)) ≡ (n, rest)
unfolding strtoul_end unsigned_long
strtoul_end-hex d e n cs rest hd he hn read =
    rw
      (
        begins d (hex_digit e ∷ cs) hd,
        no_prefix d e cs hd he,
        read,
        is_digit-hex_digit d (hex_digit e ∷ cs) hd,
      )
      (ground arith)

-- strtoul() of a group stops at its space.
strtoul_end-two :
    (a b : ℕ) (rest : List ℕ)
    → a < 256
    → b < 256
    → strtoul_end 16 (group_text (two a b) rest) ≡ (a * 256 + b, 32 ∷ rest)
unfolding group_text
strtoul_end-two a b rest ha hb =
    strtoul_end-hex (a / 16) (a % 16) (a * 256 + b) _ (32 ∷ rest) (omega arith) (omega arith)
      (omega arith)
      (read_digit 0 (a / 16) _ (omega arith)
        ∙ read_digit (0 * 16 + a / 16) (a % 16) _ (omega arith)
        ∙ read_digit ((0 * 16 + a / 16) * 16 + a % 16) (b / 16) _ (omega arith)
        ∙ read_digit (((0 * 16 + a / 16) * 16 + a % 16) * 16 + b / 16) (b % 16) (32 ∷ rest)
            (omega arith)
        ∙ read_end ((((0 * 16 + a / 16) * 16 + a % 16) * 16 + b / 16) * 16 + b % 16) rest
        ∙ ap (λ (n : ℕ). (n, 32 ∷ rest)) (omega arith))

strtoul_end-one :
    (b : ℕ) (rest : List ℕ) → b < 256 → strtoul_end 16 (group_text (one b) rest) ≡ (b, 32 ∷ rest)
unfolding group_text
strtoul_end-one b rest hb =
    strtoul_end-hex (b / 16) (b % 16) b _ (32 ∷ rest) (omega arith) (omega arith) (omega arith) (
      read_digit 0 (b / 16) _ (omega arith)
      ∙ read_digit (0 * 16 + b / 16) (b % 16) (32 ∷ rest) (omega arith)
      ∙ read_end ((0 * 16 + b / 16) * 16 + b % 16) rest
      ∙ ap (λ (n : ℕ). (n, 32 ∷ rest)) (omega arith))

at_space-hex_digit : (d : ℕ) (cs : List ℕ) → d < 16 → at_space (hex_digit d ∷ cs) ≡ false
unfolding at_space hex_digit
at_space-hex_digit d cs h = ground arith

-- How many pairs of digits strtoul() took.
count_two :
    (a b : ℕ) (rest : List ℕ) → (length (group_text (two a b) rest) - suc (length rest)) / 2 ≡ 2
unfolding group_text
count_two a b rest = omega arith

count_one : (b : ℕ) (rest : List ℕ) → (length (group_text (one b) rest) - suc (length rest)) / 2 ≡ 1
unfolding group_text
count_one b rest = omega arith

at_space-group_text :
    (g : Group) (rest : List ℕ) → AreBytes g → at_space (group_text g rest) ≡ false
unfolding group_text
at_space-group_text (two a b) rest (ha, hb) = at_space-hex_digit (a / 16) _ (omega arith)
at_space-group_text (one b) rest hb = at_space-hex_digit (b / 16) _ (omega arith)

enough : (room n : ℕ) → n ≤ room → ltb room n ≡ false
enough room n h = ground arith

-- A pass of the loop takes a group.
parse_group :
    (fuel : ℕ) (g : Group) (rest : List ℕ) (room : ℕ) (out : List ℕ)
    → AreBytes g
    → length (group_bytes g) ≤ room
    → parse_groups (suc fuel) (group_text g rest) room out
      ≡ parse_groups fuel rest (room - length (group_bytes g)) (out ++ group_bytes g)
unfolding parse_groups group_bytes past_space stored_bytes
parse_group fuel (two a b) rest room out (ha, hb) fits =
    rw
      (
        strtoul_end-two a b rest ha hb,
        at_space-group_text (two a b) rest (ha, hb),
        count_two a b rest,
        enough room 2 fits,
      )
      (ap₂ (λ x y. parse_groups fuel rest (room - 2) (out ++ (x ∷ (y ∷ [])))) (omega arith)
        (omega arith))
parse_group fuel (one b) rest room out hb fits =
    rw
      (
        strtoul_end-one b rest hb,
        at_space-group_text (one b) rest hb,
        count_one b rest,
        enough room 1 fits,
      )
      (ap (λ x. parse_groups fuel rest (room - 1) (out ++ (x ∷ []))) (omega arith))

unfoldable pub groups_text : List Group → List ℕ → List ℕ
groups_text [] rest = rest
groups_text (g ∷ gs) rest = group_text g (groups_text gs rest)

unfoldable pub groups_bytes : List Group → List ℕ
groups_bytes [] = []
groups_bytes (g ∷ gs) = group_bytes g ++ groups_bytes gs

-- The groups of a row, up to the second space.
pub parse_groups-groups_text :
    (fuel : ℕ) (gs : List Group) (text : List ℕ) (room : ℕ) (out : List ℕ)
    → All AreBytes gs
    → length gs < fuel
    → length (groups_bytes gs) ≤ room
    → parse_groups fuel (groups_text gs (32 ∷ text)) room out
      ≡ stored (out ++ groups_bytes gs) (room - length (groups_bytes gs))
unfolding groups_text groups_bytes
parse_groups-groups_text zero gs text room out h less fits = absurd (omega arith)
parse_groups-groups_text (suc fuel) [] text room out h less fits =
    unfold parse_groups at_space in ap₂ stored (sym (append-nil out)) (omega arith)
parse_groups-groups_text (suc fuel) (g ∷ gs) text room out (one_h, h) less fits =
    let both = length-append {0} (group_bytes g) (groups_bytes gs) in
    parse_group fuel g (groups_text gs (32 ∷ text)) room out one_h (omega (arith, both))
    ∙ parse_groups-groups_text fuel gs text (room - length (group_bytes g)) (out ++ group_bytes g) h
        (omega arith) (omega (arith, both))
    ∙ ap₂ stored (append_assoc out (group_bytes g) (groups_bytes gs)) (omega (arith, both))
