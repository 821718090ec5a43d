-- ===== src/Decode/Tests.antt =====
-- A packet with a header byte and two subpackets, and the theorems on it.
use openrom.Base.{◌<◌, ◌≡◌, refl, arith, [], ◌∷◌, some, none}
use openrom.Decode.{
  Builtin, number, string, builtin, struct, done, field, DecodeState, Packet, fill_packet,
  fill_rest, with_subpackets, try_subpackets, behind, fill, fill_builtin, fill_number, fill_string,
  check_fixed, read_numbers, read_number, advance, ◌-ℤ◌, constant_builtin, num_bytes, constant_sum,
}
use openrom.Decode.Bounds.{IsWithin, fill-IsWithin}
use openrom.Decode.Sizes.{IsAllOrNothing, fill_builtin-all}

-- A u16, and a string of three bytes at most.
abbrev u16 : Builtin
u16 = number 2 1 1 none 0

abbrev move : Packet
move = record {
  actions = field (builtin (number 1 1 1 (some 5) 0)) done;
  subpackets = field (builtin (string 3 3)) done ∷ field (builtin u16) done ∷ [];
  num_packet_bytes = 1;
}

abbrev received : DecodeState
received = record { bytes = 5 ∷ 1 ∷ 2 ∷ []; data_offset = 0 }

header_bytes : num_bytes move.actions ≡ 1
unfolding num_bytes constant_sum constant_builtin
header_bytes = refl

second_matches : (fill_packet move received).last_subpacket ≡ some 1
unfolding fill_packet fill_rest with_subpackets try_subpackets behind fill fill_builtin fill_number
    fill_string check_fixed read_numbers read_number advance ◌-ℤ◌
second_matches = refl

fill-IsWithin_example : IsWithin 3 (fill (struct 1 1 (field (builtin u16) done)) received).0
fill-IsWithin_example = fill-IsWithin (struct 1 1 (field (builtin u16) done)) received

-- A u16 is taken from the three bytes.
abbrev behind_u16 : DecodeState
behind_u16 = record { bytes = 2 ∷ []; data_offset = 2 }

fill_builtin-all_example :
    IsAllOrNothing (constant_builtin u16) (fill_builtin u16 (1 ∷ 2 ∷ 3 ∷ [])).0
fill_builtin-all_example = fill_builtin-all u16 (1 ∷ 2 ∷ 3 ∷ []) constant
  where
    constant : 0 < constant_builtin u16
    constant = unfold constant_builtin in omega arith
