-- ===== src/Traffic.antt =====
-- romdump/romdump.cc: AnalyzePacket and PacketMatchesList, up to what they print.
pub mod Checks
pub mod Returns
mod Tests
use openrom.Base.{
  ℕ, zero, suc, ◌+◌, ◌-◌, List, [], ◌∷◌, ◌++◌, map, Bool, true, false, not, Option, none, some,
  length, take, drop, ◌==◌, ◌&&◌, ◌||◌, if◌then◌else◌, ltb,
}
use openrom.Text.{same_bytes}
use openrom.Packet.{
  Packet, packet_size, rom_key_length, flag_key, flag_encrypted, flag_alive_request,
  flag_alive_reply, has_flag, decrypt, decrypt_byte, header_checksum_ok, data_checksum_ok, key_byte,
}
use openrom.Decode.{Filled, find_packet}
use openrom.Decode

-- romdump/romstate.h
pub record RomState : Type 0 where
  pub key : List ℕ
  pub have_key : Bool

-- A packet of the protocol definition: its name, and the names of its subpackets.
pub record Named : Type 0 where
  pub packet : Decode.Packet
  pub name : List ℕ
  pub subpacket_names : List (List ℕ)

-- The flags and the lists of the command line.
pub record Options : Type 0 where
  pub show_keepalive : Bool
  pub hexdump : Bool
  pub display_key : Bool
  pub skip_unknown : Bool
  pub hide_types : List (List ℕ)
  pub show_types : List (List ℕ)

-- An entry of a list: what stands before its colon, and behind it.
pub split_entry : List ℕ → List ℕ × Option (List ℕ)
split_entry [] = ([], none)
split_entry (c ∷ cs) =
    let (before, behind) = split_entry cs in if c == 58 then ([], some cs) else (c ∷ before, behind)

-- `strncmp(name, s, strlen(s)) == 0`
pub begins_with : List ℕ → List ℕ → Bool
begins_with name [] = true
begins_with [] (c ∷ s) = false
begins_with (d ∷ name) (c ∷ s) = (d == c) && begins_with name s

-- The subpacket is looked at if the entry names one.
pub subpacket_matches : Option (List ℕ) → Option (List ℕ) → Bool
subpacket_matches none subpacket = true
subpacket_matches (some []) subpacket = true
subpacket_matches (some (c ∷ cs)) none = false
subpacket_matches (some (c ∷ cs)) (some name) = same_bytes name (c ∷ cs)

pub entry_matches : List ℕ → Option (List ℕ) → List ℕ → Bool
entry_matches name subpacket entry =
    let (before, behind) = split_entry entry in
    begins_with name before && subpacket_matches behind subpacket

pub packet_matches_list : List ℕ → Option (List ℕ) → List (List ℕ) → Bool
packet_matches_list name subpacket [] = false
packet_matches_list name subpacket (entry ∷ entries) =
    entry_matches name subpacket entry || packet_matches_list name subpacket entries

-- The packet as it is in the end, and the results of the two checks. The data of a packet that is not
-- encrypted pass.
pub record Examined : Type 0 where
  pub packet : Packet
  pub header_ok : Bool
  pub data_ok : Bool

-- `none` is a read past the end of `m_Key`. A missing key is a warning only.
pub examine : RomState → Packet → Option Examined
examine st p =
    if p.p_flag == flag_encrypted
    then elim (key_byte st.key p) [
      | none ↦ none
      | some key ↦
          let q = record p { p_data = decrypt key (p.p_length - packet_size) p.p_data } in
          some (record {
            packet = q;
            header_ok = header_checksum_ok p;
            data_ok = data_checksum_ok key q;
          })
    ]
    else some (record { packet = p; header_ok = header_checksum_ok p; data_ok = true })

-- The names of the packet that was found.
pub nth_name : ℕ → List (List ℕ) → Option (List ℕ)
nth_name n [] = none
nth_name zero (name ∷ names) = some name
nth_name (suc n) (name ∷ names) = nth_name n names

pub nth_packet : ℕ → List Named → Option Named
nth_packet n [] = none
nth_packet zero (p ∷ ps) = some p
nth_packet (suc n) (p ∷ ps) = nth_packet n ps

pub subpacket_of : Named → Filled → Option (List ℕ)
subpacket_of p filled = elim filled.last_subpacket [
  | none ↦ none
  | some i ↦ nth_name i p.subpacket_names
]

-- Whether a packet that was found is hidden, or not among those to show.
pub is_hidden : Options → Named → Filled → Bool
is_hidden o p filled =
    packet_matches_list p.name (subpacket_of p filled) o.hide_types || elim o.show_types [
      | [] ↦ false
      | _ ↦ not (packet_matches_list p.name (subpacket_of p filled) o.show_types)
    ]

-- `bSkipPacket`
pub is_skipped : Options → List Named → Option (ℕ × Filled) → Bool
is_skipped o ps none = o.skip_unknown
is_skipped o ps (some (i, filled)) = elim (nth_packet i ps) [
  | none ↦ false
  | some p ↦ is_hidden o p filled
]

-- What is printed: the packet with its checks, the definition that fits, and whether the data are
-- dumped.
pub record Report : Type 0 where
  pub examined : Examined
  pub found : Option (ℕ × Filled)
  pub dumps : Bool

-- The program ends on a key of another length, or reads past the key.
pub data Outcome : Type 0 where
  exits : Outcome
  past_key : Outcome
  quiet : RomState → Outcome
  reports : RomState → Report → Outcome

abbrev pub is_unknown : Option (ℕ × Filled) → Bool
is_unknown none = true
is_unknown (some x) = false

-- The key of a packet.
abbrev pub with_key : Packet → RomState
with_key p = record { key = map (decrypt_byte 8) (take rom_key_length p.p_data); have_key = true }

module _ (o : Options) (ps : List Named) where
  pub found_in : Examined → Option (ℕ × Filled)
  found_in x =
      if x.packet.p_flag == flag_encrypted
      then find_packet 0 (map (λ p. p.packet) ps) (record {
        bytes = take (x.packet.p_length - packet_size) x.packet.p_data;
        data_offset = 0;
      })
      else none

  pub report : RomState → Examined → Outcome
  report st x =
      let found = found_in x in
      if is_skipped o ps found
      then quiet st
      else reports st
          (record { examined = x; found = found; dumps = is_unknown found || o.hexdump })

  pub analyze_rest : RomState → Packet → Outcome
  analyze_rest st p = elim (examine st p) [ none ↦ past_key | some x ↦ report st x ]

  pub analyze_packet : RomState → Packet → Outcome
  analyze_packet st p =
      if (has_flag p flag_alive_request || has_flag p flag_alive_reply) && not o.show_keepalive
      then quiet st
      else if not (has_flag p flag_key)
      then analyze_rest st p
      else if not (p.p_length - packet_size == rom_key_length)
      then exits
      else if not o.display_key
      then quiet (with_key p)
      else analyze_rest (with_key p) p
