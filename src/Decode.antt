-- ===== src/Decode.antt =====
-- lib/protocoldecode.cc, and the types and actions of lib/protocoldefinition.h and .cc that it runs
-- over: how a decrypted packet is taken apart by a protocol definition. `m_Data` and `m_DataLeft`
-- always move together, so a decode state holds the bytes that are left. The members that a call
-- assigns are the list of its assignments, in order. Products of counts and widths fit an int.
pub mod Bounds
pub mod Sizes
mod Tests
use openrom.Base.{
  ℕ, zero, suc, ◌+◌, ◌-◌, ◌*◌, ◌/◌, ◌%◌, ◌^◌, List, [], ◌∷◌, ◌++◌, Bool, true, false, not, Option,
  none, some, length, take, drop, ltb, leb, ◌==◌, ◌||◌, if◌then◌else◌,
}
use openrom.Packet.{byte_at}

-- The result of a Fill: `negsuc n` is -(n + 1).
pub data ℤ : Type 0 where
  pos : ℕ → ℤ
  negsuc : ℕ → ℤ

pub ◌-ℤ◌ : ℕ → ℕ → ℤ

infixl 6 ◌-ℤ◌
m -ℤ n = if ltb m n then negsuc (n - m - 1) else pos (m - n)

-- unsignedType and signedType (width, count, minimal count, fixed value, and `m_Value[0]` as it stands
-- before the call), stringType (length, minimal length), floatType, doubleType, lengthType and
-- unixtimeType.
pub data Builtin : Type 0 where
  number : ℕ → ℕ → ℕ → Option ℕ → ℕ → Builtin
  string : ℕ → ℕ → Builtin
  float : ℕ → Builtin
  double : ℕ → Builtin
  length_field : Builtin
  unixtime : Builtin

-- XDataTransformation: the estimate of the buffer's size, and the bytes that `Apply` leaves in the
-- buffer, or `none` where it answers false.
pub record Transformation : Type 0 where
  pub estimate_buffer_size : List ℕ → ℤ
  pub apply : List ℕ → Option (List ℕ)

-- Types, and the actions of a struct. A struct has its count and its minimal count.
mutual
  pub data Kind : Type 0 where
    builtin : Builtin → Kind
    struct : ℕ → ℕ → Actions → Kind

  pub data Actions : Type 0 where
    done : Actions
    field : Kind → Actions → Actions
    transformation : Transformation → Actions → Actions
    annotation : Actions → Actions

-- What a call assigns: the offset of a field, the numbers or the bytes of its value; or that it
-- applies an annotation to the current struct.
pub data Event : Type 0 where
  offset_is : ℕ → Event
  numbers_are : List ℕ → Event
  bytes_are : List ℕ → Event
  annotated : Event

pub record DecodeState : Type 0 where
  pub bytes : List ℕ
  pub data_offset : ℕ

-- The number in the first `width` bytes, the lowest first.
pub read_number : ℕ → List ℕ → ℕ
read_number zero bytes = 0
read_number (suc width) bytes = byte_at bytes 0 + read_number width (drop 1 bytes) * 256

-- `num` such numbers.
pub read_numbers : ℕ → ℕ → List ℕ → List ℕ
read_numbers width zero bytes = []
read_numbers width (suc num) bytes =
    read_number width bytes ∷ read_numbers width num (drop width bytes)

abbrev pub first_or : ℕ → List ℕ → ℕ
first_or old [] = old
first_or old (v ∷ vs) = v

-- The result, unless a fixed value is given and is not the first.
pub check_fixed : Option ℕ → ℕ → ℕ → ℤ
check_fixed none first taken = pos taken
check_fixed (some v) first taken = if first == v then pos taken else negsuc 0

pub fill_number : ℕ → ℕ → ℕ → Option ℕ → ℕ → List ℕ → ℤ × List Event
fill_number width count min_count fixed old bytes =
    let num = if ltb count (length bytes / width) then count else length bytes / width in
    let values = read_numbers width num bytes in
    if ltb (length bytes) (width * min_count)
    then (pos 0, [])
    else (check_fixed fixed (first_or old values) (width * num), numbers_are values ∷ [])

pub fill_string : ℕ → ℕ → List ℕ → ℤ × List Event
fill_string len min_length bytes =
    let n = if ltb (length bytes) len then length bytes else len in
    if ltb (length bytes) min_length then (pos 0, []) else (pos n, bytes_are (take n bytes) ∷ [])

-- The bits of the numbers.
pub fill_float : ℕ → ℕ → List ℕ → ℤ × List Event
fill_float width count bytes =
    if ltb (length bytes) (count * width)
    then (pos 0, [])
    else (pos (count * width), numbers_are (read_numbers width count bytes) ∷ [])

pub fill_length : List ℕ → ℤ × List Event
fill_length bytes =
    let value = (read_number 4 bytes + 4) % 2 ^ 32 in
    if ltb (length bytes) 4
    then (pos 0, [])
    else (if value == length bytes then pos 4 else pos 0, numbers_are (value ∷ []) ∷ [])

pub fill_builtin : Builtin → List ℕ → ℤ × List Event
fill_builtin (number width count min_count fixed old) bytes =
    fill_number width count min_count fixed old bytes
fill_builtin (string len min_length) bytes = fill_string len min_length bytes
fill_builtin (float count) bytes = fill_float 4 count bytes
fill_builtin (double count) bytes = fill_float 8 count bytes
fill_builtin length_field bytes = fill_length bytes
fill_builtin unixtime bytes = fill_float 4 1 bytes

-- `Field::Process` behind the Fill of its type, with its result: the state moves on by a positive one.
-- No Fill answers more than the bytes that are left, so `m_DataLeft` stays at zero or above.
pub advance : DecodeState → ℤ → Option DecodeState
advance st (pos zero) = none
advance st (pos (suc n)) =
    some (record { bytes = drop (suc n) st.bytes; data_offset = (st.data_offset + suc n) % 2 ^ 32 })
advance st (negsuc n) = none

-- `TransformationAction::Process`
pub transform : Transformation → DecodeState → Option DecodeState
transform t st = elim (t.estimate_buffer_size st.bytes) [
  | pos zero ↦ none
  | negsuc n ↦ none
  | pos (suc n) ↦ elim (t.apply st.bytes) [
    | none ↦ none
    | some out ↦ some (record { bytes = out; data_offset = 0 })
  ]
]

-- `Struct::Fill`, and its loop over the actions, which ends at the first that fails.
mutual
  pub fill : Kind → DecodeState → ℤ × List Event
  fill (builtin b) st = fill_builtin b st.bytes
  fill (struct count min_count actions) st =
      let (sub, events) = process_actions actions st in
      (length st.bytes -ℤ length sub.bytes, events)

  pub process_actions : Actions → DecodeState → DecodeState × List Event
  process_actions done st = (st, [])
  process_actions (field kind rest) st =
      let (r, events) = fill kind st in
      elim (advance st r) [
        | none ↦ (st, offset_is st.data_offset ∷ events)
        | some st' ↦
            let (sub, more) = process_actions rest st' in
            (sub, offset_is st.data_offset ∷ (events ++ more))
      ]
  process_actions (transformation t rest) st = elim (transform t st) [
    | none ↦ (st, [])
    | some st' ↦ process_actions rest st'
  ]
  process_actions (annotation rest) st =
      let (sub, more) = process_actions rest st in (sub, annotated ∷ more)

pub constant_builtin : Builtin → ℕ
constant_builtin (number width count min_count fixed old) =
    if count == min_count then count * width else 0
constant_builtin (string len min_length) = if min_length == len then len else 0
constant_builtin (float count) = count * 4
constant_builtin (double count) = count * 8
constant_builtin length_field = 4
constant_builtin unixtime = 4

-- `GetConstantSize`: a field without a constant size makes it 0.
mutual
  pub constant_size : Kind → ℕ
  constant_size (builtin b) = constant_builtin b
  constant_size (struct count min_count actions) =
      if count == min_count then constant_sum actions 0 * count else 0

  -- The loop, from the sum so far.
  pub constant_sum : Actions → ℕ → ℕ
  constant_sum done size = size
  constant_sum (field kind rest) size =
      let more = constant_sum rest (size + constant_size kind) in
      if constant_size kind == 0 then 0 else more
  constant_sum (transformation t rest) size = constant_sum rest size
  constant_sum (annotation rest) size = constant_sum rest size

-- A packet: its actions, its subpackets, and `m_NumPacketBytes`.
pub record Packet : Type 0 where
  pub actions : Actions
  pub subpackets : List Actions
  pub num_packet_bytes : ℕ

-- `m_NumPacketBytes`, as `Packet::ParseNode` computes it once the actions are known.
pub num_bytes : Actions → ℕ
num_bytes actions = constant_sum actions 0

-- What `Packet::Fill` leaves: its result, the index of `m_LastSubpacket`, and the assignments.
pub record Filled : Type 0 where
  pub amount : ℕ
  pub last_subpacket : Option ℕ
  pub events : List Event

-- `iAmount == oSubPacketState.m_DataLeft`
abbrev pub takes_all : ℤ → List ℕ → Bool
takes_all (pos n) bytes = n == length bytes
takes_all (negsuc n) bytes = false

-- The loop over the subpackets, from index `i` on, in a state behind the header.
pub try_subpackets : ℕ → List Actions → DecodeState → Option ℕ × List Event
try_subpackets i [] st = (none, [])
try_subpackets i (sp ∷ rest) st =
    let (amount, events) = fill (struct 1 1 sp) st in
    let (found, more) = try_subpackets (suc i) rest st in
    if takes_all amount st.bytes then (some i, events) else (found, events ++ more)

-- The state behind the header of a packet.
pub behind : Packet → DecodeState → DecodeState
behind p st = record {
  bytes = drop p.num_packet_bytes st.bytes;
  data_offset = (st.data_offset + p.num_packet_bytes) % 2 ^ 32;
}

-- The loop in the state `st`, and the result of the Fill of the header's `num` bytes.
pub with_subpackets : Packet → ℕ → List Event → DecodeState → Filled
with_subpackets p num events st =
    let (found, more) = try_subpackets 0 p.subpackets (behind p st) in
    elim found [
      | none ↦ record { amount = num; last_subpacket = none; events = events ++ more }
      | some i ↦ record {
        amount = num + length (behind p st).bytes;
        last_subpacket = some i;
        events = events ++ more;
      }
    ]

abbrev pub has_none : List Actions → Bool
has_none [] = true
has_none (sp ∷ rest) = false

-- `Packet::Fill` behind the Fill of the struct, with its result. A negative one is answered by 0, and
-- so is a header of another length than the subpackets stand behind.
pub fill_rest : Packet → ℤ → List Event → DecodeState → Filled
fill_rest p (negsuc n) events st = record { amount = 0; last_subpacket = none; events = events }
fill_rest p (pos n) events st =
    if has_none p.subpackets
    then record { amount = n; last_subpacket = none; events = events }
    else if not (n == p.num_packet_bytes)
    then record { amount = 0; last_subpacket = none; events = events }
    else with_subpackets p n events st

pub fill_packet : Packet → DecodeState → Filled
fill_packet p st =
    let (result, events) = fill (struct 1 1 p.actions) st in fill_rest p result events st

-- `ProtocolDefinition::Process`: the index of the first packet whose Fill takes all of the data. The
-- offset of the state is not set there.
pub find_packet : ℕ → List Packet → DecodeState → Option (ℕ × Filled)
find_packet i [] st = none
find_packet i (p ∷ ps) st =
    let filled = fill_packet p st in
    let rest = find_packet (suc i) ps st in
    if filled.amount == length st.bytes then some (i, filled) else rest
