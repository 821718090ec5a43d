-- ===== src/Flow.antt =====
-- romdump/flow.h and .cc, romdump/types.h, romdump/connection.h, and AnalyzeFlow of
-- romdump/romdump.cc: the data of one direction of a captured connection, how it grows, and how it is
-- cut into packets. The array of a flow is its used part; `AnalyzePacket` is the list of its calls.
pub mod Growth
pub mod Order
pub mod Cutting
mod Tests
use openrom.Base.{
  ℕ, zero, suc, ◌+◌, ◌-◌, not, ◌*◌, ◌%◌, ◌^◌, List, [], ◌∷◌, ◌++◌, Bool, true, false, Option, none,
  some, length, take, drop, ltb, ◌==◌, ◌&&◌, ◌||◌, if◌then◌else◌,
}
use mathlib.Core.Option
use openrom.Packet.{
  Packet, of_memory, u32_at, packet_size, rom_key_length, flag_key, flag_encrypted,
  flag_alive_request, flag_alive_reply, has_flag,
}
use openrom.PacketLog.{Address}

-- The operators == and < of IPv4Address.
pub same_address : Address → Address → Bool
same_address a b = (a.address == b.address) && (a.port == b.port)

pub address_less : Address → Address → Bool
address_less a b = if a.address == b.address then ltb a.port b.port else ltb a.address b.address

-- The source and the destination of a Connection, and its operator <.
pub record Endpoints : Type 0 where
  pub source : Address
  pub dest : Address

unfoldable pub endpoints_less : Endpoints → Endpoints → Bool
unfolding same_address address_less
endpoints_less a b =
    if same_address a.source b.source
    then address_less a.dest b.dest
    else address_less a.source b.source

pub record Flow : Type 0 where
  pub bytes : List ℕ
  pub buffer_size : ℕ
  pub current_data_offset : ℕ

-- `none` is the failed assertion of the constructor.
unfoldable pub new_flow : ℕ → Option Flow
new_flow size =
    if size == 0
    then none
    else some (record { bytes = []; buffer_size = size; current_data_offset = 0 })

-- The loop that doubles the buffer, on the unsigned sizes. `none` is a lack of fuel: the size may wrap
-- to 0, and then the loop does not end.
pub grow : ℕ → ℕ → ℕ → Option ℕ
grow zero size needed = none
grow (suc fuel) size needed =
    let bigger = grow fuel (size * 2 % 2 ^ 32) needed in
    if ltb size needed then bigger else some size

unfoldable pub append : Flow → List ℕ → Option Flow
unfolding grow
append flow bytes =
    Option.map (λ size. record flow { bytes = flow.bytes ++ bytes; buffer_size = size })
      (grow 33 flow.buffer_size ((length flow.bytes + length bytes) % 2 ^ 32))

-- What AnalyzeFlow did: the packets that it handed to AnalyzePacket with their sequence numbers, the
-- data that is left, and the next number; or the program ended, by the abort on a length or within
-- AnalyzePacket.
pub data Analysis : Type 0 where
  analyzed : List (ℕ × List ℕ) → List ℕ → ℕ → Analysis
  aborted : Analysis
  stuck : Analysis

unfoldable pub with_packet : ℕ → List ℕ → Analysis → Analysis
with_packet sequence bytes (analyzed packets left next) =
    analyzed ((sequence, bytes) ∷ packets) left next
with_packet sequence bytes aborted = aborted
with_packet sequence bytes stuck = stuck

-- Whether AnalyzePacket comes back from a packet, with or without DISPLAY_SHOW_KEEPALIVE: it ends the
-- program on a key of another length, and may read past the key.
unfoldable pub comes_back : Bool → Packet → Bool
comes_back keepalive p =
    if (has_flag p flag_alive_request || has_flag p flag_alive_reply) && not keepalive
    then true
    else if has_flag p flag_key
    then p.p_length - packet_size == rom_key_length
    else if p.p_flag == flag_encrypted
    then p.p_keynum == 255 || ltb p.p_keynum rom_key_length
    else true

module _ (keepalive : Bool) where
  -- The loop, on the data from the current offset on.
  unfoldable pub analyze : ℕ → List ℕ → ℕ → Analysis
  analyze zero left sequence = stuck
  analyze (suc fuel) left sequence =
      let size = u32_at left 0 in
      let rest =
        with_packet sequence (take size left) (analyze fuel (drop size left) (suc sequence)) in
      if ltb (length left) packet_size
      then analyzed [] left sequence
      else if ltb 131072 size
      then aborted
      else if ltb size packet_size || ltb (length left) size
      then analyzed [] left sequence
      else if comes_back keepalive (of_memory (take size left))
      then rest
      else aborted

  -- AnalyzeFlow. Each pass takes twelve bytes or more.
  unfoldable pub analyze_flow : Flow → ℕ → Analysis
  unfolding analyze with_packet
  analyze_flow flow sequence =
      analyze (suc (length flow.bytes)) (drop flow.current_data_offset flow.bytes) sequence
