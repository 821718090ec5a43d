-- ===== src/Packet/Layout.antt =====
-- The layout of struct ROM::Packet in memory.
use openrom.Base.{ℕ, ◌+◌, ◌*◌, ◌/◌, ◌%◌, ◌^◌, ◌<◌, ◌≡◌, arith, List, ◌++◌, length}
use openrom.Packet.{Packet, packet_size, to_bytes, of_memory}

-- The packet with the data `data` in place of its own.
abbrev pub with_data : Packet → List ℕ → Packet
with_data p bytes = record p { p_data = bytes }

u32_back :
    (n : ℕ)
    → n < 2 ^ 32
    → n % 256 + n / 256 % 256 * 256 + n / 65536 % 256 * 65536 + n / 16777216 % 256 * 16777216 ≡ n
u32_back n h = omega arith

-- When length and number fit a uint32_t, the cast of a packet's memory reads the packet back; what
-- follows the packet in memory follows its data.
pub of_memory-to_bytes :
    (p : Packet) (rest : List ℕ)
    → p.p_length < 2 ^ 32
    → p.p_seq < 2 ^ 32
    → of_memory (to_bytes p ++ rest) ≡ with_data p (p.p_data ++ rest)
unfolding of_memory to_bytes
of_memory-to_bytes p rest hl hs = ground (arith, u32_back p.p_length hl, u32_back p.p_seq hs)

pub length-to_bytes : (p : Packet) → length (to_bytes p) ≡ packet_size + length p.p_data
unfolding to_bytes
length-to_bytes p = omega arith
