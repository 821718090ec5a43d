-- ===== src/Packet/Checksum.antt =====
-- The two checksums of lib/romconnection.cc, as sums of bytes.
use openrom.Base.{ℕ, ◌+◌, ◌%◌, ◌<◌, ◌≡◌, ◌↔◌, arith, List, [], ◌∷◌, true, length, take, take_all}
use openrom.Packet.{
  Packet, IsByte, packet_size, to_bytes, add_bytes, header_checksum_ok, data_checksum_ok,
}
use openrom.Packet.Layout.{length-to_bytes}

-- The sum of a list of bytes, without any wrap.
unfoldable pub sum : List ℕ → ℕ
sum [] = 0
sum (b ∷ bs) = b + sum bs

add_bytes-sum :
    (acc : ℕ) (bytes : List ℕ) → acc < 256 → add_bytes acc bytes ≡ (acc + sum bytes) % 256
unfolding add_bytes sum
add_bytes-sum acc [] h = omega arith
add_bytes-sum acc (b ∷ bs) h = omega (arith, add_bytes-sum ((acc + b) % 256) bs (omega arith))

-- The packet before its checksums are set.
abbrev pub cleared : Packet → Packet
cleared p = record p { p_header_checksum = 0; p_data_checksum = 0 }

-- The header checksum covers the first eleven bytes, with the data checksum among them.
unfoldable pub header_sum : Packet → ℕ
unfolding sum to_bytes
header_sum p = sum (take 11 (to_bytes (cleared p)))

-- The data checksum covers the whole packet.
unfoldable pub packet_sum : Packet → ℕ
unfolding sum to_bytes
packet_sum p = sum (to_bytes (cleared p))

pub header_bytes_sum :
    (p : Packet)
    → add_bytes 0 (take 11 (to_bytes p))
      ≡ (header_sum p + p.p_data_checksum + p.p_header_checksum) % 256
unfolding header_sum
header_bytes_sum p = omega (arith, add_bytes-sum 0 (take 11 (to_bytes p)) (omega arith))

pub packet_bytes_sum :
    (p : Packet)
    → p.p_length ≡ packet_size + length p.p_data
    → add_bytes 0 (take p.p_length (to_bytes p))
      ≡ (packet_sum p + p.p_data_checksum + p.p_header_checksum) % 256
unfolding packet_sum
packet_bytes_sum p e =
    rw (take_all p.p_length (to_bytes p) (omega (arith, length-to_bytes p)))
      (omega (arith, add_bytes-sum 0 (to_bytes p) (omega arith)))

-- A packet whose header checksum is a byte passes the header check exactly when its header checksum is the sum, modulo 256, of its
-- first eleven bytes with the header checksum itself left out.
pub header_checksum_ok_iff :
    (p : Packet)
    → IsByte p.p_header_checksum
    → (header_checksum_ok p ≡ true)
      ↔ (p.p_header_checksum ≡ (header_sum p + p.p_data_checksum) % 256)
unfolding header_checksum_ok
header_checksum_ok_iff p h = ground (arith, header_bytes_sum p)

-- A packet of the length that its header counts, with checksums that are bytes, passes the data check exactly when its data checksum is the sum, modulo 256, of the key
-- and of all its bytes but the two checksums.
pub data_checksum_ok_iff :
    (key : ℕ) (p : Packet)
    → p.p_length ≡ packet_size + length p.p_data
    → IsByte p.p_header_checksum
    → IsByte p.p_data_checksum
    → (data_checksum_ok key p ≡ true) ↔ (p.p_data_checksum ≡ (packet_sum p + key) % 256)
unfolding data_checksum_ok
data_checksum_ok_iff key p e hh hd = ground (arith, packet_bytes_sum p e)
