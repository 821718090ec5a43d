-- ===== src/Packet.antt =====
-- lib/romstructs.h, and what lib/romconnection.cc does to a single packet: the byte cipher, the two
-- checksums, and the key that a packet names. Bytes are numbers below 256, words are little endian.
pub mod Cipher
pub mod Checksum
pub mod Layout
pub mod Tamper
mod Tests
pub mod Sealing
use openrom.Base.{
  ℕ, zero, suc, ◌+◌, ◌-◌, ◌*◌, ◌/◌, ◌%◌, ◌^◌, ◌≤◌, ◌<◌, ◌≡◌, bit_and, bit_xor, List, [], ◌∷◌, ◌++◌,
  map, Bool, not, Option, some, length, get_elem?, take, drop, All, ◌==◌, if◌then◌else◌,
}
use mathlib.Core.Option

-- `p_data` is the memory behind the header. It may be longer than the packet.
pub record Packet : Type 0 where
  pub p_length : ℕ
  pub p_flag : ℕ
  pub p_data_checksum : ℕ
  pub p_header_checksum : ℕ
  pub p_keynum : ℕ
  pub p_seq : ℕ
  pub p_data : List ℕ

-- sizeof(struct ROM::Packet)
abbrev pub packet_size : ℕ
packet_size = 12

abbrev pub flag_key : ℕ
flag_key = 1

abbrev pub flag_encrypted : ℕ
flag_encrypted = 2

abbrev pub flag_alive_request : ℕ
flag_alive_request = 4

abbrev pub flag_alive_reply : ℕ
flag_alive_reply = 8

abbrev pub rom_key_length : ℕ
rom_key_length = 10

abbrev pub u8 : ℕ → ℕ
u8 n = n % 256

abbrev pub IsByte : ℕ → Type 0
IsByte b = b < 256

-- The four bytes of a uint32_t in memory.
abbrev pub u32_bytes : ℕ → List ℕ
u32_bytes n = n % 256 ∷ n / 256 % 256 ∷ n / 65536 % 256 ∷ n / 16777216 % 256 ∷ []

-- Reads of the memory `m`. A read past its end does not happen where these are used.
abbrev pub byte_at : List ℕ → ℕ → ℕ
byte_at m i = Option.get_or (get_elem? m i) 0

abbrev pub u32_at : List ℕ → ℕ → ℕ
u32_at m i =
    byte_at m i
    + byte_at m (suc i) * 256
    + byte_at m (suc (suc i)) * 65536
    + byte_at m (suc (suc (suc i))) * 16777216

-- The memory of a packet, and the cast of memory to a packet.
unfoldable pub to_bytes : Packet → List ℕ
to_bytes p =
    u32_bytes p.p_length
    ++ (p.p_flag
        ∷ p.p_data_checksum
        ∷ p.p_header_checksum
        ∷ p.p_keynum
        ∷ (u32_bytes p.p_seq ++ p.p_data))

unfoldable pub of_memory : List ℕ → Packet
of_memory m = record {
  p_length = u32_at m 0;
  p_flag = byte_at m 4;
  p_data_checksum = byte_at m 5;
  p_header_checksum = byte_at m 6;
  p_keynum = byte_at m 7;
  p_seq = u32_at m 8;
  p_data = drop 12 m;
}

unfoldable pub has_flag : Packet → ℕ → Bool
has_flag p flag = not (bit_and p.p_flag flag == 0)

-- `(p_data[n] ^ key) - key` and `(p_data[n] + key) ^ key`, stored to a uint8_t.
pub encrypt_byte : ℕ → ℕ → ℕ
encrypt_byte key b = u8 (bit_xor b key + 256 - key)

pub decrypt_byte : ℕ → ℕ → ℕ
decrypt_byte key b = u8 (bit_xor (b + key) key)

-- The loops over the first `n` bytes of the data.
unfoldable pub encrypt : ℕ → ℕ → List ℕ → List ℕ
encrypt key n bytes = map (encrypt_byte key) (take n bytes) ++ drop n bytes

unfoldable pub decrypt : ℕ → ℕ → List ℕ → List ℕ
decrypt key n bytes = map (decrypt_byte key) (take n bytes) ++ drop n bytes

-- `cksum += byte` on a uint8_t, from the value `acc` on.
pub add_bytes : ℕ → List ℕ → ℕ
add_bytes acc [] = acc
add_bytes acc (b ∷ bs) = add_bytes (u8 (acc + b)) bs

pub header_checksum_ok : Packet → Bool
unfolding add_bytes to_bytes
header_checksum_ok p =
    u8 (add_bytes 0 (take 11 (to_bytes p)) + 256 - p.p_header_checksum) == p.p_header_checksum

-- On the decrypted packet.
pub data_checksum_ok : ℕ → Packet → Bool
unfolding add_bytes to_bytes
data_checksum_ok key p =
    let cksum = add_bytes 0 (take p.p_length (to_bytes p)) in
    let cksum = u8 (cksum + key) in
    let cksum = u8 (cksum + 256 - p.p_header_checksum) in
    u8 (cksum + 256 - p.p_data_checksum) == p.p_data_checksum

-- The first part of `ROMConnection::ChecksumAndSend`, up to the write.
unfoldable pub checksum_and_encrypt : ℕ → Packet → Packet
unfolding add_bytes to_bytes encrypt
checksum_and_encrypt key p =
    let cleared = record p { p_header_checksum = 0; p_data_checksum = 0 } in
    let hdr_cksum = add_bytes 0 (take 11 (to_bytes cleared)) in
    let data_cksum = u8 (add_bytes 0 (take p.p_length (to_bytes cleared)) + key) in
    record p {
      p_header_checksum = u8 (hdr_cksum + data_cksum);
      p_data_checksum = data_cksum;
      p_data = encrypt key (p.p_length - packet_size) p.p_data;
    }

-- The key byte that a packet names. `none` is a read past the end of `m_Key`.
unfoldable pub key_byte : List ℕ → Packet → Option ℕ
key_byte key p = if p.p_keynum == 255 then some 8 else get_elem? key p.p_keynum

-- The cast gives back each field in the range of its type, and the packet's length is that of its
-- header and data.
pub record IsFramed (p : Packet) : Type 0 where
  pub framed : p.p_length ≡ packet_size + length p.p_data
  pub length_fits : p.p_length < 2 ^ 32
  pub seq_fits : p.p_seq < 2 ^ 32
  pub flag_byte : IsByte p.p_flag
  pub keynum_byte : IsByte p.p_keynum
  pub data_bytes : All IsByte p.p_data
