-- ===== src/Packet/Sealing.antt =====
-- What `ROMConnection::ChecksumAndSend` makes of a packet, seen from the receiver.
use openrom.Base.{
  ℕ, ◌+◌, ◌-◌, ◌%◌, ◌≡◌, refl, ap, ◌∙◌, arith, true, length, take, take_all, drop_all, append-nil,
  subst,
}
use openrom.Packet.{
  Packet, IsFramed, IsByte, packet_size, to_bytes, add_bytes, header_checksum_ok, data_checksum_ok,
  checksum_and_encrypt, encrypt, decrypt,
}
use openrom.Packet.Layout.{with_data}
use openrom.Packet.Cipher.{decrypt-encrypt, length-encrypt, encrypted-IsBytes}
use openrom.Packet.Checksum.{
  header_sum, packet_sum, header_checksum_ok_iff, data_checksum_ok_iff, cleared, header_bytes_sum,
  packet_bytes_sum,
}

-- The packet with both checksums set and its data in the clear.
unfoldable pub stamped : ℕ → Packet → Packet
stamped key p =
    let data_cksum = (packet_sum p + key) % 256 in
    record p { p_header_checksum = (header_sum p + data_cksum) % 256; p_data_checksum = data_cksum }

-- Decryption of the data, as the receiver does it in place.
unfoldable pub opened : ℕ → Packet → Packet
unfolding decrypt
opened key q = record q { p_data = decrypt key (q.p_length - packet_size) q.p_data }

pub checksum_and_encrypt_lem :
    (key : ℕ) (p : Packet)
    → p.p_length ≡ packet_size + length p.p_data
    → checksum_and_encrypt key p
      ≡ with_data (stamped key p) (encrypt key (length p.p_data) p.p_data)
unfolding checksum_and_encrypt stamped
checksum_and_encrypt_lem key p e =
    rw (header_part, packet_part, shorter)
      (λ i.
        with_data (record p { p_header_checksum = wrapped i; p_data_checksum = wrapped_data i })
          (encrypt key (length p.p_data) p.p_data))
  where
    header_part : add_bytes 0 (take 11 (to_bytes (cleared p))) ≡ header_sum p % 256
    header_part = header_bytes_sum (cleared p) ∙ (unfold header_sum in omega arith)

    packet_part : add_bytes 0 (take p.p_length (to_bytes (cleared p))) ≡ packet_sum p % 256
    packet_part = packet_bytes_sum (cleared p) e ∙ (unfold packet_sum in omega arith)

    shorter : p.p_length - packet_size ≡ length p.p_data
    shorter = omega arith

    wrapped_data : (packet_sum p % 256 + key) % 256 ≡ (packet_sum p + key) % 256
    wrapped_data = omega arith

    wrapped :
        (header_sum p % 256 + (packet_sum p % 256 + key) % 256) % 256
        ≡ (header_sum p + (packet_sum p + key) % 256) % 256
    wrapped = omega arith

data_length : (p : Packet) → IsFramed p → p.p_length - packet_size ≡ length p.p_data
data_length p f = omega (arith, f.framed)

-- Decryption under the byte that `ChecksumAndSend` encrypted a framed packet with gives back the
-- packet, with both checksums set.
pub opened-checksum_and_encrypt :
    (key : ℕ) (p : Packet)
    → IsByte key
    → IsFramed p
    → opened key (checksum_and_encrypt key p) ≡ stamped key p
unfolding opened
opened-checksum_and_encrypt key p hk f =
    rw (checksum_and_encrypt_lem key p f.framed)
      (unfold stamped in ap (with_data (stamped key p)) restored)
  where
    restored :
        decrypt key (p.p_length - packet_size) (encrypt key (length p.p_data) p.p_data) ≡ p.p_data
    restored =
        subst (λ n. decrypt key (p.p_length - packet_size) (encrypt key n p.p_data) ≡ p.p_data)
          (data_length p f)
          (decrypt-encrypt key (p.p_length - packet_size) p.p_data hk (data_length p f)
            f.data_bytes)

-- A framed packet that `ChecksumAndSend` sealed under a byte passes the receiver's header check as it is on the wire, and
-- its data check once it is decrypted.
pub checksum_and_encrypt-accepted :
    (key : ℕ) (p : Packet)
    → IsByte key
    → IsFramed p
    → (header_checksum_ok (checksum_and_encrypt key p) ≡ true)
      × (data_checksum_ok key (opened key (checksum_and_encrypt key p)) ≡ true)
unfolding stamped header_sum packet_sum
checksum_and_encrypt-accepted key p hk f = (
  rw (checksum_and_encrypt_lem key p f.framed) ((header_checksum_ok_iff _ (omega arith)).1 refl),
  rw (opened-checksum_and_encrypt key p hk f)
      ((data_checksum_ok_iff key _ f.framed (omega arith) (omega arith)).1 refl),
)

-- On the wire the packet is framed as it was.
pub checksum_and_encrypt-IsFramed :
    (key : ℕ) (p : Packet) → IsFramed p → IsFramed (checksum_and_encrypt key p)
unfolding stamped encrypt
checksum_and_encrypt-IsFramed key p f = rw (checksum_and_encrypt_lem key p f.framed) (record {
  framed = omega (arith, f.framed, length-encrypt key (length p.p_data) p.p_data);
  length_fits = f.length_fits;
  seq_fits = f.seq_fits;
  flag_byte = f.flag_byte;
  keynum_byte = f.keynum_byte;
  data_bytes =
      rw
        (
          take_all (length p.p_data) p.p_data (omega arith),
          drop_all (length p.p_data) p.p_data (omega arith),
          append-nil,
        )
        (encrypted-IsBytes key p.p_data);
})
