-- ===== src/Packet/Tamper.antt =====
-- What the data checksum of lib/romconnection.cc detects.
use openrom.Base.{
  ℕ, suc, ◌+◌, ◌-◌, ◌%◌, ◌≡◌, ◌≢◌, refl, sym, ap, ◌∙◌, arith, List, true, false, length, map, subst,
  ◌++◌, [], ◌∷◌, Bool-cases, inl, inr, take_all, drop_all, append-nil, length-map,
}
use mathlib.Core.List.{map-append}
use openrom.Packet.{
  Packet, IsByte, packet_size, data_checksum_ok, decrypt, decrypt_byte, encrypt_byte,
}
use openrom.Packet.Layout.{with_data}
use openrom.Packet.Cipher.{encrypt_byte-decrypt_byte, decrypt_byte-lt}
use openrom.Packet.Checksum.{sum, packet_sum, data_checksum_ok_iff}
use openrom.Packet.Sealing.{opened}

sum-append : (xs ys : List ℕ) → sum (xs ++ ys) ≡ sum xs + sum ys
unfolding sum
sum-append [] ys = omega arith
sum-append (x ∷ xs) ys = omega (arith, sum-append xs ys)

-- The sum of a packet is that of its header and of its data.
packet_sum-with_data :
    (p : Packet) (bytes : List ℕ)
    → packet_sum (with_data p bytes) ≡ packet_sum (with_data p []) + sum bytes
unfolding packet_sum
packet_sum-with_data p bytes = omega arith

decrypt_all :
    (key n : ℕ) (bytes : List ℕ)
    → n ≡ length bytes
    → decrypt key n bytes ≡ map (decrypt_byte key) bytes
unfolding decrypt
decrypt_all key n bytes e =
    rw (take_all n bytes (omega arith), drop_all n bytes (omega arith), append-nil)

sum-decrypted :
    (key b : ℕ) (front back : List ℕ)
    → sum (map (decrypt_byte key) (front ++ (b ∷ back)))
      ≡ sum (map (decrypt_byte key) front) + decrypt_byte key b + sum (map (decrypt_byte key) back)
unfolding sum
sum-decrypted key b front back =
    rw (map-append (decrypt_byte key) front (b ∷ back))
      (omega (arith, sum-append (map (decrypt_byte key) front) (map (decrypt_byte key) (b ∷ back))))

decrypt_byte-injective :
    (key a b : ℕ)
    → IsByte key
    → IsByte a
    → IsByte b
    → decrypt_byte key a ≡ decrypt_byte key b
    → a ≡ b
decrypt_byte-injective key a b hk ha hb e =
    sym (encrypt_byte-decrypt_byte key a hk ha)
    ∙ ap (encrypt_byte key) e
    ∙ encrypt_byte-decrypt_byte key b hk hb

-- The data check of a received packet, with one byte of its data singled out.
data_check_at :
    (key b : ℕ) (front back : List ℕ) (q : Packet)
    → q.p_length ≡ packet_size + length (front ++ (b ∷ back))
    → IsByte q.p_header_checksum
    → IsByte q.p_data_checksum
    → data_checksum_ok key (opened key (with_data q (front ++ (b ∷ back)))) ≡ true
    → q.p_data_checksum
      ≡ (packet_sum (with_data q [])
          + sum (map (decrypt_byte key) front)
          + decrypt_byte key b
          + sum (map (decrypt_byte key) back)
          + key)
        % 256
unfolding opened
data_check_at key b front back q e hh hd accepted =
    (data_checksum_ok_iff key (with_data q plain) (omega (arith, length-plain)) hh hd).0
      (subst (λ bytes. data_checksum_ok key (with_data q bytes) ≡ true) decrypted accepted)
    ∙ omega (arith, packet_sum-with_data q plain, sum-decrypted key b front back)
  where
    plain : List ℕ
    plain = map (decrypt_byte key) (front ++ (b ∷ back))

    length-plain : length plain ≡ length (front ++ (b ∷ back))
    length-plain = length-map (decrypt_byte key) (front ++ (b ∷ back))

    decrypted : decrypt key (q.p_length - packet_size) (front ++ (b ∷ back)) ≡ plain
    decrypted = decrypt_all key (q.p_length - packet_size) (front ++ (b ∷ back)) (omega (arith, e))

length-middle :
    (b c : ℕ) (front back : List ℕ) → length (front ++ (b ∷ back)) ≡ length (front ++ (c ∷ back))
length-middle b c [] back = refl
length-middle b c (x ∷ front) back = ap suc (length-middle b c front back)

-- If a packet of the length that its header counts passes the data check after decryption, the packet in which exactly one byte
-- of the encrypted data was replaced by another byte fails it.
pub one_byte_detected :
    (key a b : ℕ) (front back : List ℕ) (q : Packet)
    → IsByte key
    → IsByte a
    → IsByte b
    → a ≢ b
    → q.p_length ≡ packet_size + length (front ++ (a ∷ back))
    → IsByte q.p_header_checksum
    → IsByte q.p_data_checksum
    → data_checksum_ok key (opened key (with_data q (front ++ (a ∷ back)))) ≡ true
    → data_checksum_ok key (opened key (with_data q (front ++ (b ∷ back)))) ≡ false
one_byte_detected key a b front back q hk ha hb ne e hh hd accepted =
    elim (Bool-cases (data_checksum_ok key (opened key (with_data q (front ++ (b ∷ back)))))) [
      | inr rejected ↦ rejected
      | inl also ↦ absurd (ne (decrypt_byte-injective key a b hk ha hb (same_sum also)))
    ]
  where
    same_sum :
        data_checksum_ok key (opened key (with_data q (front ++ (b ∷ back)))) ≡ true
        → decrypt_byte key a ≡ decrypt_byte key b
    same_sum also = omega (
      arith,
      data_check_at key a front back q e hh hd accepted,
      data_check_at key b front back q (omega (arith, e, length-middle a b front back)) hh hd also,
      decrypt_byte-lt key a,
      decrypt_byte-lt key b,
    )
