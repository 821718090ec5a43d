-- ===== src/Packet/Tests.antt =====
-- The theorems on packets at concrete inputs, and a run of the checks of lib/romconnection.cc.
use openrom.Base.{◌≡◌, refl, [], ◌∷◌, ◌++◌, true, false, arith}
use openrom.Packet.{
  Packet, IsFramed, to_bytes, decrypt, decrypt_byte, add_bytes, header_checksum_ok,
  data_checksum_ok, checksum_and_encrypt,
}
use openrom.Packet.Layout.{with_data}
use openrom.Packet.Sealing.{opened, checksum_and_encrypt-accepted}
use openrom.Packet.Tamper.{one_byte_detected}

abbrev two_bytes : Packet
two_bytes = record {
  p_length = 14;
  p_flag = 2;
  p_data_checksum = 0;
  p_header_checksum = 0;
  p_keynum = 3;
  p_seq = 4;
  p_data = 200 ∷ 7 ∷ [];
}

two_bytes-IsFramed : IsFramed two_bytes
two_bytes-IsFramed = record {
  framed = refl;
  length_fits = omega arith;
  seq_fits = omega arith;
  flag_byte = omega arith;
  keynum_byte = omega arith;
  data_bytes = (omega arith, (omega arith, tt));
}

checksum_and_encrypt-accepted_example :
    (header_checksum_ok (checksum_and_encrypt 77 two_bytes) ≡ true)
    × (data_checksum_ok 77 (opened 77 (checksum_and_encrypt 77 two_bytes)) ≡ true)
checksum_and_encrypt-accepted_example =
    checksum_and_encrypt-accepted 77 two_bytes (omega arith) two_bytes-IsFramed

-- The data checksum that the packet carries when its data are encrypted under 8.
abbrev on_wire : Packet
on_wire = record two_bytes { p_data_checksum = 34; p_data = 1 ∷ 2 ∷ [] }

on_wire_accepted : data_checksum_ok 8 (opened 8 (with_data on_wire ((1 ∷ []) ++ (2 ∷ [])))) ≡ true
unfolding data_checksum_ok opened decrypt decrypt_byte add_bytes to_bytes
on_wire_accepted = refl

one_byte_detected_example :
    data_checksum_ok 8 (opened 8 (with_data on_wire ((1 ∷ []) ++ (3 ∷ [])))) ≡ false
one_byte_detected_example =
    one_byte_detected 8 2 3 (1 ∷ []) [] on_wire (omega arith) (omega arith) (omega arith)
      (ground arith) refl (omega arith) (omega arith) on_wire_accepted
