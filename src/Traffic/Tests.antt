-- ===== src/Traffic/Tests.antt =====
-- The packet of Connection/Tests, as romdump sees it.
use openrom.Base.{◌≡◌, refl, arith, [], ◌∷◌, true, false, some}
use openrom.Packet.{Packet, IsFramed, checksum_and_encrypt, key_byte}
use openrom.Connection.{receive}
use openrom.Connection.Tests.{host, key, two_bytes, two_bytes-IsFramed, receiver}
use openrom.Traffic.{RomState, Options, Examined, examine}
use openrom.Traffic.Checks.{as_examined, receive-examine, examine-sealed}

abbrev state : RomState
state = record { key = key; have_key = true }

abbrev clear : Packet
clear = record two_bytes { p_flag = 2; p_seq = 1; p_keynum = 0 }

clear-IsFramed : IsFramed clear
clear-IsFramed = record {
  framed = refl;
  length_fits = omega arith;
  seq_fits = omega arith;
  flag_byte = omega arith;
  keynum_byte = omega arith;
  data_bytes = two_bytes-IsFramed.data_bytes;
}

abbrev wire : Packet
wire = checksum_and_encrypt 11 clear

receive-examine_example :
    receive host receiver wire [] ≡ as_examined host receiver wire [] (examine state wire)
unfolding checksum_and_encrypt
receive-examine_example = receive-examine host receiver state wire [] refl refl refl

examine-sealed_example :
    (x : Examined) × (examine state (checksum_and_encrypt 11 clear) ≡ some x)
    × (x.packet.p_data ≡ 200 ∷ 7 ∷ [])
    × (x.packet.p_length ≡ 14)
    × (x.header_ok ≡ true)
    × (x.data_ok ≡ true)
unfolding key_byte
examine-sealed_example = examine-sealed state 11 clear clear-IsFramed refl refl (omega arith)

abbrev options : Options
options = record {
  show_keepalive = false;
  hexdump = false;
  display_key = true;
  skip_unknown = false;
  hide_types = [];
  show_types = [];
}
