-- ===== src/PacketLog/Tests.antt =====
-- The log of two packets, written to a list of bytes.
use openrom.Base.{ℕ, ◌≡◌, refl, arith, List, [], ◌∷◌, ◌++◌, map, false, Option, some, length}
use openrom.Packet.{Packet, IsFramed}
use openrom.PacketLog.{Address, read_log, log_version, write_header}
use openrom.PacketLog.RoundTrip.{Appends, IsAddress, write_packets, as_read, read_log-write_packets}

abbrev append : List ℕ → List ℕ → List ℕ × Option ℕ
append bytes file = (file ++ bytes, some (length bytes))

append-Appends : Appends append (λ s. s)
append-Appends = record { appended = λ bytes s. refl; answered = λ bytes s. refl }

abbrev client : Address
client = record { address = 0x7f000001; port = 16402 }

abbrev server : Address
server = record { address = 0xc0a80001; port = 21002 }

client-IsAddress : IsAddress client
client-IsAddress = record { address_fits = omega arith; port_fits = omega arith }

server-IsAddress : IsAddress server
server-IsAddress = record { address_fits = omega arith; port_fits = omega arith }

abbrev hello : Packet
hello = record {
  p_length = 13;
  p_flag = 2;
  p_data_checksum = 0;
  p_header_checksum = 0;
  p_keynum = 0;
  p_seq = 1;
  p_data = 65 ∷ [];
}

hello-IsFramed : IsFramed hello
hello-IsFramed = record {
  framed = refl;
  length_fits = omega arith;
  seq_fits = omega arith;
  flag_byte = omega arith;
  keynum_byte = omega arith;
  data_bytes = (omega arith, tt);
}

abbrev session : List (Address × Address × Packet)
session = (client, server, hello) ∷ (server, client, hello) ∷ []

-- Addresses whose bytes a file of the first version holds, without the second length.
version_1_file : log_version (0x52 ∷ 0x6f ∷ 0x4d ∷ 0x21 ∷ []) ≡ some false
unfolding log_version
version_1_file = refl

read_log-write_packets_example :
    read_log (write_packets append session (write_header append []).1) ≡ some (map as_read session)
read_log-write_packets_example =
    read_log-write_packets append (λ s. s) append-Appends session []
      (
        record {
          source_fits = client-IsAddress;
          dest_fits = server-IsAddress;
          packet_framed = hello-IsFramed;
          packet_small = omega arith;
        },
        (
          record {
            source_fits = server-IsAddress;
            dest_fits = client-IsAddress;
            packet_framed = hello-IsFramed;
            packet_small = omega arith;
          },
          tt,
        ),
      )
      refl
