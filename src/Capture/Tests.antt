-- ===== src/Capture/Tests.antt =====
-- Two connections whose packets are mixed in a capture.
use openrom.Base.{
  ℕ, ◌≤◌, ◌≡◌, ◌^◌, refl, inl, inr, arith, true, false, List, [], ◌∷◌, ◌++◌, map, some, none,
  length, Bool-cases, Option,
}
use openrom.Packet.{Packet, IsFramed, to_bytes, of_memory, has_flag}
use openrom.PacketLog.{Address, write_header}
use openrom.PacketLog.RoundTrip.{IsAddress, IsLoggable, Appends, write_packets}
use openrom.Flow.{Endpoints, comes_back, endpoints_less}
use openrom.Capture.{Capture, Call, same_connection, between, dump, start, leftovers, dump_log}
use openrom.Capture.Splitting.{Splits, Whole, waits, next}
use openrom.Capture.Passes.{waiting}
use openrom.Capture.Calls.{packets_of, Consecutive}
use openrom.Capture.Flows.{flow_of, same_connection_eq}
use openrom.Capture.Logged.{total, logged_calls, dump_log-write_packets}
use openrom.Capture.Demux.{Chunk, data_of, CanSplit, dump-Demuxed}

abbrev client : Address
client = record { address = 0x7f000001; port = 16402 }

abbrev server : Address
server = record { address = 0xc0a80001; port = 21002 }

-- A packet of thirteen bytes comes in two parts, and a header without its last byte between them.
abbrev mixed : List Chunk
mixed =
    (server, client, 13 ∷ 0 ∷ 0 ∷ 0 ∷ 2 ∷ [])
    ∷ ((client, server, 12 ∷ 0 ∷ 0 ∷ 0 ∷ 2 ∷ 0 ∷ 0 ∷ 0 ∷ 0 ∷ 0 ∷ 0 ∷ [])
        ∷ ((server, client, 0 ∷ 0 ∷ 0 ∷ 0 ∷ 0 ∷ 0 ∷ 0 ∷ 65 ∷ 99 ∷ []) ∷ []))

data_short : (e : Endpoints) → length (data_of e mixed) ≤ 2 ^ 31
unfolding data_of
data_short e = ground arith

abbrev down : List ℕ
down = 13 ∷ 0 ∷ 0 ∷ 0 ∷ 2 ∷ 0 ∷ 0 ∷ 0 ∷ 0 ∷ 0 ∷ 0 ∷ 0 ∷ 65 ∷ 99 ∷ []

down-Whole : Whole false down
unfolding comes_back has_flag of_memory
down-Whole = record {
  is_cut = record {
    has_header = omega arith;
    not_huge = omega arith;
    not_tiny = omega arith;
    is_there = omega arith;
  };
  back = refl;
}

data_splits : (e : Endpoints) → CanSplit false (data_of e mixed)
unfolding data_of
data_splits e = elim (Bool-cases (same_connection (between server client) e)) [
  | inl from_server ↦ elim (Bool-cases (same_connection (between client server) e)) [
    | inl up ↦ absurd (
        ground (
          arith,
          same_connection_eq (between server client) e from_server,
          same_connection_eq (between client server) e up,
        ))
    | inr n ↦ rw (from_server, n) (_, _, next down-Whole (waits (inl (omega arith))))
  ]
  | inr n ↦ elim (Bool-cases (same_connection (between client server) e)) [
    | inl up ↦ rw (n, up) (_, _, waits (inl (omega arith)))
    | inr m ↦ rw (n, m) (_, _, waits (inl (omega arith)))
  ]
]

dump-Demuxed_example :
    (c' : Capture) × (calls : List Call) × (dump false mixed start ≡ some (c', calls))
    × ((e : Endpoints)
        → Splits false (data_of e mixed) (packets_of e calls) (waiting (flow_of e c'.flows)))
    × Consecutive 1 calls c'.sequence
dump-Demuxed_example =
    dump-Demuxed false mixed (omega arith, (omega arith, (omega arith, tt))) data_short data_splits

-- The packets that go to AnalyzePacket, and how many bytes are left in each flow.
abbrev seen : Option (Capture × List Call) → List (List ℕ) × List ℕ
seen none = ([], [])
seen (some (c, calls)) = (
  map (λ (k : Call). k.bytes) calls,
  map (λ (l : Endpoints × ℕ × Option ℕ). l.1) (leftovers c.flows),
)

seen-dump :
    seen (dump false mixed start)
    ≡ ((13 ∷ 0 ∷ 0 ∷ 0 ∷ 2 ∷ 0 ∷ 0 ∷ 0 ∷ 0 ∷ 0 ∷ 0 ∷ 0 ∷ 65 ∷ []) ∷ [], 11 ∷ 1 ∷ [])
unfolding dump leftovers same_connection endpoints_less comes_back has_flag of_memory
seen-dump = refl

-- A log of two packets on a file that takes all bytes.
abbrev append : List ℕ → List ℕ → List ℕ × Option ℕ
append bytes file = (file ++ bytes, some (length bytes))

append-Appends : Appends append (λ s. s)
append-Appends = record { appended = λ bytes s. refl; answered = λ bytes s. refl }

abbrev hello : Packet
hello = record {
  p_length = 13;
  p_flag = 2;
  p_data_checksum = 0;
  p_header_checksum = 0;
  p_keynum = 0;
  p_seq = 1;
  p_data = 65 ∷ [];
}

abbrev session : List (Address × Address × Packet)
session = (client, server, hello) ∷ ((server, client, hello) ∷ [])

ends-IsAddress : IsAddress client × IsAddress server
ends-IsAddress = (
  record { address_fits = omega arith; port_fits = omega arith },
  record { address_fits = omega arith; port_fits = omega arith },
)

hello-IsFramed : IsFramed hello
hello-IsFramed = record {
  framed = refl;
  length_fits = omega arith;
  seq_fits = omega arith;
  flag_byte = omega arith;
  keynum_byte = omega arith;
  data_bytes = (omega arith, tt);
}

logged :
    (source dest : Address) → IsAddress source → IsAddress dest → IsLoggable (source, dest, hello)
logged source dest s d = record {
  source_fits = s;
  dest_fits = d;
  packet_framed = hello-IsFramed;
  packet_small = omega arith;
}

session_total : total session ≤ 2 ^ 31
unfolding total to_bytes
session_total = omega arith

session_back : comes_back false hello ≡ true
unfolding comes_back has_flag
session_back = refl

dump_log-write_packets_example :
    (c' : Capture) × (dump_log false (write_packets append session (write_header append []).1)
      ≡ some (c', logged_calls 1 session))
    × ((e : Endpoints) → waiting (flow_of e c'.flows) ≡ [])
dump_log-write_packets_example =
    dump_log-write_packets false append (λ s. s) append-Appends session []
      (
        logged client server ends-IsAddress.0 ends-IsAddress.1,
        (logged server client ends-IsAddress.1 ends-IsAddress.0, tt),
      )
      (session_back, (session_back, tt)) session_total refl
