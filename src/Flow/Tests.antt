-- ===== src/Flow/Tests.antt =====
-- A flow of two packets, and the theorems on flows at concrete inputs.
use openrom.Base.{ℕ, ◌≤◌, ◌≡◌, refl, arith, [], ◌∷◌, true, false, some, length}
use openrom.Packet.{Packet, has_flag}
use openrom.Flow.{
  Flow, comes_back, append, analyze_flow, analyzed, Endpoints, endpoints_less, same_address,
  address_less,
}
use openrom.Flow.Growth.{append_lem}
use openrom.Flow.Order.{endpoints_less-irreflexive}
use openrom.Flow.Cutting.{IsPlausible, stream, numbered_from, analyze_flow-stream}

abbrev hello : Packet
hello = record {
  p_length = 13;
  p_flag = 2;
  p_data_checksum = 0;
  p_header_checksum = 0;
  p_keynum = 0;
  p_seq = 1;
  p_data = 65 ∷ [];
}

hello-IsPlausible : IsPlausible false hello
unfolding comes_back has_flag
hello-IsPlausible = record {
  packet_framed = record {
    framed = refl;
    length_fits = omega arith;
    seq_fits = omega arith;
    flag_byte = omega arith;
    keynum_byte = omega arith;
    data_bytes = (omega arith, tt);
  };
  packet_small = omega arith;
  packet_back = refl;
}

abbrev two_packets : Flow
two_packets = record {
  bytes = stream (hello ∷ hello ∷ []) (13 ∷ 0 ∷ []);
  buffer_size = 64;
  current_data_offset = 0;
}

analyze_flow-stream_example :
    analyze_flow false two_packets 5
    ≡ analyzed (numbered_from 5 (hello ∷ hello ∷ [])) (13 ∷ 0 ∷ []) 7
analyze_flow-stream_example =
    analyze_flow-stream false two_packets 5 (hello ∷ hello ∷ []) (13 ∷ 0 ∷ [])
      (hello-IsPlausible, (hello-IsPlausible, tt)) (omega arith) refl

abbrev small : Flow
small = record { bytes = 1 ∷ 2 ∷ 3 ∷ []; buffer_size = 4; current_data_offset = 0 }

append_lem_example :
    (flow' : Flow) × (append small (4 ∷ 5 ∷ []) ≡ some flow')
    × (flow'.bytes ≡ 1 ∷ 2 ∷ 3 ∷ 4 ∷ 5 ∷ [])
    × (length flow'.bytes ≤ flow'.buffer_size)
append_lem_example = append_lem small (4 ∷ 5 ∷ []) (omega arith) (omega arith)

abbrev between : ℕ → ℕ → Endpoints
between a b = record {
  source = record { address = a; port = 80 };
  dest = record { address = b; port = 80 };
}

first_less : endpoints_less (between 1 2) (between 1 3) ≡ true
unfolding endpoints_less same_address address_less
first_less = refl

second_less : endpoints_less (between 1 3) (between 2 1) ≡ true
unfolding endpoints_less same_address address_less
second_less = refl

not_less_itself : endpoints_less (between 1 2) (between 1 2) ≡ false
not_less_itself = endpoints_less-irreflexive (between 1 2)

-- A key of one byte ends the program.
abbrev short_key : Packet
short_key = record hello { p_flag = 1 }

short_key_ends : comes_back true short_key ≡ false
unfolding comes_back has_flag
short_key_ends = refl
