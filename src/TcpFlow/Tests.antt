-- ===== src/TcpFlow/Tests.antt =====
-- A packet of five bytes as tcpflow prints it, and a line with the addresses of its ends.
use openrom.Base.{◌≤◌, ◌≡◌, refl, arith, [], ◌∷◌, length}
use openrom.Text.{c_string}
use openrom.TcpFlow.{
  parse_flow_packet, parsed, parse_flow_header, addresses, parse_ipv4_address, parse_part, past_dot,
  strtoul_end, is_digit, past_prefix, past_sign, skip_space, fgets, is_white, digit_value,
  read_digits, parse_dest, ends_in_colon, ipv4, unsigned_long,
}
use openrom.TcpFlow.Groups.{two, one, groups_text, group_text, groups_bytes, group_bytes, hex_digit}
use openrom.TcpFlow.Dump.{
  Row, IsRow, row_text, packet_text, packet_bytes, parse_flow_packet-packet_text,
}

-- `0000: 0d00 41 ..A`
abbrev first : Row
first = record {
  offset_0 = 48;
  offset_1 = 48;
  offset_2 = 48;
  offset_3 = 48;
  groups = two 13 0 ∷ (one 65 ∷ []);
  text = 46 ∷ (46 ∷ (65 ∷ []));
}

first-IsRow : IsRow first
unfolding row_text groups_text group_text hex_digit
first-IsRow = record {
  all_printed = omega arith;
  line_fits = omega arith;
  all_bytes = ((omega arith, omega arith), (omega arith, tt));
}

first_fits : length (packet_bytes (first ∷ [])) ≤ 131072
unfolding packet_bytes groups_bytes group_bytes
first_fits = omega arith

parse_flow_packet-packet_text_example :
    parse_flow_packet (packet_text (first ∷ []) (49 ∷ [])) 131072
    ≡ parsed (packet_bytes (first ∷ [])) (49 ∷ [])
parse_flow_packet-packet_text_example =
    parse_flow_packet-packet_text (first ∷ []) (49 ∷ []) 131072 (first-IsRow, tt) first_fits

-- `1.2.3.4.80-10.0.0.1.443:`
flow_header_line :
    parse_flow_header (
      49
      ∷ (46
          ∷ (50
              ∷ (46
                  ∷ (51
                      ∷ (46
                          ∷ (52
                              ∷ (46
                                  ∷ (56
                                      ∷ (48
                                          ∷ (45
                                              ∷ (49
                                                  ∷ (48
                                                      ∷ (46
                                                          ∷ (48
                                                            ∷ (46
                                                            ∷ (48
                                                            ∷ (46
                                                            ∷ (49
                                                            ∷ (46
                                                            ∷ (52
                                                            ∷ (52
                                                            ∷ (51
                                                            ∷ (58
                                                            ∷ (10
                                                            ∷ (7 ∷ []))))))))))))))))))))))))))
    ≡ addresses
        (record { address = 0x01020304; port = 80 })
        (record { address = 0x0a000001; port = 443 })
        (7 ∷ [])
unfolding parse_flow_header parse_ipv4_address parse_part past_dot strtoul_end is_digit past_prefix
    past_sign skip_space c_string fgets is_white digit_value read_digits parse_dest ends_in_colon
    ipv4 unsigned_long
flow_header_line = refl
