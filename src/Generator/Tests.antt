-- ===== src/Generator/Tests.antt =====
-- A packet with a fixed number, a length and a row of bytes, and its subpackets.
use openrom.Base.{ℕ, ◌≡◌, ◌<◌, ◌^◌, refl, arith, List, [], ◌∷◌, All, Option, some, none, false}
use openrom.Decode.{pos, negsuc}
use openrom.Definition.{
  TypeDef, name_of, scalar, number, length_field, string, decimal, ActionList, done, field,
  PacketDef, server,
}
use openrom.Definition.Fields.{constant_scalar}
use openrom.Definition.Structs.{constant_type}
use openrom.Generator.{
  Line, print, text, code, joined, fields, generate_initializers, generate_fields, total_size,
  c_initialize, c_initialize_number, is_one, both, initializer, number_format, find_length,
  transformed,
}
use openrom.Generator.Scope.{Among, PlainField, AssignsMember, generate_initializers-AssignsMember}
use openrom.Generator.Sizes.{
  header_types, declared_size, IsSized, sum_sizes, size_of_name, declared_size-total_size,
}
use openrom.Generator.Classes.{generate_packets, generate_parser_class}
use openrom.Generator.Recognition.{
  generate_parser, recognize_packets, match_condition, recognize_packet, add_comparison,
  recognize_subpackets, recognize_subpacket, handle_subpacket, subpacket_length_check,
  has_known_size, packet_length_check, handle_if_plain, is_packed, all_constant, comparison,
}
use openrom.Generator.Calls.{called}
use openrom.Generator.Handlers.{opened, handled, generate_parser-Declared}

abbrev u16 : Option ℕ → TypeDef
u16 fixed = scalar "u16" (
    number (record {
      width = 2;
      signed = false;
      enumeration = none;
      annotation = none;
      fixed_value = fixed;
      count = pos 1;
      min_count = pos 1;
      display_count = negsuc 0;
      format = decimal;
    }))

abbrev name_type : TypeDef
name_type = scalar "string" (string (some (pos 32, pos 32)))

abbrev command : ActionList
command = field "cmd" (u16 (some 3)) (field "size" (scalar "length" length_field) done)

abbrev greeting : ActionList
greeting = field "kind" (u16 (some 7)) (field "name" name_type done)

abbrev hello : PacketDef
hello = record {
  name = "Hello";
  actions = command;
  subpackets = ("Greeting", greeting) ∷ [];
  source = server;
  num_packet_bytes = 6;
}

abbrev assigned : List Line
assigned =
    print "\tm_Packet.%s%s = %s;\n" (text "m_" ∷ (text "kind" ∷ (code (("%d", 7) ∷ []) ∷ []))) ∷ []

greeting_code : generate_initializers "m_" (fields greeting) ≡ some assigned
unfolding generate_initializers fields c_initialize c_initialize_number is_one both initializer
    number_format
greeting_code = refl

greeting_plain : All PlainField (fields greeting)
unfolding fields
greeting_plain = (tt, (tt, tt))

generate_initializers-AssignsMember_example :
    All (AssignsMember (pos 0) "m_" (fields greeting)) assigned
generate_initializers-AssignsMember_example =
    generate_initializers-AssignsMember (pos 0) "m_" (fields greeting) assigned greeting_plain
      greeting_code

abbrev parser_of : List PacketDef → List Line
parser_of ps = elim (generate_parser ps) [ none ↦ [] | some out ↦ out ]

hello_parser : generate_parser (hello ∷ []) ≡ some (parser_of (hello ∷ []))
unfolding generate_parser both recognize_packets match_condition fields c_initialize
    c_initialize_number is_one recognize_packet add_comparison recognize_subpackets
hello_parser = refl

generate_parser-Declared_example :
    All
      (λ v. Among v (opened (generate_packets (pos 0) (hello ∷ []))))
      (called (parser_of (hello ∷ [])))
    × All
        (λ v. Among v (handled (generate_parser_class (hello ∷ []))))
        (called (parser_of (hello ∷ [])))
generate_parser-Declared_example =
    generate_parser-Declared (pos 0) (hello ∷ []) (parser_of (hello ∷ [])) hello_parser

-- Only the subpacket is handled.
hello_calls :
    called (parser_of (hello ∷ [])) ≡ joined "Hello" "Greeting" ∷ (joined "Hello" "Greeting" ∷ [])
unfolding generate_parser both recognize_packets match_condition fields c_initialize
    c_initialize_number is_one recognize_packet add_comparison recognize_subpackets called
    recognize_subpacket handle_subpacket subpacket_length_check has_known_size packet_length_check
    handle_if_plain find_length total_size constant_type constant_scalar is_packed all_constant
    comparison transformed name_of
hello_calls = refl

greeting-IsSized : All (IsSized header_types) (fields greeting)
unfolding fields constant_type size_of_name constant_scalar
greeting-IsSized = (
  record { is_named = u16_named; has_size = λ e. omega arith },
  (record { is_named = char_named; has_size = λ e. omega arith }, tt),
)
  where
    u16_named : size_of_name "u16" header_types ≡ some 2
    u16_named = refl

    char_named : size_of_name "char" header_types ≡ some 1
    char_named = refl

greeting_small : sum_sizes (fields greeting) < 2 ^ 32
unfolding sum_sizes fields constant_type constant_scalar
greeting_small = omega arith

declared_size-total_size_example :
    declared_size header_types (generate_fields (pos 0) "m_" (fields greeting))
    ≡ some (total_size (fields greeting))
declared_size-total_size_example =
    declared_size-total_size (pos 0) header_types "m_" (fields greeting) greeting-IsSized
      greeting_small
