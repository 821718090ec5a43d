-- ===== src/Generator/Recognition.antt =====
-- `GenerateMatchCondition` and `GenerateParser` of lib/protocolcodegenerator.cc: the function that
-- tells the packets apart.
use openrom.Base.{
  List, [], ◌∷◌, ◌++◌, Bool, true, false, Option, none, some, ltb, ◌==◌, ◌&&◌, not, ℕ,
  if◌then◌else◌,
}
use openrom.Definition.{TypeDef, PacketDef, ActionList}
use openrom.Definition.Structs.{constant_type}
use openrom.Generator.{
  Line, print, Value, text, joined, unsigned, code, fields, transformed, find_length, total_size,
  c_initialize, both,
}
use Prim.Native.String.{String}

abbrev say : String → Line
say s = print s []

-- A comparison of a member of a class.
unfoldable pub comparison : Value → String → List (String × ℕ) → Line
comparison c name value =
    print "((struct %s::Packet*)pData)->m_%s == %s" (c ∷ (text name ∷ (code value ∷ [])))

-- A comparison behind the others.
unfoldable pub add_comparison : List Line → Line → List Line
add_comparison [] l = l ∷ []
add_comparison (b ∷ bs) l = (b ∷ bs) ++ (say " && " ∷ (l ∷ []))

-- `GenerateMatchCondition`: the parts of its output, or none for a failed assertion. It answers
-- whether there are any. `before` are those that are there already.
unfoldable pub match_condition : Value → List (String × TypeDef) → List Line → Option (List Line)
match_condition c [] before = some before
match_condition c ((name, t) ∷ fs) before = elim (c_initialize t) [
  | none ↦ none
  | some [] ↦ match_condition c fs before
  | some (v ∷ vs) ↦ match_condition c fs (add_comparison before (comparison c name (v ∷ vs)))
]

-- The construction of a packet's class, and the call of its function.
unfoldable pub handle_packet : Value → List Line
handle_packet c =
    print "\t\t%s oRequest(pData, iDataLength);\n" (c ∷ [])
    ∷ (print "\t\tOn%s(oRequest);\n" (c ∷ []) ∷ (say "\t\treturn true;\n" ∷ []))

unfoldable pub handle_subpacket : Value → List Line
handle_subpacket c =
    print "\t\t\t%s oRequest(pData, iDataLength);\n" (c ∷ [])
    ∷ (print "\t\t\tOn%s(oRequest);\n" (c ∷ [])
        ∷ (say "\t\t\treturn true;\n" ∷ (say "\t\t}\n" ∷ [])))

-- The check of a packet's length, with the member that holds the length of the rest.
unfoldable pub packet_length_check : Value → ℕ → Option String → List Line
packet_length_check c len length_name = if len == 0 then [] else elim length_name [
  | none ↦
      print
        "((struct %s::Packet*)pData)->m_header.p_length %s sizeof(struct ROM::Packet) + 0x%x && "
        (c ∷ (text "==" ∷ (unsigned len ∷ [])))
      ∷ []
  | some l ↦
      print
        "((struct %s::Packet*)pData)->m_header.p_length %s sizeof(struct ROM::Packet) + 0x%x && "
        (c ∷ (text ">=" ∷ (unsigned len ∷ [])))
      ∷ (print
            "((struct %s::Packet*)pData)->m_header.p_length == ((struct %s::Packet*)pData)->m_%s + sizeof(struct ROM::Packet) + 0x%x &&"
            (c ∷ (c ∷ (text l ∷ (unsigned len ∷ []))))
          ∷ [])
]

unfoldable pub all_constant : List (String × TypeDef) → Bool
all_constant [] = true
all_constant ((name, t) ∷ fs) = not (constant_type t == 0) && all_constant fs

unfoldable pub is_packed : ActionList → Bool
is_packed actions = elim (transformed actions) [ none ↦ false | some t ↦ true ]

-- Whether the length of a subpacket can be checked.
unfoldable pub has_known_size : ActionList → Bool
has_known_size actions =
    ltb 0 (total_size (fields actions))
    && (not (is_packed actions) && all_constant (fields actions))

unfoldable pub subpacket_length_check : Value → ActionList → Option String → List Line
subpacket_length_check c actions none = []
subpacket_length_check c actions (some l) =
    if has_known_size actions
    then print "((struct %s::Packet*)pData)->m_packet_%s == 0x%x && "
        (c ∷ (text l ∷ (unsigned (total_size (fields actions)) ∷ [])))
      ∷ []
    else []

-- One subpacket. What was formatted for the condition is printed with what is behind it.
unfoldable pub recognize_subpacket :
    String → Option String → String → ActionList → List Line → List Line
recognize_subpacket p length_name name actions [] = []
recognize_subpacket p length_name name actions (l ∷ ls) =
    say "\t\tif ("
    ∷ (subpacket_length_check (joined p name) actions length_name
        ++ ((l ∷ ls) ++ (say ") {\n" ∷ handle_subpacket (joined p name))))

unfoldable pub recognize_subpackets :
    String → Option String → List (String × ActionList) → Option (List Line)
recognize_subpackets p length_name [] = some []
recognize_subpackets p length_name ((name, actions) ∷ ss) =
    elim (match_condition (joined p name) (fields actions) []) [
      | none ↦ none
      | some ls ↦
          both (some (recognize_subpacket p length_name name actions ls))
            (recognize_subpackets p length_name ss)
    ]

-- A packet without subpackets is handled at once.
unfoldable pub handle_if_plain : PacketDef → List Line
handle_if_plain p = elim p.subpackets [ [] ↦ handle_packet (text p.name) | _ ↦ [] ]

unfoldable pub recognize_packet : PacketDef → List Line → Option (List Line)
recognize_packet p [] = some []
recognize_packet p (l ∷ ls) =
    let length_name = find_length (fields p.actions) in
    both
      (some (
        say "\tif ("
        ∷ (packet_length_check (text p.name) (total_size (fields p.actions)) length_name
            ++ ((l ∷ ls) ++ (say ") {\n" ∷ handle_if_plain p)))))
      (both (recognize_subpackets p.name length_name p.subpackets) (some (say "\t}\n" ∷ [])))

unfoldable pub recognize_packets : List PacketDef → Option (List Line)
recognize_packets [] = some []
recognize_packets (p ∷ ps) = elim (match_condition (text p.name) (fields p.actions) []) [
  | none ↦ none
  | some ls ↦ both (recognize_packet p ls) (recognize_packets ps)
]

-- `GenerateParser`
unfoldable pub generate_parser : List PacketDef → Option (List Line)
generate_parser ps =
    both
      (some (
        say "bool\n"
        ∷ (say "Parser::Process(char* pData, int iDataLength)\n"
            ∷ (say "{\n"
                ∷ (say "\tif (iDataLength < (int)sizeof(ROM::Packet))\n"
                    ∷ (say "\t\treturn false;\n"
                        ∷ (say "\tif (((struct ROM::Packet*)pData)->p_length != iDataLength)\n"
                            ∷ (say "\t\treturn false;\n" ∷ []))))))))
      (both (recognize_packets ps)
        (some (say "\treturn false; /* what's this? */\n" ∷ (say "}\n" ∷ []))))
