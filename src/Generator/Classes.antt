-- ===== src/Generator/Classes.antt =====
-- `GeneratePackets` and `GenerateParserClass` of lib/protocolcodegenerator.cc: the classes of the
-- header.
use openrom.Base.{List, [], ◌∷◌, ◌++◌, Option, none, some}
use openrom.Definition.{TypeDef, name_of, PacketDef, ActionList}
use openrom.Generator.{
  Line, print, Value, text, fields, transformed, generate_changers, generate_fields,
}
use openrom.Decode.{ℤ}
use Prim.Native.String.{String}

-- A line without arguments.
abbrev say : String → Line
say s = print s []

abbrev pub pair : String → String → List Value
pair a b = text a ∷ (text b ∷ [])

pub send_parameters : List (String × TypeDef) → List Line
send_parameters [] = []
send_parameters ((name, t) ∷ fs) =
    print ", const %s& %s" (pair (name_of t) name) ∷ send_parameters fs

-- The parameters of a subpacket's Send, by its first transformation.
pub send_prototype : Option (String × List (String × TypeDef)) → List Line
send_prototype none = say ", int iDelta = 0" ∷ []
send_prototype (some (name, fs)) = send_parameters fs

-- Some space for the packer.
pub packer_kludge : Option (String × List (String × TypeDef)) → List Line
packer_kludge none = []
packer_kludge (some t) = say "\t\tuint8_t __packer_kludge[1024];\n" ∷ []

module _ (unset : ℤ) where
  -- The class of a packet, before its subpackets.
  unfoldable pub packet_class : PacketDef → List Line
  packet_class p =
      print "class %s {\n" (text p.name ∷ [])
      ∷ (say "\tfriend class Parser;\n"
          ∷ (say "public:\n"
              ∷ (print "\t%s() { Reset(); }\n" (text p.name ∷ [])
                  ∷ (print "\tvoid Reset();\n" (text p.name ∷ [])
                      ∷ (say "\tvoid Send(State& oStater, int iDelta = 0);\n"
                          ∷ (say "\n"
                              ∷ (generate_changers unset "m_" "" (fields p.actions)
                                  ++ (say "\n"
                                      ∷ (say "protected:\n"
                                          ∷ (print "\t%s(const char* pData, int iDataLength);\n"
                                                (text p.name ∷ [])
                                              ∷ (say "\n"
                                                  ∷ (say "private:\n"
                                                      ∷ (say "\tstruct Packet {\n"
                                                          ∷ (say
                                                            "\t\tstruct ROM::Packet m_header;\n"
                                                            ∷ (generate_fields unset "m_"
                                                            (fields p.actions)
                                                            ++ (say "\t} PACKED;\n"
                                                            ∷ (say "\tPacket m_Packet;\n"
                                                            ∷ (say "};\n" ∷ []))))))))))))))))))

  unfoldable pub subpacket_class : PacketDef → String × ActionList → List Line
  subpacket_class p (name, actions) =
      print "class %s_%s {\n" (pair p.name name)
      ∷ (say "\tfriend class Parser;\n"
          ∷ (say "public:\n"
              ∷ (print "\t%s_%s() { Reset(); }\n" (pair p.name name)
                  ∷ (say "\tvoid Reset();\n"
                      ∷ (say "\tvoid Send(State& oState"
                          ∷ (send_prototype (transformed actions)
                              ++ (say ");\n"
                                  ∷ (say "\n"
                                      ∷ (generate_changers unset "m_packet_" "packet_"
                                            (fields p.actions)
                                          ++ (say "\n"
                                              ∷ (generate_changers unset "m_" "" (fields actions)
                                                  ++ (say "\n"
                                                      ∷ (say "protected:\n"
                                                          ∷ (print
                                                            "\t%s_%s(const char* pData, int iDataLength);\n"
                                                            (pair p.name name)
                                                            ∷ (say "\n"
                                                            ∷ (say "private:\n"
                                                            ∷ (say "\tstruct Packet {\n"
                                                            ∷ (say
                                                            "\t\tstruct ROM::Packet m_packet_header;\n"
                                                            ∷ (print "\t\t// %s\n"
                                                            (text p.name ∷ [])
                                                            ∷ (generate_fields unset "m_packet_"
                                                            (fields p.actions)
                                                            ++ (print "\t\t// %s\n" (pair name "m_")
                                                            ∷ (generate_fields unset "m_"
                                                            (fields actions)
                                                            ++ (packer_kludge (transformed actions)
                                                            ++ (say "\t} PACKED;\n"
                                                            ∷ (say "\tPacket m_Packet;\n"
                                                            ∷ (say "};\n"
                                                            ∷ (say "\n"
                                                            ∷ [])))))))))))))))))))))))))))

  unfoldable pub subpacket_classes : PacketDef → List (String × ActionList) → List Line
  subpacket_classes p [] = []
  subpacket_classes p (s ∷ ss) = subpacket_class p s ++ subpacket_classes p ss

  -- `GeneratePackets`
  unfoldable pub generate_packets : List PacketDef → List Line
  generate_packets [] = []
  generate_packets (p ∷ ps) =
      packet_class p ++ (subpacket_classes p p.subpackets ++ (say "\n" ∷ generate_packets ps))

-- The function that is called for a packet without subpackets.
unfoldable pub packet_handler : PacketDef → List Line
packet_handler p = elim p.subpackets [
  | [] ↦ print "\tvirtual void On%s(%s& oPacket) { }\n" (pair p.name p.name) ∷ []
  | _ ↦ []
]

unfoldable pub subpacket_handlers : PacketDef → List (String × ActionList) → List Line
subpacket_handlers p [] = []
subpacket_handlers p ((name, actions) ∷ ss) =
    print "\tvirtual void On%s_%s(%s_%s& oPacket) { OnUnhandledPacket(\"%s_%s\"); }\n"
      (pair p.name name ++ (pair p.name name ++ pair p.name name))
    ∷ subpacket_handlers p ss

unfoldable pub handlers : List PacketDef → List Line
handlers [] = []
handlers (p ∷ ps) = packet_handler p ++ (subpacket_handlers p p.subpackets ++ handlers ps)

-- `GenerateParserClass`
unfoldable pub generate_parser_class : List PacketDef → List Line
generate_parser_class ps =
    say "class Parser {\n"
    ∷ (say "public:\n"
        ∷ (say "\tvirtual ~Parser() { };\n"
            ∷ (say "\tvirtual bool Process(char* pData, int iDataLength);\n"
                ∷ (say "\tvirtual void OnUnhandledPacket(const char* name) { }\n"
                    ∷ (say "\n" ∷ (say "protected:\n" ∷ (handlers ps ++ (say "};\n" ∷ []))))))))
