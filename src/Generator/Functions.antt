-- ===== src/Generator/Functions.antt =====
-- `GenerateLength` and `GenerateFunctions` of lib/protocolcodegenerator.cc: the member functions of
-- the classes.
use openrom.Base.{ℕ, List, [], ◌∷◌, ◌++◌, Option, none, some, if◌then◌else◌}
use openrom.Definition.{same, TypeDef, name_of, PacketDef, ActionList}
use openrom.Generator.{
  Line, print, text, unsigned, fields, fields_before, transformed, find_length, total_size,
  generate_initializers, both,
}
use openrom.Generator.Classes.{pair, send_parameters}
use Prim.Native.String.{String}

abbrev say : String → Line
say s = print s []

-- `GenerateLength`: every length field gets the size of the subpacket.
pub generate_length : String → ℕ → List (String × TypeDef) → List Line
generate_length prefix len [] = []
generate_length prefix len ((name, t) ∷ fs) =
    let rest = generate_length prefix len fs in
    if same (name_of t) "length"
    then print "\t%s%s = 0x%x;\n" (text prefix ∷ (text name ∷ (unsigned len ∷ []))) ∷ rest
    else rest

-- Reset, Send and the constructor of a packet.
pub packet_functions : PacketDef → List Line → List Line
packet_functions p reset =
    say "void\n"
    ∷ (print "%s::Reset()\n" (text p.name ∷ [])
        ∷ (say "{\n"
            ∷ (say "\tmemset((void*)&m_Packet, 0, sizeof(m_Packet));\n"
                ∷ (reset
                    ++ (say "}\n"
                        ∷ (say "\n"
                            ∷ (say "void\n"
                                ∷ (print "%s::Send(State& oState, int iDelta /* = 0 */)\n"
                                      (text p.name ∷ [])
                                    ∷ (say "{\n"
                                        ∷ (print
                                              "\toState.Send((struct ROM::Packet&)m_Packet, sizeof(struct ROM::Packet) + 0x%x + iDelta);\n"
                                              (unsigned (total_size (fields p.actions)) ∷ [])
                                            ∷ (say "}\n"
                                                ∷ (say "\n"
                                                    ∷ (print
                                                          "%s::%s(const char* pData, int iDataLength)\n"
                                                          (pair p.name p.name)
                                                        ∷ (say "{\n"
                                                            ∷ (say
                                                            "\tassert(iDataLength <= (int)sizeof(m_Packet));\n"
                                                            ∷ (say
                                                            "\tmemcpy((void*)&m_Packet, pData, sizeof(m_Packet));\n"
                                                            ∷ (say "}\n"
                                                            ∷ (say "\n" ∷ []))))))))))))))))))

-- The Send of a subpacket without a transformation.
pub length_delta : Option String → List Line
length_delta none = []
length_delta (some l) = print "\tm_Packet.m_packet_%s += iDelta; // KLUDGE\n" (text l ∷ []) ∷ []

pub plain_send : PacketDef → String → ActionList → List Line
plain_send p name actions =
    say "void\n"
    ∷ (print "%s_%s::Send(State& oState, int iDelta /* = 0 */)\n" (pair p.name name)
        ∷ (say "{\n"
            ∷ (length_delta (find_length (fields p.actions))
                ++ (print
                      "\toState.Send((struct ROM::Packet&)m_Packet, sizeof(struct ROM::Packet) + 0x%x + 0x%x + iDelta);\n"
                      (unsigned (total_size (fields p.actions))
                        ∷ (unsigned (total_size (fields actions)) ∷ []))
                    ∷ (say "}\n" ∷ (say "\n" ∷ []))))))

-- A field that the transformation is applied to. Without a length field in the packet the code goes
-- through a null pointer: none.
pub pack_field : String → Option String → String → Option (List Line)
pack_field transformation none name = none
pack_field transformation (some l) name = some (
    say "\t{\n"
    ∷ (say "\t\tint iOutLen = 1024 * 1024; // XXX;\n"
        ∷ (print
              "\t\tif (!%s::Pack((const uint8_t*)&%s, sizeof(%s), (uint8_t*)&m_Packet.m_%s, &iOutLen))\n"
              (text transformation ∷ (text name ∷ pair name name))
            ∷ (say "\t\t\tassert(0);\n"
                ∷ (say "\n"
                    ∷ (print "\t\tiPreviousLength += sizeof(%s);\n" (text name ∷ [])
                        ∷ (say "\t\tiCurrentLength += iOutLen;\n"
                            ∷ (print
                                  "\t\tm_Packet.m_packet_%s = m_Packet.m_packet_%s - sizeof(%s) + iOutLen;\n"
                                  (text l ∷ pair l name)
                                ∷ (say "\t}\n" ∷ (say "\n" ∷ []))))))))))

pub pack_fields : String → Option String → List (String × TypeDef) → Option (List Line)
pack_fields transformation length_name [] = some []
pack_fields transformation length_name ((name, t) ∷ fs) =
    both (pack_field transformation length_name name) (pack_fields transformation length_name fs)

pub set_length : Option String → List Line
set_length none = []
set_length (some l) = print "\tm_Packet.m_%s = iCurrentLength;\n" (text l ∷ []) ∷ []

pub packed_send :
    PacketDef → String → ActionList → String → List (String × TypeDef) → Option (List Line)
packed_send p name actions transformation fs =
    both
      (some (
        say "void\n"
        ∷ (print "%s_%s::Send(State& oState" (pair p.name name)
            ∷ (send_parameters fs
                ++ (say ")\n"
                    ∷ (say "{\n"
                        ∷ (say "\tint iCurrentLength = 0;\n"
                            ∷ (say "\tint iPreviousLength = 0;\n" ∷ []))))))))
      (both (pack_fields transformation (find_length (fields p.actions)) fs) (
        some (
          set_length (find_length (fields_before actions))
          ++ (print
                "\toState.Send((struct ROM::Packet&)m_Packet, sizeof(struct ROM::Packet) + 0x%x + 0x%x - iPreviousLength + iCurrentLength);\n"
                (unsigned (total_size (fields p.actions))
                  ∷ (unsigned (total_size (fields actions)) ∷ []))
              ∷ (say "}\n" ∷ (say "\n" ∷ []))))))

pub subpacket_send :
    PacketDef → String → ActionList → Option (String × List (String × TypeDef)) → Option (List Line)
subpacket_send p name actions none = some (plain_send p name actions)
subpacket_send p name actions (some (transformation, fs)) =
    packed_send p name actions transformation fs

-- The constructor of a subpacket from the bytes of a packet.
pub unpack_fields : String → String → List (String × TypeDef) → List Line
unpack_fields transformation subpacket [] = []
unpack_fields transformation subpacket ((name, t) ∷ fs) =
    say "\t{\n"
    ∷ (print "\t\tint iOutLen = sizeof(%s);\n" (text (name_of t) ∷ [])
        ∷ (print
              "\t\tif (!%s::Unpack((const uint8_t*)&pData[iTransformedOffset], iDataLength - iTransformedOffset, (uint8_t*)&m_Packet.m_%s, &iOutLen))\n"
              (pair transformation name)
            ∷ (print "\t\t\tfprintf(stderr, \"WARNING: unable to decode packing for '%s'!\\n\");\n"
                  (text subpacket ∷ [])
                ∷ (say "\t}\n" ∷ (say "\n" ∷ unpack_fields transformation subpacket fs)))))

pub copy_in :
    PacketDef → String → ActionList → Option (String × List (String × TypeDef)) → List Line
copy_in p name actions none = say "\tmemcpy((void*)&m_Packet, pData, sizeof(m_Packet));\n" ∷ []
copy_in p name actions (some (transformation, fs)) =
    print "\tint iTransformedOffset = sizeof(ROM::Packet) + 0x%x + 0x%x;\n" (
      unsigned (total_size (fields p.actions))
      ∷ (unsigned (total_size (fields_before actions)) ∷ []))
    ∷ (say "\tmemcpy((void*)&m_Packet, pData, iTransformedOffset);\n"
        ∷ unpack_fields transformation name fs)

pub subpacket_constructor : PacketDef → String → ActionList → List Line
subpacket_constructor p name actions =
    print "%s_%s::%s_%s(const char* pData, int iDataLength)\n"
      (text p.name ∷ (text name ∷ pair p.name name))
    ∷ (say "{\n"
        ∷ (say "\tassert(iDataLength <= (int)sizeof(m_Packet));\n"
            ∷ (copy_in p name actions (transformed actions) ++ (say "}\n" ∷ (say "\n" ∷ [])))))

pub subpacket_functions : PacketDef → String → ActionList → Option (List Line)
subpacket_functions p name actions =
    both
      (some (
        say "void\n"
        ∷ (print "%s_%s::Reset()\n" (pair p.name name)
            ∷ (say "{\n" ∷ (say "\tmemset((void*)&m_Packet, 0, sizeof(m_Packet));\n" ∷ [])))))
      (both (generate_initializers "m_packet_" (fields p.actions)) (
        both (generate_initializers "m_" (fields actions)) (
          both
            (some (
              generate_length "m_Packet.m_packet_" (total_size (fields actions)) (fields p.actions)
              ++ (say "}\n" ∷ (say "\n" ∷ []))))
            (both (subpacket_send p name actions (transformed actions))
              (some (subpacket_constructor p name actions))))))

pub all_subpacket_functions : PacketDef → List (String × ActionList) → Option (List Line)
all_subpacket_functions p [] = some []
all_subpacket_functions p ((name, actions) ∷ ss) =
    both (subpacket_functions p name actions) (all_subpacket_functions p ss)

-- `GenerateFunctions`. `none` is a failed assertion or a null pointer.
pub generate_functions : List PacketDef → Option (List Line)
generate_functions [] = some []
generate_functions (p ∷ ps) = elim (generate_initializers "m_" (fields p.actions)) [
  | none ↦ none
  | some reset ↦
      both (some (packet_functions p reset))
        (both (all_subpacket_functions p p.subpackets) (generate_functions ps))
]
