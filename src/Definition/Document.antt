-- ===== src/Definition/Document.antt =====
-- `ParseEnum`, `ParseDefinition`, `ParseStruct`, `ParsePacket` and `Load`.
pub mod Enumerations
pub mod Invariant
mod Tests
use openrom.Base.{
  ℕ, List, [], ◌∷◌, ◌++◌, Bool, true, false, Option, none, some, ◌==◌, if◌then◌else◌,
}
use openrom.Decode.{ℤ, pos, negsuc}
use openrom.Definition.Numbers.{strtol, to_int}
use openrom.Definition.{
  same, get_prop, Node, element, other, Nodes, end, next, TypeDef, scalar, struct, Enumeration,
  Scalar, number, string, float, double, length_field, unixtime, hex, ProtocolDefinition, Parsed,
  parsed, rejected, thrown, and_then, put_in, lookup_definition,
}
use openrom.Definition.Fields.{Attributes, equal}
use openrom.Definition.Structs.{Body, Place, empty_body, parse_nodes, parse_packet_node}
use Prim.Native.String.{String}

-- `Enumeration::Lookup`
pub lookup : ℤ → List (ℤ × String) → Option String
lookup key [] = none
lookup key ((k, v) ∷ entries) = if equal k key then some v else lookup key entries

-- `Enumeration::Add`: false, if the number is there.
pub add : ℤ → String → List (ℤ × String) → Option (List (ℤ × String))
add key value entries = elim (lookup key entries) [
  | none ↦ some (entries ++ ((key, value) ∷ []))
  | some _ ↦ none
]

-- A node with a number and its name.
pub add_value : Attributes → List (ℤ × String) → Option (List (ℤ × String))
add_value attributes entries = elim (get_prop "num" attributes) [
  | none ↦ none
  | some num ↦ elim (get_prop "name" attributes) [
    | none ↦ none
    | some name ↦
        let (value, all) = strtol 0 num in if all then add (to_int value) name entries else none
  ]
]

pub parse_values : List (ℤ × String) → Nodes → Option (List (ℤ × String))
parse_values entries end = some entries
parse_values entries (next other rest) = parse_values entries rest
parse_values entries (next (element tag attributes children) rest) =
    if same tag "value"
    then elim (add_value attributes entries) [ none ↦ none | some more ↦ parse_values more rest ]
    else none

pub parse_enum : ProtocolDefinition → Attributes → Nodes → Parsed ProtocolDefinition
parse_enum d attributes children = elim (get_prop "name" attributes) [
  | none ↦ rejected
  | some name ↦ elim (parse_values [] children) [
    | none ↦ rejected
    | some entries ↦
        parsed (record d { enums = d.enums ++ (record { name = name; entries = entries } ∷ []) })
  ]
]

pub parse_definition : ProtocolDefinition → Attributes → Parsed ProtocolDefinition
parse_definition d attributes = elim (get_prop "name" attributes) [
  | none ↦ rejected
  | some name ↦ elim (lookup_definition name d.definitions) [
    | some _ ↦ rejected
    | none ↦ elim (get_prop "value" attributes) [
      | none ↦ rejected
      | some value ↦ parsed (record d { definitions = d.definitions ++ ((name, value) ∷ []) })
    ]
  ]
]

-- The struct is among the types before its node is parsed.
pub with_type : ProtocolDefinition → String → Body → ProtocolDefinition
with_type d name b = record d { types = d.types ++ (struct name b.actions ∷ []) }

pub parse_struct : ProtocolDefinition → Attributes → Nodes → Parsed ProtocolDefinition
parse_struct d attributes children = elim (get_prop "name" attributes) [
  | none ↦ rejected
  | some name ↦ put_in (with_type d name) (
      parse_nodes (record { sees = with_type d name; in_packet = false; version = d.version })
        empty_body children)
]

pub parse_packet : ProtocolDefinition → Attributes → Nodes → Parsed ProtocolDefinition
parse_packet d attributes children = elim (get_prop "name" attributes) [
  | none ↦ rejected
  | some name ↦
      put_in (λ p. record d { packets = d.packets ++ (p ∷ []) })
        (parse_packet_node d name attributes children)
]

pub parse_top : ProtocolDefinition → Node → Parsed ProtocolDefinition
parse_top d other = parsed d
parse_top d (element tag attributes children) =
    if same tag "enum"
    then parse_enum d attributes children
    else if same tag "struct"
    then parse_struct d attributes children
    else if same tag "packet"
    then parse_packet d attributes children
    else if same tag "define"
    then parse_definition d attributes
    else rejected

pub load_nodes : ProtocolDefinition → Nodes → Parsed ProtocolDefinition
load_nodes d end = parsed d
load_nodes d (next node rest) = and_then (parse_top d node) (λ d'. load_nodes d' rest)

-- The answer of Load, with the definition that it leaves when it is true. An exception is caught, and
-- the answer is true then. When the answer is false, romdump and mkdef end, so what Load leaves then is
-- not kept.
pub loaded : Parsed ProtocolDefinition → Option ProtocolDefinition
loaded (parsed d) = some d
loaded rejected = none
loaded (thrown d) = some d

-- `tree` are the children of the root, or none for a file that libxml cannot read.
pub load : ProtocolDefinition → Option Nodes → ℤ → Option ProtocolDefinition
load d none version = none
load d (some tree) version = loaded (load_nodes (record d { version = version }) tree)

-- The constructor.
integer : String → ℕ → Bool → TypeDef
integer name width signed = scalar name (
    number (record {
      width = width;
      signed = signed;
      enumeration = none;
      annotation = none;
      fixed_value = none;
      count = pos 1;
      min_count = pos 1;
      display_count = negsuc 0;
      format = hex;
    }))

pub new_definition : ProtocolDefinition
new_definition = record {
  types =
      integer "u8" 1 false
      ∷ integer "u16" 2 false
      ∷ integer "u32" 4 false
      ∷ integer "s8" 1 true
      ∷ integer "s16" 2 true
      ∷ integer "s32" 4 true
      ∷ scalar "string" (string none)
      ∷ scalar "float" (float (pos 1) (negsuc 0))
      ∷ scalar "double" (double (pos 1) (negsuc 0))
      ∷ scalar "length" length_field
      ∷ scalar "unixtime" unixtime
      ∷ [];
  enums = [];
  definitions = [];
  transformations = [];
  annotations = [];
  packets = [];
  version = pos 0;
}

pub register_transformation : String → ProtocolDefinition → ProtocolDefinition
register_transformation name d = record d { transformations = d.transformations ++ (name ∷ []) }

pub register_annotation : String → ProtocolDefinition → ProtocolDefinition
register_annotation name d = record d { annotations = d.annotations ++ (name ∷ []) }
