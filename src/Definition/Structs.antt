-- ===== src/Definition/Structs.antt =====
-- `Struct::ParseNode` with its fields, transformations, annotations and filters, and
-- `Packet::ParseNode` with its subpackets.

pub mod Filters
pub mod Headers
use openrom.Base.{
  ℕ, ◌+◌, ◌*◌, List, [], ◌∷◌, ◌++◌, Bool, true, false, Option, none, some, ◌==◌, ◌&&◌, ◌||◌, not,
  ltb, leb, if◌then◌else◌,
}
use openrom.Decode.{ℤ, pos, negsuc}
use openrom.Definition.Numbers.{strtol, to_int}
use openrom.Definition.{
  same, get_prop, Node, element, other, Nodes, end, next, TypeDef, scalar, struct, ActionList, done,
  field, transformation, annotation_of, Source, unknown, server, client, PacketDef,
  ProtocolDefinition, Parsed, parsed, rejected, thrown, and_then, put_in, lookup_type, lookup_name,
  name_of,
}
use openrom.Definition.Fields.{Attributes, parse_scalar, constant_scalar}
use Prim.Native.String.{String}

-- m_Actions.push_back()
pub add_action : ActionList → ActionList → ActionList
add_action done new = new
add_action (field name t rest) new = field name t (add_action rest new)
add_action (transformation name rest) new = transformation name (add_action rest new)
add_action (annotation_of name rest) new = annotation_of name (add_action rest new)

-- What is parsed: the actions of a struct, or of a packet, and its subpackets.
pub record Body : Type 0 where
  pub actions : ActionList
  pub subpackets : List (String × ActionList)

pub with_action : ActionList → Body → Body
with_action new b = record b { actions = add_action b.actions new }

abbrev pub empty_body : Body
empty_body = record { actions = done; subpackets = [] }

-- Where the node stands. A struct is found by its own name while it is parsed, with the actions that
-- it has so far: `sees` is the protocol definition around them.
pub record Place : Type 0 where
  pub sees : Body → ProtocolDefinition
  pub in_packet : Bool
  pub version : ℤ

-- `a >= b`
pub at_least : ℤ → ℤ → Bool
at_least (pos m) (pos n) = leb n m
at_least (pos m) (negsuc n) = true
at_least (negsuc m) (pos n) = false
at_least (negsuc m) (negsuc n) = leb m n

-- Whether the children of a filter count, or none for a filter that cannot be parsed. A negative
-- version takes all of them.
pub filter_applies : ℤ → Attributes → Option Bool
filter_applies version attributes = elim (get_prop "version" attributes) [
  | none ↦ none
  | some s ↦
      let (value, all) = strtol 10 s in
      if all then some (not (at_least version (pos 0)) || at_least version (to_int value)) else none
]

-- `Struct::ParseExtraNode`. A node that is neither a transformation nor an annotation is rejected,
-- whatever its counts are.
pub parse_struct_extra : Place → Body → String → String → Parsed Body
parse_struct_extra e b tag name =
    if same tag "transformation"
    then elim (lookup_name name (e.sees b).transformations) [
      | none ↦ rejected
      | some t ↦ parsed (with_action (transformation t done) b)
    ]
    else if same tag "annotation"
    then elim (lookup_name name (e.sees b).annotations) [
      | none ↦ rejected
      | some a ↦ parsed (with_action (annotation_of a done) b)
    ]
    else rejected

-- A struct that is parsed inside of the body `b`.
pub nested : Place → (Body → Body) → Place
nested e around = record {
  sees = λ inner. e.sees (around inner);
  in_packet = false;
  version = e.version;
}

pub with_struct : String → String → Body → Body → Body
with_struct name type_name b inner =
    with_action (field name (struct type_name inner.actions) done) b

pub with_subpacket : String → Body → Body → Body
with_subpacket name b inner = record b { subpackets = b.subpackets ++ ((name, inner.actions) ∷ []) }

-- The field is added with a copy of its type, which then parses the node. `inner` parses the children.
pub parse_field : Place → Body → String → Attributes → (Place → Body → Parsed Body) → Parsed Body
parse_field e b name attributes inner = elim (get_prop "type" attributes) [
  | none ↦ rejected
  | some type_name ↦ elim (lookup_type type_name (e.sees b).types) [
    | none ↦ rejected
    | some (scalar n s) ↦
        put_in (λ s'. with_action (field name (scalar n s') done) b)
          (parse_scalar (e.sees b) attributes s)
    | some (struct n actions) ↦
        put_in (with_struct name n b)
          (inner (nested e (with_struct name n b)) (record { actions = actions; subpackets = [] }))
  ]
]

-- The virtual `ParseExtraNode`: that of a packet knows subpackets only.
pub parse_extra : Place → Body → String → String → (Place → Body → Parsed Body) → Parsed Body
parse_extra e b tag name inner =
    if not e.in_packet
    then parse_struct_extra e b tag name
    else if same tag "subpacket"
    then put_in (with_subpacket name b) (inner (nested e (with_subpacket name b)) empty_body)
    else rejected

-- `ParseChildNode`
pub parse_child : Place → Body → String → Attributes → (Place → Body → Parsed Body) → Parsed Body
parse_child e b tag attributes inner = elim (get_prop "name" attributes) [
  | none ↦ rejected
  | some name ↦
      if same tag "field"
      then parse_field e b name attributes inner
      else parse_extra e b tag name inner
]

mutual
  -- `Struct::ParseNode`
  pub parse_nodes : Place → Body → Nodes → Parsed Body
  parse_nodes e b end = parsed b
  parse_nodes e b (next node rest) = and_then (parse_node e b node) (λ b'. parse_nodes e b' rest)

  -- A pass of its loop.
  pub parse_node : Place → Body → Node → Parsed Body
  parse_node e b other = parsed b
  parse_node e b (element tag attributes children) =
      if same tag "filter"
      then elim (filter_applies e.version attributes) [
        | none ↦ rejected
        | some false ↦ parsed b
        | some true ↦ parse_filtered e b children
      ]
      else parse_child e b tag attributes (λ e' b'. parse_nodes e' b' children)

  -- The loop over the children of a filter, which knows no filters.
  pub parse_filtered : Place → Body → Nodes → Parsed Body
  parse_filtered e b end = parsed b
  parse_filtered e b (next node rest) =
      and_then (parse_plain e b node) (λ b'. parse_filtered e b' rest)

  -- A pass of that loop.
  pub parse_plain : Place → Body → Node → Parsed Body
  parse_plain e b other = parsed b
  parse_plain e b (element tag attributes children) =
      parse_child e b tag attributes (λ e' b'. parse_nodes e' b' children)

-- The sizes of the fields, or 0 if one has no constant size. `size` is the sum so far.
unfoldable mutual
  pub constant_type : TypeDef → ℕ
  constant_type (scalar name s) = constant_scalar s
  constant_type (struct name actions) = constant_actions actions 0

  pub constant_actions : ActionList → ℕ → ℕ
  constant_actions done size = size
  constant_actions (field name t rest) size =
      let more = constant_actions rest (size + constant_type t) in
      if constant_type t == 0 then 0 else more
  constant_actions (transformation name rest) size = constant_actions rest size
  constant_actions (annotation_of name rest) size = constant_actions rest size

pub source_of : String → Source
source_of s = if same s "server" then server else if same s "client" then client else unknown

pub packet_of : String → Body → PacketDef
packet_of name b = record {
  name = name;
  actions = b.actions;
  subpackets = b.subpackets;
  source = unknown;
  num_packet_bytes = 0;
}

-- A packet with subpackets has a header of a constant size.
pub check_size : PacketDef → Parsed PacketDef
check_size p = elim p.subpackets [
  | [] ↦ parsed p
  | _ ↦ if p.num_packet_bytes == 0 then rejected else parsed p
]

pub finish_packet : Attributes → PacketDef → Parsed PacketDef
finish_packet attributes p = elim (get_prop "source" attributes) [
  | none ↦ rejected
  | some s ↦ elim (source_of s) [
    | unknown ↦ rejected
    | side ↦
        check_size (record p { source = side; num_packet_bytes = constant_actions p.actions 0 })
  ]
]

-- `Packet::ParseNode`
unfoldable pub parse_packet_node :
    ProtocolDefinition → String → Attributes → Nodes → Parsed PacketDef
unfolding parse_nodes parse_child parse_field with_action add_action finish_packet source_of
    check_size constant_actions packet_of get_prop lookup_type name_of put_in and_then parse_scalar
    constant_scalar
parse_packet_node d name attributes children =
    and_then
      (put_in (packet_of name) (
        parse_nodes (record { sees = λ b. d; in_packet = true; version = d.version }) empty_body
          children))
      (finish_packet attributes)
