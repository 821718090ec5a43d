-- ===== src/Definition/Document/Invariant.antt =====
-- What holds of every protocol definition that Load leaves, also of one that an exception cuts short.
use mathlib.Core.Option.{some-injective}
use text.Mathlib.TextEquality.{eq_iff}
use openrom.Base.{
  ◌≡◌, refl, subst, arith, inl, inr, List, [], ◌∷◌, ◌++◌, false, Option, none, some, Bool-cases,
  Option-cases, All, All-append, if_either,
}
use openrom.Decode.{ℤ}
use openrom.Definition.{
  same, get_prop, Node, element, other, Nodes, end, next, ProtocolDefinition, Parsed, parsed,
  rejected, thrown, lookup_definition,
}
use openrom.Definition.Fields.{Attributes}
use openrom.Definition.Structs.Headers.{
  IsMeasured, Leaves, and_then-Leaves, put_in-Leaves, anything, parse_packet_node-Leaves,
}
use openrom.Definition.Document.{
  parse_values, parse_enum, parse_definition, parse_struct, parse_packet, parse_top, load_nodes,
  loaded, load, with_type,
}
use openrom.Definition.Document.Enumerations.{AreDistinct, parse_values-Enumerates}
use Prim.Native.String.{String}

-- The names of the definitions are distinct.
abbrev pub HaveNames : List (String × String) → Type 0
HaveNames [] = Unit {0}
HaveNames ((key, value) ∷ rest) = (lookup_definition key rest ≡ none) × HaveNames rest

pub record IsValid (d : ProtocolDefinition) : Type 0 where
  pub definitions : HaveNames d.definitions
  pub enums : All (λ e. AreDistinct e.entries) d.enums
  pub packets : All IsMeasured d.packets

lookup_definition-append :
    (key name value : String) (ds : List (String × String))
    → lookup_definition key ds ≡ none
    → same name key ≡ false
    → lookup_definition key (ds ++ ((name, value) ∷ [])) ≡ none
unfolding lookup_definition
lookup_definition-append key name value [] missing apart = rw apart refl
lookup_definition-append key name value ((k, v) ∷ ds) missing apart =
    elim (Bool-cases (same k key)) [
      | inl here ↦ rw (here, lookup_definition) (rw here at missing)
      | inr later ↦
          rw (later, lookup_definition)
            (lookup_definition-append key name value ds (rw later at missing) apart)
    ]

same-false : (s t : String) → same s t ≡ false → same t s ≡ false
same-false s t apart = ground (arith, eq_iff s t, eq_iff t s)

HaveNames-append :
    (name value : String) (ds : List (String × String))
    → HaveNames ds
    → lookup_definition name ds ≡ none
    → HaveNames (ds ++ ((name, value) ∷ []))
unfolding lookup_definition
HaveNames-append name value [] named missing = (refl, tt)
HaveNames-append name value ((k, v) ∷ ds) (one, named) missing = elim (Bool-cases (same k name)) [
  | inl here ↦ absurd (some_none (rw here at missing))
  | inr later ↦ (
    lookup_definition-append k name value ds one (same-false k name later),
    HaveNames-append name value ds named (rw later at missing),
  )
]
  where
    some_none : some v ≡ none → ⊥
    some_none e = cc

parse_enum-Leaves :
    (d : ProtocolDefinition) (attributes : Attributes) (children : Nodes)
    → IsValid d
    → Leaves IsValid (parse_enum d attributes children)
unfolding parse_enum
parse_enum-Leaves d attributes children v = elim (Option-cases (get_prop "name" attributes)) [
  | inl missing ↦ rw (missing, parse_enum) tt
  | inr (name, found) ↦ elim (Option-cases (parse_values [] children)) [
    | inl failed ↦ rw (found, failed, parse_enum) tt
    | inr (entries, read) ↦
        rw (found, read, parse_enum)
          (record {
            definitions = v.definitions;
            enums =
                All-append (λ e. AreDistinct e.entries) d.enums _ v.enums
                  ((parse_values-Enumerates [] entries children tt read).distinct, tt);
            packets = v.packets;
          })
  ]
]

parse_definition-Leaves :
    (d : ProtocolDefinition) (attributes : Attributes)
    → IsValid d
    → Leaves IsValid (parse_definition d attributes)
unfolding parse_definition
parse_definition-Leaves d attributes v = elim (Option-cases (get_prop "name" attributes)) [
  | inl missing ↦ rw (missing, parse_definition) tt
  | inr (name, found) ↦ elim (Option-cases (lookup_definition name d.definitions)) [
    | inr (old, taken) ↦ rw (found, taken, parse_definition) tt
    | inl fresh ↦ elim (Option-cases (get_prop "value" attributes)) [
      | inl missing ↦ rw (found, fresh, missing, parse_definition) tt
      | inr (value, given) ↦
          rw (found, fresh, given, parse_definition)
            (record {
              definitions = HaveNames-append name value d.definitions v.definitions fresh;
              enums = v.enums;
              packets = v.packets;
            })
    ]
  ]
]

parse_struct-Leaves :
    (d : ProtocolDefinition) (attributes : Attributes) (children : Nodes)
    → IsValid d
    → Leaves IsValid (parse_struct d attributes children)
unfolding parse_struct with_type
parse_struct-Leaves d attributes children v = elim (Option-cases (get_prop "name" attributes)) [
  | inl missing ↦ rw (missing, parse_struct) tt
  | inr (name, found) ↦
      rw (found, parse_struct)
        (put_in-Leaves (λ b. Unit {0}) IsValid (with_type d name) _ (anything _)
          (λ b u. record { definitions = v.definitions; enums = v.enums; packets = v.packets }))
]

parse_packet-Leaves :
    (d : ProtocolDefinition) (attributes : Attributes) (children : Nodes)
    → IsValid d
    → Leaves IsValid (parse_packet d attributes children)
unfolding parse_packet
parse_packet-Leaves d attributes children v = elim (Option-cases (get_prop "name" attributes)) [
  | inl missing ↦ rw (missing, parse_packet) tt
  | inr (name, found) ↦
      rw (found, parse_packet)
        (put_in-Leaves IsMeasured IsValid (λ p. record d { packets = d.packets ++ (p ∷ []) }) _
          (parse_packet_node-Leaves d name attributes children)
          (λ p m. record {
            definitions = v.definitions;
            enums = v.enums;
            packets = All-append IsMeasured d.packets _ v.packets (m, tt);
          }))
]

parse_top-Leaves :
    (d : ProtocolDefinition) (node : Node) → IsValid d → Leaves IsValid (parse_top d node)
unfolding parse_top
parse_top-Leaves d other v = v
parse_top-Leaves d (element tag attributes children) v =
    if_either (Leaves IsValid) (same tag "enum") (parse_enum-Leaves d attributes children v) (
      if_either (Leaves IsValid) (same tag "struct") (parse_struct-Leaves d attributes children v) (
        if_either (Leaves IsValid) (same tag "packet") (parse_packet-Leaves d attributes children v)
          (if_either (Leaves IsValid) (same tag "define") (parse_definition-Leaves d attributes v)
            tt)))

load_nodes-Leaves :
    (d : ProtocolDefinition) (ns : Nodes) → IsValid d → Leaves IsValid (load_nodes d ns)
unfolding load_nodes
load_nodes-Leaves d end v = v
load_nodes-Leaves d (next node rest) v =
    and_then-Leaves IsValid (parse_top d node) _ (parse_top-Leaves d node v)
      (λ d' v'. load_nodes-Leaves d' rest v')

-- A Load that answers true keeps a protocol definition well formed, also when an exception ends it:
-- definitions have distinct names, the values of an enumeration distinct numbers, and a packet whose node is parsed and
-- that has subpackets a header of a constant size, which is the sum of its fields.
pub load-IsValid :
    (d d' : ProtocolDefinition) (tree : Option Nodes) (version : ℤ)
    → IsValid d
    → load d tree version ≡ some d'
    → IsValid d'
unfolding load loaded
load-IsValid d d' none version v e = absurd (none_some e)
  where
    none_some : none ≡ some d' → ⊥
    none_some e = cc
load-IsValid d d' (some tree) version v e =
    follow (load_nodes (record d { version = version }) tree)
      (load_nodes-Leaves (record d { version = version }) tree
        (record { definitions = v.definitions; enums = v.enums; packets = v.packets }))
      e
  where
    none_some : none ≡ some d' → ⊥
    none_some e = cc

    follow : (p : Parsed ProtocolDefinition) → Leaves IsValid p → loaded p ≡ some d' → IsValid d'
    follow (parsed a) l e = subst IsValid (some-injective _ _ e) l
    follow rejected l e = absurd (none_some e)
    follow (thrown a) l e = subst IsValid (some-injective _ _ e) l
