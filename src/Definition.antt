-- ===== src/Definition.antt =====
-- lib/protocoldefinition.h and lib/protocoldefinition.cc: a protocol definition, and how Load builds
-- it from the XML tree that libxml has read. The tree is plain data. An allocation succeeds unless its
-- size is negative; memory that is freed is not tracked.
pub mod Numbers
pub mod Fields
pub mod Structs
pub mod Document
use openrom.Base.{
  ℕ, ◌*◌, ◌+◌, List, [], ◌∷◌, ◌++◌, Bool, true, false, Option, none, some, ◌==◌, if◌then◌else◌,
}
use openrom.Decode.{ℤ, pos, negsuc}
use openrom.Definition.Numbers.{strtol}
use Prim.Native.String.{String, compare}
use text.Mathlib.Text.{is_eq}

-- strcmp() and xmlStrcmp() of equal strings.
abbrev pub same : String → String → Bool
same s t = is_eq (compare s t)

-- An element has its name, its attributes and its children. Other nodes are text and comments.
mutual
  pub data Node : Type 0 where
    element : String → List (String × String) → Nodes → Node
    other : Node

  pub data Nodes : Type 0 where
    end : Nodes
    next : Node → Nodes → Nodes

-- xmlGetProp()
pub get_prop : String → List (String × String) → Option String
get_prop name [] = none
get_prop name ((key, value) ∷ rest) = if same key name then some value else get_prop name rest

-- `entries` is the map from numbers to names.
pub record Enumeration : Type 0 where
  pub name : String
  pub entries : List (ℤ × String)

pub data Format : Type 0 where
  hex decimal : Format

-- unsignedType and signedType, as the element of a field sets them.
pub record Numbered : Type 0 where
  pub width : ℕ
  pub signed : Bool
  pub enumeration : Option Enumeration
  pub annotation : Option String
  pub fixed_value : Option ℕ
  pub count : ℤ
  pub min_count : ℤ
  pub display_count : ℤ
  pub format : Format

-- The built-in types. A string has its length and its minimal length, which are not set at first. A
-- float and a double have a count and a display count.
pub data Scalar : Type 0 where
  number : Numbered → Scalar
  string : Option (ℤ × ℤ) → Scalar
  float : ℤ → ℤ → Scalar
  double : ℤ → ℤ → Scalar
  length_field : Scalar
  unixtime : Scalar

-- A type with its name, and the actions of a struct. The counts of a struct are always 1: every node
-- that would set them is rejected.
mutual
  pub data TypeDef : Type 0 where
    scalar : String → Scalar → TypeDef
    struct : String → ActionList → TypeDef

  pub data ActionList : Type 0 where
    done : ActionList
    field : String → TypeDef → ActionList → ActionList
    transformation : String → ActionList → ActionList
    annotation_of : String → ActionList → ActionList

pub data Source : Type 0 where
  unknown server client : Source

pub record PacketDef : Type 0 where
  pub name : String
  pub actions : ActionList
  pub subpackets : List (String × ActionList)
  pub source : Source
  pub num_packet_bytes : ℕ

-- Transformations and annotations are registered before, by their names.
pub record ProtocolDefinition : Type 0 where
  pub types : List TypeDef
  pub enums : List Enumeration
  pub definitions : List (String × String)
  pub transformations : List String
  pub annotations : List String
  pub packets : List PacketDef
  pub version : ℤ

-- What a parsing function leaves: its result, false, or what stands when an allocation throws.
pub data Parsed (A : Type 0) : Type 0 where
  parsed : A → Parsed A
  rejected : Parsed A
  thrown : A → Parsed A

pub and_then : {A : Type 0} → Parsed A → (A → Parsed A) → Parsed A
and_then (parsed a) f = f a
and_then rejected f = rejected
and_then (thrown a) f = thrown a

pub put_in : {A B : Type 0} → (A → B) → Parsed A → Parsed B
put_in f (parsed a) = parsed (f a)
put_in f rejected = rejected
put_in f (thrown a) = thrown (f a)

unfoldable pub name_of : TypeDef → String
name_of (scalar name s) = name
name_of (struct name actions) = name

pub lookup_type : String → List TypeDef → Option TypeDef
lookup_type name [] = none
lookup_type name (t ∷ ts) = if same (name_of t) name then some t else lookup_type name ts

pub lookup_enumeration : String → List Enumeration → Option Enumeration
lookup_enumeration name [] = none
lookup_enumeration name (e ∷ es) = if same e.name name then some e else lookup_enumeration name es

pub lookup_definition : String → List (String × String) → Option String
lookup_definition name [] = none
lookup_definition name ((key, value) ∷ rest) =
    if same key name then some value else lookup_definition name rest

-- LookupTransformation and LookupAnnotation.
pub lookup_name : String → List String → Option String
lookup_name name [] = none
lookup_name name (key ∷ rest) = if same key name then some key else lookup_name name rest

-- The number, and whether it is all of the string or of the value that defines it. A value is not
-- looked up again.
pub resolve_string_to_number : ProtocolDefinition → String → ℤ × Bool
resolve_string_to_number d s = elim (lookup_definition s d.definitions) [
  | none ↦ strtol 0 s
  | some value ↦ strtol 0 value
]
