-- ===== src/Generator.antt =====
-- lib/protocolcodegenerator.cc, with GenerateCType and GenerateCInitialize of
-- lib/protocoldefinition.cc: the C++ code for a protocol definition. What is printed is the list of
-- the calls of fprintf, each with its format and its arguments. The buffers that parts are formatted
-- in are taken to be large enough.
pub mod Classes
pub mod Functions
pub mod Recognition
pub mod Sizes
pub mod Scope
pub mod Calls
pub mod Handlers
mod Tests
use openrom.Base.{
  ℕ, ◌+◌, ◌%◌, ◌^◌, List, [], ◌∷◌, ◌++◌, Bool, true, false, Option, none, some, ltb, ◌==◌,
  if◌then◌else◌,
}
use openrom.Decode.{ℤ, pos, negsuc}
use openrom.Definition.{
  same, Enumeration, Format, hex, decimal, Numbered, Scalar, number, string, float, double,
  length_field, unixtime, TypeDef, scalar, struct, ActionList, done, field, transformation,
  annotation_of, name_of,
}
use openrom.Definition.Structs.{constant_type}
use Prim.Native.String.{String}

-- An argument of fprintf: a string, two that were joined by an underscore, or a number. The code of an initial
-- value is a row of numbers, each with its format.
pub data Value : Type 0 where
  text : String → Value
  joined : String → String → Value
  signed : ℤ → Value
  unsigned : ℕ → Value
  dimension : ℤ → Value
  code : List (String × ℕ) → Value

pub record Line : Type 0 where
  pub format : String
  pub values : List Value

abbrev pub print : String → List Value → Line
print format values = record { format = format; values = values }

-- The type of a member: the name, and the bound in the brackets behind the member's name if there are
-- any.
pub record CType : Type 0 where
  pub name : String
  pub bound : Option ℤ

abbrev pub suffix : Option ℤ → Value
suffix none = text ""
suffix (some n) = dimension n

pub more_than_one : ℤ → Bool
more_than_one (pos n) = ltb 1 n
more_than_one (negsuc n) = false

-- A bound for more than one element.
pub counted : String → ℤ → CType
counted name count = record {
  name = name;
  bound = if more_than_one count then some count else none;
}

-- `GenerateCType` of each class of types.
pub struct_c_type : String → CType
struct_c_type name = record { name = name; bound = none }

pub unsigned_c_type : String → Numbered → CType
unfolding counted
unsigned_c_type name x = counted name x.count

pub float_c_type : String → ℤ → CType
unfolding counted
float_c_type name count = counted name count

pub double_c_type : String → ℤ → CType
unfolding counted
double_c_type name count = counted name count

-- Not the name of the type, which may be that of a field.
pub length_c_type : CType
length_c_type = record { name = "ulength"; bound = none }

pub unixtime_c_type : String → CType
unixtime_c_type name = record { name = name; bound = none }

-- `unset` is the length that a string has as long as it is not set.
module _ (unset : ℤ) where
  pub string_c_type : Option (ℤ × ℤ) → CType
  string_c_type none = record { name = "char"; bound = some unset }
  string_c_type (some (len, min_length)) = record { name = "char"; bound = some len }

  pub c_type : TypeDef → CType
  unfolding struct_c_type unsigned_c_type string_c_type float_c_type double_c_type length_c_type
      unixtime_c_type
  c_type (struct name actions) = struct_c_type name
  c_type (scalar name (number x)) = unsigned_c_type name x
  c_type (scalar name (string l)) = string_c_type l
  c_type (scalar name (float count display)) = float_c_type name count
  c_type (scalar name (double count display)) = double_c_type name count
  c_type (scalar name length_field) = length_c_type
  c_type (scalar name unixtime) = unixtime_c_type name

pub is_one : ℤ → Bool
is_one (pos n) = n == 1
is_one (negsuc n) = false

pub number_format : Format → String
number_format hex = "0x%x"
number_format decimal = "%d"

-- `none` is the assertion that a fixed value is a single one.
pub c_initialize_number : Numbered → Option (List (String × ℕ))
c_initialize_number x = elim x.fixed_value [
  | none ↦ some []
  | some v ↦ if is_one x.count then some ((number_format x.format, v) ∷ []) else none
]

pub both {ℓ} : {A : Type ℓ} → Option (List A) → Option (List A) → Option (List A)
both none ys = none
both (some xs) none = none
both (some xs) (some ys) = some (xs ++ ys)

-- `GenerateCInitialize`. That of a struct is the row of its fields' codes.
mutual
  pub c_initialize : TypeDef → Option (List (String × ℕ))
  c_initialize (struct name actions) = c_initialize_all actions
  c_initialize (scalar name (number x)) = c_initialize_number x
  c_initialize (scalar name s) = some []

  pub c_initialize_all : ActionList → Option (List (String × ℕ))
  c_initialize_all done = some []
  c_initialize_all (field name t rest) = both (c_initialize t) (c_initialize_all rest)
  c_initialize_all (transformation name rest) = c_initialize_all rest
  c_initialize_all (annotation_of name rest) = c_initialize_all rest

-- The fields among the actions.
pub fields : ActionList → List (String × TypeDef)
fields done = []
fields (field name t rest) = (name, t) ∷ fields rest
fields (transformation name rest) = fields rest
fields (annotation_of name rest) = fields rest

-- The fields before the first transformation, and those behind it with its name.
pub fields_before : ActionList → List (String × TypeDef)
fields_before done = []
fields_before (field name t rest) = (name, t) ∷ fields_before rest
fields_before (transformation name rest) = []
fields_before (annotation_of name rest) = fields_before rest

pub transformed : ActionList → Option (String × List (String × TypeDef))
transformed done = none
transformed (field name t rest) = transformed rest
transformed (transformation name rest) = some (name, fields rest)
transformed (annotation_of name rest) = transformed rest

-- The sum of the constant sizes, as a uint32_t.
pub total_size : List (String × TypeDef) → ℕ
total_size [] = 0
total_size ((name, t) ∷ fs) = (constant_type t + total_size fs) % 2 ^ 32

pub find_length : List (String × TypeDef) → Option String
find_length [] = none
find_length ((name, t) ∷ fs) = if same (name_of t) "length" then some name else find_length fs

-- Each entry of an enumeration.
pub enum_entries : List (ℤ × String) → List Line
enum_entries [] = []
enum_entries ((key, name) ∷ rest) =
    print "\tE_%s = %u,\n" (text name ∷ (signed key ∷ [])) ∷ enum_entries rest

-- `GenerateEnumerations`
pub generate_enumerations : List Enumeration → List Line
generate_enumerations [] = []
generate_enumerations (e ∷ es) =
    print "enum enum_%s {\n" (text e.name ∷ [])
    ∷ (enum_entries e.entries ++ (print "};\n" [] ∷ (print "\n" [] ∷ generate_enumerations es)))

module _ (unset : ℤ) where
  pub struct_members : List (String × TypeDef) → List Line
  struct_members [] = []
  struct_members ((name, t) ∷ fs) =
      print "\t%s %s%s;\n"
        (text (c_type unset t).name ∷ (text name ∷ (suffix (c_type unset t).bound ∷ [])))
      ∷ struct_members fs

  -- `GenerateTypes`
  pub generate_types : List TypeDef → List Line
  generate_types [] = []
  generate_types (scalar name s ∷ ts) = generate_types ts
  generate_types (struct name actions ∷ ts) =
      print "struct %s {\n" (text name ∷ [])
      ∷ (struct_members (fields actions)
          ++ (print "} PACKED;\n" [] ∷ (print "\n" [] ∷ generate_types ts)))

-- `GenerateInitializers`, for the fields whose code is not empty.
pub initializer : String → String → List (String × ℕ) → List Line
initializer prefix name [] = []
initializer prefix name (c ∷ cs) =
    print "\tm_Packet.%s%s = %s;\n" (text prefix ∷ (text name ∷ (code (c ∷ cs) ∷ []))) ∷ []

pub generate_initializers : String → List (String × TypeDef) → Option (List Line)
generate_initializers prefix [] = some []
generate_initializers prefix ((name, t) ∷ fs) = elim (c_initialize t) [
  | none ↦ none
  | some c ↦ both (some (initializer prefix name c)) (generate_initializers prefix fs)
]

module _ (unset : ℤ) where
  -- `GenerateFields`
  pub generate_fields : String → List (String × TypeDef) → List Line
  generate_fields prefix [] = []
  generate_fields prefix ((name, t) ∷ fs) =
      print "\t\t%s %s%s%s;\n" (
        text (c_type unset t).name
        ∷ (text prefix ∷ (text name ∷ (suffix (c_type unset t).bound ∷ []))))
      ∷ generate_fields prefix fs

  -- The functions that read and write a member.
  pub changer : String → String → String → CType → List Line
  changer prefix func_prefix name c = elim c.bound [
    | some n ↦
        print "\t%s* %s%s() { return m_Packet.%s%s; }\n"
          (text c.name ∷ (text func_prefix ∷ (text name ∷ (text prefix ∷ (text name ∷ [])))))
        ∷ []
    | none ↦
        print "\tvoid %s%s(%s n) { m_Packet.%s%s = n; }\n"
          (text func_prefix ∷ (text name ∷ (text c.name ∷ (text prefix ∷ (text name ∷ [])))))
        ∷ (print "\t%s %s%s() const { return m_Packet.%s%s; }\n"
              (text c.name ∷ (text func_prefix ∷ (text name ∷ (text prefix ∷ (text name ∷ [])))))
            ∷ [])
  ]

  -- `GenerateChangers`
  pub generate_changers : String → String → List (String × TypeDef) → List Line
  generate_changers prefix func_prefix [] = []
  generate_changers prefix func_prefix ((name, t) ∷ fs) =
      changer prefix func_prefix name (c_type unset t) ++ generate_changers prefix func_prefix fs
