-- ===== src/Definition/Fields.antt =====
-- The `ParseNode` of the built-in types, attribute by attribute, and their `GetConstantSize`.
use openrom.Base.{ℕ, ◌*◌, List, Bool, false, none, some, ◌==◌, if◌then◌else◌}
use openrom.Decode.{ℤ, pos, negsuc}
use openrom.Definition.Numbers.{to_int, to_u32}
use openrom.Definition.{
  same, get_prop, Numbered, Scalar, number, string, float, double, length_field, unixtime, decimal,
  ProtocolDefinition, Parsed, parsed, rejected, thrown, and_then, put_in, lookup_enumeration,
  lookup_name, resolve_string_to_number,
}
use Prim.Native.String.{String}

abbrev pub equal : ℤ → ℤ → Bool
equal (pos m) (pos n) = m == n
equal (pos m) (negsuc n) = false
equal (negsuc m) (pos n) = false
equal (negsuc m) (negsuc n) = m == n

-- `new T[count]`
pub allocate : {A : Type 0} → ℤ → A → Parsed A
allocate (pos n) a = parsed a
allocate (negsuc n) a = thrown a

abbrev pub Attributes : Type 0
Attributes = List (String × String)

-- A number in an attribute, if that is there.
pub parse_number :
    {A : Type 0} → ProtocolDefinition → String → Attributes → A → (ℤ → Parsed A) → Parsed A
parse_number d name attributes a set = elim (get_prop name attributes) [
  | none ↦ parsed a
  | some s ↦ let (value, all) = resolve_string_to_number d s in if all then set value else rejected
]

pub with_count : ℤ → Numbered → Parsed Numbered
with_count value x = allocate (to_int value) (record x {
  min_count = if equal x.count x.min_count then to_int value else x.min_count;
  count = to_int value;
})

-- Only the second test has an else branch.
pub parse_format : Attributes → Numbered → Parsed Numbered
parse_format attributes x = elim (get_prop "format" attributes) [
  | none ↦ parsed x
  | some s ↦ if same s "decimal" then parsed (record x { format = decimal }) else rejected
]

pub parse_enumeration : ProtocolDefinition → Attributes → Numbered → Parsed Numbered
parse_enumeration d attributes x = elim (get_prop "enumeration" attributes) [
  | none ↦ parsed x
  | some s ↦ elim (lookup_enumeration s d.enums) [
    | none ↦ rejected
    | some e ↦ parsed (record x { enumeration = some e })
  ]
]

pub parse_annotation : ProtocolDefinition → Attributes → Numbered → Parsed Numbered
parse_annotation d attributes x = elim (get_prop "annotation" attributes) [
  | none ↦ parsed x
  | some s ↦ elim (lookup_name s d.annotations) [
    | none ↦ rejected
    | some a ↦ parsed (record x { annotation = some a })
  ]
]

-- The code goes on with the other attributes when one is wrong, and answers false at the end.
pub parse_numbered : ProtocolDefinition → Attributes → Numbered → Parsed Numbered
parse_numbered d attributes x0 =
    and_then
      (parse_number d "fixed_value" attributes x0
        (λ v. parsed (record x0 { fixed_value = some (to_u32 v) })))
      (λ x1. and_then (parse_number d "count" attributes x1 (λ v. with_count v x1)) (λ x2.
        and_then
          (parse_number d "min_count" attributes x2
            (λ v. parsed (record x2 { min_count = to_int v })))
          (λ x3.
            and_then
              (parse_number d "display" attributes x3
                (λ v. parsed (record x3 { display_count = to_int v })))
              (λ x4. and_then (parse_format attributes x4) (λ x5.
                and_then (parse_enumeration d attributes x5)
                  (λ x6. parse_annotation d attributes x6))))))

-- The memory is allocated before the result of the conversion is looked at.
pub parse_string : ProtocolDefinition → Attributes → Parsed Scalar
parse_string d attributes = elim (get_prop "length" attributes) [
  | none ↦ rejected
  | some s ↦
      let (value, all) = resolve_string_to_number d s in
      and_then (allocate (to_int value) (string (some (to_int value, to_int value)))) (λ x.
        if all
        then parse_number d "min_length" attributes x
            (λ v. parsed (string (some (to_int value, to_int v))))
        else rejected)
]

-- The count and the display count of floatType and doubleType.
pub parse_counts : ProtocolDefinition → Attributes → (ℤ → ℤ → Scalar) → ℤ → ℤ → Parsed Scalar
parse_counts d attributes make count display =
    elim (parse_number d "count" attributes count (λ v. allocate (to_int v) (to_int v))) [
      | rejected ↦ rejected
      | thrown c ↦ thrown (make c display)
      | parsed c ↦
          parse_number d "display" attributes (make c display) (λ v. parsed (make c (to_int v)))
    ]

unfoldable pub parse_scalar : ProtocolDefinition → Attributes → Scalar → Parsed Scalar
unfolding parse_numbered parse_number parse_format parse_enumeration parse_annotation with_count
    allocate and_then put_in get_prop
parse_scalar d attributes (number x) = put_in number (parse_numbered d attributes x)
parse_scalar d attributes (string l) = parse_string d attributes
parse_scalar d attributes (float count display) = parse_counts d attributes float count display
parse_scalar d attributes (double count display) = parse_counts d attributes double count display
parse_scalar d attributes length_field = parsed length_field
parse_scalar d attributes unixtime = parsed unixtime

-- `count * width`, of an int that is not negative.
abbrev pub times : ℤ → ℕ → ℕ
times (pos n) width = n * width
times (negsuc n) width = 0

unfoldable pub constant_scalar : Scalar → ℕ
constant_scalar (number x) = if equal x.count x.min_count then times x.count x.width else 0
constant_scalar (string none) = 0
constant_scalar (string (some (len, min_length))) = if equal min_length len then times len 1 else 0
constant_scalar (float count display) = times count 4
constant_scalar (double count display) = times count 8
constant_scalar length_field = 4
constant_scalar unixtime = 4
