-- ===== src/Generator/Sizes.antt =====
-- The size of what the generated classes declare, by the typedefs of mkdef/mkdef.cc, is the size that
-- the generated code puts into packets.
use openrom.Base.{
  ℕ, zero, suc, ◌+◌, ◌*◌, ◌%◌, ◌^◌, ◌<◌, ◌≡◌, ◌≢◌, refl, ap, ◌∙◌, inl, inr, arith, List, [], ◌∷◌,
  true, Bool-cases, Option, none, some, All, ltb, ◌==◌, if◌then◌else◌,
}
use openrom.Decode.{ℤ, pos, negsuc}
use openrom.Definition.{
  same, TypeDef, scalar, struct, ActionList, done, field, transformation, annotation_of, number,
  string, float, double, length_field, unixtime, Numbered,
}
use openrom.Definition.Fields.{constant_scalar, equal, times}
use openrom.Definition.Structs.{constant_type, constant_actions}
use openrom.Generator.{
  CType, c_type, counted, more_than_one, fields, total_size, Line, Value, text, dimension, suffix,
  generate_fields, struct_members,
}
use native.Mathlib.Nat.{mul_comm}
use Prim.Native.String.{String}

-- The types of C, and the typedefs of the header, with their sizes.
abbrev pub Sizes : Type 0
Sizes = List (String × ℕ)

abbrev pub header_types : Sizes
header_types =
    ("u8", 1)
    ∷ (("u16", 2)
        ∷ (("u32", 4)
            ∷ (("unixtime", 4)
                ∷ (("s8", 1)
                    ∷ (("s16", 2)
                        ∷ (("s32", 4)
                            ∷ (("ulength", 4)
                                ∷ (("float", 4) ∷ (("double", 8) ∷ (("char", 1) ∷ []))))))))))

unfoldable pub size_of_name : String → Sizes → Option ℕ
size_of_name name [] = none
size_of_name name ((key, size) ∷ rest) = if same key name then some size else size_of_name name rest

-- sizeof of an array with a bound, or of a single element.
abbrev pub elements : Option ℤ → Option ℕ
elements none = some 1
elements (some (pos n)) = some n
elements (some (negsuc n)) = none

abbrev pub times? : Option ℕ → Option ℕ → Option ℕ
times? (some a) (some b) = some (a * b)
times? (some a) none = none
times? none b = none

abbrev pub plus? : Option ℕ → Option ℕ → Option ℕ
plus? (some a) (some b) = some (a + b)
plus? (some a) none = none
plus? none b = none

pub size_of : Sizes → CType → Option ℕ
size_of sizes c = times? (size_of_name c.name sizes) (elements c.bound)

-- The size of the member that a line of GenerateFields declares, or one of GenerateTypes.
pub member_size : Sizes → List Value → Option ℕ
member_size sizes (text t ∷ (text prefix ∷ (text name ∷ (dimension n ∷ [])))) =
    size_of sizes (record { name = t; bound = some n })
member_size sizes (text t ∷ (text prefix ∷ (text name ∷ (text empty ∷ [])))) =
    size_of sizes (record { name = t; bound = none })
member_size sizes (text t ∷ (text name ∷ (dimension n ∷ []))) =
    size_of sizes (record { name = t; bound = some n })
member_size sizes (text t ∷ (text name ∷ (text empty ∷ []))) =
    size_of sizes (record { name = t; bound = none })
member_size sizes other = none

-- The members of a packed struct stand one behind the other.
pub declared_size : Sizes → List Line → Option ℕ
declared_size sizes [] = some 0
declared_size sizes (l ∷ ls) = plus? (member_size sizes l.values) (declared_size sizes ls)

-- The name of a type stands for elements of the size that the type has: that of a scalar is a typedef
-- of its width, that of a struct has the struct's size.
abbrev pub IsNamed : Sizes → TypeDef → Type 0
IsNamed sizes (struct name actions) =
    size_of_name name sizes ≡ some (constant_type (struct name actions))
IsNamed sizes (scalar name (number x)) = size_of_name name sizes ≡ some x.width
IsNamed sizes (scalar name (string l)) = size_of_name "char" sizes ≡ some 1
IsNamed sizes (scalar name (float count display)) = size_of_name name sizes ≡ some 4
IsNamed sizes (scalar name (double count display)) = size_of_name name sizes ≡ some 8
IsNamed sizes (scalar name length_field) = size_of_name "ulength" sizes ≡ some 4
IsNamed sizes (scalar name unixtime) = size_of_name name sizes ≡ some 4

size_of-counted :
    (sizes : Sizes) (name : String) (count : ℤ) (width : ℕ)
    → size_of_name name sizes ≡ some width
    → times count width ≢ 0
    → size_of sizes (counted name count) ≡ some (times count width)
unfolding size_of counted more_than_one
size_of-counted sizes name (negsuc n) width h ne = absurd (ne refl)
size_of-counted sizes name (pos zero) width h ne = absurd (ne (omega arith))
size_of-counted sizes name (pos (suc zero)) width h ne = rw h (ap some (omega arith))
size_of-counted sizes name (pos (suc (suc n))) width h ne =
    let many : ltb 1 (suc (suc n)) ≡ true = ground arith in
    rw (many, h) (ap some (mul_comm width (suc (suc n))))

-- A string whose lengths are equal.
size_of-string :
    (sizes : Sizes) (len min_length : ℤ)
    → size_of_name "char" sizes ≡ some 1
    → constant_scalar (string (some (len, min_length))) ≢ 0
    → size_of sizes (record { name = "char"; bound = some len })
      ≡ some (constant_scalar (string (some (len, min_length))))
unfolding size_of constant_scalar
size_of-string sizes (negsuc n) m h ne = absurd (ne (ground arith))
size_of-string sizes (pos n) m h ne = rw h (ground arith)

size_of-number :
    (sizes : Sizes) (name : String) (x : Numbered)
    → size_of_name name sizes ≡ some x.width
    → constant_scalar (number x) ≢ 0
    → size_of sizes (counted name x.count) ≡ some (constant_scalar (number x))
unfolding constant_scalar
size_of-number sizes name x h ne = elim (Bool-cases (equal x.count x.min_count)) [
  | inl same ↦ rw same (size_of-counted sizes name x.count x.width h (rw same at ne))
  | inr differ ↦ absurd (ne (rw differ refl))
]

-- The element of the class that stands for a field of a constant size has this size.
pub size_of-c_type :
    (unset : ℤ) (sizes : Sizes) (t : TypeDef)
    → IsNamed sizes t
    → constant_type t ≢ 0
    → size_of sizes (c_type unset t) ≡ some (constant_type t)
unfolding c_type constant_type size_of constant_scalar
size_of-c_type unset sizes (struct name actions) h ne = rw h (ap some (omega arith))
size_of-c_type unset sizes (scalar name (number x)) h ne = size_of-number sizes name x h ne
size_of-c_type unset sizes (scalar name (string none)) h ne = absurd (ne refl)
size_of-c_type unset sizes (scalar name (string (some (len, min_length)))) h ne =
    size_of-string sizes len min_length h ne
size_of-c_type unset sizes (scalar name (float count display)) h ne =
    size_of-counted sizes name count 4 h ne
size_of-c_type unset sizes (scalar name (double count display)) h ne =
    size_of-counted sizes name count 8 h ne
size_of-c_type unset sizes (scalar name length_field) h ne = rw h refl
size_of-c_type unset sizes (scalar name unixtime) h ne = rw h refl

member_size-suffix :
    (sizes : Sizes) (prefix name t : String) (b : Option ℤ)
    → member_size sizes (text t ∷ (text prefix ∷ (text name ∷ (suffix b ∷ []))))
      ≡ size_of sizes (record { name = t; bound = b })
unfolding member_size
member_size-suffix sizes prefix name t none = refl
member_size-suffix sizes prefix name t (some n) = refl

struct_member-suffix :
    (sizes : Sizes) (name t : String) (b : Option ℤ)
    → member_size sizes (text t ∷ (text name ∷ (suffix b ∷ [])))
      ≡ size_of sizes (record { name = t; bound = b })
unfolding member_size
struct_member-suffix sizes name t none = refl
struct_member-suffix sizes name t (some n) = refl

-- A field of a constant size, whose type is named by what the header declares.
pub record IsSized (sizes : Sizes) (f : String × TypeDef) : Type 0 where
  pub is_named : IsNamed sizes f.1
  pub has_size : constant_type f.1 ≢ 0

-- The sum of the constant sizes, with no wrap.
unfoldable pub sum_sizes : List (String × TypeDef) → ℕ
sum_sizes [] = 0
sum_sizes ((name, t) ∷ fs) = constant_type t + sum_sizes fs

total_size-sum : (fs : List (String × TypeDef)) → total_size fs ≡ sum_sizes fs % 2 ^ 32
unfolding total_size sum_sizes
total_size-sum [] = refl
total_size-sum ((name, t) ∷ fs) = omega (arith, total_size-sum fs)

declared_size-sum :
    (unset : ℤ) (sizes : Sizes) (prefix : String) (fs : List (String × TypeDef))
    → All (IsSized sizes) fs
    → declared_size sizes (generate_fields unset prefix fs) ≡ some (sum_sizes fs)
unfolding declared_size generate_fields sum_sizes
declared_size-sum unset sizes prefix [] h = refl
declared_size-sum unset sizes prefix ((name, t) ∷ fs) (one, h) =
    rw
      (
        member_size-suffix sizes prefix name (c_type unset t).name (c_type unset t).bound,
        size_of-c_type unset sizes t one.is_named one.has_size,
        declared_size-sum unset sizes prefix fs h,
      )
      refl

-- When every field of a class has a constant size and a type that the header declares with this size,
-- and they have less than 2^32 bytes together, the members that GenerateFields declares have the size
-- that GenerateFunctions and GenerateParser put into the code for them.
pub declared_size-total_size :
    (unset : ℤ) (sizes : Sizes) (prefix : String) (fs : List (String × TypeDef))
    → All (IsSized sizes) fs
    → sum_sizes fs < 2 ^ 32
    → declared_size sizes (generate_fields unset prefix fs) ≡ some (total_size fs)
declared_size-total_size unset sizes prefix fs h small =
    declared_size-sum unset sizes prefix fs h ∙ ap some (omega (arith, total_size-sum fs))

-- A struct with a constant size has fields with constant sizes.
constant_actions-sum :
    (actions : ActionList) (size : ℕ)
    → constant_actions actions size ≢ 0
    → (constant_actions actions size ≡ size + sum_sizes (fields actions))
      × All (λ f. constant_type f.1 ≢ 0) (fields actions)
unfolding constant_actions sum_sizes fields
constant_actions-sum done size ne = (omega arith, tt)
constant_actions-sum (transformation name rest) size ne = constant_actions-sum rest size ne
constant_actions-sum (annotation_of name rest) size ne = constant_actions-sum rest size ne
constant_actions-sum (field name t rest) size ne = elim (Bool-cases (constant_type t == 0)) [
  | inl zero_size ↦ absurd (ne (rw (zero_size, constant_actions) refl))
  | inr more ↦
      let (sum, all) =
        constant_actions-sum rest (size + constant_type t) (rw (more, constant_actions) at ne) in
      (rw (more, constant_actions) (omega (arith, sum)), (ground arith, all))
]

struct_size-sum :
    (unset : ℤ) (sizes : Sizes) (fs : List (String × TypeDef))
    → All (λ f. IsNamed sizes f.1) fs
    → All (λ f. constant_type f.1 ≢ 0) fs
    → declared_size sizes (struct_members unset fs) ≡ some (sum_sizes fs)
unfolding declared_size struct_members sum_sizes
struct_size-sum unset sizes [] h k = refl
struct_size-sum unset sizes ((name, t) ∷ fs) (one, h) (ne, k) =
    rw
      (
        struct_member-suffix sizes name (c_type unset t).name (c_type unset t).bound,
        size_of-c_type unset sizes t one ne,
        struct_size-sum unset sizes fs h k,
      )
      refl

-- The struct that GenerateTypes declares for a struct of a constant size has this size, when the types
-- of its fields are named by what the header declares before it.
pub declared_size-constant_type :
    (unset : ℤ) (sizes : Sizes) (name : String) (actions : ActionList)
    → All (λ f. IsNamed sizes f.1) (fields actions)
    → constant_type (struct name actions) ≢ 0
    → declared_size sizes (struct_members unset (fields actions))
      ≡ some (constant_type (struct name actions))
unfolding constant_type
declared_size-constant_type unset sizes name actions h ne =
    let (sum, sized) = constant_actions-sum actions 0 ne in
    struct_size-sum unset sizes (fields actions) h sized ∙ ap some (omega (arith, sum))
