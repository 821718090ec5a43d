-- ===== src/Definition/Document/Enumerations.antt =====
-- `ParseEnum`: every value of the enumeration is found by its number.
use mathlib.Core.Option.{some-injective}
use openrom.Base.{
  ◌≡◌, refl, sym, subst, ◌∙◌, arith, inl, inr, List, [], ◌∷◌, ◌++◌, true, false, none, some,
  if◌then◌else◌, Bool-cases, Option-cases,
}
use openrom.Decode.{ℤ, pos, negsuc}
use openrom.Definition.{same, get_prop, element, other, Nodes, end, next}
use openrom.Definition.Numbers.{strtol, to_int}
use openrom.Definition.Fields.{Attributes, equal}
use openrom.Definition.Document.{lookup, add, add_value, parse_values}
use Prim.Native.String.{String}

pub equal_refl : (k : ℤ) → equal k k ≡ true
equal_refl (pos n) = ground arith
equal_refl (negsuc n) = ground arith

pub equal_sym : (j k : ℤ) → equal j k ≡ equal k j
equal_sym (pos m) (pos n) = ground arith
equal_sym (pos m) (negsuc n) = refl
equal_sym (negsuc m) (pos n) = refl
equal_sym (negsuc m) (negsuc n) = ground arith

-- The numbers of the entries are distinct.
abbrev pub AreDistinct : List (ℤ × String) → Type 0
AreDistinct [] = Unit {0}
AreDistinct ((key, value) ∷ entries) = (lookup key entries ≡ none) × AreDistinct entries

-- The map keeps what it has.
pub data Keeps (old new : List (ℤ × String)) : Type 0 where
  keeps :
      ((key : ℤ) (value : String) → lookup key old ≡ some value → lookup key new ≡ some value)
      → Keeps old new

lookup-append :
    (key k : ℤ) (value v : String) (entries : List (ℤ × String))
    → lookup key entries ≡ some value
    → lookup key (entries ++ ((k, v) ∷ [])) ≡ some value
unfolding lookup
lookup-append key k value v [] found = cc
lookup-append key k value v ((j, w) ∷ entries) found = elim (Bool-cases (equal j key)) [
  | inl here ↦
      rw (here, lookup)
        (subst (λ b. (if b then some w else lookup key entries) ≡ some value) here found)
  | inr later ↦
      rw (later, lookup)
        (lookup-append key k value v entries
          (subst (λ b. (if b then some w else lookup key entries) ≡ some value) later found))
]

lookup-append_new :
    (key : ℤ) (value : String) (entries : List (ℤ × String))
    → lookup key entries ≡ none
    → lookup key (entries ++ ((key, value) ∷ [])) ≡ some value
unfolding lookup
lookup-append_new key value [] missing = rw (equal_refl key) refl
lookup-append_new key value ((j, w) ∷ entries) missing = elim (Bool-cases (equal j key)) [
  | inl here ↦ absurd (contradiction here missing)
  | inr later ↦
      rw (later, lookup)
        (lookup-append_new key value entries
          (subst (λ b. (if b then some w else lookup key entries) ≡ none) later missing))
]
  where
    some_none : some w ≡ none → ⊥
    some_none e = cc

    contradiction :
        equal j key ≡ true → (if equal j key then some w else lookup key entries) ≡ none → ⊥
    contradiction here missing =
        some_none (subst (λ b. (if b then some w else lookup key entries) ≡ none) here missing)

lookup-append_other :
    (key k : ℤ) (v : String) (entries : List (ℤ × String))
    → lookup key entries ≡ none
    → equal k key ≡ false
    → lookup key (entries ++ ((k, v) ∷ [])) ≡ none
unfolding lookup
lookup-append_other key k v [] missing apart = rw apart refl
lookup-append_other key k v ((j, w) ∷ entries) missing apart = elim (Bool-cases (equal j key)) [
  | inl here ↦
      rw (here, lookup)
        (subst (λ b. (if b then some w else lookup key entries) ≡ none) here missing)
  | inr later ↦
      rw (later, lookup)
        (lookup-append_other key k v entries
          (subst (λ b. (if b then some w else lookup key entries) ≡ none) later missing) apart)
]

AreDistinct-append :
    (key : ℤ) (value : String) (entries : List (ℤ × String))
    → AreDistinct entries
    → lookup key entries ≡ none
    → AreDistinct (entries ++ ((key, value) ∷ []))
unfolding lookup
AreDistinct-append key value [] distinct missing = (refl, tt)
AreDistinct-append key value ((j, w) ∷ entries) (one, distinct) missing =
    elim (Bool-cases (equal j key)) [
      | inl here ↦ absurd (contradiction here missing)
      | inr later ↦ (
        lookup-append_other j key value entries one (equal_sym key j ∙ later),
        AreDistinct-append key value entries distinct
            (subst (λ b. (if b then some w else lookup key entries) ≡ none) later missing),
      )
    ]
  where
    some_none : some w ≡ none → ⊥
    some_none e = cc

    contradiction :
        equal j key ≡ true → (if equal j key then some w else lookup key entries) ≡ none → ⊥
    contradiction here missing =
        some_none (subst (λ b. (if b then some w else lookup key entries) ≡ none) here missing)

-- Every value among the nodes has a number and a name, and the number is found under that name.
abbrev pub Names : List (ℤ × String) → Nodes → Type 0
Names entries end = Unit {0}
Names entries (next other rest) = Names entries rest
Names entries (next (element tag attributes children) rest) =
    ((num : String) × (name : String) × (get_prop "num" attributes ≡ some num)
      × (get_prop "name" attributes ≡ some name)
      × (lookup (to_int (strtol 0 num).0) entries ≡ some name))
    × Names entries rest

-- What a list of values leaves.
pub record Enumerates (old new : List (ℤ × String)) (ns : Nodes) : Type 0 where
  pub kept : (key : ℤ) (value : String) → lookup key old ≡ some value → lookup key new ≡ some value
  pub distinct : AreDistinct new
  pub names : Names new ns

-- What one value adds.
record Adds (attributes : Attributes) (old new : List (ℤ × String)) : Type 0 where
  num : String
  name : String
  has_num : get_prop "num" attributes ≡ some num
  has_name : get_prop "name" attributes ≡ some name
  missing : lookup (to_int (strtol 0 num).0) old ≡ none
  added : new ≡ old ++ ((to_int (strtol 0 num).0, name) ∷ [])

add_value-Adds :
    (attributes : Attributes) (old new : List (ℤ × String))
    → add_value attributes old ≡ some new
    → Adds attributes old new
unfolding add_value add
add_value-Adds attributes old new e = elim (Option-cases (get_prop "num" attributes)) [
  | inl no_num ↦ refuse (rw (no_num, add_value) refl)
  | inr (num, has_num) ↦ elim (Option-cases (get_prop "name" attributes)) [
    | inl no_name ↦ refuse (rw (has_num, no_name, add_value) refl)
    | inr (name, has_name) ↦ elim (Bool-cases (strtol 0 num).1) [
      | inr partly ↦ refuse (rw (has_num, has_name, partly, add_value) refl)
      | inl all ↦ elim (Option-cases (lookup (to_int (strtol 0 num).0) old)) [
        | inr (v, taken) ↦ refuse (rw (has_num, has_name, all, add, taken, add_value) refl)
        | inl missing ↦ record {
          num = num;
          name = name;
          has_num = has_num;
          has_name = has_name;
          missing = missing;
          added =
              some-injective _ _
                (sym e ∙ rw (has_num, has_name, all, add, missing, add_value) refl);
        }
      ]
    ]
  ]
]
  where
    none_some : none ≡ some new → ⊥
    none_some e = cc

    refuse : add_value attributes old ≡ none → Adds attributes old new
    refuse c = absurd (none_some (sym c ∙ e))

values_step :
    (attributes : Attributes) (old more new : List (ℤ × String)) (rest : Nodes)
    → AreDistinct old
    → Adds attributes old more
    → (AreDistinct more → Enumerates more new rest)
    → Enumerates old new rest
      × ((num : String) × (name : String) × (get_prop "num" attributes ≡ some num)
          × (get_prop "name" attributes ≡ some name)
          × (lookup (to_int (strtol 0 num).0) new ≡ some name))
values_step attributes old more new rest distinct a go =
    let fits =
      subst AreDistinct (sym a.added) (AreDistinct-append _ a.name old distinct a.missing) in
    let e = go fits in
    (
      record {
        kept = λ key value found. e.kept key value (
            subst (λ m. lookup key m ≡ some value) (sym a.added)
              (lookup-append key _ value a.name old found));
        distinct = e.distinct;
        names = e.names;
      },
      (
        a.num,
        a.name,
        a.has_num,
        a.has_name,
        e.kept _ a.name (
            subst (λ m. lookup (to_int (strtol 0 a.num).0) m ≡ some a.name) (sym a.added)
              (lookup-append_new _ a.name old a.missing)),
      ),
    )

-- When the nodes of an enumeration are parsed, each of them has a number and a name, and that name is
-- found under the number, which no other node has. What was found before is found again. The entries
-- before have distinct numbers.
pub parse_values-Enumerates :
    (old new : List (ℤ × String)) (ns : Nodes)
    → AreDistinct old
    → parse_values old ns ≡ some new
    → Enumerates old new ns
unfolding parse_values
parse_values-Enumerates old new end distinct e =
    let same_list = some-injective _ _ e in
    record {
      kept = λ key value found. subst (λ m. lookup key m ≡ some value) same_list found;
      distinct = subst AreDistinct same_list distinct;
      names = tt;
    }
parse_values-Enumerates old new (next other rest) distinct e =
    let r = parse_values-Enumerates old new rest distinct e in
    record { kept = r.kept; distinct = r.distinct; names = r.names }
parse_values-Enumerates old new (next (element tag attributes children) rest) distinct e =
    elim (Bool-cases (same tag "value")) [
      | inr strange ↦ refuse (rw (strange, parse_values) refl)
      | inl value ↦ elim (Option-cases (add_value attributes old)) [
        | inl failed ↦ refuse (rw (value, failed, parse_values) refl)
        | inr (more, added) ↦
            let (r, found) =
              values_step attributes old more new rest distinct
                (add_value-Adds attributes old more added)
                (λ d.
                  parse_values-Enumerates more new rest d
                    (sym (rw (value, added, parse_values) refl) ∙ e)) in
            record { kept = r.kept; distinct = r.distinct; names = (found, r.names) }
      ]
    ]
  where
    none_some : none ≡ some new → ⊥
    none_some e = cc

    refuse :
        parse_values old (next (element tag attributes children) rest) ≡ none
        → Enumerates old new (next (element tag attributes children) rest)
    refuse c = absurd (none_some (sym c ∙ e))
