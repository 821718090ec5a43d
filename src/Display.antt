-- ===== src/Display.antt =====
-- lib/protocoldisplay.cc: the text that a number is shown as.
use openrom.Base.{
  ℕ, zero, suc, ◌+◌, ◌-◌, ◌/◌, ◌%◌, ◌^◌, not, List, [], ◌∷◌, ◌++◌, Bool, true, false, Option, none,
  some, take, ltb, ◌==◌, ◌&&◌, if◌then◌else◌,
}
use openrom.Text.{decimal}

-- `%x`, on fuel for the digits.
unfoldable pub hex_digits : ℕ → ℕ → List ℕ
hex_digits zero n = []
hex_digits (suc fuel) n =
    let digit = if ltb (n % 16) 10 then 48 + n % 16 else 87 + n % 16 in
    let front = hex_digits fuel (n / 16) in if ltb n 16 then digit ∷ [] else front ++ (digit ∷ [])

unfoldable pub hexadecimal : ℕ → List ℕ
hexadecimal n = hex_digits (suc n) n

-- An unsignedType with the values that it was filled with: how many it is of, whether it is shown in
-- decimal, the lookup of its enumeration, and that of its annotation.
pub record Number : Type 0 where
  pub values : List ℕ
  pub count : ℕ
  pub is_decimal : Bool
  pub enumeration : Option (ℕ → Option (List ℕ))
  pub annotation : Option (ℕ → List ℕ)

-- snprintf(): the text that fits before the terminating zero.
abbrev pub snprintf : ℕ → List ℕ → List ℕ
snprintf room s = take (room - 1) s

-- `%u` or `0x%x`
unfoldable pub value_text : Bool → ℕ → List ℕ
value_text true n = decimal n
value_text false n = 48 ∷ (120 ∷ hexadecimal n)

-- `%s <%u>` or `%s <0x%x>`
unfoldable pub named_text : Bool → List ℕ → ℕ → List ℕ
named_text is_decimal name n = name ++ (32 ∷ (60 ∷ (value_text is_decimal n ++ (62 ∷ []))))

-- `<length %d>`
unfoldable pub length_text : ℕ → List ℕ
length_text n = 60 ∷ (108 ∷ (101 ∷ (110 ∷ (103 ∷ (116 ∷ (104 ∷ (32 ∷ (decimal n ++ (62 ∷ [])))))))))

-- What is shown of a number without an enumeration that applies.
pub annotated_text : Number → ℕ → List ℕ
annotated_text t n = elim t.annotation [
  | some provider ↦ named_text t.is_decimal (provider n) n
  | none ↦ if t.count == 1 then value_text t.is_decimal n else length_text t.count
]

-- What an enumeration has for the number; `?` when there is no annotation to ask.
unfoldable pub enumerated_text : Number → ℕ → Option (List ℕ) → List ℕ
enumerated_text t n (some name) = named_text t.is_decimal name n
enumerated_text t n none = elim t.annotation [
  | some provider ↦ annotated_text t n
  | none ↦ named_text t.is_decimal (63 ∷ []) n
]

unfoldable pub number_text : Number → ℕ → List ℕ
number_text t n = elim t.enumeration [
  | none ↦ annotated_text t n
  | some find ↦ enumerated_text t n (find n)
]

unfoldable pub first_value : Number → Option ℕ
first_value t = elim t.values [ [] ↦ none | v ∷ vs ↦ some v ]

-- Without values only the length can be shown.
pub unread_text : Number → Option (List ℕ)
unread_text t = elim t.enumeration [
  | some find ↦ none
  | none ↦ elim t.annotation [
    | some provider ↦ none
    | none ↦ if t.count == 1 then none else some (length_text t.count)
  ]
]

pub within : ℕ → Option (List ℕ) → Option (List ℕ)
within room none = none
within room (some s) = some (snprintf (room - 1) s)

-- `unsignedType::GetHumanReadableContent` into `room` bytes; `none` reads behind the values.
unfoldable pub human_readable_content : ℕ → Number → Option (List ℕ)
human_readable_content room t = elim (first_value t) [
  | none ↦ within room (unread_text t)
  | some n ↦ some (snprintf (room - 1) (number_text t n))
]

-- `%d`
pub signed_text : ℕ → List ℕ
signed_text n = if ltb n (2 ^ 31) then decimal n else 45 ∷ decimal (2 ^ 32 - n)

pub signed_content : ℕ → Number → Option (List ℕ)
signed_content room t = elim (first_value t) [
  | none ↦ none
  | some n ↦ some (snprintf (room - 1) (signed_text n))
]

pub has_enumeration : Number → Bool
has_enumeration t = elim t.enumeration [ none ↦ false | some find ↦ true ]

-- `signedType::GetHumanReadableContent`
unfoldable pub signed_readable_content : ℕ → Number → Option (List ℕ)
signed_readable_content room t =
    if t.is_decimal && (not (has_enumeration t) && t.count == 1)
    then signed_content room t
    else human_readable_content room t
