-- ===== src/ObjectIds/Tests.antt =====
-- A rat without a name, and a character that it stands for.
use openrom.Base.{ℕ, ◌≡◌, refl, arith, [], ◌∷◌, true, none, some}
use openrom.Text.{decimal, digits_of, same_bytes}
use openrom.Display.{Number, first_value, named_text, value_text}
use openrom.SysNames.{find_string, insert_string}
use openrom.ObjectIds.{
  Fields, number, text, objectid_field, race_field, name_field, charid_field, find_field_by_name,
  apply_objectid, apply_charid, lookup_charid, insert_id, find_id, stored, fault, apply_ids,
  as_number,
}
use openrom.ObjectIds.Naming.{IsObject, IsCharacter, IsEnumerated, lookup_charid-applied}

-- A number in decimal.
abbrev plain : ℕ → Number
plain n = record {
  values = n ∷ [];
  count = 1;
  is_decimal = true;
  enumeration = none;
  annotation = none;
}

-- The race 3 is called `Rat`.
abbrev rat : Number
rat = record (plain 3) { enumeration = some (λ (n : ℕ). some (82 ∷ (97 ∷ (116 ∷ [])))) }

abbrev a_rat : Fields
a_rat =
    (objectid_field, number (plain 7)) ∷ ((race_field, number rat) ∷ ((name_field, text []) ∷ []))

abbrev a_character : Fields
a_character = (charid_field, number (plain 5)) ∷ ((objectid_field, number (plain 7)) ∷ [])

rat-IsEnumerated : IsEnumerated rat 3 (82 ∷ (97 ∷ (116 ∷ [])))
unfolding first_value named_text value_text decimal digits_of
rat-IsEnumerated = record {
  find = (λ (n : ℕ). some (82 ∷ (97 ∷ (116 ∷ []))));
  value = refl;
  enumerated = refl;
  found = refl;
  fits = omega arith;
}

a_rat-IsObject : IsObject a_rat 7 (82 ∷ (97 ∷ (116 ∷ [])))
unfolding find_field_by_name first_value same_bytes
a_rat-IsObject = record {
  object = plain 7;
  race = rat;
  race_number = 3;
  has_object = refl;
  has_race = refl;
  has_no_name = refl;
  object_value = refl;
  race_enumerated = rat-IsEnumerated;
  name_plain = omega arith;
}

a_character-IsCharacter : IsCharacter a_character 5 7
unfolding find_field_by_name first_value same_bytes
a_character-IsCharacter = record {
  char_number = plain 5;
  object = plain 7;
  has_char = refl;
  has_object = refl;
  char_value = refl;
  object_value = refl;
}

no_name : find_string 7 [] ≡ none
unfolding find_string
no_name = refl

no_object : find_id 5 [] ≡ none
unfolding find_id
no_object = refl

lookup_charid-applied_example :
    (apply_objectid a_rat [] ≡ stored (insert_string 7 (82 ∷ (97 ∷ (116 ∷ []))) []))
    × ((apply_charid a_character [] ≡ stored (insert_id 5 7 []))
        × (lookup_charid (insert_id 5 7 []) (insert_string 7 (82 ∷ (97 ∷ (116 ∷ []))) []) 5
            ≡ 82 ∷ (97 ∷ (116 ∷ []))))
lookup_charid-applied_example =
    lookup_charid-applied a_rat a_character [] [] 7 5 (82 ∷ (97 ∷ (116 ∷ []))) a_rat-IsObject
      a_character-IsCharacter no_name no_object

-- An object that is no number is a null pointer.
object_no_number :
    apply_charid ((charid_field, number (plain 5)) ∷ ((objectid_field, text []) ∷ [])) [] ≡ fault
unfolding apply_charid apply_ids as_number find_field_by_name same_bytes
object_no_number = refl
