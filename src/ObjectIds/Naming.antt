-- ===== src/ObjectIds/Naming.antt =====
-- The name of a race comes back from the text that the race is shown as, and a character is shown with
-- the name of its object.
use openrom.Base.{
  ℕ, zero, suc, ◌+◌, ◌/◌, ◌%◌, ◌≤◌, ◌≡◌, ◌≢◌, refl, sym, ap, ◌∙◌, inl, inr, arith, List, [], ◌∷◌,
  ◌++◌, append_assoc, Bool, true, false, Option, none, some, Bool-cases, length, take_all, All,
  All-append, ltb, ◌==◌, if◌then◌else◌,
}
use openrom.Text.{decimal}
use openrom.Text.RoundTrip.{decimal-IsDigit}
use openrom.Display.{
  Number, human_readable_content, first_value, number_text, enumerated_text, named_text, value_text,
  hexadecimal, hex_digits,
}
use openrom.SysNames.{Strings, find_string, insert_string}
use openrom.SysNames.Naming.{All-weaken, find_string-insert_string}
use openrom.ObjectIds.{
  Fields, number, text, find_field_by_name, objectid_field, race_field, name_field, charid_field,
  before_last, trim_end, put_front, race_name, value_size, content_text, object_name, as_number,
  stored, store_name, apply_fields, apply_objectid, lookup_objectid, CharIds, find_id, insert_id,
  store_id, apply_ids, apply_charid, lookup_charid,
}

before_last-nowhere : (c : ℕ) (s : List ℕ) → All (λ d. d ≢ c) s → before_last c s ≡ none
unfolding before_last
before_last-nowhere c [] h = refl
before_last-nowhere c (d ∷ ds) (one, h) =
    rw (before_last-nowhere c ds h, differs d c one, before_last) refl
  where
    differs : (d c : ℕ) → d ≢ c → (d == c) ≡ false
    differs d c h = ground arith

before_last-append :
    (c : ℕ) (before behind : List ℕ)
    → All (λ d. d ≢ c) behind
    → before_last c (before ++ (c ∷ behind)) ≡ some before
unfolding before_last
before_last-append c [] behind h = rw (before_last-nowhere c behind h, same c, before_last) refl
  where
    same : (c : ℕ) → (c == c) ≡ true
    same c = ground arith
before_last-append c (d ∷ ds) behind h = rw (before_last-append c ds behind h, before_last) refl

-- The last character is no space.
abbrev pub EndsPlain : List ℕ → Type 0
EndsPlain [] = Unit
EndsPlain (c ∷ []) = c ≢ 32
EndsPlain (c ∷ (d ∷ ds)) = EndsPlain (d ∷ ds)

trim_end-space : (s : List ℕ) → EndsPlain s → trim_end (s ++ (32 ∷ [])) ≡ s
unfolding trim_end put_front
trim_end-space [] h = refl
trim_end-space (c ∷ []) h = ground arith
trim_end-space (c ∷ (d ∷ ds)) h = rw (trim_end-space (d ∷ ds) h) refl

hex_digits-plain : (fuel n : ℕ) → All (λ c. c ≢ 60) (hex_digits fuel n)
unfolding hex_digits
hex_digits-plain zero n = tt
hex_digits-plain (suc fuel) n = elim (Bool-cases (ltb n 16)) [
  | inl one ↦ rw (one, hex_digits) (digit n, tt)
  | inr more ↦
      rw (more, hex_digits)
        (All-append (λ c. c ≢ 60) (hex_digits fuel (n / 16)) _ (hex_digits-plain fuel (n / 16))
          (digit n, tt))
]
  where
    digit : (n : ℕ) → (if ltb (n % 16) 10 then 48 + n % 16 else 87 + n % 16) ≢ 60
    digit n = ground arith

value_text-plain : (is_decimal : Bool) (n : ℕ) → All (λ c. c ≢ 60) (value_text is_decimal n)
unfolding value_text hexadecimal
value_text-plain true n = All-weaken (decimal n) (λ c h. omega arith) (decimal-IsDigit n)
value_text-plain false n = (omega arith, (omega arith, hex_digits-plain (suc n) n))

race_name-before :
    (value before : List ℕ) → before_last 60 value ≡ some before → race_name value ≡ trim_end before
unfolding race_name
race_name-before value before h = rw (h, race_name) refl

race_name-named_text :
    (is_decimal : Bool) (name : List ℕ) (n : ℕ)
    → EndsPlain name
    → race_name (named_text is_decimal name n) ≡ name
unfolding named_text
race_name-named_text is_decimal name n plain =
    let behind = value_text is_decimal n ++ (62 ∷ []) in
    let rest =
      All-append (λ c. c ≢ 60) (value_text is_decimal n) (62 ∷ []) (value_text-plain is_decimal n)
        (omega arith, tt) in
    race_name-before (name ++ (32 ∷ (60 ∷ behind))) (name ++ (32 ∷ [])) (
      ap (before_last 60) (sym (append_assoc name (32 ∷ []) (60 ∷ behind)))
      ∙ before_last-append 60 (name ++ (32 ∷ [])) behind rest)
    ∙ trim_end-space name plain

-- A field that is shown by its enumeration, in the room there is for it.
pub record IsEnumerated (t : Number) (n : ℕ) (name : List ℕ) : Type 0 where
  pub find : ℕ → Option (List ℕ)
  pub value : first_value t ≡ some n
  pub enumerated : t.enumeration ≡ some find
  pub found : find n ≡ some name
  pub fits : length (named_text t.is_decimal name n) ≤ 254

content-IsEnumerated :
    (t : Number) (n : ℕ) (name : List ℕ)
    → IsEnumerated t n name
    → human_readable_content value_size t ≡ some (named_text t.is_decimal name n)
unfolding human_readable_content number_text enumerated_text
content-IsEnumerated t n name v =
    rw (v.value, v.enumerated, v.found, human_readable_content, number_text, enumerated_text)
      (ap some (take_all 254 _ v.fits))

-- The fields of a packet with an object that has no name of its own, but a race.
pub record IsObject (fields : Fields) (id : ℕ) (name : List ℕ) : Type 0 where
  pub object : Number
  pub race : Number
  pub race_number : ℕ
  pub has_object : find_field_by_name objectid_field fields ≡ some (number object)
  pub has_race : find_field_by_name race_field fields ≡ some (number race)
  pub has_no_name : find_field_by_name name_field fields ≡ some (text [])
  pub object_value : first_value object ≡ some id
  pub race_enumerated : IsEnumerated race race_number name
  pub name_plain : EndsPlain name

-- The fields of a packet with a character and its object.
pub record IsCharacter (fields : Fields) (char id : ℕ) : Type 0 where
  pub char_number : Number
  pub object : Number
  pub has_char : find_field_by_name charid_field fields ≡ some (number char_number)
  pub has_object : find_field_by_name objectid_field fields ≡ some (number object)
  pub char_value : first_value char_number ≡ some char
  pub object_value : first_value object ≡ some id

apply_objectid-IsObject :
    (fields : Fields) (ids : Strings) (id : ℕ) (name : List ℕ)
    → IsObject fields id name
    → apply_objectid fields ids ≡ stored (insert_string id name ids)
unfolding apply_objectid apply_fields as_number store_name object_name content_text
apply_objectid-IsObject fields ids id name v =
    rw
      (
        v.has_object,
        v.has_race,
        v.has_no_name,
        v.object_value,
        content-IsEnumerated v.race v.race_number name v.race_enumerated,
        race_name-named_text v.race.is_decimal name v.race_number v.name_plain,
        apply_objectid,
        apply_fields,
        as_number,
        store_name,
        object_name,
        content_text,
      )
      refl

apply_charid-IsCharacter :
    (fields : Fields) (chars : CharIds) (char id : ℕ)
    → IsCharacter fields char id
    → apply_charid fields chars ≡ stored (insert_id char id chars)
unfolding apply_charid apply_ids as_number store_id
apply_charid-IsCharacter fields chars char id v =
    rw
      (
        v.has_char, v.has_object, v.char_value, v.object_value, apply_charid, apply_ids, as_number,
        store_id,
      )
      refl

same_number : (n : ℕ) → (n == n) ≡ true
same_number n = ground arith

find_id-same :
    (n id object : ℕ) (ids : CharIds)
    → (id == n) ≡ true
    → find_id n ((id, object) ∷ ids) ≡ some object
unfolding find_id
find_id-same n id object ids h = rw (h, find_id) refl

find_id-other :
    (n id object : ℕ) (ids : CharIds)
    → (id == n) ≡ false
    → find_id n ((id, object) ∷ ids) ≡ find_id n ids
unfolding find_id
find_id-other n id object ids h = rw (h, find_id) refl

nothing_else : (found : Option ℕ) (o : ℕ) → found ≡ none → found ≡ some o → ⊥
nothing_else found o h k = cc

find_id-append :
    (n object : ℕ) (ids : CharIds)
    → find_id n ids ≡ none
    → find_id n (ids ++ ((n, object) ∷ [])) ≡ some object
unfolding find_id
find_id-append n object [] h = rw (same_number n, find_id) refl
find_id-append n object ((id, o) ∷ ids) h = elim (Bool-cases (id == n)) [
  | inl same ↦ absurd (nothing_else (find_id n ((id, o) ∷ ids)) o h (find_id-same n id o ids same))
  | inr other ↦
      find_id-other n id o (ids ++ ((n, object) ∷ [])) other
      ∙ find_id-append n object ids (sym (find_id-other n id o ids other) ∙ h)
]

find_id-insert_id :
    (n object : ℕ) (ids : CharIds)
    → find_id n ids ≡ none
    → find_id n (insert_id n object ids) ≡ some object
unfolding insert_id
find_id-insert_id n object ids h = rw (h, insert_id) (find_id-append n object ids h)

lookup-inserted :
    (id : ℕ) (name : List ℕ) (ids : Strings)
    → find_string id ids ≡ none
    → lookup_objectid (insert_string id name ids) id ≡ name
unfolding lookup_objectid find_string
lookup-inserted id name ids h =
    rw (find_string-insert_string id id name ids, h, same_number id, lookup_objectid, find_string)
      refl

-- Take a packet with an object without a name of its own, whose race an enumeration names, and a packet
-- with a character and this object, both new. The name does not end in a space, and its text with the
-- number has at most 254 characters. When the annotations were applied to both, the character is shown
-- with the name of the race.
pub lookup_charid-applied :
    (objects characters : Fields) (names : Strings) (chars : CharIds) (id char : ℕ) (name : List ℕ)
    → IsObject objects id name
    → IsCharacter characters char id
    → find_string id names ≡ none
    → find_id char chars ≡ none
    → (apply_objectid objects names ≡ stored (insert_string id name names))
      × ((apply_charid characters chars ≡ stored (insert_id char id chars))
          × (lookup_charid (insert_id char id chars) (insert_string id name names) char ≡ name))
unfolding lookup_charid
lookup_charid-applied objects characters names chars id char name v w new_name new_char = (
  apply_objectid-IsObject objects names id name v,
  (
    apply_charid-IsCharacter characters chars char id w,
    rw (find_id-insert_id char id chars new_char, lookup_charid)
        (lookup-inserted id name names new_name),
  ),
)
