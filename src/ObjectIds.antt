-- ===== src/ObjectIds.antt =====
-- ObjectIdStore and CharId2ObjectIdAnnotation of romdump/romdump.cc: annotations that keep the names of
-- objects, and the objects of characters, as packets pass.
pub mod Naming
mod Tests
use openrom.Base.{
  ℕ, zero, suc, List, [], ◌∷◌, ◌++◌, Bool, true, false, Option, none, some, take, ◌==◌, ◌&&◌,
  if◌then◌else◌,
}
use openrom.Text.{same_bytes}
use openrom.Display.{Number, human_readable_content, signed_readable_content, first_value}
use openrom.SysNames.{Strings, find_string, insert_string}

-- What a field of the current struct has: a number, a string up to its zero, or a value of another type
-- with the text that it shows.
pub data Content : Type 0 where
  number : Number → Content
  signed_number : Number → Content
  text : List ℕ → Content
  other : List ℕ → Content

abbrev pub Fields : Type 0
Fields = List (List ℕ × Content)

-- `FindFieldByName`
unfoldable pub find_field_by_name : List ℕ → Fields → Option Content
find_field_by_name name [] = none
find_field_by_name name ((key, content) ∷ fields) =
    if same_bytes key name then some content else find_field_by_name name fields

abbrev pub objectid_field : List ℕ
objectid_field = 111 ∷ (98 ∷ (106 ∷ (101 ∷ (99 ∷ (116 ∷ (105 ∷ (100 ∷ [])))))))

abbrev pub race_field : List ℕ
race_field = 114 ∷ (97 ∷ (99 ∷ (101 ∷ [])))

abbrev pub name_field : List ℕ
name_field = 110 ∷ (97 ∷ (109 ∷ (101 ∷ [])))

abbrev pub charid_field : List ℕ
charid_field = 99 ∷ (104 ∷ (97 ∷ (114 ∷ (105 ∷ (100 ∷ [])))))

-- strrchr(): what stands before the last of a character.
unfoldable pub before_last : ℕ → List ℕ → Option (List ℕ)
before_last c [] = none
before_last c (d ∷ ds) = elim (before_last c ds) [
  | some before ↦ some (d ∷ before)
  | none ↦ if d == c then some [] else none
]

pub put_front : ℕ → List ℕ → List ℕ
put_front c [] = if c == 32 then [] else c ∷ []
put_front c (d ∷ ds) = c ∷ (d ∷ ds)

-- Without the spaces at the end.
unfoldable pub trim_end : List ℕ → List ℕ
trim_end [] = []
trim_end (c ∷ cs) = put_front c (trim_end cs)

-- The text of a race, without the number behind it.
pub race_name : List ℕ → List ℕ
race_name value = elim (before_last 60 value) [ none ↦ value | some before ↦ trim_end before ]

-- sizeof(value)
abbrev pub value_size : ℕ
value_size = 256

pub content_text : Content → Option (List ℕ)
content_text (number t) = human_readable_content value_size t
content_text (signed_number t) = signed_readable_content value_size t
content_text (text s) = some (take 254 (39 ∷ (s ++ (39 ∷ []))))
content_text (other shown) = some shown

-- The name that is kept: the field's, or else that of the race.
pub object_name : List ℕ → Content → Option (List ℕ)
object_name [] race = elim (content_text race) [ none ↦ none | some value ↦ some (race_name value) ]
object_name (c ∷ cs) race = some (take 255 (c ∷ cs))

-- What Apply does: nothing, an entry in the map, or a fault: values that are not there are read.
pub data Application {ℓ} (A : Type ℓ) : Type ℓ where
  skipped : Application A
  stored : A → Application A
  fault : Application A

pub store_name : Option ℕ → Option (List ℕ) → Strings → Application Strings
store_name (some id) (some value) ids = stored (insert_string id value ids)
store_name (some id) none ids = fault
store_name none value ids = fault

-- As the number type that it casts to; a signedType is an unsignedType.
unfoldable pub as_number : Content → Option Number
as_number (number t) = some t
as_number (signed_number t) = some t
as_number (text s) = none
as_number (other shown) = none

-- With the three fields.
pub apply_fields : Option Number → Content → Content → Strings → Application Strings
apply_fields (some t) race (text s) ids = store_name (first_value t) (object_name s race) ids
apply_fields id race name ids = skipped

-- `ObjectIdStore::Apply`
pub apply_objectid : Fields → Strings → Application Strings
apply_objectid fields ids = elim (find_field_by_name objectid_field fields) [
  | none ↦ skipped
  | some id ↦ elim (find_field_by_name race_field fields) [
    | none ↦ skipped
    | some race ↦ elim (find_field_by_name name_field fields) [
      | none ↦ skipped
      | some name ↦ apply_fields (as_number id) race name ids
    ]
  ]
]

-- `ObjectIdStore::Lookup`
pub lookup_objectid : Strings → ℕ → List ℕ
lookup_objectid ids value = elim (find_string value ids) [ none ↦ 63 ∷ [] | some s ↦ s ]

abbrev pub CharIds : Type 0
CharIds = List (ℕ × ℕ)

unfoldable pub find_id : ℕ → CharIds → Option ℕ
find_id n [] = none
find_id n ((id, object) ∷ rest) = if id == n then some object else find_id n rest

pub insert_id : ℕ → ℕ → CharIds → CharIds
insert_id id object ids = elim (find_id id ids) [
  | some old ↦ ids
  | none ↦ ids ++ ((id, object) ∷ [])
]

pub store_id : Option ℕ → Option ℕ → CharIds → Application CharIds
store_id (some id) (some object) ids = stored (insert_id id object ids)
store_id (some id) none ids = fault
store_id none object ids = fault

-- The second test is of the field and not of its type, so an object that is no number is a null pointer.
unfoldable pub apply_ids : Option Number → Option Number → CharIds → Application CharIds
apply_ids (some t) (some u) ids = store_id (first_value t) (first_value u) ids
apply_ids (some t) none ids = fault
apply_ids none object ids = skipped

-- `CharId2ObjectIdAnnotation::Apply`
unfoldable pub apply_charid : Fields → CharIds → Application CharIds
apply_charid fields ids = elim (find_field_by_name charid_field fields) [
  | none ↦ skipped
  | some id ↦ elim (find_field_by_name objectid_field fields) [
    | none ↦ skipped
    | some object ↦ apply_ids (as_number id) (as_number object) ids
  ]
]

-- `CharId2ObjectIdAnnotation::Lookup`
pub lookup_charid : CharIds → Strings → ℕ → List ℕ
lookup_charid ids names value = elim (find_id value ids) [
  | none ↦ 63 ∷ []
  | some object ↦ lookup_objectid names object
]
