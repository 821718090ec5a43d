-- ===== src/SysNames.antt =====
-- romdump/csvsysparser.cc, with SysName and StatName of romdump/romdump.cc: the names of
-- the game's objects, from a file of lines `Sys<number>_name,<name>`.
pub mod Naming
mod Tests
use openrom.Base.{
  ℕ, zero, suc, ◌+◌, ◌-◌, ◌%◌, ◌^◌, List, [], ◌∷◌, ◌++◌, Bool, true, false, Option, none, some,
  length, drop, take, ltb, ◌==◌, ◌&&◌, if◌then◌else◌,
}
use openrom.Text.{c_string, split_at, same_bytes}
use openrom.TcpFlow.{strtoul_end, fgets, without_newline}

-- LINE_MAX, less the zero that is written and the one of fgets.
abbrev pub csv_line_room : ℕ
csv_line_room = 1022

-- `_name`
abbrev pub name_suffix : List ℕ
name_suffix = 95 ∷ (110 ∷ (97 ∷ (109 ∷ (101 ∷ []))))

pub starts_with_sys : List ℕ → Bool
starts_with_sys s = same_bytes (take 3 s) (83 ∷ (121 ∷ (115 ∷ [])))

pub ends_with_name : List ℕ → Bool
ends_with_name s =
    if ltb (length s) 5 then false else same_bytes (drop (length s - 5) s) name_suffix

pub at_underscore : List ℕ → Bool
at_underscore [] = false
at_underscore (c ∷ cs) = c == 95

-- The number in an identifier, or none for a line that is passed over.
pub identifier : List ℕ → Option ℕ
identifier s =
    let (id, end) = strtoul_end 10 (drop 3 s) in
    if starts_with_sys s && ends_with_name s
    then if at_underscore end then some (id % 2 ^ 32) else none
    else none

-- The number and the name of a line.
pub parse_entry : List ℕ → Option (ℕ × List ℕ)
parse_entry line = elim (split_at 44 line) [
  | none ↦ none
  | some (before, content) ↦ elim (identifier before) [ none ↦ none | some id ↦ some (id, content) ]
]

abbrev pub Strings : Type 0
Strings = List (ℕ × List ℕ)

unfoldable pub find_string : ℕ → Strings → Option (List ℕ)
find_string n [] = none
find_string n ((id, s) ∷ rest) = if id == n then some s else find_string n rest

-- `m_Strings.insert()`, which keeps a name that is there.
unfoldable pub insert_string : ℕ → List ℕ → Strings → Strings
insert_string id s strings = elim (find_string id strings) [
  | some old ↦ strings
  | none ↦ strings ++ ((id, s) ∷ [])
]

pub take_entry : Option (ℕ × List ℕ) → Strings → Strings
take_entry none strings = strings
take_entry (some (id, s)) strings = insert_string id s strings

-- The loop of `CSVSysParser::Load`, on fuel for the lines.
pub load_lines : ℕ → List ℕ → Strings → Strings
load_lines zero file strings = strings
load_lines (suc fuel) [] strings = strings
load_lines (suc fuel) (c ∷ cs) strings =
    let (line, rest) = fgets csv_line_room (c ∷ cs) in
    load_lines fuel rest (take_entry (parse_entry (without_newline (c_string line))) strings)

-- The names that Load leaves.
pub load_strings : List ℕ → Strings
load_strings file = load_lines (length file) file []

-- `?`
abbrev pub default : List ℕ
default = 63 ∷ []

-- `CSVSysParser::Lookup` and `SysName::Lookup`
pub lookup_string : Strings → ℕ → List ℕ
lookup_string strings n = elim (find_string n strings) [ none ↦ default | some s ↦ s ]

-- `StatName::Lookup`
pub lookup_stat : Strings → ℕ → List ℕ
lookup_stat strings n = lookup_string strings ((500000 + n) % 2 ^ 32)
