-- ===== src/SysNames/Tests.antt =====
-- A file of two lines for one number.
use openrom.Base.{ℕ, ◌≡◌, ◌<◌, ◌⊎◌, inr, All, refl, arith, [], ◌∷◌}
use openrom.SysNames.{Strings, find_string, load_strings, lookup_string, lookup_stat}
use openrom.SysNames.Naming.{
  entry_text, identifier_text, csv_text, IsEntry, find_string-load_strings,
}
use openrom.Text.{decimal, digits_of}

-- `Sys7_name,A` and `Sys7_name,B`
abbrev names : Strings
names = (7, 65 ∷ []) ∷ ((7, 66 ∷ []) ∷ [])

one_name-IsEntry : (c : ℕ) → 0 < c → c < 10 ⊎ 10 < c → IsEntry (7, c ∷ [])
unfolding entry_text identifier_text decimal digits_of
one_name-IsEntry c positive other = record {
  small_id = omega arith;
  name_printed = ((positive, omega arith), tt);
  line_fits = omega arith;
}

names-AllEntries : All IsEntry names
names-AllEntries = (
  one_name-IsEntry 65 (omega arith) (inr (omega arith)),
  (one_name-IsEntry 66 (omega arith) (inr (omega arith)), tt),
)

find_string-load_strings_example :
    find_string 7 (load_strings (csv_text names)) ≡ find_string 7 names
find_string-load_strings_example = find_string-load_strings 7 names names-AllEntries

-- An unknown number, and a statistic's name.
unknown_number : lookup_string names 8 ≡ 63 ∷ []
unfolding lookup_string find_string
unknown_number = refl

stat_name : lookup_stat ((500007, 83 ∷ []) ∷ []) 7 ≡ 83 ∷ []
unfolding lookup_stat lookup_string find_string
stat_name = refl
