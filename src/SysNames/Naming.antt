-- ===== src/SysNames/Naming.antt =====
-- The names that are looked up are those of the file.
use openrom.Base.{
  ℕ, zero, suc, ◌+◌, ◌-◌, ◌*◌, ◌^◌, ◌≤◌, ◌<◌, ◌≡◌, ◌≢◌, refl, sym, ap, subst, ◌∙◌, arith, List, [],
  ◌∷◌, ◌++◌, true, false, ◌&&◌, Option, some, none, Option-cases, Bool-cases, length, All,
  All-append, inl, inr, length-append, drop-append_eq, ltb, leb, ◌==◌,
}
use openrom.Text.{decimal, strtoul, strtoul_from, split_at, same_bytes}
use openrom.Text.RoundTrip.{
  IsDigit, decimal-IsDigit, strtoul-decimal, length-decimal_positive, split_at-append,
}
use openrom.TcpFlow.{
  strtoul_end, read_digits, digit_value, is_digit, past_sign, skip_space, is_white, past_prefix,
  unsigned_long,
}
use openrom.Text.Memory.{same_bytes_refl}
use openrom.TcpFlow.Dump.{IsPrinted, fgets-line, line_back}
use openrom.SysNames.{
  csv_line_room, name_suffix, starts_with_sys, ends_with_name, at_underscore, identifier,
  parse_entry, Strings, find_string, insert_string, take_entry, load_lines, load_strings,
}

-- `Sys<id>_name`
unfoldable pub identifier_text : ℕ → List ℕ
identifier_text id = 83 ∷ (121 ∷ (115 ∷ (decimal id ++ name_suffix)))

-- A line of the file, without its newline.
unfoldable pub entry_text : ℕ × List ℕ → List ℕ
entry_text (id, s) = identifier_text id ++ (44 ∷ s)

digit_value-digit : (c : ℕ) → IsDigit c → digit_value c ≡ some (c - 48)
unfolding digit_value
digit_value-digit c h = ground arith

read_digits-number :
    (acc : ℕ) (cs rest : List ℕ)
    → All IsDigit cs
    → read_digits 10 acc (cs ++ (95 ∷ rest)) ≡ (strtoul_from acc cs, 95 ∷ rest)
unfolding read_digits strtoul_from
read_digits-number acc [] rest h = unfold digit_value in refl
read_digits-number acc (c ∷ cs) rest (one, h) =
    rw (digit_value-digit c one, small c one, is c one, read_digits, strtoul_from)
      (read_digits-number (acc * 10 + (c - 48)) cs rest h)
  where
    small : (c : ℕ) → IsDigit c → ltb (c - 48) 10 ≡ true
    small c h = ground arith

    is : (c : ℕ) → IsDigit c → (leb 48 c && leb c 57) ≡ true
    is c h = ground arith

-- A digit is neither a space nor a sign.
begins : (c : ℕ) (cs : List ℕ) → IsDigit c → past_sign (skip_space (c ∷ cs)) ≡ (false, c ∷ cs)
unfolding past_sign skip_space is_white
begins c cs h = ground arith

no_prefix : (s : List ℕ) → past_prefix 10 s ≡ s
unfolding past_prefix
no_prefix [] = refl
no_prefix (c ∷ []) = refl
no_prefix (c ∷ (x ∷ cs)) = refl

is_digit-digit : (c : ℕ) (cs : List ℕ) → IsDigit c → is_digit 10 (c ∷ cs) ≡ true
unfolding is_digit
is_digit-digit c cs h = ground (arith, digit_value-digit c h)

strtoul_end-digits :
    (cs rest : List ℕ)
    → All IsDigit cs
    → 0 < length cs
    → strtoul_from 0 cs < 2 ^ 32
    → strtoul_end 10 (cs ++ (95 ∷ rest)) ≡ (strtoul_from 0 cs, 95 ∷ rest)
unfolding strtoul_end unsigned_long
strtoul_end-digits [] rest h some_digit small = absurd (omega arith)
strtoul_end-digits (c ∷ cs) rest (one, h) some_digit small =
    rw
      (
        begins c (cs ++ (95 ∷ rest)) one,
        no_prefix (c ∷ (cs ++ (95 ∷ rest))),
        is_digit-digit c (cs ++ (95 ∷ rest)) one,
        read_digits-number 0 (c ∷ cs) rest (one, h),
        within (strtoul_from 0 (c ∷ cs)) small,
      )
      refl
  where
    within : (n : ℕ) → n < 2 ^ 32 → leb (2 ^ 64) n ≡ false
    within n h = ground arith

strtoul_end-decimal :
    (id : ℕ) (rest : List ℕ)
    → id < 2 ^ 32
    → strtoul_end 10 (decimal id ++ (95 ∷ rest)) ≡ (id, 95 ∷ rest)
unfolding strtoul
strtoul_end-decimal id rest small =
    let value = strtoul-decimal id in
    subst (λ (n : ℕ). strtoul_end 10 (decimal id ++ (95 ∷ rest)) ≡ (n, 95 ∷ rest)) value
      (strtoul_end-digits (decimal id) rest (decimal-IsDigit id) (length-decimal_positive id)
        (omega (arith, value)))

ends_with-append : (s : List ℕ) → ends_with_name (s ++ name_suffix) ≡ true
unfolding ends_with_name
ends_with-append s =
    let both = length-append {0} s name_suffix in
    rw
      (
        long (length (s ++ name_suffix)) (omega (arith, both)),
        drop-append_eq (length (s ++ name_suffix) - 5) s name_suffix (omega (arith, both)),
        same_bytes_refl,
      )
      refl
  where
    long : (n : ℕ) → 5 ≤ n → ltb n 5 ≡ false
    long n h = ground arith

identifier-identifier_text : (id : ℕ) → id < 2 ^ 32 → identifier (identifier_text id) ≡ some id
unfolding identifier identifier_text at_underscore starts_with_sys same_bytes
identifier-identifier_text id small =
    rw (ends_with-append (83 ∷ (121 ∷ (115 ∷ decimal id))), strtoul_end-decimal id _ small)
      (ground arith)

pub record IsEntry (e : ℕ × List ℕ) : Type 0 where
  pub small_id : e.0 < 2 ^ 32
  pub name_printed : All IsPrinted e.1
  pub line_fits : length (entry_text e) < csv_line_room

-- No comma, zero or newline is in an identifier.
abbrev IsPlain : ℕ → Type 0
IsPlain c = (0 < c) × ((c ≢ 10) × (c ≢ 44))

pub All-weaken : {P Q : ℕ → Type 0} (xs : List ℕ) → ((c : ℕ) → P c → Q c) → All P xs → All Q xs
All-weaken [] f h = tt
All-weaken (x ∷ xs) f (p, h) = (f x p, All-weaken xs f h)

identifier_text-IsPlain : (id : ℕ) → All IsPlain (identifier_text id)
unfolding identifier_text
identifier_text-IsPlain id = (
  omega arith,
  (
    omega arith,
    (
      omega arith,
      All-append IsPlain (decimal id) name_suffix
          (All-weaken (decimal id) digit_plain (decimal-IsDigit id)) suffix,
    ),
  ),
)
  where
    digit_plain : (c : ℕ) → IsDigit c → IsPlain c
    digit_plain c h = (omega arith, (omega arith, omega arith))

    suffix : All IsPlain name_suffix
    suffix = omega arith

parse_entry-parts :
    (line before content : List ℕ) (id : ℕ)
    → split_at 44 line ≡ some (before, content)
    → identifier before ≡ some id
    → parse_entry line ≡ some (id, content)
unfolding parse_entry
parse_entry-parts line before content id h k = rw (h, k, parse_entry) refl

parse_entry-entry_text : (e : ℕ × List ℕ) → IsEntry e → parse_entry (entry_text e) ≡ some e
unfolding entry_text
parse_entry-entry_text (id, s) v =
    parse_entry-parts (entry_text (id, s)) (identifier_text id) s id
      (split_at-append 44 (identifier_text id) s
        (All-weaken (identifier_text id) (λ c p. p.1.1) (identifier_text-IsPlain id)))
      (identifier-identifier_text id v.small_id)

entry_text-IsPrinted : (e : ℕ × List ℕ) → IsEntry e → All IsPrinted (entry_text e)
unfolding entry_text
entry_text-IsPrinted (id, s) v =
    All-append IsPrinted (identifier_text id) (44 ∷ s)
      (All-weaken (identifier_text id) (λ c p. (p.0, p.1.0)) (identifier_text-IsPlain id))
      ((omega arith, omega arith), v.name_printed)

-- The first of two answers.
abbrev pub first_of : Option (List ℕ) → Option (List ℕ) → Option (List ℕ)
first_of (some s) later = some s
first_of none later = later

find_string-append :
    (n : ℕ) (xs ys : Strings)
    → find_string n (xs ++ ys) ≡ first_of (find_string n xs) (find_string n ys)
unfolding find_string
find_string-append n [] ys = refl
find_string-append n ((id, s) ∷ xs) ys = elim (Bool-cases (id == n)) [
  | inl same ↦ rw (same, find_string) refl
  | inr other ↦ rw (other, find_string) (find_string-append n xs ys)
]

first_of-none : (o : Option (List ℕ)) → first_of o none ≡ o
first_of-none none = refl
first_of-none (some s) = refl

first_of_assoc : (o p q : Option (List ℕ)) → first_of (first_of o p) q ≡ first_of o (first_of p q)
first_of_assoc none p q = refl
first_of_assoc (some s) p q = refl

same_number : (id n : ℕ) → (id == n) ≡ true → id ≡ n
same_number id n h = ground arith

-- An entry that is inserted is found behind those that are there.
pub find_string-insert_string :
    (n id : ℕ) (s : List ℕ) (strings : Strings)
    → find_string n (insert_string id s strings)
      ≡ first_of (find_string n strings) (find_string n ((id, s) ∷ []))
unfolding insert_string find_string
find_string-insert_string n id s strings = elim (Option-cases (find_string id strings)) [
  | inl nothing ↦ rw (nothing, insert_string) (find_string-append n strings ((id, s) ∷ []))
  | inr (old, found) ↦
      rw (found, insert_string)
        (elim (Bool-cases (id == n)) [
          | inl same ↦
              rw (subst (λ k. find_string k strings ≡ some old) (same_number id n same) found) refl
          | inr other ↦ rw (other, find_string) (sym (first_of-none (find_string n strings)))
        ])
]

-- A file of the entries, each on a line.
unfoldable pub csv_text : Strings → List ℕ
csv_text [] = []
csv_text (e ∷ es) = entry_text e ++ (10 ∷ csv_text es)

load_lines-next :
    (fuel : ℕ) (e : ℕ × List ℕ) (file : List ℕ) (strings : Strings)
    → IsEntry e
    → load_lines (suc fuel) (entry_text e ++ (10 ∷ file)) strings
      ≡ load_lines fuel file (insert_string e.0 e.1 strings)
unfolding load_lines take_entry entry_text identifier_text
load_lines-next fuel (id, s) file strings v =
    rw
      (
        fgets-line csv_line_room (entry_text (id, s)) file (entry_text-IsPrinted (id, s) v)
            v.line_fits,
        line_back (entry_text (id, s)) (entry_text-IsPrinted (id, s) v),
        parse_entry-entry_text (id, s) v,
      )
      refl

csv_text-load_lines :
    (n fuel : ℕ) (es strings : Strings)
    → All IsEntry es
    → length es ≤ fuel
    → find_string n (load_lines fuel (csv_text es) strings)
      ≡ first_of (find_string n strings) (find_string n es)
unfolding csv_text load_lines find_string
csv_text-load_lines n zero [] strings h enough = sym (first_of-none _)
csv_text-load_lines n (suc fuel) [] strings h enough = sym (first_of-none _)
csv_text-load_lines n zero (e ∷ es) strings h enough = absurd (omega arith)
csv_text-load_lines n (suc fuel) (e ∷ es) strings (v, h) enough =
    rw
      (
        load_lines-next fuel e (csv_text es) strings v,
        csv_text-load_lines n fuel es (insert_string e.0 e.1 strings) h (omega arith),
        find_string-insert_string n e.0 e.1 strings,
      )
      (first_of_assoc (find_string n strings) (find_string n ((e.0, e.1) ∷ [])) (find_string n es)
        ∙ ap (first_of (find_string n strings)) (sym (find_string-append n ((e.0, e.1) ∷ []) es)))

length-csv_text : (es : Strings) → length es ≤ length (csv_text es)
unfolding csv_text
length-csv_text [] = omega arith
length-csv_text (e ∷ es) =
    omega (arith, length-append {0} (entry_text e) (10 ∷ csv_text es), length-csv_text es)

-- Take a file with entries `Sys<number>_name,<name>`, each on a line of fewer than 1022 characters, with
-- numbers below 2^32 and no zero or newline in a name. After Load, a number has the name of its first
-- entry, and no name without an entry.
pub find_string-load_strings :
    (n : ℕ) (es : Strings)
    → All IsEntry es
    → find_string n (load_strings (csv_text es)) ≡ find_string n es
unfolding load_strings find_string
find_string-load_strings n es h =
    csv_text-load_lines n (length (csv_text es)) es [] h (length-csv_text es)
