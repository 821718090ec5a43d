-- ===== src/Rompack/Progress.antt =====
-- How far each label of `ROMPack::Unpack` moves in the source, and how much it writes.
use openrom.Base.{
  ℕ, zero, suc, ◌+◌, ◌-◌, ◌*◌, ◌/◌, ◌%◌, ◌≤◌, ◌<◌, ◌≡◌, refl, arith, List, [], ◌∷◌, ◌++◌, Bool,
  true, false, Option, none, some, length, get_elem?, drop, All, length-append, length-drop, ltb,
  ◌==◌, if◌then◌else◌, Option-cases, inl, inr, All-get_elem?,
}
use openrom.Packet.{IsByte}
use openrom.Rompack.{
  Label, standard, alternative, offset_count, command, State, Step, goto, ◌>>=◌, copy_input,
  copy_from, copy_output, zero_run, handle_count, read_u16, match_output, literals, three_bytes,
  trailing, try_standard, try_alternative, handle_offset_count, command_short, command_middle,
  command_long, try_command, step, u32,
}

pub get_elem?-lt : (xs : List ℕ) (i : ℕ) {x : ℕ} → get_elem? xs i ≡ some x → i < length xs
get_elem?-lt [] i e = cc
get_elem?-lt (y ∷ ys) zero e = omega arith
get_elem?-lt (y ∷ ys) (suc i) e = omega (arith, get_elem?-lt ys i e)

All-drop : (P : ℕ → Type 0) (n : ℕ) (xs : List ℕ) → All P xs → All P (drop n xs)
All-drop P zero xs h = h
All-drop P (suc n) [] h = tt
All-drop P (suc n) (x ∷ xs) h = All-drop P n xs h.1

-- Inversion of a successful bind.
pub bind_goto :
    {A P : Type 0} (m : Option A) {f : A → Step} {l : Label} {st : State}
    → (m >>= f) ≡ goto l st
    → ((a : A) → m ≡ some a → f a ≡ goto l st → P)
    → P
bind_goto none e k = cc
bind_goto (some a) e k = k a refl e

pub if_goto :
    {P : Type 0} (b : Bool) {x y : Step} {l : Label} {st : State}
    → (if b then x else y) ≡ goto l st
    → (b ≡ true → x ≡ goto l st → P)
    → (b ≡ false → y ≡ goto l st → P)
    → P
if_goto true e k m = k refl e
if_goto false e k m = m refl e

pub copy_input_lem :
    (src : List ℕ) (n pos : ℕ) (out : List ℕ) {st : State}
    → pos ≤ length src
    → copy_input src n pos out ≡ some st
    → (st.pos ≡ pos + n) × (pos + n ≤ length src) × (length st.out ≡ length out + n)
unfolding copy_input
copy_input_lem src zero pos out h e = ground arith
copy_input_lem src (suc n) pos out {st} h e = elim (Option-cases (get_elem? src pos)) [
  | inl missing ↦ absurd (false_case missing)
  | inr (b, found) ↦ ground (
    arith,
    copy_input_lem src n (suc pos) (out ++ (b ∷ [])) {st = st} (get_elem?-lt src pos found),
    length-append out (b ∷ []),
  )
]
  where
    false_case : get_elem? src pos ≡ none → ⊥
    false_case missing = cc

copy_from_lem :
    (n from : ℕ) (out : List ℕ) {out' : List ℕ}
    → copy_from n from out ≡ some out'
    → length out' ≡ length out + n
unfolding copy_from
copy_from_lem zero from out e = ground arith
copy_from_lem (suc n) from out {out'} e = elim (Option-cases (get_elem? out from)) [
  | inl missing ↦ absurd (false_case missing)
  | inr (b, found) ↦ ground (
    arith,
    copy_from_lem n (suc from) (out ++ (b ∷ [])) {out' = out'},
    length-append out (b ∷ []),
  )
]
  where
    false_case : get_elem? out from ≡ none → ⊥
    false_case missing = cc

copy_output_lem :
    (n distance : ℕ) (out : List ℕ) {out' : List ℕ}
    → copy_output n distance out ≡ some out'
    → length out' ≡ length out + n
unfolding copy_output
copy_output_lem n distance out {out'} e =
    ground (arith, copy_from_lem n (length out - distance) out {out' = out'})

zero_run_lem :
    (bytes : List ℕ) (acc mask pos : ℕ) {count pos' : ℕ}
    → All IsByte bytes
    → zero_run bytes acc mask pos ≡ some (count, pos')
    → (pos < pos') × (pos' ≤ pos + length bytes) × (count + 255 * pos ≤ acc + 255 * pos' + mask)
unfolding zero_run
zero_run_lem [] acc mask pos h e = cc
zero_run_lem (b ∷ bs) acc mask pos {count} {pos'} h e = ground (
  arith,
  h.0,
  zero_run_lem bs ((acc + 255) % 4294967296) mask (suc pos) {count = count} {pos' = pos'} h.1,
)

-- The count is at most the mask and 255 for each byte that it took.
handle_count_lem :
    (src : List ℕ) (acc mask pos : ℕ) {count pos' : ℕ}
    → All IsByte src
    → pos ≤ length src
    → handle_count src acc mask pos ≡ some (count, pos')
    → (pos ≤ pos') × (pos' ≤ length src) × (count + 255 * pos ≤ 255 * pos' + mask)
unfolding handle_count
handle_count_lem src acc mask pos {count} {pos'} h hp e = ground (
  arith,
  zero_run_lem (drop pos src) (acc % suc mask) mask pos {count = count} {pos' = pos'}
      (All-drop IsByte pos src h),
  length-drop pos src,
)

read_u16_lem :
    (src : List ℕ) (pos : ℕ) {word : ℕ} → read_u16 src pos ≡ some word → suc pos < length src
unfolding read_u16
read_u16_lem src pos {word} e = elim (Option-cases (get_elem? src (suc pos))) [
  | inl missing ↦ absurd (no_word missing)
  | inr (b, found) ↦ get_elem?-lt src (suc pos) found
]
  where
    no_word : get_elem? src (suc pos) ≡ none → ⊥
    no_word missing = ground arith

-- The labels in the order in which they follow one another at one position.
abbrev pub weight : Label → ℕ
weight standard = 1
weight alternative = 1
weight offset_count = 2
weight (command code) = 0

abbrev pub IsFetched : Label → Type 0
IsFetched standard = Unit {0}
IsFetched alternative = Unit {0}
IsFetched offset_count = Unit {0}
IsFetched (command code) = IsByte code

-- The source is not left, the position and the label move forward, and at most 255 bytes are
-- written for each byte that is taken.
pub record Advances (src : List ℕ) (l : Label) (st : State) (l' : Label) (st' : State)
    : Type 0 where
  pub within : st'.pos ≤ length src
  pub forward : 3 * st.pos + weight l' < 3 * st'.pos + weight l
  pub expands : length st'.out + 255 * st.pos ≤ length st.out + 255 * st'.pos
  pub fetched : IsFetched l'

module _ (src : List ℕ) (bytes : All IsByte src) where
  match_output_lem :
      (count distance pos : ℕ) (out : List ℕ) {l' : Label} {st' : State}
      → match_output count distance pos out ≡ goto l' st'
      → (l' ≡ offset_count) × (st'.pos ≡ pos) × (length st'.out ≡ length out + count)
  unfolding match_output
  match_output_lem count distance pos out {l'} {st'} e =
      bind_goto (copy_output count distance out) e
        λ out' copied ends. ground (arith, copy_output_lem count distance out copied)

  literals-Advances :
      (code : ℕ) (st : State) {l' : Label} {st' : State}
      → get_elem? src st.pos ≡ some code
      → literals src code st ≡ goto l' st'
      → Advances src standard st l' st'
  unfolding literals
  literals-Advances code st {l'} {st'} found e =
      bind_goto (handle_count src code 15 (suc st.pos)) e λ r counted rest.
        bind_goto (copy_input src (u32 (r.0 + 3)) r.1 st.out) rest λ st'' copied ends. ground (
          arith,
          get_elem?-lt src st.pos found,
          handle_count_lem src code 15 (suc st.pos) bytes (get_elem?-lt src st.pos found) counted,
          copy_input_lem src (u32 (r.0 + 3)) r.1 st.out {st = st''},
        )

  three_bytes-Advances :
      (code : ℕ) (st : State) {l' : Label} {st' : State}
      → three_bytes src code st ≡ goto l' st'
      → Advances src alternative st l' st'
  unfolding three_bytes
  three_bytes-Advances code st {l'} {st'} e =
      bind_goto (get_elem? src (suc st.pos)) e λ b found ends. ground (
        arith,
        get_elem?-lt src (suc st.pos) found,
        match_output_lem 3 (code / 4 + b * 4 + 0x801) (suc (suc st.pos)) st.out ends,
      )

  trailing-Advances :
      (code : ℕ) (st : State) {l' : Label} {st' : State}
      → st.pos ≤ length src
      → trailing src code st ≡ goto l' st'
      → Advances src offset_count st l' st'
  unfolding trailing
  trailing-Advances code st {l'} {st'} h e =
      bind_goto (copy_input src code st.pos st.out) e λ st'' copied rest.
        bind_goto (get_elem? src st''.pos) rest λ next found ends. ground (
          arith,
          copy_input_lem src code st.pos st.out {st = st''},
          get_elem?-lt src st''.pos found,
          All-get_elem? IsByte src st''.pos bytes found,
        )

  fetch-Advances :
      (code : ℕ) (l : Label) (st : State) {l' : Label} {st' : State}
      → weight l ≡ 1
      → get_elem? src st.pos ≡ some code
      → goto (command code) (record st { pos = suc st.pos }) ≡ goto l' st'
      → Advances src l st l' st'
  fetch-Advances code l st {l'} {st'} w found e =
      ground (arith, get_elem?-lt src st.pos found, All-get_elem? IsByte src st.pos bytes found)

  command_short-Advances :
      (code : ℕ) (st : State) {l' : Label} {st' : State}
      → IsByte code
      → command_short src code st ≡ goto l' st'
      → Advances src (command code) st l' st'
  unfolding command_short
  command_short-Advances code st {l'} {st'} byte e =
      bind_goto (get_elem? src st.pos) e λ b found ends. ground (
        arith,
        get_elem?-lt src st.pos found,
        match_output_lem (code / 32 + 1) (code / 4 % 8 + b * 8 + 1) (suc st.pos) st.out ends,
      )

  command_middle-Advances :
      (code : ℕ) (st : State) {l' : Label} {st' : State}
      → st.pos ≤ length src
      → command_middle src code st ≡ goto l' st'
      → Advances src (command code) st l' st'
  unfolding command_middle
  command_middle-Advances code st {l'} {st'} h e =
      bind_goto (handle_count src code 31 st.pos) e λ r counted rest.
        bind_goto (read_u16 src r.1) rest λ word found ends. ground (
          arith,
          handle_count_lem src code 31 st.pos bytes h counted,
          read_u16_lem src r.1 found,
          match_output_lem (u32 (r.0 + 2)) (word / 4 + 1) (suc (suc r.1)) st.out ends,
        )

  command_long-Advances :
      (code : ℕ) (st : State) {l' : Label} {st' : State}
      → st.pos ≤ length src
      → command_long src code st ≡ goto l' st'
      → Advances src (command code) st l' st'
  unfolding command_long
  command_long-Advances code st {l'} {st'} h e =
      bind_goto (handle_count src code 7 st.pos) e λ r counted rest.
        bind_goto (read_u16 src r.1) rest λ word found ends.
          if_goto (code / 8 % 2 * 8 * 2048 + word / 4 == 0) ends (λ over stop. cc)
            λ more ends'. ground (
              arith,
              handle_count_lem src code 7 st.pos bytes h counted,
              read_u16_lem src r.1 found,
              match_output_lem (u32 (r.0 + 2)) (code / 8 % 2 * 8 * 2048 + word / 4 + 0x4000)
                  (suc (suc r.1)) st.out ends',
            )

  -- Each label advances, whatever comes next.
  pub step-Advances :
      (l : Label) (st : State) {l' : Label} {st' : State}
      → st.pos ≤ length src
      → IsFetched l
      → step src l st ≡ goto l' st'
      → Advances src l st l' st'
  unfolding step try_standard try_alternative handle_offset_count try_command
  step-Advances standard st h f e = bind_goto (get_elem? src st.pos) e λ code found rest.
      if_goto (ltb code 0x10) rest (λ low ends. literals-Advances code st found ends)
        (λ high ends. fetch-Advances code standard st refl found ends)
  step-Advances alternative st h f e = bind_goto (get_elem? src st.pos) e λ code found rest.
      if_goto (ltb code 0x10) rest (λ low ends. three_bytes-Advances code st ends)
        (λ high ends. fetch-Advances code alternative st refl found ends)
  step-Advances offset_count st {l'} {st'} h f e =
      bind_goto (get_elem? src (st.pos - 2)) e λ previous found rest.
        if_goto (previous % 4 == 0) rest (λ none_left ends. ground arith)
          (λ some_left ends. trailing-Advances (previous % 4) st h ends)
  step-Advances (command code) st h f e =
      if_goto (ltb code 0x40) e
        (λ below ends.
          if_goto (ltb code 0x20) ends
            (λ low ends'.
              if_goto (ltb code 0x10) ends' (λ least stop. cc)
                (λ long more. command_long-Advances code st h more))
            (λ middle more. command_middle-Advances code st h more))
        (λ short ends. command_short-Advances code st f ends)
