-- ===== src/Rompack/Bounds.antt =====
-- `ROMPack::Unpack` ends on every input, and how large its output can be.
use openrom.Base.{
  ℕ, zero, suc, ◌+◌, ◌-◌, ◌*◌, ◌/◌, ◌%◌, ◌≤◌, ◌<◌, ◌≡◌, refl, ap, arith, List, [], Bool, true,
  false, Option, none, some, length, get_elem?, All, ltb, ◌==◌, if◌then◌else◌, inl, inr, ◌⊎◌, subst,
}
use openrom.Packet.{IsByte}
use openrom.Rompack.{
  Outcome, done, rejected, fault, stuck, Label, standard, alternative, offset_count, command, State,
  Step, goto, finish, ◌>>=◌, copy_input, copy_output, handle_count, read_u16, match_output,
  literals, three_bytes, trailing, try_standard, try_alternative, handle_offset_count,
  command_short, command_middle, command_long, try_command, step, u32, run, start, unpack,
  first_literals,
}
use openrom.Rompack.Progress.{
  weight, IsFetched, step-Advances, bind_goto, if_goto, copy_input_lem, get_elem?-lt,
}

-- The output that the stream ends with is what was written so far, and no label gives up.
abbrev Finishes : State → Outcome → Type 0
Finishes st (done ok out) = out ≡ st.out
Finishes st rejected = Unit {0}
Finishes st fault = Unit {0}
Finishes st stuck = ⊥

bind_finish :
    {A : Type 0} (m : Option A) {f : A → Step} {o : Outcome} (st : State)
    → (m >>= f) ≡ finish o
    → ((a : A) → m ≡ some a → f a ≡ finish o → Finishes st o)
    → Finishes st o
bind_finish none {o} st e k = subst (Finishes st) (fault_of e) tt
  where
    fault_of : finish fault ≡ finish o → fault ≡ o
    fault_of e = cc
bind_finish (some a) st e k = k a refl e

if_finish :
    {P : Type 0} (b : Bool) {x y : Step} {o : Outcome}
    → (if b then x else y) ≡ finish o
    → (x ≡ finish o → P)
    → (y ≡ finish o → P)
    → P
if_finish true e k m = k e
if_finish false e k m = m e

match_output_finish :
    (count distance pos : ℕ) (out : List ℕ) {o : Outcome} (st : State)
    → match_output count distance pos out ≡ finish o
    → Finishes st o
unfolding match_output
match_output_finish count distance pos out st e =
    bind_finish (copy_output count distance out) st e λ out' copied ends. cc

module _ (src : List ℕ) where
  literals_finish :
      (code : ℕ) (st : State) {o : Outcome} → literals src code st ≡ finish o → Finishes st o
  unfolding literals
  literals_finish code st e =
      bind_finish (handle_count src code 15 (suc st.pos)) st e λ r counted rest.
        bind_finish (copy_input src (u32 (r.0 + 3)) r.1 st.out) st rest λ st'' copied ends. cc

  three_bytes_finish :
      (code : ℕ) (st : State) {o : Outcome} → three_bytes src code st ≡ finish o → Finishes st o
  unfolding three_bytes
  three_bytes_finish code st e = bind_finish (get_elem? src (suc st.pos)) st e λ b found ends.
      match_output_finish 3 (code / 4 + b * 4 + 0x801) (suc (suc st.pos)) st.out st ends

  trailing_finish :
      (code : ℕ) (st : State) {o : Outcome} → trailing src code st ≡ finish o → Finishes st o
  unfolding trailing
  trailing_finish code st e =
      bind_finish (copy_input src code st.pos st.out) st e
        λ st'' copied rest. bind_finish (get_elem? src st''.pos) st rest λ next found ends. cc

  command_finish :
      (code : ℕ) (st : State) {o : Outcome} → try_command src code st ≡ finish o → Finishes st o
  unfolding try_command command_short command_middle command_long
  command_finish code st {o} e =
      if_finish (ltb code 0x40) e
        (λ below.
          if_finish (ltb code 0x20) below
            (λ low.
              if_finish (ltb code 0x10) low (λ least. subst (Finishes st) (unwrap least) tt) long)
            middle)
        (λ short. bind_finish (get_elem? src st.pos) st short λ b found ends.
          match_output_finish (code / 32 + 1) (code / 4 % 8 + b * 8 + 1) (suc st.pos) st.out st
            ends)
    where
      unwrap : {x : Outcome} → finish x ≡ finish o → x ≡ o
      unwrap least = cc

      long : command_long src code st ≡ finish o → Finishes st o
      long e = bind_finish (handle_count src code 7 st.pos) st e λ r counted rest.
          bind_finish (read_u16 src r.1) st rest λ word found ends.
            if_finish (code / 8 % 2 * 8 * 2048 + word / 4 == 0) ends
              (λ over. subst (Finishes st) (unwrap over) refl)
              (match_output_finish (u32 (r.0 + 2)) (code / 8 % 2 * 8 * 2048 + word / 4 + 0x4000)
                (suc (suc r.1)) st.out st)

      middle : command_middle src code st ≡ finish o → Finishes st o
      middle e = bind_finish (handle_count src code 31 st.pos) st e λ r counted rest.
          bind_finish (read_u16 src r.1) st rest λ word found ends.
            match_output_finish (u32 (r.0 + 2)) (word / 4 + 1) (suc (suc r.1)) st.out st ends

  step_finish : (l : Label) (st : State) {o : Outcome} → step src l st ≡ finish o → Finishes st o
  unfolding step try_standard try_alternative handle_offset_count
  step_finish standard st e =
      bind_finish (get_elem? src st.pos) st e
        λ code found rest. if_finish (ltb code 0x10) rest (literals_finish code st) (λ ends. cc)
  step_finish alternative st e =
      bind_finish (get_elem? src st.pos) st e
        λ code found rest. if_finish (ltb code 0x10) rest (three_bytes_finish code st) (λ ends. cc)
  step_finish offset_count st e =
      bind_finish (get_elem? src (st.pos - 2)) st e λ previous found rest.
        if_finish (previous % 4 == 0) rest (λ ends. cc) (trailing_finish (previous % 4) st)
  step_finish (command code) st e = command_finish code st e

pub Step-cases :
    (x : Step) → ((l : Label) × (st : State) × (x ≡ goto l st)) ⊎ ((o : Outcome) × (x ≡ finish o))
Step-cases (goto l st) = inl (l, st, refl)
Step-cases (finish o) = inr (o, refl)

-- An answer, with an output of at most 255 bytes for each byte of the source.
abbrev pub IsBounded : List ℕ → Outcome → Type 0
IsBounded src (done ok out) = length out ≤ 255 * length src
IsBounded src rejected = Unit {0}
IsBounded src fault = Unit {0}
IsBounded src stuck = ⊥

Finishes-IsBounded :
    (src : List ℕ) (st : State) (o : Outcome)
    → length st.out ≤ 255 * length src
    → Finishes st o
    → IsBounded src o
Finishes-IsBounded src st (done ok out) h f = omega (arith, ap length f)
Finishes-IsBounded src st rejected h f = tt
Finishes-IsBounded src st fault h f = tt
Finishes-IsBounded src st stuck h f = f

module _ (src : List ℕ) (bytes : All IsByte src) where
  run-IsBounded :
      (fuel : ℕ) (l : Label) (st : State)
      → st.pos ≤ length src
      → IsFetched l
      → length st.out ≤ 255 * st.pos
      → 3 * length src + weight l < fuel + 3 * st.pos
      → IsBounded src (run fuel src l st)
  unfolding run
  run-IsBounded zero l st within fetched small enough = absurd (omega arith)
  run-IsBounded (suc fuel) l st within fetched small enough = elim (Step-cases (step src l st)) [
    | inr (o, e) ↦ rw (e, run) (Finishes-IsBounded src st o (omega arith) (step_finish src l st e))
    | inl (l', st', e) ↦
        let a = step-Advances src bytes l st within fetched e in
        rw (e, run)
          (run-IsBounded fuel l' st' a.within a.fetched (omega (arith, a.expands))
            (omega (arith, a.forward)))
  ]

  start_goto :
      {l : Label} {st : State}
      → start src ≡ goto l st
      → (st.pos ≤ length src) × IsFetched l × (length st.out ≤ 255 * st.pos) × (weight l ≤ 1)
  unfolding start first_literals
  start_goto {l} {st} e = bind_goto (get_elem? src 0) e λ first found rest.
      if_goto (ltb 0x11 first) rest
        (λ above more. bind_goto (copy_input src (first - 0x11) 1 []) more λ st' copied ends.
          ground
            (arith, get_elem?-lt src 0 found, copy_input_lem src (first - 0x11) 1 [] {st = st'}))
        (λ below ends. ground arith)

  abbrev nothing : State
  nothing = record { pos = 0; out = [] }

  start_finish : {o : Outcome} → start src ≡ finish o → Finishes nothing o
  unfolding start first_literals
  start_finish e = bind_finish (get_elem? src 0) nothing e λ first found rest.
      if_finish (ltb 0x11 first) rest
        (λ above.
          bind_finish (copy_input src (first - 0x11) 1 []) nothing above λ st copied ends. cc)
        (λ below. cc)

  -- On every source of bytes `Unpack` returns or reads out of range after finitely many labels, and what it
  -- writes when it returns a length is at most 255 times as long as the source.
  pub unpack-IsBounded : IsBounded src (unpack src)
  unfolding unpack
  unpack-IsBounded = elim (Step-cases (start src)) [
    | inr (o, e) ↦ rw (e, unpack) (Finishes-IsBounded src nothing o (omega arith) (start_finish e))
    | inl (l, st, e) ↦
        let (within, fetched, small, light) = start_goto e in
        rw (e, unpack) (run-IsBounded (3 * length src + 3) l st within fetched small (omega arith))
  ]
