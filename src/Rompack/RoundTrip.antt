-- ===== src/Rompack/RoundTrip.antt =====
-- What `ROMPack::Pack` writes, `ROMPack::Unpack` reads back.
use openrom.Base.{
  ℕ, zero, suc, ◌+◌, ◌-◌, ◌*◌, ◌^◌, ◌<◌, ◌≤◌, ◌≡◌, refl, sym, ap, ◌∙◌, arith, List, [], ◌∷◌, ◌++◌,
  true, some, length, get_elem?, drop, replicate, ltb, ◌==◌, Bool-cases, inl, inr, subst,
  length-append, append-nil, append_assoc,
}
use openrom.Rompack.{
  done, standard, alternative, command, State, goto, finish, copy_input, zero_run, handle_count,
  read_u16, literals, try_standard, try_alternative, command_long, try_command, step, u32, run,
  start, unpack, packed, count_loop, frame, written, pack,
}

count_loop_lem :
    (fuel len padding : ℕ)
    → len < fuel
    → 0 < len
    → (z l : ℕ) × (count_loop fuel len padding ≡ some (z, l))
      × (l + 255 * z ≡ len + 255 * padding)
      × (0 < l)
      × (l < 256)
unfolding count_loop
count_loop_lem zero len padding h pos = absurd (omega arith)
count_loop_lem (suc fuel) len padding h pos = elim (Bool-cases (ltb 255 len)) [
  | inl more ↦
      let (z, l, e, total, low, high) =
        count_loop_lem fuel (len - 255) (suc padding) (omega arith) (ground arith) in
      (z, l, rw more e, ground arith, low, high)
  | inr last ↦ (padding, len, rw last refl, refl, pos, ground arith)
]

-- The byte at a place, and what follows it.
get_elem?-drop :
    {A : Type 0} (xs : List A) (i : ℕ) {x : A} {rest : List A}
    → drop i xs ≡ x ∷ rest
    → (get_elem? xs i ≡ some x) × (drop (suc i) xs ≡ rest)
get_elem?-drop [] zero e = cc
get_elem?-drop [] (suc i) e = cc
get_elem?-drop (y ∷ ys) zero e = (cc, cc)
get_elem?-drop (y ∷ ys) (suc i) e = get_elem?-drop ys i e

copy_input-drop :
    (src xs rest : List ℕ) (pos : ℕ) (out : List ℕ)
    → drop pos src ≡ xs ++ rest
    → (st : State) × (copy_input src (length xs) pos out ≡ some st)
      × (drop st.pos src ≡ rest)
      × (st.out ≡ out ++ xs)
      × (st.pos ≡ pos + length xs)
unfolding copy_input
copy_input-drop src [] rest pos out e =
    (record { pos = pos; out = out }, refl, e, sym (append-nil out), omega arith)
copy_input-drop src (x ∷ xs) rest pos out e =
    let (found, next) = get_elem?-drop src pos e in
    let (st, copied, left, written, place) =
      copy_input-drop src xs rest (suc pos) (out ++ (x ∷ [])) next in
    (
      st,
      rw (found, copy_input) copied,
      left,
      written ∙ append_assoc out (x ∷ []) xs,
      omega (arith, place),
    )

zero_run_padding :
    (z l acc mask pos count pos' : ℕ) (rest : List ℕ)
    → 0 < l
    → count ≡ acc + 255 * z + l + mask
    → pos' ≡ suc (pos + z)
    → count < 2 ^ 32
    → zero_run (replicate z 0 ++ (l ∷ rest)) acc mask pos ≡ some (count, pos')
unfolding zero_run
zero_run_padding zero l acc mask pos count pos' rest low e p small = ground arith
zero_run_padding (suc z) l acc mask pos count pos' rest low e p small = rw (
    zero_run_padding z l (u32 (acc + 255)) mask (suc pos) count pos' rest low (omega arith)
      (omega arith) small)

drop_padding : (z l : ℕ) (rest : List ℕ) → drop (suc z) (replicate z 0 ++ (l ∷ rest)) ≡ rest
drop_padding zero l rest = refl
drop_padding (suc z) l rest = drop_padding z l rest

abbrev ending : List ℕ
ending = 0x11 ∷ 0x00 ∷ 0x00 ∷ []

module _ (z l : ℕ) (src : List ℕ) (low : 0 < l) (total : 255 * z + l + 18 ≡ length src)
    (small : length src < 2 ^ 32) where
  -- The command byte and its count copy the whole data.
  standard_step :
      (st : State) × (step (frame z l src) standard (record { pos = 0; out = [] })
        ≡ goto alternative st)
      × (drop st.pos (frame z l src) ≡ ending)
      × (st.out ≡ src)
      × (st.pos ≡ 2 + z + length src)
  unfolding step try_standard literals handle_count frame
  standard_step =
      let (st, copied, left, written, place) =
        copy_input-drop (frame z l src) src ending (suc (suc z)) []
          (drop_padding z l (src ++ ending)) in
      (
        st,
        rw (
          zero_run_padding z l 0 15 1 (255 * z + l + 15) (suc (suc z)) (src ++ ending) low
              (omega arith) (omega arith) (omega arith),
          count_is,
          copied,
        ),
        left,
        written,
        omega (arith, place),
      )
    where
      count_is : u32 (255 * z + l + 15 + 3) ≡ length src
      count_is = omega arith

-- The three bytes of the end of the stream: the first is a code, and the others are its offset.
fetch_ending :
    (bytes : List ℕ) (st : State)
    → drop st.pos bytes ≡ ending
    → step bytes alternative st ≡ goto (command 0x11) (record st { pos = suc st.pos })
unfolding step try_alternative
fetch_ending bytes st e = let (first, _) = get_elem?-drop bytes st.pos e in rw first

read_ending : (bytes : List ℕ) (pos : ℕ) → drop pos bytes ≡ 0 ∷ 0 ∷ [] → read_u16 bytes pos ≡ some 0
unfolding read_u16
read_ending bytes pos e =
    let (second, after) = get_elem?-drop bytes pos e in
    let (third, _) = get_elem?-drop bytes (suc pos) after in rw (second, read_u16, third)

finish_ending :
    (bytes : List ℕ) (st : State)
    → drop st.pos bytes ≡ 0 ∷ 0 ∷ []
    → st.pos + 2 ≡ length bytes
    → step bytes (command 0x11) st ≡ finish (done true st.out)
unfolding step try_command command_long handle_count
finish_ending bytes st e whole = rw (read_ending bytes st.pos e, at_end)
  where
    at_end : (suc (suc st.pos) == length bytes) ≡ true
    at_end = ground arith

ending_steps :
    (bytes : List ℕ) (st : State) (fuel : ℕ)
    → drop st.pos bytes ≡ ending
    → st.pos + 3 ≡ length bytes
    → run (suc (suc fuel)) bytes alternative st ≡ done true st.out
unfolding run
ending_steps bytes st fuel e whole =
    let (_, after) = get_elem?-drop bytes st.pos e in
    rw (
      fetch_ending bytes st e,
      run,
      finish_ending bytes (record st { pos = suc st.pos }) after (omega arith),
      run,
    )

length-frame : (z l : ℕ) (src : List ℕ) → length (frame z l src) ≡ 5 + z + length src
unfolding frame
length-frame z l src = omega (
  arith,
  length-append {0} (replicate z 0) (l ∷ (src ++ ending)),
  length-append {0} src ending,
  length-padding z,
)
  where
    length-padding : (z : ℕ) → length (replicate {A = ℕ} z 0) ≡ z
    length-padding zero = refl
    length-padding (suc z) = ap suc (length-padding z)

pack-frame :
    (src : List ℕ) (z l : ℕ)
    → 18 < length src
    → count_loop (length src) (length src - 18) 0 ≡ some (z, l)
    → 0 < l
    → 5 + z + length src < 2 ^ 31
    → pack src ≡ packed (frame z l src)
unfolding pack written
pack-frame src z l long counted low fits = ground (arith, length-frame z l src)

unpack-frame :
    (z l : ℕ) (src : List ℕ)
    → 0 < l
    → 255 * z + l + 18 ≡ length src
    → length src < 2 ^ 32
    → unpack (frame z l src) ≡ done true src
unfolding unpack start run frame
unpack-frame z l src low total small =
    let (st, copies, left, written, place) = standard_step z l src low total small in
    subst (λ n. run n (frame z l src) standard (record { pos = 0; out = [] }) ≡ done true src) fuel
      (rw (copies, run)
        (ending_steps (frame z l src) st (3 * length (frame z l src)) left
            (omega (arith, place, length-frame z l src))
          ∙ ap (done true) written))
  where
    fuel : suc (suc (suc (3 * length (frame z l src)))) ≡ 3 * length (frame z l src) + 3
    fuel = omega arith

-- `Pack` succeeds on every source of more than 18 bytes and at most 2^30, and `Unpack` takes what it
-- wrote back to the source, with success.
pub unpack-pack :
    (src : List ℕ)
    → 18 < length src
    → length src ≤ 2 ^ 30
    → (bytes : List ℕ) × (pack src ≡ packed bytes) × (unpack bytes ≡ done true src)
unpack-pack src long small =
    let (z, l, counted, total, low, high) =
      count_loop_lem (length src) (length src - 18) 0 (omega arith) (omega arith) in
    (
      frame z l src,
      pack-frame src z l long counted low (omega (arith, total, small)),
      unpack-frame z l src low (omega (arith, total)) (omega (arith, small)),
    )
