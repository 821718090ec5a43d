-- ===== src/Text/Memory.antt =====
-- What a write to memory leaves: the bytes that were written, and every other byte as it was.
use openrom.Base.{
  ℕ, zero, suc, ◌+◌, ◌-◌, ◌^◌, ◌≤◌, ◌<◌, ◌≡◌, ◌≢◌, refl, ap, ap₂, ◌∙◌, ◌⊎◌, inl, inr, arith, List,
  [], ◌∷◌, ◌++◌, true, Option, none, some, length, take, drop, get_elem?, All, All-append,
  length-append, length-take, length-drop,
}
use mathlib.Core.Option.{some-injective}
use openrom.Packet.{u32_at, u32_bytes}
use openrom.Text.{write_at, c_string, same_bytes}
use openrom.Text.RoundTrip.{c_string-append}

get_elem?-append_front :
    (xs ys : List ℕ) (i : ℕ) → i < length xs → get_elem? (xs ++ ys) i ≡ get_elem? xs i
get_elem?-append_front [] ys i small = absurd (omega arith)
get_elem?-append_front (x ∷ xs) ys zero small = refl
get_elem?-append_front (x ∷ xs) ys (suc i) small = get_elem?-append_front xs ys i (omega arith)

get_elem?-append_back :
    (xs ys : List ℕ) (i j : ℕ) → j ≡ length xs + i → get_elem? (xs ++ ys) j ≡ get_elem? ys i
get_elem?-append_back [] ys i j e = ap (get_elem? ys) (omega arith)
get_elem?-append_back (x ∷ xs) ys i zero e = absurd (omega arith)
get_elem?-append_back (x ∷ xs) ys i (suc j) e = get_elem?-append_back xs ys i j (omega arith)

get_elem?-take : (n : ℕ) (xs : List ℕ) (i : ℕ) → i < n → get_elem? (take n xs) i ≡ get_elem? xs i
get_elem?-take zero xs i small = absurd (omega arith)
get_elem?-take (suc n) [] i small = refl
get_elem?-take (suc n) (x ∷ xs) zero small = refl
get_elem?-take (suc n) (x ∷ xs) (suc i) small = get_elem?-take n xs i (omega arith)

get_elem?-drop :
    (n : ℕ) (xs : List ℕ) (i j : ℕ) → j ≡ n + i → get_elem? (drop n xs) i ≡ get_elem? xs j
get_elem?-drop zero xs i j e = ap (get_elem? xs) (omega arith)
get_elem?-drop (suc n) [] i j e = refl
get_elem?-drop (suc n) (x ∷ xs) i zero e = absurd (omega arith)
get_elem?-drop (suc n) (x ∷ xs) i (suc j) e = get_elem?-drop n xs i j (omega arith)

module _ (offset : ℕ) (bytes m : List ℕ) (fits : offset + length bytes ≤ length m) where
  at_offset : length (take offset m) ≡ offset
  at_offset = omega (arith, length-take offset m)

  pub length-write_at : length (write_at offset bytes m) ≡ length m
  unfolding write_at
  length-write_at = omega (
    arith,
    at_offset,
    length-append {0} (take offset m) (bytes ++ drop (offset + length bytes) m),
    length-append {0} bytes (drop (offset + length bytes) m),
    length-drop (offset + length bytes) m,
  )

  -- The bytes that were written.
  pub get_elem?-write_at_inside :
      (i j : ℕ)
      → j ≡ offset + i
      → i < length bytes
      → get_elem? (write_at offset bytes m) j ≡ get_elem? bytes i
  unfolding write_at
  get_elem?-write_at_inside i j e small =
      get_elem?-append_back (take offset m) _ i j (omega (arith, at_offset))
      ∙ get_elem?-append_front bytes _ i small

  -- Every other byte.
  pub get_elem?-write_at_outside :
      (i : ℕ)
      → (i < offset) ⊎ (offset + length bytes ≤ i)
      → get_elem? (write_at offset bytes m) i ≡ get_elem? m i
  unfolding write_at
  get_elem?-write_at_outside i (inl before) =
      get_elem?-append_front (take offset m) _ i (omega (arith, at_offset))
      ∙ get_elem?-take offset m i before
  get_elem?-write_at_outside i (inr behind) =
      get_elem?-append_back (take offset m) _ (i - offset) i (omega (arith, at_offset))
      ∙ get_elem?-append_back bytes _ (i - offset - length bytes) (i - offset) (omega arith)
      ∙ get_elem?-drop (offset + length bytes) m _ i (omega arith)

module _ {κ} (P : ℕ → Type κ) where
  All-take : (n : ℕ) (xs : List ℕ) → All P xs → All P (take n xs)
  All-take zero xs all = tt
  All-take (suc n) [] all = tt
  All-take (suc n) (x ∷ xs) (one, all) = (one, All-take n xs all)

  All-drop : (n : ℕ) (xs : List ℕ) → All P xs → All P (drop n xs)
  All-drop zero xs all = all
  All-drop (suc n) [] all = tt
  All-drop (suc n) (x ∷ xs) (one, all) = All-drop n xs all

  pub All-write_at :
      (offset : ℕ) (bytes m : List ℕ) → All P bytes → All P m → All P (write_at offset bytes m)
  unfolding write_at
  All-write_at offset bytes m new old =
      All-append P (take offset m) _ (All-take offset m old)
        (All-append P bytes _ new (All-drop (offset + length bytes) m old))

-- A word that was written is read.
pub u32_at-write_at :
    (offset n : ℕ) (m : List ℕ)
    → offset + 4 ≤ length m
    → n < 2 ^ 32
    → u32_at (write_at offset (u32_bytes n) m) offset ≡ n
u32_at-write_at offset n m fits small =
    rw
      (
        get_elem?-write_at_inside offset (u32_bytes n) m fits 0 offset (omega arith) (omega arith),
        get_elem?-write_at_inside offset (u32_bytes n) m fits 1 (suc offset) (omega arith)
            (omega arith),
        get_elem?-write_at_inside offset (u32_bytes n) m fits 2 (suc (suc offset)) (omega arith)
            (omega arith),
        get_elem?-write_at_inside offset (u32_bytes n) m fits 3 (suc (suc (suc offset)))
            (omega arith) (omega arith),
      )
      (omega arith)

-- A string is read as long as its bytes stand in the memory.
c_string_reads :
    (s m : List ℕ)
    → ((i : ℕ) → i < suc (length s) → get_elem? m i ≡ get_elem? (s ++ (0 ∷ [])) i)
    → (rest : List ℕ) × (m ≡ s ++ (0 ∷ rest))
c_string_reads [] [] same = absurd (none_some (same 0 (omega arith)))
  where
    none_some : ¬ (◌≡◌ {A = Option ℕ} none (some 0))
    none_some e = cc
c_string_reads [] (b ∷ m) same = (m, ap (λ c. c ∷ m) (some-injective _ _ (same 0 (omega arith))))
c_string_reads (c ∷ s) [] same = absurd (none_some (same 0 (omega arith)))
  where
    none_some : ¬ (none ≡ some c)
    none_some e = cc
c_string_reads (c ∷ s) (b ∷ m) same =
    let (rest, e) = c_string_reads s m (λ i small. same (suc i) (omega arith)) in
    (rest, ap₂ ◌∷◌ (some-injective _ _ (same 0 (omega arith))) e)

pub c_string-read :
    (offset : ℕ) (s m : List ℕ)
    → All (λ c. c ≢ 0) s
    → ((i : ℕ) → i < suc (length s) → get_elem? m (offset + i) ≡ get_elem? (s ++ (0 ∷ [])) i)
    → c_string (drop offset m) ≡ s
c_string-read offset s m nonzero same =
    let (rest, e) =
      c_string_reads s (drop offset m)
        (λ i small. get_elem?-drop offset m i (offset + i) refl ∙ same i small) in
    ap c_string e ∙ c_string-append s rest nonzero

pub same_bytes_refl : (m : List ℕ) → same_bytes m m ≡ true
unfolding same_bytes
same_bytes_refl [] = refl
same_bytes_refl (b ∷ m) = ground (arith, same_bytes_refl m)
