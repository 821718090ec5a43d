-- ===== src/Capture/Splitting.antt =====
-- How the bytes of a connection fall into packets, as a relation that knows nothing of how they
-- arrived, and that AnalyzeFlow decides it.
use openrom.Base.{
  ℕ, zero, suc, ◌+◌, ◌≤◌, ◌<◌, ◌≡◌, refl, sym, ap, subst, ◌∙◌, ◌⊎◌, inl, inr, arith, List, [], ◌∷◌,
  ◌++◌, length, take, drop, length-append, length-drop, length-take, drop-append_le, take-append_le,
  Bool, true, false, ltb, Bool-cases,
}
use native.Mathlib.Nat.{zero-add, suc-add}
use openrom.Packet.{of_memory, u32_at, packet_size}
use openrom.Capture.{consumed}
use openrom.Flow.{comes_back, analyze, analyzed, with_packet}

-- The header or some bytes behind it are not there yet, or the length cannot be that of a packet.
abbrev pub Waits : List ℕ → Type 0
Waits d =
    (length d < packet_size)
    ⊎ ((u32_at d 0 ≤ 131072) × ((u32_at d 0 < packet_size) ⊎ (length d < u32_at d 0)))

-- The packets with their numbers.
unfoldable pub numbered : ℕ → List (List ℕ) → List (ℕ × List ℕ)
numbered sequence [] = []
numbered sequence (p ∷ ps) = (sequence, p) ∷ numbered (suc sequence) ps

u32_at-append : (a b : List ℕ) → packet_size ≤ length a → u32_at (a ++ b) 0 ≡ u32_at a 0
u32_at-append [] b h = absurd (omega arith)
u32_at-append (x ∷ []) b h = absurd (omega arith)
u32_at-append (x ∷ (y ∷ [])) b h = absurd (omega arith)
u32_at-append (x ∷ (y ∷ (z ∷ []))) b h = absurd (omega arith)
u32_at-append (x ∷ (y ∷ (z ∷ (w ∷ rest)))) b h = refl

pub drop-drop : (m n : ℕ) (xs : List ℕ) → drop (m + n) xs ≡ drop n (drop m xs)
drop-drop zero n xs = rw zero-add refl
drop-drop (suc m) zero [] = rw (suc-add m zero) refl
drop-drop (suc m) (suc n) [] = rw (suc-add m (suc n)) refl
drop-drop (suc m) n (x ∷ xs) = rw (suc-add m n) (drop-drop m n xs)

-- The bytes that are cut off as the first packet.
abbrev pub first_of : List ℕ → List ℕ
first_of d = take (u32_at d 0) d

-- The bytes begin with as many as their length says.
pub record Cut (d : List ℕ) : Type 0 where
  pub has_header : packet_size ≤ length d
  pub not_huge : u32_at d 0 ≤ 131072
  pub not_tiny : packet_size ≤ u32_at d 0
  pub is_there : u32_at d 0 ≤ length d

Cut-append : (a b : List ℕ) → Cut a → Cut (a ++ b)
Cut-append a b w =
    let size = u32_at-append a b w.has_header in
    let more = length-append {0} a b in
    record {
      has_header = omega (arith, more, w.has_header);
      not_huge = omega (arith, size, w.not_huge);
      not_tiny = omega (arith, size, w.not_tiny);
      is_there = omega (arith, size, more, w.is_there);
    }

first_of-append : (a b : List ℕ) → Cut a → first_of (a ++ b) ≡ first_of a
first_of-append a b w =
    ap (λ n. take n (a ++ b)) (u32_at-append a b w.has_header)
    ∙ take-append_le (u32_at a 0) a b w.is_there

-- A length that AnalyzeFlow aborts on.
record Huge (d : List ℕ) : Type 0 where
  has_header : packet_size ≤ length d
  huge : 131072 < u32_at d 0

Cut-Waits : (d : List ℕ) → Cut d → Waits d → ⊥
Cut-Waits d h (inl few) = omega arith
Cut-Waits d h (inr (small, inl tiny)) = omega arith
Cut-Waits d h (inr (small, inr less)) = omega arith

both : (b : Bool) → b ≡ true → b ≡ false → ⊥
both b h k = cc

module _ (keepalive : Bool) where
  -- The bytes begin with a packet that AnalyzePacket comes back from.
  pub record Whole (d : List ℕ) : Type 0 where
    pub is_cut : Cut d
    pub back : comes_back keepalive (of_memory (first_of d)) ≡ true

  -- Bytes that end the program.
  data Bad (d : List ℕ) : Type 0 where
    huge : Huge d → Bad d
    ends : Cut d → comes_back keepalive (of_memory (first_of d)) ≡ false → Bad d

  -- The packets at the front of some bytes, and what is behind the last.
  pub data Splits : List ℕ → List (List ℕ) → List ℕ → Type 0 where
    waits : {d : List ℕ} → Waits d → Splits d [] d
    next :
        {d : List ℕ} {ps : List (List ℕ)} {left : List ℕ}
        → Whole d
        → Splits (drop (u32_at d 0) d) ps left
        → Splits d (take (u32_at d 0) d ∷ ps) left

  Whole-append : (a b : List ℕ) → Whole a → Whole (a ++ b)
  Whole-append a b w = record {
    is_cut = Cut-append a b w.is_cut;
    back = ap (λ d. comes_back keepalive (of_memory d)) (first_of-append a b w.is_cut) ∙ w.back;
  }

  -- What arrives later is behind what is left.
  pub Splits-append :
      {a left : List ℕ} {ps qs : List (List ℕ)} (b : List ℕ) {end : List ℕ}
      → Splits a ps left
      → Splits (left ++ b) qs end
      → Splits (a ++ b) (ps ++ qs) end
  Splits-append b (waits w) after = after
  Splits-append {a} {qs = qs} b {end} (next {ps = ps} w s) after =
      let size = u32_at-append a b w.is_cut.has_header in
      subst (λ p. Splits (a ++ b) (p ∷ (ps ++ qs)) end)
        (ap (λ n. take n (a ++ b)) size ∙ take-append_le (u32_at a 0) a b w.is_cut.is_there)
        (next (Whole-append a b w) (
          subst (λ d. Splits d (ps ++ qs) end)
            (sym
              (ap (λ n. drop n (a ++ b)) size ∙ drop-append_le (u32_at a 0) a b w.is_cut.is_there))
            (Splits-append b s after)))

  -- The packets are at the front, and the rest is left.
  pub Splits-drop :
      {d left : List ℕ} {ps : List (List ℕ)} (sequence : ℕ)
      → Splits d ps left
      → drop (consumed (numbered sequence ps)) d ≡ left
  unfolding consumed numbered
  Splits-drop sequence (waits w) = refl
  Splits-drop {d} sequence (next {ps = ps} w s) =
      let whole : length (take (u32_at d 0) d) ≡ u32_at d 0 =
        omega (arith, length-take (u32_at d 0) d, w.is_cut.is_there) in
      rw (whole, drop-drop (u32_at d 0) (consumed (numbered (suc sequence) ps)) d)
        (Splits-drop (suc sequence) s)

  pub consumed-le :
      {d left : List ℕ} {ps : List (List ℕ)} (sequence : ℕ)
      → Splits d ps left
      → consumed (numbered sequence ps) ≤ length d
  unfolding consumed numbered
  consumed-le sequence (waits w) = omega arith
  consumed-le {d} sequence (next {ps = ps} w s) = omega (
    arith,
    length-take (u32_at d 0) d,
    w.is_cut.is_there,
    length-drop (u32_at d 0) d,
    consumed-le (suc sequence) s,
  )

  classify : (d : List ℕ) → Waits d ⊎ (Whole d ⊎ Bad d)
  classify d = elim (Bool-cases (ltb (length d) packet_size)) [
    | inl few ↦ inl (inl (ground arith))
    | inr long ↦ elim (Bool-cases (ltb 131072 (u32_at d 0))) [
      | inl big ↦ inr (inr (huge (record { has_header = ground arith; huge = ground arith })))
      | inr small ↦ elim (Bool-cases (ltb (u32_at d 0) packet_size)) [
        | inl tiny ↦ inl (inr (ground arith, inl (ground arith)))
        | inr fits ↦ elim (Bool-cases (ltb (length d) (u32_at d 0))) [
          | inl less ↦ inl (inr (ground arith, inr (ground arith)))
          | inr there ↦
              let cut : Cut d = record {
                has_header = ground arith;
                not_huge = ground arith;
                not_tiny = ground arith;
                is_there = ground arith;
              } in
              elim (Bool-cases (comes_back keepalive (of_memory (first_of d)))) [
                | inl back ↦ inr (inl (record { is_cut = cut; back = back }))
                | inr gone ↦ inr (inr (ends cut gone))
              ]
        ]
      ]
    ]
  ]

  Bad-append : (a b : List ℕ) → Bad a → Bad (a ++ b)
  Bad-append a b (huge h) = huge (record {
    has_header = omega (arith, length-append {0} a b, h.has_header);
    huge = omega (arith, u32_at-append a b h.has_header, h.huge);
  })
  Bad-append a b (ends cut gone) =
      ends (Cut-append a b cut)
        (ap (λ d. comes_back keepalive (of_memory d)) (first_of-append a b cut) ∙ gone)

  Bad-Waits : (d : List ℕ) → Bad d → Waits d → ⊥
  Bad-Waits d (huge h) (inl few) = omega arith
  Bad-Waits d (huge h) (inr (small, other)) = omega arith
  Bad-Waits d (ends cut gone) w = Cut-Waits d cut w

  Whole-Waits : (d : List ℕ) → Whole d → Waits d → ⊥
  Whole-Waits d h w = Cut-Waits d h.is_cut w

  Bad-Whole : (d : List ℕ) → Bad d → Whole d → ⊥
  Bad-Whole d (huge h) w = too_huge h w.is_cut
    where
      too_huge : Huge d → Cut d → ⊥
      too_huge h c = omega arith
  Bad-Whole d (ends cut gone) w = absurd (both _ w.back gone)

  -- The packets of the bytes that came first, and those that the others complete.
  pub record Front (a b : List ℕ) (ps : List (List ℕ)) (left : List ℕ) : Type 0 where
    pub first : List (List ℕ)
    pub between : List ℕ
    pub second : List (List ℕ)
    pub first_part : Splits a first between
    pub second_part : Splits (between ++ b) second left

  front :
      {d left : List ℕ} {ps : List (List ℕ)}
      → Splits d ps left
      → (a b : List ℕ) → d ≡ a ++ b
      → Front a b ps left
  front {d} (waits w) a b e = elim (classify a) [
    | inl wa ↦ record {
      first = [];
      between = a;
      second = [];
      first_part = waits wa;
      second_part = subst (λ x. Splits x [] d) e (waits w);
    }
    | inr (inl wa) ↦ absurd (Whole-Waits (a ++ b) (Whole-append a b wa) (subst (λ x. Waits x) e w))
    | inr (inr ha) ↦ absurd (Bad-Waits (a ++ b) (Bad-append a b ha) (subst (λ x. Waits x) e w))
  ]
  front {d} {left} (next {ps = ps} w s) a b e = elim (classify a) [
    | inl wa ↦ record {
      first = [];
      between = a;
      second = take (u32_at d 0) d ∷ ps;
      first_part = waits wa;
      second_part = subst (λ x. Splits x (take (u32_at d 0) d ∷ ps) left) e (next w s);
    }
    | inr (inl wa) ↦
        let parts = front s (drop (u32_at a 0) a) b (
          ap (λ x. drop (u32_at x 0) x) e
          ∙ ap (λ n. drop n (a ++ b)) (u32_at-append a b wa.is_cut.has_header)
          ∙ drop-append_le (u32_at a 0) a b wa.is_cut.is_there) in
        record {
          first = take (u32_at a 0) a ∷ parts.first;
          between = parts.between;
          second = parts.second;
          first_part = next wa parts.first_part;
          second_part = parts.second_part;
        }
    | inr (inr ha) ↦ absurd (Bad-Whole (a ++ b) (Bad-append a b ha) (subst (λ x. Whole x) e w))
  ]

  pub Splits-front :
      (a b : List ℕ) {ps : List (List ℕ)} {left : List ℕ}
      → Splits (a ++ b) ps left
      → Front a b ps left
  Splits-front a b s = front s a b refl

  -- AnalyzeFlow cuts the packets off, in order and with consecutive numbers.
  pub analyze-Splits :
      (fuel sequence : ℕ) {d left : List ℕ} {ps : List (List ℕ)}
      → Splits d ps left
      → length d < fuel
      → analyze keepalive fuel d sequence
        ≡ analyzed (numbered sequence ps) left (sequence + length ps)
  unfolding analyze with_packet numbered
  analyze-Splits zero sequence s enough = absurd (omega arith)
  analyze-Splits (suc fuel) sequence (waits (inl few)) enough = ground arith
  analyze-Splits (suc fuel) sequence (waits (inr (small, inl tiny))) enough = ground arith
  analyze-Splits (suc fuel) sequence (waits (inr (small, inr less))) enough = ground arith
  analyze-Splits (suc fuel) sequence {d} (next w s) enough = ground (
    arith,
    w.is_cut.has_header,
    w.is_cut.not_huge,
    w.is_cut.not_tiny,
    w.is_cut.is_there,
    w.back,
    analyze-Splits fuel (suc sequence) s (
        omega (
          arith,
          length-drop (u32_at d 0) d,
          w.is_cut.has_header,
          w.is_cut.not_tiny,
          w.is_cut.is_there,
        )),
  )

  pub Splits-Waits : {d left : List ℕ} {ps : List (List ℕ)} → Splits d ps left → Waits left
  Splits-Waits (waits w) = w
  Splits-Waits (next w s) = Splits-Waits s
