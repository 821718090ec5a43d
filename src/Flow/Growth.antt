-- ===== src/Flow/Growth.antt =====
-- What a flow holds after `Append`.
use openrom.Base.{
  ℕ, zero, suc, ◌+◌, ◌*◌, ◌%◌, ◌^◌, ◌≤◌, ◌<◌, ◌≡◌, refl, sym, ap, subst, ◌∙◌, arith, List, ◌++◌,
  some, length, ltb, Bool-cases, inl, inr, length-append,
}
use native.Mathlib.Nat.{pow-succ', mul_assoc}
use openrom.Flow.{Flow, grow, append}

grow_lem :
    (fuel size needed : ℕ)
    → 0 < size
    → needed ≤ 2 ^ 31
    → needed ≤ size * 2 ^ fuel
    → (size' : ℕ) × (grow (suc fuel) size needed ≡ some size') × (needed ≤ size')
unfolding grow
grow_lem zero size needed h small enough = (size, ground arith, omega arith)
grow_lem (suc fuel) size needed h small enough = elim (Bool-cases (ltb size needed)) [
  | inr fits ↦ (size, rw fits refl, ground arith)
  | inl less ↦
      let doubled : size * 2 % 2 ^ 32 ≡ size * 2 = ground arith in
      let (size', grown, large) =
        grow_lem fuel (size * 2 % 2 ^ 32) needed (omega (arith, doubled)) small (
          rw doubled (
            subst (λ m. needed ≤ m)
              (ap (λ m. size * m) (pow-succ' 2 fuel) ∙ sym (mul_assoc size 2 (2 ^ fuel)))
              enough)) in
      (size', rw less grown, large)
]

-- A flow whose data and what is appended stay below 2^31 bytes takes the bytes at its end, and its
-- buffer is large enough for them.
pub append_lem :
    (flow : Flow) (bytes : List ℕ)
    → 0 < flow.buffer_size
    → length flow.bytes + length bytes ≤ 2 ^ 31
    → (flow' : Flow) × (append flow bytes ≡ some flow')
      × (flow'.bytes ≡ flow.bytes ++ bytes)
      × (length flow'.bytes ≤ flow'.buffer_size)
unfolding append
append_lem flow bytes h small =
    let (size, grown, large) =
      grow_lem 32 flow.buffer_size ((length flow.bytes + length bytes) % 2 ^ 32) h (omega arith)
        (omega arith) in
    (
      record flow { bytes = flow.bytes ++ bytes; buffer_size = size },
      rw grown refl,
      refl,
      omega (arith, length-append {0} flow.bytes bytes),
    )

-- Append leaves the offset where it is.
pub append-offset :
    (flow flow' : Flow) (bytes : List ℕ)
    → append flow bytes ≡ some flow'
    → flow'.current_data_offset ≡ flow.current_data_offset
unfolding append
append-offset flow flow' bytes e = ground arith
