-- ===== src/Packing/Trailer.antt =====
-- ROMPacking takes off the trailer of some packets, and unpacks what is before it.
use openrom.Base.{
  ℕ, suc, ◌-◌, ◌^◌, ◌<◌, ◌≤◌, ◌≡◌, refl, subst, ap, arith, List, [], ◌∷◌, ◌++◌, true, false, length,
  length-append, take-append_eq, drop-append_eq, append_assoc, ◌==◌,
}
use openrom.Rompack.{done, unpack, start, pack, packed}
use openrom.Rompack.RoundTrip.{unpack-pack}
use openrom.Packing.{filled, has_mark, without_trailer, judge, apply}

abbrev mark : List ℕ
mark = 0x11 ∷ 0x10 ∷ 0 ∷ 0 ∷ []

-- Four bytes of any kind, and the mark.
abbrev pub trailer : ℕ → ℕ → ℕ → ℕ → List ℕ
trailer w x y z = w ∷ x ∷ y ∷ z ∷ mark

has_mark_lem : (front : List ℕ) → has_mark (front ++ mark) ≡ true
unfolding has_mark
has_mark_lem front =
    rw
      (drop-append_eq (length (front ++ mark) - 4) front mark
        (omega (arith, length-append {0} front mark)))
      refl

trailer_marked : (b w x y z : ℕ) (bs : List ℕ) → has_mark ((b ∷ bs) ++ trailer w x y z) ≡ true
trailer_marked b w x y z bs =
    subst (λ m. has_mark m ≡ true) (append_assoc (b ∷ bs) (w ∷ x ∷ y ∷ z ∷ []) mark)
      (has_mark_lem ((b ∷ bs) ++ (w ∷ x ∷ y ∷ z ∷ [])))

without_trailer_lem :
    (b w x y z : ℕ) (bs : List ℕ) → without_trailer ((b ∷ bs) ++ trailer w x y z) ≡ b ∷ bs
unfolding without_trailer
without_trailer_lem b w x y z bs = ground (
  arith,
  trailer_marked b w x y z bs,
  length-append {0} (b ∷ bs) (trailer w x y z),
  take-append_eq (length ((b ∷ bs) ++ trailer w x y z) - 8) (b ∷ bs) (trailer w x y z)
      (omega (arith, length-append {0} (b ∷ bs) (trailer w x y z))),
)

not_zero : (n : ℕ) → (suc n == 0) ≡ false
not_zero n = ground arith

apply_lem :
    (bytes src : List ℕ) (w x y z : ℕ)
    → unpack bytes ≡ done true src
    → apply (bytes ++ trailer w x y z) ≡ filled src
unfolding apply judge unpack start
apply_lem [] src w x y z e = cc
apply_lem (b ∷ bs) src w x y z e =
    rw (without_trailer_lem b w x y z bs, apply, not_zero (length (bs ++ trailer w x y z)))
      (ap judge e)

-- What `Pack` writes of more than 18 bytes and at most 2^30 is unpacked by `Apply` also when a
-- trailer of four bytes of any kind and the bytes 11 10 00 00 follows it.
pub apply-pack :
    (src : List ℕ) (w x y z : ℕ)
    → 18 < length src
    → length src ≤ 2 ^ 30
    → (bytes : List ℕ) × (pack src ≡ packed bytes) × (apply (bytes ++ trailer w x y z) ≡ filled src)
apply-pack src w x y z long small =
    let (bytes, wrote, back) = unpack-pack src long small in
    (bytes, wrote, apply_lem bytes src w x y z back)
