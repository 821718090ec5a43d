-- ===== src/Packing/Tests.antt =====
-- The transformation on nineteen packed bytes with a trailer.
use openrom.Base.{ℕ, ◌≡◌, refl, arith, List, [], ◌++◌, replicate}
use openrom.Rompack.{pack, packed}
use openrom.Packing.{filled, apply, untouched}
use openrom.Packing.Trailer.{trailer, apply-pack}

apply_nothing : apply [] ≡ untouched
unfolding apply
apply_nothing = refl

apply-pack_example :
    (bytes : List ℕ) × (pack (replicate 19 7) ≡ packed bytes)
    × (apply (bytes ++ trailer 1 2 3 4) ≡ filled (replicate 19 7))
apply-pack_example = apply-pack (replicate 19 7) 1 2 3 4 (omega arith) (omega arith)
