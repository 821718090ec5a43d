-- ===== src/Flow/Order.antt =====
-- The order of connections, by which romdump's map of flows finds them.
use openrom.Base.{◌≡◌, arith, true, false}
use openrom.Flow.{same_address, address_less, Endpoints, endpoints_less}

-- No connection is below itself.
pub endpoints_less-irreflexive : (a : Endpoints) → endpoints_less a a ≡ false
unfolding endpoints_less same_address address_less
endpoints_less-irreflexive a = ground arith

-- The order of connections is transitive.
pub endpoints_less-transitive :
    (a b c : Endpoints)
    → endpoints_less a b ≡ true
    → endpoints_less b c ≡ true
    → endpoints_less a c ≡ true
unfolding endpoints_less same_address address_less
endpoints_less-transitive a b c h k = ground arith

-- Two connections of which neither is below the other have the same addresses and ports.
pub endpoints_less-total :
    (a b : Endpoints)
    → endpoints_less a b ≡ false
    → endpoints_less b a ≡ false
    → (same_address a.source b.source ≡ true) × (same_address a.dest b.dest ≡ true)
unfolding endpoints_less same_address address_less
endpoints_less-total a b h k = ground arith

-- What the map takes for the same connection is the same.
pub endpoints_less-antisymmetric :
    (a b : Endpoints) → endpoints_less a b ≡ false → endpoints_less b a ≡ false → a ≡ b
unfolding endpoints_less same_address address_less
endpoints_less-antisymmetric a b h k = ground arith
