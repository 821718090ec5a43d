-- ===== src/Connection/Stream/Front.antt =====
-- The front of a stream of bytes does not depend on what follows it.
use openrom.Base.{
  ℕ, zero, suc, ◌≤◌, ◌<◌, ◌≡◌, refl, ap, arith, List, [], ◌∷◌, ◌++◌, length, drop, length-drop,
  take-append_le, drop-append_le,
}
use openrom.Packet.{packet_size, of_memory, byte_at}
use openrom.Packet.Layout.{with_data}
use openrom.Connection.{packet_at}

byte_at-append : (xs ys : List ℕ) (i : ℕ) → i < length xs → byte_at (xs ++ ys) i ≡ byte_at xs i
byte_at-append [] ys i h = absurd (omega arith)
byte_at-append (x ∷ xs) ys zero h = refl
byte_at-append (x ∷ xs) ys (suc i) h = byte_at-append xs ys i (omega arith)

-- A header does not depend on what follows it.
of_memory-append :
    (xs ys : List ℕ)
    → packet_size ≤ length xs
    → of_memory (xs ++ ys) ≡ with_data (of_memory xs) (drop packet_size xs ++ ys)
unfolding of_memory
of_memory-append xs ys h =
    rw
      (
        byte_at-append xs ys 0 (omega arith),
        byte_at-append xs ys 1 (omega arith),
        byte_at-append xs ys 2 (omega arith),
        byte_at-append xs ys 3 (omega arith),
        byte_at-append xs ys 4 (omega arith),
        byte_at-append xs ys 5 (omega arith),
        byte_at-append xs ys 6 (omega arith),
        byte_at-append xs ys 7 (omega arith),
        byte_at-append xs ys 8 (omega arith),
        byte_at-append xs ys 9 (omega arith),
        byte_at-append xs ys 10 (omega arith),
        byte_at-append xs ys 11 (omega arith),
        drop-append_le 12 xs ys h,
      )
      refl

pub packet_at-append_length :
    (xs ys : List ℕ)
    → packet_size ≤ length xs
    → (packet_at (xs ++ ys)).p_length ≡ (packet_at xs).p_length
unfolding packet_at
packet_at-append_length xs ys h = rw (of_memory-append xs ys h) refl

-- A whole packet does not depend on what follows it.
pub packet_at-append :
    (xs ys : List ℕ)
    → packet_size ≤ length xs
    → (packet_at xs).p_length ≤ length xs
    → packet_at (xs ++ ys) ≡ packet_at xs
unfolding packet_at
packet_at-append xs ys h whole = rw (of_memory-append xs ys h) (
    ap (with_data (of_memory xs)) (
      unfold of_memory in
      take-append_le _ (drop packet_size xs) ys
        (omega (arith, h, whole, length-drop {0} packet_size xs))))
