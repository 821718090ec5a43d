-- ===== src/Connection/Stream/Append.antt =====
-- A stream may be cut anywhere: what is pending of its first part goes on with the second.
use openrom.Base.{
  ◌⊎◌, ℕ, zero, suc, ◌≤◌, ◌<◌, ◌≡◌, refl, inl, inr, arith, List, ◌++◌, length, drop, length-append,
  length-drop, ltb, leb, ◌||◌, drop-append_le, if_split,
}
use openrom.Packet.{Packet, packet_size}
use openrom.Connection.{Host, packet_at, s_max_packet_size}
use openrom.Connection.Stream.{
  Session, Cut, short, bad, packet, cut, Response, taken, refused, past_key, respond, digest,
  stream, resume,
}
use openrom.Connection.Stream.Front.{packet_at-append, packet_at-append_length}

-- What the front of some bytes may be.
pub data Fronts (bytes : List ℕ) : Cut → Type 0 where
  short_front : length bytes < s_max_packet_size → Fronts bytes short
  bad_front : Fronts bytes bad
  packet_front :
      packet_size ≤ (packet_at bytes).p_length
      → (packet_at bytes).p_length ≤ length bytes
      → Fronts bytes (packet (packet_at bytes) (drop (packet_at bytes).p_length bytes))

pub cut-Fronts : (bytes : List ℕ) → Fronts bytes (cut bytes)
unfolding cut
cut-Fronts bytes =
    if_split (Fronts bytes) (ltb (length bytes) packet_size) (λ few. short_front (ground arith))
      (λ long.
        if_split (Fronts bytes)
          (ltb (packet_at bytes).p_length packet_size
            || leb s_max_packet_size (packet_at bytes).p_length)
          (λ implausible. bad_front)
          (λ plausible.
            if_split (Fronts bytes) (ltb (length bytes) (packet_at bytes).p_length)
              (λ less. short_front (ground arith))
              (λ whole. packet_front (ground arith) (ground arith))))

cut-append_bad : (a b : List ℕ) → cut a ≡ bad → cut (a ++ b) ≡ bad
unfolding cut
cut-append_bad a b e = ground (arith, length-append {0} a b, packet_at-append_length a b)

cut-append_packet :
    (a b : List ℕ) (p : Packet) (rest : List ℕ)
    → cut a ≡ packet p rest
    → cut (a ++ b) ≡ packet p (rest ++ b)
unfolding cut
cut-append_packet a b p rest e = ground (
  arith,
  length-append {0} a b,
  packet_at-append_length a b,
  packet_at-append a b,
  drop-append_le (packet_at a).p_length a b,
)

-- A packet takes some bytes.
cut-length :
    (a : List ℕ) (p : Packet) (rest : List ℕ) → cut a ≡ packet p rest → length rest < length a
unfolding cut
cut-length a p rest e = ground (arith, length-drop (packet_at a).p_length a)

pub pending-length : (a : List ℕ) → cut a ≡ short → length a < s_max_packet_size
unfolding cut
pending-length a e = ground arith

Cut-cases :
    (x : Cut) → (x ≡ short) ⊎ (x ≡ bad) ⊎ ((p : Packet) × (rest : List ℕ) × (x ≡ packet p rest))
Cut-cases short = inl refl
Cut-cases bad = inr (inl refl)
Cut-cases (packet p rest) = inr (inr (p, rest, refl))

Response-cases :
    {S : Type 0} (r : Response S)
    → ((x : Session) × (s : S) × (r ≡ taken x s)) ⊎ ((s : S) × (r ≡ refused s)) ⊎ (r ≡ past_key)
Response-cases (taken x s) = inl (x, s, refl)
Response-cases (refused s) = inr (inl (s, refl))
Response-cases past_key = inr (inr refl)

module _ {S : Type 0} (h : Host S) where
  -- The fuel does not show, once it is more than the bytes.
  digest_fuel :
      (f g : ℕ) (x : Session) (bytes : List ℕ) (s : S)
      → length bytes < f
      → length bytes < g
      → digest h f x bytes s ≡ digest h g x bytes s
  unfolding digest
  digest_fuel zero g x bytes s ef eg = absurd (omega arith)
  digest_fuel (suc f) zero x bytes s ef eg = absurd (omega arith)
  digest_fuel (suc f) (suc g) x bytes s ef eg = elim (Cut-cases (cut bytes)) [
    | inl e ↦ rw (e, digest) refl
    | inr (inl e) ↦ rw (e, digest) refl
    | inr (inr (p, rest, e)) ↦ elim (Response-cases (respond h x p (h.on_raw_packet p s))) [
      | inl (x', s', r) ↦
          rw (e, r, digest)
            (digest_fuel f g x' rest s' (omega (arith, cut-length bytes p rest e))
              (omega (arith, cut-length bytes p rest e)))
      | inr (inl (s', r)) ↦ rw (e, r, digest) refl
      | inr (inr r) ↦ rw (e, r, digest) refl
    ]
  ]

  digest-append :
      (f g : ℕ) (x : Session) (a b : List ℕ) (s : S)
      → length (a ++ b) < f
      → length a < g
      → digest h f x (a ++ b) s ≡ resume h (digest h g x a s) b
  unfolding digest resume stream
  digest-append f zero x a b s ef eg = absurd (omega arith)
  digest-append zero (suc g) x a b s ef eg = absurd (omega arith)
  digest-append (suc f) (suc g) x a b s ef eg = elim (Cut-cases (cut a)) [
    | inl e ↦
        rw (e, resume, stream)
          (digest_fuel (suc f) (suc (length (a ++ b))) x (a ++ b) s ef (omega arith))
    | inr (inl e) ↦ rw (e, cut-append_bad a b e, digest, resume) refl
    | inr (inr (p, rest, e)) ↦ elim (Response-cases (respond h x p (h.on_raw_packet p s))) [
      | inl (x', s', r) ↦
          rw (e, cut-append_packet a b p rest e, r, digest)
            (digest-append f g x' rest b s'
              (omega
                (arith, cut-length a p rest e, length-append {0} rest b, length-append {0} a b))
              (omega (arith, cut-length a p rest e)))
      | inr (inl (s', r)) ↦ rw (e, cut-append_packet a b p rest e, r, digest, resume) refl
      | inr (inr r) ↦ rw (e, cut-append_packet a b p rest e, r, digest, resume) refl
    ]
  ]

  pub stream-append :
      (x : Session) (a b : List ℕ) (s : S) → stream h x (a ++ b) s ≡ resume h (stream h x a s) b
  unfolding stream
  stream-append x a b s = digest-append _ _ x a b s (omega arith) (omega arith)
