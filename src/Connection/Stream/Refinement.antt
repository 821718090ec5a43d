-- ===== src/Connection/Stream/Refinement.antt =====
-- `OnEvent` refines the stream of packets: neither the buffer nor the pointers into it show.
use openrom.Base.{
  ℕ, zero, suc, ◌+◌, ◌≤◌, ◌<◌, ◌≡◌, refl, sym, ap, subst, ◌∙◌, inl, inr, arith, List, ◌∷◌, ◌++◌,
  none, some, length, drop, length-drop, ltb, if◌then◌else◌, Bool-cases, ltb→le, take-append-drop,
}
use openrom.Buffer.{
  Buffer, contents, peek_data, add_data, get_amount_of_data_available, s_buffer_size,
}
use openrom.Buffer
use openrom.Buffer.Laws.{peek_data_short, peek_data_enough, add_data_lem, length-contents}
use openrom.Packet.{Packet, packet_size}
use openrom.Connection.{
  Host, Connection, Step, wait, abort, fault, Outcome, alive, closed, packet_at, receive, step,
  process, on_event,
}
use openrom.Connection.Frame.{step_short}
use openrom.Connection.Stream.{
  Session, session, Cut, short, bad, packet, cut, Response, past_key, Digest, pending, dropped,
  respond, digest, stream,
}
use openrom.Connection.Stream.Front.{packet_at-append, packet_at-append_length}
use openrom.Connection.Stream.Answers.{
  ReadsKey, Answers, goes, refuses, faults, receive-Answers, if_both_split,
}

-- A pass of the loop on a connection, and the cut of the bytes in its buffer.
pub data Follows {S : Type 0} (h : Host S) (c : Connection) (s : S) : Cut → Step S → Type 0 where
  waits : Follows h c s short (wait s)
  gives_up : Follows h c s bad (abort s)
  answers :
      {p : Packet} {rest : List ℕ} {r : Response S} {t : Step S}
      → length rest < length (contents c.buffer)
      → respond h (session c) p (h.on_raw_packet p s) ≡ r
      → Answers rest r t
      → Follows h c s (packet p rest) t

-- The outcome of `OnEvent` is that of the stream, with the bytes that are pending in the buffer.
pub data Refines {S : Type 0} : Outcome S → Digest S → Type 0 where
  alive_as :
      {c : Connection} {x : Session} {bytes : List ℕ} {s : S}
      → session c ≡ x
      → Buffer.IsValid c.buffer
      → contents c.buffer ≡ bytes
      → cut bytes ≡ short
      → Refines (alive c s) (pending x bytes s)
  closed_as : {s : S} → Refines (closed s) (dropped s)
  faults_as : Refines fault past_key

module _ {S : Type 0} (h : Host S) (reads : ReadsKey h) where
  split_memory : (b : Buffer) → b.memory ≡ contents b ++ drop b.available b.memory
  split_memory b = sym (take-append-drop b.available b.memory)

  -- Once the length in the header is plausible.
  whole_packet-Follows :
      (c : Connection) (s : S)
      → Buffer.IsValid c.buffer
      → packet_size ≤ length (contents c.buffer)
      → packet_size ≤ (packet_at (contents c.buffer)).p_length
      → let p = packet_at (contents c.buffer) in
        Follows h c s
          (if ltb (length (contents c.buffer)) p.p_length
            then short
            else packet p (drop p.p_length (contents c.buffer)))
          (elim (peek_data c.buffer p.p_length) [
            | none ↦ wait s
            | some _ ↦
                receive h c
                  (packet_at c.buffer.memory)
                  (h.on_raw_packet (packet_at c.buffer.memory) s)
          ])
  whole_packet-Follows c s v long whole =
      elim (Bool-cases (ltb (length (contents c.buffer)) p.p_length)) [
        | inl less ↦ rw (less, peek_data_short c.buffer p.p_length v (ground arith)) waits
        | inr enough ↦
            rw (enough, peek_data_enough c.buffer p.p_length v (ground arith))
              (subst
                (λ m.
                  Follows h c s (packet p (drop p.p_length (contents c.buffer)))
                    (receive h c m (h.on_raw_packet m s)))
                (sym (shown (ground arith)))
                (answers
                  (omega (arith, ltb→le _ _ enough, length-drop p.p_length (contents c.buffer)))
                  refl (receive-Answers h reads c p (h.on_raw_packet p s) v whole (ground arith))))
      ]
    where
      p : Packet
      p = packet_at (contents c.buffer)

      shown : p.p_length ≤ length (contents c.buffer) → packet_at c.buffer.memory ≡ p
      shown held =
          ap packet_at (split_memory c.buffer) ∙ packet_at-append (contents c.buffer) _ long held

  pub step-Follows :
      (c : Connection) (s : S)
      → Buffer.IsValid c.buffer
      → Follows h c s (cut (contents c.buffer)) (step h c s)
  unfolding step cut
  step-Follows c s v = elim (Bool-cases (ltb (length (contents c.buffer)) packet_size)) [
    | inl few ↦ rw (few, cut, step_short h c s v (ground arith)) waits
    | inr long ↦
        rw
          (
            long,
            cut,
            peek_data_enough c.buffer packet_size v (ground arith),
            step,
            same_length (ground arith),
          )
          (if_both_split (Follows h c s) _ (λ implausible. gives_up)
            (λ plausible. whole_packet-Follows c s v (ground arith) (ground arith)))
  ]
    where
      same_length :
          packet_size ≤ length (contents c.buffer)
          → (packet_at c.buffer.memory).p_length ≡ (packet_at (contents c.buffer)).p_length
      same_length long =
          ap (λ m. (packet_at m).p_length) (split_memory c.buffer)
          ∙ packet_at-append_length (contents c.buffer) _ long

  follow :
      (fuel : ℕ) (c : Connection) (s : S)
      → Buffer.IsValid c.buffer
      → length (contents c.buffer) < suc fuel
      → ((c' : Connection) (s' : S)
          → Buffer.IsValid c'.buffer
          → length (contents c'.buffer) < fuel
          → Refines (process h fuel c' s') (digest h fuel (session c') (contents c'.buffer) s'))
      → {y : Cut} {t : Step S} → cut (contents c.buffer) ≡ y
      → step h c s ≡ t
      → Follows h c s y t
      → Refines (process h (suc fuel) c s) (digest h (suc fuel) (session c) (contents c.buffer) s)
  unfolding process digest
  follow fuel c s v enough again ey et waits =
      rw (ey, digest, et, process) (alive_as refl v refl ey)
  follow fuel c s v enough again ey et gives_up = rw (ey, digest, et, process) closed_as
  follow fuel c s v enough again ey et (answers less er refuses) =
      rw (ey, digest, er, et, process) closed_as
  follow fuel c s v enough again ey et (answers less er faults) =
      rw (ey, digest, er, et, process) faults_as
  follow fuel c s v enough again ey et (answers less er (goes {c = c'} {s = s'} ex v' eb)) =
      rw (ey, digest, er, et, process, ← ex, ← eb) (again c' s' v' (omega (arith, ap length eb)))

  -- Fuel beyond the bytes is enough for both loops.
  pub process-Refines :
      (fuel : ℕ) (c : Connection) (s : S)
      → Buffer.IsValid c.buffer
      → length (contents c.buffer) < fuel
      → Refines (process h fuel c s) (digest h fuel (session c) (contents c.buffer) s)
  process-Refines zero c s v enough = absurd (omega arith)
  process-Refines (suc fuel) c s v enough =
      follow fuel c s v enough (λ c' s' v' e. process-Refines fuel c' s' v' e) refl refl
        (step-Follows c s v)

  -- A call of `OnEvent` does what the stream does that begins with the bytes in the buffer.
  pub on_event-Refines :
      (c : Connection) (b : ℕ) (bs : List ℕ) (s : S)
      → Buffer.IsValid c.buffer
      → length (contents c.buffer) + length (b ∷ bs) < s_buffer_size
      → Refines
          (on_event h c (some (b ∷ bs)) s)
          (stream h (session c) (contents c.buffer ++ b ∷ bs) s)
  unfolding on_event stream get_amount_of_data_available
  on_event-Refines c b bs s v room = elim (add_data_lem c.buffer (b ∷ bs) v) [
    | inl (full, over) ↦ absurd (omega (arith, length-contents c.buffer v))
    | inr (buffer, added, valid, holds) ↦
        rw (added, on_event)
          (subst
            (λ bytes.
              Refines (process h (suc buffer.available) (record c { buffer = buffer }) s)
                (digest h (suc (length bytes)) (session c) bytes s))
            holds
            (subst
              (λ n.
                Refines (process h (suc n) (record c { buffer = buffer }) s)
                  (digest h (suc (length (contents buffer))) (session c) (contents buffer) s))
              (length-contents buffer valid)
              (process-Refines (suc (length (contents buffer))) (record c { buffer = buffer }) s
                valid (omega arith))))
  ]
