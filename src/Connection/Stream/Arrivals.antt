-- ===== src/Connection/Stream/Arrivals.antt =====
-- A connection over several calls of `OnEvent`: where the socket cuts the bytes does not show.
use openrom.Base.{
  ℕ, ◌≤◌, ◌≡◌, refl, sym, subst, arith, List, [], ◌∷◌, ◌++◌, some, length, All, append-nil,
  append_assoc,
}
use openrom.Buffer.{Buffer, contents, s_buffer_size}
use openrom.Buffer
use openrom.Connection.{
  Host, Connection, Outcome, alive, closed, fault, stuck, on_event, s_max_packet_size,
}
use openrom.Connection.Stream.{session, cut, short, Digest, digest, stream, resume}
use openrom.Connection.Stream.Answers.{ReadsKey}
use openrom.Connection.Stream.Refinement.{Refines, alive_as, closed_as, faults_as, on_event-Refines}
use openrom.Connection.Stream.Append.{pending-length, stream-append}

-- What one call of `OnEvent` may find in the socket: some bytes, and no more than a packet may have.
pub data IsChunk : List ℕ → Type 0 where
  chunk : {b : ℕ} {bs : List ℕ} → length (b ∷ bs) ≤ s_max_packet_size → IsChunk (b ∷ bs)

unfoldable pub joined : List (List ℕ) → List ℕ
joined [] = []
joined (bytes ∷ chunks) = bytes ++ joined chunks

module _ {S : Type 0} (h : Host S) where
  -- One call for each of the chunks.
  pub on_events : Connection → List (List ℕ) → S → Outcome S
  on_events c [] s = alive c s
  on_events c (bytes ∷ chunks) s = elim (on_event h c (some bytes) s) [
    | alive c' s' ↦ on_events c' chunks s'
    | closed s' ↦ closed s'
    | fault ↦ fault
    | stuck ↦ stuck
  ]

  -- The calls that are left, after the first.
  go_on :
      (c : Connection) (bytes : List ℕ) (chunks : List (List ℕ)) (s : S) {o : Outcome S}
      {d : Digest S}
      → ((c' : Connection) (s' : S)
          → Buffer.IsValid c'.buffer
          → cut (contents c'.buffer) ≡ short
          → Refines
              (on_events c' chunks s')
              (stream h (session c') (contents c'.buffer ++ joined chunks) s'))
      → on_event h c (some bytes) s ≡ o
      → Refines o d
      → Refines (on_events c (bytes ∷ chunks) s) (resume h d (joined chunks))
  unfolding on_events resume
  go_on c bytes chunks s again e (alive_as {c = c'} {s = s'} ex v eb few) =
      rw (e, on_events, ← ex, ← eb) (again c' s' v (subst (λ b. cut b ≡ short) (sym eb) few))
  go_on c bytes chunks s again e closed_as = rw (e, on_events) closed_as
  go_on c bytes chunks s again e faults_as = rw (e, on_events) faults_as

  chunk-Refines :
      (reads : ReadsKey h) (c : Connection) (bytes : List ℕ) (s : S)
      → Buffer.IsValid c.buffer
      → cut (contents c.buffer) ≡ short
      → IsChunk bytes
      → Refines (on_event h c (some bytes) s) (stream h (session c) (contents c.buffer ++ bytes) s)
  chunk-Refines reads c bytes s v few (chunk {b = b} {bs = bs} small) =
      on_event-Refines h reads c b bs s v (omega (arith, pending-length (contents c.buffer) few))

  -- Over calls with 1 to 131072 bytes each, on a well-formed buffer that begins with no whole packet, a
  -- connection does what the stream does that begins with the bytes in the buffer: the cuts between
  -- the chunks do not show. The callback for a new key looks at the key alone.
  pub on_events-Refines :
      (reads : ReadsKey h) (c : Connection) (chunks : List (List ℕ)) (s : S)
      → Buffer.IsValid c.buffer
      → cut (contents c.buffer) ≡ short
      → All IsChunk chunks
      → Refines (on_events c chunks s) (stream h (session c) (contents c.buffer ++ joined chunks) s)
  unfolding on_events joined stream digest
  on_events-Refines reads c [] s v few cs =
      subst (λ b. Refines (alive c s) (stream h (session c) b s))
        (sym (append-nil (contents c.buffer))) (rw (few, digest) (alive_as refl v refl few))
  on_events-Refines reads c (bytes ∷ chunks) s v few (small, cs) =
      rw
        (
          ← append_assoc (contents c.buffer) bytes (joined chunks),
          stream-append h (session c) (contents c.buffer ++ bytes) (joined chunks) s,
        )
        (go_on c bytes chunks s (λ c' s' v' few'. on_events-Refines reads c' chunks s' v' few' cs)
          refl (chunk-Refines reads c bytes s v few small))
