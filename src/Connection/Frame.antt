-- ===== src/Connection/Frame.antt =====
-- How `ROMConnection::OnEvent` cuts the buffered bytes into packets.
use openrom.Base.{
  ℕ, ◌+◌, ◌-◌, ◌<◌, ◌≡◌, sym, ap, ◌∙◌, arith, List, ◌++◌, false, length, drop, length-append,
  take-append-drop, take-append_eq, append_assoc, leb, le→ltb, drop-append_self,
}
use openrom.Buffer.{Buffer, contents, IsValid}
use openrom.Buffer.Laws.{flush_data_lem, peek_data_short, peek_data_enough}
use openrom.Packet.{Packet, IsFramed, packet_size, to_bytes}
use openrom.Packet.Layout.{with_data, of_memory-to_bytes, length-to_bytes}
use openrom.Connection.{
  Host, Connection, wait, next, packet_at, skip, receive, step, s_max_packet_size,
}

-- The memory of the buffer shows the first waiting packet, whatever follows it.
packet_at-to_bytes : (p : Packet) (rest : List ℕ) → IsFramed p → packet_at (to_bytes p ++ rest) ≡ p
unfolding packet_at
packet_at-to_bytes p rest f = rw (of_memory-to_bytes p rest f.length_fits f.seq_fits) (
    ap (with_data p)
      (take-append_eq (p.p_length - packet_size) p.p_data rest (omega (arith, f.framed))))

memory_of :
    (b : Buffer) (front rest : List ℕ)
    → contents b ≡ front ++ rest
    → b.memory ≡ front ++ (rest ++ drop b.available b.memory)
memory_of b front rest e =
    sym (take-append-drop b.available b.memory)
    ∙ rw e (append_assoc front rest (drop b.available b.memory))

module _ {S : Type 0} (h : Host S) where
  -- A pass without a header in the buffer breaks the loop and changes nothing.
  pub step_short :
      (c : Connection) (s : S)
      → IsValid c.buffer
      → length (contents c.buffer) < packet_size
      → step h c s ≡ wait s
  unfolding step
  step_short c s v short = rw (peek_data_short c.buffer packet_size v short, step)

  pub step_frame :
      (c : Connection) (s : S) (p : Packet) (rest : List ℕ)
      → IsValid c.buffer
      → IsFramed p
      → p.p_length < s_max_packet_size
      → contents c.buffer ≡ to_bytes p ++ rest
      → step h c s ≡ receive h c p (h.on_raw_packet p s)
  unfolding step
  step_frame c s p rest v f small e =
      rw
        (
          peek_data_enough c.buffer packet_size v (omega (arith, whole_length, f.framed)),
          step,
          shown,
          le→ltb p.p_length packet_size (omega (arith, f.framed)),
          below_max,
          peek_data_enough c.buffer p.p_length v (omega (arith, whole_length, f.framed)),
        )
        (ap (λ q. receive h c q (h.on_raw_packet q s)) shown)
    where
      shown : packet_at c.buffer.memory ≡ p
      shown =
          rw (memory_of c.buffer (to_bytes p) rest e)
            (packet_at-to_bytes p (rest ++ drop c.buffer.available c.buffer.memory) f)

      below_max : leb s_max_packet_size p.p_length ≡ false
      below_max = ground arith

      whole_length : length (contents c.buffer) ≡ packet_size + length p.p_data + length rest
      whole_length =
          ap length e ∙ length-append (to_bytes p) rest ∙ omega (arith, length-to_bytes p)

  -- Flushing the packet leaves what follows it.
  pub skip_lem :
      (c : Connection) (s : S) (p : Packet) (front rest : List ℕ)
      → IsValid c.buffer
      → length front ≡ p.p_length
      → contents c.buffer ≡ front ++ rest
      → (b : Buffer) × (skip h c p s ≡ next (record c { buffer = b }) s)
        × IsValid b
        × (contents b ≡ rest)
  unfolding skip
  skip_lem c s p front rest v e waiting =
      let (b, flushed, valid, left) =
        flush_data_lem c.buffer p.p_length v
          (omega (arith, ap length waiting, length-append {0} front rest)) in
      (b, rw (flushed, skip), valid, left ∙ rw (waiting, ← e) (drop-append_self front rest))
