-- ===== src/Flow/Cutting.antt =====
-- How AnalyzeFlow cuts the data of a flow into packets.
use openrom.Base.{
  ℕ, zero, suc, ◌+◌, ◌≤◌, ◌<◌, ◌≡◌, sym, ap, ◌∙◌, arith, Bool, true, List, [], ◌∷◌, ◌++◌, length,
  drop, All, length-append, length-drop, take-append_eq, drop-append_eq, append-nil, subst,
}
use openrom.Packet.{Packet, IsFramed, to_bytes, of_memory, has_flag, u32_at, packet_size}
use openrom.Packet.Layout.{of_memory-to_bytes}
use openrom.Connection.Delivery.{framed_length}
use openrom.Flow.{Flow, analyze_flow, analyzed, analyze, with_packet, comes_back}

-- The packets of a stream, one behind the other, and what is behind them.
pub stream : List Packet → List ℕ → List ℕ
stream [] tail = tail
stream (p ∷ ps) tail = to_bytes p ++ stream ps tail

-- The packets with their numbers, from `sequence` on.
pub numbered_from : ℕ → List Packet → List (ℕ × List ℕ)
numbered_from sequence [] = []
numbered_from sequence (p ∷ ps) = (sequence, to_bytes p) ∷ numbered_from (suc sequence) ps

-- A framed packet that does not end the program.
pub record IsPlausible (keepalive : Bool) (p : Packet) : Type 0 where
  pub packet_framed : IsFramed p
  pub packet_small : p.p_length ≤ 131072
  pub packet_back : comes_back keepalive p ≡ true

pub size_lem :
    (p : Packet) (rest : List ℕ) → IsFramed p → u32_at (to_bytes p ++ rest) 0 ≡ p.p_length
unfolding to_bytes
size_lem p rest f = omega (arith, f.length_fits)

pub back :
    (p : Packet) (keepalive : Bool)
    → IsFramed p
    → comes_back keepalive p ≡ true
    → comes_back keepalive (of_memory (to_bytes p)) ≡ true
unfolding comes_back has_flag
back p keepalive f h =
    subst (λ bytes. comes_back keepalive (of_memory bytes) ≡ true) (append-nil (to_bytes p))
      (subst (λ q. comes_back keepalive q ≡ true)
        (sym (of_memory-to_bytes p [] f.length_fits f.seq_fits)) h)

module _ (keepalive : Bool) where
  analyze_next :
      (fuel sequence : ℕ) (p : Packet) (rest : List ℕ)
      → IsPlausible keepalive p
      → analyze keepalive (suc fuel) (to_bytes p ++ rest) sequence
        ≡ with_packet sequence (to_bytes p) (analyze keepalive fuel rest (suc sequence))
  unfolding analyze
  analyze_next fuel sequence p rest h = ground (
    arith,
    size_lem p rest h.packet_framed,
    h.packet_small,
    back p keepalive h.packet_framed h.packet_back,
    h.packet_framed.framed,
    framed_length p h.packet_framed,
    length-append {0} (to_bytes p) rest,
    take-append_eq p.p_length (to_bytes p) rest (sym (framed_length p h.packet_framed)),
    drop-append_eq p.p_length (to_bytes p) rest (sym (framed_length p h.packet_framed)),
  )

  analyze-stream :
      (fuel sequence : ℕ) (ps : List Packet) (tail : List ℕ)
      → All (IsPlausible keepalive) ps
      → length tail < packet_size
      → length ps < fuel
      → analyze keepalive fuel (stream ps tail) sequence
        ≡ analyzed (numbered_from sequence ps) tail (sequence + length ps)
  unfolding stream numbered_from analyze with_packet
  analyze-stream zero sequence ps tail h short enough = absurd (omega arith)
  analyze-stream (suc fuel) sequence [] tail h short enough = ground arith
  analyze-stream (suc fuel) sequence (p ∷ ps) tail h short enough =
      analyze_next fuel sequence p (stream ps tail) h.0
      ∙ ap (with_packet sequence (to_bytes p))
          (analyze-stream fuel (suc sequence) ps tail h.1 short (omega arith))
      ∙ ap (analyzed (numbered_from sequence (p ∷ ps)) tail) (omega arith)

  length-stream :
      (ps : List Packet) (tail : List ℕ)
      → All (IsPlausible keepalive) ps
      → length ps ≤ length (stream ps tail)
  unfolding stream
  length-stream [] tail h = omega arith
  length-stream (p ∷ ps) tail h = omega (
    arith,
    length-stream ps tail h.1,
    length-append {0} (to_bytes p) (stream ps tail),
    framed_length p h.0.packet_framed,
    h.0.packet_framed.framed,
  )

  -- A flow whose data from the current offset on are framed packets of at most 131072 bytes, with fewer
  -- than twelve bytes behind them, is cut into those packets: each is analyzed once, in order, with
  -- consecutive numbers, and the bytes behind them are left. AnalyzePacket comes back from all of them: a
  -- key packet has a key of ten bytes, and an encrypted packet names a byte of the key, or 255.
  pub analyze_flow-stream :
      (flow : Flow) (sequence : ℕ) (ps : List Packet) (tail : List ℕ)
      → All (IsPlausible keepalive) ps
      → length tail < packet_size
      → drop flow.current_data_offset flow.bytes ≡ stream ps tail
      → analyze_flow keepalive flow sequence
        ≡ analyzed (numbered_from sequence ps) tail (sequence + length ps)
  unfolding analyze_flow
  analyze_flow-stream flow sequence ps tail h short waiting =
      ap (λ left. analyze keepalive (suc (length flow.bytes)) left sequence) waiting
      ∙ analyze-stream (suc (length flow.bytes)) sequence ps tail h short (
          omega (
            arith,
            length-stream ps tail h,
            ap length waiting,
            length-drop flow.current_data_offset flow.bytes,
          ))
