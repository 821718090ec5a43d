-- ===== src/Capture/Logged.antt =====
-- The log that the proxy wrote, dumped by romdump: from the packet logger to AnalyzePacket.
use openrom.Base.{
  ℕ, suc, ◌+◌, ◌≤◌, ◌^◌, ◌≡◌, refl, sym, ap, subst, ◌∙◌, inl, arith, List, [], ◌∷◌, ◌++◌, map, some,
  Option, Bool, true, length, All, length-append, take_all, drop_all, append-nil,
}
use openrom.Packet.{Packet, to_bytes, of_memory, u32_at}
use openrom.PacketLog.{Address, write_header}
use openrom.Flow.{Endpoints, comes_back}
use openrom.PacketLog.RoundTrip.{
  IsLoggable, as_read, Appends, write_packets, read_log-write_packets,
}
use openrom.Connection.Delivery.{framed_length}
use openrom.Flow.Cutting.{size_lem, back}
use openrom.Capture.{Capture, Call, dump, between, start, calls_of, dump_log, find_flow}
use openrom.Capture.Splitting.{Splits, waits, next, numbered}
use openrom.Capture.Passes.{waiting, IsReady, take_in_lem}
use openrom.Capture.Flows.{flow_of, each}

-- The calls of AnalyzePacket for the packets of a log, with numbers from `sequence` on.
pub logged_calls : ℕ → List (Address × Address × Packet) → List Call
logged_calls sequence [] = []
logged_calls sequence ((source, dest, p) ∷ es) =
    record { connection = between source dest; sequence = sequence; bytes = to_bytes p }
    ∷ logged_calls (suc sequence) es

-- The bytes of all packets.
unfoldable pub total : List (Address × Address × Packet) → ℕ
total [] = 0
total (e ∷ es) = length (to_bytes e.2) + total es

-- No flow has bytes that wait, and `room` more bytes fit.
record IsIdle (c : Capture) (room : ℕ) : Type 0 where
  ready : (e : Endpoints) → IsReady (flow_of e c.flows)
  idle : (e : Endpoints) → waiting (flow_of e c.flows) ≡ []
  fits : (e : Endpoints) → length (flow_of e c.flows).bytes + room ≤ 2 ^ 31

start-IsIdle : (room : ℕ) → room ≤ 2 ^ 31 → IsIdle start room
unfolding flow_of waiting find_flow
start-IsIdle room small = record {
  ready = λ e. record { has_buffer = omega arith; offset_inside = omega arith };
  idle = λ e. refl;
  fits = λ e. omega (arith, small);
}

module _ (keepalive : Bool) where
  -- AnalyzePacket comes back from the packet.
  abbrev pub ComesBack : Address × Address × Packet → Type 0
  ComesBack e = comes_back keepalive e.2 ≡ true

  -- A packet of the log is one packet of its flow.
  Splits-logged :
      (e : Address × Address × Packet)
      → IsLoggable e
      → comes_back keepalive (of_memory (to_bytes e.2)) ≡ true
      → Splits keepalive (to_bytes e.2) (to_bytes e.2 ∷ []) []
  Splits-logged e l b =
      let d = to_bytes e.2 in
      let size : u32_at d 0 ≡ e.2.p_length =
        ap (λ (x : List ℕ). u32_at x 0) (sym (append-nil (to_bytes e.2)))
        ∙ size_lem e.2 [] l.packet_framed in
      let long = framed_length e.2 l.packet_framed in
      subst (λ p. Splits keepalive d (p ∷ []) [])
        (take_all (u32_at d 0) d (omega (arith, size, long)))
        (next
          (record {
            is_cut = record {
              has_header = omega (arith, long, l.packet_framed.framed);
              not_huge = omega (arith, size, l.packet_small);
              not_tiny = omega (arith, size, l.packet_framed.framed);
              is_there = omega (arith, size, long);
            };
            back =
                ap (λ x. comes_back keepalive (of_memory x))
                  (take_all (u32_at d 0) d (omega (arith, size, long)))
                ∙ b;
          })
          (subst (λ x. Splits keepalive x [] [])
            (sym (drop_all (u32_at d 0) d (omega (arith, size, long))))
            (waits (inl (omega arith)))))

  logged_lem :
      (es : List (Address × Address × Packet)) (c : Capture)
      → All IsLoggable es
      → All ComesBack es
      → IsIdle c (total es)
      → (c' : Capture) × (dump keepalive (map as_read es) c ≡ some (c', logged_calls c.sequence es))
        × ((e : Endpoints) → waiting (flow_of e c'.flows) ≡ [])
  unfolding dump logged_calls total calls_of numbered
  logged_lem [] c l bs i = (c, refl, i.idle)
  logged_lem ((source, dest, p) ∷ es) c (l, ls) (b, bs) i =
      let k = between source dest in
      let (c1, taken, counted, t) =
        take_in_lem keepalive k (to_bytes p) c (i.ready k)
          (omega (arith, framed_length p l.packet_framed, l.packet_framed.framed))
          (omega (arith, i.fits k))
          (subst (λ d. Splits keepalive (d ++ to_bytes p) (to_bytes p ∷ []) []) (sym (i.idle k))
            (Splits-logged (source, dest, p) l (back p keepalive l.packet_framed b))) in
      let (c2, ran, idle) = logged_lem es c1 ls bs (record {
        ready =
            each (λ e. IsReady (flow_of e c1.flows)) k t.still_ready
              (λ e differs. rw (t.others e differs) (i.ready e));
        idle =
            each (λ e. waiting (flow_of e c1.flows) ≡ []) k t.left_over
              (λ e differs. rw (t.others e differs) (i.idle e));
        fits =
            each (λ e. length (flow_of e c1.flows).bytes + total es ≤ 2 ^ 31) k
              (omega (
                arith,
                i.fits k,
                ap length t.longer,
                length-append {0} (flow_of k c.flows).bytes (to_bytes p),
              ))
              (λ e differs. rw (t.others e differs) (omega (arith, i.fits e)));
      }) in
      let next_number : c1.sequence ≡ suc c.sequence = omega (arith, counted) in
      (c2, rw (dump, taken, ran, next_number) refl, idle)

module _ (keepalive : Bool) {S : Type 0} (write : List ℕ → S → S × Option ℕ) (view : S → List ℕ)
    (file : Appends write view) where
  -- On a file that takes all bytes, the log of a list of framed packets of at most 131072 bytes each and
  -- 2^31 bytes in all, between addresses in the range of their types, is dumped whole, when AnalyzePacket
  -- comes back from all of them: keys have ten bytes, and encrypted packets name a byte of the key, or 255.
  -- So AnalyzePacket is
  -- called for each packet with the bytes that were logged, in order, with numbers from 1 on, and in no
  -- flow anything is left.
  pub dump_log-write_packets :
      (es : List (Address × Address × Packet)) (s : S)
      → All IsLoggable es
      → All (ComesBack keepalive) es
      → total es ≤ 2 ^ 31
      → view s ≡ []
      → (c' : Capture) × (dump_log keepalive
            (view (write_packets write es (write_header write s).1))
          ≡ some (c', logged_calls 1 es))
        × ((e : Endpoints) → waiting (flow_of e c'.flows) ≡ [])
  unfolding dump_log
  dump_log-write_packets es s l bs small empty =
      let (c', ran, idle) = logged_lem keepalive es start l bs (start-IsIdle (total es) small) in
      (c', rw (dump_log, read_log-write_packets write view file es s l empty) ran, idle)
