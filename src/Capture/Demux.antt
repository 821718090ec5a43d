-- ===== src/Capture/Demux.antt =====
-- romdump takes the packets of many connections from one file: each connection is cut into packets
-- as if it stood in the file alone.
use openrom.Base.{
  ℕ, ◌+◌, ◌^◌, ◌≤◌, ◌<◌, ◌≡◌, refl, sym, ap, subst, ◌∙◌, inl, arith, List, [], ◌∷◌, ◌++◌,
  append_assoc, append-nil, Bool, false, some, length, All, if◌then◌else◌, length-append,
}
use openrom.PacketLog.{Address}
use openrom.Flow.{Endpoints}
use openrom.Capture.{Capture, Call, same_connection, find_flow, calls_of, between, dump, start}
use openrom.Capture.Passes.{waiting, IsReady, TookIn, take_in_lem}
use openrom.Capture.Calls.{
  packets_of, Consecutive, Consecutive-append, calls_of-Consecutive, packets_of-append,
  packets_of-own, packets_of-other,
}
use openrom.Capture.Splitting.{
  Waits, waits, Splits-Waits, Splits, numbered, Splits-append, Splits-front,
}
use openrom.Capture.Flows.{each, flow_of, same_connection_refl}

abbrev pub Chunk : Type 0
Chunk = Address × Address × List ℕ

-- The bytes of one connection, in the order of the file.
unfoldable pub data_of : Endpoints → List Chunk → List ℕ
data_of e [] = []
data_of e ((source, dest, bytes) ∷ rest) =
    if same_connection (between source dest) e then bytes ++ data_of e rest else data_of e rest

abbrev pub HasBytes : Chunk → Type 0
HasBytes chunk = 0 < length chunk.2

-- The bytes that a connection has waiting and those that come.
abbrev ahead : Endpoints → Capture → List Chunk → List ℕ
ahead e c cs = waiting (flow_of e c.flows) ++ data_of e cs

data_of-own :
    (source dest : Address) (bytes : List ℕ) (rest : List Chunk)
    → data_of (between source dest) ((source, dest, bytes) ∷ rest)
      ≡ bytes ++ data_of (between source dest) rest
unfolding data_of
data_of-own source dest bytes rest = rw (same_connection_refl (between source dest)) refl

data_of-other :
    (source dest : Address) (bytes : List ℕ) (rest : List Chunk) (e : Endpoints)
    → same_connection (between source dest) e ≡ false
    → data_of e ((source, dest, bytes) ∷ rest) ≡ data_of e rest
unfolding data_of
data_of-other source dest bytes rest e differs = rw differs refl

module _ (keepalive : Bool) where
  -- Some bytes fall into packets when no length in them is over 131072, and AnalyzePacket comes back from
  -- all of the packets.
  abbrev pub CanSplit : List ℕ → Type 0
  CanSplit d = (ps : List (List ℕ)) × (left : List ℕ) × Splits keepalive d ps left

  -- The hypotheses on the packets that are still to come.
  record Goes (c : Capture) (cs : List Chunk) : Type 0 where
    ready : (e : Endpoints) → IsReady (flow_of e c.flows)
    small : (e : Endpoints) → length (flow_of e c.flows).bytes + length (data_of e cs) ≤ 2 ^ 31
    splits : (e : Endpoints) → CanSplit (ahead e c cs)
    rested : (e : Endpoints) → Waits (waiting (flow_of e c.flows))

  Goes-next :
      (source dest : Address) (bytes : List ℕ) (rest : List Chunk) (c c' : Capture) {left : List ℕ}
      → Goes c ((source, dest, bytes) ∷ rest)
      → TookIn (between source dest) bytes c c' left
      → CanSplit (left ++ data_of (between source dest) rest)
      → Waits left
      → Goes c' rest
  Goes-next source dest bytes rest c c' g t more w =
      let k = between source dest in
      let skip = data_of-other source dest bytes rest in
      record {
        ready =
            each (λ e. IsReady (flow_of e c'.flows)) k t.still_ready
              (λ e differs. rw (t.others e differs) (g.ready e));
        small =
            each (λ e. length (flow_of e c'.flows).bytes + length (data_of e rest) ≤ 2 ^ 31) k
              (omega (
                arith,
                g.small k,
                ap length t.longer,
                ap length (data_of-own source dest bytes rest),
                length-append {0} (flow_of k c.flows).bytes bytes,
                length-append {0} bytes (data_of k rest),
              ))
              (λ e differs.
                rw (t.others e differs) (omega (arith, g.small e, ap length (skip e differs))));
        splits =
            each (λ e. CanSplit (ahead e c' rest)) k (rw t.left_over more)
              (λ e differs. rw (t.others e differs) (
                subst (λ d. CanSplit (waiting (flow_of e c.flows) ++ d)) (skip e differs)
                  (g.splits e)));
        rested =
            each (λ e. Waits (waiting (flow_of e c'.flows))) k (rw t.left_over w)
              (λ e differs. rw (t.others e differs) (g.rested e));
      }

  -- What the loop did to each connection.
  pub record Demuxed (c c' : Capture) (cs : List Chunk) (calls : List Call) : Type 0 where
    pub each_split :
        (e : Endpoints)
        → Splits keepalive
            (waiting (flow_of e c.flows) ++ data_of e cs)
            (packets_of e calls)
            (waiting (flow_of e c'.flows))
    pub in_order : Consecutive c.sequence calls c'.sequence

  -- A pass, and the packets after it.
  Demuxed-next :
      (source dest : Address) (bytes : List ℕ) (rest : List Chunk) (c c1 c2 : Capture)
      (ps : List (List ℕ)) (left : List ℕ) (calls : List Call)
      → Splits keepalive (waiting (flow_of (between source dest) c.flows) ++ bytes) ps left
      → TookIn (between source dest) bytes c c1 left
      → c1.sequence ≡ c.sequence + length ps
      → Demuxed c1 c2 rest calls
      → Demuxed c c2
          ((source, dest, bytes) ∷ rest)
          (calls_of (between source dest) (numbered c.sequence ps) ++ calls)
  Demuxed-next source dest bytes rest c c1 c2 ps left calls s t counted d =
      let k = between source dest in
      let new = calls_of k (numbered c.sequence ps) in
      let own : packets_of k (new ++ calls) ≡ ps ++ packets_of k calls =
        packets_of-append k new calls
        ∙ ap (λ qs. qs ++ packets_of k calls) (packets_of-own k c.sequence ps) in
      let others : (e : Endpoints)
          → same_connection k e ≡ false
          → packets_of e (new ++ calls) ≡ packets_of e calls =
        λ e differs.
          packets_of-append e new calls
          ∙ ap (λ qs. qs ++ packets_of e calls) (packets_of-other k e c.sequence ps differs) in
      record {
        each_split =
            each
              (λ e.
                Splits keepalive (ahead e c ((source, dest, bytes) ∷ rest))
                  (packets_of e (new ++ calls)) (waiting (flow_of e c2.flows)))
              k
              (rw
                (
                  own,
                  data_of-own source dest bytes rest,
                  ← append_assoc (waiting (flow_of k c.flows)) bytes (data_of k rest),
                )
                (Splits-append keepalive (data_of k rest) s (
                  subst
                    (λ x.
                      Splits keepalive (x ++ data_of k rest) (packets_of k calls)
                        (waiting (flow_of k c2.flows)))
                    t.left_over (d.each_split k))))
              (λ e differs.
                rw
                  (
                    others e differs,
                    data_of-other source dest bytes rest e differs,
                    ← t.others e differs,
                  )
                  (d.each_split e));
        in_order =
            Consecutive-append c.sequence c1.sequence c2.sequence new calls
              (subst (λ n. Consecutive c.sequence new n) (sym counted)
                (calls_of-Consecutive k c.sequence ps))
              d.in_order;
      }

  no_chunks :
      (c : Capture) → ((e : Endpoints) → Waits (waiting (flow_of e c.flows))) → Demuxed c c [] []
  unfolding data_of packets_of
  no_chunks c rested = record {
    each_split = λ e. rw append-nil (waits (rested e));
    in_order = refl;
  }

  dump_lem :
      (cs : List Chunk) (c : Capture)
      → All HasBytes cs
      → Goes c cs
      → (c' : Capture) × (calls : List Call) × (dump keepalive cs c ≡ some (c', calls))
        × Demuxed c c' cs calls
  unfolding dump
  dump_lem [] c h g = (c, [], refl, no_chunks c g.rested)
  dump_lem ((source, dest, bytes) ∷ rest) c (some_bytes, h) g =
      let k = between source dest in
      let own = data_of-own source dest bytes rest in
      let (whole, end, s) = g.splits k in
      let parts = Splits-front keepalive (waiting (flow_of k c.flows) ++ bytes) (data_of k rest) (
        subst (λ d. Splits keepalive d whole end)
          (ap (λ d. waiting (flow_of k c.flows) ++ d) own
            ∙ sym (append_assoc (waiting (flow_of k c.flows)) bytes (data_of k rest)))
          s) in
      let (c1, taken, counted, t) =
        take_in_lem keepalive k bytes c (g.ready k) some_bytes
          (omega (arith, g.small k, ap length own, length-append {0} bytes (data_of k rest)))
          parts.first_part in
      let (c2, calls, ran, d) = dump_lem rest c1 h (
        Goes-next source dest bytes rest c c1 g t (parts.second, end, parts.second_part)
          (Splits-Waits keepalive parts.first_part)) in
      (
        c2,
        calls_of k (numbered c.sequence parts.first) ++ calls,
        rw (dump, taken, ran) refl,
        Demuxed-next source dest bytes rest c c1 c2 parts.first parts.between calls parts.first_part
            t counted d,
      )

  at_start :
      (e : Endpoints) (cs : List Chunk) {ps : List (List ℕ)} {left : List ℕ}
      → Splits keepalive (waiting (flow_of e start.flows) ++ data_of e cs) ps left
      → Splits keepalive (data_of e cs) ps left
  unfolding flow_of waiting find_flow data_of
  at_start e cs s = s

  fresh-Goes :
      (cs : List Chunk)
      → ((e : Endpoints) → length (data_of e cs) ≤ 2 ^ 31)
      → ((e : Endpoints) → CanSplit (data_of e cs))
      → Goes start cs
  unfolding flow_of waiting find_flow
  fresh-Goes cs small splits = record {
    ready = λ e. record { has_buffer = omega arith; offset_inside = omega arith };
    small = λ e. omega (arith, small e);
    splits = splits;
    rested = λ e. inl (omega arith);
  }

  -- Take a list of chunks of bytes, none of them empty, so that no connection has more than 2^31 bytes
  -- in all, and those of each connection fall into packets without an excessive length, from all of which
  -- AnalyzePacket comes back: keys have ten bytes, and encrypted packets name a byte of the key, or 255. Then the loop
  -- takes in all of the chunks. For every connection, however its chunks are mixed with those of others
  -- and cut its packets, the packets that go to AnalyzePacket are those that its bytes fall into, in
  -- order, and what is behind them waits in its flow. All the calls have consecutive numbers from 1 on.
  pub dump-Demuxed :
      (cs : List Chunk)
      → All HasBytes cs
      → ((e : Endpoints) → length (data_of e cs) ≤ 2 ^ 31)
      → ((e : Endpoints) → CanSplit (data_of e cs))
      → (c' : Capture) × (calls : List Call) × (dump keepalive cs start ≡ some (c', calls))
        × ((e : Endpoints)
            → Splits keepalive (data_of e cs) (packets_of e calls) (waiting (flow_of e c'.flows)))
        × Consecutive 1 calls c'.sequence
  dump-Demuxed cs h small splits =
      let (c', calls, ran, d) = dump_lem cs start h (fresh-Goes cs small splits) in
      (c', calls, ran, λ e. at_start e cs (d.each_split e), d.in_order)
