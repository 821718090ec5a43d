-- ===== src/Connection/Loop.antt =====
-- The loop of `ROMConnection::OnEvent`: each pass takes a packet, no assertion of the buffer fails,
-- and the only read out of range is that of a key byte which the packet names.
use openrom.Base.{
  ℕ, zero, suc, ◌-◌, ◌≤◌, ◌<◌, ◌≡◌, ◌≢◌, refl, ap, subst, ◌⊎◌, inl, inr, arith, List, [], ◌∷◌, not,
  Option, none, some, length, drop, length-drop, ltb, leb, ◌||◌, Option-cases, get_elem?-none,
  if_either, if_split, ◌==◌,
}
use openrom.Buffer.{Buffer, contents, flush_data, peek_data, add_data, get_amount_of_data_available}
use openrom.Buffer
use openrom.Buffer.Laws.{flush_data_lem, peek_data-some, add_data_lem, length-contents}
use openrom.Packet.{
  Packet, packet_size, rom_key_length, has_flag, flag_key, flag_encrypted, flag_alive_request,
  header_checksum_ok, key_byte,
}
use openrom.Connection.{
  Host, Connection, Step, wait, abort, next, fault, Outcome, alive, closed, stuck, packet_at, skip,
  receive, receive_key, receive_keepalive, receive_data, send_keepalive_reply, checksum_and_send,
  step, process, on_event, s_max_packet_size,
}

-- What a pass leaves: after the packet of length `n`, its buffer holds what follows.
pub record Consumes (n : ℕ) (c c' : Connection) : Type 0 where
  pub whole : packet_size ≤ n
  pub held : n ≤ length (contents c.buffer)
  pub valid : Buffer.IsValid c'.buffer
  pub left : contents c'.buffer ≡ drop n (contents c.buffer)

-- The pass ends by a break, by a refusal, or with the packet taken from the buffer. A fault is the
-- key byte that packet `p` names, out of the range of the key.
pub data Passes {S : Type 0} (c : Connection) (p : Packet) : Step S → Type 0 where
  waits : {s : S} → Passes c p (wait s)
  aborts : {s : S} → Passes c p (abort s)
  takes : {c' : Connection} {s : S} → Consumes p.p_length c c' → Passes c p (next c' s)
  faults : length c.key ≤ p.p_keynum → p.p_keynum ≢ 255 → Passes c p fault

module _ {S : Type 0} (h : Host S) where
  skip-Passes :
      (c d : Connection) (p q : Packet) (s : S)
      → Buffer.IsValid c.buffer
      → d.buffer ≡ c.buffer
      → q.p_length ≡ p.p_length
      → packet_size ≤ p.p_length
      → p.p_length ≤ length (contents c.buffer)
      → Passes c p (skip h d q s)
  unfolding skip
  skip-Passes c d p q s v same size whole enough =
      let (b, flushed, valid, left) = flush_data_lem c.buffer p.p_length v enough in
      rw (same, size, flushed, skip)
        (takes (record { whole = whole; held = enough; valid = valid; left = left }))

  receive_key-Passes :
      (c : Connection) (p : Packet) (s : S)
      → Buffer.IsValid c.buffer
      → packet_size ≤ p.p_length
      → p.p_length ≤ length (contents c.buffer)
      → Passes c p (receive_key h c p s)
  unfolding receive_key
  receive_key-Passes c p s v whole enough =
      if_either (Passes c p) (not (p.p_length - packet_size == rom_key_length))
        (skip-Passes c c p p s v refl refl whole enough)
        (skip-Passes c _ p p _ v refl refl whole enough)

  -- The reply goes out under the fixed key 8, so it reads no key byte.
  receive_keepalive-Passes :
      (c : Connection) (p : Packet) (s : S)
      → Buffer.IsValid c.buffer
      → packet_size ≤ p.p_length
      → p.p_length ≤ length (contents c.buffer)
      → Passes c p (receive_keepalive h c p s)
  unfolding receive_keepalive send_keepalive_reply checksum_and_send key_byte
  receive_keepalive-Passes c p s v whole enough =
      if_either (Passes c p) _ (skip-Passes c c p p _ v refl refl whole enough) aborts

  receive_data-Passes :
      (c : Connection) (p : Packet) (s : S)
      → Buffer.IsValid c.buffer
      → packet_size ≤ p.p_length
      → p.p_length ≤ length (contents c.buffer)
      → Passes c p (receive_data h c p s)
  unfolding receive_data
  receive_data-Passes c p s v whole enough = elim (Option-cases (key_byte c.key p)) [
    | inl missing ↦ rw (missing, receive_data) (faults (beyond missing).0 (beyond missing).1)
    | inr (key, found) ↦
        rw (found, receive_data)
          (if_either (Passes c p) _ (skip-Passes c c p _ _ v refl refl whole enough) aborts)
  ]
    where
      beyond : key_byte c.key p ≡ none → (length c.key ≤ p.p_keynum) × (p.p_keynum ≢ 255)
      beyond missing = unfold key_byte in ground (arith, get_elem?-none {0} c.key p.p_keynum)

  receive-Passes :
      (c : Connection) (p : Packet) (s : S)
      → Buffer.IsValid c.buffer
      → packet_size ≤ p.p_length
      → p.p_length ≤ length (contents c.buffer)
      → Passes c p (receive h c p s)
  unfolding receive
  receive-Passes c p s v whole enough =
      if_either (Passes c p) (has_flag p flag_key) (receive_key-Passes c p s v whole enough) (
        if_either (Passes c p) (not (header_checksum_ok p)) aborts (
          if_either (Passes c p) (has_flag p flag_alive_request)
            (receive_keepalive-Passes c p s v whole enough)
            (if_either (Passes c p) (not (p.p_flag == flag_encrypted))
              (skip-Passes c c p p s v refl refl whole enough)
              (if_either (Passes c p) (not c.have_key)
                (skip-Passes c c p p s v refl refl whole enough)
                (receive_data-Passes c p s v whole enough)))))

  -- The packet that the buffer begins with.
  abbrev first_packet : Connection → Packet
  first_packet c = packet_at c.buffer.memory

  -- On a well-formed buffer a pass goes on only with a whole packet of 12 bytes or more, which it takes from the buffer.
  -- It faults only on a packet that names a key byte past the end of the key.
  pub step-Passes :
      (c : Connection) (s : S) → Buffer.IsValid c.buffer → Passes c (first_packet c) (step h c s)
  unfolding step
  step-Passes c s v = elim (Option-cases (peek_data c.buffer packet_size)) [
    | inl short ↦ rw (short, step) waits
    | inr (memory, shown) ↦
        rw
          (
            subst (λ m. peek_data c.buffer packet_size ≡ some m)
                (peek_data-some c.buffer packet_size v shown).1 shown,
            step,
          )
          (if_split (Passes c p) (ltb p.p_length packet_size || leb s_max_packet_size p.p_length)
            (λ bad. aborts)
            (λ good. framed (ground arith) (Option-cases (peek_data c.buffer p.p_length))))
  ]
    where
      p : Packet
      p = first_packet c

      framed :
          packet_size ≤ p.p_length
          → (peek_data c.buffer p.p_length ≡ none)
            ⊎ ((memory : List ℕ) × (peek_data c.buffer p.p_length ≡ some memory))
          → Passes c p (elim (peek_data c.buffer p.p_length) [
            | none ↦ wait s
            | some _ ↦ receive h c p (h.on_raw_packet p s)
          ])
      framed whole (inl short) = rw short waits
      framed whole (inr (memory, shown)) = rw shown (
          receive-Passes c p (h.on_raw_packet p s) v whole
            (peek_data-some c.buffer p.p_length v shown).0)

  Step-cases :
      (x : Step S)
      → ((s : S) × ((x ≡ wait s) ⊎ (x ≡ abort s)))
        ⊎ ((c : Connection) × (s : S) × (x ≡ next c s))
        ⊎ (x ≡ fault)
  Step-cases (wait s) = inl (s, inl refl)
  Step-cases (abort s) = inl (s, inr refl)
  Step-cases (next c s) = inr (inl (c, s, refl))
  Step-cases fault = inr (inr refl)

  Passes-next :
      {c c' : Connection} {p : Packet} {x : Step S} {s : S}
      → Passes c p x
      → x ≡ next c' s
      → Consumes p.p_length c c'
  Passes-next {c} {c'} {p} {s = s} (takes {c' = d} k) e =
      subst (λ m. Consumes p.p_length c m) (connection_of e) k
    where
      connection_of : {t : S} → next d t ≡ next c' s → d ≡ c'
      connection_of e = cc
  Passes-next waits e = cc
  Passes-next aborts e = cc
  Passes-next (faults a b) e = cc

  -- A pass, at once or after others, reads past the key: its packet names no byte of the key, nor 255.
  pub data OverReads : Connection → S → Type 0 where
    here :
        {c : Connection} {s : S}
        → step h c s ≡ fault
        → length c.key ≤ (first_packet c).p_keynum
        → (first_packet c).p_keynum ≢ 255
        → OverReads c s
    later :
        {c c' : Connection} {s s' : S} → step h c s ≡ next c' s' → OverReads c' s' → OverReads c s

  -- The loop returned, and a connection that goes on has a well-formed buffer; or a packet made it read
  -- past the key, and no assertion failed.
  abbrev pub IsSettled : Connection → S → Outcome S → Type 0
  IsSettled c s (alive c' s') = Buffer.IsValid c'.buffer
  IsSettled c s (closed s') = Unit {0}
  IsSettled c s fault = OverReads c s
  IsSettled c s stuck = ⊥

  IsSettled-later :
      (c c' : Connection) (s s' : S) (o : Outcome S)
      → step h c s ≡ next c' s'
      → IsSettled c' s' o
      → IsSettled c s o
  IsSettled-later c c' s s' (alive d t) e i = i
  IsSettled-later c c' s s' (closed t) e i = tt
  IsSettled-later c c' s s' fault e i = later e i
  IsSettled-later c c' s s' stuck e i = i

  Passes-fault :
      {c : Connection} {p : Packet} {x : Step S}
      → Passes c p x
      → x ≡ fault
      → (length c.key ≤ p.p_keynum) × (p.p_keynum ≢ 255)
  Passes-fault (faults a b) e = (a, b)
  Passes-fault waits e = cc
  Passes-fault aborts e = cc
  Passes-fault (takes k) e = cc

  process-IsSettled :
      (fuel : ℕ) (c : Connection) (s : S)
      → Buffer.IsValid c.buffer
      → length (contents c.buffer) < fuel
      → IsSettled c s (process h fuel c s)
  unfolding process
  process-IsSettled zero c s v enough = absurd (omega arith)
  process-IsSettled (suc fuel) c s v enough = elim (Step-cases (step h c s)) [
    | inl (s', inl e) ↦ rw (e, process) v
    | inl (s', inr e) ↦ rw (e, process) tt
    | inr (inr e) ↦
        let (long, other) = Passes-fault (step-Passes c s v) e in
        rw (e, process) (here e long other)
    | inr (inl (c', s', e)) ↦
        let k = Passes-next (step-Passes c s v) e in
        rw (e, process)
          (IsSettled-later c c' s s' (process h fuel c' s') e (
            process-IsSettled fuel c' s' k.valid (
              omega (
                arith,
                k.whole,
                k.held,
                ap length k.left,
                length-drop (first_packet c).p_length (contents c.buffer),
              ))))
  ]

  -- What a call of OnEvent with some bytes leaves. It reads past the key only in the loop, on the buffer
  -- to which the bytes were added.
  abbrev pub Settles : Connection → Option (List ℕ) → S → Outcome S → Type 0
  Settles c received s (alive c' s') = Buffer.IsValid c'.buffer
  Settles c received s (closed s') = Unit {0}
  Settles c none s fault = ⊥
  Settles c (some bytes) s fault =
      (buffer : Buffer) × (add_data c.buffer bytes ≡ some buffer)
      × OverReads (record c { buffer = buffer }) s
  Settles c received s stuck = ⊥

  IsSettled-Settles :
      (c : Connection) (bytes : List ℕ) (buffer : Buffer) (s : S) (o : Outcome S)
      → add_data c.buffer bytes ≡ some buffer
      → IsSettled (record c { buffer = buffer }) s o
      → Settles c (some bytes) s o
  IsSettled-Settles c bytes buffer s (alive d t) e i = i
  IsSettled-Settles c bytes buffer s (closed t) e i = tt
  IsSettled-Settles c bytes buffer s fault e i = (buffer, e, i)
  IsSettled-Settles c bytes buffer s stuck e i = i

  -- A call of `OnEvent` on a well-formed buffer fails no assertion, whatever the socket delivers: it
  -- returns, and if the connection goes on, its buffer is well formed again; or a pass of its loop finds
  -- a packet that names no byte of the key, nor 255, and reads past the key.
  pub on_event-IsSettled :
      (c : Connection) (received : Option (List ℕ)) (s : S)
      → Buffer.IsValid c.buffer
      → Settles c received s (on_event h c received s)
  unfolding on_event get_amount_of_data_available
  on_event-IsSettled c none s v = tt
  on_event-IsSettled c (some []) s v = tt
  on_event-IsSettled c (some (b ∷ bs)) s v = elim (add_data_lem c.buffer (b ∷ bs) v) [
    | inl (full, _) ↦ rw (full, on_event) tt
    | inr (buffer, added, valid, _) ↦
        rw (added, on_event)
          (IsSettled-Settles c (b ∷ bs) buffer s _ added (
            process-IsSettled (suc buffer.available) (record c { buffer = buffer }) s valid
              (omega (arith, length-contents buffer valid))))
  ]
