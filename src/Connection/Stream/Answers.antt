-- ===== src/Connection/Stream/Answers.antt =====
-- What a pass of `OnEvent` does with a packet is the session's response to it.
use openrom.Base.{
  ℕ, ◌+◌, ◌-◌, ◌≤◌, ◌≡◌, refl, subst, inl, inr, arith, List, Bool, true, false, not, length, take,
  drop, ◌||◌, ◌==◌, if◌then◌else◌, Bool-cases, Option-cases, map,
}
use openrom.Buffer.{
  Buffer, contents, flush_data, peek_data, add_data, get_amount_of_data_available, s_buffer_size,
}
use openrom.Buffer
use openrom.Buffer.Laws.{flush_data_lem}
use openrom.Packet.{
  Packet, packet_size, key_byte, header_checksum_ok, has_flag, flag_key, flag_encrypted,
  rom_key_length, decrypt_byte, flag_alive_request,
}
use openrom.Connection.{
  Host, Connection, Step, abort, next, fault, skip, receive, receive_key, receive_keepalive,
  receive_data, send_keepalive_reply, checksum_and_send,
}
use openrom.Connection.Stream.{
  Session, session, idle, Response, taken, refused, past_key, respond, respond_key,
  respond_keepalive, respond_data,
}

-- The callback for a new key looks at the key, and not at the buffer.
pub record ReadsKey {S : Type 0} (h : Host S) : Type 0 where
  pub reads_key :
      (c d : Connection) (s : S)
      → c.key ≡ d.key
      → c.have_key ≡ d.have_key
      → h.on_new_key c s ≡ h.on_new_key d s

-- A pass does what the session's response says, and `rest` stays in the buffer.
pub data Answers {S : Type 0} (rest : List ℕ) : Response S → Step S → Type 0 where
  goes :
      {c : Connection} {x : Session} {s : S}
      → session c ≡ x
      → Buffer.IsValid c.buffer
      → contents c.buffer ≡ rest
      → Answers rest (taken x s) (next c s)
  refuses : {s : S} → Answers rest (refused s) (abort s)
  faults : Answers rest past_key fault

-- Two conditionals with one test.
if_both :
    {A B : Type 0} (P : A → B → Type 0) (b : Bool) {x y : A} {u v : B}
    → P x u
    → P y v
    → P (if b then x else y) (if b then u else v)
if_both P true p q = p
if_both P false p q = q

pub if_both_split :
    {A B : Type 0} (P : A → B → Type 0) (b : Bool) {x y : A} {u v : B}
    → (b ≡ true → P x u)
    → (b ≡ false → P y v)
    → P (if b then x else y) (if b then u else v)
if_both_split P true p q = p refl
if_both_split P false p q = q refl

if_or :
    {A : Type 0} (a b : Bool) (x y : A)
    → (if a || b then x else y) ≡ (if a then x else if b then x else y)
if_or true b x y = refl
if_or false b x y = refl

module _ {S : Type 0} (h : Host S) (reads : ReadsKey h) where
  skip-Answers :
      (c d : Connection) (q : Packet) (s : S) (n : ℕ)
      → Buffer.IsValid c.buffer
      → d.buffer ≡ c.buffer
      → q.p_length ≡ n
      → n ≤ length (contents c.buffer)
      → Answers (drop n (contents c.buffer)) (taken (session d) s) (skip h d q s)
  unfolding skip
  skip-Answers c d q s n v same size enough =
      let (b, flushed, valid, left) = flush_data_lem c.buffer n v enough in
      rw (same, size, flushed, skip) (goes refl valid left)

  receive_key-Answers :
      (c : Connection) (p : Packet) (s : S)
      → Buffer.IsValid c.buffer
      → packet_size ≤ p.p_length
      → p.p_length ≤ length (contents c.buffer)
      → Answers
          (drop p.p_length (contents c.buffer))
          (respond_key h (session c) p s)
          (receive_key h c p s)
  unfolding receive_key respond_key
  receive_key-Answers c p s v whole enough =
      elim (Bool-cases (p.p_length == packet_size + rom_key_length)) [
        | inl key ↦
            rw (key, ten p.p_length whole key)
              (reread (skip-Answers c c' p (h.on_new_key c' s) p.p_length v refl refl enough))
        | inr other ↦
            rw (other, not_ten p.p_length whole other)
              (skip-Answers c c p s p.p_length v refl refl enough)
      ]
    where
      ten : (n : ℕ) → 12 ≤ n → (n == 22) ≡ true → not (n - 12 == 10) ≡ false
      ten n h e = ground arith

      not_ten : (n : ℕ) → 12 ≤ n → (n == 22) ≡ false → not (n - 12 == 10) ≡ true
      not_ten n h e = ground arith

      c' : Connection
      c' = record c { key = map (decrypt_byte 8) (take rom_key_length p.p_data); have_key = true }

      reread :
          Answers
            (drop p.p_length (contents c.buffer))
            (taken (session c') (h.on_new_key c' s))
            (skip h c' p (h.on_new_key c' s))
          → Answers
              (drop p.p_length (contents c.buffer))
              (taken (session c') (h.on_new_key (idle (session c')) s))
              (skip h c' p (h.on_new_key c' s))
      reread =
          subst
            (λ t.
              Answers (drop p.p_length (contents c.buffer)) (taken (session c') t)
                (skip h c' p (h.on_new_key c' s)))
            (reads.reads_key c' (idle (session c')) s refl refl)

  receive_keepalive-Answers :
      (c : Connection) (p : Packet) (s : S)
      → Buffer.IsValid c.buffer
      → p.p_length ≤ length (contents c.buffer)
      → Answers
          (drop p.p_length (contents c.buffer))
          (respond_keepalive h (session c) s)
          (receive_keepalive h c p s)
  unfolding receive_keepalive respond_keepalive send_keepalive_reply checksum_and_send key_byte
  receive_keepalive-Answers c p s v enough =
      if_both (Answers (drop p.p_length (contents c.buffer))) _
        (skip-Answers c c p _ p.p_length v refl refl enough) refuses

  receive_data-Answers :
      (c : Connection) (p : Packet) (s : S)
      → Buffer.IsValid c.buffer
      → p.p_length ≤ length (contents c.buffer)
      → Answers
          (drop p.p_length (contents c.buffer))
          (respond_data h (session c) p s)
          (receive_data h c p s)
  unfolding receive_data respond_data
  receive_data-Answers c p s v enough = elim (Option-cases (key_byte c.key p)) [
    | inl missing ↦ rw (missing, receive_data, respond_data) faults
    | inr (key, found) ↦
        rw (found, receive_data, respond_data)
          (if_both (Answers (drop p.p_length (contents c.buffer))) _
            (skip-Answers c c _ _ p.p_length v refl refl enough) refuses)
  ]

  pub receive-Answers :
      (c : Connection) (p : Packet) (s : S)
      → Buffer.IsValid c.buffer
      → packet_size ≤ p.p_length
      → p.p_length ≤ length (contents c.buffer)
      → Answers (drop p.p_length (contents c.buffer)) (respond h (session c) p s) (receive h c p s)
  unfolding receive respond
  receive-Answers c p s v whole enough =
      let A = Answers (drop p.p_length (contents c.buffer)) in
      let skipped = skip-Answers c c p s p.p_length v refl refl enough in
      if_both A (has_flag p flag_key) (receive_key-Answers c p s v whole enough) (
        if_both A (not (header_checksum_ok p)) refuses (
          if_both A (has_flag p flag_alive_request) (receive_keepalive-Answers c p s v enough) (
            rw (if_or (not (p.p_flag == flag_encrypted)) (not c.have_key)) (
              if_both A (not (p.p_flag == flag_encrypted)) skipped
                (if_both A (not c.have_key) skipped (receive_data-Answers c p s v enough))))))
