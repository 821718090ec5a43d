-- ===== src/Connection/KeyExchange.antt =====
-- `SendKey` on one connection, and the key packet at the other end.
use openrom.Base.{
  ℕ, ◌+◌, ◌≤◌, ◌≡◌, refl, sym, ap, ◌∙◌, arith, List, ◌++◌, map, true, some, length, take, drop,
  take-append_eq, length-map, le→ltb, take_all,
}
use openrom.Buffer.{Buffer, contents}
use openrom.Buffer
use openrom.Packet.{
  Packet, IsFramed, packet_size, rom_key_length, to_bytes, has_flag, encrypt, encrypt_byte,
  decrypt_byte, checksum_and_encrypt, key_byte,
}
use openrom.Packet.Layout.{with_data}
use openrom.Packet.Cipher.{map_back, encrypted-IsBytes}
use openrom.Connection.{
  Host, Connection, next, skip, receive, receive_key, step, key_packet, send_key, checksum_and_send,
  wrote_all,
}
use openrom.Connection.Frame.{step_frame, skip_lem}
use openrom.Connection.Delivery.{IsKeyed, framed_length}

-- The bytes of the key packet that are written: its buffer may be longer.
unfoldable pub written_key : Connection → Packet → Packet
written_key c p =
    let q = checksum_and_encrypt 8 (key_packet c p) in with_data q (take rom_key_length q.p_data)

written_key_data :
    (c : Connection) (p : Packet)
    → length c.key ≡ rom_key_length
    → (written_key c p).p_data ≡ map (encrypt_byte 8) c.key
unfolding written_key checksum_and_encrypt key_packet encrypt
written_key_data c p e = rw (take-append_eq 10 c.key (drop 10 p.p_data) (sym e)) (
    take-append_eq 10 (map (encrypt_byte 8) c.key) _
      (omega (arith, e, length-map (encrypt_byte 8) c.key)))

written_key-IsFramed :
    (c : Connection) (p : Packet) → length c.key ≡ rom_key_length → IsFramed (written_key c p)
written_key-IsFramed c p e = record {
  framed = omega (arith, ap length data_is, length-map (encrypt_byte 8) c.key, e, length_is);
  length_fits = omega (arith, length_is);
  seq_fits = unfold written_key checksum_and_encrypt key_packet in omega arith;
  flag_byte = unfold written_key checksum_and_encrypt key_packet in omega arith;
  keynum_byte = unfold written_key checksum_and_encrypt key_packet in omega arith;
  data_bytes = rw data_is (encrypted-IsBytes 8 c.key);
}
  where
    data_is : (written_key c p).p_data ≡ map (encrypt_byte 8) c.key
    data_is = written_key_data c p e

    length_is : (written_key c p).p_length ≡ 22
    length_is = unfold written_key checksum_and_encrypt key_packet in refl

-- `SendKey` answers for every buffer of at least 22 bytes, and writes one key packet, under the fixed
-- key 8; its answer is whether the socket took all of it.
pub send_key_lem :
    {S : Type 0} (h : Host S) (c : Connection) (p : Packet) (len : ℕ) (s : S)
    → packet_size + rom_key_length ≤ len
    → let (s', answer) = h.write (to_bytes (written_key c p)) s in
      send_key h c p len s
      ≡ some (record {
        ok = wrote_all answer 22;
        packet = checksum_and_encrypt 8 (key_packet c p);
        world = s';
      })
unfolding send_key checksum_and_send key_packet key_byte checksum_and_encrypt written_key to_bytes
send_key_lem h c p len s e = rw (le→ltb len 22 e) refl

written_key_back :
    (c : Connection) (p : Packet)
    → IsKeyed c
    → map (decrypt_byte 8) (take rom_key_length (written_key c p).p_data) ≡ c.key
written_key_back c p k =
    rw
      (
        written_key_data c p k.key_length,
        take_all 10 (map (encrypt_byte 8) c.key)
            (omega (arith, k.key_length, length-map (encrypt_byte 8) c.key)),
      )
      (map_back 8 c.key (omega arith) k.key_bytes)

receive-written_key :
    {T : Type 0} (g : Host T) (c d : Connection) (p : Packet) (t : T)
    → IsKeyed c
    → receive g d (written_key c p) t
      ≡ skip g
          (record d { key = c.key; have_key = true })
          (written_key c p)
          (g.on_new_key (record d { key = c.key; have_key = true }) t)
receive-written_key g c d p t k =
    dispatched
    ∙ ap
        (λ key.
          skip g (record d { key = key; have_key = true }) (written_key c p)
            (g.on_new_key (record d { key = key; have_key = true }) t))
        (written_key_back c p k)
  where
    took : List ℕ
    took = map (decrypt_byte 8) (take rom_key_length (written_key c p).p_data)

    dispatched :
        receive g d (written_key c p) t
        ≡ skip g
            (record d { key = took; have_key = true })
            (written_key c p)
            (g.on_new_key (record d { key = took; have_key = true }) t)
    dispatched =
        unfold receive receive_key written_key checksum_and_encrypt key_packet has_flag in refl

-- A connection whose well-formed buffer begins with what `SendKey` wrote for a sender whose key is in
-- place takes that key, calls `OnNewKey`, and keeps the bytes that follow.
pub send_key_received :
    {T : Type 0} (g : Host T) (c d : Connection) (p : Packet) (t : T) (rest : List ℕ)
    → IsKeyed c
    → Buffer.IsValid d.buffer
    → contents d.buffer ≡ to_bytes (written_key c p) ++ rest
    → (b : Buffer) × (step g d t
        ≡ next
            (record d { buffer = b; key = c.key; have_key = true })
            (g.on_new_key
              (record d { key = c.key; have_key = true })
              (g.on_raw_packet (written_key c p) t)))
      × Buffer.IsValid b
      × (contents b ≡ rest)
send_key_received g c d p t rest k v waiting =
    let f = written_key-IsFramed c p k.key_length in
    let t' = g.on_raw_packet (written_key c p) t in
    let (b, skipped, valid, left) =
      skip_lem g (record d { key = c.key; have_key = true })
        (g.on_new_key (record d { key = c.key; have_key = true }) t') (written_key c p)
        (to_bytes (written_key c p)) rest v (framed_length (written_key c p) f) waiting in
    (
      b,
      step_frame g d t (written_key c p) rest v f (omega (arith, length_is)) waiting
          ∙ receive-written_key g c d p t' k
          ∙ skipped,
      valid,
      left,
    )
  where
    length_is : (written_key c p).p_length ≡ 22
    length_is = unfold written_key checksum_and_encrypt key_packet in refl
