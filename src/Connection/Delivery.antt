-- ===== src/Connection/Delivery.antt =====
-- One connection to another: what `SendPacket` and `SendKey` write, the receiving end takes.
use openrom.Base.{
  ℕ, ◌+◌, ◌-◌, ◌%◌, ◌^◌, ◌<◌, ◌≡◌, refl, sym, ap, subst, ◌∙◌, arith, List, ◌++◌, true, false, some,
  length, take, All, get_elem?_lt, All-get_elem?, take_all, le→ltb, ◌==◌,
}
use mathlib.Core.Option.{some-injective}
use openrom.Buffer.{Buffer, contents}
use openrom.Buffer
use openrom.Packet.{
  Packet, IsFramed, IsByte, packet_size, rom_key_length, to_bytes, has_flag, flag_key,
  flag_encrypted, flag_alive_request, header_checksum_ok, data_checksum_ok, checksum_and_encrypt,
  key_byte,
}
use openrom.Packet.Layout.{length-to_bytes}
use openrom.Packet.Sealing.{
  stamped, opened, opened-checksum_and_encrypt, checksum_and_encrypt-accepted,
  checksum_and_encrypt-IsFramed,
}
use openrom.Connection.{
  Host, Connection, Sent, next, skip, receive, receive_data, step, s_max_packet_size, numbered,
  send_packet, checksum_and_send, wrote_all,
}
use openrom.Connection.Frame.{step_frame, skip_lem}

-- The key is in place and the counter is in the range of its type.
pub record IsKeyed (c : Connection) : Type 0 where
  pub key_length : length c.key ≡ rom_key_length
  pub key_bytes : All IsByte c.key
  pub sequence_fits : c.sequence < 2 ^ 32

-- The packet that `SendPacket` numbers names one of the ten key bytes.
pub numbered_key :
    (c : Connection) (p : Packet)
    → IsKeyed c
    → (key : ℕ) × (key_byte c.key (numbered c p) ≡ some key) × IsByte key
unfolding numbered key_byte
numbered_key c p k =
    let i = (c.sequence + 2 ^ 32 - 1) % 2 ^ 32 % 10 in
    let (key, found) = get_elem?_lt c.key i (omega (arith, k.key_length)) in
    (key, ground arith, All-get_elem? IsByte c.key i k.key_bytes found)

pub numbered-IsFramed :
    (c : Connection) (p : Packet) → IsKeyed c → IsFramed p → IsFramed (numbered c p)
unfolding numbered
numbered-IsFramed c p k f = record {
  framed = f.framed;
  length_fits = f.length_fits;
  seq_fits = k.sequence_fits;
  flag_byte = omega arith;
  keynum_byte = omega arith;
  data_bytes = f.data_bytes;
}

pub framed_length : (q : Packet) → IsFramed q → length (to_bytes q) ≡ q.p_length
framed_length q f = omega (arith, f.framed, length-to_bytes q)

stamped-IsFramed : (key : ℕ) (q : Packet) → IsFramed q → IsFramed (stamped key q)
unfolding stamped
stamped-IsFramed key q f = record {
  framed = f.framed;
  length_fits = f.length_fits;
  seq_fits = f.seq_fits;
  flag_byte = f.flag_byte;
  keynum_byte = f.keynum_byte;
  data_bytes = f.data_bytes;
}

-- All of a framed packet is written.
whole_packet : (q : Packet) → IsFramed q → take q.p_length (to_bytes q) ≡ to_bytes q
whole_packet q f = take_all q.p_length (to_bytes q) (omega (arith, framed_length q f))

module _ {S : Type 0} (h : Host S) where
  -- An encrypted packet that passes both checks goes to `OnPacket`, and leaves the buffer.
  receive_accepted :
      (c : Connection) (q : Packet) (s : S) (key : ℕ)
      → has_flag q flag_key ≡ false
      → has_flag q flag_alive_request ≡ false
      → (q.p_flag == flag_encrypted) ≡ true
      → header_checksum_ok q ≡ true
      → c.have_key ≡ true
      → key_byte c.key q ≡ some key
      → data_checksum_ok key (opened key q) ≡ true
      → receive h c q s ≡ skip h c (opened key q) (h.on_packet (opened key q) s)
  unfolding receive receive_data opened
  receive_accepted c q s key no_key no_alive flag header have found checked = ground arith

  -- With a key in place `SendPacket` answers on every framed packet, and writes one numbered packet that is
  -- encrypted under a byte of the key.
  pub send_packet_lem :
      (c : Connection) (p : Packet) (s : S)
      → IsKeyed c
      → IsFramed p
      → (key : ℕ) × (key_byte c.key (numbered c p) ≡ some key)
        × IsByte key
        × (let q = checksum_and_encrypt key (numbered c p) in
            let (s', answer) = h.write (to_bytes q) s in
            send_packet h c p s
            ≡ some (
              record c { sequence = (c.sequence + 1) % 2 ^ 32 },
              record { ok = wrote_all answer q.p_length; packet = q; world = s' },
            ))
  unfolding send_packet checksum_and_send
  send_packet_lem c p s k f =
      let (key, found, byte) = numbered_key c p k in
      (
        key,
        found,
        byte,
        rw (
          le→ltb p.p_length packet_size (omega (arith, f.framed)),
          found,
          whole_packet (checksum_and_encrypt key (numbered c p))
              (checksum_and_encrypt-IsFramed key (numbered c p) (numbered-IsFramed c p k f)),
        ),
      )

  -- A packet that was numbered, checksummed and encrypted under the key byte that it names.
  sealed_received :
      (c d : Connection) (p : Packet) (t : S) (key : ℕ) (rest : List ℕ)
      → IsByte key
      → IsFramed (numbered c p)
      → p.p_length < s_max_packet_size
      → key_byte d.key (numbered c p) ≡ some key
      → Buffer.IsValid d.buffer
      → d.have_key ≡ true
      → contents d.buffer ≡ to_bytes (checksum_and_encrypt key (numbered c p)) ++ rest
      → (b : Buffer) × (step h d t
          ≡ next
              (record d { buffer = b })
              (h.on_packet
                (stamped key (numbered c p))
                (h.on_raw_packet (checksum_and_encrypt key (numbered c p)) t)))
        × Buffer.IsValid b
        × (contents b ≡ rest)
  unfolding checksum_and_encrypt numbered has_flag key_byte opened
  sealed_received c d p t key rest byte f small found v have waiting =
      let (b, skipped, valid, left) =
        skip_lem h d (h.on_packet (opened key q) t') (opened key q) (to_bytes q) rest v whole_length
          waiting in
      (
        b,
        step_frame h d t q rest v (checksum_and_encrypt-IsFramed key n f) small waiting
            ∙ receive_accepted d q t' key refl refl refl accepted.0 have found accepted.1
            ∙ skipped
            ∙ ap (λ (m : Packet). next (record d { buffer = b }) (h.on_packet m t'))
                (opened-checksum_and_encrypt key n byte f),
        valid,
        left,
      )
    where
      n : Packet
      n = numbered c p

      q : Packet
      q = checksum_and_encrypt key n

      t' : S
      t' = h.on_raw_packet q t

      accepted : (header_checksum_ok q ≡ true) × (data_checksum_ok key (opened key q) ≡ true)
      accepted = checksum_and_encrypt-accepted key n byte f

      whole_length : length (to_bytes q) ≡ (opened key q).p_length
      whole_length = framed_length q (checksum_and_encrypt-IsFramed key n f)

-- What `SendPacket` wrote arrives, for a framed packet below the largest size and a sender whose key
-- is in place: a connection with the same key whose well-formed buffer begins with those bytes hands
-- a framed packet with the data and the length of the sender's and with its number to `OnPacket`,
-- after it showed the packet as it came to `OnRawPacketReceived`. Only the bytes that follow stay in
-- its buffer, which is well formed.
pub send_packet_delivered :
    {S T : Type 0} (h : Host S) (g : Host T) (c c' d : Connection) (p : Packet) (s : S)
    (sent : Sent S) (t : T) (rest : List ℕ)
    → IsKeyed c
    → IsFramed p
    → p.p_length < s_max_packet_size
    → send_packet h c p s ≡ some (c', sent)
    → Buffer.IsValid d.buffer
    → d.have_key ≡ true
    → d.key ≡ c.key
    → contents d.buffer ≡ to_bytes sent.packet ++ rest
    → (q : Packet) × (b : Buffer) × (step g d t
        ≡ next (record d { buffer = b }) (g.on_packet q (g.on_raw_packet sent.packet t)))
      × (q.p_data ≡ p.p_data)
      × (q.p_length ≡ p.p_length)
      × (q.p_seq ≡ c.sequence)
      × IsFramed q
      × Buffer.IsValid b
      × (contents b ≡ rest)
unfolding stamped numbered
send_packet_delivered h g c c' d p s sent t rest k f small done v have same waiting =
    let (key, found, byte, sends) = send_packet_lem h c p s k f in
    let wire : sent.packet ≡ checksum_and_encrypt key (numbered c p) =
      ap (λ r. r.1.packet) (some-injective _ _ (sym done ∙ sends)) in
    let (b, stepped, valid, left) =
      sealed_received g c d p t key rest byte (numbered-IsFramed c p k f) small
        (subst (λ m. key_byte m (numbered c p) ≡ some key) (sym same) found) v have
        (waiting ∙ ap (λ m. to_bytes m ++ rest) wire) in
    (
      stamped key (numbered c p),
      b,
      rw wire stepped,
      refl,
      refl,
      refl,
      stamped-IsFramed key (numbered c p) (numbered-IsFramed c p k f),
      valid,
      left,
    )
