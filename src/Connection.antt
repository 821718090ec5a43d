-- ===== src/Connection.antt =====
-- lib/romconnection.h, lib/romconnection.cc and lib/romconnectioncallback.h: one end of an encrypted
-- connection. The socket and the callback object are a `Host` over a state `S` of their own, so that
-- a method of the connection maps the connection and that state to new ones. `OnEvent` is the
-- step of its loop, one for each pass, and the loop on fuel.
pub mod Frame
pub mod Delivery
pub mod KeyExchange
pub mod Loop
pub mod Stream
pub mod Tests
use openrom.Base.{
  ℕ, zero, suc, ◌+◌, ◌-◌, ◌%◌, ◌^◌, ◌≤◌, ◌<◌, List, [], ◌∷◌, ◌++◌, map, Bool, true, false, not,
  Option, none, some, length, take, drop, replicate, ltb, leb, ◌==◌, ◌||◌, if◌then◌else◌,
}
use mathlib.Core.Option
use openrom.Buffer.{
  Buffer, new_buffer, add_data, flush_data, peek_data, get_amount_of_data_available,
}
use openrom.Packet.{
  Packet, packet_size, rom_key_length, flag_key, flag_encrypted, flag_alive_request,
  flag_alive_reply, to_bytes, of_memory, has_flag, decrypt_byte, decrypt, header_checksum_ok,
  data_checksum_ok, checksum_and_encrypt, key_byte,
}

pub record Connection : Type 0 where
  pub buffer : Buffer
  pub key : List ℕ
  pub sequence : ℕ
  pub have_key : Bool

-- `write` is `Client::Write`, with the answer -1 as `none`. `on_new_key` is handed the
-- connection, which the callback reads. `stack_bytes` are the four bytes that lie behind
-- the local packet of `SendKeepaliveReply`.
pub record Host (S : Type 0) : Type 0 where
  pub write : List ℕ → S → S × Option ℕ
  pub on_new_key : Connection → S → S
  pub on_packet : Packet → S → S
  pub on_raw_packet : Packet → S → S
  pub stack_bytes : S → List ℕ

abbrev pub s_max_packet_size : ℕ
s_max_packet_size = 131072

-- The constructor, over the memory that the buffer allocates.
pub new_connection : List ℕ → Connection
new_connection memory = record {
  buffer = new_buffer memory;
  key = replicate rom_key_length 0;
  sequence = 1;
  have_key = false;
}

-- The answer of a method that writes, the packet as it was left, and the state of the host.
pub record Sent (S : Type 0) : Type 0 where
  pub ok : Bool
  pub packet : Packet
  pub world : S

-- One pass of the loop of `OnEvent`: it breaks, it returns false, it goes on, or it reads past the
-- end of the key.
pub data Step (S : Type 0) : Type 0 where
  wait : S → Step S
  abort : S → Step S
  next : Connection → S → Step S
  fault : Step S

-- `OnEvent` returns true or false. `stuck` says that the model's fuel ran out.
pub data Outcome (S : Type 0) : Type 0 where
  alive : Connection → S → Outcome S
  closed : S → Outcome S
  fault : Outcome S
  stuck : Outcome S

-- `m_Client.Write(...) == p->p_length`
abbrev pub wrote_all : Option ℕ → ℕ → Bool
wrote_all none n = false
wrote_all (some m) n = m == n

-- `none` is a failed assertion.
unfoldable pub copy_key : Connection → Connection → Option Connection
copy_key c other =
    if other.have_key then some (record c { key = other.key; have_key = true }) else none

-- The packet that `SendPacket` hands on.
pub numbered : Connection → Packet → Packet
numbered c p = record p {
  p_flag = flag_encrypted;
  p_seq = c.sequence;
  p_keynum = (c.sequence + 2 ^ 32 - 1) % 2 ^ 32 % 10;
}

-- `p` is the caller's buffer, of `len` bytes.
pub key_packet : Connection → Packet → Packet
key_packet c p = record p {
  p_length = packet_size + rom_key_length;
  p_flag = flag_key + flag_encrypted;
  p_seq = 0;
  p_keynum = 255;
  p_data = c.key ++ drop rom_key_length p.p_data;
}

-- The memory of the buffer as a packet with the data that its header counts.
pub packet_at : List ℕ → Packet
packet_at memory =
    let p = of_memory memory in record p { p_data = take (p.p_length - packet_size) p.p_data }

module _ {S : Type 0} (h : Host S) where
  -- `none` is a read past the end of the key.
  pub checksum_and_send : Connection → Packet → S → Option (Sent S)
  checksum_and_send c p s =
      Option.map
        (λ key.
          let q = checksum_and_encrypt key p in
          let (s', answer) = h.write (take q.p_length (to_bytes q)) s in
          record { ok = wrote_all answer q.p_length; packet = q; world = s' })
        (key_byte c.key p)

  -- The connection counts the packet before it is sent. `none` is a failed assertion too.
  pub send_packet : Connection → Packet → S → Option (Connection × Sent S)
  send_packet c p s =
      if ltb p.p_length packet_size
      then none
      else let c' = record c { sequence = (c.sequence + 1) % 2 ^ 32 } in
        Option.map (λ sent. (c', sent)) (checksum_and_send c' (numbered c p) s)

  pub send_key : Connection → Packet → ℕ → S → Option (Sent S)
  send_key c p len s =
      if ltb len (packet_size + rom_key_length)
      then none
      else checksum_and_send c (key_packet c p) s

  -- The local packet has no data of its own: what its length counts beyond the header is the stack.
  pub send_keepalive_reply : Connection → S → Option (Sent S)
  send_keepalive_reply c s =
      checksum_and_send c
        (record {
          p_length = 16;
          p_flag = flag_alive_reply;
          p_data_checksum = 0;
          p_header_checksum = 0;
          p_keynum = 255;
          p_seq = 0;
          p_data = h.stack_bytes s;
        })
        s

  -- `m_Buffer->FlushData(p->p_length); continue;`
  pub skip : Connection → Packet → S → Step S
  skip c p s = elim (flush_data c.buffer p.p_length) [
    | none ↦ fault
    | some b ↦ next (record c { buffer = b }) s
  ]

  pub receive_key : Connection → Packet → S → Step S
  receive_key c p s =
      if not (p.p_length - packet_size == rom_key_length)
      then skip c p s
      else let key = map (decrypt_byte 8) (take rom_key_length p.p_data) in
        let c' = record c { key = key; have_key = true } in skip c' p (h.on_new_key c' s)

  pub receive_keepalive : Connection → Packet → S → Step S
  receive_keepalive c p s = elim (send_keepalive_reply c s) [
    | none ↦ fault
    | some sent ↦ if sent.ok then skip c p sent.world else abort sent.world
  ]

  -- The data is decrypted in place, in a part of the buffer that is then flushed or given up.
  unfoldable pub receive_data : Connection → Packet → S → Step S
  receive_data c p s = elim (key_byte c.key p) [
    | none ↦ fault
    | some key ↦
        let q = record p { p_data = decrypt key (p.p_length - packet_size) p.p_data } in
        if data_checksum_ok key q then skip c q (h.on_packet q s) else abort s
  ]

  -- A complete packet, after `OnRawPacketReceived`.
  unfoldable pub receive : Connection → Packet → S → Step S
  unfolding receive_data
  receive c p s =
      if has_flag p flag_key
      then receive_key c p s
      else if not (header_checksum_ok p)
      then abort s
      else if has_flag p flag_alive_request
      then receive_keepalive c p s
      else if not (p.p_flag == flag_encrypted)
      then skip c p s
      else if not c.have_key
      then skip c p s
      else receive_data c p s

  pub step : Connection → S → Step S
  step c s = elim (peek_data c.buffer packet_size) [
    | none ↦ wait s
    | some memory ↦
        let p = packet_at memory in
        if ltb p.p_length packet_size || leb s_max_packet_size p.p_length
        then abort s
        else elim (peek_data c.buffer p.p_length) [
          | none ↦ wait s
          | some _ ↦ receive c p (h.on_raw_packet p s)
        ]
  ]

  pub process : ℕ → Connection → S → Outcome S
  process zero c s = stuck
  process (suc fuel) c s = elim (step c s) [
    | wait s' ↦ alive c s'
    | abort s' ↦ closed s'
    | next c' s' ↦ process fuel c' s'
    | fault ↦ fault
  ]

  -- `received` is what `m_Client.Read` answers. Each pass takes a packet from the buffer, so as many
  -- passes as it holds bytes, and one, are enough.
  pub on_event : Connection → Option (List ℕ) → S → Outcome S
  on_event c none s = closed s
  on_event c (some []) s = closed s
  on_event c (some (b ∷ bs)) s = elim (add_data c.buffer (b ∷ bs)) [
    | none ↦ closed s
    | some buffer ↦
        process (suc (get_amount_of_data_available buffer)) (record c { buffer = buffer }) s
  ]
