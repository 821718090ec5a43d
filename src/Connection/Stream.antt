-- ===== src/Connection/Stream.antt =====
-- What a connection promises of the bytes that it receives, whatever its buffer does: the bytes are a
-- stream of packets, each of which changes the session, goes to the callbacks, or ends the connection.
pub mod Front
pub mod Answers
pub mod Refinement
pub mod Append
pub mod Arrivals
pub mod Tests
use openrom.Base.{
  ℕ, zero, suc, ◌+◌, ◌-◌, ◌^◌, ◌≤◌, ◌<◌, ◌≡◌, refl, sym, ap, subst, ◌∙◌, arith, List, [], ◌∷◌, ◌++◌,
  map, Bool, true, false, not, Option, none, some, length, take, drop, ltb, leb, ◌==◌, ◌||◌,
  if◌then◌else◌, replicate,
}
use openrom.Buffer.{new_buffer}
use openrom.Packet.{
  Packet, packet_size, rom_key_length, flag_key, flag_encrypted, flag_alive_request, has_flag,
  decrypt_byte, decrypt, header_checksum_ok, data_checksum_ok, key_byte,
}
use openrom.Connection.{Host, Connection, Sent, packet_at, send_keepalive_reply, s_max_packet_size}

-- A connection without its buffer.
pub record Session : Type 0 where
  pub key : List ℕ
  pub sequence : ℕ
  pub have_key : Bool

abbrev pub session : Connection → Session
session c = record { key = c.key; sequence = c.sequence; have_key = c.have_key }

-- A connection of the session, with nothing in its buffer.
abbrev pub idle : Session → Connection
idle x = record {
  buffer = new_buffer [];
  key = x.key;
  sequence = x.sequence;
  have_key = x.have_key;
}

-- The front of a stream: not yet a packet, no packet, or a packet and what follows it.
pub data Cut : Type 0 where
  short : Cut
  bad : Cut
  packet : Packet → List ℕ → Cut

pub cut : List ℕ → Cut
cut bytes =
    let p = packet_at bytes in
    if ltb (length bytes) packet_size
    then short
    else if ltb p.p_length packet_size || leb s_max_packet_size p.p_length
    then bad
    else if ltb (length bytes) p.p_length
    then short
    else packet p (drop p.p_length bytes)

-- What a packet does: it is taken, the connection is refused, or the key is read past its end.
pub data Response (S : Type 0) : Type 0 where
  taken : Session → S → Response S
  refused : S → Response S
  past_key : Response S

-- How a connection stands once it has nothing more to do with its bytes.
pub data Digest (S : Type 0) : Type 0 where
  pending : Session → List ℕ → S → Digest S
  dropped : S → Digest S
  past_key : Digest S
  stuck : Digest S

module _ {S : Type 0} (h : Host S) where
  pub respond_key : Session → Packet → S → Response S
  respond_key x p s =
      let x' = record x {
        key = map (decrypt_byte 8) (take rom_key_length p.p_data);
        have_key = true;
      } in
      if p.p_length == packet_size + rom_key_length
      then taken x' (h.on_new_key (idle x') s)
      else taken x s

  pub respond_keepalive : Session → S → Response S
  respond_keepalive x s = elim (send_keepalive_reply h (idle x) s) [
    | none ↦ past_key
    | some sent ↦ if sent.ok then taken x sent.world else refused sent.world
  ]

  pub respond_data : Session → Packet → S → Response S
  respond_data x p s = elim (key_byte x.key p) [
    | none ↦ past_key
    | some key ↦
        let q = record p { p_data = decrypt key (p.p_length - packet_size) p.p_data } in
        if data_checksum_ok key q then taken x (h.on_packet q s) else refused s
  ]

  pub respond : Session → Packet → S → Response S
  respond x p s =
      if has_flag p flag_key
      then respond_key x p s
      else if not (header_checksum_ok p)
      then refused s
      else if has_flag p flag_alive_request
      then respond_keepalive x s
      else if not (p.p_flag == flag_encrypted) || not x.have_key
      then taken x s
      else respond_data x p s

  -- The packets of a stream, one after the other.
  pub digest : ℕ → Session → List ℕ → S → Digest S
  digest zero x bytes s = stuck
  digest (suc fuel) x bytes s = elim (cut bytes) [
    | short ↦ pending x bytes s
    | bad ↦ dropped s
    | packet p rest ↦ elim (respond x p (h.on_raw_packet p s)) [
      | taken x' s' ↦ digest fuel x' rest s'
      | refused s' ↦ dropped s'
      | past_key ↦ past_key
    ]
  ]

  -- With fuel for each of the bytes.
  pub stream : Session → List ℕ → S → Digest S
  stream x bytes s = digest (suc (length bytes)) x bytes s

  -- What comes of some more bytes.
  pub resume : Digest S → List ℕ → Digest S
  resume (pending x bytes s) more = stream x (bytes ++ more) s
  resume (dropped s) more = dropped s
  resume past_key more = past_key
  resume stuck more = stuck
