-- ===== src/Proxied/Relay.antt =====
-- What the server sends on its way through the proxy to the client: `RemoteCallback` behind the loop
-- of the remote connection.
use openrom.Base.{ℕ, ◌+◌, ◌%◌, ◌^◌, ◌<◌, ◌≡◌, refl, ap, ◌∙◌, arith, List, ◌++◌, true, some}
use openrom.Buffer.{Buffer, contents}
use openrom.Buffer
use openrom.Packet.{Packet, IsFramed, to_bytes, checksum_and_encrypt, key_byte, of_memory}
use openrom.Connection.{
  Host, Connection, Sent, next, step, send_packet, s_max_packet_size, numbered, copy_key,
  key_packet,
}
use openrom.Connection.Delivery.{IsKeyed, send_packet_delivered, send_packet_lem}
use openrom.Connection.KeyExchange.{written_key, send_key_lem, send_key_received}
use openrom.Proxied.{
  Network, Peer, local_remote, local_local, log_if, local_socket, on_remote_packet,
  on_remote_raw_packet, remote_callback, on_remote_new_key, send_new_key,
}

module _ {W : Type 0} (n : Network W) where
  -- The peer after the packet `q` went out to the client as `wire`.
  unfoldable pub forwarded : Packet → Packet → Connection → Peer W → Peer W
  forwarded wire logged l peer =
      let (w, answer) = n.write_local (to_bytes wire) peer.world in
      record peer {
        connection = l;
        world = log_if n n.log_client local_remote local_local logged w;
      }

  on_remote_packet_lem :
      (q : Packet) (peer : Peer W)
      → IsKeyed peer.connection
      → IsFramed q
      → (key : ℕ) × (key_byte peer.connection.key (numbered peer.connection q) ≡ some key)
        × (let wire = checksum_and_encrypt key (numbered peer.connection q) in
            on_remote_packet n q peer
            ≡ forwarded wire wire
                (record peer.connection { sequence = (peer.connection.sequence + 1) % 2 ^ 32 })
                peer)
  unfolding on_remote_packet forwarded
  on_remote_packet_lem q peer k f =
      let (key, found, byte, sends) =
        send_packet_lem (local_socket n) peer.connection q peer.world k f in
      (key, found, rw (sends, on_remote_packet) refl)

  copy_key_lem :
      (c other : Connection)
      → other.have_key ≡ true
      → copy_key c other ≡ some (record c { key = other.key; have_key = true })
  unfolding copy_key
  copy_key_lem c other have = ground arith

  send_new_key_lem :
      (l : Connection) (peer : Peer W)
      → (p : Packet) × (send_new_key n l peer
          ≡ forwarded (written_key l p) (checksum_and_encrypt 8 (key_packet l p)) l peer)
  unfolding send_new_key forwarded
  send_new_key_lem l peer =
      let p = of_memory (n.uninitialised peer.world) in
      (p, rw (send_key_lem (local_socket n) l p 64 peer.world (omega arith), send_new_key) refl)

  on_remote_new_key_lem :
      (remote : Connection) (peer : Peer W)
      → remote.have_key ≡ true
      → (p : Packet) × (let l = record peer.connection { key = remote.key; have_key = true } in
          on_remote_new_key n remote peer
          ≡ forwarded (written_key l p) (checksum_and_encrypt 8 (key_packet l p)) l peer)
  unfolding on_remote_new_key
  on_remote_new_key_lem remote peer have =
      let l = record peer.connection { key = remote.key; have_key = true } in
      let (p, sends) = send_new_key_lem l peer in
      (p, rw (copy_key_lem peer.connection remote have, on_remote_new_key) sends)

-- Both keys being in place, a framed packet below the largest size that the server's connection `c`
-- sent, at the front of the buffer of the proxy's remote
-- connection `d`, goes out to the client with its data unchanged: the pass takes the packet, and
-- writes one packet with the same data that the local connection numbers, and encrypts under the byte
-- of its own key which that number names.
pub server_packet_relayed :
    {S W : Type 0} (h : Host S) (n : Network W) (c c' d : Connection) (p : Packet) (s : S)
    (sent : Sent S) (peer : Peer W) (rest : List ℕ)
    → IsKeyed c
    → IsKeyed peer.connection
    → IsFramed p
    → p.p_length < s_max_packet_size
    → send_packet h c p s ≡ some (c', sent)
    → Buffer.IsValid d.buffer
    → d.have_key ≡ true
    → d.key ≡ c.key
    → contents d.buffer ≡ to_bytes sent.packet ++ rest
    → let l = peer.connection in
      (q : Packet) × (b : Buffer) × (key : ℕ) × (let wire =
          checksum_and_encrypt key (numbered l q) in
        step (remote_callback n (on_remote_packet n)) d peer
        ≡ next
            (record d { buffer = b })
            (forwarded n wire wire
              (record l { sequence = (l.sequence + 1) % 2 ^ 32 })
              (on_remote_raw_packet n sent.packet peer)))
      × (q.p_data ≡ p.p_data)
      × (key_byte l.key (numbered l q) ≡ some key)
      × (contents b ≡ rest)
unfolding on_remote_raw_packet
server_packet_relayed h n c c' d p s sent peer rest k local f small done v have same waiting =
    let (q, b, stepped, same_data, size, number, framed, valid, left) =
      send_packet_delivered h (remote_callback n (on_remote_packet n)) c c' d p s sent peer rest k f
        small done v have same waiting in
    let (key, found, sends) =
      on_remote_packet_lem n q (on_remote_raw_packet n sent.packet peer) local framed in
    (q, b, key, stepped ∙ ap (next (record d { buffer = b })) sends, same_data, found, left)

-- A key that the server's connection `c` sent, at the front of the well-formed buffer of the proxy's remote
-- connection `d`, becomes the key of both connections of the proxy, and the local connection writes
-- it to the client in a key packet of its own.
pub server_key_relayed :
    {W : Type 0} (n : Network W) (c d : Connection) (p : Packet) (peer : Peer W) (rest : List ℕ)
    → IsKeyed c
    → Buffer.IsValid d.buffer
    → contents d.buffer ≡ to_bytes (written_key c p) ++ rest
    → let l = record peer.connection { key = c.key; have_key = true } in
      (b : Buffer) × (m : Packet) × (step (remote_callback n (on_remote_packet n)) d peer
        ≡ next
            (record d { buffer = b; key = c.key; have_key = true })
            (forwarded n
              (written_key l m)
              (checksum_and_encrypt 8 (key_packet l m))
              l
              (on_remote_raw_packet n (written_key c p) peer)))
      × (contents b ≡ rest)
unfolding on_remote_raw_packet
server_key_relayed n c d p peer rest k v waiting =
    let (b, stepped, valid, left) =
      send_key_received (remote_callback n (on_remote_packet n)) c d p peer rest k v waiting in
    let (m, sends) =
      on_remote_new_key_lem n (record d { key = c.key; have_key = true })
        (on_remote_raw_packet n (written_key c p) peer) refl in
    (b, m, stepped ∙ ap (next (record d { buffer = b; key = c.key; have_key = true })) sends, left)
