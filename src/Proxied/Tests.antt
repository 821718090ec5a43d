-- ===== src/Proxied/Tests.antt =====
-- A packet and a key that pass through the proxy.
use openrom.Base.{
  ℕ, ◌≡◌, refl, arith, List, [], ◌∷◌, ◌++◌, true, false, none, some, length, replicate,
}
use openrom.Buffer.{Buffer, contents}
use openrom.Buffer.Tests.{contents-filled}
use openrom.Packet.{Packet, to_bytes, checksum_and_encrypt, key_byte}
use openrom.Connection.{step, next, numbered, key_packet}
use openrom.Connection.KeyExchange.{written_key}
use openrom.Connection.Tests.{
  host, key, sender, sender-IsKeyed, two_bytes, two_bytes-IsFramed, sealed, sent, sender_sends,
  receiver, receiver-IsValid, keyless, keyless-IsValid, waiting,
}
use openrom.Proxied.{Network, Peer, on_remote_packet, on_remote_raw_packet, remote_callback}
use openrom.Proxied.Relay.{forwarded, server_packet_relayed, server_key_relayed}

-- The bytes that went to the client.
abbrev network : Network (List ℕ)
network = record {
  write_local = λ bytes w. (w ++ bytes, some (length bytes));
  write_remote = λ bytes w. (w, none);
  write_log = λ source dest p w. w;
  log_client = true;
  log_server = false;
  stack_bytes = λ w. replicate 4 0;
  uninitialised = λ w. replicate 64 0;
}

abbrev peer : Peer (List ℕ)
peer = record { connection = sender; world = []; failed = false }

server_packet_relayed_example :
    (q : Packet) × (b : Buffer) × (k : ℕ) × (let wire =
        checksum_and_encrypt k (numbered sender q) in
      step (remote_callback network (on_remote_packet network)) receiver peer
      ≡ next
          (record receiver { buffer = b })
          (forwarded network wire wire
            (record sender { sequence = 2 })
            (on_remote_raw_packet network sealed peer)))
    × (q.p_data ≡ two_bytes.p_data)
    × (key_byte key (numbered sender q) ≡ some k)
    × (contents b ≡ replicate 5 1)
server_packet_relayed_example =
    server_packet_relayed host network sender (record sender { sequence = 2 }) receiver two_bytes []
      sent peer (replicate 5 1) sender-IsKeyed sender-IsKeyed two_bytes-IsFramed (omega arith)
      sender_sends receiver-IsValid refl refl (contents-filled (to_bytes sealed ++ replicate 5 1))

server_key_relayed_example :
    (b : Buffer) × (m : Packet) × (step
        (remote_callback network (on_remote_packet network))
        keyless
        peer
      ≡ next
          (record keyless { buffer = b; key = key; have_key = true })
          (forwarded network
            (written_key sender m)
            (checksum_and_encrypt 8 (key_packet sender m))
            sender
            (on_remote_raw_packet network (written_key sender two_bytes) peer)))
    × (contents b ≡ 1 ∷ 2 ∷ [])
server_key_relayed_example =
    server_key_relayed network sender keyless two_bytes peer (1 ∷ 2 ∷ []) sender-IsKeyed
      keyless-IsValid (contents-filled waiting)
