-- ===== src/Proxied.antt =====
-- romproxy/romproxiedconnection.h and .cc: the client's connection (local) and the server's (remote),
-- joined by their callbacks. The sockets and the log file are a `Network` over a state `W`.
pub mod Relay
mod Tests
use openrom.Base.{ℕ, ◌+◌, List, Bool, true, false, Option, none, some, replicate, if◌then◌else◌}
use openrom.Packet.{Packet, of_memory}
use openrom.Connection.{Host, Connection, Sent, Outcome, copy_key, send_key, send_packet, on_event}

-- The four addresses of the two sockets, as the log names them.
pub data Endpoint : Type 0 where
  local_local local_remote remote_local remote_remote : Endpoint

-- `write_log` is `ROMPacketLogger::Write` from a source to a destination. `log_client` and
-- `log_server` are what `MustLogProxyClientTraffic` and `MustLogProxyServerTraffic` answer.
-- `uninitialised` are the 64 bytes of the local buffer of `OnRemoteNewKey`.
pub record Network (W : Type 0) : Type 0 where
  pub write_local : List ℕ → W → W × Option ℕ
  pub write_remote : List ℕ → W → W × Option ℕ
  pub write_log : Endpoint → Endpoint → Packet → W → W
  pub log_client : Bool
  pub log_server : Bool
  pub stack_bytes : W → List ℕ
  pub uninitialised : W → List ℕ

-- What the callbacks of one connection change: the other connection, and the network. `failed` says
-- that an assertion failed, or a read was out of range.
pub record Peer (W : Type 0) : Type 0 where
  pub connection : Connection
  pub world : W
  pub failed : Bool

module _ {W : Type 0} (n : Network W) where
  pub log_if : Bool → Endpoint → Endpoint → Packet → W → W
  log_if must source dest p w = if must then n.write_log source dest p w else w

  -- The sockets on which the two connections write. They have callbacks of their own elsewhere.
  abbrev pub local_socket : Host W
  local_socket = record {
    write = n.write_local;
    on_new_key = λ c w. w;
    on_packet = λ p w. w;
    on_raw_packet = λ p w. w;
    stack_bytes = n.stack_bytes;
  }

  abbrev pub remote_socket : Host W
  remote_socket = record {
    write = n.write_remote;
    on_new_key = λ c w. w;
    on_packet = λ p w. w;
    on_raw_packet = λ p w. w;
    stack_bytes = n.stack_bytes;
  }

  -- `m_LocalConnection->SendPacket(p)`, and the log of the packet that was sent.
  pub on_remote_packet : Packet → Peer W → Peer W
  on_remote_packet p peer = elim (send_packet local_socket peer.connection p peer.world) [
    | none ↦ record peer { failed = true }
    | some (c, sent) ↦ record peer {
      connection = c;
      world = log_if n.log_client local_remote local_local sent.packet sent.world;
    }
  ]

  -- The key is copied to the local connection and sent to the client.
  pub send_new_key : Connection → Peer W → Peer W
  send_new_key c peer =
      let p = of_memory (n.uninitialised peer.world) in
      elim (send_key local_socket c p 64 peer.world) [
        | none ↦ record peer { connection = c; failed = true }
        | some sent ↦ record peer {
          connection = c;
          world = log_if n.log_client local_remote local_local sent.packet sent.world;
        }
      ]

  pub on_remote_new_key : Connection → Peer W → Peer W
  on_remote_new_key remote peer = elim (copy_key peer.connection remote) [
    | none ↦ record peer { failed = true }
    | some c ↦ send_new_key c peer
  ]

  pub on_remote_raw_packet : Packet → Peer W → Peer W
  on_remote_raw_packet p peer = record peer {
    world = log_if n.log_server remote_remote remote_local p peer.world;
  }

  pub on_local_packet : Packet → Peer W → Peer W
  on_local_packet p peer = elim (send_packet remote_socket peer.connection p peer.world) [
    | none ↦ record peer { failed = true }
    | some (c, sent) ↦ record peer {
      connection = c;
      world = log_if n.log_server remote_local remote_remote sent.packet sent.world;
    }
  ]

  -- A key of the client is reported, and ignored by the proxy's other side.
  pub on_local_new_key : Connection → Peer W → Peer W
  on_local_new_key local peer = peer

  pub on_local_raw_packet : Packet → Peer W → Peer W
  on_local_raw_packet p peer = record peer {
    world = log_if n.log_client local_local local_remote p peer.world;
  }

  -- A write of a connection goes to its own socket.
  pub write_peer : (List ℕ → W → W × Option ℕ) → List ℕ → Peer W → Peer W × Option ℕ
  write_peer write bytes peer =
      let (w, answer) = write bytes peer.world in (record peer { world = w }, answer)

  -- RemoteCallback and LocalCallback. `received` rewrites a packet of the server first, as the game
  -- and login proxies do.
  abbrev pub remote_callback : (Packet → Peer W → Peer W) → Host (Peer W)
  remote_callback received = record {
    write = write_peer n.write_remote;
    on_new_key = on_remote_new_key;
    on_packet = received;
    on_raw_packet = on_remote_raw_packet;
    stack_bytes = λ peer. n.stack_bytes peer.world;
  }

  abbrev pub local_callback : Host (Peer W)
  local_callback = record {
    write = write_peer n.write_local;
    on_new_key = on_local_new_key;
    on_packet = on_local_packet;
    on_raw_packet = on_local_raw_packet;
    stack_bytes = λ peer. n.stack_bytes peer.world;
  }

  -- `OnRemoteEvent` and `OnLocalEvent`.
  pub on_remote_event : Connection → Option (List ℕ) → Peer W → Outcome (Peer W)
  on_remote_event remote received peer =
      on_event (remote_callback on_remote_packet) remote received peer

  pub on_local_event : Connection → Option (List ℕ) → Peer W → Outcome (Peer W)
  on_local_event local received peer = on_event local_callback local received peer
