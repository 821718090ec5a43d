-- ===== src/Proxies/Redirect.antt =====
-- `OnRemotePacket` of romproxy/gameproxy.cc and romproxy/loginproxy.cc: a packet that names a server
-- is rewritten so that it names the proxy of that server.
pub mod Rewriting
pub mod Servers
use openrom.Base.{
  ℕ, ◌+◌, ◌-◌, ◌%◌, ◌^◌, List, [], ◌∷◌, ◌++◌, Bool, true, false, Option, none, some, take, drop,
  ◌==◌, ◌&&◌, if◌then◌else◌,
}
use openrom.Packet.{Packet, u32_at, u32_bytes}
use openrom.Text.{decimal, strtoul, split_at, c_string, write_at}
use openrom.Address.{Address, Os, resolve, to_string}
use openrom.Proxied.{Network, Peer, on_remote_packet}
use openrom.Proxies.{RomProxy, get_proxy_for_address}

-- The proxies of the program, beside the state of the system.
pub record World (C V : Type 0) : Type 0 where
  pub hub : RomProxy C
  pub system : V

-- The address and the port of the proxy in the place of the server's. The colon is written over.
pub rewritten : ℕ → ℕ → Address → List ℕ → Option (List ℕ)
rewritten address_at port_at local memory = elim (split_at 58 (to_string local 256)) [
  | none ↦ none
  | some (text, port) ↦ some (
      write_at port_at (u32_bytes (strtoul port % 2 ^ 32))
        (write_at address_at (text ++ (0 ∷ [])) memory))
]

module _ {C V : Type 0} (os : Os V) (n : Network (World C V)) (uninitialised : Address) where
  -- What the code does once it has the proxy.
  pub forward_rewritten : ℕ → ℕ → Address → Packet → Peer (World C V) → Peer (World C V)
  forward_rewritten address_at port_at local p peer =
      elim (rewritten address_at port_at local p.p_data) [
        | none ↦ record peer { failed = true }
        | some memory ↦ on_remote_packet n (record p { p_data = memory }) peer
      ]

  -- The proxy of the server that was resolved. Without one the packet is sent as it is.
  pub forward_to : ℕ → ℕ → Address → V → Packet → Peer (World C V) → Peer (World C V)
  forward_to address_at port_at server v p peer =
      elim (get_proxy_for_address os uninitialised server peer.world.hub v) [
        | none ↦ record peer { failed = true }
        | some (v', hub, none) ↦
            on_remote_packet n p (record peer { world = record { hub = hub; system = v' } })
        | some (v', hub, some proxy) ↦
            forward_rewritten address_at port_at proxy.local p
              (record peer { world = record { hub = hub; system = v' } })
      ]

  -- The server's name is the string at one offset, and its port the word at the other.
  pub redirect : ℕ → ℕ → Packet → Peer (World C V) → Peer (World C V)
  redirect address_at port_at p peer =
      elim (resolve os uninitialised (c_string (drop address_at p.p_data))
        (take 15 (decimal (u32_at p.p_data port_at))) peer.world.system) [
          | none ↦ record peer { failed = true }
          | some (v, server, resolved) ↦
              if resolved
              then forward_to address_at port_at server v p peer
              else on_remote_packet n p (record peer { world = record peer.world { system = v } })
        ]

  pub game_on_remote_packet : Packet → Peer (World C V) → Peer (World C V)
  game_on_remote_packet p peer =
      if p.p_length == 144 && u32_at p.p_data 0 == 120
      then redirect 12 44 p peer
      else on_remote_packet n p peer

  pub login_on_remote_packet : Packet → Peer (World C V) → Peer (World C V)
  login_on_remote_packet p peer =
      if p.p_length == 668 && u32_at p.p_data 0 == 3
      then redirect 76 140 p peer
      else on_remote_packet n p peer
