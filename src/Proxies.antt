-- ===== src/Proxies.antt =====
-- romproxy/proxy.h, romproxy/proxy.cc and romproxy/romproxy.cc: the proxies of the program, one for
-- each server. `C` are the connections of a proxy, and `V` is the state of the system.
pub mod Lookup
pub mod Redirect
pub mod Events
mod Tests
use openrom.Base.{
  ℕ, ◌+◌, ◌%◌, ◌^◌, ◌≡◌, List, [], ◌∷◌, ◌++◌, Bool, true, false, Option, none, some, All,
}
use openrom.Address.{
  Address, Os, Server, listen, get_ipv4_address, set_port, equals, IsInet, sockaddr_size,
}

-- GameProxy and LoginProxy differ in the packets that they rewrite.
pub data ProxyClass : Type 0 where
  login game : ProxyClass

pub record Proxy (C : Type 0) : Type 0 where
  pub kind : ProxyClass
  pub local : Address
  pub remote : Address
  pub server : Server
  pub connections : List C

-- `next_bind` is m_BindAddress.
pub record RomProxy (C : Type 0) : Type 0 where
  pub proxies : List (Proxy C)
  pub next_bind : Address

module _ {C : Type 0} where
  -- The port is a uint16_t.
  pub get_next_bind_address : RomProxy C → Option (RomProxy C × Address)
  get_next_bind_address hub =
      let (ip, port) = get_ipv4_address hub.next_bind in
      elim (set_port hub.next_bind ((port + 1) % 2 ^ 16)) [
        | none ↦ none
        | some a ↦ some (record hub { next_bind = a }, a)
      ]

  -- The first proxy of the remote address.
  pub find_proxy : Address → List (Proxy C) → Option (Option (Proxy C))
  find_proxy a [] = some none
  find_proxy a (p ∷ ps) = elim (equals p.remote a) [
    | none ↦ none
    | some true ↦ some (some p)
    | some false ↦ find_proxy a ps
  ]

  module _ {V : Type 0} (os : Os V) where
    pub initialize : Proxy C → V → Option (V × Proxy C × Bool)
    initialize p v = elim (listen os p.server p.local v) [
      | none ↦ none
      | some (v1, server, listens) ↦ some (v1, record p { server = server }, listens)
    ]

    -- `uninitialised` is the memory of the bind address of a new server.
    pub new_game_proxy : Address → Address → Address → Proxy C
    new_game_proxy uninitialised local remote = record {
      kind = game;
      local = local;
      remote = remote;
      server = record { fd = none; bind_address = uninitialised };
      connections = [];
    }

    -- The proxy is added when it listens. The port is used up in any case.
    pub add_proxy : Proxy C → RomProxy C → V → Option (V × RomProxy C × Option (Proxy C))
    add_proxy p hub v = elim (initialize p v) [
      | none ↦ none
      | some (v1, p', false) ↦ some (v1, hub, none)
      | some (v1, p', true) ↦ some (v1, record hub { proxies = hub.proxies ++ (p' ∷ []) }, some p')
    ]

    pub get_proxy_for_address :
        Address → Address → RomProxy C → V → Option (V × RomProxy C × Option (Proxy C))
    get_proxy_for_address uninitialised a hub v = elim (find_proxy a hub.proxies) [
      | none ↦ none
      | some (some p) ↦ some (v, hub, some p)
      | some none ↦ elim (get_next_bind_address hub) [
        | none ↦ none
        | some (hub', local) ↦ add_proxy (new_game_proxy uninitialised local a) hub' v
      ]
    ]
