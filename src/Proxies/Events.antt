-- ===== src/Proxies/Events.antt =====
-- romproxy/proxy.cc, lib/client.cc and `Server::Accept` of lib/server.cc: how a proxy takes new
-- connections, and hands the events of the sockets to those that it has. `R` is what a connection
-- keeps besides its sockets, and `V` the state of the system.
mod Tests
use openrom.Base.{
  ℕ, ◌≤◌, ◌≡◌, List, [], ◌∷◌, ◌++◌, Bool, true, false, Option, none, some, length, drop, ltb, leb,
  ◌&&◌, if◌then◌else◌,
}
use openrom.Address.{Address, Os, Server, connect_to, reset, sockaddr_size}
use openrom.Proxies.{Proxy}

-- accept() and getsockname(), with the bytes of the address.
pub record Sockets (V : Type 0) : Type 0 where
  pub os : Os V
  pub accept : ℕ → V → V × Option (ℕ × List ℕ)
  pub getsockname : ℕ → V → V × Option (List ℕ)

-- lib/client.h: `fd` is none for the -1 of a socket that is closed.
pub record Client : Type 0 where
  pub fd : Option ℕ
  pub local_address : Address
  pub remote_address : Address

-- The local client is the connection itself.
pub record ProxiedConnection (R : Type 0) : Type 0 where
  pub local : Client
  pub remote : Client
  pub session : R

-- `Address(source, sa, sa_len)`, or none for a failed assertion.
pub like : Address → Address → List ℕ → Option Address
like uninitialised source sa =
    if leb (length sa) sockaddr_size
    then some (record source {
      sockaddr = sa ++ drop (length sa) uninitialised.sockaddr;
      socklen = some (length sa);
    })
    else none

-- `Client::SetFD`, which asserts that the socket is closed.
pub set_fd : ℕ → Client → Option Client
set_fd fd c = elim c.fd [ none ↦ some (record c { fd = some fd }) | some _ ↦ none ]

-- What a proxied connection does. A new one is made by `create`; the events change what it keeps and
-- the system, and answer whether it goes on; `none` is a failed assertion or a read out of range.
pub record Handlers (R V : Type 0) : Type 0 where
  pub create : Address → Address → V → V × R
  pub on_local_event : R → V → Option (V × R × Bool)
  pub on_remote_event : R → V → Option (V × R × Bool)

module _ {R V : Type 0} (k : Sockets V) (uninitialised : Address) (h : Handlers R V) where
  -- The address of the socket's own end, or one that is reset.
  pub own_address : Address → Option (List ℕ) → Option Address
  own_address a none = some (reset uninitialised)
  own_address a (some sa) = like uninitialised a sa

  -- `Client::Connect`
  pub client_connect : Client → Address → V → Option (V × Client × Bool)
  client_connect c a v = elim (connect_to k.os a v) [
    | none ↦ none
    | some (v1, none) ↦ some (v1, c, false)
    | some (v1, some fd) ↦
        let (v2, name) = k.getsockname fd v1 in
        elim (own_address a name) [
          | none ↦ none
          | some own ↦ elim (set_fd fd (record c { local_address = own; remote_address = a })) [
            | none ↦ none
            | some c' ↦ some (v2, c', true)
          ]
        ]
  ]

  -- The destructors: the remote client's socket is closed, and then the local one's.
  pub close_client : Client → V → V
  close_client c v = elim c.fd [ none ↦ v | some fd ↦ k.os.close fd v ]

  pub destroy : ProxiedConnection R → V → V
  destroy c v = close_client c.local (close_client c.remote v)

  pub new_connection : Address → Address → R → ProxiedConnection R
  new_connection client_address remote_address session = record {
    local = record { fd = none; local_address = client_address; remote_address = remote_address };
    remote = record { fd = none; local_address = remote_address; remote_address = client_address };
    session = session;
  }

  -- `ProxyServer::CreateClient`, without the list that the connection is added to.
  pub create_client : Address → Address → Address → V → Option (V × Option (ProxiedConnection R))
  create_client server client_address remote_address v =
      let (v1, session) = h.create client_address remote_address v in
      let c = new_connection client_address remote_address session in
      elim (client_connect c.remote server v1) [
        | none ↦ none
        | some (v2, remote, false) ↦ some (destroy c v2, none)
        | some (v2, remote, true) ↦ some (v2, some (record c { remote = remote }))
      ]

  -- What Accept does with the socket `fd` and the answer of CreateClient.
  pub keep_client :
      ℕ → Option (V × Option (ProxiedConnection R)) → Option (V × Option (ProxiedConnection R))
  keep_client fd none = none
  keep_client fd (some (v, none)) = some (k.os.close fd v, none)
  keep_client fd (some (v, some c)) = elim (set_fd fd c.local) [
    | none ↦ none
    | some local ↦ some (v, some (record c { local = local }))
  ]

  -- `Server::Accept` on the socket `fd` of the server.
  pub accept_on : ℕ → Proxy (ProxiedConnection R) → V → Option (V × Option (ProxiedConnection R))
  accept_on fd p v =
      let (v1, answer) = k.accept fd v in
      elim answer [
        | none ↦ some (v1, none)
        | some (client, sa) ↦ elim (like uninitialised p.server.bind_address sa) [
          | none ↦ none
          | some a ↦ keep_client client (create_client p.remote a p.server.bind_address v1)
        ]
      ]

  pub with_client :
      Option (ProxiedConnection R) → List (ProxiedConnection R) → List (ProxiedConnection R)
  with_client none cs = cs
  with_client (some c) cs = cs ++ (c ∷ [])

  module _ (is_set : ℕ → Bool) where
    -- FD_ISSET of a socket. A socket that is closed is not to be asked for.
    pub ready : Client → Option Bool
    ready c = elim c.fd [ none ↦ none | some fd ↦ some (is_set fd) ]

    pub on_event_if : Bool → (R → V → Option (V × R × Bool)) → R → V → Option (V × R × Bool)
    on_event_if true event r v = event r v
    on_event_if false event r v = some (v, r, true)

    -- Both ends are asked, also when the first ends the connection.
    pub handle_both :
        Bool → Bool → ProxiedConnection R → V → Option (V × ProxiedConnection R × Bool)
    handle_both at_local at_remote c v = elim (on_event_if at_local h.on_local_event c.session v) [
      | none ↦ none
      | some (v1, r1, ok1) ↦ elim (on_event_if at_remote h.on_remote_event r1 v1) [
        | none ↦ none
        | some (v2, r2, ok2) ↦ some (v2, record c { session = r2 }, ok1 && ok2)
      ]
    ]

    pub handle : ProxiedConnection R → V → Option (V × ProxiedConnection R × Bool)
    handle c v = elim (ready c.local) [
      | none ↦ none
      | some at_local ↦ elim (ready c.remote) [
        | none ↦ none
        | some at_remote ↦ handle_both at_local at_remote c v
      ]
    ]

    -- The loop over the connections: one that fails is deleted.
    pub process_connections :
        List (ProxiedConnection R) → V → Option (V × List (ProxiedConnection R))
    process_connections [] v = some (v, [])
    process_connections (c ∷ cs) v = elim (handle c v) [
      | none ↦ none
      | some (v1, c', ok) ↦ elim (process_connections cs (if ok then v1 else destroy c' v1)) [
        | none ↦ none
        | some (v2, cs') ↦ some (v2, if ok then c' ∷ cs' else cs')
      ]
    ]

    -- The first part of ProcessFdSet.
    pub accept_if_set :
        ℕ → Proxy (ProxiedConnection R) → V → Option (V × Option (ProxiedConnection R))
    accept_if_set fd p v = if is_set fd then accept_on fd p v else some (v, none)

    pub process_fd_set : Proxy (ProxiedConnection R) → V → Option (V × Proxy (ProxiedConnection R))
    process_fd_set p v = elim p.server.fd [
      | none ↦ none
      | some fd ↦ elim (accept_if_set fd p v) [
        | none ↦ none
        | some (v1, new) ↦ elim (process_connections (with_client new p.connections) v1) [
          | none ↦ none
          | some (v2, cs) ↦ some (v2, record p { connections = cs })
        ]
      ]
    ]

-- `FillFdSet`: the sockets that are asked for.
pub fd_list : {R : Type 0} → List (ProxiedConnection R) → List (Option ℕ)
fd_list [] = []
fd_list (c ∷ cs) = c.local.fd ∷ c.remote.fd ∷ fd_list cs

pub fill_fd_set : {R : Type 0} → Proxy (ProxiedConnection R) → List (Option ℕ)
fill_fd_set p = p.server.fd ∷ fd_list p.connections
