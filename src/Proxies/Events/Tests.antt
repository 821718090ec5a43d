-- ===== src/Proxies/Events/Tests.antt =====
-- A proxy with one connection, whose server socket and remote end are ready. The state of the system
-- is the last file descriptor.
use mathlib.Core.Option.{Option}
use openrom.Base.{ℕ, ◌≡◌, map, suc, refl, List, [], ◌∷◌, true, false, some, none, replicate, ◌==◌}
use openrom.Address.{Address}
use openrom.Proxies.{Proxy, game}
use openrom.Proxies.Events.{
  Sockets, Client, ProxiedConnection, Handlers, process_fd_set, accept_if_set, process_connections,
  handle, ready, handle_both, on_event_if, with_client,
}

abbrev bytes : List ℕ
bytes = 2 ∷ 0 ∷ 31 ∷ 64 ∷ 127 ∷ 0 ∷ 0 ∷ 1 ∷ replicate 8 0

abbrev address : Address
address = record { sockaddr = bytes; socklen = some 16; family = 2; socktype = 1; protocol = 6 }

abbrev sockets : Sockets ℕ
sockets = record {
  os = record {
    getaddrinfo = λ hostname service v. (v, none);
    socket = λ family socktype protocol v. (suc v, some v);
    close = λ fd v. v;
    connect = λ fd a v. (v, true);
    reuse_address = λ fd v. v;
    bind = λ fd a v. (v, true);
    listen = λ fd v. (v, true);
  };
  accept = λ fd v. (suc v, some (v, bytes));
  getsockname = λ fd v. (v, some bytes);
}

abbrev client : ℕ → Client
client fd = record { fd = some fd; local_address = address; remote_address = address }

-- The server closes the first connection.
abbrev handlers : Handlers ℕ ℕ
handlers = record {
  create = λ a b v. (v, 0);
  on_local_event = λ r v. some (v, suc r, true);
  on_remote_event = λ r v. some (v, r, false);
}

abbrev proxy : Proxy (ProxiedConnection ℕ)
proxy = record {
  kind = game;
  local = address;
  remote = address;
  server = record { fd = some 3; bind_address = address };
  connections = record { local = client 4; remote = client 5; session = 0 } ∷ [];
}

-- The sockets of the connections that a call leaves.
abbrev sockets_of : Option (ℕ × Proxy (ProxiedConnection ℕ)) → List (Option ℕ × Option ℕ)
sockets_of none = []
sockets_of (some (v, p)) =
    map (λ (c : ProxiedConnection ℕ). (c.local.fd, c.remote.fd)) p.connections

-- The connection stays when the client sends, and is deleted when the server does.
still_there :
    sockets_of (process_fd_set sockets address handlers (λ fd. fd == 4) proxy 6)
    ≡ (some 4, some 5) ∷ []
unfolding process_fd_set accept_if_set process_connections handle ready handle_both on_event_if
    with_client
still_there = refl

deleted : sockets_of (process_fd_set sockets address handlers (λ fd. fd == 5) proxy 6) ≡ []
unfolding process_fd_set accept_if_set process_connections handle ready handle_both on_event_if
    with_client
deleted = refl
