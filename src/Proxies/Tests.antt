-- ===== src/Proxies/Tests.antt =====
-- A server that is looked up, and the packets that name it. The state of the system is the last file
-- descriptor.
use openrom.Base.{
  ℕ, All, length, subst, ◌≤◌, suc, refl, arith, List, [], ◌∷◌, ◌++◌, true, false, none, some,
  replicate,
}
use mathlib.Core.Option.{some-injective}
use openrom.Packet.{Packet}
use openrom.Connection.Tests.{sender}
use openrom.Proxied.{Network, Peer}
use openrom.Address.{Address, Os}
use openrom.Address.Resolution.{HasSmall}
use openrom.Proxies.{RomProxy, get_proxy_for_address}
use openrom.Proxies.Lookup.{IsValid, none_left, Answered, get_proxy_for_address-Answered}
use openrom.Proxies.Redirect.{World, game_on_remote_packet, login_on_remote_packet}
use openrom.Proxies.Redirect.Rewriting.{Redirects}
use openrom.Proxies.Redirect.Servers.{
  game_on_remote_packet-Redirects, login_on_remote_packet-Redirects,
}

-- 127.0.0.1 with port 8000, and 10.0.0.n.
abbrev local_bytes : List ℕ
local_bytes = 2 ∷ 0 ∷ 31 ∷ 64 ∷ 127 ∷ 0 ∷ 0 ∷ 1 ∷ replicate 8 0

abbrev server_bytes : List ℕ
server_bytes = 2 ∷ 0 ∷ 31 ∷ 64 ∷ 10 ∷ 0 ∷ 0 ∷ 7 ∷ replicate 8 0

abbrev address : List ℕ → Address
address bytes = record {
  sockaddr = bytes;
  socklen = some 16;
  family = 2;
  socktype = 1;
  protocol = 6;
}

abbrev system : Os ℕ
system = record {
  getaddrinfo = λ hostname service v. (
    v,
    some (record { ai_family = 2; ai_socktype = 1; ai_protocol = 6; ai_addr = server_bytes } ∷ []),
  );
  socket = λ family socktype protocol v. (suc v, some v);
  close = λ fd v. v;
  connect = λ fd a v. (v, true);
  reuse_address = λ fd v. v;
  bind = λ fd a v. (v, true);
  listen = λ fd v. (v, true);
}

system-HasSmall : HasSmall system
system-HasSmall = record {
  small = λ hostname service v entries e.
      subst (λ rps. All (λ rp. length rp.ai_addr ≤ 16) rps) (some-injective _ _ e)
        (omega arith, tt);
}

abbrev hub : RomProxy ℕ
hub = record { proxies = []; next_bind = address local_bytes }

hub-IsValid : IsValid hub
hub-IsValid = record {
  bind_inet = record { of_inet = refl; memory = refl; bytes = ground arith; whole = refl };
  local_inet = tt;
  remote_set = tt;
  distinct = none_left;
}

get_proxy_for_address-Answered_example :
    Answered system
      (address server_bytes)
      hub
      (get_proxy_for_address system (address server_bytes) (address server_bytes) hub 3)
get_proxy_for_address-Answered_example =
    get_proxy_for_address-Answered system (address server_bytes) (address server_bytes) hub 3
      hub-IsValid (record { size = 16; set = refl })

abbrev network : Network (World ℕ ℕ)
network = record {
  write_local = λ bytes w. (w, none);
  write_remote = λ bytes w. (w, none);
  write_log = λ source dest p w. w;
  log_client = false;
  log_server = false;
  stack_bytes = λ w. replicate 4 0;
  uninitialised = λ w. replicate 64 0;
}

abbrev peer : Peer (World ℕ ℕ)
peer = record { connection = sender; world = record { hub = hub; system = 3 }; failed = false }

abbrev packet_of : ℕ → List ℕ → Packet
packet_of size bytes = record {
  p_length = size;
  p_flag = 0;
  p_data_checksum = 0;
  p_header_checksum = 0;
  p_keynum = 0;
  p_seq = 0;
  p_data = bytes;
}

-- "10.0.0.7", port 8000.
abbrev game_packet : Packet
game_packet = packet_of 144 (
    120 ∷ replicate 11 0
    ++ (49 ∷ 48 ∷ 46 ∷ 48 ∷ 46 ∷ 48 ∷ 46 ∷ 55 ∷ replicate 24 0)
    ++ (64 ∷ 31 ∷ replicate 86 0))

abbrev login_packet : Packet
login_packet = packet_of 668 (
    3 ∷ replicate 75 0
    ++ (49 ∷ 48 ∷ 46 ∷ 48 ∷ 46 ∷ 48 ∷ 46 ∷ 55 ∷ replicate 56 0)
    ++ (64 ∷ 31 ∷ replicate 514 0))

game_on_remote_packet-Redirects_example :
    Redirects system network
      (address server_bytes)
      12
      44
      game_packet
      peer
      (game_on_remote_packet system network (address server_bytes) game_packet peer)
game_on_remote_packet-Redirects_example =
    game_on_remote_packet-Redirects system network (address server_bytes) system-HasSmall
      game_packet peer hub-IsValid refl refl (omega arith)

login_on_remote_packet-Redirects_example :
    Redirects system network
      (address server_bytes)
      76
      140
      login_packet
      peer
      (login_on_remote_packet system network (address server_bytes) login_packet peer)
login_on_remote_packet-Redirects_example =
    login_on_remote_packet-Redirects system network (address server_bytes) system-HasSmall
      login_packet peer hub-IsValid refl refl (omega arith)
