-- ===== src/Proxies/Redirect/Servers.antt =====
-- The packets that name a server: the Redirect of the game's server, and the ServerInfo of the login
-- server.
use openrom.Base.{ℕ, ◌≤◌, ◌≡◌, arith, length, ◌==◌, ◌&&◌, true}
use openrom.Packet.{Packet, u32_at}
use openrom.Address.{Address, Os}
use openrom.Address.Resolution.{HasSmall}
use openrom.Proxied.{Network, Peer}
use openrom.Proxies.Lookup.{IsValid}
use openrom.Proxies.Redirect.{World, game_on_remote_packet, login_on_remote_packet}
use openrom.Proxies.Redirect.Rewriting.{Redirects, redirect-Redirects}

module _ {C V : Type 0} (os : Os V) (n : Network (World C V)) (uninitialised : Address)
    (small : HasSmall os) (p : Packet) (peer : Peer (World C V))
    (valid : IsValid peer.world.hub) where
  -- A Redirect of 144 bytes goes to the client as it is, when its server is not resolved, or when no proxy is
  -- there for it and none can be added. Otherwise it goes with the address and the port of a proxy for
  -- the server that it names, and no other byte changed. No assertion fails, and the proxies are well
  -- formed. The addresses that getaddrinfo() returns fit in a struct sockaddr.
  pub game_on_remote_packet-Redirects :
      p.p_length ≡ 144
      → u32_at p.p_data 0 ≡ 120
      → 132 ≤ length p.p_data
      → Redirects os n uninitialised 12 44 p peer (game_on_remote_packet os n uninitialised p peer)
  unfolding game_on_remote_packet
  game_on_remote_packet-Redirects size id whole =
      rw (named p.p_length (u32_at p.p_data 0) size id)
        (redirect-Redirects os n uninitialised 12 44 p peer (omega arith) (omega arith) small valid)
    where
      named : (l i : ℕ) → l ≡ 144 → i ≡ 120 → (l == 144 && i == 120) ≡ true
      named l i size id = ground arith

  -- A ServerInfo of 668 bytes goes to the client as it is, when its server is not resolved, or when no proxy is
  -- there for it and none can be added. Otherwise it goes with the address and the port of a proxy for
  -- the server that it names, and no other byte changed. No assertion fails, and the proxies are well
  -- formed. The addresses that getaddrinfo() returns fit in a struct sockaddr.
  pub login_on_remote_packet-Redirects :
      p.p_length ≡ 668
      → u32_at p.p_data 0 ≡ 3
      → 656 ≤ length p.p_data
      → Redirects os n uninitialised 76 140 p peer
          (login_on_remote_packet os n uninitialised p peer)
  unfolding login_on_remote_packet
  login_on_remote_packet-Redirects size id whole =
      rw (named p.p_length (u32_at p.p_data 0) size id) (
        redirect-Redirects os n uninitialised 76 140 p peer (omega arith) (omega arith) small valid)
    where
      named : (l i : ℕ) → l ≡ 668 → i ≡ 3 → (l == 668 && i == 3) ≡ true
      named l i size id = ground arith
