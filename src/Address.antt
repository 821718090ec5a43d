-- ===== src/Address.antt =====
-- lib/address.h, lib/address.cc and lib/server.cc over the system calls that they use. A function
-- that may fail an assertion answers `none` for that.
pub mod Port
pub mod Listening
pub mod Resolution
use openrom.Base.{
  ℕ, zero, suc, ◌+◌, ◌-◌, ◌*◌, ◌/◌, ◌%◌, ◌^◌, ◌≤◌, ◌<◌, ◌≡◌, List, [], ◌∷◌, ◌++◌, Bool, true, false,
  not, Option, none, some, length, take, drop, ltb, leb, ◌==◌, ◌&&◌, ◌||◌, if◌then◌else◌, All,
}
use openrom.Packet.{byte_at, IsByte}
use openrom.Text.{decimal, write_at, same_bytes}

-- AF_INET, and the size of a struct sockaddr.
abbrev pub af_inet : ℕ
af_inet = 2

abbrev pub sockaddr_size : ℕ
sockaddr_size = 16

-- `sockaddr` is the memory of `m_sockaddr`, and `socklen` is none for the -1 of `Reset`.
pub record Address : Type 0 where
  pub sockaddr : List ℕ
  pub socklen : Option ℕ
  pub family : ℕ
  pub socktype : ℕ
  pub protocol : ℕ

-- An entry of the list that getaddrinfo() returns. Its `ai_addrlen` is the length of `ai_addr`.
pub record AddrInfo : Type 0 where
  pub ai_family : ℕ
  pub ai_socktype : ℕ
  pub ai_protocol : ℕ
  pub ai_addr : List ℕ

-- The system calls, over the state `V` of the system. A call that fails answers none or false.
pub record Os (V : Type 0) : Type 0 where
  pub getaddrinfo : List ℕ → List ℕ → V → V × Option (List AddrInfo)
  pub socket : ℕ → ℕ → ℕ → V → V × Option ℕ
  pub close : ℕ → V → V
  pub connect : ℕ → List ℕ → V → V × Bool
  pub reuse_address : ℕ → V → V
  pub bind : ℕ → List ℕ → V → V × Bool
  pub listen : ℕ → V → V × Bool

pub reset : Address → Address
reset a = record a { socklen = none; family = 0; socktype = 0; protocol = 0 }

-- m_socklen > 0
abbrev pub has_address : Address → Bool
has_address a = elim a.socklen [ none ↦ false | some n ↦ ltb 0 n ]

-- The bytes that are handed to bind() and connect().
abbrev pub bytes_of : Address → List ℕ
bytes_of a = elim a.socklen [ none ↦ [] | some n ↦ take n a.sockaddr ]

-- The two 16 and 32 bit words of a struct sockaddr_in, in network order.
abbrev pub sin_port : List ℕ → ℕ
sin_port m = byte_at m 2 * 256 + byte_at m 3

abbrev pub sin_addr : List ℕ → ℕ
sin_addr m = byte_at m 4 * 16777216 + byte_at m 5 * 65536 + byte_at m 6 * 256 + byte_at m 7

-- The address, and the port.
unfoldable pub get_ipv4_address : Address → ℕ × ℕ
get_ipv4_address a =
    if a.family == af_inet then (sin_addr a.sockaddr, sin_port a.sockaddr) else (0, 0)

pub set_port : Address → ℕ → Option Address
set_port a port =
    if a.family == af_inet
    then some (record a { sockaddr = write_at 2 (port / 256 % 256 ∷ port % 256 ∷ []) a.sockaddr })
    else none

-- What inet_ntoa() makes of the four bytes: 46 is a dot.
pub inet_ntoa : List ℕ → List ℕ
inet_ntoa m =
    decimal (byte_at m 4)
    ++ (46
        ∷ (decimal (byte_at m 5) ++ (46 ∷ (decimal (byte_at m 6) ++ (46 ∷ decimal (byte_at m 7))))))

-- 58 is a colon, and 63 a question mark. `len` is more than 1 wherever it is called.
pub to_string : Address → ℕ → List ℕ
to_string a len =
    if a.family == af_inet
    then take (len - 1) (inet_ntoa a.sockaddr ++ (58 ∷ decimal (sin_port a.sockaddr)))
    else 63 ∷ []

-- `operator==`. On two addresses without a length it compares memory past their ends.
pub equals : Address → Address → Option Bool
equals a b = elim a.socklen [
  | none ↦ elim b.socklen [
    | none ↦
        if not (a.family == b.family)
          || not (a.socktype == b.socktype)
          || not (a.protocol == b.protocol)
        then some false
        else none
    | some m ↦ some false
  ]
  | some n ↦ elim b.socklen [
    | none ↦ some false
    | some m ↦
        if not (n == m)
          || not (a.family == b.family)
          || not (a.socktype == b.socktype)
          || not (a.protocol == b.protocol)
        then some false
        else some (same_bytes (take n a.sockaddr) (take n b.sockaddr))
  ]
]

module _ {V : Type 0} (os : Os V) where
  -- The first entry of a kind for which there are sockets.
  pub first_usable : List AddrInfo → Address → V → Option (V × Address)
  first_usable [] a v = some (v, a)
  first_usable (rp ∷ entries) a v =
      let (v1, answer) = os.socket rp.ai_family rp.ai_socktype rp.ai_protocol v in
      elim answer [
        | none ↦ first_usable entries a v1
        | some fd ↦
            if leb (length rp.ai_addr) sockaddr_size
            then some (
              os.close fd v1,
              record {
                sockaddr = rp.ai_addr ++ drop (length rp.ai_addr) a.sockaddr;
                socklen = some (length rp.ai_addr);
                family = rp.ai_family;
                socktype = rp.ai_socktype;
                protocol = rp.ai_protocol;
              },
            )
            else none
      ]

  -- Whether the address was resolved, and what is left in it.
  pub resolve : Address → List ℕ → List ℕ → V → Option (V × Address × Bool)
  resolve a hostname service v =
      let (v1, result) = os.getaddrinfo hostname service v in
      elim result [
        | none ↦ some (v1, reset a, false)
        | some entries ↦ elim (first_usable entries (reset a) v1) [
          | none ↦ none
          | some (v2, b) ↦ some (v2, b, has_address b)
        ]
      ]

  -- The file descriptor, when the connection is made.
  pub connect_to : Address → V → Option (V × Option ℕ)
  connect_to a v =
      if not (has_address a)
      then none
      else let (v1, answer) = os.socket a.family a.socktype a.protocol v in
        elim answer [
          | none ↦ some (v1, none)
          | some fd ↦
              let (v2, made) = os.connect fd (bytes_of a) v1 in
              if made then some (v2, some fd) else some (os.close fd v2, none)
        ]

-- lib/server.h: `fd` is none for the -1 of a socket that is closed.
pub record Server : Type 0 where
  pub fd : Option ℕ
  pub bind_address : Address

module _ {V : Type 0} (os : Os V) where
  -- After the socket is made: bind(), and listen() unless that fails.
  pub bind_and_listen : ℕ → Address → V → V × Bool
  bind_and_listen fd a v =
      let (v1, bound) = os.bind fd (bytes_of a) (os.reuse_address fd v) in
      if bound then os.listen fd v1 else (v1, false)

  pub listen : Server → Address → V → Option (V × Server × Bool)
  listen server a v = elim server.fd [
    | some _ ↦ none
    | none ↦
        let (v1, answer) = os.socket a.family a.socktype a.protocol v in
        let closed = record server { bind_address = reset server.bind_address } in
        elim answer [
          | none ↦ some (v1, closed, false)
          | some fd ↦
              let (v2, listens) = bind_and_listen fd a v1 in
              if listens
              then some (v2, record { fd = some fd; bind_address = a }, true)
              else some (os.close fd v2, closed, false)
        ]
  ]

-- An address of an IPv4 socket.
pub record IsInet (a : Address) : Type 0 where
  pub of_inet : a.family ≡ af_inet
  pub memory : length a.sockaddr ≡ sockaddr_size
  pub bytes : All IsByte a.sockaddr
  pub whole : a.socklen ≡ some sockaddr_size
