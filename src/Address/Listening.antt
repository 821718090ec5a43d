-- ===== src/Address/Listening.antt =====
-- `Server::Listen` on a server whose socket is closed: it fails no assertion, and leaks no socket.
use openrom.Base.{
  ℕ, ◌≡◌, refl, Bool, true, false, Option, none, some, inl, inr, Option-cases, if_either,
}
use openrom.Address.{Address, Os, Server, listen, connect_to, has_address}

-- The server listens on the address, or its socket is closed still.
pub data Listens {V : Type 0} (a : Address) : Option (V × Server × Bool) → Type 0 where
  listening :
      {v : V} {server : Server} {fd : ℕ}
      → server.bind_address ≡ a
      → server.fd ≡ some fd
      → Listens a (some (v, server, true))
  closed : {v : V} {server : Server} → server.fd ≡ none → Listens a (some (v, server, false))

module _ {V : Type 0} (os : Os V) where
  pub listen-Listens :
      (server : Server) (a : Address) (v : V) → server.fd ≡ none → Listens a (listen os server a v)
  unfolding listen
  listen-Listens server a v fresh =
      elim (Option-cases (os.socket a.family a.socktype a.protocol v).1) [
        | inl failed ↦ rw (fresh, failed, listen) (closed fresh)
        | inr (fd, made) ↦
            rw (fresh, made, listen) (if_either (Listens a) _ (listening refl refl) (closed fresh))
      ]

-- There is an answer.
pub data Returns {A : Type 0} : Option A → Type 0 where
  returns : {a : A} → Returns (some a)

pub Returns-some : {A : Type 0} (x : Option A) → Returns x → (a : A) × (x ≡ some a)
Returns-some (some a) returns = (a, refl)
Returns-some none r = elim r [ ]

-- `Address::Connect` on an address that was resolved fails no assertion.
pub connect_to-Returns :
    {V : Type 0} (os : Os V) (a : Address) (v : V)
    → has_address a ≡ true
    → Returns (connect_to os a v)
unfolding connect_to
connect_to-Returns os a v has = elim (Option-cases (os.socket a.family a.socktype a.protocol v).1) [
  | inl failed ↦ rw (has, failed, connect_to) returns
  | inr (fd, made) ↦ rw (has, made, connect_to) (if_either Returns _ returns returns)
]
