-- ===== src/Proxies/Lookup.antt =====
-- `ROMProxy::GetProxyForAddress` has one proxy for each server, and fails no assertion.
use openrom.Base.{
  ℕ, suc, get_elem?, ◌+◌, ◌%◌, ◌^◌, ◌≡◌, refl, ap, ◌∙◌, ◌⊎◌, inl, inr, arith, List, [], ◌∷◌, ◌++◌,
  Bool, true, false, Option, none, some, All, All-append, Bool-cases,
}
use openrom.Address.{
  Address, Os, Server, listen, get_ipv4_address, equals, IsInet, sin_port, sin_addr,
}
use openrom.Address.Port.{get_ipv4_address_lem, set_port_lem, equals-some}
use openrom.Address.Resolution.{IsResolved}
use openrom.Address.Listening.{Listens, listening, closed, listen-Listens}
use openrom.Proxies.{
  Proxy, RomProxy, get_next_bind_address, find_proxy, initialize, new_game_proxy, add_proxy,
  get_proxy_for_address,
}

equals-IsResolved : (a b : Address) → IsResolved a → (e : Bool) × (equals a b ≡ some e)
equals-IsResolved a b r = equals-some a b r.size r.set

module _ {C : Type 0} where
  -- No proxy before has the address of a later one.
  pub data AreDistinct : List (Proxy C) → Type 0 where
    none_left : AreDistinct []
    another :
        {p : Proxy C} {ps : List (Proxy C)}
        → All (λ q. equals p.remote q.remote ≡ some false) ps
        → AreDistinct ps
        → AreDistinct (p ∷ ps)

  -- The next address to bind to is one of IPv4, and so are those of the proxies. No two proxies
  -- have one server.
  pub record IsValid (hub : RomProxy C) : Type 0 where
    pub bind_inet : IsInet hub.next_bind
    pub local_inet : All (λ p. IsInet p.local) hub.proxies
    pub remote_set : All (λ p. IsResolved p.remote) hub.proxies
    pub distinct : AreDistinct hub.proxies

  -- What the call does to the proxies, and its answer.
  pub data Found (a : Address) (hub : RomProxy C) : RomProxy C → Option (Proxy C) → Type 0 where
    known :
        {p : Proxy C}
        → (i : ℕ) × (get_elem? hub.proxies i ≡ some p)
        → equals p.remote a ≡ some true
        → IsInet p.local
        → Found a hub hub (some p)
    refused : {hub' : RomProxy C} → hub'.proxies ≡ hub.proxies → Found a hub hub' none
    added :
        {p : Proxy C} {hub' : RomProxy C}
        → hub'.proxies ≡ hub.proxies ++ (p ∷ [])
        → p.remote ≡ a
        → IsInet p.local
        → get_ipv4_address p.local
          ≡ (sin_addr hub.next_bind.sockaddr, (sin_port hub.next_bind.sockaddr + 1) % 2 ^ 16)
        → p.server.bind_address ≡ p.local
        → Found a hub hub' (some p)

  find_proxy-cases :
      (a : Address) (ps : List (Proxy C))
      → All (λ p. IsResolved p.remote) ps
      → All (λ p. IsInet p.local) ps
      → ((find_proxy a ps ≡ some none) × All (λ p. equals p.remote a ≡ some false) ps)
        ⊎ ((p : Proxy C) × (find_proxy a ps ≡ some (some p))
            × ((i : ℕ) × (get_elem? ps i ≡ some p))
            × (equals p.remote a ≡ some true)
            × IsInet p.local)
  unfolding find_proxy
  find_proxy-cases a [] rs is = inl (refl, tt)
  find_proxy-cases a (p ∷ ps) (r, rs) (i, is) =
      let (e, decided) = equals-IsResolved p.remote a r in
      elim (Bool-cases e) [
        | inl equal ↦
            inr (p, rw (decided, equal, find_proxy) refl, (0, refl), decided ∙ ap some equal, i)
        | inr other ↦ elim (find_proxy-cases a ps rs is) [
          | inl x ↦ inl (rw (decided, other, x.0, find_proxy) refl, (decided ∙ ap some other, x.1))
          | inr (q, found, m, same, j) ↦
              inr (q, rw (decided, other, found, find_proxy) refl, (suc m.0, m.1), same, j)
        ]
      ]

  AreDistinct-append :
      (ps : List (Proxy C)) (p : Proxy C)
      → AreDistinct ps
      → All (λ q. equals q.remote p.remote ≡ some false) ps
      → AreDistinct (ps ++ (p ∷ []))
  AreDistinct-append [] p none_left all = another tt none_left
  AreDistinct-append (q ∷ ps) p (another others d) (one, all) =
      another (All-append (λ r. equals q.remote r.remote ≡ some false) ps (p ∷ []) others (one, tt))
        (AreDistinct-append ps p d all)

  get_next_bind_address_lem :
      (hub : RomProxy C)
      → IsInet hub.next_bind
      → (b : Address) × (get_next_bind_address hub ≡ some (record hub { next_bind = b }, b))
        × IsInet b
        × (get_ipv4_address b
            ≡ (sin_addr hub.next_bind.sockaddr, (sin_port hub.next_bind.sockaddr + 1) % 2 ^ 16))
  unfolding get_next_bind_address
  get_next_bind_address_lem hub i =
      let (b, set, inet, address) =
        set_port_lem hub.next_bind ((sin_port hub.next_bind.sockaddr + 1) % 2 ^ 16) i
          (omega arith) in
      (b, rw (get_ipv4_address_lem hub.next_bind i, set, get_next_bind_address) refl, inet, address)

  module _ {V : Type 0} (os : Os V) where
    -- The result of the call, and the proxies that it leaves.
    abbrev pub Answered : Address → RomProxy C → Option (V × RomProxy C × Option (Proxy C)) → Type 0
    Answered a hub none = ⊥
    Answered a hub (some (v, hub', answer)) = IsValid hub' × Found a hub hub' answer

    add_proxy-Answered :
        (uninitialised a b : Address) (hub : RomProxy C) (v : V)
        → IsValid (record hub { next_bind = b })
        → IsInet b
        → IsResolved a
        → get_ipv4_address b
          ≡ (sin_addr hub.next_bind.sockaddr, (sin_port hub.next_bind.sockaddr + 1) % 2 ^ 16)
        → All (λ p. equals p.remote a ≡ some false) hub.proxies
        → Answered a hub
            (add_proxy os (new_game_proxy os uninitialised b a) (record hub { next_bind = b }) v)
    unfolding add_proxy initialize new_game_proxy
    add_proxy-Answered uninitialised a b hub v w i r address others =
        follow refl
          (listen-Listens os (record { fd = none; bind_address = uninitialised }) b v refl)
      where
        grown :
            (server : Server)
            → IsValid (record hub {
              proxies =
                  hub.proxies
                  ++ (record (new_game_proxy os uninitialised b a) { server = server } ∷ []);
              next_bind = b;
            })
        grown server = record {
          bind_inet = i;
          local_inet = All-append (λ p. IsInet p.local) hub.proxies _ w.local_inet (i, tt);
          remote_set = All-append (λ p. IsResolved p.remote) hub.proxies _ w.remote_set (r, tt);
          distinct = AreDistinct-append hub.proxies _ w.distinct others;
        }

        follow :
            {l : Option (V × Server × Bool)}
            → listen os (record { fd = none; bind_address = uninitialised }) b v ≡ l
            → Listens b l
            → Answered a hub (
                add_proxy os (new_game_proxy os uninitialised b a) (record hub { next_bind = b }) v)
        follow e (closed f) = rw (e, add_proxy) (w, refused refl)
        follow e (listening {server = server} same f) =
            rw (e, add_proxy) (grown server, added refl refl i address same)

    -- On proxies that are well formed, and for an address that was resolved, no assertion fails: the
    -- proxies are well formed again. The answer is a proxy that was there, none, or a new one for the
    -- address, on the next port.
    pub get_proxy_for_address-Answered :
        (uninitialised a : Address) (hub : RomProxy C) (v : V)
        → IsValid hub
        → IsResolved a
        → Answered a hub (get_proxy_for_address os uninitialised a hub v)
    unfolding get_proxy_for_address
    get_proxy_for_address-Answered uninitialised a hub v w r =
        elim (find_proxy-cases a hub.proxies w.remote_set w.local_inet) [
          | inr (p, found, m, same, i) ↦ rw (found, get_proxy_for_address) (w, known m same i)
          | inl x ↦
              let (b, next, inet, address) = get_next_bind_address_lem hub w.bind_inet in
              rw (x.0, next, get_proxy_for_address)
                (add_proxy-Answered uninitialised a b hub v
                  (record {
                    bind_inet = inet;
                    local_inet = w.local_inet;
                    remote_set = w.remote_set;
                    distinct = w.distinct;
                  })
                  inet r address x.1)
        ]
