-- ===== src/Proxies/Redirect/Rewriting.antt =====
-- Behind a redirection: the client reads the proxy's address and port, and every other byte as the
-- server sent it.
use openrom.Base.{
  ℕ, suc, ◌+◌, ◌%◌, ◌^◌, ◌≤◌, ◌<◌, ◌≡◌, ◌≢◌, refl, sym, subst, ◌∙◌, ◌⊎◌, inl, inr, arith, List, [],
  ◌∷◌, ◌++◌, Bool, true, false, Option, none, some, length, take, drop, get_elem?, All,
  length-append,
}
use openrom.Packet.{Packet, u32_at, u32_bytes}
use openrom.Text.{decimal, c_string, write_at}
use openrom.Text.RoundTrip.{strtoul-decimal}
use openrom.Text.Memory.{
  length-write_at, get_elem?-write_at_inside, get_elem?-write_at_outside, u32_at-write_at,
  c_string-read,
}
use openrom.Address.{Address, Os, IsInet, inet_ntoa, sin_port, resolve, equals}
use openrom.Address.Port.{
  split_at-to_string, inet_ntoa-IsDotted, IsDotted, length-inet_ntoa, sin_port-lt, equals_refl,
}
use openrom.Address.Resolution.{HasSmall, IsResolved, Resolves, resolve-Resolves}
use openrom.Proxied.{Network, Peer, on_remote_packet}
use openrom.Proxies.{Proxy, RomProxy, get_proxy_for_address}
use openrom.Proxies.Lookup.{
  IsValid, known, refused, added, Answered, get_proxy_for_address-Answered,
}
use openrom.Proxies.Redirect.{World, rewritten, redirect, forward_to, forward_rewritten}

-- The data `new` name the address at the two offsets, and are the data `old` besides. The field of the address has 16 bytes or more.
pub record Names (address_at port_at : ℕ) (a : Address) (old new : List ℕ) : Type 0 where
  pub text : c_string (drop address_at new) ≡ inet_ntoa a.sockaddr
  pub port : u32_at new port_at ≡ sin_port a.sockaddr
  pub size : length new ≡ length old
  pub others :
      (i : ℕ)
      → (i < address_at) ⊎ (address_at + 16 ≤ i)
      → (i < port_at) ⊎ (port_at + 4 ≤ i)
      → get_elem? new i ≡ get_elem? old i

nonzero : (s : List ℕ) → All IsDotted s → All (λ c. c ≢ 0) s
nonzero [] all = tt
nonzero (c ∷ cs) ((low, high), all) = (λ e. omega arith, nonzero cs all)

rewritten-Names :
    (address_at port_at : ℕ) (a : Address) (old : List ℕ)
    → IsInet a
    → address_at + 16 ≤ port_at
    → port_at + 4 ≤ length old
    → (new : List ℕ) × (rewritten address_at port_at a old ≡ some new)
      × Names address_at port_at a old new
unfolding rewritten
rewritten-Names address_at port_at a old i apart fits = (
  new,
  rw (split_at-to_string a i, rewritten, strtoul-decimal port) refl,
  record {
    text =
        c_string-read address_at text new (nonzero text (inet_ntoa-IsDotted a.sockaddr)) (λ k small.
          get_elem?-write_at_outside port_at word middle second_fits (address_at + k)
            (inl (omega (arith, text_fits)))
          ∙ get_elem?-write_at_inside address_at (text ++ (0 ∷ [])) old first_fits k
              (address_at + k) refl (omega (arith, length-append {0} text (0 ∷ []))));
    port =
        u32_at-write_at port_at (port % 2 ^ 32) middle second_fits (omega arith)
        ∙ omega (arith, sin_port-lt a.sockaddr i.memory i.bytes);
    size =
        length-write_at port_at word middle second_fits
        ∙ length-write_at address_at (text ++ (0 ∷ [])) old first_fits;
    others = λ k field word_field.
        get_elem?-write_at_outside port_at word middle second_fits k word_field
        ∙ get_elem?-write_at_outside address_at (text ++ (0 ∷ [])) old first_fits k
            (behind k field);
  },
)
  where
    text : List ℕ
    text = inet_ntoa a.sockaddr

    port : ℕ
    port = sin_port a.sockaddr

    word : List ℕ
    word = u32_bytes (port % 2 ^ 32)

    middle : List ℕ
    middle = write_at address_at (text ++ (0 ∷ [])) old

    new : List ℕ
    new = write_at port_at word middle

    text_fits : length text ≤ 15
    text_fits = length-inet_ntoa a.sockaddr i.memory i.bytes

    long : length (text ++ (0 ∷ [])) ≤ 16
    long = omega (arith, text_fits, length-append {0} text (0 ∷ []))

    first_fits : address_at + length (text ++ (0 ∷ [])) ≤ length old
    first_fits = omega (arith, long)

    second_fits : port_at + 4 ≤ length middle
    second_fits = omega (arith, length-write_at address_at (text ++ (0 ∷ [])) old first_fits)

    behind :
        (k : ℕ)
        → (k < address_at) ⊎ (address_at + 16 ≤ k)
        → (k < address_at) ⊎ (address_at + length (text ++ (0 ∷ [])) ≤ k)
    behind k (inl before) = inl before
    behind k (inr after) = inr (omega (arith, long))

module _ {C V : Type 0} (os : Os V) (n : Network (World C V)) (uninitialised : Address) where
  -- The server that a packet names.
  abbrev pub looked_up : ℕ → ℕ → Packet → V → Option (V × Address × Bool)
  looked_up address_at port_at p v =
      resolve os uninitialised (c_string (drop address_at p.p_data))
        (take 15 (decimal (u32_at p.p_data port_at))) v

  -- The packet goes to the client as it is when its server is not resolved, or when there is no proxy
  -- for it and none can be added; else it names the proxy of its server. The proxies are well formed in
  -- all cases.
  pub data Redirects (address_at port_at : ℕ) (p : Packet) (peer : Peer (World C V))
      : Peer (World C V) → Type 0 where
    unresolved :
        {v : V} {server : Address}
        → looked_up address_at port_at p peer.world.system ≡ some (v, server, false)
        → IsValid peer.world.hub
        → Redirects address_at port_at p peer
            (on_remote_packet n p (record peer { world = record peer.world { system = v } }))
    unproxied :
        {v v' : V} {server : Address} {hub : RomProxy C}
        → looked_up address_at port_at p peer.world.system ≡ some (v, server, true)
        → get_proxy_for_address os uninitialised server peer.world.hub v ≡ some (v', hub, none)
        → hub.proxies ≡ peer.world.hub.proxies
        → IsValid hub
        → Redirects address_at port_at p peer
            (on_remote_packet n p (record peer { world = record { hub = hub; system = v' } }))
    rewrites :
        (w : World C V) {v : V} {server : Address} {proxy : Proxy C} {new : List ℕ}
        → IsValid w.hub
        → looked_up address_at port_at p peer.world.system ≡ some (v, server, true)
        → equals proxy.remote server ≡ some true
        → (i : ℕ) × (get_elem? w.hub.proxies i ≡ some proxy)
        → Names address_at port_at proxy.local p.p_data new
        → Redirects address_at port_at p peer
            (on_remote_packet n (record p { p_data = new }) (record peer { world = w }))

  module _ (address_at port_at : ℕ) (p : Packet) (peer : Peer (World C V))
      (apart : address_at + 16 ≤ port_at) (fits : port_at + 4 ≤ length p.p_data) where
    forward_rewritten-Redirects :
        (hub : RomProxy C) (proxy : Proxy C) (v v' : V) (server : Address)
        → IsValid hub
        → looked_up address_at port_at p peer.world.system ≡ some (v', server, true)
        → equals proxy.remote server ≡ some true
        → (i : ℕ) × (get_elem? hub.proxies i ≡ some proxy)
        → IsInet proxy.local
        → Redirects address_at port_at p peer (
            forward_rewritten os n uninitialised address_at port_at proxy.local p
              (record peer { world = record { hub = hub; system = v } }))
    unfolding forward_rewritten
    forward_rewritten-Redirects hub proxy v v' server w found same m i =
        let (new, written, names) =
          rewritten-Names address_at port_at proxy.local p.p_data i apart fits in
        rw (written, forward_rewritten)
          (rewrites (record { hub = hub; system = v }) w found same m names)

    last_one :
        (ps : List (Proxy C)) (q : Proxy C) → (i : ℕ) × (get_elem? (ps ++ (q ∷ [])) i ≡ some q)
    last_one [] q = (0, refl)
    last_one (r ∷ ps) q = let (i, e) = last_one ps q in (suc i, e)

    forward_to-Redirects :
        (v : V) (server : Address)
        → IsValid peer.world.hub
        → IsResolved server
        → looked_up address_at port_at p peer.world.system ≡ some (v, server, true)
        → Redirects address_at port_at p peer
            (forward_to os n uninitialised address_at port_at server v p peer)
    unfolding forward_to
    forward_to-Redirects v server w r found =
        follow refl (get_proxy_for_address-Answered os uninitialised server peer.world.hub v w r)
      where
        follow :
            {x : Option (V × RomProxy C × Option (Proxy C))}
            → get_proxy_for_address os uninitialised server peer.world.hub v ≡ x
            → Answered os server peer.world.hub x
            → Redirects address_at port_at p peer
                (forward_to os n uninitialised address_at port_at server v p peer)
        follow {x = none} e a = absurd a
        follow {x = some (v', hub, answer)} e (w', known {p = q} m same i) =
            rw (e, forward_to) (forward_rewritten-Redirects hub q v' v server w' found same m i)
        follow {x = some (v', hub, answer)} e (w', refused same) =
            rw (e, forward_to) (unproxied found e same w')
        follow {x = some (v', hub, answer)} e (w', added {p = q} grown same i address bound) =
            rw (e, forward_to)
              (forward_rewritten-Redirects hub q v' v server w' found
                (subst (λ a. equals a server ≡ some true) (sym same)
                  (equals_refl server r.size r.set))
                (subst (λ ps. (i : ℕ) × (get_elem? ps i ≡ some q)) (sym grown)
                  (last_one peer.world.hub.proxies q))
                i)

    pub redirect-Redirects :
        HasSmall os
        → IsValid peer.world.hub
        → Redirects address_at port_at p peer
            (redirect os n uninitialised address_at port_at p peer)
    unfolding redirect
    redirect-Redirects small w =
        follow refl (resolve-Resolves os small uninitialised _ _ peer.world.system)
      where
        follow :
            {x : Option (V × Address × Bool)}
            → looked_up address_at port_at p peer.world.system ≡ x
            → Resolves x
            → Redirects address_at port_at p peer
                (redirect os n uninitialised address_at port_at p peer)
        follow {x = none} e a = absurd a
        follow {x = some (v, server, true)} e r =
            rw (e, redirect) (forward_to-Redirects v server w (r refl) e)
        follow {x = some (v, server, false)} e r = rw (e, redirect) (unresolved e w)
