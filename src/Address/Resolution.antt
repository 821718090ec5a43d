-- ===== src/Address/Resolution.antt =====
-- `Address::Resolve` on a system whose addresses fit in a struct sockaddr, as those of IPv4 do.
use openrom.Base.{
  ℕ, ◌≤◌, ◌≡◌, refl, subst, drop, ◌++◌, List, [], ◌∷◌, Bool, true, false, Option, none, some,
  length, All, leb, ltb, arith, inl, inr, Option-cases,
}
use openrom.Address.{
  Address, AddrInfo, Os, first_usable, resolve, reset, has_address, sockaddr_size,
}

-- What getaddrinfo() returns fits.
pub record HasSmall {V : Type 0} (os : Os V) : Type 0 where
  pub small :
      (hostname service : List ℕ) (v : V) (entries : List AddrInfo)
      → (os.getaddrinfo hostname service v).1 ≡ some entries
      → All (λ rp. length rp.ai_addr ≤ sockaddr_size) entries

-- An address that has a length, as every one that was resolved.
pub record IsResolved (a : Address) : Type 0 where
  pub size : ℕ
  pub set : a.socklen ≡ some size

has_address-IsResolved : (a : Address) → has_address a ≡ true → IsResolved a
has_address-IsResolved a has = elim (Option-cases a.socklen) [
  | inl missing ↦ absurd (contradiction missing)
  | inr (n, set) ↦ record { size = n; set = set }
]
  where
    contradiction : a.socklen ≡ none → ⊥
    contradiction missing =
        false-true (subst (λ l. elim l [ none ↦ false | some n ↦ ltb 0 n ] ≡ true) missing has)
      where
        false-true : false ≡ true → ⊥
        false-true e = cc

-- The call answers, and an address that it resolved has a length.
abbrev pub Resolves : {V : Type 0} → Option (V × Address × Bool) → Type 0
Resolves none = ⊥
Resolves (some (v, a, resolved)) = resolved ≡ true → IsResolved a

module _ {V : Type 0} (os : Os V) where
  first_usable-some :
      (entries : List AddrInfo) (a : Address) (v : V)
      → All (λ rp. length rp.ai_addr ≤ sockaddr_size) entries
      → (v' : V) × (b : Address) × (first_usable os entries a v ≡ some (v', b))
  unfolding first_usable
  first_usable-some [] a v all = (v, a, refl)
  first_usable-some (rp ∷ entries) a v (one, all) =
      elim (Option-cases (os.socket rp.ai_family rp.ai_socktype rp.ai_protocol v).1) [
        | inl failed ↦
            let (v', b, e) =
              first_usable-some entries a (os.socket rp.ai_family rp.ai_socktype rp.ai_protocol v).0
                all in
            (v', b, rw (failed, first_usable) e)
        | inr (fd, made) ↦ (
          os.close fd (os.socket rp.ai_family rp.ai_socktype rp.ai_protocol v).0,
          chosen,
          rw (made, first_usable, fits one) refl,
        )
      ]
    where
      chosen : Address
      chosen = record {
        sockaddr = rp.ai_addr ++ drop (length rp.ai_addr) a.sockaddr;
        socklen = some (length rp.ai_addr);
        family = rp.ai_family;
        socktype = rp.ai_socktype;
        protocol = rp.ai_protocol;
      }

      fits : length rp.ai_addr ≤ sockaddr_size → leb (length rp.ai_addr) sockaddr_size ≡ true
      fits h = ground arith

  pub resolve-Resolves :
      (small : HasSmall os) (a : Address) (hostname service : List ℕ) (v : V)
      → Resolves (resolve os a hostname service v)
  unfolding resolve reset
  resolve-Resolves small a hostname service v =
      elim (Option-cases (os.getaddrinfo hostname service v).1) [
        | inl failed ↦ rw (failed, resolve) (λ e. cc)
        | inr (entries, found) ↦
            let (v', b, e) =
              first_usable-some entries (reset a) (os.getaddrinfo hostname service v).0
                (small.small hostname service v entries found) in
            rw (found, resolve, e) (has_address-IsResolved b)
      ]
