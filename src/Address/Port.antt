-- ===== src/Address/Port.antt =====
-- The port of an IPv4 address, and its text.
use openrom.Base.{
  ℕ, ◌+◌, ◌/◌, ◌%◌, ◌≤◌, ◌<◌, ◌≡◌, ◌≢◌, refl, ap₂, ◌∙◌, inl, inr, arith, List, [], ◌∷◌, ◌++◌, Bool,
  true, false, some, length, take, All, All-append, All-get_elem?, get_elem?_lt, length-append,
  take_all, get_elem?, Option-cases, if_either,
}
use openrom.Packet.{byte_at, IsByte}
use openrom.Text.{decimal, write_at, split_at}
use openrom.Text.RoundTrip.{decimal-IsDigit, length-decimal, split_at-append, IsDigit}
use openrom.Text.Memory.{
  length-write_at, get_elem?-write_at_inside, get_elem?-write_at_outside, All-write_at,
  same_bytes_refl,
}
use openrom.Address.{
  Address, IsInet, sockaddr_size, sin_port, sin_addr, set_port, get_ipv4_address, inet_ntoa,
  to_string, equals,
}

-- A character of a printed address: a digit or a dot.
abbrev pub IsDotted : ℕ → Type 0
IsDotted c = (46 ≤ c) × (c ≤ 57)

pub byte_at-IsByte : (m : List ℕ) (i : ℕ) → i < length m → All IsByte m → IsByte (byte_at m i)
byte_at-IsByte m i small bytes =
    let (b, found) = get_elem?_lt m i small in rw found (All-get_elem? IsByte m i bytes found)

decimal-IsDotted : (n : ℕ) → All IsDotted (decimal n)
decimal-IsDotted n = All-map (decimal n) (decimal-IsDigit n)
  where
    All-map : (cs : List ℕ) → All IsDigit cs → All IsDotted cs
    All-map [] all = tt
    All-map (c ∷ cs) ((low, high), all) = ((omega arith, high), All-map cs all)

append-IsDotted : (s t : List ℕ) → All IsDotted s → All IsDotted t → All IsDotted (s ++ (46 ∷ t))
append-IsDotted s t a b = All-append IsDotted s (46 ∷ t) a ((omega arith, omega arith), b)

pub inet_ntoa-IsDotted : (m : List ℕ) → All IsDotted (inet_ntoa m)
unfolding inet_ntoa
inet_ntoa-IsDotted m = append-IsDotted _ _ (decimal-IsDotted (byte_at m 4)) (
    append-IsDotted _ _ (decimal-IsDotted (byte_at m 5))
      (append-IsDotted _ _ (decimal-IsDotted (byte_at m 6)) (decimal-IsDotted (byte_at m 7))))

pub length-inet_ntoa :
    (m : List ℕ) → length m ≡ sockaddr_size → All IsByte m → length (inet_ntoa m) ≤ 15
unfolding inet_ntoa
length-inet_ntoa m whole bytes = omega (
  arith,
  length-append {0} (decimal (byte_at m 4)) (46 ∷ rest5),
  length-append {0} (decimal (byte_at m 5)) (46 ∷ rest6),
  length-append {0} (decimal (byte_at m 6)) (46 ∷ decimal (byte_at m 7)),
  short 4 (omega arith),
  short 5 (omega arith),
  short 6 (omega arith),
  short 7 (omega arith),
)
  where
    rest6 : List ℕ
    rest6 = decimal (byte_at m 6) ++ (46 ∷ decimal (byte_at m 7))

    rest5 : List ℕ
    rest5 = decimal (byte_at m 5) ++ (46 ∷ rest6)

    short : (i : ℕ) → i < length m → length (decimal (byte_at m i)) ≤ 3
    short i small = length-decimal 2 (byte_at m i) (omega (arith, byte_at-IsByte m i small bytes))

pub sin_port-lt : (m : List ℕ) → length m ≡ sockaddr_size → All IsByte m → sin_port m < 65536
sin_port-lt m whole bytes =
    omega (arith, byte_at-IsByte m 2 (omega arith) bytes, byte_at-IsByte m 3 (omega arith) bytes)

-- A printed address comes apart at its colon.
pub split_at-to_string :
    (a : Address)
    → IsInet a
    → split_at 58 (to_string a 256) ≡ some (inet_ntoa a.sockaddr, decimal (sin_port a.sockaddr))
unfolding to_string
split_at-to_string a i =
    rw (i.of_inet, take_all 255 (inet_ntoa a.sockaddr ++ (58 ∷ decimal (sin_port a.sockaddr))) fits)
      (split_at-append 58 (inet_ntoa a.sockaddr) _
        (no_colon (inet_ntoa a.sockaddr) (inet_ntoa-IsDotted a.sockaddr)))
  where
    fits : length (inet_ntoa a.sockaddr ++ (58 ∷ decimal (sin_port a.sockaddr))) ≤ 255
    fits = omega (
      arith,
      length-append {0} (inet_ntoa a.sockaddr) (58 ∷ decimal (sin_port a.sockaddr)),
      length-inet_ntoa a.sockaddr i.memory i.bytes,
      length-decimal 4 (sin_port a.sockaddr)
          (omega (arith, sin_port-lt a.sockaddr i.memory i.bytes)),
    )

    no_colon : (s : List ℕ) → All IsDotted s → All (λ c. c ≢ 58) s
    no_colon [] all = tt
    no_colon (c ∷ cs) ((low, high), all) = (λ e. omega arith, no_colon cs all)

pub get_ipv4_address_lem :
    (a : Address) → IsInet a → get_ipv4_address a ≡ (sin_addr a.sockaddr, sin_port a.sockaddr)
unfolding get_ipv4_address
get_ipv4_address_lem a i = rw i.of_inet refl

-- `SetPort` changes the port, and the address is the same.
pub set_port_lem :
    (a : Address) (port : ℕ)
    → IsInet a
    → port < 65536
    → (b : Address) × (set_port a port ≡ some b)
      × IsInet b
      × (get_ipv4_address b ≡ (sin_addr a.sockaddr, port))
unfolding set_port get_ipv4_address
set_port_lem a port i small = (
  b,
  rw i.of_inet refl,
  record {
    of_inet = i.of_inet;
    memory = length-write_at 2 two a.sockaddr (omega (arith, i.memory)) ∙ i.memory;
    bytes = All-write_at IsByte 2 two a.sockaddr (omega arith, (omega arith, tt)) i.bytes;
    whole = i.whole;
  },
  rw i.of_inet (
      ap₂ (λ x y. (x, y))
        (rw (same 4 (omega arith), same 5 (omega arith), same 6 (omega arith), same 7 (omega arith))
          refl)
        (rw (new 0 2 refl (omega arith), new 1 3 refl (omega arith)) (omega arith))),
)
  where
    two : List ℕ
    two = port / 256 % 256 ∷ port % 256 ∷ []

    b : Address
    b = record a { sockaddr = write_at 2 two a.sockaddr }

    same : (j : ℕ) → 4 ≤ j → get_elem? (write_at 2 two a.sockaddr) j ≡ get_elem? a.sockaddr j
    same j behind =
        get_elem?-write_at_outside 2 two a.sockaddr (omega (arith, i.memory)) j (inr behind)

    new : (k j : ℕ) → j ≡ 2 + k → k < 2 → get_elem? (write_at 2 two a.sockaddr) j ≡ get_elem? two k
    new k j e small =
        get_elem?-write_at_inside 2 two a.sockaddr (omega (arith, i.memory)) k j e small

-- An address that has a length is equal to itself.
pub equals_refl : (a : Address) (n : ℕ) → a.socklen ≡ some n → equals a a ≡ some true
unfolding equals
equals_refl a n e = rw (e, equals, e) (ground (arith, same_bytes_refl (take n a.sockaddr)))

-- A comparison with an address that has a length stays inside of the two.
pub equals-some : (a b : Address) (n : ℕ) → a.socklen ≡ some n → (e : Bool) × (equals a b ≡ some e)
unfolding equals
equals-some a b n set = elim (Option-cases b.socklen) [
  | inl missing ↦ (false, rw (set, missing, equals) refl)
  | inr (m, other) ↦
      rw (set, other, equals) (if_either (λ x. (e : Bool) × (x ≡ some e)) _ (false, refl) (_, refl))
]
