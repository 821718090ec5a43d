-- ===== src/PacketLog/RoundTrip.antt =====
-- What the packet logger writes, romdump reads back.
use openrom.Base.{
  ℕ, zero, suc, ◌+◌, ◌*◌, ◌/◌, ◌%◌, ◌^◌, ◌≤◌, ◌<◌, ◌≡◌, refl, sym, ap, ◌∙◌, arith, List, [], ◌∷◌,
  ◌++◌, map, true, Option, some, length, take, All, length-append, take-append_eq, drop-append_eq,
  append_assoc, append-nil, take_all,
}
use openrom.Packet.{Packet, IsFramed, to_bytes, u32_bytes}
use openrom.Connection.Delivery.{framed_length}
use openrom.Connection.{wrote_all}
use openrom.PacketLog.{
  write_packet, write_header, Address, packet, magic_2, logger_packet, parse_header, read_packet,
  read_one, read_all, read_log, log_version,
}

-- The fields of an address are in the range of their types.
pub record IsAddress (a : Address) : Type 0 where
  pub address_fits : a.address < 2 ^ 32
  pub port_fits : a.port < 2 ^ 16

u32_back :
    (n : ℕ)
    → n < 2 ^ 32
    → n % 256 + n / 256 % 256 * 256 + n / 65536 % 256 * 65536 + n / 16777216 % 256 * 16777216 ≡ n
u32_back n h = omega arith

u16_back : (n : ℕ) → n < 2 ^ 16 → n % 256 + n / 256 % 256 * 256 ≡ n
u16_back n h = omega arith

size_back :
    (n : ℕ)
    → n < 2 ^ 32
    → n % 2 ^ 16 % 256
        + n % 2 ^ 16 / 256 % 256 * 256
        + (n / 2 ^ 16 % 256 + n / 2 ^ 16 / 256 % 256 * 256) * 2 ^ 16
      ≡ n
size_back n h = omega arith

parse_header_lem :
    (source dest : Address) (len : ℕ) (rest : List ℕ)
    → IsAddress source
    → IsAddress dest
    → len < 2 ^ 32
    → parse_header true (logger_packet source dest len ++ rest)
      ≡ some (record { source = source; dest = dest; size = len; rest = rest })
unfolding parse_header logger_packet
parse_header_lem source dest len rest hs hd hl = ground (
  arith,
  u32_back source.address hs.address_fits,
  u32_back dest.address hd.address_fits,
  u16_back source.port hs.port_fits,
  u16_back dest.port hd.port_fits,
  size_back len hl,
)

-- One packet of the log, as the logger writes it.
pub entry : Address × Address × Packet → List ℕ
entry (source, dest, p) = logger_packet source dest p.p_length ++ to_bytes p

-- A framed packet that the reader's buffer holds, between addresses.
pub record IsLoggable (e : Address × Address × Packet) : Type 0 where
  pub source_fits : IsAddress e.0
  pub dest_fits : IsAddress e.1
  pub packet_framed : IsFramed e.2
  pub packet_small : e.2.p_length ≤ 131072

read_packet_lem :
    (p : Packet) (rest : List ℕ)
    → IsFramed p
    → read_packet p.p_length (to_bytes p ++ rest) ≡ some (to_bytes p, rest)
unfolding read_packet
read_packet_lem p rest f = ground (
  arith,
  framed_length p f,
  length-append {0} (to_bytes p) rest,
  take-append_eq p.p_length (to_bytes p) rest (sym (framed_length p f)),
  drop-append_eq p.p_length (to_bytes p) rest (sym (framed_length p f)),
)

read_one_lem :
    (source dest : Address) (p : Packet) (rest : List ℕ)
    → IsLoggable (source, dest, p)
    → read_one true (entry (source, dest, p) ++ rest) ≡ packet source dest (to_bytes p) rest
unfolding entry read_one
read_one_lem source dest p rest l =
    rw
      (
        append_assoc (logger_packet source dest p.p_length) (to_bytes p) rest,
        parse_header_lem source dest p.p_length (to_bytes p ++ rest) l.source_fits l.dest_fits
            l.packet_framed.length_fits,
        read_one,
        read_packet_lem p rest l.packet_framed,
      )
      (ground (arith, l.packet_framed.framed))

-- The packets of a log, one behind the other.
pub entries : List (Address × Address × Packet) → List ℕ
entries [] = []
entries (e ∷ es) = entry e ++ entries es

-- What the reader makes of a packet.
abbrev pub as_read : Address × Address × Packet → Address × Address × List ℕ
as_read (source, dest, p) = (source, dest, to_bytes p)

read_all_lem :
    (fuel : ℕ) (es : List (Address × Address × Packet))
    → All IsLoggable es
    → length es < fuel
    → read_all fuel true (entries es) ≡ some (map as_read es)
unfolding entries read_all
read_all_lem zero es l h = absurd (omega arith)
read_all_lem (suc fuel) [] l h = unfold read_one parse_header in refl
read_all_lem (suc fuel) ((source, dest, p) ∷ es) l h =
    rw
      (
        read_one_lem source dest p (entries es) l.0,
        read_all,
        read_all_lem fuel es l.1 (omega arith),
      )
      refl

length-entries : (es : List (Address × Address × Packet)) → length es ≤ length (entries es)
unfolding entries entry logger_packet
length-entries [] = omega arith
length-entries (e ∷ es) = omega (arith, length-entries es, length-append {0} (entry e) (entries es))

version_lem : (rest : List ℕ) → log_version (u32_bytes magic_2 ++ rest) ≡ some true
unfolding log_version
version_lem rest = ground arith

read_log_lem :
    (es : List (Address × Address × Packet))
    → All IsLoggable es
    → read_log (u32_bytes magic_2 ++ entries es) ≡ some (map as_read es)
unfolding read_log
read_log_lem es l =
    rw (version_lem (entries es), read_log)
      (read_all_lem (suc (length (u32_bytes magic_2 ++ entries es))) es l
        (omega (arith, length-entries es)))

-- The file behind a descriptor: a write puts all of its bytes at the end.
pub record Appends {S : Type 0} (write : List ℕ → S → S × Option ℕ) (view : S → List ℕ)
    : Type 0 where
  pub appended : (bytes : List ℕ) (s : S) → view (write bytes s).0 ≡ view s ++ bytes
  pub answered : (bytes : List ℕ) (s : S) → (write bytes s).1 ≡ some (length bytes)

-- A session of the logger: the packets are written one after the other.
pub write_packets :
    {S : Type 0} → (List ℕ → S → S × Option ℕ) → List (Address × Address × Packet) → S → S
write_packets write [] s = s
write_packets write (e ∷ es) s = write_packets write es (write_packet write e.0 e.1 e.2 s).1

module _ {S : Type 0} (write : List ℕ → S → S × Option ℕ) (view : S → List ℕ)
    (file : Appends write view) where
  -- On a file that takes all bytes `Write` of a framed packet succeeds, and appends its entry.
  pub write_packet_lem :
      (source dest : Address) (p : Packet) (s : S)
      → IsFramed p
      → ((write_packet write source dest p s).0 ≡ true)
        × (view (write_packet write source dest p s).1 ≡ view s ++ entry (source, dest, p))
  unfolding write_packet entry
  write_packet_lem source dest p s f = (
    rw wrote wrote_rest,
    rw (wrote, whole)
        (file.appended (to_bytes p) between
          ∙ ap (λ m. m ++ to_bytes p) (file.appended header s)
          ∙ append_assoc (view s) header (to_bytes p)),
  )
    where
      header : List ℕ
      header = logger_packet source dest p.p_length

      between : S
      between = (write header s).0

      whole : take p.p_length (to_bytes p) ≡ to_bytes p
      whole = take_all p.p_length (to_bytes p) (omega (arith, framed_length p f))

      wrote : wrote_all (write header s).1 16 ≡ true
      wrote = rw (file.answered header s) (unfold logger_packet in refl)

      wrote_rest : wrote_all (write (take p.p_length (to_bytes p)) between).1 p.p_length ≡ true
      wrote_rest = rw (whole, file.answered (to_bytes p) between, framed_length p f) (ground arith)

  write_packets_lem :
      (es : List (Address × Address × Packet)) (s : S)
      → All IsLoggable es
      → view (write_packets write es s) ≡ view s ++ entries es
  unfolding write_packets entries
  write_packets_lem [] s l = sym (append-nil (view s))
  write_packets_lem (e ∷ es) s l =
      write_packets_lem es (write_packet write e.0 e.1 e.2 s).1 l.1
      ∙ ap (λ m. m ++ entries es) (write_packet_lem e.0 e.1 e.2 s l.0.packet_framed).1
      ∙ append_assoc (view s) (entry e) (entries es)

  -- On a file that takes all bytes, the log of a list of framed packets of at most 131072 bytes between
  -- addresses in the range of their types is read back as those addresses and packets, in order.
  pub read_log-write_packets :
      (es : List (Address × Address × Packet)) (s : S)
      → All IsLoggable es
      → view s ≡ []
      → read_log (view (write_packets write es (write_header write s).1)) ≡ some (map as_read es)
  unfolding write_header
  read_log-write_packets es s l empty = ap read_log written ∙ read_log_lem es l
    where
      written :
          view (write_packets write es (write_header write s).1) ≡ u32_bytes magic_2 ++ entries es
      written =
          write_packets_lem es (write (u32_bytes magic_2) s).0 l
          ∙ ap (λ m. m ++ entries es) (file.appended (u32_bytes magic_2) s)
          ∙ ap (λ m. (m ++ u32_bytes magic_2) ++ entries es) empty
