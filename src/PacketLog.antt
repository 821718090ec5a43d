-- ===== src/PacketLog.antt =====
-- lib/rompacketlogger.cc, romdump/romlogparser.cc, and the part of romdump/romdump.cc that reads a
-- packet log: the writer of the log and its reader. The file that is written is a state `S` with an
-- operation `write`; the file that is read is the list of the bytes from its position on.
pub mod RoundTrip
mod Tests
use openrom.Base.{
  ℕ, zero, suc, ◌+◌, ◌*◌, ◌/◌, ◌%◌, ◌^◌, List, [], ◌∷◌, ◌++◌, Bool, true, false, Option, none, some,
  length, take, drop, ltb, leb, ◌==◌, ◌||◌, if◌then◌else◌,
}
use openrom.Packet.{Packet, to_bytes, u32_bytes, u32_at, byte_at}
use openrom.Connection.{wrote_all}

-- An IPv4 address and its port, in the byte order of the host.
pub record Address : Type 0 where
  pub address : ℕ
  pub port : ℕ

abbrev pub magic_1 : ℕ
magic_1 = 0x214d6f52

abbrev pub magic_2 : ℕ
magic_2 = 0x2b4d6f52

-- sizeof(ROM::LoggerPacket)
abbrev pub logger_packet_size : ℕ
logger_packet_size = 16

-- The two bytes of a uint16_t in memory, and a read of them.
abbrev pub u16_bytes : ℕ → List ℕ
u16_bytes n = n % 256 ∷ n / 256 % 256 ∷ []

abbrev pub u16_at : List ℕ → ℕ → ℕ
u16_at m i = byte_at m i + byte_at m (suc i) * 256

-- The ROM::LoggerPacket of a packet of `len` bytes, in memory.
pub logger_packet : Address → Address → ℕ → List ℕ
logger_packet source dest len =
    u32_bytes source.address
    ++ (u16_bytes source.port
        ++ (u32_bytes dest.address
            ++ (u16_bytes dest.port ++ (u16_bytes (len % 2 ^ 16) ++ u16_bytes (len / 2 ^ 16)))))

-- What reading one packet of the log gives: the loop ends, or the addresses, the bytes of the packet
-- and the rest of the file.
pub data Reading : Type 0 where
  ended : Reading
  packet : Address → Address → List ℕ → List ℕ → Reading

pub record Header : Type 0 where
  pub source : Address
  pub dest : Address
  pub size : ℕ
  pub rest : List ℕ

module _ {S : Type 0} (write : List ℕ → S → S × Option ℕ) where
  -- `ROMPacketLogger::Open`, once the file is open.
  pub write_header : S → Bool × S
  write_header s = let (s', answer) = write (u32_bytes magic_2) s in (wrote_all answer 4, s')

  -- `ROMPacketLogger::Write`
  pub write_packet : Address → Address → Packet → S → Bool × S
  write_packet source dest p s =
      let (s', answer) = write (logger_packet source dest p.p_length) s in
      let (s'', answer') = write (take p.p_length (to_bytes p)) s' in
      if wrote_all answer logger_packet_size
      then (wrote_all answer' p.p_length, s'')
      else (false, s')

-- `ROMLogParser::ParseHeader`, on a file of the second version or the first. The size is the `int`
-- that it returns, modulo 2^32; `none` is its 0 on a file that is too short.
pub parse_header : Bool → List ℕ → Option Header
parse_header v2 file =
    if ltb (length file) logger_packet_size
    then none
    else some (record {
      source = record { address = u32_at file 0; port = u16_at file 4 };
      dest = record { address = u32_at file 6; port = u16_at file 10 };
      size = if v2 then u16_at file 12 + u16_at file 14 * 2 ^ 16 else u16_at file 12;
      rest = if v2 then drop 16 file else drop 14 file;
    })

-- `ROMLogParser::ReadPacket` reads all of the packet or answers 0.
pub read_packet : ℕ → List ℕ → Option (List ℕ × List ℕ)
read_packet size file =
    if ltb (length file) size then none else some (take size file, drop size file)

-- The body of the loop of romdump's `main`, up to the flow that takes the packet. A size that is
-- negative as an `int`, zero, or over the size of the buffer ends the loop.
pub read_one : Bool → List ℕ → Reading
read_one v2 file = elim (parse_header v2 file) [
  | none ↦ ended
  | some header ↦
      if leb (2 ^ 31) header.size || header.size == 0
      then ended
      else if ltb 131072 header.size
      then ended
      else elim (read_packet header.size header.rest) [
        | none ↦ ended
        | some (bytes, rest) ↦ packet header.source header.dest bytes rest
      ]
]

-- The packets that the loop takes from a file. Each takes a byte at least, so the length of the file
-- is fuel enough; `none` is a lack of fuel.
pub read_all : ℕ → Bool → List ℕ → Option (List (Address × Address × List ℕ))
read_all zero v2 file = none
read_all (suc fuel) v2 file = elim (read_one v2 file) [
  | ended ↦ some []
  | packet source dest bytes rest ↦ elim (read_all fuel v2 rest) [
    | none ↦ none
    | some more ↦ some ((source, dest, bytes) ∷ more)
  ]
]

-- A file is a log by the number that it begins with. `none` is a file without one.
pub log_version : List ℕ → Option Bool
log_version file =
    if ltb (length file) 4
    then none
    else if u32_at file 0 == magic_1
    then some false
    else if u32_at file 0 == magic_2
    then some true
    else none

-- `none` is a file that is not a log.
pub read_log : List ℕ → Option (List (Address × Address × List ℕ))
read_log file = elim (log_version file) [
  | none ↦ none
  | some v2 ↦ read_all (suc (length file)) v2 (drop 4 file)
]
