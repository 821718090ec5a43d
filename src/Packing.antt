-- ===== src/Packing.antt =====
-- The transformation ROMPacking of romdump/romdump.cc: how the decoder unpacks data.
pub mod Trailer
mod Tests
use openrom.Base.{
  ℕ, ◌-◌, List, Bool, true, false, length, take, drop, ltb, ◌==◌, ◌&&◌, if◌then◌else◌,
}
use openrom.Packet.{byte_at}
use openrom.Rompack.{Outcome, done, rejected, fault, stuck, unpack}

-- What `Apply` does: it fills the buffer, it answers false, it answers true with the buffer and its
-- length as they were, or Unpack reads out of range. `out_of_fuel` is `stuck` of Unpack.
pub data Applied : Type 0 where
  filled : List ℕ → Applied
  refused : Applied
  untouched : Applied
  out_of_range : Applied
  out_of_fuel : Applied

-- The four bytes 11 10 00 00 at the end.
pub has_mark : List ℕ → Bool
has_mark bytes =
    let last = drop (length bytes - 4) bytes in
    (byte_at last 0 == 0x11)
    && (byte_at last 1 == 0x10)
    && (byte_at last 2 == 0)
    && (byte_at last 3 == 0)

-- The source without a trailer of eight bytes.
pub without_trailer : List ℕ → List ℕ
without_trailer bytes =
    if ltb 8 (length bytes) && has_mark bytes then take (length bytes - 8) bytes else bytes

pub judge : Outcome → Applied
judge (done true out) = filled out
judge (done false out) = refused
judge rejected = refused
judge fault = out_of_range
judge stuck = out_of_fuel

pub apply : List ℕ → Applied
apply bytes = if length bytes == 0 then untouched else judge (unpack (without_trailer bytes))

-- `EstimateBufferSize`
abbrev pub estimated_size : ℕ
estimated_size = 1048576
