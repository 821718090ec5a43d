-- ===== src/Connection/Stream/Tests.antt =====
-- The theorems on streams at concrete inputs.
use openrom.Base.{ℕ, All, ◌≡◌, refl, ap, arith, List, [], ◌∷◌, ◌++◌, false, some, length, replicate}
use openrom.Buffer.{contents}
use openrom.Buffer.Tests.{filled, filled-IsValid, contents-filled}
use openrom.Connection.{Connection, on_event}
use openrom.Connection.Tests.{host}
use openrom.Connection.Stream.{session, stream, resume, cut, short}
use openrom.Connection.Stream.Answers.{ReadsKey}
use openrom.Connection.Stream.Refinement.{Refines, on_event-Refines}
use openrom.Connection.Stream.Append.{stream-append}
use openrom.Connection.Stream.Arrivals.{on_events, on_events-Refines, joined, IsChunk, chunk}

host-ReadsKey : ReadsKey host
host-ReadsKey = record { reads_key = λ c d s same have. ap (λ k. s ++ k) same }

-- A connection without a key, and with three bytes of a header in its buffer.
abbrev pub begun : Connection
begun = record {
  buffer = filled (22 ∷ 0 ∷ 0 ∷ []);
  key = replicate 10 0;
  sequence = 1;
  have_key = false;
}

on_event-Refines_example :
    Refines
      (on_event host begun (some (0 ∷ 5 ∷ [])) [])
      (stream host (session begun) (contents begun.buffer ++ (0 ∷ 5 ∷ [])) [])
on_event-Refines_example =
    on_event-Refines host host-ReadsKey begun 0 (5 ∷ []) []
      (filled-IsValid (22 ∷ 0 ∷ 0 ∷ []) (omega arith))
      (omega (arith, ap length (contents-filled (22 ∷ 0 ∷ 0 ∷ []))))

stream-append_example :
    stream host (session begun) ((22 ∷ 0 ∷ []) ++ (0 ∷ 0 ∷ [])) []
    ≡ resume host (stream host (session begun) (22 ∷ 0 ∷ []) []) (0 ∷ 0 ∷ [])
stream-append_example = stream-append host (session begun) (22 ∷ 0 ∷ []) (0 ∷ 0 ∷ []) []

pub begun-short : cut (contents begun.buffer) ≡ short
unfolding cut
begun-short = rw (contents-filled (22 ∷ 0 ∷ 0 ∷ []), cut) refl

-- The rest of a packet with a key, in two parts.
abbrev pub rest_of_key : List (List ℕ)
rest_of_key =
    (0 ∷ 1 ∷ 0 ∷ 0 ∷ 0 ∷ 0 ∷ 0 ∷ 0 ∷ [])
    ∷ (0 ∷ 19 ∷ 20 ∷ 21 ∷ 22 ∷ 23 ∷ 24 ∷ 25 ∷ 26 ∷ 27 ∷ 28 ∷ [])
    ∷ []

pub rest_of_key-IsChunk : All IsChunk rest_of_key
rest_of_key-IsChunk = (chunk (omega arith), (chunk (omega arith), tt))

on_events-Refines_example :
    Refines
      (on_events host begun rest_of_key [])
      (stream host (session begun) (contents begun.buffer ++ joined rest_of_key) [])
on_events-Refines_example =
    on_events-Refines host host-ReadsKey begun rest_of_key []
      (filled-IsValid (22 ∷ 0 ∷ 0 ∷ []) (omega arith)) begun-short rest_of_key-IsChunk
