-- ===== src/Traffic/Returns.antt =====
-- AnalyzePacket, which the cutting of a flow calls, comes back where its model says so.
use openrom.Base.{ℕ, Bool, true, false, Option, none, some}
use openrom.Packet.{Packet}
use openrom.Traffic.{Outcome, exits, past_key, quiet, reports}

-- Whether the call came back.
unfoldable pub came_back : Outcome → Bool
came_back exits = false
came_back past_key = false
came_back (quiet st) = true
came_back (reports st r) = true

is_some : Option ℕ → Bool
is_some none = false
is_some (some x) = true
