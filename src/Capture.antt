-- ===== src/Capture.antt =====
-- romdump/romdump.cc: the loop of `main` from the packet that was read on. It keeps a flow for each
-- connection, appends what was read to it, and has AnalyzeFlow cut what it can. The map of the flows
-- is a list in the order of its keys.
pub mod Splitting
pub mod Flows
pub mod Passes
pub mod Calls
pub mod Demux
pub mod Logged
mod Tests
use openrom.Base.{
  ℕ, zero, suc, ◌+◌, ◌-◌, List, [], ◌∷◌, ◌++◌, Bool, true, false, not, Option, none, some, length,
  drop, ltb, ◌==◌, ◌&&◌, if◌then◌else◌,
}
use openrom.Packet.{u32_at, packet_size}
use openrom.PacketLog.{Address, read_log}
use openrom.Flow.{
  Flow, new_flow, append, Endpoints, endpoints_less, analyze_flow, Analysis, analyzed, aborted,
  stuck,
}

abbrev pub FlowMap : Type 0
FlowMap = List (Endpoints × Flow)

-- The keys of a std::map are equal when neither is below the other.
pub same_connection : Endpoints → Endpoints → Bool
same_connection a b = not (endpoints_less a b) && not (endpoints_less b a)

pub find_flow : Endpoints → FlowMap → Option Flow
find_flow k [] = none
find_flow k ((j, g) ∷ rest) = if same_connection j k then some g else find_flow k rest

-- `flows.insert()` of a connection that is not in the map.
pub insert_flow : Endpoints → Flow → FlowMap → FlowMap
insert_flow k f [] = (k, f) ∷ []
insert_flow k f ((j, g) ∷ rest) =
    if endpoints_less k j then (k, f) ∷ ((j, g) ∷ rest) else (j, g) ∷ insert_flow k f rest

-- A change of the flow that the map points to.
pub set_flow : Endpoints → Flow → FlowMap → FlowMap
set_flow k f [] = []
set_flow k f ((j, g) ∷ rest) =
    if same_connection j k then (j, f) ∷ rest else (j, g) ∷ set_flow k f rest

-- The flow of a connection, a new one if it has none, and the map with it.
pub hook_up : Endpoints → FlowMap → Option (Flow × FlowMap)
unfolding find_flow insert_flow new_flow
hook_up k flows = elim (find_flow k flows) [
  | some f ↦ some (f, flows)
  | none ↦ elim (new_flow 262000) [ none ↦ none | some f ↦ some (f, insert_flow k f flows) ]
]

pub record Capture : Type 0 where
  pub flows : FlowMap
  pub sequence : ℕ

-- A call of AnalyzePacket: the connection, the sequence number and the bytes.
pub record Call : Type 0 where
  pub connection : Endpoints
  pub sequence : ℕ
  pub bytes : List ℕ

pub calls_of : Endpoints → List (ℕ × List ℕ) → List Call
calls_of k [] = []
calls_of k ((sequence, bytes) ∷ rest) =
    record { connection = k; sequence = sequence; bytes = bytes } ∷ calls_of k rest

-- How far the calls moved the offset.
pub consumed : List (ℕ × List ℕ) → ℕ
consumed [] = 0
consumed ((sequence, bytes) ∷ rest) = length bytes + consumed rest

-- AnalyzeFlow on the flow of a connection: its offset, the sequence number, and the calls.
pub analyzed_flow : Endpoints → Flow → FlowMap → Analysis → Option (Capture × List Call)
unfolding set_flow calls_of consumed
analyzed_flow k f flows aborted = none
analyzed_flow k f flows stuck = none
analyzed_flow k f flows (analyzed packets left next) = some (
  record {
    flows =
        set_flow k (record f { current_data_offset = f.current_data_offset + consumed packets })
          flows;
    sequence = next;
  },
  calls_of k packets,
)

abbrev pub between : Address → Address → Endpoints
between source dest = record { source = source; dest = dest }

abbrev pub start : Capture
start = record { flows = []; sequence = 1 }

module _ (keepalive : Bool) where
  -- The rest of a pass. `none` is the abort of AnalyzeFlow or the end of the program in
  -- AnalyzePacket, or a buffer that cannot grow.
  pub take_in : Endpoints → List ℕ → Capture → Option (Capture × List Call)
  unfolding hook_up append analyze_flow analyzed_flow
  take_in k bytes c = elim (hook_up k c.flows) [
    | none ↦ none
    | some (f, flows) ↦ elim (append f bytes) [
      | none ↦ none
      | some f' ↦ analyzed_flow k f' flows (analyze_flow keepalive f' c.sequence)
    ]
  ]

  -- The loop, on the packets that are read.
  pub dump : List (Address × Address × List ℕ) → Capture → Option (Capture × List Call)
  unfolding take_in
  dump [] c = some (c, [])
  dump ((source, dest, bytes) ∷ rest) c = elim (take_in (between source dest) bytes c) [
    | none ↦ none
    | some (c1, calls) ↦ elim (dump rest c1) [
      | none ↦ none
      | some (c2, more) ↦ some (c2, calls ++ more)
    ]
  ]

  -- The whole of a log file. `none` says that the program ends before the end of the file, or that the
  -- file is no log: what was read and analyzed before is left out then, so that all of the log may be read
  -- first.
  pub dump_log : List ℕ → Option (Capture × List Call)
  dump_log file = elim (read_log file) [ none ↦ none | some packets ↦ dump packets start ]

-- What the walk over the flows warns of: the bytes that are left in a flow, and the length of the
-- packet that they begin with, if its header is there.
pub leftover : Flow → Option (ℕ × Option ℕ)
leftover f =
    let left = length f.bytes - f.current_data_offset in
    if f.current_data_offset == length f.bytes
    then none
    else if ltb left packet_size
    then some (left, none)
    else some (left, some (u32_at (drop f.current_data_offset f.bytes) 0))

pub leftovers : FlowMap → List (Endpoints × ℕ × Option ℕ)
unfolding leftover
leftovers [] = []
leftovers ((k, f) ∷ rest) = elim (leftover f) [
  | none ↦ leftovers rest
  | some (left, size) ↦ (k, left, size) ∷ leftovers rest
]
