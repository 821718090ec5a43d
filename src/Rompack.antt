-- ===== src/Rompack.antt =====
-- lib/rompack.h and lib/rompack.cc: the compression of packet data. Pointers are offsets: `in` is
-- the offset `pos` into the source, `out` is the length of the bytes that were written to `dst`, and
-- a pointer `buf` into the output is its distance below `out`. A read outside of the source or of
-- the written output is `fault`. A mask `x & (2^k - 1)` is a remainder. `uint32_t` sums wrap.
pub mod Progress
pub mod Bounds
pub mod RoundTrip
mod Tests
use openrom.Base.{
  ℕ, zero, suc, ◌+◌, ◌-◌, ◌*◌, ◌/◌, ◌%◌, ◌^◌, List, [], ◌∷◌, ◌++◌, Bool, true, false, Option, none,
  some, length, get_elem?, drop, replicate, ltb, leb, ◌==◌, if◌then◌else◌,
}

-- `done` carries the returned value and the output up to `*outlen`. `rejected` is the early return 0,
-- with `*outlen` still 0. `stuck` says that the model's fuel ran out.
pub data Outcome : Type 0 where
  done : Bool → List ℕ → Outcome
  rejected : Outcome
  fault : Outcome
  stuck : Outcome

-- The labels of `Unpack`: try_00to0F_standard, try_00to0F_alternative, handle_offset_count, and
-- try_standard with the code that was fetched.
pub data Label : Type 0 where
  standard : Label
  alternative : Label
  offset_count : Label
  command : ℕ → Label

pub record State : Type 0 where
  pub pos : ℕ
  pub out : List ℕ

pub data Step : Type 0 where
  goto : Label → State → Step
  finish : Outcome → Step

abbrev pub u32 : ℕ → ℕ
u32 n = n % 2 ^ 32

infixl 5 ◌>>=◌
abbrev pub ◌>>=◌ {ℓ} : {A : Type ℓ} → Option A → (A → Step) → Step
none >>= f = finish fault
some a >>= f = f a

-- COPY from the source.
pub copy_input : List ℕ → ℕ → ℕ → List ℕ → Option State
copy_input src zero pos out = some (record { pos = pos; out = out })
copy_input src (suc n) pos out = elim (get_elem? src pos) [
  | none ↦ none
  | some b ↦ copy_input src n (suc pos) (out ++ (b ∷ []))
]

-- COPY from the output, which grows while it is read.
pub copy_from : ℕ → ℕ → List ℕ → Option (List ℕ)
copy_from zero from out = some out
copy_from (suc n) from out = elim (get_elem? out from) [
  | none ↦ none
  | some b ↦ copy_from n (suc from) (out ++ (b ∷ []))
]

-- `buf = out - distance`, and COPY from there.
pub copy_output : ℕ → ℕ → List ℕ → Option (List ℕ)
copy_output n distance out =
    if ltb (length out) distance then none else copy_from n (length out - distance) out

-- The loop of HANDLE_COUNT over the bytes from `in` on.
pub zero_run : List ℕ → ℕ → ℕ → ℕ → Option (ℕ × ℕ)
zero_run [] acc mask pos = none
zero_run (b ∷ bs) acc mask pos =
    if b == 0
    then zero_run bs (u32 (acc + 255)) mask (suc pos)
    else some (u32 (acc + (b + mask)), suc pos)

-- HANDLE_COUNT: the count, and where `in` stands behind it.
pub handle_count : List ℕ → ℕ → ℕ → ℕ → Option (ℕ × ℕ)
handle_count src acc mask pos =
    let masked = acc % suc mask in
    if masked == 0 then zero_run (drop pos src) masked mask pos else some (masked, pos)

-- `*(uint16_t*)in`
pub read_u16 : List ℕ → ℕ → Option ℕ
read_u16 src pos = elim (get_elem? src pos) [
  | none ↦ none
  | some lo ↦ elim (get_elem? src (suc pos)) [ none ↦ none | some hi ↦ some (lo + hi * 256) ]
]

-- Copies within the output, then handle_offset_count with `in` at `pos`.
pub match_output : ℕ → ℕ → ℕ → List ℕ → Step
match_output count distance pos out = do
  out' ← copy_output count distance out
  goto offset_count (record { pos = pos; out = out' })

-- The standard meaning of a byte 00..0f: literals.
pub literals : List ℕ → ℕ → State → Step
literals src code st = do
  (count, pos) ← handle_count src code 15 (suc st.pos)
  st' ← copy_input src (u32 (count + 3)) pos st.out
  goto alternative st'

-- Its alternative meaning: three bytes of the output.
pub three_bytes : List ℕ → ℕ → State → Step
three_bytes src code st = do
  b ← get_elem? src (suc st.pos)
  match_output 3 (code / 4 + b * 4 + 0x801) (suc (suc st.pos)) st.out

-- After a match: up to three literals, and the next code.
pub trailing : List ℕ → ℕ → State → Step
trailing src code st = do
  st' ← copy_input src code st.pos st.out
  next ← get_elem? src st'.pos
  goto (command next) (record st' { pos = suc st'.pos })

pub try_standard : List ℕ → State → Step
try_standard src st = do
  code ← get_elem? src st.pos
  if ltb code 0x10
      then literals src code st
      else goto (command code) (record st { pos = suc st.pos })

pub try_alternative : List ℕ → State → Step
try_alternative src st = do
  code ← get_elem? src st.pos
  if ltb code 0x10
      then three_bytes src code st
      else goto (command code) (record st { pos = suc st.pos })

pub handle_offset_count : List ℕ → State → Step
handle_offset_count src st = do
  previous ← get_elem? src (st.pos - 2)
  let code = previous % 4
  if code == 0 then goto standard st else trailing src code st

-- code >= 0x40
pub command_short : List ℕ → ℕ → State → Step
command_short src code st = do
  b ← get_elem? src st.pos
  match_output (code / 32 + 1) (code / 4 % 8 + b * 8 + 1) (suc st.pos) st.out

-- 0x20 <= code < 0x40
pub command_middle : List ℕ → ℕ → State → Step
command_middle src code st = do
  (count, pos) ← handle_count src code 31 st.pos
  word ← read_u16 src pos
  match_output (u32 (count + 2)) (word / 4 + 1) (suc (suc pos)) st.out

-- 0x10 <= code < 0x20. `buf == out` is the end of the stream.
pub command_long : List ℕ → ℕ → State → Step
command_long src code st = do
  (count, pos) ← handle_count src code 7 st.pos
  word ← read_u16 src pos
  let distance = code / 8 % 2 * 8 * 2048 + word / 4
  if distance == 0
      then finish (done (suc (suc pos) == length src) st.out)
      else match_output (u32 (count + 2)) (distance + 0x4000) (suc (suc pos)) st.out

pub try_command : List ℕ → ℕ → State → Step
try_command src code st =
    if ltb code 0x40
    then if ltb code 0x20
      then if ltb code 0x10 then finish rejected else command_long src code st
      else command_middle src code st
    else command_short src code st

-- From one label to the next.
pub step : List ℕ → Label → State → Step
step src standard st = try_standard src st
step src alternative st = try_alternative src st
step src offset_count st = handle_offset_count src st
step src (command code) st = try_command src code st

pub run : ℕ → List ℕ → Label → State → Outcome
run zero src label st = stuck
run (suc fuel) src label st = elim (step src label st) [
  | goto label' st' ↦ run fuel src label' st'
  | finish outcome ↦ outcome
]

-- A first byte over 0x11.
pub first_literals : List ℕ → ℕ → Step
first_literals src code = do
  st ← copy_input src code 1 []
  goto (if ltb code 4 then standard else alternative) st

unfoldable pub start : List ℕ → Step
start src = do
  first ← get_elem? src 0
  if ltb 0x11 first
      then first_literals src (first - 0x11)
      else goto standard (record { pos = 0; out = [] })

-- Every second label at most takes a byte, so this fuel is enough.
unfoldable pub unpack : List ℕ → Outcome
unpack src = elim (start src) [
  | goto label st ↦ run (3 * length src + 3) src label st
  | finish outcome ↦ outcome
]

-- `stuck` is the model's again. `out_of_range` says that a length is none of an int.
pub data Packed : Type 0 where
  out_of_range : Packed
  packed : List ℕ → Packed
  assertion_failed : Packed
  stuck : Packed

-- `while (len > 255) { *out++ = 0; len -= 255; }`: how many zero bytes are written, and the last `len`.
pub count_loop : ℕ → ℕ → ℕ → Option (ℕ × ℕ)
count_loop zero len padding = none
count_loop (suc fuel) len padding =
    let rest = count_loop fuel (len - 255) (suc padding) in
    if ltb 255 len then rest else some (padding, len)

-- The command byte, the count, the data and the end of the stream.
pub frame : ℕ → ℕ → List ℕ → List ℕ
frame padding len src = 0 ∷ (replicate padding 0 ++ (len ∷ (src ++ (0x11 ∷ 0x00 ∷ 0x00 ∷ []))))

-- What was written, with its length as `*outlen`.
pub written : List ℕ → Packed
written bytes = if ltb (length bytes) (2 ^ 31) then packed bytes else out_of_range

-- `int len = srclen - 18` is negative below 18, and is then stored to a byte. A source from 2^31 bytes on
-- has no `srclen`.
pub pack : List ℕ → Packed
pack src =
    if leb (2 ^ 31) (length src)
    then out_of_range
    else if ltb (length src) 18
    then written (frame 0 ((length src + 256 - 18) % 256) src)
    else elim (count_loop (length src) (length src - 18) 0) [
      | none ↦ stuck
      | some (padding, len) ↦ if len == 0 then assertion_failed else written (frame padding len src)
    ]
