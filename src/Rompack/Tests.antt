-- ===== src/Rompack/Tests.antt =====
-- Runs of lib/rompack.cc, and the theorems at concrete inputs.
use openrom.Base.{ℕ, ◌≡◌, refl, List, [], ◌∷◌, true, arith, replicate}
use openrom.Rompack.{
  done, packed, assertion_failed, unpack, pack, start, run, step, try_standard, try_alternative,
  try_command, handle_offset_count, literals, command_short, command_long, handle_count, copy_input,
  copy_output, copy_from, read_u16, match_output, frame, count_loop,
}
use openrom.Rompack.Bounds.{IsBounded, unpack-IsBounded}
use openrom.Rompack.RoundTrip.{unpack-pack}

-- Nineteen bytes, the least that `Pack` takes without a failed assertion.
abbrev nineteen : List ℕ
nineteen = 5 ∷ 0 ∷ replicate 17 200

-- Four literals, then three copies of the last byte, and the end of the stream.
abbrev repeated : List ℕ
repeated = 1 ∷ 10 ∷ 20 ∷ 30 ∷ 40 ∷ 0x40 ∷ 0 ∷ 0x11 ∷ 0 ∷ 0 ∷ []

unpack-repeated : unpack repeated ≡ done true (10 ∷ 20 ∷ 30 ∷ 40 ∷ 40 ∷ 40 ∷ 40 ∷ [])
unfolding unpack start run step try_standard try_alternative try_command handle_offset_count
    literals command_short command_long handle_count copy_input copy_output copy_from read_u16
    match_output
unpack-repeated = refl

pack_eighteen : pack (replicate 18 1) ≡ assertion_failed
unfolding pack count_loop frame
pack_eighteen = refl

unpack-pack_example :
    (bytes : List ℕ) × (pack nineteen ≡ packed bytes) × (unpack bytes ≡ done true nineteen)
unpack-pack_example = unpack-pack nineteen (omega arith) (omega arith)

unpack-IsBounded_example : IsBounded (18 ∷ 4 ∷ 17 ∷ []) (unpack (18 ∷ 4 ∷ 17 ∷ []))
unpack-IsBounded_example =
    unpack-IsBounded (18 ∷ 4 ∷ 17 ∷ []) (omega arith, (omega arith, (omega arith, tt)))
