-- ===== src/Buffer/Tests.antt =====
-- The laws of the buffer of lib/buffer.cc at concrete inputs. A buffer of its size is not computed.
use openrom.Base.{
  ℕ, ◌+◌, ◌-◌, ◌≤◌, ◌<◌, ◌≡◌, refl, ◌⊎◌, List, [], ◌∷◌, ◌++◌, none, some, arith, length, replicate,
  length-append, length-replicate, take-append_eq,
}
use openrom.Buffer.{Buffer, s_buffer_size, add_data, contents, IsValid}
use openrom.Buffer.Laws.{add_data_lem}

-- A buffer in which the bytes wait.
pub filled : List ℕ → Buffer
filled bytes = record {
  memory = bytes ++ replicate (s_buffer_size - length bytes) 0;
  available = length bytes;
}

pub filled-IsValid : (bytes : List ℕ) → length bytes < s_buffer_size → IsValid (filled bytes)
unfolding filled
filled-IsValid bytes small = record {
  allocated = omega (
    arith,
    length-append {0} bytes (replicate (s_buffer_size - length bytes) 0),
    length-replicate {A = ℕ} (s_buffer_size - length bytes) 0,
  );
  in_range = small;
}

pub contents-filled : (bytes : List ℕ) → contents (filled bytes) ≡ bytes
unfolding filled
contents-filled bytes = take-append_eq (length bytes) bytes _ refl

abbrev waiting : Buffer
waiting = filled (1 ∷ 2 ∷ 3 ∷ [])

waiting-IsValid : IsValid waiting
waiting-IsValid = filled-IsValid (1 ∷ 2 ∷ 3 ∷ []) (omega arith)

add_data_lem_example :
    ((add_data waiting (4 ∷ []) ≡ none) × (s_buffer_size ≤ length (contents waiting) + 1))
    ⊎ ((b' : Buffer) × (add_data waiting (4 ∷ []) ≡ some b')
        × IsValid b'
        × (contents b' ≡ contents waiting ++ (4 ∷ [])))
add_data_lem_example = add_data_lem waiting (4 ∷ []) waiting-IsValid
