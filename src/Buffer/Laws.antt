-- ===== src/Buffer/Laws.antt =====
-- The buffer of lib/buffer.cc is a queue of bytes with a bounded length.
use openrom.Base.{
  ℕ, ◌+◌, ◌-◌, ◌≤◌, ◌<◌, ◌≡◌, sym, subst, ◌∙◌, ◌⊎◌, inl, inr, List, ◌++◌, none, some, arith, length,
  take, drop, leb, length-append, length-take, length-drop, take-append_eq, drop-take, le→ltb,
  Bool-cases, append_assoc,
}
use openrom.Buffer.{
  Buffer, s_buffer_size, copy_to, add_data, flush_data, peek_data, contents, IsValid,
}

pub length-contents : (b : Buffer) → IsValid b → length (contents b) ≡ b.available
length-contents b v = omega (arith, length-take b.available b.memory, v.allocated, v.in_range)

length-copy_to :
    (memory : List ℕ) (at : ℕ) (bytes : List ℕ)
    → at + length bytes ≤ length memory
    → length (copy_to memory at bytes) ≡ length memory
unfolding copy_to
length-copy_to memory at bytes h = omega (
  arith,
  length-append {0} (take at memory) (bytes ++ drop (at + length bytes) memory),
  length-append {0} bytes (drop (at + length bytes) memory),
  length-take at memory,
  length-drop (at + length bytes) memory,
)

-- The first bytes after a copy: what stood below the place, and the copied bytes.
take-copy_to :
    (memory : List ℕ) (at : ℕ) (bytes : List ℕ)
    → at ≤ length memory
    → take (at + length bytes) (copy_to memory at bytes) ≡ take at memory ++ bytes
unfolding copy_to
take-copy_to memory at bytes h =
    rw (← append_assoc (take at memory) bytes (drop (at + length bytes) memory)) (
      take-append_eq (at + length bytes) (take at memory ++ bytes) _
        (omega (arith, length-append {0} (take at memory) bytes, length-take at memory)))

-- On a well-formed buffer `AddData` appends to the waiting bytes and keeps the buffer well formed, and it refuses exactly
-- when the bytes would fill the array or more.
pub add_data_lem :
    (b : Buffer) (bytes : List ℕ)
    → IsValid b
    → ((add_data b bytes ≡ none) × (s_buffer_size ≤ length (contents b) + length bytes))
      ⊎ ((b' : Buffer) × (add_data b bytes ≡ some b')
          × IsValid b'
          × (contents b' ≡ contents b ++ bytes))
unfolding add_data
add_data_lem b bytes v = elim (Bool-cases (leb s_buffer_size (b.available + length bytes))) [
  | inl full ↦ inl (rw full, ground (arith, length-contents b v))
  | inr fits ↦ inr (
    record { memory = copy_to b.memory b.available bytes; available = b.available + length bytes },
    rw fits,
    record {
      allocated = ground (arith, v.allocated, length-copy_to b.memory b.available bytes);
      in_range = ground arith;
    },
    take-copy_to b.memory b.available bytes (omega (arith, v.allocated, v.in_range)),
  )
]

-- On a well-formed buffer in which enough bytes wait, `FlushData` drops the oldest ones and keeps the
-- buffer well formed.
pub flush_data_lem :
    (b : Buffer) (len : ℕ)
    → IsValid b
    → len ≤ length (contents b)
    → (b' : Buffer) × (flush_data b len ≡ some b')
      × IsValid b'
      × (contents b' ≡ drop len (contents b))
unfolding flush_data copy_to
flush_data_lem b len v h = (
  record {
    memory = copy_to b.memory 0 (take (b.available - len) (drop len b.memory));
    available = b.available - len;
  },
  rw (le→ltb b.available len enough),
  record {
    allocated = ground (arith, v.allocated, length-copy_to b.memory 0 kept, length-kept);
    in_range = omega (arith, v.in_range);
  },
  take-append_eq (b.available - len) kept _ (sym length-kept) ∙ sym waiting,
)
  where
    enough : len ≤ b.available
    enough = omega (arith, length-contents b v)

    kept : List ℕ
    kept = take (b.available - len) (drop len b.memory)

    length-kept : length kept ≡ b.available - len
    length-kept = omega (
      arith,
      length-take (b.available - len) (drop len b.memory),
      length-drop len b.memory,
      v.allocated,
      v.in_range,
    )

    waiting : drop len (take b.available b.memory) ≡ kept
    waiting =
        subst (λ n. drop len (take n b.memory) ≡ kept) (omega (arith, enough))
          (drop-take len (b.available - len) b.memory)

-- `PeekData` answers NULL when fewer bytes wait, and the start of the array otherwise.
pub peek_data_short :
    (b : Buffer) (len : ℕ) → IsValid b → length (contents b) < len → peek_data b len ≡ none
unfolding peek_data
peek_data_short b len v h = ground (arith, length-contents b v)

pub peek_data_enough :
    (b : Buffer) (len : ℕ) → IsValid b → len ≤ length (contents b) → peek_data b len ≡ some b.memory
unfolding peek_data
peek_data_enough b len v h = ground (arith, length-contents b v)

pub peek_data-some :
    (b : Buffer) (len : ℕ) {memory : List ℕ}
    → IsValid b
    → peek_data b len ≡ some memory
    → (len ≤ length (contents b)) × (memory ≡ b.memory)
unfolding peek_data
peek_data-some b len v h = ground (arith, length-contents b v)
