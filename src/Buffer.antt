-- ===== src/Buffer.antt =====
-- lib/buffer.h and lib/buffer.cc: the receive buffer of a connection. The array `m_Data` is the
-- list `memory`, all of its 262144 bytes, and `m_DataAvailable` is `available`. A failed assertion
-- is `none`.
pub mod Laws
pub mod Tests
use openrom.Base.{
  ℕ, ◌+◌, ◌-◌, ◌≤◌, ◌<◌, ◌≡◌, List, ◌++◌, Option, none, some, length, take, drop, ltb, leb,
  if◌then◌else◌,
}

abbrev pub s_buffer_size : ℕ
s_buffer_size = 262144

pub record Buffer : Type 0 where
  pub memory : List ℕ
  pub available : ℕ

-- The constructor allocates the array and leaves its bytes as they are.
pub new_buffer : List ℕ → Buffer
new_buffer memory = record { memory = memory; available = 0 }

-- `memcpy` and `memmove` to the place `at`.
pub copy_to : List ℕ → ℕ → List ℕ → List ℕ
copy_to memory at bytes = take at memory ++ (bytes ++ drop (at + length bytes) memory)

-- `none` is the answer false, which leaves the buffer alone.
pub add_data : Buffer → List ℕ → Option Buffer
add_data b bytes =
    if leb s_buffer_size (b.available + length bytes)
    then none
    else some (record {
      memory = copy_to b.memory b.available bytes;
      available = b.available + length bytes;
    })

-- `none` is the failed assertion.
pub flush_data : Buffer → ℕ → Option Buffer
flush_data b len =
    if ltb b.available len
    then none
    else let left = b.available - len in
      some
        (record { memory = copy_to b.memory 0 (take left (drop len b.memory)); available = left })

-- The pointer that the method returns is to the start of the array.
pub peek_data : Buffer → ℕ → Option (List ℕ)
peek_data b len = if ltb b.available len then none else some b.memory

unfoldable pub get_amount_of_data_available : Buffer → ℕ
get_amount_of_data_available b = b.available

-- The bytes that wait in the buffer, oldest first.
abbrev pub contents : Buffer → List ℕ
contents b = take b.available b.memory

pub record IsValid (b : Buffer) : Type 0 where
  pub allocated : length b.memory ≡ s_buffer_size
  pub in_range : b.available < s_buffer_size
