-- ===== src/Packet/Cipher.antt =====
-- The byte cipher of lib/romconnection.cc: its two directions are inverse on bytes.
use openrom.Base.{
  ℕ, ◌+◌, ◌-◌, ◌*◌, ◌/◌, ◌%◌, ◌<◌, ◌≡◌, ◌⊎◌, inl, inr, refl, ap, ap₂, ◌∙◌, arith, bit_xor, List, [],
  ◌∷◌, map, length, take, drop, All, length-map, length-append, take-append-drop, take_all,
  drop_all, append-nil,
}
use openrom.Base.Bits.{bit_xor_cancel, bit_xor_mod, bit_xor-lt}
use openrom.Packet.{encrypt_byte, decrypt_byte, encrypt, decrypt, IsByte}

-- `decrypt_byte` undoes the exclusive or on what differs from its result by a multiple of 256.
xor_back : (b key c : ℕ) → b < 256 → bit_xor (bit_xor b key + c * 256) key % 256 ≡ b
xor_back b key c hb = bit_xor_mod 8 (bit_xor b key) c key ∙ rw (bit_xor_cancel b key) (omega arith)

wrap_back :
    (x key : ℕ)
    → x < 256
    → key < 256
    → ((x + 256 - key) % 256 + key ≡ x + 0 * 256) ⊎ ((x + 256 - key) % 256 + key ≡ x + 1 * 256)
wrap_back x key hx hk = ground arith

pub decrypt_byte-encrypt_byte :
    (key b : ℕ) → IsByte key → IsByte b → decrypt_byte key (encrypt_byte key b) ≡ b
unfolding decrypt_byte encrypt_byte
decrypt_byte-encrypt_byte key b hk hb =
    elim (wrap_back (bit_xor b key) key (bit_xor-lt 8 b key hb hk) hk) [
      | inl e ↦ rw e (xor_back b key 0 hb)
      | inr e ↦ rw e (xor_back b key 1 hb)
    ]

low_byte_xor : (x key : ℕ) → key < 256 → bit_xor (x % 256) key ≡ bit_xor x key % 256
low_byte_xor x key hk = omega (
  arith,
  bit_xor-lt 8 (x % 256) key (omega arith) hk,
  bit_xor_mod 8 (x % 256) (x / 256) key,
  ap (λ (t : ℕ). bit_xor t key) (whole x),
)
  where
    whole : (x : ℕ) → x % 256 + x / 256 * 256 ≡ x
    whole x = omega arith

pub encrypt_byte-decrypt_byte :
    (key b : ℕ) → IsByte key → IsByte b → encrypt_byte key (decrypt_byte key b) ≡ b
unfolding decrypt_byte encrypt_byte
encrypt_byte-decrypt_byte key b hk hb =
    rw (low_byte_xor (bit_xor (b + key) key) key hk, bit_xor_cancel (b + key) key) (omega arith)

pub decrypt_byte-lt : (key b : ℕ) → decrypt_byte key b < 256
unfolding decrypt_byte
decrypt_byte-lt key b = omega arith

pub encrypt_byte-lt : (key b : ℕ) → encrypt_byte key b < 256
unfolding encrypt_byte
encrypt_byte-lt key b = omega arith

pub map_back :
    (key : ℕ) (bytes : List ℕ)
    → IsByte key
    → All IsByte bytes
    → map (decrypt_byte key) (map (encrypt_byte key) bytes) ≡ bytes
map_back key [] hk h = refl
map_back key (b ∷ bs) hk h =
    ap₂ ◌∷◌ (decrypt_byte-encrypt_byte key b hk h.0) (map_back key bs hk h.1)

pub length-encrypt : (key n : ℕ) (bytes : List ℕ) → length (encrypt key n bytes) ≡ length bytes
unfolding encrypt
length-encrypt key n bytes = omega (
  arith,
  length-append {0} (map (encrypt_byte key) (take n bytes)) (drop n bytes),
  length-map (encrypt_byte key) (take n bytes),
  length-append {0} (take n bytes) (drop n bytes),
  ap length (take-append-drop n bytes),
)

-- Decryption of all of the data, under the byte that encrypted it, gives the bytes back.
pub decrypt-encrypt :
    (key n : ℕ) (bytes : List ℕ)
    → IsByte key
    → n ≡ length bytes
    → All IsByte bytes
    → decrypt key n (encrypt key n bytes) ≡ bytes
unfolding decrypt encrypt
decrypt-encrypt key n bytes hk e h =
    rw
      (
        take_all n bytes (omega arith),
        drop_all n bytes (omega arith),
        append-nil,
        take_all n (map (encrypt_byte key) bytes)
            (omega (arith, length-map (encrypt_byte key) bytes)),
        drop_all n (map (encrypt_byte key) bytes)
            (omega (arith, length-map (encrypt_byte key) bytes)),
        append-nil,
      )
      (map_back key bytes hk h)

pub encrypted-IsBytes : (key : ℕ) (bytes : List ℕ) → All IsByte (map (encrypt_byte key) bytes)
encrypted-IsBytes key [] = tt
encrypted-IsBytes key (b ∷ bs) = (encrypt_byte-lt key b, encrypted-IsBytes key bs)
