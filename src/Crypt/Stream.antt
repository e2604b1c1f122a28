-- ===== src/Crypt/Stream.antt =====
-- Decryption undoes encryption, byte by byte and in step.
use swat4master.Prelude.{◌≡◌, refl, ℕ, List, [], ◌∷◌}
use swat4master.Prelude.Bits.{xor_cancel}
use swat4master.Crypt.State.{
  CipherState, stir, first_pad, second_pad, encrypt_byte, decrypt_byte, encrypt_bytes,
  decrypt_bytes,
}

-- Decrypting an encrypted byte from the same state gives the byte and the same next state.
pub decrypt_byte-encrypt_byte :
    (s : CipherState) (b : ℕ) → decrypt_byte s (encrypt_byte s b).0 ≡ (b, (encrypt_byte s b).1)
unfolding decrypt_byte encrypt_byte
decrypt_byte-encrypt_byte s b = let t = stir s in rw (xor_cancel b (first_pad t) (second_pad t))

pub decrypt_bytes-encrypt_bytes :
    (s : CipherState) (plain : List ℕ)
    → decrypt_bytes s (encrypt_bytes s plain).0 ≡ (plain, (encrypt_bytes s plain).1)
unfolding decrypt_bytes encrypt_bytes
decrypt_bytes-encrypt_bytes s [] = refl
decrypt_bytes-encrypt_bytes s (b ∷ rest) =
    rw (decrypt_byte-encrypt_byte s b) (rw (decrypt_bytes-encrypt_bytes (encrypt_byte s b).1 rest))
