-- ===== src/Crypt.antt =====
-- pkg/gamespy/crypt: the stream cipher of the server browser. A byte is a number below 256, an
-- array a list, and `none` a run-time panic of Go or a loop that has used up its fuel.
pub mod State
pub mod Deck
pub mod Shuffle
pub mod Stream
pub mod Keys
mod Examples
use swat4master.Prelude.{
  ℕ, zero, suc, ◌+◌, ◌-◌, ◌*◌, ◌%◌, bit_and, bit_xor, Bool, ◌&&◌, Option, none, some, List, [], ◌∷◌,
  ◌++◌, length, get_or, set, take, drop, leb, ltb, if◌then◌else◌,
}
use swat4master.Prelude.Options.{◌>>=◌}
use State.{new_cipher_state, encrypt_bytes, decrypt_bytes}

-- game secret, server challenge, client challenge and header lengths
abbrev pub gmsl : ℕ
gmsl = 6

abbrev pub schl : ℕ
schl = 14

abbrev pub cchl : ℕ
cchl = 8

abbrev pub hdrl : ℕ
hdrl = 9 + schl

-- `noise i` is what the i-th call of `random.RandInt(1, 255)` returned.
unfoldable pub random_header : ℕ → ℕ → List ℕ → List ℕ → (ℕ → ℕ) → List ℕ
random_header zero i secret challenge noise = []
random_header (suc left) i secret challenge noise =
    bit_xor (bit_xor (noise i % 256) (get_or secret (i % gmsl) 0)) (get_or challenge (i % cchl) 0)
    ∷ random_header left (suc i) secret challenge noise

-- The body of both loops over the server challenge: `b` is its i-th byte.
unfoldable pub mix_at : ℕ → List ℕ → List ℕ → ℕ → List ℕ
mix_at i secret key b =
    let k = (i * get_or secret (i % gmsl) 0) % 256 % cchl in
    let mixed = bit_and (bit_xor (get_or key (i % cchl) 0) b) 0xff in
    set key k (bit_xor (get_or key k 0) mixed)

-- The crypt key of `Encrypt`: a loop over the bytes of the server challenge.
unfoldable pub mix_key : ℕ → List ℕ → List ℕ → List ℕ → List ℕ
mix_key i secret key [] = key
mix_key i secret key (b ∷ rest) = mix_key (suc i) secret (mix_at i secret key b) rest

-- The crypt key of `Decrypt`: a loop over the indices of the server challenge.
unfoldable pub unmix_key : ℕ → ℕ → List ℕ → List ℕ → List ℕ → List ℕ
unmix_key zero i secret key svr_challenge = key
unmix_key (suc left) i secret key svr_challenge =
    unmix_key left (suc i) secret (mix_at i secret key (get_or svr_challenge i 0)) svr_challenge

unfoldable pub encrypt : List ℕ → List ℕ → (ℕ → ℕ) → List ℕ → Option (List ℕ)
encrypt secret challenge noise plain =
    let head = random_header hdrl 0 secret challenge noise in
    let key = mix_key 0 secret challenge (drop 9 head) in
    let marked = set (set (set (set head 0 0xeb) 1 0) 2 0) 8 (bit_xor schl 0xea) in
    elim (new_cipher_state key) [
      | none ↦ none
      | some state ↦ some (marked ++ (encrypt_bytes state plain).0)
    ]

-- `s[lo:hi]`, which panics unless lo ≤ hi ≤ cap(s). The capacity is taken to be the length.
unfoldable pub slice_between : List ℕ → ℕ → ℕ → Option (List ℕ)
slice_between bytes lo hi =
    if leb lo hi && leb hi (length bytes) then some (take (hi - lo) (drop lo bytes)) else none

-- `s[i]`, which panics out of range
unfoldable pub index : List ℕ → ℕ → Option ℕ
index bytes i = if ltb i (length bytes) then some (get_or bytes i 0) else none

unfoldable pub decrypt : List ℕ → List ℕ → List ℕ → Option (List ℕ)
decrypt secret client_challenge payload = do
  first ← index payload 0
  let offset = (bit_xor first 0xec + 2) % 256
  marker ← index payload ((offset + 255) % 256)
  let len = bit_xor marker 0xea
  svr_challenge ← slice_between payload offset ((offset + len) % 256)
  let key = unmix_key len 0 secret client_challenge svr_challenge
  ciphertext ← slice_between payload ((offset + len) % 256) (length payload)
  state ← new_cipher_state key
  some (decrypt_bytes state ciphertext).0
