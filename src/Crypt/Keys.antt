-- ===== src/Crypt/Keys.antt =====
-- The two crypt keys agree, and `Decrypt` finds the parts of a payload where `Encrypt` put them.
use mathlib.Core.List.{append_assoc}
use swat4master.Prelude.{
  ◌≡◌, refl, sym, ap, ◌∙◌, ℕ, zero, suc, ◌+◌, ◌-◌, ◌<◌, bit_xor, some, List, [], ◌∷◌, ◌++◌, arith,
  length, get_or, set, take, drop, drop-append, take-append, take-length, length-append, lt→ltb,
  le→leb,
}
use swat4master.Prelude.Options.{◌>>=◌}
use swat4master.Crypt.{
  schl, hdrl, random_header, mix_at, mix_key, unmix_key, encrypt, decrypt, index, slice_between,
}
use swat4master.Crypt.State.{new_cipher_state, encrypt_bytes, decrypt_bytes}
use swat4master.Crypt.Stream.{decrypt_bytes-encrypt_bytes}
use swat4master.Crypt.Deck.{new_cipher_state_total}

get_or-append : (pre : List ℕ) (b : ℕ) (rest : List ℕ) → get_or (pre ++ b ∷ rest) (length pre) 0 ≡ b
get_or-append [] b rest = refl
get_or-append (x ∷ pre) b rest = get_or-append pre b rest

-- The loop over indices does what the loop over bytes does.
pub unmix_key-eq-mix_key :
    (pre svr secret key : List ℕ) (i : ℕ)
    → i ≡ length pre
    → unmix_key (length svr) i secret key (pre ++ svr) ≡ mix_key i secret key svr
unfolding unmix_key mix_key
unmix_key-eq-mix_key pre [] secret key i h = refl
unmix_key-eq-mix_key pre (b ∷ rest) secret key i h =
    let here : get_or (pre ++ b ∷ rest) i 0 ≡ b = rw h (get_or-append pre b rest) in
    let split : pre ++ b ∷ rest ≡ (pre ++ b ∷ []) ++ rest = sym (append_assoc pre (b ∷ []) rest) in
    ap (λ c. unmix_key (length rest) (suc i) secret (mix_at i secret key c) (pre ++ b ∷ rest)) here
    ∙ ap (unmix_key (length rest) (suc i) secret (mix_at i secret key b)) split
    ∙ unmix_key-eq-mix_key (pre ++ b ∷ []) rest secret (mix_at i secret key b) (suc i)
        (omega (arith, length-append pre (b ∷ [])))

index-append :
    (front rest : List ℕ) (i : ℕ)
    → i < length front
    → index (front ++ rest) i ≡ some (get_or front i 0)
unfolding index
index-append [] rest i h = elim h [ ]
index-append (x ∷ front) rest zero h = rw (lt→ltb 0 (length (x ∷ front ++ rest)) (omega arith))
index-append (x ∷ front) rest (suc i) h = ground (arith, index-append front rest i (omega arith))

-- The slice between two parts is the part in the middle.
slice_between-append :
    (front mid rest : List ℕ)
    → slice_between (front ++ (mid ++ rest)) (length front) (length front + length mid) ≡ some mid
unfolding slice_between
slice_between-append front mid rest =
    let width : length front + length mid - length front ≡ length mid = omega arith in
    rw (
      le→leb (length front) (length front + length mid) (omega arith),
      le→leb (length front + length mid) (length (front ++ (mid ++ rest)))
          (omega (arith, length-append front (mid ++ rest), length-append mid rest)),
      width,
      drop-append front (mid ++ rest),
      take-append mid rest,
    )

slice_between-tail :
    (front rest : List ℕ)
    → slice_between (front ++ rest) (length front) (length (front ++ rest)) ≡ some rest
unfolding slice_between
slice_between-tail front rest =
    let total = length-append front rest in
    let width : length (front ++ rest) - length front ≡ length rest = omega (arith, total) in
    rw (
      le→leb (length front) (length (front ++ rest)) (omega (arith, total)),
      le→leb (length (front ++ rest)) (length (front ++ rest)) (omega arith),
      width,
      drop-append front rest,
      take-length rest,
    )

-- How `Decrypt` reads a payload of a 9 byte front, a 14 byte challenge and a ciphertext.
decrypt-framed :
    (secret challenge front svr cipher : List ℕ)
    → length front ≡ 9
    → length svr ≡ schl
    → get_or front 0 0 ≡ 0xeb
    → get_or front 8 0 ≡ bit_xor schl 0xea
    → decrypt secret challenge (front ++ (svr ++ cipher)) ≡ (do
      state ← new_cipher_state (mix_key 0 secret challenge svr)
      some (decrypt_bytes state cipher).0)
unfolding decrypt
decrypt-framed secret challenge front svr cipher nine fourteen first marker =
    let payload = front ++ (svr ++ cipher) in
    let at0 : index payload 0 ≡ some 0xeb =
      index-append front (svr ++ cipher) 0 (omega arith) ∙ ap some first in
    let at8 : index payload 8 ≡ some (bit_xor schl 0xea) =
      index-append front (svr ++ cipher) 8 (omega arith) ∙ ap some marker in
    let mid : slice_between payload 9 23 ≡ some svr =
      rw (nine, fourteen) at (slice_between-append front svr cipher) in
    let total : length (front ++ svr) ≡ 23 = omega (arith, length-append front svr) in
    let tail : slice_between payload 23 (length payload) ≡ some cipher =
      rw (total, append_assoc front svr cipher) at (slice_between-tail (front ++ svr) cipher) in
    let keys : unmix_key 14 0 secret challenge svr ≡ mix_key 0 secret challenge svr =
      rw fourteen at (unmix_key-eq-mix_key [] svr secret challenge 0 refl) in
    rw (at0, at8, mid, tail, keys)

-- Encryption never fails, and decryption with the same secret and challenge gives the plain text
-- back, whatever the secret, the challenge and the random bytes.
pub decrypt-encrypt :
    (secret challenge : List ℕ) (noise : ℕ → ℕ) (plain : List ℕ)
    → (payload : List ℕ) × (encrypt secret challenge noise plain ≡ some payload)
      × (decrypt secret challenge payload ≡ some plain)
unfolding encrypt random_header
decrypt-encrypt secret challenge noise plain =
    let head = random_header hdrl 0 secret challenge noise in
    let marked = set (set (set (set head 0 0xeb) 1 0) 2 0) 8 (bit_xor schl 0xea) in
    let svr = drop 9 head in
    let (state, ready, _) = new_cipher_state_total (mix_key 0 secret challenge svr) in
    let cipher = (encrypt_bytes state plain).0 in
    (
      marked ++ cipher,
      rw (ready, encrypt),
      decrypt-framed secret challenge (take 9 marked) svr cipher refl refl refl refl
          ∙ rw ready (ap (λ r. some r.0) (decrypt_bytes-encrypt_bytes state plain)),
    )
