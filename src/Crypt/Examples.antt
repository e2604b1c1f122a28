-- ===== src/Crypt/Examples.antt =====
-- Runs of the cipher.
use swat4master.Prelude.{◌≡◌, ℕ, ◌+◌, some, List, [], ◌∷◌}
use swat4master.Crypt.{encrypt, decrypt}
use swat4master.Crypt.State.{CipherState, new_cipher_state}
use swat4master.Crypt.Deck.{IsReady, new_cipher_state_total}
use swat4master.Crypt.Keys.{decrypt-encrypt}

-- "tG3j8c"
abbrev game_secret : List ℕ
game_secret = 0x74 ∷ 0x47 ∷ 0x33 ∷ 0x6a ∷ 0x38 ∷ 0x63 ∷ []

abbrev client_challenge : List ℕ
client_challenge = 1 ∷ 2 ∷ 3 ∷ 4 ∷ 5 ∷ 6 ∷ 7 ∷ 8 ∷ []

abbrev hello : List ℕ
hello = 0x68 ∷ 0x65 ∷ 0x6c ∷ 0x6c ∷ 0x6f ∷ []

decrypt-encrypt_example :
    (payload : List ℕ) × (encrypt game_secret client_challenge (λ i. 7 + i) hello ≡ some payload)
    × (decrypt game_secret client_challenge payload ≡ some hello)
decrypt-encrypt_example = decrypt-encrypt game_secret client_challenge (λ i. 7 + i) hello

new_cipher_state_total_example :
    (s : CipherState) × (new_cipher_state client_challenge ≡ some s) × IsReady s
new_cipher_state_total_example = new_cipher_state_total client_challenge
