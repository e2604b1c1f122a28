-- ===== src/Crypt/State.antt =====
-- pkg/gamespy/crypt/state.go: the cipher's state, its key schedule and its two byte operations.
use swat4master.Prelude.{
  ℕ, zero, suc, ◌+◌, ◌*◌, ◌%◌, bit_and, bit_xor, true, false, Option, none, some, List, [], ◌∷◌,
  get_or, set, ltb, leb, if◌then◌else◌,
}

pub record CipherState : Type 0 where
  pub cards : List ℕ
  pub rotor : ℕ
  pub ratchet : ℕ
  pub avalanche : ℕ
  pub last_plain : ℕ
  pub last_cipher : ℕ

abbrev pub crtl : ℕ
crtl = 8

-- `for mask < limit { mask = (mask << 1) + 1 }` on a byte, with at most so many looks at the test;
-- `none` if the loop has not ended by then.
unfoldable pub fill_mask : ℕ → ℕ → ℕ → Option ℕ
fill_mask zero limit mask = none
fill_mask (suc fuel) limit mask = elim (ltb mask limit) [
  | true ↦ fill_mask fuel limit ((mask * 2 + 1) % 256)
  | false ↦ some mask
]

-- One round of the loop of `shuffle`: the drawn position, and the new `rsum` and `keypos`.
unfoldable pub draw_round : List ℕ → List ℕ → ℕ → ℕ → ℕ → ℕ → ℕ → ℕ × ℕ × ℕ
draw_round cards key limit mask rsum keypos retries =
    let sum = (get_or cards rsum 0 + get_or key keypos 0) % 256 in
    let wraps = leb crtl (keypos + 1) in
    let keypos' = if wraps then 0 else keypos + 1 in
    let rsum' = if wraps then (sum + crtl) % 256 else sum in
    let masked = bit_and mask rsum' in
    let u = if ltb 11 (retries + 1) then masked % limit else masked in (u, rsum', keypos')

-- The loop of `shuffle`, which is left when the drawn position is in range.
unfoldable pub draw : ℕ → List ℕ → List ℕ → ℕ → ℕ → ℕ → ℕ → ℕ → Option (ℕ × ℕ × ℕ)
draw zero cards key limit mask rsum keypos retries = none
draw (suc fuel) cards key limit mask rsum keypos retries =
    let round = draw_round cards key limit mask rsum keypos retries in
    elim (leb round.0 limit) [
      | true ↦ some round
      | false ↦ draw fuel cards key limit mask round.1 round.2 (retries + 1)
    ]

abbrev pub draw_masked : List ℕ → List ℕ → ℕ → ℕ → ℕ → Option ℕ → Option (ℕ × ℕ × ℕ)
draw_masked cards key limit rsum keypos none = none
draw_masked cards key limit rsum keypos (some mask) = draw 12 cards key limit mask rsum keypos 0

-- The mask has 8 bits, and the loop behind it at most 12 rounds.
unfoldable pub shuffle : List ℕ → List ℕ → ℕ → ℕ → ℕ → Option (ℕ × ℕ × ℕ)
shuffle cards key zero rsum keypos = some (0, rsum, keypos)
shuffle cards key (suc limit) rsum keypos =
    draw_masked cards key (suc limit) rsum keypos (fill_mask 8 (suc limit) 1)

-- `cards[i], cards[j] = cards[j], cards[i]`
unfoldable pub swap_cards : List ℕ → ℕ → ℕ → List ℕ
swap_cards cards i j = set (set cards i (get_or cards j 0)) j (get_or cards i 0)

-- `for i := 255; i >= 0; i--`, with `i + 1` rounds left
unfoldable pub deal : ℕ → List ℕ → List ℕ → ℕ → ℕ → Option (List ℕ × ℕ)
deal zero key cards rsum keypos = some (cards, rsum)
deal (suc i) key cards rsum keypos = elim (shuffle cards key i rsum keypos) [
  | none ↦ none
  | some (toswap, rsum', keypos') ↦ deal i key (swap_cards cards i toswap) rsum' keypos'
]

unfoldable pub count_up : ℕ → ℕ → List ℕ
count_up zero i = []
count_up (suc left) i = i ∷ count_up left (suc i)

-- all 256 cards in order
unfoldable pub fresh_deck : List ℕ
unfolding count_up
fresh_deck = count_up 256 0

abbrev pub started : List ℕ → ℕ → CipherState
started cards rsum = record {
  cards = cards;
  rotor = get_or cards 1 0;
  ratchet = get_or cards 3 0;
  avalanche = get_or cards 5 0;
  last_plain = get_or cards 7 0;
  last_cipher = get_or cards rsum 0;
}

unfoldable pub new_cipher_state : List ℕ → Option CipherState
new_cipher_state key = elim (deal 256 key fresh_deck 0 0) [
  | none ↦ none
  | some (cards, rsum) ↦ some (started cards rsum)
]

-- The part that `encryptByte` and `decryptByte` have in common: move the indices and five cards.
unfoldable pub stir : CipherState → CipherState
stir s =
    let ratchet' = (s.ratchet + get_or s.cards s.rotor 0) % 256 in
    let rotor' = (s.rotor + 1) % 256 in
    let swaptemp = get_or s.cards s.last_cipher 0 in
    let cards1 = set s.cards s.last_cipher (get_or s.cards ratchet' 0) in
    let cards2 = set cards1 ratchet' (get_or cards1 s.last_plain 0) in
    let cards3 = set cards2 s.last_plain (get_or cards2 rotor' 0) in
    let cards4 = set cards3 rotor' swaptemp in
    record s {
      cards = cards4;
      rotor = rotor';
      ratchet = ratchet';
      avalanche = (s.avalanche + get_or cards4 swaptemp 0) % 256;
    }

-- the two bytes that the state puts out, `c` and `d`
abbrev pub first_pad : CipherState → ℕ
first_pad s =
    let at = get_or s.cards s.avalanche 0 + get_or s.cards s.rotor 0 in
    get_or s.cards (bit_and (at % 256) 0xff) 0

abbrev pub second_pad : CipherState → ℕ
second_pad s =
    let sum =
      get_or s.cards s.last_plain 0 + get_or s.cards s.last_cipher 0 + get_or s.cards s.ratchet 0 in
    get_or s.cards (get_or s.cards (bit_and (sum % 256) 0xff) 0) 0

unfoldable pub encrypt_byte : CipherState → ℕ → ℕ × CipherState
encrypt_byte s b =
    let t = stir s in
    let cipher = bit_xor (bit_xor b (first_pad t)) (second_pad t) in
    (cipher, record t { last_cipher = cipher; last_plain = b })

unfoldable pub decrypt_byte : CipherState → ℕ → ℕ × CipherState
decrypt_byte s b =
    let t = stir s in
    let plain = bit_xor (bit_xor b (first_pad t)) (second_pad t) in
    (plain, record t { last_plain = plain; last_cipher = b })

unfoldable pub encrypt_bytes : CipherState → List ℕ → List ℕ × CipherState
encrypt_bytes s [] = ([], s)
encrypt_bytes s (b ∷ rest) =
    let (c, s') = encrypt_byte s b in let (cs, s'') = encrypt_bytes s' rest in (c ∷ cs, s'')

unfoldable pub decrypt_bytes : CipherState → List ℕ → List ℕ × CipherState
decrypt_bytes s [] = ([], s)
decrypt_bytes s (b ∷ rest) =
    let (p, s') = decrypt_byte s b in let (ps, s'') = decrypt_bytes s' rest in (p ∷ ps, s'')
