-- ===== src/Crypt/Deck.antt =====
-- The cards stay a permutation of 0 to 255: every operation on them only exchanges cards.
use swat4master.Prelude.{
  ◌≡◌, refl, ap, ◌∙◌, ℕ, zero, suc, ◌+◌, ◌≤◌, ◌<◌, ◌%◌, Option, some, List, [], ◌∷◌, arith, dec_lt,
  length, get_or, set, length-set, ◌==◌, if◌then◌else◌,
}
use swat4master.Prelude.{bit_and}
use swat4master.Prelude.Bits.{xor_byte, and_byte}
use swat4master.Crypt.State.{
  CipherState, crtl, started, first_pad, second_pad, deal, swap_cards, count_up, fresh_deck,
  new_cipher_state, stir, encrypt_byte, decrypt_byte,
}
use swat4master.Crypt.Shuffle.{shuffle_total}

-- how often a card occurs
abbrev pub count : ℕ → List ℕ → ℕ
count a [] = 0
count a (x ∷ xs) = (if x == a then 1 else 0) + count a xs

abbrev one_if : ℕ → ℕ → ℕ
one_if x a = if x == a then 1 else 0

-- A write takes one card out and puts one in.
count-set :
    (a : ℕ) (xs : List ℕ) (i v : ℕ)
    → i < length xs
    → count a (set xs i v) + one_if (get_or xs i 0) a ≡ count a xs + one_if v a
count-set a [] i v h = elim h [ ]
count-set a (x ∷ xs) zero v h = omega arith
count-set a (x ∷ xs) (suc i) v h = omega (arith, count-set a xs i v (omega arith))

-- After `xs[i] = xs[j]` the card at `j` is what it was.
get_or-set_copy : (xs : List ℕ) (i j : ℕ) → get_or (set xs i (get_or xs j 0)) j 0 ≡ get_or xs j 0
get_or-set_copy [] i j = refl
get_or-set_copy (x ∷ xs) zero zero = refl
get_or-set_copy (x ∷ xs) zero (suc j) = refl
get_or-set_copy (x ∷ xs) (suc i) zero = refl
get_or-set_copy (x ∷ xs) (suc i) (suc j) = get_or-set_copy xs i j

count-get_or : (xs : List ℕ) (i : ℕ) → i < length xs → 0 < count (get_or xs i 0) xs
count-get_or [] i h = elim h [ ]
count-get_or (x ∷ xs) zero h = ground arith
count-get_or (x ∷ xs) (suc i) h = omega (arith, count-get_or xs i (omega arith))

count-count_up : (a left i : ℕ) → i + left ≤ a → count a (count_up left i) ≡ 0
unfolding count_up
count-count_up a zero i h = refl
count-count_up a (suc left) i h = ground (arith, count-count_up a left (suc i))

-- The cards are those of the fresh deck, each as often.
pub record IsDeck (cards : List ℕ) : Type 0 where
  pub full : length cards ≡ 256
  pub same : (a : ℕ) → count a cards ≡ count a fresh_deck

fresh_deck-IsDeck : IsDeck fresh_deck
unfolding fresh_deck count_up
fresh_deck-IsDeck = record { full = refl; same = λ a. refl }

pub card-lt : (cards : List ℕ) (i : ℕ) → IsDeck cards → i < 256 → get_or cards i 0 < 256
unfolding fresh_deck
card-lt cards i deck h = elim (dec_lt (get_or cards i 0) 256) [
  | yes small ↦ small
  | no big ↦ absurd (
      omega (
        arith,
        deck.full,
        deck.same (get_or cards i 0),
        count-get_or cards i (rw deck.full h),
        count-count_up (get_or cards i 0) 256 0 (omega arith),
      ))
]

pub swap_cards-IsDeck :
    (cards : List ℕ) (i j : ℕ) → IsDeck cards → i < 256 → j < 256 → IsDeck (swap_cards cards i j)
unfolding swap_cards
swap_cards-IsDeck cards i j deck hi hj =
    let x = get_or cards i 0 in
    let y = get_or cards j 0 in
    let moved = set cards i y in
    let full' : length moved ≡ 256 = length-set cards i y ∙ deck.full in
    record {
      full = length-set moved j x ∙ full';
      same = λ a. omega (
        arith,
        count-set a cards i y (rw deck.full hi),
        count-set a moved j x (rw full' hj),
        ap (λ t. one_if t a) (get_or-set_copy cards i j),
        deck.same a,
      );
    }

-- What `deal` makes of a deck is a deck, with a byte beside it.
abbrev Dealt : Option (List ℕ × ℕ) → Type 0
Dealt result = (d : List ℕ × ℕ) × (result ≡ some d) × IsDeck d.0 × (d.1 < 256)

deal-IsDeck :
    (left : ℕ) (key cards : List ℕ) (rsum keypos : ℕ)
    → left ≤ 256
    → IsDeck cards
    → rsum < 256
    → keypos < crtl
    → Dealt (deal left key cards rsum keypos)
unfolding deal
deal-IsDeck zero key cards rsum keypos h deck r k = ((cards, rsum), refl, deck, r)
deal-IsDeck (suc i) key cards rsum keypos h deck r k =
    let (d, e, fits, byte, inkey) = shuffle_total cards key i rsum keypos (omega arith) r k in
    let (d', e', deck', byte') =
      deal-IsDeck i key (swap_cards cards i d.0) d.1 d.2 (omega arith)
        (swap_cards-IsDeck cards i d.0 deck (omega arith) (omega arith)) byte inkey in
    (d', rw (e, deal) e', deck', byte')

-- A state whose cards are a deck and whose indices are bytes.
pub record IsReady (s : CipherState) : Type 0 where
  pub deck : IsDeck s.cards
  pub rotor : s.rotor < 256
  pub ratchet : s.ratchet < 256
  pub avalanche : s.avalanche < 256
  pub last_plain : s.last_plain < 256
  pub last_cipher : s.last_cipher < 256

-- Whatever the key, the key schedule ends, and in a state whose cards are a permutation of the bytes
-- and whose indices and last bytes are bytes.
pub new_cipher_state_total :
    (key : List ℕ) → (s : CipherState) × (new_cipher_state key ≡ some s) × IsReady s
unfolding new_cipher_state
new_cipher_state_total key =
    let (d, e, deck, byte) =
      deal-IsDeck 256 key fresh_deck 0 0 (omega arith) fresh_deck-IsDeck (omega arith)
        (omega arith) in
    (
      started d.0 d.1,
      rw (e, new_cipher_state),
      record {
        deck = deck;
        rotor = card-lt d.0 1 deck (omega arith);
        ratchet = card-lt d.0 3 deck (omega arith);
        avalanche = card-lt d.0 5 deck (omega arith);
        last_plain = card-lt d.0 7 deck (omega arith);
        last_cipher = card-lt d.0 d.1 deck byte;
      },
    )

-- Four writes in a ring, each of the card that the next one overwrites, keep a deck a deck.
ring-IsDeck :
    (cards : List ℕ) (a b c d : ℕ)
    → IsDeck cards
    → a < 256
    → b < 256
    → c < 256
    → d < 256
    → let one = set cards a (get_or cards b 0) in
      let two = set one b (get_or one c 0) in
      let three = set two c (get_or two d 0) in IsDeck (set three d (get_or cards a 0))
ring-IsDeck cards a b c d deck ha hb hc hd =
    let t = get_or cards a 0 in
    let one = set cards a (get_or cards b 0) in
    let two = set one b (get_or one c 0) in
    let three = set two c (get_or two d 0) in
    let full1 : length one ≡ 256 = length-set cards a (get_or cards b 0) ∙ deck.full in
    let full2 : length two ≡ 256 = length-set one b (get_or one c 0) ∙ full1 in
    let full3 : length three ≡ 256 = length-set two c (get_or two d 0) ∙ full2 in
    record {
      full = length-set three d t ∙ full3;
      same = λ z. omega (
        arith,
        count-set z cards a (get_or cards b 0) (rw deck.full ha),
        count-set z one b (get_or one c 0) (rw full1 hb),
        count-set z two c (get_or two d 0) (rw full2 hc),
        count-set z three d t (rw full3 hd),
        ap (λ x. one_if x z) (get_or-set_copy cards a b),
        ap (λ x. one_if x z) (get_or-set_copy one b c),
        ap (λ x. one_if x z) (get_or-set_copy two c d),
        deck.same z,
      );
    }

stir-IsReady : (s : CipherState) → IsReady s → IsReady (stir s)
unfolding stir
stir-IsReady s r = record {
  deck =
      ring-IsDeck s.cards s.last_cipher ((s.ratchet + get_or s.cards s.rotor 0) % 256) s.last_plain
        ((s.rotor + 1) % 256) r.deck r.last_cipher (omega arith) r.last_plain (omega arith);
  rotor = omega arith;
  ratchet = omega arith;
  avalanche = omega arith;
  last_plain = r.last_plain;
  last_cipher = r.last_cipher;
}

pad-lt : (cards : List ℕ) (x : ℕ) → IsDeck cards → get_or cards (bit_and (x % 256) 0xff) 0 < 256
pad-lt cards x deck =
    card-lt cards (bit_and (x % 256) 0xff) deck (and_byte (x % 256) 0xff (omega arith))

-- A byte goes in, a byte comes out, and the state stays ready; in both directions.
pub encrypt_byte-IsReady :
    (s : CipherState) (b : ℕ)
    → IsReady s
    → b < 256
    → ((encrypt_byte s b).0 < 256) × IsReady (encrypt_byte s b).1
unfolding encrypt_byte
encrypt_byte-IsReady s b r h =
    let t = stir s in
    let ready = stir-IsReady s r in
    let first : first_pad t < 256 =
      pad-lt t.cards (get_or t.cards t.avalanche 0 + get_or t.cards t.rotor 0) ready.deck in
    let second : second_pad t < 256 = card-lt t.cards _ ready.deck (pad-lt t.cards _ ready.deck) in
    let byte = xor_byte _ _ (xor_byte b (first_pad t) h first) second in
    (
      byte,
      record {
        deck = ready.deck;
        rotor = ready.rotor;
        ratchet = ready.ratchet;
        avalanche = ready.avalanche;
        last_plain = h;
        last_cipher = byte;
      },
    )

pub decrypt_byte-IsReady :
    (s : CipherState) (b : ℕ)
    → IsReady s
    → b < 256
    → ((decrypt_byte s b).0 < 256) × IsReady (decrypt_byte s b).1
unfolding decrypt_byte
decrypt_byte-IsReady s b r h =
    let t = stir s in
    let ready = stir-IsReady s r in
    let first : first_pad t < 256 =
      pad-lt t.cards (get_or t.cards t.avalanche 0 + get_or t.cards t.rotor 0) ready.deck in
    let second : second_pad t < 256 = card-lt t.cards _ ready.deck (pad-lt t.cards _ ready.deck) in
    let byte = xor_byte _ _ (xor_byte b (first_pad t) h first) second in
    (
      byte,
      record {
        deck = ready.deck;
        rotor = ready.rotor;
        ratchet = ready.ratchet;
        avalanche = ready.avalanche;
        last_plain = byte;
        last_cipher = h;
      },
    )
