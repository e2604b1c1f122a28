-- ===== src/Crypt/Shuffle.antt =====
-- The loop of `shuffle` ends within its 12 rounds, and draws a position up to the limit.
use swat4master.Prelude.{
  ◌≡◌, refl, ap, none, Bool, true, false, all_below, all_below-at, ℕ, zero, suc, ◌+◌, ◌≤◌, ◌<◌,
  Option, some, List, arith, leb, inl, inr, Bool-cases,
}
use swat4master.Crypt.State.{crtl, draw_round, draw, shuffle, fill_mask}

-- What a draw returns: a position up to the limit, a byte, and an index of the key.
abbrev pub Drawn : ℕ → Option (ℕ × ℕ × ℕ) → Type 0
Drawn limit result =
    (d : ℕ × ℕ × ℕ) × (result ≡ some d) × (d.0 ≤ limit) × (d.1 < 256) × (d.2 < crtl)

module _ (cards key : List ℕ) (limit mask rsum keypos retries : ℕ) where
  rsum-lt : (draw_round cards key limit mask rsum keypos retries).1 < 256
  unfolding draw_round
  rsum-lt = ground arith

  keypos-lt : keypos < crtl → (draw_round cards key limit mask rsum keypos retries).2 < crtl
  unfolding draw_round
  keypos-lt k = ground arith

  -- the twelfth round reduces the position
  last_round_fits :
      0 < limit → 11 ≤ retries → (draw_round cards key limit mask rsum keypos retries).0 ≤ limit
  unfolding draw_round
  last_round_fits pos last = ground arith

draw_total :
    (fuel : ℕ) (cards key : List ℕ) (limit mask rsum keypos retries : ℕ)
    → 0 < limit
    → keypos < crtl
    → 0 < fuel
    → 12 ≤ fuel + retries
    → Drawn limit (draw fuel cards key limit mask rsum keypos retries)
unfolding draw
draw_total zero cards key limit mask rsum keypos retries pos inkey more enough =
    absurd (omega arith)
draw_total (suc fuel) cards key limit mask rsum keypos retries pos inkey more enough =
    let round = draw_round cards key limit mask rsum keypos retries in
    elim (Bool-cases (leb round.0 limit)) [
      | inl hit ↦ (
        round,
        rw (hit, draw),
        ground arith,
        rsum-lt cards key limit mask rsum keypos retries,
        keypos-lt cards key limit mask rsum keypos retries inkey,
      )
      | inr miss ↦
          let more' : 0 < fuel =
            ground (arith, last_round_fits cards key limit mask rsum keypos retries) in
          let (d, e, fits, byte, inkey') =
            draw_total fuel cards key limit mask round.1 round.2 (retries + 1) pos
              (keypos-lt cards key limit mask rsum keypos retries inkey) more' (omega arith) in
          (d, rw (miss, draw) e, fits, byte, inkey')
    ]

-- The loop that fills the mask ends for every limit that is a byte.
abbrev is_filled : Option ℕ → Bool
is_filled none = false
is_filled (some mask) = true

abbrev has_mask : ℕ → Bool
has_mask limit = is_filled (fill_mask 8 limit 1)

all_masks : all_below 256 has_mask ≡ true
unfolding fill_mask
all_masks = refl

fill_mask_total : (limit : ℕ) → limit < 256 → (mask : ℕ) × (fill_mask 8 limit 1 ≡ some mask)
fill_mask_total limit byte =
    found (fill_mask 8 limit 1) refl (all_below-at 256 has_mask all_masks limit byte)
  where
    found :
        (o : Option ℕ)
        → fill_mask 8 limit 1 ≡ o
        → is_filled (fill_mask 8 limit 1) ≡ true
        → (mask : ℕ) × (fill_mask 8 limit 1 ≡ some mask)
    found none e h = absurd (cc (ap is_filled e))
    found (some mask) e h = (mask, e)

-- `shuffle` always draws, whatever the cards and the key.
pub shuffle_total :
    (cards key : List ℕ) (limit rsum keypos : ℕ)
    → limit < 256
    → rsum < 256
    → keypos < crtl
    → Drawn limit (shuffle cards key limit rsum keypos)
unfolding shuffle
shuffle_total cards key zero rsum keypos b r k = ((0, rsum, keypos), refl, omega arith, r, k)
shuffle_total cards key (suc limit) rsum keypos b r k =
    let (mask, filled) = fill_mask_total (suc limit) b in
    rw filled (
      draw_total 12 cards key (suc limit) mask rsum keypos 0 (omega arith) k (omega arith)
        (omega arith))
