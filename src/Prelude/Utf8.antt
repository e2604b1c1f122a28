-- ===== src/Prelude/Utf8.antt =====
-- What the program uses of Go's package bytes on UTF-8: `bytes.ToValidUTF8` with a question mark.
use Prim.Native.Nat.{ℕ, zero, suc}
use mathlib.Core.Bool.{Bool, true, false, ◌&&◌}
use mathlib.Core.List.{List, [], ◌∷◌}
use swat4master.Prelude.Tests.{◌==◌, leb, if◌then◌else◌}
use swat4master.Prelude.Bytes.{Bytes}

-- whether the next bytes are in the ranges, in order
abbrev pub starts_in : List (ℕ × ℕ) → Bytes → Bool
starts_in [] text = true
starts_in (range ∷ ranges) [] = false
starts_in ((lo, hi) ∷ ranges) (c ∷ text) = leb lo c && leb c hi && starts_in ranges text

abbrev pub continued : ℕ × ℕ
continued = (128, 191)

-- the bytes of the character behind its first byte, or none if it is not one
abbrev pub three_or_four : ℕ → Bytes → ℕ
three_or_four c rest =
    if leb 0xE0 c && leb c 0xEF
    then (if starts_in
          ((if c == 0xE0 then 0xA0 else 128, if c == 0xED then 0x9F else 191) ∷ continued ∷ []) rest
        then 3
        else 0)
    else if leb 0xF0 c && leb c 0xF4
    then (if starts_in
          ((if c == 0xF0 then 0x90 else 128, if c == 0xF4 then 0x8F else 191)
            ∷ continued
            ∷ continued
            ∷ [])
          rest
        then 4
        else 0)
    else 0

-- the width of the character that a text starts with; 0 if its first byte is no part of one
abbrev pub rune_width : ℕ → Bytes → ℕ
rune_width c rest =
    if leb c 127
    then 1
    else if leb 0xC2 c && leb c 0xDF
    then (if starts_in (continued ∷ []) rest then 2 else 0)
    else three_or_four c rest

-- With the number of bytes left of a character, and whether the byte before was replaced: a run of
-- invalid bytes is replaced by one question mark.
unfoldable pub valid_from : ℕ → Bool → Bytes → Bytes
valid_from skip replaced [] = []
valid_from (suc skip) replaced (c ∷ rest) = c ∷ valid_from skip false rest
valid_from zero replaced (c ∷ rest) = elim (rune_width c rest) [
  | zero ↦ let later = valid_from zero true rest in if replaced then later else 63 ∷ later
  | suc more ↦ c ∷ valid_from more false rest
]

unfoldable pub to_valid_utf8 : Bytes → Bytes
to_valid_utf8 text = valid_from 0 false text
