-- ===== src/Gs1/Examples.antt =====
-- Two fragments of one response, and their parameters.
use swat4master.Prelude.{◌≡◌, refl, ℕ, [], ◌∷◌, map, ◌==◌, if◌then◌else◌, arith}
use swat4master.Prelude.Bytes.{Bytes, codes}
use swat4master.Strconv.{atoi, read_number, read_digits}
use swat4master.Gs1.{inspect_fragment, inspect_gs1_fragment, ver_gs1, backslash}
use swat4master.Gs1.Collect.{collect_payload, incomplete, payload}
use swat4master.Gs1.Collect.Assembled.{collect_payload-Numbered, Numbered, all_to, joined, size_of}
use swat4master.Gs1.Fields.{parse_params}
use swat4master.Gs1.Fields.Split.{parse_params-eq-split, param_of, in_pairs, split_at, tail}
use swat4master.Gs1.Expand
use swat4master.Gs1.Expand.Kinds.{expand_payload_panics}

abbrev chunk : ℕ → Bytes
chunk k = if k == 1 then codes "\\hostname\\Swat4 Server" else codes "\\player_0\\James"

abbrev first : Bytes
first = codes "\\hostname\\Swat4 Server\\queryid\\1"

abbrev second : Bytes
second = codes "\\player_0\\James\\queryid\\2\\final\\"

received : Numbered 2 chunk ver_gs1 (second ∷ first ∷ second ∷ []) (2 ∷ 1 ∷ 2 ∷ [])
unfolding inspect_fragment inspect_gs1_fragment atoi read_number read_digits
received = (
  refl,
  omega arith,
  omega arith,
  (refl, omega arith, omega arith, (refl, omega arith, omega arith, tt)),
)

collect_payload-Numbered_example : collect_payload (second ∷ first ∷ second ∷ []) ≡ (
    if all_to 2 (2 ∷ 1 ∷ 2 ∷ [])
    then payload (joined 2 chunk ver_gs1 1 2) (size_of 2 chunk ver_gs1 (2 ∷ 1 ∷ 2 ∷ [])) ver_gs1
    else incomplete)
collect_payload-Numbered_example =
    collect_payload-Numbered 2 chunk ver_gs1 (second ∷ first ∷ second ∷ []) (2 ∷ 1 ∷ 2 ∷ [])
      (omega arith) received

parse_params-eq-split_example :
    map param_of (parse_params 0 (codes "\\a\\\\b"))
    ≡ in_pairs (split_at backslash (tail (codes "\\a\\\\b")))
parse_params-eq-split_example = parse_params-eq-split 0 (codes "\\a\\\\b")

abbrev plain : Bytes → Bytes
plain text = text

expand_payload_panics_example :
    Expand.expand_payload plain (codes "\\a\\b") 4 ver_gs1 ≡ Expand.panicked
expand_payload_panics_example =
    expand_payload_panics plain (codes "a") (codes "b") ver_gs1 refl refl (omega arith)
