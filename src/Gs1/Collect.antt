-- ===== src/Gs1/Collect.antt =====
-- The fragments of a response, put together: `collectPayload` and the loop of `getResponse`.
pub mod Assembled
use swat4master.Prelude.{
  ℕ, zero, suc, ◌+◌, Bool, true, false, ◌||◌, not, Option, none, some, List, [], ◌∷◌, ◌++◌, length,
  if◌then◌else◌,
}
use swat4master.Prelude.Int.{ℤ, pos, negsuc, eqℤ}
use swat4master.Prelude.IntMap.{find, store}
use swat4master.Prelude.Bytes.{Bytes}
use swat4master.Gs1.{Fragment, QueryVersion, ver_unknown, inspect_fragment, or_empty}

-- the variables of the loop; `count` is -1 until a final fragment is seen
pub record Gathered : Type 0 where
  pub count : ℤ
  pub ordered : List (ℤ × Bytes)
  pub version : QueryVersion
  pub payload_size : ℕ

abbrev pub nothing : Gathered
nothing = record { count = negsuc 0; ordered = []; version = ver_unknown; payload_size = 0 }

unfoldable pub gather_one : Gathered → Fragment → Gathered
gather_one g f = record {
  count = if f.is_final then f.order else g.count;
  ordered = store f.order f.chunk g.ordered;
  version = f.version;
  payload_size = g.payload_size + length f.chunk;
}

abbrev pub inspected_or : Gathered → Option Fragment → Option Gathered
inspected_or g none = none
inspected_or g (some f) = if eqℤ f.order (negsuc 0) then none else some (gather_one g f)

abbrev pub then_gather : Option Gathered → (Gathered → Option Gathered) → Option Gathered
then_gather none f = none
then_gather (some g) f = f g

-- `none` is ErrResponseMalformed
unfoldable pub gather : Gathered → List Bytes → Option Gathered
gather g [] = some g
gather g (raw ∷ rest) = then_gather (inspected_or g (inspect_fragment raw)) (λ g'. gather g' rest)

-- the chunks from `i` on, `rounds` of them; a missing key is a nil slice
unfoldable pub chunks_from : List (ℤ × Bytes) → ℕ → ℕ → Bytes
chunks_from ordered i zero = []
chunks_from ordered i (suc rounds) =
    or_empty (find (pos i) ordered) ++ chunks_from ordered (suc i) rounds

pub data Collected : Type 0 where
  malformed incomplete : Collected
  -- the payload, the size of its buffer and the version
  payload : Bytes → ℕ → QueryVersion → Collected

-- `count == -1 || count != len(ordered)`; otherwise the loop runs from 1 to the count
abbrev pub assembled : Gathered → Collected
assembled g =
    if eqℤ g.count (negsuc 0) || not (eqℤ g.count (pos (length g.ordered)))
    then incomplete
    else payload (chunks_from g.ordered 1 (length g.ordered)) g.payload_size g.version

abbrev pub gathered : Option Gathered → Collected
gathered none = malformed
gathered (some g) = assembled g

unfoldable pub collect_payload : List Bytes → Collected
unfolding gather
collect_payload fragments = gathered (gather nothing fragments)
