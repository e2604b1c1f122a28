-- ===== src/Gs1.antt =====
-- pkg/gamespy/serverquery/gs1: the fields and parameters of a response, and its fragments. A slice
-- that may be nil is an option where the code tests for nil; a backslash is the byte 92.
pub mod Collect
pub mod Expand
pub mod Fields
pub mod Examples
use swat4master.Prelude.{
  ℕ, zero, suc, ◌+◌, ◌-◌, ◌^◌, Bool, true, false, Option, none, some, List, [], ◌∷◌, length, ltb,
  if◌then◌else◌,
}
use swat4master.Prelude.Options.{◌>>=◌}
use swat4master.Prelude.Int.{ℤ, pos, negsuc, ltℤ}
use swat4master.Prelude.Bytes.{Bytes, codes, beq}
use swat4master.Prelude.Text.{cut, cut_last, has_prefix, has_suffix, trim_suffix}
use swat4master.Strconv.{atoi}

abbrev pub backslash : ℕ
backslash = 92

-- VerUnknown to VerGS1 are 0 to 3
abbrev pub QueryVersion : Type 0
QueryVersion = ℕ

abbrev pub ver_unknown : QueryVersion
ver_unknown = 0

abbrev pub ver_vanilla : QueryVersion
ver_vanilla = 1

abbrev pub ver_am : QueryVersion
ver_am = 2

abbrev pub ver_gs1 : QueryVersion
ver_gs1 = 3

abbrev pub final_token : Bytes
final_token = 92 ∷ 102 ∷ 105 ∷ 110 ∷ 97 ∷ 108 ∷ 92 ∷ []

abbrev pub eof_token : Bytes
eof_token = 92 ∷ 101 ∷ 111 ∷ 102 ∷ 92 ∷ []

pub record Param : Type 0 where
  pub name : Bytes
  pub value : Bytes

pub record Fragment : Type 0 where
  pub is_final : Bool
  pub order : ℤ
  pub version : QueryVersion
  pub chunk : Bytes

abbrev pub or_empty : Option Bytes → Bytes
or_empty none = []
or_empty (some b) = b

-- the rest starts with its backslash
abbrev pub field_of : Bytes → Option (Bytes × Bytes) → Bytes × Option Bytes
field_of consumed none = (consumed, none)
field_of consumed (some (before, after)) = (before, some (backslash ∷ after))

unfoldable pub consume_field : Bytes → Bytes × Option Bytes
consume_field [] = ([], none)
consume_field (x ∷ consumed) = field_of consumed (cut backslash consumed)

abbrev pub last_field_of : Bytes → Option (Bytes × Bytes) → Bytes × Option Bytes
last_field_of consumed none = (consumed, none)
last_field_of consumed (some (before, after)) = (after, some before)

unfoldable pub consume_field_from_right : Bytes → Bytes × Option Bytes
consume_field_from_right [] = ([], none)
consume_field_from_right (x ∷ xs) = last_field_of (x ∷ xs) (cut_last backslash (x ∷ xs))

-- the parameter and the rest, once the name is read; an empty name is an error
abbrev pub param_of : Bytes × Option Bytes → Option (Param × Option Bytes)
param_of (name, none) = none
param_of ([], some rest) = none
param_of (c ∷ name, some rest) =
    let (value, rest') = consume_field rest in
    some (record { name = c ∷ name; value = value }, rest')

unfoldable pub consume_param : Bytes → Option (Param × Option Bytes)
unfolding consume_field
consume_param payload = param_of (consume_field payload)

abbrev pub named : Bytes → Bytes × Option Bytes → Option (Param × Option Bytes)
named value ([], rest) = none
named value (c ∷ name, rest) = some (record { name = c ∷ name; value = value }, rest)

abbrev pub param_before : Bytes × Option Bytes → Option (Param × Option Bytes)
param_before (value, none) = none
param_before (value, some rest) = named value (consume_field_from_right rest)

unfoldable pub consume_param_from_right : Bytes → Option (Param × Option Bytes)
unfolding consume_field_from_right
consume_param_from_right payload = param_before (consume_field_from_right payload)

-- `intValue + 1` in an int64
abbrev pub succ_int64 : ℤ → ℤ
succ_int64 (pos n) = if ltb (n + 1) (2 ^ 63) then pos (n + 1) else negsuc (2 ^ 63 - 1)
succ_int64 (negsuc zero) = pos 0
succ_int64 (negsuc (suc n)) = negsuc n

-- an error is ErrResponseMalformed
unfoldable pub inspect_status_response : Bytes → Option (ℤ × QueryVersion)
inspect_status_response text = do
  n ← atoi text
  if ltℤ n (pos 0) then none else some (succ_int64 n, ver_am)

abbrev pub query_order : Option ℤ → Option (ℤ × QueryVersion)
query_order none = some (pos 1, ver_vanilla)
query_order (some n) = if ltℤ (pos 0) n then some (n, ver_gs1) else none

unfoldable pub inspect_query_id : Bytes → Option (ℤ × QueryVersion)
inspect_query_id text = query_order (atoi text)

-- the trailing queryid is dropped, if there is one
abbrev pub without_query_id : Bytes → Option (Param × Option Bytes) → Bytes
without_query_id payload none = payload
without_query_id payload (some (param, rest)) =
    if beq param.name (codes "queryid") then or_empty rest else payload

abbrev pub fragment_of : ℤ × QueryVersion → Bytes → Fragment
fragment_of (order, version) payload = record {
  is_final = has_suffix payload final_token;
  order = order;
  version = version;
  chunk = trim_suffix payload final_token;
}

unfoldable pub inspect_am_mod_fragment : Bytes → Option Fragment
unfolding consume_param inspect_status_response consume_param_from_right
inspect_am_mod_fragment payload = do
  (param, rest) ← consume_param (trim_suffix payload eof_token)
  inspected ←
      if beq param.name (codes "statusresponse") then inspect_status_response param.value else none
  some (
      fragment_of inspected
        (without_query_id (or_empty rest) (consume_param_from_right (or_empty rest))))

unfoldable pub inspect_gs1_fragment : Bytes → Option Fragment
unfolding consume_param_from_right inspect_query_id
inspect_gs1_fragment payload = do
  (param, rest) ← consume_param_from_right (trim_suffix payload final_token)
  inspected ← if beq param.name (codes "queryid") then inspect_query_id param.value else none
  some (record {
    is_final = has_suffix payload final_token;
    order = inspected.0;
    version = inspected.1;
    chunk = or_empty rest;
  })

unfoldable pub inspect_fragment : Bytes → Option Fragment
inspect_fragment payload =
    if has_suffix payload (codes "\\queryid\\1.1")
    then some (record { is_final = true; order = pos 1; version = ver_vanilla; chunk = payload })
    else if has_prefix payload (codes "\\statusresponse\\")
    then inspect_am_mod_fragment payload
    else inspect_gs1_fragment payload
