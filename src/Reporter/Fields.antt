-- ===== src/Reporter/Fields.antt =====
-- The fields of a heartbeat: names and values delimited by null bytes.
use swat4master.Prelude.{
  ℕ, zero, suc, ◌||◌, Bool, Option, none, some, [], ◌∷◌, length, ◌==◌, if◌then◌else◌,
}
use swat4master.Prelude.Options.{◌>>=◌}
use swat4master.Prelude.Int.{ℤ}
use swat4master.Prelude.Bytes.{Bytes, codes, find, store, one_of}
use swat4master.Prelude.Utf8.{to_valid_utf8}
use swat4master.Strconv.{atoi}
use swat4master.Params.{ParamMap}
use swat4master.Browsing.{consume_c_string, or_none_left}
use swat4master.Browsing.Filter.{is_query_field}

unfoldable pub is_reportable_field : Bytes → Bool
is_reportable_field field =
    one_of field (
      codes "localip0"
      ∷ codes "localip1"
      ∷ codes "localport"
      ∷ codes "natneg"
      ∷ codes "statechanged"
      ∷ [])
    || is_query_field field

abbrev pub store_value : ParamMap → Bytes → Bytes × Option Bytes → ParamMap × Bytes
store_value fields name (value, rest) = (store name (to_valid_utf8 value) fields, or_none_left rest)

-- the value of a field; `none` is the error that it is missing
abbrev pub with_value : ParamMap → Bytes → Bytes → Option (ParamMap × Bytes)
with_value fields name [] = none
with_value fields name (c ∷ rest) =
    let stored = store_value fields name (consume_c_string (c ∷ rest)) in
    if c == 0 then none else some stored

-- one round of the loop: the fields after it and what is unparsed
unfoldable pub parse_heartbeat_field : ParamMap → Bytes → Option (ParamMap × Bytes)
parse_heartbeat_field fields unparsed =
    let (name, rest) = consume_c_string unparsed in
    if is_reportable_field name
    then with_value fields name (or_none_left rest)
    else some (fields, or_none_left rest)

-- Each round takes a byte at least, so a fuel of the number of bytes is enough.
unfoldable pub parse_fields : ℕ → ParamMap → Bytes → Option ParamMap
parse_fields fuel fields [] = some fields
parse_fields zero fields (c ∷ unparsed) = some fields
parse_fields (suc fuel) fields (c ∷ unparsed) =
    let later : Option ParamMap = do
      (fields', rest) ← parse_heartbeat_field fields (c ∷ unparsed)
      parse_fields fuel fields' rest
    in if c == 0 then some fields else later

unfoldable pub parse_heartbeat_params : Bytes → Option ParamMap
unfolding parse_fields
parse_heartbeat_params payload = parse_fields (length payload) [] payload

unfoldable pub parse_numeric_field : ParamMap → Bytes → Option ℤ
parse_numeric_field fields field_name = do value_str ← find field_name fields; atoi value_str
