-- ===== src/Params.antt =====
-- pkg/gamespy/serverquery/params: a struct by reflection, read from and written to named strings.
-- A struct is the list of its exported fields in the order of their declaration, each with the
-- name that `GetParamName` gives it (none for the tag "-") and a value whose kind is fixed.
pub mod Roundtrip
pub mod Examples
use swat4master.Prelude.{
  ℕ, Bool, true, false, Option, none, some, List, [], ◌∷◌, ◌+◌, ◌||◌, if◌then◌else◌,
}
use swat4master.Prelude.Options.{◌>>=◌}
use swat4master.Prelude.Int.{ℤ, pos}
use swat4master.Prelude.Bytes.{Bytes, codes, beq, find, store, one_of}
use swat4master.Strconv.{atoi, format_int}

pub data Value : Type 0 where
  int : ℤ → Value
  bool : Bool → Value
  str : Bytes → Value

pub record Field : Type 0 where
  pub param : Option Bytes
  pub value : Value

abbrev pub Struct : Type 0
Struct = List Field

abbrev pub ParamMap : Type 0
ParamMap = List (Bytes × Bytes)

unfoldable pub parse_bool_value : Bytes → Option Bool
parse_bool_value text =
    if one_of text (codes "1" ∷ codes "true" ∷ [])
    then some true
    else if one_of text (codes "0" ∷ codes "false" ∷ [])
    then some false
    else none

-- the value of a field that is set from a text; the old value tells the kind
unfoldable pub set_struct_value : Value → Bytes → Option Value
unfolding parse_bool_value
set_struct_value (int _) text = do i ← atoi text; some (int i)
set_struct_value (bool _) text = do b ← parse_bool_value text; some (bool b)
set_struct_value (str _) text = some (str text)

unfoldable pub unmarshal_field : ParamMap → Field → Option Field
unmarshal_field params field = elim field.param [
  | none ↦ some field
  | some name ↦ elim (find name params) [
    | none ↦ some field
    | some text ↦ do v ← set_struct_value field.value text; some (record field { value = v })
  ]
]

-- `none` is an error, which the callers answer by dropping the struct
unfoldable pub unmarshal : ParamMap → Struct → Option Struct
unmarshal params [] = some []
unmarshal params (field ∷ rest) = do
  field' ← unmarshal_field params field
  rest' ← unmarshal params rest
  some (field' ∷ rest')

unfoldable pub get_param_value : Value → Bytes
get_param_value (int i) = format_int i
get_param_value (bool true) = codes "1"
get_param_value (bool false) = codes "0"
get_param_value (str s) = s

-- `params[paramName] = paramValue`, unless the field is ignored
unfoldable pub put_param : ParamMap → Option Bytes → Bytes → ParamMap
put_param params none text = params
put_param params (some name) text = store name text params

unfoldable pub marshal_from : ParamMap → Struct → ParamMap
marshal_from params [] = params
marshal_from params (field ∷ rest) =
    marshal_from (put_param params field.param (get_param_value field.value)) rest

unfoldable pub marshal : Struct → ParamMap
marshal = marshal_from []
