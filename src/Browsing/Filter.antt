-- ===== src/Browsing/Filter.antt =====
-- pkg/gamespy/browsing/query/filter: a condition on a field of a server's info. The tested struct is
-- given by its fields, as in Params.
pub mod Parsed
use swat4master.Prelude.{
  ℕ, zero, suc, ◌+◌, ◌-◌, Bool, true, false, ◌&&◌, ◌||◌, not, Option, none, some, List, [], ◌∷◌,
  length, take, drop, ltb, ◌==◌, if◌then◌else◌,
}
use swat4master.Prelude.Int.{ℤ, pos, ltℤ, eqℤ}
use swat4master.Prelude.Bytes.{Bytes, codes, beq, one_of}
use swat4master.Strconv.{atoi}
use swat4master.Params.{Value, int, bool, str, Field, Struct}

pub data Operator : Type 0 where
  eq ne lt gt : Operator

pub data Wanted : Type 0 where
  number : ℤ → Wanted
  quoted : Bytes → Wanted
  field_value : Bytes → Wanted

pub record Filter : Type 0 where
  pub field : Bytes
  pub op : Operator
  pub rawop : Bytes
  pub value : Wanted

pub data FilterError : Type 0 where
  invalid_filter_format unknown_field_name unsupported_operator_type invalid_value_format :
      FilterError
  field_not_found field_invalid_value_type field_unsupported_operator_type : FilterError

pub data Result {ℓ} (A : Type ℓ) : Type ℓ where
  ok : A → Result A
  err : FilterError → Result A

abbrev pub query_fields : List Bytes
query_fields =
    codes "gamename"
    ∷ codes "hostname"
    ∷ codes "numplayers"
    ∷ codes "maxplayers"
    ∷ codes "gametype"
    ∷ codes "gamevariant"
    ∷ codes "mapname"
    ∷ codes "hostport"
    ∷ codes "password"
    ∷ codes "statsenabled"
    ∷ codes "gamever"
    ∷ []

unfoldable pub is_query_field : Bytes → Bool
is_query_field field = one_of field query_fields

abbrev pub is_named : Option Bytes → Bytes → Bool
is_named none name = false
is_named (some param) name = beq param name

-- `none` is ErrFieldNotFound
unfoldable pub get_struct_field : Struct → Bytes → Option Value
get_struct_field [] name = none
get_struct_field (field ∷ rest) name =
    let later = get_struct_field rest name in
    if is_named field.param name then some field.value else later

unfoldable pub compare_ints : Operator → ℤ → ℤ → Bool
compare_ints eq a b = eqℤ a b
compare_ints ne a b = not (eqℤ a b)
compare_ints lt a b = ltℤ a b
compare_ints gt a b = ltℤ b a

unfoldable pub compare_to_int : Operator → Value → ℤ → Result Bool
compare_to_int op (int i) other = ok (compare_ints op i other)
compare_to_int op (bool b) other = ok (compare_ints op (pos (if b then 1 else 0)) other)
compare_to_int op (str s) other = err field_invalid_value_type

unfoldable pub compare_to_string : Operator → Value → Bytes → Result Bool
compare_to_string eq (str s) other = ok (beq s other)
compare_to_string ne (str s) other = ok (not (beq s other))
compare_to_string lt (str s) other = err field_unsupported_operator_type
compare_to_string gt (str s) other = err field_unsupported_operator_type
compare_to_string op (int i) other = err field_invalid_value_type
compare_to_string op (bool b) other = err field_invalid_value_type

-- `Filter.compare`, with the value of another field
unfoldable pub compare_values : Operator → Value → Value → Result Bool
compare_values op this (int i) = compare_to_int op this i
compare_values op this (str s) = compare_to_string op this s
compare_values op this (bool b) = err field_invalid_value_type

abbrev pub compare_evaluated : Operator → Value → Option Value → Result Bool
compare_evaluated op this none = err field_not_found
compare_evaluated op this (some other) = compare_values op this other

abbrev pub match_value : Operator → Struct → Value → Wanted → Result Bool
match_value op fields this (number i) = compare_to_int op this i
match_value op fields this (quoted s) = compare_to_string op this s
match_value op fields this (field_value name) =
    compare_evaluated op this (get_struct_field fields name)

abbrev pub match_found : Filter → Struct → Option Value → Result Bool
match_found f fields none = ok false
match_found f fields (some this) = match_value f.op fields this f.value

unfoldable pub match : Filter → Struct → Result Bool
match f fields = match_found f fields (get_struct_field fields f.field)

-- `New`: the operator by its text
unfoldable pub new_filter : Bytes → Bytes → Wanted → Result Filter
new_filter field raw_op value =
    let with_op : Operator → Result Filter =
      λ op. ok (record { field = field; op = op; rawop = raw_op; value = value }) in
    if not (is_query_field field)
    then err unknown_field_name
    else if beq raw_op (codes "=")
    then with_op eq
    else if beq raw_op (codes "!=")
    then with_op ne
    else if beq raw_op (codes "<")
    then with_op lt
    else if beq raw_op (codes ">")
    then with_op gt
    else err unsupported_operator_type

pub data Stage : Type 0 where
  stage_name stage_op stage_value : Stage

-- the variables of the loop of `Parse`
pub record Scan : Type 0 where
  pub stage : Stage
  pub field_name : Bytes
  pub op : Bytes
  pub i : ℕ
  pub j : ℕ

abbrev pub is_op_char : ℕ → Bool
is_op_char c = c == 33 || c == 61 || c == 60 || c == 62

abbrev pub between : Bytes → ℕ → ℕ → Bytes
between text i j = take (j - i) (drop i text)

abbrev pub at_op_char : Bytes → Stage → Scan → Scan
at_op_char text stage_name s = record s {
  field_name = between text s.i s.j;
  stage = stage_op;
  i = s.j;
}
at_op_char text stage_op s = s
at_op_char text stage_value s = s

abbrev pub at_other_char : Bytes → Stage → Scan → Scan
at_other_char text stage_op s = record s { op = between text s.i s.j; stage = stage_value; i = s.j }
at_other_char text stage_name s = s
at_other_char text stage_value s = s

abbrev pub passed : Scan → Scan
passed s = record s { j = s.j + 1 }

unfoldable pub scan_char : Bytes → Scan → ℕ → Scan
scan_char text s c =
    passed (if is_op_char c then at_op_char text s.stage s else at_other_char text s.stage s)

unfoldable pub scan : Bytes → Scan → Bytes → Scan
scan text s [] = s
scan text s (c ∷ rest) = scan text (scan_char text s c) rest

-- the text without its first and its last byte
abbrev pub inner : Bytes → Bytes
inner text = take (length text - 2) (drop 1 text)

abbrev pub last_byte : Bytes → ℕ
last_byte [] = 0
last_byte (c ∷ []) = c
last_byte (c ∷ d ∷ rest) = last_byte (d ∷ rest)

abbrev pub is_quoted : Bytes → Bool
is_quoted [] = false
is_quoted (c ∷ rest) = ltb 2 (length (c ∷ rest)) && c == 39 && last_byte (c ∷ rest) == 39

abbrev pub text_value : Bytes → Result Wanted
text_value raw =
    if is_quoted raw
    then ok (quoted (inner raw))
    else if is_query_field raw
    then ok (field_value raw)
    else err invalid_value_format

abbrev pub value_of : Bytes → Option ℤ → Result Wanted
value_of raw (some n) = ok (number n)
value_of raw none = text_value raw

unfoldable pub parse_raw_filter_value : Bytes → Result Wanted
parse_raw_filter_value raw = value_of raw (atoi raw)

abbrev pub finish : Bytes → Bytes → Result Wanted → Result Filter
finish field_name op (ok value) = new_filter field_name op value
finish field_name op (err e) = err e

abbrev pub close : Bytes → Bytes → Stage → Scan → Result Filter
close text [] stage s = err invalid_filter_format
close text (c ∷ name) stage_value s =
    finish (c ∷ name) s.op (parse_raw_filter_value (drop s.i text))
close text (c ∷ name) _ s = err invalid_filter_format

abbrev pub start : Scan
start = record { stage = stage_name; field_name = []; op = []; i = 0; j = 0 }

unfoldable pub parse : Bytes → Result Filter
unfolding scan
parse text = let s = scan text start text in close text s.field_name s.stage s
