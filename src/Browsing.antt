-- ===== src/Browsing.antt =====
-- pkg/gamespy/browsing and pkg/binutils: the request for a list of servers. A slice that may be nil
-- is an option where the code tests for nil.
pub mod Filter
pub mod Query
pub mod Accepted
pub mod Examples
use swat4master.Prelude.{
  ℕ, zero, suc, ◌+◌, ◌*◌, Bool, true, false, ◌||◌, not, Option, none, some, List, [], ◌∷◌, ◌++◌,
  length, take, drop, ltb, ◌==◌, if◌then◌else◌,
}
use swat4master.Prelude.Bytes.{Bytes}
use swat4master.Prelude.Text.{cut}
use swat4master.Browsing.Filter.{is_query_field}

abbrev pub consumed : Bytes → Option (Bytes × Bytes) → Bytes × Option Bytes
consumed text none = (text, none)
consumed text (some (before, after)) = (before, some after)

-- binutils.ConsumeString; what is left is nil if the delimiter is missing
unfoldable pub consume_string : Bytes → ℕ → Bytes × Option Bytes
consume_string text delim = consumed text (cut delim text)

unfoldable pub consume_c_string : Bytes → Bytes × Option Bytes
unfolding consume_string
consume_c_string text = consume_string text 0

pub data RequestError : Type 0 where
  invalid_request_format no_fields_requested too_many_fields_requested : RequestError

pub data Result {ℓ} (A : Type ℓ) : Type ℓ where
  ok : A → Result A
  err : RequestError → Result A

infixl 5 ◌>>◌ ◌>>=◌
abbrev pub ◌>>=◌ : {T U : Type 0} → Result T → (T → Result U) → Result U
err problem >>= next = err problem
ok read >>= next = next read

abbrev pub ◌>>◌ : {U : Type 0} → Result (Unit {0}) → Result U → Result U
checked >> later = checked >>= λ done. later

pub record Request : Type 0 where
  pub filters : Bytes
  pub fields : List Bytes
  pub challenge : Bytes

abbrev pub terminated : Bytes × Option Bytes → Result (Bytes × Bytes)
terminated (text, none) = err invalid_request_format
terminated (text, some rest) = ok (text, rest)

-- a null-terminated string and what is behind it
abbrev pub c_string : Bytes → Result (Bytes × Bytes)
c_string unparsed = terminated (consume_c_string unparsed)

unfoldable pub parse_challenge : Bytes → Result (Bytes × Bytes)
parse_challenge unparsed =
    if ltb (length unparsed) 8
    then err invalid_request_format
    else ok (take 8 unparsed, drop 8 unparsed)

abbrev pub max_allowed_number_of_fields : ℕ
max_allowed_number_of_fields = 20

abbrev pub or_none_left : Option Bytes → Bytes
or_none_left none = []
or_none_left (some rest) = rest

-- The loop over the names; each takes a byte at least, so a fuel of the number of bytes is enough.
unfoldable pub collect_fields : ℕ → List Bytes → Bytes → Result (List Bytes)
collect_fields fuel fields [] = ok fields
collect_fields zero fields (c ∷ unparsed) = ok fields
collect_fields (suc fuel) fields (c ∷ unparsed) =
    let (field, rest) = consume_string (c ∷ unparsed) 92 in
    let more = if is_query_field field then fields ++ (field ∷ []) else fields in
    let later = collect_fields fuel more (or_none_left rest) in
    if ltb max_allowed_number_of_fields (length more) then err too_many_fields_requested else later

abbrev pub some_fields : List Bytes → Result (List Bytes)
some_fields [] = err no_fields_requested
some_fields (field ∷ fields) = ok (field ∷ fields)

-- the list starts with a backslash
abbrev pub field_list : Bytes → Result (List Bytes)
field_list [] = err invalid_request_format
field_list (c ∷ names) =
    if c == 92
    then collect_fields (length names) [] names >>= some_fields
    else err invalid_request_format

unfoldable pub parse_fields : Bytes → Result (List Bytes × Bytes)
unfolding collect_fields consume_c_string
parse_fields unparsed = do
  (text, rest) ← c_string unparsed
  fields ← field_list text
  ok (fields, rest)

unfoldable pub validate_options_mask : Bytes → Result (Unit {0})
validate_options_mask (a ∷ b ∷ c ∷ d ∷ []) =
    let options = ((a * 256 + b) * 256 + c) * 256 + d in
    if options == 0 || options == 1 then ok tt else err invalid_request_format
validate_options_mask _ = err invalid_request_format

unfoldable pub parse : Bytes → Result Request
unfolding consume_c_string parse_challenge parse_fields validate_options_mask
parse unparsed = do
  (_, rest1) ← c_string unparsed
  (_, rest2) ← c_string rest1
  (challenge, rest3) ← parse_challenge rest2
  (filters, rest4) ← c_string rest3
  (fields, rest5) ← parse_fields rest4
  validate_options_mask rest5
  ok (record { filters = filters; fields = fields; challenge = challenge })

abbrev pub min_request_payload_length : ℕ
min_request_payload_length = 26

-- the length is big-endian; 9 bytes are skipped
unfoldable pub new_request : Bytes → Result Request
unfolding parse
new_request (hi ∷ lo ∷ rest) =
    let data_len = hi * 256 + lo in
    if ltb data_len min_request_payload_length || ltb (suc (suc (length rest))) data_len
    then err invalid_request_format
    else parse (drop 9 (take data_len (hi ∷ lo ∷ rest)))
new_request _ = err invalid_request_format
