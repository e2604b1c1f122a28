-- ===== src/Gs1/Fields.antt =====
-- `parseParams`: a payload as a list of parameters. With each field goes its room, the capacity of
-- its slice: the bytes of the buffer from the field's start on. `spare` is the part of the buffer
-- behind the payload.
pub mod Split
use swat4master.Prelude.{ℕ, zero, suc, ◌+◌, Option, none, some, List, [], ◌∷◌, length}
use swat4master.Prelude.Bytes.{Bytes}
use swat4master.Gs1.{Param, backslash, consume_field}

pub record Field : Type 0 where
  pub text : Bytes
  pub room : ℕ

-- the capacity of `payload[1:]`, and 0 for a nil field
abbrev pub room_in : ℕ → Bytes → ℕ
room_in spare [] = 0
room_in spare (x ∷ consumed) = length consumed + spare

-- `for unparsed := data; unparsed != nil`
unfoldable pub parse_fields : ℕ → ℕ → Option Bytes → List Field
parse_fields fuel spare none = []
parse_fields zero spare (some payload) = []
parse_fields (suc fuel) spare (some payload) =
    let (field, unparsed) = consume_field payload in
    record { text = field; room = room_in spare payload } ∷ parse_fields fuel spare unparsed

-- `Param{fields[i-1], fields[i]}`, with the room of the name
abbrev pub pairs : List Field → List (Param × ℕ)
pairs [] = []
pairs (name ∷ []) = []
pairs (name ∷ value ∷ rest) =
    (record { name = name.text; value = value.text }, name.room) ∷ pairs rest

-- each field takes a byte at least
unfoldable pub parse_params : ℕ → Bytes → List (Param × ℕ)
parse_params spare payload = pairs (parse_fields (suc (length payload)) spare (some payload))
