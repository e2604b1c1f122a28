-- ===== src/Browser/Reader.antt =====
-- The reader of an answer, from the game's side: the names of the fields and a row for each server.
use swat4master.Prelude.{
  ℕ, zero, suc, Bool, true, ◌&&◌, Option, none, some, List, [], ◌∷◌, map, length, ◌==◌,
  if◌then◌else◌,
}
use swat4master.Prelude.Options.{◌>>=◌}
use swat4master.Prelude.Bytes.{Bytes, find}
use swat4master.Prelude.Text.{cut, free_of}
use swat4master.Params.{ParamMap, marshal}
use swat4master.Entities.Addr.{get_ip}
use swat4master.Entities.Server.{Server}
use swat4master.Browser.{or_missing, put_uint16, to_uint16}

-- a server as the client sees it: its address, the query port's bytes and the values
pub record Row : Type 0 where
  pub ip : Bytes
  pub query_port : Bytes
  pub values : List Bytes

-- so many values, each between 0xff and a null byte
abbrev pub read_values : ℕ → Bytes → Option (List Bytes × Bytes)
read_values zero text = some ([], text)
read_values (suc n) [] = none
read_values (suc n) (marker ∷ text) = do
  (value, rest) ← cut 0 text
  (values, rest') ← read_values n rest
  if marker == 0xff then some (value ∷ values, rest') else none

-- so many names, each with two null bytes behind it
abbrev pub second_null : Bytes → Option Bytes
second_null [] = none
second_null (c ∷ rest) = if c == 0 then some rest else none

abbrev pub read_names : ℕ → Bytes → Option (List Bytes × Bytes)
read_names zero text = some ([], text)
read_names (suc n) text = do
  (name, rest) ← cut 0 text
  rest' ← second_null rest
  (names, rest'') ← read_names n rest'
  some (name ∷ names, rest'')

abbrev pub read_row : ℕ → Bytes → Option (Row × Bytes)
read_row n (a ∷ b ∷ c ∷ d ∷ hi ∷ lo ∷ text) = do
  (values, rest) ← read_values n text
  some (record { ip = a ∷ b ∷ c ∷ d ∷ []; query_port = hi ∷ lo ∷ []; values = values }, rest)
read_row n _ = none

-- rows that start with 0x51, until a null byte
abbrev pub read_rows : ℕ → ℕ → Bytes → Option (List Row)
read_rows zero n text = none
read_rows (suc fuel) n [] = none
read_rows (suc fuel) n (c ∷ text) =
    let later : Option (List Row) = do
      (row, rest) ← read_row n text
      rows ← read_rows fuel n rest
      some (row ∷ rows)
    in if c == 0x51 then later else (if c == 0 then some [] else none)

-- the client's address, the number of names, a null byte, the names and the rows
abbrev pub read_answer : Bytes → Option (List Bytes × List Row)
read_answer (a ∷ b ∷ c ∷ d ∷ hi ∷ lo ∷ n ∷ null ∷ text) = do
  (names, rest) ← read_names n text
  rows ← read_rows (length rest) n rest
  some (names, rows)
read_answer _ = none

abbrev pub value_in : ParamMap → Bytes → Bytes
value_in params field = or_missing (find field params)

abbrev pub row_of : List Bytes → Server → Row
row_of fields svr = record {
  ip = get_ip svr.addr;
  query_port = put_uint16 (to_uint16 svr.query_port);
  values = map (value_in (marshal svr.info)) fields;
}

abbrev pub all_free : List Bytes → Bool
all_free [] = true
all_free (text ∷ texts) = free_of 0 text && all_free texts

-- that no value of a server holds a null byte
abbrev pub all_clean : List Bytes → List Server → Bool
all_clean fields [] = true
all_clean fields (svr ∷ servers) =
    all_free (map (value_in (marshal svr.info)) fields) && all_clean fields servers
