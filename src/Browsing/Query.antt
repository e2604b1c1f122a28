-- ===== src/Browsing/Query.antt =====
-- pkg/gamespy/browsing/query: filters joined by " and ".
pub mod Parts
use swat4master.Prelude.{
  ℕ, zero, suc, Bool, true, false, Option, none, some, List, [], ◌∷◌, length, drop, if◌then◌else◌,
}
use swat4master.Prelude.Bytes.{Bytes}
use swat4master.Prelude.Text.{has_prefix, cons_before}
use swat4master.Params.{Struct}
use swat4master.Browsing.Filter
use swat4master.Browsing.Filter.{Filter, FilterError}

abbrev pub and_token : Bytes
and_token = 32 ∷ 97 ∷ 110 ∷ 100 ∷ 32 ∷ []

-- the text before the first " and " and the text behind it
abbrev pub cut_and : Bytes → Option (Bytes × Bytes)
cut_and [] = none
cut_and (c ∷ rest) =
    let later = cut_and rest in
    if has_prefix (c ∷ rest) and_token then some ([], drop 4 rest) else cons_before c later

-- `strings.Cut`, which gives the whole text and an empty one if there is no separator
abbrev pub cut_or_all : Bytes → Option (Bytes × Bytes) → Bytes × Bytes
cut_or_all text none = (text, [])
cut_or_all text (some parts) = parts

unfoldable pub scan_filter : Bytes → Bytes × Bytes
scan_filter text = cut_or_all text (cut_and text)

-- ErrQueryHasNoFilters, or the error of a filter
pub data QueryError : Type 0 where
  query_has_no_filters : QueryError
  invalid_filter : FilterError → QueryError

pub data Result {ℓ} (A : Type ℓ) : Type ℓ where
  ok : A → Result A
  err : QueryError → Result A

-- a query is the list of its filters; `Blank` has none
abbrev pub Query : Type 0
Query = List Filter

abbrev pub new_query : Result (List Filter) → Result Query
new_query (err e) = err e
new_query (ok []) = err query_has_no_filters
new_query (ok (f ∷ filters)) = ok (f ∷ filters)

abbrev pub and_then : Filter.Result Filter → Result (List Filter) → Result (List Filter)
and_then (Filter.err e) later = err (invalid_filter e)
and_then (Filter.ok f) (err e) = err e
and_then (Filter.ok f) (ok filters) = ok (f ∷ filters)

-- The loop of `NewFromString`; a filter takes a byte at least, or the separator's five.
unfoldable pub scan_filters : ℕ → Bytes → Result (List Filter)
scan_filters fuel [] = ok []
scan_filters zero (c ∷ unscanned) = ok []
scan_filters (suc fuel) (c ∷ unscanned) =
    let (raw_filter, rest) = scan_filter (c ∷ unscanned) in
    let later = scan_filters fuel rest in and_then (Filter.parse raw_filter) later

unfoldable pub new_from_string : Bytes → Result Query
unfolding scan_filters
new_from_string query = new_query (scan_filters (length query) query)

-- an error of a filter is no match
abbrev pub matched : Filter.Result Bool → Bool
matched (Filter.ok b) = b
matched (Filter.err e) = false

unfoldable pub match : Query → Struct → Bool
match [] fields = true
match (f ∷ filters) fields =
    let later = match filters fields in if matched (Filter.match f fields) then later else false
