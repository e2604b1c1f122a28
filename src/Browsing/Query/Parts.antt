-- ===== src/Browsing/Query/Parts.antt =====
-- A text of filters is read part by part.
use swat4master.Prelude.{
  ◌≡◌, refl, sym, ap, ◌∙◌, ℕ, zero, suc, ◌≤◌, Bool, true, false, ◌&&◌, not, none, some, List, [],
  ◌∷◌, ◌++◌, length, drop, arith, length-append, if◌then◌else◌,
}
use mathlib.Core.List.{append_assoc}
use swat4master.Prelude.Bytes.{Bytes}
use swat4master.Prelude.Text.{has_prefix, cons_before}
use swat4master.Browsing.Filter
use swat4master.Browsing.Filter.{Filter}
use swat4master.Browsing.Query.{
  and_token, cut_and, scan_filter, scan_filters, cut_or_all, new_query, new_from_string, and_then,
  Result, ok,
}

-- the parts with " and " between them
abbrev pub joined : List Bytes → Bytes
joined [] = []
joined (p ∷ []) = p
joined (p ∷ q ∷ parts) = let rest = joined (q ∷ parts) in p ++ (and_token ++ rest)

-- in the text followed by " and ", these bytes stand nowhere before
abbrev pub free_of_and : Bytes → Bool
free_of_and [] = true
free_of_and (c ∷ p) = not (has_prefix ((c ∷ p) ++ and_token) and_token) && free_of_and p

abbrev pub is_part : Bytes → Bool
is_part [] = false
is_part (c ∷ p) = free_of_and (c ∷ p)

abbrev pub all_parts : List Bytes → Bool
all_parts [] = true
all_parts (p ∷ parts) = is_part p && all_parts parts

has_prefix-append :
    (text rest token : Bytes)
    → length token ≤ length text
    → has_prefix (text ++ rest) token ≡ has_prefix text token
has_prefix-append text rest [] h = refl
has_prefix-append [] rest (t ∷ token) h = absurd (omega arith)
has_prefix-append (c ∷ text) rest (t ∷ token) h = ground (arith, has_prefix-append text rest token)

has_prefix-longer :
    (text rest token : Bytes)
    → has_prefix text token ≡ true
    → has_prefix (text ++ rest) token ≡ true
has_prefix-longer text rest [] h = refl
has_prefix-longer [] rest (t ∷ token) h = cc
has_prefix-longer (c ∷ text) rest (t ∷ token) h = ground (arith, has_prefix-longer text rest token)

cut_and-part :
    (p rest : Bytes) → free_of_and p ≡ true → cut_and (p ++ (and_token ++ rest)) ≡ some (p, rest)
cut_and-part [] rest h = refl
cut_and-part (c ∷ p) rest h =
    let fits : length and_token ≤ length ((c ∷ p) ++ and_token) =
      omega (arith, length-append p and_token) in
    let test : has_prefix ((c ∷ p) ++ (and_token ++ rest)) and_token ≡ false =
      ap (λ t. has_prefix t and_token) (sym (append_assoc (c ∷ p) and_token rest))
      ∙ has_prefix-append ((c ∷ p) ++ and_token) rest and_token fits
      ∙ ground (arith, h) in
    ap
      (λ (b : Bool).
        if b
        then some ([], drop 4 (p ++ (and_token ++ rest)))
        else cons_before c (cut_and (p ++ (and_token ++ rest))))
      test
    ∙ ap (cons_before c) (cut_and-part p rest (ground (arith, h)))

cut_and-last : (p : Bytes) → free_of_and p ≡ true → cut_and p ≡ none
cut_and-last [] h = refl
cut_and-last (c ∷ p) h =
    ap (λ (b : Bool). if b then some ([], drop 4 p) else cons_before c (cut_and p))
      (test (has_prefix (c ∷ p) and_token) refl)
    ∙ ap (cons_before c) (cut_and-last p (ground (arith, h)))
  where
    test : (b : Bool) → has_prefix (c ∷ p) and_token ≡ b → has_prefix (c ∷ p) and_token ≡ false
    test false e = e
    test true e =
        let longer = has_prefix-longer (c ∷ p) and_token and_token e in
        let apart : has_prefix ((c ∷ p) ++ and_token) and_token ≡ false = ground (arith, h) in
        absurd (cc (longer, apart))

both_true : (a b : Bool) → (a && b) ≡ true → (a ≡ true) × (b ≡ true)
both_true true true h = (refl, refl)
both_true true false h = absurd cc
both_true false b h = absurd cc

-- the filters of the parts, if each part can be read as one
abbrev pub read_parts : List Bytes → Result (List Filter)
read_parts [] = ok []
read_parts (p ∷ parts) = let later = read_parts parts in and_then (Filter.parse p) later

scan_filters-joined :
    (parts : List Bytes) (fuel : ℕ)
    → all_parts parts ≡ true
    → length parts ≤ fuel
    → scan_filters fuel (joined parts) ≡ read_parts parts
unfolding scan_filters scan_filter
scan_filters-joined [] zero h f = refl
scan_filters-joined [] (suc fuel) h f = refl
scan_filters-joined (p ∷ parts) zero h f = absurd (omega arith)
scan_filters-joined ([] ∷ parts) (suc fuel) h f = absurd (cc)
scan_filters-joined ((c ∷ p) ∷ []) (suc fuel) h f =
    let only : scan_filter (c ∷ p) ≡ (c ∷ p, []) =
      ap (cut_or_all (c ∷ p)) (cut_and-last (c ∷ p) (both_true (is_part (c ∷ p)) true h).0) in
    ap (λ (x : Bytes × Bytes). and_then (Filter.parse x.0) (scan_filters fuel x.1)) only
    ∙ ap (and_then (Filter.parse (c ∷ p))) (scan_filters-joined [] fuel refl (omega arith))
scan_filters-joined ((c ∷ p) ∷ q ∷ parts) (suc fuel) h f =
    let rest = joined (q ∷ parts) in
    let text = (c ∷ p) ++ (and_token ++ rest) in
    let first : scan_filter text ≡ (c ∷ p, rest) =
      ap (cut_or_all text)
        (cut_and-part (c ∷ p) rest (both_true (is_part (c ∷ p)) (all_parts (q ∷ parts)) h).0) in
    ap (λ (x : Bytes × Bytes). and_then (Filter.parse x.0) (scan_filters fuel x.1)) first
    ∙ ap (and_then (Filter.parse (c ∷ p))) (
        scan_filters-joined (q ∷ parts) fuel
          (both_true (is_part (c ∷ p)) (all_parts (q ∷ parts)) h).1 (omega arith))

length-joined : (parts : List Bytes) → all_parts parts ≡ true → length parts ≤ length (joined parts)
length-joined [] h = omega arith
length-joined ([] ∷ parts) h = absurd cc
length-joined ((c ∷ p) ∷ []) h = omega arith
length-joined ((c ∷ p) ∷ q ∷ parts) h =
    let behind =
      length-joined (q ∷ parts) (both_true (is_part (c ∷ p)) (all_parts (q ∷ parts)) h).1 in
    omega (
      arith,
      behind,
      length-append p (and_token ++ joined (q ∷ parts)),
      length-append and_token (joined (q ∷ parts)),
    )

-- A text of parts is read as the filters of its parts.
pub new_from_string-joined :
    (parts : List Bytes)
    → all_parts parts ≡ true
    → new_from_string (joined parts) ≡ new_query (read_parts parts)
unfolding new_from_string
new_from_string-joined parts h =
    ap new_query (scan_filters-joined parts (length (joined parts)) h (length-joined parts h))
