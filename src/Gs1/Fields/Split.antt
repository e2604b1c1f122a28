-- ===== src/Gs1/Fields/Split.antt =====
-- Parsing against its specification: the text behind the first byte, split at the backslashes.
use swat4master.Prelude.{
  ◌≡◌, refl, sym, ap, ◌∙◌, ℕ, zero, suc, ◌<◌, Bool, true, false, ◌&&◌, Option, none, some, List, [],
  ◌∷◌, ◌++◌, map, length, if◌then◌else◌, arith, ◌==◌,
}
use mathlib.Core.List.{append-nil}
use swat4master.Prelude.Bytes.{Bytes}
use swat4master.Prelude.Text.{cut, cons_before, free_of, cut-free_of, cut-none}
use swat4master.Gs1.{Param, backslash, consume_field, field_of}
use swat4master.Gs1.Fields.{Field, parse_fields, pairs, parse_params}

abbrev pub on_first : ℕ → List Bytes → List Bytes
on_first x [] = (x ∷ []) ∷ []
on_first x (piece ∷ pieces) = (x ∷ piece) ∷ pieces

-- the pieces of a text between the bytes `b`
abbrev pub split_at : ℕ → Bytes → List Bytes
split_at b [] = [] ∷ []
split_at b (x ∷ xs) = let rest = split_at b xs in if x == b then [] ∷ rest else on_first x rest

abbrev pub tail : Bytes → Bytes
tail [] = []
tail (x ∷ xs) = xs

abbrev pub text_of : Field → Bytes
text_of f = f.text

-- a text up to its first `b`, and from there on
abbrev pieces_of : ℕ → Bytes → Option (Bytes × Bytes) → List Bytes
pieces_of b text none = text ∷ []
pieces_of b text (some (before, after)) = before ∷ split_at b after

split_at-cut : (b : ℕ) (text : Bytes) → split_at b text ≡ pieces_of b text (cut b text)
split_at-cut b [] = refl
split_at-cut b (x ∷ xs) = step (cut b xs) (x == b) (split_at-cut b xs)
  where
    step :
        (o : Option (Bytes × Bytes)) (found : Bool)
        → split_at b xs ≡ pieces_of b xs o
        → (if found then [] ∷ split_at b xs else on_first x (split_at b xs))
          ≡ pieces_of b (x ∷ xs) (if found then some ([], xs) else cons_before x o)
    step o true e = refl
    step none false e = ap (on_first x) e
    step (some (before, after)) false e = ap (on_first x) e

cut-shorter :
    (b : ℕ) (text before after : Bytes)
    → cut b text ≡ some (before, after)
    → length after < length text
cut-shorter b [] before after h = absurd cc
cut-shorter b (x ∷ xs) before after h =
    step (cut b xs) (x == b) h (λ p q e. cut-shorter b xs p q e) refl
  where
    step :
        (o : Option (Bytes × Bytes)) (found : Bool)
        → (if found then some ([], xs) else cons_before x o) ≡ some (before, after)
        → ((p q : Bytes) → cut b xs ≡ some (p, q) → length q < length xs)
        → cut b xs ≡ o
        → length after < suc (length xs)
    step o true e ih at = let same : xs ≡ after = cc in rw (← same) (omega arith)
    step none false e ih at = absurd cc
    step (some (p, q)) false e ih at =
        let same : q ≡ after = cc in let shorter = ih p q at in rw (← same) (omega (arith, shorter))

parse_fields-split :
    (fuel spare : ℕ) (payload : Bytes)
    → length payload < fuel
    → map text_of (parse_fields fuel spare (some payload)) ≡ split_at backslash (tail payload)
unfolding parse_fields consume_field
parse_fields-split zero spare payload h = absurd (omega arith)
parse_fields-split (suc fuel) spare [] h = text_of_none fuel
  where
    text_of_none :
        (n : ℕ) → map text_of (record { text = []; room = 0 } ∷ parse_fields n spare none) ≡ [] ∷ []
    text_of_none n = refl
parse_fields-split (suc fuel) spare (x ∷ consumed) h =
    step (cut backslash consumed) refl
      (λ after p. parse_fields-split fuel spare (backslash ∷ after) p)
    ∙ sym (split_at-cut backslash consumed)
  where
    parse_none : (n : ℕ) → parse_fields n spare none ≡ []
    parse_none n = refl

    step :
        (o : Option (Bytes × Bytes))
        → cut backslash consumed ≡ o
        → ((after : Bytes)
            → suc (length after) < fuel
            → map text_of (parse_fields fuel spare (some (backslash ∷ after)))
              ≡ split_at backslash after)
        → (field_of consumed o).0 ∷ map text_of (parse_fields fuel spare (field_of consumed o).1)
          ≡ pieces_of backslash consumed o
    step none e ih = ap (λ fs. consumed ∷ map text_of fs) (parse_none fuel)
    step (some (before, after)) e ih =
        let shorter = cut-shorter backslash consumed before after e in
        ap (λ (ts : List Bytes). before ∷ ts) (ih after (omega (arith, shorter)))

-- the pieces two by two; a last one without a partner is dropped
abbrev pub in_pairs : List Bytes → List Param
in_pairs [] = []
in_pairs (name ∷ []) = []
in_pairs (name ∷ value ∷ rest) = record { name = name; value = value } ∷ in_pairs rest

abbrev pub param_of : Param × ℕ → Param
param_of p = p.0

in_pairs-pairs : (fields : List Field) → map param_of (pairs fields) ≡ in_pairs (map text_of fields)
in_pairs-pairs [] = refl
in_pairs-pairs (name ∷ []) = refl
in_pairs-pairs (name ∷ value ∷ rest) =
    ap (λ (ps : List Param). record { name = name.text; value = value.text } ∷ ps)
      (in_pairs-pairs rest)

-- For every payload, whatever follows it in its buffer, the loop reads all of it: the parameters are
-- the pieces of the text behind the first byte, split at each backslash and taken two by two.
pub parse_params-eq-split :
    (spare : ℕ) (payload : Bytes)
    → map param_of (parse_params spare payload) ≡ in_pairs (split_at backslash (tail payload))
unfolding parse_params
parse_params-eq-split spare payload =
    in_pairs-pairs (parse_fields (suc (length payload)) spare (some payload))
    ∙ ap in_pairs (parse_fields-split (suc (length payload)) spare payload (omega arith))

-- how a server writes parameters
abbrev pub render : List Param → Bytes
render [] = []
render (p ∷ ps) = backslash ∷ (p.name ++ (backslash ∷ (p.value ++ render ps)))

-- no backslash in the names and values
abbrev pub clean : List Param → Bool
clean [] = true
clean (p ∷ ps) = free_of backslash p.name && free_of backslash p.value && clean ps

split_at-append :
    (b : ℕ) (a rest : Bytes)
    → free_of b a ≡ true
    → split_at b (a ++ (b ∷ rest)) ≡ a ∷ split_at b rest
split_at-append b a rest h =
    split_at-cut b (a ++ (b ∷ rest)) ∙ ap (pieces_of b (a ++ (b ∷ rest))) (cut-free_of b a rest h)

split_at-free_of : (b : ℕ) (a : Bytes) → free_of b a ≡ true → split_at b a ≡ a ∷ []
split_at-free_of b a h = split_at-cut b a ∙ ap (pieces_of b a) (cut-none b a h)

in_pairs-render :
    (ps : List Param) → clean ps ≡ true → in_pairs (split_at backslash (tail (render ps))) ≡ ps
in_pairs-render [] h = refl
in_pairs-render (p ∷ []) h =
    rw
      (
        append-nil p.value,
        split_at-append backslash p.name p.value (ground arith),
        split_at-free_of backslash p.value (ground arith),
      )
      refl
in_pairs-render (p ∷ q ∷ ps) h =
    let rest = q.name ++ (backslash ∷ (q.value ++ render ps)) in
    rw
      (
        split_at-append backslash p.name (p.value ++ (backslash ∷ rest)) (ground arith),
        split_at-append backslash p.value rest (ground arith),
      )
      (ap (λ (ts : List Param). p ∷ ts) (in_pairs-render (q ∷ ps) (ground arith)))

-- Parameters without backslashes, empty names and values included, are read as they were written.
pub parse_params-render :
    (spare : ℕ) (ps : List Param)
    → clean ps ≡ true
    → map param_of (parse_params spare (render ps)) ≡ ps
parse_params-render spare ps h = parse_params-eq-split spare (render ps) ∙ in_pairs-render ps h
