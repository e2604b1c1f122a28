-- ===== src/Reporter/Parsed.antt =====
-- What is read from the fields of a heartbeat.
use swat4master.Prelude.{
  ◌≡◌, refl, ap, ◌∙◌, ℕ, zero, suc, ◌+◌, ◌≤◌, ◌<◌, Bool, true, false, ◌&&◌, ◌||◌, not, some, List,
  [], ◌∷◌, ◌++◌, length, length-append, ◌==◌, if◌then◌else◌, arith, Bool-cases, inl, inr,
}
use mathlib.Core.List.{append_assoc}
use swat4master.Prelude.Options.{◌>>=◌}
use swat4master.Prelude.Bytes.{Bytes, store}
use swat4master.Prelude.Text.{free_of, cut-free_of}
use swat4master.Prelude.Utf8.{to_valid_utf8}
use swat4master.Params.{ParamMap}
use swat4master.Browsing.{consumed, consume_c_string, consume_string}
use swat4master.Reporter.Fields.{
  is_reportable_field, parse_heartbeat_field, parse_fields, parse_heartbeat_params, with_value,
  store_value,
}

abbrev pub Pair : Type 0
Pair = Bytes × Bytes

-- a text that can stand between null bytes: some bytes, none of them null
abbrev pub is_text : Bytes → Bool
is_text [] = false
is_text (c ∷ rest) = free_of 0 (c ∷ rest)

-- Both are texts, and the value of a field that is not reported is not the name of one that is.
abbrev pub is_plain : Pair → Bool
is_plain (name, value) =
    is_text name && is_text value && (is_reportable_field name || not (is_reportable_field value))

abbrev pub all_plain : List Pair → Bool
all_plain [] = true
all_plain (p ∷ pairs) = is_plain p && all_plain pairs

abbrev pub render : List Pair → Bytes
render [] = []
render ((name, value) ∷ pairs) = name ++ (0 ∷ (value ++ (0 ∷ render pairs)))

-- the reportable ones; a later value replaces an earlier one
abbrev pub store_reportable : ParamMap → List Pair → ParamMap
store_reportable fields [] = fields
store_reportable fields ((name, value) ∷ pairs) =
    store_reportable
      (if is_reportable_field name then store name (to_valid_utf8 value) fields else fields) pairs

text-free_of : (text : Bytes) → is_text text ≡ true → free_of 0 text ≡ true
text-free_of [] h = absurd cc
text-free_of (c ∷ rest) h = h

consume-text :
    (text rest : Bytes)
    → is_text text ≡ true
    → consume_c_string (text ++ (0 ∷ rest)) ≡ (text, some rest)
unfolding consume_c_string consume_string
consume-text text rest h =
    ap (consumed (text ++ (0 ∷ rest))) (cut-free_of 0 text rest (text-free_of text h))

module _ (fields : ParamMap) where
  read_value :
      (name value rest : Bytes)
      → is_text value ≡ true
      → with_value fields name (value ++ (0 ∷ rest))
        ≡ some (store name (to_valid_utf8 value) fields, rest)
  read_value name [] rest h = absurd cc
  read_value name (c ∷ value) rest h =
      let other : (c == 0) ≡ false = ground (arith) in
      rw other (ap (λ p. some (store_value fields name p)) (consume-text (c ∷ value) rest h))

  read_reportable :
      (name value rest : Bytes)
      → is_text name ≡ true
      → is_text value ≡ true
      → is_reportable_field name ≡ true
      → parse_heartbeat_field fields (name ++ (0 ∷ (value ++ (0 ∷ rest))))
        ≡ some (store name (to_valid_utf8 value) fields, rest)
  unfolding parse_heartbeat_field
  read_reportable name value rest h k reportable =
      rw (consume-text name (value ++ (0 ∷ rest)) h, reportable) (read_value name value rest k)

  skip_other :
      (name rest : Bytes)
      → is_text name ≡ true
      → is_reportable_field name ≡ false
      → parse_heartbeat_field fields (name ++ (0 ∷ rest)) ≡ some (fields, rest)
  unfolding parse_heartbeat_field
  skip_other name rest h other = rw (consume-text name rest h, other) refl

  next_field :
      (fuel : ℕ) (name rest : Bytes)
      → is_text name ≡ true
      → parse_fields (suc fuel) fields (name ++ (0 ∷ rest)) ≡ (
          parse_heartbeat_field fields (name ++ (0 ∷ rest)) >>= λ (p : ParamMap × Bytes).
          parse_fields fuel p.0 p.1)
  unfolding parse_fields
  next_field fuel [] rest h = absurd cc
  next_field fuel (c ∷ name) rest h = let other : (c == 0) ≡ false = ground (arith) in rw other refl

  read_pair :
      (fuel : ℕ) (name value rest : Bytes)
      → is_text name ≡ true
      → is_text value ≡ true
      → is_reportable_field name ≡ true
      → parse_fields (suc fuel) fields (name ++ (0 ∷ (value ++ (0 ∷ rest))))
        ≡ parse_fields fuel (store name (to_valid_utf8 value) fields) rest
  read_pair fuel name value rest h k reportable =
      next_field fuel name (value ++ (0 ∷ rest)) h
      ∙ rw (read_reportable name value rest h k reportable) refl

  skip_name :
      (fuel : ℕ) (name rest : Bytes)
      → is_text name ≡ true
      → is_reportable_field name ≡ false
      → parse_fields (suc fuel) fields (name ++ (0 ∷ rest)) ≡ parse_fields fuel fields rest
  skip_name fuel name rest h other =
      next_field fuel name rest h ∙ rw (skip_other name rest h other) refl

shape :
    (name value rest end : Bytes)
    → (name ++ (0 ∷ (value ++ (0 ∷ rest)))) ++ end ≡ name ++ (0 ∷ (value ++ (0 ∷ (rest ++ end))))
shape name value rest end =
    append_assoc name (0 ∷ (value ++ (0 ∷ rest))) end
    ∙ ap (λ t. name ++ (0 ∷ t)) (append_assoc value (0 ∷ rest) end)

length-shape :
    (name value rest : Bytes)
    → length (name ++ (0 ∷ (value ++ (0 ∷ rest)))) ≡ length name + (2 + length value) + length rest
length-shape name value rest =
    omega (arith, length-append name (0 ∷ (value ++ (0 ∷ rest))), length-append value (0 ∷ rest))

text_long : (text : Bytes) → is_text text ≡ true → 0 < length text
text_long [] h = absurd cc
text_long (c ∷ rest) h = omega arith

parse_fields-render :
    (pairs : List Pair) (fuel : ℕ) (fields : ParamMap) (junk : Bytes)
    → length (render pairs) ≤ fuel
    → all_plain pairs ≡ true
    → parse_fields (suc fuel) fields (render pairs ++ (0 ∷ junk))
      ≡ some (store_reportable fields pairs)
unfolding parse_fields
parse_fields-render [] fuel fields junk enough h = refl
parse_fields-render ((name, value) ∷ pairs) zero fields junk enough h =
    absurd (omega (arith, length-shape name value (render pairs)))
parse_fields-render ((name, value) ∷ pairs) (suc zero) fields junk enough h =
    let plain : is_text name ≡ true = ground (arith) in
    absurd (omega (arith, length-shape name value (render pairs), text_long name plain))
parse_fields-render ((name, value) ∷ pairs) (suc (suc fuel)) fields junk enough h =
    let left = render pairs ++ (0 ∷ junk) in
    let plain : is_text name ≡ true = ground (arith) in
    let there : is_text value ≡ true = ground (arith) in
    let fits : length (render pairs) + 2 ≤ fuel + 1 = omega (
      arith,
      length-shape name value (render pairs),
      text_long name plain,
      text_long value there,
    ) in
    ap (parse_fields (suc (suc (suc fuel))) fields) (shape name value (render pairs) (0 ∷ junk))
    ∙ elim (Bool-cases (is_reportable_field name)) [
      | inl on ↦
          read_pair fields (suc (suc fuel)) name value left plain there on
          ∙ parse_fields-render pairs (suc fuel) (store name (to_valid_utf8 value) fields) junk
              (omega arith) (ground (arith))
          ∙ rw on refl
      | inr off ↦
          let other : is_reportable_field value ≡ false = ground (arith) in
          skip_name fields (suc (suc fuel)) name (value ++ (0 ∷ left)) plain off
          ∙ skip_name fields (suc fuel) value left there other
          ∙ parse_fields-render pairs fuel fields junk (omega arith) (ground (arith))
          ∙ rw off refl
    ]

-- Pairs of texts without null bytes, written with a null byte behind each text and one at the end,
-- are read back as the values of the reportable fields, each made valid UTF-8; what is behind the
-- last null byte is not read. The value of a field that is not reportable may not be the name of one
-- that is.
pub parse_heartbeat_params-render :
    (pairs : List Pair) (junk : Bytes)
    → all_plain pairs ≡ true
    → parse_heartbeat_params (render pairs ++ (0 ∷ junk)) ≡ some (store_reportable [] pairs)
unfolding parse_heartbeat_params
parse_heartbeat_params-render pairs junk plain =
    ap (λ (n : ℕ). parse_fields n [] (render pairs ++ (0 ∷ junk))) size
    ∙ parse_fields-render pairs (length (render pairs) + length junk) [] junk (omega arith) plain
  where
    size : length (render pairs ++ (0 ∷ junk)) ≡ suc (length (render pairs) + length junk)
    size = omega (arith, length-append (render pairs) (0 ∷ junk))

-- The value of a field that is not reportable is read as a name: if it is the name of a reportable
-- field, the name of the next field becomes its value, and the next value is read as a name.
parse_fields-shifted :
    (fuel : ℕ) (fields : ParamMap) (other value next rest : Bytes)
    → is_text other ≡ true
    → is_text value ≡ true
    → is_text next ≡ true
    → is_reportable_field other ≡ false
    → is_reportable_field value ≡ true
    → parse_fields (suc (suc fuel)) fields (other ++ (0 ∷ (value ++ (0 ∷ (next ++ (0 ∷ rest))))))
      ≡ parse_fields fuel (store value (to_valid_utf8 next) fields) rest
parse_fields-shifted fuel fields other value next rest h k l off on =
    skip_name fields (suc fuel) other (value ++ (0 ∷ (next ++ (0 ∷ rest)))) h off
    ∙ read_pair fields fuel value next rest k l on
