-- ===== src/Browsing/Filter/Parsed.antt =====
-- Reading a filter that was written as a name, an operator and a value.
use swat4master.Prelude.{
  ◌≡◌, refl, sym, ap, ◌∙◌, ℕ, ◌+◌, ◌-◌, Bool, true, false, ◌&&◌, not, [], ◌∷◌, ◌++◌, length, take,
  drop, if◌then◌else◌, arith, length-append, drop-append, take-append,
}
use mathlib.Core.List.{append-nil, append_assoc}
use swat4master.Prelude.Bytes.{Bytes}
use swat4master.Browsing.Filter.{
  Stage, stage_name, stage_op, stage_value, Scan, is_op_char, between, scan_char, scan, start,
  parse, finish, parse_raw_filter_value, close,
}

-- that a byte leaves the stage as it is
abbrev stays : Stage → ℕ → Bool
stays stage_name c = not (is_op_char c)
stays stage_op c = is_op_char c
stays stage_value c = true

abbrev pub every_byte : (ℕ → Bool) → Bytes → Bool
every_byte p [] = true
every_byte p (c ∷ rest) = p c && every_byte p rest

module _ (text : Bytes) where
  scan_char-stays :
      (g : Stage) (s : Scan) (c : ℕ)
      → s.stage ≡ g
      → stays g c ≡ true
      → scan_char text s c ≡ record s { j = s.j + 1 }
  unfolding scan_char
  scan_char-stays stage_name s c e h = ground arith
  scan_char-stays stage_op s c e h = ground arith
  scan_char-stays stage_value s c e h = ground arith

  scan-stays :
      (g : Stage) (chars rest : Bytes) (s : Scan)
      → s.stage ≡ g
      → every_byte (stays g) chars ≡ true
      → scan text s (chars ++ rest) ≡ scan text (record s { j = s.j + length chars }) rest
  unfolding scan
  scan-stays g [] rest s e h = ap (λ (j : ℕ). scan text (record s { j = j }) rest) (omega arith)
  scan-stays g (c ∷ chars) rest s e h =
      ap (λ t. scan text t (chars ++ rest)) (scan_char-stays g s c e (ground arith))
      ∙ scan-stays g chars rest (record s { j = s.j + 1 }) e (ground arith)
      ∙ ap (λ (j : ℕ). scan text (record s { j = j }) rest) (omega arith)

module _ (n : ℕ) (name : Bytes) (o : ℕ) (ops : Bytes) (v : ℕ) (value : Bytes) where
  abbrev pub written : Bytes
  written = (n ∷ name) ++ ((o ∷ ops) ++ (v ∷ value))

  -- where the operator and the value start
  abbrev op_at : ℕ
  op_at = 0 + length (n ∷ name)

  abbrev value_at : ℕ
  value_at = op_at + 1 + length ops

  abbrev in_op : Scan
  in_op = record {
    stage = stage_op;
    field_name = between written 0 op_at;
    op = [];
    i = op_at;
    j = op_at + 1;
  }

  abbrev in_value : Scan
  in_value = record {
    stage = stage_value;
    field_name = between written 0 op_at;
    op = between written op_at value_at;
    i = value_at;
    j = value_at + 1;
  }

  scan-written :
      every_byte (stays stage_name) (n ∷ name) ≡ true
      → every_byte is_op_char (o ∷ ops) ≡ true
      → is_op_char v ≡ false
      → scan written start written ≡ record in_value { j = value_at + 1 + length value }
  unfolding scan scan_char
  scan-written plain op other =
      let first : is_op_char o ≡ true = ground arith in
      scan-stays written stage_name (n ∷ name) ((o ∷ ops) ++ (v ∷ value)) start refl plain
      ∙ ap
          (λ (b : Bool).
            scan written
              (Scan-passed (if b then record in_op { j = op_at } else record start { j = op_at }))
              (ops ++ (v ∷ value)))
          first
      ∙ scan-stays written stage_op ops (v ∷ value) in_op refl (ground arith)
      ∙ ap
          (λ (b : Bool).
            scan written
              (Scan-passed
                (if b then record in_op { j = value_at } else record in_value { j = value_at }))
              value)
          other
      ∙ ap (scan written in_value) (sym (append-nil value))
      ∙ scan-stays written stage_value value [] in_value refl (always value)
    where
      Scan-passed : Scan → Scan
      Scan-passed s = record s { j = s.j + 1 }

      always : (chars : Bytes) → every_byte (stays stage_value) chars ≡ true
      always [] = refl
      always (c ∷ chars) = always chars

  field_lem : between written 0 op_at ≡ n ∷ name
  field_lem = rw (start_len) (take-append (n ∷ name) ((o ∷ ops) ++ (v ∷ value)))
    where
      start_len : op_at - 0 ≡ length (n ∷ name)
      start_len = omega arith

  op_lem : between written op_at value_at ≡ o ∷ ops
  op_lem =
      let from : op_at ≡ length (n ∷ name) = omega arith in
      let long : value_at - op_at ≡ length (o ∷ ops) = omega arith in
      ap (λ (m : ℕ). take m (drop op_at written)) long
      ∙ ap (λ (m : ℕ). take (length (o ∷ ops)) (drop m written)) from
      ∙ ap (take (length (o ∷ ops))) (drop-append (n ∷ name) ((o ∷ ops) ++ (v ∷ value)))
      ∙ take-append (o ∷ ops) (v ∷ value)

  value_lem : drop value_at written ≡ v ∷ value
  value_lem =
      let both = (n ∷ name) ++ (o ∷ ops) in
      let from : value_at ≡ length both = omega (arith, length-append (n ∷ name) (o ∷ ops)) in
      ap (λ (m : ℕ). drop m written) from
      ∙ ap (drop (length both)) (sym (append_assoc (n ∷ name) (o ∷ ops) (v ∷ value)))
      ∙ drop-append both (v ∷ value)

  -- A text that is a name without operator characters, then some of these, then a value that starts
  -- with none, is read as the filter of just this name, operator and value; all are non-empty. What
  -- the operator and the value mean is up to `New` and to the parser of values.
  pub parse-written :
      every_byte (λ c. not (is_op_char c)) (n ∷ name) ≡ true
      → every_byte is_op_char (o ∷ ops) ≡ true
      → is_op_char v ≡ false
      → parse written ≡ finish (n ∷ name) (o ∷ ops) (parse_raw_filter_value (v ∷ value))
  unfolding parse
  parse-written plain op other =
      ap (λ (s : Scan). close written s.field_name s.stage s) (scan-written plain op other)
      ∙ ap
          (λ (field : Bytes).
            close written field stage_value (record in_value { j = value_at + 1 + length value }))
          field_lem
      ∙ ap (λ (op' : Bytes). finish (n ∷ name) op' (parse_raw_filter_value (drop value_at written)))
          op_lem
      ∙ ap (λ (raw : Bytes). finish (n ∷ name) (o ∷ ops) (parse_raw_filter_value raw)) value_lem
