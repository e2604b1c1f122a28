-- ===== src/Browsing/Accepted.antt =====
-- What holds of every request that is accepted.
use swat4master.Prelude.{
  ◌≡◌, refl, ap, ◌∙◌, subst, ℕ, zero, suc, ◌+◌, ◌*◌, ◌≤◌, ◌<◌, Bool, true, false, ◌&&◌, ◌||◌, List,
  [], ◌∷◌, ◌++◌, length, take, drop, ltb, ◌==◌, if◌then◌else◌, arith,
}
use swat4master.Prelude.Bytes.{Bytes}
use swat4master.Browsing
use swat4master.Browsing.Filter.{is_query_field}
use swat4master.Browsing.{Request, Result, ok, err, ◌>>=◌}

abbrev pub all_fields : List Bytes → Bool
all_fields [] = true
all_fields (f ∷ fields) = is_query_field f && all_fields fields

all_fields-append : (a b : List Bytes) → all_fields (a ++ b) ≡ (all_fields a && all_fields b)
all_fields-append [] b = refl
all_fields-append (f ∷ a) b = ground (arith, all_fields-append a b)

-- the two steps of a chain that ended well
both_steps :
    {T U : Type 0} (first : Result T) (next : T → Result U) (u : U)
    → (first >>= next) ≡ ok u
    → (t : T) × (first ≡ ok t) × (next t ≡ ok u)
both_steps (err problem) next u h = absurd cc
both_steps (ok t) next u h = (t, refl, h)

record IsFine (fields : List Bytes) : Type 0 where
  few : length fields ≤ 20
  all : all_fields fields ≡ true

limited :
    (over : Bool) (later : Result (List Bytes)) (out : List Bytes)
    → (if over then err Browsing.too_many_fields_requested else later) ≡ ok out
    → (over ≡ false) × (later ≡ ok out)
limited true later out h = absurd cc
limited false later out h = (refl, h)

collect_fields-IsFine :
    (fuel : ℕ) (fields : List Bytes) (text : Bytes) (out : List Bytes)
    → Browsing.collect_fields fuel fields text ≡ ok out
    → IsFine fields
    → IsFine out
unfolding Browsing.collect_fields
collect_fields-IsFine fuel fields [] out h fine =
    let same : fields ≡ out = cc in subst IsFine same fine
collect_fields-IsFine zero fields (c ∷ text) out h fine =
    let same : fields ≡ out = cc in subst IsFine same fine
collect_fields-IsFine (suc fuel) fields (c ∷ text) out h fine =
    let part = Browsing.consume_string (c ∷ text) 92 in
    step (is_query_field part.0) refl (Browsing.or_none_left part.1) h
      (λ more later e fine'. collect_fields-IsFine fuel more later out e fine')
  where
    step :
        (query : Bool)
        → is_query_field (Browsing.consume_string (c ∷ text) 92).0 ≡ query
        → (rest : Bytes)
        → (let more =
              if query
              then fields ++ ((Browsing.consume_string (c ∷ text) 92).0 ∷ [])
              else fields in
            if ltb 20 (length more)
            then err Browsing.too_many_fields_requested
            else Browsing.collect_fields fuel more rest)
          ≡ ok out
        → ((more : List Bytes) (later : Bytes)
            → Browsing.collect_fields fuel more later ≡ ok out
            → IsFine more
            → IsFine out)
        → IsFine out
    step true e rest h ih =
        let field = (Browsing.consume_string (c ∷ text) 92).0 in
        let more = fields ++ (field ∷ []) in
        let (small, went) =
          limited (ltb 20 (length more)) (Browsing.collect_fields fuel more rest) out h in
        ih more rest went (record {
          few = ground (arith, small);
          all = all_fields-append fields (field ∷ []) ∙ ground (arith, fine.all, e);
        })
    step false e rest h ih =
        let (small, went) =
          limited (ltb 20 (length fields)) (Browsing.collect_fields fuel fields rest) out h in
        ih fields rest went fine

some_fields-eq-ok :
    (found out : List Bytes)
    → Browsing.some_fields found ≡ ok out
    → (found ≡ out) × (0 < length out)
some_fields-eq-ok [] out h = absurd cc
some_fields-eq-ok (f ∷ found) out h =
    let same : f ∷ found ≡ out = cc in
    (same, subst (λ (l : List Bytes). 0 < length l) same (omega arith))

-- the fields of an accepted request
abbrev pub AreAccepted : List Bytes → Type 0
AreAccepted fields = (0 < length fields) × (length fields ≤ 20) × (all_fields fields ≡ true)

field_list-AreAccepted :
    (text : Bytes) (out : List Bytes) → Browsing.field_list text ≡ ok out → AreAccepted out
field_list-AreAccepted [] out h = absurd cc
field_list-AreAccepted (c ∷ names) out h = step (c == 92) h
  where
    step :
        (slash : Bool)
        → (if slash
            then Browsing.collect_fields (length names) [] names >>= Browsing.some_fields
            else err Browsing.invalid_request_format)
          ≡ ok out
        → AreAccepted out
    step false h = absurd cc
    step true h =
        let (found, collected, kept) =
          both_steps (Browsing.collect_fields (length names) [] names) Browsing.some_fields out h in
        let (same, many) = some_fields-eq-ok found out kept in
        let fine =
          collect_fields-IsFine (length names) [] names found collected
            (record { few = omega arith; all = refl }) in
        let fine' = subst IsFine same fine in (many, fine'.few, fine'.all)

parse_fields-AreAccepted :
    (text : Bytes) (fields : List Bytes) (rest : Bytes)
    → Browsing.parse_fields text ≡ ok (fields, rest)
    → AreAccepted fields
unfolding Browsing.parse_fields
parse_fields-AreAccepted text fields rest h =
    let (parts, _, listed) = both_steps (Browsing.c_string text) _ _ h in
    let (found, read, last) = both_steps (Browsing.field_list parts.0) _ _ listed in
    let same : found ≡ fields = cc in
    field_list-AreAccepted parts.0 fields
      (subst (λ fs. Browsing.field_list parts.0 ≡ ok fs) same read)

length-take : (n : ℕ) (l : Bytes) → n ≤ length l → length (take n l) ≡ n
length-take zero l h = refl
length-take (suc n) [] h = absurd (omega arith)
length-take (suc n) (x ∷ l) h = ap suc (length-take n l (omega arith))

parse_challenge-length :
    (text challenge rest : Bytes)
    → Browsing.parse_challenge text ≡ ok (challenge, rest)
    → length challenge ≡ 8
unfolding Browsing.parse_challenge
parse_challenge-length text challenge rest h = step (ltb (length text) 8) refl h
  where
    step :
        (short : Bool)
        → ltb (length text) 8 ≡ short
        → (if◌then◌else◌ {A = Result (Bytes × Bytes)} short
            (err Browsing.invalid_request_format)
            (ok (take 8 text, drop 8 text)))
          ≡ ok (challenge, rest)
        → length challenge ≡ 8
    step true e h = absurd cc
    step false e h =
        let same : take 8 text ≡ challenge = cc in rw (← same) (length-take 8 text (ground arith))

abbrev pub IsAccepted : Request → Type 0
IsAccepted req = (length req.challenge ≡ 8) × AreAccepted req.fields

parse-IsAccepted : (text : Bytes) (req : Request) → Browsing.parse text ≡ ok req → IsAccepted req
unfolding Browsing.parse
parse-IsAccepted text req h =
    let (p1, _, h1) = both_steps (Browsing.c_string text) _ _ h in
    let (p2, _, h2) = both_steps (Browsing.c_string p1.1) _ _ h1 in
    let (p3, challenged, h3) = both_steps (Browsing.parse_challenge p2.1) _ _ h2 in
    let (p4, _, h4) = both_steps (Browsing.c_string p3.1) _ _ h3 in
    let (p5, listed, h5) = both_steps (Browsing.parse_fields p4.1) _ _ h4 in
    let (p6, _, last) = both_steps (Browsing.validate_options_mask p5.1) _ _ h5 in
    let made : Request = record { filters = p4.0; fields = p5.0; challenge = p3.0 } in
    let same : made ≡ req = cc in
    subst IsAccepted same (
      parse_challenge-length p2.1 p3.0 p3.1 challenged,
      parse_fields-AreAccepted p4.1 p5.0 p5.1 listed,
    )

-- Every accepted request, whatever the datagram, has a challenge of eight bytes and between one and
-- twenty fields, all of which can be queried.
pub new_request-IsAccepted :
    (text : Bytes) (req : Request) → Browsing.new_request text ≡ ok req → IsAccepted req
unfolding Browsing.new_request
new_request-IsAccepted [] req h = absurd cc
new_request-IsAccepted (hi ∷ []) req h = absurd cc
new_request-IsAccepted (hi ∷ lo ∷ rest) req h =
    let data_len = hi * 256 + lo in
    step (ltb data_len 26 || ltb (suc (suc (length rest))) data_len) h
  where
    step :
        (bad : Bool)
        → (if bad
            then err Browsing.invalid_request_format
            else Browsing.parse (drop 9 (take (hi * 256 + lo) (hi ∷ lo ∷ rest))))
          ≡ ok req
        → IsAccepted req
    step true h = absurd cc
    step false h = parse-IsAccepted (drop 9 (take (hi * 256 + lo) (hi ∷ lo ∷ rest))) req h
