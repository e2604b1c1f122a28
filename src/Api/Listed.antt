-- ===== src/Api/Listed.antt =====
-- Which servers the form of a list request lets through.
use swat4master.Prelude.{
  ◌≡◌, refl, ap, ◌∙◌, Bool, true, false, ◌&&◌, ◌||◌, not, some, List, [], ◌∷◌, ◌++◌, arith,
  if◌then◌else◌,
}
use swat4master.Prelude.Int.{ℤ, pos, ltℤ, eqℤ}
use swat4master.Prelude.Bytes.{Bytes, codes, beq}
use swat4master.Params.{Struct, int, bool, str}
use swat4master.Browsing.Filter
use swat4master.Browsing.Filter.{Filter, new_filter, is_query_field, get_struct_field}
use swat4master.Browsing.Query
use swat4master.Browsing.Query.{Query, new_query}
use swat4master.Api.{
  ServerFilterForm, maybe_add_filter, when_named, when_hidden, query_or_blank, prepare_query,
}

-- the fields of a server that the form asks for
pub record HasFields (info : Struct) : Type 0 where
  pub game_variant : Bytes
  pub game_ver : Bytes
  pub game_type : Bytes
  pub password : Bool
  pub num_players : ℤ
  pub max_players : ℤ
  pub at_variant : get_struct_field info (codes "gamevariant") ≡ some (str game_variant)
  pub at_ver : get_struct_field info (codes "gamever") ≡ some (str game_ver)
  pub at_type : get_struct_field info (codes "gametype") ≡ some (str game_type)
  pub at_password : get_struct_field info (codes "password") ≡ some (bool password)
  pub at_players : get_struct_field info (codes "numplayers") ≡ some (int num_players)
  pub at_max : get_struct_field info (codes "maxplayers") ≡ some (int max_players)

-- a value of the form that is not empty is the field's
abbrev pub is_asked : Bytes → Bytes → Bool
is_asked [] value = true
is_asked (c ∷ asked) value = beq value (c ∷ asked)

abbrev pub is_wanted : ServerFilterForm → (info : Struct) → HasFields info → Bool
is_wanted form info has =
    is_asked form.game_variant has.game_variant
    && is_asked form.game_ver has.game_ver
    && is_asked form.game_type has.game_type
    && not (form.hide_passworded && has.password)
    && not (form.hide_full && eqℤ has.num_players has.max_players)
    && (not form.hide_empty || ltℤ (pos 0) has.num_players)

query_or_blank_all :
    (filters : List Filter) → query_or_blank (new_query (Query.ok filters)) ≡ filters
query_or_blank_all [] = refl
query_or_blank_all (f ∷ filters) = refl

module _ (info : Struct) where
  match-append :
      (filters : List Filter) (f : Filter)
      → Query.match (filters ++ f ∷ []) info
        ≡ (Query.match filters info && Query.matched (Filter.match f info))
  unfolding Query.match
  match-append [] f = both (Query.matched (Filter.match f info))
    where
      both : (b : Bool) → (if b then true else false) ≡ b
      both true = refl
      both false = refl
  match-append (g ∷ filters) f = ground (arith, match-append filters f)

  match-maybe :
      (filters : List Filter) (r : Filter.Result Filter) (f : Filter) (b : Bool)
      → r ≡ Filter.ok f
      → Query.matched (Filter.match f info) ≡ b
      → Query.match (maybe_add_filter filters r) info ≡ (Query.match filters info && b)
  match-maybe filters r f b e m =
      ap (λ x. Query.match (maybe_add_filter filters x) info) e
      ∙ match-append filters f
      ∙ ap (λ x. Query.match filters info && x) m

  and_true : (b : Bool) → b ≡ (b && true)
  and_true true = refl
  and_true false = refl

  accepted :
      (field : Bytes) (value : Filter.Wanted)
      → is_query_field field ≡ true
      → new_filter field (codes "=") value
        ≡ Filter.ok (record { field = field; op = Filter.eq; rawop = codes "="; value = value })
  unfolding new_filter
  accepted field value known = rw known refl

  compared :
      (field value asked : Bytes)
      → get_struct_field info field ≡ some (str value)
      → Query.matched (
          Filter.match
            (record {
              field = field;
              op = Filter.eq;
              rawop = codes "=";
              value = Filter.quoted asked;
            })
            info)
        ≡ beq value asked
  unfolding Filter.match Filter.compare_to_string
  compared field value asked at = rw at refl

  match-named :
      (field value asked : Bytes) (filters : List Filter)
      → is_query_field field ≡ true
      → get_struct_field info field ≡ some (str value)
      → Query.match (when_named field asked filters) info
        ≡ (Query.match filters info && is_asked asked value)
  match-named field value [] filters known at = and_true (Query.match filters info)
  match-named field value (c ∷ asked) filters known at =
      match-maybe filters (new_filter field (codes "=") (Filter.quoted (c ∷ asked)))
        (record {
          field = field;
          op = Filter.eq;
          rawop = codes "=";
          value = Filter.quoted (c ∷ asked);
        })
        (beq value (c ∷ asked)) (accepted field (Filter.quoted (c ∷ asked)) known)
        (compared field value (c ∷ asked) at)

  match-hidden :
      (b passes : Bool) (r : Filter.Result Filter) (f : Filter) (filters : List Filter)
      → r ≡ Filter.ok f
      → Query.matched (Filter.match f info) ≡ passes
      → Query.match (when_hidden b r filters) info ≡ (Query.match filters info && (not b || passes))
  match-hidden false passes r f filters e m = and_true (Query.match filters info)
  match-hidden true passes r f filters e m = match-maybe filters r f passes e m

  -- the three filters of the switches
  abbrev not_passworded : Filter
  not_passworded = record {
    field = codes "password";
    op = Filter.ne;
    rawop = codes "!=";
    value = Filter.number (pos 1);
  }

  abbrev not_full : Filter
  not_full = record {
    field = codes "numplayers";
    op = Filter.ne;
    rawop = codes "!=";
    value = Filter.field_value (codes "maxplayers");
  }

  abbrev not_empty : Filter
  not_empty = record {
    field = codes "numplayers";
    op = Filter.gt;
    rawop = codes ">";
    value = Filter.number (pos 0);
  }

  made :
      (new_filter (codes "password") (codes "!=") (Filter.number (pos 1))
        ≡ Filter.ok not_passworded)
      × (new_filter (codes "numplayers") (codes "!=") (Filter.field_value (codes "maxplayers"))
          ≡ Filter.ok not_full)
      × (new_filter (codes "numplayers") (codes ">") (Filter.number (pos 0)) ≡ Filter.ok not_empty)
  unfolding new_filter is_query_field
  made = (refl, refl, refl)

  known :
      (is_query_field (codes "gamevariant") ≡ true)
      × (is_query_field (codes "gamever") ≡ true)
      × (is_query_field (codes "gametype") ≡ true)
  unfolding is_query_field
  known = (refl, refl, refl)

  module _ (has : HasFields info) where
    passworded : Query.matched (Filter.match not_passworded info) ≡ not has.password
    unfolding Filter.match Filter.compare_to_int Filter.compare_ints
    passworded = rw has.at_password (flag has.password)
      where
        flag : (b : Bool) → not (eqℤ (pos (if b then 1 else 0)) (pos 1)) ≡ not b
        flag true = refl
        flag false = refl

    full : Query.matched (Filter.match not_full info) ≡ not (eqℤ has.num_players has.max_players)
    unfolding Filter.match Filter.compare_to_int Filter.compare_ints Filter.compare_values
    full = rw (has.at_players, has.at_max) refl

    empty : Query.matched (Filter.match not_empty info) ≡ ltℤ (pos 0) has.num_players
    unfolding Filter.match Filter.compare_to_int Filter.compare_ints
    empty = rw has.at_players refl

    nothing_asked : Query.match [] info ≡ true
    unfolding Query.match
    nothing_asked = refl

    all_of :
        (m5 m4 m3 m2 m1 m0 a1 a2 a3 h4 p4 h5 p5 a6 : Bool)
        → m5 ≡ (m4 && (not h5 || not p5))
        → m4 ≡ (m3 && (not h4 || not p4))
        → m3 ≡ (m2 && a3)
        → m2 ≡ (m1 && a2)
        → m1 ≡ (m0 && a1)
        → m0 ≡ true
        → (m5 && a6) ≡ (a1 && a2 && a3 && not (h4 && p4) && not (h5 && p5) && a6)
    all_of m5 m4 m3 m2 m1 m0 a1 a2 a3 h4 p4 h5 p5 a6 e5 e4 e3 e2 e1 e0 =
        ground (arith, e5, e4, e3, e2, e1, e0)

    -- For a server with the fields of the form, the query of a form matches exactly when each value
    -- that the form names is the server's, and it neither needs a password, nor is full, nor is
    -- empty, where the form hides such servers.
    pub prepare_query_lem :
        (form : ServerFilterForm) → Query.match (prepare_query form) info ≡ is_wanted form info has
    unfolding prepare_query
    prepare_query_lem form =
        let (k1, k2, k3) = known in
        let (n4, n5, n6) = made in
        let f1 = when_named (codes "gamevariant") form.game_variant [] in
        let f2 = when_named (codes "gamever") form.game_ver f1 in
        let f3 = when_named (codes "gametype") form.game_type f2 in
        let r4 = new_filter (codes "password") (codes "!=") (Filter.number (pos 1)) in
        let f4 = when_hidden form.hide_passworded r4 f3 in
        let r5 =
          new_filter (codes "numplayers") (codes "!=") (Filter.field_value (codes "maxplayers")) in
        let f5 = when_hidden form.hide_full r5 f4 in
        let r6 = new_filter (codes "numplayers") (codes ">") (Filter.number (pos 0)) in
        let f6 = when_hidden form.hide_empty r6 f5 in
        let m1 =
          match-named (codes "gamevariant") has.game_variant form.game_variant [] k1
            has.at_variant in
        let m2 = match-named (codes "gamever") has.game_ver form.game_ver f1 k2 has.at_ver in
        let m3 = match-named (codes "gametype") has.game_type form.game_type f2 k3 has.at_type in
        let m4 =
          match-hidden form.hide_passworded (not has.password) r4 not_passworded f3 n4 passworded in
        let m5 =
          match-hidden form.hide_full (not (eqℤ has.num_players has.max_players)) r5 not_full f4 n5
            full in
        let m6 =
          match-hidden form.hide_empty (ltℤ (pos 0) has.num_players) r6 not_empty f5 n6 empty in
        ap (λ q. Query.match q info) (query_or_blank_all f6)
        ∙ m6
        ∙ all_of (Query.match f5 info) (Query.match f4 info) (Query.match f3 info)
            (Query.match f2 info) (Query.match f1 info) (Query.match [] info)
            (is_asked form.game_variant has.game_variant) (is_asked form.game_ver has.game_ver)
            (is_asked form.game_type has.game_type) form.hide_passworded has.password form.hide_full
            (eqℤ has.num_players has.max_players)
            (not form.hide_empty || ltℤ (pos 0) has.num_players) m5 m4 m3 m2 m1 nothing_asked
