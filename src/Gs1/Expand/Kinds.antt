-- ===== src/Gs1/Expand/Kinds.antt =====
-- What becomes of the parameters of each kind.
use swat4master.Prelude.{
  ◌≡◌, refl, sym, ap, ◌∙◌, ℕ, suc, ◌+◌, ◌≤◌, ◌<◌, Bool, true, false, some, List, [], ◌∷◌, ◌++◌,
  length, length-append, ◌-◌, ltb, if◌then◌else◌, arith,
}
use swat4master.Prelude.Bytes.{Bytes, store}
use swat4master.Prelude.Int.{ℤ, pos, negsuc, eqℤ, ltℤ}
use swat4master.Prelude.IntMap
use swat4master.Prelude.IntMap.{eqℤ_iff}
use swat4master.Strconv.{atoi}
use swat4master.Params.{ParamMap}
use swat4master.Prelude.Text.{has_prefix, free_of, cut-none, cut-free_of}
use swat4master.Gs1.{QueryVersion, backslash, consume_field}
use swat4master.Gs1.Fields.{parse_fields, parse_params}
use swat4master.Gs1.Expand

no_digits : {id : ℤ} → atoi [] ≡ some id → ⊥
unfolding atoi
no_digits h = cc

parse_params_two :
    (spare : ℕ) (name value : Bytes)
    → free_of backslash name ≡ true
    → free_of backslash value ≡ true
    → parse_params spare (backslash ∷ (name ++ (backslash ∷ value)))
      ≡ (record { name = name; value = value }, length (name ++ (backslash ∷ value)) + spare) ∷ []
unfolding parse_params parse_fields consume_field
parse_params_two spare name value n v =
    rw (cut-free_of backslash name value n, cut-none backslash value v, parse_fields) refl

module _ (latin1 : Bytes → Bytes) where
  -- A payload of one name and value, without backslashes and of less than three bytes together, in a
  -- buffer of its own size, makes `expandPayload` panic.
  pub expand_payload_panics :
      (name value : Bytes) (version : QueryVersion)
      → free_of backslash name ≡ true
      → free_of backslash value ≡ true
      → length name + length value < 3
      → let text = backslash ∷ (name ++ (backslash ∷ value)) in
        Expand.expand_payload latin1 text (length text) version ≡ Expand.panicked
  unfolding Expand.expand_payload Expand.expand_params Expand.expand_param
  expand_payload_panics name value version n v short =
      let consumed = name ++ (backslash ∷ value) in
      let alone : suc (length consumed) - suc (length consumed) ≡ 0 = omega arith in
      let read = parse_params_two 0 name value n v in
      let small : ltb (length consumed + 0) 4 ≡ true =
        ground (arith, length-append name (backslash ∷ value)) in
      rw (alone, read, small) refl

  -- A parameter whose name is a key, an underscore and an integer, and which does not start with
  -- `obj_`, sets that key of the player of this number, decoded; no other player's entry changes, no
  -- field and no objective. The buffer has at least four bytes from the name on.
  pub expand_param_player :
      (e : Expand.Expanded) (key digits value : Bytes) (id : ℤ) (room : ℕ)
      → 4 ≤ room
      → free_of Expand.underscore key ≡ true
      → has_prefix (key ++ (Expand.underscore ∷ digits)) Expand.obj_prefix ≡ false
      → atoi digits ≡ some id
      → (e' : Expand.Expanded) × (Expand.expand_param latin1 e
            (record { name = key ++ (Expand.underscore ∷ digits); value = value })
            room
          ≡ Expand.next e')
        × ((j : ℤ)
            → IntMap.find j e'.players_by_id ≡ (
                if eqℤ id j
                then some (
                    store key (latin1 value) (Expand.or_empty_map (IntMap.find id e.players_by_id)))
                else IntMap.find j e.players_by_id))
        × (e'.fields ≡ e.fields)
        × (e'.objectives ≡ e.objectives)
  unfolding Expand.expand_param Expand.add_player
  expand_param_player e key digits value id room wide single other number =
      let known = Expand.or_empty_map (IntMap.find id e.players_by_id) in
      let roomy : ltb room 4 ≡ false = ground arith in
      (
        Expand.add_player latin1 e key value id,
        rw (roomy, other, cut-free_of Expand.underscore key digits single) (numbered digits number),
        (λ j. IntMap.find-store id j (store key (latin1 value) known) e.players_by_id),
        refl,
        refl,
      )
    where
      numbered :
          (text : Bytes)
          → atoi text ≡ some id
          → Expand.with_underscore latin1 e
              (record { name = key ++ (Expand.underscore ∷ digits); value = value })
              (some (key, text))
            ≡ Expand.next (Expand.add_player latin1 e key value id)
      numbered [] h = absurd (no_digits h)
      numbered (c ∷ text) h = ap (Expand.with_id latin1 e key value) h

-- each number is at most the next one
abbrev pub IsSorted : List (ℤ × ParamMap) → Type 0
IsSorted [] = Unit
IsSorted (p ∷ []) = Unit
IsSorted (p ∷ q ∷ rest) = (ltℤ q.0 p.0 ≡ false) × IsSorted (q ∷ rest)

ltℤ_asym : (a b : ℤ) → ltℤ a b ≡ true → (ltℤ b a ≡ false) × (eqℤ a b ≡ false)
ltℤ_asym (pos a) (pos b) h = ground arith
ltℤ_asym (pos a) (negsuc b) h = ground arith
ltℤ_asym (negsuc a) (pos b) h = ground arith
ltℤ_asym (negsuc a) (negsuc b) h = ground arith

module _ (latin1 : Bytes → Bytes) where
  insert_by_id-IsSorted :
      (p : ℤ × ParamMap) (m : List (ℤ × ParamMap))
      → IsSorted m
      → IsSorted (Expand.insert_by_id latin1 p m)
  insert_by_id-IsSorted p [] h = tt
  insert_by_id-IsSorted p (q ∷ []) h = two (ltℤ q.0 p.0) refl
    where
      two : (less : Bool) → ltℤ q.0 p.0 ≡ less → IsSorted (if less then q ∷ p ∷ [] else p ∷ q ∷ [])
      two true e = ((ltℤ_asym q.0 p.0 e).0, tt)
      two false e = (e, tt)
  insert_by_id-IsSorted p (q ∷ r ∷ rest) h =
      more (ltℤ q.0 p.0) (ltℤ r.0 p.0) refl (insert_by_id-IsSorted p (r ∷ rest) h.1)
    where
      more :
          (less less' : Bool)
          → ltℤ q.0 p.0 ≡ less
          → IsSorted (if less' then r ∷ Expand.insert_by_id latin1 p rest else p ∷ r ∷ rest)
          → IsSorted (
              if less
              then q ∷ (if less' then r ∷ Expand.insert_by_id latin1 p rest else p ∷ r ∷ rest)
              else p ∷ q ∷ r ∷ rest)
      more true true e ih = (h.0, ih)
      more true false e ih = ((ltℤ_asym q.0 p.0 e).0, ih)
      more false less' e ih = (e, h)

  find-insert_by_id :
      (p : ℤ × ParamMap) (m : List (ℤ × ParamMap)) (k : ℤ)
      → IntMap.find k (Expand.insert_by_id latin1 p m)
        ≡ (if eqℤ p.0 k then some p.1 else IntMap.find k m)
  find-insert_by_id p [] k = refl
  find-insert_by_id p (q ∷ rest) k =
      pick (ltℤ q.0 p.0) (eqℤ q.0 k) (eqℤ p.0 k) refl refl refl (find-insert_by_id p rest k)
    where
      true_false : true ≡ false → ⊥
      true_false h = cc

      pick :
          (less here there : Bool)
          → ltℤ q.0 p.0 ≡ less
          → eqℤ q.0 k ≡ here
          → eqℤ p.0 k ≡ there
          → IntMap.find k (Expand.insert_by_id latin1 p rest)
            ≡ (if there then some p.1 else IntMap.find k rest)
          → IntMap.find k (if less then q ∷ Expand.insert_by_id latin1 p rest else p ∷ q ∷ rest)
            ≡ (if there then some p.1 else (if here then some q.1 else IntMap.find k rest))
      pick false here there l e f ih = rw (e, f) refl
      pick true true true l e f ih =
          let same : q.0 ≡ p.0 = (eqℤ_iff q.0 k).0 e ∙ sym ((eqℤ_iff p.0 k).0 f) in
          absurd (true_false (sym ((eqℤ_iff q.0 p.0).1 same) ∙ (ltℤ_asym q.0 p.0 l).1))
      pick true true false l e f ih = rw e refl
      pick true false there l e f ih = rw e ih

  length-insert_by_id :
      (p : ℤ × ParamMap) (m : List (ℤ × ParamMap))
      → length (Expand.insert_by_id latin1 p m) ≡ suc (length m)
  length-insert_by_id p [] = refl
  length-insert_by_id p (q ∷ rest) = ground (arith, length-insert_by_id p rest)

  -- The players of a response come in the order of their numbers, and none is lost or changed.
  pub sort_by_id_lem :
      (m : List (ℤ × ParamMap))
      → IsSorted (Expand.sort_by_id latin1 m)
        × ((k : ℤ) → IntMap.find k (Expand.sort_by_id latin1 m) ≡ IntMap.find k m)
        × (length (Expand.sort_by_id latin1 m) ≡ length m)
  sort_by_id_lem [] = (tt, (λ k. refl), refl)
  sort_by_id_lem (p ∷ m) =
      let (sorted, found, size) = sort_by_id_lem m in
      (
        insert_by_id-IsSorted p (Expand.sort_by_id latin1 m) sorted,
        (λ k.
            find-insert_by_id p (Expand.sort_by_id latin1 m) k
            ∙ ap (λ o. if eqℤ p.0 k then some p.1 else o) (found k)),
        length-insert_by_id p (Expand.sort_by_id latin1 m) ∙ ap suc size,
      )
