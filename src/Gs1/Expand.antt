-- ===== src/Gs1/Expand.antt =====
-- `expandPayload`, and the loop of `getResponse` over the datagrams as they arrive. `latin1` decodes
-- a value (golang.org/x/text/encoding/charmap).
pub mod Kinds
use swat4master.Prelude.{
  ℕ, zero, suc, Bool, true, false, Option, none, some, List, [], ◌∷◌, ◌++◌, map, length, ltb, drop,
  ◌==◌, if◌then◌else◌, ◌+◌, ◌-◌,
}
use swat4master.Prelude.Int.{ℤ, ltℤ}
use swat4master.Prelude.IntMap
use swat4master.Prelude.Bytes.{Bytes, codes, store}
use swat4master.Prelude.Text.{cut, has_prefix}
use swat4master.Strconv.{atoi}
use swat4master.Params.{ParamMap}
use swat4master.Gs1.{Param, QueryVersion, ver_unknown}
use swat4master.Gs1.Collect.{Collected, malformed, incomplete, payload, collect_payload}
use swat4master.Gs1.Fields.{parse_params}

pub record Response : Type 0 where
  pub fields : ParamMap
  pub players : List ParamMap
  pub objectives : List ParamMap
  pub version : QueryVersion

pub record Expanded : Type 0 where
  pub fields : ParamMap
  pub players_by_id : List (ℤ × ParamMap)
  pub objectives : List ParamMap

-- What one parameter leads to: `panics` where `param.Name[:4]` is out of the slice's capacity, and
-- `malformed_id` where a player's number cannot be parsed.
pub data Step : Type 0 where
  panics malformed_id : Step
  next : Expanded → Step

abbrev pub obj_prefix : Bytes
obj_prefix = 111 ∷ 98 ∷ 106 ∷ 95 ∷ []

abbrev pub underscore : ℕ
underscore = 95

abbrev pub or_empty_map : Option ParamMap → ParamMap
or_empty_map none = []
or_empty_map (some m) = m

module _ (latin1 : Bytes → Bytes) where
  unfoldable pub add_objective : Expanded → Param → Expanded
  add_objective e p =
      if ltb 4 (length p.name)
      then record e {
        objectives =
            e.objectives
            ++ (store (codes "status") p.value (store (codes "name") (drop 4 p.name) []) ∷ []);
      }
      else e

  unfoldable pub add_player : Expanded → Bytes → Bytes → ℤ → Expanded
  add_player e key value id =
      let known = or_empty_map (IntMap.find id e.players_by_id) in
      record e { players_by_id = IntMap.store id (store key (latin1 value) known) e.players_by_id }

  abbrev pub with_id : Expanded → Bytes → Bytes → Option ℤ → Step
  with_id e key value none = malformed_id
  with_id e key value (some id) = next (add_player e key value id)

  -- a name without an underscore, or with one and what is on its sides
  abbrev pub with_underscore : Expanded → Param → Option (Bytes × Bytes) → Step
  with_underscore e p none = next (record e { fields = store p.name (latin1 p.value) e.fields })
  with_underscore e p (some (key, [])) = next e
  with_underscore e p (some (key, c ∷ digits)) = with_id e key p.value (atoi (c ∷ digits))

  -- A name of fewer than 4 bytes is followed by a backslash, if there is room, so it never equals
  -- `obj_`.
  unfoldable pub expand_param : Expanded → Param → ℕ → Step
  expand_param e p room =
      if ltb room 4
      then panics
      else if has_prefix p.name obj_prefix
      then next (add_objective e p)
      else with_underscore e p (cut underscore p.name)

  abbrev pub then_step : Step → (Expanded → Step) → Step
  then_step panics f = panics
  then_step malformed_id f = malformed_id
  then_step (next e) f = f e

  unfoldable pub expand_params : Expanded → List (Param × ℕ) → Step
  expand_params e [] = next e
  expand_params e ((p, room) ∷ rest) =
      then_step (expand_param e p room) (λ e'. expand_params e' rest)

  -- `sort.Ints` of the numbers and the map's value at each, in one insertion sort of the entries
  abbrev pub insert_by_id : ℤ × ParamMap → List (ℤ × ParamMap) → List (ℤ × ParamMap)
  insert_by_id p [] = p ∷ []
  insert_by_id p (q ∷ rest) =
      let later = insert_by_id p rest in if ltℤ q.0 p.0 then q ∷ later else p ∷ q ∷ rest

  abbrev pub sort_by_id : List (ℤ × ParamMap) → List (ℤ × ParamMap)
  sort_by_id [] = []
  sort_by_id (p ∷ rest) = insert_by_id p (sort_by_id rest)

  unfoldable pub collect_players : List (ℤ × ParamMap) → List ParamMap
  collect_players players_by_id = map (λ (p : ℤ × ParamMap). p.1) (sort_by_id players_by_id)

  pub data Answer : Type 0 where
    read_failed incomplete_response malformed_response panicked : Answer
    answer : Response → Answer

  abbrev pub answer_of : QueryVersion → Step → Answer
  answer_of version panics = panicked
  answer_of version malformed_id = malformed_response
  answer_of version (next e) = answer (record {
    fields = e.fields;
    players = collect_players e.players_by_id;
    objectives = e.objectives;
    version = version;
  })

  abbrev pub nothing : Expanded
  nothing = record { fields = []; players_by_id = []; objectives = [] }

  -- `capacity` is that of the payload's buffer
  unfoldable pub expand_payload : Bytes → ℕ → QueryVersion → Answer
  unfolding expand_params
  expand_payload text capacity version =
      answer_of version (expand_params nothing (parse_params (capacity - length text) text))

  abbrev pub respond : Collected → Answer → Answer
  respond malformed later = malformed_response
  respond incomplete later = later
  respond (payload text capacity version) later = expand_payload text capacity version

  -- The datagrams that arrive, and then a read that fails, at the deadline for one.
  unfoldable pub get_response : List Bytes → List Bytes → Answer
  get_response fragments [] = read_failed
  get_response fragments ([] ∷ datagrams) = incomplete_response
  get_response fragments ((c ∷ raw) ∷ datagrams) =
      let later = get_response (fragments ++ ((c ∷ raw) ∷ [])) datagrams in
      respond (collect_payload (fragments ++ ((c ∷ raw) ∷ []))) later
