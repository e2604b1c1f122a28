-- ===== src/Observers/Gauges.antt =====
-- What an observation sets the gauges to.
use swat4master.Prelude.{
  ◌≡◌, refl, ap, ◌∙◌, subst, ℕ, Bool, true, false, Option, none, some, List, [], ◌∷◌, arith,
  Bool-cases, inl, inr, if◌then◌else◌,
}
use swat4master.Prelude.Int.{ℤ, pos, ltℤ}
use swat4master.Prelude.Bytes.{
  Bytes, codes, beq, beq_iff, find, store, find-store, one_of, distinct,
}
use swat4master.Redis.{Redis, Codec}
use swat4master.Entities.Server.{Server, Time}
use swat4master.Servers
use swat4master.Observers.Totals.{
  text_of-eq, number_of-eq, type_in, players_in, plus, add_up, wrapped, counted-wrapped, total,
  each, some_players, one_played, its_players, if_played,
}
use swat4master.Browsing.Filter.{get_struct_field}
use swat4master.Observers.{
  Counts, Activity, game_type, num_players, or_zero, add_int, bump, Gauge, ActivityGauges,
  observe_server, observe_servers, set_gauge, nothing_active, observe_active_servers, filter_set,
}

abbrev keys : Counts → List Bytes
keys [] = []
keys ((k, n) ∷ m) = k ∷ keys m

one_of-store :
    (j k : Bytes) (n : ℤ) (m : Counts)
    → one_of j (keys (store k n m)) ≡ (if beq k j then true else one_of j (keys m))
one_of-store j k n [] = ground (arith, beq_iff k j, beq_iff j k)
one_of-store j k n ((i, v) ∷ m) =
    ground (arith, one_of-store j k n m, beq_iff k j, beq_iff j k, beq_iff i k, beq_iff j i)

distinct-store :
    (k : Bytes) (n : ℤ) (m : Counts)
    → distinct (keys m) ≡ true
    → distinct (keys (store k n m)) ≡ true
distinct-store k n [] h = refl
distinct-store k n ((i, v) ∷ m) h =
    ground (arith, distinct-store k n m, one_of-store i k n m, beq_iff i k, beq_iff k i)

find-absent : (k : Bytes) (m : Counts) → one_of k (keys m) ≡ false → find k m ≡ none
find-absent k [] h = refl
find-absent k ((i, v) ∷ m) h = ground (arith, find-absent k m, beq_iff i k, beq_iff k i)

abbrev pub or_before {ℓ} : {F : Type ℓ} → (ℤ → F) → Option ℤ → Option F → Option F
or_before float64 none old = old
or_before float64 (some n) old = some (float64 n)

-- a gauge has the new count where there is one, and keeps its value elsewhere
find-set_gauge :
    {F : Type 0} (float64 : ℤ → F) (t : Bytes) (counts : Counts) (gauge : Gauge F)
    → distinct (keys counts) ≡ true
    → find t (set_gauge float64 gauge counts) ≡ or_before float64 (find t counts) (find t gauge)
unfolding set_gauge
find-set_gauge float64 t [] gauge h = refl
find-set_gauge float64 t ((k, n) ∷ counts) gauge h =
    find-set_gauge float64 t counts (store k (float64 n) gauge) (ground arith)
    ∙ elim (Bool-cases (beq k t)) [
      | inl same ↦
          let here : find t (store k (float64 n) gauge) ≡ some (float64 n) =
            find-store k t (float64 n) gauge ∙ rw same refl in
          let gone : find t counts ≡ none = find-absent t counts (ground (arith, beq_iff k t)) in
          rw (same, gone, here) refl
      | inr other ↦
          let there : find t (store k (float64 n) gauge) ≡ find t gauge =
            find-store k t (float64 n) gauge ∙ rw other refl in
          rw (other, there) refl
    ]

find-bump :
    (t k : Bytes) (n : ℤ) (m : Counts)
    → find t (bump k n m) ≡ (if beq k t then plus (find t m) (some n) else find t m)
find-bump t k n m = elim (Bool-cases (beq k t)) [
  | inl same ↦
      let e : k ≡ t = (beq_iff k t).0 same in
      find-store k t (add_int (or_zero (find k m)) n) m
      ∙ rw same (ap (λ j. some (add_int (or_zero (find j m)) n)) e)
  | inr other ↦ find-store k t (add_int (or_zero (find k m)) n) m ∙ rw other refl
]

abbrev AreDistinct : Activity → Type 0
AreDistinct a =
    (distinct (keys a.players) ≡ true)
    × (distinct (keys a.all_servers) ≡ true)
    × (distinct (keys a.played_servers) ≡ true)

observe_server-AreDistinct :
    (a : Activity) (svr : Server) → AreDistinct a → AreDistinct (observe_server a svr)
unfolding observe_server
observe_server-AreDistinct a svr (p, q, r) =
    let all =
      distinct-store (game_type svr)
        (add_int (or_zero (find (game_type svr) a.all_servers)) (pos 1)) a.all_servers q in
    elim (Bool-cases (ltℤ (pos 0) (num_players svr))) [
      | inl some_play ↦ rw some_play (
        distinct-store (game_type svr)
            (add_int (or_zero (find (game_type svr) a.players)) (num_players svr)) a.players p,
        all,
        distinct-store (game_type svr)
            (add_int (or_zero (find (game_type svr) a.played_servers)) (pos 1)) a.played_servers r,
      )
      | inr nobody ↦ rw nobody (p, all, r)
    ]

-- the counts of a game type after a server of a type, with so many players
abbrev IsCounted : Bytes → Activity → Activity → Bytes × ℤ → Type 0
IsCounted t a a' (k, n) =
    (find t a'.players
      ≡ (if beq k t then plus (find t a.players) (some_players n) else find t a.players))
    × (find t a'.all_servers
        ≡ (if beq k t then plus (find t a.all_servers) (some (pos 1)) else find t a.all_servers))
    × (find t a'.played_servers ≡ (
        if beq k t then plus (find t a.played_servers) (one_played n) else find t a.played_servers))

observe_server-IsCounted :
    (t : Bytes) (a : Activity) (svr : Server)
    → IsCounted t a (observe_server a svr) (game_type svr, num_players svr)
unfolding observe_server
observe_server-IsCounted t a svr = elim (Bool-cases (ltℤ (pos 0) (num_players svr))) [
  | inl some_play ↦ rw some_play (
    find-bump t (game_type svr) (num_players svr) a.players,
    find-bump t (game_type svr) (pos 1) a.all_servers,
    find-bump t (game_type svr) (pos 1) a.played_servers,
  )
  | inr nobody ↦ rw nobody (
    same (beq (game_type svr) t) (find t a.players),
    find-bump t (game_type svr) (pos 1) a.all_servers,
    same (beq (game_type svr) t) (find t a.played_servers),
  )
]
  where
    same : (b : Bool) (o : Option ℤ) → o ≡ (if b then o else o)
    same true o = refl
    same false o = refl

observed-IsCounted :
    (t : Bytes) (a : Activity) (svr : Server)
    → IsCounted t a (observe_server a svr) (type_in svr, players_in svr)
observed-IsCounted t a svr =
    let type = text_of-eq (get_struct_field svr.info (codes "gametype")) in
    let players = number_of-eq (get_struct_field svr.info (codes "numplayers")) in
    subst (λ k. IsCounted t a (observe_server a svr) (k, players_in svr)) type
      (subst (λ n. IsCounted t a (observe_server a svr) (game_type svr, n)) players
        (observe_server-IsCounted t a svr))

abbrev AreCounted : Bytes → List Server → Option ℤ → Option ℤ → Option ℤ → Activity → Type 0
AreCounted t servers p q r a' =
    (find t a'.players ≡ wrapped (total its_players t p servers))
    × (find t a'.all_servers ≡ wrapped (total each t q servers))
    × (find t a'.played_servers ≡ wrapped (total if_played t r servers))
    × AreDistinct a'

observe_servers-AreCounted :
    (t : Bytes) (servers : List Server) (p q r : Option ℤ) (a : Activity)
    → find t a.players ≡ wrapped p
    → find t a.all_servers ≡ wrapped q
    → find t a.played_servers ≡ wrapped r
    → AreDistinct a
    → AreCounted t servers p q r (observe_servers a servers)
unfolding observe_servers
observe_servers-AreCounted t [] p q r a e f g h = (e, f, g, h)
observe_servers-AreCounted t (svr ∷ servers) p q r a e f g h =
    let here = beq (type_in svr) t in
    let (e', f', g') = observed-IsCounted t a svr in
    observe_servers-AreCounted t servers (if here then add_up p (its_players svr) else p)
      (if here then add_up q (each svr) else q) (if here then add_up r (if_played svr) else r)
      (observe_server a svr) (e' ∙ counted-wrapped here (find t a.players) p (its_players svr) e)
      (f' ∙ counted-wrapped here (find t a.all_servers) q (each svr) f)
      (g' ∙ counted-wrapped here (find t a.played_servers) r (if_played svr) g)
      (observe_server-AreDistinct a svr h)

module _ {F : Type 0} (float64 : ℤ → F) (r : Redis) (json : Codec Server) where
  -- If the active servers can be obtained, then after an observation, for each game type: the three
  -- gauges are the sum of the players on its active servers, the number of these servers, and the
  -- number of those with players, each as 64 bits keep it. Where no server counts, a gauge keeps the
  -- value it had.
  pub observe_active_servers_lem :
      (c : Servers.Contents r json) (now : Time) (liveness : ℕ) (servers : List Server)
      (gauges : ActivityGauges F) (t : Bytes)
      → Servers.filter r json c (filter_set now liveness) ≡ Servers.ok servers
      → let after = observe_active_servers float64 r json c now liveness gauges in
        (find t after.players
          ≡ or_before float64 (wrapped (total its_players t none servers)) (find t gauges.players))
        × (find t after.all_servers
            ≡ or_before float64 (wrapped (total each t none servers)) (find t gauges.all_servers))
        × (find t after.played_servers
            ≡ or_before float64
                (wrapped (total if_played t none servers))
                (find t gauges.played_servers))
  unfolding observe_active_servers
  observe_active_servers_lem c now liveness servers gauges t listed =
      let (p, q, r', d) =
        observe_servers-AreCounted t servers none none none nothing_active refl refl refl
          (refl, refl, refl) in
      let a = observe_servers nothing_active servers in
      rw listed (
        find-set_gauge float64 t a.players gauges.players d.0
            ∙ ap (λ o. or_before float64 o (find t gauges.players)) p,
        find-set_gauge float64 t a.all_servers gauges.all_servers d.1
            ∙ ap (λ o. or_before float64 o (find t gauges.all_servers)) q,
        find-set_gauge float64 t a.played_servers gauges.played_servers d.2
            ∙ ap (λ o. or_before float64 o (find t gauges.played_servers)) r',
      )
