-- ===== src/Observers/Observed.antt =====
-- What a whole observation leaves in the gauges.
use swat4master.Prelude.{
  ◌≡◌, refl, ap, ◌∙◌, ℕ, Bool, true, false, Option, none, some, List, [], ◌∷◌, ◌==◌, ◌||◌, ◌&&◌,
  not, All, arith, if◌then◌else◌,
}
use swat4master.Prelude.Int.{ℤ, pos}
use swat4master.Prelude.Bytes.{Bytes, codes, beq, beq_iff, find, find-store}
use swat4master.Redis.{Redis, Codec}
use swat4master.Redis.Cardinals.{Cardinals}
use swat4master.Entities.Status.{
  DiscoveryStatus, bit_string, no_status, new, master, info, details, details_retry, no_details,
  port, port_retry, no_port,
}
use swat4master.Entities.Server.{Server, Time}
use swat4master.Servers
use swat4master.Servers.Counts
use swat4master.Servers.Counts.{count_by_status}
use swat4master.Observers.{
  Gauge, Collector, set_discovered, set_all_discovered, observe, filter_set,
}
use swat4master.Observers.Gauges.{or_before, observe_active_servers_lem}
use swat4master.Observers.Totals.{wrapped, total, each, its_players, if_played}

-- no other status of the list has the label of this one
abbrev has_own_label : DiscoveryStatus → List (DiscoveryStatus × ℕ) → Bool
has_own_label s [] = true
has_own_label s ((t, a) ∷ counts) =
    ((t == s) || not (beq (bit_string t) (bit_string s))) && has_own_label s counts

-- the statuses and the labels of their gauges
abbrev pub labels : List (DiscoveryStatus × Bytes)
labels =
    (new, codes "new")
    ∷ (master, codes "master")
    ∷ (info, codes "info")
    ∷ (details, codes "details")
    ∷ (details_retry, codes "details_retry")
    ∷ (no_details, codes "no_details")
    ∷ (port, codes "port")
    ∷ (port_retry, codes "port_retry")
    ∷ (no_port, codes "no_port")
    ∷ []

module _ {F : Type 0} (float64 : ℤ → F) where
  -- what a count sets a gauge to: nothing new for a count of none
  abbrev pub or_kept : ℕ → Option F → Option F
  or_kept n old = if n == 0 then old else some (float64 (pos n))

  -- the gauge of a status once these counts are set
  abbrev later : DiscoveryStatus → List (DiscoveryStatus × ℕ) → Option F → Option F
  later s [] old = old
  later s ((t, a) ∷ counts) old = later s counts (if t == s then or_kept a old else old)

  find-set_discovered :
      (s t : DiscoveryStatus) (a : ℕ) (gauge : Gauge F)
      → (s == no_status) ≡ false
      → ((t == s) || not (beq (bit_string t) (bit_string s))) ≡ true
      → find (bit_string s) (set_discovered float64 gauge t a)
        ≡ (if t == s then or_kept a (find (bit_string s) gauge) else find (bit_string s) gauge)
  find-set_discovered s t a gauge real own = ground (
    arith,
    find-store (bit_string t) (bit_string s) (float64 (pos a)) gauge,
    beq_iff (bit_string t) (bit_string s),
  )

  find-set_all_discovered :
      (s : DiscoveryStatus) (counts : List (DiscoveryStatus × ℕ)) (gauge : Gauge F)
      → (s == no_status) ≡ false
      → has_own_label s counts ≡ true
      → find (bit_string s) (set_all_discovered float64 gauge counts)
        ≡ later s counts (find (bit_string s) gauge)
  unfolding set_all_discovered
  find-set_all_discovered s [] gauge real own = refl
  find-set_all_discovered s ((t, a) ∷ counts) gauge real own =
      find-set_all_discovered s counts (set_discovered float64 gauge t a) real (ground arith)
      ∙ ap (later s counts) (find-set_discovered s t a gauge real (ground arith))

module _ {F : Type 0} (float64 : ℤ → F) (r : Redis) (json : Codec Server) (n : Cardinals r) where
  -- what an observation leaves in the gauge of a status
  abbrev pub IsObserved :
      Servers.Contents r json → Gauge F → Gauge F → DiscoveryStatus × Bytes → Type 0
  IsObserved c before after (s, label) =
      find label after ≡ or_kept float64 (n.scard (c.statuses s)) (find label before)

  discovered_lem :
      (c : Servers.Contents r json) (gauge : Gauge F)
      → All
          (IsObserved c gauge (set_all_discovered float64 gauge (count_by_status r json n c)))
          labels
  unfolding Counts.count_by_status bit_string
  discovered_lem c gauge =
      let on = λ (s : DiscoveryStatus).
        find-set_all_discovered float64 s (count_by_status r json n c) gauge in
      (
        on new refl refl,
        (
          on master refl refl,
          (
            on info refl refl,
            (
              on details refl refl,
              (
                on details_retry refl refl,
                (
                  on no_details refl refl,
                  (on port refl refl, (on port_retry refl refl, (on no_port refl refl, tt))),
                ),
              ),
            ),
          ),
        ),
      )

  -- If the active servers can be obtained, then after an observation: the gauge of the repository's
  -- size is the number of stored items; the gauge of each status is the number of members of its set,
  -- or keeps its value if there is none; and for each game type, the three gauges are the sum, in 64
  -- bits, of the players on its active servers, the number of these servers, and the number of those
  -- with players, or keep their values where no server counts. All are converted to float64.
  pub observe_lem :
      (c : Servers.Contents r json) (now : Time) (liveness : ℕ) (servers : List Server)
      (before : Collector F) (t : Bytes)
      → Servers.filter r json c (filter_set now liveness) ≡ Servers.ok servers
      → let after = observe float64 r json n c now liveness before in
        (after.repository_size ≡ float64 (pos (n.hlen c.items)))
        × All (IsObserved c before.discovered after.discovered) labels
        × (find t after.activity.players
            ≡ or_before float64
                (wrapped (total its_players t none servers))
                (find t before.activity.players))
        × (find t after.activity.all_servers
            ≡ or_before float64
                (wrapped (total each t none servers))
                (find t before.activity.all_servers))
        × (find t after.activity.played_servers
            ≡ or_before float64
                (wrapped (total if_played t none servers))
                (find t before.activity.played_servers))
  unfolding observe Counts.count
  observe_lem c now liveness servers before t listed =
      let active =
        observe_active_servers_lem float64 r json c now liveness servers before.activity t listed in
      (refl, discovered_lem c before.discovered, active.0, active.1, active.2)
