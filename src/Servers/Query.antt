-- ===== src/Servers/Query.antt =====
-- Which servers a query selects.
use swat4master.Prelude.{
  ◌≡◌, refl, sym, ap, ◌∙◌, subst, ℕ, Bool, true, false, ◌&&◌, not, Option, none, some, List, [],
  ◌∷◌, ◌++◌, bit_and, ◌||◌, ◌<◌, all_below, all_below-at, if◌then◌else◌, arith, ltb, leb, ◌==◌, All,
  Bool-cases, inl, inr,
}
use swat4master.Prelude.Bytes.{Bytes, one_of}
use swat4master.Redis.{Redis, Codec, lowest, highest, inclusive, exclusive, every, any_of}
use swat4master.Slice.{intersection}
use swat4master.Slice.Members.{in_all, in_any, one_of-intersection, one_of-difference}
use swat4master.Entities.Addr.{addr_string}
use swat4master.Entities.Status.{DiscoveryStatus, members, bits, bits_from}
use swat4master.Entities.Server.{Server, Time, has_discovery_status}
use swat4master.Entities.Filterset.{ServerFilterSet, get_time, get_status}
use swat4master.Servers
use swat4master.Servers.Indexed.{IsIndexed, Entry, refreshed_score}

-- a score strictly before, or not before, a time that may be unset
abbrev pub is_before : (ℕ → ℕ) → Option Time → Option ℕ → Bool
is_before score none s = true
is_before score (some t) none = false
is_before score (some t) (some s) = ltb s (score t)

abbrev pub is_from : (ℕ → ℕ) → Option Time → Option ℕ → Bool
is_from score none s = true
is_from score (some t) none = false
is_from score (some t) (some s) = leb (score t) s

abbrev pub bits_of : DiscoveryStatus → List DiscoveryStatus
bits_of s = elim (get_status s) [ none ↦ [] | some s' ↦ bits s' ]

abbrev pub has_flag : DiscoveryStatus → DiscoveryStatus → Bool
has_flag s flag = not (bit_and s flag == 0)

-- What a filter set asks of a server that was last written at the score `updated`.
abbrev pub wanted : (ℕ → ℕ) → ServerFilterSet → Server → Option ℕ → ℕ → Bool
wanted score fs svr refreshed updated =
    (is_before score (get_time fs.active_before) refreshed
      && is_from score (get_time fs.active_after) refreshed
      && is_before score (get_time fs.updated_before) (some updated)
      && is_from score (get_time fs.updated_after) (some updated)
      && every (λ s. not (has_flag fs.with_status s) || has_discovery_status svr s) members)
    && not (any_of (λ s. has_flag fs.no_status s && has_discovery_status svr s) members)

in_all-append :
    (k : Bytes) (a b : List (List Bytes)) → in_all k (a ++ b) ≡ (in_all k a && in_all k b)
in_all-append k [] b = refl
in_all-append k (s ∷ a) b = ground (arith, in_all-append k a b)

-- all of the statuses are among the nine members
abbrev known : List DiscoveryStatus → Bool
known l = every (λ s. any_of (λ m. m == s) members) l

All-at :
    (f g : DiscoveryStatus → Bool) (l : List DiscoveryStatus) (s : DiscoveryStatus)
    → any_of (λ m. m == s) l ≡ true
    → All (λ m. f m ≡ g m) l
    → f s ≡ g s
All-at f g [] s h p = cc
All-at f g (m ∷ l) s h p = elim (Bool-cases (m == s)) [
  | inl here ↦ let e : m ≡ s = ground arith in subst (λ t. f t ≡ g t) e p.0
  | inr there ↦ All-at f g l s (ground arith) p.1
]

-- the flags among these that a status has
abbrev flags_of : DiscoveryStatus → List DiscoveryStatus → List DiscoveryStatus
flags_of s [] = []
flags_of s (m ∷ l) = let rest = flags_of s l in if has_flag s m then m ∷ rest else rest

abbrev same_list : List DiscoveryStatus → List DiscoveryStatus → Bool
same_list [] [] = true
same_list (a ∷ l) (b ∷ m) = a == b && same_list l m
same_list _ _ = false

same_list-eq : (l m : List DiscoveryStatus) → same_list l m ≡ true → l ≡ m
same_list-eq [] [] h = refl
same_list-eq (a ∷ l) (b ∷ m) h = ground (arith, same_list-eq l m)
same_list-eq [] (b ∷ m) h = absurd cc
same_list-eq (a ∷ l) [] h = absurd cc

-- `bits` lists the flags of every combination of the nine members.
listed : all_below 512 (λ s. same_list (bits_of s) (flags_of s members)) ≡ true
unfolding bits bits_from
listed = refl

bits_of-flags : (s : DiscoveryStatus) → s < 512 → bits_of s ≡ flags_of s members
bits_of-flags s b =
    same_list-eq (bits_of s) (flags_of s members)
      (all_below-at 512 (λ s. same_list (bits_of s) (flags_of s members)) listed s b)

every-flags_of :
    (p : DiscoveryStatus → Bool) (s : DiscoveryStatus) (l : List DiscoveryStatus)
    → every p (flags_of s l) ≡ every (λ m. not (has_flag s m) || p m) l
every-flags_of p s [] = refl
every-flags_of p s (m ∷ l) = ground (arith, every-flags_of p s l)

any_of-flags_of :
    (p : DiscoveryStatus → Bool) (s : DiscoveryStatus) (l : List DiscoveryStatus)
    → any_of p (flags_of s l) ≡ any_of (λ m. has_flag s m && p m) l
any_of-flags_of p s [] = refl
any_of-flags_of p s (m ∷ l) = ground (arith, any_of-flags_of p s l)

known-flags_of : (s : DiscoveryStatus) → known (flags_of s members) ≡ true
known-flags_of s = every-flags_of (λ m. any_of (λ t. t == m) members) s members ∙ ground arith

module _ (r : Redis) (json : Codec Server) where
  open r use {zscore, one_of-zrange, one_of-sinter, one_of-sunion, sismember, score}

  in_all-when :
      (k : Bytes) (o : Option Time) (f : Time → List Bytes) (p : Bool)
      → ((t : Time) → o ≡ some t → one_of k (f t) ≡ p)
      → (o ≡ none → p ≡ true)
      → in_all k (Servers.when r json o f) ≡ p
  in_all-when k none f p at out = sym (out refl)
  in_all-when k (some t) f p at out = ground (arith, at t refl)

  module _ (c : Servers.Contents r json) (k : Bytes) where
    before_set :
        (z : r.SortedSet) (o : Option Time)
        → in_all k (Servers.when r json o (λ t. r.zrange_by_score z lowest (exclusive (score t))))
          ≡ is_before score o (zscore z k)
    before_set z none = refl
    before_set z (some t) = ground (arith, one_of-zrange z lowest (exclusive (score t)) k)

    from_set :
        (z : r.SortedSet) (o : Option Time)
        → in_all k (Servers.when r json o (λ t. r.zrange_by_score z (inclusive (score t)) highest))
          ≡ is_from score o (zscore z k)
    from_set z none = refl
    from_set z (some t) = ground (arith, one_of-zrange z (inclusive (score t)) highest k)

    module _ (svr : Server)
        (sets : All (λ s. sismember (c.statuses s) k ≡ has_discovery_status svr s) members) where
      every_status :
          (l : List DiscoveryStatus)
          → known l ≡ true
          → every (λ m. sismember m k) (Servers.status_sets r json c l)
            ≡ every (λ s. has_discovery_status svr s) l
      every_status [] h = refl
      every_status (s ∷ l) h =
          let here =
            All-at (λ t. sismember (c.statuses t) k) (λ t. has_discovery_status svr t) members s
              (ground arith) sets in
          ground (arith, here, every_status l (ground arith))

      any_status :
          (l : List DiscoveryStatus)
          → known l ≡ true
          → any_of (λ m. sismember m k) (Servers.status_sets r json c l)
            ≡ any_of (λ s. has_discovery_status svr s) l
      any_status [] h = refl
      any_status (s ∷ l) h =
          let here =
            All-at (λ t. sismember (c.statuses t) k) (λ t. has_discovery_status svr t) members s
              (ground arith) sets in
          ground (arith, here, any_status l (ground arith))

      included :
          (l : List DiscoveryStatus)
          → known l ≡ true
          → in_all k (Servers.include_statuses r json c l)
            ≡ every (λ s. has_discovery_status svr s) l
      included [] h = refl
      included (s ∷ l) h = ground (
        arith,
        one_of-sinter (c.statuses s) (Servers.status_sets r json c l) k,
        every_status (s ∷ l) h,
      )

      excluded :
          (l : List DiscoveryStatus)
          → known l ≡ true
          → in_any k (Servers.exclude_statuses r json c l)
            ≡ any_of (λ s. has_discovery_status svr s) l
      excluded [] h = refl
      excluded (s ∷ l) h =
          ground
            (arith, one_of-sunion (Servers.status_sets r json c (s ∷ l)) k, any_status (s ∷ l) h)

    or_all_stored :
        (updated : ℕ) (sets : List (List Bytes))
        → zscore c.updates k ≡ some updated
        → one_of k (intersection (Servers.or_all r json c sets)) ≡ in_all k sets
    or_all_stored updated [] h =
        one_of-intersection k (r.zrange_by_score c.updates lowest highest) []
        ∙ ground (arith, one_of-zrange c.updates lowest highest k)
    or_all_stored updated (s ∷ sets) h = one_of-intersection k s sets

    timestamps :
        (fs : ServerFilterSet)
        → in_all k (Servers.timestamp_filters r json c fs) ≡ (
            is_before score (get_time fs.active_before) (zscore c.refreshes k)
            && (is_from score (get_time fs.active_after) (zscore c.refreshes k)
                && (is_before score (get_time fs.updated_before) (zscore c.updates k)
                    && is_from score (get_time fs.updated_after) (zscore c.updates k))))
    unfolding Servers.timestamp_filters
    timestamps fs = simp (in_all-append, before_set, from_set)

    -- A query selects a stored server exactly when the server meets the query's conditions, with
    -- the times of its last write and refresh.
    pub filter-selects :
        (fs : ServerFilterSet) (svr : Server) (updated : ℕ)
        → fs.with_status < 512
        → fs.no_status < 512
        → zscore c.updates k ≡ some updated
        → zscore c.refreshes k ≡ refreshed_score r json svr
        → All (λ s. sismember (c.statuses s) k ≡ has_discovery_status svr s) members
        → one_of k (Servers.filter_server_keys r json c fs)
          ≡ wanted score fs svr (refreshed_score r json svr) updated
    unfolding Servers.filter_server_keys Servers.include_keys Servers.exclude_keys
    filter-selects fs svr updated kw kn u f sets =
        let has = λ (s : DiscoveryStatus). has_discovery_status svr s in
        let yes = bits_of-flags fs.with_status kw in
        let no = bits_of-flags fs.no_status kn in
        let times = Servers.timestamp_filters r json c fs in
        let with = Servers.include_statuses r json c (bits_of fs.with_status) in
        let without = Servers.exclude_statuses r json c (bits_of fs.no_status) in
        let now = timestamps fs in
        let now' = rw (u, f) at now in
        one_of-difference k (intersection (Servers.or_all r json c (times ++ with))) without
        ∙ ground (
          arith,
          or_all_stored updated (times ++ with) u,
          in_all-append k times with,
          now',
          included svr sets (bits_of fs.with_status) (ap known yes ∙ known-flags_of fs.with_status)
              ∙ ap (every has) yes
              ∙ every-flags_of has fs.with_status members,
          excluded svr sets (bits_of fs.no_status) (ap known no ∙ known-flags_of fs.no_status)
              ∙ ap (any_of has) no
              ∙ any_of-flags_of has fs.no_status members,
        )

  -- In a store whose indices agree with its items, a stored server is selected exactly when it is
  -- wanted: every condition that is set holds of it, where it has all of the statuses asked for and
  -- none of the excluded ones. Both are combinations of the nine members, which are the flags
  -- below 512.
  pub filter-selects-stored :
      (c : Servers.Contents r json) (k item : Bytes) (fs : ServerFilterSet)
      → IsIndexed r json c
      → fs.with_status < 512
      → fs.no_status < 512
      → r.hget c.items k ≡ some item
      → (svr : Server) × (updated : ℕ) × (json.decode item ≡ some svr)
        × (addr_string svr.addr ≡ k)
        × (r.zscore c.updates k ≡ some updated)
        × (one_of k (Servers.filter_server_keys r json c fs)
            ≡ wanted r.score fs svr (refreshed_score r json svr) updated)
  filter-selects-stored c k item fs h kw kn stored =
      let (svr, dec, key, (t, at), seen, has) = subst (Entry r json c k) stored (h.entry k) in
      (svr, t, dec, key, at, filter-selects c k fs svr t kw kn at seen has)
