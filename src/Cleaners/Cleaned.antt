-- ===== src/Cleaners/Cleaned.antt =====
-- Which servers a cleaning leaves.
use swat4master.Prelude.{
  ◌≡◌, refl, sym, ap, ◌∙◌, subst, ℕ, suc, ◌+◌, ◌-◌, ◌<◌, false, Option, none, some, List, [], ◌∷◌,
  length, arith, ltb, ◌⊎◌, inl, inr, Bool-cases, if◌then◌else◌,
}
use swat4master.Prelude.Bytes.{Bytes, beq, beq→eq, beq_iff, one_of}
use swat4master.Redis.{Redis, Codec}
use swat4master.Entities.Addr.{addr_string}
use swat4master.Entities.Server.{Server, Time}
use swat4master.Entities.Filterset.{new_server_filter_set, updated_before}
use swat4master.Servers
use swat4master.Servers.Indexed.{IsIndexed}
use swat4master.Servers.Query.{filter-selects-stored}
use swat4master.Servers.Listed.{AreStored, filter-AreStored}
use swat4master.Cleaners.{
  Tally, is_outdated, counted, clean_servers, clean_outdated, clean_outdated_servers,
}

module _ (r : Redis) (json : Codec Server) where
  -- one removal of a server that is stored as it is given, or not at all
  module _ (c : Servers.Contents r json) (clean_until : Time) (svr : Server) where
    abbrev after : Servers.Contents r json × Servers.Result (Unit {0})
    after = Servers.remove r json c svr (is_outdated clean_until)

    remove-stored :
        Servers.get r json c svr.addr ≡ Servers.ok svr
        → after ≡ (Servers.drop_key r json c (addr_string svr.addr), Servers.ok tt)
    unfolding Servers.remove
    remove-stored got =
        let fresh : ltb svr.version svr.version ≡ false = ground (arith) in rw (got, fresh) refl

    remove-missing :
        Servers.get r json c svr.addr ≡ Servers.err Servers.server_not_found
        → after ≡ (c, Servers.ok tt)
    unfolding Servers.remove
    remove-missing missing = rw missing refl

    hget-drop_key :
        (key : Bytes)
        → r.hget (Servers.drop_key r json c (addr_string svr.addr)).items key
          ≡ (if beq (addr_string svr.addr) key then none else r.hget c.items key)
    unfolding Servers.drop_key
    hget-drop_key key = r.hget-hdel c.items (addr_string svr.addr) key

  module _ (old : Servers.Contents r json) where
    -- every item is gone or as it was
    abbrev IsThinned : Servers.Contents r json → Type 0
    IsThinned c =
        (key : Bytes) → (r.hget c.items key ≡ none) ⊎ (r.hget c.items key ≡ r.hget old.items key)

    -- what a removal leaves
    abbrev Removed :
        Servers.Contents r json
        → Bytes
        → Servers.Contents r json × Servers.Result (Unit {0})
        → Type 0
    Removed c k (c', result) =
        (result ≡ Servers.ok tt)
        × ((key : Bytes) → r.hget c'.items key ≡ (if beq k key then none else r.hget c.items key))

    remove-Removed :
        (c : Servers.Contents r json) (clean_until : Time) (svr : Server)
        → IsThinned c
        → Servers.get r json old svr.addr ≡ Servers.ok svr
        → Removed c (addr_string svr.addr) (Servers.remove r json c svr (is_outdated clean_until))
    unfolding Servers.get
    remove-Removed c clean_until svr thin got = branch (thin (addr_string svr.addr))
      where
        k : Bytes
        k = addr_string svr.addr

        branch :
            (r.hget c.items k ≡ none) ⊎ (r.hget c.items k ≡ r.hget old.items k)
            → Removed c k (Servers.remove r json c svr (is_outdated clean_until))
        branch (inl gone) =
            rw (remove-missing c clean_until svr (ap (Servers.fetched r json) gone)) (
              refl,
              λ key. elim (Bool-cases (beq k key)) [
                | inl same ↦ ap (r.hget c.items) (sym (beq→eq k key same)) ∙ gone ∙ rw same refl
                | inr other ↦ rw other refl
              ],
            )
        branch (inr there) =
            rw (remove-stored c clean_until svr (ap (Servers.fetched r json) there ∙ got))
              (refl, λ key. hget-drop_key c clean_until svr key)

    abbrev quiet : ℕ → Servers.Contents r json → Servers.Contents r json
    quiet i c = c

    -- what the loop leaves of a tally once it has removed the keys
    abbrev Cleared : Tally r json quiet → List Bytes → Tally r json quiet → Type 0
    Cleared s ks s' =
        (s'.removed ≡ s.removed + length ks)
        × (s'.errors ≡ s.errors)
        × ((key : Bytes)
            → r.hget s'.contents.items key
              ≡ (if one_of key ks then none else r.hget s.contents.items key))

    counted_lem :
        (s : Tally r json quiet) (k : Bytes)
        (p : Servers.Contents r json × Servers.Result (Unit {0}))
        → Removed s.contents k p
        → Cleared s (k ∷ []) (counted r json quiet s p)
    counted_lem s k (c', Servers.ok u) h =
        (refl, refl, λ key. h.1 key ∙ ground (arith, beq_iff k key, beq_iff key k))
    counted_lem s k (c', Servers.err e) h = absurd cc

    Cleared-IsThinned :
        (s s' : Tally r json quiet) (ks : List Bytes)
        → Cleared s ks s'
        → IsThinned s.contents
        → IsThinned s'.contents
    Cleared-IsThinned s s' ks h thin key = elim (Bool-cases (one_of key ks)) [
      | inl gone ↦ inl (h.2 key ∙ rw gone refl)
      | inr kept ↦
          let same : r.hget s'.contents.items key ≡ r.hget s.contents.items key =
            h.2 key ∙ rw kept refl in
          elim (thin key) [ inl e ↦ inl (same ∙ e) | inr e ↦ inr (same ∙ e) ]
    ]

    clean_servers_lem :
        (clean_until : Time) (ks : List Bytes) (servers : List Server)
        → AreStored r json old ks servers
        → (i : ℕ) (s : Tally r json quiet) → IsThinned s.contents
        → Cleared s ks (clean_servers r json quiet clean_until i s servers)
    unfolding clean_servers
    clean_servers_lem clean_until [] [] stored i s thin = (ground arith, refl, λ key. refl)
    clean_servers_lem clean_until [] (x ∷ xs) stored i s thin = absurd stored
    clean_servers_lem clean_until (k ∷ ks) [] stored i s thin = absurd stored
    clean_servers_lem clean_until (k ∷ ks) (x ∷ xs) (at, got, rest) i s thin =
        let p = Servers.remove r json s.contents x (is_outdated clean_until) in
        let one = counted_lem s k p (
          subst (λ j. Removed s.contents j p) at
            (remove-Removed s.contents clean_until x thin got)) in
        let s' = counted r json quiet s p in
        let (n, e, left) =
          clean_servers_lem clean_until ks xs rest (suc i) s'
            (Cleared-IsThinned s s' (k ∷ []) one thin) in
        (ground (arith, n, one.0), e ∙ one.1, λ key. left key ∙ ground (arith, one.2 key))

  -- what a cleaning leaves of the item at a key
  abbrev pub CleanedAt :
      Servers.Contents r json → Time → Bytes → ℕ → Option (Tally r json (λ i c. c)) → Type 0
  CleanedAt c clean_until k updated none = ⊥
  CleanedAt c clean_until k updated (some s) =
      (s.errors ≡ 0)
      × (r.hget s.contents.items k
          ≡ (if ltb updated (r.score clean_until) then none else r.hget c.items k))

  -- If the retention period begins after time 0, no other process writes meanwhile, and the servers
  -- can be obtained, a cleaning of a store whose indices agree with its items fails for no server,
  -- and it removes a stored item exactly when its last write is before the retention period.
  pub clean_outdated_servers_lem :
      (c : Servers.Contents r json) (now : Time) (retention : ℕ) (servers : List Server)
      (k item : Bytes)
      → IsIndexed r json c
      → 0 < now - retention
      → Servers.filter r json c (updated_before new_server_filter_set (now - retention))
        ≡ Servers.ok servers
      → r.hget c.items k ≡ some item
      → (updated : ℕ) × (r.zscore c.updates k ≡ some updated)
        × CleanedAt c
            (now - retention)
            k
            updated
            (clean_outdated_servers r json (λ i d. d) c now retention)
  unfolding clean_outdated_servers
  clean_outdated_servers_lem c now retention servers k item h set listed there =
      let until = now - retention in
      let fs = updated_before new_server_filter_set until in
      let (svr, updated, dec, key, at, selected) =
        filter-selects-stored r json c k item fs h (omega arith) (omega arith) there in
      let (n, e, left) =
        clean_servers_lem c until (Servers.filter_server_keys r json c fs) servers
          (filter-AreStored r json c h fs servers listed) 0
          (record { contents = c; removed = 0; errors = 0 }) (λ key. inr refl) in
      (
        updated,
        at,
        subst (λ f. CleanedAt c until k updated (clean_outdated r json (λ i d. d) c until f))
            (sym listed) (e, left k ∙ ground (arith, selected)),
      )
