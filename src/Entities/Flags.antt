-- ===== src/Entities/Flags.antt =====
-- What the updates of a discovery status do to the flags.
use swat4master.Prelude.{
  ◌≡◌, refl, sym, ap, ◌∙◌, ◌↔◌, ℕ, zero, suc, ◌<◌, ltb, ◌==◌, true, false, ◌&&◌, ◌||◌, not, arith,
  bit_and, ==_iff,
}
use swat4master.Prelude.Bits.{digit, bit_clear, digit-and, digit-clear, eq_of_digits, digit_laws}
use swat4master.Entities.Status.{DiscoveryStatus, new}
use swat4master.Entities.Server.{
  Server, has_discovery_status, has_any_discovery_status, has_no_discovery_status,
  update_discovery_status, clear_discovery_status,
}

-- the flags that both have
digit-disjoint : (a b i : ℕ) → bit_and a b ≡ 0 → (digit i a && digit i b) ≡ digit i 0
digit-disjoint a b i h = sym (digit-and i a b) ∙ ap (digit i) h

digit-zero : (i : ℕ) → digit i 0 ≡ false
unfolding digit
digit-zero zero = refl
digit-zero (suc i) = digit-zero i

pub apart : (a b i : ℕ) → bit_and a b ≡ 0 → (digit i a && digit i b) ≡ false
apart a b i h = digit-disjoint a b i h ∙ digit-zero i

within : (a b i : ℕ) → bit_and a b ≡ a → (digit i a && digit i b) ≡ digit i a
within a b i h = sym (digit-and i a b) ∙ ap (digit i) h

-- A status is had exactly when the server has all of its flags.
pub has_discovery_status_iff :
    (gs : Server) (q : DiscoveryStatus)
    → (has_discovery_status gs q ≡ true)
      ↔ ((i : ℕ) → digit i q ≡ true → digit i gs.discovery_status ≡ true)
unfolding has_discovery_status
has_discovery_status_iff gs q =
    let st = gs.discovery_status in
    (
      λ h i on. ground (arith, digit-and i st q, ap (digit i) ((==_iff (bit_and st q) q).0 h)),
      λ all.
          (==_iff (bit_and st q) q).1
            (eq_of_digits (bit_and st q) q (λ i. ground (arith, digit-and i st q, all i))),
    )

cleared_iff : (st q : ℕ) → (bit_clear st q ≡ st) ↔ (bit_and st q ≡ 0)
cleared_iff st q = (
  λ h.
      eq_of_digits (bit_and st q) 0
        (λ i. ground (arith, digit-and i st q, digit-clear i st q, ap (digit i) h, digit-zero i)),
  λ h. eq_of_digits (bit_clear st q) st (λ i. ground (arith, digit-clear i st q, apart st q i h)),
)

-- No flag of a set is had exactly when it is not so that any of them is.
pub has_no-eq-not-has_any :
    (gs : Server) (q : DiscoveryStatus)
    → has_no_discovery_status gs q ≡ not (has_any_discovery_status gs q)
unfolding has_no_discovery_status has_any_discovery_status
has_no-eq-not-has_any gs q =
    let st = gs.discovery_status in ground (arith, cleared_iff st q, ==_iff (bit_clear st q) st)

module _ (gs : Server) (add drop q : DiscoveryStatus) where
  abbrev changed : Server
  changed = clear_discovery_status (update_discovery_status gs add) drop

  digit-changed :
      (i : ℕ)
      → digit i changed.discovery_status ≡ (
          ((digit i gs.discovery_status && not (digit i new)) || digit i add) && not (digit i drop))
  unfolding update_discovery_status clear_discovery_status
  digit-changed i = simp digit_laws

  -- what was added and not dropped is there
  pub has-added : bit_and q add ≡ q → bit_and q drop ≡ 0 → has_discovery_status changed q ≡ true
  has-added h k =
      (has_discovery_status_iff changed q).1
        (λ i on. ground (arith, digit-changed i, within q add i h, apart q drop i k))

  -- what was dropped is gone
  pub no-dropped : bit_and q drop ≡ q → bit_and changed.discovery_status q ≡ 0
  no-dropped h = eq_of_digits _ _ (λ i. ground (
    arith,
    digit-and i changed.discovery_status q,
    digit-changed i,
    within q drop i h,
    digit-zero i,
  ))

  -- a status apart from all of these is as it was
  pub has-kept :
      bit_and q add ≡ 0
      → bit_and q drop ≡ 0
      → bit_and q new ≡ 0
      → bit_and changed.discovery_status q ≡ bit_and gs.discovery_status q
  has-kept h k n = eq_of_digits _ _ (λ i. ground (
    arith,
    digit-and i changed.discovery_status q,
    digit-and i gs.discovery_status q,
    digit-changed i,
    apart q add i h,
    apart q drop i k,
    apart q new i n,
  ))

  -- the flag `new` goes with the first update
  pub no-new : bit_and q new ≡ q → bit_and q add ≡ 0 → bit_and changed.discovery_status q ≡ 0
  no-new n h = eq_of_digits _ _ (λ i. ground (
    arith,
    digit-and i changed.discovery_status q,
    digit-changed i,
    within q new i n,
    apart q add i h,
    digit-zero i,
  ))

module _ (gs : Server) (add q : DiscoveryStatus) where
  digit-updated :
      (i : ℕ)
      → digit i (update_discovery_status gs add).discovery_status
        ≡ ((digit i gs.discovery_status && not (digit i new)) || digit i add)
  unfolding update_discovery_status
  digit-updated i = simp digit_laws

  -- what an update adds is there
  pub has-updated :
      bit_and q add ≡ q → has_discovery_status (update_discovery_status gs add) q ≡ true
  has-updated h =
      (has_discovery_status_iff (update_discovery_status gs add) q).1
        (λ i on. ground (arith, digit-updated i, within q add i h))

  -- and what was there stays, but for the flag `new`
  pub has-updated_kept :
      bit_and q new ≡ 0
      → has_discovery_status gs q ≡ true
      → has_discovery_status (update_discovery_status gs add) q ≡ true
  has-updated_kept n h = (has_discovery_status_iff (update_discovery_status gs add) q).1 (λ i on.
      ground (arith, digit-updated i, apart q new i n, (has_discovery_status_iff gs q).0 h i on))

-- who has a set of flags has each part of it
pub has-part :
    (gs : Server) (q all : DiscoveryStatus)
    → bit_and q all ≡ q
    → has_discovery_status gs all ≡ true
    → has_discovery_status gs q ≡ true
has-part gs q all part h =
    (has_discovery_status_iff gs q).1
      (λ i on. (has_discovery_status_iff gs all).0 h i (ground (arith, within q all i part, on)))

-- an update leaves a status apart from what it adds, and from `new`, as it was
pub has-updated_other :
    (gs : Server) (add q : DiscoveryStatus)
    → bit_and q add ≡ 0
    → bit_and q new ≡ 0
    → has_discovery_status (update_discovery_status gs add) q ≡ has_discovery_status gs q
unfolding has_discovery_status
has-updated_other gs add q h n =
    let after = (update_discovery_status gs add).discovery_status in
    ap (λ (bits : ℕ). bits == q)
      (eq_of_digits (bit_and after q) (bit_and gs.discovery_status q) (λ i. ground (
        arith,
        digit-and i after q,
        digit-and i gs.discovery_status q,
        digit-updated gs add q i,
        apart q add i h,
        apart q new i n,
      )))

-- who has a status, which is not none, has any of a set that holds it
pub has_any-part :
    (gs : Server) (q all : DiscoveryStatus)
    → bit_and q all ≡ q
    → 0 < q
    → has_discovery_status gs q ≡ true
    → has_any_discovery_status gs all ≡ true
unfolding has_any_discovery_status
has_any-part gs q all part some_flag h = branch (bit_and gs.discovery_status all) refl
  where
    branch : (b : ℕ) → bit_and gs.discovery_status all ≡ b → ltb 0 b ≡ true
    branch (suc b) e = ground arith
    branch zero e =
        let gone : q ≡ 0 = eq_of_digits q 0 (λ i. ground (
          arith,
          within q all i part,
          apart gs.discovery_status all i e,
          (has_discovery_status_iff gs q).0 h i,
          digit-zero i,
        )) in
        absurd (omega arith)
