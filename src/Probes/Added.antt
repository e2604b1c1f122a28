-- ===== src/Probes/Added.antt =====
-- What a loop leaves that queues a probe for each of a list of servers.
use swat4master.Prelude.{
  ◌≡◌, refl, ◌∙◌, ℕ, suc, ◌<◌, ◌≤◌, false, some, List, [], ◌∷◌, arith, Bool-cases, inl, inr,
  if◌then◌else◌, ◌==◌, ◌&&◌, not, leb, Bool,
}
use swat4master.Prelude.Bytes.{Bytes, beq, beq→eq, beq_self}
use swat4master.Redis.{Redis, Codec}
use swat4master.Entities.Probe.{Probe}
use swat4master.Entities.Server.{Server, Time}
use swat4master.Probes.{QItem, Queue, enqueue, never_ready}

module _ (r : Redis) (json : Codec QItem) (item_id : ℕ → Bytes) (now deadline : Time)
    (probe_of : Server → Probe) (countdown : ℕ → Time) where
  -- `i` counts the rounds
  unfoldable pub enqueue_all : ℕ → Queue r json → List Server → Queue r json
  enqueue_all i q [] = q
  enqueue_all i q (svr ∷ servers) =
      enqueue_all (suc i) (enqueue r json q now (item_id i) (probe_of svr) (countdown i) deadline)
        servers

  -- A key holds what it held.
  abbrev pub Untouched : Queue r json → Queue r json → Bytes → Type 0
  Untouched q q' k =
      (r.hget q'.data_items k ≡ r.hget q.data_items k) × (r.zscore q'.order k ≡ r.zscore q.order k)

  -- A key holds the server's probe, which is ready once the countdown is over, or at once without
  -- one.
  abbrev pub Holds : Queue r json → ℕ → Server → Type 0
  Holds q' i svr =
      (r.hget q'.data_items (item_id i)
        ≡ some (json.encode (record { probe = probe_of svr; expires = deadline })))
      × (r.zscore q'.order (item_id i)
          ≡ some (r.score (if countdown i == 0 then now else countdown i)))

  -- A countdown that is set ends at a deadline that is set, or later.
  abbrev pub is_late : Time → Bool
  is_late t = not (t == 0) && not (deadline == 0) && leb deadline t

  -- Each server has its probe, but those that could be taken only once they have expired.
  abbrev pub AreQueued : Queue r json → Queue r json → ℕ → List Server → Type 0
  AreQueued q q' i [] = Unit
  AreQueued q q' i (svr ∷ servers) =
      (if is_late (countdown i) then Untouched q q' (item_id i) else Holds q' i svr)
      × AreQueued q q' (suc i) servers

  module _ (distinct : (i j : ℕ) → item_id i ≡ item_id j → i ≡ j) where
    enqueue-Untouched :
        (q : Queue r json) (i : ℕ) (svr : Server) (k : Bytes)
        → beq (item_id i) k ≡ false
        → Untouched q (enqueue r json q now (item_id i) (probe_of svr) (countdown i) deadline) k
    unfolding enqueue
    enqueue-Untouched q i svr k other =
        elim (Bool-cases (never_ready r json (countdown i) deadline)) [
          | inl late ↦ rw late (refl, refl)
          | inr ready ↦ rw ready (
            r.hget-hset q.data_items (item_id i) k _ ∙ rw other refl,
            r.zscore-zadd q.order (item_id i) k _ ∙ rw other refl,
          )
        ]

    later :
        (k : Bytes) (i : ℕ)
        → ((j : ℕ) → i ≤ j → beq (item_id j) k ≡ false)
        → (j : ℕ) → suc i ≤ j
        → beq (item_id j) k ≡ false
    later k i other j le = other j (omega arith)

    pub enqueue_all-Untouched :
        (servers : List Server) (i : ℕ) (q : Queue r json) (k : Bytes)
        → ((j : ℕ) → i ≤ j → beq (item_id j) k ≡ false)
        → Untouched q (enqueue_all i q servers) k
    unfolding enqueue_all
    enqueue_all-Untouched [] i q k other = (refl, refl)
    enqueue_all-Untouched (svr ∷ servers) i q k other =
        let (a', b') = enqueue-Untouched q i svr k (other i (omega arith)) in
        let (a, b) = enqueue_all-Untouched servers (suc i) _ k (later k i other) in (a ∙ a', b ∙ b')

    distinct_keys : (i j : ℕ) → i < j → beq (item_id i) (item_id j) ≡ false
    distinct_keys i j less = elim (Bool-cases (beq (item_id i) (item_id j))) [
      | inl same ↦
          let e : i ≡ j = distinct i j (beq→eq (item_id i) (item_id j) same) in absurd (omega arith)
      | inr other ↦ other
    ]

    AreQueued-from :
        (q p q' : Queue r json) (i : ℕ) (servers : List Server)
        → ((j : ℕ) → i ≤ j → Untouched q p (item_id j))
        → AreQueued p q' i servers
        → AreQueued q q' i servers
    AreQueued-from q p q' i [] same h = tt
    AreQueued-from q p q' i (svr ∷ servers) same (here, rest) = (
      elim (Bool-cases (never_ready r json (countdown i) deadline)) [
        | inl late ↦
            let (a, b) = same i (omega arith) in
            let here' = rw late at here in rw late (here'.0 ∙ a, here'.1 ∙ b)
        | inr ready ↦ let here' = rw ready at here in rw ready here'
      ],
      AreQueued-from q p q' (suc i) servers (λ j (le : suc i ≤ j). same j (omega arith)) rest,
    )

    queued_first :
        (q q' : Queue r json) (i : ℕ) (svr : Server)
        → Untouched
            (enqueue r json q now (item_id i) (probe_of svr) (countdown i) deadline)
            q'
            (item_id i)
        → (if never_ready r json (countdown i) deadline
            then Untouched q q' (item_id i)
            else Holds q' i svr)
    unfolding enqueue
    queued_first q q' i svr (a, b) = elim (Bool-cases (never_ready r json (countdown i) deadline)) [
      | inl late ↦ let a' = rw late at a in let b' = rw late at b in rw late (a', b')
      | inr ready ↦
          let a' = rw ready at a in
          let b' = rw ready at b in
          rw ready (
            a'
                ∙ r.hget-hset q.data_items (item_id i) (item_id i) _
                ∙ rw (beq_self (item_id i)) refl,
            b' ∙ r.zscore-zadd q.order (item_id i) (item_id i) _ ∙ rw (beq_self (item_id i)) refl,
          )
    ]

    pub enqueue_all-AreQueued :
        (servers : List Server) (i : ℕ) (q : Queue r json)
        → AreQueued q (enqueue_all i q servers) i servers
    unfolding enqueue_all
    enqueue_all-AreQueued [] i q = tt
    enqueue_all-AreQueued (svr ∷ servers) i q =
        let p = enqueue r json q now (item_id i) (probe_of svr) (countdown i) deadline in
        (
          queued_first q (enqueue_all (suc i) p servers) i svr (
              enqueue_all-Untouched servers (suc i) p (item_id i)
                (λ j (le : suc i ≤ j). other_key j le)),
          AreQueued-from q p (enqueue_all (suc i) p servers) (suc i) servers
              (λ j (le : suc i ≤ j).
                enqueue-Untouched q i svr (item_id j) (distinct_keys i j (omega arith)))
              (enqueue_all-AreQueued servers (suc i) p),
        )
      where
        other_key : (j : ℕ) → suc i ≤ j → beq (item_id j) (item_id i) ≡ false
        other_key j le = elim (Bool-cases (beq (item_id j) (item_id i))) [
          | inl same ↦
              let e : j ≡ i = distinct j i (beq→eq (item_id j) (item_id i) same) in
              absurd (omega arith)
          | inr other ↦ other
        ]
