-- ===== src/Probes/Taken.antt =====
-- Which probes leave the queue, and when.
use swat4master.Prelude.{
  ◌≡◌, refl, sym, ap, ◌∙◌, ℕ, zero, suc, ◌<◌, Bool, true, false, none, some, List, [], ◌∷◌, take,
  if◌then◌else◌, arith,
}
use swat4master.Prelude.Bytes.{Bytes, beq, beq_iff, beq_self, one_of}
use swat4master.Redis.{Redis, Codec, lowest, inclusive, in_range}
use swat4master.Entities.Probe.{Probe}
use swat4master.Entities.Server.{Time}
use swat4master.Probes
use swat4master.Probes.{QItem}

beq_comm : (a b : Bytes) → beq a b ≡ beq b a
beq_comm a b = ground (arith, beq_iff a b, beq_iff b a)

one_of-take : (k : Bytes) (n : ℕ) (l : List Bytes) → one_of k (take n l) ≡ true → one_of k l ≡ true
one_of-take k zero l h = ground arith
one_of-take k (suc n) [] h = h
one_of-take k (suc n) (x ∷ l) h = ground (arith, one_of-take k n l)

module _ (r : Redis) (json : Codec QItem) where
  pub hget-drop_items :
      (h : r.Hash) (ks : List Bytes) (k : Bytes)
      → r.hget (Probes.drop_items r json h ks) k ≡ (if one_of k ks then none else r.hget h k)
  unfolding Probes.drop_items
  hget-drop_items h [] k = refl
  hget-drop_items h (j ∷ ks) k =
      hget-drop_items (r.hdel h j) ks k
      ∙ rw (r.hget-hdel h j k) (taken (beq j k) (beq k j) (one_of k ks) (beq_comm j k))
    where
      taken :
          (a b c : Bool)
          → a ≡ b
          → (if c then none else (if a then none else r.hget h k))
            ≡ (if (if b then true else c) then none else r.hget h k)
      taken a b c e = ground (arith, e)

  zscore-drop_members :
      (z : r.SortedSet) (ks : List Bytes) (k : Bytes)
      → r.zscore (Probes.drop_members r json z ks) k ≡ (if one_of k ks then none else r.zscore z k)
  unfolding Probes.drop_members
  zscore-drop_members z [] k = refl
  zscore-drop_members z (j ∷ ks) k =
      zscore-drop_members (r.zrem z j) ks k ∙ ground (arith, r.zscore-zrem z j k, beq_comm j k)

  -- Whatever other processes do between the look at the queue and the transaction: a key that `pop`
  -- takes was in the queue under a score of at most that of the time of the call; afterwards it is
  -- neither in the queue nor among the items; every other key is as the other processes left it.
  pub pop_lem :
      (meanwhile : Probes.Queue r json → Probes.Queue r json) (q : Probes.Queue r json) (now : Time)
      (count : ℕ) (k : Bytes)
      → let taken = one_of k (Probes.ready_keys r json q now count) in
        let after = (Probes.pop r json meanwhile q now count).0 in
        (taken ≡ true → in_range lowest (inclusive (r.score now)) (r.zscore q.order k) ≡ true)
        × (r.hget after.data_items k ≡ (if taken then none else r.hget (meanwhile q).data_items k))
        × (r.zscore after.order k ≡ (if taken then none else r.zscore (meanwhile q).order k))
  unfolding Probes.pop Probes.ready_keys
  pop_lem meanwhile q now count k =
      let range = r.zrange_by_score q.order lowest (inclusive (r.score now)) in
      let (items, order) = gone (take count range) in
      (
        λ t.
            sym (r.one_of-zrange q.order lowest (inclusive (r.score now)) k)
            ∙ one_of-take k count range t,
        items,
        order,
      )
    where
      gone :
          (ks : List Bytes)
          → (r.hget (Probes.pop_keys r json (meanwhile q) ks).0.data_items k
              ≡ (if one_of k ks then none else r.hget (meanwhile q).data_items k))
            × (r.zscore (Probes.pop_keys r json (meanwhile q) ks).0.order k
                ≡ (if one_of k ks then none else r.zscore (meanwhile q).order k))
      gone [] = (refl, refl)
      gone (j ∷ ks) = (
        hget-drop_items (meanwhile q).data_items (j ∷ ks) k,
        zscore-drop_members (meanwhile q).order (j ∷ ks) k,
      )

  -- A probe that is queued for later is not taken by a call of `pop` whose time has a smaller score,
  -- however many probes it asks for; the item that waits under its key decodes to the probe and its
  -- deadline. The times given are not such that the probe would be dropped.
  enqueue-waits :
      (q : Probes.Queue r json) (now : Time) (item_id : Bytes) (prb : Probe)
      (after before later : Time) (count : ℕ)
      → Probes.never_ready r json after before ≡ false
      → r.score later < r.score (Probes.ready_at r json now after)
      → let queued = Probes.enqueue r json q now item_id prb after before in
        (one_of item_id (Probes.ready_keys r json queued later count) ≡ false)
        × ((item : Bytes) × (r.hget queued.data_items item_id ≡ some item)
            × (json.decode item ≡ some (record { probe = prb; expires = before })))
  unfolding Probes.enqueue Probes.ready_keys
  enqueue-waits q now item_id prb after before later count kept early =
      let at = r.score (Probes.ready_at r json now after) in
      let range =
        r.zrange_by_score (r.zadd q.order item_id at) lowest (inclusive (r.score later)) in
      let queued_at : r.zscore (r.zadd q.order item_id at) item_id ≡ some at =
        r.zscore-zadd q.order item_id item_id at ∙ rw (beq_self item_id) in
      let out : one_of item_id range ≡ false =
        r.one_of-zrange (r.zadd q.order item_id at) lowest (inclusive (r.score later)) item_id
        ∙ ap (in_range lowest (inclusive (r.score later))) queued_at
        ∙ ground arith in
      let item = json.encode (record { probe = prb; expires = before }) in
      rw kept (
        ground (arith, out, one_of-take item_id count range),
        (
          item,
          r.hget-hset q.data_items item_id item_id item ∙ rw (beq_self item_id),
          json.decode-encode (record { probe = prb; expires = before }),
        ),
      )
