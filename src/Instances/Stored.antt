-- ===== src/Instances/Stored.antt =====
-- Which instances are stored.
use swat4master.Prelude.{
  ◌≡◌, refl, sym, ap, ◌∙◌, subst, ℕ, leb, ◌==◌, ◌||◌, Bool-cases, inl, inr, Bool, true, false,
  Option, none, some, List, [], ◌∷◌, if◌then◌else◌, arith,
}
use swat4master.Prelude.Bytes.{Bytes, beq, beq_iff, beq_self, one_of}
use swat4master.Prelude.Int.{ℤ}
use swat4master.Redis.{Redis, lowest, in_range}
use swat4master.Entities.Addr
use swat4master.Entities.Addr.{Ip4, get_ip, new_addr, port_out_of_range, to4}
use swat4master.Entities.Instance.{Identifier, Instance, new_instance}
use swat4master.Entities.Instance
use swat4master.Entities.Server.{Time}
use swat4master.Entities.Filterset.{get_time}
use swat4master.Instances
use swat4master.Instances.{InstanceCodec, StoredInstance, ok, err}

pub passed :
    (refused : Bool) (e : Addr.AddrError) (y : Addr.Result Addr.Addr) (a : Addr.Addr)
    → (if refused then Addr.err e else y) ≡ Addr.ok a
    → (refused ≡ false) × (y ≡ Addr.ok a)
passed true e y a h = absurd cc
passed false e y a h = (refl, h)

pub ok_injective : (x y : Addr.Addr) → Addr.ok x ≡ Addr.ok y → x ≡ y
ok_injective x y h = cc

accept_ip-ip :
    (port : ℤ) (found : Option Ip4) (a : Addr.Addr)
    → Addr.accept_ip port found ≡ Addr.ok a
    → (Addr.accept_ip a.port (some a.ip) ≡ Addr.ok a) × (a.port ≡ port)
accept_ip-ip port none a h = absurd cc
accept_ip-ip port (some ip) a h =
    let x : Addr.Addr = record { ip = ip; port = port } in
    let same = ok_injective x a (passed _ Addr.invalid_ip (Addr.ok x) a h).1 in
    (
      subst (λ (t : Addr.Addr). Addr.accept_ip t.port (some t.ip) ≡ Addr.ok t) same
          (h ∙ ap (λ t. Addr.ok t) (sym same)),
      ap (λ (t : Addr.Addr). t.port) (sym same),
    )

-- an address that was accepted is accepted again
new_addr-get_ip :
    (ip : Bytes) (port : ℤ) (a : Addr.Addr)
    → new_addr ip port ≡ Addr.ok a
    → new_addr (get_ip a) a.port ≡ Addr.ok a
unfolding new_addr to4
new_addr-get_ip ip port a h =
    let (inside, found) =
      passed (port_out_of_range port) Addr.invalid_port (Addr.accept_ip port (to4 ip)) a h in
    let (again, same) = accept_ip-ip port (to4 ip) a found in
    ap
      (λ (refused : Bool).
        if refused then Addr.err Addr.invalid_port else Addr.accept_ip a.port (some a.ip))
      (ap port_out_of_range same ∙ inside)
    ∙ again

new_instance-get_ip :
    (id : Identifier) (ip : Bytes) (port : ℤ) (ins : Instance)
    → new_instance id ip port ≡ Addr.ok ins
    → new_instance ins.id (get_ip ins.addr) ins.addr.port ≡ Addr.ok ins
unfolding new_instance
new_instance-get_ip id ip port ins h = branch (new_addr ip port) refl h
  where
    instance_injective : (x y : Instance) → Addr.ok x ≡ Addr.ok y → x ≡ y
    instance_injective x y e = cc

    branch :
        (found : Addr.Result Addr.Addr)
        → new_addr ip port ≡ found
        → Instance.with_id id found ≡ Addr.ok ins
        → Instance.with_id ins.id (new_addr (get_ip ins.addr) ins.addr.port) ≡ Addr.ok ins
    branch (Addr.err e) at made = absurd cc
    branch (Addr.ok a) at made =
        let x : Instance = record { id = id; addr = a } in
        let same : x ≡ ins = instance_injective x ins made in
        subst
          (λ (t : Instance).
            Instance.with_id t.id (new_addr (get_ip t.addr) t.addr.port) ≡ Addr.ok t)
          same (ap (Instance.with_id id) (new_addr-get_ip ip port a at))

-- both forms of an IP address are taken for the same
new_addr-mapped_ip :
    (a : Addr.Addr) → new_addr (Instances.mapped_ip a.ip) a.port ≡ new_addr (get_ip a) a.port
unfolding new_addr to4
new_addr-mapped_ip a = refl

beq_comm : (a b : Bytes) → beq a b ≡ beq b a
beq_comm a b = ground (arith, beq_iff a b, beq_iff b a)

module _ (r : Redis) (json : InstanceCodec) where
  -- An instance that was made by `new_instance` is read back once it is added, whatever was stored,
  -- though its IP address is decoded to another form; and is not found once it is removed.
  pub get-add :
      (c : Instances.Contents r json) (now : Time) (id : Identifier) (ip : Bytes) (port : ℤ)
      (ins : Instance)
      → new_instance id ip port ≡ Addr.ok ins
      → let added = Instances.add r json c now ins in
        (Instances.get r json added ins.id ≡ ok ins)
        × (Instances.get r json (Instances.remove r json added ins.id) ins.id
            ≡ err Instances.instance_not_found)
  unfolding Instances.add Instances.get Instances.remove new_instance
  get-add c now id ip port ins made =
      let key = Instances.hex ins.id in
      let item = json.encode (Instances.to_stored ins) in
      let stored : r.hget (r.hset c.items key item) key ≡ some item =
        r.hget-hset c.items key key item ∙ rw (beq_self key) in
      let gone : r.hget (r.hdel (r.hset c.items key item) key) key ≡ none =
        r.hget-hdel (r.hset c.items key item) key key ∙ rw (beq_self key) in
      (
        ap (Instances.fetched r json) stored
            ∙ ap Instances.decode_instance (json.decode-encode ins.id ins.addr.ip ins.addr.port)
            ∙ ap (λ x. Instances.valid (Instance.with_id ins.id x)) (new_addr-mapped_ip ins.addr)
            ∙ ap Instances.valid (new_instance-get_ip id ip port ins made),
        ap (Instances.fetched r json) gone,
      )

  hget-drop_items :
      (h : r.Hash) (ks : List Bytes) (k : Bytes)
      → r.hget (Instances.drop_items r json h ks) k ≡ (if one_of k ks then none else r.hget h k)
  unfolding Instances.drop_items
  hget-drop_items h [] k = refl
  hget-drop_items h (j ∷ ks) k =
      hget-drop_items (r.hdel h j) ks k ∙ ground (arith, r.hget-hdel h j k, beq_comm j k)

  zscore-drop_members :
      (z : r.SortedSet) (ks : List Bytes) (k : Bytes)
      → r.zscore (Instances.drop_members r json z ks) k
        ≡ (if one_of k ks then none else r.zscore z k)
  unfolding Instances.drop_members
  zscore-drop_members z [] k = refl
  zscore-drop_members z (j ∷ ks) k =
      zscore-drop_members (r.zrem z j) ks k ∙ ground (arith, r.zscore-zrem z j k, beq_comm j k)

  -- the last report, if there is one, is at most as late as the time, or no time is given
  abbrev pub is_old : Time → Option ℕ → Bool
  is_old before none = false
  is_old before (some reported) = before == 0 || leb reported (r.score before)

  in_range-is_old :
      (before : Time) (reported : Option ℕ)
      → in_range lowest (Instances.stop_at r json (get_time before)) reported
        ≡ is_old before reported
  in_range-is_old before none = refl
  in_range-is_old before (some reported) = elim (Bool-cases (before == 0)) [
    | inl unset ↦ rw unset refl
    | inr given ↦ rw given refl
  ]

  -- Clearing takes out exactly the instances whose last report has a score of at most that of the
  -- given time, or all that were reported if no time is given; the others stay as they were.
  pub clear_lem :
      (c : Instances.Contents r json) (before : Time) (k : Bytes)
      → let old = is_old before (r.zscore c.updates k) in
        let after = (Instances.clear r json c before).0 in
        (r.hget after.items k ≡ (if old then none else r.hget c.items k))
        × (r.zscore after.updates k ≡ (if old then none else r.zscore c.updates k))
  unfolding Instances.clear
  clear_lem c before k =
      let stop = Instances.stop_at r json (get_time before) in
      let keys = r.zrange_by_score c.updates lowest stop in
      subst
        (λ (old : Bool).
          (r.hget (Instances.clear_keys r json c keys).0.items k
            ≡ (if old then none else r.hget c.items k))
          × (r.zscore (Instances.clear_keys r json c keys).0.updates k
              ≡ (if old then none else r.zscore c.updates k)))
        (r.one_of-zrange c.updates lowest stop k ∙ in_range-is_old before (r.zscore c.updates k))
        (gone keys)
    where
      gone :
          (ks : List Bytes)
          → (r.hget (Instances.clear_keys r json c ks).0.items k
              ≡ (if one_of k ks then none else r.hget c.items k))
            × (r.zscore (Instances.clear_keys r json c ks).0.updates k
                ≡ (if one_of k ks then none else r.zscore c.updates k))
      gone [] = (refl, refl)
      gone (j ∷ ks) = (hget-drop_items c.items (j ∷ ks) k, zscore-drop_members c.updates (j ∷ ks) k)
