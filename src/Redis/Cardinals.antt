-- ===== src/Redis/Cardinals.antt =====
-- HLEN and SCARD, by how writes change them, and association lists as an instance.
use swat4master.Prelude.{
  ◌≡◌, refl, ℕ, ◌+◌, Bool, true, false, Option, none, some, List, [], ◌∷◌, arith, if◌then◌else◌,
}
use swat4master.Prelude.Bytes.{Bytes, beq_iff, one_of, without, find, store, find-store}
use swat4master.Redis.{Redis}
use swat4master.Redis.Model.{lists, drop_entry, one_of-without, find-drop_entry}

abbrev pub is_present {ℓ} : {V : Type ℓ} → Option V → Bool
is_present none = false
is_present (some v) = true

pub record Cardinals (r : Redis) : Type 0 where
  pub hlen : r.Hash → ℕ
  pub hlen-hset :
      (h : r.Hash) (k item : Bytes)
      → hlen (r.hset h k item) ≡ (if is_present (r.hget h k) then hlen h else hlen h + 1)
  pub hlen-hdel :
      (h : r.Hash) (k : Bytes)
      → hlen h ≡ (if is_present (r.hget h k) then hlen (r.hdel h k) + 1 else hlen (r.hdel h k))
  pub scard : r.MemberSet → ℕ
  pub scard-sadd :
      (m : r.MemberSet) (k : Bytes)
      → scard (r.sadd m k) ≡ (if r.sismember m k then scard m else scard m + 1)
  pub scard-srem :
      (m : r.MemberSet) (k : Bytes)
      → scard m ≡ (if r.sismember m k then scard (r.srem m k) + 1 else scard (r.srem m k))

abbrev pub size : List Bytes → ℕ
size [] = 0
size (x ∷ xs) = let n = size xs in if one_of x xs then n else n + 1

abbrev pub entries {ℓ} : {V : Type ℓ} → List (Bytes × V) → ℕ
entries [] = 0
entries ((k, v) ∷ m) = let n = entries m in if is_present (find k m) then n else n + 1

pub size-without :
    (k : Bytes) (l : List Bytes)
    → size l ≡ (if one_of k l then size (without k l) + 1 else size (without k l))
size-without k [] = refl
size-without k (x ∷ xs) = ground (arith, size-without k xs, one_of-without k x xs, beq_iff k x)

pub entries-store {ℓ} :
    {V : Type ℓ} (k : Bytes) (v : V) (m : List (Bytes × V))
    → entries (store k v m) ≡ (if is_present (find k m) then entries m else entries m + 1)
entries-store k v [] = refl
entries-store k v ((j, w) ∷ m) =
    ground (arith, entries-store k v m, find-store k j v m, beq_iff k j, beq_iff j k)

pub entries-drop_entry {ℓ} :
    {V : Type ℓ} (k : Bytes) (m : List (Bytes × V))
    → entries m
      ≡ (if is_present (find k m) then entries (drop_entry k m) + 1 else entries (drop_entry k m))
entries-drop_entry k [] = refl
entries-drop_entry k ((j, w) ∷ m) =
    ground (arith, entries-drop_entry k m, find-drop_entry k j m, beq_iff k j, beq_iff j k)

abbrev pub list_cardinals : Cardinals lists
list_cardinals = record {
  hlen = λ h. entries h;
  hlen-hset = λ h k item. entries-store k item h;
  hlen-hdel = λ h k. entries-drop_entry k h;
  scard = size;
  scard-sadd = λ m k. refl;
  scard-srem = λ m k. size-without k m;
}
