-- ===== src/Redis/Model.antt =====
-- Association lists satisfy what is asked of Redis.
use swat4master.Prelude.{
  ◌≡◌, refl, ℕ, Bool, true, false, ◌&&◌, ◌||◌, none, some, List, [], ◌∷◌, ◌++◌, arith,
  if◌then◌else◌,
}
use swat4master.Prelude.Bytes.{
  Bytes, beq, beq_iff, one_of, without, distinct, find, store, find-store,
}
use swat4master.Redis.{Redis, Bound, in_range, every, any_of}

abbrev pub drop_entry {ℓ} : {V : Type ℓ} → Bytes → List (Bytes × V) → List (Bytes × V)
drop_entry k [] = []
drop_entry k ((j, v) ∷ m) = let rest = drop_entry k m in if beq k j then rest else (j, v) ∷ rest

abbrev pub keys_in : Bound → Bound → List (Bytes × ℕ) → List Bytes
keys_in lo hi [] = []
keys_in lo hi ((k, s) ∷ z) =
    let rest = without k (keys_in lo hi z) in if in_range lo hi (some s) then k ∷ rest else rest

abbrev pub keep : (Bytes → Bool) → List Bytes → List Bytes
keep p [] = []
keep p (x ∷ xs) = let rest = keep p xs in if p x then x ∷ rest else rest

abbrev pub common : List (List Bytes) → List Bytes
common [] = []
common (m ∷ ms) = keep (λ x. every (λ m'. one_of x m') ms) m

abbrev pub union : List (List Bytes) → List Bytes
union [] = []
union (m ∷ ms) = m ++ union ms

pub one_of-without :
    (k j : Bytes) (l : List Bytes)
    → one_of j (without k l) ≡ (if beq k j then false else one_of j l)
one_of-without k j [] = ground arith
one_of-without k j (x ∷ xs) =
    ground (arith, one_of-without k j xs, beq_iff k j, beq_iff k x, beq_iff j x)

pub find-drop_entry {ℓ} :
    {V : Type ℓ} (k j : Bytes) (m : List (Bytes × V))
    → find j (drop_entry k m) ≡ (if beq k j then none else find j m)
find-drop_entry k j [] = ground arith
find-drop_entry k j ((i, v) ∷ m) =
    ground (arith, find-drop_entry k j m, beq_iff k j, beq_iff k i, beq_iff i j)

without_comm : (k j : Bytes) (l : List Bytes) → without k (without j l) ≡ without j (without k l)
without_comm k j [] = refl
without_comm k j (x ∷ xs) = ground (arith, without_comm k j xs)

without_twice : (k : Bytes) (l : List Bytes) → without k (without k l) ≡ without k l
without_twice k [] = refl
without_twice k (x ∷ xs) = ground (arith, without_twice k xs)

distinct-without : (k : Bytes) (l : List Bytes) → distinct l ≡ true → distinct (without k l) ≡ true
distinct-without k [] h = refl
distinct-without k (x ∷ xs) h = ground (arith, distinct-without k xs, one_of-without k x xs)

pub keys_in-drop_entry :
    (z : List (Bytes × ℕ)) (lo hi : Bound) (k : Bytes)
    → keys_in lo hi (drop_entry k z) ≡ without k (keys_in lo hi z)
keys_in-drop_entry [] lo hi k = refl
keys_in-drop_entry ((j, s) ∷ z) lo hi k = ground (
  arith,
  keys_in-drop_entry z lo hi k,
  beq_iff k j,
  without_comm k j (keys_in lo hi z),
  without_twice k (keys_in lo hi z),
)

pub distinct-keys_in : (z : List (Bytes × ℕ)) (lo hi : Bound) → distinct (keys_in lo hi z) ≡ true
distinct-keys_in [] lo hi = refl
distinct-keys_in ((k, s) ∷ z) lo hi = ground (
  arith,
  distinct-keys_in z lo hi,
  distinct-without k (keys_in lo hi z),
  one_of-without k k (keys_in lo hi z),
  beq_iff k k,
)

pub one_of-keys_in :
    (z : List (Bytes × ℕ)) (lo hi : Bound) (j : Bytes)
    → one_of j (keys_in lo hi z) ≡ in_range lo hi (find j z)
one_of-keys_in [] lo hi j = refl
one_of-keys_in ((k, s) ∷ z) lo hi j = ground (
  arith,
  one_of-keys_in z lo hi j,
  one_of-without k j (keys_in lo hi z),
  beq_iff k j,
  beq_iff j k,
)

pub one_of-keep :
    (p : Bytes → Bool) (j : Bytes) (l : List Bytes) → one_of j (keep p l) ≡ (one_of j l && p j)
one_of-keep p j [] = refl
one_of-keep p j (x ∷ xs) = ground (arith, one_of-keep p j xs, beq_iff j x)

one_of-append : (j : Bytes) (a b : List Bytes) → one_of j (a ++ b) ≡ (one_of j a || one_of j b)
one_of-append j [] b = refl
one_of-append j (x ∷ a) b = ground (arith, one_of-append j a b)

pub one_of-union :
    (ms : List (List Bytes)) (j : Bytes) → one_of j (union ms) ≡ any_of (λ m. one_of j m) ms
one_of-union [] j = refl
one_of-union (m ∷ ms) j = ground (arith, one_of-append j m (union ms), one_of-union ms j)

pub sadd_law :
    (m : List Bytes) (k j : Bytes) → one_of j (k ∷ m) ≡ (if beq k j then true else one_of j m)
sadd_law m k j = ground (arith, beq_iff k j, beq_iff j k)

abbrev pub lists : Redis
lists = record {
  Hash = List (Bytes × Bytes);
  hget = λ h k. find k h;
  hset = λ h k item. store k item h;
  hdel = λ h k. drop_entry k h;
  hget-hset = λ h k j item. find-store k j item h;
  hget-hdel = λ h k j. find-drop_entry k j h;
  SortedSet = List (Bytes × ℕ);
  zscore = λ z k. find k z;
  zadd = λ z k s. store k s z;
  zrem = λ z k. drop_entry k z;
  zrange_by_score = λ z lo hi. keys_in lo hi z;
  zscore-zadd = λ z k j s. find-store k j s z;
  zscore-zrem = λ z k j. find-drop_entry k j z;
  one_of-zrange = λ z lo hi k. one_of-keys_in z lo hi k;
  zrange-zrem = λ z k lo hi. keys_in-drop_entry z lo hi k;
  distinct-zrange = distinct-keys_in;
  MemberSet = List Bytes;
  sismember = λ m k. one_of k m;
  sadd = λ m k. k ∷ m;
  srem = λ m k. without k m;
  sinter = common;
  sunion = union;
  sismember-sadd = sadd_law;
  sismember-srem = λ m k j. one_of-without k j m;
  one_of-sinter = λ m ms k. one_of-keep (λ x. every (λ m'. one_of x m') ms) k m;
  one_of-sunion = one_of-union;
  score = λ t. t;
  score_mono = λ a b h. h;
}
