-- ===== src/Redis.antt =====
-- What the repositories rely on of Redis: hashes, sorted sets and sets, by the documented effect of
-- each command on what the other commands read. Commands are taken to reach the server, and a
-- pipeline sent by TxPipelined is one step.
pub mod Model
pub mod Forms
pub mod Cardinals
use swat4master.Prelude.{
  ◌≡◌, ℕ, ◌≤◌, Bool, true, false, Option, none, some, List, [], ◌∷◌, ◌&&◌, ◌||◌, ltb, leb,
  if◌then◌else◌,
}
use swat4master.Prelude.Bytes.{Bytes, beq, one_of, without, distinct}

-- a bound of a score range: "-inf", "+inf", "n" and "(n"
pub data Bound : Type 0 where
  lowest highest : Bound
  inclusive exclusive : ℕ → Bound

abbrev pub above : Bound → ℕ → Bool
above lowest s = true
above highest s = false
above (inclusive n) s = leb n s
above (exclusive n) s = ltb n s

abbrev pub below : Bound → ℕ → Bool
below lowest s = false
below highest s = true
below (inclusive n) s = leb s n
below (exclusive n) s = ltb s n

-- whether a member with this score is in the range
abbrev pub in_range : Bound → Bound → Option ℕ → Bool
in_range lo hi none = false
in_range lo hi (some s) = above lo s && below hi s

abbrev pub every {ℓ} : {A : Type ℓ} → (A → Bool) → List A → Bool
every p [] = true
every p (x ∷ xs) = p x && every p xs

abbrev pub any_of {ℓ} : {A : Type ℓ} → (A → Bool) → List A → Bool
any_of p [] = false
any_of p (x ∷ xs) = p x || any_of p xs

pub record Redis : Type 1 where
  pub Hash : Type 0
  pub hget : Hash → Bytes → Option Bytes
  pub hset : Hash → Bytes → Bytes → Hash
  pub hdel : Hash → Bytes → Hash
  pub hget-hset :
      (h : Hash) (k j item : Bytes)
      → hget (hset h k item) j ≡ (if beq k j then some item else hget h j)
  pub hget-hdel :
      (h : Hash) (k j : Bytes) → hget (hdel h k) j ≡ (if beq k j then none else hget h j)
  pub SortedSet : Type 0
  pub zscore : SortedSet → Bytes → Option ℕ
  pub zadd : SortedSet → Bytes → ℕ → SortedSet
  pub zrem : SortedSet → Bytes → SortedSet
  pub zrange_by_score : SortedSet → Bound → Bound → List Bytes
  pub zscore-zadd :
      (z : SortedSet) (k j : Bytes) (s : ℕ)
      → zscore (zadd z k s) j ≡ (if beq k j then some s else zscore z j)
  pub zscore-zrem :
      (z : SortedSet) (k j : Bytes) → zscore (zrem z k) j ≡ (if beq k j then none else zscore z j)
  pub one_of-zrange :
      (z : SortedSet) (lo hi : Bound) (k : Bytes)
      → one_of k (zrange_by_score z lo hi) ≡ in_range lo hi (zscore z k)
  -- the range is in the order of the scores, and of the members where those agree
  pub zrange-zrem :
      (z : SortedSet) (k : Bytes) (lo hi : Bound)
      → zrange_by_score (zrem z k) lo hi ≡ without k (zrange_by_score z lo hi)
  pub distinct-zrange : (z : SortedSet) (lo hi : Bound) → distinct (zrange_by_score z lo hi) ≡ true
  pub MemberSet : Type 0
  pub sismember : MemberSet → Bytes → Bool
  pub sadd : MemberSet → Bytes → MemberSet
  pub srem : MemberSet → Bytes → MemberSet
  pub sinter : List MemberSet → List Bytes
  pub sunion : List MemberSet → List Bytes
  pub sismember-sadd :
      (m : MemberSet) (k j : Bytes)
      → sismember (sadd m k) j ≡ (if beq k j then true else sismember m j)
  pub sismember-srem :
      (m : MemberSet) (k j : Bytes)
      → sismember (srem m k) j ≡ (if beq k j then false else sismember m j)
  pub one_of-sinter :
      (m : MemberSet) (ms : List MemberSet) (k : Bytes)
      → one_of k (sinter (m ∷ ms)) ≡ every (λ m. sismember m k) (m ∷ ms)
  pub one_of-sunion :
      (ms : List MemberSet) (k : Bytes) → one_of k (sunion ms) ≡ any_of (λ m. sismember m k) ms
  -- the score that a time in nanoseconds gets as a float64, which keeps the order
  pub score : ℕ → ℕ
  pub score_mono : (a b : ℕ) → a ≤ b → score a ≤ score b

-- An encoding of values as stored items (encoding/json).
pub record Codec (A : Type 0) : Type 0 where
  pub encode : A → Bytes
  pub decode : Bytes → Option A
  pub decode-encode : (a : A) → decode (encode a) ≡ some a
