-- ===== src/Probers/Preferred.antt =====
-- The response that the port prober goes on with.
use swat4master.Prelude.{
  ◌≡◌, refl, sym, ap, subst, ℕ, ◌≤◌, ◌<◌, Bool, true, false, List, [], ◌∷◌, ◌++◌, ltb,
  if◌then◌else◌, arith, ◌⊎◌, inl, inr,
}
use swat4master.Probers.{Response, compare_responses, collect_responses}

abbrev pub AtMost : ℕ → List Response → Type 0
AtMost v [] = Unit
AtMost v (r ∷ rs) = (r.version ≤ v) × AtMost v rs

abbrev pub Below : ℕ → List Response → Type 0
Below v [] = Unit
Below v (r ∷ rs) = (r.version < v) × Below v rs

-- that it is one of the responses, that none has a greater version, and none after it the same one
abbrev pub LastBest : Response → List Response → Type 0
LastBest best all =
    (earlier : List Response) × (later : List Response) × (all ≡ earlier ++ (best ∷ later))
    × AtMost best.version earlier
    × Below best.version later

-- the response so far, unless a response among the rest is as good
abbrev Kept : Response → List Response → Response → Type 0
Kept best rest chosen =
    ((chosen ≡ best) × Below best.version rest)
    ⊎ ((best.version ≤ chosen.version) × LastBest chosen rest)

pass_over :
    (best r chosen : Response) (rest : List Response)
    → r.version < best.version
    → Kept best rest chosen
    → Kept best (r ∷ rest) chosen
pass_over best r chosen rest less (inl (same, below)) = inl (same, (less, below))
pass_over best r chosen rest less (inr (le, (earlier, later, e, most, below))) =
    inr (le, (r ∷ earlier, later, ap (λ l. r ∷ l) e, (omega arith, most), below))

take_over :
    (best r chosen : Response) (rest : List Response)
    → best.version ≤ r.version
    → Kept r rest chosen
    → LastBest chosen (r ∷ rest) × (best.version ≤ chosen.version)
take_over best r chosen rest le (inl (same, below)) =
    subst (λ c. LastBest c (r ∷ rest) × (best.version ≤ c.version)) (sym same)
      (([], rest, refl, tt, below), le)
take_over best r chosen rest le (inr (le', (earlier, later, e, most, below))) =
    ((r ∷ earlier, later, ap (λ l. r ∷ l) e, (le', most), below), omega arith)

collect-Kept :
    (best : Response) (rest : List Response) → Kept best rest (collect_responses best rest)
unfolding collect_responses compare_responses
collect-Kept best [] = inl (refl, tt)
collect-Kept best (r ∷ rest) =
    branch (collect-Kept best rest) (collect-Kept r rest) (ltb r.version best.version) refl
  where
    branch :
        Kept best rest (collect_responses best rest)
        → Kept r rest (collect_responses r rest)
        → (less : Bool) → ltb r.version best.version ≡ less
        → Kept best (r ∷ rest) (collect_responses (if less then best else r) rest)
    branch without with_it true e =
        pass_over best r (collect_responses best rest) rest (ground arith) without
    branch without with_it false e =
        let next = take_over best r (collect_responses r rest) rest (ground arith) with_it in
        inr (next.1, next.0)

-- Of the responses that arrive, at least one, the port prober goes on with one of the greatest version, and among
-- these with the last; it starts from Go's zero value, whose version is 0.
pub collect-best :
    (zero_value r : Response) (rest : List Response)
    → zero_value.version ≡ 0
    → LastBest (collect_responses zero_value (r ∷ rest)) (r ∷ rest)
unfolding collect_responses compare_responses
collect-best zero_value r rest none_yet = branch (ltb r.version zero_value.version) refl
  where
    branch :
        (less : Bool)
        → ltb r.version zero_value.version ≡ less
        → LastBest (collect_responses (if less then zero_value else r) rest) (r ∷ rest)
    branch true e = absurd (ground arith)
    branch false e =
        (take_over zero_value r (collect_responses r rest) rest (ground arith)
          (collect-Kept r rest)).0
