-- ===== src/Probers/Probing/Found.antt =====
-- Which port the port prober finds.
use mathlib.Core.List.{Memᴰ, Permᴰ}
use swat4master.Prelude.{
  ◌≡◌, refl, sym, ap, ◌∙◌, subst, ℕ, ◌≤◌, Bool, true, false, Option, none, some, List, [], ◌∷◌,
  ◌++◌, arith, Bool-cases, inl, inr,
}
use swat4master.Prelude.Int.{ℤ, ◌+ℤ◌, eqℤ, eqℤ→eq, eqℤ_self}
use swat4master.Gs1.Expand
use swat4master.Entities.Addr.{Ip4, Addr}
use swat4master.Entities.Details.{Details, new_details_from_params}
use swat4master.Probers.{PortResult, Response, collect_responses}
use swat4master.Probers.Preferred.{AtMost, Below, collect-best}
use swat4master.Probers.Probing.{
  QueryResult, responded, deadline_exceeded, query_error, port_discovery_failed, parse_failed,
  validation_failed, Probed, ok, err, to_uint16, hostport, with_port, matching, response_of,
  no_response, probe_port, probe_ports, sent_first, validated, port_result, probe_for_port,
}

mem-perm {ℓ} : {A : Type ℓ} {x : A} {l m : List A} → Permᴰ l m → Memᴰ x l → Memᴰ x m
mem-perm Permᴰ.nil h = h
mem-perm (Permᴰ.cons e p) (Memᴰ.head f) = Memᴰ.head (f ∙ e)
mem-perm (Permᴰ.cons e p) (Memᴰ.tail h) = Memᴰ.tail (mem-perm p h)
mem-perm (Permᴰ.swap e f) (Memᴰ.head g) = Memᴰ.tail (Memᴰ.head (g ∙ e))
mem-perm (Permᴰ.swap e f) (Memᴰ.tail (Memᴰ.head g)) = Memᴰ.head (g ∙ f)
mem-perm (Permᴰ.swap e f) (Memᴰ.tail (Memᴰ.tail h)) = Memᴰ.tail (Memᴰ.tail h)
mem-perm (Permᴰ.trans p q) h = mem-perm q (mem-perm p h)

mem-perm_back {ℓ} : {A : Type ℓ} {x : A} {l m : List A} → Permᴰ l m → Memᴰ x m → Memᴰ x l
mem-perm_back Permᴰ.nil h = h
mem-perm_back (Permᴰ.cons e p) (Memᴰ.head f) = Memᴰ.head (f ∙ sym e)
mem-perm_back (Permᴰ.cons e p) (Memᴰ.tail h) = Memᴰ.tail (mem-perm_back p h)
mem-perm_back (Permᴰ.swap e f) (Memᴰ.head g) = Memᴰ.tail (Memᴰ.head (g ∙ sym f))
mem-perm_back (Permᴰ.swap e f) (Memᴰ.tail (Memᴰ.head g)) = Memᴰ.head (g ∙ sym e)
mem-perm_back (Permᴰ.swap e f) (Memᴰ.tail (Memᴰ.tail h)) = Memᴰ.tail (Memᴰ.tail h)
mem-perm_back (Permᴰ.trans p q) h = mem-perm_back p (mem-perm_back q h)

none_in {ℓ} : {A : Type ℓ} {x : A} → Memᴰ x [] → ⊥
none_in m = elim m [ ]

AtMost-mem : (v : ℕ) (l : List Response) {x : Response} → AtMost v l → Memᴰ x l → x.version ≤ v
AtMost-mem v [] a m = absurd (none_in m)
AtMost-mem v (y ∷ l) a (Memᴰ.head e) = subst (λ (t : Response). t.version ≤ v) (sym e) a.0
AtMost-mem v (y ∷ l) a (Memᴰ.tail m) = AtMost-mem v l a.1 m

mem_middle {ℓ} :
    {A : Type ℓ} (before : List A) (x : A) (after : List A) → Memᴰ x (before ++ x ∷ after)
mem_middle [] x after = Memᴰ.head refl
mem_middle (y ∷ before) x after = Memᴰ.tail (mem_middle before x after)

AtMost-append :
    (v : ℕ) (before : List Response) (x : Response) (after : List Response)
    → AtMost v before
    → x.version ≤ v
    → Below v after
    → AtMost v (before ++ x ∷ after)
AtMost-append v [] x [] a le b = (le, tt)
AtMost-append v [] x (y ∷ after) a le (less, b) =
    (le, AtMost-append v [] y after tt (omega arith) b)
AtMost-append v (y ∷ before) x after (le', a) le b = (le', AtMost-append v before x after a le b)

module _ (query : Ip4 → ℕ → QueryResult) (valid : Details → Bool) where
  module _ (addr : Addr) where
    -- The answer to the query of a port, with the address' own port as its hostport.
    abbrev pub Answers : ℤ → Response → Type 0
    Answers query_port found =
        (resp : Expand.Response) × (query addr.ip (to_uint16 query_port) ≡ responded resp)
        × (hostport resp.fields ≡ some addr.port)
        × (found ≡ with_port resp query_port)

    probe_port-Answers :
        (query_port : ℤ) (found : Response)
        → probe_port query valid addr.ip addr.port query_port ≡ some found
        → Answers query_port found
    unfolding probe_port
    probe_port-Answers query_port found h = result (query addr.ip (to_uint16 query_port)) refl h
      where
        host :
            (resp : Expand.Response) (o : Option ℤ)
            → hostport resp.fields ≡ o
            → matching resp addr.port query_port o ≡ some found
            → (hostport resp.fields ≡ some addr.port) × (found ≡ with_port resp query_port)
        host resp none e g = absurd cc
        host resp (some port) e g = elim (Bool-cases (eqℤ port addr.port)) [
          | inl same ↦
              let g' = rw same at g in (e ∙ ap (λ (p : ℤ). some p) (eqℤ→eq port addr.port same), cc)
          | inr other ↦ let g' = rw other at g in absurd cc
        ]

        result :
            (q : QueryResult)
            → query addr.ip (to_uint16 query_port) ≡ q
            → response_of addr.port query_port q ≡ some found
            → Answers query_port found
        result deadline_exceeded e g = absurd cc
        result query_error e g = absurd cc
        result (responded resp) e g =
            let (a, b) = host resp (hostport resp.fields) refl g in (resp, e, a, b)

    -- A response is that of the port at one of the offsets.
    abbrev pub IsFrom : List ℤ → Response → Type 0
    IsFrom offsets found = (offset : ℤ) × Memᴰ offset offsets × Answers (addr.port +ℤ offset) found

    probe_ports-IsFrom :
        (offsets : List ℤ) {found : Response}
        → Memᴰ found (probe_ports query valid addr offsets)
        → IsFrom offsets found
    unfolding probe_ports
    probe_ports-IsFrom [] h = absurd (none_in h)
    probe_ports-IsFrom (offset ∷ offsets) {found} h =
        first (probe_port query valid addr.ip addr.port (addr.port +ℤ offset)) refl h
          (λ m. probe_ports-IsFrom offsets m)
      where
        later : IsFrom offsets found → IsFrom (offset ∷ offsets) found
        later (o, m, a) = (o, Memᴰ.tail m, a)

        first :
            (o : Option Response)
            → probe_port query valid addr.ip addr.port (addr.port +ℤ offset) ≡ o
            → Memᴰ found (sent_first query valid o (probe_ports query valid addr offsets))
            → (Memᴰ found (probe_ports query valid addr offsets) → IsFrom offsets found)
            → IsFrom (offset ∷ offsets) found
        first none e m rest = later (rest m)
        first (some x) e (Memᴰ.head f) rest = (
          offset,
          Memᴰ.head refl,
          probe_port-Answers (addr.port +ℤ offset) found
              (e ∙ ap (λ (y : Response). some y) (sym f)),
        )
        first (some x) e (Memᴰ.tail m) rest = later (rest m)

    Answers-probe_port :
        (query_port : ℤ) (found : Response)
        → Answers query_port found
        → probe_port query valid addr.ip addr.port query_port ≡ some found
    unfolding probe_port
    Answers-probe_port query_port found (resp, asked, host, e) =
        rw (asked, host, eqℤ_self addr.port, e) refl

    -- every port that answers is among the responses
    Answers-mem :
        (offsets : List ℤ) {offset : ℤ} {found : Response}
        → Memᴰ offset offsets
        → Answers (addr.port +ℤ offset) found
        → Memᴰ found (probe_ports query valid addr offsets)
    unfolding probe_ports
    Answers-mem [] m a = absurd (none_in m)
    Answers-mem (o ∷ offsets) {offset} {found} (Memᴰ.head e) a =
        let answers : Answers (addr.port +ℤ o) found =
          subst (λ (t : ℤ). Answers (addr.port +ℤ t) found) e a in
        let sent = Answers-probe_port (addr.port +ℤ o) found answers in rw sent (Memᴰ.head refl)
    Answers-mem (o ∷ offsets) {offset} {found} (Memᴰ.tail m) a =
        behind (probe_port query valid addr.ip addr.port (addr.port +ℤ o)) (Answers-mem offsets m a)
      where
        behind :
            (sent : Option Response)
            → Memᴰ found (probe_ports query valid addr offsets)
            → Memᴰ found (sent_first query valid sent (probe_ports query valid addr offsets))
        behind none h = h
        behind (some x) h = Memᴰ.tail h

    -- No port at one of the offsets has a better answer.
    abbrev pub IsBest : List ℤ → Response → Type 0
    IsBest offsets best =
        (offset : ℤ) (found : Response)
        → Memᴰ offset offsets
        → Answers (addr.port +ℤ offset) found
        → found.version ≤ best.version

    -- the best answer, and no more than the port's own
    abbrev pub IsChosen : List ℤ → Response → Type 0
    IsChosen offsets best = IsFrom offsets best × IsBest offsets best

    -- What the port prober reports when the ports have been asked.
    abbrev pub IsFound : List ℤ → Probed PortResult → Type 0
    IsFound offsets (ok result) =
        (best : Response) × IsChosen offsets best
        × (result.port ≡ best.port)
        × (new_details_from_params best.fields best.players best.objectives ≡ some result.details)
        × (valid result.details ≡ true)
    IsFound offsets (err port_discovery_failed) =
        (offset : ℤ) (found : Response)
        → Memᴰ offset offsets
        → Answers (addr.port +ℤ offset) found
        → ⊥
    IsFound offsets (err parse_failed) =
        (best : Response) × IsChosen offsets best
        × (new_details_from_params best.fields best.players best.objectives ≡ none)
    IsFound offsets (err validation_failed) =
        (best : Response) × IsChosen offsets best
        × ((det : Details) × (new_details_from_params best.fields best.players best.objectives
              ≡ some det)
            × (valid det ≡ false))
    IsFound offsets (err e) = ⊥

    port_result-IsFound :
        (offsets : List ℤ) (best : Response)
        → IsChosen offsets best
        → IsFound offsets (port_result query valid best)
    port_result-IsFound offsets best chosen =
        parsed (new_details_from_params best.fields best.players best.objectives) refl
      where
        parsed :
            (o : Option Details)
            → new_details_from_params best.fields best.players best.objectives ≡ o
            → IsFound offsets
                (validated query valid (λ det. record { details = det; port = best.port }) o)
        parsed none e = (best, chosen, e)
        parsed (some det) e = elim (Bool-cases (valid det)) [
          | inl accepted ↦ rw accepted (best, chosen, refl, e, accepted)
          | inr rejected ↦ rw rejected (best, chosen, (det, e, rejected))
        ]

    -- The responses that arrive are those that were sent, in any order, unless the emergency timeout
    -- is up before.
    abbrev pub Arrives : Option (List Response) → List Response → Type 0
    Arrives none sent = Unit {0}
    Arrives (some arrived) sent = Permᴰ arrived sent

    abbrev pub IsOutcome : List ℤ → Option (List Response) → Probed PortResult → Type 0
    IsOutcome offsets none result = result ≡ err port_discovery_failed
    IsOutcome offsets (some arrived) result = IsFound offsets result

    -- A port at one of the offsets answers if its query gives a response whose hostport is the
    -- address' own port. If the emergency timeout is up, the port prober fails to find a port.
    -- Otherwise the responses arrive in any order, and: if it succeeds, the port that it reports is
    -- one that answers, no port answers in a greater version, and its answer parses to the details
    -- reported, which are valid; if it fails, no port answers, or the answer of a port that no other
    -- exceeds in its version cannot be parsed, or its details are not valid.
    pub probe_for_port-IsOutcome :
        (offsets : List ℤ) (arrival : Option (List Response))
        → Arrives arrival (probe_ports query valid addr offsets)
        → IsOutcome offsets arrival (probe_for_port query valid (λ l. arrival) offsets addr)
    unfolding probe_for_port
    probe_for_port-IsOutcome offsets none perm = refl
    probe_for_port-IsOutcome offsets (some []) perm =
        λ offset found m a. none_in (mem-perm_back perm (Answers-mem offsets m a))
    probe_for_port-IsOutcome offsets (some (resp ∷ rest)) perm =
        let best = collect_responses no_response (resp ∷ rest) in
        let (earlier, later, e, most, below) = collect-best no_response resp rest refl in
        let there : Memᴰ best (resp ∷ rest) =
          subst (Memᴰ best) (sym e) (mem_middle earlier best later) in
        let greatest : AtMost best.version (resp ∷ rest) =
          subst (AtMost best.version) (sym e)
            (AtMost-append best.version earlier best later most (omega arith) below) in
        port_result-IsFound offsets best (
          probe_ports-IsFrom offsets (mem-perm perm there),
          λ offset found m a.
              AtMost-mem best.version (resp ∷ rest) greatest
                (mem-perm_back perm (Answers-mem offsets m a)),
        )
