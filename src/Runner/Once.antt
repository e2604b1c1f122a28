-- ===== src/Runner/Once.antt =====
-- That the steps of the runner pass on the very probes that were taken.
use mathlib.Core.List.{Permᴰ, append_assoc}
use mathlib.Core.List.Permᴰ
use swat4master.Prelude.{
  ◌≡◌, sym, subst, ℕ, ◌+◌, ◌++◌, Bool, true, List, [], ◌∷◌, length, arith, length-append,
}
use swat4master.Redis.{Redis, Codec}
use swat4master.Entities.Probe.{Probe, Goal}
use swat4master.Probes.{QItem}
use swat4master.Runner.{Runner, send, receive, begin, finish}
use swat4master.Runner.Steps.{Work, Run}
use swat4master.Runner.Consistent.{count_probe-Counted}

-- the probes that are on their way
abbrev pub flight : Runner → List Probe
flight s = s.unsent ++ (s.queue ++ (s.received ++ s.probing))

module _ {A : Type 0} where
  pull : (p : A) (l x y : List A) → Permᴰ x (p ∷ y) → Permᴰ (l ++ x) (p ∷ (l ++ y))
  pull p l x y h = Permᴰ.trans (Permᴰ.append_left l h) (Permᴰ.middle p l y)

  -- from the front of one list to the end of the next
  pass_on :
      (p : A) (rest q x : List A) → Permᴰ (p ∷ (rest ++ (q ++ x))) (rest ++ ((q ++ p ∷ []) ++ x))
  pass_on p rest q x =
      subst (λ l. Permᴰ (p ∷ (rest ++ (q ++ x))) (rest ++ l)) (sym (append_assoc q (p ∷ []) x))
        (Permᴰ.symm (pull p rest (q ++ p ∷ x) (q ++ x) (Permᴰ.middle p q x)))

  -- from the middle of one list to the end of the next
  take_out :
      (before : List A) (p : A) (after q : List A)
      → Permᴰ ((before ++ p ∷ after) ++ q) ((before ++ after) ++ (q ++ p ∷ []))
  take_out before p after q = Permᴰ.trans (Permᴰ.append_right q (Permᴰ.middle p before after)) (
      subst (Permᴰ (p ∷ ((before ++ after) ++ q))) (append_assoc (before ++ after) q (p ∷ []))
        (Permᴰ.append_comm (p ∷ []) ((before ++ after) ++ q)))

module _ (r : Redis) (json : Codec QItem) (concurrency : ℕ) (supports : Goal → Bool)
    (all : (g : Goal) → supports g ≡ true) where
  -- The probes in flight are worked off or still in flight, and those worked off are counted.
  abbrev pub IsPassedOn : Runner → Runner → Type 0
  IsPassedOn s t =
      (done : List Probe) × Permᴰ (flight s) (done ++ flight t)
      × (t.metrics.probes ≡ s.metrics.probes + length done)

  Work-IsPassedOn : {s t : Runner} → Work r json concurrency supports s t → IsPassedOn s t
  unfolding send receive begin finish
  Work-IsPassedOn {s} (Work.send_one prb rest e room) = (
    [],
    subst (λ l. Permᴰ (l ++ (s.queue ++ (s.received ++ s.probing))) (flight (send prb rest s)))
        (sym e) (pass_on prb rest s.queue (s.received ++ s.probing)),
    omega arith,
  )
  Work-IsPassedOn {s} (Work.receive_one waiting prb rest e f) = (
    [],
    Permᴰ.append_left s.unsent (
        subst
          (λ l.
            Permᴰ (l ++ (s.received ++ s.probing))
              (rest ++ ((s.received ++ prb ∷ []) ++ s.probing)))
          (sym f) (pass_on prb rest s.received s.probing)),
    omega arith,
  )
  Work-IsPassedOn {s} (Work.begin_one before prb after e) = (
    [],
    Permᴰ.append_left s.unsent (
        Permᴰ.append_left s.queue (
          subst (λ l. Permᴰ (l ++ s.probing) ((before ++ after) ++ (s.probing ++ prb ∷ []))) (sym e)
            (take_out before prb after s.probing))),
    omega arith,
  )
  Work-IsPassedOn {s} (Work.finish_one before prb after outcome e) =
      let counted = count_probe-Counted concurrency supports all prb outcome s.metrics in
      (
        prb ∷ [],
        subst
            (λ l.
              Permᴰ (s.unsent ++ (s.queue ++ (s.received ++ l)))
                (prb ∷ (s.unsent ++ (s.queue ++ (s.received ++ (before ++ after))))))
            (sym e)
            (pull prb s.unsent _ _
              (pull prb s.queue _ _ (pull prb s.received _ _ (Permᴰ.middle prb before after)))),
        counted.0,
      )

  pub Run-IsPassedOn :
      {s t : Runner} {n : ℕ} → Run r json concurrency supports s n t → IsPassedOn s t
  Run-IsPassedOn {s} Run.none_yet = ([], Permᴰ.refl (flight s), omega arith)
  Run-IsPassedOn {s} {t} (Run.one_more earlier w) =
      let (done, perm, count) = Run-IsPassedOn earlier in
      let (more, perm', count') = Work-IsPassedOn w in
      let len = length-append done more in
      (
        done ++ more,
        Permᴰ.trans perm (
            subst (Permᴰ _) (sym (append_assoc done more (flight t)))
              (Permᴰ.append_left done perm')),
        omega arith,
      )
