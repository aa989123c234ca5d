-- ===== src/Batch/Coordinator/Fuel.antt =====
-- The loop of `poll_once` of class BatchCoordinator, src/chamber_ctl/subsystems/batcher.py, comes to
-- an end: a poll repairs a run once.
use chamber_ctl.Batch.Assess.Repair.{assess_batch-IsRepair}
use chamber_ctl.Batch.Coordinator.Poll.{repair_run, repair_rounds, refresh, poll_once}
use chamber_ctl.Batch.Coordinator.{
  Sources, member, wanted_repair, ExposureAttempt, BatchCoordinator, is_repair, ControllerSnapshot,
  assess_now, any_pause, count_of,
}
use chamber_ctl.Batch.Decision.{BatchDecision}
use chamber_ctl.Prelude.{
  refl, [], ◌∷◌, some, true, false, inl, inr, zero, suc, List, ℕ, length, ◌≤◌, select, arith, ◌≡◌,
  not, ◌<◌, ok, All, Option-cases, Result-cases, Bool-cases, ◌==◌, subst, is_some, leb,
}

-- How many runs of `runs` the poll has not repaired.
abbrev pub left : List ℕ → List ℕ → ℕ
left runs repaired = length (select (λ run. not (member run repaired)) runs)

left_mono : (run : ℕ) (repaired runs : List ℕ) → left runs (run ∷ repaired) ≤ left runs repaired
left_mono run repaired [] = omega arith
left_mono run repaired (x ∷ runs) = ground (arith, left_mono run repaired runs)

left_drops :
    (run : ℕ) (repaired runs : List ℕ)
    → member run runs ≡ true
    → member run repaired ≡ false
    → left runs (run ∷ repaired) < left runs repaired
left_drops run repaired [] m f = cc
left_drops run repaired (x ∷ runs) m f = elim (Bool-cases (run == x)) [
  | inl here ↦
      let same : run ≡ x = ground arith in
      let new = subst (λ y. member y repaired ≡ false) same f in
      ground (arith, left_mono run repaired runs)
  | inr there ↦ ground (arith, left_drops run repaired runs)
]

pub wanted_repair-some :
    (d : BatchDecision) (repaired : List ℕ) {run : ℕ}
    → wanted_repair d repaired ≡ some run
    → (d.run_uuid ≡ some run) × (is_repair d.kind ≡ true) × (member run repaired ≡ false)
wanted_repair-some d repaired e = elim (Option-cases d.run_uuid) [
  | inl n ↦ let e' = rw n at e in cc
  | inr (r, n) ↦ let e' = rw n at e in ground arith
]

module _ {W : Type 0} (sources : Sources W) (runs : List ℕ) where
  abbrev pub IsKnown : ExposureAttempt → Type 0
  IsKnown a = member a.run_uuid runs ≡ true

  -- The history has no other runs.
  abbrev pub HasRuns : Type 0
  HasRuns =
      (w : W) (attempts : List ExposureAttempt)
      → (sources.load_attempts w).0 ≡ ok attempts
      → All IsKnown attempts

  repair_run-IsKnown :
      (run : ℕ) (attempts : List ExposureAttempt) (c : BatchCoordinator) (w : W)
      → HasRuns
      → All IsKnown attempts
      → All IsKnown (repair_run sources run attempts c w).1
  unfolding repair_run
  repair_run-IsKnown run attempts c w history known =
      elim (Result-cases (sources.repair_metrics run w).0) [
        | inl (e, failed) ↦ rw (failed, All) known
        | inr (m, done) ↦
            let w1 = (sources.repair_metrics run w).1 in
            elim (Result-cases (sources.load_attempts w1).0) [
              | inl (e, failed) ↦ rw (done, failed, All) known
              | inr (again, loaded) ↦ rw (done, loaded, All) (history w1 again loaded)
            ]
      ]

  rounds_enough :
      (fuel : ℕ) (controller : ControllerSnapshot) (repaired : List ℕ)
      (attempts : List ExposureAttempt) (c : BatchCoordinator) (w : W)
      → HasRuns
      → All IsKnown attempts
      → left runs repaired < fuel
      → is_some (repair_rounds sources fuel controller repaired attempts c w) ≡ true
  unfolding repair_rounds
  rounds_enough zero controller repaired attempts c w history known enough = ground arith
  rounds_enough (suc fuel) controller repaired attempts c w history known enough =
      let (now, w1) = sources.wall_clock w in
      elim (Result-cases (assess_now c attempts controller now (any_pause c))) [
        | inl (e, raised) ↦ rw (raised, repair_rounds) refl
        | inr (a, assessed) ↦ elim (Option-cases (wanted_repair a.decision repaired)) [
          | inl n ↦ rw (assessed, n, repair_rounds) refl
          | inr (run, wanted) ↦
              let c' = (repair_run sources run attempts c w1).0 in
              let (asked, kind, fresh) = wanted_repair-some a.decision repaired wanted in
              elim (Bool-cases
                (leb c.config.repair_attempt_limit (count_of run c'.repair_attempts))) [
                  | inl used_up ↦ rw (assessed, wanted, used_up, repair_rounds) refl
                  | inr again ↦
                      let r =
                        assess_batch-IsRepair IsKnown c.plan controller _ attempts known assessed
                          kind in
                      let same : r.run.run_uuid ≡ run = cc (r.asked, asked) in
                      let listed : member run runs ≡ true =
                        subst (λ n. member n runs ≡ true) same r.known in
                      rw (assessed, wanted, again, repair_rounds)
                        (rounds_enough fuel controller (run ∷ repaired)
                          (repair_run sources run attempts c w1).1 c'
                          (repair_run sources run attempts c w1).2 history
                          (repair_run-IsKnown run attempts c w1 history known)
                          (omega (arith, enough, left_drops run repaired runs listed fresh)))
                ]
        ]
      ]

  left_whole : (l : List ℕ) → left l [] ≤ length l
  left_whole [] = omega arith
  left_whole (x ∷ l) = ground (arith, left_whole l)

  refresh-IsKnown :
      (w : W) (attempts : List ExposureAttempt) (controller : ControllerSnapshot)
      → HasRuns
      → (refresh sources w).0 ≡ ok (attempts, controller)
      → All IsKnown attempts
  unfolding refresh
  refresh-IsKnown w attempts controller history e =
      let w1 = (sources.load_attempts w).1 in
      elim (Result-cases (sources.load_attempts w).0) [
        | inl (fault, failed) ↦ let e' = rw (failed, refresh) at e in cc
        | inr (again, loaded) ↦ elim (Result-cases (sources.snapshot w1).0) [
          | inl (fault, failed) ↦ let e' = rw (loaded, failed, refresh) at e in cc
          | inr (seen, shown) ↦
              let e' = rw (loaded, shown, refresh) at e in
              let same : again ≡ attempts = ground arith in
              subst (All IsKnown) same (history w again loaded)
        ]
      ]

  -- A poll comes to its end when the history has no other runs than `runs`: one round more than there
  -- are runs is enough.
  pub poll_once_ends :
      (c : BatchCoordinator) (w : W)
      → HasRuns
      → is_some (poll_once sources (suc (length runs)) c w) ≡ true
  unfolding poll_once
  poll_once_ends c w history = elim (Result-cases (refresh sources w).0) [
    | inl (fault, failed) ↦ rw (failed, poll_once) refl
    | inr ((attempts, controller), fresh) ↦
        let ended =
          rounds_enough (suc (length runs)) controller [] attempts
            (record c { source_failures = 0 }) (refresh sources w).1 history
            (refresh-IsKnown w attempts controller history fresh)
            (omega (arith, left_whole runs)) in
        elim (Option-cases (
          repair_rounds sources (suc (length runs)) controller [] attempts
            (record c { source_failures = 0 }) (refresh sources w).1)) [
              | inl n ↦ let impossible = rw n at ended in cc
              | inr (r, n) ↦ rw (fresh, n, poll_once) refl
            ]
  ]
