-- ===== src/Batch/Coordinator/Bounded.antt =====
-- The counts of repairs that class BatchCoordinator of src/chamber_ctl/subsystems/batcher.py keeps.
use chamber_ctl.Batch.Coordinator.Answer.{repair_run-but_repairs}
use chamber_ctl.Batch.Assess.Repair.{assess_batch-IsRepair}
use chamber_ctl.Batch.Coordinator.Fuel.{wanted_repair-some}
use chamber_ctl.Batch.Coordinator.Poll.{repair_run, repair_rounds, poll_once, finish_poll, refresh}
use chamber_ctl.Batch.Coordinator.{
  put_count, pop_count, BatchCoordinator, count_of, member, ExposureAttempt, Sources,
  ControllerSnapshot, Planned, is_repaired, BatchAssessment, assess_now, any_pause, wanted_repair,
  inputs_of, BatchCoordinatorConfig, count_failure, latch, latch_logic, latch_source,
  is_pause_error, err, may_go_on,
}
use chamber_ctl.Prelude.{
  refl, [], ◌∷◌, some, false, inl, inr, zero, suc, ℕ, List, ◌<◌, ◌≡◌, ◌≤◌, arith, Bool-cases,
  if◌then◌else◌, ◌+◌, ◌==◌, All, Result-cases, Float, Bool, ok, subst, Option-cases, ap, sym, leb,
  Text, ◌&&◌,
}

pub count_put :
    (run key n : ℕ) (counts : List (ℕ × ℕ))
    → count_of run (put_count key n counts) ≡ (if key == run then n else count_of run counts)
unfolding put_count
count_put run key n [] = ground arith
count_put run key n ((k, m) ∷ counts) = ground (arith, count_put run key n counts)

count_pop :
    (run key : ℕ) (counts : List (ℕ × ℕ))
    → count_of run (pop_count key counts) ≡ (if key == run then 0 else count_of run counts)
unfolding pop_count
count_pop run key [] = ground arith
count_pop run key ((k, m) ∷ counts) = ground (arith, count_pop run key counts)

-- No run is counted more often than the limit, and a run that has reached it is blocked.
abbrev pub IsCounted : ℕ → List ℕ → List (ℕ × ℕ) → Type 0
IsCounted limit blocked counts =
    (run : ℕ)
    → (count_of run counts ≤ limit) × (member run blocked ≡ false → count_of run counts < limit)

abbrev pub IsBounded : BatchCoordinator → Type 0
IsBounded c = IsCounted c.config.repair_attempt_limit c.blocked_repair_runs c.repair_attempts

-- One more try of a run that is not blocked.
IsCounted-tried :
    (limit : ℕ) (blocked : List ℕ) (counts : List (ℕ × ℕ)) (run : ℕ)
    → IsCounted limit blocked counts
    → member run blocked ≡ false
    → IsCounted limit (run ∷ blocked) (put_count run (count_of run counts + 1) counts)
IsCounted-tried limit blocked counts run v fresh other =
    ground (arith, v run, v other, count_put other run (count_of run counts + 1) counts)

IsCounted-popped :
    (limit : ℕ) (blocked : List ℕ) (counts : List (ℕ × ℕ)) (run : ℕ)
    → 0 < limit
    → IsCounted limit blocked counts
    → IsCounted limit blocked (pop_count run counts)
IsCounted-popped limit blocked counts run positive v other =
    ground (arith, v other, count_pop other run counts)

-- A run that has not reached the limit need not be blocked.
IsCounted-again :
    (limit : ℕ) (blocked : List ℕ) (counts : List (ℕ × ℕ)) (run : ℕ)
    → IsCounted limit (run ∷ blocked) counts
    → count_of run counts < limit
    → IsCounted limit blocked counts
IsCounted-again limit blocked counts run v below other = elim (Bool-cases (other == run)) [
  | inl same ↦ let e : other ≡ run = ground arith in ground (arith, v other)
  | inr apart ↦ ground (arith, v other)
]

All-trivial : (l : List ExposureAttempt) → All (λ x. Unit {0}) l
All-trivial [] = tt
All-trivial (a ∷ l) = (tt, All-trivial l)

count_failure-IsBounded :
    (fault : Text) (c : BatchCoordinator) → IsBounded c → IsBounded (count_failure fault c).0
unfolding count_failure
count_failure-IsBounded fault c v = v

latch-IsBounded :
    (a : BatchAssessment) (c : BatchCoordinator) → IsBounded c → IsBounded (latch a c).0
unfolding latch latch_logic latch_source
latch-IsBounded a c v = elim (Bool-cases (is_pause_error a.decision.kind)) [
  | inl error ↦ rw error v
  | inr other ↦ elim (Bool-cases (c.logic_error_paused && may_go_on a.decision.kind)) [
    | inl held ↦ rw (other, held) v
    | inr free ↦ rw (other, free) v
  ]
]

module _ {W : Type 0} (sources : Sources W) where
  repair_run-IsCounted :
      (run : ℕ) (attempts : List ExposureAttempt) (c : BatchCoordinator) (w : W)
      → 0 < c.config.repair_attempt_limit
      → IsBounded c
      → member run c.blocked_repair_runs ≡ false
      → let d = (repair_run sources run attempts c w).0 in
        (d.blocked_repair_runs ≡ c.blocked_repair_runs)
        × IsCounted c.config.repair_attempt_limit (run ∷ c.blocked_repair_runs) d.repair_attempts
  unfolding repair_run
  repair_run-IsCounted run attempts c w positive v fresh =
      let limit = c.config.repair_attempt_limit in
      let w1 = (sources.repair_metrics run w).1 in
      let tried = IsCounted-tried limit c.blocked_repair_runs c.repair_attempts run v fresh in
      elim (Result-cases (sources.repair_metrics run w).0) [
        | inl (e, failed) ↦ rw (failed, repair_run) (refl, tried)
        | inr (m, done) ↦ elim (Result-cases (sources.load_attempts w1).0) [
          | inl (e, failed) ↦ rw (done, failed, repair_run) (refl, tried)
          | inr (again, loaded) ↦ elim (Bool-cases (is_repaired run again)) [
            | inl shown ↦
                rw (done, loaded, shown, repair_run)
                  (refl, IsCounted-popped limit (run ∷ c.blocked_repair_runs) _ run positive tried)
            | inr hidden ↦ rw (done, loaded, hidden, repair_run) (refl, tried)
          ]
        ]
      ]

  wanted-fresh :
      (c : BatchCoordinator) (attempts : List ExposureAttempt) (controller : ControllerSnapshot)
      (now : Float) (p : Bool) (repaired : List ℕ) {a : BatchAssessment} {run : ℕ}
      → assess_now c attempts controller now p ≡ ok a
      → wanted_repair a.decision repaired ≡ some run
      → member run c.blocked_repair_runs ≡ false
  wanted-fresh c attempts controller now p repaired {a} {run} assessed wanted =
      let (asked, kind, _) = wanted_repair-some a.decision repaired wanted in
      let r =
        assess_batch-IsRepair (λ x. Unit) c.plan controller (inputs_of c now p) attempts
          (All-trivial attempts) assessed kind in
      let same : r.run.run_uuid ≡ run = cc (r.asked, asked) in
      subst (λ n. member n c.blocked_repair_runs ≡ false) same r.unblocked

  rounds-IsBounded :
      (fuel : ℕ) (controller : ControllerSnapshot) (repaired : List ℕ)
      (attempts : List ExposureAttempt) (c : BatchCoordinator) (w : W) {r : Planned BatchAssessment}
      {c' : BatchCoordinator} {w' : W}
      → 0 < c.config.repair_attempt_limit
      → IsBounded c
      → repair_rounds sources fuel controller repaired attempts c w ≡ some (r, c', w')
      → IsBounded c'
  unfolding repair_rounds
  rounds-IsBounded zero controller repaired attempts c w positive v e = cc
  rounds-IsBounded (suc fuel) controller repaired attempts c w {r} {c'} positive v e =
      let (now, w1) = sources.wall_clock w in
      elim (Result-cases (assess_now c attempts controller now (any_pause c))) [
        | inl (x, raised) ↦
            let e' = rw (raised, repair_rounds) at e in
            let same : c ≡ c' = ground arith in subst IsBounded same v
        | inr (b, assessed) ↦ elim (Option-cases (wanted_repair b.decision repaired)) [
          | inl n ↦
              let e' = rw (assessed, n, repair_rounds) at e in
              let same : c ≡ c' = ground arith in subst IsBounded same v
          | inr (run, n) ↦
              let d = (repair_run sources run attempts c w1).0 in
              let limit = c.config.repair_attempt_limit in
              let config : d.config ≡ c.config =
                ap (λ x. x.config) (repair_run-but_repairs sources run attempts c w1) in
              let limits =
                ap (λ (x : BatchCoordinatorConfig). x.repair_attempt_limit) (sym config) in
              let fresh = wanted-fresh c attempts controller now _ repaired assessed n in
              let (blocks, counted) = repair_run-IsCounted run attempts c w1 positive v fresh in
              elim (Bool-cases (leb limit (count_of run d.repair_attempts))) [
                | inl used_up ↦
                    let e' = rw (assessed, n, used_up, repair_rounds) at e in
                    let blocked = record d { blocked_repair_runs = run ∷ d.blocked_repair_runs } in
                    let same : blocked ≡ c' = ground arith in
                    let counted' : IsBounded blocked =
                      subst
                        (λ bs. IsCounted d.config.repair_attempt_limit (run ∷ bs) d.repair_attempts)
                        (sym blocks)
                        (subst (λ m. IsCounted m (run ∷ c.blocked_repair_runs) d.repair_attempts)
                          limits counted) in
                    subst IsBounded same counted'
                | inr again ↦
                    let e' = rw (assessed, n, again, repair_rounds) at e in
                    let below : count_of run d.repair_attempts < limit = ground arith in
                    let counted' : IsBounded d =
                      subst (λ bs. IsCounted d.config.repair_attempt_limit bs d.repair_attempts)
                        (sym blocks)
                        (subst (λ m. IsCounted m c.blocked_repair_runs d.repair_attempts) limits
                          (IsCounted-again limit c.blocked_repair_runs d.repair_attempts run counted
                            below)) in
                    rounds-IsBounded fuel controller (run ∷ repaired) _ _ _
                      (subst (λ m. 0 < m) limits positive) counted' e'
              ]
        ]
      ]

  -- With a positive limit each poll keeps that no run is counted more often than the limit and that a
  -- run that has reached it is blocked, whatever the sources answer.
  pub poll_once-IsBounded :
      (fuel : ℕ) (c : BatchCoordinator) (w : W) {r : Planned BatchAssessment}
      {c' : BatchCoordinator} {w' : W}
      → 0 < c.config.repair_attempt_limit
      → IsBounded c
      → poll_once sources fuel c w ≡ some (r, c', w')
      → IsBounded c'
  unfolding poll_once finish_poll
  poll_once-IsBounded fuel c w {r} {c'} positive v e = elim (Result-cases (refresh sources w).0) [
    | inl (fault, failed) ↦
        let e' = rw (failed, poll_once) at e in
        let same : (count_failure fault c).0 ≡ c' = ground arith in
        subst IsBounded same (count_failure-IsBounded fault c v)
    | inr ((attempts, controller), fresh) ↦
        let start = record c { source_failures = 0 } in
        let w1 = (refresh sources w).1 in
        elim (Option-cases (repair_rounds sources fuel controller [] attempts start w1)) [
          | inl n ↦ let e' = rw (fresh, n, poll_once) at e in cc
          | inr ((err x, d, v1), n) ↦
              let e' = rw (fresh, n, poll_once) at e in
              let same : d ≡ c' = ground arith in
              subst IsBounded same
                (rounds-IsBounded fuel controller [] attempts start w1 positive v n)
          | inr ((ok b, d, v1), n) ↦
              let e' = rw (fresh, n, poll_once) at e in
              let same : (latch b d).0 ≡ c' = ground arith in
              subst IsBounded same (
                latch-IsBounded b d
                  (rounds-IsBounded fuel controller [] attempts start w1 positive v n))
        ]
  ]
