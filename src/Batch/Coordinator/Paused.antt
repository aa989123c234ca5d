-- ===== src/Batch/Coordinator/Paused.antt =====
-- A coordinator that is paused by hand, class BatchCoordinator of src/chamber_ctl/subsystems/batcher.py:
-- its polls and its `start_next` leave what starting an exposure would change.
use chamber_ctl.Batch.Coordinator.Started.{poll_once-IsStart, exposure_to_start-some}
use chamber_ctl.Batch.Coordinator.Answer.{rounds-but_repairs}
use chamber_ctl.Batch.Coordinator.Poll.{
  poll_once, finish_poll, start_next, refresh, repair_rounds, repair_run, StartResult,
  exposure_to_start,
}
use chamber_ctl.Batch.Coordinator.{
  BatchCoordinator, latch, count_failure, Sources, latch_logic, ControllerSnapshot, latch_source,
  BatchAssessment, Planned, err, ok, ExposureAttempt, any_pause, assess_now, wanted_repair,
  count_of,
}
use chamber_ctl.Prelude.{
  [], ◌∷◌, some, true, inl, inr, zero, suc, ℕ, Text, List, ◌≡◌, arith, Result-cases, subst,
  Option-cases, Bool-cases, leb, ap, ◌∙◌, sym,
}

latch-paused :
    (a : BatchAssessment) (c : BatchCoordinator) → (latch a c).0.manual_pause ≡ c.manual_pause
unfolding latch latch_logic latch_source
latch-paused a c = ground arith

count_failure-paused :
    (fault : Text) (c : BatchCoordinator) → (count_failure fault c).0.manual_pause ≡ c.manual_pause
unfolding count_failure
count_failure-paused fault c = ground arith

module _ {W : Type 0} (sources : Sources W) where
  -- What a poll does to the world keeps `P`; nothing is said of a start of an exposure.
  pub record IsUntouched (P : W → Type 0) : Type 0 where
    pub loads : (w : W) → P w → P (sources.load_attempts w).1
    pub repairs : (run : ℕ) (w : W) → P w → P (sources.repair_metrics run w).1
    pub shows : (w : W) → P w → P (sources.snapshot w).1
    pub reads : (w : W) → P w → P (sources.wall_clock w).1

  module _ {P : W → Type 0} (untouched : IsUntouched P) where
    refresh-kept : (w : W) → P w → P (refresh sources w).1
    unfolding refresh
    refresh-kept w p =
        let p1 = untouched.loads w p in
        elim (Result-cases (sources.load_attempts w).0) [
          | inl (fault, failed) ↦ rw (failed, refresh) p1
          | inr (attempts, loaded) ↦
              let p2 = untouched.shows (sources.load_attempts w).1 p1 in
              elim (Result-cases (sources.snapshot (sources.load_attempts w).1).0) [
                | inl (fault, failed) ↦ rw (loaded, failed, refresh) p2
                | inr (controller, shown) ↦ rw (loaded, shown, refresh) p2
              ]
        ]

    repair_run-kept :
        (run : ℕ) (attempts : List ExposureAttempt) (c : BatchCoordinator) (w : W)
        → P w
        → P (repair_run sources run attempts c w).2
    unfolding repair_run
    repair_run-kept run attempts c w p =
        let p1 = untouched.repairs run w p in
        let w1 = (sources.repair_metrics run w).1 in
        elim (Result-cases (sources.repair_metrics run w).0) [
          | inl (e, failed) ↦ rw (failed, repair_run) p1
          | inr (m, done) ↦
              let p2 = untouched.loads w1 p1 in
              elim (Result-cases (sources.load_attempts w1).0) [
                | inl (e, failed) ↦ rw (done, failed, repair_run) p2
                | inr (again, loaded) ↦ rw (done, loaded, repair_run) p2
              ]
        ]

    rounds-kept :
        (fuel : ℕ) (controller : ControllerSnapshot) (repaired : List ℕ)
        (attempts : List ExposureAttempt) (c : BatchCoordinator) (w : W)
        {r : Planned BatchAssessment} {c' : BatchCoordinator} {w' : W}
        → P w
        → repair_rounds sources fuel controller repaired attempts c w ≡ some (r, c', w')
        → P w'
    unfolding repair_rounds
    rounds-kept zero controller repaired attempts c w p e = cc
    rounds-kept (suc fuel) controller repaired attempts c w {r} {c'} {w'} p e =
        let (now, w1) = sources.wall_clock w in
        let p1 : P w1 = untouched.reads w p in
        elim (Result-cases (assess_now c attempts controller now (any_pause c))) [
          | inl (x, raised) ↦
              let e' = rw (raised, repair_rounds) at e in
              let same : w1 ≡ w' = ground arith in subst P same p1
          | inr (b, assessed) ↦ elim (Option-cases (wanted_repair b.decision repaired)) [
            | inl n ↦
                let e' = rw (assessed, n, repair_rounds) at e in
                let same : w1 ≡ w' = ground arith in subst P same p1
            | inr (run, n) ↦
                let d = (repair_run sources run attempts c w1).0 in
                let p2 = repair_run-kept run attempts c w1 p1 in
                let w2 = (repair_run sources run attempts c w1).2 in
                elim (Bool-cases
                  (leb c.config.repair_attempt_limit (count_of run d.repair_attempts))) [
                    | inl used_up ↦
                        let e' = rw (assessed, n, used_up, repair_rounds) at e in
                        let same : (sources.wall_clock w2).1 ≡ w' = ground arith in
                        subst P same (untouched.reads w2 p2)
                    | inr again ↦
                        let e' = rw (assessed, n, again, repair_rounds) at e in
                        rounds-kept fuel controller (run ∷ repaired) _ _ _ p2 e'
                  ]
          ]
        ]

    -- A poll, whatever it answers, keeps `P` and leaves the pause by hand.
    pub poll_once-kept :
        (fuel : ℕ) (c : BatchCoordinator) (w : W) {r : Planned BatchAssessment}
        {c' : BatchCoordinator} {w' : W}
        → P w
        → poll_once sources fuel c w ≡ some (r, c', w')
        → P w' × (c'.manual_pause ≡ c.manual_pause)
    unfolding poll_once finish_poll
    poll_once-kept fuel c w {r} {c'} {w'} p e =
        let p1 = refresh-kept w p in
        let w1 = (refresh sources w).1 in
        elim (Result-cases (refresh sources w).0) [
          | inl (fault, failed) ↦
              let e' = rw (failed, poll_once) at e in
              let same : (count_failure fault c).0 ≡ c' = ground arith in
              let there : w1 ≡ w' = ground arith in
              (subst P there p1, ap (λ x. x.manual_pause) (sym same) ∙ count_failure-paused fault c)
          | inr ((attempts, controller), fresh) ↦
              let start = record c { source_failures = 0 } in
              elim (Option-cases (repair_rounds sources fuel controller [] attempts start w1)) [
                | inl n ↦ let e' = rw (fresh, n, poll_once) at e in cc
                | inr ((err x, d, v), n) ↦
                    let e' = rw (fresh, n, poll_once) at e in
                    let same : d ≡ c' = ground arith in
                    let there : v ≡ w' = ground arith in
                    let kept = rounds-but_repairs sources fuel controller [] attempts start w1 n in
                    (
                      subst P there (rounds-kept fuel controller [] attempts start w1 p1 n),
                      ap (λ x. x.manual_pause) (sym same) ∙ ap (λ x. x.manual_pause) kept,
                    )
                | inr ((ok b, d, v), n) ↦
                    let e' = rw (fresh, n, poll_once) at e in
                    let same : (latch b d).0 ≡ c' = ground arith in
                    let there : v ≡ w' = ground arith in
                    let kept = rounds-but_repairs sources fuel controller [] attempts start w1 n in
                    (
                      subst P there (rounds-kept fuel controller [] attempts start w1 p1 n),
                      ap (λ x. x.manual_pause) (sym same)
                          ∙ latch-paused b d
                          ∙ ap (λ x. x.manual_pause) kept,
                    )
              ]
        ]

    -- Nothing is started while the coordinator is paused by hand.
    pub start_next-kept :
        (fuel : ℕ) (run_tags : List Text) (c : BatchCoordinator) (w : W) {r : Planned StartResult}
        {c' : BatchCoordinator} {w' : W}
        → P w
        → c.manual_pause ≡ true
        → start_next sources fuel run_tags c w ≡ some (r, c', w')
        → P w' × (c'.manual_pause ≡ true)
    unfolding start_next
    start_next-kept fuel run_tags c w {r} {c'} {w'} p paused e =
        elim (Option-cases (poll_once sources fuel c w)) [
          | inl n ↦ let e' = rw (n, start_next) at e in cc
          | inr ((err x, d, v), n) ↦
              let e' = rw (n, start_next) at e in
              let (q, held) = poll_once-kept fuel c w p n in
              let same : d ≡ c' = ground arith in
              let there : v ≡ w' = ground arith in
              (subst P there q, ap (λ x. x.manual_pause) (sym same) ∙ held ∙ paused)
          | inr ((ok a, d, v), n) ↦
              let (q, held) = poll_once-kept fuel c w p n in
              elim (Option-cases (exposure_to_start a.decision)) [
                | inl m ↦
                    let e' = rw (n, m, start_next) at e in
                    let same : d ≡ c' = ground arith in
                    let there : v ≡ w' = ground arith in
                    (subst P there q, ap (λ x. x.manual_pause) (sym same) ∙ held ∙ paused)
                | inr (settings, m) ↦
                    let (kind, proposed) = exposure_to_start-some a.decision m in
                    let start = poll_once-IsStart sources fuel c w n kind proposed in
                    let impossible = start.unpaused in ground (arith, paused, impossible)
              ]
        ]
