-- ===== src/Batch/Coordinator/Answer.antt =====
-- What the loop of `poll_once` of class BatchCoordinator, src/chamber_ctl/subsystems/batcher.py,
-- answers, and what it leaves alone.
use chamber_ctl.Batch.Coordinator.Poll.{repair_run, repair_rounds}
use chamber_ctl.Batch.Coordinator.{
  BatchCoordinator, Sources, ControllerSnapshot, BatchAssessment, ExposureAttempt, assess_now,
  is_repaired, any_pause, wanted_repair, count_of, Planned,
}
use chamber_ctl.Prelude.{
  refl, [], ◌∷◌, some, true, inl, inr, zero, suc, ℕ, List, ◌≡◌, Float, Result-cases, Bool, ok,
  Bool-cases, Option-cases, arith, ap, sym, leb, ◌∙◌, subst, Text, err,
}

-- The coordinator but for its account of repairs.
abbrev pub but_repairs : BatchCoordinator → BatchCoordinator
but_repairs c = record c { repair_attempts = []; blocked_repair_runs = [] }

module _ {W : Type 0} (sources : Sources W) where
  pub repair_run-but_repairs :
      (run : ℕ) (attempts : List ExposureAttempt) (c : BatchCoordinator) (w : W)
      → but_repairs (repair_run sources run attempts c w).0 ≡ but_repairs c
  unfolding repair_run
  repair_run-but_repairs run attempts c w = elim (Result-cases (sources.repair_metrics run w).0) [
    | inl (e, failed) ↦ rw (failed, repair_run) refl
    | inr (m, done) ↦
        let w1 = (sources.repair_metrics run w).1 in
        elim (Result-cases (sources.load_attempts w1).0) [
          | inl (e, failed) ↦ rw (done, failed, repair_run) refl
          | inr (again, loaded) ↦ elim (Bool-cases (is_repaired run again)) [
            | inl shown ↦ rw (done, loaded, shown, repair_run) refl
            | inr hidden ↦ rw (done, loaded, hidden, repair_run) refl
          ]
        ]
  ]

  -- The runs are those that a poll that began in the world `start` has loaded last, in each world that
  -- it comes to: after its two sources, a look at the clock, and a repair, after which they are loaded
  -- again.
  pub data Latest (start : W) : List ExposureAttempt → W → Type 0 where
    refreshed :
        {attempts : List ExposureAttempt}
        → (sources.load_attempts start).0 ≡ ok attempts
        → Latest start attempts (sources.snapshot (sources.load_attempts start).1).1
    clock_read :
        {attempts : List ExposureAttempt} {v : W}
        → Latest start attempts v
        → Latest start attempts (sources.wall_clock v).1
    not_repaired :
        {attempts : List ExposureAttempt} {v : W} (run : ℕ) {fault : Text}
        → (sources.repair_metrics run v).0 ≡ err fault
        → Latest start attempts v
        → Latest start attempts (sources.repair_metrics run v).1
    not_reloaded :
        {attempts : List ExposureAttempt} {v : W} (run : ℕ) {fault : Text}
        → (sources.load_attempts (sources.repair_metrics run v).1).0 ≡ err fault
        → Latest start attempts v
        → Latest start attempts (sources.load_attempts (sources.repair_metrics run v).1).1
    reloaded :
        {attempts again : List ExposureAttempt} {v : W} (run : ℕ)
        → (sources.load_attempts (sources.repair_metrics run v).1).0 ≡ ok again
        → Latest start attempts v
        → Latest start again (sources.load_attempts (sources.repair_metrics run v).1).1

  repair_run-Latest :
      (start : W) (run : ℕ) (attempts : List ExposureAttempt) (c : BatchCoordinator) (w : W)
      → Latest start attempts w
      → Latest start (repair_run sources run attempts c w).1 (repair_run sources run attempts c w).2
  unfolding repair_run
  repair_run-Latest start run attempts c w before =
      let w1 = (sources.repair_metrics run w).1 in
      elim (Result-cases (sources.repair_metrics run w).0) [
        | inl (e, failed) ↦ rw (failed, repair_run) (not_repaired run failed before)
        | inr (m, done) ↦ elim (Result-cases (sources.load_attempts w1).0) [
          | inl (e, failed) ↦ rw (done, failed, repair_run) (not_reloaded run failed before)
          | inr (again, loaded) ↦ rw (done, loaded, repair_run) (reloaded run loaded before)
        ]
      ]

  -- An answer is an assessment, in the state left behind, of the runs that were loaded last, at the time
  -- that the clock shows then, and paused if the coordinator was.
  pub record IsAnswer (start : W) (controller : ControllerSnapshot) (c c' : BatchCoordinator)
      (a : BatchAssessment) : Type 0 where
    pub attempts : List ExposureAttempt
    pub time : W
    pub latest : Latest start attempts time
    pub now : Float
    pub on_clock : (sources.wall_clock time).0 ≡ now
    pub paused_now : Bool
    pub assessed : assess_now c' attempts controller now paused_now ≡ ok a
    pub still_paused : any_pause c ≡ true → paused_now ≡ true
    pub kept : but_repairs c' ≡ but_repairs c

  pub rounds-IsAnswer :
      (start : W) (fuel : ℕ) (controller : ControllerSnapshot) (repaired : List ℕ)
      (attempts : List ExposureAttempt) (c : BatchCoordinator) (w : W) {a : BatchAssessment}
      {c' : BatchCoordinator} {w' : W}
      → Latest start attempts w
      → repair_rounds sources fuel controller repaired attempts c w ≡ some (ok a, c', w')
      → IsAnswer start controller c c' a
  unfolding repair_rounds
  rounds-IsAnswer start zero controller repaired attempts c w before e = cc
  rounds-IsAnswer start (suc fuel) controller repaired attempts c w {a} {c'} before e =
      let (now, w1) = sources.wall_clock w in
      elim (Result-cases (assess_now c attempts controller now (any_pause c))) [
        | inl (x, raised) ↦ let e' = rw (raised, repair_rounds) at e in cc
        | inr (b, assessed) ↦ elim (Option-cases (wanted_repair b.decision repaired)) [
          | inl n ↦
              let e' = rw (assessed, n, repair_rounds) at e in
              let same : c ≡ c' = ground arith in
              let answer : b ≡ a = ground arith in
              let here : IsAnswer start controller c c b = record {
                attempts = attempts;
                time = w;
                latest = before;
                now = now;
                on_clock = refl;
                paused_now = any_pause c;
                assessed = assessed;
                still_paused = λ p. p;
                kept = refl;
              } in
              subst (λ d. IsAnswer start controller c d a) same
                (subst (IsAnswer start controller c c) answer here)
          | inr (run, n) ↦
              let d = (repair_run sources run attempts c w1).0 in
              let frame = repair_run-but_repairs run attempts c w1 in
              elim (Bool-cases
                (leb c.config.repair_attempt_limit (count_of run d.repair_attempts))) [
                  | inl used_up ↦
                      let e' = rw (assessed, n, used_up, repair_rounds) at e in
                      let attempts' = (repair_run sources run attempts c w1).1 in
                      let w2 = (repair_run sources run attempts c w1).2 in
                      let blocked = record d {
                        blocked_repair_runs = run ∷ d.blocked_repair_runs;
                      } in
                      let later = (sources.wall_clock w2).0 in
                      let last : assess_now blocked attempts' controller later true ≡ ok a =
                        ground arith in
                      let same : blocked ≡ c' = ground arith in
                      let there : IsAnswer start controller c blocked a = record {
                        attempts = attempts';
                        time = w2;
                        latest = repair_run-Latest start run attempts c w1 (clock_read before);
                        now = later;
                        on_clock = refl;
                        paused_now = true;
                        assessed = last;
                        still_paused = λ p. refl;
                        kept = frame;
                      } in
                      subst (λ x. IsAnswer start controller c x a) same there
                  | inr again ↦
                      let e' = rw (assessed, n, again, repair_rounds) at e in
                      let r =
                        rounds-IsAnswer start fuel controller (run ∷ repaired) _ _ _
                          (repair_run-Latest start run attempts c w1 (clock_read before)) e' in
                      record {
                        attempts = r.attempts;
                        time = r.time;
                        latest = r.latest;
                        now = r.now;
                        on_clock = r.on_clock;
                        paused_now = r.paused_now;
                        assessed = r.assessed;
                        still_paused = λ p. r.still_paused (ap any_pause frame ∙ p);
                        kept = r.kept ∙ frame;
                      }
                ]
        ]
      ]

  -- Whatever the loop answers, it changes nothing but the account of repairs.
  pub rounds-but_repairs :
      (fuel : ℕ) (controller : ControllerSnapshot) (repaired : List ℕ)
      (attempts : List ExposureAttempt) (c : BatchCoordinator) (w : W) {r : Planned BatchAssessment}
      {c' : BatchCoordinator} {w' : W}
      → repair_rounds sources fuel controller repaired attempts c w ≡ some (r, c', w')
      → but_repairs c' ≡ but_repairs c
  unfolding repair_rounds
  rounds-but_repairs zero controller repaired attempts c w e = cc
  rounds-but_repairs (suc fuel) controller repaired attempts c w {r} {c'} e =
      let (now, w1) = sources.wall_clock w in
      elim (Result-cases (assess_now c attempts controller now (any_pause c))) [
        | inl (x, raised) ↦
            let e' = rw (raised, repair_rounds) at e in
            let same : c ≡ c' = ground arith in ap but_repairs (sym same)
        | inr (b, assessed) ↦ elim (Option-cases (wanted_repair b.decision repaired)) [
          | inl n ↦
              let e' = rw (assessed, n, repair_rounds) at e in
              let same : c ≡ c' = ground arith in ap but_repairs (sym same)
          | inr (run, n) ↦
              let d = (repair_run sources run attempts c w1).0 in
              let frame = repair_run-but_repairs run attempts c w1 in
              elim (Bool-cases
                (leb c.config.repair_attempt_limit (count_of run d.repair_attempts))) [
                  | inl used_up ↦
                      let e' = rw (assessed, n, used_up, repair_rounds) at e in
                      let blocked = record d {
                        blocked_repair_runs = run ∷ d.blocked_repair_runs;
                      } in
                      let same : blocked ≡ c' = ground arith in ap but_repairs (sym same) ∙ frame
                  | inr again ↦
                      let e' = rw (assessed, n, again, repair_rounds) at e in
                      rounds-but_repairs fuel controller (run ∷ repaired) _ _ _ e' ∙ frame
                ]
        ]
      ]
