-- ===== src/Batch/Coordinator/Started.antt =====
-- When `start_next` of class BatchCoordinator, src/chamber_ctl/subsystems/batcher.py, starts an
-- exposure.
use chamber_ctl.Batch.Order.{sort_attempts}
use chamber_ctl.Batch.Plan.{samples, BatchPlanEntry}
use chamber_ctl.Batch.Settings.{settings_for}
use chamber_ctl.Batch.Assess.{is_under, is_finalizing, metrics_complaint}
use chamber_ctl.Batch.Attempt.{attempt_error, progress_for, AssessmentConfig, remainder}
use chamber_ctl.Batch.Assess.Start.{assess_batch-start}
use chamber_ctl.Batch.Assess.Settled.{IsSettled}
use chamber_ctl.Batch.Coordinator.Answer.{IsAnswer, rounds-IsAnswer, but_repairs, Latest, refreshed}
use chamber_ctl.Batch.Coordinator.Poll.{
  refresh, poll_once, finish_poll, repair_rounds, exposure_to_start,
}
use chamber_ctl.Batch.Decision.{BatchDecisionKind}
use chamber_ctl.Batch.Coordinator.{
  latch, count_failure, Sources, latch_logic, is_start, BatchCoordinator, latch_source,
  BatchAssessment, start_remainder, ExposureAttempt, ControllerSnapshot, err, ExposureSettings,
  inputs_of, any_pause, SampleProgress, BatchPlan, BatchDecision,
}
use chamber_ctl.Prelude.{
  [], none, some, true, false, inl, inr, Text, ◌≡◌, List, arith, ℕ, ok, ◌⊎◌, Result-cases, ◌∙◌,
  Option-cases, ap, Float, All, Bool, subst, All-map, find_first, sym, Bool-cases,
}

latch-start :
    (a : BatchAssessment) (c : BatchCoordinator)
    → is_start (latch a c).1.decision.kind ≡ true
    → ((latch a c).1 ≡ a) × (is_start a.decision.kind ≡ true)
unfolding latch latch_logic latch_source
latch-start a c k = ground arith

pub count_failure-start :
    (fault : Text) (c : BatchCoordinator) → is_start (count_failure fault c).1.decision.kind ≡ false
unfolding count_failure
count_failure-start fault c = ground arith

is_start-kind : (k : BatchDecisionKind) → is_start k ≡ true → k ≡ start_remainder
is_start-kind k e = ground arith

pub exposure_to_start-some :
    (d : BatchDecision) {s : ExposureSettings}
    → exposure_to_start d ≡ some s
    → (is_start d.kind ≡ true) × (d.settings ≡ some s)
exposure_to_start-some d e = elim (Bool-cases (is_start d.kind)) [
  | inl starts ↦ (starts, rw starts at e)
  | inr other ↦ let e' = rw other at e in cc
]

module _ {W : Type 0} (sources : Sources W) where
  -- The controller's state as a poll that begins in the world `start` sees it, after it has loaded the
  -- runs.
  abbrev pub IsSeen : W → ControllerSnapshot → Type 0
  IsSeen start controller = (sources.snapshot (sources.load_attempts start).1).0 ≡ ok controller

  refresh-Latest :
      (w : W) (attempts : List ExposureAttempt) (controller : ControllerSnapshot)
      → (refresh sources w).0 ≡ ok (attempts, controller)
      → Latest sources w attempts (refresh sources w).1 × IsSeen w controller
  unfolding refresh
  refresh-Latest w attempts controller e =
      let w1 = (sources.load_attempts w).1 in
      elim (Result-cases (sources.load_attempts w).0) [
        | inl (fault, failed) ↦ let e' = rw (failed, refresh) at e in cc
        | inr (again, loaded) ↦ elim (Result-cases (sources.snapshot w1).0) [
          | inl (fault, failed) ↦ let e' = rw (loaded, failed, refresh) at e in cc
          | inr (seen, shown) ↦
              let e' = rw (loaded, shown, refresh) at e in
              let same : again ≡ attempts = ground arith in
              let seen_same : seen ≡ controller = ground arith in
              (
                rw (loaded, shown, refresh) (refreshed (loaded ∙ ap ok same)),
                shown ∙ ap ok seen_same,
              )
        ]
      ]

  -- What a poll that answers has done: counted a failure, or latched an assessment.
  pub record IsAssessed (w : W) (c c' : BatchCoordinator) (a : BatchAssessment) : Type 0 where
    pub controller : ControllerSnapshot
    pub seen : IsSeen w controller
    pub state : BatchCoordinator
    pub assessment : BatchAssessment
    pub answer : IsAnswer sources w controller (record c { source_failures = 0 }) state assessment
    pub latched : latch assessment state ≡ (c', a)

  pub poll_once-cases :
      (fuel : ℕ) (c : BatchCoordinator) (w : W) {a : BatchAssessment} {c' : BatchCoordinator}
      {w' : W}
      → poll_once sources fuel c w ≡ some (ok a, c', w')
      → ((fault : Text) × (count_failure fault c ≡ (c', a))) ⊎ IsAssessed w c c' a
  unfolding poll_once finish_poll
  poll_once-cases fuel c w {a} {c'} e = elim (Result-cases (refresh sources w).0) [
    | inl (fault, failed) ↦ let e' = rw (failed, poll_once) at e in inl (fault, ground arith)
    | inr ((attempts, controller), fresh) ↦
        let (loaded, seen) = refresh-Latest w attempts controller fresh in
        let start = record c { source_failures = 0 } in
        let w1 = (refresh sources w).1 in
        elim (Option-cases (repair_rounds sources fuel controller [] attempts start w1)) [
          | inl n ↦ let e' = rw (fresh, n, poll_once) at e in cc
          | inr ((err x, d, v), n) ↦ let e' = rw (fresh, n, poll_once) at e in cc
          | inr ((ok b, d, v), n) ↦
              let e' = rw (fresh, n, poll_once) at e in
              inr (record {
                controller = controller;
                seen = seen;
                state = d;
                assessment = b;
                answer = rounds-IsAnswer sources w fuel controller [] attempts start w1 loaded n;
                latched = ground arith;
              })
        ]
  ]

  -- Why the exposure with the settings `s` is started by a poll that begins in the world `w`: the
  -- runs that were loaded last, at the time that the clock shows after that, and the controller's state
  -- leave nothing to wait for or to report; the coordinator is not paused; and `s` is for what the
  -- first sample under its target lacks.
  pub record IsStart (w : W) (c : BatchCoordinator) (s : ExposureSettings) : Type 0 where
    pub attempts : List ExposureAttempt
    pub time : W
    pub latest : Latest sources w attempts time
    pub controller : ControllerSnapshot
    pub seen : IsSeen w controller
    pub now : Float
    pub on_clock : (sources.wall_clock time).0 ≡ now
    pub settled : All (IsSettled c.plan (inputs_of c now false)) attempts
    pub unpaused : any_pause c ≡ false
    pub available : controller.available ≡ true
    pub idle : controller.idle ≡ true
    pub no_run : controller.current_run_uuid ≡ none
    pub sample : SampleProgress
    pub first :
        find_first is_under (progress_for c.plan (sort_attempts attempts) c.config.assessment)
        ≡ some sample
    pub entry : BatchPlanEntry
    pub entry_sample : entry.sample ≡ sample.sample
    pub derived : settings_for c.plan.template entry (remainder sample) ≡ ok s

  IsSettled-kept :
      (c d : BatchCoordinator) (now : Float) (p : Bool) (a : ExposureAttempt)
      → but_repairs d ≡ but_repairs (record c { source_failures = 0 })
      → IsSettled d.plan (inputs_of d now p) a
      → IsSettled c.plan (inputs_of c now false) a
  IsSettled-kept c d now p a kept s =
      let config = ap (λ x. x.config.assessment) kept in
      record {
        valid =
            subst (λ (plan : BatchPlan). attempt_error a (samples plan.entries) ≡ none)
              (ap (λ x. x.plan) kept) s.valid;
        ended = s.ended;
        finalized =
            subst (λ (f : AssessmentConfig). is_finalizing now f.finalization_delay a ≡ false)
              config s.finalized;
        known = s.known;
        measured = s.measured;
        in_bounds =
            subst (λ (f : AssessmentConfig). metrics_complaint f a.dose a.runtime ≡ none) config
              s.in_bounds;
      }

  answer-IsStart :
      (w : W) (c d : BatchCoordinator) (controller : ControllerSnapshot) {a : BatchAssessment}
      {s : ExposureSettings}
      → IsSeen w controller
      → IsAnswer sources w controller (record c { source_failures = 0 }) d a
      → is_start a.decision.kind ≡ true
      → a.decision.settings ≡ some s
      → IsStart w c s
  answer-IsStart w c d controller {a} {s} seen r k e =
      let i = inputs_of d r.now r.paused_now in
      let (settled, unpaused, available, idle, no_run, p, first, starts) =
        assess_batch-start d.plan controller i r.attempts r.assessed (is_start-kind _ k) in
      let same : starts.settings ≡ s = cc (starts.decided_settings, e) in
      record {
        attempts = r.attempts;
        time = r.time;
        latest = r.latest;
        controller = controller;
        seen = seen;
        now = r.now;
        on_clock = r.on_clock;
        settled = All-map r.attempts (λ x. IsSettled-kept c d r.now r.paused_now x r.kept) settled;
        unpaused = ground (arith, r.still_paused);
        available = available;
        idle = idle;
        no_run = no_run;
        sample = p;
        first =
            subst
              (λ (x : BatchCoordinator).
                find_first is_under
                  (progress_for x.plan (sort_attempts r.attempts) x.config.assessment)
                ≡ some p)
              r.kept first;
        entry = starts.entry;
        entry_sample = starts.entry_sample;
        derived =
            subst
              (λ (x : BatchCoordinator).
                settings_for x.plan.template starts.entry (remainder p) ≡ ok s)
              r.kept (starts.derived ∙ ap ok same);
      }

  pub poll_once-IsStart :
      (fuel : ℕ) (c : BatchCoordinator) (w : W) {a : BatchAssessment} {c' : BatchCoordinator}
      {w' : W} {s : ExposureSettings}
      → poll_once sources fuel c w ≡ some (ok a, c', w')
      → is_start a.decision.kind ≡ true
      → a.decision.settings ≡ some s
      → IsStart w c s
  poll_once-IsStart fuel c w {a} {c'} {s = s} e k g = elim (poll_once-cases fuel c w e) [
    | inl (fault, counted) ↦
        let never = count_failure-start fault c in
        let same : (count_failure fault c).1 ≡ a = ap (λ x. x.1) counted in
        let impossible = subst (λ x. is_start x.decision.kind ≡ false) same never in cc
    | inr r ↦
        let b = r.assessment in
        let same : (latch b r.state).1 ≡ a = ap (λ x. x.1) r.latched in
        let (unchanged, kind) =
          latch-start b r.state (subst (λ x. is_start x.decision.kind ≡ true) (sym same) k) in
        let settings : b.decision.settings ≡ some s =
          ap (λ x. x.decision.settings) (sym unchanged ∙ same) ∙ g in
        answer-IsStart w c r.state r.controller r.seen r.answer kind settings
  ]
