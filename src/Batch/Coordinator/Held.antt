-- ===== src/Batch/Coordinator/Held.antt =====
-- The errors that class BatchCoordinator of src/chamber_ctl/subsystems/batcher.py holds: what keeps
-- them, and what they keep from starting.
use chamber_ctl.Batch.Coordinator.Started.{poll_once-cases, count_failure-start}
use chamber_ctl.Batch.Coordinator.Answer.{rounds-but_repairs}
use chamber_ctl.Batch.Coordinator.Poll.{
  poll_once, finish_poll, start_next, refresh, repair_rounds, StartResult, exposure_to_start,
}
use chamber_ctl.Batch.Coordinator.{
  BatchCoordinator, latch, count_failure, update_plan, Sources, latch_logic, BatchPlan,
  latch_source, is_pause_error, pause, BatchAssessment, Planned, is_start, err, ok,
}
use chamber_ctl.Prelude.{
  [], some, true, false, inl, inr, ℕ, Bool, Text, List, ◌||◌, ◌≡◌, arith, Result-cases, subst,
  Option-cases, ap, ◌∙◌, sym,
}

abbrev pub is_held : BatchCoordinator → Bool
is_held c = c.source_error_paused || c.logic_error_paused

pub latch-held :
    (a : BatchAssessment) (c : BatchCoordinator) → is_held c ≡ true → is_held (latch a c).0 ≡ true
unfolding latch latch_logic latch_source
latch-held a c h = ground arith

pub latch-error :
    (a : BatchAssessment) (c : BatchCoordinator)
    → is_pause_error (latch a c).1.decision.kind ≡ true
    → is_held (latch a c).0 ≡ true
unfolding latch latch_logic latch_source
latch-error a c h = ground arith

pub latch-free :
    (a : BatchAssessment) (c : BatchCoordinator)
    → is_held c ≡ true
    → is_start (latch a c).1.decision.kind ≡ false
unfolding latch latch_logic latch_source
latch-free a c h = ground arith

pub count_failure-held :
    (fault : Text) (c : BatchCoordinator)
    → is_held c ≡ true
    → is_held (count_failure fault c).0 ≡ true
unfolding count_failure
count_failure-held fault c h = ground arith

pub count_failure-error :
    (fault : Text) (c : BatchCoordinator)
    → is_pause_error (count_failure fault c).1.decision.kind ≡ true
    → is_held (count_failure fault c).0 ≡ true
unfolding count_failure
count_failure-error fault c h = ground arith

pub update_plan-held :
    (plan : BatchPlan) (c : BatchCoordinator) {d : BatchCoordinator}
    → is_held c ≡ true
    → update_plan plan c ≡ some d
    → is_held d ≡ true
unfolding update_plan
update_plan-held plan c h e = ground arith

pub pause-held : (c : BatchCoordinator) → is_held c ≡ true → is_held (pause c) ≡ true
unfolding pause
pause-held c h = h

module _ {W : Type 0} (sources : Sources W) where
  pub poll_once-held :
      (fuel : ℕ) (c : BatchCoordinator) (w : W) {r : Planned BatchAssessment}
      {c' : BatchCoordinator} {w' : W}
      → is_held c ≡ true
      → poll_once sources fuel c w ≡ some (r, c', w')
      → is_held c' ≡ true
  unfolding poll_once finish_poll
  poll_once-held fuel c w {r} {c'} h e = elim (Result-cases (refresh sources w).0) [
    | inl (fault, failed) ↦
        let e' = rw (failed, poll_once) at e in
        let same : (count_failure fault c).0 ≡ c' = ground arith in
        subst (λ x. is_held x ≡ true) same (count_failure-held fault c h)
    | inr ((attempts, controller), fresh) ↦
        let start = record c { source_failures = 0 } in
        let w1 = (refresh sources w).1 in
        elim (Option-cases (repair_rounds sources fuel controller [] attempts start w1)) [
          | inl n ↦ let e' = rw (fresh, n, poll_once) at e in cc
          | inr ((err x, d, v), n) ↦
              let e' = rw (fresh, n, poll_once) at e in
              let kept = rounds-but_repairs sources fuel controller [] attempts start w1 n in
              let same : d ≡ c' = ground arith in
              subst (λ x. is_held x ≡ true) same (ap is_held kept ∙ h)
          | inr ((ok b, d, v), n) ↦
              let e' = rw (fresh, n, poll_once) at e in
              let kept = rounds-but_repairs sources fuel controller [] attempts start w1 n in
              let same : (latch b d).0 ≡ c' = ground arith in
              subst (λ x. is_held x ≡ true) same (latch-held b d (ap is_held kept ∙ h))
        ]
  ]

  pub poll_once-error :
      (fuel : ℕ) (c : BatchCoordinator) (w : W) {a : BatchAssessment} {c' : BatchCoordinator}
      {w' : W}
      → poll_once sources fuel c w ≡ some (ok a, c', w')
      → is_pause_error a.decision.kind ≡ true
      → is_held c' ≡ true
  poll_once-error fuel c w {a} {c'} e k = elim (poll_once-cases sources fuel c w e) [
    | inl (fault, counted) ↦
        let answer : a ≡ (count_failure fault c).1 = ap (λ x. x.1) (sym counted) in
        subst (λ x. is_held x ≡ true) (ap (λ x. x.0) counted)
          (count_failure-error fault c
            (subst (λ x. is_pause_error x.decision.kind ≡ true) answer k))
    | inr r ↦
        let answer : a ≡ (latch r.assessment r.state).1 = ap (λ x. x.1) (sym r.latched) in
        subst (λ x. is_held x ≡ true) (ap (λ x. x.0) r.latched)
          (latch-error r.assessment r.state
            (subst (λ x. is_pause_error x.decision.kind ≡ true) answer k))
  ]

  pub poll_once-free :
      (fuel : ℕ) (c : BatchCoordinator) (w : W) {a : BatchAssessment} {c' : BatchCoordinator}
      {w' : W}
      → is_held c ≡ true
      → poll_once sources fuel c w ≡ some (ok a, c', w')
      → is_start a.decision.kind ≡ false
  poll_once-free fuel c w {a} {c'} h e = elim (poll_once-cases sources fuel c w e) [
    | inl (fault, counted) ↦
        subst (λ x. is_start x.decision.kind ≡ false) (ap (λ x. x.1) counted)
          (count_failure-start fault c)
    | inr r ↦
        subst (λ x. is_start x.decision.kind ≡ false) (ap (λ x. x.1) r.latched)
          (latch-free r.assessment r.state (ap is_held r.answer.kept ∙ h))
  ]

  -- `start_next` leaves the coordinator as its poll does.
  pub start_next-polls :
      (fuel : ℕ) (run_tags : List Text) (c : BatchCoordinator) (w : W) {r : Planned StartResult}
      {c' : BatchCoordinator} {w' : W}
      → start_next sources fuel run_tags c w ≡ some (r, c', w')
      → (q : Planned BatchAssessment) × (v : W) × (poll_once sources fuel c w ≡ some (q, c', v))
  unfolding start_next
  start_next-polls fuel run_tags c w {r} {c'} e = elim (Option-cases (poll_once sources fuel c w)) [
    | inl n ↦ let e' = rw (n, start_next) at e in cc
    | inr ((err x, d, v), n) ↦
        let e' = rw (n, start_next) at e in
        let same : d ≡ c' = ground arith in (err x, v, n ∙ ap (λ y. some (err x, y, v)) same)
    | inr ((ok a, d, v), n) ↦
        let same : d ≡ c' = elim (Option-cases (exposure_to_start a.decision)) [
          | inl m ↦ let e' = rw (n, m, start_next) at e in ground arith
          | inr (settings, m) ↦ let e' = rw (n, m, start_next) at e in ground arith
        ] in
        (ok a, v, n ∙ ap (λ y. some (ok a, y, v)) same)
  ]
