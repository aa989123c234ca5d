-- ===== src/Batch/Assess/Repair.antt =====
-- Which run `assess_batch` of src/chamber_ctl/subsystems/batcher.py wants repaired.
use chamber_ctl.Batch.Order.{sort_from-All}
use chamber_ctl.Batch.Assess.Start.{start_sample-Starts}
use chamber_ctl.Batch.Assess.{
  assess_repair, or_else, BatchAssessment, BatchPlan, SampleProgress, ControllerSnapshot, Planned,
  Inputs, member, ◌∷◌, assess_next, assess_terminal, assess_batch, metrics_need_repair,
  sort_attempts, is_active, is_terminal,
}
use chamber_ctl.Batch.Attempt.{ExposureAttempt}
use chamber_ctl.Prelude.{
  ◌≡◌, true, List, false, ℕ, Option, arith, some, All, ok, Bool-cases, subst, is_finite, inr, inl,
  select, select-keeps, [], none, ◌∷◌, refl,
}
use chamber_ctl.Batch.Decision.{is_repair, BatchDecisionKind}
use chamber_ctl.Batch.Assess.Stages.{
  Holds, or_else-Stops, is_stop, assess_finalizing-Stops, assess_status-Stops, assess_metrics-Stops,
  assess_aborted-Stops, assess_short-Stops, error_decision-Stops, assess_active-Stops,
}

stop-not_repair : (k : BatchDecisionKind) → is_stop k ≡ true → is_repair k ≡ false
stop-not_repair k s = ground arith

-- The decision is about a run with `Q`, which has not used up its repairs.
pub record IsRepair (Q : ExposureAttempt → Type 0) (blocked : List ℕ) (a : BatchAssessment)
    : Type 0 where
  pub run : ExposureAttempt
  pub asked : a.decision.run_uuid ≡ some run.run_uuid
  pub known : Q run
  pub unblocked : member run.run_uuid blocked ≡ false

assess_repair-IsRepair :
    (Q : ExposureAttempt → Type 0) (progress : List SampleProgress) (blocked : List ℕ)
    (l : List ExposureAttempt)
    → All Q l
    → Holds
        (λ a. is_repair a.decision.kind ≡ true → IsRepair Q blocked a)
        (assess_repair progress blocked l)
unfolding assess_repair
assess_repair-IsRepair Q progress blocked [] h = tt
assess_repair-IsRepair Q progress blocked (x ∷ l) h = elim (Bool-cases (metrics_need_repair x)) [
  | inr fine ↦ rw (fine, assess_repair) (assess_repair-IsRepair Q progress blocked l h.1)
  | inl broken ↦ elim (Bool-cases (member x.run_uuid blocked)) [
    | inl used_up ↦ rw (broken, used_up, assess_repair) (λ k. cc)
    | inr fresh ↦
        rw (broken, fresh, assess_repair)
          (λ k. record { run = x; asked = refl; known = h.0; unblocked = fresh })
  ]
]

-- The answer is the stage's or a later one's.
or_else-cases :
    (C : BatchAssessment → Type 0) (o : Option BatchAssessment) (r : Planned BatchAssessment)
    {a : BatchAssessment}
    → Holds C o
    → (r ≡ ok a → C a)
    → or_else o r ≡ ok a
    → C a
unfolding or_else
or_else-cases C none r h later e = later e
or_else-cases C (some b) r h later e = subst C (ground arith) h

module _ (Q : ExposureAttempt → Type 0) (plan : BatchPlan) (controller : ControllerSnapshot)
    (i : Inputs) where
  next-not_repair :
      (progress : List SampleProgress) (first : Option SampleProgress) {a : BatchAssessment}
      → assess_next plan controller i.paused_by_hand progress first ≡ ok a
      → is_repair a.decision.kind ≡ false
  unfolding assess_next
  next-not_repair progress none e = ground arith
  next-not_repair progress (some p) {a} e =
      ground (arith, start_sample-Starts plan progress p plan.entries {a = a})

  assess_terminal-IsRepair :
      (terminal : List ExposureAttempt) {a : BatchAssessment}
      → All Q terminal
      → assess_terminal plan controller i terminal ≡ ok a
      → is_repair a.decision.kind ≡ true
      → IsRepair Q i.blocked_repair_runs a
  unfolding assess_terminal
  assess_terminal-IsRepair terminal {a} known e k =
      let (_, r1) = or_else-Stops is_repair stop-not_repair _ _ (assess_finalizing-Stops _ _) e k in
      let (_, r2) =
        or_else-Stops is_repair stop-not_repair _ _ (assess_status-Stops _ terminal) r1 k in
      or_else-cases (λ b. is_repair b.decision.kind ≡ true → IsRepair Q i.blocked_repair_runs b) _ _
        (assess_repair-IsRepair Q _ i.blocked_repair_runs terminal known)
        (λ r3 k.
          let (_, r4) =
            or_else-Stops is_repair stop-not_repair _ _ (assess_metrics-Stops _ _ terminal) r3 k in
          let (_, r5) =
            or_else-Stops is_repair stop-not_repair _ _ (assess_aborted-Stops _ _) r4 k in
          let (_, r6) =
            or_else-Stops is_repair stop-not_repair _ _ (assess_short-Stops _ _ _ _) r5 k in
          let no_repair = next-not_repair _ _ r6 in cc)
        r2 k

  -- A decision to repair is about one of the runs, and about none whose repairs are used up.
  pub assess_batch-IsRepair :
      (attempts : List ExposureAttempt) {a : BatchAssessment}
      → All Q attempts
      → assess_batch plan attempts controller i ≡ ok a
      → is_repair a.decision.kind ≡ true
      → IsRepair Q i.blocked_repair_runs a
  unfolding assess_batch
  assess_batch-IsRepair attempts known e k = elim (Bool-cases (is_finite i.now)) [
    | inl now_ok ↦
        let ordered = sort_attempts attempts in
        let r0 = rw now_ok at e in
        let (_, r1) = or_else-Stops is_repair stop-not_repair _ _ (error_decision-Stops _ _) r0 k in
        let (_, r2) =
          or_else-Stops is_repair stop-not_repair _ _
            (assess_active-Stops _ _ (select is_active ordered)) r1 k in
        assess_terminal-IsRepair (select is_terminal ordered)
          (select-keeps Q is_terminal ordered (sort_from-All Q [] attempts tt known)) r2 k
    | inr now_bad ↦ let refused = rw now_bad at e in cc
  ]
