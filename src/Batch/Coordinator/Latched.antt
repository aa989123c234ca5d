-- ===== src/Batch/Coordinator/Latched.antt =====
-- An error that class BatchCoordinator of src/chamber_ctl/subsystems/batcher.py has reported stays
-- until `resume`.
use chamber_ctl.Batch.Coordinator.Held.{
  is_held, poll_once-error, poll_once-held, poll_once-free, pause-held, update_plan-held,
  start_next-polls,
}
use chamber_ctl.Batch.Coordinator.Poll.{
  poll_once, start_next, StartResult, exposure_to_start, cannot_start,
}
use chamber_ctl.Batch.Coordinator.{
  BatchCoordinator, update_plan, Sources, BatchPlan, is_pause_error, pause, BatchAssessment, err,
  ok, BatchDecisionKind, Message,
}
use chamber_ctl.Prelude.{
  refl, [], ◌∷◌, none, some, true, inl, inr, ℕ, Text, Option, List, ◌≡◌, arith, subst, Option-cases,
}

-- Any request but to resume.
pub data Request : Type 0 where
  polls : (fuel : ℕ) → Request
  pauses : Request
  plans : BatchPlan → Request
  starts : (fuel : ℕ) (run_tags : List Text) → Request

module _ {W : Type 0} (sources : Sources W) where
  abbrev pub left_by {ℓ} :
      {A : Type ℓ} → Option (A × BatchCoordinator × W) → Option (BatchCoordinator × W)
  left_by none = none
  left_by (some (a, c, w)) = some (c, w)

  -- The coordinator and the world after a request; a refused plan changes nothing.
  unfoldable pub serve : Request → BatchCoordinator → W → Option (BatchCoordinator × W)
  serve (polls fuel) c w = left_by (poll_once sources fuel c w)
  serve pauses c w = some (pause c, w)
  serve (plans plan) c w = elim (update_plan plan c) [ none ↦ some (c, w) | some d ↦ some (d, w) ]
  serve (starts fuel run_tags) c w = left_by (start_next sources fuel run_tags c w)

  unfoldable pub serve_all : List Request → BatchCoordinator → W → Option (BatchCoordinator × W)
  serve_all [] c w = some (c, w)
  serve_all (r ∷ requests) c w = elim (serve r c w) [
    | none ↦ none
    | some (d, v) ↦ serve_all requests d v
  ]

  serve-held :
      (r : Request) (c : BatchCoordinator) (w : W) {d : BatchCoordinator} {v : W}
      → is_held c ≡ true
      → serve r c w ≡ some (d, v)
      → is_held d ≡ true
  unfolding serve
  serve-held (polls fuel) c w {d} h e = elim (Option-cases (poll_once sources fuel c w)) [
    | inl n ↦ let e' = rw (n, serve) at e in cc
    | inr ((q, c', v), n) ↦
        let e' = rw (n, serve) at e in
        let same : c' ≡ d = ground arith in
        subst (λ x. is_held x ≡ true) same (poll_once-held sources fuel c w h n)
  ]
  serve-held pauses c w {d} h e =
      let same : pause c ≡ d = ground arith in subst (λ x. is_held x ≡ true) same (pause-held c h)
  serve-held (plans plan) c w {d} h e = elim (Option-cases (update_plan plan c)) [
    | inl n ↦ let e' = rw (n, serve) at e in ground arith
    | inr (c', n) ↦
        let e' = rw (n, serve) at e in
        let same : c' ≡ d = ground arith in
        subst (λ x. is_held x ≡ true) same (update_plan-held plan c h n)
  ]
  serve-held (starts fuel run_tags) c w {d} h e =
      elim (Option-cases (start_next sources fuel run_tags c w)) [
        | inl n ↦ let e' = rw (n, serve) at e in cc
        | inr ((q, c', v), n) ↦
            let e' = rw (n, serve) at e in
            let same : c' ≡ d = ground arith in
            let (_, _, polled) = start_next-polls sources fuel run_tags c w n in
            subst (λ x. is_held x ≡ true) same (poll_once-held sources fuel c w h polled)
      ]

  serve_all-held :
      (requests : List Request) (c : BatchCoordinator) (w : W) {d : BatchCoordinator} {v : W}
      → is_held c ≡ true
      → serve_all requests c w ≡ some (d, v)
      → is_held d ≡ true
  unfolding serve_all
  serve_all-held [] c w h e = ground arith
  serve_all-held (r ∷ requests) c w h e = elim (Option-cases (serve r c w)) [
    | inl n ↦ let e' = rw (n, serve_all) at e in cc
    | inr ((c1, w1), n) ↦
        serve_all-held requests c1 w1 (serve-held r c w h n) (rw (n, serve_all) at e)
  ]

  -- After a poll that answers PAUSE_ERROR, and any requests but to resume, `start_next` starts no
  -- exposure: if it answers, it says that it cannot.
  pub error_holds :
      (fuel : ℕ) (c : BatchCoordinator) (w : W) {a : BatchAssessment} {c1 : BatchCoordinator}
      {w1 : W} (requests : List Request) {c2 : BatchCoordinator} {w2 : W} (fuel' : ℕ)
      (run_tags : List Text) {r : StartResult} {c3 : BatchCoordinator} {w3 : W}
      → poll_once sources fuel c w ≡ some (ok a, c1, w1)
      → is_pause_error a.decision.kind ≡ true
      → serve_all requests c1 w1 ≡ some (c2, w2)
      → start_next sources fuel' run_tags c2 w2 ≡ some (ok r, c3, w3)
      → (kind : BatchDecisionKind) × (message : Message) × (r ≡ cannot_start kind message)
  unfolding start_next
  error_holds fuel c w {a} {c1} {w1} requests {c2} {w2} fuel' run_tags {r} polled error served
        answered =
      let held =
        serve_all-held requests c1 w1 (poll_once-error sources fuel c w polled error) served in
      elim (Option-cases (poll_once sources fuel' c2 w2)) [
        | inl n ↦ let e' = rw (n, start_next) at answered in cc
        | inr ((err x, d, v), n) ↦ let e' = rw (n, start_next) at answered in cc
        | inr ((ok b, d, v), n) ↦
            let no_start : exposure_to_start b.decision ≡ none =
              rw (poll_once-free sources fuel' c2 w2 held n) refl in
            let e' = rw (n, no_start, start_next) at answered in
            (b.decision.kind, b.decision.message, ground arith)
      ]
