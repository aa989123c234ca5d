-- ===== src/Batch/Service/Halted/Steps.antt =====
-- The single steps of a halted batch service, class BatchControllerSubsystem of
use chamber_ctl.Batch.Attempt.{ExposureAttempt}
use chamber_ctl.Batch.Coordinator.Paused.{start_next-kept, poll_once-kept}
use chamber_ctl.Batch.Storage.Untouched.{save_control_state-kept}
use chamber_ctl.Batch.Decision.{BatchAssessment}
use chamber_ctl.Batch.Plan.{Planned}
use chamber_ctl.Batch.Coordinator.{BatchCoordinator}
use chamber_ctl.Batch.Service.Halted.{
  is_paused_batch, is_compatible, IsHalted, IsPlantUntouched, is_paused_by_hand, put_key-filed,
  put_key-paused, is_filed,
}
use chamber_ctl.Batch.Service.Steps.{
  Plant, set_phase, set_active, remember, set_coordinator, finish_assessment, finish_starting,
  close_active, set_lease, set_attempts,
}
use chamber_ctl.Batch.Service.Poll.{read_time, save_control, poll_coordinator, start_exposure}
use chamber_ctl.Batch.Service.{
  ServiceError, ServicePhase, CommandError, Notice, StartResult, save_control_state, List,
}
use chamber_ctl.Batch.Service.Proc.{Running, call, ask, store, skip, raise, require, finish_call}
use chamber_ctl.Batch.Manifest.{BatchManifest, StorageError, ManifestStatus}
use chamber_ctl.Batch.Service.Rules.{
  out_of_fuel, returned, raised, Post, Keeps, then-Keeps, store-Keeps,
}
use chamber_ctl.Prelude.{
  some, none, ok, err, true, false, ◌==◌, ◌≡◌, ◌∙◌, arith, refl, ℕ, Bool, Option, ap, Result, Text,
  subst, All, sym, get_key,
}

-- src/chamber_ctl/subsystems/batch_controller.py.

pub with_paused :
    (batch_uuid : ℕ) (m : BatchManifest)
    → is_paused_batch batch_uuid (some m) ≡ true
    → is_compatible batch_uuid m ≡ true
with_paused batch_uuid m h = ground (arith, h)

pub paused_compatible :
    (batch_uuid : ℕ) (m : BatchManifest) → m.paused ≡ true → is_compatible batch_uuid m ≡ true
paused_compatible batch_uuid m h = ground (arith, h)

module _ {E W : Type 0} {batch_uuid : ℕ} {P : W → Type 0} where
  -- What the predicate does not speak of may change.
  pub same-IsHalted :
      {s s' : Running E W}
      → IsHalted batch_uuid P s
      → s'.coordinator ≡ s.coordinator
      → s'.service.active_manifest ≡ s.service.active_manifest
      → s'.service.manifests ≡ s.service.manifests
      → s'.world ≡ s.world
      → IsHalted batch_uuid P s'
  same-IsHalted h c a d w = record {
    coordinator_paused = ap is_paused_by_hand c ∙ h.coordinator_paused;
    active_paused = ap (is_paused_batch batch_uuid) a ∙ h.active_paused;
    filed = subst (All (λ x. is_filed x ≡ true)) (sym d) h.filed;
    known_paused =
        ap (λ x. is_paused_batch batch_uuid (get_key (◌==◌) batch_uuid x)) d ∙ h.known_paused;
    untouched = subst P (sym w) h.untouched;
  }

  pub at_world-IsHalted :
      {s : Running E W} {w : W}
      → IsHalted batch_uuid P s
      → P w
      → IsHalted batch_uuid P (record s { world = w })
  at_world-IsHalted h p = record {
    coordinator_paused = h.coordinator_paused;
    active_paused = h.active_paused;
    filed = h.filed;
    known_paused = h.known_paused;
    untouched = p;
  }

  pub at_coordinator-IsHalted :
      {s : Running E W} {c : Option BatchCoordinator} {w : W}
      → IsHalted batch_uuid P s
      → is_paused_by_hand c ≡ true
      → P w
      → IsHalted batch_uuid P (record s { coordinator = c; world = w })
  at_coordinator-IsHalted h paused p = record {
    coordinator_paused = paused;
    active_paused = h.active_paused;
    filed = h.filed;
    known_paused = h.known_paused;
    untouched = p;
  }

  pub skip-IsHalted : Keeps (IsHalted {E = E} batch_uuid P) skip
  skip-IsHalted s h = returned h

  pub raise-IsHalted :
      {A : Type 0} (e : ServiceError) → Keeps (IsHalted {E = E} batch_uuid P) (raise {A = A} e)
  raise-IsHalted e s h = raised h

  pub require-IsHalted :
      (c : Bool) (e : CommandError) → Keeps (IsHalted {E = E} batch_uuid P) (require c e)
  require-IsHalted true e s h = returned h
  require-IsHalted false e s h = raised h

  finish_call-IsHalted :
      {A : Type 0} (s : Running E W) (r : Result Text A × W)
      → IsHalted batch_uuid P s
      → P r.1
      → Post (λ a s'. IsHalted batch_uuid P s') (IsHalted {E = E} batch_uuid P) (finish_call s r)
  finish_call-IsHalted s (ok a, w) h p = returned (at_world-IsHalted h p)
  finish_call-IsHalted s (err text, w) h p = raised (at_world-IsHalted h p)

  pub call-IsHalted :
      {A : Type 0} (f : W → Result Text A × W)
      → ((w : W) → P w → P (f w).1)
      → Keeps (IsHalted {E = E} batch_uuid P) (call f)
  unfolding call
  call-IsHalted f kept s h = finish_call-IsHalted s (f s.world) h (kept s.world h.untouched)

  pub ask-IsHalted :
      {A : Type 0} (f : W → A × W)
      → ((w : W) → P w → P (f w).1)
      → Keeps (IsHalted {E = E} batch_uuid P) (ask f)
  unfolding ask
  ask-IsHalted f kept s h = returned (at_world-IsHalted h (kept s.world h.untouched))

  pub store-IsHalted :
      {A : Type 0} (f : W → Result StorageError (A × W))
      → ((w : W) (r : A × W) → P w → f w ≡ ok r → P r.1)
      → Keeps (IsHalted {E = E} batch_uuid P) (store f)
  store-IsHalted f kept =
      store-Keeps f (λ s r h e. at_world-IsHalted h (kept s.world r h.untouched e))

  pub set_phase-IsHalted :
      (phase : ServicePhase) (message : Notice)
      → Keeps (IsHalted {E = E} batch_uuid P) (set_phase phase message)
  set_phase-IsHalted phase message s h = returned (same-IsHalted h refl refl refl refl)

  pub set_lease-IsHalted : (owned : Bool) → Keeps (IsHalted {E = E} batch_uuid P) (set_lease owned)
  set_lease-IsHalted owned s h = returned (same-IsHalted h refl refl refl refl)

  pub set_attempts-IsHalted :
      (attempts : List ExposureAttempt)
      → Keeps (IsHalted {E = E} batch_uuid P) (set_attempts attempts)
  set_attempts-IsHalted attempts s h = returned (same-IsHalted h refl refl refl refl)

  pub close_active-IsHalted :
      (status : ManifestStatus) (message : Notice) (m : BatchManifest)
      → Keeps (IsHalted {E = E} batch_uuid P) (close_active status message m)
  close_active-IsHalted status message m s h = returned (record {
    coordinator_paused = h.coordinator_paused;
    active_paused = refl;
    filed = h.filed;
    known_paused = h.known_paused;
    untouched = h.untouched;
  })

  pub set_active-IsHalted :
      (m : BatchManifest)
      → is_paused_batch batch_uuid (some m) ≡ true
      → Keeps (IsHalted {E = E} batch_uuid P) (set_active m)
  set_active-IsHalted m paused s h = returned (record {
    coordinator_paused = h.coordinator_paused;
    active_paused = paused;
    filed = h.filed;
    known_paused = h.known_paused;
    untouched = h.untouched;
  })

  pub remember-IsHalted :
      (m : BatchManifest)
      → is_compatible batch_uuid m ≡ true
      → Keeps (IsHalted {E = E} batch_uuid P) (remember m)
  remember-IsHalted m fits s h = returned (record {
    coordinator_paused = h.coordinator_paused;
    active_paused = h.active_paused;
    filed = put_key-filed m s.service.manifests h.filed;
    known_paused = put_key-paused batch_uuid m s.service.manifests fits h.known_paused;
    untouched = h.untouched;
  })

  pub set_coordinator-IsHalted :
      (c : Option BatchCoordinator)
      → is_paused_by_hand c ≡ true
      → Keeps (IsHalted {E = E} batch_uuid P) (set_coordinator c)
  set_coordinator-IsHalted c paused s h = returned (at_coordinator-IsHalted h paused h.untouched)

module _ {E W : Type 0} {batch_uuid : ℕ} {P : W → Type 0} (plant : Plant E W)
    (kept : IsPlantUntouched plant P) where
  pub read_time-IsHalted : Keeps (IsHalted {E = E} batch_uuid P) (read_time plant)
  read_time-IsHalted = ask-IsHalted plant.sources.wall_clock kept.sources.reads

  pub save_control-IsHalted :
      (m : BatchManifest) → Keeps (IsHalted {E = E} batch_uuid P) (save_control plant m)
  unfolding save_control
  save_control-IsHalted m =
      then-Keeps
        (store-IsHalted (save_control_state plant.library m)
          (λ w r p e. save_control_state-kept plant.library kept.library m w p e))
        (λ saved. skip-IsHalted)

  finish_assessment-IsHalted :
      (s : Running E W) (r : Option (Planned BatchAssessment × BatchCoordinator × W))
      → IsHalted batch_uuid P s
      → ((q : Planned BatchAssessment) (c : BatchCoordinator) (w : W)
          → r ≡ some (q, c, w)
          → P w × (c.manual_pause ≡ true))
      → Post
          (λ a s'. IsHalted batch_uuid P s')
          (IsHalted {E = E} batch_uuid P)
          (finish_assessment s r)
  finish_assessment-IsHalted s none h polls = out_of_fuel
  finish_assessment-IsHalted s (some (ok a, c, w)) h polls =
      let (p, paused) = polls (ok a) c w refl in
      returned (same-IsHalted (at_coordinator-IsHalted h paused p) refl refl refl refl)
  finish_assessment-IsHalted s (some (err e, c, w)) h polls =
      let (p, paused) = polls (err e) c w refl in raised (at_coordinator-IsHalted h paused p)

  pub poll_coordinator-IsHalted :
      (c : BatchCoordinator)
      → c.manual_pause ≡ true
      → Keeps (IsHalted {E = E} batch_uuid P) (poll_coordinator plant c)
  unfolding poll_coordinator
  poll_coordinator-IsHalted c paused s h = finish_assessment-IsHalted s _ h (λ q c' w e.
      let (p, same) =
        poll_once-kept plant.sources kept.sources plant.poll_fuel c s.world h.untouched e in
      (p, same ∙ paused))

  finish_starting-IsHalted :
      (s : Running E W) (r : Option (Planned StartResult × BatchCoordinator × W))
      → IsHalted batch_uuid P s
      → ((q : Planned StartResult) (c : BatchCoordinator) (w : W)
          → r ≡ some (q, c, w)
          → P w × (c.manual_pause ≡ true))
      → Post
          (λ a s'. IsHalted batch_uuid P s')
          (IsHalted {E = E} batch_uuid P)
          (finish_starting s r)
  finish_starting-IsHalted s none h starts = out_of_fuel
  finish_starting-IsHalted s (some (ok a, c, w)) h starts =
      let (p, paused) = starts (ok a) c w refl in returned (at_coordinator-IsHalted h paused p)
  finish_starting-IsHalted s (some (err e, c, w)) h starts =
      let (p, paused) = starts (err e) c w refl in raised (at_coordinator-IsHalted h paused p)

  -- Nothing is started.
  pub start_exposure-IsHalted :
      (c : BatchCoordinator)
      → c.manual_pause ≡ true
      → Keeps (IsHalted {E = E} batch_uuid P) (start_exposure plant c)
  unfolding start_exposure
  start_exposure-IsHalted c paused s h = finish_starting-IsHalted s _ h (λ q c' w e.
      start_next-kept plant.sources kept.sources plant.poll_fuel _ c s.world h.untouched paused e)
