-- ===== src/Batch/Service/Halted/Pausing.antt =====
-- The commands `pause` and `cancel` of class BatchControllerSubsystem,
use chamber_ctl.Batch.Storage.{save_control_state}
use chamber_ctl.Batch.Storage.Untouched.{save_control_state-kept}
use chamber_ctl.Batch.Service.Halted.Polls.{poll_active-IsHalted}
use chamber_ctl.Batch.Service.Proc.{Outcome, ask}
use chamber_ctl.Batch.Service.Halted.{
  IsPlantUntouched, Running, BatchManifest, is_paused_by_hand, IsHalted, is_paused_batch, is_filed,
  same_eq, same_refl, put_key-filed,
}
use chamber_ctl.Batch.Coordinator.{pause, BatchCoordinator}
use chamber_ctl.Batch.Service.Steps.{Plant, on_coordinator, remember, set_coordinator, set_active}
use chamber_ctl.Batch.Service.Poll.{replace_active, keep_active, save_control, read_time}
use chamber_ctl.Batch.Service.Commands.{pauses, cancels, Command, Reply, as_paused, as_cancelling}
use chamber_ctl.Batch.Service.Execute.{
  control_for, change_coordinator, execute, execute_at, control,
}
use chamber_ctl.Batch.Service.Rules.{
  returned, raised, Post, after-Post, then-Keeps, store-Keeps, checked-Gives, forget, ended,
}
use chamber_ctl.Prelude.{
  some, none, true, false, ok, ◌≡◌, ◌==◌, refl, arith, ℕ, Bool, Option, All, get_key, put_key,
  subst, get-put_key, sym, Float,
}

-- src/chamber_ctl/subsystems/batch_controller.py: when they are done, the service is halted.

abbrev pub is_pausing : Command → Bool
is_pausing pauses = true
is_pausing cancels = true
is_pausing command = false

module _ {E W : Type 0} (batch_uuid : ℕ) {P : W → Type 0} {plant : Plant E W}
    (kept : IsPlantUntouched plant P) where
  -- The known manifests and the world; with the coordinator; and with the active manifest.
  abbrev pub IsFiled : Running E W → Type 0
  IsFiled s = All (λ x. is_filed x ≡ true) s.service.manifests × P s.world

  abbrev IsHeld : Running E W → Type 0
  IsHeld s = IsFiled s × (is_paused_by_hand s.coordinator ≡ true)

  abbrev IsChosen : BatchManifest → Running E W → Type 0
  IsChosen m s = IsHeld s × (s.service.active_manifest ≡ some m)

  -- What a run that returns leaves.
  abbrev pub Ends : {A : Type 0} → (Running E W → Type 0) → Outcome E W A → Type 0
  Ends Q = Post (λ a s. Q s) (λ s. Unit {0})

  abbrev H : Running E W → Type 0
  H = IsHalted batch_uuid P

  pause_with-IsHeld :
      (c : Option BatchCoordinator) (s : Running E W)
      → IsFiled s
      → Ends IsHeld (on_coordinator (λ c. set_coordinator (some (pause c))) c s)
  unfolding pause
  pause_with-IsHeld none s h = raised tt
  pause_with-IsHeld (some c) s h = returned (h, refl)

  set_active-IsChosen :
      (m : BatchManifest) (s : Running E W) → IsHeld s → Ends (IsChosen m) (set_active m s)
  set_active-IsChosen m s h = returned (h, refl)

  save_control-IsChosen :
      (m : BatchManifest) (s : Running E W)
      → IsChosen m s
      → Ends (IsChosen m) (save_control plant m s)
  unfolding save_control
  save_control-IsChosen m s h =
      after-Post
        (forget (
          store-Keeps {J = IsChosen m} (save_control_state plant.library m)
            (λ s r (((filed, p), held), active) e. (
              ((filed, save_control_state-kept plant.library kept.library m s.world p e), held),
              active,
            ))
            s h))
        (λ saved s1 h1. returned h1)

  remember-IsHalted :
      (m : BatchManifest) (s : Running E W)
      → is_paused_batch batch_uuid (some m) ≡ true
      → IsChosen m s
      → Ends H (remember m s)
  remember-IsHalted m s paused (((filed, p), held), active) =
      let key : m.batch_uuid ≡ batch_uuid =
        same_eq m.batch_uuid batch_uuid (ground (arith, paused)) in
      let found : get_key (◌==◌) batch_uuid (put_key (◌==◌) m.batch_uuid m s.service.manifests)
          ≡ some m =
        subst (λ k. get_key (◌==◌) k (put_key (◌==◌) m.batch_uuid m s.service.manifests) ≡ some m)
          key (get-put_key (◌==◌) same_refl same_eq m.batch_uuid m s.service.manifests) in
      returned (record {
        coordinator_paused = held;
        active_paused = subst (λ o. is_paused_batch batch_uuid o ≡ true) (sym active) paused;
        filed = put_key-filed m s.service.manifests filed;
        known_paused = subst (λ o. is_paused_batch batch_uuid o ≡ true) (sym found) paused;
        untouched = p;
      })

  replace_active-IsHalted :
      (m : BatchManifest) (s : Running E W)
      → is_paused_batch batch_uuid (some m) ≡ true
      → IsHeld s
      → Ends H (replace_active plant m s)
  unfolding replace_active keep_active
  replace_active-IsHalted m s paused h =
      after-Post (forget (checked-Gives {J = IsHeld} (λ x. m ≡ x) m refl s h)) (λ m' s1 (same, h1).
        let still = subst (λ x. is_paused_batch batch_uuid (some x) ≡ true) same paused in
        after-Post (set_active-IsChosen m' s1 h1) (λ done s2 h2.
          after-Post (save_control-IsChosen m' s2 h2)
            (λ done s3 h3. remember-IsHalted m' s3 still h3)))

  control_for-IsHalted :
      (g : BatchManifest → BatchManifest) (a : Option BatchManifest) (s : Running E W)
      → ((m : BatchManifest) → a ≡ some m → is_paused_batch batch_uuid (some (g m)) ≡ true)
      → IsFiled s
      → Ends H (control_for plant pause g false a s)
  unfolding control_for change_coordinator
  control_for-IsHalted g none s paused h = raised tt
  control_for-IsHalted g (some m) s paused h =
      after-Post (pause_with-IsHeld s.coordinator s h) (λ done s1 h1.
        after-Post (replace_active-IsHalted (g m) s1 (paused m refl) h1) (λ done s2 h2.
          forget (
            then-Keeps (poll_active-IsHalted batch_uuid kept false) (λ done s h. returned h) s2
              h2)))

  abbrev IsOf : Option BatchManifest → Running E W → Type 0
  IsOf a s = IsFiled s × (s.service.active_manifest ≡ a)

  read_time-IsOf :
      (a : Option BatchManifest) (s : Running E W) → IsOf a s → Ends (IsOf a) (read_time plant s)
  unfolding ask
  read_time-IsOf a s ((filed, p), active) = returned ((filed, kept.sources.reads s.world p), active)

  pausing_at-IsHalted :
      (command : Command) (now : Float) (s : Running E W) {m : BatchManifest}
      → is_pausing command ≡ true
      → m.batch_uuid ≡ batch_uuid
      → IsOf (some m) s
      → Ends H (execute_at plant command now s)
  unfolding execute_at control
  pausing_at-IsHalted pauses now s {m} k same (filed, active) =
      control_for-IsHalted (as_paused now) s.service.active_manifest s
        (λ x e.
          let this : m ≡ x = cc (active, e) in
          subst (λ y. is_paused_batch batch_uuid (some (as_paused now y)) ≡ true) this
            (ground (arith, same)))
        filed
  pausing_at-IsHalted cancels now s {m} k same (filed, active) =
      control_for-IsHalted (as_cancelling now) s.service.active_manifest s
        (λ x e.
          let this : m ≡ x = cc (active, e) in
          subst (λ y. is_paused_batch batch_uuid (some (as_cancelling now y)) ≡ true) this
            (ground (arith, same)))
        filed
  pausing_at-IsHalted command now s k same h = cc

  -- When a pause or a cancellation of the active batch returns, and the manifests were under their
  -- identifiers, the service is halted: its coordinator is paused by hand, the batch is paused
  -- where it is active and where it is known, and `P` still holds, which only a start of an
  -- exposure may make false.
  pub execute-IsHalted :
      (command : Command) (s : Running E W) {m : BatchManifest} {reply : Reply} {t : Running E W}
      → is_pausing command ≡ true
      → s.service.active_manifest ≡ some m
      → m.batch_uuid ≡ batch_uuid
      → IsFiled s
      → execute plant command s ≡ some (ok reply, t)
      → IsHalted batch_uuid P t
  unfolding execute
  execute-IsHalted command s k active same filed e =
      ended {R = λ a x. H x}
        (after-Post (read_time-IsOf (some _) s (filed, active))
          (λ now s1 h1. pausing_at-IsHalted command now s1 k same h1))
        e
