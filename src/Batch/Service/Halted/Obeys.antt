-- ===== src/Batch/Service/Halted/Obeys.antt =====
-- The commands of a halted batch service that leave it halted: `_execute_command` of class
-- BatchControllerSubsystem, src/chamber_ctl/subsystems/batch_controller.py.
use chamber_ctl.Batch.Service.Halted.Edits.{
  reply_phase-IsHalted, return-IsHalted, leaves_paused, create_manifest-IsHalted,
  find_manifest-IsHalted, update_manifest-IsHalted,
}
use chamber_ctl.Batch.Service.Withdrawn.{
  keep_changed-ok, placed, withdraw-changes, unwithdraw-changes,
}
use chamber_ctl.Batch.Service.Withdraw.{
  withdraw, unwithdraw, keep_changed, as_withdrawn, as_restored,
}
use chamber_ctl.Batch.Storage.Untouched.{save_control_state-kept}
use chamber_ctl.Batch.Service.Halted.Polls.{
  replace_active-IsHalted, poll_active-IsHalted, start-IsHalted,
}
use chamber_ctl.Batch.Service.Halted.Steps.{
  require-IsHalted, raise-IsHalted, skip-IsHalted, set_coordinator-IsHalted, set_phase-IsHalted,
  read_time-IsHalted, same-IsHalted, paused_compatible,
}
use chamber_ctl.Batch.Service.Halted.{
  IsPlantUntouched, Running, IsHalted, is_paused_batch, put_key-filed, put_key-paused,
}
use chamber_ctl.Batch.Service.Steps.{Plant, on_coordinator, set_coordinator}
use chamber_ctl.Batch.Coordinator.Poll.{started, start_raised, cannot_start, StartResult}
use chamber_ctl.Batch.Coordinator.{pause, BatchCoordinator}
use chamber_ctl.Batch.Service.{
  no_coordinator, refused, no_active_batch, not_manual, not_resumed, not_waiting, start_refused,
  starting, start_message, Option, unknown_command, BatchController, CommandError,
}
use chamber_ctl.Batch.Manifest.{automatic, manual, BatchManifest, ExecutionMode}
use chamber_ctl.Batch.Service.Commands.{
  resumes, activates, creates, manifest_reply, start_reply, Command, wants_start, gets, updates,
  pauses, cancels, continues, refreshes, sets_mode, withdraws, unwithdraws, unknown, mode_reply,
  new_manifest, as_paused, as_cancelling,
}
use chamber_ctl.Batch.Service.Execute.{
  control_for, change_coordinator, continue_for, change, must_have_started, execute_at, execute,
  control, set_mode, put_mode, finish_change,
}
use chamber_ctl.Batch.Service.Rules.{returned, raised, Keeps, then-Keeps, given-Keeps, Post}
use chamber_ctl.Prelude.{
  some, none, true, false, ◌≡◌, arith, refl, ℕ, Bool, not, subst, Float, ok, err, Result,
}

module _ {E W : Type 0} (batch_uuid : ℕ) {P : W → Type 0} {plant : Plant E W}
    (kept : IsPlantUntouched plant P) where
  abbrev J : Running E W → Type 0
  J = IsHalted batch_uuid P

  pause_with-IsHalted :
      (c : Option BatchCoordinator)
      → Keeps J (on_coordinator (λ c. set_coordinator (some (pause c))) c)
  unfolding pause
  pause_with-IsHalted none = raise-IsHalted no_coordinator
  pause_with-IsHalted (some c) = set_coordinator-IsHalted (some (pause c)) refl

  control_for-IsHalted :
      (g : BatchManifest → BatchManifest) (allowed : Bool) (a : Option BatchManifest)
      → ((m : BatchManifest)
          → is_paused_batch batch_uuid (some m) ≡ true
          → is_paused_batch batch_uuid (some (g m)) ≡ true)
      → is_paused_batch batch_uuid a ≡ true
      → Keeps J (control_for plant pause g allowed a)
  unfolding control_for change_coordinator
  control_for-IsHalted g allowed none still paused = raise-IsHalted (refused no_active_batch)
  control_for-IsHalted g allowed (some m) still paused =
      then-Keeps (λ s h. pause_with-IsHalted s.coordinator s h)
        (λ done.
          then-Keeps (replace_active-IsHalted batch_uuid kept (g m) (still m paused)) (λ done.
            then-Keeps (poll_active-IsHalted batch_uuid kept allowed)
              (λ done. reply_phase-IsHalted batch_uuid kept)))

  must_have_started-IsHalted : (r : StartResult) → Keeps J (must_have_started plant r)
  must_have_started-IsHalted (started settings) = skip-IsHalted
  must_have_started-IsHalted (start_raised text) =
      raise-IsHalted (start_refused (start_raised text))
  must_have_started-IsHalted (cannot_start kind message) =
      raise-IsHalted (start_refused (cannot_start kind message))

  continue_for-IsHalted :
      (a : Option BatchManifest) (mode : ExecutionMode) → Keeps J (continue_for plant a mode)
  unfolding continue_for
  continue_for-IsHalted none mode = raise-IsHalted (refused not_manual)
  continue_for-IsHalted (some m) automatic = raise-IsHalted (refused not_manual)
  continue_for-IsHalted (some m) manual =
      then-Keeps (require-IsHalted (not m.paused) not_resumed) (λ done.
        then-Keeps (poll_active-IsHalted batch_uuid kept false) (λ done.
          then-Keeps (λ s h. require-IsHalted (wants_start s.assessment) not_waiting s h)
            (λ done.
              then-Keeps
                (λ s h. start-IsHalted batch_uuid kept s.coordinator h.coordinator_paused s h)
                (λ r. then-Keeps (must_have_started-IsHalted r) (λ done.
                  then-Keeps (set_phase-IsHalted starting (start_message r))
                    (λ done. return-IsHalted batch_uuid kept (start_reply r)))))))

  finish_change-IsHalted :
      (s : Running E W) (r : Result CommandError (BatchManifest × BatchController E × W))
      → ((m : BatchManifest) (c : BatchController E) (w : W)
          → r ≡ ok (m, c, w)
          → J (record s { service = c; world = w }))
      → J s
      → Post (λ a s'. J s') J (finish_change s r)
  finish_change-IsHalted s (err e) h held = raised held
  finish_change-IsHalted s (ok (m, c, w)) h held = returned (h m c w refl)

  -- A manifest is put aside or back, and is paused.
  keep_changed-IsHalted :
      (changed : BatchManifest) (s : Running E W) {r : BatchManifest × BatchController E × W}
      → changed.paused ≡ true
      → keep_changed plant.library changed s.service s.world ≡ ok r
      → J s
      → J (record s { service = r.1; world = r.2 })
  keep_changed-IsHalted changed s {r} paused e h =
      let (saved, wrote, same) = keep_changed-ok plant.library changed s.service s.world e in
      let p =
        save_control_state-kept plant.library kept.library changed s.world h.untouched wrote in
      let fits = paused_compatible batch_uuid changed paused in
      let held : J
          (record s { service = placed plant.library s.service changed; world = saved.1 }) =
        record {
          coordinator_paused = h.coordinator_paused;
          active_paused = h.active_paused;
          filed = put_key-filed changed s.service.manifests h.filed;
          known_paused = put_key-paused batch_uuid changed s.service.manifests fits h.known_paused;
          untouched = p;
        } in
      subst
        (λ (x : BatchManifest × BatchController E × W). J (record s { service = x.1; world = x.2 }))
        same held

  withdraw-IsHalted : (key : ℕ) (now : Float) → Keeps J (change (withdraw plant.library key now))
  unfolding change
  withdraw-IsHalted key now s h =
      finish_change-IsHalted s (withdraw plant.library key now s.service s.world)
        (λ m c w e.
          let (known, changed) = withdraw-changes plant.library key now s.service s.world e in
          keep_changed-IsHalted (as_withdrawn now known) s refl changed h)
        h

  unwithdraw-IsHalted :
      (key : ℕ) (now : Float) → Keeps J (change (unwithdraw plant.library key now))
  unfolding change
  unwithdraw-IsHalted key now s h =
      finish_change-IsHalted s (unwithdraw plant.library key now s.service s.world)
        (λ m c w e.
          let (known, changed) = unwithdraw-changes plant.library key now s.service s.world e in
          keep_changed-IsHalted (as_restored now known) s refl changed h)
        h

  put_mode-IsHalted : (mode : ExecutionMode) → Keeps J (put_mode mode)
  put_mode-IsHalted mode s h = returned (same-IsHalted h refl refl refl refl)

  execute_at-IsHalted :
      (command : Command) (now : Float)
      → leaves_paused command ≡ true
      → Keeps J (execute_at plant command now)
  unfolding execute_at control set_mode
  execute_at-IsHalted (creates other status mode plan origin submitted_by note) now leaves =
      let m = new_manifest other status mode plan origin submitted_by note now in
      create_manifest-IsHalted batch_uuid kept m (paused_compatible batch_uuid m refl)
  execute_at-IsHalted (gets key) now leaves =
      given-Keeps (find_manifest-IsHalted batch_uuid kept key)
        (λ m fits. return-IsHalted batch_uuid kept (manifest_reply m))
  execute_at-IsHalted (updates key expected_revision plan mode note) now leaves =
      update_manifest-IsHalted batch_uuid kept key expected_revision plan mode note now
  execute_at-IsHalted (activates other) now leaves = cc
  execute_at-IsHalted pauses now leaves = λ s h.
      control_for-IsHalted (as_paused now) false s.service.active_manifest
        (λ m paused. ground (arith, paused)) h.active_paused s h
  execute_at-IsHalted resumes now leaves = cc
  execute_at-IsHalted continues now leaves =
      λ s h. continue_for-IsHalted s.service.active_manifest s.service.execution_mode s h
  execute_at-IsHalted cancels now leaves = λ s h.
      control_for-IsHalted (as_cancelling now) false s.service.active_manifest
        (λ m paused. ground (arith, paused)) h.active_paused s h
  execute_at-IsHalted refreshes now leaves =
      then-Keeps (poll_active-IsHalted batch_uuid kept false)
        (λ done. reply_phase-IsHalted batch_uuid kept)
  execute_at-IsHalted (sets_mode mode) now leaves = then-Keeps (put_mode-IsHalted mode) (λ done.
      then-Keeps (poll_active-IsHalted batch_uuid kept true)
        (λ done. return-IsHalted batch_uuid kept (mode_reply mode)))
  execute_at-IsHalted (withdraws key) now leaves = withdraw-IsHalted key now
  execute_at-IsHalted (unwithdraws key) now leaves = unwithdraw-IsHalted key now
  execute_at-IsHalted (unknown name) now leaves = raise-IsHalted (refused unknown_command)

  pub execute-IsHalted :
      (command : Command) → leaves_paused command ≡ true → Keeps J (execute plant command)
  unfolding execute
  execute-IsHalted command leaves =
      then-Keeps (read_time-IsHalted plant kept) (λ now. execute_at-IsHalted command now leaves)
