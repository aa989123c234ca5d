-- ===== src/Batch/Service/Served/Commands.antt =====
-- That every command and every pass of the loop of class BatchControllerSubsystem,
use chamber_ctl.Batch.Service.Withdrawn.{withdraw-changes, unwithdraw-changes, keep_changed-ok}
use chamber_ctl.Batch.Plan.{BatchPlan}
use chamber_ctl.Batch.Service.Withdraw.{
  withdraw, unwithdraw, keep_changed, as_withdrawn, as_restored,
}
use chamber_ctl.Batch.Coordinator.Poll.{started, start_raised, cannot_start, StartResult}
use chamber_ctl.Batch.Coordinator.{update_plan, pause, resume, BatchCoordinator}
use chamber_ctl.Batch.Service.{
  not_new_status, edit_while_running, refused, plan_locked, no_active_batch, not_manual,
  not_resumed, not_waiting, archived_edit, start_refused, starting, start_message, no_such_manifest,
  unreadable_active, another_active, not_activatable, empty_plan, unknown_command, Option, ℕ, Text,
  Bool, BatchController, Result, CommandError,
}
use chamber_ctl.Batch.Storage.{create, save_revision}
use chamber_ctl.Batch.Manifest.{
  automatic, manual, active, BatchManifest, ExecutionMode, ManifestStatus, check_manifest,
}
use chamber_ctl.Batch.Service.Commands.{
  resumes, activates, creates, manifest_reply, start_reply, gets, updates, pauses, cancels,
  continues, refreshes, sets_mode, withdraws, unwithdraws, unknown, mode_reply, Command,
  is_new_status, may_activate, as_paused, is_archived, has_entries, wants_start, as_resumed,
  as_cancelling, as_active, has_unreadable_active, as_updated,
}
use chamber_ctl.Batch.Service.Execute.{
  find_manifest, create_manifest, allow_edit, replan, follow_update, update_manifest, control_for,
  change_coordinator, continue_for, change, execute_at, execute, control, set_mode,
  activate_manifest, found, planned_again, show_active, put_mode, reply_phase, must_have_started,
  finish_change,
}
use chamber_ctl.Batch.Service.Served.{
  ran, Runs, Plant, on_coordinator-Runs, skip-Runs, set_lease, raise-Runs, set_coordinator-Runs,
  if-Runs, then-Runs, Running, return-Runs, set_active-Runs, require-Runs, call-Runs, AllFiled,
  ask-Runs, Ran, checked-Runs, store-Runs, put_key-filed, remember-Runs, set_phase-Runs,
  reading-require-Runs,
}
use chamber_ctl.Batch.Service.Served.Polls.{
  HasFuel, replace_active-Runs, poll_active-Runs, ensure_runtime-Runs, save_control-Runs,
  start_exposure-Runs,
}
use chamber_ctl.Prelude.{
  some, none, true, false, ok, err, ◌≡◌, ◌==◌, refl, ◌&&◌, get_key, Float, subst, not, is_some,
}

-- src/chamber_ctl/subsystems/batch_controller.py, comes to its end.

module _ {E W : Type 0} where
  found-Runs : (o : Option BatchManifest) → Runs {E = E} {W = W} (found o)
  found-Runs none = raise-Runs (refused no_such_manifest)
  found-Runs (some m) = return-Runs m

  find_manifest-Runs : (key : ℕ) → Runs {E = E} {W = W} (find_manifest key)
  unfolding find_manifest
  find_manifest-Runs key s h = found-Runs (get_key (◌==◌) key s.service.manifests) s h

  change_coordinator-Runs :
      (f : BatchCoordinator → BatchCoordinator) → Runs {E = E} {W = W} (change_coordinator f)
  unfolding change_coordinator
  change_coordinator-Runs f s h =
      on_coordinator-Runs _ s.coordinator (λ c. set_coordinator-Runs (some (f c))) s h

  planned_again-Runs : (o : Option BatchCoordinator) → Runs {E = E} {W = W} (planned_again o)
  planned_again-Runs none = raise-Runs (refused plan_locked)
  planned_again-Runs (some c) = set_coordinator-Runs (some c)

  replan-Runs : (plan : BatchPlan) → Runs {E = E} {W = W} (replan plan)
  unfolding replan
  replan-Runs plan s h =
      on_coordinator-Runs _ s.coordinator (λ c. planned_again-Runs (update_plan plan c)) s h

  follow_update-Runs :
      (m : BatchManifest) (a : Option BatchManifest) → Runs {E = E} {W = W} (follow_update m a)
  unfolding follow_update
  follow_update-Runs m none = skip-Runs
  follow_update-Runs m (some a) =
      if-Runs (a.batch_uuid == m.batch_uuid)
        (then-Runs (set_active-Runs m) (λ done. replan-Runs m.plan)) skip-Runs

  show_active-Runs : (m : BatchManifest) → Runs {E = E} {W = W} (show_active m)
  show_active-Runs m s h = ran h

  put_mode-Runs : (mode : ExecutionMode) → Runs {E = E} {W = W} (put_mode mode)
  put_mode-Runs mode s h = ran h

  take_lease-Runs : Runs {E = E} {W = W} (set_lease true)
  take_lease-Runs s h = ran h

  reply_phase-Runs : Runs {E = E} {W = W} reply_phase
  reply_phase-Runs s h = ran h

module _ {E W : Type 0} {plant : Plant E W} (fueled : HasFuel plant) where
  create_manifest-Runs : (m : BatchManifest) → Runs (create_manifest plant m)
  unfolding create_manifest
  create_manifest-Runs m = then-Runs (require-Runs (is_new_status m.status) not_new_status) (λ done.
      then-Runs (checked-Runs (check_manifest m)) (λ m'.
        then-Runs (store-Runs (create plant.library m'))
          (λ stored. then-Runs (remember-Runs m') (λ done. return-Runs (manifest_reply m')))))

  allow_edit-Runs : (status : ManifestStatus) → Runs (allow_edit plant status)
  unfolding allow_edit
  allow_edit-Runs active =
      then-Runs (call-Runs plant.sources.snapshot)
        (λ state. require-Runs (state.available && state.idle) edit_while_running)
  allow_edit-Runs status = skip-Runs

  update_manifest-Runs :
      (key expected_revision : ℕ) (plan : BatchPlan) (mode : Option ExecutionMode) (note : Text)
      (now : Float)
      → Runs (update_manifest plant key expected_revision plan mode note now)
  unfolding update_manifest
  update_manifest-Runs key expected_revision plan mode note now =
      then-Runs (find_manifest-Runs key) (λ current.
        then-Runs (require-Runs (not (is_archived current.status)) archived_edit) (λ done.
          then-Runs (allow_edit-Runs current.status) (λ done.
            then-Runs
              (checked-Runs
                (check_manifest (as_updated expected_revision plan mode note now current)))
              (λ m.
                then-Runs (store-Runs (save_revision plant.library m expected_revision)) (λ stored.
                  then-Runs (remember-Runs m) (λ done.
                    then-Runs (λ s h. follow_update-Runs m s.service.active_manifest s h)
                      (λ done. return-Runs (manifest_reply m))))))))

  activate_manifest-Runs : (key : ℕ) (now : Float) → Runs (activate_manifest plant key now)
  unfolding activate_manifest
  activate_manifest-Runs key now =
      then-Runs
        (reading-require-Runs (λ s. not (has_unreadable_active s.service)) unreadable_active)
        (λ done.
          then-Runs
            (reading-require-Runs (λ s. not (is_some s.service.active_manifest)) another_active)
            (λ done. then-Runs (find_manifest-Runs key) (λ known.
              then-Runs (require-Runs (may_activate known.status) not_activatable) (λ done.
                then-Runs (require-Runs (has_entries known.plan) empty_plan) (λ done.
                  then-Runs (call-Runs plant.acquire_automation) (λ done.
                    then-Runs take_lease-Runs (λ done.
                      then-Runs (checked-Runs (check_manifest (as_active now known))) (λ m.
                        then-Runs (save_control-Runs fueled m) (λ done.
                          then-Runs (remember-Runs m) (λ done.
                            then-Runs (show_active-Runs m) (λ done.
                              then-Runs (ensure_runtime-Runs fueled) (λ done.
                                then-Runs (poll_active-Runs fueled true)
                                  (λ done. return-Runs (manifest_reply m))))))))))))))

  control_for-Runs :
      (f : BatchCoordinator → BatchCoordinator) (g : BatchManifest → BatchManifest) (allowed : Bool)
      (a : Option BatchManifest)
      → Runs (control_for plant f g allowed a)
  unfolding control_for
  control_for-Runs f g allowed none = raise-Runs (refused no_active_batch)
  control_for-Runs f g allowed (some m) = then-Runs (change_coordinator-Runs f) (λ done.
      then-Runs (replace_active-Runs fueled (g m))
        (λ done. then-Runs (poll_active-Runs fueled allowed) (λ done. reply_phase-Runs)))

  control-Runs :
      (f : BatchCoordinator → BatchCoordinator) (g : BatchManifest → BatchManifest) (allowed : Bool)
      → Runs (control plant f g allowed)
  unfolding control
  control-Runs f g allowed s h = control_for-Runs f g allowed s.service.active_manifest s h

  must_have_started-Runs : (r : StartResult) → Runs (must_have_started plant r)
  must_have_started-Runs (started settings) = skip-Runs
  must_have_started-Runs (start_raised text) = raise-Runs (start_refused (start_raised text))
  must_have_started-Runs (cannot_start kind message) =
      raise-Runs (start_refused (cannot_start kind message))

  continue_for-Runs :
      (a : Option BatchManifest) (mode : ExecutionMode) → Runs (continue_for plant a mode)
  unfolding continue_for
  continue_for-Runs none mode = raise-Runs (refused not_manual)
  continue_for-Runs (some m) automatic = raise-Runs (refused not_manual)
  continue_for-Runs (some m) manual = then-Runs (require-Runs (not m.paused) not_resumed) (λ done.
      then-Runs (poll_active-Runs fueled false) (λ done.
        then-Runs (λ s h. require-Runs (wants_start s.assessment) not_waiting s h)
          (λ done.
            then-Runs (λ s h. on_coordinator-Runs _ s.coordinator (start_exposure-Runs fueled) s h)
              (λ r. then-Runs (must_have_started-Runs r) (λ done.
                then-Runs (set_phase-Runs starting (start_message r))
                  (λ done. return-Runs (start_reply r)))))))

  finish_change-Ran :
      (s : Running E W) (r : Result CommandError (BatchManifest × BatchController E × W))
      → ((m : BatchManifest) (c : BatchController E) (w : W) → r ≡ ok (m, c, w) → AllFiled c)
      → AllFiled s.service
      → Ran (finish_change s r)
  finish_change-Ran s (err e) kept h = ran h
  finish_change-Ran s (ok (m, c, w)) kept h = ran (kept m c w refl)

  keep_changed-filed :
      (m : BatchManifest) (c : BatchController E) (w : W)
      {r : BatchManifest × BatchController E × W}
      → AllFiled c
      → keep_changed plant.library m c w ≡ ok r
      → AllFiled r.1
  keep_changed-filed m c w {r} h e =
      let (saved, wrote, same) = keep_changed-ok plant.library m c w e in
      subst (λ (x : BatchManifest × BatchController E × W). AllFiled x.1) same
        (put_key-filed m c.manifests h)

  withdraw-Runs : (key : ℕ) (now : Float) → Runs (change (withdraw plant.library key now))
  unfolding change
  withdraw-Runs key now s h =
      finish_change-Ran s (withdraw plant.library key now s.service s.world)
        (λ m c w e.
          let (known, changed) = withdraw-changes plant.library key now s.service s.world e in
          keep_changed-filed (as_withdrawn now known) s.service s.world h changed)
        h

  unwithdraw-Runs : (key : ℕ) (now : Float) → Runs (change (unwithdraw plant.library key now))
  unfolding change
  unwithdraw-Runs key now s h =
      finish_change-Ran s (unwithdraw plant.library key now s.service s.world)
        (λ m c w e.
          let (known, changed) = unwithdraw-changes plant.library key now s.service s.world e in
          keep_changed-filed (as_restored now known) s.service s.world h changed)
        h

  execute_at-Runs : (command : Command) (now : Float) → Runs (execute_at plant command now)
  unfolding execute_at set_mode
  execute_at-Runs (creates other status mode plan origin submitted_by note) now =
      create_manifest-Runs _
  execute_at-Runs (gets key) now =
      then-Runs (find_manifest-Runs key) (λ m. return-Runs (manifest_reply m))
  execute_at-Runs (updates key expected_revision plan mode note) now =
      update_manifest-Runs key expected_revision plan mode note now
  execute_at-Runs (activates key) now = activate_manifest-Runs key now
  execute_at-Runs pauses now = control-Runs pause (as_paused now) false
  execute_at-Runs resumes now = control-Runs resume (as_resumed now) true
  execute_at-Runs continues now =
      λ s h. continue_for-Runs s.service.active_manifest s.service.execution_mode s h
  execute_at-Runs cancels now = control-Runs pause (as_cancelling now) false
  execute_at-Runs refreshes now =
      then-Runs (poll_active-Runs fueled false) (λ done. reply_phase-Runs)
  execute_at-Runs (sets_mode mode) now =
      then-Runs (put_mode-Runs mode)
        (λ done. then-Runs (poll_active-Runs fueled true) (λ done. return-Runs (mode_reply mode)))
  execute_at-Runs (withdraws key) now = withdraw-Runs key now
  execute_at-Runs (unwithdraws key) now = unwithdraw-Runs key now
  execute_at-Runs (unknown name) now = raise-Runs (refused unknown_command)

  -- Every command comes to its end, and the manifests stay under their identifiers.
  pub execute-Runs : (command : Command) → Runs (execute plant command)
  unfolding execute
  execute-Runs command =
      then-Runs (ask-Runs plant.sources.wall_clock) (λ now. execute_at-Runs command now)
