-- ===== src/Batch/Service/Halted/Edits.antt =====
-- The commands of a halted batch service that leave it halted: `_execute_command` of class
use chamber_ctl.Batch.Storage.Untouched.{create-kept, save_revision-kept}
use chamber_ctl.Batch.Service.Halted.Steps.{
  require-IsHalted, call-IsHalted, raise-IsHalted, skip-IsHalted, set_coordinator-IsHalted,
  set_active-IsHalted, store-IsHalted, with_paused, remember-IsHalted,
}
use chamber_ctl.Batch.Service.Proc.{return}
use chamber_ctl.Batch.Service.Halted.{
  IsPlantUntouched, is_compatible, Running, IsHalted, is_paused_by_hand, is_paused_batch, is_filed,
  same_eq, get_key-filed,
}
use chamber_ctl.Batch.Service.Steps.{Plant, on_coordinator}
use chamber_ctl.Batch.Plan.{BatchPlan}
use chamber_ctl.Batch.Coordinator.{update_plan, BatchCoordinator}
use chamber_ctl.Batch.Service.{
  no_coordinator, not_new_status, edit_while_running, refused, plan_locked, archived_edit, List,
  Option,
}
use chamber_ctl.Batch.Storage.{create, save_revision}
use chamber_ctl.Batch.Manifest.{active, BatchManifest, ManifestStatus, ExecutionMode}
use chamber_ctl.Batch.Service.Commands.{
  resumes, activates, manifest_reply, Command, Reply, is_new_status, is_archived, as_updated,
}
use chamber_ctl.Batch.Service.Execute.{
  find_manifest, create_manifest, allow_edit, replan, follow_update, update_manifest, reply_phase,
  planned_again, found,
}
use chamber_ctl.Batch.Service.Rules.{
  returned, raised, when-Keeps, Gives, Keeps, then-Keeps, given-Keeps, checked-Gives,
}
use chamber_ctl.Prelude.{
  some, none, true, false, ◌≡◌, arith, refl, inl, inr, ◌==◌, ◌&&◌, ◌||◌, ℕ, Bool, not, subst,
  get_key, sym, All, Text, Float, Bool-cases,
}

-- BatchControllerSubsystem, src/chamber_ctl/subsystems/batch_controller.py.

-- The command neither resumes nor activates.
abbrev pub leaves_paused : Command → Bool
leaves_paused resumes = false
leaves_paused (activates other) = false
leaves_paused command = true

update_plan-paused :
    (plan : BatchPlan) (c : BatchCoordinator) {d : BatchCoordinator}
    → c.manual_pause ≡ true
    → update_plan plan c ≡ some d
    → d.manual_pause ≡ true
unfolding update_plan
update_plan-paused plan c h e = ground arith

apart_compatible :
    (batch_uuid other : ℕ) (m : BatchManifest)
    → not (other == batch_uuid) ≡ true
    → m.batch_uuid ≡ other
    → is_compatible batch_uuid m ≡ true
apart_compatible batch_uuid other m h same =
    subst (λ k. not (k == batch_uuid) || m.paused ≡ true) (sym same) (ground (arith, h))

module _ {E W : Type 0} (batch_uuid : ℕ) {P : W → Type 0} {plant : Plant E W}
    (kept : IsPlantUntouched plant P) where
  abbrev J : Running E W → Type 0
  J = IsHalted batch_uuid P

  found-IsHalted :
      (key : ℕ) (d : List (ℕ × BatchManifest)) (o : Option BatchManifest)
      → get_key (◌==◌) key d ≡ o
      → All (λ x. is_filed x ≡ true) d
      → is_paused_batch batch_uuid (get_key (◌==◌) batch_uuid d) ≡ true
      → Gives J (λ m. is_compatible batch_uuid m ≡ true) (found o)
  found-IsHalted key d none e filed paused s h = raised h
  found-IsHalted key d (some m) e filed paused s h =
      let same = get_key-filed key d filed e in
      elim (Bool-cases (key == batch_uuid)) [
        | inl here ↦
            let there : get_key (◌==◌) batch_uuid d ≡ some m =
              subst (λ k. get_key (◌==◌) k d ≡ some m) (same_eq key batch_uuid here) e in
            returned (with_paused batch_uuid m (rw there at paused), h)
        | inr apart ↦ returned (apart_compatible batch_uuid key m (ground (arith, apart)) same, h)
      ]

  pub find_manifest-IsHalted :
      (key : ℕ) → Gives J (λ m. is_compatible batch_uuid m ≡ true) (find_manifest key)
  unfolding find_manifest
  find_manifest-IsHalted key s h =
      found-IsHalted key s.service.manifests (get_key (◌==◌) key s.service.manifests) refl h.filed
        h.known_paused s h

  pub reply_phase-IsHalted : Keeps J reply_phase
  reply_phase-IsHalted s h = returned h

  pub return-IsHalted : (r : Reply) → Keeps J (return r)
  return-IsHalted r s h = returned h

  pub create_manifest-IsHalted :
      (m : BatchManifest) → is_compatible batch_uuid m ≡ true → Keeps J (create_manifest plant m)
  unfolding create_manifest
  create_manifest-IsHalted m fits =
      then-Keeps (require-IsHalted (is_new_status m.status) not_new_status) (λ done.
        given-Keeps (checked-Gives (λ x. is_compatible batch_uuid x ≡ true) m fits) (λ m' fits'.
          then-Keeps
            (store-IsHalted (create plant.library m')
              (λ w r p e. create-kept plant.library kept.library m' w p e))
            (λ stored.
              then-Keeps (remember-IsHalted m' fits')
                (λ done. return-IsHalted (manifest_reply m')))))

  allow_edit-IsHalted : (status : ManifestStatus) → Keeps J (allow_edit plant status)
  unfolding allow_edit
  allow_edit-IsHalted active =
      then-Keeps (call-IsHalted plant.sources.snapshot kept.sources.shows)
        (λ state. require-IsHalted (state.available && state.idle) edit_while_running)
  allow_edit-IsHalted status = skip-IsHalted

  planned_again-IsHalted :
      (o : Option BatchCoordinator)
      → ((d : BatchCoordinator) → o ≡ some d → d.manual_pause ≡ true)
      → Keeps J (planned_again o)
  planned_again-IsHalted none h = raise-IsHalted (refused plan_locked)
  planned_again-IsHalted (some c) h = set_coordinator-IsHalted (some c) (h c refl)

  replan_with-IsHalted :
      (plan : BatchPlan) (c : Option BatchCoordinator)
      → is_paused_by_hand c ≡ true
      → Keeps J (on_coordinator (λ c. planned_again (update_plan plan c)) c)
  replan_with-IsHalted plan none paused = raise-IsHalted no_coordinator
  replan_with-IsHalted plan (some c) paused =
      planned_again-IsHalted (update_plan plan c) (λ d e. update_plan-paused plan c paused e)

  replan-IsHalted : (plan : BatchPlan) → Keeps J (replan plan)
  unfolding replan
  replan-IsHalted plan s h = replan_with-IsHalted plan s.coordinator h.coordinator_paused s h

  follow_update-IsHalted :
      (m : BatchManifest) (a : Option BatchManifest)
      → is_compatible batch_uuid m ≡ true
      → is_paused_batch batch_uuid a ≡ true
      → Keeps J (follow_update m a)
  unfolding follow_update
  follow_update-IsHalted m none fits paused = skip-IsHalted
  follow_update-IsHalted m (some a) fits paused =
      when-Keeps (a.batch_uuid == m.batch_uuid)
        (λ same.
          let key = same_eq a.batch_uuid m.batch_uuid same in
          then-Keeps (set_active-IsHalted m (ground (arith, key, fits, paused)))
            (λ done. replan-IsHalted m.plan))
        skip-IsHalted

  pub update_manifest-IsHalted :
      (key expected_revision : ℕ) (plan : BatchPlan) (mode : Option ExecutionMode) (note : Text)
      (now : Float)
      → Keeps J (update_manifest plant key expected_revision plan mode note now)
  unfolding update_manifest
  update_manifest-IsHalted key expected_revision plan mode note now =
      given-Keeps (find_manifest-IsHalted key) (λ current fits.
        then-Keeps (require-IsHalted (not (is_archived current.status)) archived_edit) (λ done.
          then-Keeps (allow_edit-IsHalted current.status) (λ done.
            given-Keeps
              (checked-Gives (λ x. is_compatible batch_uuid x ≡ true)
                (as_updated expected_revision plan mode note now current) fits)
              (λ m fits'.
                then-Keeps
                  (store-IsHalted (save_revision plant.library m expected_revision) (λ w r p e.
                    save_revision-kept plant.library kept.library m expected_revision w p e))
                  (λ stored. then-Keeps (remember-IsHalted m fits') (λ done.
                    then-Keeps
                      (λ s h.
                        follow_update-IsHalted m s.service.active_manifest fits' h.active_paused s
                          h)
                      (λ done. return-IsHalted (manifest_reply m))))))))
