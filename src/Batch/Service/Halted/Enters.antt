-- ===== src/Batch/Service/Halted/Enters.antt =====
-- How a batch service comes to be halted: by a restart, `_load_manifests`, and by the commands `pause`
use chamber_ctl.Batch.Storage.Listing.{list_manifests}
use chamber_ctl.Batch.Service.Restored.{in_storage-ok, check_manifest-same}
use chamber_ctl.Batch.Service.Halted.Stays.{AllLeave, passes-IsHalted}
use chamber_ctl.Batch.Service.Halted.{
  IsPlantUntouched, is_filed, IsHalted, Running, same_refl, is_paused_batch, put_key-filed, same_eq,
}
use chamber_ctl.Batch.Storage.Untouched.{IsLibraryUntouched, save_control_state-kept}
use chamber_ctl.Batch.Service.Steps.{Plant}
use chamber_ctl.Batch.Service.Loop.{passes, Pass, before_passes}
use chamber_ctl.Batch.Service.{
  restore, resume_active, rest_idle, resume_unless, load_manifests, make_service, error,
  cannot_resume, storage_failed, Library, BatchManifest, BatchController, LoadError, Option,
  by_uuid, with_restored, put_key, check_manifest, is_active_status, paused_at, save_restored,
  save_control_state,
}
use chamber_ctl.Prelude.{
  some, none, true, ok, [], ◌∷◌, ◌≡◌, ◌==◌, refl, arith, List, ℕ, Float, All, >>=-ok, subst, select,
  sym, length, get-put_key, ap,
}

-- and `cancel` of class BatchControllerSubsystem, src/chamber_ctl/subsystems/batch_controller.py.

by_uuid-filed :
    (d : List (ℕ × BatchManifest)) (ms : List BatchManifest)
    → All (λ x. is_filed x ≡ true) d
    → All (λ x. is_filed x ≡ true) (by_uuid d ms)
by_uuid-filed d [] h = h
by_uuid-filed d (m ∷ ms) h =
    by_uuid-filed (put_key (◌==◌) m.batch_uuid m d) ms (put_key-filed m d h)

module _ {E W : Type 0} (library : Library E W) {P : W → Type 0}
    (kept : IsLibraryUntouched library P) where
  -- The batch that is active after a start is halted.
  abbrev pub IsHaltedAs : BatchController E × W → Option BatchManifest → Type 0
  IsHaltedAs r none = Unit {0}
  IsHaltedAs (c, w) (some m) = IsHalted m.batch_uuid P (before_passes c w)

  abbrev pub StartsHalted : BatchController E × W → Type 0
  StartsHalted r = IsHaltedAs r r.0.active_manifest

  with_restored-IsHalted :
      (restored : BatchManifest) (c : BatchController E) (w : W)
      → restored.paused ≡ true
      → All (λ x. is_filed x ≡ true) c.manifests
      → P w
      → StartsHalted (with_restored restored c, w)
  with_restored-IsHalted restored c w paused filed p = record {
    coordinator_paused = refl;
    active_paused = ground (arith, same_refl restored.batch_uuid, paused);
    filed = put_key-filed restored c.manifests filed;
    known_paused =
        subst (λ o. is_paused_batch restored.batch_uuid o ≡ true)
          (sym (get-put_key (◌==◌) same_refl same_eq restored.batch_uuid restored c.manifests))
          (ground (arith, same_refl restored.batch_uuid, paused));
    untouched = p;
  }

  restore-IsHalted :
      (m : BatchManifest) (now : Float) (c : BatchController E) (w : W) {r : BatchController E × W}
      → All (λ x. is_filed x ≡ true) c.manifests
      → P w
      → restore library m now c w ≡ ok r
      → StartsHalted r
  unfolding restore
  restore-IsHalted m now c w {r} filed p h =
      let (restored, checked, h1) =
        >>=-ok (check_manifest (paused_at now m)) (save_restored library c w) h in
      let (saved, written, h2) =
        >>=-ok (save_control_state library restored w)
          (λ saved. ok (with_restored restored c, saved.1)) h1 in
      let same : (with_restored restored c, saved.1) ≡ r = cc h2 in
      let input = check_manifest-same (paused_at now m) restored checked in
      subst StartsHalted same (
        with_restored-IsHalted restored c saved.1 (ap (λ x. x.paused) (sym input)) filed
          (save_control_state-kept library kept restored w p written))

  resume_active-IsHalted :
      (manifests actives : List BatchManifest) (now : Float) (c : BatchController E) (w : W)
      {r : BatchController E × W}
      → c.active_manifest ≡ none
      → All (λ x. is_filed x ≡ true) c.manifests
      → P w
      → resume_active library manifests actives now c w ≡ ok r
      → StartsHalted r
  unfolding resume_active rest_idle
  resume_active-IsHalted manifests [] now c w {r} inactive filed p h =
      let idle_now = rest_idle library manifests c in
      let same : (idle_now, w) ≡ r = cc h in
      subst StartsHalted same (subst (IsHaltedAs (idle_now, w)) (sym inactive) tt)
  resume_active-IsHalted manifests (m ∷ []) now c w inactive filed p h =
      restore-IsHalted m now c w filed p (in_storage-ok (restore library m now c w) h)
  resume_active-IsHalted manifests (m ∷ other ∷ rest) now c w inactive filed p h = cc h

  resume_unless-IsHalted :
      (unreadable : List (LoadError E)) (manifests : List BatchManifest) (now : Float)
      (c : BatchController E) (w : W) {r : BatchController E × W}
      → c.active_manifest ≡ none
      → All (λ x. is_filed x ≡ true) c.manifests
      → P w
      → resume_unless library unreadable manifests now c w ≡ ok r
      → StartsHalted r
  unfolding resume_unless
  resume_unless-IsHalted [] manifests now c w inactive filed p h =
      resume_active-IsHalted manifests (select (λ m. is_active_status m.status) manifests) now _ w
        inactive filed p h
  resume_unless-IsHalted (e ∷ unreadable) manifests now c w {r} inactive filed p h =
      let stopped = record c {
        phase = error;
        last_error = some (storage_failed e.error);
        message = cannot_resume (length (e ∷ unreadable));
      } in
      let same : (stopped, w) ≡ r = cc h in
      subst StartsHalted same (subst (IsHaltedAs (stopped, w)) (sym inactive) tt)

  pub load_manifests-IsHalted :
      (now : Float) (c : BatchController E) (w : W) {r : BatchController E × W}
      → c.active_manifest ≡ none
      → P w
      → load_manifests library now c w ≡ ok r
      → StartsHalted r
  unfolding load_manifests
  load_manifests-IsHalted now c w inactive p h =
      resume_unless-IsHalted _ _ now _ w inactive (by_uuid-filed [] (list_manifests library w).0 tt)
        p h

-- If neither what the repository writes, nor what a poll reads and repairs, nor the lease makes
-- `P` false, and `P` holds when the service starts and finds one active batch, then after any
-- passes of its loop whose commands neither resume nor activate a batch, `P` still holds, and the
-- batch is paused or no longer active. Nothing is asked of a start of an exposure.
pub restart-Untouched :
    {E W : Type 0} (plant : Plant E W) {P : W → Type 0} (kept : IsPlantUntouched plant P)
    (now : Float) (w : W) {c : BatchController E} {v : W} {m : BatchManifest} (ps : List Pass)
    {t : Running E W}
    → load_manifests plant.library now make_service w ≡ ok (c, v)
    → c.active_manifest ≡ some m
    → P w
    → AllLeave ps
    → passes plant ps (before_passes c v) ≡ some t
    → P t.world × (is_paused_batch m.batch_uuid t.service.active_manifest ≡ true)
unfolding make_service
restart-Untouched plant kept now w {c} {v} {m} ps loaded found p leave e =
    let started =
      load_manifests-IsHalted plant.library kept.library now make_service w refl p loaded in
    let halted : IsHalted m.batch_uuid _ (before_passes c v) =
      subst (IsHaltedAs plant.library kept.library (c, v)) found started in
    let h = passes-IsHalted m.batch_uuid kept ps (before_passes c v) leave halted e in
    (h.untouched, h.active_paused)
