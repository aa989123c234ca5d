-- ===== src/Batch/Service/Restored.antt =====
-- What a restart of the batch service finds: class BatchControllerSubsystem of
-- src/chamber_ctl/subsystems/batch_controller.py.
use chamber_ctl.Batch.Service.{
  BatchController, restart_paused, restore, rest_idle, resume_active, resume_unless, load_manifests,
  is_active_status, in_storage, error, cannot_resume, paused_at, with_restored, save_restored,
  storage_failed,
}
use chamber_ctl.Batch.Storage.Revisions.{
  guards-ok, IsControlSaved, save_control_state-IsControlSaved,
}
use chamber_ctl.Batch.Storage.Resources.{IsLibrary}
use chamber_ctl.Batch.Storage.Listing.{LoadError}
use chamber_ctl.Batch.Storage.{Library, save_control_state}
use chamber_ctl.Batch.Manifest.{
  BatchManifest, StorageError, check_manifest, manual, bad_revision, bad_timestamps, time_reversed,
  empty_origin,
}
use chamber_ctl.Prelude.{
  List, [], ◌∷◌, Option, none, some, Bool, true, Result, ok, err, ◌≡◌, refl, sym, subst, Float,
  select, All, >>=-ok, leb, is_finite, flt, not, ◌&&◌, text_eq, strip, Bool-cases, inl, inr, ap,
  length,
}

pub check_manifest-same : (m r : BatchManifest) → check_manifest m ≡ ok r → m ≡ r
unfolding check_manifest
check_manifest-same m r h =
    let (a, h1) = guards-ok (leb 1 m.revision) bad_revision _ h in
    let (b, h2) =
      guards-ok (is_finite m.created_at && is_finite m.updated_at) bad_timestamps _ h1 in
    let (c, h3) = guards-ok (not (flt m.updated_at m.created_at)) time_reversed _ h2 in
    let (d, h4) = guards-ok (not (text_eq (strip m.origin) [])) empty_origin (ok m) h3 in cc h4

select-holds {ℓ} : {A : Type ℓ} (p : A → Bool) (l : List A) → All (λ a. p a ≡ true) (select p l)
select-holds p [] = tt
select-holds p (a ∷ l) = elim (Bool-cases (p a)) [
  | inl chosen ↦ rw chosen (chosen, select-holds p l)
  | inr skipped ↦ rw skipped (select-holds p l)
]

pub in_storage-ok {ℓ} :
    {A : Type ℓ} (part : Result StorageError A) {a : A} → in_storage part ≡ ok a → part ≡ ok a
in_storage-ok (ok b) h = let same : b ≡ _ = cc h in ap (λ x. ok x) same
in_storage-ok (err e) h = cc h

module _ {E W : Type 0} (library : Library E W) where
  -- What is active after a start: nothing, and nothing is written; or a manifest that was active, now
  -- paused, and saved so.
  abbrev pub IsRestored : W → BatchController E → W → Option BatchManifest → Type 0
  IsRestored w c v none = v ≡ w
  IsRestored w c v (some m) =
      (m.paused ≡ true)
      × (is_active_status m.status ≡ true)
      × (c.phase ≡ restart_paused)
      × IsControlSaved library m w (m, v)

  abbrev pub IsManual : W → BatchController E × W → Type 0
  IsManual w (c, v) = (c.execution_mode ≡ manual) × IsRestored w c v c.active_manifest

  module _ (laws : IsLibrary library) where
    restore-IsManual :
        (m : BatchManifest) (now : Float) (c : BatchController E) (w : W)
        (r : BatchController E × W)
        → c.execution_mode ≡ manual
        → is_active_status m.status ≡ true
        → restore library m now c w ≡ ok r
        → IsManual w r
    unfolding restore
    restore-IsManual m now c w r by_hand was_active h =
        let (restored, checked, h1) =
          >>=-ok (check_manifest (paused_at now m)) (save_restored library c w) h in
        let (saved, written, h2) =
          >>=-ok (save_control_state library restored w)
            (λ saved. ok (with_restored restored c, saved.1)) h1 in
        let same : (with_restored restored c, saved.1) ≡ r = cc h2 in
        let input : paused_at now m ≡ restored =
          check_manifest-same (paused_at now m) restored checked in
        let kept = save_control_state-IsControlSaved library laws restored w saved written in
        subst (IsManual w) same (
          by_hand,
          (
            subst (λ x. x.paused ≡ true) input refl,
            subst (λ x. is_active_status x.status ≡ true) input was_active,
            refl,
            (kept.0, kept.1, kept.2, kept.3, kept.4, refl, kept.6),
          ),
        )

    resume_active-IsManual :
        (manifests actives : List BatchManifest) (now : Float) (c : BatchController E) (w : W)
        (r : BatchController E × W)
        → c.execution_mode ≡ manual
        → c.active_manifest ≡ none
        → All (λ m. is_active_status m.status ≡ true) actives
        → resume_active library manifests actives now c w ≡ ok r
        → IsManual w r
    unfolding resume_active rest_idle
    resume_active-IsManual manifests [] now c w r by_hand inactive holds h =
        let same : (rest_idle library manifests c, w) ≡ r = cc h in
        let idle_now = rest_idle library manifests c in
        subst (IsManual w) same
          (by_hand, subst (λ a. IsRestored w idle_now w a) (sym inactive) refl)
    resume_active-IsManual manifests (m ∷ []) now c w r by_hand inactive holds h =
        restore-IsManual m now c w r by_hand (holds.0) (in_storage-ok (restore library m now c w) h)
    resume_active-IsManual manifests (m ∷ other ∷ rest) now c w r by_hand inactive holds h = cc h

    resume_unless-IsManual :
        (unreadable : List (LoadError E)) (manifests : List BatchManifest) (now : Float)
        (c : BatchController E) (w : W) (r : BatchController E × W)
        → c.execution_mode ≡ manual
        → c.active_manifest ≡ none
        → resume_unless library unreadable manifests now c w ≡ ok r
        → IsManual w r
    unfolding resume_unless
    resume_unless-IsManual [] manifests now c w r by_hand inactive h =
        resume_active-IsManual manifests (select (λ m. is_active_status m.status) manifests) now _ w
          r by_hand inactive (select-holds (λ m. is_active_status m.status) manifests) h
    resume_unless-IsManual (e ∷ unreadable) manifests now c w r by_hand inactive h =
        let stopped = record c {
          phase = error;
          last_error = some (storage_failed e.error);
          message = cannot_resume (length (e ∷ unreadable));
        } in
        let same : (stopped, w) ≡ r = cc h in
        subst (IsManual w) same (by_hand, subst (λ a. IsRestored w stopped w a) (sym inactive) refl)

    -- A service that starts with no active batch is in manual mode; nothing is then active, and
    -- nothing is written, or the batch that was active is restored paused and is saved so.
    pub load_manifests-IsManual :
        (now : Float) (c : BatchController E) (w : W) (r : BatchController E × W)
        → c.active_manifest ≡ none
        → load_manifests library now c w ≡ ok r
        → IsManual w r
    unfolding load_manifests
    load_manifests-IsManual now c w r inactive h =
        resume_unless-IsManual _ _ now _ w r refl inactive h
