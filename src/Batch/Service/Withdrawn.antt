-- ===== src/Batch/Service/Withdrawn.antt =====
-- What a withdrawn manifest is: class BatchControllerSubsystem of
-- src/chamber_ctl/subsystems/batch_controller.py.
use chamber_ctl.Batch.Service.Withdraw.{
  or_failed, may_withdraw, may_unwithdraw, as_withdrawn, as_restored, keep_changed, manifest_of,
  withdraw, unwithdraw, known_manifest,
}
use chamber_ctl.Batch.Service.Restored.{check_manifest-same}
use chamber_ctl.Batch.Service.{BatchController, CommandError}
use chamber_ctl.Batch.Storage.Revisions.{IsControlSaved, save_control_state-IsControlSaved}
use chamber_ctl.Batch.Storage.Resources.{IsLibrary}
use chamber_ctl.Batch.Storage.{Library, save_control_state}
use chamber_ctl.Batch.Manifest.{
  BatchManifest, StorageError, check_manifest, draft, submitted, withdrawn, ManifestStatus,
}
use chamber_ctl.Prelude.{
  ℕ, some, Result, ok, err, ◌>>=◌, ◌>>◌, Float, get_key, put_key, ◌==◌, ◌≡◌, refl, sym, subst, ap,
  true, >>=-ok, get-put_key, arith, ◌⊎◌, codes, Option, false,
}

or_failed-ok {ℓ} :
    {A : Type ℓ} (part : Result StorageError A) (a : A) → or_failed part ≡ ok a → part ≡ ok a
or_failed-ok (ok b) a h = let same : b ≡ a = cc h in ap (λ x. ok x) same
or_failed-ok (err e) a h = cc h

known_manifest-some :
    (o : Option BatchManifest) {m : BatchManifest} → known_manifest o ≡ ok m → o ≡ some m
known_manifest-some o e = ground arith

may_withdraw-status :
    (m : BatchManifest) → may_withdraw m ≡ ok tt → (m.status ≡ draft) ⊎ (m.status ≡ submitted)
may_withdraw-status m e = ground arith

may_unwithdraw-status : (m : BatchManifest) → may_unwithdraw m ≡ ok tt → m.status ≡ withdrawn
may_unwithdraw-status m e = ground arith

pub same_refl : (n : ℕ) → (n == n) ≡ true
same_refl n = ground arith

pub same_eq : (n m : ℕ) → (n == m) ≡ true → n ≡ m
same_eq n m h = ground arith

module _ {E W : Type 0} (library : Library E W) where
  -- The manifest is saved with the revision that it had, and is the one that the service knows.
  abbrev pub IsChanged : BatchManifest → W → BatchManifest × BatchController E × W → Type 0
  IsChanged m w (changed, d, v) =
      (changed ≡ m)
      × IsControlSaved library m w (m, v)
      × (get_key (◌==◌) m.batch_uuid d.manifests ≡ some m)

  -- A command on the manifest that the service knows, which had one of some statuses.
  abbrev pub IsCommanded :
      (ManifestStatus → Type 0)
      → (BatchManifest → BatchManifest)
      → ℕ
      → BatchController E
      → W
      → BatchManifest × BatchController E × W
      → Type 0
  IsCommanded HadStatus change batch_uuid c w r =
      (m : BatchManifest) × (get_key (◌==◌) batch_uuid c.manifests ≡ some m)
      × HadStatus m.status
      × IsChanged (change m) w r

  -- A draft or a submitted manifest is saved withdrawn and paused, and otherwise as it was.
  abbrev pub IsPutAside :
      Float → ℕ → BatchController E → W → BatchManifest × BatchController E × W → Type 0
  IsPutAside now =
      IsCommanded (λ status. (status ≡ draft) ⊎ (status ≡ submitted))
        (λ m. record m { status = withdrawn; paused = true; updated_at = now })

  -- A withdrawn manifest is saved as a draft, paused, with no pending cancellation and with the note of
  -- its return, and otherwise as it was.
  abbrev pub IsPutBack :
      Float → ℕ → BatchController E → W → BatchManifest × BatchController E × W → Type 0
  IsPutBack now =
      IsCommanded (λ status. status ≡ withdrawn)
        (λ m. record m {
          status = draft;
          paused = true;
          cancel_pending = false;
          updated_at = now;
          revision_note = codes "Restored from withdrawn";
        })

  manifest_of-known :
      (batch_uuid : ℕ) (c : BatchController E) {m : BatchManifest}
      → manifest_of library batch_uuid c ≡ ok m
      → get_key (◌==◌) batch_uuid c.manifests ≡ some m
  unfolding manifest_of
  manifest_of-known batch_uuid c e = known_manifest-some (get_key (◌==◌) batch_uuid c.manifests) e

  abbrev pub placed : BatchController E → BatchManifest → BatchController E
  placed c m = record c { manifests = put_key (◌==◌) m.batch_uuid m c.manifests }

  -- What a change that returns has saved.
  pub keep_changed-ok :
      (m : BatchManifest) (c : BatchController E) (w : W)
      {r : BatchManifest × BatchController E × W}
      → keep_changed library m c w ≡ ok r
      → (saved : BatchManifest × W) × (save_control_state library m w ≡ ok saved)
        × ((m, placed c m, saved.1) ≡ r)
  unfolding keep_changed
  keep_changed-ok m c w {r} h =
      let save : BatchManifest
          → BatchManifest × W
          → Result CommandError (BatchManifest × BatchController E × W) =
        λ x saved. ok (x, placed c x, saved.1) in
      let (changed, checked, h1) =
        >>=-ok (or_failed (check_manifest m))
          (λ x. or_failed (save_control_state library x w) >>= save x) h in
      let (saved, written, h2) =
        >>=-ok (or_failed (save_control_state library changed w)) (save changed) h1 in
      let input : m ≡ changed =
        check_manifest-same m changed (or_failed-ok (check_manifest m) changed checked) in
      (
        saved,
        subst (λ x. save_control_state library x w ≡ ok saved) (sym input)
            (or_failed-ok (save_control_state library changed w) saved written),
        subst (λ x. (x, placed c x, saved.1) ≡ r) (sym input) (cc h2),
      )

  -- The change behind each command.
  pub withdraw-changes :
      (batch_uuid : ℕ) (now : Float) (c : BatchController E) (w : W)
      {r : BatchManifest × BatchController E × W}
      → withdraw library batch_uuid now c w ≡ ok r
      → (m : BatchManifest) × (keep_changed library (as_withdrawn now m) c w ≡ ok r)
  unfolding withdraw
  withdraw-changes batch_uuid now c w h =
      let (m, known, h1) =
        >>=-ok (manifest_of library batch_uuid c)
          (λ m. may_withdraw m >> keep_changed library (as_withdrawn now m) c w) h in
      let (done, accepted, h2) =
        >>=-ok (may_withdraw m) (λ done. keep_changed library (as_withdrawn now m) c w) h1 in
      (m, h2)

  pub unwithdraw-changes :
      (batch_uuid : ℕ) (now : Float) (c : BatchController E) (w : W)
      {r : BatchManifest × BatchController E × W}
      → unwithdraw library batch_uuid now c w ≡ ok r
      → (m : BatchManifest) × (keep_changed library (as_restored now m) c w ≡ ok r)
  unfolding unwithdraw
  unwithdraw-changes batch_uuid now c w h =
      let (m, known, h1) =
        >>=-ok (manifest_of library batch_uuid c)
          (λ m. may_unwithdraw m >> keep_changed library (as_restored now m) c w) h in
      let (done, accepted, h2) =
        >>=-ok (may_unwithdraw m) (λ done. keep_changed library (as_restored now m) c w) h1 in
      (m, h2)

  module _ (laws : IsLibrary library) where
    keep_changed-IsChanged :
        (m : BatchManifest) (c : BatchController E) (w : W)
        (r : BatchManifest × BatchController E × W)
        → keep_changed library m c w ≡ ok r
        → IsChanged m w r
    keep_changed-IsChanged m c w r h =
        let (saved, wrote, same) = keep_changed-ok m c w h in
        let kept = save_control_state-IsControlSaved library laws m w saved wrote in
        subst (IsChanged m w) same (
          refl,
          (kept.0, kept.1, kept.2, kept.3, kept.4, refl, kept.6),
          get-put_key (◌==◌) same_refl same_eq m.batch_uuid m c.manifests,
        )

    -- A manifest that is withdrawn was known, as a draft or submitted; it is saved withdrawn and
    -- paused, at the time of the command and otherwise as it was, with the revision that it had, and
    -- is the one that the service then knows.
    pub withdraw-IsCommanded :
        (batch_uuid : ℕ) (now : Float) (c : BatchController E) (w : W)
        (r : BatchManifest × BatchController E × W)
        → withdraw library batch_uuid now c w ≡ ok r
        → IsPutAside now batch_uuid c w r
    unfolding withdraw
    withdraw-IsCommanded batch_uuid now c w r h =
        let (m, known, h1) =
          >>=-ok (manifest_of library batch_uuid c)
            (λ m. may_withdraw m >> keep_changed library (as_withdrawn now m) c w) h in
        let (done, accepted, h2) =
          >>=-ok (may_withdraw m) (λ done. keep_changed library (as_withdrawn now m) c w) h1 in
        (
          m,
          manifest_of-known batch_uuid c known,
          may_withdraw-status m accepted,
          keep_changed-IsChanged (as_withdrawn now m) c w r h2,
        )

    -- A manifest that is put back was known and withdrawn; it is saved as a draft, paused, with no
    -- pending cancellation, at the time of the command and otherwise as it was but for its note, with
    -- the revision that it had, and is the one that the service then knows.
    pub unwithdraw-IsCommanded :
        (batch_uuid : ℕ) (now : Float) (c : BatchController E) (w : W)
        (r : BatchManifest × BatchController E × W)
        → unwithdraw library batch_uuid now c w ≡ ok r
        → IsPutBack now batch_uuid c w r
    unfolding unwithdraw
    unwithdraw-IsCommanded batch_uuid now c w r h =
        let (m, known, h1) =
          >>=-ok (manifest_of library batch_uuid c)
            (λ m. may_unwithdraw m >> keep_changed library (as_restored now m) c w) h in
        let (done, accepted, h2) =
          >>=-ok (may_unwithdraw m) (λ done. keep_changed library (as_restored now m) c w) h1 in
        (
          m,
          manifest_of-known batch_uuid c known,
          may_unwithdraw-status m accepted,
          keep_changed-IsChanged (as_restored now m) c w r h2,
        )
