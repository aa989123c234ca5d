-- ===== src/Batch/Storage/Revisions.antt =====
-- What a saved revision leaves in the repository: class BatchManifestRepository of
-- src/chamber_ctl/subsystems/batch_storage.py.
use chamber_ctl.Batch.Storage.Resources.{
  IsLibrary, new-current, new-kept, update_tags-read, new-revision,
}
use chamber_ctl.Batch.Storage.{
  Library, save_revision, save_control_state, find_existing, read_manifest, check_revision,
  write_new_revision, revision_resource, manifest_resource, revision_type, has_resource,
  write_current, manifest_type, revision_checks, control_checks, check_control, write_control,
}
use chamber_ctl.Batch.Manifest.{
  BatchManifest, StorageError, revision_conflict, revision_not_next, revision_exists,
  control_changes_revision,
}
use chamber_ctl.Prelude.{
  ℕ, Text, Result, ok, ◌≡◌, ◌≢◌, refl, subst, ap, ◌∙◌, true, false, ◌==◌, ◌+◌, guard, >>=-ok, arith,
  ◌>>◌, not, Bool,
}

-- What a guarded computation that returns has passed.
pub guards-ok {ℓ} :
    {A : Type ℓ} (condition : Bool) (e : StorageError) (rest : Result StorageError A) {result : A}
    → (guard condition e >> rest) ≡ ok result
    → (condition ≡ true) × (rest ≡ ok result)
guards-ok true e rest h = (refl, h)
guards-ok false e rest h = cc h

module _ {E W : Type 0} (library : Library E W) where
  -- The checks that a saved revision has passed.
  pub check_revision-ok :
      (e : E) (m : BatchManifest) (expected : ℕ) (w : W)
      → check_revision library e m expected w ≡ ok tt
      → (current : BatchManifest) × (read_manifest library e w ≡ ok current)
        × (current.revision ≡ expected)
        × (m.revision ≡ expected + 1)
        × (has_resource (revision_resource m.revision) (library.list_resources e w) ≡ false)
  unfolding check_revision
  check_revision-ok e m expected w h =
      let (current, read, checks) =
        >>=-ok (read_manifest library e w) (revision_checks library e m expected w) h in
      let fresh = not (has_resource (revision_resource m.revision) (library.list_resources e w)) in
      let last : Result StorageError (Unit {0}) = guard fresh revision_exists >> ok tt in
      let next = m.revision == expected + 1 in
      let (same, later) =
        guards-ok (current.revision == expected) (revision_conflict expected current.revision)
          (guard next revision_not_next >> last) checks in
      let (follows, end) = guards-ok next revision_not_next last later in
      let (absent, done) = guards-ok fresh revision_exists (ok tt) end in
      (current, read, ground (arith, same), ground (arith, follows), ground (arith, absent))

  -- The manifest that a batch had, the one that is expected, and what is now current and stored.
  abbrev pub IsSaved : BatchManifest → (expected : ℕ) → W → BatchManifest × W → Type 0
  IsSaved m expected w (returned, w') =
      (e : E) × (current : BatchManifest) × (find_existing library m.batch_uuid w ≡ ok e)
      × (read_manifest library e w ≡ ok current)
      × (current.revision ≡ expected)
      × (m.revision ≡ expected + 1)
      × (returned ≡ m)
      × (read_manifest library e w' ≡ ok m)
      × (library.read_resource e (revision_resource m.revision) revision_type w' ≡ ok m)

  -- The world after a revision that is saved, and the checks that it passed.
  saved-checked :
      (m : BatchManifest) (expected : ℕ) (w : W) (saved : BatchManifest × W)
      → save_revision library m expected w ≡ ok saved
      → (e : E) × (find_existing library m.batch_uuid w ≡ ok e)
        × (check_revision library e m expected w ≡ ok tt)
        × ((m, write_new_revision library e m w) ≡ saved)
  unfolding save_revision
  saved-checked m expected w saved h =
      let (e, found, h1) =
        >>=-ok (find_existing library m.batch_uuid w)
          (λ e. check_revision library e m expected w >> ok (m, write_new_revision library e m w))
          h in
      let (done, checked, h2) =
        >>=-ok (check_revision library e m expected w)
          (λ done. ok (m, write_new_revision library e m w)) h1 in
      (e, found, checked, cc h2)

  abbrev pub IsControlSaved : BatchManifest → W → BatchManifest × W → Type 0
  IsControlSaved m w (returned, w') =
      (e : E) × (current : BatchManifest) × (find_existing library m.batch_uuid w ≡ ok e)
      × (read_manifest library e w ≡ ok current)
      × (current.revision ≡ m.revision)
      × (returned ≡ m)
      × (read_manifest library e w' ≡ ok m)

  check_control-ok :
      (e : E) (m : BatchManifest) (w : W)
      → check_control library e m w ≡ ok tt
      → (current : BatchManifest) × (read_manifest library e w ≡ ok current)
        × (current.revision ≡ m.revision)
  unfolding check_control
  check_control-ok e m w h =
      let (current, read, checks) = >>=-ok (read_manifest library e w) (control_checks m) h in
      let (same, done) =
        guards-ok (current.revision == m.revision) control_changes_revision (ok tt) checks in
      (current, read, ground (arith, same))

  control-checked :
      (m : BatchManifest) (w : W) (saved : BatchManifest × W)
      → save_control_state library m w ≡ ok saved
      → (e : E) × (find_existing library m.batch_uuid w ≡ ok e)
        × (check_control library e m w ≡ ok tt)
        × ((m, write_control library e m w) ≡ saved)
  unfolding save_control_state
  control-checked m w saved h =
      let (e, found, h1) =
        >>=-ok (find_existing library m.batch_uuid w)
          (λ e. check_control library e m w >> ok (m, write_control library e m w)) h in
      let (done, checked, h2) =
        >>=-ok (check_control library e m w) (λ done. ok (m, write_control library e m w)) h1 in
      (e, found, checked, cc h2)

  module _ (laws : IsLibrary library) where
    -- A revision that is saved follows the current one, which is the one that the caller expected;
    -- afterwards it is the current manifest and stands under its own name.
    pub save_revision-IsSaved :
        (m : BatchManifest) (expected : ℕ) (w : W) (saved : BatchManifest × W)
        → save_revision library m expected w ≡ ok saved
        → IsSaved m expected w saved
    save_revision-IsSaved m expected w saved h =
        let (e, found, checked, world) = saved-checked m expected w saved h in
        let (current, read, same, follows, absent) = check_revision-ok e m expected w checked in
        subst (IsSaved m expected w) world (
          e,
          current,
          found,
          read,
          same,
          follows,
          refl,
          new-current library laws e m w,
          new-revision library laws e m w,
        )

    -- Every resource of the batch that was there before a revision was saved, but for the current
    -- manifest, reads as before: no saved revision is overwritten.
    pub save_revision-kept :
        (m : BatchManifest) (expected : ℕ) (w : W) (saved : BatchManifest × W) (e : E)
        (f kind : Text)
        → save_revision library m expected w ≡ ok saved
        → find_existing library m.batch_uuid w ≡ ok e
        → has_resource f (library.list_resources e w) ≡ true
        → f ≢ manifest_resource
        → library.read_resource e f kind saved.1 ≡ library.read_resource e f kind w
    save_revision-kept m expected w saved e f kind h here there apart =
        let (own, found, checked, world) = saved-checked m expected w saved h in
        let (current, read, same, follows, absent) = check_revision-ok own m expected w checked in
        let one : own ≡ e = cc (found, here) in
        let missing : has_resource (revision_resource m.revision) (library.list_resources e w)
            ≡ false =
          subst
            (λ x. has_resource (revision_resource m.revision) (library.list_resources x w) ≡ false)
            one absent in
        let fresh : f ≢ revision_resource m.revision = λ own_name.
          let known =
            subst (λ g. has_resource g (library.list_resources e w) ≡ true) own_name there in
          cc (known, missing) in
        let after : write_new_revision library e m w ≡ saved.1 =
          subst (λ x. write_new_revision library x m w ≡ saved.1) one (ap (λ s. s.1) world) in
        subst (λ v. library.read_resource e f kind v ≡ library.read_resource e f kind w) after
          (new-kept library laws e m f kind w apart fresh)

    write_control-read :
        (e : E) (m : BatchManifest) (f kind : Text) (w : W)
        → library.read_resource e f kind (write_control library e m w)
          ≡ library.read_resource e f kind (write_current library e m w)
    unfolding write_control
    write_control-read e m f kind w = update_tags-read library laws e m f kind _

    control-current :
        (e : E) (m : BatchManifest) (w : W)
        → read_manifest library e (write_control library e m w) ≡ ok m
    unfolding read_manifest
    control-current e m w =
        write_control-read e m manifest_resource manifest_type w
        ∙ laws.read-write e manifest_resource manifest_type m w

    -- A control state that is saved becomes the current manifest, with the revision that the current
    -- one had.
    pub save_control_state-IsControlSaved :
        (m : BatchManifest) (w : W) (saved : BatchManifest × W)
        → save_control_state library m w ≡ ok saved
        → IsControlSaved m w saved
    save_control_state-IsControlSaved m w saved h =
        let (e, found, checked, world) = control-checked m w saved h in
        let (current, read, same) = check_control-ok e m w checked in
        subst (IsControlSaved m w) world
          (e, current, found, read, same, refl, control-current e m w)
