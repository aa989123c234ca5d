-- ===== src/Batch/Storage/Untouched.antt =====
-- What the writes of class BatchManifestRepository, src/chamber_ctl/subsystems/batch_storage.py, leave
-- alone.
use chamber_ctl.Batch.Storage.{
  Library, Tag, create, save_revision, save_control_state, update_tags, write_new_revision,
  write_control, find_entry, find_existing, check_revision, check_control, must_be_absent,
  entry_name, entry_description, write_revision, write_current,
}
use chamber_ctl.Batch.Manifest.{BatchManifest}
use chamber_ctl.Prelude.{ℕ, Text, ok, ◌≡◌, subst, >>=-ok, ◌>>=◌}

module _ {E W : Type 0} (library : Library E W) where
  -- What the repository writes keeps `P`.
  pub record IsLibraryUntouched (P : W → Type 0) : Type 0 where
    pub enters : (name desc : Text) (w : W) → P w → P (library.create_entry name desc w).1
    pub tags : (e : E) (key : Text) (tag : Tag) (w : W) → P w → P (library.set_tag e key tag w)
    pub names : (e : E) (name : Text) (w : W) → P w → P (library.set_name e name w)
    pub describes : (e : E) (desc : Text) (w : W) → P w → P (library.set_desc e desc w)
    pub writes :
        (e : E) (filename kind : Text) (m : BatchManifest) (w : W)
        → P w
        → P (library.write_resource e filename kind m w)

  module _ {P : W → Type 0} (untouched : IsLibraryUntouched P) where
    update_tags-kept : (e : E) (m : BatchManifest) (w : W) → P w → P (update_tags library e m w)
    unfolding update_tags
    update_tags-kept e m w p = untouched.tags e _ _ _ (
        untouched.tags e _ _ _ (
          untouched.tags e _ _ _
            (untouched.tags e _ _ _ (untouched.tags e _ _ _ (untouched.tags e _ _ _ p)))))

    pub save_control_state-kept :
        (m : BatchManifest) (w : W) {r : BatchManifest × W}
        → P w
        → save_control_state library m w ≡ ok r
        → P r.1
    unfolding save_control_state write_control
    save_control_state-kept m w {r} p h =
        let (entry, found, h1) =
          >>=-ok (find_existing library m.batch_uuid w)
            (λ entry.
              check_control library entry m w >>= λ done. ok (m, write_control library entry m w))
            h in
        let (done, checked, h2) =
          >>=-ok (check_control library entry m w) (λ done. ok (m, write_control library entry m w))
            h1 in
        let same : write_control library entry m w ≡ r.1 = cc h2 in
        subst P same (update_tags-kept entry m _ (untouched.writes entry _ _ m w p))

    pub save_revision-kept :
        (m : BatchManifest) (expected_revision : ℕ) (w : W) {r : BatchManifest × W}
        → P w
        → save_revision library m expected_revision w ≡ ok r
        → P r.1
    unfolding save_revision write_new_revision
    save_revision-kept m expected_revision w {r} p h =
        let (entry, found, h1) =
          >>=-ok (find_existing library m.batch_uuid w)
            (λ entry. check_revision library entry m expected_revision w >>= λ done.
              ok (m, write_new_revision library entry m w))
            h in
        let (done, checked, h2) =
          >>=-ok (check_revision library entry m expected_revision w)
            (λ done. ok (m, write_new_revision library entry m w)) h1 in
        let same : write_new_revision library entry m w ≡ r.1 = cc h2 in
        let written = untouched.writes entry _ _ m _ (untouched.writes entry _ _ m w p) in
        subst P same (
          untouched.describes entry _ _
            (untouched.names entry _ _ (update_tags-kept entry m _ written)))

    pub create-kept :
        (m : BatchManifest) (w : W) {r : BatchManifest × W}
        → P w
        → create library m w ≡ ok r
        → P r.1
    unfolding create
    create-kept m w {r} p h =
        let (entry, w1) = library.create_entry (entry_name m) (entry_description m) w in
        let last =
          write_revision library entry m
            (write_current library entry m (update_tags library entry m w1)) in
        let (found, looked, h1) =
          >>=-ok (find_entry library m.batch_uuid w)
            (λ found. must_be_absent library found >>= λ done. ok (m, last)) h in
        let (done, absent, h2) = >>=-ok (must_be_absent library found) (λ done. ok (m, last)) h1 in
        let same : last ≡ r.1 = cc h2 in
        let tagged = update_tags-kept entry m w1 (untouched.enters _ _ w p) in
        subst P same (untouched.writes entry _ _ m _ (untouched.writes entry _ _ m _ tagged))
