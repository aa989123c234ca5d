-- ===== src/Batch/Storage.antt =====
-- Where manifests are kept: class BatchManifestRepository of
-- src/chamber_ctl/subsystems/batch_storage.py, over any database library. A resource that the class
-- writes as JSON is the manifest that the JSON holds; writing does not fail. The check of the owning
-- thread is left out.
pub mod Listing
pub mod Resources
pub mod Revisions
pub mod Untouched
use chamber_ctl.Batch.Manifest.{
  BatchManifest, StorageError, several_records, not_found, already_exists, status_value, mode_value,
  revision_conflict, control_changes_revision, revision_not_next, revision_exists,
}
use chamber_ctl.Prelude.{
  ℕ, Text, List, Float, Result, Option, ◌>>=◌, ◌>>◌, zero, suc, [], ◌∷◌, ok, err, none, some, codes,
  show_nat, Bool, guard, ◌-◌, ◌++◌, any, ◌==◌, length, text_eq, ◌+◌, not,
}

-- The value of a tag.
pub data Tag : Type 0 where
  text_tag : Text → Tag
  number_tag : ℕ → Tag
  time_tag : Float → Tag

-- The database `W` with its entries `E`: `query` by the tags of a batch or of all batches,
-- `create_entry`, the tags, the name and the description, and the resources of an entry by file name
-- and type.
pub record Library (E W : Type 0) : Type 0 where
  pub find_batch : ℕ → W → List E
  pub all_batches : W → List E
  pub create_entry : Text → Text → W → E × W
  pub set_tag : E → Text → Tag → W → W
  pub get_tag : E → Text → W → Option Tag
  pub set_name : E → Text → W → W
  pub set_desc : E → Text → W → W
  pub write_resource : E → (filename resource_type : Text) → BatchManifest → W → W
  pub read_resource : E → (filename resource_type : Text) → W → Result StorageError BatchManifest
  pub list_resources : E → W → List (Text × Text)

abbrev pub manifest_resource : Text
manifest_resource = codes "batch_manifest.json"

abbrev pub manifest_type : Text
manifest_type = codes "batch_manifest"

abbrev pub revision_type : Text
revision_type = codes "batch_manifest_revision"

-- `f"{revision:06d}"`
abbrev pub pad_zeros : ℕ → Text
pad_zeros zero = []
pad_zeros (suc n) = 48 ∷ pad_zeros n

unfoldable pub revision_number : ℕ → Text
unfolding show_nat
revision_number revision = let digits = show_nat revision in pad_zeros (6 - length digits) ++ digits

-- `_revision_resource`
abbrev pub revision_resource : ℕ → Text
revision_resource revision = codes "batch_revision_" ++ revision_number revision ++ codes ".json"

abbrev pub text_or_default : Text → Text → Text
text_or_default [] default = default
text_or_default (letter ∷ letters) default = letter ∷ letters

abbrev pub entry_name : BatchManifest → Text
entry_name m = codes "Batch: " ++ m.plan.template.name

abbrev pub entry_description : BatchManifest → Text
entry_description m = text_or_default m.plan.template.description (codes "Exposure batch manifest")

-- `filename in dict(entry.list_resources())`
abbrev pub has_resource : Text → List (Text × Text) → Bool
has_resource filename resources = any (λ (name, kind). text_eq filename name) resources

-- The only entry of a query with a limit of two.
abbrev pub only_entry : {E : Type 0} → List E → Result StorageError (Option E)
only_entry [] = ok none
only_entry (entry ∷ []) = ok (some entry)
only_entry (entry ∷ other ∷ rest) = err several_records

abbrev pub wanted_entry : {E : Type 0} → Option E → Result StorageError E
wanted_entry none = err not_found
wanted_entry (some entry) = ok entry

abbrev pub control_checks : BatchManifest → BatchManifest → Result StorageError (Unit {0})
control_checks m current = do guard (current.revision == m.revision) control_changes_revision; ok tt

module _ {E W : Type 0} (library : Library E W) where
  -- `_find_entry`
  unfoldable pub find_entry : ℕ → W → Result StorageError (Option E)
  find_entry batch_uuid w = only_entry (library.find_batch batch_uuid w)

  unfoldable pub find_existing : ℕ → W → Result StorageError E
  find_existing batch_uuid w = do found ← find_entry batch_uuid w; wanted_entry found

  unfoldable pub read_manifest : E → W → Result StorageError BatchManifest
  read_manifest entry w = library.read_resource entry manifest_resource manifest_type w

  -- `_update_tags`
  unfoldable pub update_tags : E → BatchManifest → W → W
  update_tags entry m w =
      let w1 = library.set_tag entry (codes "batch_manifest") (text_tag (codes "1")) w in
      let w2 = library.set_tag entry (codes "batch_uuid") (number_tag m.batch_uuid) w1 in
      let w3 = library.set_tag entry (codes "batch_status") (text_tag (status_value m.status)) w2 in
      let w4 = library.set_tag entry (codes "batch_mode") (text_tag (mode_value m.mode)) w3 in
      let w5 = library.set_tag entry (codes "batch_revision") (number_tag m.revision) w4 in
      library.set_tag entry (codes "batch_updated_at") (time_tag m.updated_at) w5

  abbrev pub write_current : E → BatchManifest → W → W
  write_current entry m = library.write_resource entry manifest_resource manifest_type m

  abbrev pub write_revision : E → BatchManifest → W → W
  write_revision entry m =
      library.write_resource entry (revision_resource m.revision) revision_type m

  -- `create`
  abbrev pub must_be_absent : Option E → Result StorageError (Unit {0})
  must_be_absent none = ok tt
  must_be_absent (some entry) = err already_exists

  unfoldable pub create : BatchManifest → W → Result StorageError (BatchManifest × W)
  create m w = do
    found ← find_entry m.batch_uuid w
    must_be_absent found
    let (entry, w1) = library.create_entry (entry_name m) (entry_description m) w
    ok (m, write_revision entry m (write_current entry m (update_tags entry m w1)))

  -- `get`
  abbrev pub read_found : W → Option E → Result StorageError (Option BatchManifest)
  read_found w none = ok none
  read_found w (some entry) = do m ← read_manifest entry w; ok (some m)

  unfoldable pub get : ℕ → W → Result StorageError (Option BatchManifest)
  get batch_uuid w = do found ← find_entry batch_uuid w; read_found w found

  -- The checks of `save_revision` for the entry and its current manifest.
  abbrev pub revision_checks :
      E → BatchManifest → ℕ → W → BatchManifest → Result StorageError (Unit {0})
  revision_checks entry m expected_revision w current = do
    guard (current.revision == expected_revision)
        (revision_conflict expected_revision current.revision)
    guard (m.revision == expected_revision + 1) revision_not_next
    guard (not (has_resource (revision_resource m.revision) (library.list_resources entry w)))
        revision_exists
    ok tt

  unfoldable pub check_revision :
      E → BatchManifest → (expected_revision : ℕ) → W → Result StorageError (Unit {0})
  check_revision entry m expected_revision w = do
    current ← read_manifest entry w
    revision_checks entry m expected_revision w current

  unfoldable pub write_new_revision : E → BatchManifest → W → W
  write_new_revision entry m w =
      let tagged = update_tags entry m (write_current entry m (write_revision entry m w)) in
      library.set_desc entry (entry_description m) (library.set_name entry (entry_name m) tagged)

  -- `save_revision`
  unfoldable pub save_revision :
      BatchManifest → (expected_revision : ℕ) → W → Result StorageError (BatchManifest × W)
  save_revision m expected_revision w = do
    entry ← find_existing m.batch_uuid w
    check_revision entry m expected_revision w
    ok (m, write_new_revision entry m w)

  -- `save_control_state`
  unfoldable pub check_control : E → BatchManifest → W → Result StorageError (Unit {0})
  check_control entry m w = do current ← read_manifest entry w; control_checks m current

  unfoldable pub write_control : E → BatchManifest → W → W
  write_control entry m w = update_tags entry m (write_current entry m w)

  unfoldable pub save_control_state : BatchManifest → W → Result StorageError (BatchManifest × W)
  save_control_state m w = do
    entry ← find_existing m.batch_uuid w
    check_control entry m w
    ok (m, write_control entry m w)
