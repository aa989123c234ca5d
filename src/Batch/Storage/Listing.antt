-- ===== src/Batch/Storage/Listing.antt =====
-- The listings of class BatchManifestRepository of src/chamber_ctl/subsystems/batch_storage.py. The
-- text of a UUID orders as its number does.
use chamber_ctl.Batch.Storage.{Library, read_manifest, find_existing, revision_type, Tag}
use chamber_ctl.Batch.Manifest.{BatchManifest, StorageError}
use chamber_ctl.Prelude.{
  ℕ, Text, List, [], ◌∷◌, Option, Bool, true, false, Result, ok, err, ◌>>=◌, flt, feq, ltb, ◌==◌,
  ◌&&◌, ◌||◌, if◌then◌else◌, select, codes, text_eq, map,
}

-- BatchManifestLoadError
pub record LoadError (E : Type 0) : Type 0 where
  pub entry : E
  pub batch_uuid : Option Tag
  pub status : Option Tag
  pub error : StorageError

-- The key of `sorted` is less.
abbrev pub is_older : BatchManifest → BatchManifest → Bool
is_older a b =
    flt a.updated_at b.updated_at
    || (feq a.updated_at b.updated_at && ltb a.batch_uuid b.batch_uuid)

unfoldable pub insert_newest : BatchManifest → List BatchManifest → List BatchManifest
insert_newest m [] = m ∷ []
insert_newest m (x ∷ xs) =
    let later = insert_newest m xs in if is_older m x then x ∷ later else m ∷ x ∷ xs

-- `sorted(..., reverse=True)`
unfoldable pub newest_first : List BatchManifest → List BatchManifest
newest_first [] = []
newest_first (m ∷ ms) = insert_newest m (newest_first ms)

-- The order of file names.
abbrev pub text_lt : Text → Text → Bool
text_lt s [] = false
text_lt [] (b ∷ t) = true
text_lt (a ∷ s) (b ∷ t) = ltb a b || (a == b && text_lt s t)

abbrev pub insert_name : Text → List Text → List Text
insert_name name [] = name ∷ []
insert_name name (x ∷ xs) =
    let later = insert_name name xs in if text_lt x name then x ∷ later else name ∷ x ∷ xs

abbrev pub sort_names : List Text → List Text
sort_names [] = []
sort_names (name ∷ names) = insert_name name (sort_names names)

-- `startswith`
abbrev pub starts_with : Text → Text → Bool
starts_with [] t = true
starts_with (a ∷ s) [] = false
starts_with (a ∷ s) (b ∷ t) = a == b && starts_with s t

abbrev pub is_revision_file : Text × Text → Bool
is_revision_file (filename, kind) =
    text_eq kind revision_type && starts_with (codes "batch_revision_") filename

module _ {E W : Type 0} (library : Library E W) where
  -- One entry of `list`: its manifest, or what is known of it.
  abbrev pub list_one :
      E
      → W
      → Result StorageError BatchManifest
      → List BatchManifest × List (LoadError E)
      → List BatchManifest × List (LoadError E)
  list_one entry w (ok m) (manifests, errors) = (m ∷ manifests, errors)
  list_one entry w (err e) (manifests, errors) = (
    manifests,
    record {
      entry = entry;
      batch_uuid = library.get_tag entry (codes "batch_uuid") w;
      status = library.get_tag entry (codes "batch_status") w;
      error = e;
    }
        ∷ errors,
  )

  unfoldable pub list_entries : List E → W → List BatchManifest × List (LoadError E)
  list_entries [] w = ([], [])
  list_entries (entry ∷ entries) w =
      list_one entry w (read_manifest library entry w) (list_entries entries w)

  -- `list`, with the `load_errors` that it leaves.
  unfoldable pub list_manifests : W → List BatchManifest × List (LoadError E)
  list_manifests w =
      let (manifests, errors) = list_entries (library.all_batches w) w in
      (newest_first manifests, errors)

  unfoldable pub read_revisions : E → List Text → W → Result StorageError (List BatchManifest)
  read_revisions entry [] w = ok []
  read_revisions entry (filename ∷ filenames) w = do
    m ← library.read_resource entry filename revision_type w
    ms ← read_revisions entry filenames w
    ok (m ∷ ms)

  -- `revisions`
  unfoldable pub revisions : ℕ → W → Result StorageError (List BatchManifest)
  revisions batch_uuid w = do
    entry ← find_existing library batch_uuid w
    let files = select is_revision_file (library.list_resources entry w)
    read_revisions entry (sort_names (map (λ (filename, kind). filename) files)) w
