-- ===== src/Batch/Archive.antt =====
-- The theorems on the repository of manifests at a concrete database, for class
-- BatchManifestRepository of src/chamber_ctl/subsystems/batch_storage.py.
use chamber_ctl.Batch.Storage.Listing.{list_manifests, list_entries, newest_first, insert_newest}
use chamber_ctl.Batch.Service.Restored.{IsManual, load_manifests-IsManual}
use chamber_ctl.Batch.Service.{
  load_manifests, BatchController, make_service, restart_paused, resume_unless, resume_active,
  restore, rest_idle,
}
use chamber_ctl.Batch.Storage.Revisions.{
  IsSaved, IsControlSaved, save_revision-IsSaved, save_revision-kept,
  save_control_state-IsControlSaved,
}
use chamber_ctl.Batch.Storage.Resources.{IsLibrary}
use chamber_ctl.Batch.Storage.{
  Library, save_revision, save_control_state, find_existing, find_entry, read_manifest,
  check_revision, write_new_revision, update_tags, revision_resource, manifest_resource,
  revision_number, check_control, write_control, has_resource, revision_type,
}
use chamber_ctl.Batch.Manifest.{
  BatchManifest, StorageError, not_found, draft, manual, revision_conflict, active, check_manifest,
}
use chamber_ctl.Batch.Tests.{plan}
use chamber_ctl.Prelude.{
  Text, List, [], ◌∷◌, Option, none, some, Result, ok, err, ◌≡◌, ◌≢◌, refl, true, false, fin, pos,
  codes, get_key, put_key, get-put_key, get-put_other, text_eq, text_eq_refl, eq_of_text_eq, map,
  show_nat, Bool-cases, inl, inr, ap, get_elem?, arith, strip,
}

-- One entry, whose resources are a dictionary; the tags are not looked at.
abbrev pub Archive : Type 0
Archive = List (Text × BatchManifest)

abbrev found_in : Option BatchManifest → Result StorageError BatchManifest
found_in none = err not_found
found_in (some m) = ok m

abbrev pub shelf : Library (Unit {0}) Archive
shelf = record {
  find_batch = λ batch_uuid w. tt ∷ [];
  all_batches = λ w. tt ∷ [];
  create_entry = λ name desc w. (tt, w);
  set_tag = λ e key tag w. w;
  get_tag = λ e key w. none;
  set_name = λ e name w. w;
  set_desc = λ e desc w. w;
  write_resource = λ e f kind m w. put_key text_eq f m w;
  read_resource = λ e f kind w. found_in (get_key text_eq f w);
  list_resources = λ e w. map (λ (f, m). (f, codes "json")) w;
}

text_eq_apart : (s t : Text) → s ≢ t → text_eq s t ≡ false
text_eq_apart s t h = elim (Bool-cases (text_eq s t)) [
  | inl same ↦ elim (h (eq_of_text_eq s t same)) [ ]
  | inr apart ↦ apart
]

pub shelf-IsLibrary : IsLibrary shelf
shelf-IsLibrary = record {
  read-write = λ e f kind m w. ap found_in (get-put_key text_eq text_eq_refl eq_of_text_eq f m w);
  read-other = λ e f kind g other m w apart.
      ap found_in
        (get-put_other text_eq text_eq_refl eq_of_text_eq g f m w (text_eq_apart g f apart));
  read-tag = λ e f kind key tag w. refl;
  read-name = λ e f kind name w. refl;
  read-desc = λ e f kind desc w. refl;
}

abbrev pub first_manifest : BatchManifest
first_manifest = record {
  batch_uuid = 9;
  revision = 1;
  status = draft;
  mode = manual;
  plan = plan;
  created_at = fin (pos 10);
  updated_at = fin (pos 10);
  origin = codes "local";
  submitted_by = [];
  paused = true;
  cancel_pending = false;
  acknowledged_runs = [];
  revision_note = codes "Created";
}

abbrev second_manifest : BatchManifest
second_manifest = record first_manifest { revision = 2; revision_note = codes "Updated" }

unfoldable pub archiving : Unit {0}
unfolding save_revision save_control_state find_existing find_entry read_manifest check_revision
    write_new_revision update_tags revision_number check_control write_control get_key put_key
    show_nat
archiving = tt

abbrev pub stored : Archive
unfolding archiving
stored = (manifest_resource, first_manifest) ∷ (revision_resource 1, first_manifest) ∷ []

abbrev saved : BatchManifest × Archive
unfolding archiving
saved = elim (save_revision shelf second_manifest 1 stored) [
  | ok s ↦ s
  | err e ↦ (first_manifest, [])
]

saves_second : save_revision shelf second_manifest 1 stored ≡ ok saved
unfolding archiving
saves_second = refl

save_revision-IsSaved_example : IsSaved shelf second_manifest 1 stored saved
save_revision-IsSaved_example =
    save_revision-IsSaved shelf shelf-IsLibrary second_manifest 1 stored saved saves_second

finds_shelf : find_existing shelf 9 stored ≡ ok tt
unfolding archiving
finds_shelf = refl

holds_first : has_resource (revision_resource 1) (shelf.list_resources tt stored) ≡ true
unfolding archiving
holds_first = refl

first-apart : revision_resource 1 ≢ manifest_resource
unfolding archiving
first-apart h = let letter = ap (λ t. get_elem? t 6) h in ground arith

save_revision-kept_example :
    shelf.read_resource tt (revision_resource 1) revision_type saved.1
    ≡ shelf.read_resource tt (revision_resource 1) revision_type stored
save_revision-kept_example =
    save_revision-kept shelf shelf-IsLibrary second_manifest 1 stored saved tt (revision_resource 1)
      revision_type saves_second finds_shelf holds_first first-apart

abbrev resumed : BatchManifest
resumed = record first_manifest { paused = false }

abbrev controlled : BatchManifest × Archive
unfolding archiving
controlled = elim (save_control_state shelf resumed stored) [
  | ok s ↦ s
  | err e ↦ (first_manifest, [])
]

saves_resumed : save_control_state shelf resumed stored ≡ ok controlled
unfolding archiving
saves_resumed = refl

save_control_state-IsControlSaved_example : IsControlSaved shelf resumed stored controlled
save_control_state-IsControlSaved_example =
    save_control_state-IsControlSaved shelf shelf-IsLibrary resumed stored controlled saves_resumed

-- A second editor who read the same revision is refused.
second_editor_refused : save_revision shelf second_manifest 1 saved.1 ≡ err (revision_conflict 1 2)
unfolding archiving
second_editor_refused = refl

-- The service starts at a database that holds one active batch.
abbrev pub running_manifest : BatchManifest
running_manifest = record first_manifest { status = active; paused = false }

abbrev pub at_restart : Archive
unfolding archiving
at_restart = (manifest_resource, running_manifest) ∷ []

unfoldable pub starting_service : Unit {0}
unfolding load_manifests resume_unless resume_active restore rest_idle list_manifests list_entries
    newest_first insert_newest check_manifest make_service strip archiving
starting_service = tt

abbrev started : BatchController (Unit {0}) × Archive
unfolding starting_service
started = elim (load_manifests shelf (fin (pos 20)) make_service at_restart) [
  | ok r ↦ r
  | err e ↦ (make_service, [])
]

starts_service : load_manifests shelf (fin (pos 20)) make_service at_restart ≡ ok started
unfolding starting_service
starts_service = refl

make_service_inactive : (make_service {E = Unit {0}}).active_manifest ≡ none
unfolding make_service
make_service_inactive = refl

-- The batch is active again, and paused.
restarts_paused :
    (started.0.phase ≡ restart_paused)
    × (started.0.active_manifest
        ≡ some (record running_manifest { paused = true; updated_at = fin (pos 20) }))
unfolding starting_service
restarts_paused = (refl, refl)

load_manifests-IsManual_example : IsManual shelf at_restart started
load_manifests-IsManual_example =
    load_manifests-IsManual shelf shelf-IsLibrary (fin (pos 20)) make_service at_restart started
      make_service_inactive starts_service
