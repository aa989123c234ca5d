-- ===== src/Batch/Storage/Resources.antt =====
-- What the resources of a manifest hold after a write: class BatchManifestRepository of
-- src/chamber_ctl/subsystems/batch_storage.py.
use chamber_ctl.Batch.Storage.{
  Library, read_manifest, write_new_revision, update_tags, revision_resource, manifest_resource,
  revision_type, Tag, write_current, write_revision, manifest_type,
}
use chamber_ctl.Batch.Manifest.{BatchManifest}
use chamber_ctl.Prelude.{ℕ, Text, ok, ◌≡◌, ◌≢◌, sym, ap, ◌∙◌, arith, get_elem?}

module _ {E W : Type 0} (library : Library E W) where
  -- A resource holds what was written last; other resources, tags, names and descriptions do not
  -- touch it.
  pub record IsLibrary : Type 0 where
    pub read-write :
        (e : E) (f kind : Text) (m : BatchManifest) (w : W)
        → library.read_resource e f kind (library.write_resource e f kind m w) ≡ ok m
    pub read-other :
        (e : E) (f kind g other : Text) (m : BatchManifest) (w : W)
        → g ≢ f
        → library.read_resource e f kind (library.write_resource e g other m w)
          ≡ library.read_resource e f kind w
    pub read-tag :
        (e : E) (f kind key : Text) (tag : Tag) (w : W)
        → library.read_resource e f kind (library.set_tag e key tag w)
          ≡ library.read_resource e f kind w
    pub read-name :
        (e : E) (f kind name : Text) (w : W)
        → library.read_resource e f kind (library.set_name e name w)
          ≡ library.read_resource e f kind w
    pub read-desc :
        (e : E) (f kind desc : Text) (w : W)
        → library.read_resource e f kind (library.set_desc e desc w)
          ≡ library.read_resource e f kind w

  revision_resource-manifest : (n : ℕ) → revision_resource n ≢ manifest_resource
  revision_resource-manifest n h = let letter = ap (λ t. get_elem? t 6) h in ground arith

  module _ (laws : IsLibrary) where
    pub update_tags-read :
        (e : E) (m : BatchManifest) (f kind : Text) (w : W)
        → library.read_resource e f kind (update_tags library e m w)
          ≡ library.read_resource e f kind w
    unfolding update_tags
    update_tags-read e m f kind w =
        laws.read-tag e f kind _ _ _
        ∙ laws.read-tag e f kind _ _ _
        ∙ laws.read-tag e f kind _ _ _
        ∙ laws.read-tag e f kind _ _ _
        ∙ laws.read-tag e f kind _ _ _
        ∙ laws.read-tag e f kind _ _ _

    -- What a new revision writes, read at any resource.
    write_new_revision-read :
        (e : E) (m : BatchManifest) (f kind : Text) (w : W)
        → library.read_resource e f kind (write_new_revision library e m w)
          ≡ library.read_resource e f kind
              (write_current library e m (write_revision library e m w))
    unfolding write_new_revision
    write_new_revision-read e m f kind w =
        laws.read-desc e f kind _ _ ∙ laws.read-name e f kind _ _ ∙ update_tags-read e m f kind _

    pub new-current :
        (e : E) (m : BatchManifest) (w : W)
        → read_manifest library e (write_new_revision library e m w) ≡ ok m
    unfolding read_manifest
    new-current e m w =
        write_new_revision-read e m manifest_resource manifest_type w
        ∙ laws.read-write e manifest_resource manifest_type m _

    pub new-revision :
        (e : E) (m : BatchManifest) (w : W)
        → library.read_resource e
            (revision_resource m.revision)
            revision_type
            (write_new_revision library e m w)
          ≡ ok m
    new-revision e m w =
        write_new_revision-read e m (revision_resource m.revision) revision_type w
        ∙ laws.read-other e (revision_resource m.revision) revision_type manifest_resource
            manifest_type m _ (λ h. revision_resource-manifest m.revision (sym h))
        ∙ laws.read-write e (revision_resource m.revision) revision_type m w

    pub new-kept :
        (e : E) (m : BatchManifest) (f kind : Text) (w : W)
        → f ≢ manifest_resource
        → f ≢ revision_resource m.revision
        → library.read_resource e f kind (write_new_revision library e m w)
          ≡ library.read_resource e f kind w
    new-kept e m f kind w apart fresh =
        write_new_revision-read e m f kind w
        ∙ laws.read-other e f kind manifest_resource manifest_type m _ (λ h. apart (sym h))
        ∙ laws.read-other e f kind (revision_resource m.revision) revision_type m w
            (λ h. fresh (sym h))
