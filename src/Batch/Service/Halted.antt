-- ===== src/Batch/Service/Halted.antt =====
-- A batch service that is halted: its batch is paused in all its copies. The steps of the functions of
pub mod Steps
pub mod Polls
pub mod Edits
pub mod Obeys
pub mod Stays
pub mod Enters
pub mod Pausing
use chamber_ctl.Batch.Service.Withdrawn.{same_refl, same_eq}
use chamber_ctl.Batch.Coordinator.Paused.{IsUntouched}
use chamber_ctl.Batch.Storage.Untouched.{IsLibraryUntouched}
use chamber_ctl.Batch.Service.Proc.{Running}
use chamber_ctl.Batch.Manifest.{BatchManifest}
use chamber_ctl.Batch.Coordinator.{BatchCoordinator}
use chamber_ctl.Batch.Service.Steps.{Plant}
use chamber_ctl.Prelude.{
  some, none, true, [], ◌∷◌, ◌==◌, ◌&&◌, ◌||◌, ◌≡◌, ◌∙◌, inl, inr, arith, Option, ℕ, put_key,
  get_key, List, Bool, All, Bool-cases, not, ap, subst, sym, get-put_key, get-put_other,
}

-- class BatchControllerSubsystem, src/chamber_ctl/subsystems/batch_controller.py, that keep it so.

abbrev pub is_paused_by_hand : Option BatchCoordinator → Bool
is_paused_by_hand none = true
is_paused_by_hand (some c) = c.manual_pause

-- No batch, or the batch `batch_uuid` and it is paused.
abbrev pub is_paused_batch : ℕ → Option BatchManifest → Bool
is_paused_batch batch_uuid none = true
is_paused_batch batch_uuid (some m) = m.batch_uuid == batch_uuid && m.paused

-- A manifest may be known next to the paused batch.
abbrev pub is_compatible : ℕ → BatchManifest → Bool
is_compatible batch_uuid m = not (m.batch_uuid == batch_uuid) || m.paused

abbrev pub is_filed : ℕ × BatchManifest → Bool
is_filed (key, m) = key == m.batch_uuid

-- The coordinator is paused by hand, the active manifest and the known one of the batch are paused,
-- the known manifests are under their identifiers, and `P` holds of the world.
pub record IsHalted {E W : Type 0} (batch_uuid : ℕ) (P : W → Type 0) (s : Running E W)
    : Type 0 where
  pub coordinator_paused : is_paused_by_hand s.coordinator ≡ true
  pub active_paused : is_paused_batch batch_uuid s.service.active_manifest ≡ true
  pub filed : All (λ x. is_filed x ≡ true) s.service.manifests
  pub known_paused :
      is_paused_batch batch_uuid (get_key (◌==◌) batch_uuid s.service.manifests) ≡ true
  pub untouched : P s.world

-- What the service calls keeps `P`; nothing is said of a start of an exposure.
pub record IsPlantUntouched {E W : Type 0} (plant : Plant E W) (P : W → Type 0) : Type 0 where
  pub library : IsLibraryUntouched plant.library P
  pub sources : IsUntouched plant.sources P
  pub acquires : (w : W) → P w → P (plant.acquire_automation w).1
  pub releases : (w : W) → P w → P (plant.release_automation w).1

pub put_key-filed :
    (m : BatchManifest) (d : List (ℕ × BatchManifest))
    → All (λ x. is_filed x ≡ true) d
    → All (λ x. is_filed x ≡ true) (put_key (◌==◌) m.batch_uuid m d)
unfolding put_key
put_key-filed m [] h = (same_refl m.batch_uuid, tt)
put_key-filed m ((key, x) ∷ d) (first, rest) = elim (Bool-cases (key == m.batch_uuid)) [
  | inl here ↦ rw here (here, rest)
  | inr there ↦ rw there (first, put_key-filed m d rest)
]

pub get_key-filed :
    (key : ℕ) (d : List (ℕ × BatchManifest)) {m : BatchManifest}
    → All (λ x. is_filed x ≡ true) d
    → get_key (◌==◌) key d ≡ some m
    → m.batch_uuid ≡ key
unfolding get_key
get_key-filed key [] h e = cc
get_key-filed key ((k, x) ∷ d) {m} (first, rest) e = elim (Bool-cases (k == key)) [
  | inl here ↦
      let e' = rw here at e in
      let same : x ≡ m = cc e' in
      ap (λ y. y.batch_uuid) (sym same) ∙ sym (same_eq k x.batch_uuid first) ∙ same_eq k key here
  | inr there ↦ let e' = rw there at e in get_key-filed key d rest e'
]

pub put_key-paused :
    (batch_uuid : ℕ) (m : BatchManifest) (d : List (ℕ × BatchManifest))
    → is_compatible batch_uuid m ≡ true
    → is_paused_batch batch_uuid (get_key (◌==◌) batch_uuid d) ≡ true
    → is_paused_batch batch_uuid (get_key (◌==◌) batch_uuid (put_key (◌==◌) m.batch_uuid m d))
      ≡ true
put_key-paused batch_uuid m d fits h = elim (Bool-cases (m.batch_uuid == batch_uuid)) [
  | inl same ↦
      let key = same_eq m.batch_uuid batch_uuid same in
      let found : get_key (◌==◌) batch_uuid (put_key (◌==◌) m.batch_uuid m d) ≡ some m =
        subst (λ k. get_key (◌==◌) k (put_key (◌==◌) m.batch_uuid m d) ≡ some m) key
          (get-put_key (◌==◌) same_refl same_eq m.batch_uuid m d) in
      rw found (ground (arith, same, fits))
  | inr apart ↦ rw (get-put_other (◌==◌) same_refl same_eq m.batch_uuid batch_uuid m d apart) h
]
