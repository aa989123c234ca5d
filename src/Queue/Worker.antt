-- ===== src/Queue/Worker.antt =====
-- What the worker leaves of the queue: class ExposureQueueSubsystem of
-- src/chamber_ctl/subsystems/experiment_sequencer.py.
use chamber_ctl.Queue.Items.{IsItem}
use chamber_ctl.Queue.Bus.{
  Bus, with_lease, ensure_lease, release_lease, give_up, after_prepare, call_prepare,
  after_settings, set_settings, after_lease, attempt_start, note_failure, release_idle,
  release_pending, write_fields,
}
use chamber_ctl.Queue.{Codec, ExposureQueue, Reason}
use chamber_ctl.Prelude.{
  Text, Bool, true, false, ok, err, ◌≡◌, refl, Result, if◌then◌else◌, none, ◌>>=◌, ◌∙◌, ap,
}

abbrev pub IsKept : ExposureQueue → ExposureQueue → Type 0
IsKept c d = (d.queue ≡ c.queue) × (d.save_commands ≡ c.save_commands)

pub if-both {ℓ κ} :
    {A : Type ℓ} (P : A → Type κ) (condition : Bool) {x y : A}
    → P x
    → P y
    → P (if condition then x else y)
if-both P true p q = p
if-both P false p q = q

module _ {W H : Type 0} (bus : Bus W H) where
  with_lease-IsKept :
      (owned : Bool) (c : ExposureQueue) (r : Result Reason (Unit {0}) × W)
      → IsKept c (with_lease owned c r).1
  with_lease-IsKept owned c (err reason, w) = (refl, refl)
  with_lease-IsKept owned c (ok done, w) = (refl, refl)

  pub ensure_lease-IsKept : (c : ExposureQueue) (w : W) → IsKept c (ensure_lease bus c w).1
  unfolding ensure_lease
  ensure_lease-IsKept c w =
      if-both (λ (r : Result Reason (Unit {0}) × ExposureQueue × W). IsKept c r.1) c.lease_owned
        (refl, refl)
        (if-both (λ (r : Result Reason (Unit {0}) × ExposureQueue × W). IsKept c r.1) c.configured
          (with_lease-IsKept true c _) (refl, refl))

  pub release_lease-IsKept : (c : ExposureQueue) (w : W) → IsKept c (release_lease bus c w).1
  unfolding release_lease
  release_lease-IsKept c w =
      if-both (λ (r : Result Reason (Unit {0}) × ExposureQueue × W). IsKept c r.1) c.lease_owned
        (if-both (λ (r : Result Reason (Unit {0}) × ExposureQueue × W). IsKept c r.1) c.configured
          (with_lease-IsKept false c _) (refl, refl))
        (refl, refl)

  give_up-IsKept :
      (reason : Reason) (c : ExposureQueue) (w : W) → IsKept c (give_up bus reason c w).1
  unfolding give_up
  give_up-IsKept reason c w = release_lease-IsKept c w

  after_prepare-IsKept :
      (c : ExposureQueue) (r : Result Reason (Unit {0}) × W) → IsKept c (after_prepare bus c r).1
  unfolding after_prepare
  after_prepare-IsKept c (err reason, w) = give_up-IsKept reason c w
  after_prepare-IsKept c (ok done, w) = (refl, refl)

  call_prepare-IsKept : (c : ExposureQueue) (w : W) → IsKept c (call_prepare bus c w).1
  unfolding call_prepare
  call_prepare-IsKept c w =
      if-both (λ (r : Bool × ExposureQueue × W). IsKept c r.1) c.configured
        (after_prepare-IsKept c _) (give_up-IsKept _ c w)

  pub after_settings-IsKept :
      (c : ExposureQueue) (r : Result Reason (Unit {0}) × W) → IsKept c (after_settings bus c r).1
  after_settings-IsKept c (err reason, w) = give_up-IsKept reason c w
  after_settings-IsKept c (ok done, w) = call_prepare-IsKept c w

  note_failure-IsKept :
      (c : ExposureQueue) (r : Result Reason (Unit {0}) × ExposureQueue × W)
      → IsKept c r.1
      → IsKept c (note_failure r).0
  note_failure-IsKept c (ok done, d, w) h = h
  note_failure-IsKept c (err reason, d, w) h = h

  pub release_idle-IsKept : (c : ExposureQueue) (w : W) → IsKept c (release_idle bus c w).0
  unfolding release_idle
  release_idle-IsKept c w =
      note_failure-IsKept c _ (release_lease-IsKept (record c { last_error = none }) w)

  pub release_pending-IsKept : (c : ExposureQueue) (w : W) → IsKept c (release_pending bus c w).0
  unfolding release_pending
  release_pending-IsKept c w =
      if-both (λ (r : ExposureQueue × W). IsKept c r.0) c.pending_lease_release
        (note_failure-IsKept c _
          (release_lease-IsKept (record c { pending_lease_release = false }) w))
        (refl, refl)

  -- Settings that decode are written, or the write is answered with a reason.
  set_settings-ok :
      (codec : Codec) (item : Text) (c : ExposureQueue) (w : W)
      → IsItem codec item
      → (r : Result Reason (Unit {0}) × W) × (set_settings bus codec item c w ≡ ok r)
  unfolding set_settings
  set_settings-ok codec item c w (fields, decoded) =
      if-both (λ x. (r : Result Reason (Unit {0}) × W) × (x ≡ ok r)) c.configured
        (write_fields bus (codec.get_dict fields) w, rw decoded refl) (_, refl)

  after_lease-ok :
      (codec : Codec) (item : Text) (c : ExposureQueue)
      (leased : Result Reason (Unit {0}) × ExposureQueue × W)
      → IsItem codec item
      → IsKept c leased.1
      → (r : Bool × ExposureQueue × W) × (after_lease bus codec item leased ≡ ok r) × IsKept c r.1
  unfolding after_lease
  after_lease-ok codec item c (err reason, d, w) decodes kept = (_, refl, kept)
  after_lease-ok codec item c (ok done, d, w) decodes kept =
      let (written, e) = set_settings-ok codec item d w decodes in
      let after = after_settings-IsKept d written in
      (
        after_settings bus d written,
        ap (λ r. do x ← r; ok (after_settings bus d x)) e,
        (after.0 ∙ kept.0, after.1 ∙ kept.1),
      )

  -- A start of an item that decodes raises nothing and keeps the queue.
  pub attempt_start-ok :
      (codec : Codec) (item : Text) (c : ExposureQueue) (w : W)
      → IsItem codec item
      → (r : Bool × ExposureQueue × W) × (attempt_start bus codec item c w ≡ ok r) × IsKept c r.1
  unfolding attempt_start
  attempt_start-ok codec item c w decodes =
      after_lease-ok codec item c (ensure_lease bus c w) decodes (ensure_lease-IsKept c w)
