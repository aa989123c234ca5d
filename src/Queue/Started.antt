-- ===== src/Queue/Started.antt =====
-- When an item leaves the queue: class ExposureQueueSubsystem of
-- src/chamber_ctl/subsystems/experiment_sequencer.py.
use chamber_ctl.Queue.Bus.{
  Bus, with_lease, ensure_lease, release_lease, give_up, after_prepare, call_prepare,
  after_settings, set_settings, after_lease, attempt_start, call_and_wait, prepare_exposure,
  release_automation, start_head, start_next, finish_start, without_head,
}
use chamber_ctl.Queue.Worker.{if-both, ensure_lease-IsKept, IsKept, after_settings-IsKept}
use chamber_ctl.Queue.{
  prepare_not_sent, release_not_sent, Codec, ExposureQueue, Reason, Request, serve_all, Failure,
  request_queue_save, request_saver_command,
}
use chamber_ctl.Prelude.{
  Text, List, ◌∷◌, Bool, true, false, ok, err, some, ◌≡◌, refl, Result, if◌then◌else◌, ◌⊎◌, inl,
  inr, is_some, >>=-ok, subst, none, ◌∙◌, Bool-cases, eq_of_text_eq, text_eq, sym, [],
}

pub if-known {ℓ κ} :
    {A : Type ℓ} (P : A → Type κ) (condition : Bool) {x y : A}
    → (condition ≡ true → P x)
    → (condition ≡ false → P y)
    → P (if condition then x else y)
if-known P true p q = p refl
if-known P false p q = q refl

-- What is left of a queue from which an item is taken, if it is first.
pub data Taken (item : Text) : List Text → List Text → Type 0 where
  was_first : {rest : List Text} → Taken item (item ∷ rest) rest
  was_removed : Taken item [] []
  was_overtaken :
      {head : Text} {rest : List Text}
      → text_eq head item ≡ false
      → Taken item (head ∷ rest) (head ∷ rest)

without_head-Taken : (item : Text) (q : List Text) → Taken item q (without_head item q)
without_head-Taken item [] = was_removed
without_head-Taken item (head ∷ rest) = elim (Bool-cases (text_eq head item)) [
  | inl here ↦
      rw here
        (subst (λ x. Taken item (x ∷ rest) rest) (sym (eq_of_text_eq head item here)) was_first)
  | inr other ↦ rw other (was_overtaken other)
]

module _ {W H : Type 0} (bus : Bus W H) where
  -- The lease is given up, unless the controller does not confirm its release.
  abbrev pub IsGivenUp : ExposureQueue → W → Type 0
  IsGivenUp c w =
      (c.lease_owned ≡ false)
      ⊎ ((before : W) × (why : Reason) × (call_and_wait bus release_automation release_not_sent
              10000 before
            ≡ (err why, w)))

  -- The controller has confirmed that the exposure is prepared, for the owner of its lease.
  abbrev pub IsStarted : ExposureQueue → W → Type 0
  IsStarted c w =
      (c.lease_owned ≡ true)
      × ((before : W) × (call_and_wait bus prepare_exposure prepare_not_sent 30000 before
            ≡ (ok tt, w)))

  abbrev pub IsRefused : ExposureQueue → W → Type 0
  IsRefused c w = (is_some c.last_error ≡ true) × IsGivenUp c w

  abbrev pub IsOutcome : Bool × ExposureQueue × W → Type 0
  IsOutcome (true, c, w) = IsStarted c w
  IsOutcome (false, c, w) = IsRefused c w

  abbrev IsReleased : Result Reason (Unit {0}) × ExposureQueue × W → Type 0
  IsReleased (r, c, w) = IsGivenUp c w

  with_lease-IsReleased :
      (c : ExposureQueue) (w : W) (r : Result Reason (Unit {0}) × W)
      → call_and_wait bus release_automation release_not_sent 10000 w ≡ r
      → IsReleased (with_lease false c r)
  with_lease-IsReleased c w (err reason, v) e = inr (w, reason, e)
  with_lease-IsReleased c w (ok done, v) e = inl refl

  release_lease-IsReleased :
      (c : ExposureQueue) (w : W) → c.configured ≡ true → IsReleased (release_lease bus c w)
  unfolding release_lease
  release_lease-IsReleased c w on =
      if-known IsReleased c.lease_owned
        (λ owned.
          if-known IsReleased c.configured (λ e. with_lease-IsReleased c w _ refl)
            (λ off. cc (on, off)))
        (λ free. inl free)

  give_up-IsOutcome :
      (reason : Reason) (c : ExposureQueue) (w : W)
      → c.configured ≡ true
      → IsOutcome (give_up bus reason c w)
  unfolding give_up
  give_up-IsOutcome reason c w on = (refl, release_lease-IsReleased c w on)

  after_prepare-IsOutcome :
      (c : ExposureQueue) (w : W) (r : Result Reason (Unit {0}) × W)
      → call_and_wait bus prepare_exposure prepare_not_sent 30000 w ≡ r
      → c.configured ≡ true
      → c.lease_owned ≡ true
      → IsOutcome (after_prepare bus c r)
  unfolding after_prepare
  after_prepare-IsOutcome c w (err reason, v) e on owned = give_up-IsOutcome reason c v on
  after_prepare-IsOutcome c w (ok done, v) e on owned = (owned, (w, e))

  after_settings-IsOutcome :
      (c : ExposureQueue) (r : Result Reason (Unit {0}) × W)
      → c.configured ≡ true
      → c.lease_owned ≡ true
      → IsOutcome (after_settings bus c r)
  unfolding call_prepare
  after_settings-IsOutcome c (err reason, w) on owned = give_up-IsOutcome reason c w on
  after_settings-IsOutcome c (ok done, w) on owned =
      if-both IsOutcome c.configured (after_prepare-IsOutcome c w _ refl on owned)
        (give_up-IsOutcome _ c w on)

  -- A lease that is ensured is owned; otherwise it is not, and the handles stay.
  abbrev IsLeased : Result Reason (Unit {0}) × ExposureQueue × W → Type 0
  IsLeased (ok done, c, w) = (c.lease_owned ≡ true) × (c.configured ≡ true)
  IsLeased (err reason, c, w) = c.lease_owned ≡ false

  with_lease-IsLeased :
      (c : ExposureQueue) (r : Result Reason (Unit {0}) × W)
      → c.configured ≡ true
      → c.lease_owned ≡ false
      → IsLeased (with_lease true c r)
  with_lease-IsLeased c (err reason, w) on free = free
  with_lease-IsLeased c (ok done, w) on free = (refl, on)

  ensure_lease-IsLeased :
      (c : ExposureQueue) (w : W) → c.configured ≡ true → IsLeased (ensure_lease bus c w)
  unfolding ensure_lease
  ensure_lease-IsLeased c w on =
      if-known IsLeased c.lease_owned (λ owned. (owned, on))
        (λ free. if-both IsLeased c.configured (with_lease-IsLeased c _ on free) free)

  after_lease-IsOutcome :
      (codec : Codec) (item : Text) (leased : Result Reason (Unit {0}) × ExposureQueue × W)
      (r : Bool × ExposureQueue × W)
      → IsLeased leased
      → after_lease bus codec item leased ≡ ok r
      → IsOutcome r × IsKept leased.1 r.1
  unfolding after_lease
  after_lease-IsOutcome codec item (err reason, c, w) r free h =
      let same : (false, record c { last_error = some reason }, w) ≡ r = cc h in
      subst (λ x. IsOutcome x × IsKept c x.1) same ((refl, inl free), (refl, refl))
  after_lease-IsOutcome codec item (ok done, c, w) r (owned, on) h =
      let (written, wrote, returned) =
        >>=-ok (set_settings bus codec item c w) (λ x. ok (after_settings bus c x)) h in
      let same : after_settings bus c written ≡ r = cc returned in
      subst (λ x. IsOutcome x × IsKept c x.1) same
        (after_settings-IsOutcome c written on owned, after_settings-IsKept bus c written)

  -- The worker tried the item for the queue `tried`, which is as it was but for the lease and the
  -- error, and then took the item from what the calls of the bus made of it, if it started.
  abbrev pub IsTried : Codec → List Request → Text → ExposureQueue → ExposureQueue × W → Type 0
  IsTried codec meanwhile item c (d, v) =
      (tried : ExposureQueue) × (tried.queue ≡ c.queue)
      × ((IsStarted tried v
            × Taken item (serve_all codec meanwhile tried).queue d.queue
            × (d.last_error ≡ none))
          ⊎ (IsRefused tried v × (d ≡ serve_all codec meanwhile tried)))

  finish_start-IsTried :
      (codec : Codec) (meanwhile : List Request) (item : Text) (c : ExposureQueue)
      (r : Bool × ExposureQueue × W)
      → IsOutcome r
      → r.1.queue ≡ c.queue
      → IsTried codec meanwhile item c (finish_start item r.0 (serve_all codec meanwhile r.1), r.2)
  unfolding finish_start request_queue_save request_saver_command
  finish_start-IsTried codec meanwhile item c (true, tried, v) outcome same =
      (tried, same, inl (outcome, without_head-Taken item _, refl))
  finish_start-IsTried codec meanwhile item c (false, tried, v) outcome same =
      (tried, same, inr (outcome, refl))

  start_head-IsTried :
      (codec : Codec) (meanwhile : List Request) (item : Text) (items : List Text)
      (c : ExposureQueue) (w : W) (r : ExposureQueue × W)
      → c.configured ≡ true
      → start_head bus codec meanwhile (item ∷ items) c w ≡ ok r
      → IsTried codec meanwhile item c r
  unfolding start_head attempt_start
  start_head-IsTried codec meanwhile item items c w r on h =
      let finish : Bool × ExposureQueue × W → Result Failure (ExposureQueue × W) =
        λ (started, d, v). ok (finish_start item started (serve_all codec meanwhile d), v) in
      let (attempt, attempted, returned) = >>=-ok (attempt_start bus codec item c w) finish h in
      let (outcome, kept) =
        after_lease-IsOutcome codec item (ensure_lease bus c w) attempt
          (ensure_lease-IsLeased c w on) attempted in
      let same : (finish_start item attempt.0 (serve_all codec meanwhile attempt.1), attempt.2)
          ≡ r =
        cc returned in
      subst (IsTried codec meanwhile item c) same (
        finish_start-IsTried codec meanwhile item c attempt outcome
          (kept.0 ∙ (ensure_lease-IsKept bus c w).0))

  -- Once the handles of the bus are set, a pass that tries to start the first item takes it from the
  -- queue only if the controller confirmed to the owner of its lease that the exposure is prepared,
  -- and only if it is still first after the calls of the bus meanwhile; otherwise it takes no item
  -- away, remembers an error, and gives up the lease unless its release fails.
  pub start_next-IsTried :
      (codec : Codec) (meanwhile : List Request) (item : Text) (items : List Text)
      (c : ExposureQueue) (w : W) (r : ExposureQueue × W)
      → c.configured ≡ true
      → c.queue ≡ item ∷ items
      → start_next bus codec meanwhile c w ≡ ok r
      → IsTried codec meanwhile item c r
  unfolding start_next
  start_next-IsTried codec meanwhile item items c w r on first h =
      start_head-IsTried codec meanwhile item items c w r on
        (subst (λ q. start_head bus codec meanwhile q c w ≡ ok r) first h)
