-- ===== src/Queue/Bus.antt =====
-- What the queue asks of the exposure controller, and its worker: class ExposureQueueSubsystem of
-- src/chamber_ctl/subsystems/experiment_sequencer.py. The message bus is a record of functions over
-- a world `W`, with handles `H` of its events. Times are milliseconds.
use chamber_ctl.Queue.{
  Codec, ExposureQueue, Reason, Fields, request_queue_save, Failure, prepare_not_sent, Request,
  said, event_timed_out, acquire_not_sent, release_not_sent, write_not_issued, prepare_unavailable,
  event_failed, acquire_unavailable, release_unavailable, write_timed_out, write_rejected,
  decode_settings, serve_all, settings_unavailable,
}
use chamber_ctl.Prelude.{
  ℕ, Text, Bool, Option, suc, Result, true, codes, if◌then◌else◌, List, none, ◌&&◌, some, ◌+◌, err,
  ok, false, text_eq, ◌∷◌, ltb, ◌-◌, zero, [], ◌>>=◌,
}

pub data EventName : Type 0 where
  acquire_automation release_automation prepare_exposure : EventName

-- What a write of a setting gives: no awaiter, a timeout, or the value, whether there is a state, and
-- the reason of `wait_for`, as far as they are bytes.
pub data Write : Type 0 where
  not_issued timed_out : Write
  answered : (ret : Option Text) → (state : Bool) → (reason : Option Text) → Write

-- The bus: `call` of an event, what its handle tells, `try_set` of a setting with `wait_for`, and the
-- clock with `sleep`.
pub record Bus (W H : Type 0) : Type 0 where
  pub call : EventName → W → Option H × W
  pub is_in_progress : H → W → Bool
  pub state_is_ok : H → W → Bool
  pub result_of : H → W → Option Text
  pub set_setting : Text → Text → W → Write × W
  pub monotonic : W → ℕ
  pub sleep : ℕ → W → W
  pub op_ok : Text

abbrev pub fault_of : Reason → Option Text → Reason
fault_of default (some (letter ∷ letters)) = said (letter ∷ letters)
fault_of default _ = default

-- `str(value)`
abbrev pub str_of : Option Text → Text
str_of none = codes "None"
str_of (some t) = t

abbrev pub without_head : Text → List Text → List Text
without_head item [] = []
without_head item (head ∷ items) = if text_eq head item then items else head ∷ items

-- The last lock section, and what follows it.
unfoldable pub finish_start : Text → Bool → ExposureQueue → ExposureQueue
finish_start item false c = c
finish_start item true c =
    let popped = record c { queue = without_head item c.queue } in
    record (request_queue_save popped) { last_error = none }

abbrev pub with_lease :
    {W : Type 0}
    → Bool
    → ExposureQueue
    → Result Reason (Unit {0}) × W
    → Result Reason (Unit {0}) × ExposureQueue × W
with_lease owned c (err reason, w) = (err reason, c, w)
with_lease owned c (ok done, w) = (ok tt, record c { lease_owned = owned }, w)

-- What is remembered of a release.
abbrev pub note_failure :
    {W : Type 0} → Result Reason (Unit {0}) × ExposureQueue × W → ExposureQueue × W
note_failure (ok done, c, w) = (c, w)
note_failure (err reason, c, w) = (record c { last_error = some reason }, w)

module _ {W H : Type 0} (bus : Bus W H) where
  -- The loop of `__wait_event_completion`, which is left out of fuel too.
  unfoldable pub wait_rounds : ℕ → H → (timeout begin : ℕ) → W → W
  wait_rounds zero handle timeout begin w = w
  wait_rounds (suc fuel) handle timeout begin w =
      elim (bus.is_in_progress handle w && ltb (bus.monotonic w - begin) timeout) [
        | true ↦ wait_rounds fuel handle timeout begin (bus.sleep 100 w)
        | false ↦ w
      ]

  -- `__wait_event_completion`; the reason of a success is never read.
  unfoldable pub wait_event_completion : H → (timeout : ℕ) → W → Result Reason (Unit {0}) × W
  wait_event_completion handle timeout before =
      let w = wait_rounds (timeout + 1) handle timeout (bus.monotonic before) before in
      (
        if bus.is_in_progress handle w
            then err event_timed_out
            else if bus.state_is_ok handle w
            then ok tt
            else err (fault_of event_failed (bus.result_of handle w)),
        w,
      )

  -- `call` of an event and the wait for it.
  unfoldable pub call_and_wait :
      EventName → Reason → (timeout : ℕ) → W → Result Reason (Unit {0}) × W
  call_and_wait event not_sent timeout w =
      let (called, w1) = bus.call event w in
      elim called [
        | none ↦ (err not_sent, w1)
        | some handle ↦ wait_event_completion handle timeout w1
      ]

  -- `__ensure_automation_lease`
  unfoldable pub ensure_lease : ExposureQueue → W → Result Reason (Unit {0}) × ExposureQueue × W
  ensure_lease c w =
      if c.lease_owned
      then (ok tt, c, w)
      else if c.configured
      then with_lease true c (call_and_wait acquire_automation acquire_not_sent 10000 w)
      else (err acquire_unavailable, c, w)

  -- `__release_automation_lease`
  unfoldable pub release_lease : ExposureQueue → W → Result Reason (Unit {0}) × ExposureQueue × W
  release_lease c w =
      if c.lease_owned
      then if c.configured
        then with_lease false c (call_and_wait release_automation release_not_sent 10000 w)
        else (err release_unavailable, c, w)
      else (ok tt, c, w)

  -- `ret not in (magics.OP_OK, b"")` of a returned value.
  abbrev pub is_fine : Text → Bool
  is_fine [] = true
  is_fine ret = text_eq ret bus.op_ok

  abbrev pub write_result : Write → Result Reason (Unit {0})
  write_result not_issued = err write_not_issued
  write_result timed_out = err write_timed_out
  write_result (answered ret true reason) = err (fault_of write_rejected reason)
  write_result (answered none false reason) = ok tt
  write_result (answered (some ret) false reason) = if is_fine ret then ok tt else err (said ret)

  -- The loop of `__set_settings_on_controller`.
  unfoldable pub write_fields : Fields → W → Result Reason (Unit {0}) × W
  write_fields [] w = (ok tt, w)
  write_fields ((key, value) ∷ fields) w =
      let (written, w1) = bus.set_setting key (str_of value) w in
      let rest = write_fields fields w1 in
      elim (write_result written) [ err reason ↦ (err reason, w1) | ok done ↦ rest ]

  unfoldable pub set_settings :
      Codec → Text → ExposureQueue → W → Result Failure (Result Reason (Unit {0}) × W)
  set_settings codec item c w =
      if c.configured
      then (do fields ← decode_settings codec item; ok (write_fields (codec.get_dict fields) w))
      else ok (err settings_unavailable, w)

  -- A start that fails after the lease is taken: the lease is released, whatever comes of that.
  unfoldable pub give_up : Reason → ExposureQueue → W → Bool × ExposureQueue × W
  give_up reason c w =
      let (released, c', w') = release_lease c w in
      (false, record c' { last_error = some reason }, w')

  unfoldable pub after_prepare :
      ExposureQueue → Result Reason (Unit {0}) × W → Bool × ExposureQueue × W
  after_prepare c (err reason, w) = give_up reason c w
  after_prepare c (ok done, w) = (true, c, w)

  unfoldable pub call_prepare : ExposureQueue → W → Bool × ExposureQueue × W
  call_prepare c w =
      if c.configured
      then after_prepare c (call_and_wait prepare_exposure prepare_not_sent 30000 w)
      else give_up prepare_unavailable c w

  abbrev pub after_settings :
      ExposureQueue → Result Reason (Unit {0}) × W → Bool × ExposureQueue × W
  after_settings c (err reason, w) = give_up reason c w
  after_settings c (ok done, w) = call_prepare c w

  unfoldable pub after_lease :
      Codec
      → Text
      → Result Reason (Unit {0}) × ExposureQueue × W
      → Result Failure (Bool × ExposureQueue × W)
  after_lease codec item (err reason, c, w) = ok (false, record c { last_error = some reason }, w)
  after_lease codec item (ok done, c, w) = do
    written ← set_settings codec item c w
    ok (after_settings c written)

  -- `__start_next_if_available` for an item, up to its last lock section: whether the exposure has
  -- started. An exception of `decode` ends the worker.
  unfoldable pub attempt_start :
      Codec → Text → ExposureQueue → W → Result Failure (Bool × ExposureQueue × W)
  attempt_start codec item c w = after_lease codec item (ensure_lease c w)

  -- The queue is empty.
  unfoldable pub release_idle : ExposureQueue → W → ExposureQueue × W
  release_idle c w = note_failure (release_lease (record c { last_error = none }) w)

  unfoldable pub start_head :
      Codec → List Request → List Text → ExposureQueue → W → Result Failure (ExposureQueue × W)
  start_head codec meanwhile [] c w = ok (release_idle c w)
  start_head codec meanwhile (item ∷ items) c w = do
    (started, c', w') ← attempt_start codec item c w
    ok (finish_start item started (serve_all codec meanwhile c'), w')

  -- `__start_next_if_available`. The calls of the bus that the queue serves while it waits are
  -- `meanwhile`: they do not touch what `attempt_start` changes, so that they stand after it.
  unfoldable pub start_next :
      Codec → List Request → ExposureQueue → W → Result Failure (ExposureQueue × W)
  start_next codec meanwhile c w = start_head codec meanwhile c.queue c w

  -- A pass of `__worker_thread`.
  unfoldable pub release_pending : ExposureQueue → W → ExposureQueue × W
  release_pending c w =
      if c.pending_lease_release
      then note_failure (release_lease (record c { pending_lease_release = false }) w)
      else (c, w)

  unfoldable pub worker_pass :
      Codec → List Request → ExposureQueue → W → Result Failure (ExposureQueue × W)
  worker_pass codec meanwhile c w =
      let (c', w') = release_pending c w in
      if c'.pending_queue_advance
      then start_next codec meanwhile (record c' { pending_queue_advance = false }) w'
      else ok (c', w')
