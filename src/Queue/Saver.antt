-- ===== src/Queue/Saver.antt =====
-- The thread that saves the queue, and what starts and runs with it: class ExposureQueueSubsystem of
-- src/chamber_ctl/subsystems/experiment_sequencer.py. The database is one resource, the saved bytes;
-- none if it has none.
use chamber_ctl.Queue.{
  Codec, ExposureQueue, Failure, SaverCommand, save, load_state, close_saver, unknown_operation,
  decode_queue, bytes_payload, type_error, value_error, index_error, attribute_error,
  assertion_error, other_error, make_queue,
}
use chamber_ctl.Prelude.{
  Text, List, [], ◌∷◌, Option, none, some, Bool, true, false, Result, ok, err, ◌++◌, if◌then◌else◌,
}

-- The loop of a save over the waiting commands: the payload to write and the commands that are left.
unfoldable pub coalesce : List Text → List SaverCommand → List Text × List SaverCommand
coalesce payload [] = (payload, [])
coalesce payload (save later ∷ commands) = coalesce later commands
coalesce payload (load_state ∷ commands) = (payload, commands ++ load_state ∷ [])
coalesce payload (close_saver ∷ commands) = (payload, commands ++ close_saver ∷ [])
coalesce payload (unknown_operation ∷ commands) = (payload, commands ++ unknown_operation ∷ [])

-- `except (FileNotFoundError, ValueError, TypeError, IndexError)`
abbrev pub is_unreadable : Failure → Bool
is_unreadable value_error = true
is_unreadable type_error = true
is_unreadable index_error = true
is_unreadable attribute_error = false
is_unreadable assertion_error = false
is_unreadable other_error = false

-- The response to the command `load`, and to a save or an operation that has none.
pub data Response : Type 0 where
  no_response closes : Response
  loads : Result Failure (List Text) → Response

module _ (codec : Codec) where
  unfoldable pub read_or_reset :
      Text → Result Failure (List Text) → Result Failure (List Text) × Option Text
  read_or_reset payload (ok items) = (ok items, some payload)
  read_or_reset payload (err failure) =
      if is_unreadable failure
      then (ok [], some (codec.encode_segments []))
      else (err failure, some payload)

  -- `__load_queue_data`: what it returns or raises, and the resource after it.
  unfoldable pub load_queue_data : Option Text → Result Failure (List Text) × Option Text
  load_queue_data none = (ok [], some (codec.encode_segments []))
  load_queue_data (some payload) =
      read_or_reset payload (decode_queue codec (bytes_payload payload))

  -- `__save_queue` in the `try` of the saver, which only logs that a write fails.
  abbrev pub save_queue : (fails : Bool) → List Text → Option Text → Option Text
  save_queue fails payload file = if fails then file else some (codec.encode_segments payload)

  -- A pass of `__config_saver_thread` that finds a command.
  unfoldable pub saver_command :
      (fails : Bool)
      → SaverCommand
      → List SaverCommand
      → Option Text
      → Response × List SaverCommand × Option Text
  saver_command fails (save payload) commands file =
      let (last, rest) = coalesce payload commands in
      (no_response, rest, save_queue fails last file)
  saver_command fails load_state commands file =
      let (loaded, file') = load_queue_data file in (loads loaded, commands, file')
  saver_command fails close_saver commands file = (closes, commands, file)
  saver_command fails unknown_operation commands file = (no_response, commands, file)

  unfoldable pub run_saver :
      (fails : Bool) → List SaverCommand → ExposureQueue → Option Text → ExposureQueue × Option Text
  run_saver fails [] c file = (c, file)
  run_saver fails (command ∷ commands) c file =
      let (response, rest, file') = saver_command fails command commands file in
      (record c { save_commands = rest }, file')

  unfoldable pub saver_pass :
      (fails : Bool) → ExposureQueue → Option Text → ExposureQueue × Option Text
  saver_pass fails c = run_saver fails c.save_commands c

  -- `__load_queue` of the response of the saver.
  unfoldable pub finish_load : Response → ExposureQueue → ExposureQueue
  finish_load (loads (ok items)) c = record c { queue = items }
  finish_load _ c = c

  -- `__init__`: the saver runs before the worker and answers the load.
  unfoldable pub start_up : Option Text → ExposureQueue × Option Text
  start_up file =
      let (response, rest, file') = saver_command false load_state [] file in
      (finish_load response (record make_queue { save_commands = rest }), file')
