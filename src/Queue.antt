-- ===== src/Queue.antt =====
-- The queue of exposures: class ExposureQueueSubsystem of
-- src/chamber_ctl/subsystems/experiment_sequencer.py, with the settings that its items encode, class
-- ExposureSettings of src/chamber_ctl/subsystems/exposure_controller.py. Bytes are a text of codes up
-- to 255. JSON and segment_bytes are a record of functions.
pub mod Bus
pub mod Saver
pub mod Items
pub mod Saved
pub mod Worker
pub mod Started
pub mod Waits
mod Tests
pub mod Sound
pub mod Restart
use chamber_ctl.Prelude.{
  Text, List, [], ◌∷◌, Option, none, some, Bool, true, false, Result, ok, err, ◌>>=◌, codes,
  text_eq, get_key, if◌then◌else◌, map, ◌++◌, length, ◌==◌, is_some, all,
}

-- The exceptions, as far as the handlers tell them apart.
pub data Failure : Type 0 where
  type_error value_error index_error attribute_error assertion_error other_error : Failure

-- A JSON object: the text `str(value)` of each value, none for null.
abbrev pub Fields : Type 0
Fields = List (Text × Option Text)

-- What `json.loads` gives: an object or something else.
pub data Loaded : Type 0 where
  object : Fields → Loaded
  no_object : Loaded

-- `json.loads` of UTF-8 bytes, `RunSettings.get_dict`, segment_bytes and a decoding that replaces
-- errors.
pub record Codec : Type 0 where
  pub json_loads : Text → Result Failure Loaded
  pub get_dict : Fields → Fields
  pub segments : Text → Result Failure (List Text)
  pub encode_segments : List Text → Text
  pub decode_lossy : Text → Text

-- `d.setdefault(key, value)`
abbrev pub set_default : Text → Option Text → Fields → Fields
set_default key value d = if is_some (get_key text_eq key d) then d else d ++ (key, value) ∷ []

-- `d.pop(key, None)`
abbrev pub pop_key : Text → Fields → Fields
pop_key key [] = []
pop_key key ((k, v) ∷ d) =
    let later = pop_key key d in if text_eq key k then later else (k, v) ∷ later

-- `d.get(key) is not None`
abbrev pub has_value : Fields → Text → Bool
has_value d key = elim (get_key text_eq key d) [ some (some t) ↦ true | _ ↦ false ]

-- The fields that the assertions of `decode` want.
abbrev pub required_fields : List Text
required_fields =
    codes "target_time"
    ∷ codes "target_dose"
    ∷ codes "operator"
    ∷ codes "zr_filter"
    ∷ codes "sample"
    ∷ codes "sample_type"
    ∷ codes "base_pressure"
    ∷ codes "operating_pressure"
    ∷ codes "flow_sccm"
    ∷ []

abbrev pub with_defaults : Fields → Fields
with_defaults d = pop_key (codes "source_calibrations") (
    set_default (codes "chopper_frequency_hz") none (
      set_default (codes "calibration_revision") (some (codes "0"))
        (set_default (codes "calibration_profile_id") (some []) d)))

module _ (codec : Codec) where
  -- `ExposureSettings.decode`
  unfoldable pub decode_settings : Text → Result Failure Fields
  decode_settings data' = do
    loaded ← codec.json_loads data'
    elim loaded [
      | no_object ↦ err attribute_error
      | object d ↦
          let fields = with_defaults d in
          if all (has_value fields) required_fields then ok fields else err assertion_error
    ]

-- A queued value: bytes, or what is not bytes.
pub data Item : Type 0 where
  bytes_item : Text → Item
  other_item : Item

pub data Payload : Type 0 where
  bytes_payload : Text → Payload
  item_list : List Item → Payload
  absent other_payload : Payload

module _ (codec : Codec) where
  -- `__normalize_item`
  unfoldable pub normalize_item : Item → Result Failure Text
  normalize_item (bytes_item value) = do fields ← decode_settings codec value; ok value
  normalize_item other_item = err type_error

  unfoldable pub normalize_items : List Item → Result Failure (List Text)
  normalize_items [] = ok []
  normalize_items (item ∷ items) = do
    value ← normalize_item item
    out ← normalize_items items
    ok (value ∷ out)

  -- `__decode_queue_bytes`
  unfoldable pub decode_queue : Payload → Result Failure (List Text)
  decode_queue absent = ok []
  decode_queue (item_list items) = normalize_items items
  decode_queue other_payload = err type_error
  decode_queue (bytes_payload payload) = do
    items ← codec.segments payload
    normalize_items (map bytes_item items)

-- What the saver thread is asked for.
pub data SaverCommand : Type 0 where
  save : List Text → SaverCommand
  load_state close_saver unknown_operation : SaverCommand

-- Why a request of the queue to the exposure controller fails.
pub data Reason : Type 0 where
  said : Text → Reason
  settings_unavailable write_not_issued write_timed_out write_rejected : Reason
  event_timed_out event_failed acquire_unavailable acquire_not_sent : Reason
  release_unavailable release_not_sent prepare_unavailable prepare_not_sent : Reason

pub record ExposureQueue : Type 0 where
  pub queue : List Text
  pub configured : Bool  -- `__on_got_subsystem` has set the handles of the bus
  pub lease_owned : Bool
  pub pending_queue_advance : Bool
  pub pending_lease_release : Bool
  pub last_seen_finalized_payload : Option Text
  pub last_error : Option Reason
  pub save_commands : List SaverCommand

unfoldable pub make_queue : ExposureQueue
make_queue = record {
  queue = [];
  configured = false;
  lease_owned = false;
  pending_queue_advance = false;
  pending_lease_release = false;
  last_seen_finalized_payload = none;
  last_error = none;
  save_commands = [];
}

-- `__on_got_subsystem`
unfoldable pub on_got_subsystem : ExposureQueue → ExposureQueue
on_got_subsystem c = record c { configured = true }

-- `__request_saver_command` puts a command; `__request_queue_save` copies the queue and puts a save of
-- the copy, here with no other thread between the two.
unfoldable pub request_saver_command : SaverCommand → ExposureQueue → ExposureQueue
request_saver_command command c = record c { save_commands = c.save_commands ++ command ∷ [] }

unfoldable pub request_queue_save : ExposureQueue → ExposureQueue
request_queue_save c = request_saver_command (save c.queue) c

-- What a handler answers, or the exception that leaves it.
pub data Answer : Type 0 where
  accepted : Answer
  rejected raised : Failure → Answer

-- `except (TypeError, ValueError)`
abbrev pub refusal : Failure → Answer
refusal type_error = rejected type_error
refusal value_error = rejected value_error
refusal failure = raised failure

-- Whether the finalized run of a payload has stopped; none if the payload is not one.
abbrev pub stopped_in : Codec → List Text → Option Bool
stopped_in codec (run ∷ code ∷ reason ∷ []) =
    if length run == 16 then some (text_eq (codec.decode_lossy code) (codes "STOPPED")) else none
stopped_in codec _ = none

abbrev pub is_last_seen : Text → Option Text → Bool
is_last_seen value none = false
is_last_seen value (some seen) = text_eq seen value

-- `__on_queue_start_event`
unfoldable pub on_queue_start : ExposureQueue → ExposureQueue
on_queue_start c = record c { pending_queue_advance = true }

abbrev pub is_empty : List Text → Bool
is_empty [] = true
is_empty (item ∷ items) = false

abbrev pub replace_queue : List Text → ExposureQueue → ExposureQueue
replace_queue items c = record c {
  queue = items;
  pending_lease_release = if is_empty items then true else c.pending_lease_release;
}

unfoldable pub finish_run : Option Bool → ExposureQueue → ExposureQueue
finish_run none c = c
finish_run (some true) c = record c { pending_queue_advance = true }
finish_run (some false) c = record c { pending_lease_release = true }

unfoldable pub add_settings : Result Failure Text → ExposureQueue → Answer × ExposureQueue
add_settings (err failure) c = (refusal failure, c)
add_settings (ok settings) c =
    (accepted, request_queue_save (record c { queue = c.queue ++ settings ∷ [] }))

unfoldable pub set_items : Result Failure (List Text) → ExposureQueue → Answer × ExposureQueue
set_items (err failure) c = (refusal failure, c)
set_items (ok items) c = (accepted, request_queue_save (replace_queue items c))

module _ (codec : Codec) where
  unfoldable pub see_parts : Result Failure (List Text) → ExposureQueue → ExposureQueue
  see_parts (err failure) c = c
  see_parts (ok parts) c = finish_run (stopped_in codec parts) c

  -- `__on_run_finalized_update`
  unfoldable pub on_run_finalized : Option Text → ExposureQueue → ExposureQueue
  on_run_finalized none c = c
  on_run_finalized (some value) c =
      let fresh = record c { last_seen_finalized_payload = some value } in
      if is_last_seen value c.last_seen_finalized_payload
      then c
      else see_parts (codec.segments value) fresh

  -- `__on_add_to_queue_write`
  unfoldable pub on_add_to_queue : Item → ExposureQueue → Answer × ExposureQueue
  on_add_to_queue value c = add_settings (normalize_item codec value) c

  -- `__on_queue_get`
  unfoldable pub on_queue_get : ExposureQueue → Text
  on_queue_get c = codec.encode_segments c.queue

  -- `__on_queue_set`
  unfoldable pub on_queue_set : Payload → ExposureQueue → Answer × ExposureQueue
  on_queue_set value c = set_items (decode_queue codec value) c

-- The calls of the bus that change the queue.
pub data Request : Type 0 where
  adds : Item → Request
  sets : Payload → Request
  starts configures : Request
  finalizes : Option Text → Request

unfoldable pub serve : Codec → Request → ExposureQueue → ExposureQueue
serve codec (adds item) c = (on_add_to_queue codec item c).1
serve codec (sets payload) c = (on_queue_set codec payload c).1
serve codec starts c = on_queue_start c
serve codec configures c = on_got_subsystem c
serve codec (finalizes value) c = on_run_finalized codec value c

unfoldable pub serve_all : Codec → List Request → ExposureQueue → ExposureQueue
serve_all codec [] c = c
serve_all codec (r ∷ rs) c = serve_all codec rs (serve codec r c)
