-- ===== src/Stage/Client.antt =====
-- The client of the sample stage: class StepperClient of src/chamber_ctl/subsystems/sample_motion.py.
-- Each function is what a thread does while it holds the lock, or between two socket calls; the
-- threads and the socket stay out. Times are milliseconds.
pub mod Wait
pub mod Frame
pub mod Follows
pub mod Discard
pub mod Seen
pub mod Blocks
pub mod Status
use chamber_ctl.Stage.Wire.{
  value_error, index_error, unicode_error, WireError, token, comma, int_token, semicolon,
}
use chamber_ctl.Prelude.{
  ok, err, none, some, [], ◌∷◌, true, false, pos, negsuc, ◌>>=◌, zero, suc, Text, ℕ, ℤ, ltb_ℤ,
  Option, join, show_int, if◌then◌else◌, List, Bool, ◌&&◌, show_nat, Result, leb, ◌++◌, codes,
  text_eq, split, ◌+◌, put_key, strip, eqb_ℤ, read_int,
}

-- The text of a connection error.
pub data Detail : Type 0 where
  waiting_for_response timed_out connection_unavailable connection_lost : Detail
  bind_failed send_failed receive_failed : Text → Detail
  invalid_response : WireError → Detail

-- What a method raises.
pub data Fault : Type 0 where
  stage_offline command_discarded : Detail → Fault
  wait_timed_out : Fault

pub record StepperClient : Type 0 where
  pub last_reply : ℕ
  pub online : Bool
  pub last_ack_seq : ℤ
  pub next_seq : ℕ
  pub enabled : Bool
  pub connection_error : Option Detail
  pub pending_command : Option Text
  pub discarded_through_seq : ℤ
  pub discarded_command_error : Option Detail
  pub positions : List (ℤ × ℤ)
  pub moving : List (ℤ × Bool)
  pub home_positions : List (ℤ × Option ℤ)
  pub command_queue : List Text

unfoldable pub make_client : StepperClient
make_client = record {
  last_reply = 0;
  online = false;
  last_ack_seq = negsuc 0;
  next_seq = 0;
  enabled = false;
  connection_error = some waiting_for_response;
  pending_command = none;
  discarded_through_seq = negsuc 0;
  discarded_command_error = none;
  positions = (pos 0, pos 0) ∷ (pos 1, pos 0) ∷ [];
  moving = (pos 0, false) ∷ (pos 1, false) ∷ [];
  home_positions = (pos 0, none) ∷ (pos 1, none) ∷ [];
  command_queue = [];
}

-- `self.__next_seq - 1`
abbrev pub before : ℕ → ℤ
before zero = negsuc 0
before (suc n) = pos n

-- `__mark_offline_locked`
unfoldable pub mark_offline : Detail → StepperClient → StepperClient
mark_offline detail c =
    let lost = ltb_ℤ c.last_ack_seq (before c.next_seq) in
    record c {
      online = false;
      connection_error = some detail;
      discarded_through_seq = if lost then before c.next_seq else c.discarded_through_seq;
      discarded_command_error = if lost then some detail else c.discarded_command_error;
      pending_command = none;
      command_queue = [];
    }

-- `__mark_online`
unfoldable pub mark_online : ℕ → StepperClient → StepperClient
mark_online now c = record c { last_reply = now; online = true; connection_error = none }

abbrev pub connection_timeout_ms : ℕ
connection_timeout_ms = 15000

-- The state that `is_online` leaves; it returns its `online`.
unfoldable pub refresh_online : ℕ → StepperClient → StepperClient
unfolding mark_offline
refresh_online now c =
    if c.online && leb (c.last_reply + connection_timeout_ms) now
    then mark_offline timed_out c
    else c

abbrev pub detail_or : Detail → Option Detail → Detail
detail_or default none = default
detail_or default (some detail) = detail

-- `__queue_command`
unfoldable pub queue_command :
    ℕ → Text → List Text → StepperClient → StepperClient × Result Fault (Unit {0})
unfolding refresh_online join show_nat
queue_command now command args client =
    let c = refresh_online now client in
    if c.online
    then (
      record c {
        command_queue = c.command_queue ++ join comma (show_nat c.next_seq ∷ command ∷ args) ∷ [];
        next_seq = c.next_seq + 1;
      },
      ok tt,
    )
    else (c, err (stage_offline (detail_or connection_unavailable c.connection_error)))

unfoldable pub queue_move : ℕ → ℤ → ℤ → StepperClient → StepperClient × Result Fault (Unit {0})
unfolding show_int
queue_move now stepper steps =
    queue_command now (codes "MOVE") (show_int stepper ∷ show_int steps ∷ [])

unfoldable pub queue_set : ℕ → ℤ → ℤ → StepperClient → StepperClient × Result Fault (Unit {0})
unfolding show_int
queue_set now stepper steps =
    queue_command now (codes "SET") (show_int stepper ∷ show_int steps ∷ [])

unfoldable pub queue_home :
    ℕ → ℤ → Bool → ℤ → StepperClient → StepperClient × Result Fault (Unit {0})
unfolding show_int
queue_home now stepper home_wanted speed =
    queue_command now (codes "HOME")
      (show_int stepper ∷ (if home_wanted then codes "T" else codes "F") ∷ show_int speed ∷ [])

-- What a round of `__send_data` sends.
pub data Sending : Type 0 where
  sends_nothing sends_request : Sending
  sends_command : Text → Sending

-- The second lock section of `__send_data`.
unfoldable pub take_command : StepperClient → StepperClient × Sending
take_command c =
    if c.online
    then elim c.pending_command [
      | some command ↦ (c, sends_command command)
      | none ↦ elim c.command_queue [
        | [] ↦ (c, sends_nothing)
        | command ∷ rest ↦ (
          record c { pending_command = some command; command_queue = rest },
          sends_command command,
        )
      ]
    ]
    else (c, sends_nothing)

unfoldable pub begin_send : ℕ → StepperClient → StepperClient × Sending
begin_send now client =
    let c = refresh_online now client in if c.online then take_command c else (c, sends_request)

abbrev pub is_pending : Text → Option Text → Bool
is_pending command none = false
is_pending command (some pending) = text_eq pending command

-- After `sendto` has returned.
unfoldable pub finish_send : Text → StepperClient → StepperClient
finish_send command c =
    if is_pending command c.pending_command then record c { pending_command = none } else c

-- `int(text) if text != "None" else None`
abbrev pub home_of : Text → Result WireError (Option ℤ)
home_of t =
    if text_eq t (codes "None")
    then ok none
    else elim (read_int t) [ some z ↦ ok (some z) | none ↦ err value_error ]

abbrev pub is_true : Text → Bool
is_true t = text_eq t (codes "True")

abbrev pub parse_axis : Text → List Text → ℤ → StepperClient → Result WireError StepperClient
parse_axis kind tokens stepper c =
    if text_eq kind (codes "P")
    then (do
      position ← int_token tokens 2
      ok (record c { positions = put_key eqb_ℤ stepper position c.positions }))
    else if text_eq kind (codes "M")
    then (do
      t ← token tokens 2
      ok (record c { moving = put_key eqb_ℤ stepper (is_true t) c.moving }))
    else if text_eq kind (codes "H")
    then (do
      t ← token tokens 2
      position ← home_of t
      ok (record c { home_positions = put_key eqb_ℤ stepper position c.home_positions }))
    else ok c

abbrev pub parse_tokens : Text → List Text → StepperClient → Result WireError StepperClient
parse_tokens kind tokens c =
    if text_eq kind (codes "S")
    then (do sequence ← int_token tokens 1; ok (record c { last_ack_seq = sequence }))
    else if text_eq kind (codes "E")
    then (do t ← token tokens 1; ok (record c { enabled = is_true t }))
    else (do stepper ← int_token tokens 1; parse_axis kind tokens stepper c)

unfoldable pub parse_block : Text → StepperClient → Result WireError StepperClient
parse_block [] c = ok c
parse_block (letter ∷ block) c =
    let tokens = split comma (letter ∷ block) in
    do kind ← token tokens 0; parse_tokens kind tokens c

-- A block that raises leaves what the blocks before it have set.
unfoldable pub parse_blocks : List Text → StepperClient → StepperClient × Option WireError
parse_blocks [] c = (c, none)
parse_blocks (block ∷ blocks) c = elim (parse_block block c) [
  | err e ↦ (c, some e)
  | ok d ↦ parse_blocks blocks d
]

-- `__parse`
unfoldable pub parse : Text → StepperClient → StepperClient × Option WireError
parse data' c = parse_blocks (split semicolon (strip data')) c
