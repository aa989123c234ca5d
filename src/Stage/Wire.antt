-- ===== src/Stage/Wire.antt =====
-- The datagrams between the stage and its client: sample-stage-ctl/src/sample_stage_ctl/protocol.py.
-- A datagram that is not UTF-8 is none. The socket, the two threads and their lock stay out.
pub mod Commands
use chamber_ctl.Stage.Stepper.{Stepper, is_moving}
use chamber_ctl.Stage.Driver.{move, put, home, Order, StepperController, on_stepper, obey}
use chamber_ctl.Prelude.{
  ok, err, none, some, [], ◌∷◌, true, false, pos, negsuc, ◌>>=◌, ℕ, List, ℤ, Text, Option, Bool,
  Result, get_elem?, read_int, if◌then◌else◌, split, not, codes, join, text_eq, strip, eqb_ℤ, ltb,
  show_int, show_nat, map, ◌||◌, length, ◌++◌, ◌-◌, suc, ◌+◌,
}

-- The exceptions of the two sides' parsers.
pub data WireError : Type 0 where
  unicode_error index_error value_error key_error : WireError

abbrev pub comma : ℕ
comma = 44

abbrev pub semicolon : ℕ
semicolon = 59

-- `tokens[i]`
abbrev pub token : List Text → ℕ → Result WireError Text
token tokens i = elim (get_elem? tokens i) [ some t ↦ ok t | none ↦ err index_error ]

-- `int(tokens[i])`
abbrev pub int_token : List Text → ℕ → Result WireError ℤ
int_token tokens i = do
  t ← token tokens i
  elim (read_int t) [ some z ↦ ok z | none ↦ err value_error ]

pub data Argument : Type 0 where
  whole : ℤ → Argument
  truth : Bool → Argument

pub record StageCommand : Type 0 where
  pub sequence : Text
  pub name : Text
  pub arguments : List Argument

pub data Request : Type 0 where
  connection_request : Request
  stage_command : StageCommand → Request

abbrev pub arguments_of : Text → List Text → Result WireError (List Argument)
arguments_of name fields =
    if text_eq name (codes "MOVE") || text_eq name (codes "SET")
    then (do
      stepper ← int_token fields 2
      value ← int_token fields 3
      ok (whole stepper ∷ whole value ∷ []))
    else if text_eq name (codes "HOME")
    then (do
      stepper ← int_token fields 2
      state ← token fields 3
      speed ← int_token fields 4
      ok (whole stepper ∷ truth (text_eq state (codes "T")) ∷ whole speed ∷ []))
    else ok []

abbrev pub command_of : Text → List Text → Result WireError Request
command_of sequence fields = do
  name ← token fields 1
  arguments ← arguments_of name fields
  ok (stage_command (record { sequence = sequence; name = name; arguments = arguments }))

abbrev pub request_of : List Text → Result WireError Request
request_of fields = do
  sequence ← token fields 0
  if text_eq sequence (codes "REQ_CONN") then ok connection_request else command_of sequence fields

unfoldable pub parse_datagram : Option Text → Result WireError Request
parse_datagram none = err unicode_error
parse_datagram (some data') = request_of (split comma (strip data'))

-- `int(argument)` and `bool(argument)`.
abbrev pub as_int : Argument → ℤ
as_int (whole z) = z
as_int (truth b) = if b then pos 1 else pos 0

abbrev pub as_bool : Argument → Bool
as_bool (whole z) = not (eqb_ℤ z (pos 0))
as_bool (truth b) = b

-- `self._steppers[stepper]`, which counts from the end below 0.
unfoldable pub stepper_at : ℤ → StepperController → Option ℕ
stepper_at (pos n) c = if ltb n (length c.steppers) then some n else none
stepper_at (negsuc n) c =
    if ltb n (length c.steppers) then some (length c.steppers - (n + 1)) else none

unfoldable pub order_stepper : ℤ → Order → StepperController → Result WireError StepperController
order_stepper stepper order c = elim (stepper_at stepper c) [
  | none ↦ err index_error
  | some i ↦ ok (on_stepper i (obey order) c)
]

unfoldable pub apply_command : StageCommand → StepperController → Result WireError StepperController
apply_command command c =
    if text_eq command.name (codes "MOVE")
    then elim command.arguments [
      | stepper ∷ target ∷ [] ↦ order_stepper (as_int stepper) (move (as_int target)) c
      | _ ↦ err value_error
    ]
    else if text_eq command.name (codes "SET")
    then elim command.arguments [
      | stepper ∷ position ∷ [] ↦ order_stepper (as_int stepper) (put (as_int position)) c
      | _ ↦ err value_error
    ]
    else if text_eq command.name (codes "HOME")
    then elim command.arguments [
      | stepper ∷ state ∷ speed ∷ [] ↦
          order_stepper (as_int stepper) (home (as_bool state) (as_int speed)) c
      | _ ↦ err value_error
    ]
    else ok c

abbrev pub show_bool : Bool → Text
show_bool b = if b then codes "True" else codes "False"

abbrev pub show_home : Option ℤ → Text
show_home none = codes "None"
show_home (some z) = show_int z

unfoldable pub stepper_fields : ℕ → List Stepper → List (List Text)
stepper_fields i [] = []
stepper_fields i (s ∷ steppers) =
    (codes "P" ∷ show_nat i ∷ show_int s.position ∷ [])
    ∷ (codes "M" ∷ show_nat i ∷ show_bool (is_moving s) ∷ [])
    ∷ (codes "H" ∷ show_nat i ∷ show_home s.home_position ∷ [])
    ∷ stepper_fields (suc i) steppers

abbrev pub status_fields : StepperController → Text → List (List Text)
status_fields c sequence =
    (codes "S" ∷ sequence ∷ [])
    ∷ (codes "E" ∷ show_bool c.enabled ∷ [])
    ∷ stepper_fields 0 c.steppers

unfoldable pub format_status : StepperController → Text → Text
format_status c sequence =
    join semicolon (map (join comma) (status_fields c sequence)) ++ semicolon ∷ []

-- StepperNetworkComm: the address and the sequence that its two threads share.
pub record StepperNetworkComm : Type 0 where
  pub controller : StepperController
  pub remote_address : Option ℕ
  pub current_sequence : Text

-- `_handle_datagram` up to the release of its lock: what is left to apply. The sender may run before
-- it is applied.
unfoldable pub accept_request : Request → ℕ → StepperNetworkComm → StepperNetworkComm
accept_request connection_request address n = record n { remote_address = some address }
accept_request (stage_command command) address n = record n { current_sequence = command.sequence }

-- `apply_command` of the accepted request; an exception ends the receiver.
unfoldable pub apply_request : Request → StepperNetworkComm → Result WireError StepperNetworkComm
apply_request connection_request n = ok n
apply_request (stage_command command) n = do
  c ← apply_command command n.controller
  ok (record n { controller = c })

unfoldable pub handle_datagram :
    Option Text → ℕ → StepperNetworkComm → Result WireError StepperNetworkComm
handle_datagram data' address n = do
  request ← parse_datagram data'
  apply_request request (accept_request request address n)

-- `_send_status_once`
unfoldable pub send_status : StepperNetworkComm → Option (ℕ × Text)
send_status n = elim n.remote_address [
  | none ↦ none
  | some address ↦ some (address, format_status n.controller n.current_sequence)
]
