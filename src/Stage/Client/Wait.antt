-- ===== src/Stage/Client/Wait.antt =====
-- What the client receives, and how its callers wait: class StepperClient of
-- src/chamber_ctl/subsystems/sample_motion.py.
use chamber_ctl.Stage.Client.{
  StepperClient, invalid_response, receive_failed, send_failed, stage_offline, command_discarded,
  wait_timed_out, Fault, queue_command, WireError, mark_offline, refresh_online, mark_online,
  unicode_error, detail_or, begin_send, parse, connection_lost, connection_unavailable, finish_send,
}
use chamber_ctl.Prelude.{
  none, some, [], ◌∷◌, pos, Option, ℕ, ℤ, Bool, List, Text, if◌then◌else◌, is_some, ltb_ℤ, ◌||◌,
  get_elem?,
}

-- A datagram, none if it is not UTF-8, or an OSError.
pub data Received : Type 0 where
  datagram : Option Text → Received
  receive_error : Text → Received

abbrev pub finish_receive : ℕ → StepperClient × Option WireError → StepperClient
finish_receive now (c, none) = mark_online now c
finish_receive now (c, some e) = mark_offline (invalid_response e) c

-- `__receive`
unfoldable pub receive : ℕ → Received → StepperClient → StepperClient
receive now (datagram none) c = mark_offline (invalid_response unicode_error) c
receive now (datagram (some data')) c = finish_receive now (parse data' c)
receive now (receive_error text) c = mark_offline (receive_failed text) c

-- `__raise_if_command_discarded`
unfoldable pub raise_if_discarded : ℤ → StepperClient → Option Fault
raise_if_discarded target c =
    if ltb_ℤ target (pos 0) || ltb_ℤ c.discarded_through_seq target
    then none
    else some (command_discarded (detail_or connection_lost c.discarded_command_error))

-- `raise_if_offline`, which may notice that the connection has timed out.
unfoldable pub raise_if_offline : ℕ → StepperClient → StepperClient × Option Fault
unfolding refresh_online
raise_if_offline now client =
    let c = refresh_online now client in
    (
      c,
      if c.online
          then none
          else some (stage_offline (detail_or connection_unavailable c.connection_error)),
    )

-- A pass of a waiting loop: it sleeps, is done, or raises.
pub data Waiting : Type 0 where
  sleeps returns : Waiting
  raises : Fault → Waiting

abbrev pub or_raise : Option Fault → Waiting → Waiting
or_raise none next = next
or_raise (some fault) next = raises fault

abbrev pub is_busy : StepperClient → Bool
is_busy c = is_some c.pending_command || is_some (get_elem? c.command_queue 0)

-- What both loops check in a pass.
unfoldable pub check_wait : ℕ → ℤ → StepperClient → Waiting → StepperClient × Waiting
check_wait now target c next = elim (raise_if_discarded target c) [
  | some fault ↦ (c, raises fault)
  | none ↦ let (d, offline) = raise_if_offline now c in (d, or_raise offline next)
]

abbrev pub keep_waiting : Bool → Waiting
keep_waiting late = if late then raises wait_timed_out else sleeps

-- A pass of `wait_flush`, or what it does after its loop.
unfoldable pub wait_flush_pass : ℕ → ℤ → Bool → StepperClient → StepperClient × Waiting
wait_flush_pass now target late c =
    check_wait now target c (if is_busy c then keep_waiting late else returns)

-- A pass of the second loop of `wait_ack`.
unfoldable pub wait_ack_pass : ℕ → ℤ → Bool → StepperClient → StepperClient × Waiting
wait_ack_pass now target late c =
    if ltb_ℤ c.last_ack_seq target
    then check_wait now target c (keep_waiting late)
    else (c, returns)

-- Everything that changes the client.
pub data ClientEvent : Type 0 where
  queues : (now : ℕ) → Text → List Text → ClientEvent
  refreshes : (now : ℕ) → ClientEvent
  sends : (now : ℕ) → ClientEvent
  sent : Text → ClientEvent
  send_fails : Text → ClientEvent
  receives : (now : ℕ) → Received → ClientEvent

unfoldable pub client_step : ClientEvent → StepperClient → StepperClient
client_step (queues now command args) c = (queue_command now command args c).0
client_step (refreshes now) c = refresh_online now c
client_step (sends now) c = (begin_send now c).0
client_step (sent command) c = finish_send command c
client_step (send_fails text) c = mark_offline (send_failed text) c
client_step (receives now received) c = receive now received c

unfoldable pub client_run : List ClientEvent → StepperClient → StepperClient
client_run [] c = c
client_run (e ∷ es) c = client_run es (client_step e c)
