-- ===== src/Stage/Exchange.antt =====
-- The theorems on the exchange of the stage and its client at concrete inputs, and what class
-- StepperClient of src/chamber_ctl/subsystems/sample_motion.py does on them.
use chamber_ctl.Stage.Client.Discard.{lost_command_raises, IsGone}
use chamber_ctl.Stage.Client.Status.{parse-format_status}
use chamber_ctl.Stage.Client.Seen.{Shows}
use chamber_ctl.Stage.Stepper.{Stepper}
use chamber_ctl.Stage.Driver.{move, on_stepper, obey}
use chamber_ctl.Stage.Wire.Commands.{queue_order, queue_order_obeyed}
use chamber_ctl.Stage.Tests.{asked, seeking}
use chamber_ctl.Stage.Wire.{
  stepper_at, format_status, stepper_fields, StepperNetworkComm, handle_datagram,
}
use chamber_ctl.Stage.Client.Wait.{
  client_run, client_step, receive, wait_flush_pass, wait_ack_pass, check_wait, raise_if_discarded,
  raise_if_offline, datagram, ClientEvent, returns, receives, queues, sends, sent,
}
use chamber_ctl.Stage.Client.{
  queue_command, queue_move, refresh_online, begin_send, take_command, finish_send, make_client,
  mark_offline, mark_online, parse, parse_blocks, parse_block, StepperClient, timed_out,
}
use chamber_ctl.Prelude.{
  ok, none, some, [], ◌∷◌, true, false, pos, negsuc, refl, split, join, strip, show_nat, show_int,
  show_digits, read_int, read_digits, put_key, get_key, ◌≡◌, Text, List, ◌<◌, ◌<ℤ◌, ℕ, arith, codes,
  ◌++◌, get_elem?,
}

abbrev comm : StepperNetworkComm
comm = record {
  controller = record asked { steppers = seeking ∷ seeking ∷ [] };
  remote_address = none;
  current_sequence = codes "-1";
}

exchanging : Unit {0}
unfolding client_run client_step receive parse parse_blocks parse_block mark_online mark_offline
    make_client queue_command queue_move refresh_online begin_send take_command finish_send
    wait_flush_pass wait_ack_pass check_wait raise_if_discarded raise_if_offline split join strip
    show_nat show_int show_digits read_int read_digits put_key get_key stepper_at format_status
    stepper_fields
exchanging = tt

-- A client that has heard of the stage.
abbrev fresh_client : StepperClient
unfolding exchanging
fresh_client = receive 1000 (datagram (some (codes "S,57;E,False;"))) make_client

fresh-online : (refresh_online 2000 fresh_client).online ≡ true
unfolding exchanging
fresh-online = refl

second_axis : stepper_at (negsuc 0) comm.controller ≡ some 1
unfolding exchanging
second_axis = refl

queue_order_obeyed_example :
    (message : Text) × ((queue_order 2000 (negsuc 0) (move (pos 120)) fresh_client).0.command_queue
      ≡ (refresh_online 2000 fresh_client).command_queue ++ message ∷ [])
    × (handle_datagram (some message) 9 comm
        ≡ ok (record comm {
          controller = on_stepper 1 (obey (move (pos 120))) comm.controller;
          current_sequence = show_nat (refresh_online 2000 fresh_client).next_seq;
        }))
queue_order_obeyed_example =
    queue_order_obeyed 2000 (negsuc 0) (move (pos 120)) fresh_client 9 comm fresh-online second_axis

parse-format_status_example :
    let (d, failure) = parse (format_status comm.controller (show_int (pos 3))) fresh_client in
    (failure ≡ none)
    × (d.last_ack_seq ≡ pos 3)
    × (d.enabled ≡ comm.controller.enabled)
    × ((j : ℕ) (s : Stepper) → get_elem? comm.controller.steppers j ≡ some s → Shows d j s)
parse-format_status_example = parse-format_status comm.controller (pos 3) fresh_client

-- Two commands are queued, and the connection is lost after the first is acknowledged.
abbrev history : List ClientEvent
history =
    receives 1000 (datagram (some (codes "S,-1;E,False;")))
    ∷ queues 1100 (codes "MOVE") (codes "0" ∷ codes "5" ∷ [])
    ∷ queues 1200 (codes "MOVE") (codes "1" ∷ codes "7" ∷ [])
    ∷ sends 1300
    ∷ sent (codes "0,MOVE,0,5")
    ∷ receives 1400 (datagram (some (codes "S,0;E,True;")))
    ∷ []

abbrev reconnects : List ClientEvent
reconnects = receives 9000 (datagram (some (codes "S,0;E,True;"))) ∷ []

history_issued : 1 < (client_run history make_client).next_seq
unfolding exchanging
history_issued = omega arith

history_unacknowledged : (client_run history make_client).last_ack_seq <ℤ pos 1
unfolding exchanging
history_unacknowledged = omega arith

lost_command_raises_example :
    IsGone 9500 1 true
      (client_run reconnects (mark_offline timed_out (client_run history make_client)))
lost_command_raises_example =
    lost_command_raises history timed_out reconnects 9500 1 true history_unacknowledged
      history_issued

-- A client that has just started takes the number that an earlier client left at the stage for an
-- acknowledgement of its own first command, before the stage has that command.
abbrev restarted : StepperClient
unfolding exchanging
restarted =
    finish_send (codes "0,MOVE,0,5")
      (begin_send 1200 (queue_move 1100 (pos 0) (pos 5) fresh_client).0).0

stale_acknowledgement :
    ((wait_flush_pass 1300 (pos 0) false restarted).1 ≡ returns)
    × ((wait_ack_pass 1300 (pos 0) false restarted).1 ≡ returns)
unfolding exchanging
stale_acknowledgement = (refl, refl)
