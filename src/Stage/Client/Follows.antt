-- ===== src/Stage/Client/Follows.antt =====
-- Sequence numbers of class StepperClient, src/chamber_ctl/subsystems/sample_motion.py, only grow.
use chamber_ctl.Stage.Client.Wait.{
  receive, client_step, client_run, ClientEvent, Received, queues, finish_receive, datagram,
  refreshes, sends, sent, receive_error, send_fails, receives,
}
use chamber_ctl.Stage.Client.{
  StepperClient, mark_offline, Detail, refresh_online, queue_command, begin_send, finish_send,
  take_command, is_pending, connection_timeout_ms, timed_out, WireError, parse, mark_online,
  sends_request, invalid_response, unicode_error, receive_failed, send_failed,
}
use chamber_ctl.Prelude.{
  none, some, [], ◌∷◌, true, false, pos, ◌≤◌, ◌≡◌, arith, ◌<ℤ◌, ◌≤ℤ◌, ℕ, Text, Bool-cases, List,
  ◌&&◌, inl, leb, inr, ◌+◌, refl, Option-cases, List-cases, ap, Bool, if◌then◌else◌, Option,
}
use chamber_ctl.Stage.Client.Frame.{but_status, parse-but_status}

-- Only issued commands are discarded.
abbrev pub IsIssued : StepperClient → Type 0
IsIssued c = c.discarded_through_seq <ℤ pos c.next_seq

-- From `c` on, commands may be issued and discarded, never taken back.
pub record Follows (c d : StepperClient) : Type 0 where
  pub issued : IsIssued d
  pub later : c.next_seq ≤ d.next_seq
  pub discarded : c.discarded_through_seq ≤ℤ d.discarded_through_seq

Follows-same :
    (c d : StepperClient)
    → IsIssued c
    → d.next_seq ≡ c.next_seq
    → d.discarded_through_seq ≡ c.discarded_through_seq
    → Follows c d
Follows-same c d h e f = record {
  issued = rw (e, f) h;
  later = omega arith;
  discarded = rw f (omega arith);
}

pub mark_offline-Follows :
    (detail : Detail) (c : StepperClient) → IsIssued c → Follows c (mark_offline detail c)
unfolding mark_offline
mark_offline-Follows detail c h = record {
  issued = ground arith;
  later = ground arith;
  discarded = ground arith;
}

refresh_online-Follows :
    (now : ℕ) (c : StepperClient) → IsIssued c → Follows c (refresh_online now c)
unfolding refresh_online
refresh_online-Follows now c h =
    elim (Bool-cases (c.online && leb (c.last_reply + connection_timeout_ms) now)) [
      | inl late ↦ rw late (mark_offline-Follows timed_out c h)
      | inr fresh ↦ rw fresh (Follows-same c c h refl refl)
    ]

Follows-trans : (c d e : StepperClient) → Follows c d → Follows d e → Follows c e
Follows-trans c d e p q = record {
  issued = q.issued;
  later = omega (arith, p.later, q.later);
  discarded = omega (arith, p.discarded, q.discarded);
}

queue_command-Follows :
    (now : ℕ) (command : Text) (args : List Text) (c : StepperClient)
    → IsIssued c
    → Follows c (queue_command now command args c).0
unfolding queue_command
queue_command-Follows now command args c h =
    let r = refresh_online-Follows now c h in
    elim (Bool-cases (refresh_online now c).online) [
      | inl online ↦
          rw (online, queue_command)
            (record {
              issued = omega (arith, r.issued);
              later = omega (arith, r.later);
              discarded = r.discarded;
            })
      | inr offline ↦ rw (offline, queue_command) r
    ]

take_command-same :
    (c : StepperClient)
    → ((take_command c).0.next_seq ≡ c.next_seq)
      × ((take_command c).0.discarded_through_seq ≡ c.discarded_through_seq)
unfolding take_command
take_command-same c = elim (Bool-cases c.online) [
  | inr offline ↦ rw (offline, take_command) (refl, refl)
  | inl online ↦ elim (Option-cases c.pending_command) [
    | inr (command, p) ↦ rw (online, p, take_command) (refl, refl)
    | inl n ↦ elim (List-cases c.command_queue) [
      | inl empty ↦ rw (online, n, empty, take_command) (refl, refl)
      | inr (command, rest, q) ↦ rw (online, n, q, take_command) (refl, refl)
    ]
  ]
]

send-Follows :
    (online : Bool) (c d : StepperClient)
    → Follows c d
    → Follows c (if online then take_command d else (d, sends_request)).0
send-Follows true c d r =
    let (seqs, discards) = take_command-same d in
    Follows-trans c d (take_command d).0 r (Follows-same d _ r.issued seqs discards)
send-Follows false c d r = r

begin_send-Follows : (now : ℕ) (c : StepperClient) → IsIssued c → Follows c (begin_send now c).0
unfolding begin_send
begin_send-Follows now c h =
    send-Follows (refresh_online now c).online c (refresh_online now c)
      (refresh_online-Follows now c h)

finish_send-Follows :
    (command : Text) (c : StepperClient) → IsIssued c → Follows c (finish_send command c)
unfolding finish_send
finish_send-Follows command c h = elim (Bool-cases (is_pending command c.pending_command)) [
  | inl own ↦ rw own (Follows-same c _ h refl refl)
  | inr other ↦ rw other (Follows-same c c h refl refl)
]

Follows-kept : (c d : StepperClient) → IsIssued c → but_status d ≡ but_status c → Follows c d
Follows-kept c d h same =
    Follows-same c d h (ap (λ x. x.next_seq) same) (ap (λ x. x.discarded_through_seq) same)

finish_receive-Follows :
    (now : ℕ) (c : StepperClient) (r : StepperClient × Option WireError)
    → IsIssued c
    → but_status r.0 ≡ but_status c
    → Follows c (finish_receive now r)
unfolding mark_online
finish_receive-Follows now c (d, none) h same =
    let r = Follows-kept c d h same in
    record { issued = r.issued; later = r.later; discarded = r.discarded }
finish_receive-Follows now c (d, some e) h same =
    let r = Follows-kept c d h same in
    Follows-trans c d _ r (mark_offline-Follows (invalid_response e) d r.issued)

receive-Follows :
    (now : ℕ) (received : Received) (c : StepperClient)
    → IsIssued c
    → Follows c (receive now received c)
unfolding receive
receive-Follows now (datagram none) c h = mark_offline-Follows (invalid_response unicode_error) c h
receive-Follows now (datagram (some data')) c h =
    finish_receive-Follows now c (parse data' c) h (parse-but_status data' c)
receive-Follows now (receive_error text) c h = mark_offline-Follows (receive_failed text) c h

client_step-Follows :
    (e : ClientEvent) (c : StepperClient) → IsIssued c → Follows c (client_step e c)
unfolding client_step
client_step-Follows (queues now command args) c h = queue_command-Follows now command args c h
client_step-Follows (refreshes now) c h = refresh_online-Follows now c h
client_step-Follows (sends now) c h = begin_send-Follows now c h
client_step-Follows (sent command) c h = finish_send-Follows command c h
client_step-Follows (send_fails text) c h = mark_offline-Follows (send_failed text) c h
client_step-Follows (receives now received) c h = receive-Follows now received c h

pub client_run-Follows :
    (es : List ClientEvent) (c : StepperClient) → IsIssued c → Follows c (client_run es c)
unfolding client_run
client_run-Follows [] c h = Follows-same c c h refl refl
client_run-Follows (e ∷ es) c h =
    let r = client_step-Follows e c h in
    Follows-trans c (client_step e c) _ r (client_run-Follows es (client_step e c) r.issued)
