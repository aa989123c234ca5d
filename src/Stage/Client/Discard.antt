-- ===== src/Stage/Client/Discard.antt =====
-- A command that is lost with the connection is not waited for: class StepperClient of
-- src/chamber_ctl/subsystems/sample_motion.py.
use chamber_ctl.Stage.Client.Wait.{
  client_run, wait_flush_pass, ClientEvent, wait_ack_pass, raises, check_wait, raise_if_discarded,
  Waiting, is_busy, keep_waiting, returns,
}
use chamber_ctl.Stage.Client.{
  StepperClient, mark_offline, Detail, make_client, command_discarded, detail_or, connection_lost,
  Fault,
}
use chamber_ctl.Prelude.{
  false, pos, ltb_ℤ, ◌≡◌, arith, ◌<ℤ◌, ◌≤ℤ◌, ℕ, List, refl, Bool, ◌<◌, some, ℤ, if◌then◌else◌, ◌⊎◌,
  inl, inr, Bool-cases,
}
use chamber_ctl.Stage.Client.Follows.{IsIssued, mark_offline-Follows, client_run-Follows}

make_client-IsIssued : IsIssued make_client
unfolding make_client
make_client-IsIssued = omega arith

lost-through :
    (detail : Detail) (c : StepperClient) (n : ℕ)
    → c.last_ack_seq <ℤ pos n
    → n < c.next_seq
    → pos n ≤ℤ (mark_offline detail c).discarded_through_seq
unfolding mark_offline
lost-through detail c n h i = ground arith

discarded-fault :
    (n : ℕ) (d : StepperClient)
    → pos n ≤ℤ d.discarded_through_seq
    → raise_if_discarded (pos n) d
      ≡ some (command_discarded (detail_or connection_lost d.discarded_command_error))
unfolding raise_if_discarded
discarded-fault n d h =
    let gone : ltb_ℤ d.discarded_through_seq (pos n) ≡ false = ground arith in
    let issued : ltb_ℤ (pos n) (pos 0) ≡ false = ground arith in rw (gone, issued) refl

check_wait-discarded :
    (now : ℕ) (target : ℤ) (d : StepperClient) (next : Waiting) (fault : Fault)
    → raise_if_discarded target d ≡ some fault
    → (check_wait now target d next).1 ≡ raises fault
unfolding check_wait
check_wait-discarded now target d next fault h = cc h

-- `wait_flush` raises for the command, and so does `wait_ack`, unless the command is acknowledged.
abbrev pub IsGone : (now n : ℕ) → Bool → StepperClient → Type 0
IsGone now n late d =
    ((f : Detail) × ((wait_flush_pass now (pos n) late d).1 ≡ raises (command_discarded f)))
    × ((pos n ≤ℤ d.last_ack_seq)
        ⊎ ((f : Detail) × ((wait_ack_pass now (pos n) late d).1 ≡ raises (command_discarded f))))

discarded-IsGone :
    (now n : ℕ) (late : Bool) (d : StepperClient)
    → pos n ≤ℤ d.discarded_through_seq
    → IsGone now n late d
unfolding wait_flush_pass wait_ack_pass
discarded-IsGone now n late d h =
    let fault = detail_or connection_lost d.discarded_command_error in
    let raised : (next : Waiting)
        → (check_wait now (pos n) d next).1 ≡ raises (command_discarded fault) =
      λ next.
        check_wait-discarded now (pos n) d next (command_discarded fault) (discarded-fault n d h) in
    (
      (fault, raised (if is_busy d then keep_waiting late else returns)),
      elim (Bool-cases (ltb_ℤ d.last_ack_seq (pos n))) [
        | inl waits ↦ inr (fault, rw waits (raised (keep_waiting late)))
        | inr over ↦ inl (ground (arith, over))
      ],
    )

-- A command that was issued but not acknowledged when the connection was lost is not waited for:
-- whatever happens later, a pass of `wait_flush` raises for it, and so does one of `wait_ack` unless
-- the command is acknowledged by then.
pub lost_command_raises :
    (before_loss : List ClientEvent) (detail : Detail) (es : List ClientEvent) (now n : ℕ)
    (late : Bool)
    → let c = client_run before_loss make_client in
      c.last_ack_seq <ℤ pos n
      → n < c.next_seq
      → IsGone now n late (client_run es (mark_offline detail c))
lost_command_raises before_loss detail es now n late unacknowledged issued =
    let c = client_run before_loss make_client in
    let start = client_run-Follows before_loss make_client make_client-IsIssued in
    let down = mark_offline-Follows detail c start.issued in
    let r = client_run-Follows es (mark_offline detail c) down.issued in
    let through = lost-through detail c n unacknowledged issued in
    discarded-IsGone now n late (client_run es (mark_offline detail c))
      (omega (arith, through, r.discarded))
