-- ===== src/Stage/Wire/Commands.antt =====
-- What the client queues is what the stage obeys: class StepperClient of
-- src/chamber_ctl/subsystems/sample_motion.py against
-- sample-stage-ctl/src/sample_stage_ctl/protocol.py.
use chamber_ctl.Stage.Client.{
  queue_move, StepperClient, queue_set, queue_home, Fault, queue_command, refresh_online,
}
use chamber_ctl.Stage.Wire.{
  parse_datagram, apply_command, handle_datagram, StageCommand, comma, accept_request,
  apply_request, whole, request_of, stage_command, order_stepper, truth, StepperNetworkComm,
  stepper_at, command_of, connection_request, Argument,
}
use chamber_ctl.Stage.Driver.{move, put, home, Order, StepperController, on_stepper, obey}
use chamber_ctl.Prelude.{
  ok, some, [], ◌∷◌, true, false, pos, ◌>>=◌, Text, join, show_int, ℤ, Bool, ℕ, All, Lacks, IsSolid,
  List, show_nat, if◌then◌else◌, text_eq, IsPlain, All-map, All-append, split, show_int-IsPlain,
  IsNumeral, codes, arith, ◌≡◌, Result, strip, ◌==◌, ap, refl, read-show_int, show_nat-IsNumeral,
  strip-solid, ◌++◌, ◌∙◌, split-join,
}

-- Words without white space, commas and semicolons.
abbrev pub IsWord : Text → Type 0
IsWord = All IsPlain

pub word-Lacks-comma : (t : Text) → IsWord t → Lacks comma t
word-Lacks-comma t h = All-map t (λ c p. p.1) h

pub word-IsSolid : (t : Text) → IsWord t → IsSolid t
word-IsSolid t h = All-map t (λ c p. p.0) h

pub join-All {κ} :
    (P : ℕ → Type κ) (sep : ℕ) (words : List Text)
    → P sep
    → All (All P) words
    → All P (join sep words)
unfolding join
join-All P sep [] s h = tt
join-All P sep (word ∷ []) s h = h.0
join-All P sep (word ∷ next ∷ words) s h =
    All-append P word _ h.0 (s, join-All P sep (next ∷ words) s h.1)

pub fields-joined :
    (word : Text) (words : List Text)
    → All IsWord (word ∷ words)
    → split comma (strip (join comma (word ∷ words))) ≡ word ∷ words
fields-joined word words h =
    ap (split comma) (
      strip-solid (join comma (word ∷ words)) (
        join-All _ comma (word ∷ words) (ground arith)
          (All-map (word ∷ words) (λ t p. word-IsSolid t p) h)))
    ∙ split-join comma word words (All-map (word ∷ words) (λ t p. word-Lacks-comma t p) h)

pub show_nat-IsWord : (n : ℕ) → IsWord (show_nat n)
unfolding show_int
show_nat-IsWord n = show_int-IsPlain (pos n)

numeral-not_request : (t : Text) → All IsNumeral t → text_eq t (codes "REQ_CONN") ≡ false
numeral-not_request [] h = refl
numeral-not_request (c ∷ t) h =
    let apart : (c == b'R') ≡ false = ground (arith, h.0) in rw apart refl

-- The texts that an order is sent with.
abbrev pub order_words : Order → ℤ → List Text
order_words (move target) stepper = codes "MOVE" ∷ show_int stepper ∷ show_int target ∷ []
order_words (put position) stepper = codes "SET" ∷ show_int stepper ∷ show_int position ∷ []
order_words (home state speed) stepper =
    codes "HOME" ∷ show_int stepper ∷ (if state then codes "T" else codes "F") ∷ show_int speed ∷ []

abbrev pub order_name : Order → Text
order_name (move target) = codes "MOVE"
order_name (put position) = codes "SET"
order_name (home state speed) = codes "HOME"

abbrev pub order_arguments : Order → ℤ → List Argument
order_arguments (move target) stepper = whole stepper ∷ whole target ∷ []
order_arguments (put position) stepper = whole stepper ∷ whole position ∷ []
order_arguments (home state speed) stepper = whole stepper ∷ truth state ∷ whole speed ∷ []

abbrev pub order_command : Text → Order → ℤ → StageCommand
order_command sequence o stepper = record {
  sequence = sequence;
  name = order_name o;
  arguments = order_arguments o stepper;
}

truth_flag-IsWord : (b : Bool) → IsWord (if b then codes "T" else codes "F")
truth_flag-IsWord true = ground arith
truth_flag-IsWord false = ground arith

order_words-IsWord : (o : Order) (stepper : ℤ) → All IsWord (order_words o stepper)
order_words-IsWord (move target) stepper =
    (ground arith, (show_int-IsPlain stepper, (show_int-IsPlain target, tt)))
order_words-IsWord (put position) stepper =
    (ground arith, (show_int-IsPlain stepper, (show_int-IsPlain position, tt)))
order_words-IsWord (home state speed) stepper = (
  ground arith,
  (show_int-IsPlain stepper, (truth_flag-IsWord state, (show_int-IsPlain speed, tt))),
)

request_of-named :
    (sequence : Text) (words : List Text)
    → text_eq sequence (codes "REQ_CONN") ≡ false
    → request_of (sequence ∷ words) ≡ command_of sequence (sequence ∷ words)
request_of-named sequence words n =
    ap (λ b. if b then ok connection_request else command_of sequence (sequence ∷ words)) n

command_of-order :
    (sequence : Text) (o : Order) (stepper : ℤ)
    → command_of sequence (sequence ∷ order_words o stepper)
      ≡ ok (stage_command (order_command sequence o stepper))
command_of-order sequence (move target) stepper = cc (read-show_int stepper, read-show_int target)
command_of-order sequence (put position) stepper =
    cc (read-show_int stepper, read-show_int position)
command_of-order sequence (home true speed) stepper =
    cc (read-show_int stepper, read-show_int speed)
command_of-order sequence (home false speed) stepper =
    cc (read-show_int stepper, read-show_int speed)

-- A queued order is read back as it was given.
parse_datagram-order :
    (n : ℕ) (o : Order) (stepper : ℤ)
    → parse_datagram (some (join comma (show_nat n ∷ order_words o stepper)))
      ≡ ok (stage_command (order_command (show_nat n) o stepper))
unfolding parse_datagram
parse_datagram-order n o stepper =
    rw
      (fields-joined (show_nat n) (order_words o stepper)
        (show_nat-IsWord n, order_words-IsWord o stepper))
      (request_of-named (show_nat n) (order_words o stepper)
          (numeral-not_request (show_nat n) (show_nat-IsNumeral n))
        ∙ command_of-order (show_nat n) o stepper)

apply_command-order :
    (sequence : Text) (o : Order) (stepper : ℤ) (c : StepperController)
    → apply_command (order_command sequence o stepper) c ≡ order_stepper stepper o c
unfolding apply_command
apply_command-order sequence (move target) stepper c = refl
apply_command-order sequence (put position) stepper c = refl
apply_command-order sequence (home state speed) stepper c = refl

-- The client's method for an order.
abbrev pub queue_order : ℕ → ℤ → Order → StepperClient → StepperClient × Result Fault (Unit {0})
queue_order now stepper (move target) = queue_move now stepper target
queue_order now stepper (put position) = queue_set now stepper position
queue_order now stepper (home state speed) = queue_home now stepper state speed

queue_order-queued :
    (now : ℕ) (stepper : ℤ) (o : Order) (k : StepperClient)
    → (refresh_online now k).online ≡ true
    → (queue_order now stepper o k).0.command_queue
      ≡ (refresh_online now k).command_queue
        ++ join comma (show_nat (refresh_online now k).next_seq ∷ order_words o stepper) ∷ []
unfolding queue_move queue_set queue_home queue_command
queue_order-queued now stepper (move target) k online = rw online refl
queue_order-queued now stepper (put position) k online = rw online refl
queue_order-queued now stepper (home state speed) k online = rw online refl

order_stepper-found :
    (stepper : ℤ) (o : Order) (c : StepperController) {i : ℕ}
    → stepper_at stepper c ≡ some i
    → order_stepper stepper o c ≡ ok (on_stepper i (obey o) c)
unfolding order_stepper
order_stepper-found stepper o c found = rw (found, order_stepper) refl

handle-order :
    (number : ℕ) (o : Order) (stepper : ℤ) (address : ℕ) (n : StepperNetworkComm) {i : ℕ}
    → stepper_at stepper n.controller ≡ some i
    → handle_datagram (some (join comma (show_nat number ∷ order_words o stepper))) address n
      ≡ ok (record n {
        controller = on_stepper i (obey o) n.controller;
        current_sequence = show_nat number;
      })
unfolding handle_datagram accept_request apply_request
handle-order number o stepper address n {i} found =
    let command = order_command (show_nat number) o stepper in
    let accepted = record n { current_sequence = show_nat number } in
    let parsed : handle_datagram (some (join comma (show_nat number ∷ order_words o stepper)))
          address n
        ≡ apply_request (stage_command command) accepted =
      ap (λ r. r >>= λ request. apply_request request (accept_request request address n))
        (parse_datagram-order number o stepper) in
    let obeyed : apply_command command n.controller ≡ ok (on_stepper i (obey o) n.controller) =
      apply_command-order (show_nat number) o stepper n.controller
      ∙ order_stepper-found stepper o n.controller found in
    let applied : apply_request (stage_command command) accepted
        ≡ ok (record accepted { controller = on_stepper i (obey o) n.controller }) =
      ap (λ r. r >>= λ c. ok (record accepted { controller = c })) obeyed in
    parsed ∙ applied

-- While the client is online, what `queue_move`, `queue_set` and `queue_home` queue for an axis that
-- the stage has is a datagram that the stage obeys on that axis, and whose number it takes over as
-- the one to acknowledge.
pub queue_order_obeyed :
    (now : ℕ) (stepper : ℤ) (o : Order) (k : StepperClient) (address : ℕ) (n : StepperNetworkComm)
    {i : ℕ}
    → (refresh_online now k).online ≡ true
    → stepper_at stepper n.controller ≡ some i
    → (message : Text) × ((queue_order now stepper o k).0.command_queue
        ≡ (refresh_online now k).command_queue ++ message ∷ [])
      × (handle_datagram (some message) address n
          ≡ ok (record n {
            controller = on_stepper i (obey o) n.controller;
            current_sequence = show_nat (refresh_online now k).next_seq;
          }))
queue_order_obeyed now stepper o k address n {i} online found =
    let number = (refresh_online now k).next_seq in
    (
      join comma (show_nat number ∷ order_words o stepper),
      queue_order-queued now stepper o k online,
      handle-order number o stepper address n found,
    )
