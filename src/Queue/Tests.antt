-- ===== src/Queue/Tests.antt =====
-- The theorems of the exposure queue at a concrete bus and codec, and what class
-- ExposureQueueSubsystem of src/chamber_ctl/subsystems/experiment_sequencer.py does with them.
use chamber_ctl.Queue.Sound.{worker_pass-AreItems}
use chamber_ctl.Queue.Items.{IsItem}
use chamber_ctl.Queue.Started.{IsTried, start_next-IsTried}
use chamber_ctl.Queue.Restart.{saved_queue_loads}
use chamber_ctl.Queue.Waits.{wait_event_completion_ends}
use chamber_ctl.Queue.Saver.{
  saver_pass, run_saver, saver_command, coalesce, load_queue_data, read_or_reset, start_up,
  finish_load,
}
use chamber_ctl.Queue.Bus.{
  Bus, answered, wait_rounds, wait_event_completion, call_and_wait, ensure_lease, release_lease,
  write_fields, set_settings, give_up, after_prepare, call_prepare, after_lease, attempt_start,
  finish_start, start_head, start_next, release_idle, release_pending, worker_pass,
}
use chamber_ctl.Queue.{
  Codec, ExposureQueue, Loaded, object, Failure, value_error, decode_settings, normalize_item,
  normalize_items, decode_queue, bytes_item, required_fields, make_queue, request_saver_command,
  request_queue_save, finish_run, add_settings, set_items, see_parts, on_run_finalized,
  on_queue_start, on_got_subsystem, on_add_to_queue, on_queue_set, serve, serve_all, adds, Request,
  save, configures, starts,
}
use chamber_ctl.Prelude.{
  Text, List, [], ◌∷◌, none, some, true, false, Result, ok, err, ◌≡◌, refl, ap, ℕ, zero, suc, codes,
  map, ◌++◌, ltb, ◌+◌, arith, ◌<◌, get_key, ◌∙◌, ◌⊎◌, ◌-◌, ◌≤◌, All,
}

-- A coding of segments: each code counts one more, and 0 ends a segment.
abbrev encode_texts : List Text → Text
encode_texts [] = []
encode_texts (t ∷ ts) = map suc t ++ 0 ∷ encode_texts ts

abbrev push_code : ℕ → List Text → List Text
push_code c [] = (c ∷ []) ∷ []
push_code c (t ∷ ts) = (c ∷ t) ∷ ts

abbrev decode_texts : Text → List Text
decode_texts [] = []
decode_texts (zero ∷ cs) = [] ∷ decode_texts cs
decode_texts (suc c ∷ cs) = push_code c (decode_texts cs)

decode_texts-append : (t rest : Text) → decode_texts (map suc t ++ 0 ∷ rest) ≡ t ∷ decode_texts rest
decode_texts-append [] rest = refl
decode_texts-append (c ∷ t) rest = ap (push_code c) (decode_texts-append t rest)

decode_texts-encode_texts : (l : List Text) → decode_texts (encode_texts l) ≡ l
decode_texts-encode_texts [] = refl
decode_texts-encode_texts (t ∷ ts) =
    decode_texts-append t (encode_texts ts) ∙ ap (λ l. t ∷ l) (decode_texts-encode_texts ts)

segments-encode_segments :
    (l : List Text)
    → ◌≡◌ {A = Result Failure (List Text)} (ok (decode_texts (encode_texts l))) (ok l)
segments-encode_segments l = ap (λ x. ok x) (decode_texts-encode_texts l)

-- Every text but the empty one is an object with all fields.
abbrev loads_text : Text → Result Failure Loaded
loads_text [] = err value_error
loads_text t = ok (object (map (λ field. (field, some t)) required_fields))

abbrev codec : Codec
codec = record {
  json_loads = loads_text;
  get_dict = λ d. d;
  segments = λ t. ok (decode_texts t);
  encode_segments = encode_texts;
  decode_lossy = λ t. t;
}

-- The world is the time; an event takes 150 ms and succeeds.
abbrev bench : Bus ℕ ℕ
bench = record {
  call = λ event now. (some now, now);
  is_in_progress = λ begun now. ltb now (begun + 150);
  state_is_ok = λ begun now. true;
  result_of = λ begun now. none;
  set_setting = λ key value now. (answered (some []) false none, suc now);
  monotonic = λ now. now;
  sleep = λ duration now. duration + now;
  op_ok = codes "OK";
}

sleeps_long : (now : ℕ) → now < 100 + now
sleeps_long now = omega arith

wait_event_completion_ends_example :
    let left = (wait_event_completion bench 7 10000 7).1 in
    (wait_rounds bench 20000 7 10000 (bench.monotonic 7) 7 ≡ left)
    × ((bench.is_in_progress 7 left ≡ false) ⊎ (10000 ≤ bench.monotonic left - bench.monotonic 7))
wait_event_completion_ends_example =
    wait_event_completion_ends bench sleeps_long 20000 7 10000 7 (omega arith)

running : Unit {0}
unfolding decode_settings normalize_item normalize_items decode_queue make_queue
    request_saver_command request_queue_save finish_run add_settings set_items see_parts
    on_run_finalized on_queue_start on_got_subsystem on_add_to_queue on_queue_set serve serve_all
    wait_rounds wait_event_completion call_and_wait ensure_lease release_lease write_fields
    set_settings give_up after_prepare call_prepare after_lease attempt_start finish_start
    start_head start_next release_idle release_pending worker_pass coalesce read_or_reset
    load_queue_data saver_command run_saver saver_pass finish_load start_up get_key
running = tt

-- Two saves wait for the saver.
abbrev saving : ExposureQueue
saving = record make_queue {
  save_commands = save (codes "first" ∷ []) ∷ save (codes "first" ∷ codes "second" ∷ []) ∷ [];
}

saving-save_commands :
    saving.save_commands
    ≡ (save (codes "first" ∷ []) ∷ []) ++ save (codes "first" ∷ codes "second" ∷ []) ∷ []
saving-save_commands = refl

both-IsItem : All (IsItem codec) (codes "first" ∷ codes "second" ∷ [])
unfolding running
both-IsItem = ((_, refl), ((_, refl), tt))

saved_queue_loads_example :
    let (c, file') = saver_pass codec false saving none in
    (c.save_commands ≡ [])
    × (c.queue ≡ saving.queue)
    × ((load_queue_data codec file').0 ≡ ok (codes "first" ∷ codes "second" ∷ []))
    × ((start_up codec file').0.queue ≡ codes "first" ∷ codes "second" ∷ [])
saved_queue_loads_example =
    saved_queue_loads codec segments-encode_segments saving none (save (codes "first" ∷ []) ∷ [])
      (codes "first" ∷ codes "second" ∷ []) saving-save_commands (refl, tt) both-IsItem

-- Before the worker starts an item, and after it has.
abbrev waiting : ExposureQueue
waiting = record make_queue { queue = codes "first" ∷ codes "second" ∷ []; configured = true }

abbrev meanwhile : List Request
meanwhile = adds (bytes_item (codes "third")) ∷ []

abbrev after_start : ExposureQueue × ℕ
unfolding running
after_start = elim (start_next bench codec meanwhile waiting 5) [
  | ok r ↦ r
  | err failure ↦ (waiting, 0)
]

starts_first : start_next bench codec meanwhile waiting 5 ≡ ok after_start
unfolding running
starts_first = refl

-- The first item is gone, and the third is there.
first_leaves :
    (after_start.0.queue ≡ codes "second" ∷ codes "third" ∷ []) × (after_start.0.lease_owned ≡ true)
unfolding running
first_leaves = (refl, refl)

waiting-configured : waiting.configured ≡ true
waiting-configured = refl

waiting-first : waiting.queue ≡ codes "first" ∷ codes "second" ∷ []
waiting-first = refl

start_next-IsTried_example : IsTried bench codec meanwhile (codes "first") waiting after_start
start_next-IsTried_example =
    start_next-IsTried bench codec meanwhile (codes "first") (codes "second" ∷ []) waiting 5
      after_start waiting-configured waiting-first starts_first

-- `__request_queue_save` copies the queue and puts the command in two steps. If the worker has copied
-- it before an item is added and puts its command after that, the saved queue lacks the item.
abbrev raced : ExposureQueue
unfolding running
raced =
    request_saver_command (save waiting.queue)
      (serve codec (adds (bytes_item (codes "third"))) waiting)

late_save_loses :
    (raced.queue ≡ codes "first" ∷ codes "second" ∷ codes "third" ∷ [])
    × ((load_queue_data codec (saver_pass codec false raced none).1).0
        ≡ ok (codes "first" ∷ codes "second" ∷ []))
unfolding running
late_save_loses = (refl, refl)

abbrev requests : List Request
requests = configures ∷ adds (bytes_item (codes "second")) ∷ starts ∷ []

worker_pass-AreItems_example :
    (r : ExposureQueue × ℕ) × (worker_pass bench codec meanwhile
        (serve_all codec requests waiting)
        5
      ≡ ok r)
    × All (IsItem codec) r.0.queue
worker_pass-AreItems_example =
    worker_pass-AreItems codec bench requests meanwhile waiting 5 both-IsItem
