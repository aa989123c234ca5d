-- ===== src/Queue/Sound.antt =====
-- The queue holds only items that can be started: class ExposureQueueSubsystem of
-- src/chamber_ctl/subsystems/experiment_sequencer.py.
use chamber_ctl.Queue.Items.{IsItem, normalize_item-IsItem, decode_queue-IsItem}
use chamber_ctl.Queue.Worker.{
  IsKept, if-both, attempt_start-ok, release_idle-IsKept, release_pending-IsKept,
}
use chamber_ctl.Queue.Bus.{
  Bus, finish_start, without_head, start_head, start_next, worker_pass, release_pending,
  release_idle,
}
use chamber_ctl.Queue.{
  Codec, ExposureQueue, Request, serve, serve_all, adds, sets, starts, configures, finalizes,
  on_add_to_queue, on_queue_set, on_queue_start, on_got_subsystem, on_run_finalized, add_settings,
  set_items, see_parts, finish_run, request_queue_save, request_saver_command, Failure,
  is_last_seen, normalize_item, decode_queue,
}
use chamber_ctl.Prelude.{
  Text, List, [], ◌∷◌, Option, none, some, Bool, true, false, Result, ok, err, ◌≡◌, refl, sym,
  subst, All, All-append, text_eq,
}

module _ (codec : Codec) where
  abbrev pub AreItems : ExposureQueue → Type 0
  AreItems c = All (IsItem codec) c.queue

  kept-AreItems : (c d : ExposureQueue) → IsKept c d → AreItems c → AreItems d
  kept-AreItems c d kept items = subst (All (IsItem codec)) (sym kept.0) items

  add_settings-AreItems :
      (r : Result Failure Text) (c : ExposureQueue)
      → ((value : Text) → r ≡ ok value → IsItem codec value)
      → AreItems c
      → AreItems (add_settings r c).1
  unfolding add_settings request_queue_save request_saver_command
  add_settings-AreItems (err failure) c decodes items = items
  add_settings-AreItems (ok value) c decodes items =
      All-append (IsItem codec) c.queue (value ∷ []) items (decodes value refl, tt)

  set_items-AreItems :
      (r : Result Failure (List Text)) (c : ExposureQueue)
      → ((values : List Text) → r ≡ ok values → All (IsItem codec) values)
      → AreItems c
      → AreItems (set_items r c).1
  unfolding set_items request_queue_save request_saver_command
  set_items-AreItems (err failure) c decodes items = items
  set_items-AreItems (ok values) c decodes items = decodes values refl

  finish_run-IsKept : (stopped : Option Bool) (c : ExposureQueue) → IsKept c (finish_run stopped c)
  unfolding finish_run
  finish_run-IsKept none c = (refl, refl)
  finish_run-IsKept (some true) c = (refl, refl)
  finish_run-IsKept (some false) c = (refl, refl)

  see_parts-IsKept :
      (r : Result Failure (List Text)) (c : ExposureQueue) → IsKept c (see_parts codec r c)
  unfolding see_parts
  see_parts-IsKept (err failure) c = (refl, refl)
  see_parts-IsKept (ok parts) c = finish_run-IsKept _ c

  on_run_finalized-IsKept :
      (value : Option Text) (c : ExposureQueue) → IsKept c (on_run_finalized codec value c)
  unfolding on_run_finalized
  on_run_finalized-IsKept none c = (refl, refl)
  on_run_finalized-IsKept (some value) c =
      if-both (IsKept c) (is_last_seen value c.last_seen_finalized_payload) (refl, refl)
        (see_parts-IsKept (codec.segments value)
          (record c { last_seen_finalized_payload = some value }))

  serve-AreItems :
      (request : Request) (c : ExposureQueue) → AreItems c → AreItems (serve codec request c)
  unfolding serve on_add_to_queue on_queue_set on_queue_start on_got_subsystem
  serve-AreItems (adds item) c items =
      add_settings-AreItems (normalize_item codec item) c (normalize_item-IsItem codec item) items
  serve-AreItems (sets payload) c items =
      set_items-AreItems (decode_queue codec payload) c (decode_queue-IsItem codec payload) items
  serve-AreItems starts c items = items
  serve-AreItems configures c items = items
  serve-AreItems (finalizes value) c items =
      kept-AreItems c (on_run_finalized codec value c) (on_run_finalized-IsKept value c) items

  serve_all-AreItems :
      (requests : List Request) (c : ExposureQueue)
      → AreItems c
      → AreItems (serve_all codec requests c)
  unfolding serve_all
  serve_all-AreItems [] c items = items
  serve_all-AreItems (r ∷ rs) c items =
      serve_all-AreItems rs (serve codec r c) (serve-AreItems r c items)

  without_head-IsItem :
      (item : Text) (q : List Text)
      → All (IsItem codec) q
      → All (IsItem codec) (without_head item q)
  without_head-IsItem item [] h = tt
  without_head-IsItem item (head ∷ items) h =
      if-both (All (IsItem codec)) (text_eq head item) (h.1) h

  finish_start-AreItems :
      (item : Text) (started : Bool) (c : ExposureQueue)
      → AreItems c
      → AreItems (finish_start item started c)
  unfolding finish_start request_queue_save request_saver_command
  finish_start-AreItems item false c items = items
  finish_start-AreItems item true c items = without_head-IsItem item c.queue items

  module _ {W H : Type 0} (bus : Bus W H) where
    start_head-ok :
        (meanwhile : List Request) (q : List Text) (c : ExposureQueue) (w : W)
        → All (IsItem codec) q
        → AreItems c
        → (r : ExposureQueue × W) × (start_head bus codec meanwhile q c w ≡ ok r) × AreItems r.0
    unfolding start_head
    start_head-ok meanwhile [] c w valid items =
        (_, refl, kept-AreItems c (release_idle bus c w).0 (release_idle-IsKept bus c w) items)
    start_head-ok meanwhile (item ∷ q) c w valid items =
        let ((started, d, v), tried, kept) = attempt_start-ok bus codec item c w (valid.0) in
        (
          (finish_start item started (serve_all codec meanwhile d), v),
          rw tried refl,
          finish_start-AreItems item started (serve_all codec meanwhile d)
              (serve_all-AreItems meanwhile d (kept-AreItems c d kept items)),
        )

    -- Whatever calls of the bus a queue has served whose items all decoded before, a pass of the worker
    -- raises nothing, whatever it serves while an item is started, and all items decode after it.
    pub worker_pass-AreItems :
        (before meanwhile : List Request) (c : ExposureQueue) (w : W)
        → All (IsItem codec) c.queue
        → (r : ExposureQueue × W) × (worker_pass bus codec meanwhile (serve_all codec before c) w
            ≡ ok r)
          × All (IsItem codec) r.0.queue
    unfolding worker_pass start_next
    worker_pass-AreItems before meanwhile c w valid =
        let s = serve_all codec before c in
        let (d, v) = release_pending bus s w in
        let calm =
          kept-AreItems s d (release_pending-IsKept bus s w) (serve_all-AreItems before c valid) in
        let advancing = record d { pending_queue_advance = false } in
        if-both (λ x. (r : ExposureQueue × W) × (x ≡ ok r) × AreItems r.0) d.pending_queue_advance
          (start_head-ok meanwhile d.queue advancing v calm calm) ((d, v), refl, calm)
