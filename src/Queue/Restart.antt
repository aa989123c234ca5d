-- ===== src/Queue/Restart.antt =====
-- The queue that a restart finds after a save: class ExposureQueueSubsystem of
-- src/chamber_ctl/subsystems/experiment_sequencer.py.
use chamber_ctl.Queue.Items.{IsItem, decode-encode}
use chamber_ctl.Queue.Saved.{is_save, requested, requested-snoc, saver_pass-requested}
use chamber_ctl.Queue.Saver.{
  saver_pass, load_queue_data, start_up, finish_load, saver_command, read_or_reset,
}
use chamber_ctl.Queue.{Codec, ExposureQueue, SaverCommand, save, make_queue}
use chamber_ctl.Prelude.{
  Text, List, [], ◌∷◌, Option, some, true, false, ok, ◌≡◌, refl, All, ◌∙◌, ◌++◌, All-append, subst,
  sym,
}

module _ (codec : Codec)
    (back : (l : List Text) → codec.segments (codec.encode_segments l) ≡ ok l) where
  encoded-loads :
      (items : List Text)
      → All (IsItem codec) items
      → (load_queue_data codec (some (codec.encode_segments items))).0 ≡ ok items
  unfolding load_queue_data read_or_reset
  encoded-loads items valid = rw (decode-encode codec back items valid) refl

  loaded-starts :
      (file : Option Text) (items : List Text)
      → (load_queue_data codec file).0 ≡ ok items
      → (start_up codec file).0.queue ≡ items
  unfolding start_up saver_command finish_load make_queue
  loaded-starts file items loaded = rw loaded refl

  -- Whatever saves wait, a pass of the saver that does not fail leaves no command and the queue as it
  -- was, and a restart after it loads exactly the items of the save that was put last and starts with
  -- them as its queue, if each of them decodes and segment_bytes decodes what it encodes.
  pub saved_queue_loads :
      (c : ExposureQueue) (file : Option Text) (earlier : List SaverCommand) (items : List Text)
      → c.save_commands ≡ earlier ++ save items ∷ []
      → All (λ command. is_save command ≡ true) earlier
      → All (IsItem codec) items
      → let (d, file') = saver_pass codec false c file in
        (d.save_commands ≡ [])
        × (d.queue ≡ c.queue)
        × ((load_queue_data codec file').0 ≡ ok items)
        × ((start_up codec file').0.queue ≡ items)
  saved_queue_loads c file earlier items put saves valid =
      let waiting : All (λ command. is_save command ≡ true) c.save_commands =
        subst (All (λ command. is_save command ≡ true)) (sym put) (
          All-append (λ command. is_save command ≡ true) earlier (save items ∷ []) saves
            (refl, tt)) in
      let (same, done, saved) = saver_pass-requested codec c file waiting in
      let written : (saver_pass codec false c file).1 ≡ some (codec.encode_segments items) =
        saved
        ∙ (subst (λ l. requested codec file l ≡ requested codec file (earlier ++ save items ∷ []))
              (sym put) refl
            ∙ requested-snoc codec file earlier items) in
      let loads : (load_queue_data codec (saver_pass codec false c file).1).0 ≡ ok items =
        subst (λ f. (load_queue_data codec f).0 ≡ ok items) (sym written)
          (encoded-loads items valid) in
      (done, same, loads, loaded-starts _ items loads)
