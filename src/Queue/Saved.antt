-- ===== src/Queue/Saved.antt =====
-- What is saved when the saver has nothing left to do: class ExposureQueueSubsystem of
-- src/chamber_ctl/subsystems/experiment_sequencer.py.
use chamber_ctl.Queue.Saver.{coalesce, saver_pass, saver_command, run_saver}
use chamber_ctl.Queue.{
  Codec, ExposureQueue, SaverCommand, save, load_state, close_saver, unknown_operation,
}
use chamber_ctl.Prelude.{Text, List, [], ◌∷◌, Option, some, true, false, ◌≡◌, All, ◌++◌, Bool, refl}

abbrev pub is_save : SaverCommand → Bool
is_save (save payload) = true
is_save load_state = false
is_save close_saver = false
is_save unknown_operation = false

module _ (codec : Codec) where
  -- The bytes that are saved once the waiting commands are carried out one by one.
  abbrev pub requested : Option Text → List SaverCommand → Option Text
  requested file [] = file
  requested file (save payload ∷ commands) =
      requested (some (codec.encode_segments payload)) commands
  requested file (load_state ∷ commands) = requested file commands
  requested file (close_saver ∷ commands) = requested file commands
  requested file (unknown_operation ∷ commands) = requested file commands

  pub requested-snoc :
      (file : Option Text) (commands : List SaverCommand) (payload : List Text)
      → requested file (commands ++ save payload ∷ []) ≡ some (codec.encode_segments payload)
  requested-snoc file [] payload = refl
  requested-snoc file (save other ∷ commands) payload =
      requested-snoc (some (codec.encode_segments other)) commands payload
  requested-snoc file (load_state ∷ commands) payload = requested-snoc file commands payload
  requested-snoc file (close_saver ∷ commands) payload = requested-snoc file commands payload
  requested-snoc file (unknown_operation ∷ commands) payload = requested-snoc file commands payload

  coalesce-requested :
      (payload : List Text) (commands : List SaverCommand)
      → All (λ command. is_save command ≡ true) commands
      → ((coalesce payload commands).1 ≡ [])
        × (some (codec.encode_segments (coalesce payload commands).0)
            ≡ requested (some (codec.encode_segments payload)) commands)
  unfolding coalesce
  coalesce-requested payload [] h = (refl, refl)
  coalesce-requested payload (save later ∷ commands) h = coalesce-requested later commands h.1
  coalesce-requested payload (load_state ∷ commands) h = cc (h.0)
  coalesce-requested payload (close_saver ∷ commands) h = cc (h.0)
  coalesce-requested payload (unknown_operation ∷ commands) h = cc (h.0)

  -- One pass that does not fail carries out all saves.
  pub saver_command-requested :
      (command : SaverCommand) (commands : List SaverCommand) (file : Option Text)
      → All (λ command. is_save command ≡ true) (command ∷ commands)
      → ((saver_command codec false command commands file).1 ≡ [])
        × ((saver_command codec false command commands file).2
            ≡ requested file (command ∷ commands))
  unfolding saver_command
  saver_command-requested (save payload) commands file h = coalesce-requested payload commands h.1
  saver_command-requested load_state commands file h = cc (h.0)
  saver_command-requested close_saver commands file h = cc (h.0)
  saver_command-requested unknown_operation commands file h = cc (h.0)

  run_saver-requested :
      (commands : List SaverCommand) (c : ExposureQueue) (file : Option Text)
      → c.save_commands ≡ commands
      → All (λ command. is_save command ≡ true) commands
      → ((run_saver codec false commands c file).0.queue ≡ c.queue)
        × ((run_saver codec false commands c file).0.save_commands ≡ [])
        × ((run_saver codec false commands c file).1 ≡ requested file commands)
  unfolding run_saver
  run_saver-requested [] c file e h = (refl, e, refl)
  run_saver-requested (command ∷ commands) c file e h =
      let done = saver_command-requested command commands file h in (refl, done.0, done.1)

  pub saver_pass-requested :
      (c : ExposureQueue) (file : Option Text)
      → All (λ command. is_save command ≡ true) c.save_commands
      → ((saver_pass codec false c file).0.queue ≡ c.queue)
        × ((saver_pass codec false c file).0.save_commands ≡ [])
        × ((saver_pass codec false c file).1 ≡ requested file c.save_commands)
  unfolding saver_pass
  saver_pass-requested c file h = run_saver-requested c.save_commands c file refl h
