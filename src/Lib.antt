-- ===== src/Lib.antt =====
-- Verification of chamber-ctl, the control software of an EUV exposure chamber.
--
-- The program is a set of subsystems on a message bus. The ones modelled here decide what the
-- hardware does next.
--
-- * The sample stage service (sample-stage-ctl/src/sample_stage_ctl) turns stepper motors on a
--   Raspberry Pi. Each `Stepper` has a thread that makes one step at a time with an acceleration
--   profile; the `StepperController` has a thread that powers the motors when one of them wants to
--   move and cuts the power after ten idle seconds; a limit switch ends the homing of its motor.
--   The threads share the objects. Stage/Stepper.antt models class `Stepper` (`set_target`,
--   `trig_home`, `_advance_once` and the rest have the same names), Stage/Driver.antt models class
--   `StepperController`. The state is a record of the attributes; a method is a function from record
--   to record. The thread of `StepperController` and a `disable_now` of another thread are taken in
--   single steps, and the interleaving of threads is a list of `Event`s, of any length and order.
--   The service is driven by datagrams: Stage/Wire.antt models protocol.py of the service, and
--   Stage/Client.antt with Stage/Client/Wait.antt the other side, class `StepperClient` of
--   src/chamber_ctl/subsystems/sample_motion.py. A datagram is its text; bytes that are not UTF-8
--   are none. `int()` reads ASCII digits with a sign and white space around them.
-- * The batcher (src/chamber_ctl/subsystems/batcher.py) keeps the plan of a batch of exposures and
--   decides from the runs done so far whether to wait, to repair metrics, to pause or to start the
--   next exposure. Batch/Plan.antt models the plan, Batch/Settings.antt the settings of an exposure,
--   Batch/Generate.antt the generators that assign targets to samples,
--   Batch/Attempt.antt what is known of a run and of a sample's progress, Batch/Decision.antt the
--   decisions, and Batch/Assess.antt with its children the function `assess_batch`, one definition
--   for each stage that may return early.
-- * The coordinator of a batch (class `BatchCoordinator` of the same file) polls the history and the
--   controller, has metrics repaired, counts failures, holds errors until it is resumed, and starts
--   exposures. Batch/Coordinator.antt has its state and the methods that read no source,
--   Batch/Coordinator/Poll.antt `poll_once` and `start_next`. The sources (BatchHistorySource,
--   ControllerStateSource and the clock) are a record of functions over a world that each call may
--   change; nothing is assumed of them but what a theorem says.
-- * The manifest repository (class `BatchManifestRepository` of
--   src/chamber_ctl/subsystems/batch_storage.py) keeps the plan of each batch with its revisions.
--   Batch/Manifest.antt models the manifest, Batch/Storage.antt the operations over any database,
--   Batch/Storage/Listing.antt the listings. What is assumed of the database is the record
--   `IsLibrary` of Batch/Storage/Resources.antt: a resource holds what was written to it last.
--   Batch/Service.antt models how the service that runs a batch (class `BatchControllerSubsystem` of
--   src/chamber_ctl/subsystems/batch_controller.py) starts from it: `_load_manifests`.
--   Batch/Service/Proc.antt says what its functions are: state passing with exceptions that keep
--   what was changed before them. Batch/Service/Steps.antt and Batch/Service/Poll.antt model the
--   polling (`_poll_active`, `_ensure_active_runtime`, `_sync_active_control`, `_finish_active`) over
--   the coordinator, the repository and the lease of the exposure controller;
--   Batch/Service/Commands.antt, Batch/Service/Execute.antt and Batch/Service/Withdraw.antt the
--   commands (`_execute_command`), Batch/Service/Loop.antt the passes of `_worker`. A command has its
--   arguments parsed, whether a poll is due is an input of each pass, and the source of the exposure
--   controller, which is made when the bus is ready, is there.
-- * The exposure queue (class `ExposureQueueSubsystem` of
--   src/chamber_ctl/subsystems/experiment_sequencer.py) holds encoded settings, starts the first of
--   them when a run has stopped, and saves itself in another thread. Queue.antt models its state and
--   the handlers of the bus, Queue/Bus.antt the lease, the start and the worker over any bus,
--   Queue/Saver.antt the saver and the start. A handler runs on its own here; the program puts its
--   save command after it has released the lock of the queue, so that another thread may come between,
--   and what is said of the saver is about the commands in the order in which they were put.
--
-- Prelude.antt and its children hold what these share: Booleans, lists over the native numbers,
-- integers, texts as lists of character codes, and Python's floats.
--
-- Numbers. Python's int is ℕ or ℤ. A float is NaN, an infinity or a multiple of 2^-1074, and sums of
-- finite floats are exact: rounding and overflow to infinity are not modelled, so a statement about
-- a dose or a time holds up to rounding. A stepper's velocity v is kept as the number v * |v|,
-- which the source's square roots give up to rounding. Times of the power controller,
-- of the stage's client and of the queue are milliseconds.
--
-- Fuel. The loops of the stage, of the plan and of `assess_batch` are over lists and need none.
-- A wait of the queue for an event has one round of fuel for each millisecond of its timeout, and one
-- more; a round sleeps 100 ms.
-- `poll_once` loops while runs are to be repaired, which ends only if the history does not show ever
-- new runs; Batch/Coordinator/Poll.antt gives that loop fuel, and answers none without it. The batch
-- service has the fuel of each poll in `Plant`, and one round more than there are runs is enough.
--
-- Not modelled: threads, sockets, GPIO, the message bus, the database, printing, and the texts of
-- messages, which are the constructors of a data type. An exception is an `err` of a result type.
-- Of the sample motion subsystem only the client is modelled. The batch service is modelled without
-- its JSON, what it publishes, the progress text of a start, and its shutdown.
-- The other subsystems (lasers, chopper, target, oscilloscopes, acquisition), the data analysis and
-- the user interfaces are not modelled: they are device protocols, array work and widgets.
pub mod Prelude
pub mod Stage
pub mod Batch
pub mod Queue
