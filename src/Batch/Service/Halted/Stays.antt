-- ===== src/Batch/Service/Halted/Stays.antt =====
-- A halted batch service over the passes of its loop: `_handle_command` and `_worker` of class
use chamber_ctl.Batch.Service.Halted.Steps.{same-IsHalted, skip-IsHalted}
use chamber_ctl.Batch.Service.Halted.Polls.{poll_active-IsHalted, ensure_runtime-IsHalted}
use chamber_ctl.Batch.Service.Proc.{Outcome}
use chamber_ctl.Batch.Service.Halted.Edits.{leaves_paused}
use chamber_ctl.Batch.Service.Halted.Obeys.{execute-IsHalted}
use chamber_ctl.Batch.Service.{ServiceError, BatchManifest}
use chamber_ctl.Batch.Service.Halted.{IsPlantUntouched, Running, IsHalted}
use chamber_ctl.Batch.Service.Commands.{Command}
use chamber_ctl.Batch.Service.Steps.{Plant}
use chamber_ctl.Batch.Service.Loop.{
  handle_command, handle_next, poll_if, poll_due, poll_next, pass, passes, Pass, settle,
}
use chamber_ctl.Batch.Service.Rules.{returned, raised, out_of_fuel, Keeps, Post, then-Keeps}
use chamber_ctl.Prelude.{
  some, none, true, false, [], ◌∷◌, ◌≡◌, refl, inl, inr, ℕ, Option, List, Bool, All, subst,
  Option-cases,
}

-- BatchControllerSubsystem, src/chamber_ctl/subsystems/batch_controller.py.

-- No command of the passes resumes or activates a batch.
abbrev pub leaves_next : Option Command → Bool
leaves_next none = true
leaves_next (some command) = leaves_paused command

abbrev pub AllLeave : List Pass → Type 0
AllLeave = All (λ p. leaves_next p.command ≡ true)

module _ {E W : Type 0} (batch_uuid : ℕ) {P : W → Type 0} {plant : Plant E W}
    (kept : IsPlantUntouched plant P) where
  abbrev H : Running E W → Type 0
  H = IsHalted batch_uuid P

  settle-IsHalted :
      {A : Type 0} {on_error : ServiceError → Running E W → Running E W}
      {on_success : A → Running E W → Running E W} {o : Outcome E W A} {s : Running E W}
      → Post (λ a s'. H s') H o
      → ((e : ServiceError) (t : Running E W) → H t → H (on_error e t))
      → ((a : A) (t : Running E W) → H t → H (on_success a t))
      → settle on_error on_success o ≡ some s
      → H s
  settle-IsHalted out_of_fuel bad good e = cc
  settle-IsHalted {on_success = f} {s = t} (returned {a = a} {s = u} held) bad good e =
      let same : f a u ≡ t = cc e in subst H same (good a u held)
  settle-IsHalted {on_error = f} {s = t} (raised {e = x} {s = u} held) bad good e =
      let same : f x u ≡ t = cc e in subst H same (bad x u held)

  handle_command-IsHalted :
      (command : Command) (s : Running E W) {t : Running E W}
      → leaves_paused command ≡ true
      → H s
      → handle_command plant command s ≡ some t
      → H t
  unfolding handle_command
  handle_command-IsHalted command s leaves h e =
      settle-IsHalted (execute-IsHalted batch_uuid kept command leaves s h)
        (λ x t held. same-IsHalted held refl refl refl refl)
        (λ x t held. same-IsHalted held refl refl refl refl) e

  handle_next-IsHalted :
      (o : Option Command) (s : Running E W) {t : Running E W}
      → leaves_next o ≡ true
      → H s
      → handle_next plant o s ≡ some t
      → H t
  unfolding handle_next
  handle_next-IsHalted none s {t} leaves h e = subst H (cc e) h
  handle_next-IsHalted (some command) s leaves h e = handle_command-IsHalted command s leaves h e

  poll_if-IsHalted : (due : Bool) → Keeps H (poll_if plant due)
  unfolding poll_if
  poll_if-IsHalted true = poll_active-IsHalted batch_uuid kept true
  poll_if-IsHalted false = skip-IsHalted

  poll_due-IsHalted :
      (due : Bool) (a : Option BatchManifest) (s : Running E W) {t : Running E W}
      → H s
      → poll_due plant due a s ≡ some t
      → H t
  unfolding poll_due
  poll_due-IsHalted due none s h e = subst H (cc e) h
  poll_due-IsHalted due (some m) s h e =
      settle-IsHalted
        (then-Keeps (ensure_runtime-IsHalted batch_uuid kept) (λ done. poll_if-IsHalted due) s h)
        (λ x t held. same-IsHalted held refl refl refl refl) (λ x t held. held) e

  poll_next-IsHalted :
      (due : Bool) (o : Option (Running E W)) {t : Running E W}
      → ((s : Running E W) → o ≡ some s → H s)
      → poll_next plant due o ≡ some t
      → H t
  unfolding poll_next
  poll_next-IsHalted due none held e = cc
  poll_next-IsHalted due (some s) held e =
      poll_due-IsHalted due s.service.active_manifest s (held s refl) e

  pub pass-IsHalted :
      (p : Pass) (s : Running E W) {t : Running E W}
      → leaves_next p.command ≡ true
      → H s
      → pass plant p s ≡ some t
      → H t
  unfolding pass
  pass-IsHalted p s leaves h e =
      poll_next-IsHalted p.due (handle_next plant p.command s)
        (λ t e'. handle_next-IsHalted p.command s leaves h e') e

  -- A halted service - its coordinator paused by hand, the batch paused where it is active and
  -- where it is known, the manifests under their identifiers, `P` true of the world - is halted
  -- after any passes whose commands neither resume nor activate a batch, also where calls fail, if
  -- only a start of an exposure may make `P` false.
  pub passes-IsHalted :
      (ps : List Pass) (s : Running E W) {t : Running E W}
      → AllLeave ps
      → IsHalted batch_uuid P s
      → passes plant ps s ≡ some t
      → IsHalted batch_uuid P t
  unfolding passes
  passes-IsHalted [] s leaves h e = subst H (cc e) h
  passes-IsHalted (p ∷ ps) s {t} (first, rest) h e = elim (Option-cases (pass plant p s)) [
    | inl n ↦ let e' = rw (n, passes) at e in cc
    | inr (s', n) ↦
        let e' = rw (n, passes) at e in passes-IsHalted ps s' rest (pass-IsHalted p s first h n) e'
  ]
