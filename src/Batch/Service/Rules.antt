-- ===== src/Batch/Service/Rules.antt =====
-- Rules for what holds after a function of the batch service, class BatchControllerSubsystem of
-- src/chamber_ctl/subsystems/batch_controller.py, returns or raises.
use chamber_ctl.Batch.Service.Restored.{check_manifest-same}
use chamber_ctl.Batch.Service.{ServiceError, BatchManifest, StorageError, check_manifest}
use chamber_ctl.Prelude.{
  some, none, ok, err, true, false, if◌then◌else◌, Bool, ◌≡◌, refl, inl, inr, Result, Result-cases,
  subst,
}
use chamber_ctl.Batch.Service.Proc.{Running, Outcome, Proc, after, ◌>>=◌, store, checked}

-- What holds of an outcome: `R` of what is returned and of the state, `F` of the state after an
-- exception.
pub data Post {E W A : Type 0} (R : A → Running E W → Type 0) (F : Running E W → Type 0)
    : Outcome E W A → Type 0 where
  out_of_fuel : Post R F none
  returned : {a : A} {s : Running E W} → R a s → Post R F (some (ok a, s))
  raised : {e : ServiceError} {s : Running E W} → F s → Post R F (some (err e, s))

module _ {E W : Type 0} where
  pub after-Post :
      {A B : Type 0} {R : A → Running E W → Type 0} {Q : B → Running E W → Type 0}
      {F : Running E W → Type 0} {o : Outcome E W A} {next : A → Proc E W B}
      → Post R F o
      → ((a : A) (s : Running E W) → R a s → Post Q F (next a s))
      → Post Q F (after o next)
  after-Post out_of_fuel rest = out_of_fuel
  after-Post (returned p) rest = rest _ _ p
  after-Post (raised p) rest = raised p

  module _ (J : Running E W → Type 0) where
    -- A function that keeps `J`, whether it returns or raises.
    abbrev pub Keeps : {A : Type 0} → Proc E W A → Type 0
    Keeps part = (s : Running E W) → J s → Post (λ a s'. J s') J (part s)

    -- The same, and what it returns satisfies `Q`.
    abbrev pub Gives : {A : Type 0} → (A → Type 0) → Proc E W A → Type 0
    Gives Q part = (s : Running E W) → J s → Post (λ a s'. Q a × J s') J (part s)

  module _ {J : Running E W → Type 0} where
    pub then-Keeps :
        {A B : Type 0} {part : Proc E W A} {next : A → Proc E W B}
        → Keeps J part
        → ((a : A) → Keeps J (next a))
        → Keeps J (part >>= next)
    then-Keeps {part = part} {next = next} first rest s held = after-Post (first s held) rest

    pub given-Keeps :
        {A B : Type 0} {Q : A → Type 0} {part : Proc E W A} {next : A → Proc E W B}
        → Gives J Q part
        → ((a : A) → Q a → Keeps J (next a))
        → Keeps J (part >>= next)
    given-Keeps {part = part} {next = next} first rest s held =
        after-Post (first s held) (λ a s' (q, h). rest a q s' h)

    pub if-Keeps :
        {A : Type 0} {left right : Proc E W A} (c : Bool)
        → Keeps J left
        → Keeps J right
        → Keeps J (if c then left else right)
    if-Keeps true l r = l
    if-Keeps false l r = r

    pub when-Keeps :
        {A : Type 0} {left right : Proc E W A} (c : Bool)
        → (c ≡ true → Keeps J left)
        → Keeps J right
        → Keeps J (if c then left else right)
    when-Keeps true l r = l refl
    when-Keeps false l r = r

  -- A call of the repository that returns.
  pub store-Keeps :
      {J : Running E W → Type 0} {A : Type 0} (f : W → Result StorageError (A × W))
      → ((s : Running E W) (r : A × W) → J s → f s.world ≡ ok r → J (record s { world = r.1 }))
      → Keeps J (store f)
  unfolding store
  store-Keeps f kept s h = elim (Result-cases (f s.world)) [
    | inl (e, failed) ↦ rw failed (raised h)
    | inr ((a, w), done) ↦ rw done (returned (kept s (a, w) h done))
  ]

  -- A manifest that passes its check is the one that was checked.
  pub checked-Gives :
      {J : Running E W → Type 0} (Q : BatchManifest → Type 0) (m : BatchManifest)
      → Q m
      → Gives J Q (checked (check_manifest m))
  checked-Gives Q m q s h = elim (Result-cases (check_manifest m)) [
    | inl (e, failed) ↦ rw failed (raised h)
    | inr (m', same) ↦ rw same (returned (subst Q (check_manifest-same m m' same) q, h))
  ]

-- What holds of a run that returns.
pub forget :
    {E W A : Type 0} {R : A → Running E W → Type 0} {F : Running E W → Type 0} {o : Outcome E W A}
    → Post R F o
    → Post R (λ s. Unit {0}) o
forget out_of_fuel = out_of_fuel
forget (returned h) = returned h
forget (raised h) = raised tt

pub ended :
    {E W A : Type 0} {R : A → Running E W → Type 0} {o : Outcome E W A} {a : A} {t : Running E W}
    → Post R (λ s. Unit {0}) o
    → o ≡ some (ok a, t)
    → R a t
ended out_of_fuel e = cc
ended {R = R} {a = a} {t = t} (returned {a = b} {s = s} h) e =
    let value : b ≡ a = cc e in
    let state : s ≡ t = cc e in subst (λ x. R a x) state (subst (λ x. R x s) value h)
ended (raised h) e = cc
