-- ===== src/Batch/Order.antt =====
-- The orders in which `assess_batch` of src/chamber_ctl/subsystems/batcher.py takes the runs: by
-- creation, the latest by its end, and the latest of each sample. Python's `sorted` agrees with this
-- insertion sort wherever the creation times are not nan.
pub mod Fixed
use chamber_ctl.Prelude.{
  Bool, Option, none, some, List, ℤ, flt, ◌∷◌, [], Float, eqb_ℤ, ◌||◌, if◌then◌else◌, false, feq,
  ◌&&◌, ltb, All, Bool-cases, inl, inr,
}
use chamber_ctl.Batch.Attempt.{ExposureAttempt}

-- `(created_at, str(run_uuid))` in order.
abbrev pub created_before : ExposureAttempt → ExposureAttempt → Bool
created_before a b =
    flt a.created_at b.created_at || (feq a.created_at b.created_at && ltb a.run_uuid b.run_uuid)

-- `sorted` is stable: an item goes behind its equals.
unfoldable pub insert_attempt : ExposureAttempt → List ExposureAttempt → List ExposureAttempt
insert_attempt a [] = a ∷ []
insert_attempt a (b ∷ bs) =
    let rest = insert_attempt a bs in if created_before a b then a ∷ b ∷ bs else b ∷ rest

unfoldable pub sort_from : List ExposureAttempt → List ExposureAttempt → List ExposureAttempt
sort_from done [] = done
sort_from done (a ∷ as') = sort_from (insert_attempt a done) as'

abbrev pub sort_attempts : List ExposureAttempt → List ExposureAttempt
sort_attempts = sort_from []

abbrev pub end_or_nan : ExposureAttempt → Float
end_or_nan a = elim a.end_time [ some f ↦ f | none ↦ Float.nan ]

-- `(float(end_time), created_at, str(run_uuid))` in order.
abbrev pub ended_before : ExposureAttempt → ExposureAttempt → Bool
ended_before a b =
    flt (end_or_nan a) (end_or_nan b) || (feq (end_or_nan a) (end_or_nan b) && created_before a b)

-- `max(attempts, key=...)`: the first of the greatest.
unfoldable pub latest_of : ExposureAttempt → List ExposureAttempt → ExposureAttempt
latest_of best [] = best
latest_of best (a ∷ rest) = latest_of (if ended_before best a then a else best) rest

abbrev pub same_sample : Option ℤ → Option ℤ → Bool
same_sample (some a) (some b) = eqb_ℤ a b
same_sample _ _ = false

-- `latest_by_sample`, a dictionary in the order of first insertion: the last attempt of each sample.
unfoldable pub put_latest : ExposureAttempt → List ExposureAttempt → List ExposureAttempt
put_latest a [] = a ∷ []
put_latest a (b ∷ bs) =
    let rest = put_latest a bs in if same_sample b.sample a.sample then a ∷ bs else b ∷ rest

unfoldable pub latest_from : List ExposureAttempt → List ExposureAttempt → List ExposureAttempt
latest_from latest [] = latest
latest_from latest (a ∷ rest) = latest_from (put_latest a latest) rest

abbrev pub latest_by_sample : List ExposureAttempt → List ExposureAttempt
latest_by_sample = latest_from []

All-insert_attempt {ℓ} :
    (P : ExposureAttempt → Type ℓ) (a : ExposureAttempt) (l : List ExposureAttempt)
    → All P (insert_attempt a l)
    → P a × All P l
unfolding insert_attempt
All-insert_attempt P a [] h = h
All-insert_attempt P a (b ∷ l) h = elim (Bool-cases (created_before a b)) [
  | inl first ↦ rw (first, insert_attempt) at h
  | inr later ↦
      let (pb, most) : P b × All P (insert_attempt a l) = rw (later, insert_attempt) at h in
      let (pa, rest) = All-insert_attempt P a l most in (pa, (pb, rest))
]

-- What holds of every run in order holds of every run.
pub All-sort_from {ℓ} :
    (P : ExposureAttempt → Type ℓ) (done l : List ExposureAttempt)
    → All P (sort_from done l)
    → All P done × All P l
unfolding sort_from
All-sort_from P done [] h = (h, tt)
All-sort_from P done (a ∷ l) h =
    let (most, rest) = All-sort_from P (insert_attempt a done) l h in
    let (first, others) = All-insert_attempt P a done most in (others, (first, rest))

insert_attempt-All {ℓ} :
    (P : ExposureAttempt → Type ℓ) (a : ExposureAttempt) (l : List ExposureAttempt)
    → P a
    → All P l
    → All P (insert_attempt a l)
unfolding insert_attempt
insert_attempt-All P a [] pa h = (pa, tt)
insert_attempt-All P a (b ∷ l) pa h = elim (Bool-cases (created_before a b)) [
  | inl first ↦ rw (first, insert_attempt) (pa, h)
  | inr later ↦ rw (later, insert_attempt) (h.0, insert_attempt-All P a l pa h.1)
]

pub sort_from-All {ℓ} :
    (P : ExposureAttempt → Type ℓ) (done l : List ExposureAttempt)
    → All P done
    → All P l
    → All P (sort_from done l)
unfolding sort_from
sort_from-All P done [] d h = d
sort_from-All P done (a ∷ l) d h =
    sort_from-All P (insert_attempt a done) l (insert_attempt-All P a done h.0 d) h.1
