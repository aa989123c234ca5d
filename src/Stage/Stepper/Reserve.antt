-- ===== src/Stage/Stepper/Reserve.antt =====
-- The steps that a stop takes: the braking distance in Stepper.trig_home of
-- sample-stage-ctl/src/sample_stage_ctl/controller.py.
use chamber_ctl.Stage.Stepper.{steps_to_stop}
use native.Mathlib.Nat.{div-add-mod, mod-lt}
use chamber_ctl.Prelude.{ℕ, zero, suc, ◌+◌, ◌*◌, ◌<◌, ◌≤◌, ◌≡◌, max, ◌-◌, ◌/◌, arith}

quotient_pos : (m q v : ℕ) → v ≤ m * q → 0 < v → 1 ≤ q
quotient_pos m zero v h p = grind (arith, h, p)
quotient_pos m (suc q) v h p = omega arith

less_before : (m q v : ℕ) → 1 ≤ q → m * q ≤ v + (m - 1) → 0 < m → m * (q - 1) < v
less_before m zero v o h p = elim o [ ]
less_before m (suc q) v o h p = grind (arith, h, p)

-- The distance that is reserved is the least one that is enough to stop: v² is at most 2 a n, and is
-- more than 2 a (n - 1).
pub steps_to_stop_least :
    (a v : ℕ)
    → 0 < a
    → 0 < v
    → let n = steps_to_stop a v in (v ≤ 2 * a * n) × (2 * a * (n - 1) < v) × (1 ≤ n)
steps_to_stop_least a v h p =
    let m : ℕ = 2 * a in
    let q = (v + (m - 1)) / m in
    let division = div-add-mod (v + (m - 1)) m in
    let rest = mod-lt (v + (m - 1)) {m = m} (omega arith) in
    let some_steps : 1 ≤ q = quotient_pos m q v (omega (arith, division, rest)) p in
    let same : max 1 q ≡ q = omega (arith, some_steps) in
    rw same (
      omega (arith, division, rest),
      less_before m q v some_steps (omega (arith, division)) (omega (arith, h)),
      some_steps,
    )
