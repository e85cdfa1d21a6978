-- ===== src/Control/Running.antt =====
-- `Start` of internal/control/service.go: the loop of the control service. `none` is fuel that ran out.
pub mod Shutdown
use postie.Prelude.{ℕ, zero, suc, Bool, false, Option, none, some, List, ℤ}
use postie.Activity.{no_entry}
use postie.Stream.{Source}
use postie.Control.{Destination}
use postie.Control.Outside.{Outside, State, log_entry}
use postie.Control.Reconcile.{stop_all, reconcile}

-- The arm of the loop's `select`: the context has ended, the ticker fired, or a signal was taken.
pub data Arm : Type 0 where
  done ticked woken : Arm

-- While the loop waits, workers and the operator may leave any other state behind.
pub record Loop (W : Type 0) : Type 0 where
  pub wait : State W → State W × Arm
  pub release_lease : W → W × Bool

module _ {W : Type 0} (o : Outside W) (l : Loop W) (sources : List Source)
    (destinations : List Destination) where
  -- The deferred call.
  release : State W → State W
  release (s, w) = (s, (l.release_lease w).0)

  after_wait : (State W → Option (State W)) → State W × Arm → Option (State W)
  unfolding release
  after_wait again (st, done) = some (release (stop_all o st))
  after_wait again (st, ticked) = again st
  after_wait again ((s, w), woken) = again (record s { wake = false }, w)

  unfoldable pub run_loop : ℕ → State W → Option (State W)
  unfolding after_wait
  run_loop zero st = none
  run_loop (suc fuel) st = after_wait (run_loop fuel) (l.wait (reconcile o sources destinations st))

  started : ℤ → State W → State W
  unfolding log_entry
  started generation st =
      log_entry o (record no_entry { message = "engine started"; generation = generation }) st

  -- `Start`
  unfoldable pub start : ℤ → ℕ → State W → Option (State W)
  unfolding run_loop started
  start generation fuel st = run_loop fuel (started generation st)
