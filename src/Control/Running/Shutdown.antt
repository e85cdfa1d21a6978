-- ===== src/Control/Running/Shutdown.antt =====
-- How `Start` (internal/control/service.go) ends, and its fuel.
use postie.Prelude.{ℕ, zero, suc, ◌<◌, ℤ, ◌≡◌, ◌≢◌, refl, Option, none, some, List, arith}
use postie.Stream.{Source}
use postie.Control.{Destination}
use postie.Control.Outside.{Outside, State, log_entry}
use postie.Control.Reconcile.{stop_all, reconcile}
use postie.Control.Reconcile.Stops.{AreFree, AreStopped, stop_all-AreStopped, detach_all-AreFree}
use postie.Control.Running.{Arm, done, ticked, woken, Loop, after_wait, run_loop, started, start}

module _ {W : Type 0} (o : Outside W) (l : Loop W) (sources : List Source)
    (destinations : List Destination) where
  -- No consumer is left. The wait behind a pass found the context ended; then every consumer that
  -- there was got cancelled and was waited for, and the last call of the world gave the lease back.
  pub record IsShutDown (st : State W) : Type 0 where
    pub pass : State W
    pub left : State W
    pub before : W
    pub waited : l.wait (reconcile o sources destinations pass) ≡ (left, done)
    pub stopped : AreStopped o left.0.subscriptions left.1 before
    pub released : st.1 ≡ (l.release_lease before).0
    pub none_left : AreFree st.0.subscriptions

  IsOver : Option (State W) → Type 0
  IsOver none = Unit
  IsOver (some st) = IsShutDown st

  wait-IsOver :
      (again : State W → Option (State W))
      → ((st : State W) → IsOver (again st))
      → (pass : State W) (x : State W × Arm) → l.wait (reconcile o sources destinations pass) ≡ x
      → IsOver (after_wait o l sources destinations again x)
  unfolding after_wait stop_all IsOver
  wait-IsOver again ih pass ((s, w), done) e = record {
    pass = pass;
    left = (s, w);
    before = (stop_all o (s, w)).1;
    waited = e;
    stopped = stop_all-AreStopped o (s, w);
    released = refl;
    none_left = detach_all-AreFree s.subscriptions;
  }
  wait-IsOver again ih pass (st, ticked) e = ih st
  wait-IsOver again ih pass ((s, w), woken) e = ih _

  loop-IsOver : (fuel : ℕ) (st : State W) → IsOver (run_loop o l sources destinations fuel st)
  unfolding run_loop IsOver
  loop-IsOver zero st = tt
  loop-IsOver (suc fuel) st =
      wait-IsOver (run_loop o l sources destinations fuel) (loop-IsOver fuel) st
        (l.wait (reconcile o sources destinations st)) refl

  -- When `Start` returns, the wait behind a pass found the context ended, every consumer that there
  -- was at that point was cancelled and then waited for, the last call of the world gave the lease
  -- back, and no consumer is left.
  pub start-IsShutDown :
      (generation : ℤ) (fuel : ℕ) (st st' : State W)
      → start o l sources destinations generation fuel st ≡ some st'
      → IsShutDown st'
  unfolding start IsOver
  start-IsShutDown generation fuel st st' h =
      rw h at (loop-IsOver fuel (started o l sources destinations generation st))

  module _ (measure : W → ℕ)
      (falls : (st : State W)
        → (l.wait (reconcile o sources destinations st)).1 ≢ done
        → measure (l.wait (reconcile o sources destinations st)).0.1 < measure st.1) where
    wait_total :
        (bound : ℕ) (again : State W → Option (State W))
        → ((st : State W) → measure st.1 < bound → again st ≢ none)
        → (x : State W × Arm) → (x.1 ≢ done → measure x.0.1 < bound)
        → after_wait o l sources destinations again x ≢ none
    unfolding after_wait
    wait_total bound again ih ((s, w), done) h = cc
    wait_total bound again ih (st, ticked) h = ih st (h (cc))
    wait_total bound again ih ((s, w), woken) h = ih _ (h (cc))

    loop_total :
        (fuel : ℕ) (st : State W)
        → measure st.1 < fuel
        → run_loop o l sources destinations fuel st ≢ none
    unfolding run_loop
    loop_total zero st h = elim h [ ]
    loop_total (suc fuel) st h =
        wait_total (measure st.1) (run_loop o l sources destinations fuel)
          (λ st' lt. loop_total fuel st' (omega arith))
          (l.wait (reconcile o sources destinations st)) (falls st)

    -- Where a measure of the world falls with every pass and the wait behind it, unless the context ends
    -- in that wait, fuel above it is enough: `Start` returns.
    pub start_total :
        (generation : ℤ) (fuel : ℕ) (st : State W)
        → measure st.1 < fuel
        → start o l sources destinations generation fuel st ≢ none
    unfolding start started log_entry
    start_total generation fuel (s, w) h =
        loop_total fuel (started o l sources destinations generation (s, w)) h
