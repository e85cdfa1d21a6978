-- ===== src/Provision/Establishing/Termination.antt =====
-- The wait for a capture (internal/provision/service.go) and its fuel.
use postie.Prelude.{
  ℕ, zero, suc, ◌≤◌, ◌<◌, Bool, true, false, ◌≡◌, ◌≢◌, inl, inr, Option, none, arith, Bool-cases,
  refl,
}
use postie.Stream.{Names, Source}
use postie.Provision.{Result, Service}
use postie.Provision.Establishing.{is_up, after_capture_pause, await_capture}

module _ {W : Type 0} (s : Service W) (source : Source) (names : Names) (measure : W → ℕ)
    (falls : (w : W) → (s.pause w).1 ≡ true → measure (s.pause w).0 < measure w)
    (asks : (w : W) → measure (s.connector_status names.connector w).0 ≤ measure w)
    (looks : (w : W) → measure (s.slot_health source.id names.slot w).0 ≤ measure w) where
  pause_total :
      (bound : ℕ) (again : W → Option (W × Result (Unit {0})))
      → ((w : W) → measure w < bound → again w ≢ none)
      → (x : W × Bool) → (x.1 ≡ true → measure x.0 < bound)
      → after_capture_pause s again x ≢ none
  unfolding after_capture_pause
  pause_total bound again ih (w, true) h = ih w (h refl)
  pause_total bound again ih (w, false) h = cc

  -- Where a measure of the world falls with every pause that the context does not end, and is not raised
  -- by the two questions of a round, fuel above it is enough: the wait for the capture ends.
  pub await_capture_total :
      (fuel : ℕ) (w : W) → measure w < fuel → await_capture s fuel source names w ≢ none
  unfolding await_capture
  await_capture_total zero w h = elim h [ ]
  await_capture_total (suc fuel) w h =
      let x = s.connector_status names.connector w in
      let y = s.slot_health source.id names.slot x.0 in
      elim (Bool-cases (is_up s x.1 y.1)) [
        | inl ready ↦ rw ready (cc)
        | inr early ↦ rw early (
            pause_total (measure w) (await_capture s fuel source names)
              (λ w' lt. await_capture_total fuel w' (omega arith)) (s.pause y.0)
              (λ on. omega (arith, falls y.0 on, asks w, looks x.0)))
      ]
