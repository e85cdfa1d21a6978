-- ===== src/Control/Convergence/Termination.antt =====
-- The wait of `Change` (internal/control/service.go) and its fuel.
use postie.Prelude.{
  ℕ, zero, suc, ◌≤◌, ◌<◌, String, Bool, true, false, ◌≡◌, refl, inl, inr, Option, none, some, arith,
  Bool-cases, lookup, ◌≢◌, is_some,
}
use postie.Control.{SubscriptionState, DesiredSubscription, View}
use postie.Control.Outside.{State}
use postie.Control.Convergence.{
  Caller, Changed, snapshot, is_applied, is_superseded, after_tick, next_round, after_observed,
  round, await_convergence, after_desired, change,
}

module _ {W : Type 0} (o : Caller W) (id : String) (state : SubscriptionState) (measure : W → ℕ)
    (falls : (st : State W) → (o.tick st).1 ≡ false → measure (o.tick st).0.1 < measure st.1)
    (observes : (revision : ℕ) (st : State W)
      → measure (o.observed id revision state st).0.1 ≤ measure st.1) where
  module _ (revision bound : ℕ) (again : State W → Option (State W × Changed))
      (ih : (st : State W) → measure st.1 < bound → again st ≢ none) where
    tick_total :
        (view : View) (x : State W × Bool)
        → (x.1 ≡ false → measure x.0.1 < bound)
        → after_tick o id state revision again view x ≢ none
    unfolding after_tick
    tick_total view (st, true) h = cc
    tick_total view (st, false) h = ih st (h refl)

    next_total :
        (view : View) (seen : View × ℕ) (st : State W)
        → measure st.1 ≤ bound
        → next_round o id state revision again view seen st ≢ none
    unfolding next_round
    next_total view seen st h = elim (Bool-cases (is_superseded o id state revision seen)) [
      | inl over ↦ rw over (cc)
      | inr on ↦ rw on (tick_total view (o.tick st) (λ k. omega (arith, falls st k)))
    ]

    observed_total :
        (seen : View × ℕ) (x : State W × Option Bool)
        → measure x.0.1 ≤ bound
        → after_observed o id state revision again seen x ≢ none
    unfolding after_observed
    observed_total seen (st, none) h = cc
    observed_total seen (st, some true) h = cc
    observed_total seen (st, some false) h = next_total _ seen st h

    round_total :
        (seen : View × ℕ) (st : State W)
        → measure st.1 ≤ bound
        → round o id state revision again seen st ≢ none
    unfolding round
    round_total seen st h = elim (Bool-cases (is_applied o id state revision seen)) [
      | inl done ↦ rw done (
          observed_total seen (o.observed id revision state st)
            (omega (arith, observes revision st)))
      | inr early ↦ rw early (next_total seen.0 seen st h)
    ]

  await_total :
      (revision fuel : ℕ) (st : State W)
      → measure st.1 < fuel
      → await_convergence o id state revision fuel st ≢ none
  unfolding await_convergence
  await_total revision zero st h = elim h [ ]
  await_total revision (suc fuel) st h =
      round_total revision (measure st.1) (await_convergence o id state revision fuel)
        (λ st' lt. await_total revision fuel st' (omega arith)) (snapshot id st.0) st (omega arith)

  -- Where a measure of the world falls with every tick of the wait that the caller's context does not
  -- end, and is not raised by the store's answers, fuel above it is enough: `change` returns.
  pub change_total :
      (fuel : ℕ) (st : State W)
      → measure st.1 < fuel
      → measure (o.set_desired id state st).0.1 ≤ measure st.1
      → change o fuel id state st ≢ none
  unfolding change after_desired
  change_total fuel st h k = elim (Bool-cases (is_some (lookup id st.0.subscriptions))) [
    | inl there ↦ rw there (desired_total (o.set_desired id state st) (omega arith))
    | inr missing ↦ rw missing (cc)
  ]
    where
      desired_total :
          (x : State W × Option DesiredSubscription)
          → measure x.0.1 < fuel
          → after_desired o fuel id state x ≢ none
      desired_total (st', none) h' = cc
      desired_total ((s, w), some d) h' =
          await_total d.revision fuel (record s { wake = true }, w) h'
