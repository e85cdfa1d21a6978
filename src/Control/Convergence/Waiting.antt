-- ===== src/Control/Convergence/Waiting.antt =====
-- What a change has seen when it returns no error (internal/control/service.go).
use postie.Prelude.{
  ℕ, zero, suc, ◌≤◌, String, Bool, true, false, ◌≡◌, refl, inl, inr, Option, none, some, arith,
  Bool-cases, lookup, eq_iff, ◌≢◌, ap, is_some,
}
use postie.Control.{SubscriptionState, other, state_eq, View, DesiredSubscription}
use postie.Control.Outside.{State}
use postie.Control.Convergence.{
  Caller, Changed, snapshot, is_applied, is_superseded, after_tick, next_round, after_observed,
  round, await_convergence, after_desired, change,
}

state_eq→eq : (a b : SubscriptionState) → state_eq a b ≡ true → a ≡ b
unfolding state_eq
state_eq→eq (other s) (other t) h = ap other ((eq_iff s t).0 h)
state_eq→eq a b h = ground arith

module _ {W : Type 0} (o : Caller W) (id : String) (state : SubscriptionState) (revision : ℕ) where
  -- In one snapshot this worker had applied the revision and reached the state, and the store then
  -- confirmed that every live worker has observed it.
  pub record IsConverged (st' : State W) (view : View) : Type 0 where
    pub before : State W
    pub seen : view ≡ (snapshot id before.0).0
    pub applied : revision ≤ (snapshot id before.0).1
    pub reached : view.state ≡ state
    pub desired : view.desired_state ≡ state
    pub confirmed : o.observed id revision state before ≡ (st', some true)

  abbrev pub Converges : Option (State W × Changed) → Type 0
  Converges none = Unit
  Converges (some (st, c)) = c.error ≡ none → IsConverged st c.view

  applied_lem :
      (seen : View × ℕ)
      → is_applied o id state revision seen ≡ true
      → (revision ≤ seen.1) × (seen.0.state ≡ state) × (seen.0.desired_state ≡ state)
  unfolding is_applied
  applied_lem (view, n) h =
      ground (arith, state_eq→eq view.state state, state_eq→eq view.desired_state state)

  module _ (again : State W → Option (State W × Changed))
      (ih : (st : State W) → Converges (again st)) where
    tick-Converges :
        (view : View) (x : State W × Bool) → Converges (after_tick o id state revision again view x)
    unfolding after_tick
    tick-Converges view (st, true) = λ h. cc
    tick-Converges view (st, false) = ih st

    next-Converges :
        (view : View) (seen : View × ℕ) (st : State W)
        → Converges (next_round o id state revision again view seen st)
    unfolding next_round
    next-Converges view seen st = elim (Bool-cases (is_superseded o id state revision seen)) [
      | inl over ↦ rw over (λ h. cc)
      | inr on ↦ rw on (tick-Converges view (o.tick st))
    ]

    observed-Converges :
        (st : State W) (x : State W × Option Bool)
        → is_applied o id state revision (snapshot id st.0) ≡ true
        → o.observed id revision state st ≡ x
        → Converges (after_observed o id state revision again (snapshot id st.0) x)
    unfolding after_observed
    observed-Converges st (st', none) h e = λ k. cc
    observed-Converges st (st', some true) h e =
        let (applied, reached, desired) = applied_lem (snapshot id st.0) h in
        λ k. record {
          before = st;
          seen = refl;
          applied = applied;
          reached = reached;
          desired = desired;
          confirmed = e;
        }
    observed-Converges st (st', some false) h e = next-Converges _ (snapshot id st.0) st'

    round-Converges :
        (st : State W) → Converges (round o id state revision again (snapshot id st.0) st)
    unfolding round
    round-Converges st = elim (Bool-cases (is_applied o id state revision (snapshot id st.0))) [
      | inl yes' ↦ rw yes' (observed-Converges st (o.observed id revision state st) yes' refl)
      | inr no' ↦ rw no' (next-Converges (snapshot id st.0).0 (snapshot id st.0) st)
    ]

  pub await-Converges :
      (fuel : ℕ) (st : State W) → Converges (await_convergence o id state revision fuel st)
  unfolding await_convergence
  await-Converges zero st = tt
  await-Converges (suc fuel) st =
      round-Converges (await_convergence o id state revision fuel) (await-Converges fuel) st

-- A change that returns no error was of a subscription that exists; the store accepted it, with a
-- revision; in a later snapshot this worker had applied that revision and had the requested state, as
-- state and as desired state; and the store confirmed that every live worker has observed it.
pub change-IsConverged :
    {W : Type 0} (o : Caller W) (fuel : ℕ) (id : String) (state : SubscriptionState)
    (st st' : State W) (c : Changed)
    → change o fuel id state st ≡ some (st', c)
    → c.error ≡ none
    → (lookup id st.0.subscriptions ≢ none)
      × ((d : DesiredSubscription) × ((o.set_desired id state st).1 ≡ some d)
          × IsConverged o id state d.revision st' c.view)
unfolding change after_desired
change-IsConverged o fuel id state st st' c h k =
    elim (Bool-cases (is_some (lookup id st.0.subscriptions))) [
      | inl there ↦ (λ e. ground arith, accepted (o.set_desired id state st) (ground arith))
      | inr missing ↦ absurd (ground arith)
    ]
  where
    accepted :
        (x : State _ × Option DesiredSubscription)
        → after_desired o fuel id state x ≡ some (st', c)
        → (d : DesiredSubscription) × (x.1 ≡ some d) × IsConverged o id state d.revision st' c.view
    accepted ((s, w), none) e = absurd (ground arith)
    accepted ((s, w), some d) e = (
      d,
      refl,
      (rw e at (await-Converges o id state d.revision fuel (record s { wake = true }, w))) k,
    )
