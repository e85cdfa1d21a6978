-- ===== src/Control/Reconcile/Status.antt =====
-- What the engine's status says (`overallStatus` of internal/control/state.go).
use postie.Prelude.{
  true, ◌≡◌, ◌↔◌, refl, ◌⊎◌, inl, inr, [], ◌∷◌, Dict, All, arith, Bool-cases, eq_iff,
}
use postie.Control.{
  SubscriptionState, running, paused, Service, Subscription, SourceStatus, ready, degraded,
  state_eq, is_healthy, sources_running, subscriptions_healthy, overall_status,
}

-- Every source is running, and every subscription is running or paused.
abbrev pub IsReady : Dict SourceStatus → Dict Subscription → Type 0
IsReady sources subscriptions =
    All (λ p. p.1.state ≡ "running") sources
    × All (λ p. (p.1.view.state ≡ running) ⊎ (p.1.view.state ≡ paused)) subscriptions

-- The engine's status says whether that is so.
pub record HasStatus (s : Service) : Type 0 where
  pub known : (s.status ≡ ready) ⊎ (s.status ≡ degraded)
  pub right : (s.status ≡ ready) ↔ IsReady s.source_states s.subscriptions

sources_running-All :
    (m : Dict SourceStatus) → (sources_running m ≡ true) ↔ All (λ p. p.1.state ≡ "running") m
unfolding sources_running
sources_running-All [] = (λ h. tt, λ h. refl)
sources_running-All ((k, s) ∷ m) = (
  λ h. ((eq_iff s.state "running").0 (ground arith), (sources_running-All m).0 (ground arith)),
  λ (h, rest). ground (arith, eq_iff s.state "running", (sources_running-All m).1 rest),
)

is_healthy_iff : (x : SubscriptionState) → (is_healthy x ≡ true) ↔ ((x ≡ running) ⊎ (x ≡ paused))
unfolding is_healthy state_eq
is_healthy_iff running = (λ h. inl refl, λ h. refl)
is_healthy_iff paused = (λ h. inr refl, λ h. refl)
is_healthy_iff _ = (λ h. cc, λ h. elim h [ inl e ↦ cc | inr e ↦ cc ])

healthy-All :
    (m : Dict Subscription)
    → (subscriptions_healthy m ≡ true)
      ↔ All (λ p. (p.1.view.state ≡ running) ⊎ (p.1.view.state ≡ paused)) m
unfolding subscriptions_healthy
healthy-All [] = (λ h. tt, λ h. refl)
healthy-All ((k, x) ∷ m) = (
  λ h. ((is_healthy_iff x.view.state).0 (ground arith), (healthy-All m).0 (ground arith)),
  λ (h, rest). ground (arith, (is_healthy_iff x.view.state).1 h, (healthy-All m).1 rest),
)

pub overall_status-HasStatus :
    (s : Service) → s.status ≡ overall_status s.source_states s.subscriptions → HasStatus s
unfolding overall_status
overall_status-HasStatus s h = record {
  known = elim (Bool-cases (sources_running s.source_states)) [
    | inl fine ↦ elim (Bool-cases (subscriptions_healthy s.subscriptions)) [
      | inl whole ↦ inl (ground arith)
      | inr ill ↦ inr (ground arith)
    ]
    | inr off ↦ inr (ground arith)
  ];
  right = (
    λ e. (
      (sources_running-All s.source_states).0 (ground arith),
      (healthy-All s.subscriptions).0 (ground arith),
    ),
    λ (x, y).
        ground
          (arith, (sources_running-All s.source_states).1 x, (healthy-All s.subscriptions).1 y),
  );
}
