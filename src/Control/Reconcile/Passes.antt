-- ===== src/Control/Reconcile/Passes.antt =====
-- The subscriptions over passes of the control loop (internal/control/reconcile.go).
use mathlib.Core.Option
use mathlib.Core.Path.{subst}
use postie.Prelude.{
  ℕ, String, Bool, true, false, ◌≡◌, ◌≢◌, ◌∙◌, refl, sym, ap, ◌⊎◌, inl, inr, none, some, List, [],
  ◌∷◌, ◌==◌, if◌then◌else◌, Dict, lookup, arith, eq_iff, ne_of_false, not, ◌||◌, Bool-cases,
  Option-cases,
}
use postie.Stream.{Source}
use postie.Control.{
  running, starting, Subscription, DesiredSubscription, Destination, resting_state,
}
use postie.Control.Outside.{Outside, State}
use postie.Control.Sources.{inspect_source}
use postie.Control.Sources.Frame.{subs, subs-inspect_source}
use postie.Control.Subscriptions.{reconcile_subscription}
use postie.Control.Subscriptions.Invariant.{entry, rested, IsActive}
use postie.Control.Subscriptions.Frame.{reconcile_subscription-frame}
use postie.Control.Subscriptions.Reached.{must_rest, IsMoved}
use postie.Control.Subscriptions.Progress.{
  reconcile_subscription-IsMoved, reconcile_subscription_unknown,
}
use postie.Control.Reconcile.{
  detach, detach_all, observations, Refreshed, refresh_dependencies, degrade, inspect_all,
  reconcile_all, report, finish, converge, reconcile_with, reconcile,
}

-- A subscription without a consumer is not running, and one with a consumer is starting or running.
abbrev pub IsConsistent : Subscription → Type 0
IsConsistent x =
    (x.consumer ≡ none) × (x.view.state ≢ running)
    ⊎ (c : ℕ) × (x.consumer ≡ some c) × ((x.view.state ≡ running) ⊎ (x.view.state ≡ starting))

abbrev pub AllConsistent : Dict Subscription → Type 0
AllConsistent m = (id : String) (x : Subscription) → lookup id m ≡ some x → IsConsistent x

rested-IsConsistent :
    (desired : DesiredSubscription) (reason : String) (x : Subscription)
    → IsConsistent (rested desired reason x)
unfolding resting_state
rested-IsConsistent desired reason x = inl (refl, ground arith)

IsActive-IsConsistent :
    (desired : DesiredSubscription) (revision : ℕ) (x : Subscription)
    → IsActive desired revision x
    → IsConsistent x
IsActive-IsConsistent desired revision x (inl b) = inl (b.no_consumer, rw b.state (cc))
IsActive-IsConsistent desired revision x (inr a) =
    inr (a.consumer, a.has, ground (arith, a.progressed))

IsMoved-IsConsistent :
    (desired : DesiredSubscription) (readiness : Bool × String) (x x' : Subscription)
    → IsMoved desired readiness x x'
    → IsConsistent x'
IsMoved-IsConsistent desired readiness x x' r = elim (Bool-cases (must_rest desired readiness)) [
  | inl still ↦
      subst IsConsistent (sym (r.resting still)) (rested-IsConsistent desired readiness.1 x)
  | inr active ↦ IsActive-IsConsistent desired x.revision x' (r.consuming active)
]

lookup-detach_all :
    (id : String) (m : Dict Subscription)
    → lookup id (detach_all m) ≡ Option.map detach (lookup id m)
unfolding detach_all
lookup-detach_all id [] = ground arith
lookup-detach_all id ((k, x) ∷ m) = ground (arith, lookup-detach_all id m)

detach-IsConsistent : (x : Subscription) → IsConsistent x → IsConsistent (detach x)
unfolding detach
detach-IsConsistent x h = ground arith

detach_all-AllConsistent : (m : Dict Subscription) → AllConsistent m → AllConsistent (detach_all m)
detach_all-AllConsistent m h id x e =
    let (x0, found, same) =
      (Option.map-eq-some_iff detach _).0 (sym (lookup-detach_all id m) ∙ e) in
    subst IsConsistent same (detach-IsConsistent x0 (h id x0 found))

module _ {W : Type 0} (o : Outside W) where
  reconcile_subscription-Consistent :
      (destinations : List Destination) (desired : DesiredSubscription) (st : State W)
      → AllConsistent (subs st)
      → (x : Subscription)
      → entry desired.id (reconcile_subscription o destinations desired st) ≡ some x
      → IsConsistent x
  reconcile_subscription-Consistent destinations desired st h x e =
      elim (Option-cases (entry desired.id st)) [
        | inl unknown ↦ h desired.id x (
            ap (entry desired.id)
              (sym (reconcile_subscription_unknown o destinations desired st unknown))
            ∙ e)
        | inr (x0, known) ↦
            let (x', e', r, frame) =
              reconcile_subscription-IsMoved o destinations desired st x0 known in
            let same : x' ≡ x = cc in
            subst IsConsistent same (IsMoved-IsConsistent desired _ _ x' r)
      ]

  reconcile_subscription-AllConsistent :
      (destinations : List Destination) (desired : DesiredSubscription) (st : State W)
      → AllConsistent (subs st)
      → AllConsistent (subs (reconcile_subscription o destinations desired st))
  reconcile_subscription-AllConsistent destinations desired st h j x e =
      let after = reconcile_subscription o destinations desired st in
      elim (Bool-cases (desired.id == j)) [
        | inl same ↦
            let p = (eq_iff desired.id j).0 same in
            reconcile_subscription-Consistent destinations desired st h x
              (ap (λ i. entry i after) p ∙ e)
        | inr differ ↦ h j x (
            sym (
              reconcile_subscription-frame o destinations desired j
                (ne_of_false desired.id j differ) st)
            ∙ e)
      ]

  reconcile_all-AllConsistent :
      (destinations : List Destination) (desired : List DesiredSubscription) (st : State W)
      → AllConsistent (subs st)
      → AllConsistent (subs (reconcile_all o destinations desired st))
  unfolding reconcile_all
  reconcile_all-AllConsistent destinations [] st h = h
  reconcile_all-AllConsistent destinations (d ∷ ds) st h =
      reconcile_all-AllConsistent destinations ds (reconcile_subscription o destinations d st)
        (reconcile_subscription-AllConsistent destinations d st h)

  subs-inspect_all :
      (sources : List Source) (st : State W) → subs (inspect_all o sources st) ≡ subs st
  unfolding inspect_all
  subs-inspect_all [] st = refl
  subs-inspect_all (source ∷ sources) st =
      subs-inspect_all sources (inspect_source o source st) ∙ subs-inspect_source o source st

  degrade-AllConsistent :
      (st : State W) → AllConsistent (subs st) → AllConsistent (subs (degrade o st))
  unfolding degrade
  degrade-AllConsistent (s, w) h = detach_all-AllConsistent s.subscriptions h

  finish-AllConsistent :
      (r : State W × Bool) → AllConsistent (subs r.0) → AllConsistent (subs (finish o r))
  unfolding finish
  finish-AllConsistent ((s, w), false) h = degrade-AllConsistent (record s { control = false }, w) h
  finish-AllConsistent ((s, w), true) h = h

  converge-AllConsistent :
      (destinations : List Destination) (desired : List DesiredSubscription) (st : State W)
      → AllConsistent (subs st)
      → AllConsistent (subs (converge o destinations desired st))
  unfolding converge
  converge-AllConsistent destinations desired st h =
      let (s, w) = reconcile_all o destinations desired st in
      let (w', reported) = report o (observations s.subscriptions) w in
      finish-AllConsistent ((s, w'), reported)
        (reconcile_all-AllConsistent destinations desired st h)

  with-AllConsistent :
      (sources : List Source) (destinations : List Destination) (r : Refreshed) (st : State W)
      → AllConsistent (subs st)
      → AllConsistent (subs (reconcile_with o sources destinations r st))
  unfolding reconcile_with
  with-AllConsistent sources destinations r st h =
      let st' = if r.healthy then inspect_all o sources st else st in
      let h' : AllConsistent (subs st') =
        subst AllConsistent (sym (inspected (subs-inspect_all sources st))) h in
      elim (Bool-cases (not r.healthy || o.ended st'.1)) [
        | inl over ↦ rw (over, reconcile_with) (degrade-AllConsistent st' h')
        | inr on ↦ rw (on, reconcile_with) (converge-AllConsistent destinations r.desired st' h')
      ]
    where
      inspected :
          subs (inspect_all o sources st) ≡ subs st
          → subs (if r.healthy then inspect_all o sources st else st) ≡ subs st
      inspected e = ground arith

  -- A pass keeps every subscription consistent: one that is running has a consumer, and one that has
  -- a consumer is starting or running, so a paused or blocked one has none.
  pub reconcile-AllConsistent :
      (sources : List Source) (destinations : List Destination) (st : State W)
      → AllConsistent (subs st)
      → AllConsistent (subs (reconcile o sources destinations st))
  unfolding reconcile refresh_dependencies
  reconcile-AllConsistent sources destinations (s, w) h =
      let (st', r) = refresh_dependencies o (s, w) in
      with-AllConsistent sources destinations r st' h
