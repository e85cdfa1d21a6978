-- ===== src/Control/Subscriptions/Invariant.antt =====
-- What one pass makes of a subscription (internal/control/reconcile.go).
use mathlib.Core.Option
use mathlib.Core.Path.{subst}
use postie.Prelude.{
  ℕ, String, Bool, true, false, ◌≡◌, ◌≢◌, ◌∙◌, refl, ap, ◌⊎◌, inl, inr, Option, none, some, [], ◌∷◌,
  ◌==◌, if◌then◌else◌, Dict, lookup, arith, eq_iff, eq_refl, Bool-cases,
}
use postie.Control.{
  SubscriptionState, running, starting, pausing, blocked, Service, Subscription,
  DesiredSubscription, Destination, resting_state,
}
use postie.Control.Outside.{Outside, State}
use postie.Control.Subscriptions.{
  modify, modify_in, set_state, set_outcome, set_consumer, set_revision, stop_consumer, log_resting,
  settle, rest, started, start_consumer, ensure_consumer, log_running, mark_progress, progress,
}

lookup-modify :
    (id j : String) (f : Subscription → Subscription) (m : Dict Subscription)
    → lookup j (modify id f m) ≡ (if id == j then Option.map f (lookup j m) else lookup j m)
unfolding modify
lookup-modify id j f [] = ground arith
lookup-modify id j f ((k, x) ∷ m) =
    ground (arith, eq_iff id j, eq_iff k id, eq_iff k j, lookup-modify id j f m)

abbrev pub entry : {W : Type 0} → String → State W → Option Subscription
entry id st = lookup id st.0.subscriptions

-- A subscription at rest: no consumer, and the revision applied.
abbrev pub rested : DesiredSubscription → String → Subscription → Subscription
rested desired reason x =
    let outcome = resting_state desired reason in
    set_consumer none (set_revision desired.revision (set_outcome outcome.0 outcome.1 x))

-- No consumer could be created; the revision is not applied.
pub record IsBlocked (revision : ℕ) (x' : Subscription) : Type 0 where
  pub state : x'.view.state ≡ blocked
  pub error : x'.view.error ≡ "Kafka consumer unavailable"
  pub no_consumer : x'.consumer ≡ none
  pub same : x'.revision ≡ revision

-- A consumer that is not ready yet, or one that is and for which the revision is applied.
pub record IsConsuming (desired : DesiredSubscription) (revision : ℕ) (x' : Subscription)
    : Type 0 where
  pub consumer : ℕ
  pub has : x'.consumer ≡ some consumer
  pub progressed :
      (x'.view.state ≡ starting) × (x'.revision ≡ revision)
      ⊎ (x'.view.state ≡ running) × (x'.view.error ≡ "") × (x'.revision ≡ desired.revision)

abbrev pub IsActive : DesiredSubscription → ℕ → Subscription → Type 0
IsActive desired revision x' = IsBlocked revision x' ⊎ IsConsuming desired revision x'

module _ {W : Type 0} (o : Outside W) where
  pub entry-modify_in :
      (id : String) (f : Subscription → Subscription) (s : Service) {x : Subscription}
      → lookup id s.subscriptions ≡ some x
      → lookup id (modify_in id f s).subscriptions ≡ some (f x)
  unfolding modify_in
  entry-modify_in id f s h = lookup-modify id id f s.subscriptions ∙ ground (arith, eq_refl id)

  pub entry-modify_in_ne :
      (id j : String) (f : Subscription → Subscription) (s : Service)
      → id ≢ j
      → lookup j (modify_in id f s).subscriptions ≡ lookup j s.subscriptions
  unfolding modify_in
  entry-modify_in_ne id j f s h = lookup-modify id j f s.subscriptions ∙ ground (arith, eq_iff id j)

  pub subscriptions-log_resting :
      (id : String) (previous : Option Subscription) (outcome : SubscriptionState × String)
      (st : State W)
      → (log_resting o id previous outcome st).0.subscriptions ≡ st.0.subscriptions
  unfolding log_resting
  subscriptions-log_resting id none outcome st = refl
  subscriptions-log_resting id (some previous) (state, error) st = ground arith

  pub subscriptions-log_running :
      (id : String) (previous : Option Subscription) (st : State W)
      → (log_running o id previous st).0.subscriptions ≡ st.0.subscriptions
  unfolding log_running
  subscriptions-log_running id none st = refl
  subscriptions-log_running id (some previous) st = ground arith

  settle-entry :
      (id : String) (desired : DesiredSubscription) (reason : String) (st : State W)
      {x : Subscription}
      → entry id st ≡ some x
      → x.consumer ≡ none
      → entry id (settle o id desired reason st) ≡ some (rested desired reason x)
  unfolding settle
  settle-entry id desired reason (s, w) {x} h e =
      let outcome = resting_state desired reason in
      let f =
        λ (y : Subscription). set_revision desired.revision (set_outcome outcome.0 outcome.1 y) in
      ap (lookup id)
        (subscriptions-log_resting id (lookup id s.subscriptions) outcome (modify_in id f s, w))
      ∙ entry-modify_in id f s h
      ∙ ap (λ k. some (set_consumer k (f x))) e

  pub rest-entry :
      (id : String) (desired : DesiredSubscription) (reason : String) (consumer : Option ℕ)
      (st : State W) (x : Subscription)
      → entry id st ≡ some x
      → x.consumer ≡ consumer
      → entry id (rest o id consumer desired reason st) ≡ some (rested desired reason x)
  unfolding rest stop_consumer
  rest-entry id desired reason none st x h e = settle-entry id desired reason st h e
  rest-entry id desired reason (some c) (s, w) x h e =
      let s1 = modify_in id (set_state pausing) s in
      settle-entry id desired reason (modify_in id (set_consumer none) s1, o.stop c w)
        (entry-modify_in id (set_consumer none) s1 (entry-modify_in id (set_state pausing) s h))
        refl

  abbrev pub Ensured : String → ℕ → State W × Option ℕ → Type 0
  Ensured id revision (st, none) =
      (x' : Subscription) × (entry id st ≡ some x') × IsBlocked revision x'
  Ensured id revision (st, some c) =
      (x' : Subscription) × (entry id st ≡ some x')
      × (x'.consumer ≡ some c)
      × (x'.revision ≡ revision)

  started-Ensured :
      (id : String) (answer : Option ℕ) (st : State W) (x : Subscription)
      → entry id st ≡ some x
      → x.consumer ≡ none
      → Ensured id x.revision (started o id answer st)
  unfolding started
  started-Ensured id none (s, w) x h e =
      let f = set_outcome blocked "Kafka consumer unavailable" in
      (
        f x,
        entry-modify_in id f s h,
        record { state = refl; error = refl; no_consumer = e; same = refl },
      )
  started-Ensured id (some c) (s, w) x h e =
      let f = λ (y : Subscription). set_outcome starting "" (set_consumer (some c) y) in
      (f x, entry-modify_in id f s h, refl, refl)

  pub ensure-Ensured :
      (id : String) (consumer : Option ℕ) (d : Destination) (st : State W) (x : Subscription)
      → entry id st ≡ some x
      → x.consumer ≡ consumer
      → Ensured id x.revision (ensure_consumer o id consumer d st)
  unfolding ensure_consumer start_consumer
  ensure-Ensured id none d (s, w) x h e = started-Ensured id _ (s, _) x h e
  ensure-Ensured id (some c) d (s, w) x h e = elim (Bool-cases (o.finished c w)) [
    | inl over ↦ rw over (
        started-Ensured id _ (modify_in id (set_consumer none) s, _) (set_consumer none x)
          (entry-modify_in id (set_consumer none) s h) refl)
    | inr live ↦ rw live (x, h, e, refl)
  ]

  mark-IsConsuming :
      (id : String) (desired : DesiredSubscription) (c : ℕ) (is_ready : Bool) (st : State W)
      (x : Subscription)
      → entry id st ≡ some x
      → x.consumer ≡ some c
      → (x' : Subscription) × (entry id (mark_progress o id desired is_ready st) ≡ some x')
        × IsConsuming desired x.revision x'
  unfolding mark_progress
  mark-IsConsuming id desired c false (s, w) x h e = (
    set_state starting x,
    entry-modify_in id (set_state starting) s h,
    record { consumer = c; has = e; progressed = inl (refl, refl) },
  )
  mark-IsConsuming id desired c true (s, w) x h e =
      let f = λ (y : Subscription). set_revision desired.revision (set_outcome running "" y) in
      (
        f x,
        ap (lookup id)
              (subscriptions-log_running id (lookup id s.subscriptions) (modify_in id f s, w))
            ∙ entry-modify_in id f s h,
        record { consumer = c; has = e; progressed = inr (refl, refl, refl) },
      )

  pub progress-IsActive :
      (id : String) (desired : DesiredSubscription) (revision : ℕ) (r : State W × Option ℕ)
      → Ensured id revision r
      → (x' : Subscription) × (entry id (progress o id desired r) ≡ some x')
        × IsActive desired revision x'
  unfolding progress
  progress-IsActive id desired revision (st, none) (x, h, b) = (x, h, inl b)
  progress-IsActive id desired revision (st, some c) (x, h, e, same) =
      let (x', h', p) = mark-IsConsuming id desired c (o.ready c st.1) st x h e in
      (x', h', inr (subst (λ n. IsConsuming desired n x') same p))
