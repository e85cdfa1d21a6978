-- ===== src/ControlStore/Subscriptions.antt =====
-- internal/adapters/controlpg/subscriptions.go. A revision is an int64; where the code rejects one that
-- is not positive, the only such one here is 0.
pub mod Observation
use postie.Prelude.{
  ℕ, suc, String, Bool, true, false, not, ◌&&◌, ◌||◌, Option, none, some, List, [], ◌∷◌, map, ◌==◌,
  if◌then◌else◌, any, ltb, leb, ℤ, ltb_ℤ,
}
use postie.Stream.{Scope}
use postie.Delivery.Effects.{Error, failed, Result, ok, err}
use postie.ControlStore.{
  SubscriptionRow, LeaseRow, ObservationRow, Tables, Call, transaction, checked, same_scope,
  valid_scope, is_blank, find, insert_new, update, upsert,
}

-- `control.DesiredSubscription`, as the row spells it.
pub record DesiredRow : Type 0 where
  pub id : String
  pub desired : String
  pub revision : ℕ

abbrev pub desired_row : SubscriptionRow → DesiredRow
desired_row r = record { id = r.destination_id; desired = r.desired; revision = r.revision }

abbrev pub max_bigint : ℕ
max_bigint = 9223372036854775807

abbrev pub is_subscription : Scope → String → SubscriptionRow → Bool
is_subscription s id r = same_scope r.scope s && r.destination_id == id

-- The order of the inserts does not show in a table.
unfoldable pub ensure_rows : Scope → List String → List SubscriptionRow → List SubscriptionRow
unfolding insert_new
ensure_rows s [] rows = rows
ensure_rows s (id ∷ ids) rows =
    let row : SubscriptionRow = record {
      scope = s;
      destination_id = id;
      desired = "running";
      revision = 1;
    } in
    ensure_rows s ids (insert_new (is_subscription s id) row rows)

unfoldable pub ensure_subscriptions : Scope → List String → Call (Unit {0})
unfolding valid_scope ensure_rows
ensure_subscriptions s ids = checked (valid_scope s) "control: invalid scope" (
    transaction "control: ensure subscriptions" (λ t.
      if any (λ id. id == "") ids
      then (t, err (failed "control: subscription ID is required"))
      else (record t { subscriptions = ensure_rows s ids t.subscriptions }, ok tt)))

unfoldable pub rows_of : Scope → List SubscriptionRow → List DesiredRow
rows_of s [] = []
rows_of s (r ∷ rest) =
    let others = rows_of s rest in if same_scope r.scope s then desired_row r ∷ others else others

-- `ORDER BY destination_id` is an order of the database.
unfoldable pub subscriptions : (List DesiredRow → List DesiredRow) → Scope → Call (List DesiredRow)
unfolding valid_scope rows_of
subscriptions order s =
    checked (valid_scope s) "control: invalid scope"
      (transaction "control: list subscriptions" (λ t. (t, ok (order (rows_of s t.subscriptions)))))

abbrev pub set_row : String → SubscriptionRow → SubscriptionRow
set_row state r = record r {
  desired = state;
  revision = if r.desired == state then r.revision else suc r.revision;
}

-- A revision past the largest bigint fails the statement.
abbrev pub updated :
    Scope → String → String → Tables → Option SubscriptionRow → Tables × Result DesiredRow
updated s id state t none = (t, err (failed "control: subscription is not registered"))
updated s id state t (some r) =
    if ltb max_bigint (set_row state r).revision
    then (t, err (failed "control: set subscription"))
    else (
      record t { subscriptions = update (is_subscription s id) (set_row state) t.subscriptions },
      ok (desired_row (set_row state r)),
    )

unfoldable pub set_desired : Scope → String → String → Call DesiredRow
unfolding valid_scope find update
set_desired s id state = checked (valid_scope s) "control: invalid scope" (
    checked (state == "running" || state == "paused") "control: invalid desired state" (
      transaction "control: set subscription"
        (λ t. updated s id state t (find (is_subscription s id) t.subscriptions))))

abbrev pub is_observation : Scope → String → String → ObservationRow → Bool
is_observation s worker destination r =
    same_scope r.scope s && r.worker_id == worker && r.destination_id == destination

abbrev pub observe_row : ℕ → String → ObservationRow → ObservationRow
observe_row revision state r =
    if leb r.revision revision then record r { revision = revision; state = state } else r

unfoldable pub observe_subscription : Scope → String → String → ℕ → String → Call (Unit {0})
unfolding valid_scope is_blank upsert
observe_subscription s worker destination revision state =
    let row : ObservationRow = record {
      scope = s;
      worker_id = worker;
      destination_id = destination;
      revision = revision;
      state = state;
    } in
    checked (valid_scope s) "control: invalid scope" (
      checked
        (not (worker == "") && not (destination == "") && ltb 0 revision && not (is_blank state))
        "control: worker ID, destination, positive revision, and state are required"
        (transaction "control: observe subscription" (λ t. (
          record t {
            observations =
                upsert (is_observation s worker destination) (observe_row revision state) row
                  t.observations;
          },
          ok tt,
        ))))

abbrev pub is_live : Scope → ℤ → LeaseRow → Bool
is_live s now l = same_scope l.scope s && ltb_ℤ now l.expires_at

-- The row that the left join gives a lease, or none.
abbrev pub lags : ℕ → String → Option ObservationRow → Bool
lags revision state none = true
lags revision state (some o) = ltb o.revision revision || not (o.state == state)

abbrev pub lagging : Scope → ℤ → String → ℕ → String → List ObservationRow → LeaseRow → Bool
lagging s now destination revision state rows l =
    is_live s now l && lags revision state (find (is_observation s l.worker_id destination) rows)

unfoldable pub subscription_observed : Scope → ℤ → String → ℕ → String → Call Bool
unfolding valid_scope is_blank find
subscription_observed s now destination revision state =
    checked (valid_scope s) "control: invalid scope" (
      checked (not (destination == "") && ltb 0 revision && not (is_blank state))
        "control: destination, positive revision, and state are required"
        (transaction "control: check subscription observation" (λ t. (
          t,
          ok (
              any (is_live s now) t.leases
              && not (any (lagging s now destination revision state t.observations) t.leases)),
        ))))
