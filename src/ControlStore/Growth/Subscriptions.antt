-- ===== src/ControlStore/Growth/Subscriptions.antt =====
-- The statements on subscriptions keep what is remembered.
use postie.Prelude.{
  String, Bool, true, false, ◌||◌, Option, none, some, List, [], ◌∷◌, ◌==◌, ◌≡◌, refl, inl, inr,
  any, if◌then◌else◌, arith, Bool-cases, eq_iff, ltb,
}
use postie.Stream.{Scope}
use postie.Delivery.Effects.{ok}
use postie.ControlStore.{SubscriptionRow, Tables, Connection, valid_scope, find}
use postie.ControlStore.Subscriptions.{
  is_subscription, set_row, updated, max_bigint, ensure_rows, ensure_subscriptions, set_desired,
  DesiredRow,
}
use postie.ControlStore.Calls.{}
use postie.ControlStore.Rows.{find-insert_new, find-update, transaction-post, checked-post}
use postie.ControlStore.Growth.{
  IsLaterSubscription, IsLater, same_stream, same_subscription, same_tables, if_not-IsLater,
}

ensure_rows-find :
    (s : Scope) (ids : List String) (rows : List SubscriptionRow) (q : SubscriptionRow → Bool)
    {r : SubscriptionRow}
    → find q rows ≡ some r
    → find q (ensure_rows s ids rows) ≡ some r
unfolding ensure_rows
ensure_rows-find s [] rows q h = h
ensure_rows-find s (id ∷ ids) rows q h =
    ensure_rows-find s ids _ q (find-insert_new q (is_subscription s id) _ rows h)

set_row-later : (state : String) (r : SubscriptionRow) → IsLaterSubscription r (set_row state r)
set_row-later state r = elim (Bool-cases (r.desired == state)) [
  | inl e ↦ record { rises = rw e (omega arith); fixed = λ h. (eq_iff r.desired state).0 e }
  | inr e ↦ record { rises = rw e (omega arith); fixed = λ h. absurd (ground arith) }
]

set_row-key :
    (s s' : Scope) (id id' state : String) (r : SubscriptionRow)
    → is_subscription s id (if is_subscription s' id' r then set_row state r else r)
      ≡ is_subscription s id r
set_row-key s s' id id' state r = elim (Bool-cases (is_subscription s' id' r)) [
  | inl e ↦ rw e refl
  | inr e ↦ rw e refl
]

if-later_subscription :
    (b : Bool) (state : String) (r : SubscriptionRow)
    → IsLaterSubscription r (if b then set_row state r else r)
if-later_subscription true state r = set_row-later state r
if-later_subscription false state r = same_subscription r

ensured-IsLater :
    (s : Scope) (ids : List String) (t : Tables)
    → IsLater t (record t { subscriptions = ensure_rows s ids t.subscriptions })
ensured-IsLater s ids t = record {
  streams = λ s' id r h. (r, h, same_stream r);
  subscriptions = λ s' id r h.
      (r, ensure_rows-find s ids t.subscriptions (is_subscription s' id) h, same_subscription r);
  started = λ q h. h;
  skips = λ q h. h;
}

pub ensure_subscriptions-IsLater :
    (s : Scope) (ids : List String) (c : Connection) (t : Tables)
    → IsLater t (ensure_subscriptions s ids c t).0
unfolding ensure_subscriptions
ensure_subscriptions-IsLater s ids c t =
    checked-post (IsLater t) (valid_scope s) _ _ c t (same_tables t) (λ v.
      transaction-post (IsLater t) _ _ c t (same_tables t) (λ t' a e.
        if_not-IsLater (any (λ id. id == "") ids) t _ t' _ _ a e (ensured-IsLater s ids t)))

updated-IsLater :
    (s : Scope) (id state : String) (t t' : Tables) (x : Option SubscriptionRow) (a : DesiredRow)
    → updated s id state t x ≡ (t', ok a)
    → IsLater t t'
updated-IsLater s id state t t' none a e = cc
updated-IsLater s id state t t' (some r) a e =
    if_not-IsLater (ltb max_bigint (set_row state r).revision) t _ t' _ _ a e (record {
      streams = λ s' id r h. (r, h, same_stream r);
      subscriptions = λ s' id' r h. (
        _,
        find-update (is_subscription s' id') (is_subscription s id) (set_row state) t.subscriptions
            (set_row-key s' s id' id state) h,
        if-later_subscription (is_subscription s id r) state r,
      );
      started = λ q h. h;
      skips = λ q h. h;
    })

pub set_desired-IsLater :
    (s : Scope) (id state : String) (c : Connection) (t : Tables)
    → IsLater t (set_desired s id state c t).0
unfolding set_desired
set_desired-IsLater s id state c t =
    checked-post (IsLater t) (valid_scope s) _ _ c t (same_tables t) (λ v.
      checked-post (IsLater t) (state == "running" || state == "paused") _ _ c t (same_tables t)
        (λ n.
          transaction-post (IsLater t) _ _ c t (same_tables t)
            (λ t' a e. updated-IsLater s id state t t' _ a e)))
