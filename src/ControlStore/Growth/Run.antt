-- ===== src/ControlStore/Growth/Run.antt =====
-- The other statements, and any sequence of calls.
use postie.Prelude.{ℕ, String, Bool, true, List, [], ◌∷◌, ◌≡◌, ap, any, ℤ}
use mathlib.Core.Path.{subst}
use postie.Stream.{Scope, Record}
use postie.Delivery.Effects.{ok}
use postie.ControlStore.{
  is_started, is_skip, LeaseRow, ObservationRow, StartedRow, SkipRow, Tables, Connection, Call,
  transaction, checked, mark_partition_started, save_skip,
}
use postie.ControlStore.Streams.{Codec}
use postie.ControlStore.Leases.{renew_lease, release_lease}
use postie.ControlStore.Subscriptions.{observe_subscription}
use postie.ControlStore.Calls.{
  StoreCall, registers, blocks, ensures, sets, observes, renews, releases, marks, skips, apply, run,
}
use postie.ControlStore.Rows.{any-insert_new, transaction-post, checked-post}
use postie.ControlStore.Growth.{
  IsLater, same_stream, same_subscription, same_tables, IsLater-tables,
}
use postie.ControlStore.Growth.Streams.{register_stream-IsLater, block_source-IsLater}
use postie.ControlStore.Growth.Subscriptions.{ensure_subscriptions-IsLater, set_desired-IsLater}

-- A statement on the other tables.
other-IsLater :
    (t : Tables) (leases : List LeaseRow) (observations : List ObservationRow)
    (skips : List SkipRow) (started : List StartedRow)
    → ((q : StartedRow → Bool) → any q t.started ≡ true → any q started ≡ true)
    → ((q : SkipRow → Bool) → any q t.skips ≡ true → any q skips ≡ true)
    → IsLater t (record t {
      leases = leases;
      observations = observations;
      skips = skips;
      started = started;
    })
other-IsLater t leases observations skips' started h h' = record {
  streams = λ s id r h. (r, h, same_stream r);
  subscriptions = λ s id r h. (r, h, same_subscription r);
  started = h;
  skips = h';
}

commit-IsLater :
    (what : String) (g : Tables → Tables) (c : Connection) (t : Tables)
    → IsLater t (g t)
    → IsLater t (transaction what (λ t. (g t, ok (tt {0}))) c t).0
commit-IsLater what g c t h =
    transaction-post (IsLater t) what (λ t. (g t, ok tt)) c t (same_tables t)
      (λ t' a e. subst (IsLater t) (ap (λ p. p.0) e) h)

checked_twice-IsLater :
    {A : Type 0} (b b' : Bool) (what what' : String) (call : Call A) (c : Connection) (t : Tables)
    → IsLater t (call c t).0
    → IsLater t (checked b what (checked b' what' call) c t).0
checked_twice-IsLater b b' what what' call c t h =
    checked-post (IsLater t) b what (checked b' what' call) c t (same_tables t)
      (λ v. checked-post (IsLater t) b' what' call c t (same_tables t) (λ n. h))

observe_subscription-IsLater :
    (s : Scope) (worker id : String) (revision : ℕ) (state : String) (c : Connection) (t : Tables)
    → IsLater t (observe_subscription s worker id revision state c t).0
unfolding observe_subscription
observe_subscription-IsLater s worker id revision state c t =
    checked_twice-IsLater _ _ _ _ _ c t
      (commit-IsLater _ _ c t (other-IsLater t _ _ _ _ (λ q h. h) (λ q h. h)))

renew_lease-IsLater :
    (s : Scope) (worker : String) (ttl expires_at : ℤ) (c : Connection) (t : Tables)
    → IsLater t (renew_lease s worker ttl expires_at c t).0
unfolding renew_lease
renew_lease-IsLater s worker ttl expires_at c t =
    checked_twice-IsLater _ _ _ _ _ c t
      (commit-IsLater _ _ c t (other-IsLater t _ _ _ _ (λ q h. h) (λ q h. h)))

release_lease-IsLater :
    (s : Scope) (worker : String) (c : Connection) (t : Tables)
    → IsLater t (release_lease s worker c t).0
unfolding release_lease
release_lease-IsLater s worker c t =
    checked_twice-IsLater _ _ _ _ _ c t
      (commit-IsLater _ _ c t (other-IsLater t _ _ _ _ (λ q h. h) (λ q h. h)))

mark-IsLater :
    (s : Scope) (id topic : String) (partition : ℤ) (c : Connection) (t : Tables)
    → IsLater t (mark_partition_started s id topic partition c t).0
unfolding mark_partition_started
mark-IsLater s id topic partition c t = checked_twice-IsLater _ _ _ _ _ c t (
    commit-IsLater _ _ c t (
      other-IsLater t _ _ _ _ (λ q. any-insert_new q (is_started s id topic partition) _ t.started)
        (λ q h. h)))

skip-IsLater :
    (s : Scope) (id : String) (r : Record) (c : Connection) (t : Tables)
    → IsLater t (save_skip s id r c t).0
unfolding save_skip
skip-IsLater s id r c t = checked_twice-IsLater _ _ _ _ _ c t (
    commit-IsLater _ _ c t
      (other-IsLater t _ _ _ _ (λ q h. h) (λ q. any-insert_new q (is_skip s id r) _ t.skips)))

apply-IsLater :
    (k : Codec) (call : StoreCall) (c : Connection) (t : Tables) → IsLater t (apply k call c t)
unfolding apply
apply-IsLater k (registers s r) c t = register_stream-IsLater k s r c t
apply-IsLater k (blocks s id reason) c t = block_source-IsLater s id reason c t
apply-IsLater k (ensures s ids) c t = ensure_subscriptions-IsLater s ids c t
apply-IsLater k (sets s id state) c t = set_desired-IsLater s id state c t
apply-IsLater k (observes s worker id revision state) c t =
    observe_subscription-IsLater s worker id revision state c t
apply-IsLater k (renews s worker ttl expires_at) c t =
    renew_lease-IsLater s worker ttl expires_at c t
apply-IsLater k (releases s worker) c t = release_lease-IsLater s worker c t
apply-IsLater k (marks s id topic partition) c t = mark-IsLater s id topic partition c t
apply-IsLater k (skips s id r) c t = skip-IsLater s id r c t

-- Whatever calls follow, by any workers, also where the database refuses them or its answer is lost:
-- a registered stream keeps its identity, names and topic, and stays blocked once it is; a
-- subscription stays, its revision never falls, and one revision has one desired state; and what is
-- started or skipped stays so.
pub run-IsLater :
    (k : Codec) (calls : List (StoreCall × Connection)) (t : Tables) → IsLater t (run k calls t)
unfolding run
run-IsLater k [] t = same_tables t
run-IsLater k ((call, c) ∷ rest) t =
    IsLater-tables t (apply k call c t) (run k rest (apply k call c t)) (apply-IsLater k call c t)
      (run-IsLater k rest (apply k call c t))
