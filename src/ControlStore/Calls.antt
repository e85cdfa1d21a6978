-- ===== src/ControlStore/Calls.antt =====
-- The calls of internal/adapters/controlpg that change the tables, by any number of workers and in any
-- order; each finds the database in some condition.
use postie.Prelude.{ℕ, String, List, [], ◌∷◌, ℤ}
use postie.Stream.{Scope, Registration, Record}
use postie.ControlStore.{Connection, Tables, mark_partition_started, save_skip}
use postie.ControlStore.Streams.{Codec, register_stream, block_source}
use postie.ControlStore.Leases.{renew_lease, release_lease}
use postie.ControlStore.Subscriptions.{ensure_subscriptions, set_desired, observe_subscription}

pub data StoreCall : Type 0 where
  registers : Scope → Registration → StoreCall
  blocks : Scope → String → String → StoreCall
  ensures : Scope → List String → StoreCall
  sets : Scope → String → String → StoreCall
  observes : Scope → String → String → ℕ → String → StoreCall
  renews : Scope → String → ℤ → ℤ → StoreCall
  releases : Scope → String → StoreCall
  marks : Scope → String → String → ℤ → StoreCall
  skips : Scope → String → Record → StoreCall

unfoldable pub apply : Codec → StoreCall → Connection → Tables → Tables
apply k (registers s r) c t = (register_stream k s r c t).0
apply k (blocks s id reason) c t = (block_source s id reason c t).0
apply k (ensures s ids) c t = (ensure_subscriptions s ids c t).0
apply k (sets s id state) c t = (set_desired s id state c t).0
apply k (observes s worker id revision state) c t =
    (observe_subscription s worker id revision state c t).0
apply k (renews s worker ttl expires_at) c t = (renew_lease s worker ttl expires_at c t).0
apply k (releases s worker) c t = (release_lease s worker c t).0
apply k (marks s id topic partition) c t = (mark_partition_started s id topic partition c t).0
apply k (skips s id r) c t = (save_skip s id r c t).0

unfoldable pub run : Codec → List (StoreCall × Connection) → Tables → Tables
unfolding apply
run k [] t = t
run k ((call, c) ∷ rest) t = run k rest (apply k call c t)
