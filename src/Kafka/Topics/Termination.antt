-- ===== src/Kafka/Topics/Termination.antt =====
-- `EnsureTopic` of internal/adapters/kafka/admin.go returns.
use postie.Prelude.{
  ℕ, zero, suc, String, Bool, true, false, Option, none, some, List, ◌≡◌, ◌≢◌, ◌<◌, refl, ℤ, arith,
}
use postie.Provision.{Result, ok, err}
use postie.Kafka.Topics.{
  Creation, created, already_exists, refused, Admin, topic_configs, Answer, existing_topic,
  after_pause, after_lookup, await_topic, after_creation, ensure_topic,
}

module _ {W : Type 0} (a : Admin W) (topic : String) (partitions replication : ℤ) (measure : W → ℕ)
    (falls : (w : W)
      → (a.pause (existing_topic a topic partitions replication w).0).1 ≡ true
      → measure (a.pause (existing_topic a topic partitions replication w).0).0 < measure w) where
  after_lookup_total :
      (absent : W → Option (W × Result (List ℕ))) (x : Answer W)
      → absent x.0 ≢ none
      → after_lookup a topic partitions replication absent x ≢ none
  unfolding after_lookup
  after_lookup_total absent (w, err e) h = λ k. cc
  after_lookup_total absent (w, ok none) h = h
  after_lookup_total absent (w, ok (some id)) h = λ k. cc

  after_pause_total :
      (again : W → Option (W × Result (List ℕ))) (x : W × Bool)
      → (x.1 ≡ true → again x.0 ≢ none)
      → after_pause a topic partitions replication again x ≢ none
  unfolding after_pause
  after_pause_total again (w, true) h = h refl
  after_pause_total again (w, false) h = λ k. cc

  await_topic_total :
      (fuel : ℕ) (w : W)
      → measure w < fuel
      → await_topic a topic partitions replication fuel w ≢ none
  unfolding await_topic
  await_topic_total zero w h = absurd (omega arith)
  await_topic_total (suc fuel) w h =
      after_lookup_total
        (λ w.
          after_pause a topic partitions replication
            (await_topic a topic partitions replication fuel) (a.pause w))
        (existing_topic a topic partitions replication w)
        (after_pause_total (await_topic a topic partitions replication fuel)
          (a.pause (existing_topic a topic partitions replication w).0)
          (λ on. await_topic_total fuel _ (let f = falls w on in omega arith)))

  after_creation_total :
      (fuel : ℕ) (x : W × Creation)
      → measure x.0 < fuel
      → after_creation a topic partitions replication fuel x ≢ none
  unfolding after_creation
  after_creation_total fuel (w, created id) h = λ k. cc
  after_creation_total fuel (w, refused e) h = λ k. cc
  after_creation_total fuel (w, already_exists) h = await_topic_total fuel w h

  -- Where a measure falls with each round that waits and is below the fuel in every world that the
  -- creation leaves, the call returns.
  pub ensure_topic_total :
      (fuel : ℕ) (w : W)
      → ((w : W)
          → measure (a.create_topic partitions replication (topic_configs replication) topic w).0
            < fuel)
      → ensure_topic a topic partitions replication fuel w ≢ none
  unfolding ensure_topic
  ensure_topic_total fuel w bound =
      after_lookup_total
        (λ w.
          after_creation a topic partitions replication fuel
            (a.create_topic partitions replication (topic_configs replication) topic w))
        (existing_topic a topic partitions replication w)
        (after_creation_total fuel
          (a.create_topic partitions replication (topic_configs replication) topic
            (existing_topic a topic partitions replication w).0)
          (bound (existing_topic a topic partitions replication w).0))
