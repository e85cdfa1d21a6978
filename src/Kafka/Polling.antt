-- ===== src/Kafka/Polling.antt =====
-- The loop of `Run` in internal/adapters/kafka/consumer.go, up to its deferred calls; those are the steps
-- of the consumer's end in Ownership.
use postie.Prelude.{
  ℕ, zero, suc, Bool, true, false, ◌||◌, Option, none, some, List, [], ◌∷◌, ◌≡◌, inl, inr, refl,
  String, Dict, lookup_or, ℤ, if◌then◌else◌, Bool-cases,
}
use postie.Activity.{Entry, no_entry}
use postie.Stream.{Source, no_source}
use postie.Kafka.{KafkaRecord}
use postie.Kafka.Ownership.{PartitionKey}

-- An error of a fetch: what `errors.Is` and `errors.As` find in it.
pub record FetchError : Type 0 where
  pub topic : String
  pub partition : ℤ
  pub is_offset_out_of_range : Bool
  pub as_data_loss : Bool

pub record Fetches : Type 0 where
  pub errors : List FetchError
  pub partitions : List (PartitionKey × List KafkaRecord)

-- `offer` is the `select` that hands the records over, unless one of the two contexts ends.
pub record Polling (W : Type 0) : Type 0 where
  pub error : W → Bool
  pub cancel : W → W
  pub poll : W → W × Fetches
  pub allow_rebalance : W → W
  pub block : String → String → W → W
  pub log : Entry → W → W
  pub has_worker : PartitionKey → W → Bool
  pub pause_fetch : PartitionKey → W → W
  pub offer : PartitionKey → List KafkaRecord → W → W
  pub destination : String
  pub sources : Dict Source

-- `historyLost`
abbrev pub history_lost : FetchError → Bool
history_lost e = e.is_offset_out_of_range || e.as_data_loss

abbrev pub fetch_entry : String → FetchError → Entry
fetch_entry destination e = record no_entry {
  level = "warn";
  message = "Kafka fetch unavailable";
  destination = destination;
  topic = e.topic;
  partition = e.partition;
  error = "fetch failed";
}

module _ {W : Type 0} (p : Polling W) where
  -- Whether `Run` returns.
  unfoldable pub handle_errors : List FetchError → W → W × Bool
  handle_errors [] w = (w, false)
  handle_errors (e ∷ rest) w =
      let others = handle_errors rest (p.log (fetch_entry p.destination e) w) in
      if p.error w
      then (w, true)
      else if history_lost e
      then (
        p.cancel
            (p.block (lookup_or e.topic p.sources no_source).id "Kafka history boundary lost" w),
        true,
      )
      else others

  unfoldable pub route_partition : PartitionKey → List KafkaRecord → W → W
  route_partition key [] w = w
  route_partition key records w =
      if p.has_worker key w then p.offer key records (p.pause_fetch key w) else w

  unfoldable pub route : List (PartitionKey × List KafkaRecord) → W → W
  unfolding route_partition
  route [] w = w
  route ((key, records) ∷ rest) w = route rest (route_partition key records w)

  unfoldable pub after_errors : (W → Option W) → Fetches → W × Bool → Option W
  unfolding route
  after_errors again f (w, true) = some w
  after_errors again f (w, false) = again (p.allow_rebalance (route f.partitions w))

  unfoldable pub poll_round : (W → Option W) → W × Fetches → Option W
  unfolding handle_errors after_errors
  poll_round again (w, f) = after_errors again f (handle_errors f.errors w)

  unfoldable pub run : ℕ → W → Option W
  unfolding poll_round
  run zero w = none
  run (suc fuel) w = elim (p.error w) [ true ↦ some w | false ↦ poll_round (run fuel) (p.poll w) ]

  -- A cancel ends the context.
  module _ (cancels : (w : W) → p.error (p.cancel w) ≡ true) where
    handle_errors-ended :
        (es : List FetchError) (w : W)
        → (handle_errors es w).1 ≡ true
        → p.error (handle_errors es w).0 ≡ true
    unfolding handle_errors
    handle_errors-ended [] w h = cc
    handle_errors-ended (e ∷ rest) w h = elim (Bool-cases (p.error w)) [
      | inl ended ↦ rw ended ended
      | inr live ↦ elim (Bool-cases (history_lost e)) [
        | inl lost ↦ rw (live, lost) (cancels _)
        | inr kept ↦
            rw (live, kept)
              (handle_errors-ended rest (p.log (fetch_entry p.destination e) w)
                (rw (live, kept) at h))
      ]
    ]

    abbrev Over : Option W → Type 0
    Over none = Unit
    Over (some w) = p.error w ≡ true

    after_errors-Over :
        (again : W → Option W) (f : Fetches) (x : W × Bool)
        → ((w : W) → Over (again w))
        → (x.1 ≡ true → p.error x.0 ≡ true)
        → Over (after_errors again f x)
    unfolding after_errors
    after_errors-Over again f (w, true) ih h = h refl
    after_errors-Over again f (w, false) ih h = ih _

    -- `Run` leaves its loop with a context that has ended.
    run-Over : (fuel : ℕ) (w : W) → Over (run fuel w)
    unfolding run poll_round
    run-Over zero w = tt
    run-Over (suc fuel) w = elim (Bool-cases (p.error w)) [
      | inl ended ↦ rw (ended, Over, run) ended
      | inr live ↦
          rw (live, Over, run)
            (after_errors-Over (run fuel) (p.poll w).1
              (handle_errors (p.poll w).1.errors (p.poll w).0) (run-Over fuel)
              (handle_errors-ended (p.poll w).1.errors (p.poll w).0))
    ]
