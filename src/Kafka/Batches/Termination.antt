-- ===== src/Kafka/Batches/Termination.antt =====
-- A worker comes to its end where each round takes time that is left.
use postie.Prelude.{ℕ, zero, suc, Option, none, some, List, [], ◌∷◌, ℤ, ◌≡◌, ◌≢◌, ◌<◌, refl, arith}
use mathlib.Core.Path.{subst}
use postie.Delivery.Effects.{Error, Result, ok, err, bind_result, ctx_sleep}
use postie.Delivery.Retry.{retry_total}
use postie.Delivery.Backoff.{second}
use postie.Kafka.{PartitionWorker, Local, local, KafkaRecord, initialize, attempt}
use postie.Kafka.Baseline.{Attempted}
use postie.Kafka.Baseline.Attempts.{attempt-Attempted}
use postie.Kafka.Batches.{
  Routing, process, batch, resume, after_batch, after_receive, loop, started, run,
}

module _ {W : Type 0} (p : PartitionWorker W) (l : Routing W) (measure : W → ℕ)
    (returns : (horizon : ℤ) (raw : KafkaRecord) (w : W) → process p l horizon raw w ≢ none)
    (waits : (s s' : Local W) (e : Error)
      → (local p.context).error s ≡ none
      → attempt p s ≡ some (s', err e)
      → (ctx_sleep (local p.context) second s').1 ≡ none
      → measure (ctx_sleep (local p.context) second s').0.1 < measure s.1)
    (takes : (horizon : ℤ) (w w1 w2 : W) (records : List KafkaRecord)
      → l.receive w ≡ (w1, some records)
      → batch p l horizon records w1 ≡ some (w2, ok tt)
      → measure (resume p l w2) < measure w) where
  batch_total :
      (horizon : ℤ) (records : List KafkaRecord) (w : W) → batch p l horizon records w ≢ none
  unfolding batch
  batch_total horizon [] w = λ h. cc
  batch_total horizon (raw ∷ rest) w =
      next (process p l horizon raw w) (returns horizon raw w) (batch_total horizon rest)
    where
      next :
          (x : Option (W × Result (Unit {0})))
          → x ≢ none
          → ((w : W) → batch p l horizon rest w ≢ none)
          → bind_result (λ _. batch p l horizon rest) x ≢ none
      next none h ih = absurd (h refl)
      next (some (w1, ok u)) h ih = ih w1
      next (some (w1, err e)) h ih = λ k. cc

  after_batch_total :
      (again : W → Option W) (x : Option (W × Result (Unit {0})))
      → x ≢ none
      → ((w : W) → x ≡ some (w, ok tt) → again (resume p l w) ≢ none)
      → after_batch p l again x ≢ none
  unfolding after_batch
  after_batch_total again none h ih = absurd (h refl)
  after_batch_total again (some (w, ok u)) h ih = ih w refl
  after_batch_total again (some (w, err e)) h ih = λ k. cc

  loop_total : (horizon : ℤ) (fuel : ℕ) (w : W) → measure w < fuel → loop p l horizon fuel w ≢ none
  unfolding loop after_receive
  loop_total horizon zero w h = absurd (omega arith)
  loop_total horizon (suc fuel) w h = received (l.receive w) refl (λ w'. loop_total horizon fuel w')
    where
      received :
          (x : W × Option (List KafkaRecord))
          → l.receive w ≡ x
          → ((w' : W) → measure w' < fuel → loop p l horizon fuel w' ≢ none)
          → after_receive p l horizon (loop p l horizon fuel) x ≢ none
      received (w1, none) e ih = λ k. cc
      received (w1, some records) e ih =
          after_batch_total (loop p l horizon fuel) (batch p l horizon records w1)
            (batch_total horizon records w1)
            (λ w2 e2.
              let t = takes horizon w w1 w2 records e e2 in ih (resume p l w2) (omega arith))

  attempt_total : (s : Local W) → attempt p s ≢ none
  attempt_total s h = subst (Attempted p s.1) h (attempt-Attempted p s)

  started_total :
      (fuel : ℕ) (x : Option (Local W × Result (Unit {0})))
      → ((w : W) → measure w < fuel)
      → x ≢ none
      → started p l fuel x ≢ none
  unfolding started
  started_total fuel none bound h = absurd (h refl)
  started_total fuel (some (s, err e)) bound h = λ k. cc
  started_total fuel (some (s, ok u)) bound h = loop_total s.0 fuel _ (bound _)

  -- Where the processing of a record returns, and a measure falls with every failed attempt of
  -- `initialize` and its pause and with every batch that is through, a worker comes to its end with
  -- fuel above the measure of every world.
  pub run_total : (fuel : ℕ) (w : W) → ((w : W) → measure w < fuel) → run p l fuel w ≢ none
  unfolding run initialize
  run_total fuel w bound = started_total fuel (initialize p fuel (ℤ.pos 0, w)) bound (
      retry_total (local p.context) second (attempt p) (λ s. measure s.1) attempt_total waits fuel
        (ℤ.pos 0, w) (bound w))
