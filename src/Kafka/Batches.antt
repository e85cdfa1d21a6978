-- ===== src/Kafka/Batches.antt =====
-- A worker from its start to its end: `run` and `process` of internal/adapters/kafka/consumer.go, with
-- the worker of internal/delivery as the `ProcessFunc`, as internal/app/app.go wires it.
pub mod Commits
pub mod Termination
use Prim.Native.String
use postie.Prelude.{
  ℕ, zero, suc, Bool, true, false, not, ◌&&◌, Option, none, some, is_some, List, [], ◌∷◌, ℤ,
  if◌then◌else◌,
}
use postie.Delivery.Effects.{Error, Result, ok, err, M, bind_result}
use postie.Delivery.Worker.{Worker, process_raw}
use postie.Kafka.{PartitionWorker, Local, KafkaRecord, raw_record, commit_position, initialize}

-- What `run` asks of its `Consumer`. `receive` is its `select`, `none` the end of the context.
pub record Routing (W : Type 0) : Type 0 where
  pub worker : Worker W
  pub fuel : ℕ
  pub set_initialized : W → W
  pub signal : W → W
  pub receive : W → W × Option (List KafkaRecord)
  pub registered : W → Bool
  pub resume_fetch : W → W
  pub cancel_consumer : W → W

module _ {W : Type 0} (p : PartitionWorker W) (l : Routing W) where
  unfoldable pub process : ℤ → KafkaRecord → M W (Unit {0})
  process horizon raw =
      process_raw l.worker l.fuel p.context (raw_record p horizon raw) (commit_position p)

  unfoldable pub batch : ℤ → List KafkaRecord → M W (Unit {0})
  unfolding process
  batch horizon [] w = some (w, ok tt)
  batch horizon (raw ∷ rest) w = bind_result (λ _. batch horizon rest) (process horizon raw w)

  unfoldable pub give_up : W → W
  give_up w = if is_some (p.context.error w) then w else l.cancel_consumer w

  unfoldable pub resume : W → W
  resume w = if l.registered w && not (is_some (p.context.error w)) then l.resume_fetch w else w

  unfoldable pub after_batch : (W → Option W) → Option (W × Result (Unit {0})) → Option W
  unfolding give_up resume
  after_batch again none = none
  after_batch again (some (w, err e)) = some (give_up w)
  after_batch again (some (w, ok u)) = again (resume w)

  unfoldable pub after_receive : ℤ → (W → Option W) → W × Option (List KafkaRecord) → Option W
  unfolding after_batch
  after_receive horizon again (w, none) = some w
  after_receive horizon again (w, some records) = after_batch again (batch horizon records w)

  unfoldable pub loop : ℤ → ℕ → W → Option W
  unfolding after_receive
  loop horizon zero w = none
  loop horizon (suc fuel) w = after_receive horizon (loop horizon fuel) (l.receive w)

  unfoldable pub started : ℕ → Option (Local W × Result (Unit {0})) → Option W
  unfolding give_up
  started fuel none = none
  started fuel (some (s, err e)) = some (give_up s.1)
  started fuel (some (s, ok u)) = loop s.0 fuel (l.signal (l.set_initialized s.1))

  -- `run`
  unfoldable pub run : ℕ → W → Option W
  unfolding started initialize
  run fuel w = started fuel (initialize p fuel (ℤ.pos 0, w))
