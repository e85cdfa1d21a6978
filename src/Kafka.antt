-- ===== src/Kafka.antt =====
-- internal/adapters/kafka/consumer.go: the worker of one partition. The clients of Kafka and of the
-- control store are calls of the world; a call may end by its own deadline or by the context.
pub mod Baseline
pub mod Ownership
pub mod Batches
pub mod Polling
pub mod Topics
use Prim.Native.String
use postie.Prelude.{
  ℕ, String, Bool, true, false, not, ◌&&◌, ◌||◌, Option, none, some, List, [], ◌∷◌, ◌==◌,
  if◌then◌else◌, is_some, Dict, lookup_or, ℤ, pos, negsuc, ltb_ℤ, eqb_ℤ,
}
use postie.Stream.{Source, no_source, Scope, RawRecord}
use postie.Encoding.{Json}
use postie.Delivery.Effects.{
  Error, canceled, failed, Result, ok, err, M, Context, ◌>>=◌, ◌>>◌, bind_result, pure,
}
use postie.Delivery.Retry.{retry}
use postie.Delivery.Backoff.{second}
use postie.Delivery.Worker.{Gate}

-- `kadm.ListedOffset` and `kadm.OffsetResponse`: an offset, and whether it came with an error.
pub record Offset : Type 0 where
  pub at : ℤ  -- int64
  pub failed : Bool

-- An answer, by topic and partition.
abbrev pub Offsets : Type 0
Offsets = String → ℤ → Option Offset

-- What is asked of the broker and of `PartitionStore`, and the worker's own `owned`, which
-- `stopWorkers` clears.
pub record Outside (W : Type 0) : Type 0 where
  pub fetch_offsets : String → W → W × Result Offsets
  pub list_start : String → W → W × Result Offsets
  pub list_end : String → W → W × Result Offsets
  pub commit_records : String → ℤ → ℤ → ℤ → W → W × Result (Unit {0})
  pub partition_started : Scope → String → String → ℤ → W → W × Result Bool
  pub mark_partition_started : Scope → String → String → ℤ → W → W × Result (Unit {0})
  pub owned : W → Bool
  pub cancel : W → W

-- `partitionWorker` with what it uses of its `Consumer`.
pub record PartitionWorker (W : Type 0) : Type 0 where
  pub outside : Outside W
  pub dispatch : Gate W
  pub context : Context W
  pub scope : Scope
  pub destination : String
  pub group : String
  pub sources : Dict Source
  pub topic : String
  pub partition : ℤ  -- int32

-- The field `horizon` beside the world.
abbrev pub Local : Type 0 → Type 0
Local W = ℤ × W

abbrev pub local : {W : Type 0} → Context W → Context (Local W)
local c = record {
  error = λ s. c.error s.1;
  wait = λ delay s. let (w, fired) = c.wait delay s.1 in ((s.0, w), fired);
}

abbrev pub less_one : ℤ → ℤ
less_one (pos ℕ.zero) = negsuc 0
less_one (pos (ℕ.suc n)) = pos n
less_one (negsuc n) = negsuc (ℕ.suc n)

-- `kgo.Record`, as the client polls it.
pub record KafkaRecord : Type 0 where
  pub topic : String
  pub partition : ℤ
  pub offset : ℤ
  pub leader_epoch : ℤ
  pub key : Option Json
  pub value : Option Json

module _ {W : Type 0} (p : PartitionWorker W) where
  unfoldable pub source_id : String
  source_id = (lookup_or p.topic p.sources no_source).id

  pub call : {A : Type 0} → (W → W × Result A) → M (Local W) A
  call f s = let (w, r) = f s.1 in some ((s.0, w), r)

  -- The test of `commit`, under the worker's lock.
  unfoldable pub may_commit : W → Bool
  may_commit w =
      p.outside.owned w && not (is_some (p.context.error w)) && p.dispatch.allowed source_id w

  -- `commit`
  unfoldable pub commit : String → ℤ → ℤ → ℤ → W → W × Result (Unit {0})
  commit topic partition offset epoch w =
      if not (may_commit w)
      then (w, err canceled)
      else p.outside.commit_records topic partition offset epoch w

  -- `Lookup` of a start or an end.
  available : String → Option Offset → M (Local W) ℤ
  available what none s = some (s, err (failed what))
  available what (some o) s = some (s, if o.failed then err (failed what) else ok o.at)

  -- `committed.Lookup`: the offset, if there is one.
  readable : Option Offset → M (Local W) (Option ℤ)
  readable none s = some (s, ok none)
  readable (some o) s = some (s, if o.failed then err (failed "offset") else ok (some o.at))

  set_horizon : ℤ → M (Local W) (Unit {0})
  set_horizon last s = some ((last, s.1), ok tt)

  -- The source is blocked and this worker ends.
  lose : String → M (Local W) (Unit {0})
  lose reason s =
      some ((s.0, p.outside.cancel (p.dispatch.block source_id reason s.1)), err canceled)

  -- No offset, or one that Kafka calls none.
  settle_new : ℤ → Bool → M (Local W) (Unit {0})
  unfolding lose call commit
  settle_new first started =
      if started || not (eqb_ℤ first (pos 0))
      then lose "established consumer offsets or history lost"
      else call (commit p.topic p.partition (less_one first) (negsuc 0))

  settle_known : ℤ → ℤ → ℤ → M (Local W) (Unit {0})
  unfolding lose
  settle_known first last at =
      if ltb_ℤ at first || ltb_ℤ last at
      then lose "committed offset is outside retained history"
      else pure tt

  pub settle : ℤ → ℤ → Option ℤ → Bool → M (Local W) (Unit {0})
  unfolding settle_new settle_known
  settle first last none started = settle_new first started
  settle first last (some at) started =
      if ltb_ℤ at (pos 0) then settle_new first started else settle_known first last at

  -- One attempt of `initialize`.
  unfoldable pub attempt : M (Local W) (Unit {0})
  unfolding call available readable set_horizon settle
  attempt = do
    committed ← call (p.outside.fetch_offsets p.group)
    start ← call (p.outside.list_start p.topic)
    end ← call (p.outside.list_end p.topic)
    first ← available "partition start unavailable" (start p.topic p.partition)
    last ← available "partition end unavailable" (end p.topic p.partition)
    set_horizon last
    offset ← readable (committed p.topic p.partition)
    started ← call (p.outside.partition_started p.scope p.destination p.topic p.partition)
    settle first last offset started
    call (p.outside.mark_partition_started p.scope p.destination p.topic p.partition)

  -- `initialize`; `retry` here is the loop of internal/delivery.
  unfoldable pub initialize : ℕ → M (Local W) (Unit {0})
  unfolding attempt
  initialize fuel = retry fuel (local p.context) second attempt

  -- The record that `process` hands on; what the log already held is historical.
  unfoldable pub raw_record : ℤ → KafkaRecord → RawRecord
  raw_record horizon raw = record {
    topic = raw.topic;
    partition = raw.partition;
    offset = raw.offset;
    leader_epoch = raw.leader_epoch;
    key = raw.key;
    value = raw.value;
    historical = ltb_ℤ raw.offset horizon;
  }

  unfoldable pub commit_position : RawRecord → W → W × Result (Unit {0})
  unfolding commit
  commit_position r = commit r.topic r.partition r.offset r.leader_epoch
