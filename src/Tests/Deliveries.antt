-- ===== src/Tests/Deliveries.antt =====
-- internal/delivery on a world that is a counter: every call adds one.
use postie.Prelude.{
  ℕ, suc, ◌+◌, ◌*◌, ◌-◌, ◌/◌, ◌<◌, ◌≤◌, ◌≡◌, ◌≢◌, refl, true, false, none, some, Option, [], arith,
  leb, if◌then◌else◌, pos, min,
}
use postie.Encoding.{plain, null}
use postie.Stream.{Record, RawRecord}
use postie.Protocol.{Envelope}
use postie.Delivery.Effects.{Error, canceled, failed, Result, ok, err, M, Context, ctx_sleep}
use postie.Delivery.Retry.{retry, retry_total}
use postie.Delivery.Backoff.{second, ceiling, jitter_bound, backoff, backoff_bounds}
use postie.Delivery.Processor.{delivered, skipped, Processor, process}
use postie.Delivery.Processor.Laws.{Processed, process-Processed, process_total}
use postie.Protocol.{matches_filter}
use postie.Delivery.Processor.{marshal, envelope_for}
use postie.Delivery.Worker.{
  RecordActions, complete_record, Worker, process_raw, actions_for, send, commit,
}
use postie.Delivery.Worker.Ordering.{InOrder, noted_context, noted_actions, complete_record-InOrder}
use postie.Delivery.Worker.Commit.{IsCommitted, process_raw-IsCommitted}

-- The context ends when the counter reaches nine.
abbrev context : Context ℕ
context = record {
  error = λ w. if leb 9 w then some canceled else none;
  wait = λ delay w. (suc w, true);
}

-- Fails below three.
abbrev flaky : M ℕ (Unit {0})
flaky w = some (suc w, if leb 3 w then ok tt else err (failed "refused"))

abbrev actions : RecordActions ℕ
actions = record {
  skipped = λ w. some (suc w, if leb 2 w then ok false else err (failed "refused"));
  send = λ w. some (suc w, ok skipped);
  audit = λ w. some (suc w, if leb 5 w then ok tt else err (failed "refused"));
  commit = λ w. some (suc w, ok tt);
}

complete_record-InOrder_example :
    InOrder 9 context 1
      (complete_record 9 (noted_context context) 1 (noted_actions actions) (0, []))
complete_record-InOrder_example = complete_record-InOrder 9 context 1 actions 0

left : ℕ → ℕ
left w = 20 - w

flaky_returns : (w : ℕ) → flaky w ≢ none
flaky_returns w = cc

flaky_falls :
    (w w' : ℕ) (e : Error)
    → context.error w ≡ none
    → flaky w ≡ some (w', err e)
    → (ctx_sleep context 1 w').1 ≡ none
    → left (ctx_sleep context 1 w').0 < left w
unfolding left ctx_sleep
flaky_falls w w' e live h k = ground arith

retry_total_example : retry 21 context 1 flaky 0 ≢ none
unfolding left
retry_total_example = retry_total context 1 flaky left flaky_returns flaky_falls 21 0 (omega arith)

backoff_bounds_example :
    (second ≤ backoff 2 7)
    × (backoff 2 7 ≤ 60 * second)
    × (ceiling 2 / 2 ≤ backoff 2 7)
    × (backoff 2 7 ≤ ceiling 2)
    × (ceiling 0 ≡ second)
    × (ceiling (2 + 1) ≡ min (2 * ceiling 2) (64 * second))
unfolding jitter_bound ceiling
backoff_bounds_example = backoff_bounds 2 7 (omega arith)

abbrev pub item : Record
item = record {
  source = record {
    id = "orders";
    description = "";
    table = "public.orders";
    columns = [];
    serial_column = "n";
    partitioning_column = "n";
  };
  payload = some (plain "paid");
  topic = "postie.orders";
  partition = pos 0;
  offset = pos 3;
  event_id = "17";
  aggregate_id = "4";
  event_name = "paid";
  generation = pos 1;
  replay = false;
}

abbrev pub processor : Processor ℕ
processor = record {
  send = λ r body w. (suc w, if leb 2 w then ok delivered else err (failed "refused"));
  destination = record { id = "mail"; description = ""; filter = none };
  sleep = λ delay w. (suc w, if leb 9 w then some canceled else none);
  jitter = λ bound w. (suc w, 0);
}

abbrev pub unobserved : ℕ → Option Error → ℕ → ℕ
unobserved attempt e w = w

process-Processed_example :
    Processed processor unobserved item 0 (process processor unobserved 9 item 0)
process-Processed_example = process-Processed processor unobserved item 9 0

abbrev paused_at : ℕ → ℕ × Option Error
paused_at w = (suc (suc w), if leb 9 (suc w) then some canceled else none)

processor_falls :
    (body : Envelope) (attempt : ℕ) (w w' w'' : ℕ) (e : Error)
    → processor.send item body w ≡ (w', err e)
    → paused_at w' ≡ (w'', none)
    → left w'' < left w
unfolding left
processor_falls body attempt w w' w'' e h k = ground arith

process_total_example : process processor unobserved 21 item 0 ≢ none
unfolding left
process_total_example =
    process_total processor unobserved item left processor_falls 21 0 (omega arith)

abbrev pub worker : Worker ℕ
worker = record {
  processor = processor;
  decode = λ raw. ok item;
  has_skip = λ scope d r w. (suc w, ok false);
  save_skip = λ scope d r w. (suc w, ok tt);
  scope = record { namespace = "postie"; environment = "test"; generation = pos 1 };
  destination = "mail";
  source_id = "orders";
  gate = none;
  log = none;
}

abbrev raw : RawRecord
raw = record {
  topic = "postie.orders";
  partition = pos 0;
  offset = pos 3;
  leader_epoch = pos 1;
  key = none;
  value = some null;
  historical = true;
}

abbrev commit_func : RawRecord → ℕ → ℕ × Result (Unit {0})
commit_func r w = (suc w, if leb 7 w then ok tt else err (failed "fenced"))

process_raw-IsCommitted_example : IsCommitted worker context raw commit_func 0 8
unfolding process_raw complete_record retry actions_for send process matches_filter marshal
    envelope_for commit ctx_sleep
process_raw-IsCommitted_example = process_raw-IsCommitted worker context raw commit_func 9 0 8 ran
  where
    ran : process_raw worker 9 context raw commit_func 0 ≡ some (8, ok tt)
    ran = refl
