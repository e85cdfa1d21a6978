-- ===== src/Kafka/Ownership.antt =====
-- The partitions that a consumer owns: the callbacks and `stopWorkers` of
-- internal/adapters/kafka/consumer.go, its `Ready`, and the workers' goroutines as steps between
-- them.
pub mod Fence
pub mod Exclusion
pub mod Membership
use Prim.Native.String
use postie.Prelude.{
  ℕ, zero, suc, ◌+◌, String, Bool, true, false, not, ◌&&◌, ◌||◌, Option, none, some, List, [], ◌∷◌,
  ◌==◌, if◌then◌else◌, ℤ, eqb, eqb_ℤ,
}

-- `partitionKey`
pub record PartitionKey : Type 0 where
  pub topic : String
  pub partition : ℤ  -- int32

abbrev pub same_key : PartitionKey → PartitionKey → Bool
same_key a b = a.topic == b.topic && eqb_ℤ a.partition b.partition

-- `partitionWorker`: its own context, `owned` and `initialized`, whether `done` is closed, whether it
-- holds its lock in `commit`, and whether the consumer's map has it.
pub record WorkerState : Type 0 where
  pub key : PartitionKey
  pub registered : Bool
  pub canceled : Bool
  pub owned : Bool
  pub initialized : Bool
  pub committing : Bool
  pub done : Bool

-- A call of `stopWorkers`; no partitions at all are all of them.
pub data Stopping : Type 0 where
  idle : Stopping
  selecting : Option (List PartitionKey) → Stopping
  stopping : List ℕ → Stopping

-- The two goroutines that call it: the client's, whose callbacks are serial, and `Run` at its end.
pub data Caller : Type 0 where
  callback closing : Caller

-- `Consumer`: the workers in the order of their start, and whether its context has ended.
pub record Consumer : Type 0 where
  pub workers : ℕ → WorkerState
  pub count : ℕ
  pub canceled : Bool
  pub assigned : Bool
  pub calls : Caller → Stopping

pub data Event : Type 0 where
  assigns revokes loses : List PartitionKey → Event
  ends : Event
  selects disowns joins returns : Caller → Event
  cancels : Event
  initializes gives_up commit_ends exits : ℕ → Event
  commit_begins : ℕ → Bool → Event

abbrev pub is_idle : Stopping → Bool
is_idle idle = true
is_idle _ = false

abbrev pub set_call : Caller → Stopping → (Caller → Stopping) → Caller → Stopping
set_call callback t f callback = t
set_call callback t f closing = f closing
set_call closing t f callback = f callback
set_call closing t f closing = t

abbrev pub set_worker : ℕ → WorkerState → (ℕ → WorkerState) → ℕ → WorkerState
set_worker i w f j = if eqb j i then w else f j

abbrev pub change : ℕ → WorkerState → Consumer → Consumer
change i w c = record c { workers = set_worker i w c.workers }

-- `c.workers[key]` exists.
unfoldable pub is_registered : PartitionKey → (ℕ → WorkerState) → ℕ → Bool
is_registered k ws zero = false
is_registered k ws (suc n) = ((ws n).registered && same_key (ws n).key k) || is_registered k ws n

abbrev pub new_worker : PartitionKey → WorkerState
new_worker k = record {
  key = k;
  registered = true;
  canceled = false;
  owned = true;
  initialized = false;
  committing = false;
  done = false;
}

abbrev pub start : PartitionKey → Consumer → Consumer
start k c = record (change c.count (new_worker k) c) { count = suc c.count }

unfoldable pub assign : List PartitionKey → Consumer → Consumer
unfolding is_registered
assign [] c = c
assign (k ∷ ks) c = assign ks (if is_registered k c.workers c.count then c else start k c)

abbrev pub any_key : List PartitionKey → PartitionKey → Bool
any_key [] k = false
any_key (a ∷ ks) k = same_key a k || any_key ks k

-- What `stopWorkers` takes out of the map.
abbrev pub is_taken : Option (List PartitionKey) → WorkerState → Bool
is_taken none w = w.registered
is_taken (some ks) w = w.registered && any_key ks w.key

abbrev pub stopped : WorkerState → WorkerState
stopped w = record w { registered = false; canceled = true }

unfoldable pub taken : Option (List PartitionKey) → (ℕ → WorkerState) → ℕ → List ℕ
taken ks ws zero = []
taken ks ws (suc n) = if is_taken ks (ws n) then n ∷ taken ks ws n else taken ks ws n

-- Its critical section; the map has no order.
unfoldable pub select : Caller → Option (List PartitionKey) → Consumer → Consumer
unfolding taken
select by ks c = record c {
  workers = λ i. if is_taken ks (c.workers i) then stopped (c.workers i) else c.workers i;
  calls = set_call by (stopping (taken ks c.workers c.count)) c.calls;
}

abbrev pub enter : Caller → Option (List PartitionKey) → Consumer → Consumer
enter by ks c = record c { calls = set_call by (selecting ks) c.calls }

abbrev pub only : Bool → Consumer → Option Consumer
only b c = if b then some c else none

unfoldable pub select_next : Caller → Stopping → Consumer → Option Consumer
unfolding select
select_next by (selecting ks) c = some (select by ks c)
select_next by _ c = none

-- `w.owned = false` waits for a commit that holds the lock.
unfoldable pub disown_next : Stopping → Consumer → Option Consumer
disown_next (stopping (i ∷ is)) c =
    only (not (c.workers i).committing) (change i (record (c.workers i) { owned = false }) c)
disown_next _ c = none

-- `<-w.done`
unfoldable pub join_next : Caller → Stopping → Consumer → Option Consumer
join_next by (stopping (i ∷ is)) c =
    only ((c.workers i).done && not (c.workers i).owned)
      (record c { calls = set_call by (stopping is) c.calls })
join_next by _ c = none

unfoldable pub return_from : Caller → Stopping → Consumer → Option Consumer
return_from by (stopping []) c = some (record c { calls = set_call by idle c.calls })
return_from by _ c = none

-- The test of `commit`: `allowed` is the dispatch's answer.
abbrev pub may_begin : Consumer → ℕ → Bool → Bool
may_begin c i allowed =
    let w = c.workers i in
    not w.done && not w.committing && w.owned && not (w.canceled || c.canceled) && allowed

-- One event; `none` where it cannot happen.
unfoldable pub step : Event → Consumer → Option Consumer
unfolding assign select_next disown_next join_next return_from
step (assigns ks) c = only (is_idle (c.calls callback)) (assign ks (record c { assigned = true }))
step (revokes ks) c = only (is_idle (c.calls callback)) (enter callback (some ks) c)
step (loses ks) c =
    only (is_idle (c.calls callback)) (enter callback (some ks) (record c { assigned = false }))
step ends c = only (c.canceled && is_idle (c.calls closing)) (enter closing none c)
step (selects by) c = select_next by (c.calls by) c
step (disowns by) c = disown_next (c.calls by) c
step (joins by) c = join_next by (c.calls by) c
step (returns by) c = return_from by (c.calls by) c
step cancels c = some (record c { canceled = true })
step (initializes i) c =
    only (not (c.workers i).done) (change i (record (c.workers i) { initialized = true }) c)
step (gives_up i) c =
    only (not (c.workers i).done) (change i (record (c.workers i) { canceled = true }) c)
step (commit_begins i allowed) c =
    only (may_begin c i allowed) (change i (record (c.workers i) { committing = true }) c)
step (commit_ends i) c =
    only (c.workers i).committing (change i (record (c.workers i) { committing = false }) c)
step (exits i) c =
    only (not (c.workers i).committing && not (c.workers i).done)
      (change i (record (c.workers i) { done = true }) c)

unfoldable pub run : List Event → Consumer → Option Consumer
unfolding step
run [] c = some c
run (e ∷ es) c = elim (step e c) [ none ↦ none | some c' ↦ run es c' ]

abbrev pub no_worker : WorkerState
no_worker = record {
  key = record { topic = ""; partition = ℤ.pos 0 };
  registered = false;
  canceled = true;
  owned = false;
  initialized = false;
  committing = false;
  done = true;
}

-- `NewConsumer`
abbrev pub new : Consumer
new = record {
  workers = λ i. no_worker;
  count = 0;
  canceled = false;
  assigned = false;
  calls = λ by. idle;
}

unfoldable pub all_initialized : (ℕ → WorkerState) → ℕ → Bool
all_initialized ws zero = true
all_initialized ws (suc n) = (not (ws n).registered || (ws n).initialized) && all_initialized ws n

-- `Ready`
unfoldable pub ready : Consumer → Bool
unfolding all_initialized
ready c = c.assigned && all_initialized c.workers c.count
