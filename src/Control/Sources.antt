-- ===== src/Control/Sources.antt =====
-- The sources of internal/control/reconcile.go: inspection, the block latch, and the dispatch fence of
-- internal/control/service.go.
pub mod Latch
pub mod Fence
pub mod Frame
use Prim.Native.String
use postie.Prelude.{
  ℕ, String, Bool, true, false, not, ◌&&◌, ◌||◌, Option, none, some, List, [], ◌∷◌, ◌++◌, ◌==◌,
  if◌then◌else◌, Dict, lookup_or, insert, ltb,
}
use postie.Activity.{no_entry}
use postie.Stream.{Registration, no_registration, Source}
use postie.Control.{
  Service, SourceStatus, no_source_status, source_running, source_blocked, source_unavailable,
}
use postie.Control.Outside.{Outside, StreamLookup, failed, absent, found, State, log_entry}

abbrev pub stream_of : String → Service → Registration
stream_of id s = lookup_or id s.streams no_registration

abbrev pub source_state_of : String → Service → SourceStatus
source_state_of id s = lookup_or id s.source_states no_source_status

-- `Allowed`, at the time `now`.
unfoldable pub allowed : ℕ → String → Service → Bool
allowed now source s =
    s.control
    && s.kafka
    && ltb now s.lease_until
    && (source_state_of source s).state == source_running

-- The locked part of `sourceState`: the status that is set, under a latched block.
unfoldable pub settled_status : String → String → String → Service → SourceStatus
settled_status id state reason s =
    let blocked = (stream_of id s).blocked in
    if not (blocked == "")
    then record { id = id; state = source_blocked; error = blocked }
    else record { id = id; state = state; error = reason }

-- `Block`, its locked part: the latch in memory.
unfoldable pub latch : String → String → Service → Service
latch source reason s = record s {
  streams = insert source (record (stream_of source s) { blocked = reason }) s.streams;
}

-- `cacheStream`
unfoldable pub cached : Registration → Service → Registration
cached registered s =
    let blocked = (stream_of registered.source_id s).blocked in
    if not (blocked == "") then record registered { blocked = blocked } else registered

unfoldable pub cache_stream : Registration → Service → Service
unfolding cached
cache_stream registered s = record s {
  streams = insert registered.source_id (cached registered s) s.streams;
}

module _ {W : Type 0} (o : Outside W) where
  log_change : SourceStatus → SourceStatus → State W → State W
  unfolding log_entry
  log_change old new st =
      if old.state == new.state && old.error == new.error
      then st
      else log_entry o
          (record no_entry {
            message = String.◌++◌ "source " new.state;
            source = new.id;
            error = new.error;
          })
          st

  -- `sourceState`
  unfoldable pub source_state : String → String → String → State W → State W
  unfolding settled_status log_change
  source_state id state reason (s, w) =
      let new = settled_status id state reason s in
      log_change (source_state_of id s) new
        (record s { source_states = insert id new s.source_states }, w)

  -- `Block`; `Signal` leaves one signal in `wake`.
  signal : State W → State W
  signal (s, w) = (record s { wake = true }, w)

  store_block : String → String → State W → State W
  store_block source reason (s, w) = (s, (o.block_source source reason w).0)

  unfoldable pub block : String → String → State W → State W
  unfolding latch source_state signal store_block
  block source reason (s, w) = signal (
      store_block source reason
        (source_state source source_blocked reason (latch source reason s, w)))

  -- The blocks that workers raise while a call runs.
  block_all : List (String × String) → State W → State W
  unfolding block
  block_all [] st = st
  block_all ((source, reason) ∷ more) st = block_all more (block source reason st)

  unfoldable pub raised : State W → State W
  unfolding block_all
  raised st = block_all (o.meanwhile st.1) st

  -- `inspectSource` behind its call of the monitor.
  judged : String → String × String → State W → State W
  unfolding block source_state
  judged id (state, reason) st =
      if state == source_blocked then block id reason st else source_state id state reason st

  monitored : Source → Registration → State W → State W
  unfolding judged raised
  monitored source registered (s, w) =
      let (w', answer) = o.inspect source registered w in judged source.id answer (raised (s, w'))

  -- Behind `GetStream`, whose answer is cached first.
  inspect_cached : Source → Registration → State W → State W
  unfolding monitored source_state
  inspect_cached source registered st =
      if not (registered.blocked == "")
      then source_state source.id source_blocked registered.blocked st
      else monitored source registered st

  looked_up : Source → StreamLookup → State W → State W
  unfolding inspect_cached source_state cache_stream
  looked_up source failed st =
      source_state source.id source_unavailable "control state unavailable" st
  looked_up source absent st = source_state source.id source_blocked "source must be provisioned" st
  looked_up source (found registered) (s, w) =
      inspect_cached source (cached registered s) (cache_stream registered s, w)

  -- `inspectSource`
  unfoldable pub inspect_source : Source → State W → State W
  unfolding looked_up raised store_block
  inspect_source source (s, w) =
      let local = (stream_of source.id s).blocked in
      if not (local == "")
      then store_block source.id local (s, w)
      else let (w', answer) = o.get_stream source.id w in looked_up source answer (raised (s, w'))
