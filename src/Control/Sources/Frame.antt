-- ===== src/Control/Sources/Frame.antt =====
-- The subscriptions under an inspection of sources (internal/control/reconcile.go).
use postie.Prelude.{String, ◌≡◌, ◌∙◌, refl, inl, inr, List, [], ◌∷◌, ◌==◌, arith, Bool-cases, Dict}
use postie.Stream.{Registration, Source}
use postie.Control.{Subscription, source_blocked}
use postie.Control.Outside.{Outside, StreamLookup, failed, absent, found, State}
use postie.Control.Sources.{
  stream_of, latch, cached, cache_stream, source_state, store_block, block, block_all, raised,
  judged, monitored, inspect_cached, looked_up, inspect_source,
}

abbrev pub subs : {W : Type 0} → State W → Dict Subscription
subs st = st.0.subscriptions

module _ {W : Type 0} (o : Outside W) where
  subs-source_state :
      (id state reason : String) (st : State W) → subs (source_state o id state reason st) ≡ subs st
  unfolding source_state
  subs-source_state id state reason st = ground arith

  subs-block : (source reason : String) (st : State W) → subs (block o source reason st) ≡ subs st
  unfolding block latch
  subs-block source reason (s, w) =
      subs-source_state source source_blocked reason (latch source reason s, w)

  subs-block_all :
      (blocks : List (String × String)) (st : State W) → subs (block_all o blocks st) ≡ subs st
  unfolding block_all
  subs-block_all [] st = refl
  subs-block_all ((source, reason) ∷ more) st =
      subs-block_all more (block o source reason st) ∙ subs-block source reason st

  subs-raised : (st : State W) → subs (raised o st) ≡ subs st
  unfolding raised
  subs-raised st = subs-block_all (o.meanwhile st.1) st

  subs-judged :
      (id : String) (answer : String × String) (st : State W)
      → subs (judged o id answer st) ≡ subs st
  unfolding judged
  subs-judged id (state, reason) st =
      ground (arith, subs-block id reason st, subs-source_state id state reason st)

  subs-monitored :
      (source : Source) (registered : Registration) (st : State W)
      → subs (monitored o source registered st) ≡ subs st
  unfolding monitored
  subs-monitored source registered (s, w) =
      let (w', answer) = o.inspect source registered w in
      subs-judged source.id answer (raised o (s, w')) ∙ subs-raised (s, w')

  subs-inspect_cached :
      (source : Source) (registered : Registration) (st : State W)
      → subs (inspect_cached o source registered st) ≡ subs st
  unfolding inspect_cached
  subs-inspect_cached source registered st = ground (
    arith,
    subs-monitored source registered st,
    subs-source_state source.id source_blocked registered.blocked st,
  )

  subs-looked_up :
      (source : Source) (answer : StreamLookup) (st : State W)
      → subs (looked_up o source answer st) ≡ subs st
  unfolding looked_up cache_stream
  subs-looked_up source failed st = subs-source_state source.id _ _ st
  subs-looked_up source absent st = subs-source_state source.id _ _ st
  subs-looked_up source (found registered) (s, w) =
      subs-inspect_cached source (cached registered s) (cache_stream registered s, w)

  pub subs-inspect_source :
      (source : Source) (st : State W) → subs (inspect_source o source st) ≡ subs st
  unfolding inspect_source store_block
  subs-inspect_source source (s, w) =
      let (w', answer) = o.get_stream source.id w in
      elim (Bool-cases ((stream_of source.id s).blocked == "")) [
        | inl e ↦ rw e (subs-looked_up source answer (raised o (s, w')) ∙ subs-raised (s, w'))
        | inr e ↦ rw e
      ]
