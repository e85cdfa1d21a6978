-- ===== src/Control/Sources/Latch.antt =====
-- The block latch of internal/control/reconcile.go over the operations on sources.
use postie.Prelude.{
  String, ◌≡◌, ◌≢◌, refl, inl, inr, ◌⊎◌, List, [], ◌∷◌, ◌==◌, if◌then◌else◌, Dict, lookup_or,
  insert, lookup_or-insert, arith, eq_iff, Bool-cases, All,
}
use postie.Stream.{Registration, no_registration, Source}
use postie.Control.{Service, SourceStatus, no_source_status, source_blocked}
use postie.Control.Outside.{Outside, StreamLookup, failed, absent, found, State}
use postie.Control.Sources.{
  stream_of, settled_status, latch, cached, cache_stream, source_state, store_block, block,
  block_all, raised, judged, monitored, inspect_cached, looked_up, inspect_source,
}

abbrev Fenced : String → Dict Registration → Dict SourceStatus → Type 0
Fenced id streams states =
    ((lookup_or id streams no_registration).blocked ≢ "")
    × ((lookup_or id states no_source_status).state ≡ source_blocked)

-- The source is latched in memory, and its state says so.
abbrev pub IsFenced : String → Service → Type 0
IsFenced id s = Fenced id s.streams s.source_states

module _ {W : Type 0} (o : Outside W) where
  streams-source_state :
      (id state reason : String) (st : State W)
      → (source_state o id state reason st).0.streams ≡ st.0.streams
  unfolding source_state
  streams-source_state id state reason st = ground arith

  states-source_state :
      (id state reason : String) (st : State W)
      → (source_state o id state reason st).0.source_states
        ≡ insert id (settled_status id state reason st.0) st.0.source_states
  unfolding source_state
  states-source_state id state reason st = ground arith

  settled-Fenced :
      (id j state reason : String) (s : Service)
      → IsFenced j s
      → Fenced j s.streams (insert id (settled_status id state reason s) s.source_states)
  unfolding settled_status
  settled-Fenced id j state reason s f = (
    f.0,
    ground (
      arith,
      lookup_or-insert id j (settled_status id state reason s) no_source_status s.source_states,
      eq_iff id j,
      eq_iff (lookup_or j s.streams no_registration).blocked "",
    ),
  )

  source_state-IsFenced :
      (id j state reason : String) (st : State W)
      → IsFenced j st.0
      → IsFenced j (source_state o id state reason st).0
  source_state-IsFenced id j state reason st f =
      rw (streams-source_state id state reason st, states-source_state id state reason st)
        (settled-Fenced id j state reason st.0 f)

  blocked-latch :
      (source j reason : String) (s : Service)
      → (stream_of j (latch source reason s)).blocked
        ≡ (if source == j then reason else (stream_of j s).blocked)
  unfolding latch
  blocked-latch source j reason s = ground (
    arith,
    lookup_or-insert source j (record (stream_of source s) { blocked = reason }) no_registration
        s.streams,
  )

  settled_blocked :
      (id reason : String) (s : Service)
      → (settled_status id source_blocked reason s).state ≡ source_blocked
  unfolding settled_status
  settled_blocked id reason s = ground arith

  states-latch :
      (source reason : String) (s : Service)
      → (latch source reason s).source_states ≡ s.source_states
  unfolding latch
  states-latch source reason s = refl

  -- A latch fences its source as soon as the state is set, and keeps the other fences.
  latched-Fenced :
      (source j reason : String) (s : Service)
      → reason ≢ ""
      → IsFenced j s ⊎ (source ≡ j)
      → let s' = latch source reason s in
        Fenced j s'.streams
          (insert source (settled_status source source_blocked reason s') s'.source_states)
  latched-Fenced source j reason s h f =
      let s' = latch source reason s in
      let new = settled_status source source_blocked reason s' in
      (
        ground (arith, blocked-latch source j reason s, eq_iff source j),
        ground (
          arith,
          lookup_or-insert source j new no_source_status s'.source_states,
          settled_blocked source reason s',
          states-latch source reason s,
          eq_iff source j,
        ),
      )

  pub block-IsFenced :
      (source j reason : String) (st : State W)
      → reason ≢ ""
      → IsFenced j st.0 ⊎ (source ≡ j)
      → IsFenced j (block o source reason st).0
  unfolding block
  block-IsFenced source j reason (s, w) h f =
      let st : State W = (latch source reason s, w) in
      rw
        (
          streams-source_state source source_blocked reason st,
          states-source_state source source_blocked reason st,
        )
        (latched-Fenced source j reason s h f)

  -- Every block that a worker raises has a reason.
  abbrev pub HasReasons : List (String × String) → Type 0
  HasReasons blocks = All (λ b. b.1 ≢ "") blocks

  block_all-IsFenced :
      (blocks : List (String × String)) (j : String) (st : State W)
      → HasReasons blocks
      → IsFenced j st.0
      → IsFenced j (block_all o blocks st).0
  unfolding block_all
  block_all-IsFenced [] j st h f = f
  block_all-IsFenced ((source, reason) ∷ more) j st h f =
      block_all-IsFenced more j (block o source reason st) h.1
        (block-IsFenced source j reason st h.0 (inl f))

  module _ (reasons : (w : W) → HasReasons (o.meanwhile w))
      (explains : (source : Source) (registered : Registration) (w : W)
        → (o.inspect source registered w).1.0 ≡ source_blocked
        → (o.inspect source registered w).1.1 ≢ "") where
    raised-IsFenced : (j : String) (st : State W) → IsFenced j st.0 → IsFenced j (raised o st).0
    unfolding raised
    raised-IsFenced j st f = block_all-IsFenced (o.meanwhile st.1) j st (reasons st.1) f

    judged-IsFenced :
        (id j : String) (answer : String × String) (st : State W)
        → (answer.0 ≡ source_blocked → answer.1 ≢ "")
        → IsFenced j st.0
        → IsFenced j (judged o id answer st).0
    unfolding judged
    judged-IsFenced id j (state, reason) st h f = elim (Bool-cases (state == source_blocked)) [
      | inl e ↦ rw e (block-IsFenced id j reason st (h ((eq_iff state source_blocked).0 e)) (inl f))
      | inr e ↦ rw e (source_state-IsFenced id j state reason st f)
    ]

    monitored-IsFenced :
        (source : Source) (registered : Registration) (j : String) (st : State W)
        → IsFenced j st.0
        → IsFenced j (monitored o source registered st).0
    unfolding monitored
    monitored-IsFenced source registered j (s, w) f =
        let (w', answer) = o.inspect source registered w in
        judged-IsFenced source.id j answer (raised o (s, w')) (explains source registered w)
          (raised-IsFenced j (s, w') f)

    cached-Fenced :
        (registered : Registration) (j : String) (s : Service)
        → IsFenced j s
        → IsFenced j (cache_stream registered s)
    unfolding cache_stream cached
    cached-Fenced registered j s f = (
      ground (
        arith,
        lookup_or-insert registered.source_id j (cached registered s) no_registration s.streams,
        eq_iff registered.source_id j,
        eq_iff (stream_of registered.source_id s).blocked "",
      ),
      f.1,
    )

    inspect_cached-IsFenced :
        (source : Source) (registered : Registration) (j : String) (st : State W)
        → IsFenced j st.0
        → IsFenced j (inspect_cached o source registered st).0
    unfolding inspect_cached
    inspect_cached-IsFenced source registered j st f =
        elim (Bool-cases (registered.blocked == "")) [
          | inl e ↦ rw e (monitored-IsFenced source registered j st f)
          | inr e ↦ rw e (source_state-IsFenced source.id j source_blocked registered.blocked st f)
        ]

    looked_up-IsFenced :
        (source : Source) (answer : StreamLookup) (j : String) (st : State W)
        → IsFenced j st.0
        → IsFenced j (looked_up o source answer st).0
    unfolding looked_up
    looked_up-IsFenced source failed j st f =
        source_state-IsFenced source.id j _ "control state unavailable" st f
    looked_up-IsFenced source absent j st f =
        source_state-IsFenced source.id j _ "source must be provisioned" st f
    looked_up-IsFenced source (found registered) j (s, w) f =
        inspect_cached-IsFenced source (cached registered s) j (cache_stream registered s, w)
          (cached-Fenced registered j s f)

    pub inspect_source-IsFenced :
        (source : Source) (j : String) (st : State W)
        → IsFenced j st.0
        → IsFenced j (inspect_source o source st).0
    unfolding inspect_source store_block
    inspect_source-IsFenced source j (s, w) f =
        let (w', answer) = o.get_stream source.id w in
        elim (Bool-cases ((stream_of source.id s).blocked == "")) [
          | inl e ↦
              rw e (
                looked_up-IsFenced source answer j (raised o (s, w')) (raised-IsFenced j (s, w') f))
          | inr e ↦ rw e f
        ]
