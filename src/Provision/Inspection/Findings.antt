-- ===== src/Provision/Inspection/Findings.antt =====
-- What stands behind a finding of internal/provision/inspect.go: the answers of the outside.
use postie.Prelude.{
  if◌then◌else◌, String, Bool, true, false, not, ◌||◌, ◌≡◌, ◌≢◌, refl, inl, inr, Option, none, some,
  List, [], ◌∷◌, ℤ, arith, Bool-cases, eqb_ℤ, eqb_ℤ_iff, ne_of_false, bytes_eq, bytes_eq_refl, All,
  ap, ◌∙◌,
}
use postie.Stream.{Identity, Registration, Source}
use postie.Provision.{
  TableFacts, Failure, connector_missing, Result, ok, err, Status, SlotStatus, TopicFacts, Service,
}
use postie.Provision.Equality.{
  identity_eq, names_eq, identity_eq→eq, identity_eq_refl, names_eq→eq, names_eq_refl, bytes_eq→eq,
}
use postie.Provision.Contract.{
  is_contract, history_lost, is_running, tasks_running, has_tasks, identity_from,
}
use postie.Provision.Inspection.{
  Finding, nothing, blocked, unavailable, table_failure, inspect_names, validate_replication,
  slot_finding, connector_finding, identity_finding, facts_finding, replicated_finding,
  topic_finding,
}
use postie.Provision.Inspection.Evidence.{
  names_of, IsBroken, IsSameTable, IsSameTopic, IsSlotKept, IsCapturing, table_refused,
  table_changed, names_changed, topic_gone, topic_changed, slot_gone, connector_gone,
}

module _ {W : Type 0} (s : Service W) (source : Source) (registered : Registration) where
  -- A finding with its evidence.
  abbrev pub Backed : Type 0 → Finding → Type 0
  Backed P nothing = P
  Backed P (blocked reason) = (reason ≢ "") × (IsBroken s source registered)
  Backed P (unavailable reason) = Unit

  if-Backed :
      (P : Type 0) (c : Bool) (f g : Finding)
      → (c ≡ true → Backed P f)
      → (c ≡ false → Backed P g)
      → Backed P (if c then f else g)
  if-Backed P true f g h k = h refl
  if-Backed P false f g h k = k refl

  failure-Backed :
      (P : Type 0) (w : W) (e : Failure)
      → (s.inspect_table source.id w).1 ≡ err e
      → Backed P (table_failure e)
  unfolding table_failure
  failure-Backed P w e h = elim (Bool-cases (is_contract e)) [
    | inl yes' ↦
        rw yes'
          (ne_of_false "source table violates capture contract" "" refl, table_refused w e h yes')
    | inr no' ↦ rw no' tt
  ]

  pub facts-Backed :
      (w : W) (x : Result TableFacts)
      → (s.inspect_table source.id w).1 ≡ x
      → Backed (IsSameTable s source registered) (facts_finding s source registered x)
  unfolding facts_finding
  facts-Backed w (err e) h = failure-Backed (IsSameTable s source registered) w e h
  facts-Backed w (ok facts) h = judged (identity_from source facts s.partitions) refl
    where
      judged :
          (r : Result Identity)
          → identity_from source facts s.partitions ≡ r
          → Backed (IsSameTable s source registered) (identity_finding s registered r)
      judged (err e) k = elim (Bool-cases (is_contract e)) [
        | inl yes' ↦ rw yes' (
          ne_of_false "source table violates capture contract" "" refl,
          table_changed w facts h (λ q. ground (arith, k, q)),
        )
        | inr no' ↦ rw no' tt
      ]
      judged (ok identity) k = elim (Bool-cases (identity_eq identity registered.identity)) [
        | inl same ↦ rw same (record {
          before = w;
          facts = facts;
          answered = h;
          same = k ∙ ap ok (identity_eq→eq identity registered.identity same);
        })
        | inr differ ↦ rw differ (
          ne_of_false "stream identity changed" "" refl,
          table_changed w facts h (λ q. ground (arith, k, q, identity_eq_refl identity)),
        )
      ]

  pub names-Backed :
      Backed
        (registered.names ≡ (names_of s source registered))
        (inspect_names registered (names_of s source registered))
  unfolding inspect_names
  names-Backed = elim (Bool-cases (names_eq registered.names (names_of s source registered))) [
    | inl same ↦ rw same (names_eq→eq registered.names (names_of s source registered) same)
    | inr differ ↦ rw differ (
      ne_of_false "stream configuration changed" "" refl,
      names_changed (λ q. ground (arith, q, names_eq_refl (names_of s source registered))),
    )
  ]

  pub replicated :
      (topic : String) (want : ℤ) (counts : List (ℤ × ℤ))
      → validate_replication topic want counts ≡ none
      → All (λ p. p.1 ≡ want) counts
  unfolding validate_replication
  replicated topic want [] h = tt
  replicated topic want ((partition, count) ∷ more) h = elim (Bool-cases (eqb_ℤ count want)) [
    | inl same ↦ ((eqb_ℤ_iff count want).0 same, replicated topic want more (rw same at h))
    | inr differ ↦ absurd (ground arith)
  ]

  replicated-Backed :
      (w : W) (d : TopicFacts) (x : Option Failure)
      → (s.topic (names_of s source registered).topic w).1 ≡ ok d
      → d.exists ≡ true
      → validate_replication (names_of s source registered).topic s.replication d.replicas ≡ x
      → Backed (IsSameTopic s source registered) (replicated_finding s registered d x)
  unfolding replicated_finding
  replicated-Backed w d (some e) h there v = tt
  replicated-Backed w d none h there v = elim (Bool-cases (bytes_eq d.id registered.topic_id)) [
    | inl same ↦ elim (Bool-cases (eqb_ℤ d.partitions registered.identity.partitions)) [
      | inl count ↦
          rw (same, count)
            (record {
              before = w;
              details = d;
              answered = h;
              exists = there;
              replicated =
                  replicated (names_of s source registered).topic s.replication d.replicas v;
              same_id = bytes_eq→eq d.id registered.topic_id same;
              same_partitions = (eqb_ℤ_iff d.partitions registered.identity.partitions).0 count;
            })
      | inr other' ↦
          rw (same, other')
            (
              ne_of_false "topic identity changed" "" refl,
              topic_changed w d h (
                  inr (λ q. ground (arith, eqb_ℤ_iff d.partitions registered.identity.partitions))),
            )
    ]
    | inr differ ↦ rw differ (
      ne_of_false "topic identity changed" "" refl,
      topic_changed w d h (inl (λ q. ground (arith, q, bytes_eq_refl d.id))),
    )
  ]

  pub topic-Backed :
      (w : W) (x : Result TopicFacts)
      → (s.topic (names_of s source registered).topic w).1 ≡ x
      → Backed
          (IsSameTopic s source registered)
          (topic_finding s (names_of s source registered) registered x)
  unfolding topic_finding
  topic-Backed w (err e) h = tt
  topic-Backed w (ok d) h =
      if-Backed (IsSameTopic s source registered) (not d.exists) _ _
        (λ missing.
          (ne_of_false "established topic missing" "" refl, topic_gone w d h (ground arith)))
        (λ there. replicated-Backed w d _ h (ground arith) refl)

  pub slot-Backed :
      (w : W) (x : Result SlotStatus)
      → (s.slot_health source.id (names_of s source registered).slot w).1 ≡ x
      → Backed (IsSlotKept s source registered) (slot_finding x)
  unfolding slot_finding
  slot-Backed w (err e) h = tt
  slot-Backed w (ok slot) h =
      if-Backed (IsSlotKept s source registered) (not slot.exists || history_lost slot) _ _
        (λ gone. (
          ne_of_false "replication slot or WAL history lost" "" refl,
          slot_gone w slot h (ground arith),
        ))
        (λ there. record {
          before = w;
          slot = slot;
          answered = h;
          exists = ground arith;
          kept = ground arith;
        })

  pub connector-Backed :
      (w : W) (x : Result Status)
      → (s.connector_status (names_of s source registered).connector w).1 ≡ x
      → Backed (IsCapturing s source registered) (connector_finding x)
  unfolding connector_finding
  connector-Backed w (err connector_missing) h =
      (ne_of_false "established connector missing" "" refl, connector_gone w h)
  connector-Backed w (err _) h = tt
  connector-Backed w (ok status) h =
      if-Backed (IsCapturing s source registered)
        (status.failed || not (is_running status.connector) || not (has_tasks status.tasks)) _ _
        (λ down. tt)
        (λ up.
          if-Backed (IsCapturing s source registered) (not (tasks_running status.tasks)) _ _
            (λ idle. tt)
            (λ busy. record {
              before = w;
              status = status;
              answered = h;
              connector = ground arith;
              tasks = ground arith;
              all_running = ground arith;
              not_failed = ground arith;
            }))
