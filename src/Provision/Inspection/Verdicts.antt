-- ===== src/Provision/Inspection/Verdicts.antt =====
-- What stands behind a verdict of `InspectSource` (internal/provision/inspect.go).
use postie.Prelude.{String, ◌≡◌, ◌≢◌, refl, ◌⊎◌, inl, inr, ne_of_false, sym, ◌∙◌}
use postie.Stream.{Registration, Source}
use postie.Provision.{Service}
use postie.Provision.Equality.{}
use postie.Provision.Contract.{}
use postie.Provision.Inspection.{
  Finding, nothing, blocked, unavailable, inspect_names, or_next, inspect_source, inspect_identity,
  inspect_topic, inspect_slot, inspect_connector, from_connector, from_slot, from_topic, from_names,
}
use postie.Provision.Inspection.Evidence.{
  names_of, IsBroken, IsSameTable, IsSameTopic, IsSlotKept, IsCapturing, IsHealthy,
}
use postie.Provision.Inspection.Findings.{
  Backed, facts-Backed, names-Backed, topic-Backed, slot-Backed, connector-Backed,
}

module _ {W : Type 0} (s : Service W) (source : Source) (registered : Registration) where
  -- What a verdict says: of a running stream, that every check held; of a blocked one, a reason, and an
  -- answer that it cannot have.
  abbrev pub Judged : String × String → Type 0
  Judged (state, reason) =
      (state ≡ "running") × (reason ≡ "") × (IsHealthy s source registered)
      ⊎ (state ≡ "blocked") × (reason ≢ "") × (IsBroken s source registered)
      ⊎ (state ≡ "unavailable")

  next-Judged :
      (P : Type 0) (next : W → W × (String × String)) (x : W × Finding)
      → (Backed s source registered) P x.1
      → (P → (w : W) → Judged (next w).1)
      → Judged (or_next s next x).1
  unfolding or_next
  next-Judged P next (w, nothing) h k = k h w
  next-Judged P next (w, blocked reason) h k = inr (inl (refl, h.0, h.1))
  next-Judged P next (w, unavailable reason) h k = inr (inr refl)

  connector-Judged :
      ((IsCapturing s source registered) → (IsHealthy s source registered))
      → (w : W) → Judged (from_connector s (names_of s source registered) w).1
  unfolding from_connector
  connector-Judged all w =
      next-Judged (IsCapturing s source registered) (λ w'. (w', ("running", "")))
        (inspect_connector s (names_of s source registered) w)
        ((connector-Backed s source registered) w
          (s.connector_status (names_of s source registered).connector w).1 refl)
        (λ c w'. inl (refl, refl, all c))

  slot-Judged :
      ((IsSlotKept s source registered)
        → (IsCapturing s source registered)
        → (IsHealthy s source registered))
      → (w : W) → Judged (from_slot s source (names_of s source registered) w).1
  unfolding from_slot
  slot-Judged all w =
      next-Judged (IsSlotKept s source registered) (from_connector s (names_of s source registered))
        (inspect_slot s source (names_of s source registered) w)
        ((slot-Backed s source registered) w
          (s.slot_health source.id (names_of s source registered).slot w).1 refl)
        (λ kept. connector-Judged (all kept))

  topic-Judged :
      ((IsSameTopic s source registered)
        → (IsSlotKept s source registered)
        → (IsCapturing s source registered)
        → (IsHealthy s source registered))
      → (w : W) → Judged (from_topic s source registered (names_of s source registered) w).1
  unfolding from_topic
  topic-Judged all w =
      next-Judged (IsSameTopic s source registered)
        (from_slot s source (names_of s source registered))
        (inspect_topic s (names_of s source registered) registered w)
        ((topic-Backed s source registered) w (s.topic (names_of s source registered).topic w).1
          refl)
        (λ same. slot-Judged (all same))

  names-Judged :
      (registered.names ≡ (names_of s source registered)
        → (IsSameTopic s source registered)
        → (IsSlotKept s source registered)
        → (IsCapturing s source registered)
        → (IsHealthy s source registered))
      → (w : W) → Judged (from_names s source registered (names_of s source registered) w).1
  unfolding from_names
  names-Judged all w =
      next-Judged (registered.names ≡ (names_of s source registered))
        (from_topic s source registered (names_of s source registered))
        (w, inspect_names registered (names_of s source registered))
        (names-Backed s source registered) (λ same. topic-Judged (all same))

  -- `InspectSource` answers "running" with no reason only if the table still gives the registered
  -- identity, the names are the registered ones, the topic is there, with the registered identifier and
  -- partitions and with full replication, the slot is there with its history, and the connector and at
  -- least one task and all of them run. It answers "blocked" only with a reason, and only on an answer
  -- that contradicts the registration, never because something could not be asked. Any other answer
  -- is "unavailable".
  pub inspect_source-Judged : (w : W) → Judged (inspect_source s source registered w).1
  unfolding inspect_source
  inspect_source-Judged w =
      next-Judged (IsSameTable s source registered)
        (from_names s source registered (names_of s source registered))
        (inspect_identity s source registered w)
        ((facts-Backed s source registered) w (s.inspect_table source.id w).1 refl)
        (λ table. names-Judged (λ names topic slot connector. record {
          table = table;
          names = names;
          topic = topic;
          slot = slot;
          connector = connector;
        }))

-- A block of the monitor has a reason.
pub inspect_source_explained :
    {W : Type 0} (s : Service W) (source : Source) (registered : Registration) (w : W)
    → (inspect_source s source registered w).1.0 ≡ "blocked"
    → (inspect_source s source registered w).1.1 ≢ ""
inspect_source_explained s source registered w h =
    reason (inspect_source s source registered w).1 (inspect_source-Judged s source registered w) h
  where
    reason : (x : String × String) → Judged s source registered x → x.0 ≡ "blocked" → x.1 ≢ ""
    reason x (inl (e, r, healthy)) k = absurd (ne_of_false "running" "blocked" refl (sym e ∙ k))
    reason x (inr (inl (e, given, broken))) k = given
    reason x (inr (inr e)) k = absurd (ne_of_false "unavailable" "blocked" refl (sym e ∙ k))
