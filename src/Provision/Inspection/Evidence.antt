-- ===== src/Provision/Inspection/Evidence.antt =====
-- The answers of the outside that stand behind a verdict of internal/provision/inspect.go.
use postie.Prelude.{true, false, ◌≡◌, ◌≢◌, ◌⊎◌, All}
use postie.Stream.{Names, Registration, Source}
use postie.Provision.{
  TableFacts, Failure, connector_missing, ok, err, Status, SlotStatus, TopicFacts, Service,
}
use postie.Provision.Equality.{}
use postie.Provision.Contract.{
  is_contract, history_lost, is_running, tasks_running, has_tasks, identity_from,
}
use postie.Provision.Inspection.{capture_names}

module _ {W : Type 0} (s : Service W) (source : Source) (registered : Registration) where
  abbrev pub names_of : Names
  names_of = (capture_names s source).0

  -- An answer of the outside that the registered stream cannot have.
  pub data IsBroken : Type 0 where
    table_refused :
        (w : W) (e : Failure)
        → (s.inspect_table source.id w).1 ≡ err e
        → is_contract e ≡ true
        → IsBroken
    table_changed :
        (w : W) (facts : TableFacts)
        → (s.inspect_table source.id w).1 ≡ ok facts
        → identity_from source facts s.partitions ≢ ok registered.identity
        → IsBroken
    names_changed : registered.names ≢ names_of → IsBroken
    topic_gone :
        (w : W) (d : TopicFacts) → (s.topic names_of.topic w).1 ≡ ok d → d.exists ≡ false → IsBroken
    topic_changed :
        (w : W) (d : TopicFacts)
        → (s.topic names_of.topic w).1 ≡ ok d
        → (d.id ≢ registered.topic_id) ⊎ (d.partitions ≢ registered.identity.partitions)
        → IsBroken
    slot_gone :
        (w : W) (slot : SlotStatus)
        → (s.slot_health source.id names_of.slot w).1 ≡ ok slot
        → (slot.exists ≡ false) ⊎ (history_lost slot ≡ true)
        → IsBroken
    connector_gone :
        (w : W) → (s.connector_status names_of.connector w).1 ≡ err connector_missing → IsBroken

  -- What each check that finds nothing has seen.
  pub record IsSameTable : Type 0 where
    pub before : W
    pub facts : TableFacts
    pub answered : (s.inspect_table source.id before).1 ≡ ok facts
    pub same : identity_from source facts s.partitions ≡ ok registered.identity

  pub record IsSameTopic : Type 0 where
    pub before : W
    pub details : TopicFacts
    pub answered : (s.topic names_of.topic before).1 ≡ ok details
    pub exists : details.exists ≡ true
    pub replicated : All (λ p. p.1 ≡ s.replication) details.replicas
    pub same_id : details.id ≡ registered.topic_id
    pub same_partitions : details.partitions ≡ registered.identity.partitions

  pub record IsSlotKept : Type 0 where
    pub before : W
    pub slot : SlotStatus
    pub answered : (s.slot_health source.id names_of.slot before).1 ≡ ok slot
    pub exists : slot.exists ≡ true
    pub kept : history_lost slot ≡ false

  pub record IsCapturing : Type 0 where
    pub before : W
    pub status : Status
    pub answered : (s.connector_status names_of.connector before).1 ≡ ok status
    pub connector : is_running status.connector ≡ true
    pub tasks : has_tasks status.tasks ≡ true
    pub all_running : tasks_running status.tasks ≡ true
    pub not_failed : status.failed ≡ false

  pub record IsHealthy : Type 0 where
    pub table : IsSameTable
    pub names : registered.names ≡ names_of
    pub topic : IsSameTopic
    pub slot : IsSlotKept
    pub connector : IsCapturing
