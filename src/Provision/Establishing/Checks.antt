-- ===== src/Provision/Establishing/Checks.antt =====
-- What the checks of a registered stream have seen when none of them fails, and what it takes for a
-- capture to be up (internal/provision/inspect.go and contract.go).
use postie.Prelude.{
  true, false, ◌≡◌, ◌≢◌, refl, ◌∙◌, Option, none, some, List, [], ◌∷◌, arith, Bool-cases, inl, inr,
  ap, All, eqb_ℤ_iff,
}
use postie.Stream.{Names, Registration, Source, Identity}
use postie.Provision.{
  Failure, Result, ok, err, ConnectorState, running, Status, SlotStatus, WalStatus, unreserved,
  lost, connector_missing, TopicFacts, Service,
}
use postie.Provision.Equality.{bytes_eq→eq}
use postie.Provision.Contract.{
  history_lost, is_lost, is_running, has_tasks, tasks_running, capture_ready,
}
use postie.Provision.Inspection.{validate_replication}
use postie.Provision.Inspection.Findings.{replicated}
use postie.Provision.Establishing.{
  connector_failure, slot_failure, details_failure, topic_failed, validate_topic, validate_slot,
  validate_connector, or_else, validate_registered_stream,
}

-- The slot is there, and the database still keeps the log that it needs.
pub record HoldsHistory (slot : SlotStatus) : Type 0 where
  pub there : slot.exists ≡ true
  pub not_lost : slot.wal_status ≢ lost
  pub reserved : slot.wal_status ≢ unreserved

is_lost-ne : (x : WalStatus) → is_lost x ≡ false → (x ≢ lost) × (x ≢ unreserved)
unfolding is_lost
is_lost-ne lost h = cc
is_lost-ne unreserved h = cc
is_lost-ne _ h = (λ q. cc, λ q. cc)

kept : (slot : SlotStatus) → slot.exists ≡ true → history_lost slot ≡ false → HoldsHistory slot
unfolding history_lost
kept slot e h =
    let (not_lost, reserved) = is_lost-ne slot.wal_status h in
    record { there = e; not_lost = not_lost; reserved = reserved }

-- The connector runs, and so do all of its tasks, one at least.
pub record RunsWhole (status : Status) : Type 0 where
  pub connector : status.connector ≡ running
  pub has_a_task : status.tasks ≢ []
  pub tasks : All (λ t. t ≡ running) status.tasks
  pub not_failed : status.failed ≡ false

is_running-eq : (c : ConnectorState) → is_running c ≡ true → c ≡ running
unfolding is_running
is_running-eq running h = refl
is_running-eq _ h = cc

tasks_running-All : (ts : List ConnectorState) → tasks_running ts ≡ true → All (λ t. t ≡ running) ts
unfolding tasks_running
tasks_running-All [] h = tt
tasks_running-All (t ∷ ts) h = (is_running-eq t (ground arith), tasks_running-All ts (ground arith))

has_tasks-ne : (ts : List ConnectorState) → has_tasks ts ≡ true → ts ≢ []
unfolding has_tasks
has_tasks-ne [] h = cc
has_tasks-ne (t ∷ ts) h = λ q. cc

pub capture_ready-up :
    (status : Status) (slot : SlotStatus)
    → capture_ready status slot ≡ true
    → RunsWhole status × HoldsHistory slot
unfolding capture_ready
capture_ready-up status slot h = (
  record {
    connector = is_running-eq status.connector (ground arith);
    has_a_task = has_tasks-ne status.tasks (ground arith);
    tasks = tasks_running-All status.tasks (ground arith);
    not_failed = ground arith;
  },
  kept slot (ground arith) (ground arith),
)

-- The topic is the registered one, with the replicas that are configured.
pub record IsRegistered {W : Type 0} (s : Service W) (identity : Identity)
    (registered : Registration) (details : TopicFacts) : Type 0 where
  pub there : details.exists ≡ true
  pub replicated : All (λ p. p.1 ≡ s.replication) details.replicas
  pub same_id : details.id ≡ registered.topic_id
  pub same_partitions : details.partitions ≡ identity.partitions

module _ {W : Type 0} (s : Service W) (source : Source) (identity : Identity) (names : Names)
    (registered : Registration) where
  -- What the topic, the slot and the connector answered, one behind the other.
  pub record IsVerified (w w' : W) : Type 0 where
    pub topic_at : W
    pub slot_at : W
    pub details : TopicFacts
    pub slot : SlotStatus
    pub status : Status
    pub topic_answered : s.topic names.topic w ≡ (topic_at, ok details)
    pub slot_answered : s.slot_health source.id names.slot topic_at ≡ (slot_at, ok slot)
    pub connector_answered : s.connector_status names.connector slot_at ≡ (w', ok status)
    pub topic_registered : IsRegistered s identity registered details
    pub history_held : HoldsHistory slot
    pub not_failed : status.failed ≡ false

  or_else-none :
      (next : W → W × Option Failure) (x : W × Option Failure) (w' : W)
      → or_else s next x ≡ (w', none)
      → (x ≡ (x.0, none)) × (next x.0 ≡ (w', none))
  unfolding or_else
  or_else-none next (w, none) w' h = (refl, h)
  or_else-none next (w, some e) w' h = cc

  details_failure-none :
      (d : TopicFacts) (x : Option Failure)
      → d.exists ≡ true
      → validate_replication names.topic s.replication d.replicas ≡ x
      → details_failure s source identity registered d x ≡ none
      → IsRegistered s identity registered d
  unfolding details_failure
  details_failure-none d (some e) there v h = cc
  details_failure-none d none there v h = record {
    there = there;
    replicated = replicated s source registered names.topic s.replication d.replicas v;
    same_id = bytes_eq→eq d.id registered.topic_id (ground arith);
    same_partitions = ground (arith, eqb_ℤ_iff d.partitions identity.partitions);
  }

  topic_failed-none :
      (x : Result TopicFacts)
      → topic_failed s source identity names registered x ≡ none
      → (d : TopicFacts) × (x ≡ ok d) × IsRegistered s identity registered d
  unfolding topic_failed
  topic_failed-none (err e) h = cc
  topic_failed-none (ok d) h = elim (Bool-cases d.exists) [
    | inl there ↦ (d, refl, details_failure-none d _ there refl (ground arith))
    | inr missing ↦ absurd (ground arith)
  ]

  slot_failure-none :
      (x : Result SlotStatus)
      → slot_failure source x ≡ none
      → (slot : SlotStatus) × (x ≡ ok slot) × HoldsHistory slot
  unfolding slot_failure
  slot_failure-none (err e) h = cc
  slot_failure-none (ok slot) h = (slot, refl, kept slot (ground arith) (ground arith))

  connector_failure-none :
      (x : Result Status)
      → connector_failure source x ≡ none
      → (status : Status) × (x ≡ ok status) × (status.failed ≡ false)
  unfolding connector_failure
  connector_failure-none (err connector_missing) h = cc
  connector_failure-none (err _) h = cc
  connector_failure-none (ok status) h = (status, refl, ground arith)

  pub validate-IsVerified :
      (w w' : W)
      → validate_registered_stream s source identity names registered w ≡ (w', none)
      → IsVerified w w'
  unfolding validate_registered_stream validate_topic validate_slot validate_connector
  validate-IsVerified w w' h =
      let first = validate_topic s source identity names registered w in
      let second =
        λ (v : W). or_else s (validate_connector s source names) (validate_slot s source names v) in
      let checked : or_else s second first ≡ (w', none) = ground arith in
      let (topic_free, rest) = or_else-none second first w' checked in
      let x = s.topic names.topic w in
      let (details, e1, registered') = topic_failed-none x.1 (ap (λ p. p.1) topic_free) in
      let y = s.slot_health source.id names.slot x.0 in
      let (slot_free, rest') =
        or_else-none (validate_connector s source names) (validate_slot s source names x.0) w'
          rest in
      let (slot, e2, history) = slot_failure-none y.1 (ap (λ p. p.1) slot_free) in
      let z = s.connector_status names.connector y.0 in
      let (status, e3, fine) = connector_failure-none z.1 (ap (λ p. p.1) rest') in
      record {
        topic_at = x.0;
        slot_at = y.0;
        details = details;
        slot = slot;
        status = status;
        topic_answered = ap (λ r. (x.0, r)) e1;
        slot_answered = ap (λ r. (y.0, r)) e2;
        connector_answered = ap (λ r. (z.0, r)) e3 ∙ ap (λ v. (v, ok status)) (ap (λ p. p.0) rest');
        topic_registered = registered';
        history_held = history;
        not_failed = fine;
      }
