-- ===== src/Kafka/Topics.antt =====
-- internal/adapters/kafka/admin.go: the topics of streams. The client is a parameter; partitions stand in
-- the order in which it sorts them.
pub mod Established
pub mod Termination
use Prim.Native.String
use postie.Prelude.{
  ℕ, zero, suc, String, Bool, true, false, not, ◌||◌, Option, none, some, is_some, List, [], ◌∷◌,
  ◌++◌, map, length, ◌==◌, if◌then◌else◌, ℤ, pos, leb_ℤ, eqb_ℤ, Dict, lookup_or,
}
use postie.Stream.{Names}
use postie.Provision.{Failure, topic_metadata, replicas, failed, Result, ok, err, TopicFacts}

-- `kadm.PartitionDetail`, with the number of its replicas.
pub record PartitionDetail : Type 0 where
  pub partition : ℤ
  pub error : Option String
  pub replicas : ℤ

pub data TopicError : Type 0 where
  unknown_topic_or_partition : TopicError
  other : String → TopicError

-- `kadm.TopicDetail`
pub record TopicDetail : Type 0 where
  pub id : List ℕ
  pub error : Option TopicError
  pub partitions : List PartitionDetail

-- The answer of `CreateTopic`.
pub data Creation : Type 0 where
  created : List ℕ → Creation
  already_exists : Creation
  refused : String → Creation

-- `pause` is the `select` on a timer and the context: whether the timer's arm was taken.
pub record Admin (W : Type 0) : Type 0 where
  pub list_topics : String → W → W × Result (String → Option TopicDetail)
  pub create_topic : ℤ → ℤ → Dict String → String → W → W × Creation
  pub describe_configs : String → W → W × Result (Dict String)
  pub pause : W → W × Bool

-- `topicConfigs`
unfoldable pub topic_configs : ℤ → Dict String
topic_configs replication =
    (("cleanup.policy", "delete") ∷ ("retention.ms", "-1") ∷ ("retention.bytes", "-1") ∷ [])
    ++ (if leb_ℤ (pos 3) replication then ("min.insync.replicas", "2") ∷ [] else [])

abbrev pub Checked : Type 0
Checked = Option Failure

unfoldable pub check_errors : (String → Failure) → List PartitionDetail → Checked
check_errors wrap [] = none
check_errors wrap (p ∷ rest) =
    let others = check_errors wrap rest in
    elim p.error [ none ↦ others | some cause ↦ some (wrap cause) ]

unfoldable pub check_replicas : String → ℤ → List PartitionDetail → Checked
check_replicas topic want [] = none
check_replicas topic want (p ∷ rest) =
    if not (eqb_ℤ p.replicas want)
    then some (replicas topic p.partition p.replicas want)
    else check_replicas topic want rest

abbrev pub or_else : Checked → Checked → Checked
or_else none next = next
or_else (some e) next = some e

-- `ValidateTopicReplication`, for a topic that has no error itself.
unfoldable pub validate_replication : String → ℤ → List PartitionDetail → Checked
unfolding check_errors check_replicas
validate_replication topic want partitions =
    or_else (check_errors failed partitions) (check_replicas topic want partitions)

-- `verifyTopicConfigs`, behind its calls.
unfoldable pub verify_configs : Dict String → Dict String → Checked
verify_configs current [] = none
verify_configs current ((key, value) ∷ rest) =
    if not (lookup_or key current "" == value)
    then some (failed "capture: topic config differs")
    else verify_configs current rest

abbrev pub Answer : Type 0 → Type 0
Answer W = W × Result (Option (List ℕ))

module _ {W : Type 0} (a : Admin W) (topic : String) (partitions replication : ℤ) where
  abbrev pub found_unless : List ℕ → W → Checked → Answer W
  found_unless id w none = (w, ok (some id))
  found_unless id w (some e) = (w, err e)

  unfoldable pub configs_checked : List ℕ → W × Result (Dict String) → Answer W
  configs_checked id (w, err e) = (w, err e)
  configs_checked id (w, ok current) =
      found_unless id w (verify_configs current (topic_configs replication))

  unfoldable pub replicas_checked : TopicDetail → Checked → W → Answer W
  unfolding configs_checked
  replicas_checked detail (some e) w = (w, err e)
  replicas_checked detail none w = configs_checked detail.id (a.describe_configs topic w)

  unfoldable pub existing_detail : Option TopicDetail → W → Answer W
  unfolding replicas_checked
  existing_detail none w = (w, ok none)
  existing_detail (some detail) w =
      if is_some detail.error
      then (w, ok none)
      else if not (eqb_ℤ (pos (length detail.partitions)) partitions)
      then (w, err (failed "capture: topic already exists with other partitions"))
      else replicas_checked detail (validate_replication topic replication detail.partitions) w

  abbrev pub existing_listed : W × Result (String → Option TopicDetail) → Answer W
  existing_listed (w, err e) = (w, err e)
  existing_listed (w, ok listed) = existing_detail (listed topic) w

  -- `existingTopic`: no topic, its ID, or an error.
  unfoldable pub existing_topic : W → Answer W
  unfolding existing_detail
  existing_topic w = existing_listed (a.list_topics topic w)

  unfoldable pub after_pause :
      (W → Option (W × Result (List ℕ))) → W × Bool → Option (W × Result (List ℕ))
  after_pause again (w, true) = again w
  after_pause again (w, false) =
      some (w, err (failed "capture: topic exists but never appeared in metadata"))

  unfoldable pub after_lookup :
      (W → Option (W × Result (List ℕ))) → Answer W → Option (W × Result (List ℕ))
  unfolding after_pause
  after_lookup absent (w, err e) = some (w, err e)
  after_lookup absent (w, ok (some id)) = some (w, ok id)
  after_lookup absent (w, ok none) = absent w

  -- The topic of another caller.
  unfoldable pub await_topic : ℕ → W → Option (W × Result (List ℕ))
  unfolding existing_topic after_lookup
  await_topic zero w = none
  await_topic (suc fuel) w =
      after_lookup (λ w. after_pause (await_topic fuel) (a.pause w)) (existing_topic w)

  unfoldable pub after_creation : ℕ → W × Creation → Option (W × Result (List ℕ))
  unfolding await_topic
  after_creation fuel (w, created id) = some (w, ok id)
  after_creation fuel (w, refused e) = some (w, err (failed "capture: create topic"))
  after_creation fuel (w, already_exists) = await_topic fuel w

  -- `EnsureTopic`
  unfoldable pub ensure_topic : ℕ → W → Option (W × Result (List ℕ))
  unfolding existing_topic after_lookup after_creation
  ensure_topic fuel w =
      after_lookup
        (λ w.
          after_creation fuel
            (a.create_topic partitions replication (topic_configs replication) topic w))
        (existing_topic w)

-- `Topic`
unfoldable pub facts_checked : TopicDetail → Checked → Result TopicFacts
facts_checked detail (some e) = err e
facts_checked detail none = ok (record {
  exists = true;
  id = detail.id;
  partitions = pos (length detail.partitions);
  replicas = map (λ p. (p.partition, p.replicas)) detail.partitions;
})

abbrev pub no_facts : TopicFacts
no_facts = record { exists = false; id = []; partitions = pos 0; replicas = [] }

unfoldable pub facts_of : Option TopicDetail → Result TopicFacts
unfolding facts_checked check_errors
facts_of none = ok no_facts
facts_of (some detail) = elim detail.error [
  | some unknown_topic_or_partition ↦ ok no_facts
  | some (other cause) ↦ err (topic_metadata false cause)
  | none ↦ facts_checked detail (check_errors (topic_metadata true) detail.partitions)
]

abbrev pub facts_listed :
    {W : Type 0} → String → W × Result (String → Option TopicDetail) → W × Result TopicFacts
facts_listed name (w, err e) = (w, err e)
facts_listed name (w, ok listed) = (w, facts_of (listed name))

unfoldable pub topic : {W : Type 0} → Admin W → String → W → W × Result TopicFacts
unfolding facts_of
topic a name w = facts_listed name (a.list_topics name w)
