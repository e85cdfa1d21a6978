-- ===== src/ControlStore.antt =====
-- internal/adapters/controlpg: the tables of the control store and its statements, over rows. A call is
-- one transaction. An error's text is the prefix that the package gives it.
pub mod Streams
pub mod Subscriptions
pub mod Leases
pub mod Calls
pub mod Rows
pub mod Growth
use Prim.Native.String
use postie.Prelude.{
  ℕ, ◌+◌, String, Bool, true, false, not, ◌&&◌, ◌||◌, Option, none, some, List, [], ◌∷◌, ◌++◌, map,
  any, ◌==◌, if◌then◌else◌, leb, ltb, eqb, ℤ, pos, leb_ℤ, ltb_ℤ, eqb_ℤ,
}
use postie.Encoding.{Json, codes}
use postie.Stream.{Scope, Record, valid}
use postie.Control.{SubscriptionState}
use postie.Delivery.Effects.{Error, failed, Result, ok, err}

pub record StreamRow : Type 0 where
  pub scope : Scope
  pub source_id : String
  pub identity : Json
  pub names : Json
  pub topic_id : List ℕ
  pub blocked : String

pub record SubscriptionRow : Type 0 where
  pub scope : Scope
  pub destination_id : String
  pub desired : String
  pub revision : ℕ  -- bigint, positive by a check

pub record LeaseRow : Type 0 where
  pub scope : Scope
  pub worker_id : String
  pub expires_at : ℤ

pub record ObservationRow : Type 0 where
  pub scope : Scope
  pub worker_id : String
  pub destination_id : String
  pub revision : ℕ  -- bigint, positive by a check
  pub state : String

pub record SkipRow : Type 0 where
  pub scope : Scope
  pub destination_id : String
  pub source_id : String
  pub event_id : String
  pub topic : String
  pub partition : ℤ
  pub offset_value : ℤ

-- Without `started_at`, which nothing reads.
pub record StartedRow : Type 0 where
  pub scope : Scope
  pub destination_id : String
  pub topic : String
  pub partition : ℤ

pub record Tables : Type 0 where
  pub streams : List StreamRow
  pub subscriptions : List SubscriptionRow
  pub leases : List LeaseRow
  pub observations : List ObservationRow
  pub skips : List SkipRow
  pub started : List StartedRow

abbrev pub no_tables : Tables
no_tables = record {
  streams = [];
  subscriptions = [];
  leases = [];
  observations = [];
  skips = [];
  started = [];
}

-- The database answers, does not carry the transaction out, or carries it out and the answer is lost.
pub data Connection : Type 0 where
  answers refuses breaks : Connection

abbrev pub Call : Type 0 → Type 0
Call A = Connection → Tables → Tables × Result A

-- A transaction that ends in the answer `x`; one that fails is rolled back.
abbrev pub settled : {A : Type 0} → Tables → Tables × Result A → Tables × Result A
settled t (t', ok a) = (t', ok a)
settled t (t', err e) = (t, err e)

abbrev pub lost : {A : Type 0} → String → Tables × Result A → Tables × Result A
lost what (t, x) = (t, err (failed what))

unfoldable pub transaction : {A : Type 0} → String → (Tables → Tables × Result A) → Call A
transaction what f answers t = settled t (f t)
transaction what f refuses t = (t, err (failed what))
transaction what f breaks t = lost what (settled t (f t))

-- A test before the database is asked.
unfoldable pub checked : {A : Type 0} → Bool → String → Call A → Call A
checked b what call c t = if b then call c t else (t, err (failed what))

abbrev pub same_scope : Scope → Scope → Bool
same_scope a b =
    a.namespace == b.namespace && a.environment == b.environment && eqb_ℤ a.generation b.generation

-- `validScope`
unfoldable pub valid_scope : Scope → Bool
valid_scope s = not (s.namespace == "") && not (s.environment == "") && valid s.generation

-- `unicode.IsSpace`, and `strings.TrimSpace(s) == ""`.
abbrev pub is_space : ℕ → Bool
is_space c =
    (leb 9 c && leb c 13)
    || eqb c 32
    || eqb c 133
    || eqb c 160
    || eqb c 5760
    || (leb 8192 c && leb c 8202)
    || eqb c 8232
    || eqb c 8233
    || eqb c 8239
    || eqb c 8287
    || eqb c 12288

unfoldable pub is_blank : String → Bool
is_blank s = not (any (λ c. not (is_space c)) (codes s))

module _ {R : Type 0} where
  unfoldable pub find : (R → Bool) → List R → Option R
  find p [] = none
  find p (r ∷ rest) = if p r then some r else find p rest

  -- `ON CONFLICT DO NOTHING`, where `p` finds the row with the key.
  unfoldable pub insert_new : (R → Bool) → R → List R → List R
  insert_new p r rows = if any p rows then rows else rows ++ r ∷ []

  unfoldable pub update : (R → Bool) → (R → R) → List R → List R
  update p f [] = []
  update p f (r ∷ rest) = (if p r then f r else r) ∷ update p f rest

  -- `ON CONFLICT … DO UPDATE`
  unfoldable pub upsert : (R → Bool) → (R → R) → R → List R → List R
  unfolding update
  upsert p f r rows = if any p rows then update p f rows else rows ++ r ∷ []

  unfoldable pub delete : (R → Bool) → List R → List R
  delete p [] = []
  delete p (r ∷ rest) = let others = delete p rest in if p r then others else r ∷ others

-- `PartitionStarted` and `MarkPartitionStarted`
abbrev pub is_started : Scope → String → String → ℤ → StartedRow → Bool
is_started s destination topic partition r =
    same_scope r.scope s
    && r.destination_id == destination
    && r.topic == topic
    && eqb_ℤ r.partition partition

unfoldable pub partition_started : Scope → String → String → ℤ → Call Bool
unfolding valid_scope
partition_started s destination topic partition = checked (valid_scope s) "control: invalid scope" (
    transaction "control: partition marker"
      (λ t. (t, ok (any (is_started s destination topic partition) t.started))))

unfoldable pub mark_partition_started : Scope → String → String → ℤ → Call (Unit {0})
unfolding valid_scope insert_new
mark_partition_started s destination topic partition =
    let row : StartedRow = record {
      scope = s;
      destination_id = destination;
      topic = topic;
      partition = partition;
    } in
    checked (valid_scope s) "control: invalid scope" (
      checked (not (destination == "") && not (topic == "") && leb_ℤ (pos 0) partition)
        "control: destination, topic, and non-negative partition are required"
        (transaction "control: mark partition" (λ t. (
          record t {
            started = insert_new (is_started s destination topic partition) row t.started;
          },
          ok tt,
        ))))

-- `SaveSkip` and `HasSkip`
abbrev pub is_skip : Scope → String → Record → SkipRow → Bool
is_skip s destination r row =
    same_scope row.scope s
    && row.destination_id == destination
    && row.topic == r.topic
    && eqb_ℤ row.partition r.partition
    && eqb_ℤ row.offset_value r.offset

abbrev pub has_position : String → Record → Bool
has_position destination r =
    not (destination == "")
    && not (r.topic == "")
    && leb_ℤ (pos 0) r.partition
    && leb_ℤ (pos 0) r.offset

unfoldable pub save_skip : Scope → String → Record → Call (Unit {0})
unfolding valid_scope insert_new
save_skip s destination r =
    let row : SkipRow = record {
      scope = s;
      destination_id = destination;
      source_id = r.source.id;
      event_id = r.event_id;
      topic = r.topic;
      partition = r.partition;
      offset_value = r.offset;
    } in
    checked (valid_scope s) "control: invalid scope" (
      checked (has_position destination r)
        "control: destination, topic, non-negative partition, and offset are required"
        (transaction "control: save skip"
          (λ t. (record t { skips = insert_new (is_skip s destination r) row t.skips }, ok tt))))

unfoldable pub has_skip : Scope → String → Record → Call Bool
unfolding valid_scope
has_skip s destination r = checked (valid_scope s) "control: invalid scope" (
    checked (has_position destination r)
      "control: destination, topic, non-negative partition, and offset are required"
      (transaction "control: check skip" (λ t. (t, ok (any (is_skip s destination r) t.skips)))))
