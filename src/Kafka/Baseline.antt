-- ===== src/Kafka/Baseline.antt =====
-- Where a worker starts: `initialize` of internal/adapters/kafka/consumer.go.
pub mod Settling
pub mod Questions
pub mod Attempts
use Prim.Native.String
use postie.Prelude.{
  ℕ, String, Bool, true, false, not, ◌&&◌, ◌||◌, Option, none, some, ◌≡◌, ◌≢◌, ◌⊎◌, inl, inr, refl,
  sym, ap, ◌∙◌, ℤ, pos, negsuc, ltb_ℤ, eqb_ℤ, eqb_ℤ_iff, arith, Bool-cases, if◌then◌else◌,
}
use mathlib.Core.Path.{subst, subst₂}
use postie.Delivery.Effects.{
  Error, canceled, failed, Result, ok, err, M, Context, ◌>>◌, bind_result, bind_result-post,
}
use postie.Delivery.Worker.{Gate}
use postie.Kafka.{
  Offset, Offsets, Outside, PartitionWorker, Local, local, source_id, call, may_commit, commit,
  available, readable, set_horizon, lose, settle_new, settle_known, settle, attempt, initialize,
  less_one,
}

-- There is no committed offset.
abbrev pub IsUncommitted : Option ℤ → Type 0
IsUncommitted none = Unit
IsUncommitted (some at) = ltb_ℤ at (pos 0) ≡ true

-- Kafka's listing has no offset of a partition, or an error in its place.
abbrev pub IsUseless : Option Offset → Type 0
IsUseless none = Unit
IsUseless (some o) = o.failed ≡ true

-- The listing has an error in the place of a partition's offset.
abbrev pub IsBroken : Option Offset → Type 0
IsBroken none = ⊥
IsBroken (some o) = o.failed ≡ true

-- No use can be made of the listed offsets: of the committed one, the log's start or its end.
abbrev pub AreUseless : Option Offset → Option Offset → Option Offset → Type 0
AreUseless committed start end = IsUseless start ⊎ IsUseless end ⊎ IsBroken committed

module _ {W : Type 0} (p : PartitionWorker W) where
  -- What Kafka and the store answered, one question behind the other from `w` on.
  pub record Answers (w : W) : Type 0 where
    pub first : ℤ
    pub last : ℤ
    pub offset : Option ℤ
    pub started : Bool
    pub fetched_at : W
    pub started_at : W
    pub ended_at : W
    pub asked_at : W
    pub committed_offsets : Offsets
    pub start_offsets : Offsets
    pub end_offsets : Offsets
    pub fetches : p.outside.fetch_offsets p.group w ≡ (fetched_at, ok committed_offsets)
    pub lists_start : p.outside.list_start p.topic fetched_at ≡ (started_at, ok start_offsets)
    pub lists_end : p.outside.list_end p.topic started_at ≡ (ended_at, ok end_offsets)
    pub asks :
        p.outside.partition_started p.scope p.destination p.topic p.partition ended_at
        ≡ (asked_at, ok started)
    pub first_given :
        start_offsets p.topic p.partition ≡ some (record { at = first; failed = false })
    pub last_given : end_offsets p.topic p.partition ≡ some (record { at = last; failed = false })
    pub offset_given :
        (committed_offsets p.topic p.partition ≡ none) × (offset ≡ none)
        ⊎ ((at : ℤ) × (committed_offsets p.topic p.partition
              ≡ some (record { at = at; failed = false }))
            × (offset ≡ some at))

  -- Kafka holds the log on from the committed offset.
  pub record IsRetained {w : W} (a : Answers w) : Type 0 where
    pub at : ℤ
    pub committed : a.offset ≡ some at
    pub not_before : ltb_ℤ at a.first ≡ false
    pub not_behind : ltb_ℤ a.last at ≡ false

  -- A partition that was never started has its whole log, and a commit in front of it.
  pub record IsFresh {w : W} (a : Answers w) (behind : W) : Type 0 where
    pub uncommitted : IsUncommitted a.offset
    pub unstarted : a.started ≡ false
    pub whole : a.first ≡ pos 0
    pub allowed : may_commit p a.asked_at ≡ true
    pub committed :
        p.outside.commit_records p.topic p.partition (negsuc 0) (negsuc 0) a.asked_at
        ≡ (behind, ok tt)

  -- History that the destination needs is gone.
  abbrev pub IsGone : {w : W} → Answers w → Type 0
  IsGone a =
      IsUncommitted a.offset × ((a.started ≡ true) ⊎ (a.first ≢ pos 0))
      ⊎ ((at : ℤ) × (a.offset ≡ some at) × ((ltb_ℤ at a.first ≡ true) ⊎ (ltb_ℤ a.last at ≡ true)))

  -- `settle` has left the world `behind`.
  abbrev pub IsSettled : {w : W} → Answers w → W → Type 0
  IsSettled a behind = IsRetained a × (a.asked_at ≡ behind) ⊎ IsFresh a behind

  pub record IsEstablished (w : W) (s : Local W) : Type 0 where
    pub answers : Answers w
    pub behind : W
    pub settled : IsSettled answers behind
    pub marked :
        p.outside.mark_partition_started p.scope p.destination p.topic p.partition behind
        ≡ (s.1, ok tt)
    pub horizon : s.0 ≡ answers.last

  -- The source is blocked and the worker cancelled.
  pub record IsLost (w : W) (s : Local W) (e : Error) : Type 0 where
    pub answers : Answers w
    pub gone : IsGone answers
    pub reason : String
    pub blocked : s.1 ≡ p.outside.cancel (p.dispatch.block (source_id p) reason answers.asked_at)
    pub ends : e ≡ canceled

  -- The last call failed, or one of the listed offsets was of no use; nothing was done behind it.
  pub data IsRefused (w : W) (s : Local W) (e : Error) : Type 0 where
    fetch_failed : p.outside.fetch_offsets p.group w ≡ (s.1, err e) → IsRefused w s e
    start_failed :
        (w1 : W) (committed : Offsets)
        → p.outside.fetch_offsets p.group w ≡ (w1, ok committed)
        → p.outside.list_start p.topic w1 ≡ (s.1, err e)
        → IsRefused w s e
    end_failed :
        (w1 w2 : W) (committed start : Offsets)
        → p.outside.fetch_offsets p.group w ≡ (w1, ok committed)
        → p.outside.list_start p.topic w1 ≡ (w2, ok start)
        → p.outside.list_end p.topic w2 ≡ (s.1, err e)
        → IsRefused w s e
    unavailable :
        (w1 w2 : W) (committed start end : Offsets)
        → p.outside.fetch_offsets p.group w ≡ (w1, ok committed)
        → p.outside.list_start p.topic w1 ≡ (w2, ok start)
        → p.outside.list_end p.topic w2 ≡ (s.1, ok end)
        → AreUseless
            (committed p.topic p.partition)
            (start p.topic p.partition)
            (end p.topic p.partition)
        → IsRefused w s e
    store_failed :
        (w1 w2 w3 : W) (committed start end : Offsets)
        → p.outside.fetch_offsets p.group w ≡ (w1, ok committed)
        → p.outside.list_start p.topic w1 ≡ (w2, ok start)
        → p.outside.list_end p.topic w2 ≡ (w3, ok end)
        → p.outside.partition_started p.scope p.destination p.topic p.partition w3 ≡ (s.1, err e)
        → IsRefused w s e
    commit_failed :
        (a : Answers w)
        → commit p p.topic p.partition (negsuc 0) (negsuc 0) a.asked_at ≡ (s.1, err e)
        → IsRefused w s e
    mark_failed :
        (a : Answers w) (behind : W)
        → IsSettled a behind
        → p.outside.mark_partition_started p.scope p.destination p.topic p.partition behind
          ≡ (s.1, err e)
        → IsRefused w s e

  abbrev pub Attempted : W → Option (Local W × Result (Unit {0})) → Type 0
  Attempted w none = ⊥
  Attempted w (some (s, ok u)) = IsEstablished w s
  Attempted w (some (s, err e)) = IsLost w s e ⊎ IsRefused w s e
