-- ===== src/Delivery/Worker.antt =====
-- internal/delivery/worker.go. The two interfaces of the store, the gate and the log are calls of the
-- world; a call that waits may end by the context only.
pub mod Entries
pub mod Ordering
pub mod Commit
use postie.Prelude.{ℕ, String, Bool, true, false, not, Option, none, some, is_some, if◌then◌else◌}
use postie.Activity.{Entry}
use postie.Stream.{Record, RawRecord, Scope}
use postie.Delivery.Effects.{
  Error, canceled, failed, Result, ok, err, M, Context, ◌>>=◌, ◌>>◌, bind_result, pure,
}
use postie.Delivery.Retry.{retry}
use postie.Delivery.Backoff.{second}
use postie.Delivery.Processor.{Outcome, delivered, filtered, skipped, Processor, process}
use Entries.{
  entry_for, started_entry, attempt_entry, outcome_entry, committed_entry, commit_retry_entry,
}

abbrev pub store_retry_delay : ℕ
store_retry_delay = second

-- `recordActions`
pub record RecordActions (W : Type 0) : Type 0 where
  pub skipped : M W Bool
  pub send : M W Outcome
  pub audit : M W (Unit {0})
  pub commit : M W (Unit {0})

abbrev pub is_skipped : Outcome → Bool
is_skipped skipped = true
is_skipped _ = false

module _ {W : Type 0} (fuel : ℕ) (c : Context W) (delay : ℕ) (actions : RecordActions W) where
  audit_if : Outcome → M W (Unit {0})
  audit_if outcome = if is_skipped outcome then retry fuel c delay actions.audit else pure tt

  send_and_audit : M W (Unit {0})
  unfolding audit_if
  send_and_audit = do outcome ← actions.send; audit_if outcome

  send_unless : Bool → M W (Unit {0})
  unfolding send_and_audit
  send_unless already = if already then pure tt else send_and_audit

  unfoldable pub complete_record : M W (Unit {0})
  unfolding send_unless
  complete_record = do
    already ← retry fuel c delay actions.skipped
    send_unless already
    retry fuel c delay actions.commit

-- `DispatchGate`
pub record Gate (W : Type 0) : Type 0 where
  pub allowed : String → W → Bool
  pub block : String → String → W → W

-- `Worker`, with the two calls of `SkipStore`; `error_text` is `Error()`.
pub record Worker (W : Type 0) : Type 0 where
  pub processor : Processor W
  pub decode : RawRecord → Result Record
  pub has_skip : Scope → String → Record → W → W × Result Bool
  pub save_skip : Scope → String → Record → W → W × Result (Unit {0})
  pub scope : Scope
  pub destination : String
  pub source_id : String
  pub gate : Option (Gate W)
  pub log : Option (Entry → W → W)

pub error_text : Error → String
error_text canceled = "context canceled"
error_text Error.deadline_exceeded = "context deadline exceeded"
error_text (failed text) = text

module _ {W : Type 0} (k : Worker W) where
  unfoldable pub allowed : W → Bool
  allowed w = elim k.gate [ none ↦ true | some g ↦ g.allowed k.source_id w ]

  unfoldable pub block : String → W → W
  block reason w = elim k.gate [ none ↦ w | some g ↦ g.block k.source_id reason w ]

  unfoldable pub log : Entry → W → W
  log e w = elim k.log [ none ↦ w | some add ↦ add e w ]

  log_outcome : Entry → Option (W × Result Outcome) → Option (W × Result Outcome)
  unfolding log outcome_entry
  log_outcome entry none = none
  log_outcome entry (some (w, ok outcome)) = some (log (outcome_entry entry outcome) w, ok outcome)
  log_outcome entry (some (w, err e)) = some (w, err e)

  unfoldable pub send : ℕ → Record → Entry → M W Outcome
  unfolding log_outcome log
  send fuel r entry w =
      let observe = λ (attempt : ℕ) (e : Option Error). log (attempt_entry entry attempt e) in
      log_outcome entry (process k.processor observe fuel r (log (started_entry entry) w))

  log_commit : Context W → Entry → W × Result (Unit {0}) → Option (W × Result (Unit {0}))
  unfolding log
  log_commit c entry (w, ok x) = some (log (committed_entry entry) w, ok tt)
  log_commit c entry (w, err e) =
      some (if is_some (c.error w) then w else log (commit_retry_entry entry) w, err e)

  -- One attempt; `commit` is the caller's `CommitFunc`.
  unfoldable pub commit :
      (RawRecord → W → W × Result (Unit {0})) → Context W → RawRecord → Entry → M W (Unit {0})
  unfolding log_commit
  commit commit_func c raw entry w = log_commit c entry (commit_func raw w)

  has_skip : RawRecord → Record → M W Bool
  has_skip raw r w =
      if not raw.historical then some (w, ok false) else some (k.has_skip k.scope k.destination r w)

  unfoldable pub actions_for :
      ℕ → Context W → RawRecord → (RawRecord → W → W × Result (Unit {0})) → Record → RecordActions W
  unfolding has_skip
  actions_for fuel c raw commit_func r =
      let entry = entry_for r k.destination in
      record {
        skipped = has_skip raw r;
        send = send fuel r entry;
        audit = λ w. some (k.save_skip k.scope k.destination r w);
        commit = commit commit_func c raw entry;
      }

  process_decoded :
      ℕ
      → Context W
      → RawRecord
      → (RawRecord → W → W × Result (Unit {0}))
      → Result Record
      → M W (Unit {0})
  unfolding block
  process_decoded fuel c raw commit_func (err e) w = some (block (error_text e) w, err e)
  process_decoded fuel c raw commit_func (ok r) w =
      complete_record fuel c store_retry_delay (actions_for fuel c raw commit_func r) w

  -- `Worker.Process`
  unfoldable pub process_raw :
      ℕ → Context W → RawRecord → (RawRecord → W → W × Result (Unit {0})) → M W (Unit {0})
  unfolding process_decoded allowed
  process_raw fuel c raw commit_func w =
      if not (allowed w)
      then some (w, err canceled)
      else process_decoded fuel c raw commit_func (k.decode raw) w
