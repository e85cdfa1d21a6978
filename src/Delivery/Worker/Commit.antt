-- ===== src/Delivery/Worker/Commit.antt =====
-- What `Worker.Process` (internal/delivery/worker.go) has done when it returns no error.
use postie.Prelude.{ℕ, ◌≡◌, refl, inl, inr, true, none, some, arith, Bool-cases}
use postie.Activity.{Entry}
use postie.Stream.{Record, RawRecord}
use postie.Delivery.Effects.{Result, ok, err, M, Context, bind_result-ok}
use postie.Delivery.Retry.{retry, retry_lem}
use postie.Delivery.Worker.{
  RecordActions, complete_record, send_unless, Worker, allowed, log, log_commit, commit,
  actions_for, process_decoded, process_raw, store_retry_delay,
}
use postie.Delivery.Worker.Entries.{entry_for, committed_entry}

retry-ok :
    {W A : Type 0} (fuel : ℕ) (c : Context W) (delay : ℕ) (fn : M W A) (w w' : W) (a : A)
    → retry fuel c delay fn w ≡ some (w', ok a)
    → (w0 : W) × (c.error w0 ≡ none) × (fn w0 ≡ some (w', ok a))
retry-ok fuel c delay fn w w' a h = rw h at (retry_lem c delay fn fuel w)

-- A record is complete only behind a successful call of `commit`, made while the context is live.
pub complete_record-commit :
    {W : Type 0} (fuel : ℕ) (c : Context W) (delay : ℕ) (a : RecordActions W) (w w' : W)
    → complete_record fuel c delay a w ≡ some (w', ok tt)
    → (w0 : W) × (c.error w0 ≡ none) × (a.commit w0 ≡ some (w', ok tt))
unfolding complete_record
complete_record-commit fuel c delay a w w' h =
    let (w1, already, e1, h1) = bind_result-ok _ (retry fuel c delay a.skipped w) h in
    let (w2, x, e2, h2) = bind_result-ok _ (send_unless fuel c delay a already w1) h1 in
    retry-ok fuel c delay a.commit w2 w' tt h2

module _ {W : Type 0} (k : Worker W) (c : Context W) (raw : RawRecord)
    (commit_func : RawRecord → W → W × Result (Unit {0})) where
  -- The offset was committed for the record that the raw one decodes to, and that was logged.
  pub record IsCommitted (w w' : W) : Type 0 where
    pub decoded : Record
    pub before : W
    pub behind : W
    pub gated : allowed k w ≡ true
    pub decodes : k.decode raw ≡ ok decoded
    pub live : c.error before ≡ none
    pub committed : commit_func raw before ≡ (behind, ok tt)
    pub logged : w' ≡ log k (committed_entry (entry_for decoded k.destination)) behind

  log_commit-ok :
      (entry : Entry) (x : W × Result (Unit {0})) (w' : W)
      → log_commit k c entry x ≡ some (w', ok tt)
      → (behind : W) × (x ≡ (behind, ok tt)) × (w' ≡ log k (committed_entry entry) behind)
  unfolding log_commit
  log_commit-ok entry (w, ok x) w' h = (w, refl, ground arith)
  log_commit-ok entry (w, err e) w' h = cc

  process_decoded-ok :
      (fuel : ℕ) (w w' : W) (x : Result Record)
      → allowed k w ≡ true
      → k.decode raw ≡ x
      → process_decoded k fuel c raw commit_func x w ≡ some (w', ok tt)
      → IsCommitted w w'
  unfolding process_decoded commit actions_for
  process_decoded-ok fuel w w' (err e) gate d h = cc
  process_decoded-ok fuel w w' (ok r) gate d h =
      let (before, live, e) =
        complete_record-commit fuel c store_retry_delay (actions_for k fuel c raw commit_func r) w
          w' h in
      let (behind, committed, logged) =
        log_commit-ok (entry_for r k.destination) (commit_func raw before) w' e in
      record {
        decoded = r;
        before = before;
        behind = behind;
        gated = gate;
        decodes = d;
        live = live;
        committed = committed;
        logged = logged;
      }

  -- No error means a committed offset: the gate was open, the raw record decoded, and the last call
  -- of the world was a successful commit of that raw record, which was logged.
  pub process_raw-IsCommitted :
      (fuel : ℕ) (w w' : W)
      → process_raw k fuel c raw commit_func w ≡ some (w', ok tt)
      → IsCommitted w w'
  unfolding process_raw
  process_raw-IsCommitted fuel w w' h = elim (Bool-cases (allowed k w)) [
    | inl gate ↦ process_decoded-ok fuel w w' (k.decode raw) gate refl (rw (gate, process_raw) at h)
    | inr shut ↦ absurd (ground arith)
  ]
