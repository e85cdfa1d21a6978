-- ===== src/Kafka/Batches/Commits.antt =====
-- What a worker has committed when it ends.
use postie.Prelude.{
  ℕ, zero, suc, true, Option, none, some, List, [], ◌∷◌, ℤ, ◌≡◌, refl, ◌⊎◌, inl, inr, arith,
  Bool-cases,
}
use postie.Delivery.Effects.{Error, Result, ok, err, bind_result}
use postie.Delivery.Worker.Commit.{IsCommitted, process_raw-IsCommitted}
use postie.Delivery.Retry.{Ends}
use postie.Kafka.{
  PartitionWorker, Local, local, KafkaRecord, raw_record, commit, commit_position, initialize,
  may_commit,
}
use postie.Kafka.Baseline.{IsEstablished}
use postie.Kafka.Baseline.Attempts.{initialize-IsEstablished}
use postie.Kafka.Batches.{
  Routing, process, batch, give_up, resume, after_batch, after_receive, loop, started, run,
}

module _ {W : Type 0} (p : PartitionWorker W) (l : Routing W) where
  -- The record is through: it was committed at its own offset, by a worker that may commit.
  pub record IsThrough (horizon : ℤ) (raw : KafkaRecord) (w w' : W) : Type 0 where
    pub worked : IsCommitted l.worker p.context (raw_record p horizon raw) (commit_position p) w w'
    pub allowed : may_commit p worked.before ≡ true
    pub committed :
        p.outside.commit_records raw.topic raw.partition raw.offset raw.leader_epoch worked.before
        ≡ (worked.behind, ok tt)

  abbrev pub Handled : ℤ → List KafkaRecord → W → Option (W × Result (Unit {0})) → Type 0
  Handled horizon [] w x = x ≡ some (w, ok tt)
  Handled horizon (raw ∷ rest) w x =
      ((w1 : W) × IsThrough horizon raw w w1 × Handled horizon rest w1 x)
      ⊎ ((w1 : W) × (e : Error) × (process p l horizon raw w ≡ some (w1, err e))
          × (x ≡ some (w1, err e)))
      ⊎ (process p l horizon raw w ≡ none) × (x ≡ none)

  process-IsThrough :
      (horizon : ℤ) (raw : KafkaRecord) (w w' : W)
      → process p l horizon raw w ≡ some (w', ok tt)
      → IsThrough horizon raw w w'
  unfolding process commit_position commit raw_record
  process-IsThrough horizon raw w w' h =
      let c =
        process_raw-IsCommitted l.worker p.context (raw_record p horizon raw) (commit_position p)
          l.fuel w w' h in
      elim (Bool-cases (may_commit p c.before)) [
        | inl may ↦ record { worked = c; allowed = may; committed = rw may at c.committed }
        | inr shut ↦ let e = rw shut at c.committed in absurd (ground arith)
      ]

  batch-Handled :
      (horizon : ℤ) (records : List KafkaRecord) (w : W)
      → Handled horizon records w (batch p l horizon records w)
  unfolding batch
  batch-Handled horizon [] w = refl
  batch-Handled horizon (raw ∷ rest) w =
      handled (process p l horizon raw w) refl (batch-Handled horizon rest)
    where
      handled :
          (x : Option (W × Result (Unit {0})))
          → process p l horizon raw w ≡ x
          → ((w1 : W) → Handled horizon rest w1 (batch p l horizon rest w1))
          → Handled horizon (raw ∷ rest) w (bind_result (λ _. batch p l horizon rest) x)
      handled none e ih = inr (inr (e, refl))
      handled (some (w1, ok u)) e ih = inl (w1, process-IsThrough horizon raw w w1 e, ih w1)
      handled (some (w1, err x)) e ih = inr (inl (w1, x, e, refl))

  -- The batches that a worker took until its end.
  pub data Worked (horizon : ℤ) : W → W → Type 0 where
    ended : (w w' : W) → l.receive w ≡ (w', none) → Worked horizon w w'
    went_on :
        (w w1 w2 w3 : W) (records : List KafkaRecord)
        → l.receive w ≡ (w1, some records)
        → Handled horizon records w1 (some (w2, ok tt))
        → Worked horizon (resume p l w2) w3
        → Worked horizon w w3
    broke_off :
        (w w1 w2 : W) (e : Error) (records : List KafkaRecord)
        → l.receive w ≡ (w1, some records)
        → Handled horizon records w1 (some (w2, err e))
        → Worked horizon w (give_up p l w2)

  abbrev Looped : ℤ → W → Option W → Type 0
  Looped horizon w none = Unit
  Looped horizon w (some w') = Worked horizon w w'

  after_batch-Looped :
      (horizon : ℤ) (again : W → Option W) (w w1 : W) (records : List KafkaRecord)
      → ((w : W) → Looped horizon w (again w))
      → l.receive w ≡ (w1, some records)
      → (x : Option (W × Result (Unit {0}))) → Handled horizon records w1 x
      → Looped horizon w (after_batch p l again x)
  unfolding after_batch
  after_batch-Looped horizon again w w1 records ih r none h = tt
  after_batch-Looped horizon again w w1 records ih r (some (w2, err e)) h =
      broke_off w w1 w2 e records r h
  after_batch-Looped horizon again w w1 records ih r (some (w2, ok u)) h =
      more (again (resume p l w2)) (ih (resume p l w2))
    where
      more : (x : Option W) → Looped horizon (resume p l w2) x → Looped horizon w x
      more none k = tt
      more (some w3) k = went_on w w1 w2 w3 records r h k

  loop-Looped : (horizon : ℤ) (fuel : ℕ) (w : W) → Looped horizon w (loop p l horizon fuel w)
  unfolding loop after_receive
  loop-Looped horizon zero w = tt
  loop-Looped horizon (suc fuel) w = received (l.receive w) refl (loop-Looped horizon fuel)
    where
      received :
          (x : W × Option (List KafkaRecord))
          → l.receive w ≡ x
          → ((w : W) → Looped horizon w (loop p l horizon fuel w))
          → Looped horizon w (after_receive p l horizon (loop p l horizon fuel) x)
      received (w1, none) e ih = ended w w1 e
      received (w1, some records) e ih =
          after_batch-Looped horizon (loop p l horizon fuel) w w1 records ih e
            (batch p l horizon records w1) (batch-Handled horizon records w1)

  -- A worker without a baseline takes no batch.
  abbrev pub Ran : Option W → Type 0
  Ran none = Unit
  Ran (some w') =
      ((w : W) × (s : Local W) × (p.context.error w ≡ none)
        × IsEstablished p w s
        × Worked s.0 (l.signal (l.set_initialized s.1)) w')
      ⊎ ((w : W) × (e : Error) × (p.context.error w ≡ some e) × (w' ≡ w))

  started-Ran :
      (fuel : ℕ) (x : Option (Local W × Result (Unit {0})))
      → Ends
          (local p.context)
          (λ _. Unit {0})
          (λ s _. (w : W) × (p.context.error w ≡ none) × IsEstablished p w s)
          x
      → Ran (started p l fuel x)
  unfolding started give_up
  started-Ran fuel none h = tt
  started-Ran fuel (some (s, err e)) (u, h) = inr (s.1, e, h, rw h refl)
  started-Ran fuel (some (s, ok u)) h =
      looped (loop p l s.0 fuel (l.signal (l.set_initialized s.1))) (loop-Looped s.0 fuel _)
    where
      looped : (x : Option W) → Looped s.0 (l.signal (l.set_initialized s.1)) x → Ran x
      looped none k = tt
      looped (some w') k = let (w, live, e) = h in inl (w, s, live, e, k)

  -- A worker that ends had its initialization ended by its context, and took no batch; or it has an
  -- established baseline and took batches one by one, each with its records through in their order,
  -- until the first that fails, which is its last.
  pub run-Ran : (fuel : ℕ) (w : W) → Ran (run p l fuel w)
  unfolding run
  run-Ran fuel w =
      started-Ran fuel (initialize p fuel (ℤ.pos 0, w))
        (initialize-IsEstablished p fuel (ℤ.pos 0, w))
