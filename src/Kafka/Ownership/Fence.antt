-- ===== src/Kafka/Ownership/Fence.antt =====
-- No two workers of one partition commit at once, whatever the rebalances, the end of `Run` and the
-- workers do in between.
use postie.Prelude.{
  ℕ, ◌<◌, Bool, true, false, not, ◌&&◌, ◌||◌, List, [], ◌∷◌, ◌≡◌, refl, sym, inl, inr, eqb, eqb_iff,
  arith, Bool-cases,
}
use mathlib.Core.Path.{subst}
use postie.Kafka.Ownership.{
  same_key, WorkerState, Stopping, idle, selecting, stopping, Caller, callback, closing, Consumer,
  is_idle, set_worker, change, new,
}

abbrev pub contains : ℕ → List ℕ → Bool
contains i [] = false
contains i (j ∷ js) = eqb i j || contains i js

-- The call still waits for the worker.
abbrev pub waits : ℕ → Stopping → Bool
waits i (stopping is) = contains i is
waits i _ = false

pub record IsFenced (c : Consumer) : Type 0 where
  pub busy : (i : ℕ) → (not (c.workers i).committing || not (c.workers i).done) ≡ true
  pub out :
      (i : ℕ)
      → i < c.count
      → ((c.workers i).registered
          || (c.workers i).done
          || waits i (c.calls callback)
          || waits i (c.calls closing))
        ≡ true
  pub apart :
      (i j : ℕ)
      → i < j
      → j < c.count
      → same_key (c.workers i).key (c.workers j).key ≡ true
      → ((c.workers i).done || (c.canceled && not (c.workers j).committing)) ≡ true
  pub ending : (is_idle (c.calls closing) || c.canceled) ≡ true

pub idle-waits : (i : ℕ) (t : Stopping) → is_idle t ≡ true → waits i t ≡ false
idle-waits i idle h = refl
idle-waits i (selecting ks) h = refl
idle-waits i (stopping is) h = cc

pub set_worker-post :
    (P : ℕ → WorkerState → Type 0) (n : ℕ) (w : WorkerState) (f : ℕ → WorkerState)
    → P n w
    → ((i : ℕ) → eqb i n ≡ false → P i (f i))
    → (i : ℕ) → P i (set_worker n w f i)
set_worker-post P n w f new old i = elim (Bool-cases (eqb i n)) [
  | inl e ↦ rw e (subst (λ j. P j w) (sym ((eqb_iff i n).0 e)) new)
  | inr e ↦ rw e (old i e)
]

module _ (c : Consumer) (n : ℕ) (w : WorkerState) (key : w.key ≡ (c.workers n).key)
    (reg : w.registered ≡ (c.workers n).registered)
    (exit : (not (c.workers n).done || w.done) ≡ true)
    (busy : (not w.committing || not w.done) ≡ true)
    (begin : (not w.committing || (c.workers n).committing || not c.canceled) ≡ true) where
  change-apart :
      IsFenced c
      → (i j : ℕ) → i < j
      → j < c.count
      → same_key (set_worker n w c.workers i).key (set_worker n w c.workers j).key ≡ true
      → ((set_worker n w c.workers i).done
          || (c.canceled && not (set_worker n w c.workers j).committing))
        ≡ true
  change-apart f i j lt below =
      set_worker-post
        (λ i x.
          i < j
          → same_key x.key (set_worker n w c.workers j).key ≡ true
          → (x.done || (c.canceled && not (set_worker n w c.workers j).committing)) ≡ true)
        n w c.workers
        (λ lt.
          set_worker-post
            (λ j x.
              n < j
              → j < c.count
              → same_key w.key x.key ≡ true
              → (w.done || (c.canceled && not x.committing)) ≡ true)
            n w c.workers (λ lt'. absurd (omega arith))
            (λ j other lt' b same. ground (
              arith,
              f.apart n j lt' b (subst (λ k. same_key k (c.workers j).key ≡ true) key same),
              exit,
            ))
            j lt below)
        (λ i other lt.
          set_worker-post
            (λ j x.
              i < j
              → j < c.count
              → same_key (c.workers i).key x.key ≡ true
              → ((c.workers i).done || (c.canceled && not x.committing)) ≡ true)
            n w c.workers
            (λ lt' b same. ground (
              arith,
              f.apart i n lt' b (subst (λ k. same_key (c.workers i).key k ≡ true) key same),
              begin,
            ))
            (λ j other' lt' b same. f.apart i j lt' b same) j lt below)
        i lt

  pub change-IsFenced : IsFenced c → IsFenced (change n w c)
  change-IsFenced f = record {
    busy =
        set_worker-post (λ i x. (not x.committing || not x.done) ≡ true) n w c.workers busy
          (λ i other. f.busy i);
    out =
        set_worker-post
          (λ i x.
            i < c.count
            → (x.registered || x.done || waits i (c.calls callback) || waits i (c.calls closing))
              ≡ true)
          n w c.workers (λ lt. ground (arith, f.out n lt, reg, exit)) (λ i other. f.out i);
    apart = change-apart f;
    ending = f.ending;
  }

-- The fields beside the workers change.
pub recall-IsFenced :
    (c : Consumer) (calls : Caller → Stopping) (canceled assigned : Bool)
    → (not c.canceled || canceled) ≡ true
    → (is_idle (calls closing) || canceled) ≡ true
    → ((by : Caller) (i : ℕ)
        → (not (waits i (c.calls by)) || (c.workers i).done || waits i (calls by)) ≡ true)
    → IsFenced c
    → IsFenced (record c { calls = calls; canceled = canceled; assigned = assigned })
recall-IsFenced c calls canceled assigned stays ending keep f = record {
  busy = f.busy;
  out = λ i lt. ground (arith, f.out i lt, keep callback i, keep closing i);
  apart = λ i j lt below same. ground (arith, f.apart i j lt below same);
  ending = ending;
}
