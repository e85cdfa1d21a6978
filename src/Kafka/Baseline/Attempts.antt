-- ===== src/Kafka/Baseline/Attempts.antt =====
-- An attempt of `initialize`, and `initialize`.
use postie.Prelude.{ℕ, false, Option, none, some, ◌≡◌, ◌⊎◌, inr, refl, ℤ}
use mathlib.Core.Path.{subst}
use postie.Delivery.Effects.{Result, ok, err, ◌>>◌, bind_result}
use postie.Delivery.Retry.{Ends, retry_inv}
use postie.Delivery.Backoff.{second}
use postie.Kafka.{Offsets, PartitionWorker, Local, local, call, settle, attempt, initialize}
use postie.Kafka.Baseline.{
  Answers, IsSettled, IsEstablished, fetch_failed, start_failed, end_failed, unavailable,
  store_failed, mark_failed, Attempted,
}
use postie.Kafka.Baseline.Settling.{Settled, settle-Settled}
use postie.Kafka.Baseline.Questions.{call-post, attempt-post}

module _ {W : Type 0} (p : PartitionWorker W) where
  -- The end of an attempt, behind its questions.
  finished :
      {w : W} (a : Answers p w) (x : Option (Local W × Result (Unit {0})))
      → settle p a.first a.last a.offset a.started (a.last, a.asked_at) ≡ x
      → Attempted p w (
          bind_result
            (λ u.
              call p (p.outside.mark_partition_started p.scope p.destination p.topic p.partition))
            x)
  unfolding call
  finished a none e =
      absurd (subst (Settled p a a.last) e (settle-Settled p a a.last a.offset refl))
  finished a (some (s', err x)) e =
      subst (Settled p a a.last) e (settle-Settled p a a.last a.offset refl)
  finished {w} a (some (s', ok u)) e =
      let (settled, kept) =
        subst (Settled p a a.last) e (settle-Settled p a a.last a.offset refl) in
      marked (p.outside.mark_partition_started p.scope p.destination p.topic p.partition s'.1) refl
        settled kept
    where
      marked :
          (y : W × Result (Unit {0}))
          → p.outside.mark_partition_started p.scope p.destination p.topic p.partition s'.1 ≡ y
          → IsSettled p a s'.1
          → s'.0 ≡ a.last
          → Attempted p w (some ((s'.0, y.0), y.1))
      marked (w', ok u) m settled h = record {
        answers = a;
        behind = s'.1;
        settled = settled;
        marked = m;
        horizon = h;
      }
      marked (w', err x) m settled h = inr (mark_failed a s'.1 settled m)

  -- The questions behind the two ends of the log.
  module _ (first last : ℤ) (w w1 w2 w3 : W) (committed start end : Offsets)
      (e1 : p.outside.fetch_offsets p.group w ≡ (w1, ok committed))
      (e2 : p.outside.list_start p.topic w1 ≡ (w2, ok start))
      (e3 : p.outside.list_end p.topic w2 ≡ (w3, ok end))
      (f1 : start p.topic p.partition ≡ some (record { at = first; failed = false }))
      (f2 : end p.topic p.partition ≡ some (record { at = last; failed = false })) where
    settled_by :
        (offset : Option ℤ)
        → ((committed p.topic p.partition ≡ none) × (offset ≡ none)
            ⊎ ((at : ℤ) × (committed p.topic p.partition
                  ≡ some (record { at = at; failed = false }))
                × (offset ≡ some at)))
        → Attempted p w (
            bind_result
              (λ started.
                settle p first last offset started
                >> call p
                    (p.outside.mark_partition_started p.scope p.destination p.topic p.partition))
              (call p
                (p.outside.partition_started p.scope p.destination p.topic p.partition)
                (last, w3)))
    settled_by offset known =
        call-post p (Attempted p w)
          (p.outside.partition_started p.scope p.destination p.topic p.partition) _ (last, w3)
          (λ w4 started e4.
            finished
              (record {
                first = first;
                last = last;
                offset = offset;
                started = started;
                fetched_at = w1;
                started_at = w2;
                ended_at = w3;
                asked_at = w4;
                committed_offsets = committed;
                start_offsets = start;
                end_offsets = end;
                fetches = e1;
                lists_start = e2;
                lists_end = e3;
                asks = e4;
                first_given = f1;
                last_given = f2;
                offset_given = known;
              })
              (settle p first last offset started (last, w4)) refl)
          (λ w4 e e4. inr (store_failed w1 w2 w3 committed start end e1 e2 e3 e4))

  -- An attempt returns, and asks for the offsets, the start, the end and the marker of the partition in
  -- this order. A success has all answered, and an offset that Kafka still holds, or none for a
  -- partition that was never started, starts at 0 and now has a commit of -1 made while the worker may
  -- commit; it is then marked, and the horizon is its end. A failure is history that is gone (no offset
  -- though the partition was started or does not start at 0, or an offset outside of what is held),
  -- with the source blocked and the worker canceled; or the last call failed, or an offset was of no
  -- use: the start or the end was not listed or listed with an error, or the committed offset was
  -- listed with an error.
  pub attempt-Attempted : (s : Local W) → Attempted p s.1 (attempt p s)
  attempt-Attempted s =
      attempt-post p (Attempted p s.1) s.1 (λ w1 h e x. inr (fetch_failed x))
        (λ w1 w2 committed h e e1 x. inr (start_failed w1 committed e1 x))
        (λ w1 w2 w3 committed start h e e1 e2 x. inr (end_failed w1 w2 committed start e1 e2 x))
        (λ w1 w2 w3 committed start end h e e1 e2 e3 x.
          inr (unavailable w1 w2 committed start end e1 e2 e3 x))
        s.0
        (λ first last w1 w2 w3 committed start end.
          settled_by first last s.1 w1 w2 w3 committed start end)

  -- `initialize` ends by an established baseline or by the context's error.
  pub initialize-IsEstablished :
      (fuel : ℕ) (s : Local W)
      → Ends
          (local p.context)
          (λ _. Unit {0})
          (λ s' _. (w : W) × (p.context.error w ≡ none) × IsEstablished p w s')
          (initialize p fuel s)
  unfolding initialize
  initialize-IsEstablished fuel s =
      retry_inv (local p.context) second (attempt p) (λ _. Unit {0})
        (λ s' _. (w : W) × (p.context.error w ≡ none) × IsEstablished p w s')
        (λ s1 s2 e live q h. tt)
        (λ s1 s2 u live q h. (s1.1, live, subst (Attempted p s1.1) h (attempt-Attempted s1))) fuel s
        tt
