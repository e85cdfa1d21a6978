-- ===== src/Kafka/Ownership/Exclusion.antt =====
-- No two workers of one partition commit at once, whatever the rebalances, the end of `Run` and the
-- workers do in between.
use postie.Prelude.{
  ℕ, ◌<◌, Bool, true, false, not, ◌&&◌, ◌||◌, Option, none, some, List, [], ◌∷◌, ◌≡◌, refl, sym,
  ◌⊎◌, inl, inr, eqb, eqb_iff, eq_refl, arith, Bool-cases,
}
use mathlib.Core.Path.{subst}
use postie.Kafka.Ownership.{
  PartitionKey, same_key, Stopping, idle, selecting, stopping, Caller, callback, closing, Consumer,
  Event, assigns, revokes, loses, ends, selects, disowns, joins, returns, cancels, initializes,
  gives_up, commit_ends, exits, commit_begins, is_idle, set_call, only, select_next, disown_next,
  join_next, return_from, may_begin, step, run, new,
}
use postie.Kafka.Ownership.Fence.{
  contains, waits, IsFenced, idle-waits, change-IsFenced, recall-IsFenced,
}
use postie.Kafka.Ownership.Membership.{assign-IsFenced, select-IsFenced, ending-set_call}

-- What holds of a step's end.
abbrev pub Kept : Option Consumer → Type 0
Kept none = Unit
Kept (some c) = IsFenced c

only-Kept : (b : Bool) (c : Consumer) → (b ≡ true → IsFenced c) → Kept (only b c)
only-Kept true c h = h refl
only-Kept false c h = tt

-- A call of `stopWorkers` that goes on, and no longer waits for a worker that is done.
call-IsFenced :
    (by : Caller) (t : Stopping) (a : Bool) (c : Consumer)
    → ((i : ℕ) → (not (waits i (c.calls by)) || (c.workers i).done || waits i t) ≡ true)
    → (is_idle (set_call by t c.calls closing) || c.canceled) ≡ true
    → IsFenced c
    → IsFenced (record c { calls = set_call by t c.calls; assigned = a })
call-IsFenced callback t a c keep ending f =
    recall-IsFenced c (set_call callback t c.calls) c.canceled a (ground arith) ending
      (λ by i.
        elim by
          as (λ by.
            (not (waits i (c.calls by))
              || (c.workers i).done
              || waits i (set_call callback t c.calls by))
            ≡ true) [ callback ↦ keep i | closing ↦ ground arith ])
      f
call-IsFenced closing t a c keep ending f =
    recall-IsFenced c (set_call closing t c.calls) c.canceled a (ground arith) ending
      (λ by i.
        elim by
          as (λ by.
            (not (waits i (c.calls by))
              || (c.workers i).done
              || waits i (set_call closing t c.calls by))
            ≡ true) [ callback ↦ ground arith | closing ↦ keep i ])
      f

select_next-Kept :
    (by : Caller) (t : Stopping) (c : Consumer)
    → c.calls by ≡ t
    → IsFenced c
    → Kept (select_next by t c)
unfolding select_next
select_next-Kept by idle c e f = tt
select_next-Kept by (stopping is) c e f = tt
select_next-Kept by (selecting ks) c e f = select-IsFenced by ks c (rw e refl) (λ i. rw e refl) f

disown_next-Kept : (t : Stopping) (c : Consumer) → IsFenced c → Kept (disown_next t c)
unfolding disown_next
disown_next-Kept idle c f = tt
disown_next-Kept (selecting ks) c f = tt
disown_next-Kept (stopping []) c f = tt
disown_next-Kept (stopping (i ∷ is)) c f =
    only-Kept _ _ (λ h. change-IsFenced c i _ refl refl (ground arith) (f.busy i) (ground arith) f)

joined :
    (c : Consumer) (i j : ℕ) (is : List ℕ)
    → (c.workers i).done ≡ true
    → (not (eqb j i || contains j is) || (c.workers j).done || contains j is) ≡ true
joined c i j is h = elim (Bool-cases (eqb j i)) [
  | inl e ↦
      let h' = subst (λ k. (c.workers k).done ≡ true) (sym ((eqb_iff j i).0 e)) h in ground arith
  | inr e ↦ ground arith
]

join_next-Kept :
    (by : Caller) (t : Stopping) (c : Consumer)
    → c.calls by ≡ t
    → IsFenced c
    → Kept (join_next by t c)
unfolding join_next
join_next-Kept by idle c e f = tt
join_next-Kept by (selecting ks) c e f = tt
join_next-Kept by (stopping []) c e f = tt
join_next-Kept by (stopping (i ∷ is)) c e f =
    only-Kept ((c.workers i).done && not (c.workers i).owned) _ (λ h.
      call-IsFenced by (stopping is) c.assigned c (λ j. rw e (joined c i j is (ground arith)))
        (ending-set_call by (stopping is) c.calls c.canceled (rw e refl) f.ending) f)

return_from-Kept :
    (by : Caller) (t : Stopping) (c : Consumer)
    → c.calls by ≡ t
    → IsFenced c
    → Kept (return_from by t c)
unfolding return_from
return_from-Kept by idle c e f = tt
return_from-Kept by (selecting ks) c e f = tt
return_from-Kept by (stopping (i ∷ is)) c e f = tt
return_from-Kept by (stopping []) c e f =
    call-IsFenced by idle c.assigned c (λ j. rw e refl)
      (ending-set_call by idle c.calls c.canceled (rw e refl) f.ending) f

step-Kept : (e : Event) (c : Consumer) → IsFenced c → Kept (step e c)
unfolding step
step-Kept (assigns ks) c f = only-Kept (is_idle (c.calls callback)) _ (λ free.
    assign-IsFenced ks (record c { assigned = true }) free
      (recall-IsFenced c c.calls c.canceled true (ground arith) f.ending (λ by i. ground arith) f))
step-Kept (revokes ks) c f = only-Kept (is_idle (c.calls callback)) _ (λ free.
    call-IsFenced callback (selecting (some ks)) c.assigned c
      (λ i. ground (arith, idle-waits i (c.calls callback))) f.ending f)
step-Kept (loses ks) c f = only-Kept (is_idle (c.calls callback)) _ (λ free.
    call-IsFenced callback (selecting (some ks)) false c
      (λ i. ground (arith, idle-waits i (c.calls callback))) f.ending f)
step-Kept ends c f = only-Kept (c.canceled && is_idle (c.calls closing)) _ (λ free.
    call-IsFenced closing (selecting none) c.assigned c
      (λ i. ground (arith, idle-waits i (c.calls closing))) (ground arith) f)
step-Kept (selects by) c f = select_next-Kept by (c.calls by) c refl f
step-Kept (disowns by) c f = disown_next-Kept (c.calls by) c f
step-Kept (joins by) c f = join_next-Kept by (c.calls by) c refl f
step-Kept (returns by) c f = return_from-Kept by (c.calls by) c refl f
step-Kept cancels c f =
    recall-IsFenced c c.calls true c.assigned (ground arith) (ground arith) (λ by i. ground arith) f
step-Kept (initializes i) c f =
    only-Kept (not (c.workers i).done) _
      (λ h. change-IsFenced c i _ refl refl (ground arith) (f.busy i) (ground arith) f)
step-Kept (gives_up i) c f =
    only-Kept (not (c.workers i).done) _
      (λ h. change-IsFenced c i _ refl refl (ground arith) (f.busy i) (ground arith) f)
step-Kept (commit_begins i allowed) c f =
    only-Kept (may_begin c i allowed) _
      (λ h. change-IsFenced c i _ refl refl (ground arith) (ground arith) (ground arith) f)
step-Kept (commit_ends i) c f =
    only-Kept (c.workers i).committing _
      (λ h. change-IsFenced c i _ refl refl (ground arith) refl refl f)
step-Kept (exits i) c f =
    only-Kept (not (c.workers i).committing && not (c.workers i).done) _
      (λ h. change-IsFenced c i _ refl refl (ground arith) (ground arith) (ground arith) f)

run_on-Kept :
    (k : Consumer → Option Consumer) (x : Option Consumer)
    → ((c : Consumer) → IsFenced c → Kept (k c))
    → Kept x
    → Kept (elim x [ none ↦ none | some c ↦ k c ])
run_on-Kept k none h f = tt
run_on-Kept k (some c) h f = h c f

run-Kept : (es : List Event) (c : Consumer) → IsFenced c → Kept (run es c)
unfolding run
run-Kept [] c f = f
run-Kept (e ∷ es) c f = run_on-Kept (run es) (step e c) (run-Kept es) (step-Kept e c f)

pub record IsExclusive (c : Consumer) : Type 0 where
  pub alone :
      (i j : ℕ)
      → i < c.count
      → j < c.count
      → (c.workers i).key ≡ (c.workers j).key
      → (c.workers i).committing ≡ true
      → (c.workers j).committing ≡ true
      → i ≡ j
  pub handed_over :
      is_idle (c.calls callback) ≡ true
      → c.canceled ≡ false
      → (i : ℕ) → i < c.count
      → (c.workers i).registered ≡ false
      → ((c.workers i).done ≡ true) × ((c.workers i).committing ≡ false)

same_key_refl : (a b : PartitionKey) → a ≡ b → same_key a b ≡ true
same_key_refl a b e = subst (λ k. same_key a k ≡ true) e (ground (arith, eq_refl a.topic))

fenced-IsExclusive : (c : Consumer) → IsFenced c → IsExclusive c
fenced-IsExclusive c f = record {
  alone = λ i j below below' key busy busy'. elim (ℕ_cases i j) [
    | inl less ↦ ground (arith, f.apart i j less below' (same_key_refl _ _ key), f.busy i)
    | inr (inl same) ↦ same
    | inr (inr more) ↦
        ground (arith, f.apart j i more below (same_key_refl _ _ (sym key)), f.busy j)
  ];
  handed_over = λ free live i lt gone.
      let h = f.out i lt in
      let b = f.busy i in
      let w = idle-waits i (c.calls callback) free in
      let w' = idle-waits i (c.calls closing) in let e = f.ending in (ground arith, ground arith);
}
  where
    ℕ_cases : (i j : ℕ) → (i < j) ⊎ (i ≡ j) ⊎ (j < i)
    ℕ_cases i j = ground arith

-- However the client calls back, workers start, commit and end, and `Run` comes to its end: two
-- workers of one partition never have a commit under way together; and once a callback has returned
-- and the consumer is not canceled, the workers of the partitions that were taken away have ended
-- and have no commit under way.
pub run-IsExclusive : (es : List Event) (c : Consumer) → run es new ≡ some c → IsExclusive c
run-IsExclusive es c h = fenced-IsExclusive c (
    subst Kept h (
      run-Kept es new (record {
        busy = λ i. refl;
        out = λ i lt. absurd (omega arith);
        apart = λ i j lt below same. absurd (omega arith);
        ending = refl;
      })))
