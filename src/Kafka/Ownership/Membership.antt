-- ===== src/Kafka/Ownership/Membership.antt =====
-- The steps that take workers into the map and out of it keep the fence.
use postie.Prelude.{
  ℕ, zero, suc, ◌<◌, Bool, true, false, not, ◌&&◌, ◌||◌, Option, List, [], ◌∷◌, ◌≡◌, refl, sym, inl,
  inr, if◌then◌else◌, eqb, eqb_iff, arith, Bool-cases,
}
use mathlib.Core.Path.{subst, subst₂}
use postie.Kafka.Ownership.{
  PartitionKey, same_key, WorkerState, Stopping, stopping, Caller, callback, closing, Consumer,
  is_idle, set_call, set_worker, is_registered, new_worker, start, assign, is_taken, stopped, taken,
  select,
}
use postie.Kafka.Ownership.Fence.{contains, waits, IsFenced, idle-waits, set_worker-post}

is_registered-other :
    (k : PartitionKey) (ws : ℕ → WorkerState) (n i : ℕ)
    → is_registered k ws n ≡ false
    → i < n
    → ((ws i).registered && same_key (ws i).key k) ≡ false
unfolding is_registered
is_registered-other k ws zero i h lt = absurd (omega arith)
is_registered-other k ws (suc n) i h lt = elim (Bool-cases (eqb i n)) [
  | inl e ↦
      subst (λ j. ((ws j).registered && same_key (ws j).key k) ≡ false) (sym ((eqb_iff i n).0 e))
        (ground arith)
  | inr e ↦ is_registered-other k ws n i (ground arith) (ground (arith, eqb_iff i n))
]

module _ (k : PartitionKey) (c : Consumer) (free : is_idle (c.calls callback) ≡ true)
    (absent : is_registered k c.workers c.count ≡ false) where
  start-apart :
      IsFenced c
      → (i j : ℕ) → i < j
      → j < suc c.count
      → same_key ((start k c).workers i).key ((start k c).workers j).key ≡ true
      → (((start k c).workers i).done || (c.canceled && not ((start k c).workers j).committing))
        ≡ true
  start-apart f i j lt below =
      set_worker-post
        (λ i x.
          i < j
          → same_key x.key (set_worker c.count (new_worker k) c.workers j).key ≡ true
          → (x.done
              || (c.canceled && not (set_worker c.count (new_worker k) c.workers j).committing))
            ≡ true)
        c.count (new_worker k) c.workers (λ lt. absurd (omega arith))
        (λ i other lt.
          set_worker-post
            (λ j x.
              i < j
              → j < suc c.count
              → same_key (c.workers i).key x.key ≡ true
              → ((c.workers i).done || (c.canceled && not x.committing)) ≡ true)
            c.count (new_worker k) c.workers
            (λ lt' b same. ground (
              arith,
              f.out i lt',
              f.ending,
              idle-waits i (c.calls callback) free,
              idle-waits i (c.calls closing),
              is_registered-other k c.workers c.count i absent lt',
            ))
            (λ j other' lt' b same. f.apart i j lt' (ground (arith, eqb_iff j c.count)) same) j lt
            below)
        i lt

  start-IsFenced : IsFenced c → IsFenced (start k c)
  start-IsFenced f = record {
    busy =
        set_worker-post (λ i x. (not x.committing || not x.done) ≡ true) c.count (new_worker k)
          c.workers refl (λ i other. f.busy i);
    out =
        set_worker-post
          (λ i x.
            i < suc c.count
            → (x.registered || x.done || waits i (c.calls callback) || waits i (c.calls closing))
              ≡ true)
          c.count (new_worker k) c.workers (λ lt. refl)
          (λ i other lt. f.out i (ground (arith, eqb_iff i c.count)));
    apart = start-apart f;
    ending = f.ending;
  }

pub assign-IsFenced :
    (ks : List PartitionKey) (c : Consumer)
    → is_idle (c.calls callback) ≡ true
    → IsFenced c
    → IsFenced (assign ks c)
unfolding assign
assign-IsFenced [] c free f = f
assign-IsFenced (k ∷ ks) c free f = elim (Bool-cases (is_registered k c.workers c.count)) [
  | inl there ↦ rw there (assign-IsFenced ks c free f)
  | inr absent ↦ rw absent (assign-IsFenced ks (start k c) free (start-IsFenced k c free absent f))
]

contains-taken :
    (ks : Option (List PartitionKey)) (ws : ℕ → WorkerState) (n i : ℕ)
    → i < n
    → is_taken ks (ws i) ≡ true
    → contains i (taken ks ws n) ≡ true
unfolding taken
contains-taken ks ws zero i lt h = absurd (omega arith)
contains-taken ks ws (suc n) i lt h = elim (Bool-cases (eqb i n)) [
  | inl e ↦ let h' = subst (λ j. is_taken ks (ws j) ≡ true) ((eqb_iff i n).0 e) h in ground arith
  | inr e ↦ let ih = contains-taken ks ws n i (ground (arith, eqb_iff i n)) h in ground arith
]

module _ (by : Caller) (ks : Option (List PartitionKey)) (c : Consumer) where
  abbrev chosen : WorkerState → WorkerState
  chosen w = if is_taken ks w then stopped w else w

  chosen-key : (w : WorkerState) → (chosen w).key ≡ w.key
  chosen-key w = elim (Bool-cases (is_taken ks w)) [ inl e ↦ rw e refl | inr e ↦ rw e refl ]

  chosen-done : (w : WorkerState) → (chosen w).done ≡ w.done
  chosen-done w = elim (Bool-cases (is_taken ks w)) [ inl e ↦ rw e refl | inr e ↦ rw e refl ]

  chosen-committing : (w : WorkerState) → (chosen w).committing ≡ w.committing
  chosen-committing w = elim (Bool-cases (is_taken ks w)) [ inl e ↦ rw e refl | inr e ↦ rw e refl ]

  chosen-registered :
      (w : WorkerState) → (not w.registered || is_taken ks w || (chosen w).registered) ≡ true
  chosen-registered w = elim (Bool-cases (is_taken ks w)) [
    | inl e ↦ ground arith
    | inr e ↦ ground arith
  ]

  chosen-waits :
      (i : ℕ)
      → i < c.count
      → is_taken ks (c.workers i) ≡ true
      → (waits i (set_call by (stopping (taken ks c.workers c.count)) c.calls callback)
          || waits i (set_call by (stopping (taken ks c.workers c.count)) c.calls closing))
        ≡ true
  chosen-waits i lt h =
      elim by
        as (λ by.
          (waits i (set_call by (stopping (taken ks c.workers c.count)) c.calls callback)
            || waits i (set_call by (stopping (taken ks c.workers c.count)) c.calls closing))
          ≡ true) [
            | callback ↦ ground (arith, contains-taken ks c.workers c.count i lt h)
            | closing ↦ ground (arith, contains-taken ks c.workers c.count i lt h)
          ]

waits-set_call :
    (by : Caller) (t : Stopping) (calls : Caller → Stopping) (i : ℕ)
    → waits i (calls by) ≡ false
    → (waits i (calls callback) || waits i (calls closing)) ≡ true
    → (waits i (set_call by t calls callback) || waits i (set_call by t calls closing)) ≡ true
waits-set_call callback t calls i h e = ground arith
waits-set_call closing t calls i h e = ground arith

pub ending-set_call :
    (by : Caller) (t : Stopping) (calls : Caller → Stopping) (canceled : Bool)
    → is_idle (calls by) ≡ false
    → (is_idle (calls closing) || canceled) ≡ true
    → (is_idle (set_call by t calls closing) || canceled) ≡ true
ending-set_call callback t calls canceled h e = e
ending-set_call closing t calls canceled h e = ground arith

module _ (by : Caller) (ks : Option (List PartitionKey)) (c : Consumer)
    (busy : is_idle (c.calls by) ≡ false) (waiting : (i : ℕ) → waits i (c.calls by) ≡ false) where
  pub select-IsFenced : IsFenced c → IsFenced (select by ks c)
  unfolding select
  select-IsFenced f = record {
    busy = λ i. ground (
      arith,
      f.busy i,
      chosen-done by ks c (c.workers i),
      chosen-committing by ks c (c.workers i),
    );
    out = λ i lt. elim (Bool-cases (is_taken ks (c.workers i))) [
      | inl e ↦ ground (arith, chosen-waits by ks c i lt e)
      | inr e ↦ ground (
        arith,
        f.out i lt,
        waits-set_call by (stopping (taken ks c.workers c.count)) c.calls i (waiting i),
      )
    ];
    apart = λ i j lt below same.
        let same' =
          subst₂ (λ k l. same_key k l ≡ true) (chosen-key by ks c (c.workers i))
            (chosen-key by ks c (c.workers j)) same in
        ground (
          arith,
          f.apart i j lt below same',
          chosen-done by ks c (c.workers i),
          chosen-committing by ks c (c.workers j),
        );
    ending =
        ending-set_call by (stopping (taken ks c.workers c.count)) c.calls c.canceled busy f.ending;
  }
