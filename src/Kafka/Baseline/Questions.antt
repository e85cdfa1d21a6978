-- ===== src/Kafka/Baseline/Questions.antt =====
-- The questions of an attempt, in their order, and a rule for them.
use postie.Prelude.{String, false, Option, none, some, ◌≡◌, ◌⊎◌, inl, inr, refl, ℤ, Bool-cases}
use postie.Delivery.Effects.{Error, Result, ok, err, M, ◌>>◌, bind_result}
use postie.Kafka.Baseline.{IsUseless, IsBroken, AreUseless}
use postie.Kafka.{
  Offset, Offsets, PartitionWorker, Local, call, available, readable, set_horizon, settle, attempt,
}

module _ {W : Type 0} (p : PartitionWorker W) where
  -- Rules for the steps of `attempt`.
  module _ {A : Type 0} (P : Option (Local W × Result (Unit {0})) → Type 0) where
    pub call-post :
        (f : W → W × Result A) (k : A → M (Local W) (Unit {0})) (s : Local W)
        → ((w : W) (a : A) → f s.1 ≡ (w, ok a) → P (k a (s.0, w)))
        → ((w : W) (e : Error) → f s.1 ≡ (w, err e) → P (some ((s.0, w), err e)))
        → P (bind_result k (call p f s))
    unfolding call
    call-post f k s good bad = called (f s.1) refl
      where
        called : (x : W × Result A) → f s.1 ≡ x → P (bind_result k (some ((s.0, x.0), x.1)))
        called (w, ok a) e = good w a e
        called (w, err x) e = bad w x e

  module _ (P : Option (Local W × Result (Unit {0})) → Type 0) where
    available-post :
        (what : String) (o : Option Offset) (k : ℤ → M (Local W) (Unit {0})) (s : Local W)
        → ((x : ℤ) → o ≡ some (record { at = x; failed = false }) → P (k x s))
        → ((e : Error) → IsUseless o → P (some (s, err e)))
        → P (bind_result k (available p what o s))
    unfolding available
    available-post what none k s good bad = bad _ tt
    available-post what (some o) k s good bad = elim (Bool-cases o.failed) [
      | inl broken ↦ rw broken (bad _ broken)
      | inr fine ↦ rw fine (good o.at (λ i. some (record { at = o.at; failed = fine i })))
    ]

    readable-post :
        (o : Option Offset) (k : Option ℤ → M (Local W) (Unit {0})) (s : Local W)
        → (o ≡ none → P (k none s))
        → ((x : ℤ) → o ≡ some (record { at = x; failed = false }) → P (k (some x) s))
        → ((e : Error) → IsBroken o → P (some (s, err e)))
        → P (bind_result k (readable p o s))
    unfolding readable
    readable-post none k s absent good bad = absent refl
    readable-post (some o) k s absent good bad = elim (Bool-cases o.failed) [
      | inl broken ↦ rw broken (bad _ broken)
      | inr fine ↦ rw fine (good o.at (λ i. some (record { at = o.at; failed = fine i })))
    ]

  abbrev pub concluded : ℤ → ℤ → Option ℤ → M (Local W) (Unit {0})
  concluded first last offset s =
      bind_result
        (λ started.
          settle p first last offset started
          >> call p (p.outside.mark_partition_started p.scope p.destination p.topic p.partition))
        (call p (p.outside.partition_started p.scope p.destination p.topic p.partition) s)

  abbrev read : Offsets → ℤ → ℤ → M (Local W) (Unit {0})
  read committed first last s =
      bind_result (concluded first last) (readable p (committed p.topic p.partition) (last, s.1))

  abbrev measured : Offsets → Offsets → Offsets → M (Local W) (Unit {0})
  measured committed start end s =
      bind_result
        (λ first s'.
          bind_result (read committed first)
            (available p "partition end unavailable" (end p.topic p.partition) s'))
        (available p "partition start unavailable" (start p.topic p.partition) s)

  abbrev listed : Offsets → Offsets → M (Local W) (Unit {0})
  listed committed start s =
      bind_result (measured committed start) (call p (p.outside.list_end p.topic) s)

  abbrev fetched : Offsets → M (Local W) (Unit {0})
  fetched committed s = bind_result (listed committed) (call p (p.outside.list_start p.topic) s)

  -- The rule for the questions of an attempt.
  module _ (P : Option (Local W × Result (Unit {0})) → Type 0) (w : W)
      (fetch_fails : (w1 : W) (h : ℤ) (e : Error)
        → p.outside.fetch_offsets p.group w ≡ (w1, err e)
        → P (some ((h, w1), err e)))
      (start_fails : (w1 w2 : W) (committed : Offsets) (h : ℤ) (e : Error)
        → p.outside.fetch_offsets p.group w ≡ (w1, ok committed)
        → p.outside.list_start p.topic w1 ≡ (w2, err e)
        → P (some ((h, w2), err e)))
      (end_fails : (w1 w2 w3 : W) (committed start : Offsets) (h : ℤ) (e : Error)
        → p.outside.fetch_offsets p.group w ≡ (w1, ok committed)
        → p.outside.list_start p.topic w1 ≡ (w2, ok start)
        → p.outside.list_end p.topic w2 ≡ (w3, err e)
        → P (some ((h, w3), err e)))
      (no_use : (w1 w2 w3 : W) (committed start end : Offsets) (h : ℤ) (e : Error)
        → p.outside.fetch_offsets p.group w ≡ (w1, ok committed)
        → p.outside.list_start p.topic w1 ≡ (w2, ok start)
        → p.outside.list_end p.topic w2 ≡ (w3, ok end)
        → AreUseless
            (committed p.topic p.partition)
            (start p.topic p.partition)
            (end p.topic p.partition)
        → P (some ((h, w3), err e))) where
    pub attempt-post :
        (h : ℤ)
        → ((first last : ℤ) (w1 w2 w3 : W) (committed start end : Offsets)
            → p.outside.fetch_offsets p.group w ≡ (w1, ok committed)
            → p.outside.list_start p.topic w1 ≡ (w2, ok start)
            → p.outside.list_end p.topic w2 ≡ (w3, ok end)
            → start p.topic p.partition ≡ some (record { at = first; failed = false })
            → end p.topic p.partition ≡ some (record { at = last; failed = false })
            → (offset : Option ℤ)
            → ((committed p.topic p.partition ≡ none) × (offset ≡ none)
                ⊎ ((at : ℤ) × (committed p.topic p.partition
                      ≡ some (record { at = at; failed = false }))
                    × (offset ≡ some at)))
            → P (concluded first last offset (last, w3)))
        → P (attempt p (h, w))
    unfolding attempt set_horizon
    attempt-post h good =
        call-post P (p.outside.fetch_offsets p.group) fetched (h, w)
          (λ w1 committed e1.
            call-post P (p.outside.list_start p.topic) (listed committed) (h, w1)
              (λ w2 start e2.
                call-post P (p.outside.list_end p.topic) (measured committed start) (h, w2)
                  (λ w3 end e3.
                    available-post P "partition start unavailable" (start p.topic p.partition)
                      (λ first s'.
                        bind_result (read committed first)
                          (available p "partition end unavailable" (end p.topic p.partition) s'))
                      (h, w3)
                      (λ first f1.
                        available-post P "partition end unavailable" (end p.topic p.partition)
                          (read committed first) (h, w3)
                          (λ last f2.
                            let known =
                              good first last w1 w2 w3 committed start end e1 e2 e3 f1 f2 in
                            readable-post P (committed p.topic p.partition) (concluded first last)
                              (last, w3) (λ f3. known none (inl (f3, refl)))
                              (λ at f3. known (some at) (inr (at, f3, refl)))
                              (λ e x.
                                no_use w1 w2 w3 committed start end last e e1 e2 e3 (inr (inr x))))
                          (λ e x. no_use w1 w2 w3 committed start end h e e1 e2 e3 (inr (inl x))))
                      (λ e x. no_use w1 w2 w3 committed start end h e e1 e2 e3 (inl x)))
                  (λ w3 e x. end_fails w1 w2 w3 committed start h e e1 e2 x))
              (λ w2 e x. start_fails w1 w2 committed h e e1 x))
          (λ w1 e x. fetch_fails w1 h e x)
