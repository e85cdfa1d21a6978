-- ===== src/ControlStore/Subscriptions/Observation.antt =====
-- What it means that a subscription is observed: `SubscriptionObserved` of
-- internal/adapters/controlpg/subscriptions.go.
use postie.Prelude.{
  ℕ, String, Bool, true, false, not, ◌&&◌, Option, none, some, List, [], ◌∷◌, ◌==◌, ◌≡◌, inl, inr,
  ◌↔◌, ◌≤◌, refl, sym, any, arith, Bool-cases, eq_iff, ltb, ℤ,
}
use mathlib.Core.Path.{subst}
use mathlib.Core.List.{Memᴰ}
use postie.Stream.{Scope}
use postie.Delivery.Effects.{Result, ok}
use postie.ControlStore.{
  LeaseRow, ObservationRow, Tables, answers, transaction, checked, valid_scope, is_blank, find,
}
use postie.ControlStore.Subscriptions.{
  is_live, lags, lagging, is_observation, subscription_observed,
}

any-witness :
    {R : Type 0} (p : R → Bool) (rows : List R)
    → any p rows ≡ true
    → (r : R) × Memᴰ r rows × (p r ≡ true)
any-witness p [] h = cc
any-witness p (x ∷ rows) h = elim (Bool-cases (p x)) [
  | inl e ↦ (x, Memᴰ.head refl, e)
  | inr e ↦ let (r, i, e') = any-witness p rows (rw e at h) in (r, Memᴰ.tail i, e')
]

any-Mem :
    {R : Type 0} (p : R → Bool) (rows : List R) (r : R)
    → Memᴰ r rows
    → p r ≡ true
    → any p rows ≡ true
any-Mem p [] r i h = elim i [ ]
any-Mem p (x ∷ rows) r (Memᴰ.head e) h = let h' = subst (λ y. p y ≡ true) e h in rw h' refl
any-Mem p (x ∷ rows) r (Memᴰ.tail i) h = let h' = any-Mem p rows r i h in ground arith

any-none :
    {R : Type 0} (p : R → Bool) (rows : List R)
    → ((r : R) → Memᴰ r rows → p r ≡ false)
    → any p rows ≡ false
any-none p [] h = refl
any-none p (x ∷ rows) h = rw (h x (Memᴰ.head refl)) (any-none p rows (λ r i. h r (Memᴰ.tail i)))

any-none_Mem :
    {R : Type 0} (p : R → Bool) (rows : List R) (r : R)
    → any p rows ≡ false
    → Memᴰ r rows
    → p r ≡ false
any-none_Mem p [] r h i = elim i [ ]
any-none_Mem p (x ∷ rows) r h (Memᴰ.head e) = subst (λ y. p y ≡ false) (sym e) (ground arith)
any-none_Mem p (x ∷ rows) r h (Memᴰ.tail i) = any-none_Mem p rows r (ground arith) i

module _ (s : Scope) (now : ℤ) (destination : String) (revision : ℕ) (state : String)
    (t : Tables) where
  -- There is a live lease, and the worker of each has observed the revision and the state.
  pub record IsObserved : Type 0 where
    pub someone : (l : LeaseRow) × Memᴰ l t.leases × (is_live s now l ≡ true)
    pub everyone :
        (l : LeaseRow)
        → Memᴰ l t.leases
        → is_live s now l ≡ true
        → (o : ObservationRow) × (find (is_observation s l.worker_id destination) t.observations
            ≡ some o)
          × (revision ≤ o.revision)
          × (o.state ≡ state)

  true_of : (b : Bool) → ◌≡◌ {A = Tables × Result Bool} (t, ok b) (t, ok true) → b ≡ true
  true_of true h = refl
  true_of false h = cc

  lags-none :
      (x : Option ObservationRow)
      → lags revision state x ≡ false
      → (o : ObservationRow) × (x ≡ some o) × (revision ≤ o.revision) × (o.state ≡ state)
  lags-none none h = cc
  lags-none (some o) h = (o, refl, ground arith, (eq_iff o.state state).0 (ground arith))

  lags-observed :
      (x : Option ObservationRow) (o : ObservationRow)
      → x ≡ some o
      → revision ≤ o.revision
      → o.state ≡ state
      → lags revision state x ≡ false
  lags-observed x o e le same = let e' = (eq_iff o.state state).1 same in rw e (ground arith)

  observed-IsObserved :
      (any (is_live s now) t.leases
          && not (any (lagging s now destination revision state t.observations) t.leases))
        ≡ true
      → IsObserved
  observed-IsObserved h = record {
    someone = any-witness (is_live s now) t.leases (ground arith);
    everyone = λ l i live.
        let quiet =
          any-none_Mem (lagging s now destination revision state t.observations) t.leases l
            (ground arith) i in
        lags-none (find (is_observation s l.worker_id destination) t.observations)
          (rw live at quiet);
  }

  IsObserved-observed :
      IsObserved
      → (any (is_live s now) t.leases
          && not (any (lagging s now destination revision state t.observations) t.leases))
        ≡ true
  IsObserved-observed o =
      let (l, i, live) = o.someone in
      let h = any-Mem (is_live s now) t.leases l i live in
      let h' =
        any-none (lagging s now destination revision state t.observations) t.leases
          (λ l i. quiet o l i) in
      rw (h, h') refl
    where
      quiet :
          IsObserved
          → (l : LeaseRow) → Memᴰ l t.leases
          → lagging s now destination revision state t.observations l ≡ false
      quiet o l i = elim (Bool-cases (is_live s now l)) [
        | inr dead ↦ rw dead refl
        | inl live ↦
            let (x, e, le, same) = o.everyone l i live in
            rw live (
              lags-observed (find (is_observation s l.worker_id destination) t.observations) x e le
                same)
      ]

  -- Where the database answers, the answer is yes exactly if the arguments are valid, the scope has a
  -- live lease, and the worker of every live lease has observed a revision that is not older, with
  -- that state.
  pub subscription_observed-IsObserved :
      (subscription_observed s now destination revision state answers t ≡ (t, ok true))
      ↔ (valid_scope s ≡ true)
        × ((not (destination == "") && ltb 0 revision && not (is_blank state)) ≡ true)
        × IsObserved
  unfolding subscription_observed transaction checked
  subscription_observed-IsObserved = (to, from)
    where
      to :
          subscription_observed s now destination revision state answers t ≡ (t, ok true)
          → (valid_scope s ≡ true)
            × ((not (destination == "") && ltb 0 revision && not (is_blank state)) ≡ true)
            × IsObserved
      to h = elim (Bool-cases (valid_scope s)) [
        | inr bad ↦ let h' = rw bad at h in cc
        | inl good ↦
            elim (Bool-cases (not (destination == "") && ltb 0 revision && not (is_blank state))) [
              | inr bad ↦ let h' = rw (good, bad) at h in cc
              | inl fine ↦ (
                good,
                fine,
                observed-IsObserved (
                    true_of
                      (any (is_live s now) t.leases
                        && not (
                            any (lagging s now destination revision state t.observations) t.leases))
                      (rw (good, fine) at h)),
              )
            ]
      ]

      from :
          (valid_scope s ≡ true)
            × ((not (destination == "") && ltb 0 revision && not (is_blank state)) ≡ true)
            × IsObserved
          → subscription_observed s now destination revision state answers t ≡ (t, ok true)
      from (good, fine, o) = rw (good, fine, IsObserved-observed o) refl
