-- ===== src/Control/Reconcile/Stops.antt =====
-- What `stopAll` of internal/control/reconcile.go does to the consumers and to the world.
use postie.Prelude.{
  ℕ, ◌≡◌, refl, ◌⊎◌, inl, inr, none, some, List, [], ◌∷◌, Dict, All, arith, Option-cases,
}
use postie.Control.{Subscription}
use postie.Control.Outside.{Outside, State}
use postie.Control.Reconcile.{consumers, detach, detach_all, cancel_all, wait_all, stop_all}

-- The consumers of the subscriptions, one behind the other.
abbrev pub Holds : Dict Subscription → List ℕ → Type 0
Holds [] cs = cs ≡ []
Holds ((k, x) ∷ m) cs =
    (x.consumer ≡ none) × Holds m cs
    ⊎ ((c : ℕ) × (rest : List ℕ) × (x.consumer ≡ some c) × (cs ≡ c ∷ rest) × Holds m rest)

-- No subscription has a consumer.
abbrev pub AreFree : Dict Subscription → Type 0
AreFree m = All (λ p. p.1.consumer ≡ none) m

consumers-Holds : (m : Dict Subscription) → Holds m (consumers m)
unfolding consumers
consumers-Holds [] = refl
consumers-Holds ((k, x) ∷ m) = elim (Option-cases x.consumer) [
  | inl absent ↦ inl (absent, rw absent (consumers-Holds m))
  | inr (c, has) ↦ inr (c, consumers m, has, rw (has, consumers) refl, consumers-Holds m)
]

detach-free : (x : Subscription) → (detach x).consumer ≡ none
unfolding detach
detach-free x = ground arith

pub detach_all-AreFree : (m : Dict Subscription) → AreFree (detach_all m)
unfolding detach_all
detach_all-AreFree [] = tt
detach_all-AreFree ((k, x) ∷ m) = (detach-free x, detach_all-AreFree m)

module _ {W : Type 0} (o : Outside W) where
  -- The calls that cancel these consumers, in this order.
  pub data Cancels : List ℕ → W → W → Type 0 where
    done : {w : W} → Cancels [] w w
    next : {c : ℕ} {cs : List ℕ} {w w' : W} → Cancels cs (o.cancel c w) w' → Cancels (c ∷ cs) w w'

  -- The calls that wait for the end of these consumers, in this order.
  pub data Waits : List ℕ → W → W → Type 0 where
    done : {w : W} → Waits [] w w
    next : {c : ℕ} {cs : List ℕ} {w w' : W} → Waits cs (o.stop c w) w' → Waits (c ∷ cs) w w'

  -- Every consumer of these subscriptions is cancelled, and then every one has ended.
  pub record AreStopped (m : Dict Subscription) (w w' : W) : Type 0 where
    pub all : List ℕ
    pub between : W
    pub held : Holds m all
    pub canceled : Cancels all w between
    pub ended : Waits all between w'

  cancel_all-Cancels : (cs : List ℕ) (w : W) → Cancels cs w (cancel_all o cs w)
  unfolding cancel_all
  cancel_all-Cancels [] w = done
  cancel_all-Cancels (c ∷ cs) w = next (cancel_all-Cancels cs (o.cancel c w))

  wait_all-Waits : (cs : List ℕ) (w : W) → Waits cs w (wait_all o cs w)
  unfolding wait_all
  wait_all-Waits [] w = done
  wait_all-Waits (c ∷ cs) w = next (wait_all-Waits cs (o.stop c w))

  pub stop_all-AreStopped : (st : State W) → AreStopped st.0.subscriptions st.1 (stop_all o st).1
  unfolding stop_all
  stop_all-AreStopped (s, w) =
      let cs = consumers s.subscriptions in
      record {
        all = cs;
        between = cancel_all o cs w;
        held = consumers-Holds s.subscriptions;
        canceled = cancel_all-Cancels cs w;
        ended = wait_all-Waits cs (cancel_all o cs w);
      }

  pub stop_all-AreFree : (st : State W) → AreFree (stop_all o st).0.subscriptions
  unfolding stop_all
  stop_all-AreFree (s, w) = detach_all-AreFree s.subscriptions
