-- ===== src/Delivery/Retry.antt =====
-- `Retry` of internal/delivery/processor.go. A round that fails goes on only if the fuel lasts.
use postie.Prelude.{
  ℕ, zero, suc, ◌<◌, ◌≡◌, refl, Option, none, some, Option-cases, inl, inr, arith, ◌≢◌,
}
use postie.Delivery.Effects.{Error, Result, ok, err, M, Context, ctx_sleep}

module _ {W A : Type 0} where
  -- The round's last step: the pause, unless the context ends it.
  unfoldable pub after_pause : M W A → W × Option Error → Option (W × Result A)
  after_pause again (w, none) = again w
  after_pause again (w, some e) = some (w, err e)

  after_attempt : M W A → (W → W × Option Error) → Option (W × Result A) → Option (W × Result A)
  unfolding after_pause
  after_attempt again pause none = none
  after_attempt again pause (some (w, ok a)) = some (w, ok a)
  after_attempt again pause (some (w, err e)) = after_pause again (pause w)

  unfoldable pub retry : ℕ → Context W → ℕ → M W A → M W A
  unfolding after_attempt
  retry zero c delay fn w = none
  retry (suc fuel) c delay fn w = elim (c.error w) [
    | some e ↦ some (w, err e)
    | none ↦ after_attempt (retry fuel c delay fn) (ctx_sleep c delay) (fn w)
  ]

  retry_live :
      (fuel : ℕ) (c : Context W) (delay : ℕ) (fn : M W A) (w : W)
      → c.error w ≡ none
      → retry (suc fuel) c delay fn w
        ≡ after_attempt (retry fuel c delay fn) (ctx_sleep c delay) (fn w)
  unfolding retry
  retry_live fuel c delay fn w h = rw (h, retry)

  retry_ended :
      (fuel : ℕ) (c : Context W) (delay : ℕ) (fn : M W A) (w : W) {e : Error}
      → c.error w ≡ some e
      → retry (suc fuel) c delay fn w ≡ some (w, err e)
  unfolding retry
  retry_ended fuel c delay fn w h = rw (h, retry)

-- What holds of a computation's end: `Q` of a success, and of a failure `P` and that the error is
-- the context's own.
module _ {W A : Type 0} (c : Context W) (P : W → Type 0) (Q : W → A → Type 0) where
  abbrev pub Ends : Option (W × Result A) → Type 0
  Ends none = Unit
  Ends (some (w, ok a)) = Q w a
  Ends (some (w, err e)) = P w × (c.error w ≡ some e)

ctx_sleep-error :
    {W : Type 0} (c : Context W) (delay : ℕ) (w : W) {e : Error}
    → (ctx_sleep c delay w).1 ≡ some e
    → c.error (ctx_sleep c delay w).0 ≡ some e
unfolding ctx_sleep
ctx_sleep-error c delay w h = ground arith

module _ {W A : Type 0} (c : Context W) (delay : ℕ) (fn : M W A) (P : W → Type 0)
    (Q : W → A → Type 0)
    (keep : (w w' : W) (e : Error)
      → c.error w ≡ none
      → P w
      → fn w ≡ some (w', err e)
      → P (ctx_sleep c delay w').0)
    (done : (w w' : W) (a : A) → c.error w ≡ none → P w → fn w ≡ some (w', ok a) → Q w' a) where
  after_pause_inv :
      (again : M W A)
      → ((w : W) → P w → Ends c P Q (again w))
      → (w : W) (o : Option Error) → (ctx_sleep c delay w).1 ≡ o
      → P (ctx_sleep c delay w).0
      → Ends c P Q (after_pause again ((ctx_sleep c delay w).0, o))
  unfolding after_pause
  after_pause_inv again ih w none e p = ih _ p
  after_pause_inv again ih w (some x) e p = (p, ctx_sleep-error c delay w e)

  after_attempt_inv :
      (again : M W A)
      → ((w : W) → P w → Ends c P Q (again w))
      → (w : W) (r : Option (W × Result A)) → c.error w ≡ none
      → P w
      → fn w ≡ r
      → Ends c P Q (after_attempt again (ctx_sleep c delay) r)
  unfolding after_attempt
  after_attempt_inv again ih w none live p e = tt
  after_attempt_inv again ih w (some (w', ok a)) live p e = done w w' a live p e
  after_attempt_inv again ih w (some (w', err x)) live p e =
      after_pause_inv again ih w' (ctx_sleep c delay w').1 refl (keep w w' x live p e)

  -- The rule for the loop: `P` at every test of the context, `Q` behind the call that succeeds.
  pub retry_inv : (fuel : ℕ) (w : W) → P w → Ends c P Q (retry fuel c delay fn w)
  unfolding retry
  retry_inv zero w p = tt
  retry_inv (suc fuel) w p = elim (Option-cases (c.error w)) [
    | inl live ↦
        rw (retry_live fuel c delay fn w live)
          (after_attempt_inv (retry fuel c delay fn) (retry_inv fuel) w (fn w) live p refl)
    | inr (e, ended) ↦ rw (retry_ended fuel c delay fn w ended) (p, ended)
  ]

-- `retry` gives up only with the context's own error, and succeeds only by a call of `fn` that
-- succeeds while the context is live.
pub retry_lem :
    {W A : Type 0} (c : Context W) (delay : ℕ) (fn : M W A) (fuel : ℕ) (w : W)
    → Ends c
        (λ _. Unit {0})
        (λ w' a. (w0 : W) × (c.error w0 ≡ none) × (fn w0 ≡ some (w', ok a)))
        (retry fuel c delay fn w)
retry_lem c delay fn fuel w =
    retry_inv c delay fn _ _ (λ w w' e live p h. tt) (λ w w' a live p h. (w, live, h)) fuel w tt

after_pause_total :
    {W A : Type 0} (again : M W A) (w : W) (o : Option Error)
    → (o ≡ none → again w ≢ none)
    → after_pause again (w, o) ≢ none
unfolding after_pause
after_pause_total again w none h = h refl
after_pause_total again w (some e) h = cc

module _ {W A : Type 0} (c : Context W) (delay : ℕ) (fn : M W A) (measure : W → ℕ)
    (returns : (w : W) → fn w ≢ none)
    (falls : (w w' : W) (e : Error)
      → c.error w ≡ none
      → fn w ≡ some (w', err e)
      → (ctx_sleep c delay w').1 ≡ none
      → measure (ctx_sleep c delay w').0 < measure w) where
  after_attempt_total :
      (again : M W A) (w : W)
      → ((w' : W) → measure w' < measure w → again w' ≢ none)
      → c.error w ≡ none
      → (r : Option (W × Result A)) → fn w ≡ r
      → after_attempt again (ctx_sleep c delay) r ≢ none
  unfolding after_attempt
  after_attempt_total again w ih live none e = absurd (returns w e)
  after_attempt_total again w ih live (some (w', ok a)) e = cc
  after_attempt_total again w ih live (some (w', err x)) e =
      after_pause_total again (ctx_sleep c delay w').0 (ctx_sleep c delay w').1
        (λ on. ih _ (falls w w' x live e on))

  -- Fuel above a measure that falls with each failed call is enough: where `fn` returns, so does
  -- `retry`.
  pub retry_total : (fuel : ℕ) (w : W) → measure w < fuel → retry fuel c delay fn w ≢ none
  unfolding retry
  retry_total zero w h = elim h [ ]
  retry_total (suc fuel) w h = elim (Option-cases (c.error w)) [
    | inl live ↦ rw (retry_live fuel c delay fn w live) (
        after_attempt_total (retry fuel c delay fn) w (λ w' lt. retry_total fuel w' (omega arith))
          live (fn w) refl)
    | inr (e, ended) ↦ rw (retry_ended fuel c delay fn w ended) (cc)
  ]
