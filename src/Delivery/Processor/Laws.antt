-- ===== src/Delivery/Processor/Laws.antt =====
-- How `Process` of internal/delivery/processor.go ends, and its fuel.
use postie.Prelude.{
  ℕ, zero, suc, ◌+◌, ◌<◌, ◌≡◌, ◌≢◌, refl, ◌⊎◌, inl, inr, true, false, Option, none, some, arith,
  Bool-cases,
}
use postie.Stream.{Record}
use postie.Protocol.{Envelope, matches_filter}
use postie.Delivery.Effects.{Error, Result, ok, err}
use postie.Delivery.Retry.{after_pause}
use postie.Delivery.Backoff.{backoff, jitter_bound}
use postie.Delivery.Processor.{
  Outcome, filtered, Processor, envelope_for, marshal, after_send, attempts, process_body, process,
}

module _ {W : Type 0} (p : Processor W) (observe : ℕ → Option Error → W → W) (r : Record) where
  -- An outcome is the sender's answer to an attempt, observed as one without an error.
  pub record IsAnswered (body : Envelope) (w' : W) (o : Outcome) : Type 0 where
    pub before : W
    pub behind : W
    pub attempt : ℕ
    pub sent : p.send r body before ≡ (behind, ok o)
    pub observed : w' ≡ observe attempt none behind

  -- An error is that of a pause.
  pub record IsInterrupted (w' : W) (e : Error) : Type 0 where
    pub before : W
    pub delay : ℕ
    pub paused : p.sleep delay before ≡ (w', some e)

  abbrev pub IsSettled : Envelope → Option (W × Result Outcome) → Type 0
  IsSettled body none = Unit
  IsSettled body (some (w', ok o)) = IsAnswered body w' o
  IsSettled body (some (w', err e)) = IsInterrupted w' e

  after_pause-IsSettled :
      (body : Envelope) (again : W → Option (W × Result Outcome))
      → ((w : W) → IsSettled body (again w))
      → (delay : ℕ) (w : W) (x : W × Option Error) → p.sleep delay w ≡ x
      → IsSettled body (after_pause again x)
  unfolding after_pause
  after_pause-IsSettled body again ih delay w (w', none) e = ih w'
  after_pause-IsSettled body again ih delay w (w', some y) e = record {
    before = w;
    delay = delay;
    paused = e;
  }

  after_send-IsSettled :
      (body : Envelope) (again : W → Option (W × Result Outcome))
      → ((w : W) → IsSettled body (again w))
      → (attempt : ℕ) (w : W) (x : W × Result Outcome) → p.send r body w ≡ x
      → IsSettled body (after_send p observe again attempt x)
  unfolding after_send
  after_send-IsSettled body again ih attempt w (w', ok o) e = record {
    before = w;
    behind = w';
    attempt = attempt;
    sent = e;
    observed = refl;
  }
  after_send-IsSettled body again ih attempt w (w', err y) e =
      let (w2, j) = p.jitter (jitter_bound attempt) (observe attempt (some y) w') in
      after_pause-IsSettled body again ih (backoff attempt j) w2 (p.sleep (backoff attempt j) w2)
        refl

  attempts-IsSettled :
      (fuel : ℕ) (body : Envelope) (attempt : ℕ) (w : W)
      → IsSettled body (attempts p observe fuel r body attempt w)
  unfolding attempts
  attempts-IsSettled zero body attempt w = tt
  attempts-IsSettled (suc fuel) body attempt w =
      after_send-IsSettled body (attempts p observe fuel r body (attempt + 1))
        (attempts-IsSettled fuel body (attempt + 1)) attempt w (p.send r body w) refl

  -- The four ways out of `process`.
  abbrev pub Processed : W → Option (W × Result Outcome) → Type 0
  Processed w none = Unit
  Processed w (some (w', ok o)) =
      (matches_filter p.destination.filter r.payload ≡ false) × (o ≡ filtered) × (w' ≡ w)
      ⊎ (body : Envelope) × (matches_filter p.destination.filter r.payload ≡ true)
        × (marshal (envelope_for r p.destination) ≡ ok body)
        × IsAnswered body w' o
  Processed w (some (w', err e)) =
      (matches_filter p.destination.filter r.payload ≡ true)
        × (marshal (envelope_for r p.destination) ≡ err e)
        × (w' ≡ w)
      ⊎ (body : Envelope) × (matches_filter p.destination.filter r.payload ≡ true)
        × (marshal (envelope_for r p.destination) ≡ ok body)
        × IsInterrupted w' e

  process_body_settled :
      (fuel : ℕ) (w : W) (m : Result Envelope)
      → matches_filter p.destination.filter r.payload ≡ true
      → marshal (envelope_for r p.destination) ≡ m
      → Processed w (process_body p observe fuel r m w)
  unfolding process_body
  process_body_settled fuel w (err e) matched k = inl (matched, k, refl)
  process_body_settled fuel w (ok body) matched k =
      settled (attempts p observe fuel r body 0 w) (attempts-IsSettled fuel body 0 w)
    where
      settled : (x : Option (W × Result Outcome)) → IsSettled body x → Processed w x
      settled none h = tt
      settled (some (w', ok o)) h = inr (body, matched, k, h)
      settled (some (w', err e)) h = inr (body, matched, k, h)

  -- `process` ends in one of four ways: `filtered` with nothing done, exactly when the filter drops
  -- the record; for a record that the filter keeps, the error of an envelope that cannot be encoded,
  -- with nothing done; an outcome that the sender answered to an attempt with the encoded envelope,
  -- and that was observed; or the error of a pause. The error of an attempt never ends it.
  pub process-Processed : (fuel : ℕ) (w : W) → Processed w (process p observe fuel r w)
  unfolding process
  process-Processed fuel w = elim (Bool-cases (matches_filter p.destination.filter r.payload)) [
    | inl matched ↦
        rw (matched, process)
          (process_body_settled fuel w (marshal (envelope_for r p.destination)) matched refl)
    | inr dropped ↦ rw (dropped, process) (inl (dropped, refl, refl))
  ]

  -- The world behind a failed attempt and its pause.
  abbrev pub paused : ℕ → Error → W → W × Option Error
  paused attempt e w =
      let (w', j) = p.jitter (jitter_bound attempt) (observe attempt (some e) w) in
      p.sleep (backoff attempt j) w'

  module _ (measure : W → ℕ)
      (falls : (body : Envelope) (attempt : ℕ) (w w' w'' : W) (e : Error)
        → p.send r body w ≡ (w', err e)
        → paused attempt e w' ≡ (w'', none)
        → measure w'' < measure w) where
    pause_total :
        (again : W → Option (W × Result Outcome)) (bound : ℕ)
        → ((w : W) → measure w < bound → again w ≢ none)
        → (x : W × Option Error) → ((w'' : W) → x ≡ (w'', none) → measure w'' < bound)
        → after_pause again x ≢ none
    unfolding after_pause
    pause_total again bound ih (w, none) h = ih w (h w refl)
    pause_total again bound ih (w, some e) h = cc

    send_total :
        (body : Envelope) (again : W → Option (W × Result Outcome)) (attempt : ℕ) (w : W)
        → ((w' : W) → measure w' < measure w → again w' ≢ none)
        → (x : W × Result Outcome) → p.send r body w ≡ x
        → after_send p observe again attempt x ≢ none
    unfolding after_send
    send_total body again attempt w ih (w', ok o) e = cc
    send_total body again attempt w ih (w', err y) e =
        pause_total again (measure w) ih (paused attempt y w')
          (λ w'' h. falls body attempt w w' w'' y e h)

    attempts_total :
        (body : Envelope) (fuel attempt : ℕ) (w : W)
        → measure w < fuel
        → attempts p observe fuel r body attempt w ≢ none
    unfolding attempts
    attempts_total body zero attempt w h = elim h [ ]
    attempts_total body (suc fuel) attempt w h =
        send_total body (attempts p observe fuel r body (attempt + 1)) attempt w
          (λ w' lt. attempts_total body fuel (attempt + 1) w' (omega arith)) (p.send r body w) refl

    -- Where a measure of the world falls with each failed attempt whose pause is not cut short,
    -- fuel above it is enough: `process` ends.
    pub process_total : (fuel : ℕ) (w : W) → measure w < fuel → process p observe fuel r w ≢ none
    unfolding process process_body
    process_total fuel w h = elim (Bool-cases (matches_filter p.destination.filter r.payload)) [
      | inl matched ↦ rw (matched, process) (body_total (marshal (envelope_for r p.destination)))
      | inr dropped ↦ rw (dropped, process) (cc)
    ]
      where
        body_total : (m : Result Envelope) → process_body p observe fuel r m w ≢ none
        body_total (ok body) = attempts_total body fuel 0 w h
        body_total (err e) = cc
