-- ===== src/Delivery/Worker/Ordering.antt =====
-- The order of the side effects in `completeRecord` (internal/delivery/worker.go): every action leaves
-- a note, and the automaton `step` reads the notes.
use postie.Prelude.{
  ℕ, ◌≡◌, ◌≢◌, ◌∙◌, ap, refl, Bool, true, false, Option, none, some, List, [], ◌∷◌, arith,
  if◌then◌else◌,
}
use postie.Delivery.Effects.{Error, Result, ok, err, M, Context, ctx_sleep, bind_result}
use postie.Delivery.Retry.{retry, Ends, retry_inv}
use postie.Delivery.Processor.{Outcome, delivered, filtered, skipped}
use postie.Delivery.Worker.{RecordActions, audit_if, send_unless, complete_record}

pub data Event : Type 0 where
  checked : Result Bool → Event
  sent : Result Outcome → Event
  audited committed : Result (Unit {0}) → Event

-- `settled`: the offset may advance. `broken`: an action came out of order.
pub data Phase : Type 0 where
  checking unsent unaudited settled finished stopped broken : Phase

abbrev pub step : Phase → Event → Phase
step checking (checked (err e)) = checking
step checking (checked (ok true)) = settled
step checking (checked (ok false)) = unsent
step unsent (sent (err e)) = stopped
step unsent (sent (ok skipped)) = unaudited
step unsent (sent (ok _)) = settled
step unaudited (audited (err e)) = unaudited
step unaudited (audited (ok _)) = settled
step settled (committed (err e)) = settled
step settled (committed (ok _)) = finished
step _ _ = broken

-- The notes, the last one first.
abbrev pub phase : List Event → Phase
phase [] = checking
phase (e ∷ notes) = step (phase notes) e

abbrev pub Noted : Type 0 → Type 0
Noted W = W × List Event

module _ {W : Type 0} where
  abbrev note :
      {A : Type 0}
      → (Result A → Event)
      → List Event
      → Option (W × Result A)
      → Option (Noted W × Result A)
  note f notes none = none
  note f notes (some (w, x)) = some ((w, f x ∷ notes), x)

  abbrev noting : {A : Type 0} → (Result A → Event) → M W A → M (Noted W) A
  noting f m s = note f s.1 (m s.0)

  -- The context does not see the notes.
  abbrev pub noted_context : Context W → Context (Noted W)
  noted_context c = record {
    error = λ s. c.error s.0;
    wait = λ delay s. (((c.wait delay s.0).0, s.1), (c.wait delay s.0).1);
  }

  abbrev pub noted_actions : RecordActions W → RecordActions (Noted W)
  noted_actions a = record {
    skipped = noting checked a.skipped;
    send = noting sent a.send;
    audit = noting audited a.audit;
    commit = noting committed a.commit;
  }

  abbrev pub In : Phase → Noted W → Type 0
  In p s = phase s.1 ≡ p

  -- A failed round keeps the notes' phase over its pause.
  paused_notes :
      (c : Context W) (delay : ℕ) (s : Noted W) → (ctx_sleep (noted_context c) delay s).0.1 ≡ s.1
  unfolding ctx_sleep
  paused_notes c delay s = ground arith

  note_lem :
      {A : Type 0} (f : Result A → Event) (notes : List Event) (x : Option (W × Result A))
      (s : Noted W) (r : Result A)
      → note f notes x ≡ some (s, r)
      → s.1 ≡ f r ∷ notes
  note_lem f notes none s r h = cc
  note_lem f notes (some (w, y)) s r h = ground arith

module _ {W : Type 0} (fuel : ℕ) (c : Context W) (delay : ℕ) where
  noted_retry :
      {A : Type 0} (f : Result A → Event) (m : M W A) (p : Phase) (q : A → Phase)
      → ((e : Error) → step p (f (err e)) ≡ p)
      → ((a : A) → step p (f (ok a)) ≡ q a)
      → (s : Noted W) → phase s.1 ≡ p
      → Ends
          (noted_context c)
          (In p)
          (λ s' a. phase s'.1 ≡ q a)
          (retry fuel (noted_context c) delay (noting f m) s)
  noted_retry f m p q failing passing s h =
      retry_inv (noted_context c) delay (noting f m) (In p) (λ s' a. phase s'.1 ≡ q a)
        (λ s s' e live at r.
          ap phase (paused_notes c delay s')
          ∙ ap phase (note_lem f s.1 (m s.0) s' (err e) r)
          ∙ ap (λ t. step t (f (err e))) at
          ∙ failing e)
        (λ s s' a live at r.
          ap phase (note_lem f s.1 (m s.0) s' (ok a) r)
          ∙ ap (λ t. step t (f (ok a))) at
          ∙ passing a)
        fuel s h

  -- How a run may end: the commit was the last action and succeeded, or the run stopped in order.
  abbrev pub InOrder : Option (Noted W × Result (Unit {0})) → Type 0
  InOrder none = Unit
  InOrder (some (s, ok x)) = phase s.1 ≡ finished
  InOrder (some (s, err e)) = (phase s.1 ≢ finished) × (phase s.1 ≢ broken)

  -- A stage that may end in phase `p` by an error, and goes on in phase `q` by a result.
  stage_order :
      {A : Type 0} (p : Phase) (q : A → Phase) (f : A → M (Noted W) (Unit {0}))
      → p ≢ finished
      → p ≢ broken
      → ((s : Noted W) (a : A) → phase s.1 ≡ q a → InOrder (f a s))
      → (x : Option (Noted W × Result A)) → Ends (noted_context c) (In p) (λ s a. phase s.1 ≡ q a) x
      → InOrder (bind_result f x)
  stage_order p q f nf nb go none k = tt
  stage_order p q f nf nb go (some (s, ok a)) k = go s a k
  stage_order p q f nf nb go (some (s, err e)) k = (rw k.0 nf, rw k.0 nb)

  commit_order :
      (a : RecordActions W) (s : Noted W)
      → phase s.1 ≡ settled
      → InOrder (retry fuel (noted_context c) delay (noting committed a.commit) s)
  commit_order a s h =
      ends (retry fuel (noted_context c) delay (noting committed a.commit) s)
        (noted_retry committed a.commit settled (λ _. finished) (λ e. refl) (λ x. refl) s h)
    where
      ends :
          (x : Option (Noted W × Result (Unit {0})))
          → Ends (noted_context c) (In settled) (λ s' x. phase s'.1 ≡ finished) x
          → InOrder x
      ends none k = tt
      ends (some (s', ok x)) k = k
      ends (some (s', err e)) k = (rw k.0 (cc), rw k.0 (cc))

  -- Where the send leaves the phase.
  abbrev sent_phase : Outcome → Phase
  sent_phase skipped = unaudited
  sent_phase _ = settled

  module _ (a : RecordActions W) where
    rest : M (Noted W) (Unit {0})
    rest = retry fuel (noted_context c) delay (noting committed a.commit)

    send_order :
        (s : Noted W) (x : Option (W × Result Outcome))
        → phase s.1 ≡ unsent
        → InOrder (
            bind_result
              (λ _. rest)
              (bind_result
                (audit_if fuel (noted_context c) delay (noted_actions a))
                (note sent s.1 x)))
    unfolding audit_if rest
    send_order s none h = tt
    send_order s (some (w, err e)) h = (rw h (cc), rw h (cc))
    send_order s (some (w, ok delivered)) h = commit_order a _ (rw h refl)
    send_order s (some (w, ok filtered)) h = commit_order a _ (rw h refl)
    send_order s (some (w, ok skipped)) h =
        let s' : Noted W = (w, sent (ok skipped) ∷ s.1) in
        stage_order unaudited (λ _. settled) (λ _. rest) (cc) (cc) (λ s2 x at. commit_order a s2 at)
          (retry fuel (noted_context c) delay (noting audited a.audit) s')
          (noted_retry audited a.audit unaudited (λ _. settled) (λ e. refl) (λ x. refl) s'
            (rw h refl))

    check_order :
        (s : Noted W) (already : Bool)
        → phase s.1 ≡ (if already then settled else unsent)
        → InOrder (
            bind_result
              (λ _. rest)
              (send_unless fuel (noted_context c) delay (noted_actions a) already s))
    unfolding send_unless rest
    check_order s true h = commit_order a s h
    check_order s false h = send_order s (a.send s.0) h

-- In every run of `complete_record`, whatever the actions answer: the skip is looked up first and
-- only retried after an error; the record is sent at most once, and only if it has no skip; a skipped
-- outcome is audited until that succeeds; and the offset is committed only after a known skip, a
-- delivered or filtered outcome, or a successful audit. The run succeeds exactly with a successful
-- commit as its last action.
pub complete_record-InOrder :
    {W : Type 0} (fuel : ℕ) (c : Context W) (delay : ℕ) (a : RecordActions W) (w : W)
    → InOrder fuel c delay (complete_record fuel (noted_context c) delay (noted_actions a) (w, []))
unfolding complete_record rest
complete_record-InOrder {W} fuel c delay a w =
    let s : Noted W = (w, []) in
    stage_order fuel c delay checking (λ already. if already then settled else unsent)
      (λ already s'.
        bind_result (λ _. rest fuel c delay a)
          (send_unless fuel (noted_context c) delay (noted_actions a) already s'))
      (cc) (cc) (λ s' already at. check_order fuel c delay a s' already at)
      (retry fuel (noted_context c) delay (noting checked a.skipped) s)
      (noted_retry fuel c delay checked a.skipped checking
        (λ already. if already then settled else unsent) (λ e. refl) (λ already. ground arith) s
        refl)
