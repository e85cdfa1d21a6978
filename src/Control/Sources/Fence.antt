-- ===== src/Control/Sources/Fence.antt =====
-- What follows a block (internal/control/reconcile.go), in any order of events.
use postie.Prelude.{ℕ, String, false, ◌≡◌, ◌≢◌, refl, inl, inr, ◌==◌, arith}
use postie.Stream.{Registration, Source}
use postie.Control.{Service, source_running, source_blocked}
use postie.Control.Outside.{Outside, State}
use postie.Control.Sources.{source_state_of, allowed, block, inspect_source}
use postie.Control.Sources.Latch.{IsFenced, HasReasons, block-IsFenced, inspect_source-IsFenced}

blocked_not_allowed :
    (now : ℕ) (id : String) (s : Service)
    → (source_state_of id s).state ≡ source_blocked
    → allowed now id s ≡ false
unfolding allowed
blocked_not_allowed now id s h =
    let shut : ((source_state_of id s).state == source_running) ≡ false = rw h refl in
    ground (arith, shut)

-- What the control loop and the workers do to the sources, in any order.
pub data SourceStep {W : Type 0} (o : Outside W) : State W → State W → Type 0 where
  inspected : (source : Source) (st : State W) → SourceStep o st (inspect_source o source st)
  broken :
      (source reason : String) (st : State W)
      → reason ≢ ""
      → SourceStep o st (block o source reason st)

pub data SourceSteps {W : Type 0} (o : Outside W) (st : State W) : State W → Type 0 where
  none_yet : SourceSteps o st st
  next : {t u : State W} → SourceSteps o st t → SourceStep o t u → SourceSteps o st u

module _ {W : Type 0} (o : Outside W) (reasons : (w : W) → HasReasons o (o.meanwhile w))
    (explains : (source : Source) (registered : Registration) (w : W)
      → (o.inspect source registered w).1.0 ≡ source_blocked
      → (o.inspect source registered w).1.1 ≢ "") where
  SourceStep-IsFenced :
      (j : String) {t u : State W} → SourceStep o t u → IsFenced j t.0 → IsFenced j u.0
  SourceStep-IsFenced j (inspected source st) f =
      inspect_source-IsFenced o reasons explains source j st f
  SourceStep-IsFenced j (broken source reason st h) f =
      block-IsFenced o source j reason st h (inl f)

  SourceSteps-IsFenced :
      (j : String) {t u : State W} → IsFenced j t.0 → SourceSteps o t u → IsFenced j u.0
  SourceSteps-IsFenced j f none_yet = f
  SourceSteps-IsFenced j f (next steps step) =
      SourceStep-IsFenced j step (SourceSteps-IsFenced j f steps)

  -- Where every block that a worker or the monitor raises has a reason: once a source is blocked with
  -- a reason, it is not allowed to dispatch at any time, whatever inspections of it and of other
  -- sources and whatever blocks follow, with the blocks that workers raise while these run.
  pub block-allowed :
      (source reason : String) (st : State W) {u : State W} (now : ℕ)
      → reason ≢ ""
      → SourceSteps o (block o source reason st) u
      → allowed now source u.0 ≡ false
  block-allowed source reason st now h steps =
      let f =
        SourceSteps-IsFenced source (block-IsFenced o source source reason st h (inr refl)) steps in
      blocked_not_allowed now source _ f.1
