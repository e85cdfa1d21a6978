-- ===== src/Monitoring.antt =====
-- The control loop over the monitor that internal/app/app.go gives it, the provisioning service.
use postie.Prelude.{ℕ, String, false, ◌≡◌, ◌≢◌}
use postie.Provision
use postie.Provision.Inspection.{inspect_source}
use postie.Provision.Inspection.Verdicts.{inspect_source_explained}
use postie.Control.Outside.{Outside, State}
use postie.Control.Sources.{allowed, block}
use postie.Control.Sources.Latch.{HasReasons}
use postie.Control.Sources.Fence.{SourceSteps, block-allowed}

abbrev pub monitored : {W : Type 0} → Outside W → Provision.Service W → Outside W
monitored o s = record o { inspect = inspect_source s }

-- With the provisioning service as the monitor, and where the blocks that workers raise have a reason:
-- once a source is blocked with a reason, it is not allowed to dispatch at any time, whatever
-- inspections of it and of other sources and whatever blocks follow.
pub monitored_block-allowed :
    {W : Type 0} (o : Outside W) (s : Provision.Service W)
    → ((w : W) → HasReasons (monitored o s) (o.meanwhile w))
    → (source reason : String) (st : State W) {u : State W} (now : ℕ) → reason ≢ ""
    → SourceSteps (monitored o s) (block (monitored o s) source reason st) u
    → allowed now source u.0 ≡ false
monitored_block-allowed o s reasons source reason st now h steps =
    block-allowed (monitored o s) reasons
      (λ src registered w. inspect_source_explained s src registered w) source reason st now h steps
