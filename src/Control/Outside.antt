-- ===== src/Control/Outside.antt =====
-- What internal/control/service.go calls: the interfaces `Store`, `SourceMonitor`, `Health`, `Consumer`
-- and `ConsumerFactory`, and the clock. A call takes the world to the next one; of an error only that
-- it is one matters.
use postie.Prelude.{ℕ, String, Bool, Option, List, Dict}
use postie.Activity.{Entry, add}
use postie.Stream.{Registration, Source}
use postie.Control.{DesiredSubscription, Destination, SubscriptionState, Service}

-- The answer of `GetStream`.
pub data StreamLookup : Type 0 where
  failed absent : StreamLookup
  found : Registration → StreamLookup

pub record Outside (W : Type 0) : Type 0 where
  pub now : W → ℕ
  -- Whether the context of `Start` has ended.
  pub ended : W → Bool
  pub renew_lease : W → W × Bool
  pub list_subscriptions : W → W × Option (List DesiredSubscription)
  pub ping : W → W × Bool
  pub get_stream : String → W → W × StreamLookup
  pub block_source : String → String → W → W × Bool
  pub inspect : Source → Registration → W → W × (String × String)
  pub new_consumer : Destination → Dict Registration → W → W × Option ℕ
  pub run : ℕ → W → W
  pub cancel : ℕ → W → W
  pub stop : ℕ → W → W
  pub ready : ℕ → W → Bool
  pub finished : ℕ → W → Bool
  pub observe : String → ℕ → SubscriptionState → W → W × Bool
  -- The blocks that workers raise while the last call runs.
  pub meanwhile : W → List (String × String)

abbrev pub State : Type 0 → Type 0
State W = Service × W

-- `r.log.Add`
unfoldable pub log_entry : {W : Type 0} → Outside W → Entry → State W → State W
log_entry o e (s, w) = (record s { log = add (o.now w) e s.log }, w)
