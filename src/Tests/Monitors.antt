-- ===== src/Tests/Monitors.antt =====
-- A block under the provisioning service as the monitor.
use postie.Prelude.{ℕ, ◌≡◌, false, ne_of_false, refl}
use postie.Control.Outside.{Outside, State}
use postie.Control.Sources.{allowed, block, inspect_source}
use postie.Control.Sources.Fence.{next, none_yet, inspected}
use postie.Monitoring.{monitored, monitored_block-allowed}
use postie.Tests.Sources
use postie.Tests.Sources.{outside, outside_reasons, orders}
use postie.Tests.Provisions

abbrev watched : Outside ℕ
watched = monitored outside Provisions.service

abbrev fenced_state : State ℕ
fenced_state = block watched "orders" "history lost" (Sources.service, 7)

monitored_block-allowed_example :
    allowed 20 "orders" (inspect_source watched orders fenced_state).0 ≡ false
monitored_block-allowed_example =
    monitored_block-allowed outside Provisions.service outside_reasons "orders" "history lost"
      (Sources.service, 7) 20 (ne_of_false "history lost" "" refl)
      (next none_yet (inspected orders fenced_state))
