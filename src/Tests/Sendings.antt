-- ===== src/Tests/Sendings.antt =====
-- A destination that is down at first, and then takes the record.
use postie.Prelude.{
  insert, ℕ, suc, ◌≡◌, ◌⊎◌, refl, true, false, Option, none, some, leb, if◌then◌else◌,
}
use postie.Encoding.{Json, obj, member, end, key_is}
use postie.Protocol.{matches_filter, decode_acknowledgement}
use postie.Delivery.Effects.{failed, ok, err}
use postie.Delivery.Processor.{delivered, filtered, process, marshal, envelope_for}
use postie.Sending.{Response, Client, gate_allows, send}
use postie.Sending.Verdicts.{IsTaken, Said, send-Said}
use postie.Sending.Processing.{over_http, IsSaid, process-IsSaid}
use postie.Tests.Deliveries.{item, processor, unobserved}

abbrev pub success_body : Option Json
success_body = some (obj (member "result" (obj (member "success" (obj end) end)) end))

abbrev client : Client ℕ
client = record {
  gate = none;
  source = "orders";
  exchange = λ r body w. (
    suc w,
    if leb 2 w
        then ok (record { status = 200; size = 25; body = success_body })
        else err (failed "connection refused"),
  );
}

send-Said_example :
    (gate_allows client 3 ≡ true)
    × ((response : Response) × (client.exchange item (envelope_for item processor.destination) 3
          ≡ (4, ok response))
        × IsTaken response
        × Said delivered response.body)
unfolding send decode_acknowledgement key_is insert
send-Said_example =
    send-Said client item (envelope_for item processor.destination) 3 4 delivered refl

process-IsSaid_example :
    (delivered ≡ filtered) × (matches_filter none item.payload ≡ false)
    ⊎ IsSaid client processor unobserved item delivered
unfolding process matches_filter marshal envelope_for send decode_acknowledgement key_is insert
process-IsSaid_example = process-IsSaid client processor unobserved item 9 0 4 delivered ran
  where
    ran : process (over_http client processor) unobserved 9 item 0 ≡ some (4, ok delivered)
    ran = refl
