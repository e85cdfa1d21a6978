-- ===== src/Sending.antt =====
-- internal/adapters/httpdelivery/client.go: one attempt over HTTP. The exchange of a request for a
-- response is a call of the world, whose answer is an error or the response as it was read.
pub mod Verdicts
pub mod Processing
use postie.Prelude.{
  ℕ, String, Bool, true, false, not, ◌&&◌, ◌||◌, Option, none, some, if◌then◌else◌, ltb,
}
use postie.Encoding.{Json}
use postie.Stream.{Record}
use postie.Protocol.{
  Acknowledgement, retry, success, keep_going, Answer, answer, retry_with_error,
  decode_acknowledgement, Envelope,
}
use postie.Delivery.Effects.{Error, canceled, failed, Result, ok, err}
use postie.Delivery.Processor.{Outcome, delivered, skipped}
use postie.Delivery.Worker.{Gate}

-- `size` is the length of the body as far as it is read; the body is JSON text or not.
pub record Response : Type 0 where
  pub status : ℕ
  pub size : ℕ
  pub body : Option Json

abbrev pub max_body : ℕ
max_body = 65536

acknowledged : Answer → Result Outcome
acknowledged (answer success) = ok delivered
acknowledged (answer keep_going) = ok skipped
acknowledged (answer retry) = err (failed "destination requested retry")
acknowledged retry_with_error = err (failed "invalid acknowledgement")

-- The text of the error leaves out the status.
unfoldable pub classify : ℕ → Option Json → Result Outcome
unfolding acknowledged
classify status body =
    if ltb status 200 || ltb 299 status
    then err (failed "destination returned HTTP status")
    else acknowledged (decode_acknowledgement body)

unfoldable pub received : Result Response → Result Outcome
unfolding classify
received (err e) = err e
received (ok response) =
    if ltb max_body response.size
    then err (failed "destination response exceeds 64 KiB")
    else classify response.status response.body

-- `Client` over a `LeaseTransport`. A deadline of the lease is part of the exchange.
pub record Client (W : Type 0) : Type 0 where
  pub gate : Option (Gate W)
  pub source : String
  pub exchange : Record → Envelope → W → W × Result Response

module _ {W : Type 0} (c : Client W) where
  pub gate_allows : W → Bool
  gate_allows w = elim c.gate [ none ↦ true | some g ↦ g.allowed c.source w ]

  unfoldable pub round_trip : Record → Envelope → W → W × Result Response
  unfolding gate_allows
  round_trip r body w = if not (gate_allows w) then (w, err canceled) else c.exchange r body w

  -- `Send`
  unfoldable pub send : Record → Envelope → W → W × Result Outcome
  unfolding round_trip received
  send r body w = let (w', response) = round_trip r body w in (w', received response)
