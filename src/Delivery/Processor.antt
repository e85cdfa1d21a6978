-- ===== src/Delivery/Processor.antt =====
-- internal/delivery/processor.go and the interfaces of worker.go that it uses.
pub mod Laws
use postie.Prelude.{ℕ, zero, suc, ◌+◌, String, not, Option, none, some, if◌then◌else◌}
use postie.Encoding.{Json}
use postie.Stream.{Record}
use postie.Protocol.{Envelope, Filter, matches_filter}
use postie.Delivery.Effects.{Error, failed, Result, ok, err, M}
use postie.Delivery.Retry.{after_pause}
use postie.Delivery.Backoff.{backoff, jitter_bound}

pub data Outcome : Type 0 where
  delivered filtered skipped : Outcome

unfoldable pub outcome_string : Outcome → String
outcome_string delivered = "delivered"
outcome_string filtered = "filtered"
outcome_string skipped = "skipped"

pub record Destination : Type 0 where
  pub id : String
  pub description : String
  pub filter : Option Filter

-- `AttemptSender`, `Sleep` and `Jitter` are calls of the world. The body that is sent is the JSON
-- text of an envelope.
pub record Processor (W : Type 0) : Type 0 where
  pub send : Record → Envelope → W → W × Result Outcome
  pub destination : Destination
  pub sleep : ℕ → W → W × Option Error
  pub jitter : ℕ → W → W × ℕ

unfoldable pub envelope_for : Record → Destination → Envelope
envelope_for record' destination = record {
  data_source_id = record'.source.id;
  data_source_description = record'.source.description;
  data_destination_id = destination.id;
  data_destination_description = destination.description;
  payload = record'.payload;
}

-- `json.Marshal` of an envelope fails on a payload that is no JSON text.
marshal_payload : Option Json → Envelope → Result Envelope
marshal_payload none e = err (failed "json: error calling MarshalJSON")
marshal_payload (some j) e = ok e

unfoldable pub marshal : Envelope → Result Envelope
unfolding marshal_payload
marshal e = marshal_payload e.payload e

module _ {W : Type 0} (p : Processor W) (observe : ℕ → Option Error → W → W) where
  -- A round behind its answer: out on an outcome, else a pause and the next round.
  after_send : M W Outcome → ℕ → W × Result Outcome → Option (W × Result Outcome)
  unfolding after_pause
  after_send again attempt (w, ok outcome) = some (observe attempt none w, ok outcome)
  after_send again attempt (w, err e) =
      let (w', j) = p.jitter (jitter_bound attempt) (observe attempt (some e) w) in
      after_pause again (p.sleep (backoff attempt j) w')

  -- The loop of `Process`.
  attempts : ℕ → Record → Envelope → ℕ → M W Outcome
  unfolding after_send
  attempts zero r body attempt w = none
  attempts (suc fuel) r body attempt w =
      after_send (attempts fuel r body (attempt + 1)) attempt (p.send r body w)

  process_body : ℕ → Record → Result Envelope → M W Outcome
  unfolding attempts
  process_body fuel r (ok body) w = attempts fuel r body 0 w
  process_body fuel r (err e) w = some (w, err e)

  unfoldable pub process : ℕ → Record → M W Outcome
  unfolding process_body
  process fuel r w =
      if not (matches_filter p.destination.filter r.payload)
      then some (w, ok filtered)
      else process_body fuel r (marshal (envelope_for r p.destination)) w
