-- ===== src/Sending/Verdicts.antt =====
-- When an attempt over HTTP is terminal (internal/adapters/httpdelivery/client.go).
use postie.Prelude.{
  ℕ, ◌≤◌, true, false, ◌||◌, ◌≡◌, ◌≢◌, refl, inl, inr, Option, ltb, arith, Bool-cases, ap, sym, ◌∙◌,
}
use postie.Encoding.{Json}
use postie.Stream.{Record}
use postie.Protocol.{Answer, answer, success, keep_going, decode_acknowledgement, Envelope}
use postie.Protocol.Answers.{
  HasSuccess, HasPolicy, decode_acknowledgement-success, decode_acknowledgement-keep_going,
}
use postie.Delivery.Effects.{Result, ok, err}
use postie.Delivery.Processor.{Outcome, delivered, filtered, skipped}
use postie.Sending.{
  Response, max_body, acknowledged, classify, received, Client, gate_allows, round_trip, send,
}

-- A response of status 2xx and of at most 64 KiB.
pub record IsTaken (response : Response) : Type 0 where
  pub at_least : 200 ≤ response.status
  pub at_most : response.status ≤ 299
  pub small : response.size ≤ 65536

-- What the destination must have said for this outcome.
abbrev pub Said : Outcome → Option Json → Type 0
Said delivered body = HasSuccess body
Said skipped body = HasPolicy "keep_going" body
Said filtered body = ⊥

acknowledged-ok :
    (body : Option Json) (a : Answer) (o : Outcome)
    → decode_acknowledgement body ≡ a
    → acknowledged a ≡ ok o
    → Said o body
unfolding acknowledged
acknowledged-ok body (answer success) delivered h k = decode_acknowledgement-success body h
acknowledged-ok body (answer keep_going) skipped h k = (decode_acknowledgement-keep_going body).0 h
acknowledged-ok body _ _ h k = cc

classify-ok :
    (status : ℕ) (body : Option Json) (o : Outcome)
    → classify status body ≡ ok o
    → (200 ≤ status) × (status ≤ 299) × Said o body
unfolding classify
classify-ok status body o h = elim (Bool-cases (ltb status 200 || ltb 299 status)) [
  | inl bad ↦ absurd (ground arith)
  | inr good ↦ (
    ground arith,
    ground arith,
    acknowledged-ok body (decode_acknowledgement body) o refl (ground arith),
  )
]

received-ok :
    (x : Result Response) (o : Outcome)
    → received x ≡ ok o
    → (response : Response) × (x ≡ ok response) × IsTaken response × Said o response.body
unfolding received
received-ok (err e) o h = cc
received-ok (ok response) o h = elim (Bool-cases (ltb max_body response.size)) [
  | inl big ↦ absurd (ground arith)
  | inr fine ↦
      let (low, high, said) = classify-ok response.status response.body o (ground arith) in
      (response, refl, record { at_least = low; at_most = high; small = ground arith }, said)
]

module _ {W : Type 0} (c : Client W) (r : Record) (body : Envelope) where
  passed : (w : W) → gate_allows c w ≡ true → round_trip c r body w ≡ c.exchange r body w
  unfolding round_trip
  passed w h = ground arith

  refused :
      (w w' : W) (response : Response)
      → gate_allows c w ≡ false
      → round_trip c r body w ≢ (w', ok response)
  unfolding round_trip
  refused w w' response h k = ground arith

  tripped :
      (x : W × Result Response) (w' : W) (o : Outcome)
      → ◌≡◌ {A = W × Result Outcome} (x.0, received x.1) (w', ok o)
      → (response : Response) × (x ≡ (w', ok response)) × IsTaken response × Said o response.body
  tripped (v, y) w' o k =
      let (response, e, taken, said) = received-ok y o (ap (λ p. p.1) k) in
      (response, ap (λ u. (u, y)) (ap (λ p. p.0) k) ∙ ap (λ z. (w', z)) e, taken, said)

  -- An attempt ends a record only if the gate lets the source dispatch, and the exchange then gave a
  -- response of status 2xx and of at most 64 KiB: delivered if the answer carries a success, an
  -- object whose numbers all round to a float64, skipped if it carries no success and a whole error with the policy `keep_going`, and never filtered.
  pub send-Said :
      (w w' : W) (o : Outcome)
      → send c r body w ≡ (w', ok o)
      → (gate_allows c w ≡ true)
        × ((response : Response) × (c.exchange r body w ≡ (w', ok response))
            × IsTaken response
            × Said o response.body)
  unfolding send
  send-Said w w' o h =
      let (response, e, taken, said) = tripped (round_trip c r body w) w' o h in
      elim (Bool-cases (gate_allows c w)) [
        | inl open' ↦ (open', (response, sym (passed w open') ∙ e, taken, said))
        | inr shut ↦ absurd (refused w w' response shut e)
      ]
