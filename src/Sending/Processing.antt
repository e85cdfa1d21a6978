-- ===== src/Sending/Processing.antt =====
-- `Process` of internal/delivery/processor.go over the HTTP client
-- (internal/adapters/httpdelivery/client.go).
use postie.Prelude.{ℕ, true, false, ◌≡◌, ◌⊎◌, inl, inr, Option, some}
use postie.Stream.{Record}
use postie.Protocol.{Envelope, matches_filter}
use postie.Delivery.Effects.{Error, ok}
use postie.Delivery.Processor.{Outcome, filtered, Processor, process}
use postie.Delivery.Processor.Laws.{Processed, process-Processed}
use postie.Sending.{Response, Client, gate_allows, send}
use postie.Sending.Verdicts.{IsTaken, Said, send-Said}

abbrev pub over_http : {W : Type 0} → Client W → Processor W → Processor W
over_http c p = record p { send = send c }

module _ {W : Type 0} (c : Client W) (p : Processor W) (observe : ℕ → Option Error → W → W)
    (r : Record) where
  -- The destination itself ended the record.
  pub record IsSaid (o : Outcome) : Type 0 where
    pub before : W
    pub behind : W
    pub envelope : Envelope
    pub response : Response
    pub allowed : gate_allows c before ≡ true
    pub exchanged : c.exchange r envelope before ≡ (behind, ok response)
    pub taken : IsTaken response
    pub said : Said o response.body

  -- Over HTTP, `process` ends a record only as filtered, where the filter drops it, or with what the
  -- destination said in a response of status 2xx and of at most 64 KiB, to a request made while the
  -- gate let the source dispatch: delivered for a success, an object whose numbers all round to a
  -- float64, skipped for no success and a whole error with the policy `keep_going`.
  pub process-IsSaid :
      (fuel : ℕ) (w w' : W) (o : Outcome)
      → process (over_http c p) observe fuel r w ≡ some (w', ok o)
      → (o ≡ filtered) × (matches_filter p.destination.filter r.payload ≡ false) ⊎ IsSaid o
  process-IsSaid fuel w w' o h =
      ended (rw h at (process-Processed (over_http c p) observe r fuel w))
    where
      ended :
          Processed (over_http c p) observe r w (some (w', ok o))
          → (o ≡ filtered) × (matches_filter p.destination.filter r.payload ≡ false) ⊎ IsSaid o
      ended (inl (dropped, same, unchanged)) = inl (same, dropped)
      ended (inr (body, matched, marshalled, a)) =
          let (open', (response, e, taken, said)) = send-Said c r body a.before a.behind o a.sent in
          inr (record {
            before = a.before;
            behind = a.behind;
            envelope = body;
            response = response;
            allowed = open';
            exchanged = e;
            taken = taken;
            said = said;
          })
