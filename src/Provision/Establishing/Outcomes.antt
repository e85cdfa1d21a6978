-- ===== src/Provision/Establishing/Outcomes.antt =====
-- What a registration stands for that `ProvisionSource` (internal/provision/service.go) returns.
use mathlib.Core.Path.{subst}
use postie.Prelude.{
  ℕ, String, ◌≡◌, ◌≢◌, refl, ◌⊎◌, inl, inr, Option, none, some, ◌==◌, eq_iff, arith, Bool-cases,
  sym, ◌∙◌, ap,
}
use postie.Stream.{Identity, Registration, Source}
use postie.Provision.{TableFacts, Failure, Result, ok, err, Service}
use postie.Provision.Equality.{identity_eq→eq, names_eq→eq}
use postie.Provision.Contract.{is_contract, identity_from}
use postie.Provision.Inspection.{capture_names}
use postie.Provision.Establishing.{
  validate_registered_stream, block_outcome, unverified, verified, confirm_established, establish,
  after_lookup, after_identity, after_table, provision_source,
}
use postie.Provision.Establishing.Checks.{IsVerified, validate-IsVerified}
use postie.Provision.Establishing.Origins.{names_of, IsConfirmed, IsNew, IsProvisioned, topic-Fresh}

module _ {W : Type 0} (s : Service W) (source : Source) where
  block_outcome_fails :
      (reason : String) (e : Failure) (x : W × Result (Unit {0})) (w' : W) (r : Registration)
      → block_outcome s reason e x ≢ (w', ok r)
  unfolding block_outcome
  block_outcome_fails reason e (v, ok u) w' r h = cc
  block_outcome_fails reason e (v, err f) w' r h = cc

  unverified_fails :
      (e : Failure) (w w' : W) (r : Registration) → unverified s source e w ≢ (w', ok r)
  unfolding unverified
  unverified_fails e w w' r h = elim (Bool-cases (is_contract e)) [
    | inl yes' ↦
        block_outcome_fails (s.error_text e) e (s.block_source s.scope source.id (s.error_text e) w)
          w' r (rw (yes', unverified) at h)
    | inr no' ↦ ground arith
  ]

  verified-ok :
      (registered r : Registration) (x : W × Option Failure) (w' : W)
      → verified s source registered x ≡ (w', ok r)
      → (x ≡ (w', none)) × (r ≡ registered)
  unfolding verified
  verified-ok registered r (v, none) w' h = (ground arith, ground arith)
  verified-ok registered r (v, some e) w' h = absurd (unverified_fails e v w' r h)

  validated-same :
      (identity : Identity) (registered : Registration) (w w' : W)
      → validate_registered_stream s source identity (names_of s source) registered w ≡ (w', none)
      → (registered.identity ≡ identity) × (registered.names ≡ (names_of s source))
  unfolding validate_registered_stream
  validated-same identity registered w w' h = (
    identity_eq→eq registered.identity identity (ground arith),
    names_eq→eq registered.names (names_of s source) (ground arith),
  )

  confirm-ok :
      (identity : Identity) (registered r : Registration) (w w' : W)
      → confirm_established s source identity (names_of s source) registered w ≡ (w', ok r)
      → (r ≡ registered)
        × (registered.blocked ≡ "")
        × (validate_registered_stream s source identity (names_of s source) registered w
            ≡ (w', none))
  unfolding confirm_established
  confirm-ok identity registered r w w' h = elim (Bool-cases (registered.blocked == "")) [
    | inl open' ↦
        let (e, same) =
          verified-ok registered r
            (validate_registered_stream s source identity (names_of s source) registered w) w'
            (ground arith) in
        (same, (eq_iff registered.blocked "").0 open', e)
    | inr shut ↦ absurd (ground arith)
  ]

  -- Either way, the registration has this identity and these names.
  abbrev Origin : Identity → Registration → Type 0
  Origin identity r =
      (r.identity ≡ identity)
      × (r.names ≡ (names_of s source))
      × ((IsConfirmed s source) r.identity r ⊎ (IsNew s source) r.identity r)

  lookup-Origin :
      (fuel : ℕ) (identity : Identity) (w w' : W) (x : W × Result (Option Registration))
      (r : Registration)
      → s.get_stream s.scope source.id w ≡ x
      → after_lookup s fuel source identity x ≡ some (w', ok r)
      → Origin identity r
  unfolding after_lookup establish
  lookup-Origin fuel identity w w' (v, err e) r k h = cc
  lookup-Origin fuel identity w w' (v, ok none) r k h =
      let (same, named, new') =
        topic-Fresh s source identity w' r fuel (capture_names s source).1
          (s.ensure_topic (names_of s source) identity.partitions s.replication v) h in
      (same, named, inr new')
  lookup-Origin fuel identity w w' (v, ok (some registered)) r k h =
      let (same, open', valid) = confirm-ok identity registered r v w' (ground arith) in
      let (i, n) = validated-same identity registered v w' valid in
      subst (Origin identity) (sym same) (
        i,
        n,
        inl (record {
          before = w;
          behind = v;
          after = w';
          stored = k;
          open' = open';
          checked =
              subst (λ j. IsVerified s source j (names_of s source) registered v w') (sym i)
                (validate-IsVerified s source identity (names_of s source) registered v w' valid);
        }),
      )

  identity-IsProvisioned :
      (fuel : ℕ) (w v w' : W) (facts : TableFacts) (x : Result Identity) (r : Registration)
      → s.inspect_table source.id w ≡ (v, ok facts)
      → identity_from source facts s.partitions ≡ x
      → after_identity s fuel source v x ≡ some (w', ok r)
      → (IsProvisioned s source) r
  unfolding after_identity
  identity-IsProvisioned fuel w v w' facts (err e) r t k h = cc
  identity-IsProvisioned fuel w v w' facts (ok identity) r t k h =
      let (same, named, origin) =
        lookup-Origin fuel identity v w' (s.get_stream s.scope source.id v) r refl h in
      record {
        inspected = w;
        facts = facts;
        table = ap (λ p. p.1) t;
        frozen = k ∙ ap ok (sym same);
        named = named;
        origin = origin;
      }

  table-IsProvisioned :
      (fuel : ℕ) (w w' : W) (x : W × Result TableFacts) (r : Registration)
      → s.inspect_table source.id w ≡ x
      → after_table s fuel source x ≡ some (w', ok r)
      → (IsProvisioned s source) r
  unfolding after_table
  table-IsProvisioned fuel w w' (v, err e) r t h = cc
  table-IsProvisioned fuel w w' (v, ok facts) r t h =
      identity-IsProvisioned fuel w v w' facts (identity_from source facts s.partitions) r t refl h

  -- A registration that `ProvisionSource` returns has the identity that the contract freezes for the
  -- table as it was just inspected, and the names derived from the configuration. Either the store had
  -- it, not blocked, and then the topic answered with the registered id and partitions and the
  -- configured replicas, the slot with its history, and the connector as not failed; or the connector
  -- answered as not failed and running with all of its tasks, one at least, and the slot with its
  -- history, just before the store took the registration.
  pub provision_source-IsProvisioned :
      (fuel : ℕ) (w w' : W) (r : Registration)
      → provision_source s fuel source w ≡ some (w', ok r)
      → (IsProvisioned s source) r
  unfolding provision_source
  provision_source-IsProvisioned fuel w w' r h =
      table-IsProvisioned fuel w w' (s.inspect_table source.id w) r refl h
