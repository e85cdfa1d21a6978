-- ===== src/Tests/Provisions.antt =====
-- Provisioning of a table with two columns, on a world that is a counter.
use postie.Prelude.{
  ℕ, suc, ◌-◌, ◌<◌, ◌≤◌, ◌≡◌, ◌≢◌, ◌↔◌, refl, true, false, none, some, [], ◌∷◌, pos, leb, arith,
  if◌then◌else◌,
}
use postie.Stream.{supported, integer, int8, text, Identity, Registration, Source}
use postie.Provision.{TableFacts, failed, ok, err, ConnectorState, WalStatus, Service}
use postie.Provision.Contract.{
  identity_from, configured_columns, check_serial_column, check_partitioning_column, capture_ready,
}
use postie.Provision.Contract.Eligibility.{IsEligible, identity_from-IsEligible}
use postie.Provision.Inspection.{inspect_source}
use postie.Provision.Inspection.Verdicts.{Judged, inspect_source-Judged}
use postie.Provision.Establishing.{provision_source, await_capture}
use postie.Provision.Establishing.Outcomes.{provision_source-IsProvisioned}
use postie.Provision.Establishing.Origins.{IsProvisioned, names_of}
use postie.Provision.Establishing.Termination.{await_capture_total}

abbrev orders : Source
orders = record {
  id = "orders";
  description = "";
  table = "orders";
  columns = "n" ∷ "body" ∷ [];
  serial_column = "n";
  partitioning_column = "n";
}

abbrev pub facts : TableFacts
facts = record {
  exists = true;
  columns =
      ("body", record { type = text; not_null = false })
      ∷ ("n", record { type = int8; not_null = true })
      ∷ [];
  serial_unique_index = true;
}

abbrev pub identity : Identity
identity = record {
  table = "orders";
  serial_column = "n";
  partitioning_column = "n";
  event_id_column = "";
  partitions = pos 2;
  columns = record { name = "n"; type = int8 } ∷ record { name = "body"; type = text } ∷ [];
}

-- The connector runs from the fifth call on, and the context ends at the twentieth.
abbrev pub service : Service ℕ
service = record {
  scope = record { namespace = "postie"; environment = "test"; generation = pos 1 };
  partitions = pos 2;
  replication = pos 1;
  publications = [];
  error_text = λ e. "error";
  digest = λ fields. "0123";
  inspect_table = λ id w. (suc w, ok facts);
  slot_health =
      λ id slot w. (suc w, ok (record { exists = true; wal_status = WalStatus.reserved }));
  ensure_topic = λ names partitions replication w. (suc w, ok (7 ∷ []));
  topic = λ name w. (
    suc w,
    ok (record {
      exists = true;
      id = 7 ∷ [];
      partitions = pos 2;
      replicas = (pos 0, pos 1) ∷ (pos 1, pos 1) ∷ [];
    }),
  );
  ensure_connector = λ source i names mode w. (suc w, ok tt);
  connector_status = λ name w. (
    suc w,
    if leb 5 w
        then ok (record {
          connector = ConnectorState.running;
          tasks = ConnectorState.running ∷ [];
          failed = false;
          trace = "";
        })
        else err (failed "starting"),
  );
  get_stream = λ scope id w. (suc w, ok none);
  register_stream = λ scope r w. (suc w, ok tt);
  block_source = λ scope id reason w. (suc w, ok tt);
  pause = λ w. (suc w, leb w 19);
}

abbrev registered : Registration
registered = record {
  source_id = "orders";
  identity = identity;
  names = names_of service orders;
  topic_id = 7 ∷ [];
  blocked = "";
}

identity_from-IsEligible_example :
    (identity_from orders facts (pos 2) ≡ ok identity) ↔ IsEligible orders facts (pos 2) identity
identity_from-IsEligible_example = identity_from-IsEligible orders facts (pos 2) identity

inspect_source-Judged_example :
    Judged service orders registered (inspect_source service orders registered 5).1
inspect_source-Judged_example = inspect_source-Judged service orders registered 5

provision_source-IsProvisioned_example : IsProvisioned service orders registered
unfolding provision_source identity_from configured_columns supported check_serial_column integer
    check_partitioning_column capture_ready
provision_source-IsProvisioned_example =
    provision_source-IsProvisioned service orders 9 0 10 registered ran
  where
    ran : provision_source service 9 orders 0 ≡ some (10, ok registered)
    ran = refl

left : ℕ → ℕ
left w = 30 - w

pause_falls : (w : ℕ) → (service.pause w).1 ≡ true → left (service.pause w).0 < left w
unfolding left
pause_falls w h = ground arith

status_keeps :
    (w : ℕ) → left (service.connector_status (names_of service orders).connector w).0 ≤ left w
unfolding left
status_keeps w = omega arith

slot_keeps :
    (w : ℕ) → left (service.slot_health "orders" (names_of service orders).slot w).0 ≤ left w
unfolding left
slot_keeps w = omega arith

await_capture_total_example : await_capture service 31 orders (names_of service orders) 0 ≢ none
unfolding left
await_capture_total_example =
    await_capture_total service orders (names_of service orders) left pause_falls status_keeps
      slot_keeps 31 0 (omega arith)
