-- ===== src/Provision/Establishing/Origins.antt =====
-- Where a registration of `ProvisionSource` (internal/provision/service.go) comes from.
use postie.Prelude.{
  if◌then◌else◌, ℕ, zero, suc, Bool, true, false, ◌≡◌, refl, ◌⊎◌, inl, inr, Option, none, some,
  List, arith, ◌∙◌, ap,
}
use postie.Stream.{Identity, Names, Registration, Source}
use postie.Provision.{TableFacts, Result, ok, err, PublicationMode, Status, SlotStatus, Service}
use postie.Provision.Contract.{identity_from}
use postie.Provision.Inspection.{capture_names}
use postie.Provision.Establishing.Checks.{HoldsHistory, RunsWhole, capture_ready-up, IsVerified}
use postie.Provision.Establishing.{
  is_up, after_capture_pause, await_capture, registered_outcome, after_await, after_connector,
  after_topic,
}

module _ {W : Type 0} (s : Service W) (source : Source) where
  abbrev pub names_of : Names
  names_of = (capture_names s source).0

  -- The stream was in the store, not blocked, and nothing that it stands for has changed.
  pub record IsConfirmed (identity : Identity) (registered : Registration) : Type 0 where
    pub before : W
    pub behind : W
    pub after : W
    pub stored : s.get_stream s.scope source.id before ≡ (behind, ok (some registered))
    pub open' : registered.blocked ≡ ""
    pub checked : IsVerified s source identity names_of registered behind after

  -- The capture was up, and then the store took the registration.
  pub record IsNew (identity : Identity) (registered : Registration) : Type 0 where
    pub ready : W
    pub between : W
    pub status : Status
    pub slot : SlotStatus
    pub connector_up : (s.connector_status names_of.connector ready).1 ≡ ok status
    pub slot_up :
        s.slot_health source.id names_of.slot (s.connector_status names_of.connector ready).0
        ≡ (between, ok slot)
    pub runs : RunsWhole status
    pub history_held : HoldsHistory slot
    pub stored : (s.register_stream s.scope registered between).1 ≡ ok tt
    pub unblocked : registered.blocked ≡ ""

  pub record IsProvisioned (registered : Registration) : Type 0 where
    pub inspected : W
    pub facts : TableFacts
    pub table : (s.inspect_table source.id inspected).1 ≡ ok facts
    pub frozen : identity_from source facts s.partitions ≡ ok registered.identity
    pub named : registered.names ≡ names_of
    pub origin : IsConfirmed registered.identity registered ⊎ IsNew registered.identity registered

  -- The end of a wait that succeeds.
  IsUp : W → Type 0
  IsUp w' =
      (w : W) × (status : Status) × (slot : SlotStatus) × ((s.connector_status names_of.connector
          w).1
        ≡ ok status)
      × (s.slot_health source.id names_of.slot (s.connector_status names_of.connector w).0
          ≡ (w', ok slot))
      × RunsWhole status
      × HoldsHistory slot

  up :
      (w w' : W) (x : Result Status) (y : W × Result SlotStatus)
      → (s.connector_status names_of.connector w).1 ≡ x
      → s.slot_health source.id names_of.slot (s.connector_status names_of.connector w).0 ≡ y
      → is_up s x y.1 ≡ true
      → y.0 ≡ w'
      → IsUp w'
  unfolding IsUp is_up
  up w w' (ok status) (v, ok slot) h k r e =
      let (runs, history) = capture_ready-up status slot r in
      (w, status, slot, h, k ∙ ap (λ u. (u, ok slot)) e, runs, history)
  up w w' (ok status) (v, err x) h k r e = cc
  up w w' (err x) y h k r e = cc

  ended :
      (c : Bool) (v w' : W) (r : Option (W × Result (Unit {0})))
      → (if c then some (v, ok tt) else r) ≡ some (w', ok tt)
      → (c ≡ true) × (v ≡ w') ⊎ (r ≡ some (w', ok tt))
  ended true v w' r h = inl (refl, ground arith)
  ended false v w' r h = inr h

  paused-IsUp :
      (again : W → Option (W × Result (Unit {0}))) (w' : W)
      → ((w : W) → again w ≡ some (w', ok tt) → IsUp w')
      → (z : W × Bool) → after_capture_pause s again z ≡ some (w', ok tt)
      → IsUp w'
  unfolding after_capture_pause
  paused-IsUp again w' ih (v, true) h = ih v h
  paused-IsUp again w' ih (v, false) h = cc

  await_capture-IsUp :
      (fuel : ℕ) (w w' : W) → await_capture s fuel source names_of w ≡ some (w', ok tt) → IsUp w'
  unfolding await_capture
  await_capture-IsUp zero w w' h = cc
  await_capture-IsUp (suc fuel) w w' h =
      let x = s.connector_status names_of.connector w in
      let y = s.slot_health source.id names_of.slot x.0 in
      elim (ended (is_up s x.1 y.1) y.0 w' _ h) [
        | inl (ready, same) ↦ up w w' x.1 y refl refl ready same
        | inr later ↦
            paused-IsUp (await_capture s fuel source names_of) w'
              (λ v k. await_capture-IsUp fuel v w' k) (s.pause y.0) later
      ]

  -- The store's answer to a registration.
  stored :
      (registered r : Registration) (x : W × Result (Unit {0})) (w' : W)
      → registered_outcome s registered x ≡ (w', ok r)
      → (x.1 ≡ ok tt) × (r ≡ registered)
  unfolding registered_outcome
  stored registered r (v, ok u) w' h = (refl, ground arith)
  stored registered r (v, err e) w' h = cc

  module _ (identity : Identity) (w' : W) (r : Registration) where
    -- What a run that establishes the stream has reached.
    abbrev pub Fresh : Type 0
    Fresh = (r.identity ≡ identity) × (r.names ≡ names_of) × IsNew r.identity r

    await-Fresh :
        (topic_id : List ℕ) (x : Option (W × Result (Unit {0})))
        → ((v : W) → x ≡ some (v, ok tt) → IsUp v)
        → after_await s source identity names_of topic_id x ≡ some (w', ok r)
        → Fresh
    unfolding after_await IsUp
    await-Fresh topic_id none up' h = cc
    await-Fresh topic_id (some (v, err e)) up' h = cc
    await-Fresh topic_id (some (v, ok u)) up' h =
        let registered : Registration = record {
          source_id = source.id;
          identity = identity;
          names = names_of;
          topic_id = topic_id;
          blocked = "";
        } in
        let (kept, same) =
          stored registered r (s.register_stream s.scope registered v) w' (ground arith) in
        let (w, status, slot, up1, up2, whole, history) = up' v refl in
        rw same (
          refl,
          refl,
          record {
            ready = w;
            between = v;
            status = status;
            slot = slot;
            connector_up = up1;
            slot_up = up2;
            runs = whole;
            history_held = history;
            stored = kept;
            unblocked = refl;
          },
        )

    connector-Fresh :
        (fuel : ℕ) (topic_id : List ℕ) (x : W × Result (Unit {0}))
        → after_connector s fuel source identity names_of topic_id x ≡ some (w', ok r)
        → Fresh
    unfolding after_connector
    connector-Fresh fuel topic_id (v, err e) h = cc
    connector-Fresh fuel topic_id (v, ok u) h =
        await-Fresh topic_id (await_capture s fuel source names_of v)
          (λ v' k. await_capture-IsUp fuel v v' k) h

    pub topic-Fresh :
        (fuel : ℕ) (publication : PublicationMode) (x : W × Result (List ℕ))
        → after_topic s fuel source identity names_of publication x ≡ some (w', ok r)
        → Fresh
    unfolding after_topic
    topic-Fresh fuel publication (v, err e) h = cc
    topic-Fresh fuel publication (v, ok topic_id) h =
        connector-Fresh fuel topic_id (s.ensure_connector source identity names_of publication v) h
