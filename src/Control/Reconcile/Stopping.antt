-- ===== src/Control/Reconcile/Stopping.antt =====
-- How a pass of the control loop ends (internal/control/reconcile.go).
use postie.Prelude.{
  ◌+◌, Bool, true, false, ◌&&◌, is_some, ◌≡◌, refl, ◌⊎◌, inl, inr, Option, none, some, List, [],
  ◌∷◌, arith, Bool-cases, if◌then◌else◌,
}
use postie.Stream.{Source}
use postie.Control.{DesiredSubscription, Destination, degraded}
use postie.Control.Outside.{Outside, State}
use postie.Control.Sources.{allowed}
use postie.Control.Reconcile.{
  lease_ttl, rows, observations, refresh_dependencies, degrade, report, finish, converge,
  reconcile_with, reconcile,
}
use postie.Control.Reconcile.Stops.{stop_all-AreStopped, stop_all-AreFree}
use postie.Control.Reconcile.Status.{overall_status-HasStatus}
use postie.Control.Reconcile.Ways.{
  IsStopped, IsClosed, leased, listed, pinged, IsAnswered, refreshed, AreReported, IsUnreported,
  inspected, moved, Passed, refused, interrupted, unreported, converged,
}

module _ {W : Type 0} (o : Outside W) where
  degrade-IsStopped : (st : State W) → IsStopped o st.0.subscriptions st.1 (degrade o st)
  unfolding degrade
  degrade-IsStopped (s, w) =
      let st : State W = (record s { status = degraded }, w) in
      record {
        none_left = stop_all-AreFree o st;
        stopped = stop_all-AreStopped o st;
        reported = refl;
      }

  degrade-IsClosed :
      (st : State W)
      → (st.0.control ≡ false) ⊎ (st.0.kafka ≡ false)
      → IsClosed o st.0.subscriptions st.1 (degrade o st)
  unfolding degrade allowed
  degrade-IsClosed (s, w) h = record {
    stopped = degrade-IsStopped (s, w);
    shut = λ now id. ground arith;
  }

  Reported : List DesiredSubscription → W → W × Bool → Type 0
  Reported ds w (w', true) = AreReported o ds w w'
  Reported ds w (w', false) = IsUnreported o ds w w'

  stored-Reported :
      (d : DesiredSubscription) (ds : List DesiredSubscription) (w : W)
      → (o.observe d.id d.revision d.desired w).1 ≡ true
      → (y : W × Bool) → Reported ds (o.observe d.id d.revision d.desired w).0 y
      → Reported (d ∷ ds) w y
  unfolding Reported
  stored-Reported d ds w h (w', true) r = (h, r)
  stored-Reported d ds w h (w', false) r = inr (h, r)

  report-Reported : (ds : List DesiredSubscription) (w : W) → Reported ds w (report o ds w)
  unfolding report Reported
  report-Reported [] w = refl
  report-Reported (d ∷ ds) w =
      let x = o.observe d.id d.revision d.desired w in
      elim (Bool-cases x.1) [
        | inl stored ↦
            rw stored (stored-Reported d ds w stored (report o ds x.0) (report-Reported ds x.0))
        | inr failed ↦ rw failed (inl (failed, refl))
      ]

  module _ (sources : List Source) (destinations : List Destination) (st : State W)
      (desired : List DesiredSubscription) (answered : IsAnswered o st.1 desired) where
    finish-Passed :
        (x : W × Bool)
        → o.ended (inspected o sources st).1 ≡ false
        → let s = moved o sources destinations desired st in
          Reported (observations s.0.subscriptions) s.1 x
          → Passed o sources destinations st (finish o ((s.0, x.0), x.1))
    unfolding finish Reported
    finish-Passed (w, true) on r =
        converged desired answered on r refl (overall_status-HasStatus _ refl)
    finish-Passed (w, false) on r = unreported desired w answered on r (
        degrade-IsClosed (record (moved o sources destinations desired st).0 { control = false }, w)
          (inl refl))

    answered-Passed : Passed o sources destinations st (
        reconcile_with o sources destinations
          (record { desired = desired; healthy = true })
          (refreshed o st))
    unfolding reconcile_with converge
    answered-Passed = elim (Bool-cases (o.ended (inspected o sources st).1)) [
      | inl over ↦
          rw over (interrupted desired answered over (degrade-IsStopped (inspected o sources st)))
      | inr on ↦
          let s = moved o sources destinations desired st in
          rw on (
            finish-Passed (report o (observations s.0.subscriptions) s.1) on
              (report-Reported (observations s.0.subscriptions) s.1))
    ]

  module _ (sources : List Source) (destinations : List Destination) (st : State W) where
    abbrev asked : Bool → Bool → Bool → State W
    asked lease control kafka =
        let w = (pinged o st.1).0 in
        (
          record st.0 {
            control = control;
            kafka = kafka;
            lease_until = if lease then o.now w + lease_ttl else st.0.lease_until;
          },
          w,
        )

    -- By the answers to the three questions.
    by_answers :
        (lease kafka : Bool) (listing : Option (List DesiredSubscription))
        → (leased o st.1).1 ≡ lease
        → (listed o st.1).1 ≡ listing
        → (pinged o st.1).1 ≡ kafka
        → let control = lease && is_some listing in
          Passed o sources destinations st (
            reconcile_with o sources destinations
              (record { desired = rows listing; healthy = control && kafka })
              (asked lease control kafka))
    unfolding reconcile_with rows
    by_answers false kafka listing l d k =
        refused (inl l) (degrade-IsClosed (asked false false kafka) (inl refl))
    by_answers true kafka none l d k =
        refused (inr (inl d)) (degrade-IsClosed (asked true false kafka) (inl refl))
    by_answers true false (some desired) l d k =
        refused (inr (inr k)) (degrade-IsClosed (asked true true false) (inr refl))
    by_answers true true (some desired) l d k =
        answered-Passed sources destinations st desired
          (record { renewed = l; wanted = d; kafka = k })

    -- A pass ends in one of four ways. The lease is not renewed, the desired states are not read or
    -- Kafka does not answer: every consumer is cancelled and then has ended, none is left, the status
    -- is degraded, and no source may dispatch at any time. All three are answered and the context of
    -- the loop has ended behind the inspection of the sources: every consumer is stopped so, and the
    -- status degraded. It has not, and an observation of what the walk over the desired states left
    -- is not stored: the same as for an unanswered question. Or all are stored, and only the status
    -- changes: ready if every source is running and every subscription running or paused, degraded
    -- otherwise.
    pub reconcile-IsClosed : Passed o sources destinations st (reconcile o sources destinations st)
    unfolding reconcile refresh_dependencies
    reconcile-IsClosed =
        by_answers (leased o st.1).1 (pinged o st.1).1 (listed o st.1).1 refl refl refl
