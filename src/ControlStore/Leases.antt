-- ===== src/ControlStore/Leases.antt =====
-- `RenewLease` and `ReleaseLease` of internal/adapters/controlpg/store.go.
use postie.Prelude.{String, Bool, not, ◌&&◌, ◌==◌, ℤ, pos, ltb_ℤ}
use postie.Stream.{Scope}
use postie.Delivery.Effects.{ok}
use postie.ControlStore.{
  LeaseRow, Call, transaction, checked, same_scope, valid_scope, upsert, delete,
}

abbrev pub is_lease : Scope → String → LeaseRow → Bool
is_lease s worker r = same_scope r.scope s && r.worker_id == worker

-- `expires_at` is `now() + ttl`.
unfoldable pub renew_lease : Scope → String → ℤ → ℤ → Call (Unit {0})
unfolding valid_scope upsert
renew_lease s worker ttl expires_at =
    let row : LeaseRow = record { scope = s; worker_id = worker; expires_at = expires_at } in
    checked (valid_scope s) "control: invalid scope" (
      checked (not (worker == "") && ltb_ℤ (pos 0) ttl)
        "control: worker ID and positive lease TTL are required"
        (transaction "control: renew lease" (λ t. (
          record t {
            leases =
                upsert (is_lease s worker) (λ r. record r { expires_at = expires_at }) row t.leases;
          },
          ok tt,
        ))))

unfoldable pub release_lease : Scope → String → Call (Unit {0})
unfolding valid_scope delete
release_lease s worker = checked (valid_scope s) "control: invalid scope" (
    checked (not (worker == "")) "control: worker ID is required" (
      transaction "control: release lease" (λ t. (
        record t {
          observations = delete (λ r. same_scope r.scope s && r.worker_id == worker) t.observations;
          leases = delete (is_lease s worker) t.leases;
        },
        ok tt,
      ))))
