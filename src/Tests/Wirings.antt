-- ===== src/Tests/Wirings.antt =====
-- A configured source, provisioned.
use mathlib.Core.List.{Memᴰ}
use postie.Prelude.{◌≡◌, refl, true, contains, pos}
use postie.Config.{validate_application}
use postie.Provision.Contract.{
  identity_from, configured_columns, check_serial_column, check_partitioning_column,
}
use postie.Stream.{supported, integer}
use postie.Wiring.{column_names, identity_from-columns}
use postie.Tests.Configs.{application, orders}
use postie.Tests.Provisions.{facts, identity}

identity_from-columns_example :
    (column_names identity.columns ≡ orders.columns)
    × (contains (column_names identity.columns) "n" ≡ true)
    × (contains (column_names identity.columns) "n" ≡ true)
unfolding validate_application identity_from configured_columns supported check_serial_column
    integer check_partitioning_column
identity_from-columns_example =
    identity_from-columns application orders facts (pos 2) identity refl (Memᴰ.head refl) refl
