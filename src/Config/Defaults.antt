-- ===== src/Config/Defaults.antt =====
-- The engine's settings behind `Validate` (internal/config/validate.go).
use postie.Prelude.{
  ◌*◌, true, false, not, ◌&&◌, ◌≡◌, ◌≢◌, ◌↔◌, refl, none, [], ◌==◌, ℤ, pos, leb_ℤ, eqb_ℤ, eqb_ℤ_iff,
  eq_iff, arith, ap,
}
use postie.Config.Sources.{Given-test}
use postie.Config.Destinations.{empty_ne, ne_empty}
use postie.Config.{Engine, or_default, apply_defaults, check, validate_engine}

or_default_idem : (x d : ℤ) → d ≢ pos 0 → or_default (or_default x d) d ≡ or_default x d
unfolding or_default
or_default_idem x d h = ground (arith, eqb_ℤ_iff x (pos 0), eqb_ℤ_iff d (pos 0))

-- A setting that was not given, or 0, is the default, and any other is kept.
pub record IsFilled (given default filled : ℤ) : Type 0 where
  pub absent : given ≡ pos 0 → filled ≡ default
  pub kept : given ≢ pos 0 → filled ≡ given

or_default-IsFilled : (x d : ℤ) → IsFilled x d (or_default x d)
unfolding or_default
or_default-IsFilled x d = record {
  absent = λ e. ground (arith, eqb_ℤ_iff x (pos 0));
  kept = λ n. ground (arith, eqb_ℤ_iff x (pos 0));
}

-- The engine `c` with its defaults: ten partitions, one replica, a minute for a request and half a
-- minute to drain, in nanoseconds. Nothing else differs.
pub record HasDefaults (c filled : Engine) : Type 0 where
  pub partitions : IsFilled c.partitions (pos 10) filled.partitions
  pub replication : IsFilled c.replication_factor (pos 1) filled.replication_factor
  pub request : IsFilled c.request_timeout (pos 60000000000) filled.request_timeout
  pub drain : IsFilled c.drain_timeout (pos 30000000000) filled.drain_timeout
  pub others : filled ≡ record c {
    partitions = filled.partitions;
    replication_factor = filled.replication_factor;
    request_timeout = filled.request_timeout;
    drain_timeout = filled.drain_timeout;
  }

apply_defaults-HasDefaults : (c : Engine) → HasDefaults c (apply_defaults c)
unfolding apply_defaults
apply_defaults-HasDefaults c = record {
  partitions = or_default-IsFilled c.partitions (pos 10);
  replication = or_default-IsFilled c.replication_factor (pos 1);
  request = or_default-IsFilled c.request_timeout (pos 60000000000);
  drain = or_default-IsFilled c.drain_timeout (pos 30000000000);
  others = refl;
}

-- What an accepted engine has behind its defaults.
pub record IsRunnable (c : Engine) : Type 0 where
  pub version : c.version ≡ pos 1
  pub namespace : c.namespace ≢ ""
  pub environment : c.environment ≢ ""
  pub brokers : c.brokers ≢ []
  pub partitions : leb_ℤ (pos 1) c.partitions ≡ true
  pub replication : leb_ℤ (pos 1) c.replication_factor ≡ true
  pub production : c.environment ≡ "production" → c.replication_factor ≡ pos 3
  pub connect_url : c.connect_url ≢ ""
  pub listen : c.listen ≢ ""
  pub database_url : c.database_url ≢ ""

check-IsRunnable : (c : Engine) → check c ≡ none → IsRunnable c
unfolding check
check-IsRunnable c h = record {
  version = ground (arith, eqb_ℤ_iff c.version (pos 1));
  namespace = ground (arith, eq_iff c.namespace "");
  environment = ground (arith, eq_iff c.environment "");
  brokers = empty_ne c.brokers (ground arith);
  partitions = ground arith;
  replication = ground arith;
  production =
      ground (arith, eq_iff c.environment "production", eqb_ℤ_iff c.replication_factor (pos 3));
  connect_url = ground (arith, eq_iff c.connect_url "");
  listen = ground (arith, eq_iff c.listen "");
  database_url = ground (arith, eq_iff c.database_url "");
}

apply_defaults_idem : (c : Engine) → apply_defaults (apply_defaults c) ≡ apply_defaults c
unfolding apply_defaults
apply_defaults_idem c =
    rw
      (
        or_default_idem c.partitions (pos 10) (cc),
        or_default_idem c.replication_factor (pos 1) (cc),
        or_default_idem c.request_timeout (pos (60 * 1000000000)) (cc),
        or_default_idem c.drain_timeout (pos (30 * 1000000000)) (cc),
      )
      refl

production_test :
    (c : Engine)
    → IsRunnable c
    → (c.environment == "production" && not (eqb_ℤ c.replication_factor (pos 3))) ≡ false
production_test c x =
    ground (
      arith,
      eq_iff c.environment "production",
      eqb_ℤ_iff c.replication_factor (pos 3),
      x.production,
    )

IsRunnable-check : (c : Engine) → IsRunnable c → check c ≡ none
unfolding check
IsRunnable-check c x = ground (
  arith,
  (eqb_ℤ_iff c.version (pos 1)).1 x.version,
  Given-test c.namespace x.namespace,
  Given-test c.environment x.environment,
  ne_empty c.brokers x.brokers,
  x.partitions,
  x.replication,
  production_test c x,
  Given-test c.connect_url x.connect_url,
  Given-test c.listen x.listen,
  Given-test c.database_url x.database_url,
)

-- Validation fills in the defaults of the four numbers that are 0, keeps every other setting, and
-- accepts the engine exactly when its version is then 1, it has a namespace, an environment, a
-- broker, the two addresses and a database, and its partitions and replicas are positive, three
-- replicas in production. To validate the filled-in engine again changes nothing.
pub validate_engine-IsRunnable :
    (c : Engine)
    → HasDefaults c (validate_engine c).0
      × (((validate_engine c).1 ≡ none) ↔ IsRunnable (validate_engine c).0)
      × (validate_engine (validate_engine c).0 ≡ validate_engine c)
unfolding validate_engine
validate_engine-IsRunnable c = (
  apply_defaults-HasDefaults c,
  (check-IsRunnable (apply_defaults c), IsRunnable-check (apply_defaults c)),
  ap (λ e. (e, check e)) (apply_defaults_idem c),
)
