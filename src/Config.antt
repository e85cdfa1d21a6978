-- ===== src/Config.antt =====
-- internal/config/config.go and validate.go. Of an error only its cause is kept, with the names that
-- its text quotes.
pub mod Sources
pub mod Destinations
pub mod Validity
pub mod Defaults
use postie.Prelude.{
  ℕ, ◌*◌, String, Bool, true, false, not, ◌&&◌, ◌||◌, Option, none, some, List, [], ◌∷◌, ◌==◌,
  if◌then◌else◌, ℤ, pos, leb_ℤ, eqb_ℤ, contains, Dict,
}

pub record Source : Type 0 where
  pub id : String
  pub description : String
  pub type : String
  pub host : String
  pub port : ℤ
  pub username : String
  pub password : String
  pub database : String
  pub table : String
  pub columns : List String
  pub serial_column : String
  pub partitioning_column : String

pub record Filter : Type 0 where
  pub column : String
  pub values : List String

pub record Destination : Type 0 where
  pub id : String
  pub description : String
  pub type : String
  pub endpoint : String
  pub username : String
  pub password : String
  pub sources : List String
  pub filter : Option Filter

pub record Application : Type 0 where
  pub sources : List Source
  pub destinations : List Destination

pub record SourcePolicy : Type 0 where
  pub publication : String

-- `Engine`, with its inner structs spread out. A `time.Duration` is a number of nanoseconds.
pub record Engine : Type 0 where
  pub version : ℤ
  pub namespace : String
  pub environment : String
  pub application_config : String
  pub brokers : List String
  pub partitions : ℤ
  pub replication_factor : ℤ
  pub connect_url : String
  pub listen : String
  pub token_file : String
  pub database_url : String
  pub request_timeout : ℤ
  pub drain_timeout : ℤ
  pub sources : Dict SourcePolicy

pub data Problem : Type 0 where
  source_unnamed no_sources destination_unnamed : Problem
  duplicate_source duplicate_destination : String → Problem
  source_type source_incomplete source_columns : String → Problem
  destination_type destination_incomplete destination_filter : String → Problem
  unknown_source : String → String → Problem
  bad_version no_scope no_brokers bad_partitions bad_replication bad_production : Problem
  no_endpoints no_database : Problem

abbrev pub source_postgres : String
source_postgres = "postgres"

abbrev pub destination_http_push : String
destination_http_push = "http-push"

abbrev pub is_empty : {A : Type 0} → List A → Bool
is_empty [] = true
is_empty (x ∷ xs) = false

unfoldable pub validate_source : Source → Option Problem
validate_source s =
    if not (s.type == source_postgres)
    then some (source_type s.id)
    else if s.host == ""
        || not (leb_ℤ (pos 1) s.port)
        || s.username == ""
        || s.database == ""
        || s.table == ""
    then some (source_incomplete s.id)
    else if s.serial_column == ""
        || s.partitioning_column == ""
        || not (contains s.columns s.serial_column)
        || not (contains s.columns s.partitioning_column)
    then some (source_columns s.id)
    else none

-- The known sources of a destination; the first unknown one is reported.
unfoldable pub unknown : List String → List String → Option String
unknown known [] = none
unknown known (id ∷ ids) = if not (contains known id) then some id else unknown known ids

bad_filter : Option Filter → Bool
bad_filter none = false
bad_filter (some f) = f.column == "" || is_empty f.values

check_filter : Destination → Option String → Option Problem
unfolding bad_filter
check_filter d (some id) = some (unknown_source d.id id)
check_filter d none = if bad_filter d.filter then some (destination_filter d.id) else none

unfoldable pub validate_destination : List String → Destination → Option Problem
unfolding check_filter unknown
validate_destination known d =
    if not (d.type == destination_http_push)
    then some (destination_type d.id)
    else if d.endpoint == "" || d.username == "" || is_empty d.sources
    then some (destination_incomplete d.id)
    else check_filter d (unknown known d.sources)

-- A result that is the ids seen, the last one first, or a problem.
pub data Seen : Type 0 where
  seen : List String → Seen
  broken : Problem → Seen

next_source : (List String → Seen) → List String → Source → Option Problem → Seen
next_source again ids s (some p) = broken p
next_source again ids s none = again (s.id ∷ ids)

pub sources_from : List Source → List String → Seen
unfolding next_source validate_source
sources_from [] ids = seen ids
sources_from (s ∷ ss) ids =
    let rest = next_source (sources_from ss) ids s (validate_source s) in
    if s.id == "" || s.description == ""
    then broken source_unnamed
    else if contains ids s.id
    then broken (duplicate_source s.id)
    else rest

at_least_one : Seen → Seen
at_least_one (seen []) = broken no_sources
at_least_one x = x

unfoldable pub validate_sources : List Source → Seen
unfolding sources_from at_least_one
validate_sources sources = at_least_one (sources_from sources [])

next_destination : Option Problem → Option Problem → Option Problem
next_destination (some p) rest = some p
next_destination none rest = rest

unfoldable pub destinations_from : List String → List Destination → List String → Option Problem
unfolding next_destination validate_destination
destinations_from known [] ids = none
destinations_from known (d ∷ ds) ids =
    let rest = destinations_from known ds (d.id ∷ ids) in
    if d.id == "" || d.description == ""
    then some destination_unnamed
    else if contains ids d.id
    then some (duplicate_destination d.id)
    else next_destination (validate_destination known d) rest

unfoldable pub validate_destinations : List Destination → List String → Option Problem
unfolding destinations_from
validate_destinations destinations known = destinations_from known destinations []

with_sources : List Destination → Seen → Option Problem
unfolding validate_destinations
with_sources destinations (broken p) = some p
with_sources destinations (seen ids) = validate_destinations destinations ids

-- `Application.Validate`
unfoldable pub validate_application : Application → Option Problem
unfolding with_sources validate_sources
validate_application c = with_sources c.destinations (validate_sources c.sources)

-- `Engine.applyDefaults`; the durations are in nanoseconds.
or_default : ℤ → ℤ → ℤ
or_default x d = if eqb_ℤ x (pos 0) then d else x

unfoldable pub apply_defaults : Engine → Engine
unfolding or_default
apply_defaults c = record c {
  partitions = or_default c.partitions (pos 10);
  replication_factor = or_default c.replication_factor (pos 1);
  request_timeout = or_default c.request_timeout (pos (60 * 1000000000));
  drain_timeout = or_default c.drain_timeout (pos (30 * 1000000000));
}

unfoldable pub check : Engine → Option Problem
check c =
    if not (eqb_ℤ c.version (pos 1))
    then some bad_version
    else if c.namespace == "" || c.environment == ""
    then some no_scope
    else if is_empty c.brokers
    then some no_brokers
    else if not (leb_ℤ (pos 1) c.partitions)
    then some bad_partitions
    else if not (leb_ℤ (pos 1) c.replication_factor)
    then some bad_replication
    else if c.environment == "production" && not (eqb_ℤ c.replication_factor (pos 3))
    then some bad_production
    else if c.connect_url == "" || c.listen == ""
    then some no_endpoints
    else if c.database_url == ""
    then some no_database
    else none

-- `Engine.Validate`: the engine with its defaults, and the problem if there is one.
unfoldable pub validate_engine : Engine → Engine × Option Problem
unfolding apply_defaults check
validate_engine c = let c' = apply_defaults c in (c', check c')
