-- ===== src/Config/Sources.antt =====
-- The sources of an application (internal/config/validate.go).
use postie.Prelude.{
  Distinct, String, true, false, ◌||◌, ◌≡◌, ◌≢◌, refl, none, List, [], ◌∷◌, ◌==◌, inl, inr, pos,
  leb_ℤ, contains, eq_iff, ne_of_false, arith, All, map, Option-cases,
}
use postie.Config.{Source, validate_source, seen, next_source, sources_from}

abbrev pub source_ids : List Source → List String
source_ids = map (λ s. s.id)

-- The text is not empty.
abbrev pub Given : String → Type 0
Given s = s ≢ ""

-- A source that can be connected to, whose two special columns are among its columns.
pub record IsSound (s : Source) : Type 0 where
  pub id : Given s.id
  pub description : Given s.description
  pub type : s.type ≡ "postgres"
  pub host : Given s.host
  pub port : leb_ℤ (pos 1) s.port ≡ true
  pub username : Given s.username
  pub database : Given s.database
  pub table : Given s.table
  pub serial : Given s.serial_column
  pub partitioning : Given s.partitioning_column
  pub has_serial : contains s.columns s.serial_column ≡ true
  pub has_partitioning : contains s.columns s.partitioning_column ≡ true

source-IsSound :
    (s : Source) → Given s.id → Given s.description → validate_source s ≡ none → IsSound s
unfolding validate_source
source-IsSound s i d h = record {
  id = i;
  description = d;
  type = ground (arith, eq_iff s.type "postgres");
  host = ground (arith, eq_iff s.host "");
  port = ground arith;
  username = ground (arith, eq_iff s.username "");
  database = ground (arith, eq_iff s.database "");
  table = ground (arith, eq_iff s.table "");
  serial = ground (arith, eq_iff s.serial_column "");
  partitioning = ground (arith, eq_iff s.partitioning_column "");
  has_serial = ground arith;
  has_partitioning = ground arith;
}

pub Given-test : (s : String) → Given s → (s == "") ≡ false
Given-test s h = ground (arith, eq_iff s "")

IsSound-none : (s : Source) → IsSound s → validate_source s ≡ none
unfolding validate_source
IsSound-none s x = ground (
  arith,
  (eq_iff s.type "postgres").1 x.type,
  Given-test s.host x.host,
  x.port,
  Given-test s.username x.username,
  Given-test s.database x.database,
  Given-test s.table x.table,
  Given-test s.serial_column x.serial,
  Given-test s.partitioning_column x.partitioning,
  x.has_serial,
  x.has_partitioning,
)

-- A round of the walk that goes on.
source_round :
    (s : Source) (ss : List Source) (ids out : List String)
    → sources_from (s ∷ ss) ids ≡ seen out
    → ((s.id == "") ≡ false)
      × ((s.description == "") ≡ false)
      × (contains ids s.id ≡ false)
      × (validate_source s ≡ none)
      × (sources_from ss (s.id ∷ ids) ≡ seen out)
unfolding sources_from next_source
source_round s ss ids out h = elim (Option-cases (validate_source s)) [
  | inl fine ↦ (ground arith, ground arith, ground arith, fine, ground arith)
  | inr (p, wrong) ↦ absurd (ground arith)
]

-- The walk over the sources, from the ids seen before.
pub sources_from-seen :
    (ss : List Source) (ids out : List String)
    → sources_from ss ids ≡ seen out
    → All IsSound ss
      × Distinct ids (source_ids ss)
      × ((j : String) → contains out j ≡ (contains ids j || contains (source_ids ss) j))
unfolding sources_from next_source
sources_from-seen [] ids out h = (tt, tt, λ j. ground arith)
sources_from-seen (s ∷ ss) ids out h =
    let (i, d, new', valid, rest) = source_round s ss ids out h in
    let (sound, fresh, same) = sources_from-seen ss (s.id ∷ ids) out rest in
    (
      (source-IsSound s (ne_of_false s.id "" i) (ne_of_false s.description "" d) valid, sound),
      (new', fresh),
      λ j. ground (arith, same j),
    )

pub sources_from-found :
    (ss : List Source) (ids : List String)
    → All IsSound ss
    → Distinct ids (source_ids ss)
    → (out : List String) × (sources_from ss ids ≡ seen out)
unfolding sources_from next_source
sources_from-found [] ids h k = (ids, refl)
sources_from-found (s ∷ ss) ids (x, xs) (new', fresh) =
    let (out, e) = sources_from-found ss (s.id ∷ ids) xs fresh in
    (
      out,
      ground
          (arith, Given-test s.id x.id, Given-test s.description x.description, IsSound-none s x),
    )
