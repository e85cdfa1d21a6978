-- ===== src/Wiring.antt =====
-- What internal/app makes of a configured source.
pub mod Workers
use postie.Prelude.{
  String, true, none, List, [], ◌∷◌, ◌≡◌, ◌∙◌, refl, sym, ap, contains, map, Dict, ℤ,
}
use postie.Stream.{Column, Identity}
use postie.Stream
use postie.Config
use postie.Config.{Application, validate_application}
use postie.Config.Sources.{IsSound}
use postie.Config.Validity.{validate_application-IsValid}
use postie.Provision.{ColumnFacts, TableFacts, ok}
use postie.Provision.Contract.{identity_from}
use postie.Provision.Contract.Eligibility.{Resolved, identity_from-IsEligible}
use mathlib.Core.List.{Memᴰ}
use mathlib.Core.Path.{subst}
use postie.Prelude.{All}

-- `Source` of bootstrap.go
abbrev pub stream_source : Config.Source → Stream.Source
stream_source input = record {
  id = input.id;
  description = input.description;
  table = input.table;
  columns = input.columns;
  serial_column = input.serial_column;
  partitioning_column = input.partitioning_column;
}

abbrev pub column_names : List Column → List String
column_names = map (λ c. c.name)

names-Resolved :
    (facts : Dict ColumnFacts) (names : List String) (columns : List Column)
    → Resolved facts names columns
    → column_names columns ≡ names
names-Resolved facts [] [] h = refl
names-Resolved facts [] (c ∷ cs) h = absurd h
names-Resolved facts (n ∷ ns) [] h = absurd h
names-Resolved facts (n ∷ ns) (c ∷ cs) ((f, found, known, same), h) =
    ap (λ k. k.name ∷ column_names cs) same ∙ ap (λ t. n ∷ t) (names-Resolved facts ns cs h)

member-IsSound :
    (ss : List Config.Source) (s : Config.Source) → All IsSound ss → Memᴰ s ss → IsSound s
member-IsSound [] s h m = elim m [ ]
member-IsSound (c ∷ ss) s (x, xs) (Memᴰ.head same) = subst IsSound (sym same) x
member-IsSound (c ∷ ss) s (x, xs) (Memᴰ.tail m) = member-IsSound ss s xs m

-- A source of an accepted application whose table the capture contract accepts gets an identity that
-- lists exactly the configured columns, in their order, with the serial and the partitioning column
-- among them.
pub identity_from-columns :
    (c : Application) (input : Config.Source) (facts : TableFacts) (partitions : ℤ) (i : Identity)
    → validate_application c ≡ none
    → Memᴰ input c.sources
    → identity_from (stream_source input) facts partitions ≡ ok i
    → (column_names i.columns ≡ input.columns)
      × (contains (column_names i.columns) i.serial_column ≡ true)
      × (contains (column_names i.columns) i.partitioning_column ≡ true)
identity_from-columns c input facts partitions i valid m h =
    let sound =
      member-IsSound c.sources input ((validate_application-IsValid c).0 valid).sources m in
    let e = (identity_from-IsEligible (stream_source input) facts partitions i).0 h in
    let names = names-Resolved facts.columns input.columns e.columns e.resolved in
    subst
      (λ j.
        (column_names j.columns ≡ input.columns)
        × (contains (column_names j.columns) j.serial_column ≡ true)
        × (contains (column_names j.columns) j.partitioning_column ≡ true))
      (sym e.identity)
      (
        names,
        ap (λ t. contains t input.serial_column) names ∙ sound.has_serial,
        ap (λ t. contains t input.partitioning_column) names ∙ sound.has_partitioning,
      )
