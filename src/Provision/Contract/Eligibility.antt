-- ===== src/Provision/Contract/Eligibility.antt =====
-- Which tables the capture contract of internal/provision/contract.go accepts.
use mathlib.Core.List.{append-nil, append_assoc}
use postie.Prelude.{
  String, true, ◌≡◌, ◌≢◌, ◌↔◌, ◌∙◌, ap, sym, refl, inl, inr, Option, none, some, List, [], ◌∷◌,
  ◌++◌, ℤ, Dict, lookup, arith, Option-cases, Bool-cases,
}
use postie.Stream.{supported, integer, Column, Identity, Source}
use postie.Provision.{ColumnFacts, TableFacts, Failure, Result, ok, err}
use postie.Provision.Contract.{
  collected, visit, columns_from, configured_columns, check_serial, check_serial_column,
  check_partitioning, check_partitioning_column, frozen, with_columns, identity_from,
  event_id_column,
}

-- The columns are the names, in order, each with the type of the table's column, a supported one.
abbrev pub Resolved : Dict ColumnFacts → List String → List Column → Type 0
Resolved facts [] [] = Unit
Resolved facts [] (c ∷ cs) = ⊥
Resolved facts (name ∷ names) [] = ⊥
Resolved facts (name ∷ names) (c ∷ cs) =
    ((f : ColumnFacts) × (lookup name facts ≡ some f)
      × (supported f.type ≡ true)
      × (c ≡ record { name = name; type = f.type }))
    × Resolved facts names cs

-- What the contract asks of a table, and the identity that is frozen for it.
pub record IsEligible (src : Source) (facts : TableFacts) (partitions : ℤ) (i : Identity)
    : Type 0 where
  pub columns : List Column
  pub serial : ColumnFacts
  pub partitioning : ColumnFacts
  pub exists : facts.exists ≡ true
  pub resolved : Resolved facts.columns src.columns columns
  pub serial_found : lookup src.serial_column facts.columns ≡ some serial
  pub serial_integer : integer serial.type ≡ true
  pub serial_not_null : serial.not_null ≡ true
  pub serial_unique : facts.serial_unique_index ≡ true
  pub partitioning_found : lookup src.partitioning_column facts.columns ≡ some partitioning
  pub partitioning_not_null : partitioning.not_null ≡ true
  pub identity : i ≡ record {
    table = src.table;
    serial_column = src.serial_column;
    partitioning_column = src.partitioning_column;
    event_id_column = event_id_column src.columns;
    partitions = partitions;
    columns = columns;
  }

err_ne : {A : Type 0} {e : Failure} {a : A} → ◌≢◌ {A = Result A} (err e) (ok a)
err_ne h = cc

append_ne : {A : Type 0} (xs : List A) (x : A) → xs ++ x ∷ [] ≢ []
append_ne [] x = cc
append_ne (y ∷ ys) x = cc

module _ (table : String) (facts : Dict ColumnFacts) where
  columns_from-ok :
      (names missing : List String) (columns out : List Column)
      → columns_from table facts names missing columns ≡ ok out
      → (missing ≡ [])
        × ((rest : List Column) × (out ≡ columns ++ rest) × Resolved facts names rest)
  unfolding columns_from collected visit
  columns_from-ok [] [] columns out h = (refl, ([], ground (arith, append-nil columns), tt))
  columns_from-ok [] (m ∷ ms) columns out h = cc
  columns_from-ok (name ∷ names) missing columns out h = elim (Option-cases (lookup name facts)) [
    | inl absent ↦
        let (e, rest) = columns_from-ok names (missing ++ name ∷ []) columns out (rw absent at h) in
        absurd (append_ne missing name e)
    | inr (f, found) ↦ elim (Bool-cases (supported f.type)) [
      | inl known ↦
          let c : Column = record { name = name; type = f.type } in
          let (e, (rest, same, resolved)) =
            columns_from-ok names missing (columns ++ c ∷ []) out (rw (found, known) at h) in
          (
            e,
            (
              c ∷ rest,
              same ∙ append_assoc columns (c ∷ []) rest,
              ((f, found, known, refl), resolved),
            ),
          )
      | inr unknown ↦ absurd (err_ne (rw (found, unknown) at h))
    ]
  ]

  columns_from-Resolved :
      (names : List String) (columns rest : List Column)
      → Resolved facts names rest
      → columns_from table facts names [] columns ≡ ok (columns ++ rest)
  unfolding columns_from collected visit
  columns_from-Resolved [] columns [] h = ground (arith, append-nil columns)
  columns_from-Resolved [] columns (c ∷ cs) h = absurd h
  columns_from-Resolved (name ∷ names) columns [] h = absurd h
  columns_from-Resolved (name ∷ names) columns (c ∷ cs) ((f, found, known, same), h) =
      rw (found, known)
        (rw (sym same) (
          columns_from-Resolved names (columns ++ c ∷ []) cs h
          ∙ ap ok (append_assoc columns (c ∷ []) cs)))

check_serial-none :
    (src : Source) (facts : TableFacts) (found : Option ColumnFacts)
    → check_serial src facts found ≡ none
    → (f : ColumnFacts) × (found ≡ some f)
      × (integer f.type ≡ true)
      × (f.not_null ≡ true)
      × (facts.serial_unique_index ≡ true)
unfolding check_serial
check_serial-none src facts none h = cc
check_serial-none src facts (some f) h = (f, refl, ground arith, ground arith, ground arith)

check_partitioning-none :
    (src : Source) (found : Option ColumnFacts)
    → check_partitioning src found ≡ none
    → (f : ColumnFacts) × (found ≡ some f) × (f.not_null ≡ true)
unfolding check_partitioning
check_partitioning-none src none h = cc
check_partitioning-none src (some f) h = (f, refl, ground arith)

frozen-ok :
    (src : Source) (partitions : ℤ) (columns : List Column) (a b : Option Failure) (i : Identity)
    → frozen src partitions columns a b ≡ ok i
    → (a ≡ none) × (b ≡ none) × (frozen src partitions columns none none ≡ ok i)
unfolding frozen
frozen-ok src partitions columns (some e) b i h = cc
frozen-ok src partitions columns none (some e) i h = cc
frozen-ok src partitions columns none none i h = (refl, refl, h)

with_columns-IsEligible :
    (src : Source) (facts : TableFacts) (partitions : ℤ) (i : Identity) (x : Result (List Column))
    → facts.exists ≡ true
    → configured_columns src facts ≡ x
    → with_columns src facts partitions x ≡ ok i
    → IsEligible src facts partitions i
unfolding with_columns configured_columns check_serial_column check_partitioning_column frozen
    event_id_column
with_columns-IsEligible src facts partitions i (err e) there c h = cc
with_columns-IsEligible src facts partitions i (ok columns) there c h =
    let (nothing, (rest, same, resolved)) =
      columns_from-ok src.table facts.columns src.columns [] [] columns c in
    let (a, b, e) = frozen-ok src partitions columns _ _ i h in
    let (s, s1, s2, s3, s4) = check_serial-none src facts _ a in
    let (p, p1, p2) = check_partitioning-none src _ b in
    record {
      columns = columns;
      serial = s;
      partitioning = p;
      exists = there;
      resolved = rw same resolved;
      serial_found = s1;
      serial_integer = s2;
      serial_not_null = s3;
      serial_unique = s4;
      partitioning_found = p1;
      partitioning_not_null = p2;
      identity = cc;
    }

to :
    (src : Source) (facts : TableFacts) (partitions : ℤ) (i : Identity)
    → identity_from src facts partitions ≡ ok i
    → IsEligible src facts partitions i
unfolding identity_from check_serial_column check_partitioning_column configured_columns
to src facts partitions i h = elim (Bool-cases facts.exists) [
  | inl there ↦
      with_columns-IsEligible src facts partitions i (configured_columns src facts) there refl
        (rw there at h)
  | inr absent ↦ absurd (ground arith)
]

from :
    (src : Source) (facts : TableFacts) (partitions : ℤ) (i : Identity)
    → IsEligible src facts partitions i
    → identity_from src facts partitions ≡ ok i
unfolding identity_from with_columns configured_columns check_serial_column check_serial
    check_partitioning_column check_partitioning frozen
from src facts partitions i x =
    rw
      (
        x.exists,
        columns_from-Resolved src.table facts.columns src.columns [] x.columns x.resolved,
        x.serial_found,
        x.serial_integer,
        x.serial_not_null,
        x.serial_unique,
        x.partitioning_found,
        x.partitioning_not_null,
        x.identity,
      )
      refl

-- An identity is frozen exactly for a table that exists, has every configured column with a type that
-- Postie can convert, has an integer serial column that is NOT NULL and has a unique index of its own,
-- and has a partitioning column that is NOT NULL; the identity then lists the configured columns in
-- their order with the types of the table.
pub identity_from-IsEligible :
    (src : Source) (facts : TableFacts) (partitions : ℤ) (i : Identity)
    → (identity_from src facts partitions ≡ ok i) ↔ IsEligible src facts partitions i
identity_from-IsEligible src facts partitions i =
    (to src facts partitions i, from src facts partitions i)
