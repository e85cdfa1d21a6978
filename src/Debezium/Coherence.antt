-- ===== src/Debezium/Coherence.antt =====
-- When `validateIdentity` (internal/adapters/debezium/decode.go) takes an identity.
use postie.Prelude.{
  Distinct, String, Bool, true, false, ◌||◌, List, [], ◌∷◌, ◌==◌, ◌≡◌, ◌≢◌, refl, ap, ◌∙◌, eq_iff,
  contains, length, inl, inr, map, ltb_ℤ, pos, ℤ, arith, All, eqb_iff,
}
use postie.Prelude.Tries.{ok, >>=-ok, Try-cases}
use postie.Stream.{Source, Identity, Column, valid, supported, integer}
use postie.Debezium.{check_column, check_columns, validate_identity}

abbrev pub names_of : List Column → List String
names_of = map (λ c. c.name)

-- What is asked of one column.
pub record IsFit (identity : Identity) (c : Column) : Type 0 where
  pub named : c.name ≢ ""
  pub known : supported c.type ≡ true
  pub ordered : c.name ≡ identity.serial_column → integer c.type ≡ true

pub record IsCoherent (source : Source) (identity : Identity) (generation : ℤ) : Type 0 where
  pub generation_valid : valid generation ≡ true
  pub table_given : source.table ≢ ""
  pub same_table : identity.table ≡ source.table
  pub same_serial : identity.serial_column ≡ source.serial_column
  pub same_partitioning : identity.partitioning_column ≡ source.partitioning_column
  pub partitioned : ltb_ℤ identity.partitions (pos 1) ≡ false
  pub same_columns : names_of identity.columns ≡ source.columns
  pub distinct : Distinct [] (names_of identity.columns)
  pub fit : All (IsFit identity) identity.columns
  pub has_serial : contains (names_of identity.columns) identity.serial_column ≡ true
  pub has_partitioning : contains (names_of identity.columns) identity.partitioning_column ≡ true
  pub event_id_known :
      (identity.event_id_column == ""
        || contains (names_of identity.columns) identity.event_id_column)
      ≡ true

-- What one round of the loop has seen.
record Passed (identity : Identity) (seen : List String) (name : String) (c : Column) : Type 0 where
  fit : IsFit identity c
  fresh : contains seen c.name ≡ false
  same : c.name ≡ name

check_column-Passed :
    (identity : Identity) (seen : List String) (name : String) (c : Column)
    → check_column identity seen name c ≡ ok tt
    → Passed identity seen name c
unfolding check_column
check_column-Passed identity seen name c h = record {
  fit = record {
    named = ground (arith, eq_iff c.name "");
    known = ground arith;
    ordered = λ e. ground (arith, eq_iff c.name identity.serial_column);
  };
  fresh = ground arith;
  same = ground (arith, eq_iff name c.name);
}

-- What the loop has seen where it ends well.
record Walked (identity : Identity) (seen names : List String) (columns : List Column)
    (seen' : List String) : Type 0 where
  same : names_of columns ≡ names
  distinct : Distinct seen (names_of columns)
  fit : All (IsFit identity) columns
  gathered : (k : String) → contains seen' k ≡ (contains seen k || contains (names_of columns) k)

or_swap : (a b c : Bool) → ((a || b) || c) ≡ (b || (a || c))
or_swap a b c = ground arith

check_columns-Walked :
    (identity : Identity) (seen names : List String) (columns : List Column) (seen' : List String)
    → length columns ≡ length names
    → check_columns identity seen names columns ≡ ok seen'
    → Walked identity seen names columns seen'
unfolding check_columns
check_columns-Walked identity seen [] [] seen' len h = record {
  same = refl;
  distinct = tt;
  fit = tt;
  gathered = λ k. ground arith;
}
check_columns-Walked identity seen (n ∷ ns) [] seen' len h = absurd (omega arith)
check_columns-Walked identity seen [] (c ∷ cs) seen' len h = cc
check_columns-Walked identity seen (n ∷ ns) (c ∷ cs) seen' len h =
    let (u, first, h1) =
      >>=-ok (check_column identity seen n c) (λ _. check_columns identity (c.name ∷ seen) ns cs)
        h in
    let p = check_column-Passed identity seen n c first in
    let w = check_columns-Walked identity (c.name ∷ seen) ns cs seen' (omega arith) h1 in
    record {
      same = ap (λ x. x ∷ names_of cs) p.same ∙ ap (λ xs. n ∷ xs) w.same;
      distinct = (p.fresh, w.distinct);
      fit = (p.fit, w.fit);
      gathered =
          λ k. w.gathered k ∙ or_swap (c.name == k) (contains seen k) (contains (names_of cs) k);
    }

-- `validateIdentity` takes only what is coherent.
pub validate_identity-IsCoherent :
    (source : Source) (identity : Identity) (generation : ℤ)
    → validate_identity source identity generation ≡ ok tt
    → IsCoherent source identity generation
unfolding validate_identity
validate_identity-IsCoherent source identity generation h =
    elim (Try-cases (check_columns identity [] source.columns identity.columns)) [
      | inr (e, q) ↦ absurd (ground arith)
      | inl (seen, q) ↦
          let w =
            check_columns-Walked identity [] source.columns identity.columns seen
              (ground (arith, eqb_iff (length identity.columns) (length source.columns))) q in
          record {
            generation_valid = ground arith;
            table_given = ground (arith, eq_iff source.table "");
            same_table = ground (arith, eq_iff identity.table source.table);
            same_serial = ground (arith, eq_iff identity.serial_column source.serial_column);
            same_partitioning =
                ground (arith, eq_iff identity.partitioning_column source.partitioning_column);
            partitioned = ground arith;
            same_columns = w.same;
            distinct = w.distinct;
            fit = w.fit;
            has_serial = ground (arith, w.gathered identity.serial_column);
            has_partitioning = ground (arith, w.gathered identity.partitioning_column);
            event_id_known = ground (arith, w.gathered identity.event_id_column);
          }
    ]
