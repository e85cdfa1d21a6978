-- ===== src/Debezium/Rows.antt =====
-- What `configuredValues` (internal/adapters/debezium/decode.go) makes of a row.
use postie.Prelude.{
  String, true, false, ◌||◌, Option, some, List, [], ◌∷◌, ◌==◌, ◌≡◌, ◌≢◌, refl, sym, ◌∙◌, eq_iff,
  eq_refl, contains, Distinct, All, Dict, lookup, insert, lookup-insert, arith, Bool-cases,
  Option-cases, inl, inr, ◌⊎◌, Bytes,
}
use mathlib.Core.Path.{subst}
use postie.Prelude.Tries.{ok, >>=-ok, Try-cases}
use postie.Encoding.{Json, null, str, decode_string}
use postie.Encoding.Marshal.Reading.{Unique, insert-Unique}
use postie.Stream.{Identity, Column}
use postie.Protocol.Values.{convert_value}
use postie.Debezium.{configured_value, event_id_from, event_id_of, convert_columns, is_null}
use postie.Debezium.Coherence.{names_of}

-- The column `c` of the row, and what it is converted to.
pub record IsConverted (after : Dict Json) (identity : Identity) (c : Column) (value : Option Json)
    : Type 0 where
  pub raw : Json
  pub converted : Json
  pub present : lookup c.name after ≡ some raw
  pub conversion : convert_value c.type raw ≡ ok converted
  pub result : value ≡ some converted
  pub required :
      c.name == identity.serial_column || c.name == identity.partitioning_column ≡ true
      → is_null raw ≡ false

-- A text of the row that is not empty.
pub record IsText (after : Dict Json) (column text : String) : Type 0 where
  pub literal : Bytes
  pub present : lookup column after ≡ some (str literal text)
  pub given : text ≢ ""

configured_value-IsConverted :
    (after : Dict Json) (c : Column) (identity : Identity) (w : Json)
    → configured_value after c identity ≡ ok w
    → IsConverted after identity c (some w)
unfolding configured_value
configured_value-IsConverted after c identity w h = elim (Option-cases (lookup c.name after)) [
  | inl q ↦ absurd (ground arith)
  | inr (raw, q) ↦ elim (Try-cases (convert_value c.type raw)) [
    | inl (v, r) ↦ record {
      raw = raw;
      converted = v;
      present = q;
      conversion = r;
      result = ground arith;
      required = λ e. ground arith;
    }
    | inr (e, r) ↦ absurd (ground arith)
  ]
]

event_id_from-IsText :
    (raw : Json) (column text : String) (after : Dict Json)
    → lookup column after ≡ some raw
    → event_id_from raw column ≡ ok text
    → IsText after column text
unfolding event_id_from decode_string is_null
event_id_from-IsText (str l s) column text after q h = record {
  literal = l;
  present = ground arith;
  given = ground (arith, eq_iff s "");
}
event_id_from-IsText null column text after q h = cc
event_id_from-IsText _ column text after q h = cc

-- A text that was seen before is not among distinct ones.
Distinct-fresh :
    (before ns : List String) (x : String)
    → Distinct before ns
    → contains before x ≡ true
    → contains ns x ≡ false
Distinct-fresh before [] x d h = refl
Distinct-fresh before (n ∷ ns) x d h =
    let later = Distinct-fresh (n ∷ before) ns x d.1 (ground arith) in ground (arith, eq_iff n x)

event_id_of-IsText :
    (after : Dict Json) (c : Column) (identity : Identity) (id e : String)
    → event_id_of after c identity id ≡ ok e
    → (c.name ≡ identity.event_id_column) × IsText after identity.event_id_column e
      ⊎ ((c.name == identity.event_id_column) ≡ false) × (e ≡ id)
unfolding event_id_of
event_id_of-IsText after c identity id e h =
    elim (Bool-cases (c.name == identity.event_id_column)) [
      | inr other ↦ inr (other, ground arith)
      | inl this ↦ elim (Option-cases (lookup c.name after)) [
        | inl q ↦ absurd (ground arith)
        | inr (raw, q) ↦
            let same = (eq_iff c.name identity.event_id_column).0 this in
            inl (
              same,
              subst (λ n. IsText after n e) same
                  (event_id_from-IsText raw c.name e after q (ground arith)),
            )
      ]
    ]

lookup-insert_self :
    (k : String) (w : Json) (values : Dict Json) → lookup k (insert k w values) ≡ some w
lookup-insert_self k w values = lookup-insert k k w values ∙ (rw eq_refl)

-- The loop, from the values and the event id so far.
pub record AreConverted (after : Dict Json) (identity : Identity) (columns : List Column)
    (values : Dict Json) (id : String) (values' : Dict Json) (id' : String) : Type 0 where
  pub kept :
      (k : String) → contains (names_of columns) k ≡ false → lookup k values' ≡ lookup k values
  pub done : All (λ c. IsConverted after identity c (lookup c.name values')) columns
  pub untouched : contains (names_of columns) identity.event_id_column ≡ false → id' ≡ id
  pub event :
      contains (names_of columns) identity.event_id_column ≡ true
      → IsText after identity.event_id_column id'

pub convert_columns-AreConverted :
    (after : Dict Json) (identity : Identity) (before : List String) (columns : List Column)
    (values : Dict Json) (id : String) (values' : Dict Json) (id' : String)
    → Distinct before (names_of columns)
    → convert_columns after identity columns values id ≡ ok (values', id')
    → AreConverted after identity columns values id values' id'
unfolding convert_columns
convert_columns-AreConverted after identity before [] values id values' id' d h = record {
  kept = λ k e. ground arith;
  done = tt;
  untouched = λ e. ground arith;
  event = λ e. absurd (ground arith);
}
convert_columns-AreConverted after identity before (c ∷ cs) values id values' id' d h =
    let (w, q, h1) = >>=-ok (configured_value after c identity) _ h in
    let (e, r, h2) = >>=-ok (event_id_of after c identity id) _ h1 in
    let rest =
      convert_columns-AreConverted after identity (c.name ∷ before) cs (insert c.name w values) e
        values' id' d.1 h2 in
    let alone = Distinct-fresh (c.name ∷ before) (names_of cs) c.name d.1 (rw eq_refl) in
    record {
      kept = λ k absent. ground (arith, rest.kept k, lookup-insert c.name k w values);
      done = (
        subst (IsConverted after identity c)
            (sym (rest.kept c.name alone ∙ lookup-insert_self c.name w values))
            (configured_value-IsConverted after c identity w q),
        rest.done,
      );
      untouched =
          λ absent. untouched rest alone absent (event_id_of-IsText after c identity id e r);
      event = λ among. event rest alone among (event_id_of-IsText after c identity id e r);
    }
  where
    Here : String → Type 0
    Here e =
        (c.name ≡ identity.event_id_column) × IsText after identity.event_id_column e
        ⊎ ((c.name == identity.event_id_column) ≡ false) × (e ≡ id)

    untouched :
        {vs : Dict Json} {e : String}
        → AreConverted after identity cs vs e values' id'
        → contains (names_of cs) c.name ≡ false
        → contains (names_of (c ∷ cs)) identity.event_id_column ≡ false
        → Here e
        → id' ≡ id
    untouched rest alone absent (inl (same, t)) =
        absurd (ground (arith, eq_iff c.name identity.event_id_column))
    untouched rest alone absent (inr (other, same)) = rest.untouched (ground arith) ∙ same

    event :
        {vs : Dict Json} {e : String}
        → AreConverted after identity cs vs e values' id'
        → contains (names_of cs) c.name ≡ false
        → contains (names_of (c ∷ cs)) identity.event_id_column ≡ true
        → Here e
        → IsText after identity.event_id_column id'
    event rest alone among (inl (same, t)) =
        subst (IsText after identity.event_id_column)
          (sym (rest.untouched (subst (λ n. contains (names_of cs) n ≡ false) same alone))) t
    event rest alone among (inr (other, same)) = rest.event (ground arith)

pub convert_columns-Unique :
    (after : Dict Json) (identity : Identity) (columns : List Column) (values : Dict Json)
    (id : String) (values' : Dict Json) (id' : String)
    → Unique values
    → convert_columns after identity columns values id ≡ ok (values', id')
    → Unique values'
unfolding convert_columns
convert_columns-Unique after identity [] values id values' id' u h = subst Unique (ground arith) u
convert_columns-Unique after identity (c ∷ cs) values id values' id' u h =
    let (w, q, h1) = >>=-ok (configured_value after c identity) _ h in
    let (e, r, h2) = >>=-ok (event_id_of after c identity id) _ h1 in
    convert_columns-Unique after identity cs (insert c.name w values) e values' id'
      (insert-Unique c.name w values u) h2
