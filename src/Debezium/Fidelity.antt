-- ===== src/Debezium/Fidelity.antt =====
-- What a record that `Decode` (internal/adapters/debezium/decode.go) accepts has to do with the raw one.
use mathlib.Core.Option
use mathlib.Core.Path.{subst}
use postie.Prelude.{
  String, true, false, ◌||◌, none, some, List, [], ◌∷◌, ◌==◌, ◌≡◌, ◌≢◌, refl, sym, ap, ◌∙◌, eq_iff,
  Dict, lookup, arith, Bool-cases, inl, inr, ◌⊎◌, contains, All, ℤ,
}
use postie.Prelude.Tries.{ok, >>=-elim, ok-injective}
use postie.Encoding.{Json, null, obj, Members, last_member}
use postie.Encoding.Marshal.{marshalled, marshal_map}
use postie.Encoding.Marshal.Reading.{Unique, last_member-marshal_map}
use postie.Stream.{Source, Identity, Column, Record, RawRecord}
use postie.Protocol.Values.{convert_value}
use postie.Debezium.{
  after_object, configured_values, convert_columns, validate_identity, decode, is_null,
  decoded_record,
}
use postie.Debezium.Coherence.{names_of, IsCoherent, validate_identity-IsCoherent}
use postie.Debezium.Objects.{}
use postie.Debezium.Envelope.{Says, IsOpened, after_object-IsOpened}
use postie.Debezium.Rows.{
  IsConverted, AreConverted, convert_columns-AreConverted, convert_columns-Unique,
}

-- A configured column of the row, and the member of the payload that it becomes.
pub record Carries (identity : Identity) (row payload : Members) (c : Column) : Type 0 where
  pub raw : Json
  pub converted : Json
  pub in_row : last_member c.name row ≡ some raw
  pub conversion : convert_value c.type raw ≡ ok converted
  pub in_payload : last_member c.name payload ≡ some (marshalled converted)
  pub required :
      (c.name == identity.serial_column || c.name == identity.partitioning_column) ≡ true
      → raw ≢ null

-- The event id is a text of the row that is not empty, or no column holds one.
abbrev pub Identifies : Identity → Members → String → Type 0
Identifies identity row event_id =
    Says row identity.event_id_column event_id × (event_id ≢ "")
    ⊎ (identity.event_id_column ≡ "") × (event_id ≡ "")

pub record IsDecoded (source : Source) (identity : Identity) (generation : ℤ) (raw : RawRecord)
    (r : Record) : Type 0 where
  pub coherent : IsCoherent source identity generation
  pub row : Members
  pub opened : IsOpened source identity raw row
  pub members : Members
  pub payload : r.payload ≡ some (obj members)
  pub complete : All (Carries identity row members) identity.columns
  pub nothing_else :
      (k : String) → contains (names_of identity.columns) k ≡ false → last_member k members ≡ none
  pub event : Identifies identity row r.event_id
  pub same_source : r.source ≡ source
  pub same_generation : r.generation ≡ generation
  pub position : (r.topic ≡ raw.topic) × (r.partition ≡ raw.partition) × (r.offset ≡ raw.offset)

All-map :
    {P Q : Column → Type 0} (cs : List Column) → ((c : Column) → P c → Q c) → All P cs → All Q cs
All-map [] f h = tt
All-map (c ∷ cs) f h = (f c h.0, All-map cs f h.1)

not_null : (v : Json) → is_null v ≡ false → v ≢ null
unfolding is_null
not_null null h e = cc
not_null _ h e = cc

converted-Carries :
    (identity : Identity) (after values : Dict Json) (row : Members) (c : Column)
    → ((k : String) → lookup k after ≡ last_member k row)
    → Unique values
    → IsConverted after identity c (lookup c.name values)
    → Carries identity row (marshal_map values) c
converted-Carries identity after values row c same u x = record {
  raw = x.raw;
  converted = x.converted;
  in_row = sym (same c.name) ∙ x.present;
  conversion = x.conversion;
  in_payload = last_member-marshal_map c.name values u ∙ ap (Option.map marshalled) x.result;
  required = λ e. not_null x.raw (x.required e);
}

module _ (source : Source) (identity : Identity) (generation : ℤ) (raw : RawRecord) where
  identified :
      (coherent : IsCoherent source identity generation) (after : Dict Json) (row : Members)
      (values : Dict Json) (id : String)
      → ((k : String) → lookup k after ≡ last_member k row)
      → AreConverted after identity identity.columns [] "" values id
      → Identifies identity row id
  identified coherent after row values id same x =
      elim (Bool-cases (contains (names_of identity.columns) identity.event_id_column)) [
        | inl among ↦
            let t = x.event among in
            inl ((t.literal, sym (same identity.event_id_column) ∙ t.present), t.given)
        | inr absent ↦ inr (
          ground (arith, coherent.event_id_known, eq_iff identity.event_id_column ""),
          x.untouched absent,
        )
      ]

  decoded :
      (after : Dict Json) (values : Dict Json) (id : String)
      → IsCoherent source identity generation
      → (row : Members) × ((k : String) → lookup k after ≡ last_member k row)
        × IsOpened source identity raw row
      → convert_columns after identity identity.columns [] "" ≡ ok (values, id)
      → IsDecoded source identity generation raw (decoded_record source generation raw values id)
  unfolding decoded_record
  decoded after values id coherent (row, same, opened) h =
      let x =
        convert_columns-AreConverted after identity [] identity.columns [] "" values id
          coherent.distinct h in
      let u = convert_columns-Unique after identity identity.columns [] "" values id tt h in
      record {
        coherent = coherent;
        row = row;
        opened = opened;
        members = marshal_map values;
        payload = refl;
        complete =
            All-map identity.columns (λ c y. converted-Carries identity after values row c same u y)
              x.done;
        nothing_else = λ k absent.
            last_member-marshal_map k values u ∙ ap (Option.map marshalled) (x.kept k absent);
        event = identified coherent after row values id same x;
        same_source = refl;
        same_generation = refl;
        position = (refl, refl, refl);
      }

  -- `Decode` accepts only a record that is an insert or a snapshot read of the configured table, for
  -- an identity that agrees with the configuration, and whose key holds the partitioning column alone,
  -- spelled as in the row. Its payload then has a member for each configured column, the conversion of
  -- the row's, and no other; the serial and the partitioning column are not null; the event id is the
  -- text of its column, or empty where none is configured; and position and source are kept.
  pub decode-IsDecoded :
      (r : Record)
      → decode source identity generation (some raw) ≡ ok r
      → IsDecoded source identity generation raw r
  unfolding decode configured_values decoded_record
  decode-IsDecoded r h = >>=-elim (validate_identity source identity generation) _ h λ u e0 h0.
      >>=-elim (after_object raw source identity) _ h0 λ after e1 h1.
        >>=-elim (convert_columns after identity identity.columns [] "") _ h1 λ result e2 h2.
          let coherent = validate_identity-IsCoherent source identity generation e0 in
          subst (IsDecoded source identity generation raw) (ok-injective h2) (
            decoded after result.0 result.1 coherent
              (after_object-IsOpened source identity raw after coherent.table_given e1) e2)
