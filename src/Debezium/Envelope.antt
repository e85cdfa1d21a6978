-- ===== src/Debezium/Envelope.antt =====
-- The envelope, the source metadata and the key that `Decode` (internal/adapters/debezium/decode.go)
-- accepts.
use mathlib.Core.Path.{subst}
use postie.Prelude.{
  String, false, not, ◌&&◌, Option, none, some, [], ◌∷◌, ◌==◌, ◌≡◌, ◌≢◌, refl, sym, ◌∙◌,
  ne_of_false, eq_iff, Dict, lookup, arith, Bool-cases, inl, inr, ◌⊎◌, Bytes, length, eqb, eqb_iff,
}
use postie.Prelude.Tries.{ok, >>=-elim, or_fail-ok, fail_if-ok, fail_if, or_fail}
use postie.Encoding.{Json, null, str, obj, Members, last_member}
use postie.Stream.{Source, Identity, RawRecord}
use postie.Debezium.{
  decode_object, string_field, present, validate_source, validate_key, after_object, key_missing,
  after_key_null, check_key_value, key_not_single, operation_unsupported, after_missing,
  source_missing,
}
use postie.Debezium.Objects.{
  IsObject, decode_object-IsObject, string_field-text, Spelled, same_text-Spelled,
}
use postie.Debezium.Rows.{}

-- A member that is a text, whatever its spelling.
abbrev pub Says : Members → String → String → Type 0
Says ms key text = (literal : Bytes) × (last_member key ms ≡ some (str literal text))

-- The source metadata names the public schema and the configured table.
pub record IsFrom (source : Source) (envelope : Members) : Type 0 where
  pub metadata : Members
  pub given : last_member "source" envelope ≡ some (obj metadata)
  pub schema : Says metadata "schema" "public"
  pub table : Says metadata "table" source.table

-- The key holds one member, the partitioning column, spelled as in the row.
pub record IsKeyed (identity : Identity) (raw : Option Json) (row : Members) : Type 0 where
  pub key : Members
  pub text : raw ≡ some (obj key)
  pub key_value : Json
  pub row_value : Json
  pub in_key : last_member identity.partitioning_column key ≡ some key_value
  pub in_row : last_member identity.partitioning_column row ≡ some row_value
  pub not_null : key_value ≢ null
  pub spelled : Spelled key_value row_value
  pub alone : (k : String) → k ≢ identity.partitioning_column → last_member k key ≡ none

string_member :
    (object : Dict Json) (raw : Option Json) (name context text : String) (x : IsObject raw object)
    → string_field object name context ≡ ok text
    → text ≢ ""
    → Says x.members name text
string_member object raw name context text x h given =
    let (literal, e) = string_field-text object name context text h given in
    (literal, sym (x.same name) ∙ e)

validate_source-IsFrom :
    (raw : Option Json) (envelope : Dict Json) (source : Source) (x : IsObject raw envelope)
    → source.table ≢ ""
    → validate_source envelope source ≡ ok tt
    → IsFrom source x.members
unfolding validate_source
validate_source-IsFrom raw envelope source x given h =
    >>=-elim (or_fail (lookup "source" envelope) source_missing) _ h λ found e0 h0.
      >>=-elim (decode_object "source metadata" (some found)) _ h0 λ metadata e1 h1.
        >>=-elim (string_field metadata "schema" "source metadata") _ h1 λ schema e2 h2.
          >>=-elim (string_field metadata "table" "source metadata") _ h2 λ table e3 h3.
            let y = decode_object-IsObject "source metadata" (some found) metadata e1 in
            let is_public : schema ≡ "public" = ground (arith, eq_iff schema "public") in
            let is_table : table ≡ source.table = ground (arith, eq_iff table source.table) in
            record {
              metadata = y.members;
              given = sym (x.same "source") ∙ or_fail-ok (lookup "source" envelope) _ e0 ∙ y.text;
              schema = subst (Says y.members "schema") is_public (
                  string_member metadata (some found) "schema" _ schema y e2
                    (λ e. ne_of_false "public" "" refl (sym is_public ∙ e)));
              table = subst (Says y.members "table") is_table (
                  string_member metadata (some found) "table" _ table y e3
                    (λ e. given (sym is_table ∙ e)));
            }

present-some : (o : Option Json) (v : Json) → present o ≡ some v → (o ≡ some v) × (v ≢ null)
unfolding present
present-some (some null) v h = cc
present-some none v h = cc
present-some (some w) v h = (h, λ e. cc)

-- A map of one entry has no other key.
single :
    (d : Dict Json) (p : String) (v : Json) (k : String)
    → length d ≡ 1
    → lookup p d ≡ some v
    → k ≢ p
    → lookup k d ≡ none
single ((j, w) ∷ []) p v k len h other = ground (arith, eq_iff j p, eq_iff j k)
single [] p v k len h other = refl
single (a ∷ b ∷ d) p v k len h other = absurd (omega arith)

validate_key-IsKeyed :
    (identity : Identity) (raw image : Option Json) (after : Dict Json) (x : IsObject image after)
    → validate_key raw after identity ≡ ok tt
    → IsKeyed identity raw x.members
unfolding validate_key
validate_key-IsKeyed identity raw image after x h =
    >>=-elim (decode_object "Kafka key" raw) _ h λ key e0 h0.
      >>=-elim (fail_if (not (eqb (length key) 1)) key_not_single) _ h0 λ u e1 h1.
        >>=-elim (or_fail (present (lookup identity.partitioning_column key)) key_missing) _ h1
          λ kv e2 h2.
            >>=-elim (or_fail (present (lookup identity.partitioning_column after)) after_key_null)
              _ h2
              λ rv e3 h3.
                >>=-elim (check_key_value identity.partitioning_column kv identity.columns) _ h3
                  λ v e4 h4.
                    let y = decode_object-IsObject "Kafka key" raw key e0 in
                    let in_key = present-some _ kv (or_fail-ok _ _ e2) in
                    let in_row = present-some _ rv (or_fail-ok _ _ e3) in
                    record {
                      key = y.members;
                      text = y.text;
                      key_value = kv;
                      row_value = rv;
                      in_key = sym (y.same _) ∙ in_key.0;
                      in_row = sym (x.same _) ∙ in_row.0;
                      not_null = in_key.1;
                      spelled = same_text-Spelled kv rv (ground arith);
                      alone = λ k other.
                          sym (y.same k)
                          ∙ single key identity.partitioning_column kv k
                              (ground (arith, eqb_iff (length key) 1)) in_key.0 other;
                    }

-- The envelope is an insert or a snapshot read of the configured table, with its row.
pub record IsOpened (source : Source) (identity : Identity) (raw : RawRecord) (row : Members)
    : Type 0 where
  pub envelope : Members
  pub text : raw.value ≡ some (obj envelope)
  pub operation : Says envelope "op" "c" ⊎ Says envelope "op" "r"
  pub from : IsFrom source envelope
  pub image : last_member "after" envelope ≡ some (obj row)
  pub keyed : IsKeyed identity raw.key row

operation_cases :
    (op : String) → not (op == "c") && not (op == "r") ≡ false → (op ≡ "c") ⊎ (op ≡ "r")
operation_cases op h = elim (Bool-cases (op == "c")) [
  | inl e ↦ inl ((eq_iff op "c").0 e)
  | inr e ↦ inr ((eq_iff op "r").0 (ground arith))
]

Says-operation :
    {raw : Option Json} {envelope : Dict Json} {op : String} (x : IsObject raw envelope)
    → string_field envelope "op" "envelope" ≡ ok op
    → (op ≡ "c") ⊎ (op ≡ "r")
    → Says x.members "op" "c" ⊎ Says x.members "op" "r"
Says-operation {raw} {envelope} {op} x h (inl e) = inl (
    subst (Says x.members "op") e (
      string_member envelope raw "op" "envelope" op x h (λ q. ne_of_false "c" "" refl (sym e ∙ q))))
Says-operation {raw} {envelope} {op} x h (inr e) = inr (
    subst (Says x.members "op") e (
      string_member envelope raw "op" "envelope" op x h (λ q. ne_of_false "r" "" refl (sym e ∙ q))))

pub after_object-IsOpened :
    (source : Source) (identity : Identity) (raw : RawRecord) (after : Dict Json)
    → source.table ≢ ""
    → after_object raw source identity ≡ ok after
    → (row : Members) × ((k : String) → lookup k after ≡ last_member k row)
      × IsOpened source identity raw row
unfolding after_object
after_object-IsOpened source identity raw after given h =
    >>=-elim (decode_object "envelope" raw.value) _ h λ envelope e0 h0.
      >>=-elim (string_field envelope "op" "envelope") _ h0 λ op e1 h1.
        >>=-elim (fail_if (not (op == "c") && not (op == "r")) operation_unsupported) _ h1
          λ u e2 h2. >>=-elim (validate_source envelope source) _ h2 λ v e3 h3.
            >>=-elim (or_fail (present (lookup "after" envelope)) after_missing) _ h3 λ image e4 h4.
              >>=-elim (decode_object "after" (some image)) _ h4 λ found e5 h5.
                >>=-elim (validate_key raw.key found identity) _ h5 λ w e6 h6.
                  let x = decode_object-IsObject "envelope" raw.value envelope e0 in
                  let y = decode_object-IsObject "after" (some image) found e5 in
                  let is_after : found ≡ after = ground arith in
                  (
                    y.members,
                    subst (λ d. (k : String) → lookup k d ≡ last_member k y.members) is_after
                        y.same,
                    record {
                      envelope = x.members;
                      text = x.text;
                      operation = Says-operation x e1 (operation_cases op (fail_if-ok _ _ e2));
                      from = validate_source-IsFrom raw.value envelope source x given e3;
                      image =
                          sym (x.same "after")
                          ∙ (present-some _ image (or_fail-ok _ _ e4)).0
                          ∙ y.text;
                      keyed = validate_key-IsKeyed identity raw.key (some image) found y e6;
                    },
                  )
