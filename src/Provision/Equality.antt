-- ===== src/Provision/Equality.antt =====
-- The comparisons of internal/provision/inspect.go: `reflect.DeepEqual` of two identities, `==` of two
-- names. A configured source has columns, so no list of them is nil.
use postie.Prelude.{
  Bool, true, false, ◌&&◌, ◌≡◌, refl, List, [], ◌∷◌, ◌==◌, eq_iff, eq_refl, arith, ap, eqb_ℤ,
  eqb_ℤ_iff, Bytes, bytes_eq,
}
use postie.Stream.{
  PgType, int2, int4, int8, float4, float8, bool, json, bytea, timestamp, timestamptz, text, other,
  Column, Identity, Names,
}

unfoldable pub type_eq : PgType → PgType → Bool
type_eq int2 int2 = true
type_eq int4 int4 = true
type_eq int8 int8 = true
type_eq float4 float4 = true
type_eq float8 float8 = true
type_eq bool bool = true
type_eq json json = true
type_eq bytea bytea = true
type_eq timestamp timestamp = true
type_eq timestamptz timestamptz = true
type_eq text text = true
type_eq (other s) (other t) = s == t
type_eq _ _ = false

unfoldable pub columns_eq : List Column → List Column → Bool
unfolding type_eq
columns_eq [] [] = true
columns_eq (c ∷ cs) (d ∷ ds) = c.name == d.name && type_eq c.type d.type && columns_eq cs ds
columns_eq _ _ = false

unfoldable pub identity_eq : Identity → Identity → Bool
unfolding columns_eq
identity_eq a b =
    a.table == b.table
    && a.serial_column == b.serial_column
    && a.partitioning_column == b.partitioning_column
    && a.event_id_column == b.event_id_column
    && eqb_ℤ a.partitions b.partitions
    && columns_eq a.columns b.columns

unfoldable pub names_eq : Names → Names → Bool
names_eq a b =
    a.topic_prefix == b.topic_prefix
    && a.topic == b.topic
    && a.connector == b.connector
    && a.slot == b.slot
    && a.publication == b.publication

pub bytes_eq→eq : (a b : Bytes) → bytes_eq a b ≡ true → a ≡ b
bytes_eq→eq [] [] h = refl
bytes_eq→eq [] (y ∷ ys) h = cc
bytes_eq→eq (x ∷ xs) [] h = cc
bytes_eq→eq (x ∷ xs) (y ∷ ys) h = ground (arith, bytes_eq→eq xs ys)

type_eq→eq : (a b : PgType) → type_eq a b ≡ true → a ≡ b
unfolding type_eq
type_eq→eq (other s) (other t) h = ap other ((eq_iff s t).0 h)
type_eq→eq a b h = ground arith

column_ext : (c d : Column) → c.name ≡ d.name → c.type ≡ d.type → c ≡ d
column_ext c d h k = rw (h, k) refl

columns_eq→eq : (a b : List Column) → columns_eq a b ≡ true → a ≡ b
unfolding columns_eq
columns_eq→eq [] [] h = refl
columns_eq→eq (c ∷ cs) (d ∷ ds) h =
    ground
      (arith, eq_iff c.name d.name, type_eq→eq c.type d.type, columns_eq→eq cs ds, column_ext c d)
columns_eq→eq _ _ h = cc

identity_ext :
    (a b : Identity)
    → a.table ≡ b.table
    → a.serial_column ≡ b.serial_column
    → a.partitioning_column ≡ b.partitioning_column
    → a.event_id_column ≡ b.event_id_column
    → a.partitions ≡ b.partitions
    → a.columns ≡ b.columns
    → a ≡ b
identity_ext a b h1 h2 h3 h4 h5 h6 = rw (h1, h2, h3, h4, h5, h6) refl

pub identity_eq→eq : (a b : Identity) → identity_eq a b ≡ true → a ≡ b
unfolding identity_eq
identity_eq→eq a b h =
    identity_ext a b (ground (arith, eq_iff a.table b.table))
      (ground (arith, eq_iff a.serial_column b.serial_column))
      (ground (arith, eq_iff a.partitioning_column b.partitioning_column))
      (ground (arith, eq_iff a.event_id_column b.event_id_column))
      (ground (arith, eqb_ℤ_iff a.partitions b.partitions))
      (ground (arith, columns_eq→eq a.columns b.columns))

names_ext :
    (a b : Names)
    → a.topic_prefix ≡ b.topic_prefix
    → a.topic ≡ b.topic
    → a.connector ≡ b.connector
    → a.slot ≡ b.slot
    → a.publication ≡ b.publication
    → a ≡ b
names_ext a b h1 h2 h3 h4 h5 = rw (h1, h2, h3, h4, h5) refl

pub names_eq→eq : (a b : Names) → names_eq a b ≡ true → a ≡ b
unfolding names_eq
names_eq→eq a b h =
    names_ext a b (ground (arith, eq_iff a.topic_prefix b.topic_prefix))
      (ground (arith, eq_iff a.topic b.topic)) (ground (arith, eq_iff a.connector b.connector))
      (ground (arith, eq_iff a.slot b.slot)) (ground (arith, eq_iff a.publication b.publication))

type_eq_refl : (a : PgType) → type_eq a a ≡ true
unfolding type_eq
type_eq_refl (other s) = eq_refl s
type_eq_refl a = ground arith

columns_eq_refl : (a : List Column) → columns_eq a a ≡ true
unfolding columns_eq
columns_eq_refl [] = refl
columns_eq_refl (c ∷ cs) = ground (arith, eq_refl c.name, type_eq_refl c.type, columns_eq_refl cs)

pub identity_eq_refl : (a : Identity) → identity_eq a a ≡ true
unfolding identity_eq
identity_eq_refl a = ground (
  arith,
  eq_refl a.table,
  eq_refl a.serial_column,
  eq_refl a.partitioning_column,
  eq_refl a.event_id_column,
  (eqb_ℤ_iff a.partitions a.partitions).1 refl,
  columns_eq_refl a.columns,
)

pub names_eq_refl : (a : Names) → names_eq a a ≡ true
unfolding names_eq
names_eq_refl a = ground (
  arith,
  eq_refl a.topic_prefix,
  eq_refl a.topic,
  eq_refl a.connector,
  eq_refl a.slot,
  eq_refl a.publication,
)
