-- ===== src/Stream.antt =====
-- internal/stream/stream.go: the types that every other package shares.
use postie.Encoding.{Json}
use postie.Prelude.{[], Option, ℕ, String, Bool, true, false, List, ℤ, pos, leb_ℤ}

-- `pg_type.typname`: the constants of the source, and any other name.
pub data PgType : Type 0 where
  int2 int4 int8 float4 float8 bool json bytea timestamp timestamptz text : PgType
  other : String → PgType

unfoldable pub supported : PgType → Bool
supported (other name) = false
supported _ = true

unfoldable pub integer : PgType → Bool
integer int2 = true
integer int4 = true
integer int8 = true
integer _ = false

pub record Column : Type 0 where
  pub name : String
  pub type : PgType

pub record Identity : Type 0 where
  pub table : String
  pub serial_column : String
  pub partitioning_column : String
  pub event_id_column : String
  pub partitions : ℤ  -- int32
  pub columns : List Column

pub record Names : Type 0 where
  pub topic_prefix : String
  pub topic : String
  pub connector : String
  pub slot : String
  pub publication : String

pub record Scope : Type 0 where
  pub namespace : String
  pub environment : String
  pub generation : ℤ

pub record Registration : Type 0 where
  pub source_id : String
  pub identity : Identity
  pub names : Names
  pub topic_id : List ℕ  -- [16]byte
  pub blocked : String

-- `Generation.Valid`
abbrev pub valid : ℤ → Bool
valid g = leb_ℤ (pos 1) g

pub record Source : Type 0 where
  pub id : String
  pub description : String
  pub table : String
  pub columns : List String
  pub serial_column : String
  pub partitioning_column : String

-- `Record`: the decoded event. The payload is JSON text.
pub record Record : Type 0 where
  pub source : Source
  pub payload : Option Json
  pub topic : String
  pub partition : ℤ  -- int32
  pub offset : ℤ  -- int64
  pub event_id : String
  pub aggregate_id : String
  pub event_name : String
  pub generation : ℤ
  pub replay : Bool

-- `RawRecord`: the broker's record. Key and value are JSON texts.
pub record RawRecord : Type 0 where
  pub topic : String
  pub partition : ℤ
  pub offset : ℤ
  pub leader_epoch : ℤ
  pub key : Option Json
  pub value : Option Json
  pub historical : Bool

-- The zero values that a Go map gives for a missing key.
abbrev pub no_names : Names
no_names = record { topic_prefix = ""; topic = ""; connector = ""; slot = ""; publication = "" }

abbrev pub no_identity : Identity
no_identity = record {
  table = "";
  serial_column = "";
  partitioning_column = "";
  event_id_column = "";
  partitions = pos 0;
  columns = [];
}

-- The sixteen zero bytes of the topic's identifier are left empty.
abbrev pub no_registration : Registration
no_registration = record {
  source_id = "";
  identity = no_identity;
  names = no_names;
  topic_id = [];
  blocked = "";
}

abbrev pub no_source : Source
no_source = record {
  id = "";
  description = "";
  table = "";
  columns = [];
  serial_column = "";
  partitioning_column = "";
}
