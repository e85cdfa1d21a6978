-- ===== src/Activity.antt =====
-- internal/activity/log.go: the bounded log of engine activity. The mutex makes each operation one
-- step, so a method is a function from the log to the new log. `time.Now` is an argument of `add`,
-- and the JSON lines that go to `writer` are the entries themselves.
pub mod History
pub mod Paging
use postie.Prelude.{
  ℕ, zero, suc, ◌+◌, ◌-◌, ◌%◌, max, String, Bool, true, false, not, ◌||◌, Option, none, some, List,
  [], ◌∷◌, ◌++◌, ◌==◌, if◌then◌else◌, ltb, eqb, is_some, ℤ, pos, Bytes, bytes_eq, cut, format_uint,
  parse_uint, u64_mod,
}

pub record Entry : Type 0 where
  pub id : Bytes
  pub time : ℕ
  pub level : String
  pub message : String
  pub source : String
  pub destination : String
  pub generation : ℤ
  pub topic : String
  pub partition : ℤ  -- int32
  pub offset : ℤ  -- int64
  pub event_id : String
  pub aggregate_id : String
  pub event_name : String
  pub attempt : ℕ
  pub outcome : String
  pub error : String

-- The zero value of an `Entry`.
abbrev pub no_entry : Entry
no_entry = record {
  id = [];
  time = 0;
  level = "";
  message = "";
  source = "";
  destination = "";
  generation = pos 0;
  topic = "";
  partition = pos 0;
  offset = pos 0;
  event_id = "";
  aggregate_id = "";
  event_name = "";
  attempt = 0;
  outcome = "";
  error = "";
}

pub record Page : Type 0 where
  pub entries : List Entry
  pub next_cursor : Bytes
  pub reset : Bool

abbrev pub capacity : ℕ
capacity = 1000

-- `entries` is read and written below `capacity` only. `writer` holds what was written, if there
-- is a writer.
pub record Log : Type 0 where
  pub boot : Bytes
  pub sequence : ℕ  -- uint64
  pub entries : ℕ → Entry
  pub writer : Option (List Entry)

-- `boot` is drawn by `rand.Text`.
unfoldable pub new : Bytes → Option (List Entry) → Log
new boot writer = record { boot = boot; sequence = 0; entries = λ _. no_entry; writer = writer }

unfoldable pub cursor_for : Bytes → ℕ → Bytes
cursor_for boot sequence = boot ++ b':' ∷ format_uint sequence

parse_number : Bytes → Option ℕ → Option (Bytes × ℕ)
parse_number boot none = none
parse_number boot (some sequence) = some (boot, sequence)

-- The two sides of the first colon; the left one must not be empty.
parse_parts : Option (Bytes × Bytes) → Option (Bytes × ℕ)
unfolding parse_number
parse_parts none = none
parse_parts (some ([], number)) = none
parse_parts (some (c ∷ s, number)) = parse_number (c ∷ s) (parse_uint number)

unfoldable pub parse_cursor : Bytes → Option (Bytes × ℕ)
unfolding parse_parts
parse_cursor cursor = parse_parts (cut b':' cursor)

unfoldable pub slot : ℕ → ℕ
slot sequence = sequence % capacity

unfoldable pub first_unread : ℕ → ℕ → ℕ
first_unread sequence after =
    let oldest = (max sequence capacity - capacity + 1) % u64_mod in
    max oldest ((after + 1) % u64_mod)

-- An assignment to one element of the array.
unfoldable pub update : (ℕ → Entry) → ℕ → Entry → ℕ → Entry
update entries i e j = if eqb i j then e else entries j

-- What `Add` stores: the entry with its id, the time and a level.
unfoldable pub stamp : Bytes → ℕ → ℕ → Entry → Entry
stamp boot sequence now e = record e {
  id = cursor_for boot sequence;
  time = now;
  level = if e.level == "" then "info" else e.level;
}

write_line : Option (List Entry) → Entry → Option (List Entry)
write_line none e = none
write_line (some lines) e = some (lines ++ e ∷ [])

unfoldable pub add : ℕ → Entry → Log → Log
unfolding write_line
add now e l =
    let sequence = (l.sequence + 1) % u64_mod in
    let e' = stamp l.boot sequence now e in
    record l {
      sequence = sequence;
      entries = update l.entries (slot sequence) e';
      writer = write_line l.writer e';
    }

-- The loop of `Read`: `count` rounds from entry `n`.
unfoldable pub collect : (ℕ → Entry) → ℕ → ℕ → List Entry
collect entries n zero = []
collect entries n (suc count) = entries (slot n) ∷ collect entries (n + 1) count

-- `sequence > l.sequence` is tested first, so the subtraction does not wrap.
unfoldable pub is_stale : Log → Bytes → ℕ → Bool
is_stale l boot sequence =
    not (bytes_eq boot l.boot) || ltb l.sequence sequence || ltb capacity (l.sequence - sequence)

page_after : Log → ℕ → Bool → Page
unfolding first_unread collect slot
page_after l after reset =
    let first = first_unread l.sequence after in
    record {
      entries = collect l.entries first (l.sequence + 1 - first);
      next_cursor = cursor_for l.boot l.sequence;
      reset = reset;
    }

unfoldable pub invalid_cursor : String
invalid_cursor = "invalid log cursor"

-- `Read` behind the parse of a cursor that is not empty; `none` is a cursor that does not parse.
read_at : Log → Option (Bytes × ℕ) → Page × Option String
unfolding page_after is_stale invalid_cursor
read_at l none = (
  record { entries = []; next_cursor = cursor_for l.boot l.sequence; reset = false },
  some invalid_cursor,
)
read_at l (some (boot, sequence)) =
    let reset = is_stale l boot sequence in
    (page_after l (if reset then 0 else sequence) reset, none)

-- The page, and the error if there is one.
unfoldable pub read : Bytes → Log → Page × Option String
unfolding page_after read_at
read [] l = (page_after l 0 false, none)
read (c ∷ s) l = read_at l (parse_cursor (c ∷ s))
