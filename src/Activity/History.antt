-- ===== src/Activity/History.antt =====
-- The ring buffer of internal/activity/log.go against the whole history of added entries.
use postie.Prelude.{
  ℕ, zero, suc, ◌+◌, ◌-◌, ◌%◌, ◌≤◌, ◌<◌, ◌≡◌, refl, ◌≢◌, String, Bool, false, true, ◌&&◌, Option,
  none, some, List, [], ◌∷◌, ◌++◌, arith, if◌then◌else◌, leb, Bytes, bytes_eq, u64_mod, length,
  drop, get_or, sym, ap, ◌∙◌, length-append, drop-get_or, drop-length, get_or-append_left,
  get_or-append_last,
}
use mathlib.Core.List.{append-nil, append_assoc}
use native.Mathlib.Decide.{dec_lt}
use postie.Activity.{
  Entry, no_entry, Page, capacity, Log, new, cursor_for, parse_cursor, slot, update, stamp, add,
  collect, first_unread, is_stale, page_after, read_at, read, invalid_cursor,
}

-- Entry `i` of the history, if it is among the last `capacity`, lies in the slot of its number.
pub record IsRing (l : Log) (history : List Entry) : Type 0 where
  pub counted : l.sequence ≡ length history
  pub kept :
      (i : ℕ)
      → i < length history
      → length history ≤ i + capacity
      → l.entries (slot (i + 1)) ≡ get_or history i no_entry

pub new-IsRing : (boot : Bytes) (writer : Option (List Entry)) → IsRing (new boot writer) []
unfolding new
new-IsRing boot writer = record { counted = refl; kept = λ i h k. elim h [ ] }

slot_ne : (i n : ℕ) → i < n → n < i + capacity → slot n ≢ slot i
unfolding slot
slot_ne i n h k = omega arith

update_self : (entries : ℕ → Entry) (i : ℕ) (e : Entry) → update entries i e i ≡ e
unfolding update
update_self entries i e = ground arith

update_ne : (entries : ℕ → Entry) (i j : ℕ) (e : Entry) → i ≢ j → update entries i e j ≡ entries j
unfolding update
update_ne entries i j e h = ground arith

kept-update :
    (entries : ℕ → Entry) (history : List Entry) (e : Entry) (i : ℕ)
    → (i < length history
        → length history ≤ i + capacity
        → entries (slot (i + 1)) ≡ get_or history i no_entry)
    → i < length history + 1
    → length history + 1 ≤ i + capacity
    → update entries (slot (length history + 1)) e (slot (i + 1))
      ≡ get_or (history ++ e ∷ []) i no_entry
kept-update entries history e i old h k = elim (dec_lt i (length history)) [
  | yes p ↦
      update_ne entries _ _ e (slot_ne (i + 1) (length history + 1) (omega arith) (omega arith))
      ∙ old p (omega arith)
      ∙ sym (get_or-append_left history (e ∷ []) i no_entry p)
  | no p ↦
      let same : i ≡ length history = omega arith in
      rw same (
        update_self entries (slot (length history + 1)) e
        ∙ sym (get_or-append_last history e no_entry))
]

-- What `add` stores for an entry that comes after `history`.
abbrev pub stored : Bytes → List Entry → ℕ → Entry → Entry
stored boot history now e = stamp boot (length history + 1) now e

-- `add` appends to the history.
pub add-IsRing :
    (l : Log) (history : List Entry) (now : ℕ) (e : Entry)
    → length history + 1 < u64_mod
    → IsRing l history
    → IsRing (add now e l) (history ++ stored l.boot history now e ∷ [])
unfolding add
add-IsRing l history now e small r =
    let e' = stored l.boot history now e in
    let same : (l.sequence + 1) % u64_mod ≡ length history + 1 = omega (arith, r.counted) in
    record {
      counted = omega (arith, r.counted, length-append history (e' ∷ []));
      kept = λ i h k. rw same (
          kept-update l.entries history e' i (r.kept i)
            (omega (arith, length-append history (e' ∷ [])))
            (omega (arith, length-append history (e' ∷ []))));
    }

-- The loop reads a suffix of the history.
collect-drop :
    (l : Log) (history : List Entry) (n count : ℕ)
    → IsRing l history
    → n + count ≡ length history
    → length history ≤ n + capacity
    → collect l.entries (n + 1) count ≡ drop n history
unfolding collect
collect-drop l history n zero r e k = sym (drop-length n history (omega arith))
collect-drop l history n (suc count) r e k =
    let inside : n < length history = omega arith in
    let next : n + 1 ≡ suc n = omega arith in
    rw (drop-get_or n history no_entry inside, r.kept n inside k)
      (ap (λ xs. get_or history n no_entry ∷ xs)
        (collect-drop l history (n + 1) count r (omega arith) (omega arith)
          ∙ ap (λ m. drop m history) next))

-- A page of the history after its entry number `n`.
abbrev pub page : Bytes → List Entry → ℕ → Bool → Page
page boot history n reset = record {
  entries = drop n history;
  next_cursor = cursor_for boot (length history);
  reset = reset;
}

unfoldable pub expected_at : Bytes → List Entry → Option (Bytes × ℕ) → Page × Option String
unfolding invalid_cursor
expected_at boot history none = (
  record { entries = []; next_cursor = cursor_for boot (length history); reset = false },
  some invalid_cursor,
)
expected_at boot history (some (owner, n)) =
    if bytes_eq owner boot && leb n (length history) && leb (length history) (n + capacity)
    then (page boot history n false, none)
    else (page boot history (length history - capacity) true, none)

-- What `read` promises, in terms of the history alone.
unfoldable pub expected : Bytes → List Entry → Bytes → Page × Option String
unfolding expected_at
expected boot history [] = (page boot history (length history - capacity) false, none)
expected boot history (c ∷ s) = expected_at boot history (parse_cursor (c ∷ s))

page_after-page :
    (l : Log) (history : List Entry) (after n : ℕ) (reset : Bool)
    → IsRing l history
    → first_unread (length history) after ≡ n + 1
    → n ≤ length history
    → length history ≤ n + capacity
    → page_after l after reset ≡ page l.boot history n reset
unfolding page_after
page_after-page l history after n reset r first h k =
    rw (r.counted, first)
      (rw (collect-drop l history n (length history + 1 - (n + 1)) r (omega arith) k))

first_unread-zero :
    (sequence : ℕ) → sequence + 1 < u64_mod → first_unread sequence 0 ≡ sequence - capacity + 1
unfolding first_unread
first_unread-zero sequence h = omega arith

first_unread_recent :
    (sequence after : ℕ)
    → sequence + 1 < u64_mod
    → after ≤ sequence
    → sequence ≤ after + capacity
    → first_unread sequence after ≡ after + 1
unfolding first_unread
first_unread_recent sequence after h k m = omega arith

read_at-expected :
    (l : Log) (history : List Entry) (parsed : Option (Bytes × ℕ))
    → length history + 1 < u64_mod
    → IsRing l history
    → read_at l parsed ≡ expected_at l.boot history parsed
unfolding read_at expected_at is_stale
read_at-expected l history none small r = rw r.counted
read_at-expected l history (some (owner, n)) small r = ground (
  arith,
  r.counted,
  page_after-page l history n n false r,
  page_after-page l history 0 (length history - capacity) true r,
  first_unread-zero (length history) small,
  first_unread_recent (length history) n small,
)

-- The reading of a ring is the reading of its history.
pub read-expected :
    (l : Log) (history : List Entry) (cursor : Bytes)
    → length history + 1 < u64_mod
    → IsRing l history
    → read cursor l ≡ expected l.boot history cursor
unfolding read expected
read-expected l history [] small r = rw (
    page_after-page l history 0 (length history - capacity) false r
      (first_unread-zero (length history) small) (omega arith) (omega arith))
read-expected l history (c ∷ s) small r = read_at-expected l history (parse_cursor (c ∷ s)) small r

-- A run of `add`, each with its time.
unfoldable pub add_all : List (ℕ × Entry) → Log → Log
add_all [] l = l
add_all ((now, e) ∷ batch) l = add_all batch (add now e l)

-- What they store behind an entry with this number.
unfoldable pub stamp_all : Bytes → ℕ → List (ℕ × Entry) → List Entry
stamp_all boot sequence [] = []
stamp_all boot sequence ((now, e) ∷ batch) =
    stamp boot (sequence + 1) now e ∷ stamp_all boot (sequence + 1) batch

pub length-stamp_all :
    (boot : Bytes) (n : ℕ) (batch : List (ℕ × Entry))
    → length (stamp_all boot n batch) ≡ length batch
unfolding stamp_all
length-stamp_all boot n [] = refl
length-stamp_all boot n ((now, e) ∷ batch) = ap suc (length-stamp_all boot (n + 1) batch)

pub boot-add_all : (batch : List (ℕ × Entry)) (l : Log) → (add_all batch l).boot ≡ l.boot
unfolding add_all add
boot-add_all [] l = refl
boot-add_all ((now, e) ∷ batch) l = boot-add_all batch (add now e l)

pub add_all-IsRing :
    (batch : List (ℕ × Entry)) (l : Log) (history : List Entry)
    → length history + length batch < u64_mod
    → IsRing l history
    → IsRing (add_all batch l) (history ++ stamp_all l.boot (length history) batch)
unfolding add_all stamp_all add
add_all-IsRing [] l history small r = rw append-nil r
add_all-IsRing ((now, e) ∷ batch) l history small r =
    let e' = stored l.boot history now e in
    let longer : length (history ++ e' ∷ []) ≡ length history + 1 =
      omega (arith, length-append history (e' ∷ [])) in
    let ih =
      add_all-IsRing batch (add now e l) (history ++ e' ∷ []) (omega arith)
        (add-IsRing l history now e (omega arith) r) in
    rw (longer, append_assoc) at ih
