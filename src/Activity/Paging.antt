-- ===== src/Activity/Paging.antt =====
-- Reading the log of internal/activity/log.go page by page.
use postie.Prelude.{
  ℕ, ◌+◌, ◌≤◌, ◌<◌, ◌≡◌, refl, ◌≢◌, ◌∙◌, ap, false, Option, none, some, List, [], ◌∷◌, ◌++◌, arith,
  Bytes, bytes_eq_refl, format_uint, cut-append, parse_uint-format_uint, u64_mod, length,
  length-append, drop-append, All,
}
use postie.Activity.{Entry, capacity, Log, new, cursor_for, parse_cursor, read}
use postie.Activity.History.{
  IsRing, new-IsRing, page, expected, expected_at, add_all, stamp_all, length-stamp_all,
  boot-add_all, add_all-IsRing, read-expected,
}

-- What `rand.Text` gives: a text that is not empty and has no colon.
abbrev pub IsBoot : Bytes → Type 0
IsBoot boot = (boot ≢ []) × All (λ c. c ≢ b':') boot

-- A cursor names its process and its position: for a boot text that is not empty and has no colon, and
-- a number below 2^64, it is read back as both.
pub parse_cursor-cursor_for :
    (boot : Bytes) (n : ℕ)
    → IsBoot boot
    → n < u64_mod
    → parse_cursor (cursor_for boot n) ≡ some (boot, n)
unfolding parse_cursor cursor_for
parse_cursor-cursor_for [] n h k = absurd (h.0 refl)
parse_cursor-cursor_for (c ∷ s) n h k =
    rw (cut-append b':' (c ∷ s) (format_uint n) h.1) (rw (parse_uint-format_uint n k))

boot-history :
    (boot : Bytes) (writer : Option (List Entry)) (batch : List (ℕ × Entry))
    → (add_all batch (new boot writer)).boot ≡ boot
unfolding new
boot-history boot writer batch = boot-add_all batch (new boot writer)

pub history-IsRing :
    (boot : Bytes) (writer : Option (List Entry)) (batch : List (ℕ × Entry))
    → length batch < u64_mod
    → IsRing (add_all batch (new boot writer)) (stamp_all boot 0 batch)
unfolding new
history-IsRing boot writer batch small =
    add_all-IsRing batch (new boot writer) [] (omega arith) (new-IsRing boot writer)

-- Whatever was added to a new log, fewer than 2^64 - 1 entries, and whatever the cursor, `read`
-- answers as the whole history of stored entries says: the error for a cursor that does not parse,
-- the entries after a cursor of this process that is at most 1000 entries old, and otherwise the
-- last 1000 entries, with `reset` unless the cursor is empty.
pub read_history :
    (boot : Bytes) (writer : Option (List Entry)) (batch : List (ℕ × Entry)) (cursor : Bytes)
    → length batch + 1 < u64_mod
    → read cursor (add_all batch (new boot writer)) ≡ expected boot (stamp_all boot 0 batch) cursor
read_history boot writer batch cursor small =
    let l = add_all batch (new boot writer) in
    read-expected l (stamp_all boot 0 batch) cursor (omega (arith, length-stamp_all boot 0 batch))
      (history-IsRing boot writer batch (omega arith))
    ∙ ap (λ b. expected b (stamp_all boot 0 batch) cursor) (boot-history boot writer batch)

-- What a recent cursor of this process reads.
expected-cursor_for :
    (boot : Bytes) (history : List Entry) (n : ℕ)
    → IsBoot boot
    → n < u64_mod
    → n ≤ length history
    → length history ≤ n + capacity
    → expected boot history (cursor_for boot n) ≡ (page boot history n false, none)
unfolding expected cursor_for expected_at
expected-cursor_for [] history n b small h k = absurd (b.0 refl)
expected-cursor_for (c ∷ s) history n b small h k =
    ap (expected_at (c ∷ s) history) (parse_cursor-cursor_for (c ∷ s) n b small)
    ∙ ground (arith, bytes_eq_refl (c ∷ s))

resume :
    (l : Log) (history : List Entry) (fresh : List (ℕ × Entry))
    → IsRing l history
    → IsBoot l.boot
    → length history + length fresh + 1 < u64_mod
    → length fresh ≤ capacity
    → read (cursor_for l.boot (length history)) (add_all fresh l) ≡ (
      page l.boot (history ++ stamp_all l.boot (length history) fresh) (length history) false,
      none,
    )
resume l history fresh r b small few =
    let batch = stamp_all l.boot (length history) fresh in
    let cursor = cursor_for l.boot (length history) in
    let longer : length (history ++ batch) ≡ length history + length fresh =
      omega (arith, length-append history batch, length-stamp_all l.boot (length history) fresh) in
    read-expected (add_all fresh l) (history ++ batch) cursor (omega arith)
      (add_all-IsRing fresh l history (omega arith) r)
    ∙ ap (λ b'. expected b' (history ++ batch) cursor) (boot-add_all fresh l)
    ∙ expected-cursor_for l.boot (history ++ batch) (length history) b (omega arith) (omega arith)
        (omega arith)

-- A reader that comes back with the cursor of its last page, before more than 1000 entries were
-- added to a log that holds the last part of its history, gets exactly the entries added in
-- between, in order, the cursor behind them, and no reset.
pub poll_lem :
    (l : Log) (history : List Entry) (fresh : List (ℕ × Entry))
    → IsRing l history
    → IsBoot l.boot
    → length history + length fresh + 1 < u64_mod
    → length fresh ≤ capacity
    → read (read [] l).0.next_cursor (add_all fresh l) ≡ (
      record {
        entries = stamp_all l.boot (length history) fresh;
        next_cursor = cursor_for l.boot (length history + length fresh);
        reset = false;
      },
      none,
    )
unfolding expected
poll_lem l history fresh r b small few =
    let batch = stamp_all l.boot (length history) fresh in
    let longer : length (history ++ batch) ≡ length history + length fresh =
      omega (arith, length-append history batch, length-stamp_all l.boot (length history) fresh) in
    let cursor : (read [] l).0.next_cursor ≡ cursor_for l.boot (length history) =
      ap (λ p. p.0.next_cursor) (read-expected l history [] (omega arith) r) in
    ap (λ c. read c (add_all fresh l)) cursor
    ∙ resume l history fresh r b small few
    ∙ rw (drop-append history batch, longer)
