-- ===== src/Tests/Logs.antt =====
-- The log of internal/activity/log.go on a few entries.
use postie.Prelude.{◌≡◌, none, some, List, [], ◌∷◌, arith, Bytes, ℕ, false}
use postie.Activity.{Entry, no_entry, add, new, cursor_for, parse_cursor, read}
use postie.Activity.History.{expected, add_all, stamp_all}
use postie.Activity.Paging.{IsBoot, parse_cursor-cursor_for, history-IsRing, read_history, poll_lem}

abbrev boot : Bytes
boot = b'a' ∷ b'b' ∷ []

boot-IsBoot : IsBoot boot
boot-IsBoot = (cc, (omega arith, (omega arith, tt)))

abbrev batch : List (ℕ × Entry)
batch = (5, record no_entry { message = "started" }) ∷ (7, record no_entry { level = "error" }) ∷ []

abbrev fresh : List (ℕ × Entry)
fresh = (9, record no_entry { message = "ready" }) ∷ []

parse_cursor-cursor_for_example : parse_cursor (cursor_for boot 120) ≡ some (boot, 120)
parse_cursor-cursor_for_example = parse_cursor-cursor_for boot 120 boot-IsBoot (omega arith)

read_history_example :
    read (cursor_for boot 1) (add_all batch (new boot none))
    ≡ expected boot (stamp_all boot 0 batch) (cursor_for boot 1)
read_history_example = read_history boot none batch (cursor_for boot 1) (omega arith)

abbrev history : List Entry
history = stamp_all boot 0 batch

poll_lem_example :
    read
      (read [] (add_all batch (new boot none))).0.next_cursor
      (add_all fresh (add_all batch (new boot none)))
    ≡ (
      record { entries = stamp_all boot 2 fresh; next_cursor = cursor_for boot 3; reset = false },
      none,
    )
unfolding add_all add new stamp_all
poll_lem_example =
    poll_lem (add_all batch (new boot none)) history fresh
      (history-IsRing boot none batch (omega arith)) boot-IsBoot (omega arith) (omega arith)
