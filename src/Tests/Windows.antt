-- ===== src/Tests/Windows.antt =====
-- Runs of the reply windows, the xid window, the client and the time functions.
use native.Mathlib.Nat.{le_refl}
use yfs_lab.Prelude.{
  All, ℕ, ◌≤◌, ◌≡◌, refl, List, [], ◌∷◌, true, false, none, some, arith, ◌||◌, ◌==◌, if◌then◌else◌,
}
use yfs_lab.Prelude.Memory.{Cells}
use yfs_lab.ReplyWindow.{
  Windows, done, reply_t, checkduplicate_and_update, find_reply, classify, remove_confirmed,
  add_reply, save_reply,
}
use yfs_lab.ReplyWindow.Once.{
  Event, checked, replied, starts, run, at_most_once, duplicate_gets_reply, late_copy_starts_again,
}
use yfs_lab.XidWindow.{insert_xid, compress, pop_fronts, update_xid_rep}
use yfs_lab.XidWindow.Order.{IsWindow, update_xid_rep-IsWindow}
use yfs_lab.XidWindow.Received.{received, received-update_xid_rep}
use yfs_lab.Timespec.{Timespec, add_timespec, billion}
use yfs_lab.Prelude.{◌+◌, ◌*◌, ◌%◌, ◌↔◌, ◌≢◌}
use yfs_lab.Timespec.Deadlines.{IsNormal, add_timespec-IsNormal}
use yfs_lab.Unmarshall.{no_buffer}
use yfs_lab.Marshall.{marshall}
use yfs_lab.Rpcs.{bind}
use yfs_lab.Rpcc

abbrev zeros : Cells
zeros i = 0

abbrev no_clients : Windows
no_clients c = none

-- Client 7 sends request 1, then 2, and request 1 again after its reply was saved.
abbrev history : List Event
history = checked 7 1 0 ∷ checked 7 2 0 ∷ replied 7 1 zeros 24 ∷ checked 7 1 0 ∷ []

at_most_once_example : starts 7 1 no_clients history ≤ 1
at_most_once_example =
    at_most_once no_clients history 7 1
      ((λ e. omega arith), ((λ e. omega arith), (tt, ((λ e. omega arith), tt))))

history-starts : starts 7 1 no_clients history ≡ 1
unfolding starts checkduplicate_and_update classify remove_confirmed find_reply add_reply save_reply
history-starts = refl

-- Request 1 of client 7 is in progress.
abbrev in_progress : Windows
in_progress c = if c == 7 then some (reply_t 1 ∷ []) else none

duplicate_gets_reply_example :
    (checkduplicate_and_update
      (run in_progress (replied 7 1 zeros 24 ∷ checked 7 2 0 ∷ []))
      7
      1
      0).0
    ≡ record { stat = done; saved = some (some zeros, 24) }
unfolding find_reply
duplicate_gets_reply_example =
    duplicate_gets_reply in_progress (checked 7 2 0 ∷ []) 7 1 0 zeros 24 (reply_t 1, refl)
      ((λ e. omega arith), tt) (tt, tt) (omega arith)

late_copy_starts_again_example :
    starts 7 1
      (λ c. none)
      (checked 7 1 0 ∷ replied 7 1 zeros 4 ∷ checked 7 3 2 ∷ checked 7 1 0 ∷ [])
    ≡ 2
unfolding find_reply
late_copy_starts_again_example =
    late_copy_starts_again (λ c. none) 7 1 0 3 2 zeros 4 refl (omega arith) (omega arith)
      (omega arith)

-- Replies 4 and 7 are missing.
abbrev window : List ℕ
window = 3 ∷ 5 ∷ 6 ∷ 8 ∷ []

window-IsWindow : IsWindow window
window-IsWindow = (
  (omega arith, (omega arith, (omega arith, tt))),
  ((λ e. omega arith), ((λ e. omega arith), ((λ e. omega arith), tt))),
  (omega arith, (omega arith, (omega arith, (omega arith, tt)))),
)

window_closes : update_xid_rep window 4 ≡ 6 ∷ 8 ∷ []
unfolding update_xid_rep insert_xid compress pop_fronts
window_closes = refl

update_xid_rep-IsWindow_example : IsWindow (update_xid_rep window 4)
update_xid_rep-IsWindow_example = update_xid_rep-IsWindow window 4 (omega arith) window-IsWindow

received-update_xid_rep_example :
    received (update_xid_rep window 4) 7 ≡ (received window 7 || 4 == 7)
received-update_xid_rep_example = received-update_xid_rep window 4 7 (omega arith) window-IsWindow

abbrev half_past : Timespec
half_past = record { tv_sec = 10; tv_nsec = 500_000_000 }

abbrev later : Timespec
later = record { tv_sec = 12; tv_nsec = 250_000_000 }

add_timespec-IsNormal_example :
    IsNormal (add_timespec half_past 1500) ↔ (500_000_000 + 1500 % 1000 * 1_000_000 ≢ billion)
add_timespec-IsNormal_example = add_timespec-IsNormal half_past 1500 (omega arith)

-- A client that has begun to bind.
abbrev binding : List Rpcc.Calls.Event
binding = Rpcc.Calls.began bind (marshall zeros) (no_buffer zeros) ∷ []

-- Nine rounds in which no reply comes and the clock stands still.
abbrev silent : Rpcc.Retry.Round
silent = record {
  now = half_past;
  chan = some 4;
  done = false;
  waits = λ d. record { timed_out = true; done = false } ∷ [];
  dead = true;
}

abbrev nine : List Rpcc.Retry.Round
nine = silent ∷ silent ∷ silent ∷ silent ∷ silent ∷ silent ∷ silent ∷ silent ∷ silent ∷ []

silent-IsTimed : Rpcc.Retry.Rounds.IsTimed half_past silent
unfolding Rpcc.Retry.wait_reply
silent-IsTimed = record { later = le_refl _; normal = omega arith; waits = λ d n e. cc e }

nine-IsTimed : All (Rpcc.Retry.Rounds.IsTimed half_past) nine
nine-IsTimed = let t = silent-IsTimed in (t, (t, (t, (t, (t, (t, (t, (t, (t, tt)))))))))

call_loop_ends_example :
    (l : Rpcc.Retry.Loop) × (Rpcc.Retry.call_loop true
        (Rpcc.Retry.loop_start half_past Rpcc.Retry.to_max)
        nine
      ≡ some l)
call_loop_ends_example =
    Rpcc.Retry.Rounds.call_loop_ends true half_past Rpcc.Retry.to_max 7 nine (omega arith)
      (omega arith) (λ e. omega (arith, e)) (omega arith) nine-IsTimed (omega arith)
