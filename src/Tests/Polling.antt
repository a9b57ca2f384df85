-- ===== src/Tests/Polling.antt =====
-- The poll manager and its two ways to wait.
use yfs_lab.Prelude.{Bool}
use yfs_lab.Prelude.{
  ℕ, ◌≡◌, refl, List, [], ◌∷◌, true, false, none, some, All, arith, ◌==◌, if◌then◌else◌,
}
use yfs_lab.Prelude.Outcome.{returns, ◌>>=◌}
use yfs_lab.PollMgr.{
  cb_rdonly, cb_wronly, cb_rdwr, Mode, update, PollMgr, block_remove_start, block_remove_end,
}
use yfs_lab.PollMgr.SelectAio.{
  SelectAio, FdSet, select_aio, watch_fd, unwatch_fd, wait_asks, wait_ready, selected, lower_high,
  scan,
}
use yfs_lab.PollMgr.SelectAio.Watching.{
  IsValid, select_aio-IsValid, watch_fd-IsValid, unwatch_fd-IsValid,
}
use yfs_lab.PollMgr.SelectAio.Refines.{select_mgr}
use yfs_lab.PollMgr.SelectAio.Ready.{but, count, IsSelected, wait_ready-count}
use yfs_lab.PollMgr.EpollAio
use yfs_lab.PollMgr.EpollAio.{EpollAio, epoll_aio}
use yfs_lab.PollMgr.EpollAio.Status.{IsStatus, is_watched-never}
use yfs_lab.PollMgr.EpollAio.Agreement.{
  IsProper, Request, watches, unwatches, asks_watched, blind, select_answers, epoll_answers,
  answers-eq,
}
use yfs_lab.PollMgr.Loop.{
  World, turning, waiting, running, removed, turns, asks_ready, calls_read, ends, Step, Run, done,
  then_step, remove_step, removed_step, turn_step, ask_step, read_step, end_step, turn,
}
use yfs_lab.PollMgr.Quiet.{Silent}
use yfs_lab.PollMgr.Removal.{removed-Silent}

-- The pipe is 3, and 5 is watched for reading.
abbrev one : SelectAio
one = watch_fd (select_aio 3) 5 cb_rdonly

one-IsValid : IsValid one
one-IsValid = watch_fd-IsValid (select_aio 3) 5 cb_rdonly (select_aio-IsValid 3)

abbrev reading : Mode
reading = record { reads = true; writes = false }

-- 5 is not watched any more, and the pipe is the highest descriptor again.
abbrev none_left : SelectAio
none_left = record {
  rfds = update one.rfds 5 false;
  wfds = one.wfds;
  highfds = 3;
  pipefd = 3;
  wakes = 1;
}

unwatched : unwatch_fd one 5 cb_rdonly ≡ returns (true, none_left)
unfolding unwatch_fd lower_high scan watch_fd select_aio
unwatched = refl

-- select finds 5 readable.
abbrev only_five : FdSet
only_five i = i == 5

abbrev no_fds : FdSet
no_fds i = false

five-IsSelected : IsSelected (wait_asks one) one only_five no_fds
unfolding wait_asks watch_fd select_aio
five-IsSelected = record {
  readable = λ j h. ground (arith, h);
  writable = λ j h. absurd (cc h);
  wakes = omega arith;
}

wait_ready-count_example :
    (readable : List ℕ) × (writable : List ℕ) × (s : SelectAio) × (wait_ready one
        (wait_asks one)
        (selected only_five no_fds)
      ≡ returns ((readable, writable), s))
    × ((j : ℕ)
        → (count j readable ≡ (if but 3 only_five only_five j then 1 else 0))
          × (count j writable ≡ (if but 3 only_five no_fds j then 1 else 0)))
unfolding watch_fd select_aio
wait_ready-count_example = wait_ready-count one one only_five no_fds one-IsValid five-IsSelected

unwatch_fd-IsValid_example :
    (gone : Bool) × (s' : SelectAio) × (unwatch_fd one 5 cb_rdwr ≡ returns (gone, s')) × IsValid s'
unfolding watch_fd select_aio
unwatch_fd-IsValid_example =
    unwatch_fd-IsValid one 5 cb_rdwr (record { reads = true; writes = true }) one-IsValid refl refl

is_watched-never_example :
    EpollAio.is_watched (record epoll_aio { fdstatus = λ fd. 17 }) 5 cb_rdwr ≡ returns false
is_watched-never_example =
    is_watched-never (record epoll_aio { fdstatus = λ fd. 17 }) 5 cb_rdwr
      (record { reads = true; writes = true }) (omega arith) refl IsStatus.both

-- A descriptor that is watched, asked for, and let go.
abbrev asked : List Request
asked = watches 5 cb_rdwr ∷ asks_watched 5 cb_rdwr ∷ unwatches 5 cb_wronly ∷ []

answers-eq_example :
    epoll_answers epoll_aio asked ≡ (select_answers (select_aio 3) asked >>= λ l. returns (blind l))
answers-eq_example =
    let both : IsProper 3 5 cb_rdwr = record {
      small = omega arith;
      own = refl;
      mode = record { reads = true; writes = true };
      asked = refl;
    } in
    answers-eq 3 asked (
      both,
      (
        both,
        (
          record {
            small = omega arith;
            own = refl;
            mode = record { reads = false; writes = true };
            asked = refl;
          },
          tt,
        ),
      ),
    )

-- The loop is about to call callback 8 of descriptor 5 while a thread starts to remove it: it is called
-- once more, and then, behind the broadcast, the thread goes on.
abbrev registered : PollMgr SelectAio
registered = record {
  callbacks = update (λ fd. none) 5 (some 8);
  aio = one;
  pending_change = false;
}

abbrev about_to_call : World SelectAio
about_to_call = record { mgr = registered; phase = running (5 ∷ []) []; asleep = []; woken = [] }

abbrev removing : PollMgr SelectAio
removing = record registered {
  aio = record none_left { wfds = update one.wfds 5 false; wakes = 2 };
  pending_change = true;
}

removing-started : block_remove_start select_mgr registered 5 ≡ returns removing
unfolding block_remove_start unwatch_fd lower_high scan watch_fd select_aio
removing-started = refl

abbrev asleep : World SelectAio
asleep = record about_to_call { mgr = removing; asleep = 5 ∷ [] }

abbrev woken : World SelectAio
woken = turn (record asleep { phase = turning })

abbrev cleared : PollMgr SelectAio
cleared = record woken.mgr { callbacks = update registered.callbacks 5 none }

abbrev free : World SelectAio
free = record woken { mgr = cleared; woken = [] }

called-Run : Run select_mgr asleep (calls_read 5 8 ∷ ends ∷ turns ∷ []) woken
called-Run = then_step (read_step asleep 5 8 [] [] refl refl) (
    then_step (end_step (record asleep { phase = running [] [] }) refl)
      (then_step (turn_step (record asleep { phase = turning }) refl) (done woken)))

goes_on : Step select_mgr woken (removed 5) free
unfolding turn block_remove_end
goes_on = removed_step woken cleared 5 refl refl

waits-Run : Run select_mgr free (asks_ready ∷ []) (record free { phase = waiting cleared.aio })
unfolding turn
waits-Run = then_step (ask_step free refl) (done (record free { phase = waiting cleared.aio }))

removed-Silent_example : All (Silent select_mgr 5) (asks_ready ∷ [])
removed-Silent_example =
    removed-Silent select_mgr 5 about_to_call asleep woken free
      (record free { phase = waiting cleared.aio }) (calls_read 5 8 ∷ ends ∷ turns ∷ [])
      (asks_ready ∷ []) refl (remove_step about_to_call removing 5 removing-started) called-Run
      (tt, (tt, (tt, tt))) goes_on waits-Run (tt, tt)
