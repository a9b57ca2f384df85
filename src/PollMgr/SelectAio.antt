-- ===== src/PollMgr/SelectAio.antt =====
-- rpc/pollmgr.h and rpc/pollmgr.cc: class SelectAIO.
--
-- An fd_set is a function from descriptors to Booleans; descriptors below FD_SETSIZE are meant. `wakes`
-- counts the bytes in the pipe that wakes the select of the loop, and `pipefd` is its end for reading.
pub mod Watching
pub mod Refines
pub mod Ready
use yfs_lab.Prelude.{
  ℕ, zero, suc, ◌+◌, ◌-◌, Bool, true, false, not, ◌&&◌, ◌||◌, List, [], ◌∷◌, leb, ◌==◌,
  if◌then◌else◌,
}
use yfs_lab.Prelude.Outcome.{Outcome, returns, aborts, ◌>>=◌, assertion}
use yfs_lab.PollMgr.{PollFlag, cb_none, cb_rdonly, cb_wronly, cb_rdwr, cb_mask, update}

abbrev pub FdSet : Type 0
FdSet = ℕ → Bool

pub record SelectAio : Type 0 where
  pub rfds : FdSet
  pub wfds : FdSet
  pub highfds : ℕ
  pub pipefd : ℕ
  pub wakes : ℕ

-- SelectAIO(), where pipe(2) gives `p` as its end for reading.
unfoldable pub select_aio : ℕ → SelectAio
select_aio p = record {
  rfds = update (λ fd. false) p true;
  wfds = λ fd. false;
  highfds = p;
  pipefd = p;
  wakes = 0;
}

-- The chain of tests on the flag in watch_fd.
abbrev pub set_fd : SelectAio → ℕ → PollFlag → SelectAio
set_fd s fd cb_rdonly = record s { rfds = update s.rfds fd true }
set_fd s fd cb_wronly = record s { wfds = update s.wfds fd true }
set_fd s fd _ = record s { rfds = update s.rfds fd true; wfds = update s.wfds fd true }

unfoldable pub watch_fd : SelectAio → ℕ → PollFlag → SelectAio
watch_fd s fd flag =
    let s1 = record s { highfds = if leb s.highfds fd then fd else s.highfds } in
    let s2 = set_fd s1 fd flag in record s2 { wakes = s2.wakes + 1 }

unfoldable pub is_watched : SelectAio → ℕ → PollFlag → Bool
is_watched s fd cb_rdonly = s.rfds fd
is_watched s fd cb_wronly = s.wfds fd
is_watched s fd _ = s.rfds fd && s.wfds fd

abbrev pub clear_fd : SelectAio → ℕ → PollFlag → Outcome SelectAio
clear_fd s fd cb_rdonly = returns (record s { rfds = update s.rfds fd false })
clear_fd s fd cb_wronly = returns (record s { wfds = update s.wfds fd false })
clear_fd s fd cb_rdwr =
    returns (record s { wfds = update s.wfds fd false; rfds = update s.rfds fd false })
clear_fd s fd _ = aborts assertion

-- The loop of unwatch_fd: the rounds for `n` descriptors from `i` on.
unfoldable pub scan : FdSet → FdSet → ℕ → ℕ → ℕ → ℕ
scan r w i zero newh = newh
scan r w i (suc n) newh = scan r w (i + 1) n (if r i then i else if w i then i else newh)

-- `!FD_ISSET(fd,&rfds_) && !FD_ISSET(fd,&wfds_)`
abbrev pub is_clear : SelectAio → ℕ → Bool
is_clear s fd = not (s.rfds fd) && not (s.wfds fd)

unfoldable pub lower_high : SelectAio → ℕ → SelectAio
unfolding scan
lower_high s fd =
    if is_clear s fd && fd == s.highfds
    then record s { highfds = scan s.rfds s.wfds 0 (s.highfds + 1) s.pipefd }
    else s

abbrev pub wake_all : SelectAio → PollFlag → SelectAio
wake_all s cb_rdwr = record s { wakes = s.wakes + 1 }
wake_all s _ = s

unfoldable pub unwatch_fd : SelectAio → ℕ → PollFlag → Outcome (Bool × SelectAio)
unfolding lower_high
unwatch_fd s fd flag = clear_fd s fd flag >>= λ s1.
    (let s2 = wake_all (lower_high s1 fd) flag in returns (is_clear s2 fd, s2))

-- What select(2) gives: the sets of the descriptors that are ready, EINTR, or another error.
pub data Select : Type 0 where
  selected : FdSet → FdSet → Select
  interrupted : Select
  select_failed : Select

-- wait_ready, in the block under m_: what select is asked for.
pub record Asked : Type 0 where
  pub trfds : FdSet
  pub twfds : FdSet
  pub high : ℕ

unfoldable pub wait_asks : SelectAio → Asked
wait_asks s = record { trfds = s.rfds; twfds = s.wfds; high = s.highfds }

-- The loop behind select, `n` rounds from `i` on: the readable descriptors, the writable ones, and how
-- many bytes it reads from the pipe.
unfoldable pub collect : ℕ → FdSet → FdSet → ℕ → ℕ → List ℕ × List ℕ × ℕ
collect p r w i zero = ([], [], 0)
collect p r w i (suc n) =
    let (readable, writable, reads) = collect p r w (i + 1) n in
    if i == p && r i
    then (readable, writable, reads + 1)
    else (if r i then i ∷ readable else readable, if w i then i ∷ writable else writable, reads)

-- wait_ready behind its block: a byte must be in the pipe for each one that is read.
unfoldable pub wait_ready : SelectAio → Asked → Select → Outcome ((List ℕ × List ℕ) × SelectAio)
unfolding collect
wait_ready s a interrupted = returns (([], []), s)
wait_ready s a select_failed = aborts assertion
wait_ready s a (selected r w) =
    let (readable, writable, reads) = collect s.pipefd r w 0 (a.high + 1) in
    if leb reads s.wakes
    then returns ((readable, writable), record s { wakes = s.wakes - reads })
    else aborts assertion
