-- ===== src/PollMgr/EpollAio.antt =====
-- rpc/pollmgr.h and rpc/pollmgr.cc: class EPollAIO.
--
-- `ctls` holds the calls of epoll_ctl(2), latest first, each with the events that it asks for; whether
-- it succeeds is an argument.
pub mod Status
pub mod Agreement
use Prim.Native.Nat.{bit_and, bit_or}
use yfs_lab.Prelude.{
  ℕ, ◌+◌, ◌-◌, ◌^◌, Bool, true, false, not, ◌&&◌, ◌||◌, List, [], ◌∷◌, ltb, ◌==◌, if◌then◌else◌,
}
use yfs_lab.Prelude.Outcome.{Outcome, returns, aborts, assertion}
use yfs_lab.PollMgr.{
  PollFlag, cb_none, cb_rdonly, cb_wronly, cb_rdwr, cb_mask, Mode, max_poll_fds, update,
}

-- The number of a flag, as 32 bits.
abbrev pub value : PollFlag → ℕ
value cb_none = 0
value cb_rdonly = 1
value cb_wronly = 16
value cb_rdwr = 17
value cb_mask = 2 ^ 32 - 18

pub data Op : Type 0 where
  ctl_add ctl_mod ctl_del : Op

pub record Ctl : Type 0 where
  pub op : Op
  pub fd : ℕ
  pub events : Mode

pub record EpollAio : Type 0 where
  pub fdstatus : ℕ → ℕ
  pub ctls : List Ctl

abbrev pub epoll_aio : EpollAio
epoll_aio = record { fdstatus = λ fd. 0; ctls = [] }

-- The events for a status.
abbrev pub events : ℕ → Mode
events st = record { reads = not (bit_and st 1 == 0); writes = not (bit_and st 16 == 0) }

abbrev pub is_rdwr : PollFlag → Bool
is_rdwr cb_rdwr = true
is_rdwr _ = false

-- `assert(epoll_ctl(...) == 0)`
abbrev pub ctl {ℓ} : {A : Type ℓ} → EpollAio → Op → ℕ → ℕ → Bool → (EpollAio → A) → Outcome A
ctl e op fd st succeeds f =
    if succeeds
    then returns (
        f (record {
          fdstatus = update e.fdstatus fd st;
          ctls = record { op = op; fd = fd; events = events st } ∷ e.ctls;
        }))
    else aborts assertion

unfoldable pub watch_fd : EpollAio → ℕ → PollFlag → Bool → Outcome EpollAio
watch_fd e fd flag succeeds =
    let st = bit_or (e.fdstatus fd) (value flag) in
    let op = if e.fdstatus fd == 0 then ctl_add else ctl_mod in
    if not (ltb fd max_poll_fds)
    then aborts assertion
    else if is_rdwr flag && not ((events st).reads && (events st).writes)
    then aborts assertion
    else ctl e op fd st succeeds (λ e'. e')

unfoldable pub unwatch_fd : EpollAio → ℕ → PollFlag → Bool → Outcome (Bool × EpollAio)
unwatch_fd e fd flag succeeds =
    let st = bit_and (e.fdstatus fd) (2 ^ 32 - 1 - value flag) in
    let gone = st == 0 in
    if not (ltb fd max_poll_fds)
    then aborts assertion
    else if is_rdwr flag && not gone
    then aborts assertion
    else ctl e (if gone then ctl_del else ctl_mod) fd st succeeds (λ e'. (gone, e'))

-- It masks with CB_MASK, which is the complement of the flags.
unfoldable pub is_watched : EpollAio → ℕ → PollFlag → Outcome Bool
is_watched e fd flag =
    if not (ltb fd max_poll_fds)
    then aborts assertion
    else returns (bit_and (e.fdstatus fd) (value cb_mask) == value flag)

-- wait_ready, where epoll_wait(2) fills `ready_` with these descriptors and events; it fills nothing
-- where it fails.
unfoldable pub wait_ready : List (ℕ × Mode) → List ℕ × List ℕ
wait_ready [] = ([], [])
wait_ready (r ∷ rs) =
    let (readable, writable) = wait_ready rs in
    (
      if r.1.reads then r.0 ∷ readable else readable,
      if r.1.writes then r.0 ∷ writable else writable,
    )
