-- ===== src/PollMgr.antt =====
-- rpc/pollmgr.h and rpc/pollmgr.cc: class PollMgr, over any aio_mgr.
--
-- A descriptor is a number: the kernel gives no negative ones to what calls PollMgr. A callback is
-- named by a number. The functions under m_ are one step each; block_remove_fd, which waits for
-- changedone_c_, is `block_remove_start` and `block_remove_end`.
pub mod SelectAio
pub mod EpollAio
pub mod Loop
pub mod Quiet
pub mod Removal
use yfs_lab.Prelude.{
  ℕ, ◌≡◌, Bool, true, false, not, ◌&&◌, ◌||◌, Option, none, some, ltb, ◌==◌, if◌then◌else◌,
}
use yfs_lab.Prelude.Outcome.{Outcome, returns, aborts, ◌>>=◌, assertion, overrun}

abbrev pub max_poll_fds : ℕ
max_poll_fds = 128

-- poll_flag
pub data PollFlag : Type 0 where
  cb_none cb_rdonly cb_wronly cb_rdwr cb_mask : PollFlag

-- What is watched of a descriptor.
pub record Mode : Type 0 where
  pub reads : Bool
  pub writes : Bool

abbrev pub nothing : Mode
nothing = record { reads = false; writes = false }

-- What a flag asks for, where it asks for something.
abbrev pub asks : PollFlag → Option Mode
asks cb_none = none
asks cb_rdonly = some (record { reads = true; writes = false })
asks cb_wronly = some (record { reads = false; writes = true })
asks cb_rdwr = some (record { reads = true; writes = true })
asks cb_mask = none

abbrev pub join : Mode → Mode → Mode
join a b = record { reads = a.reads || b.reads; writes = a.writes || b.writes }

abbrev pub without : Mode → Mode → Mode
without a b = record { reads = a.reads && not b.reads; writes = a.writes && not b.writes }

-- Everything that `b` asks for is in `a`.
abbrev pub covers : Mode → Mode → Bool
covers a b = (a.reads || not b.reads) && (a.writes || not b.writes)

abbrev pub is_nothing : Mode → Bool
is_nothing a = not a.reads && not a.writes

-- One descriptor of a table changes.
abbrev pub update {ℓ} : {A : Type ℓ} → (ℕ → A) → ℕ → A → ℕ → A
update f fd a i = if i == fd then a else f i

-- aio_mgr: what PollMgr relies on, told in what is watched of each descriptor. The loop's wait_ready
-- is in the steps of PollMgr/Loop.
pub record AioMgr (S : Type 0) : Type 0 where
  pub watch_fd : S → ℕ → PollFlag → Outcome S
  pub unwatch_fd : S → ℕ → PollFlag → Outcome (Bool × S)
  pub is_watched : S → ℕ → PollFlag → Outcome Bool
  pub mode : S → ℕ → Mode
  pub watch_fd-mode :
      (s s' : S) (fd : ℕ) (flag : PollFlag) (m : Mode)
      → asks flag ≡ some m
      → watch_fd s fd flag ≡ returns s'
      → (i : ℕ) → mode s' i ≡ update (mode s) fd (join (mode s fd) m) i
  pub unwatch_fd-mode :
      (s s' : S) (fd : ℕ) (flag : PollFlag) (m : Mode) (gone : Bool)
      → asks flag ≡ some m
      → unwatch_fd s fd flag ≡ returns (gone, s')
      → (gone ≡ is_nothing (mode s' fd))
        × ((i : ℕ) → mode s' i ≡ update (mode s) fd (without (mode s fd) m) i)

pub record PollMgr (S : Type 0) : Type 0 where
  pub callbacks : ℕ → Option ℕ
  pub aio : S
  pub pending_change : Bool

-- PollMgr()
abbrev pub poll_mgr : {S : Type 0} → S → PollMgr S
poll_mgr s = record { callbacks = λ fd. none; aio = s; pending_change = false }

-- `callbacks_[fd] = c`
abbrev pub set_callback : {S : Type 0} → PollMgr S → ℕ → Option ℕ → Outcome (PollMgr S)
set_callback p fd c =
    if ltb fd max_poll_fds
    then returns (record p { callbacks = update p.callbacks fd c })
    else aborts overrun

-- `!callbacks_[fd] || callbacks_[fd]==ch`
abbrev pub is_free_for : Option ℕ → ℕ → Bool
is_free_for none ch = true
is_free_for (some c) ch = c == ch

module _ {S : Type 0} (M : AioMgr S) where
  unfoldable pub add_callback : PollMgr S → ℕ → PollFlag → ℕ → Outcome (PollMgr S)
  add_callback p fd flag ch =
      if not (ltb fd max_poll_fds)
      then aborts assertion
      else (M.watch_fd p.aio fd flag >>= λ s.
          if is_free_for (p.callbacks fd) ch
          then set_callback (record p { aio = s }) fd (some ch)
          else aborts assertion)

  -- block_remove_fd, up to its wait.
  unfoldable pub block_remove_start : PollMgr S → ℕ → Outcome (PollMgr S)
  block_remove_start p fd = M.unwatch_fd p.aio fd cb_rdwr >>= λ (gone, s).
      returns (record p { aio = s; pending_change = true })

  unfoldable pub del_callback : PollMgr S → ℕ → PollFlag → Outcome (PollMgr S)
  del_callback p fd flag = M.unwatch_fd p.aio fd flag >>= λ (gone, s).
      if gone then set_callback (record p { aio = s }) fd none else returns (record p { aio = s })

  unfoldable pub has_callback : PollMgr S → ℕ → PollFlag → ℕ → Outcome Bool
  has_callback p fd flag c = elim (p.callbacks fd) [
    | none ↦ returns false
    | some x ↦ if x == c then M.is_watched p.aio fd flag else returns false
  ]

-- block_remove_fd, behind its wait.
unfoldable pub block_remove_end : {S : Type 0} → PollMgr S → ℕ → Outcome (PollMgr S)
block_remove_end p fd = set_callback p fd none
