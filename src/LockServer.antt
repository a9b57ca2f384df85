-- ===== src/LockServer.antt =====
-- lock_server.h and lock_server.cc: class lock_handle, class lock_server; lock_protocol.h: class
-- lock_protocol.
--
-- Every operation runs under the mutex `m`, which pthread_cond_wait gives up: `acquire` is `enter`,
-- up to the loop, then one `test` of the loop's condition, and another after each time it wakes up.
-- Of the threads in `acquire`, `waiting` counts those blocked in pthread_cond_wait on the lock's
-- `cond`, and `awake` those that have not tested since they entered or were woken.
pub mod Exclusion
pub mod Holder
pub mod Inside
use yfs_lab.Prelude.{
  ℕ, ◌+◌, ◌-◌, List, [], ◌∷◌, Bool, true, false, not, Option, none, some, ◌==◌, if◌then◌else◌,
}
use yfs_lab.Prelude.Int.{ℤ, pos, negsuc, pred_int, suc_int, same_int}

-- lock_protocol::xxstatus
pub data Status : Type 0 where
  ok retry rpcerr noent ioerr : Status

pub data LockState : Type 0 where
  free locked : LockState

pub record LockHandle : Type 0 where
  pub state : LockState
  pub clt : ℤ
  pub waiting : ℕ
  pub awake : ℕ

pub record Entry : Type 0 where
  pub lid : ℕ
  pub handle : LockHandle

pub record LockServer : Type 0 where
  pub locks : List Entry
  pub nacquire : ℤ

abbrev pub no_client : ℤ
no_client = negsuc 0

-- lock_handle()
abbrev pub lock_handle : LockHandle
lock_handle = record { state = free; clt = no_client; waiting = 0; awake = 0 }

-- lock_server()
abbrev pub lock_server : LockServer
lock_server = record { locks = []; nacquire = pos 0 }

-- `locks.find(lid)`
unfoldable pub find : ℕ → List Entry → Option LockHandle
find lid [] = none
find lid (e ∷ es) = if e.lid == lid then some e.handle else find lid es

-- What is assigned through `lh`; a new entry is what `emplace` makes.
unfoldable pub store : ℕ → LockHandle → List Entry → List Entry
store lid h [] = record { lid = lid; handle = h } ∷ []
store lid h (e ∷ es) =
    let rest = store lid h es in if e.lid == lid then record e { handle = h } ∷ es else e ∷ rest

unfoldable pub stat : LockServer → ℤ → ℕ → Status × ℤ
stat s clt lid = (ok, s.nacquire)

-- `locks[lid]` behind the emplace.
abbrev pub found : Option LockHandle → LockHandle
found none = lock_handle
found (some h) = h

-- acquire, up to the loop.
unfoldable pub enter : LockServer → ℕ → LockServer
enter s lid =
    let h = found (find lid s.locks) in
    record s { locks = store lid (record h { awake = h.awake + 1 }) s.locks }

-- The loop's condition and what follows: `true` with the lock taken, or the thread waits.
unfoldable pub test_state : LockServer → ℕ → ℤ → LockHandle → LockState → Bool × LockServer
test_state s lid clt h free = (
  true,
  record {
    locks = store lid (record h { state = locked; clt = clt; awake = h.awake - 1 }) s.locks;
    nacquire = suc_int s.nacquire;
  },
)
test_state s lid clt h locked = (
  false,
  record s {
    locks = store lid (record h { waiting = h.waiting + 1; awake = h.awake - 1 }) s.locks;
  },
)

-- One thread of `acquire` tests; where none is awake on this lock, nothing happens.
unfoldable pub test : LockServer → ℤ → ℕ → Bool × LockServer
unfolding test_state
test s clt lid = elim (find lid s.locks) [
  | none ↦ (false, s)
  | some h ↦ if h.awake == 0 then (false, s) else test_state s lid clt h h.state
]

-- pthread_cond_signal wakes one thread, where one waits; a thread may also wake up without it.
abbrev pub signal : LockHandle → LockHandle
signal h = if h.waiting == 0 then h else record h { waiting = h.waiting - 1; awake = h.awake + 1 }

unfoldable pub wake : LockServer → ℕ → LockServer
wake s lid = elim (find lid s.locks) [
  | none ↦ s
  | some h ↦ record s { locks = store lid (signal h) s.locks }
]

unfoldable pub release : LockServer → ℤ → ℕ → Status × LockServer
release s clt lid = elim (find lid s.locks) [
  | none ↦ (rpcerr, s)
  | some h ↦ if not (same_int h.clt clt) then (rpcerr, s) else (
    ok,
    record {
      locks = store lid (signal (record h { state = free; clt = no_client })) s.locks;
      nacquire = pred_int s.nacquire;
    },
  )
]
