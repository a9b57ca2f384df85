-- ===== src/LockTester.antt =====
-- lock_tester.cc: check_grant, check_release and the threads of test2 to test5.
--
-- Every test locks `a`. A thread of a test goes through the calls of one round again and again: it
-- enters lock_client::acquire, tests there as LockServer has it, checks the grant, checks the release,
-- and calls lock_client::release. A call of the client is the method of the server that it reaches,
-- or ends with timeout_failure; a request is taken only where one of the ten threads of the server's
-- pool has no thread of `acquire` in it.
pub mod Owners
pub mod Passes
pub mod Running
pub mod Finishing
use yfs_lab.Prelude.{
  ℕ, zero, suc, ◌+◌, ◌-◌, ◌%◌, List, [], ◌∷◌, Bool, true, false, Option, none, some, ltb, ◌==◌,
  if◌then◌else◌,
}
use yfs_lab.Prelude.Int.{ℤ, pos}
use yfs_lab.Prelude.Outcome.{Outcome, returns, aborts, ◌>>=◌, exits}
use yfs_lab.LockServer.{LockServer, Status, ok, enter, test, wake, release}
use yfs_lab.Rpcs.{timeout_failure}
use yfs_lab.LockServer.Inside.{inside}
use yfs_lab.LockClient.{status_code, acquire_result, release_result}

-- lock_protocol::lockid_t a
abbrev pub lock_a : ℕ
lock_a = 1

-- int ct[256]
abbrev pub Counts : Type 0
Counts = ℕ → ℕ

abbrev pub index_of : ℕ → ℕ
index_of lid = lid % 256

abbrev pub set_count : Counts → ℕ → ℕ → Counts
set_count ct x n = λ y. if x == y then n else ct y

unfoldable pub check_grant : Counts → ℕ → Outcome Counts
check_grant ct lid =
    let x = index_of lid in if ct x == 0 then returns (set_count ct x (ct x + 1)) else aborts exits

unfoldable pub check_release : Counts → ℕ → Outcome Counts
check_release ct lid =
    let x = index_of lid in if ct x == 1 then returns (set_count ct x (ct x - 1)) else aborts exits

-- Where a thread stands in a round: in front of `acquire`, in it, and behind it, check_grant and
-- check_release.
pub data Place : Type 0 where
  starts acquires holds granted checked : Place

-- `left` counts the rounds, of which the one that the thread is in is the first.
pub record Tester : Type 0 where
  pub clt : ℤ
  pub left : ℕ
  pub place : Place

pub record Testing : Type 0 where
  pub server : LockServer
  pub ct : Counts
  pub testers : List Tester

-- The threads `i`, `i + 1`, and so on of a test with `n` rounds, on the clients that it chooses;
-- `id` gives the number of each client.
abbrev pub threads : (ℕ → ℤ) → ℕ → ℕ → ℕ → List Tester
threads id n i zero = []
threads id n i (suc k) = record { clt = id i; left = n; place = starts } ∷ threads id n (suc i) k

-- nt
abbrev pub nt : ℕ
nt = 10

abbrev pub test2 : (ℕ → ℤ) → List Tester
test2 id = threads id 1 0 nt

abbrev pub test3 : (ℕ → ℤ) → List Tester
test3 id = threads id 10 0 nt

abbrev pub test4 : (ℕ → ℤ) → List Tester
test4 id = threads (λ i. id 0) 10 0 2

abbrev pub test5 : (ℕ → ℤ) → List Tester
test5 id = threads (λ i. if ltb i 5 then id 0 else id 1) 10 0 nt

-- A test begins.
abbrev pub testing : LockServer → Counts → List Tester → Testing
testing server ct ts = record { server = server; ct = ct; testers = ts }

abbrev pub tester_at : ℕ → List Tester → Option Tester
tester_at i [] = none
tester_at zero (t ∷ ts) = some t
tester_at (suc i) (t ∷ ts) = tester_at i ts

abbrev pub set_tester : ℕ → Tester → List Tester → List Tester
set_tester i u [] = []
set_tester zero u (t ∷ ts) = u ∷ ts
set_tester (suc i) u (t ∷ ts) = t ∷ set_tester i u ts

abbrev pub at_place : Testing → ℕ → Tester → Place → Testing
at_place s i t p = record s { testers = set_tester i (record t { place = p }) s.testers }

-- A thread without rounds left has returned.
unfoldable pub start_round : Testing → ℕ → Tester → ℕ → Testing
start_round s i t zero = s
start_round s i t (suc n) = at_place (record s { server = enter s.server lock_a }) i t acquires

-- lock_client::acquire where a reply comes: the handler returns OK where it returns.
unfoldable pub acquire_round : Testing → ℕ → Tester → Bool × LockServer → Outcome Testing
acquire_round s i t (true, server) = acquire_result (status_code ok, none) >>= λ res.
    returns (at_place (record s { server = server }) i t holds)
acquire_round s i t (false, server) = returns (record s { server = server })

-- lock_client::release, and the next round.
unfoldable pub end_round : Testing → ℕ → Tester → Status × LockServer → Outcome Testing
end_round s i t (st, server) = release_result (status_code st, none) >>= λ res. returns (record s {
  server = server;
  testers = set_tester i (record t { left = t.left - 1; place = starts }) s.testers;
})

-- The threads of the pool that dispatches the requests of the server.
abbrev pub pool_size : ℕ
pool_size = 10

-- A thread of `acquire` keeps its thread of the pool while it waits.
abbrev pub has_worker : Testing → Bool
has_worker s = ltb (inside s.server lock_a) pool_size

-- The call that a thread is in, or about to make, ends with timeout_failure.
unfoldable pub time_out : Testing → Tester → Place → Outcome Testing
time_out s t starts =
    if t.left == 0 then returns s else (acquire_result (timeout_failure, none) >>= λ res. returns s)
time_out s t acquires = acquire_result (timeout_failure, none) >>= λ res. returns s
time_out s t holds = returns s
time_out s t granted = returns s
time_out s t checked = release_result (timeout_failure, none) >>= λ res. returns s

unfoldable pub act : Testing → ℕ → Tester → Place → Outcome Testing
unfolding start_round acquire_round end_round
act s i t starts = returns (if has_worker s then start_round s i t t.left else s)
act s i t acquires = acquire_round s i t (test s.server t.clt lock_a)
act s i t holds =
    check_grant s.ct lock_a >>= λ ct. returns (at_place (record s { ct = ct }) i t granted)
act s i t granted =
    check_release s.ct lock_a >>= λ ct. returns (at_place (record s { ct = ct }) i t checked)
act s i t checked =
    if has_worker s then end_round s i t (release s.server t.clt lock_a) else returns s

-- A thread goes on, or its call times out, or one that waits in `acquire` wakes up without a signal.
pub data Event : Type 0 where
  acted : (i : ℕ) → Event
  timed_out : (i : ℕ) → Event
  woken : Event

unfoldable pub step : Testing → Event → Outcome Testing
unfolding act time_out
step s (acted i) = elim (tester_at i s.testers) [ none ↦ returns s | some t ↦ act s i t t.place ]
step s (timed_out i) = elim (tester_at i s.testers) [
  | none ↦ returns s
  | some t ↦ time_out s t t.place
]
step s woken = returns (record s { server = wake s.server lock_a })

unfoldable pub run : Testing → List Event → Outcome Testing
run s [] = returns s
run s (e ∷ es) = step s e >>= λ s'. run s' es
