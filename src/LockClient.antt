-- ===== src/LockClient.antt =====
-- lock_client.h and lock_client.cc: class lock_client; lock_protocol.h: the numbers of the statuses.
--
-- What rpcc::call gives is an argument: its result, with what it left in `r`, unset where it did not
-- read it.
pub mod Replies
use yfs_lab.Prelude.{Bool, true, false, Option, none, some, if◌then◌else◌}
use yfs_lab.Prelude.Int.{ℤ, pos, same_int}
use yfs_lab.Prelude.Outcome.{Outcome, returns, aborts, assertion}
use yfs_lab.LockServer.{Status, ok, retry, rpcerr, noent, ioerr}

-- lock_protocol::xxstatus as an `int`.
abbrev pub status_code : Status → ℤ
status_code ok = pos 0
status_code retry = pos 1
status_code rpcerr = pos 2
status_code noent = pos 3
status_code ioerr = pos 4

-- `assert(res == lock_protocol::OK)`
abbrev pub is_ok_code : ℤ → Bool
is_ok_code res = same_int res (status_code ok)

-- lock_client::acquire and release behind the call.
unfoldable pub acquire_result : ℤ × Option ℤ → Outcome ℤ
acquire_result (res, r) = if is_ok_code res then returns res else aborts assertion

unfoldable pub release_result : ℤ × Option ℤ → Outcome ℤ
release_result (res, r) = if is_ok_code res then returns res else aborts assertion

-- lock_client::stat behind the call; `none` is a variable that was not set.
unfoldable pub stat_result : ℤ × Option ℤ → Outcome (Option ℤ)
stat_result (ret, r) = if is_ok_code ret then returns r else aborts assertion
