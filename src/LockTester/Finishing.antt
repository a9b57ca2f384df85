-- ===== src/LockTester/Finishing.antt =====
-- The threads of a test can always go on, until all of them have returned.
use yfs_lab.Prelude.{Bool, true, false, ltb}
use yfs_lab.LockServer.{LockServer}
use yfs_lab.LockTester.{starts, acquires, holds, granted, checked, Tester, Testing}
use yfs_lab.LockTester.Passes.{IsTesting}
use yfs_lab.LockTester.Running.{IsRunning}

-- Where nobody has the lock, a thread in `acquire` or one with rounds left can go on.
abbrev may_go : Tester → Bool
may_go t = elim t.place [
  | starts ↦ ltb 0 t.left
  | acquires ↦ true
  | holds ↦ false
  | granted ↦ false
  | checked ↦ false
]

abbrev IsLive : Testing → Type 0
IsLive s = IsTesting s × IsRunning s
