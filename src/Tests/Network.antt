-- ===== src/Tests/Network.antt =====
-- A request that the network delivers twice.
use yfs_lab.Prelude.{ℕ, ◌≤◌, ◌≢◌, refl, List, [], ◌∷◌, true, none, arith}
use yfs_lab.Prelude.Memory.{Cells}
use yfs_lab.Marshall.{marshall}
use yfs_lab.Unmarshall.{no_buffer}
use yfs_lab.Rpcs.{bind}
use yfs_lab.Rpcc.{rpcc, caller, begin_call}
use yfs_lab.Rpcc.Calls
use yfs_lab.ReplyWindow.{Windows}
use yfs_lab.ReplyWindow.Once.{checked, starts}
use yfs_lab.System.{world, Event, client, arrives, serves, run, step, heard}
use yfs_lab.System.AtMostOnce.{pending_at_most_once}

abbrev zeros : Cells
zeros i = 0

-- Client 7 binds, and its request comes twice, with one of client 4 in between.
abbrev twice : List Event
twice =
    client (Calls.began bind (marshall zeros) (no_buffer zeros))
    ∷ arrives 0
    ∷ serves (checked 4 9 0)
    ∷ arrives 0
    ∷ []

abbrev no_clients : Windows
no_clients c = none

others : ◌≢◌ {A = ℕ} 4 7
others e = omega (arith, e)

pending_at_most_once_example : starts 7 1 no_clients (heard (world 7 true) twice) ≤ 1
unfolding run step Calls.step begin_call rpcc
pending_at_most_once_example =
    pending_at_most_once 7 no_clients twice 1 (caller 1 (no_buffer zeros))
      (omega arith, (tt, (others, (tt, tt)))) refl refl
