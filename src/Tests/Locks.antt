-- ===== src/Tests/Locks.antt =====
-- Runs of the lock server, of the queue and of the thread pool.
use yfs_lab.ThrPool.{ThrPool, thr_pool}
use yfs_lab.Prelude.{ℕ, ◌≡◌, refl, List, [], ◌∷◌, ◌++◌, true, false, some}
use yfs_lab.Prelude.Int.{pos, pred_int}
use yfs_lab.LockServer.{
  LockServer, lock_server, no_client, ok, find, store, enter, test, test_state, release,
}
use yfs_lab.LockServer.Exclusion.{Event, entered, tested, released, run, IsServer, run-IsServer}
use yfs_lab.LockServer.Holder.{holder, release_unheld}
use yfs_lab.Fifo.{fifo}
use yfs_lab.Fifo
use yfs_lab.Fifo.Wakeup

lock_server-IsServer : IsServer lock_server
lock_server-IsServer = record { healthy = tt; counted = refl }

-- Client 9 takes lock 5, client 8 waits for it, and client 9 gives it up.
abbrev taken : List Event
taken = entered 5 ∷ tested (pos 9) 5 ∷ entered 5 ∷ tested (pos 8) 5 ∷ []

abbrev given_up : List Event
given_up = taken ++ (released (pos 9) 5 ∷ [])

abbrev busy : LockServer
busy = run lock_server taken

abbrev idle : LockServer
idle = run lock_server given_up

run-IsServer-idle : IsServer idle
run-IsServer-idle =
    run-IsServer lock_server given_up (tt, ((λ e. cc e), (tt, ((λ e. cc e), ((λ e. cc e), tt)))))
      lock_server-IsServer

run-IsServer_example : IsServer (run lock_server given_up)
run-IsServer_example =
    run-IsServer lock_server given_up (tt, ((λ e. cc e), (tt, ((λ e. cc e), ((λ e. cc e), tt)))))
      lock_server-IsServer

busy-holder : holder busy 5 ≡ some (pos 9)
unfolding holder run enter test test_state find store
busy-holder = refl

release_unheld_example :
    ((release idle no_client 5).0 ≡ ok)
    × ((release idle no_client 5).1.nacquire ≡ pred_int idle.nacquire)
unfolding holder run enter test test_state release find store
release_unheld_example = release_unheld idle 5 run-IsServer-idle (λ e. cc e) refl

-- A thread waits in `deq`, and 3 and 4 are put in.
abbrev queue_history : List (Fifo.Wakeup.Event ℕ)
queue_history =
    Fifo.Wakeup.deq_entered
    ∷ Fifo.Wakeup.deq_tried
    ∷ Fifo.Wakeup.enq_entered
    ∷ Fifo.Wakeup.enq_tried 3 true
    ∷ Fifo.Wakeup.enq_entered
    ∷ Fifo.Wakeup.enq_tried 4 false
    ∷ Fifo.Wakeup.deq_tried
    ∷ []

fifo-run-IsFifo_example : Fifo.Wakeup.IsFifo (Fifo.Wakeup.run (fifo 2) queue_history)
fifo-run-IsFifo_example = Fifo.Wakeup.fifo-run-IsFifo 2 queue_history

-- A pool of two threads that does not block, with nothing to do.
abbrev pool : ThrPool
pool = thr_pool 2 false
