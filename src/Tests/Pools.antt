-- ===== src/Tests/Pools.antt =====
-- Runs of a thread pool.
use yfs_lab.Prelude.{◌≡◌, refl, List, [], ◌∷◌, true, arith}
use yfs_lab.Fifo.{fifo, enq_round, wake_deq, wake_enq, deq_round, deq_from, signal_space}
use yfs_lab.ThrPool.{thr_pool, add_job, take_job}
use yfs_lab.ThrPool.Workers.{
  Event, add_entered, add_tried, take_tried, job_ended, destroyed, joins, start, create, add, take,
  taken, finish, next_pill, pill_round, join_round, destroy_round, step, run,
}
use yfs_lab.ThrPool.Workers.Counts.{live}
use yfs_lab.ThrPool.Workers.Histories.{AllAllowed, all_jobs_run}
use yfs_lab.ThrPool.Workers.Shutdown.{destructor_ends}

-- One thread and one job, which it takes when the destructor has put its pill.
abbrev called : List Event
called = add_entered ∷ add_tried 7 1 ∷ destroyed 0 ∷ destroyed 0 ∷ take_tried 0 ∷ []

abbrev ended : List Event
ended =
    add_entered
    ∷ add_tried 7 1
    ∷ destroyed 0
    ∷ destroyed 0
    ∷ take_tried 0
    ∷ job_ended 0
    ∷ take_tried 0
    ∷ destroyed 0
    ∷ []

called-AllAllowed : AllAllowed (start 1 true) called
unfolding run step start create thr_pool fifo add add_job enq_round wake_deq take take_job taken
    deq_round deq_from signal_space wake_enq finish destroy_round next_pill pill_round join_round
called-AllAllowed = (refl, (refl, ((λ e. refl), ((λ e. absurd (cc e)), (tt, tt)))))

ended-AllAllowed : AllAllowed (start 1 true) ended
unfolding run step start create thr_pool fifo add add_job enq_round wake_deq take take_job taken
    deq_round deq_from signal_space wake_enq finish destroy_round next_pill pill_round join_round
ended-AllAllowed = (
  refl,
  (refl, ((λ e. refl), ((λ e. absurd (cc e)), (tt, (tt, (tt, ((λ e. absurd (cc e)), tt))))))),
)

all_jobs_run_example :
    let s = run (start 1 true) ended in
    (s.started ≡ s.accepted) × (s.p.jobq.q ≡ []) × (live s.workers ≡ 0)
unfolding run step start create thr_pool fifo add add_job enq_round wake_deq take take_job taken
    deq_round deq_from signal_space wake_enq finish destroy_round next_pill pill_round join_round
all_jobs_run_example = all_jobs_run 1 true ended (omega arith) ended-AllAllowed refl

destructor_ends_example :
    let s = run (start 1 true) called in
    (more : List Event) × AllAllowed s more × ((run s more).stage ≡ joins 0)
unfolding run step start create thr_pool fifo add add_job enq_round wake_deq take take_job taken
    deq_round deq_from signal_space wake_enq finish destroy_round next_pill pill_round join_round
destructor_ends_example =
    destructor_ends 1 true called (omega arith) called-AllAllowed (λ e. absurd (cc e))
