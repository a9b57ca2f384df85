-- ===== src/ThrPool/Jobs.antt =====
-- What a thread that adds a job is told.
use yfs_lab.Prelude.{
  ℕ, ◌*◌, ◌≤◌, ◌<◌, ◌≡◌, ◌⊎◌, [], ◌∷◌, ◌++◌, true, false, some, arith, length, Bool-cases, inl, inr,
}
use yfs_lab.Fifo.{Fifo, has_space, enq_round, wake_deq}
use yfs_lab.ThrPool.{ThrPool, add_job}

wake_deq_queue : {T : Type 0} (s : Fifo T) → (wake_deq s).q ≡ s.q
unfolding wake_deq
wake_deq_queue s = ground arith

-- In a pool that does not block and whose queue has the limit of its size, `addJob` never waits: it
-- returns true with the job at the end of the queue where there are less than 100 jobs per thread or
-- the pool has no threads, and else false with the queue as it was.
pub add_job_cases :
    (p : ThrPool) (f a : ℕ)
    → p.blockadd ≡ false
    → p.jobq.max ≡ 100 * p.nthreads
    → ((length p.jobq.q < 100 * p.nthreads) ⊎ (p.nthreads ≡ 0))
        × ((add_job p f a).0 ≡ some true)
        × ((add_job p f a).1.jobq.q ≡ p.jobq.q ++ (record { f = some f; a = a } ∷ []))
      ⊎ ((100 * p.nthreads ≤ length p.jobq.q)
          × ((add_job p f a).0 ≡ some false)
          × ((add_job p f a).1.jobq.q ≡ p.jobq.q))
unfolding add_job enq_round
add_job_cases p f a nb lim = elim (Bool-cases (has_space p.jobq)) [
  | inl space ↦ inl (ground arith, ground arith, rw (add_job, enq_round, space) (wake_deq_queue _))
  | inr full ↦ inr (ground arith, ground arith, ground arith)
]
