-- ===== src/ThrPool.antt =====
-- rpc/thr_pool.h and rpc/thr_pool.cc: class ThrPool, over the queue of rpc/fifo.h.
--
-- A function pointer is a number, `none` where it is NULL. The threads themselves are not modelled:
-- `add_job` and `take_job` are one round of the queue's loop each.
pub mod Jobs
pub mod Workers
use yfs_lab.Prelude.{ℕ, zero, suc, ◌*◌, List, [], ◌∷◌, Bool, true, false, Option, none, some}
use yfs_lab.Fifo.{Fifo, fifo, enq_round, deq_round}

pub record Job : Type 0 where
  pub f : Option ℕ
  pub a : ℕ

pub record ThrPool : Type 0 where
  pub nthreads : ℕ
  pub blockadd : Bool
  pub jobq : Fifo Job

unfoldable pub thr_pool : ℕ → Bool → ThrPool
thr_pool sz blocking = record { nthreads = sz; blockadd = blocking; jobq = fifo (100 * sz) }

-- What `addJob` returns, or `none` where it waits.
unfoldable pub add_job : ThrPool → ℕ → ℕ → Option Bool × ThrPool
add_job p f a =
    let (ret, q) = enq_round p.jobq (record { f = some f; a = a }) p.blockadd in
    (ret, record p { jobq = q })

-- `j->f != NULL`
abbrev pub is_job : Job → Bool
is_job j = elim j.f [ none ↦ false | some f ↦ true ]

abbrev pub with_test : Option Job → Option (Job × Bool)
with_test none = none
with_test (some j) = some (j, is_job j)

-- The job and what `takeJob` returns, or `none` where it waits.
unfoldable pub take_job : ThrPool → Option (Job × Bool) × ThrPool
take_job p = let (o, q) = deq_round p.jobq in (with_test o, record p { jobq = q })
