-- ===== src/ThrPool/Workers.antt =====
-- rpc/thr_pool.cc: do_worker, ThrPool::ThrPool and ThrPool::~ThrPool, as steps of their threads.
--
-- A worker that is in takeJob is `takes`; which of these are awake in the queue's `deq` and which wait
-- is in the queue's counts. `accepted` holds the jobs that addJob took and `started` those that a
-- worker began to run, in the order of the queue's mutex.
pub mod Counts
pub mod Invariant
pub mod Taking
pub mod Stepping
pub mod Histories
pub mod Progress
pub mod Shutdown
use yfs_lab.Prelude.{
  ℕ, zero, suc, ◌-◌, List, [], ◌∷◌, ◌++◌, Bool, true, false, Option, none, some, ◌==◌,
  if◌then◌else◌,
}
use yfs_lab.Fifo.{Fifo, enter_enq, enter_deq, wake_enq, wake_deq, enq_round}
use yfs_lab.ThrPool.{Job, ThrPool, thr_pool, add_job, take_job}

pub data Worker : Type 0 where
  takes : Worker
  runs : (j : Job) → Worker
  exited : Worker

-- Where the destructor is: not called, with pills left to put, with threads left to join.
pub data Stage : Type 0 where
  in_use : Stage
  puts : (k : ℕ) → Stage
  joins : (k : ℕ) → Stage

pub record Pool : Type 0 where
  pub p : ThrPool
  pub workers : List Worker
  pub stage : Stage
  pub accepted : List Job
  pub started : List Job

abbrev pub with_queue : ThrPool → Fifo Job → ThrPool
with_queue p q = record p { jobq = q }

-- The loop of the constructor: each thread goes into takeJob.
unfoldable pub create : ThrPool → ℕ → ThrPool × List Worker
create p zero = (p, [])
create p (suc n) = let (p', ws) = create p n in (with_queue p' (enter_deq p'.jobq), takes ∷ ws)

unfoldable pub start : ℕ → Bool → Pool
start sz blocking =
    let (p, ws) = create (thr_pool sz blocking) sz in
    record { p = p; workers = ws; stage = in_use; accepted = []; started = [] }

abbrev pub worker_at : ℕ → List Worker → Option Worker
worker_at i [] = none
worker_at zero (w ∷ ws) = some w
worker_at (suc i) (w ∷ ws) = worker_at i ws

abbrev pub set_worker : ℕ → Worker → List Worker → List Worker
set_worker i u [] = []
set_worker zero u (w ∷ ws) = u ∷ ws
set_worker (suc i) u (w ∷ ws) = w ∷ set_worker i u ws

-- A thread outside is in addJob: one round of the queue's loop.
abbrev pub accept : List Job → Job → Option Bool → List Job
accept l j (some true) = l ++ (j ∷ [])
accept l j (some false) = l
accept l j none = l

unfoldable pub add : Pool → ℕ → ℕ → Pool
add s f a =
    let (o, p) = add_job s.p f a in
    record s { p = p; accepted = accept s.accepted (record { f = some f; a = a }) o }

-- `if (!tp->takeJob(&j)) break; (void)(j.f)(j.a);`
unfoldable pub taken : Pool → ℕ → Option (Job × Bool) × ThrPool → Pool
taken s i (none, p) = record s { p = p }
taken s i (some (j, true), p) = record s {
  p = p;
  workers = set_worker i (runs j) s.workers;
  started = s.started ++ (j ∷ []);
}
taken s i (some (j, false), p) = record s { p = p; workers = set_worker i exited s.workers }

-- One round of do_worker's takeJob, or the end of the job that it runs.
unfoldable pub take : Pool → ℕ → Option Worker → Pool
unfolding taken
take s i (some takes) = if s.p.jobq.deq_awake == 0 then s else taken s i (take_job s.p)
take s i (some (runs j)) = s
take s i (some exited) = s
take s i none = s

unfoldable pub finish : Pool → ℕ → Option Worker → Pool
finish s i (some (runs j)) = record s {
  p = with_queue s.p (enter_deq s.p.jobq);
  workers = set_worker i takes s.workers;
}
finish s i (some takes) = s
finish s i (some exited) = s
finish s i none = s

-- The next round of the destructor's first loop, or the second loop.
unfoldable pub next_pill : Pool → ℕ → Pool
next_pill s zero = record s { stage = joins s.p.nthreads }
next_pill s (suc k) = record s { p = with_queue s.p (enter_enq s.p.jobq); stage = puts (suc k) }

-- One round of `jobq_.enq(j)` with the pill, whose `a` is not set.
unfoldable pub pill_round : Pool → ℕ → ℕ → Pool
unfolding next_pill
pill_round s k junk =
    let (o, q) = enq_round s.p.jobq (record { f = none; a = junk }) true in
    let s' = record s { p = with_queue s.p q } in elim o [ none ↦ s' | some b ↦ next_pill s' k ]

-- pthread_join of the next thread, which returns when that has exited.
unfoldable pub join_round : Pool → ℕ → Option Worker → Pool
join_round s k (some exited) = record s { stage = joins k }
join_round s k (some takes) = s
join_round s k (some (runs j)) = s
join_round s k none = s

unfoldable pub destroy_round : Pool → ℕ → Stage → Pool
unfolding pill_round join_round next_pill
destroy_round s junk in_use = next_pill s s.p.nthreads
destroy_round s junk (puts zero) = s
destroy_round s junk (puts (suc k)) = if s.p.jobq.enq_awake == 0 then s else pill_round s k junk
destroy_round s junk (joins zero) = s
destroy_round s junk (joins (suc k)) = join_round s k (worker_at (s.p.nthreads - suc k) s.workers)

-- What the threads do: one outside enters addJob or goes a round in it; a worker goes a round in
-- takeJob or ends its job; the destructor goes on; a thread wakes up without a signal.
pub data Event : Type 0 where
  add_entered : Event
  add_tried : (f a : ℕ) → Event
  take_tried : (i : ℕ) → Event
  job_ended : (i : ℕ) → Event
  destroyed : (junk : ℕ) → Event
  adder_woken : Event
  taker_woken : Event

unfoldable pub step : Pool → Event → Pool
unfolding add take finish destroy_round
step s add_entered = record s { p = with_queue s.p (enter_enq s.p.jobq) }
step s (add_tried f a) = if s.p.jobq.enq_awake == 0 then s else add s f a
step s (take_tried i) = take s i (worker_at i s.workers)
step s (job_ended i) = finish s i (worker_at i s.workers)
step s (destroyed junk) = destroy_round s junk s.stage
step s adder_woken = record s { p = with_queue s.p (wake_enq s.p.jobq) }
step s taker_woken = record s { p = with_queue s.p (wake_deq s.p.jobq) }

unfoldable pub run : Pool → List Event → Pool
run s [] = s
run s (e ∷ es) = run (step s e) es
