-- ===== src/ThrPool/Workers/Progress.antt =====
-- What a worker or the destructor does to the work that is left.
use native.Mathlib.Decide.{dec_lt}
use yfs_lab.Prelude.{
  ℕ, suc, ◌+◌, ◌-◌, ◌*◌, ◌<◌, ◌≡◌, refl, List, [], ◌∷◌, false, Option, none, some, arith, length,
  ◌==◌, Bool-cases, inl, inr,
}
use yfs_lab.Fifo.{Fifo, wake_enq, deq_round, deq_from, signal_space}
use yfs_lab.ThrPool.{Job, is_job, take_job, with_test}
use yfs_lab.ThrPool.Workers.{
  Worker, takes, runs, exited, Stage, in_use, puts, joins, Pool, with_queue, worker_at, taken, take,
  finish, Event, take_tried, job_ended, step,
}
use yfs_lab.ThrPool.Workers.Counts.{sum_of, live, taking, one_taking, set_worker-sum_of}
use yfs_lab.ThrPool.Workers.Invariant.{IsPool}
use yfs_lab.ThrPool.Workers.Histories.{Allowed}

abbrev pub one_running : Worker → ℕ
one_running takes = 0
one_running (runs j) = 1
one_running exited = 0

abbrev pub stage_weight : ℕ → Stage → ℕ
stage_weight n in_use = 0
stage_weight n (puts k) = 20 * k + n
stage_weight n (joins k) = k

-- What is left to do once the destructor has been called.
abbrev pub weight : Pool → ℕ
weight s =
    stage_weight s.p.nthreads s.stage
    + 5 * length s.p.jobq.q
    + 2 * sum_of one_running s.workers
    + s.p.jobq.deq_awake

-- A worker for which a count is not 0.
found :
    (f : Worker → ℕ) (ws : List Worker)
    → 0 < sum_of f ws
    → (i : ℕ) × (w : Worker) × (worker_at i ws ≡ some w) × (0 < f w)
found f [] l = absurd (omega (arith, l))
found f (w ∷ ws) l = elim (dec_lt 0 (f w)) [
  | yes here ↦ (0, w, refl, here)
  | no there ↦ let (i, u, e, m) = found f ws (omega (arith, l, there)) in (suc i, u, e, m)
]

live-split : (ws : List Worker) → live ws ≡ taking ws + sum_of one_running ws
live-split [] = refl
live-split (takes ∷ ws) = omega (arith, live-split ws)
live-split (runs j ∷ ws) = omega (arith, live-split ws)
live-split (exited ∷ ws) = omega (arith, live-split ws)

-- A thread can act so that less is left to do.
abbrev pub Progress : Pool → Type 0
Progress s = (e : Event) × Allowed s e × (weight (step s e) < weight s)

deq_from-awake :
    (s : Fifo Job) (q : List Job)
    → s.q ≡ q
    → 0 < length q
    → (suc (length (deq_from s q).1.q) ≡ length q) × ((deq_from s q).1.deq_awake ≡ s.deq_awake - 1)
unfolding deq_from signal_space wake_enq
deq_from-awake s [] e l = absurd (omega (arith, l))
deq_from-awake s (x ∷ q) e l = (ground arith, ground arith)

taken-lighter :
    (s : Pool) (i : ℕ) (o : Option Job) (q : Fifo Job)
    → worker_at i s.workers ≡ some takes
    → suc (length q.q) ≡ length s.p.jobq.q
    → suc q.deq_awake ≡ s.p.jobq.deq_awake
    → weight (taken s i (with_test o, with_queue s.p q)) < weight s
unfolding taken
taken-lighter s i none q e shorter fewer = omega (arith, shorter, fewer)
taken-lighter s i (some j) q e shorter fewer = elim (Bool-cases (is_job j)) [
  | inl job ↦
      rw (with_test, job)
        (omega (arith, shorter, fewer, set_worker-sum_of one_running i s.workers takes (runs j) e))
  | inr pill ↦
      rw (with_test, pill)
        (omega (arith, shorter, fewer, set_worker-sum_of one_running i s.workers takes exited e))
]

take-Progress :
    (s : Pool) (i : ℕ)
    → worker_at i s.workers ≡ some takes
    → 0 < s.p.jobq.deq_awake
    → 0 < length s.p.jobq.q
    → Progress s
unfolding step take take_job deq_round
take-Progress s i e awake l =
    let awake_test : (s.p.jobq.deq_awake == 0) ≡ false = ground arith in
    let (shorter, fewer) = deq_from-awake s.p.jobq s.p.jobq.q refl l in
    (
      take_tried i,
      tt,
      rw (e, take, awake_test)
          (taken-lighter s i (deq_round s.p.jobq).0 (deq_round s.p.jobq).1 e shorter
            (omega (arith, fewer, awake))),
    )

finish-Progress : (s : Pool) (i : ℕ) (j : Job) → worker_at i s.workers ≡ some (runs j) → Progress s
unfolding step finish
finish-Progress s i j e = (
  job_ended i,
  tt,
  rw (e, finish) (omega (arith, set_worker-sum_of one_running i s.workers (runs j) takes e)),
)

-- A queue that is not empty and a thread that has not exited.
pub worker-Progress :
    (s : Pool) → IsPool s → 0 < live s.workers → 0 < length s.p.jobq.q → Progress s
worker-Progress s v l m = elim (dec_lt 0 (sum_of one_running s.workers)) [
  | yes busy ↦ let (i, w, e, r) = found one_running s.workers busy in by_running i w e r
  | no idle ↦
      let some_taking : 0 < taking s.workers = omega (arith, idle, l, live-split s.workers) in
      let (i, w, e, r) = found one_taking s.workers some_taking in by_taking i w e r some_taking
]
  where
    by_running :
        (i : ℕ) (w : Worker) → worker_at i s.workers ≡ some w → 0 < one_running w → Progress s
    by_running i takes e r = absurd (omega (arith, r))
    by_running i (runs j) e r = finish-Progress s i j e
    by_running i exited e r = absurd (omega (arith, r))

    by_taking :
        (i : ℕ) (w : Worker)
        → worker_at i s.workers ≡ some w
        → 0 < one_taking w
        → 0 < taking s.workers
        → Progress s
    by_taking i takes e r n =
        take-Progress s i e (ground (arith, m, n, v.takers, v.queue.elements)) m
    by_taking i (runs j) e r n = absurd (omega (arith, r))
    by_taking i exited e r n = absurd (omega (arith, r))
