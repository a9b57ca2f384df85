-- ===== src/ThrPool/Workers/Histories.antt =====
-- Histories of a pool: its jobs are run in order, each once.
use yfs_lab.Prelude.{
  ℕ, zero, suc, ◌+◌, ◌-◌, ◌*◌, ◌<◌, ◌≡◌, refl, sym, ap, subst, ◌∙◌, List, [], ◌∷◌, ◌++◌, Bool,
  arith, length, ◌==◌, Bool-cases, inl, inr,
}
use mathlib.Core.List.{append-nil}
use yfs_lab.Fifo.{fifo, enter_enq, wake_enq, wake_deq}
use yfs_lab.Fifo.Wakeup
use yfs_lab.Fifo.Rounds.{enq_total, deq_total, wake_deq-Woken, wake_enq-Woken}
use yfs_lab.ThrPool.{ThrPool, thr_pool}
use yfs_lab.ThrPool.Workers.{
  Worker, in_use, joins, Pool, create, start, worker_at, Event, add_entered, add_tried, take_tried,
  job_ended, destroyed, adder_woken, taker_woken, step, run,
}
use yfs_lab.ThrPool.Workers.Counts.{
  live, taking, live_before, live_before-length, jobs_of, pills, PillsLast,
}
use yfs_lab.ThrPool.Workers.Invariant.{IsAt, IsPool, requeued-IsPool, add-IsPool}
use yfs_lab.ThrPool.Workers.Stepping.{take-IsPool, finish-IsPool, destroy_round-IsPool}

-- From when the destructor is called, no thread outside is in addJob or goes into it.
abbrev pub Allowed : Pool → Event → Type 0
Allowed s add_entered = s.stage ≡ in_use
Allowed s (add_tried f a) = s.stage ≡ in_use
Allowed s (take_tried i) = Unit
Allowed s (job_ended i) = Unit
Allowed s (destroyed junk) = s.stage ≡ in_use → enq_total s.p.jobq ≡ 0
Allowed s adder_woken = Unit
Allowed s taker_woken = Unit

pub step-IsPool : (s : Pool) (e : Event) → Allowed s e → IsPool s → IsPool (step s e)
unfolding step
step-IsPool s add_entered a v =
    requeued-IsPool s (enter_enq s.p.jobq) v
      (Wakeup.step-IsFifo s.p.jobq Wakeup.enq_entered v.queue) refl refl refl (inl a)
step-IsPool s (add_tried f x) a v = elim (Bool-cases (s.p.jobq.enq_awake == 0)) [
  | inl asleep ↦ rw (step, asleep) v
  | inr awake ↦ rw (step, awake) (add-IsPool s f x a (ground (arith, awake)) v)
]
step-IsPool s (take_tried i) a v = take-IsPool s i (worker_at i s.workers) refl v
step-IsPool s (job_ended i) a v = finish-IsPool s i (worker_at i s.workers) refl v
step-IsPool s (destroyed junk) a v = destroy_round-IsPool s junk s.stage refl (λ e. a e) v
step-IsPool s adder_woken a v =
    let w = wake_enq-Woken s.p.jobq in
    requeued-IsPool s (wake_enq s.p.jobq) v (Wakeup.wake_enq-IsFifo s.p.jobq v.queue) w.q w.max
      w.deqs (inr w.enqs)
step-IsPool s taker_woken a v =
    let w = wake_deq-Woken s.p.jobq in
    requeued-IsPool s (wake_deq s.p.jobq) v (Wakeup.wake_deq-IsFifo s.p.jobq v.queue) w.q w.max
      w.deqs (inr w.enqs)

-- Each event is allowed where it happens.
abbrev pub AllAllowed : Pool → List Event → Type 0
AllAllowed s [] = Unit
AllAllowed s (e ∷ es) = Allowed s e × AllAllowed (step s e) es

pub run-IsPool : (s : Pool) (es : List Event) → AllAllowed s es → IsPool s → IsPool (run s es)
unfolding run
run-IsPool s [] a v = v
run-IsPool s (e ∷ es) a v = run-IsPool (step s e) es a.1 (step-IsPool s e a.0 v)

-- The threads that the constructor starts.
record Created (p : ThrPool) (n : ℕ) (r : ThrPool × List Worker) : Type 0 where
  queue : Wakeup.IsFifo r.0.jobq
  same : (r.0.nthreads ≡ p.nthreads) × (r.0.jobq.max ≡ p.jobq.max) × (r.0.jobq.q ≡ p.jobq.q)
  many : (length r.1 ≡ n) × (live r.1 ≡ n)
  takers : deq_total r.0.jobq ≡ deq_total p.jobq + taking r.1

create-Created : (p : ThrPool) (n : ℕ) → Wakeup.IsFifo p.jobq → Created p n (create p n)
unfolding create
create-Created p zero ok = record {
  queue = ok;
  same = (refl, refl, refl);
  many = (refl, refl);
  takers = omega arith;
}
create-Created p (suc n) ok =
    let c = create-Created p n ok in
    record {
      queue = Wakeup.step-IsFifo (create p n).0.jobq Wakeup.deq_entered c.queue;
      same = c.same;
      many = (omega (arith, c.many.0), omega (arith, c.many.1));
      takers = omega (arith, c.takers);
    }

pub start-IsPool : (sz : ℕ) (blocking : Bool) → 0 < sz → IsPool (start sz blocking)
unfolding start thr_pool fifo
start-IsPool sz blocking l =
    let c = create-Created (thr_pool sz blocking) sz (Wakeup.fifo-IsFifo (100 * sz)) in
    let empty = c.same.2 in
    record {
      queue = c.queue;
      staffed = omega (arith, c.same.0, l);
      limit = c.same.1 ∙ ap (λ n. 100 * n) (sym c.same.0);
      size = c.many.0 ∙ sym c.same.0;
      takers = omega (arith, c.takers);
      order = sym (ap jobs_of empty);
      last = subst PillsLast (sym empty) tt;
      busy = inr empty;
      at_stage = (ap pills empty, c.many.1 ∙ sym c.same.0);
    }

-- In every history of a pool with threads, the jobs that workers have begun to run are the first of
-- those that addJob accepted, each once and in the same order, and the others are in the queue, if no
-- thread is in addJob or enters it once the destructor is called.
pub jobs_in_order :
    (sz : ℕ) (blocking : Bool) (es : List Event)
    → 0 < sz
    → AllAllowed (start sz blocking) es
    → (run (start sz blocking) es).accepted
      ≡ (run (start sz blocking) es).started ++ jobs_of (run (start sz blocking) es).p.jobq.q
jobs_in_order sz blocking es l a =
    (run-IsPool (start sz blocking) es a (start-IsPool sz blocking l)).order

all_exited : (s : Pool) → IsPool s → s.stage ≡ joins 0 → live s.workers ≡ 0
all_exited s v e =
    let here = subst (λ st. IsAt st s) e v.at_stage in
    sym (live_before-length s.workers)
    ∙ ap (λ m. live_before m s.workers) (v.size ∙ less_zero s.p.nthreads)
    ∙ here.2
  where
    less_zero : (n : ℕ) → n ≡ n - 0
    less_zero n = omega arith

-- When the destructor of a pool with threads has joined the last of them, every job that addJob
-- accepted has been run, once and in order, the queue is empty, and every thread has exited, if no
-- thread is in addJob or enters it once the destructor is called.
pub all_jobs_run :
    (sz : ℕ) (blocking : Bool) (es : List Event)
    → 0 < sz
    → AllAllowed (start sz blocking) es
    → (run (start sz blocking) es).stage ≡ joins 0
    → let s = run (start sz blocking) es in
      (s.started ≡ s.accepted) × (s.p.jobq.q ≡ []) × (live s.workers ≡ 0)
all_jobs_run sz blocking es l a e =
    let s = run (start sz blocking) es in
    let v = run-IsPool (start sz blocking) es a (start-IsPool sz blocking l) in
    let none_left = all_exited s v e in
    let empty : s.p.jobq.q ≡ [] = elim v.busy [
      | inl some_live ↦ absurd (omega (arith, some_live, none_left))
      | inr q ↦ q
    ] in
    (
      sym (v.order ∙ ap (λ q. s.started ++ jobs_of q) empty ∙ append-nil s.started),
      empty,
      none_left,
    )
