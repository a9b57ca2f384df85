-- ===== src/ThrPool/Workers/Invariant.antt =====
-- What holds of a pool in every history: its jobs are run in order, and each thread gets a pill.
use yfs_lab.Prelude.{
  ℕ, ◌+◌, ◌-◌, ◌*◌, ◌≤◌, ◌<◌, ◌≡◌, ◌⊎◌, refl, sym, ap, subst, ◌∙◌, [], ◌∷◌, ◌++◌, Bool, true,
  Option, some, arith, length, inl, inr,
}
use mathlib.Core.List.{append_assoc}
use yfs_lab.Fifo.{Fifo, enq_round}
use yfs_lab.Fifo.Wakeup
use yfs_lab.Fifo.Rounds.{
  enq_total, deq_total, enq_round-keeps, enq_round_cases, Enqueued, added, refused, waits,
}
use yfs_lab.ThrPool.{Job, is_job, add_job}
use yfs_lab.ThrPool.Workers.{Stage, in_use, puts, joins, Pool, with_queue, accept, add}
use yfs_lab.ThrPool.Workers.Counts.{
  live, taking, live_before, jobs_of, pills, PillsLast, jobs_of-append, pills-append, PillsLast-job,
}

-- How many pills there are, for the threads that are left: none before the destructor, and then one
-- in the queue or still to come for each.
abbrev pub IsAt : Stage → Pool → Type 0
IsAt in_use s = (pills s.p.jobq.q ≡ 0) × (live s.workers ≡ s.p.nthreads)
IsAt (puts k) s = (0 < k) × (pills s.p.jobq.q + k ≡ live s.workers) × (enq_total s.p.jobq ≡ 1)
IsAt (joins k) s =
    (pills s.p.jobq.q ≡ live s.workers)
    × (k ≤ s.p.nthreads)
    × (live_before (s.p.nthreads - k) s.workers ≡ 0)

pub record IsPool (s : Pool) : Type 0 where
  pub queue : Wakeup.IsFifo s.p.jobq
  pub staffed : 0 < s.p.nthreads
  pub limit : s.p.jobq.max ≡ 100 * s.p.nthreads
  pub size : length s.workers ≡ s.p.nthreads
  pub takers : deq_total s.p.jobq ≡ taking s.workers
  pub order : s.accepted ≡ s.started ++ jobs_of s.p.jobq.q
  pub last : PillsLast s.p.jobq.q
  pub busy : (0 < live s.workers) ⊎ (s.p.jobq.q ≡ [])
  pub at_stage : IsAt s.stage s

pub requeued-IsPool :
    (s : Pool) (q : Fifo Job)
    → IsPool s
    → Wakeup.IsFifo q
    → (q.q ≡ s.p.jobq.q)
    → (q.max ≡ s.p.jobq.max)
    → deq_total q ≡ deq_total s.p.jobq
    → (s.stage ≡ in_use) ⊎ (enq_total q ≡ enq_total s.p.jobq)
    → IsPool (record s { p = with_queue s.p q })
requeued-IsPool s q v ok same lim deqs enqs = record {
  queue = ok;
  staffed = v.staffed;
  limit = lim ∙ v.limit;
  size = v.size;
  takers = deqs ∙ v.takers;
  order = rw same v.order;
  last = subst PillsLast (sym same) v.last;
  busy = elim v.busy [ inl l ↦ inl l | inr e ↦ inr (same ∙ e) ];
  at_stage = by_stage s.stage enqs v.at_stage;
}
  where
    by_stage :
        (st : Stage)
        → (st ≡ in_use) ⊎ (enq_total q ≡ enq_total s.p.jobq)
        → IsAt st s
        → IsAt st (record s { p = with_queue s.p q })
    by_stage in_use n a = (ap pills same ∙ a.0, a.1)
    by_stage (puts k) n a = ground (arith, a, same, n)
    by_stage (joins k) n a = (ap pills same ∙ a.0, a.1, a.2)

-- Behind a round of `enq` with a job, before the destructor.
added-IsPool :
    (s : Pool) (j : Job) (o : Option Bool) (q : Fifo Job)
    → s.stage ≡ in_use
    → is_job j ≡ true
    → IsPool s
    → Wakeup.IsFifo q
    → (q.max ≡ s.p.jobq.max)
    → deq_total q ≡ deq_total s.p.jobq
    → Enqueued s.p.jobq j s.p.blockadd o q
    → IsPool (record s { p = with_queue s.p q; accepted = accept s.accepted j o })
added-IsPool s j o q idle job v ok lim deqs (added e same n) =
    let here = subst (λ st. IsAt st s) idle v.at_stage in
    record {
      queue = ok;
      staffed = v.staffed;
      limit = lim ∙ v.limit;
      size = v.size;
      takers = deqs ∙ v.takers;
      order =
          rw (e, same, jobs_of-append, job)
            (ap (λ l. l ++ (j ∷ [])) v.order
              ∙ append_assoc s.started (jobs_of s.p.jobq.q) (j ∷ []));
      last = subst PillsLast (sym same) (PillsLast-job s.p.jobq.q j here.0 job);
      busy = inl (omega (arith, here.1, v.staffed));
      at_stage =
          rw idle (
            ap pills same ∙ pills-append s.p.jobq.q (j ∷ []) ∙ ground (arith, here.0, job),
            here.1,
          );
    }
added-IsPool s j o q idle job v ok lim deqs (refused e nb same n) =
    rw (e, accept) (requeued-IsPool s q v ok same lim deqs (inl idle))
added-IsPool s j o q idle job v ok lim deqs (waits e full same n) =
    rw (e, accept) (requeued-IsPool s q v ok same lim deqs (inl idle))

pub add-IsPool :
    (s : Pool) (f a : ℕ) → s.stage ≡ in_use → 0 < s.p.jobq.enq_awake → IsPool s → IsPool (add s f a)
unfolding add add_job
add-IsPool s f a idle l v =
    let j : Job = record { f = some f; a = a } in
    let keeps = enq_round-keeps s.p.jobq j s.p.blockadd in
    added-IsPool s j (enq_round s.p.jobq j s.p.blockadd).0 (enq_round s.p.jobq j s.p.blockadd).1
      idle refl v (Wakeup.enq_round-IsFifo s.p.jobq j s.p.blockadd l v.queue) keeps.max keeps.deqs
      (enq_round_cases s.p.jobq j s.p.blockadd l)
