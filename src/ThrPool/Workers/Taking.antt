-- ===== src/ThrPool/Workers/Taking.antt =====
-- What a round of takeJob does to the invariant of a pool.
use native.Mathlib.Decide.{dec_lt}
use yfs_lab.Prelude.{
  ℕ, suc, ◌+◌, ◌-◌, ◌<◌, ◌≡◌, ◌⊎◌, refl, sym, ap, subst, ◌∙◌, List, [], ◌∷◌, ◌++◌, Option, some,
  arith, Bool-cases, inl, inr,
}
use mathlib.Core.List.{append_assoc}
use yfs_lab.Fifo.{Fifo}
use yfs_lab.Fifo.Wakeup
use yfs_lab.Fifo.Rounds.{enq_total, deq_total, Dequeued, took, waits_for}
use yfs_lab.ThrPool.{Job, is_job, with_test}
use yfs_lab.ThrPool.Workers.{
  Worker, takes, runs, exited, Stage, in_use, puts, joins, Pool, with_queue, worker_at, set_worker,
  taken,
}
use yfs_lab.ThrPool.Workers.Counts.{
  live, one_live, one_taking, set_worker-sum_of, length-set_worker, set_worker-live_before, jobs_of,
  pills, PillsLast, empty_lem, no_jobs-PillsLast,
}
use yfs_lab.ThrPool.Workers.Invariant.{IsAt, IsPool, requeued-IsPool}

-- Where a worker moves on: `m` is 1 where it takes a pill, and exits.
module _ (s : Pool) (i : ℕ) (w u : Worker) (q : Fifo Job) (m : ℕ)
    (e : worker_at i s.workers ≡ some w) (alive : one_live u + m ≡ one_live w)
    (fewer : pills s.p.jobq.q ≡ m + pills q.q) (enqs : enq_total q ≡ enq_total s.p.jobq) where
  abbrev pub moved_to : List Job → Pool
  moved_to l = record s { p = with_queue s.p q; workers = set_worker i u s.workers; started = l }

  pub live-moved : live (set_worker i u s.workers) + m ≡ live s.workers
  live-moved = omega (arith, set_worker-sum_of one_live i s.workers w u e, alive)

  pub moved-IsAt : (l : List Job) (st : Stage) → IsAt st s → IsAt st (moved_to l)
  moved-IsAt l in_use a = (omega (arith, fewer, a.0), omega (arith, live-moved, fewer, a.0, a.1))
  moved-IsAt l (puts k) a = (a.0, omega (arith, live-moved, fewer, a.1), enqs ∙ a.2)
  moved-IsAt l (joins k) a = (
    omega (arith, live-moved, fewer, a.0),
    a.1,
    omega (
      arith,
      a.2,
      set_worker-live_before (s.p.nthreads - k) i s.workers w u e (omega (arith, alive)),
    ),
  )

  pub moved-IsPool :
      (l : List Job)
      → IsPool s
      → Wakeup.IsFifo q
      → q.max ≡ s.p.jobq.max
      → deq_total q + one_taking w ≡ deq_total s.p.jobq + one_taking u
      → s.accepted ≡ l ++ jobs_of q.q
      → PillsLast q.q
      → (0 < live (set_worker i u s.workers)) ⊎ (q.q ≡ [])
      → IsPool (moved_to l)
  moved-IsPool l v ok lim deqs order last busy = record {
    queue = ok;
    staffed = v.staffed;
    limit = lim ∙ v.limit;
    size = length-set_worker i u s.workers ∙ v.size;
    takers = omega (arith, deqs, v.takers, set_worker-sum_of one_taking i s.workers w u e);
    order = order;
    last = last;
    busy = busy;
    at_stage = moved-IsAt l s.stage v.at_stage;
  }

-- Behind the last pill of the last thread nothing is left in the queue.
left_behind :
    (s : Pool) (q : List Job) (lives : ℕ) (st : Stage)
    → jobs_of q ≡ []
    → pills s.p.jobq.q ≡ suc (pills q)
    → live s.workers ≡ suc lives
    → IsAt st s
    → (0 < lives) ⊎ (q ≡ [])
left_behind s q lives in_use e p l a = absurd (omega (arith, p, a.0))
left_behind s q lives (puts k) e p l a = inl (omega (arith, p, l, a.0, a.1))
left_behind s q lives (joins k) e p l a = elim (dec_lt 0 lives) [
  | yes more ↦ inl more
  | no none_left ↦ inr (empty_lem q e (omega (arith, none_left, p, l, a.0)))
]

pub taken-IsPool :
    (s : Pool) (i : ℕ) (o : Option Job) (q : Fifo Job)
    → worker_at i s.workers ≡ some takes
    → IsPool s
    → Wakeup.IsFifo q
    → q.max ≡ s.p.jobq.max
    → enq_total q ≡ enq_total s.p.jobq
    → Dequeued s.p.jobq o q
    → IsPool (taken s i (with_test o, with_queue s.p q))
unfolding taken
taken-IsPool s i o q e v ok lim enqs (waits_for n was same deqs) =
    rw (n, with_test) (requeued-IsPool s q v ok (same ∙ sym was) lim deqs (inr enqs))
taken-IsPool s i o q e v ok lim enqs (took j n was deqs) =
    let back : PillsLast (j ∷ q.q) = subst PillsLast was v.last in
    elim (Bool-cases (is_job j)) [
      | inl job ↦
          let fewer : pills s.p.jobq.q ≡ 0 + pills q.q = ap pills was ∙ ground (arith, job) in
          rw (n, with_test, job)
            (moved-IsPool s i takes (runs j) q 0 e refl fewer enqs (s.started ++ (j ∷ [])) v ok lim
              (omega (arith, deqs))
              (v.order
                ∙ ap (λ l. s.started ++ jobs_of l) was
                ∙ ground (arith, job, append_assoc s.started (j ∷ []) (jobs_of q.q)))
              (elim back [ inl b ↦ b.1 | inr b ↦ absurd (cc (sym job ∙ b.0)) ])
              (elim v.busy [
                | inl some_live ↦
                    inl (
                      omega (arith, some_live, live-moved s i takes (runs j) q 0 e refl fewer enqs))
                | inr nothing ↦ absurd (cc (sym was ∙ nothing))
              ]))
      | inr pill ↦
          let fewer : pills s.p.jobq.q ≡ 1 + pills q.q = ap pills was ∙ ground (arith, pill) in
          let none_behind : jobs_of q.q ≡ [] = elim back [
            | inl b ↦ absurd (cc (sym pill ∙ b.0))
            | inr b ↦ b.1
          ] in
          let last = live-moved s i takes exited q 1 e refl fewer enqs in
          rw (n, with_test, pill)
            (moved-IsPool s i takes exited q 1 e refl fewer enqs s.started v ok lim
              (omega (arith, deqs))
              (v.order ∙ ap (λ l. s.started ++ jobs_of l) was ∙ ground (arith, pill))
              (no_jobs-PillsLast q.q none_behind)
              (left_behind s q.q _ s.stage none_behind (omega (arith, fewer)) (omega (arith, last))
                v.at_stage))
    ]
