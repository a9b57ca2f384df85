-- ===== src/ThrPool/Workers/Stepping.antt =====
-- What a step of a worker or of the destructor does to the invariant of a pool.
use yfs_lab.Prelude.{
  ℕ, zero, suc, ◌+◌, ◌-◌, ◌*◌, ◌<◌, ◌≡◌, ◌⊎◌, refl, sym, ap, subst, ◌∙◌, [], ◌∷◌, ◌++◌, Bool, true,
  false, Option, none, some, arith, length, ◌==◌, Bool-cases, inl, inr,
}
use mathlib.Core.List.{append-nil}
use yfs_lab.Fifo.{Fifo, enter_deq, enq_round, deq_round}
use yfs_lab.Fifo.Wakeup
use yfs_lab.Fifo.Rounds.{
  enq_total, deq_total, enq_round-keeps, enq_round_cases, deq_round_cases, deq_round-IsFifo,
  Enqueued, added, refused, waits,
}
use yfs_lab.ThrPool.{Job, is_job, take_job}
use yfs_lab.ThrPool.Workers.{
  Worker, takes, runs, exited, Stage, in_use, puts, joins, Pool, with_queue, worker_at, take,
  finish, next_pill, pill_round, join_round, destroy_round,
}
use yfs_lab.ThrPool.Workers.Counts.{
  live, taking, live_before, live_before-suc, jobs_of, pills, PillsLast, jobs_of-append,
  pills-append, PillsLast-pill,
}
use yfs_lab.ThrPool.Workers.Invariant.{IsAt, IsPool, requeued-IsPool}
use yfs_lab.ThrPool.Workers.Taking.{moved-IsPool, live-moved, taken-IsPool}

pub take-IsPool :
    (s : Pool) (i : ℕ) (o : Option Worker)
    → worker_at i s.workers ≡ o
    → IsPool s
    → IsPool (take s i o)
unfolding take take_job
take-IsPool s i none e v = v
take-IsPool s i (some (runs j)) e v = v
take-IsPool s i (some exited) e v = v
take-IsPool s i (some takes) e v = elim (Bool-cases (s.p.jobq.deq_awake == 0)) [
  | inl asleep ↦ rw (take, asleep) v
  | inr awake ↦
      let l : 0 < s.p.jobq.deq_awake = ground (arith, awake) in
      let (moved, lim, enqs) = deq_round_cases s.p.jobq l in
      rw (take, awake)
        (taken-IsPool s i (deq_round s.p.jobq).0 (deq_round s.p.jobq).1 e v
          (deq_round-IsFifo s.p.jobq l v.queue) lim enqs moved)
]

pub finish-IsPool :
    (s : Pool) (i : ℕ) (o : Option Worker)
    → worker_at i s.workers ≡ o
    → IsPool s
    → IsPool (finish s i o)
unfolding finish
finish-IsPool s i none e v = v
finish-IsPool s i (some takes) e v = v
finish-IsPool s i (some exited) e v = v
finish-IsPool s i (some (runs j)) e v =
    let q = enter_deq s.p.jobq in
    let same = live-moved s i (runs j) takes q 0 e refl (omega arith) refl in
    moved-IsPool s i (runs j) takes q 0 e refl (omega arith) refl s.started v
      (Wakeup.step-IsFifo s.p.jobq Wakeup.deq_entered v.queue) refl (omega arith) v.order v.last
      (elim v.busy [ inl l ↦ inl (omega (arith, l, same)) | inr n ↦ inr n ])

-- With `k` pills to come and no thread in `enq`, the destructor goes on.
next_pill-IsPool :
    (s : Pool) (k : ℕ)
    → Wakeup.IsFifo s.p.jobq
    → 0 < s.p.nthreads
    → s.p.jobq.max ≡ 100 * s.p.nthreads
    → length s.workers ≡ s.p.nthreads
    → deq_total s.p.jobq ≡ taking s.workers
    → s.accepted ≡ s.started ++ jobs_of s.p.jobq.q
    → PillsLast s.p.jobq.q
    → (0 < live s.workers) ⊎ (s.p.jobq.q ≡ [])
    → pills s.p.jobq.q + k ≡ live s.workers
    → enq_total s.p.jobq ≡ 0
    → IsPool (next_pill s k)
unfolding next_pill
next_pill-IsPool s zero ok staffed lim size takers order last busy enough enqs = record {
  queue = ok;
  staffed = staffed;
  limit = lim;
  size = size;
  takers = takers;
  order = order;
  last = last;
  busy = busy;
  at_stage = (
    omega (arith, enough),
    omega arith,
    ap (λ m. live_before m s.workers) (none_joined s.p.nthreads),
  );
}
  where
    none_joined : (n : ℕ) → n - n ≡ 0
    none_joined n = omega arith
next_pill-IsPool s (suc k) ok staffed lim size takers order last busy enough enqs = record {
  queue = Wakeup.step-IsFifo s.p.jobq Wakeup.enq_entered ok;
  staffed = staffed;
  limit = lim;
  size = size;
  takers = takers;
  order = order;
  last = last;
  busy = busy;
  at_stage = (omega arith, enough, omega (arith, enqs));
}

pilled-IsPool :
    (s : Pool) (k : ℕ) (j : Job) (o : Option Bool) (q : Fifo Job)
    → s.stage ≡ puts (suc k)
    → is_job j ≡ false
    → IsPool s
    → Wakeup.IsFifo q
    → q.max ≡ s.p.jobq.max
    → deq_total q ≡ deq_total s.p.jobq
    → Enqueued s.p.jobq j true o q
    → IsPool (elim o as (λ x. Pool) [
      | none ↦ record s { p = with_queue s.p q }
      | some b ↦ next_pill (record s { p = with_queue s.p q }) k
    ])
pilled-IsPool s k j o q at pill v ok lim deqs (added e same n) =
    let here = subst (λ st. IsAt st s) at v.at_stage in
    let count : pills q.q ≡ suc (pills s.p.jobq.q) =
      ap pills same ∙ pills-append s.p.jobq.q (j ∷ []) ∙ ground (arith, pill) in
    let jobs : jobs_of q.q ≡ jobs_of s.p.jobq.q =
      ap jobs_of same
      ∙ jobs_of-append s.p.jobq.q (j ∷ [])
      ∙ ground (arith, pill, append-nil (jobs_of s.p.jobq.q)) in
    rw e (
      next_pill-IsPool (record s { p = with_queue s.p q }) k ok v.staffed (lim ∙ v.limit) v.size
        (deqs ∙ v.takers) (rw jobs v.order)
        (subst PillsLast (sym same) (PillsLast-pill s.p.jobq.q j pill v.last))
        (inl (omega (arith, here.1))) (omega (arith, count, here.1)) (omega (arith, n, here.2)))
pilled-IsPool s k j o q at pill v ok lim deqs (refused e nb same n) = absurd (cc nb)
pilled-IsPool s k j o q at pill v ok lim deqs (waits e full same n) =
    rw e (requeued-IsPool s q v ok same lim deqs (inr n))

joined-IsPool :
    (s : Pool) (k : ℕ) (o : Option Worker)
    → s.stage ≡ joins (suc k)
    → worker_at (s.p.nthreads - suc k) s.workers ≡ o
    → IsPool s
    → IsPool (join_round s k o)
unfolding join_round
joined-IsPool s k none at e v = v
joined-IsPool s k (some takes) at e v = v
joined-IsPool s k (some (runs j)) at e v = v
joined-IsPool s k (some exited) at e v =
    let here = subst (λ st. IsAt st s) at v.at_stage in
    let next : s.p.nthreads - k ≡ suc (s.p.nthreads - suc k) = omega (arith, here.1) in
    record {
      queue = v.queue;
      staffed = v.staffed;
      limit = v.limit;
      size = v.size;
      takers = v.takers;
      order = v.order;
      last = v.last;
      busy = v.busy;
      at_stage = (
        here.0,
        omega (arith, here.1),
        ap (λ m. live_before m s.workers) next
            ∙ live_before-suc (s.p.nthreads - suc k) s.workers e
            ∙ here.2,
      );
    }

pub destroy_round-IsPool :
    (s : Pool) (junk : ℕ) (st : Stage)
    → s.stage ≡ st
    → (st ≡ in_use → enq_total s.p.jobq ≡ 0)
    → IsPool s
    → IsPool (destroy_round s junk st)
unfolding destroy_round pill_round
destroy_round-IsPool s junk in_use at quiet v =
    let here = subst (λ st. IsAt st s) at v.at_stage in
    next_pill-IsPool s s.p.nthreads v.queue v.staffed v.limit v.size v.takers v.order v.last v.busy
      (omega (arith, here.0, here.1)) (quiet refl)
destroy_round-IsPool s junk (puts zero) at quiet v = v
destroy_round-IsPool s junk (puts (suc k)) at quiet v =
    let j : Job = record { f = none; a = junk } in
    elim (Bool-cases (s.p.jobq.enq_awake == 0)) [
      | inl asleep ↦ rw (destroy_round, asleep) v
      | inr awake ↦
          let l : 0 < s.p.jobq.enq_awake = ground (arith, awake) in
          let keeps = enq_round-keeps s.p.jobq j true in
          rw (destroy_round, awake)
            (pilled-IsPool s k j (enq_round s.p.jobq j true).0 (enq_round s.p.jobq j true).1 at refl
              v (Wakeup.enq_round-IsFifo s.p.jobq j true l v.queue) keeps.max keeps.deqs
              (enq_round_cases s.p.jobq j true l))
    ]
destroy_round-IsPool s junk (joins zero) at quiet v = v
destroy_round-IsPool s junk (joins (suc k)) at quiet v =
    joined-IsPool s k (worker_at (s.p.nthreads - suc k) s.workers) at refl v
