-- ===== src/ThrPool/Workers/Shutdown.antt =====
-- The destructor of a pool comes to its end.
use yfs_lab.Prelude.{
  ℕ, zero, suc, ◌+◌, ◌-◌, ◌*◌, ◌≤◌, ◌<◌, ◌≡◌, ◌≢◌, ◌⊎◌, refl, sym, ap, subst, ◌∙◌, List, [], ◌∷◌,
  Bool, true, false, Option, none, some, arith, length, length-append, some_inj, ◌==◌, Bool-cases,
  inl, inr,
}
use yfs_lab.Fifo.{Fifo, wake_deq, enq_round, has_space}
use yfs_lab.ThrPool.{Job}
use yfs_lab.ThrPool.Workers.{
  Worker, takes, runs, exited, Stage, in_use, puts, joins, Pool, with_queue, start, worker_at, add,
  taken, take, finish, next_pill, pill_round, join_round, destroy_round, Event, add_entered,
  add_tried, take_tried, job_ended, destroyed, adder_woken, taker_woken, step, run,
}
use yfs_lab.ThrPool.Workers.Counts.{sum_of, live, one_live, pills}
use yfs_lab.ThrPool.Workers.Invariant.{IsAt, IsPool}
use yfs_lab.ThrPool.Workers.Histories.{AllAllowed, step-IsPool, run-IsPool, start-IsPool}
use yfs_lab.ThrPool.Workers.Progress.{one_running, stage_weight, weight, Progress, worker-Progress}

nonempty : (q : List Job) → 0 < pills q → 0 < length q
nonempty [] l = l
nonempty (j ∷ q) l = omega arith

live-at : (i : ℕ) (ws : List Worker) (w : Worker) → worker_at i ws ≡ some w → one_live w ≤ live ws
live-at i [] w e = absurd (cc e)
live-at zero (x ∷ ws) w e = omega (arith, ap one_live (some_inj e))
live-at (suc i) (x ∷ ws) w e = omega (arith, live-at i ws w e)

worker_at-within :
    (i : ℕ) (ws : List Worker) → i < length ws → (w : Worker) × (worker_at i ws ≡ some w)
worker_at-within i [] l = absurd (omega (arith, l))
worker_at-within zero (w ∷ ws) l = (w, refl)
worker_at-within (suc i) (w ∷ ws) l = worker_at-within i ws (omega (arith, l))

enq_round-room :
    (s : Fifo Job) (e : Job)
    → has_space s ≡ true
    → ((enq_round s e true).0 ≡ some true)
      × (length (enq_round s e true).1.q ≡ suc (length s.q))
      × ((enq_round s e true).1.deq_awake ≤ suc s.deq_awake)
unfolding enq_round wake_deq
enq_round-room s e room = (ground arith, ground (arith, length-append s.q (e ∷ [])), ground arith)

next_pill-weight :
    (s : Pool) (k : ℕ)
    → weight (next_pill s k)
      ≡ 20 * k
        + s.p.nthreads
        + 5 * length s.p.jobq.q
        + 2 * sum_of one_running s.workers
        + s.p.jobq.deq_awake
unfolding next_pill
next_pill-weight s zero = omega arith
next_pill-weight s (suc k) = refl

put-Progress :
    (s : Pool) (k : ℕ) → IsPool s → s.stage ≡ puts (suc k) → has_space s.p.jobq ≡ true → Progress s
unfolding step destroy_round pill_round
put-Progress s k v at room =
    let here = subst (λ st. IsAt st s) at v.at_stage in
    let awake : (s.p.jobq.enq_awake == 0) ≡ false = ground (arith, here.2, v.queue.places) in
    let (o, longer, woken) = enq_round-room s.p.jobq (record { f = none; a = 0 }) room in
    let q = (enq_round s.p.jobq (record { f = none; a = 0 }) true).1 in
    let after : step s (destroyed 0) ≡ next_pill (record s { p = with_queue s.p q }) k =
      ap (λ st. destroy_round s 0 st) at ∙ rw (destroy_round, pill_round, awake, o) refl in
    (
      destroyed 0,
      λ e. absurd (cc (sym at ∙ e)),
      omega (
        arith,
        ap weight after,
        next_pill-weight (record s { p = with_queue s.p q }) k,
        ap (stage_weight s.p.nthreads) at,
        longer,
        woken,
      ),
    )

join-Progress :
    (s : Pool) (k : ℕ)
    → s.stage ≡ joins (suc k)
    → worker_at (s.p.nthreads - suc k) s.workers ≡ some exited
    → Progress s
unfolding step destroy_round join_round
join-Progress s k at e = (
  destroyed 0,
  λ q. absurd (cc (sym at ∙ q)),
  omega (
    arith,
    ap (λ st. weight (destroy_round s 0 st)) at,
    ap (λ o. weight (join_round s k o)) e,
    ap (stage_weight s.p.nthreads) at,
  ),
)

pool-Progress :
    (s : Pool) (st : Stage) → s.stage ≡ st → IsPool s → (st ≡ in_use) ⊎ (st ≡ joins 0) ⊎ Progress s
pool-Progress s in_use at v = inl refl
pool-Progress s (puts zero) at v = absurd (omega (arith, (subst (λ st. IsAt st s) at v.at_stage).0))
pool-Progress s (puts (suc k)) at v =
    let here = subst (λ st. IsAt st s) at v.at_stage in
    elim (Bool-cases (has_space s.p.jobq)) [
      | inl room ↦ inr (inr (put-Progress s k v at room))
      | inr full ↦ inr (
          inr (
            worker-Progress s v (omega (arith, here.1)) (ground (arith, full, v.limit, v.staffed))))
    ]
pool-Progress s (joins zero) at v = inr (inl refl)
pool-Progress s (joins (suc k)) at v =
    let here = subst (λ st. IsAt st s) at v.at_stage in
    let (w, e) =
      worker_at-within (s.p.nthreads - suc k) s.workers (omega (arith, here.1, v.size)) in
    let some_live : (u : Worker)
        → worker_at (s.p.nthreads - suc k) s.workers ≡ some u
        → 0 < one_live u
        → Progress s =
      λ u e' l.
        worker-Progress s v (omega (arith, l, live-at _ s.workers u e'))
          (nonempty s.p.jobq.q (omega (arith, l, here.0, live-at _ s.workers u e'))) in
    inr (inr (by_worker w e some_live))
  where
    by_worker :
        (w : Worker)
        → worker_at (s.p.nthreads - suc k) s.workers ≡ some w
        → ((u : Worker)
            → worker_at (s.p.nthreads - suc k) s.workers ≡ some u
            → 0 < one_live u
            → Progress s)
        → Progress s
    by_worker exited e go = join-Progress s k at e
    by_worker takes e go = go takes e (omega arith)
    by_worker (runs j) e go = go (runs j) e (omega arith)

-- The destructor was called.
abbrev pub IsEnding : Pool → Type 0
IsEnding s = s.stage ≢ in_use

take-stage : (s : Pool) (i : ℕ) (o : Option Worker) → (take s i o).stage ≡ s.stage
unfolding take taken
take-stage s i none = refl
take-stage s i (some takes) = ground arith
take-stage s i (some (runs j)) = refl
take-stage s i (some exited) = refl

finish-stage : (s : Pool) (i : ℕ) (o : Option Worker) → (finish s i o).stage ≡ s.stage
unfolding finish
finish-stage s i none = refl
finish-stage s i (some takes) = refl
finish-stage s i (some (runs j)) = refl
finish-stage s i (some exited) = refl

next_pill-IsEnding : (s : Pool) (k : ℕ) → IsEnding (next_pill s k)
unfolding next_pill
next_pill-IsEnding s zero = λ e. cc
next_pill-IsEnding s (suc k) = λ e. cc

pilled-IsEnding :
    (s : Pool) (k : ℕ) (o : Option Bool)
    → IsEnding s
    → IsEnding (elim o as (λ x. Pool) [ none ↦ s | some b ↦ next_pill s k ])
pilled-IsEnding s k none n = n
pilled-IsEnding s k (some b) n = next_pill-IsEnding s k

join_round-IsEnding :
    (s : Pool) (k : ℕ) (o : Option Worker) → IsEnding s → IsEnding (join_round s k o)
unfolding join_round
join_round-IsEnding s k none n = n
join_round-IsEnding s k (some takes) n = n
join_round-IsEnding s k (some (runs j)) n = n
join_round-IsEnding s k (some exited) n = λ e. cc

destroy_round-IsEnding :
    (s : Pool) (junk : ℕ) (st : Stage) → IsEnding s → IsEnding (destroy_round s junk st)
unfolding destroy_round pill_round join_round
destroy_round-IsEnding s junk in_use n = next_pill-IsEnding s s.p.nthreads
destroy_round-IsEnding s junk (puts zero) n = n
destroy_round-IsEnding s junk (puts (suc k)) n =
    let (o, q) = enq_round s.p.jobq (record { f = none; a = junk }) true in
    elim (Bool-cases (s.p.jobq.enq_awake == 0)) [
      | inl asleep ↦ rw (destroy_round, asleep) n
      | inr awake ↦
          rw (destroy_round, awake) (pilled-IsEnding (record s { p = with_queue s.p q }) k o n)
    ]
destroy_round-IsEnding s junk (joins zero) n = n
destroy_round-IsEnding s junk (joins (suc k)) n = join_round-IsEnding s k _ n

step-IsEnding : (s : Pool) (e : Event) → IsEnding s → IsEnding (step s e)
unfolding step add
step-IsEnding s add_entered n = n
step-IsEnding s (add_tried f a) n = elim (Bool-cases (s.p.jobq.enq_awake == 0)) [
  | inl asleep ↦ rw (step, asleep) n
  | inr awake ↦ rw (step, awake) n
]
step-IsEnding s (take_tried i) n = λ q. n (sym (take-stage s i _) ∙ q)
step-IsEnding s (job_ended i) n = λ q. n (sym (finish-stage s i _) ∙ q)
step-IsEnding s (destroyed junk) n = destroy_round-IsEnding s junk s.stage n
step-IsEnding s adder_woken n = n
step-IsEnding s taker_woken n = n

pool_ends :
    (n : ℕ) (s : Pool)
    → weight s < n
    → IsPool s
    → IsEnding s
    → (es : List Event) × AllAllowed s es × ((run s es).stage ≡ joins 0)
unfolding run
pool_ends zero s l v ending = absurd (omega (arith, l))
pool_ends (suc n) s l v ending = elim (pool-Progress s s.stage refl v) [
  | inl unused ↦ absurd (ending unused)
  | inr (inl done) ↦ ([], tt, done)
  | inr (inr (e, a, lighter)) ↦
      let (es, allowed, done) =
        pool_ends n (step s e) (omega (arith, l, lighter)) (step-IsPool s e a v)
          (step-IsEnding s e ending) in
      (e ∷ es, (a, allowed), done)
]

-- Whatever has happened in a pool with threads, if no thread is in addJob or enters it once the
-- destructor is called, a destructor that was called is never stuck: there are rounds and ends of
-- jobs behind which it has joined every thread.
pub destructor_ends :
    (sz : ℕ) (blocking : Bool) (es : List Event)
    → 0 < sz
    → AllAllowed (start sz blocking) es
    → IsEnding (run (start sz blocking) es)
    → let s = run (start sz blocking) es in
      (more : List Event) × AllAllowed s more × ((run s more).stage ≡ joins 0)
destructor_ends sz blocking es l a ending =
    let s = run (start sz blocking) es in
    pool_ends (suc (weight s)) s (omega arith)
      (run-IsPool (start sz blocking) es a (start-IsPool sz blocking l)) ending
