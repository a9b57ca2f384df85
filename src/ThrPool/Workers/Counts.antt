-- ===== src/ThrPool/Workers/Counts.antt =====
-- Counting the workers of a pool, and the pills in its queue.
use yfs_lab.Prelude.{
  ◌⊎◌, ℕ, zero, suc, ◌+◌, ◌≤◌, ◌≡◌, refl, ap, List, [], ◌∷◌, ◌++◌, true, false, some, some_inj,
  arith, length, if◌then◌else◌, Bool-cases, inl, inr,
}
use yfs_lab.ThrPool.{Job, is_job}
use yfs_lab.ThrPool.Workers.{Worker, takes, runs, exited, worker_at, set_worker}

abbrev pub one_live : Worker → ℕ
one_live takes = 1
one_live (runs j) = 1
one_live exited = 0

abbrev pub one_taking : Worker → ℕ
one_taking takes = 1
one_taking (runs j) = 0
one_taking exited = 0

abbrev pub sum_of : (Worker → ℕ) → List Worker → ℕ
sum_of f [] = 0
sum_of f (w ∷ ws) = f w + sum_of f ws

-- The threads that have not exited, and those in takeJob.
abbrev pub live : List Worker → ℕ
live = sum_of one_live

abbrev pub taking : List Worker → ℕ
taking = sum_of one_taking

-- Of the first `m`, those that have not exited.
abbrev pub live_before : ℕ → List Worker → ℕ
live_before zero ws = 0
live_before (suc m) [] = 0
live_before (suc m) (w ∷ ws) = one_live w + live_before m ws

pub set_worker-sum_of :
    (f : Worker → ℕ) (i : ℕ) (ws : List Worker) (w u : Worker)
    → worker_at i ws ≡ some w
    → sum_of f (set_worker i u ws) + f w ≡ sum_of f ws + f u
set_worker-sum_of f i [] w u e = absurd (cc e)
set_worker-sum_of f zero (x ∷ ws) w u e = omega (arith, ap f (some_inj e))
set_worker-sum_of f (suc i) (x ∷ ws) w u e = omega (arith, set_worker-sum_of f i ws w u e)

pub length-set_worker :
    (i : ℕ) (u : Worker) (ws : List Worker) → length (set_worker i u ws) ≡ length ws
length-set_worker i u [] = refl
length-set_worker zero u (w ∷ ws) = refl
length-set_worker (suc i) u (w ∷ ws) = ap suc (length-set_worker i u ws)

-- A thread that has exited does not come back.
pub set_worker-live_before :
    (m i : ℕ) (ws : List Worker) (w u : Worker)
    → worker_at i ws ≡ some w
    → one_live u ≤ one_live w
    → live_before m (set_worker i u ws) ≤ live_before m ws
set_worker-live_before zero i ws w u e l = omega arith
set_worker-live_before (suc m) i [] w u e l = absurd (cc e)
set_worker-live_before (suc m) zero (x ∷ ws) w u e l = omega (arith, ap one_live (some_inj e), l)
set_worker-live_before (suc m) (suc i) (x ∷ ws) w u e l =
    omega (arith, set_worker-live_before m i ws w u e l)

pub live_before-suc :
    (m : ℕ) (ws : List Worker)
    → worker_at m ws ≡ some exited
    → live_before (suc m) ws ≡ live_before m ws
live_before-suc m [] e = absurd (cc e)
live_before-suc zero (w ∷ ws) e = omega (arith, ap one_live (some_inj e))
live_before-suc (suc m) (w ∷ ws) e = omega (arith, live_before-suc m ws e)

pub live_before-length : (ws : List Worker) → live_before (length ws) ws ≡ live ws
live_before-length [] = refl
live_before-length (w ∷ ws) = omega (arith, live_before-length ws)

-- The jobs of a queue without the pills, and the number of these.
abbrev pub jobs_of : List Job → List Job
jobs_of [] = []
jobs_of (j ∷ q) = if is_job j then j ∷ jobs_of q else jobs_of q

abbrev pub pills : List Job → ℕ
pills [] = 0
pills (j ∷ q) = if is_job j then pills q else suc (pills q)

-- No job stands behind a pill.
abbrev pub PillsLast : List Job → Type 0
PillsLast [] = Unit
PillsLast (j ∷ q) = (is_job j ≡ true) × PillsLast q ⊎ (is_job j ≡ false) × (jobs_of q ≡ [])

pub jobs_of-append : (q r : List Job) → jobs_of (q ++ r) ≡ jobs_of q ++ jobs_of r
jobs_of-append [] r = refl
jobs_of-append (j ∷ q) r = ground (arith, jobs_of-append q r)

pub pills-append : (q r : List Job) → pills (q ++ r) ≡ pills q + pills r
pills-append [] r = omega arith
pills-append (j ∷ q) r = ground (arith, pills-append q r)

pub empty_lem : (q : List Job) → jobs_of q ≡ [] → pills q ≡ 0 → q ≡ []
empty_lem [] e z = refl
empty_lem (j ∷ q) e z = ground arith

pub PillsLast-job :
    (q : List Job) (j : Job) → pills q ≡ 0 → is_job j ≡ true → PillsLast (q ++ (j ∷ []))
PillsLast-job [] j z e = inl (e, tt)
PillsLast-job (x ∷ q) j z e = elim (Bool-cases (is_job x)) [
  | inl t ↦ inl (t, PillsLast-job q j (ground arith) e)
  | inr f ↦ ground arith
]

pub PillsLast-pill :
    (q : List Job) (j : Job) → is_job j ≡ false → PillsLast q → PillsLast (q ++ (j ∷ []))
PillsLast-pill [] j e l = inr (e, refl)
PillsLast-pill (x ∷ q) j e (inl (t, l)) = inl (t, PillsLast-pill q j e l)
PillsLast-pill (x ∷ q) j e (inr (f, l)) = inr (f, ground (arith, jobs_of-append q (j ∷ [])))

pub no_jobs-PillsLast : (q : List Job) → jobs_of q ≡ [] → PillsLast q
no_jobs-PillsLast [] e = tt
no_jobs-PillsLast (x ∷ q) e = ground arith
