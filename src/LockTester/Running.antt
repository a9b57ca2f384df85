-- ===== src/LockTester/Running.antt =====
-- What the threads of a test do to the work that is left.
use yfs_lab.Prelude.{
  ℕ, zero, suc, ◌+◌, ◌-◌, ◌*◌, ◌<◌, ◌≤◌, ◌≡◌, ◌≢◌, ◌⊎◌, refl, sym, ap, ◌∙◌, List, [], ◌∷◌, Bool,
  true, false, none, some, some_inj, arith, All, length, inl, inr,
}
use yfs_lab.Prelude.Outcome.{OnReturn, on-each}
use yfs_lab.LockServer.{LockServer, Status, enter, test, release}
use yfs_lab.LockServer.Holder.{holder}
use yfs_lab.LockServer.Inside.{
  awake_on, inside, enter-inside, test-inside, test_waits-inside, test_takes-inside, release-inside,
}
use yfs_lab.LockClient.{acquire_result, release_result}
use yfs_lab.LockTester.{
  lock_a, Counts, check_grant, check_release, Place, starts, acquires, holds, granted, checked,
  Tester, Testing, tester_at, set_tester, start_round, acquire_round, end_round, act, pool_size,
  has_worker,
}
use yfs_lab.LockTester.Owners.{is_owner, All-set, All-at}

abbrev pub sum_of : (Tester → ℕ) → List Tester → ℕ
sum_of f [] = 0
sum_of f (t ∷ ts) = f t + sum_of f ts

sum_of-set :
    (f : Tester → ℕ) (i : ℕ) (ts : List Tester) (t u : Tester)
    → tester_at i ts ≡ some t
    → sum_of f (set_tester i u ts) + f t ≡ sum_of f ts + f u
sum_of-set f i [] t u e = absurd (cc e)
sum_of-set f zero (x ∷ ts) t u e = omega (arith, ap f (some_inj e))
sum_of-set f (suc i) (x ∷ ts) t u e = omega (arith, sum_of-set f i ts t u e)

length-set : (i : ℕ) (u : Tester) (ts : List Tester) → length (set_tester i u ts) ≡ length ts
length-set i u [] = refl
length-set zero u (t ∷ ts) = refl
length-set (suc i) u (t ∷ ts) = ap suc (length-set i u ts)

pub sum_of-at :
    (f : Tester → ℕ) (i : ℕ) (ts : List Tester) (t : Tester)
    → tester_at i ts ≡ some t
    → f t ≤ sum_of f ts
sum_of-at f i [] t e = absurd (cc e)
sum_of-at f zero (x ∷ ts) t e = omega (arith, ap f (some_inj e))
sum_of-at f (suc i) (x ∷ ts) t e = omega (arith, sum_of-at f i ts t e)

abbrev pub at_acquires : Place → ℕ
at_acquires starts = 0
at_acquires acquires = 1
at_acquires holds = 0
at_acquires granted = 0
at_acquires checked = 0

abbrev pub acquiring : Tester → ℕ
acquiring t = at_acquires t.place

acquiring_most : (ts : List Tester) → sum_of acquiring ts ≤ length ts
acquiring_most [] = omega arith
acquiring_most (t ∷ ts) = omega (arith, one t.place, acquiring_most ts)
  where
    one : (p : Place) → at_acquires p ≤ 1
    one starts = omega arith
    one acquires = omega arith
    one holds = omega arith
    one granted = omega arith
    one checked = omega arith

-- Where one thread is not in `acquire`, not all are.
acquiring_others :
    (i : ℕ) (ts : List Tester) (t : Tester)
    → tester_at i ts ≡ some t
    → at_acquires t.place ≡ 0
    → sum_of acquiring ts < length ts
acquiring_others i ts t e z =
    let u : Tester = record t { place = acquires } in
    let more = acquiring_most (set_tester i u ts) in
    omega (arith, z, more, sum_of-set acquiring i ts t u e, length-set i u ts)

-- A thread in the middle of a round has that round left.
abbrev pub HasRound : Tester → Type 0
HasRound t = (t.place ≡ starts) ⊎ (0 < t.left)

-- The threads in `acquire` are those that the server counts there, and there are no more threads than
-- the pool of the server has.
pub record IsRunning (s : Testing) : Type 0 where
  pub queued : inside s.server lock_a ≡ sum_of acquiring s.testers
  pub rounds : All HasRound s.testers
  pub few : length s.testers ≤ pool_size

abbrev to_go : Place → ℕ
to_go starts = 10
to_go acquires = 8
to_go holds = 6
to_go granted = 4
to_go checked = 2

abbrev tester_weight : Tester → ℕ
tester_weight t = 20 * t.left + to_go t.place

-- What is left to do.
abbrev pub weight : Testing → ℕ
weight s = sum_of tester_weight s.testers + awake_on s.server lock_a

-- A thread that returned.
abbrev pub IsDone : Tester → Type 0
IsDone t = (t.place ≡ starts) × (t.left ≡ 0)

module _ (s : Testing) (i : ℕ) (t : Tester) (e : tester_at i s.testers ≡ some t)
    (r : IsRunning s) where
  moves :
      (server : LockServer) (ct : Counts) (u : Tester)
      → inside server lock_a + acquiring t ≡ inside s.server lock_a + acquiring u
      → HasRound u
      → IsRunning (record { server = server; ct = ct; testers = set_tester i u s.testers })
  moves server ct u same h = record {
    queued = omega (arith, same, r.queued, sum_of-set acquiring i s.testers t u e);
    rounds = All-set HasRound i s.testers u r.rounds h;
    few = omega (arith, length-set i u s.testers, r.few);
  }

  -- A thread that is not in `acquire` finds a thread of the pool.
  worker : at_acquires t.place ≡ 0 → has_worker s ≡ true
  worker z =
      let free_one : inside s.server lock_a < pool_size =
        omega (arith, r.queued, r.few, acquiring_others i s.testers t e z) in
      ground (arith, free_one)

  has_round : t.place ≢ starts → 0 < t.left
  has_round n = elim (All-at HasRound i s.testers t e r.rounds) [ inl q ↦ absurd (n q) | inr l ↦ l ]

  start_round-IsRunning : (n : ℕ) → t.left ≡ n → t.place ≡ starts → IsRunning (start_round s i t n)
  unfolding start_round
  start_round-IsRunning zero l p = r
  start_round-IsRunning (suc n) l p =
      moves (enter s.server lock_a) s.ct (record t { place = acquires })
        (omega (arith, (enter-inside s.server lock_a).1, ap at_acquires p)) (inr (omega (arith, l)))

  acquire_round-IsRunning :
      (q : Bool × LockServer)
      → test s.server t.clt lock_a ≡ q
      → t.place ≡ acquires
      → OnReturn IsRunning (acquire_round s i t q)
  unfolding acquire_round acquire_result
  acquire_round-IsRunning (true, server) q p =
      moves server s.ct (record t { place = holds })
        (omega (
          arith,
          test_takes-inside s.server t.clt lock_a (ap (λ x. x.0) q),
          ap (λ x. inside x.1 lock_a) q,
          ap at_acquires p,
        ))
        (inr (has_round (λ z. cc (sym p ∙ z))))
  acquire_round-IsRunning (false, server) q p = record {
    queued =
        sym (ap (λ x. inside x.1 lock_a) q)
        ∙ test_waits-inside s.server t.clt lock_a (ap (λ x. x.0) q)
        ∙ r.queued;
    rounds = r.rounds;
    few = r.few;
  }

  end_round-IsRunning :
      (q : Status × LockServer)
      → release s.server t.clt lock_a ≡ q
      → t.place ≡ checked
      → OnReturn IsRunning (end_round s i t q)
  unfolding end_round
  end_round-IsRunning (st, server) q p = on-each IsRunning (release_result _) _ (λ res.
      moves server s.ct (record t { left = t.left - 1; place = starts })
        (omega (
          arith,
          (release-inside s.server t.clt lock_a).1,
          ap (λ x. inside x.1 lock_a) q,
          ap at_acquires p,
        ))
        (inl refl))

  pub act-IsRunning : (p : Place) → t.place ≡ p → OnReturn IsRunning (act s i t p)
  unfolding act
  act-IsRunning starts p = rw (worker (ap at_acquires p)) (start_round-IsRunning t.left refl p)
  act-IsRunning acquires p = acquire_round-IsRunning (test s.server t.clt lock_a) refl p
  act-IsRunning holds p = on-each IsRunning (check_grant s.ct lock_a) _ (λ ct.
      moves s.server ct (record t { place = granted }) (omega (arith, ap at_acquires p))
        (inr (has_round (λ z. cc (sym p ∙ z)))))
  act-IsRunning granted p = on-each IsRunning (check_release s.ct lock_a) _ (λ ct.
      moves s.server ct (record t { place = checked }) (omega (arith, ap at_acquires p))
        (inr (has_round (λ z. cc (sym p ∙ z)))))
  act-IsRunning checked p =
      rw (act, worker (ap at_acquires p))
        (end_round-IsRunning (release s.server t.clt lock_a) refl p)

  -- What makes the weight less.
  lighter :
      (server : LockServer) (ct : Counts) (u : Tester)
      → tester_weight u + awake_on server lock_a < tester_weight t + awake_on s.server lock_a
      → weight (record { server = server; ct = ct; testers = set_tester i u s.testers }) < weight s
  lighter server ct u less = omega (arith, less, sum_of-set tester_weight i s.testers t u e)

  abbrev Lighter : Testing → Type 0
  Lighter s' = weight s' < weight s

  pub start-Lighter : t.place ≡ starts → 0 < t.left → OnReturn Lighter (act s i t starts)
  unfolding act start_round
  start-Lighter p l = rw (worker (ap at_acquires p)) (by_left t.left refl l)
    where
      by_left : (n : ℕ) → t.left ≡ n → 0 < n → Lighter (start_round s i t n)
      by_left zero q l = absurd (omega (arith, l))
      by_left (suc n) q l =
          lighter (enter s.server lock_a) s.ct (record t { place = acquires })
            (omega (arith, (enter-inside s.server lock_a).0, ap to_go p))

  pub acquire-Lighter :
      (q : Bool × LockServer)
      → test s.server t.clt lock_a ≡ q
      → t.place ≡ acquires
      → holder s.server lock_a ≡ none
      → 0 < awake_on s.server lock_a
      → OnReturn Lighter (acquire_round s i t q)
  unfolding acquire_round acquire_result
  acquire-Lighter (true, server) q p free_now l =
      lighter server s.ct (record t { place = holds })
        (omega (
          arith,
          (test-inside s.server t.clt lock_a free_now l).1,
          ap (λ x. awake_on x.1 lock_a) q,
          ap to_go p,
        ))
  acquire-Lighter (false, server) q p free_now l =
      absurd (cc (sym (ap (λ x. x.0) q) ∙ (test-inside s.server t.clt lock_a free_now l).0))

  end-Lighter :
      (q : Status × LockServer)
      → release s.server t.clt lock_a ≡ q
      → t.place ≡ checked
      → OnReturn Lighter (end_round s i t q)
  unfolding end_round
  end-Lighter (st, server) q p = on-each Lighter (release_result _) _ (λ res.
      lighter server s.ct (record t { left = t.left - 1; place = starts })
        (omega (
          arith,
          (release-inside s.server t.clt lock_a).0,
          ap (λ x. awake_on x.1 lock_a) q,
          ap to_go p,
          has_round (λ z. cc (sym p ∙ z)),
        )))

  pub owner-Lighter : (p : Place) → t.place ≡ p → is_owner p ≡ true → OnReturn Lighter (act s i t p)
  unfolding act
  owner-Lighter starts p o = absurd (cc o)
  owner-Lighter acquires p o = absurd (cc o)
  owner-Lighter holds p o =
      on-each Lighter (check_grant s.ct lock_a) _
        (λ ct. lighter s.server ct (record t { place = granted }) (omega (arith, ap to_go p)))
  owner-Lighter granted p o =
      on-each Lighter (check_release s.ct lock_a) _
        (λ ct. lighter s.server ct (record t { place = checked }) (omega (arith, ap to_go p)))
  owner-Lighter checked p o =
      rw (act, worker (ap at_acquires p)) (end-Lighter (release s.server t.clt lock_a) refl p)
