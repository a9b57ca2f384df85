-- ===== src/LockTester/Passes.antt =====
-- No thread of a test is refused.
use yfs_lab.Prelude.{
  ℕ, zero, suc, ◌+◌, ◌-◌, ◌≤◌, ◌≡◌, ◌≢◌, refl, sym, ap, subst, ◌∙◌, List, [], ◌∷◌, Bool, true,
  false, Option, none, some, arith, All, length, ◌==◌, ◌⊎◌, Bool-cases, Option-cases, inl, inr,
}
use yfs_lab.Prelude.Int.{ℤ}
use yfs_lab.Prelude.Outcome.{
  Outcome, returns, aborts, assertion, WillReturn, will-then, will-returns,
}
use yfs_lab.LockServer.{LockServer, no_client, Status, ok, enter, test, release}
use yfs_lab.LockServer.Exclusion.{IsServer, entered, tested, released, step-IsServer}
use yfs_lab.LockServer.Exclusion
use yfs_lab.LockServer.Holder.{
  holder, enter-holder, wake-holder, test_waits, test_takes, release_cases,
}
use yfs_lab.LockClient.{acquire_result, release_result}
use yfs_lab.LockTester.{
  lock_a, Counts, set_count, check_grant, check_release, Place, starts, acquires, holds, granted,
  checked, Tester, Testing, testing, threads, tester_at, set_tester, at_place, start_round,
  acquire_round, end_round, act, has_worker, time_out, Event, acted, timed_out, woken, step, run,
}
use yfs_lab.LockTester.Owners.{
  owner_has, is_owner, one_granted, owners, granted_count, owners-enter, Alone, owner-Alone,
  owners-stay, granted_count-set, All-set, All-at,
}

abbrev pub owner_list : Option ℤ → List ℤ
owner_list none = []
owner_list (some c) = c ∷ []

-- The client of a thread is not the number that stands for no client.
abbrev pub IsReal : Tester → Type 0
IsReal t = t.clt ≢ no_client

-- The thread that has the lock, if there is one, is that of the client which the server says holds it,
-- and its entry in `ct` counts the threads between the two checks.
pub record IsTesting (s : Testing) : Type 0 where
  pub server : IsServer s.server
  pub real : All IsReal s.testers
  pub owned : owners s.testers ≡ owner_list (holder s.server lock_a)
  pub counted : s.ct 1 ≡ granted_count s.testers

module _ (s : Testing) (i : ℕ) (t : Tester) (e : tester_at i s.testers ≡ some t)
    (v : IsTesting s) where
  client : IsReal t
  client = All-at IsReal i s.testers t e v.real

  -- A thread goes on to a place in which it has the lock as before.
  goes_on :
      (server : LockServer) (ct : Counts) (u : Tester)
      → IsServer server
      → holder server lock_a ≡ holder s.server lock_a
      → is_owner u.place ≡ is_owner t.place
      → u.clt ≡ t.clt
      → ct 1 + one_granted t.place ≡ s.ct 1 + one_granted u.place
      → IsTesting (record { server = server; ct = ct; testers = set_tester i u s.testers })
  goes_on server ct u sound same owns clt count = record {
    server = sound;
    real = All-set IsReal i s.testers u v.real (subst (λ c. c ≢ no_client) (sym clt) client);
    owned = owners-stay i s.testers t u e owns clt ∙ v.owned ∙ sym (ap owner_list same);
    counted = omega (arith, count, v.counted, granted_count-set i s.testers t u e);
  }

  start_round-IsTesting : (n : ℕ) → t.place ≡ starts → IsTesting (start_round s i t n)
  unfolding start_round
  start_round-IsTesting zero p = v
  start_round-IsTesting (suc n) p =
      goes_on (enter s.server lock_a) s.ct (record t { place = acquires })
        (step-IsServer s.server (entered lock_a) tt v.server) (enter-holder s.server lock_a lock_a)
        (ground (arith, p)) refl (ground (arith, p))

  acquire_round-IsTesting :
      (q : Bool × LockServer)
      → test s.server t.clt lock_a ≡ q
      → t.place ≡ acquires
      → WillReturn IsTesting (acquire_round s i t q)
  unfolding acquire_round acquire_result
  acquire_round-IsTesting (true, server) q p =
      let (free, taken) = test_takes s.server t.clt lock_a (ap (λ x. x.0) q) in
      let u : Tester = record t { place = holds } in
      let sound =
        subst IsServer (ap (λ x. x.1) q)
          (step-IsServer s.server (tested t.clt lock_a) client v.server) in
      record {
        server = sound;
        real = All-set IsReal i s.testers u v.real client;
        owned =
            owners-enter i s.testers t u e (v.owned ∙ ap owner_list free) refl
            ∙ sym (ap owner_list (ap (λ x. holder x.1 lock_a) (sym q) ∙ taken));
        counted = omega (arith, v.counted, granted_count-set i s.testers t u e, ap one_granted p);
      }
  acquire_round-IsTesting (false, server) q p = record {
    server =
        subst IsServer (ap (λ x. x.1) q)
          (step-IsServer s.server (tested t.clt lock_a) client v.server);
    real = v.real;
    owned =
        v.owned
        ∙ sym (
            ap owner_list (
              ap (λ x. holder x.1 lock_a) (sym q)
              ∙ test_waits s.server t.clt lock_a (ap (λ x. x.0) q)));
    counted = v.counted;
  }

  -- A thread that has the lock is the only one.
  alone :
      is_owner t.place ≡ true → (c : ℤ) × (holder s.server lock_a ≡ some c) × Alone i s.testers t c
  alone o = by_holder (holder s.server lock_a) refl
    where
      by_holder :
          (h : Option ℤ)
          → holder s.server lock_a ≡ h
          → (c : ℤ) × (h ≡ some c) × Alone i s.testers t c
      by_holder none h = absurd (owner_has i s.testers t e o (v.owned ∙ ap owner_list h))
      by_holder (some c) h = (c, refl, owner-Alone i s.testers t c e (v.owned ∙ ap owner_list h) o)

  grant-IsTesting :
      t.place ≡ holds
      → WillReturn
          (λ ct. IsTesting (at_place (record s { ct = ct }) i t granted))
          (check_grant s.ct lock_a)
  unfolding check_grant
  grant-IsTesting p =
      let (c, h, one) = alone (ap is_owner p) in
      let zero_count : (s.ct 1 == 0) ≡ true =
        ground (arith, v.counted, one.only, ap one_granted p) in
      rw (check_grant, zero_count)
        (goes_on s.server (set_count s.ct 1 (s.ct 1 + 1)) (record t { place = granted }) v.server
          refl (ground (arith, p)) refl (ground (arith, ap one_granted p)))

  unchecked-IsTesting :
      t.place ≡ granted
      → WillReturn
          (λ ct. IsTesting (at_place (record s { ct = ct }) i t checked))
          (check_release s.ct lock_a)
  unfolding check_release
  unchecked-IsTesting p =
      let (c, h, one) = alone (ap is_owner p) in
      let one_count : (s.ct 1 == 1) ≡ true =
        ground (arith, v.counted, one.only, ap one_granted p) in
      rw (check_release, one_count)
        (goes_on s.server (set_count s.ct 1 (s.ct 1 - 1)) (record t { place = checked }) v.server
          refl (ground (arith, p)) refl (ground (arith, ap one_granted p)))

  end_round-IsTesting :
      (q : Status × LockServer)
      → release s.server t.clt lock_a ≡ q
      → t.place ≡ checked
      → WillReturn IsTesting (end_round s i t q)
  unfolding end_round release_result
  end_round-IsTesting (st, server) q p =
      let (c, h, one) = alone (ap is_owner p) in
      let own : holder s.server lock_a ≡ some t.clt = h ∙ ap some (sym one.client) in
      let u : Tester = record t { left = t.left - 1; place = starts } in
      elim (release_cases s.server t.clt lock_a client v.server) [
        | inr (other, r) ↦ absurd (other own)
        | inl (mine, good, free_again) ↦
            let status : st ≡ ok = sym (ap (λ x. x.0) q) ∙ good in
            rw (status) (record {
              server =
                  subst IsServer (ap (λ x. x.1) q)
                    (step-IsServer s.server (released t.clt lock_a) client v.server);
              real = All-set IsReal i s.testers u v.real client;
              owned =
                  one.given_up u refl
                  ∙ sym (ap owner_list (ap (λ x. holder x.1 lock_a) (sym q) ∙ free_again));
              counted =
                  omega (arith, v.counted, granted_count-set i s.testers t u e, ap one_granted p);
            })
      ]

  act-IsTesting : (p : Place) → t.place ≡ p → WillReturn IsTesting (act s i t p)
  unfolding act
  act-IsTesting starts p = elim (Bool-cases (has_worker s)) [
    | inl y ↦ rw y (start_round-IsTesting t.left p)
    | inr n ↦ rw n v
  ]
  act-IsTesting acquires p = acquire_round-IsTesting (test s.server t.clt lock_a) refl p
  act-IsTesting holds p =
      will-then (λ ct. IsTesting (at_place (record s { ct = ct }) i t granted)) IsTesting
        (check_grant s.ct lock_a) _ (grant-IsTesting p) (λ ct w. w)
  act-IsTesting granted p =
      will-then (λ ct. IsTesting (at_place (record s { ct = ct }) i t checked)) IsTesting
        (check_release s.ct lock_a) _ (unchecked-IsTesting p) (λ ct w. w)
  act-IsTesting checked p = elim (Bool-cases (has_worker s)) [
    | inl y ↦ rw (act, y) (end_round-IsTesting (release s.server t.clt lock_a) refl p)
    | inr n ↦ rw (act, n) v
  ]

-- An event in which no call times out.
abbrev pub InTime : Event → Type 0
InTime (acted i) = Unit
InTime (timed_out i) = ⊥
InTime woken = Unit

pub step-IsTesting :
    (s : Testing) (e : Event) → InTime e → IsTesting s → WillReturn IsTesting (step s e)
unfolding step
step-IsTesting s (timed_out i) k v = absurd k
step-IsTesting s (acted i) k v = elim (Option-cases (tester_at i s.testers)) [
  | inl e ↦ rw (step, e) v
  | inr (t, e) ↦ rw (step, e) (act-IsTesting s i t e v t.place refl)
]
step-IsTesting s woken k v = record {
  server = step-IsServer s.server (Exclusion.woken lock_a) tt v.server;
  real = v.real;
  owned = v.owned ∙ sym (ap owner_list (wake-holder s.server lock_a lock_a));
  counted = v.counted;
}

-- A call that times out fails the assertion of the client, and nothing else happens to the test.
time_out_cases :
    (s : Testing) (t : Tester) (p : Place)
    → (time_out s t p ≡ returns s) ⊎ (time_out s t p ≡ aborts assertion)
unfolding time_out acquire_result release_result
time_out_cases s t starts = elim (Bool-cases (t.left == 0)) [
  | inl z ↦ inl (rw (time_out, z) refl)
  | inr n ↦ inr (rw (time_out, n) refl)
]
time_out_cases s t acquires = inr refl
time_out_cases s t holds = inl refl
time_out_cases s t granted = inl refl
time_out_cases s t checked = inr refl

-- Whether a call times out in a history.
abbrev pub times_out : List Event → Bool
times_out [] = false
times_out (acted i ∷ es) = times_out es
times_out (timed_out i ∷ es) = true
times_out (woken ∷ es) = times_out es

-- The test goes on, or the assertion of a client failed behind a timeout.
abbrev Ends : List Event → Outcome Testing → Type 0
Ends es o =
    ((s : Testing) × (o ≡ returns s) × IsTesting s)
    ⊎ ((o ≡ aborts assertion) × (times_out es ≡ true))

timed_out_cases :
    (s : Testing) (i : ℕ)
    → (step s (timed_out i) ≡ returns s) ⊎ (step s (timed_out i) ≡ aborts assertion)
unfolding step
timed_out_cases s i = elim (Option-cases (tester_at i s.testers)) [
  | inl e ↦ inl (rw (step, e) refl)
  | inr (t, e) ↦ rw (step, e) (time_out_cases s t t.place)
]

run-Ends : (s : Testing) (es : List Event) → IsTesting s → Ends es (run s es)
unfolding run
run-Ends s [] v = inl (s, refl, v)
run-Ends s (acted i ∷ es) v =
    let (s', e, w) = will-returns IsTesting (step s (acted i)) (step-IsTesting s (acted i) tt v) in
    rw (run, e) (run-Ends s' es w)
run-Ends s (woken ∷ es) v =
    let (s', e, w) = will-returns IsTesting (step s woken) (step-IsTesting s woken tt v) in
    rw (run, e) (run-Ends s' es w)
run-Ends s (timed_out i ∷ es) v = elim (timed_out_cases s i) [
  | inr e ↦ inr (rw (run, e) refl, refl)
  | inl e ↦ elim (run-Ends s es v) [
    | inl (s', e', w) ↦ inl (s', rw (run, e) e', w)
    | inr (e', late) ↦ inr (rw (run, e) e', refl)
  ]
]

threads-fresh :
    (id : ℕ → ℤ) (n i k : ℕ)
    → ((j : ℕ) → id j ≢ no_client)
    → All IsReal (threads id n i k)
      × (owners (threads id n i k) ≡ [])
      × (granted_count (threads id n i k) ≡ 0)
threads-fresh id n i zero real = (tt, refl, refl)
threads-fresh id n i (suc k) real =
    let h = threads-fresh id n (suc i) k real in ((real i, h.0), h.1, omega (arith, h.2))

owner_list-length : (o : Option ℤ) → length (owner_list o) ≤ 1
owner_list-length none = omega arith
owner_list-length (some c) = omega arith

-- A lock server and counts with which a test may begin: nobody has the lock.
pub record IsQuiet (server : LockServer) (ct : Counts) : Type 0 where
  pub sound : IsServer server
  pub unheld : holder server lock_a ≡ none
  pub none_granted : ct 1 ≡ 0

pub fresh-IsTesting :
    (server : LockServer) (ct : Counts) (id : ℕ → ℤ) (n k : ℕ)
    → IsQuiet server ct
    → ((j : ℕ) → id j ≢ no_client)
    → IsTesting (testing server ct (threads id n 0 k))
fresh-IsTesting server ct id n k quiet real =
    let h = threads-fresh id n 0 k real in
    record {
      server = quiet.sound;
      real = h.0;
      owned = h.1 ∙ sym (ap owner_list quiet.unheld);
      counted = quiet.none_granted ∙ sym h.2;
    }

-- Whatever the order in which `k` threads of a test go through `n` rounds each, on a well-formed lock
-- server where nobody has the lock and with no grant in `ct`, and whatever clients they use, if these
-- have numbers other than -1: no check fails, at most one thread at a time is behind `acquire` and has
-- not yet released the lock, and an assertion of a client fails only where a call timed out.
pub test_passes :
    (server : LockServer) (ct : Counts) (id : ℕ → ℤ) (n k : ℕ) (es : List Event)
    → IsQuiet server ct
    → ((j : ℕ) → id j ≢ no_client)
    → ((s : Testing) × (run (testing server ct (threads id n 0 k)) es ≡ returns s)
        × (length (owners s.testers) ≤ 1))
      ⊎ ((run (testing server ct (threads id n 0 k)) es ≡ aborts assertion) × (times_out es ≡ true))
test_passes server ct id n k es quiet real =
    let start = testing server ct (threads id n 0 k) in
    elim (run-Ends start es (fresh-IsTesting server ct id n k quiet real)) [
      | inl (s, e, v) ↦ inl (
        s,
        e,
        subst (λ l. length l ≤ 1) (sym v.owned) (owner_list-length (holder s.server lock_a)),
      )
      | inr late ↦ inr late
    ]
