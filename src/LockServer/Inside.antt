-- ===== src/LockServer/Inside.antt =====
-- The threads in `acquire` on a lock, and what each operation does to their number.
use yfs_lab.Prelude.{
  ℕ, ◌+◌, ◌-◌, ◌≤◌, ◌<◌, suc, ◌≡◌, refl, sym, ap, ◌∙◌, true, false, none, some, arith, Option-cases,
  inl, inr,
}
use yfs_lab.Prelude.Int.{ℤ}
use yfs_lab.LockServer.{
  LockState, free, locked, LockHandle, LockServer, no_client, find, found, enter, test, test_state,
  signal, wake, release,
}
use yfs_lab.LockServer.Exclusion.{IsServer, FitsState, find-Healthy}
use yfs_lab.LockServer.Holder.{find-store, holder_of, holder}

-- The threads in `acquire` on a lock: those that are about to test, and all of them.
abbrev pub awake_on : LockServer → ℕ → ℕ
awake_on s lid = (found (find lid s.locks)).awake

abbrev pub inside : LockServer → ℕ → ℕ
inside s lid = (found (find lid s.locks)).awake + (found (find lid s.locks)).waiting

pub enter-inside :
    (s : LockServer) (lid : ℕ)
    → (awake_on (enter s lid) lid ≡ suc (awake_on s lid))
      × (inside (enter s lid) lid ≡ suc (inside s lid))
unfolding enter
enter-inside s lid =
    let h = found (find lid s.locks) in
    let at = find-store lid lid (record h { awake = h.awake + 1 }) s.locks in
    (ground (arith, at), ground (arith, at))

pub test-inside :
    (s : LockServer) (clt : ℤ) (lid : ℕ)
    → holder s lid ≡ none
    → 0 < awake_on s lid
    → ((test s clt lid).0 ≡ true)
      × (suc (awake_on (test s clt lid).1 lid) ≡ awake_on s lid)
      × (suc (inside (test s clt lid).1 lid) ≡ inside s lid)
unfolding test test_state holder
test-inside s clt lid free_now some_awake = elim (Option-cases (find lid s.locks)) [
  | inl e ↦ absurd (omega (arith, some_awake, ap (λ o. (found o).awake) e))
  | inr (x, e) ↦ by_state x e x.state refl
]
  where
    by_state :
        (x : LockHandle)
        → find lid s.locks ≡ some x
        → (st : LockState) → x.state ≡ st
        → ((test s clt lid).0 ≡ true)
          × (suc (awake_on (test s clt lid).1 lid) ≡ awake_on s lid)
          × (suc (inside (test s clt lid).1 lid) ≡ inside s lid)
    by_state x e free q =
        let at =
          find-store lid lid (record x { state = locked; clt = clt; awake = x.awake - 1 })
            s.locks in
        (ground (arith, at), ground (arith, at), ground (arith, at))
    by_state x e locked q =
        absurd
          (cc (sym free_now ∙ ap (λ o. holder_of (found o) (found o).state) e ∙ ap (holder_of x) q))

pub test_waits-inside :
    (s : LockServer) (clt : ℤ) (lid : ℕ)
    → (test s clt lid).0 ≡ false
    → inside (test s clt lid).1 lid ≡ inside s lid
unfolding test test_state
test_waits-inside s clt lid = elim (Option-cases (find lid s.locks)) [
  | inl e ↦ λ t. rw (test, e) (ap (λ o. (found o).awake + (found o).waiting) e)
  | inr (x, e) ↦ λ t. ground (
    arith,
    find-store lid lid (record x { waiting = x.waiting + 1; awake = x.awake - 1 }) s.locks,
  )
]

pub test_takes-inside :
    (s : LockServer) (clt : ℤ) (lid : ℕ)
    → (test s clt lid).0 ≡ true
    → suc (inside (test s clt lid).1 lid) ≡ inside s lid
unfolding test test_state
test_takes-inside s clt lid = elim (Option-cases (find lid s.locks)) [
  | inl e ↦ λ t. ground arith
  | inr (x, e) ↦ λ t. ground (
    arith,
    find-store lid lid (record x { state = locked; clt = clt; awake = x.awake - 1 }) s.locks,
  )
]

pub wake-inside : (s : LockServer) (lid : ℕ) → inside (wake s lid) lid ≡ inside s lid
unfolding wake
wake-inside s lid = elim (Option-cases (find lid s.locks)) [
  | inl e ↦ rw (wake, e) (ap (λ o. (found o).awake + (found o).waiting) e)
  | inr (x, e) ↦ ground (arith, find-store lid lid (signal x) s.locks)
]

pub release-inside :
    (s : LockServer) (clt : ℤ) (lid : ℕ)
    → (awake_on (release s clt lid).1 lid ≤ suc (awake_on s lid))
      × (inside (release s clt lid).1 lid ≡ inside s lid)
unfolding release
release-inside s clt lid = elim (Option-cases (find lid s.locks)) [
  | inl e ↦ ground arith
  | inr (x, e) ↦
      let at = find-store lid lid (signal (record x { state = free; clt = no_client })) s.locks in
      (ground (arith, at), ground (arith, at))
]

-- No wake-up is lost: where a lock is free and threads are in `acquire`, one is about to test.
pub free_awake :
    (s : LockServer) (lid : ℕ)
    → IsServer s
    → holder s lid ≡ none
    → 0 < inside s lid
    → 0 < awake_on s lid
unfolding holder
free_awake s lid v free_now some_inside =
    let h = found (find lid s.locks) in
    by_state h.state free_now (find-Healthy lid s.locks v.healthy)
  where
    by_state :
        (st : LockState)
        → holder_of (found (find lid s.locks)) st ≡ none
        → FitsState st (found (find lid s.locks))
        → 0 < awake_on s lid
    by_state free n g = omega (arith, g.1, some_inside)
    by_state locked n g = absurd (cc n)
