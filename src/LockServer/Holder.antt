-- ===== src/LockServer/Holder.antt =====
-- Who holds a lock, and what each operation does to that.
use yfs_lab.Prelude.{
  ℕ, ◌+◌, ◌-◌, ◌≡◌, ◌≢◌, ◌⊎◌, refl, sym, ap, subst, ◌∙◌, List, [], ◌∷◌, Bool, true, false, ◌&&◌,
  Option, none, some, arith, ◌==◌, if◌then◌else◌, Bool-cases, Option-cases, ==→≡, inl, inr,
}
use yfs_lab.Prelude.Int.{ℤ, pred_int, same_int, same_int_sound, same_int_refl}
use yfs_lab.LockServer.{
  ok, rpcerr, LockState, free, locked, LockHandle, Entry, LockServer, no_client, find, store, found,
  enter, test, test_state, signal, wake, release,
}
use yfs_lab.LockServer.Exclusion.{
  Event, entered, tested, woken, released, step, IsServer, FitsState, Healthy, find-Healthy,
}

pub find-store :
    (lid k : ℕ) (h : LockHandle) (l : List Entry)
    → find k (store lid h l) ≡ (if lid == k then some h else find k l)
unfolding find store
find-store lid k h [] = refl
find-store lid k h (x ∷ l) = ground (arith, find-store lid k h l)

-- Who holds a lock.
abbrev pub holder_of : LockHandle → LockState → Option ℤ
holder_of h free = none
holder_of h locked = some h.clt

unfoldable pub holder : LockServer → ℕ → Option ℤ
holder s lid = holder_of (found (find lid s.locks)) (found (find lid s.locks)).state

-- The client's own release of the lock.
abbrev pub releases_it : Event → ℕ → ℤ → Bool
releases_it (entered k) lid clt = false
releases_it (tested c k) lid clt = false
releases_it (woken k) lid clt = false
releases_it (released c k) lid clt = same_int clt c && k == lid

-- While a client holds a lock, no test by any thread takes it, and only the holder's own release
-- gives it up: after any other event the same client holds it.
pub holder-step :
    (s : LockServer) (e : Event) (lid : ℕ) (clt : ℤ)
    → holder s lid ≡ some clt
    → releases_it e lid clt ≡ false
    → holder (step s e) lid ≡ some clt
unfolding holder enter test test_state wake release
holder-step s (entered k) lid clt h n = ground (
  arith,
  find-store k lid (record (found (find k s.locks)) { awake = (found (find k s.locks)).awake + 1 })
      s.locks,
)
holder-step s (tested c k) lid clt h n = elim (Option-cases (find k s.locks)) [
  | inl e ↦ rw (step, test, e) h
  | inr (x, e) ↦ ground (
    arith,
    find-store k lid (record x { state = locked; clt = c; awake = x.awake - 1 }) s.locks,
    find-store k lid (record x { waiting = x.waiting + 1; awake = x.awake - 1 }) s.locks,
  )
]
holder-step s (woken k) lid clt h n = elim (Option-cases (find k s.locks)) [
  | inl e ↦ rw (step, wake, e) h
  | inr (x, e) ↦ ground (arith, find-store k lid (signal x) s.locks)
]
holder-step s (released c k) lid clt h n = elim (Option-cases (find k s.locks)) [
  | inl e ↦ rw (step, release, e) h
  | inr (x, e) ↦ ground (
    arith,
    find-store k lid (signal (record x { state = free; clt = no_client })) s.locks,
    same_int_sound x.clt c,
  )
]

-- `acquire` returns only to a thread that found the lock free, and its client then holds it.
pub test_takes :
    (s : LockServer) (clt : ℤ) (lid : ℕ)
    → (test s clt lid).0 ≡ true
    → (holder s lid ≡ none) × (holder (test s clt lid).1 lid ≡ some clt)
unfolding holder test test_state
test_takes s clt lid = elim (Option-cases (find lid s.locks)) [
  | inl e ↦ λ t. ground arith
  | inr (x, e) ↦ λ t. ground (
    arith,
    find-store lid lid (record x { state = locked; clt = clt; awake = x.awake - 1 }) s.locks,
  )
]

holder_of-owner :
    (h : LockHandle) (clt : ℤ) (st : LockState)
    → clt ≢ no_client
    → FitsState st h
    → h.clt ≡ clt
    → holder_of h st ≡ some clt
holder_of-owner h clt free real g e = absurd (real (sym e ∙ g.0))
holder_of-owner h clt locked real g e = ap some e

holder_of-other :
    (h : LockHandle) (clt : ℤ) (st : LockState)
    → same_int h.clt clt ≡ false
    → holder_of h st ≢ some clt
holder_of-other h clt free n e = cc
holder_of-other h clt locked n e = let same : h.clt ≡ clt = cc e in cc (n, same, same_int_refl clt)

-- In a well-formed server and for a client whose number is not -1, `release` says OK exactly to the
-- client that holds the lock, which is then free; to any other client, and for a lock that is free
-- or unknown, it says RPCERR and changes nothing.
pub release_cases :
    (s : LockServer) (clt : ℤ) (lid : ℕ)
    → clt ≢ no_client
    → IsServer s
    → ((holder s lid ≡ some clt)
        × ((release s clt lid).0 ≡ ok)
        × (holder (release s clt lid).1 lid ≡ none))
      ⊎ ((holder s lid ≢ some clt) × (release s clt lid ≡ (rpcerr, s)))
unfolding holder release
release_cases s clt lid real v = elim (Option-cases (find lid s.locks)) [
  | inl e ↦ inr (λ h. ground arith, ground arith)
  | inr (x, e) ↦
      let good = subst Healthy (ap found e) (find-Healthy lid s.locks v.healthy) in
      elim (Bool-cases (same_int x.clt clt)) [
        | inl owner ↦
            let own = holder_of-owner x clt x.state real good (same_int_sound x.clt clt owner) in
            inl (
              ap (λ h. holder_of h h.state) (ap found e) ∙ own,
              ground arith,
              ground (
                arith,
                find-store lid lid (signal (record x { state = free; clt = no_client })) s.locks,
              ),
            )
        | inr other ↦
            let not_own = holder_of-other x clt x.state other in
            inr (λ h. not_own (sym (ap (λ h. holder_of h h.state) (ap found e)) ∙ h), ground arith)
      ]
]

-- In a well-formed server, a client with the number -1 that releases a known lock which nobody holds
-- is told OK, and nacquire is one less.
pub release_unheld :
    (s : LockServer) (lid : ℕ)
    → IsServer s
    → find lid s.locks ≢ none
    → holder s lid ≡ none
    → ((release s no_client lid).0 ≡ ok)
      × ((release s no_client lid).1.nacquire ≡ pred_int s.nacquire)
unfolding holder release
release_unheld s lid v k h = elim (Option-cases (find lid s.locks)) [
  | inl e ↦ absurd (k e)
  | inr (x, e) ↦
      let good = subst Healthy (ap found e) (find-Healthy lid s.locks v.healthy) in
      by_state x e x.state refl good
]
  where
    by_state :
        (x : LockHandle)
        → find lid s.locks ≡ some x
        → (st : LockState) → x.state ≡ st
        → FitsState st x
        → ((release s no_client lid).0 ≡ ok)
          × ((release s no_client lid).1.nacquire ≡ pred_int s.nacquire)
    by_state x e free q g = ground arith
    by_state x e locked q g = ground arith

-- A thread that enters `acquire`, one that waits on, and one that wakes up leave every holder.
pub enter-holder : (s : LockServer) (k lid : ℕ) → holder (enter s k) lid ≡ holder s lid
unfolding holder enter
enter-holder s k lid = elim (Bool-cases (k == lid)) [
  | inl same ↦ ground (
    arith,
    find-store k lid
        (record (found (find k s.locks)) { awake = (found (find k s.locks)).awake + 1 }) s.locks,
    ==→≡ k lid same,
  )
  | inr other ↦ ground (
    arith,
    find-store k lid
        (record (found (find k s.locks)) { awake = (found (find k s.locks)).awake + 1 }) s.locks,
  )
]

pub wake-holder : (s : LockServer) (k lid : ℕ) → holder (wake s k) lid ≡ holder s lid
unfolding holder wake
wake-holder s k lid = elim (Option-cases (find k s.locks)) [
  | inl e ↦ rw (wake, e) refl
  | inr (x, e) ↦ ground (arith, find-store k lid (signal x) s.locks, ==→≡ k lid)
]

pub test_waits :
    (s : LockServer) (clt : ℤ) (lid : ℕ)
    → (test s clt lid).0 ≡ false
    → holder (test s clt lid).1 lid ≡ holder s lid
unfolding holder test test_state
test_waits s clt lid = elim (Option-cases (find lid s.locks)) [
  | inl e ↦ λ t. rw (test, e) (ap (λ o. holder_of (found o) (found o).state) e)
  | inr (x, e) ↦ λ t. ground (
    arith,
    find-store lid lid (record x { waiting = x.waiting + 1; awake = x.awake - 1 }) s.locks,
  )
]
