-- ===== src/LockServer/Exclusion.antt =====
-- Histories of the lock server: the state of each lock, the count of held locks, and the waiting
-- threads.
use yfs_lab.Prelude.{
  ℕ, suc, ◌+◌, ◌-◌, ◌<◌, ◌≡◌, ◌≢◌, ◌⊎◌, refl, sym, ap, subst, ◌∙◌, List, [], ◌∷◌, arith, All, ◌==◌,
  Bool-cases, Option-cases, ==→≡, inl, inr,
}
use yfs_lab.Prelude.Int.{ℤ, pos, pred_int, suc_int, same_int, same_int_sound}
use yfs_lab.LockServer.{
  LockState, free, locked, LockHandle, Entry, LockServer, no_client, find, store, found, enter,
  test, test_state, signal, wake, release,
}

-- What the server's threads do, in the order of the mutex.
pub data Event : Type 0 where
  entered : (lid : ℕ) → Event
  tested : (clt : ℤ) (lid : ℕ) → Event
  woken : (lid : ℕ) → Event
  released : (clt : ℤ) (lid : ℕ) → Event

abbrev pub step : LockServer → Event → LockServer
step s (entered lid) = enter s lid
step s (tested clt lid) = (test s clt lid).1
step s (woken lid) = wake s lid
step s (released clt lid) = (release s clt lid).1

unfoldable pub run : LockServer → List Event → LockServer
run s [] = s
run s (e ∷ es) = run (step s e) es

-- The client's number is not the one that stands for no client.
abbrev pub IsClient : Event → Type 0
IsClient (entered lid) = Unit
IsClient (tested clt lid) = clt ≢ no_client
IsClient (woken lid) = Unit
IsClient (released clt lid) = clt ≢ no_client

abbrev pub held : LockState → ℕ
held free = 0
held locked = 1

abbrev pub locked_count : List Entry → ℕ
locked_count [] = 0
locked_count (e ∷ es) = held e.handle.state + locked_count es

-- A free lock has no client, and if threads wait for it, one is about to test; a locked one has a
-- client.
abbrev pub FitsState : LockState → LockHandle → Type 0
FitsState free h = (h.clt ≡ no_client) × ((h.waiting ≡ 0) ⊎ (0 < h.awake))
FitsState locked h = h.clt ≢ no_client

abbrev pub Healthy : LockHandle → Type 0
Healthy h = FitsState h.state h

pub record IsServer (s : LockServer) : Type 0 where
  pub healthy : All (λ e. Healthy e.handle) s.locks
  pub counted : s.nacquire ≡ pos (locked_count s.locks)

pub find-Healthy :
    (lid : ℕ) (l : List Entry) → All (λ e. Healthy e.handle) l → Healthy (found (find lid l))
unfolding find
find-Healthy lid [] a = (refl, inl refl)
find-Healthy lid (x ∷ l) a = elim (Bool-cases (x.lid == lid)) [
  | inl t ↦ rw t a.0
  | inr f ↦ rw f (find-Healthy lid l a.1)
]

store-Healthy :
    (lid : ℕ) (h : LockHandle) (l : List Entry)
    → Healthy h
    → All (λ e. Healthy e.handle) l
    → All (λ e. Healthy e.handle) (store lid h l)
unfolding store
store-Healthy lid h [] g a = (g, tt)
store-Healthy lid h (x ∷ l) g a = ground (arith, store-Healthy lid h l g a.1)

locked_count-store :
    (lid : ℕ) (h : LockHandle) (l : List Entry)
    → locked_count (store lid h l) + held (found (find lid l)).state ≡ locked_count l + held h.state
unfolding store find
locked_count-store lid h [] = omega arith
locked_count-store lid h (x ∷ l) = ground (arith, locked_count-store lid h l)

-- A stored handle keeps the server well-formed, if it is and nacquire follows its state.
store-IsServer :
    (s : LockServer) (lid : ℕ) (h : LockHandle) (n : ℤ)
    → IsServer s
    → Healthy h
    → ((k : ℕ)
        → k + held (found (find lid s.locks)).state ≡ locked_count s.locks + held h.state
        → n ≡ pos k)
    → IsServer (record { locks = store lid h s.locks; nacquire = n })
store-IsServer s lid h n v g count = record {
  healthy = store-Healthy lid h s.locks g v.healthy;
  counted = count (locked_count (store lid h s.locks)) (locked_count-store lid h s.locks);
}

-- Waking a thread, and entering, keep a handle healthy.
signal-Healthy : (h : LockHandle) → Healthy h → Healthy (signal h)
signal-Healthy h g = elim (Bool-cases (h.waiting == 0)) [
  | inl t ↦ rw t g
  | inr f ↦ rw f (by_state h.state g)
]
  where
    by_state :
        (st : LockState)
        → FitsState st h
        → FitsState st (record h { waiting = h.waiting - 1; awake = h.awake + 1 })
    by_state free g = (g.0, inr (omega arith))
    by_state locked g = g

enter-Healthy : (h : LockHandle) → Healthy h → Healthy (record h { awake = h.awake + 1 })
enter-Healthy h g = by_state h.state g
  where
    by_state : (st : LockState) → FitsState st h → FitsState st (record h { awake = h.awake + 1 })
    by_state free g = (g.0, inr (omega arith))
    by_state locked g = g

same_count :
    (s : LockServer) (st st' : LockState) (k : ℕ)
    → IsServer s
    → st ≡ st'
    → k + held st ≡ locked_count s.locks + held st'
    → s.nacquire ≡ pos k
same_count s st st' k v e h = v.counted ∙ ap pos (omega (arith, h, ap held e))

enter-IsServer : (s : LockServer) (lid : ℕ) → IsServer s → IsServer (enter s lid)
unfolding enter
enter-IsServer s lid v =
    store-IsServer s lid _ s.nacquire v (enter-Healthy _ (find-Healthy lid s.locks v.healthy))
      (λ k. same_count s _ _ k v refl)

signal-state : (h : LockHandle) → (signal h).state ≡ h.state
signal-state h = ground arith

wake-IsServer : (s : LockServer) (lid : ℕ) → IsServer s → IsServer (wake s lid)
unfolding wake
wake-IsServer s lid v = elim (Option-cases (find lid s.locks)) [
  | inl e ↦ rw (wake, e) v
  | inr (h, e) ↦
      let same = ap found e in
      rw (wake, e)
        (store-IsServer s lid (signal h) s.nacquire v
          (signal-Healthy h (subst Healthy same (find-Healthy lid s.locks v.healthy)))
          (λ k. same_count s _ _ k v (ap (λ x. x.state) same ∙ sym (signal-state h))))
]

test-IsServer :
    (s : LockServer) (clt : ℤ) (lid : ℕ)
    → clt ≢ no_client
    → IsServer s
    → IsServer (test s clt lid).1
unfolding test test_state
test-IsServer s clt lid real v = elim (Option-cases (find lid s.locks)) [
  | inl e ↦ rw (test, e) v
  | inr (h, e) ↦ elim (Bool-cases (h.awake == 0)) [
    | inl none_awake ↦ rw (test, e, none_awake) v
    | inr awake ↦ rw (test, e, awake) (by_state h h.state refl (ap found e))
  ]
]
  where
    by_state :
        (h : LockHandle) (st : LockState)
        → h.state ≡ st
        → found (find lid s.locks) ≡ h
        → IsServer (test_state s lid clt h st).1
    by_state h free e same = store-IsServer s lid _ (suc_int s.nacquire) v real (λ k c.
        ap suc_int v.counted ∙ ap pos (omega (arith, c, ap held (ap (λ x. x.state) same ∙ e))))
    by_state h locked e same =
        let good = subst Healthy same (find-Healthy lid s.locks v.healthy) in
        let busy : FitsState locked h = subst (λ st. FitsState st h) e good in
        store-IsServer s lid _ s.nacquire v
          (subst (λ st. FitsState st (record h { waiting = h.waiting + 1; awake = h.awake - 1 }))
            (sym e) busy)
          (λ k. same_count s _ _ k v (ap (λ x. x.state) same))

-- Whoever releases a lock leaves it free, and wakes a thread if one waits.
free_again-Healthy :
    (h : LockHandle) → Healthy (signal (record h { state = free; clt = no_client }))
free_again-Healthy h = elim (Bool-cases (h.waiting == 0)) [
  | inl t ↦ rw t (refl, inl (==→≡ h.waiting 0 t))
  | inr f ↦ rw f (refl, inr (omega arith))
]

owner-held :
    (h : LockHandle) (clt : ℤ) → clt ≢ no_client → Healthy h → h.clt ≡ clt → held h.state ≡ 1
owner-held h clt real good e = by_state h.state good
  where
    by_state : (st : LockState) → FitsState st h → held st ≡ 1
    by_state free g = absurd (real (sym e ∙ g.0))
    by_state locked g = refl

release-IsServer :
    (s : LockServer) (clt : ℤ) (lid : ℕ)
    → clt ≢ no_client
    → IsServer s
    → IsServer (release s clt lid).1
unfolding release
release-IsServer s clt lid real v = elim (Option-cases (find lid s.locks)) [
  | inl e ↦ rw (release, e) v
  | inr (h, e) ↦ elim (Bool-cases (same_int h.clt clt)) [
    | inr other ↦ rw (release, e, other) v
    | inl owner ↦
        rw (release, e, owner)
          (store-IsServer s lid _ (pred_int s.nacquire) v (free_again-Healthy h)
            (by_owner h (ap found e) (same_int_sound h.clt clt owner)))
  ]
]
  where
    by_owner :
        (h : LockHandle)
        → found (find lid s.locks) ≡ h
        → h.clt ≡ clt
        → (k : ℕ)
        → k + held (found (find lid s.locks)).state
          ≡ locked_count s.locks + held (signal (record h { state = free; clt = no_client })).state
        → pred_int s.nacquire ≡ pos k
    by_owner h same e k c =
        let good = subst Healthy same (find-Healthy lid s.locks v.healthy) in
        let one = owner-held h clt real good e in
        let gone = signal-state (record h { state = free; clt = no_client }) in
        let total : locked_count s.locks ≡ suc k =
          omega (arith, c, one, ap (λ x. held x.state) same, ap held gone) in
        ap pred_int (v.counted ∙ ap pos total)

pub step-IsServer : (s : LockServer) (e : Event) → IsClient e → IsServer s → IsServer (step s e)
step-IsServer s (entered lid) c v = enter-IsServer s lid v
step-IsServer s (tested clt lid) c v = test-IsServer s clt lid c v
step-IsServer s (woken lid) c v = wake-IsServer s lid v
step-IsServer s (released clt lid) c v = release-IsServer s clt lid c v

-- A well-formed server stays so in every history of clients whose numbers are not -1: nacquire is the number of locks that
-- are held, a held lock has a client and a free one has none, and no wake-up is lost: where threads
-- wait for a lock that is free, one is about to test it.
pub run-IsServer :
    (s : LockServer) (es : List Event) → All IsClient es → IsServer s → IsServer (run s es)
unfolding run
run-IsServer s [] c v = v
run-IsServer s (e ∷ es) c v = run-IsServer (step s e) es c.1 (step-IsServer s e c.0 v)
