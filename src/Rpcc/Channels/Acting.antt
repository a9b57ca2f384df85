-- ===== src/Rpcc/Channels/Acting.antt =====
-- What each act of a thread does to the counts of the connections.
use yfs_lab.Prelude.{
  ℕ, ◌+◌, ◌-◌, ◌≡◌, ◌<◌, ◌⊎◌, refl, sym, ap, Bool, true, Option, none, some, arith,
}
use yfs_lab.Prelude.Outcome.{WillReturn, will-then}
use yfs_lab.Connection.{Connection}
use yfs_lab.Rpcc.Channels.{
  Store, drop_ref, Channels, Thread, Place, loops, sends, erased, get_refconn,
}
use yfs_lab.Rpcc.Channels.Counts.{Fits, AllFit, AllFit-ext}
use yfs_lab.Rpcc.Channels.Balance.{points, chan_and, Shared, get_refconn-Shared, drop_ref-AllFit}
use yfs_lab.Rpcc.Channels.Histories.{
  Act, ends_send, Event, entered, acted, changed, thread_at, set_thread, remove_thread, refer,
  place_at, begin_send, end_send, erase_call, leave, refs, sending, senders, refs-at, senders-at,
  senders-le-refs, IsBalanced,
}

-- The connection is idle, or some thread is inside its `send`.
abbrev pub IsIdle : Connection → ℕ → Type 0
IsIdle c n = (c.wpdu.buf ≡ none) ⊎ (0 < n)

-- A thread that comes back from `send` leaves no message behind, but where another is inside.
abbrev pub AllowedAct : Channels → ℕ → Act → Type 0
AllowedAct r i ends_send =
    (y : ℕ) (c : Connection) (t : Thread)
    → r.store y ≡ some c
    → thread_at i r.threads ≡ some t
    → IsIdle c (senders (remove_thread i r.threads) y)
AllowedAct r i _ = Unit

-- What is done to a connection keeps its count, does not bring it back to life, and puts a message into
-- it only where a thread is inside its `send`.
abbrev pub Allowed : Channels → Event → Type 0
Allowed r entered = Unit
Allowed r (acted i a) = AllowedAct r i a
Allowed r (changed k c) =
    (before : Connection)
    → r.store k ≡ some before
    → (c.refno ≡ before.refno)
      × (before.dead ≡ true → c.dead ≡ true)
      × IsIdle c (senders r.threads k)

idle-AllFit :
    (s : Store) (b : ℕ) (n g g' p : ℕ → ℕ)
    → AllFit s b n g p
    → ((y : ℕ) (c : Connection) → s y ≡ some c → IsIdle c (g y) → IsIdle c (g' y))
    → AllFit s b n g' p
idle-AllFit s b n g g' p h idle y = (by_entry (s y) refl (h y).0, (h y).1)
  where
    by_entry :
        (o : Option Connection) → s y ≡ o → Fits o (n y) (g y) (p y) → Fits o (n y) (g' y) (p y)
    by_entry none e f = f
    by_entry (some c) e f = record {
      count = f.count;
      some_left = f.some_left;
      alive = f.alive;
      idle = idle y c e f.idle;
    }

module _ (r : Channels) (i : ℕ) (t : Thread) (e : thread_at i r.threads ≡ some t)
    (h : IsBalanced r) where
  abbrev rest : ℕ → ℕ
  rest y = refs (remove_thread i r.threads) y

  abbrev rest_senders : ℕ → ℕ
  rest_senders y = senders (remove_thread i r.threads) y

  place_at-IsBalanced :
      (p : Place)
      → ((y : ℕ) (c : Connection)
          → r.store y ≡ some c
          → IsIdle c (senders r.threads y)
          → IsIdle c (sending (record t { place = p }) y + rest_senders y))
      → IsBalanced (place_at r i t p)
  place_at-IsBalanced p idle =
      let u : Thread = record t { place = p } in
      AllFit-ext r.store r.next (chan_and r.chan (refs r.threads)) _
        (λ y. sending u y + rest_senders y) _ (points r.chan) _
        (λ y.
          let a = refs-at i r.threads t u y e in
          let b = senders-at i r.threads t u y e in (omega (arith, a), sym b.1, refl))
        (idle-AllFit r.store r.next _ (senders r.threads) _ _ h idle)

  pub refer-IsBalanced :
      (connects : Bool) (p : Place) → t.place ≡ p → WillReturn IsBalanced (refer r i t p connects)
  unfolding refer
  refer-IsBalanced connects loops w =
      will-then (Shared rest rest_senders r.threads) IsBalanced (get_refconn r t.ch connects) _
        (get_refconn-Shared r rest rest_senders t.ch connects
          (senders-le-refs (remove_thread i r.threads))
          (AllFit-ext r.store r.next _ _ _ _ _ _
            (λ y.
              let a = refs-at i r.threads t t y e in
              let b = senders-at i r.threads t t y e in
              (omega (arith, a), ground (arith, b, w), refl))
            h))
        (λ q shared.
          let u : Thread = record t { ch = q.0 } in
          let outside : (y : ℕ) → sending u y ≡ 0 = λ y. ground (arith, w) in
          AllFit-ext q.1.store q.1.next (chan_and q.1.chan (chan_and q.0 rest)) _ rest_senders _
            (points q.1.chan) _
            (λ y.
              let a = refs-at i r.threads t u y e in
              let b = senders-at i r.threads t u y e in
              (
                omega (arith, a, ap (λ ts. refs (set_thread i u ts) y) shared.1),
                omega (arith, b, ap (λ ts. senders (set_thread i u ts) y) shared.1, outside y),
                refl,
              ))
            shared.0)
  refer-IsBalanced connects sends w = h
  refer-IsBalanced connects erased w = h

  pub begin_send-IsBalanced :
      (ch : Option ℕ) (p : Place) → t.place ≡ p → IsBalanced (begin_send r i t ch p)
  unfolding begin_send
  begin_send-IsBalanced none p w = h
  begin_send-IsBalanced (some k) loops w =
      place_at-IsBalanced sends
        (λ y c q idle. ground (arith, idle, senders-at i r.threads t t y e, w))
  begin_send-IsBalanced (some k) sends w = h
  begin_send-IsBalanced (some k) erased w = h

  pub end_send-IsBalanced : (p : Place) → AllowedAct r i ends_send → IsBalanced (end_send r i t p)
  unfolding end_send
  end_send-IsBalanced loops a = h
  end_send-IsBalanced sends a =
      place_at-IsBalanced loops (λ y c q idle. ground (arith, a y c t q e))
  end_send-IsBalanced erased a = h

  pub erase_call-IsBalanced : (p : Place) → t.place ≡ p → IsBalanced (erase_call r i t p)
  unfolding erase_call
  erase_call-IsBalanced loops w =
      place_at-IsBalanced erased
        (λ y c q idle. ground (arith, idle, senders-at i r.threads t t y e, w))
  erase_call-IsBalanced sends w = h
  erase_call-IsBalanced erased w = h

  pub leave-IsBalanced : (p : Place) → t.place ≡ p → WillReturn IsBalanced (leave r i t p)
  unfolding leave
  leave-IsBalanced loops w = h
  leave-IsBalanced sends w = h
  leave-IsBalanced erased w =
      let n = chan_and r.chan (refs r.threads) in
      let others = λ (y : ℕ). refs-at i r.threads t t y e in
      let inside = λ (y : ℕ). senders-at i r.threads t t y e in
      let outside : (y : ℕ) → sending t y ≡ 0 = λ y. ground (arith, w) in
      let fewer = λ (y : ℕ). senders-le-refs (remove_thread i r.threads) y in
      will-then
        (λ s. AllFit s r.next (λ y. n y - points t.ch y) (senders r.threads) (points r.chan))
        IsBalanced (drop_ref r.store t.ch) _
        (drop_ref-AllFit r.store r.next n (senders r.threads) (points r.chan) t.ch h
          (λ y. omega (arith, others y, inside y, outside y, fewer y))
          (λ y. omega (arith, others y)))
        (λ s h'.
          AllFit-ext s r.next _ _ _ _ _ _
            (λ y. (omega (arith, others y), omega (arith, inside y, outside y), refl)) h')
