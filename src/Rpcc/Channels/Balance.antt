-- ===== src/Rpcc/Channels/Balance.antt =====
-- What get_refconn and ~rpcc do to the counts of a client's connections.
use yfs_lab.Prelude.{
  ℕ, ◌+◌, ◌-◌, ◌≡◌, ◌<◌, ◌≤◌, refl, sym, ap, subst, List, [], Bool, true, false, Option, none, some,
  arith, ◌==◌, Bool-cases, inl, inr, ==→≡,
}
use yfs_lab.Prelude.Int.{pos}
use yfs_lab.Prelude.Outcome.{WillReturn, will-then, will-weaken}
use yfs_lab.Connection.{closeconn, Connection, connection}
use yfs_lab.Rpcc.Channels.{
  Store, load, decref_at, drop_ref, Thread, Channels, incref_at, closeconn_at, end_chan, calls_size,
  destroy_rpcc, connect_to_dst, renew_chan, share_chan, get_refconn, is_stale,
}
use yfs_lab.Rpcc.Channels.Counts.{
  IsCounted, Fits, Fits-subst, AllFit, AllFit-ext, one_at, pointed, at, made, unmade, put-AllFit,
  incref_at-AllFit, decref_at-AllFit,
}

-- How many pointers a variable is to the connection `y`.
abbrev pub points : Option ℕ → ℕ → ℕ
points none y = 0
points (some k) y = one_at k y

pub drop_ref-AllFit :
    (s : Store) (b : ℕ) (n g p : ℕ → ℕ) (o : Option ℕ)
    → AllFit s b n g p
    → ((y : ℕ) → points o y + g y ≤ n y)
    → ((y : ℕ) → points o y + p y ≤ n y)
    → WillReturn (λ s'. AllFit s' b (λ y. n y - points o y) g p) (drop_ref s o)
unfolding drop_ref
drop_ref-AllFit s b n g p none h left_g left_p =
    AllFit-ext s b _ _ g g p p (λ y. (omega arith, refl, refl)) h
drop_ref-AllFit s b n g p (some k) h left_g left_p =
    decref_at-AllFit s b n g p h k (ground (arith, left_g k)) (ground (arith, left_g k, left_p k))

-- chan_ and the pointers in threads.
abbrev pub chan_and : Option ℕ → (ℕ → ℕ) → ℕ → ℕ
chan_and chan m y = points chan y + m y

-- `n` of the pointers in threads.
abbrev pub Balanced : Channels → (ℕ → ℕ) → (ℕ → ℕ) → Type 0
Balanced r m g = AllFit r.store r.next (chan_and r.chan m) g (points r.chan)

connect_to_dst-Balanced :
    (r : Channels) (m g : ℕ → ℕ) (connects : Bool)
    → ((y : ℕ) → g y ≤ m y)
    → AllFit r.store r.next m g (λ y. 0)
    → Balanced (connect_to_dst r connects) m g
unfolding connect_to_dst
connect_to_dst-Balanced r m g false few h =
    AllFit-ext r.store r.next m _ g g (λ y. 0) _ (λ y. (omega arith, refl, refl)) h
connect_to_dst-Balanced r m g true few h =
    let unused = unmade r.store r.next m g (λ y. 0) h r.next (omega arith) in
    put-AllFit r.store r.next m g (λ y. 0) h r.next (r.next + 1) (some connection) _ g
      (one_at r.next) (omega arith) (omega arith)
      (record {
        count = ap pos (ground arith);
        some_left = ground arith;
        alive = inl (ground arith);
        idle = inl refl;
      })
      (λ y ne. (ground arith, refl, ground arith))

-- A dead connection need not be chan_.
buried :
    (s : Store) (b : ℕ) (n g : ℕ → ℕ) (k : ℕ) (c : Connection)
    → s k ≡ some c
    → c.dead ≡ true
    → AllFit s b n g (one_at k)
    → AllFit s b n g (λ y. 0)
buried s b n g k c e d h y = elim (Bool-cases (k == y)) [
  | inl t ↦ (
    subst (λ x. Fits (s x) (n x) (g x) 0) (==→≡ k y t)
        (subst (λ o. Fits o (n k) (g k) 0) (sym e)
          (record { count = v.count; some_left = v.some_left; alive = inr d; idle = v.idle })),
    (h y).1,
  )
  | inr f ↦ (
    Fits-subst (s y) (n y) (n y) (g y) (g y) (one_at k y) 0 refl refl (ground arith) (h y).0,
    (h y).1,
  )
]
  where
    v : IsCounted c (n k) (g k) (one_at k k)
    v = at s b n g (one_at k) h k c e

module _ (s : Store) (b : ℕ) (threads : List Thread) (m g : ℕ → ℕ) (few : (y : ℕ) → g y ≤ m y) where
  abbrev with_chan : Option ℕ → Channels
  with_chan chan = record { store = s; next = b; chan = chan; threads = threads }

  -- The client in a state of its connections, with these threads.
  abbrev Renewed : Channels → Type 0
  Renewed r = Balanced r m g × (r.threads ≡ threads)

  connect-Renewed :
      (connects : Bool) (s' : Store) (chan : Option ℕ)
      → AllFit s' b m g (λ y. 0)
      → Renewed (
          connect_to_dst (record { store = s'; next = b; chan = chan; threads = threads }) connects)
  unfolding connect_to_dst
  connect-Renewed connects s' chan h = (
    connect_to_dst-Balanced (record { store = s'; next = b; chan = chan; threads = threads }) m g
        connects few h,
    ground arith,
  )

  pub renew_chan-Balanced :
      (connects : Bool) (chan : Option ℕ)
      → Balanced (with_chan chan) m g
      → WillReturn Renewed (renew_chan (with_chan chan) connects)
  unfolding renew_chan is_stale drop_ref load
  renew_chan-Balanced connects none h =
      connect-Renewed connects s none
        (AllFit-ext s b _ m g g _ _ (λ y. (omega arith, refl, refl)) h)
  renew_chan-Balanced connects (some k) h =
      let (c, e) = pointed s b _ g _ h k (ground arith) in
      elim (Bool-cases c.dead) [
        | inr alive ↦ rw (renew_chan, is_stale, load, e, alive) (h, refl)
        | inl dead ↦
            let h1 = buried s b _ g k c e dead h in
            rw (renew_chan, is_stale, load, e, dead)
              (will-then (λ s'. AllFit s' b (λ y. chan_and (some k) m y - one_at k y) g (λ y. 0))
                Renewed (decref_at s k) _
                (decref_at-AllFit s b _ g (λ y. 0) h1 k (ground arith) (ground (arith, few k)))
                (λ s' h2.
                  connect-Renewed connects s' (some k)
                    (AllFit-ext s' b _ m g g _ _ (λ y. (ground arith, refl, refl)) h2)))
      ]

-- get_refconn, called by a thread whose `ch` it is; `m` counts the pointers of the other threads, of
-- which some are inside `send`.
abbrev pub Shared : (ℕ → ℕ) → (ℕ → ℕ) → List Thread → Option ℕ × Channels → Type 0
Shared m g threads q = Balanced q.1 (chan_and q.0 m) g × (q.1.threads ≡ threads)

share_chan-Shared :
    (r : Channels) (m g : ℕ → ℕ) (ch chan : Option ℕ)
    → r.chan ≡ chan
    → ((y : ℕ) → g y ≤ m y)
    → Balanced r (chan_and ch m) g
    → WillReturn (Shared m g r.threads) (share_chan r ch chan)
unfolding share_chan
share_chan-Shared r m g ch none e few h = (h, refl)
share_chan-Shared r m g ch (some k) e few h =
    let p = points r.chan in
    let chan_is : (y : ℕ) → p y ≡ one_at k y = λ y. ap (λ o. points o y) e in
    will-then (λ s. AllFit s r.next (λ y. chan_and r.chan (chan_and ch m) y - points ch y) g p)
      (Shared m g r.threads) (drop_ref r.store ch) _
      (drop_ref-AllFit r.store r.next _ g p ch h (λ y. omega (arith, few y)) (λ y. omega arith))
      (λ s h1.
        will-then
          (λ s'.
            AllFit s' r.next (λ y. chan_and r.chan (chan_and ch m) y - points ch y + one_at k y) g
              p)
          (Shared m g r.threads) (incref_at s k) _
          (incref_at-AllFit s r.next _ g p h1 k (ground (arith, chan_is k)))
          (λ s' h2. (AllFit-ext s' r.next _ _ g g p p (λ y. (omega arith, refl, refl)) h2, refl)))

pub get_refconn-Shared :
    (r : Channels) (m g : ℕ → ℕ) (ch : Option ℕ) (connects : Bool)
    → ((y : ℕ) → g y ≤ m y)
    → Balanced r (chan_and ch m) g
    → WillReturn (Shared m g r.threads) (get_refconn r ch connects)
unfolding get_refconn
get_refconn-Shared r m g ch connects few h =
    will-then (λ r'. Balanced r' (chan_and ch m) g × (r'.threads ≡ r.threads))
      (Shared m g r.threads) (renew_chan r connects) _
      (renew_chan-Balanced r.store r.next r.threads (chan_and ch m) g (λ y. omega (arith, few y))
        connects r.chan h)
      (λ r' q.
        subst (λ ts. WillReturn (Shared m g ts) (share_chan r' ch r'.chan)) q.1
          (share_chan-Shared r' m g ch r'.chan refl few q.0))

unpointed : (o : Option Connection) (n g p : ℕ) → n ≡ 0 → Fits o n g p → o ≡ none
unpointed none n g p e f = refl
unpointed (some c) n g p e f = absurd (omega (arith, e, f.some_left))

closeconn-Fits : (c : Connection) (n g p : ℕ) → IsCounted c n g p → Fits (some (closeconn c)) n g 0
unfolding closeconn
closeconn-Fits c n g p v = record {
  count = ground (arith, v.count);
  some_left = v.some_left;
  alive = inr (ground arith);
  idle = ground (arith, v.idle);
}

closeconn_at-AllFit :
    (s : Store) (b : ℕ) (n g : ℕ → ℕ) (k : ℕ)
    → AllFit s b n g (one_at k)
    → 0 < n k
    → WillReturn (λ s'. AllFit s' b n g (λ y. 0)) (closeconn_at s k)
unfolding closeconn_at load
closeconn_at-AllFit s b n g k h l =
    let (c, e) = pointed s b n g (one_at k) h k l in
    rw (closeconn_at, load, e)
      (put-AllFit s b n g (one_at k) h k b (some (closeconn c)) n g (λ y. 0)
        (made s b n g (one_at k) h k c e) (omega arith)
        (closeconn-Fits c (n k) (g k) (one_at k k) (at s b n g (one_at k) h k c e))
        (λ y ne. (refl, refl, ground arith)))

abbrev pub Deleted : Store → Type 0
Deleted s = (y : ℕ) → s y ≡ none

end_chan-deletes :
    (s : Store) (b : ℕ) (chan : Option ℕ)
    → AllFit s b (chan_and chan (λ y. 0)) (λ y. 0) (points chan)
    → WillReturn Deleted (end_chan s chan)
unfolding end_chan
end_chan-deletes s b none h = λ y. unpointed (s y) _ 0 0 (omega arith) (h y).0
end_chan-deletes s b (some k) h =
    let n = chan_and (some k) (λ y. 0) in
    will-then (λ s'. AllFit s' b n (λ y. 0) (λ y. 0)) Deleted (closeconn_at s k) _
      (closeconn_at-AllFit s b n (λ y. 0) k h (ground arith))
      (λ s' h'.
        will-weaken (λ s2. AllFit s2 b (λ y. n y - one_at k y) (λ y. 0) (λ y. 0)) Deleted
          (decref_at s' k)
          (decref_at-AllFit s' b n (λ y. 0) (λ y. 0) h' k (ground arith) (inr (refl, refl)))
          (λ s2 h2 y. unpointed (s2 y) _ 0 0 (ground arith) (h2 y).0))

-- ~rpcc, where no thread is left: every connection is deleted behind it.
pub destroy_rpcc-deletes :
    (r : Channels)
    → r.threads ≡ []
    → Balanced r (λ y. 0) (λ y. 0)
    → WillReturn Deleted (destroy_rpcc r)
unfolding destroy_rpcc
destroy_rpcc-deletes r idle h =
    will-then Deleted Deleted (end_chan r.store r.chan) _ (end_chan-deletes r.store r.next r.chan h)
      (λ s gone. rw (ap calls_size idle) gone)
