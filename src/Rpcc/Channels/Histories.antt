-- ===== src/Rpcc/Channels/Histories.antt =====
-- Histories of the threads of one client and of its connections.
use yfs_lab.Prelude.{
  ℕ, zero, suc, ◌+◌, ◌≡◌, ◌≤◌, refl, List, [], ◌∷◌, Bool, Option, none, some, arith, some_inj,
}
use yfs_lab.Prelude.Outcome.{Outcome, returns, ◌>>=◌}
use yfs_lab.Connection.{Connection}
use yfs_lab.Rpcc.Channels.{
  put, drop_ref, Channels, Thread, Place, loops, sends, erased, get_refconn,
}
use yfs_lab.Rpcc.Channels.Balance.{points, Balanced}

-- What a thread in call1 does: it calls get_refconn, enters `send`, comes back, takes itself from
-- calls_, and lets go of its `ch` and returns.
pub data Act : Type 0 where
  refers : (connects : Bool) → Act
  begins_send ends_send takes_out leaves : Act

-- What happens at one client: a thread enters call1, the thread at a place of the list acts, and a
-- connection becomes another by what is done to it.
pub data Event : Type 0 where
  entered : Event
  acted : (i : ℕ) (a : Act) → Event
  changed : (k : ℕ) (c : Connection) → Event

abbrev pub thread_at : ℕ → List Thread → Option Thread
thread_at i [] = none
thread_at zero (t ∷ ts) = some t
thread_at (suc i) (t ∷ ts) = thread_at i ts

abbrev pub set_thread : ℕ → Thread → List Thread → List Thread
set_thread i u [] = []
set_thread zero u (t ∷ ts) = u ∷ ts
set_thread (suc i) u (t ∷ ts) = t ∷ set_thread i u ts

abbrev pub remove_thread : ℕ → List Thread → List Thread
remove_thread i [] = []
remove_thread zero (t ∷ ts) = ts
remove_thread (suc i) (t ∷ ts) = t ∷ remove_thread i ts

-- `if (transmit) get_refconn(&ch)`
unfoldable pub refer : Channels → ℕ → Thread → Place → Bool → Outcome Channels
refer r i t loops connects = get_refconn r t.ch connects >>= λ q.
    returns (record q.1 { threads = set_thread i (record t { ch = q.0 }) q.1.threads })
refer r i t sends connects = returns r
refer r i t erased connects = returns r

abbrev pub place_at : Channels → ℕ → Thread → Place → Channels
place_at r i t p = record r { threads = set_thread i (record t { place = p }) r.threads }

-- `if (ch) ch->send(...)`
unfoldable pub begin_send : Channels → ℕ → Thread → Option ℕ → Place → Channels
begin_send r i t (some k) loops = place_at r i t sends
begin_send r i t _ _ = r

unfoldable pub end_send : Channels → ℕ → Thread → Place → Channels
end_send r i t sends = place_at r i t loops
end_send r i t _ = r

-- `calls_.erase(ca.xid)`
unfoldable pub erase_call : Channels → ℕ → Thread → Place → Channels
erase_call r i t loops = place_at r i t erased
erase_call r i t _ = r

-- `if (ch) ch->decref()`, and the return.
unfoldable pub leave : Channels → ℕ → Thread → Place → Outcome Channels
leave r i t erased = drop_ref r.store t.ch >>= λ s.
    returns (record r { store = s; threads = remove_thread i r.threads })
leave r i t _ = returns r

unfoldable pub act : Channels → ℕ → Thread → Act → Outcome Channels
unfolding refer begin_send end_send erase_call leave
act r i t (refers connects) = refer r i t t.place connects
act r i t begins_send = returns (begin_send r i t t.ch t.place)
act r i t ends_send = returns (end_send r i t t.place)
act r i t takes_out = returns (erase_call r i t t.place)
act r i t leaves = leave r i t t.place

unfoldable pub change : Channels → ℕ → Connection → Option Connection → Channels
change r k c none = r
change r k c (some before) = record r { store = put r.store k (some c) }

unfoldable pub step : Channels → Event → Outcome Channels
unfolding act change
step r entered = returns (record r { threads = record { ch = none; place = loops } ∷ r.threads })
step r (acted i a) = elim (thread_at i r.threads) [ none ↦ returns r | some t ↦ act r i t a ]
step r (changed k c) = returns (change r k c (r.store k))

unfoldable pub run : Channels → List Event → Outcome Channels
run r [] = returns r
run r (e ∷ es) = step r e >>= λ r'. run r' es

-- How many pointers the threads have to a connection, and how many of them are inside its `send`.
abbrev pub refs : List Thread → ℕ → ℕ
refs [] y = 0
refs (t ∷ ts) y = points t.ch y + refs ts y

abbrev pub sending : Thread → ℕ → ℕ
sending t y = elim t.place [ loops ↦ 0 | sends ↦ points t.ch y | erased ↦ 0 ]

abbrev pub senders : List Thread → ℕ → ℕ
senders [] y = 0
senders (t ∷ ts) y = sending t y + senders ts y

-- The list without one thread has the rest.
pub refs-at :
    (i : ℕ) (ts : List Thread) (t u : Thread) (y : ℕ)
    → thread_at i ts ≡ some t
    → (refs ts y ≡ points t.ch y + refs (remove_thread i ts) y)
      × (refs (set_thread i u ts) y ≡ points u.ch y + refs (remove_thread i ts) y)
refs-at i [] t u y e = absurd (cc e)
refs-at zero (x ∷ ts) t u y e = (rw (some_inj e) refl, refl)
refs-at (suc i) (x ∷ ts) t u y e =
    let h = refs-at i ts t u y e in (omega (arith, h), omega (arith, h))

pub senders-at :
    (i : ℕ) (ts : List Thread) (t u : Thread) (y : ℕ)
    → thread_at i ts ≡ some t
    → (senders ts y ≡ sending t y + senders (remove_thread i ts) y)
      × (senders (set_thread i u ts) y ≡ sending u y + senders (remove_thread i ts) y)
senders-at i [] t u y e = absurd (cc e)
senders-at zero (x ∷ ts) t u y e = (rw (some_inj e) refl, refl)
senders-at (suc i) (x ∷ ts) t u y e =
    let h = senders-at i ts t u y e in (omega (arith, h), omega (arith, h))

sending-le : (t : Thread) (y : ℕ) → sending t y ≤ points t.ch y
sending-le t y = ground arith

pub senders-le-refs : (ts : List Thread) (y : ℕ) → senders ts y ≤ refs ts y
senders-le-refs [] y = omega arith
senders-le-refs (t ∷ ts) y = omega (arith, sending-le t y, senders-le-refs ts y)

-- Each count is the number of pointers from chan_ and the threads.
abbrev pub IsBalanced : Channels → Type 0
IsBalanced r = Balanced r (refs r.threads) (senders r.threads)
