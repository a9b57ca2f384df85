-- ===== src/Rpcc/Channels.antt =====
-- rpc/rpc.cc: the connections of one client: chan_, the `ch` of each thread in call1, get_refconn and
-- ~rpcc; rpc/connection.cc: connect_to_dst.
--
-- A pointer is the number of a connection in a store, and no number is given out twice. Of a thread
-- in call1 only `ch` is kept, with where it stands: in the loop, inside `ch->send`, or behind
-- `calls_.erase`; the threads before that have an entry in calls_. What the socket library gives to
-- connect_to_dst is an argument: whether connect(2) succeeds.
pub mod Counts
pub mod Balance
pub mod Histories
pub mod Callbacks
pub mod Acting
pub mod Lifetimes
use yfs_lab.Prelude.{
  ℕ, zero, suc, ◌+◌, List, [], ◌∷◌, ◌++◌, Bool, true, false, Option, none, some, ◌==◌,
  if◌then◌else◌,
}
use yfs_lab.Prelude.Outcome.{Outcome, returns, aborts, ◌>>=◌, use_after_delete, assertion}
use yfs_lab.Connection.{Connection, connection, closeconn, incref, decref}

abbrev pub Store : Type 0
Store = ℕ → Option Connection

unfoldable pub put : Store → ℕ → Option Connection → Store
put s k o = λ y. if k == y then o else s y

-- The object behind a pointer.
unfoldable pub load : Store → ℕ → Outcome Connection
load s k = elim (s k) [ none ↦ aborts use_after_delete | some c ↦ returns c ]

unfoldable pub incref_at : Store → ℕ → Outcome Store
incref_at s k = load s k >>= λ c. returns (put s k (some (incref c)))

unfoldable pub decref_at : Store → ℕ → Outcome Store
decref_at s k = load s k >>= λ c. decref c >>= λ o. returns (put s k o)

unfoldable pub closeconn_at : Store → ℕ → Outcome Store
closeconn_at s k = load s k >>= λ c. returns (put s k (some (closeconn c)))

-- `if (p) p->decref()`
unfoldable pub drop_ref : Store → Option ℕ → Outcome Store
drop_ref s none = returns s
drop_ref s (some k) = decref_at s k

pub data Place : Type 0 where
  loops sends erased : Place

pub record Thread : Type 0 where
  pub ch : Option ℕ
  pub place : Place

pub record Channels : Type 0 where
  pub store : Store
  pub next : ℕ
  pub chan : Option ℕ
  pub threads : List Thread

-- The part of rpcc::rpcc.
unfoldable pub channels : Channels
channels = record { store = λ k. none; next = 0; chan = none; threads = [] }

-- `!chan_ || chan_->isdead()`
unfoldable pub is_stale : Channels → Outcome Bool
is_stale r = elim r.chan [ none ↦ returns true | some k ↦ load r.store k >>= λ c. returns c.dead ]

-- `chan_ = connect_to_dst(...)`
unfoldable pub connect_to_dst : Channels → Bool → Channels
connect_to_dst r connects =
    if connects
    then record r {
      store = put r.store r.next (some connection);
      next = r.next + 1;
      chan = some r.next;
    }
    else record r { chan = none }

-- The first `if` of get_refconn.
unfoldable pub renew_chan : Channels → Bool → Outcome Channels
renew_chan r connects = is_stale r >>= λ stale.
    if stale
    then (drop_ref r.store r.chan >>= λ s.
        returns (connect_to_dst (record r { store = s }) connects))
    else returns r

-- The second one, on the pointer that `ch` points to.
unfoldable pub share_chan : Channels → Option ℕ → Option ℕ → Outcome (Option ℕ × Channels)
share_chan r ch none = returns (ch, r)
share_chan r ch (some k) =
    drop_ref r.store ch >>= λ s. incref_at s k >>= λ s'. returns (some k, record r { store = s' })

unfoldable pub get_refconn : Channels → Option ℕ → Bool → Outcome (Option ℕ × Channels)
get_refconn r ch connects = renew_chan r connects >>= λ r'. share_chan r' ch r'.chan

-- calls_.size()
abbrev pub calls_size : List Thread → ℕ
calls_size [] = 0
calls_size (t ∷ ts) = elim t.place [
  | loops ↦ suc (calls_size ts)
  | sends ↦ suc (calls_size ts)
  | erased ↦ calls_size ts
]

-- `if (chan_) { chan_->closeconn(); chan_->decref(); }`
unfoldable pub end_chan : Store → Option ℕ → Outcome Store
end_chan s none = returns s
end_chan s (some k) = closeconn_at s k >>= λ s'. decref_at s' k

-- ~rpcc: what is left of the store.
unfoldable pub destroy_rpcc : Channels → Outcome Store
destroy_rpcc r = end_chan r.store r.chan >>= λ s.
    if calls_size r.threads == 0 then returns s else aborts assertion
