-- ===== src/System.antt =====
-- A client, a network and a server: class rpcc (rpc/rpc.h, rpc/rpc.cc) against the reply windows of
-- class rpcs (rpc/rpc.cc).
--
-- The network is anything that hands over packets that were sent, in any order and any number of
-- times, or never: `packets` holds the headers of all requests that the client has packed, latest
-- first, and an arrival names one of them by its place.
pub mod AtMostOnce
use yfs_lab.Prelude.{
  ℕ, zero, suc, List, [], ◌∷◌, Bool, not, ◌&&◌, ◌||◌, Option, none, some, ltb, ◌==◌, if◌then◌else◌,
}
use yfs_lab.Prelude.Memory.{Cells}
use yfs_lab.Marshall.{Marshall, ReqHeader}
use yfs_lab.Rpcs.{bind}
use yfs_lab.Rpcc.{Rpcc, rpcc, header_of}
use yfs_lab.Rpcc.Calls
use yfs_lab.ReplyWindow.Once

pub record World : Type 0 where
  pub client : Rpcc
  pub packets : List ReqHeader

abbrev pub world : ℕ → Bool → World
world nonce retrans = record { client = rpcc nonce retrans; packets = [] }

-- The client goes on, one of its packets arrives, or the server does something for this client or
-- for another.
pub data Event : Type 0 where
  client : Calls.Event → Event
  arrives : (i : ℕ) → Event
  serves : Once.Event → Event

abbrev pub nth : ℕ → List ReqHeader → Option ReqHeader
nth i [] = none
nth zero (h ∷ hs) = some h
nth (suc i) (h ∷ hs) = nth i hs

-- `call1` refuses a call before bind, and a second bind.
abbrev pub is_refused : Rpcc → ℕ → Bool
is_refused r proc = not (proc == bind) && not r.bind_done || proc == bind && r.bind_done

-- The header that an event puts on the network: that of a call that begins.
abbrev pub sent : Rpcc → Calls.Event → List ReqHeader → List ReqHeader
sent r (Calls.began proc req un) hs = if is_refused r proc then hs else header_of r proc ∷ hs
sent r (Calls.got b sz) hs = hs
sent r (Calls.ended xid) hs = hs

unfoldable pub step : World → Event → World
step w (client e) = record { client = Calls.step w.client e; packets = sent w.client e w.packets }
step w (arrives i) = w
step w (serves e) = w

unfoldable pub run : World → List Event → World
run w [] = w
run w (e ∷ es) = run (step w e) es

abbrev pub heard_of : Option ReqHeader → List Once.Event → List Once.Event
heard_of none es = es
heard_of (some h) es =
    if ltb 0 h.clt_nonce then Once.checked h.clt_nonce h.xid h.xid_rep ∷ es else es

-- What the server's reply windows see: dispatch checks the request of each packet that arrives, unless
-- its client has asked for no such check.
unfoldable pub heard : World → List Event → List Once.Event
heard w [] = []
heard w (client e ∷ es) = heard (step w (client e)) es
heard w (arrives i ∷ es) = heard_of (nth i w.packets) (heard w es)
heard w (serves e ∷ es) = e ∷ heard w es
