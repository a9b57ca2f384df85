-- ===== src/Rpcc/Calls.antt =====
-- Histories of one client: its calls, and what its window says about them.
use yfs_lab.Prelude.{
  ℕ, ◌+◌, ◌^◌, ◌<◌, ◌≡◌, refl, List, [], ◌∷◌, Bool, false, not, ◌&&◌, ◌||◌, Option, none, some,
  arith, ◌==◌, Bool-cases, Option-cases, inl, inr,
}
use yfs_lab.Prelude.Memory.{Cells}
use yfs_lab.Marshall.{Marshall}
use yfs_lab.Unmarshall.{Unmarshall, unmarshall, unpack_reply_header}
use yfs_lab.Rpcs.{bind}
use yfs_lab.Rpcc.{Caller, Rpcc, rpcc, header_of, begin_call, got_pdu, end_call}
use yfs_lab.Rpcc.Pending.{
  IsClient, begun-IsClient, got-IsClient, end_call-IsClient, rpcc-IsClient, pending_above_front,
}

-- What happens at one client, in the order of m_: a call begins, a message comes in, and a
-- registered call ends.
pub data Event : Type 0 where
  began : (proc : ℕ) (req : Marshall) (un : Unmarshall) → Event
  got : (b : Cells) (sz : ℕ) → Event
  ended : (xid : ℕ) → Event

abbrev pub reply_xid : Cells → ℕ → ℕ
reply_xid b sz = (unpack_reply_header (unmarshall b sz)).0.xid

abbrev after_begin : Rpcc → Option (ℕ × Marshall × Rpcc) → Rpcc
after_begin r none = r
after_begin r (some (xid, packed, r')) = r'

abbrev after_end : Rpcc → Option Caller → Rpcc
after_end r none = r
after_end r (some ca) = (end_call r ca).1

unfoldable pub step : Rpcc → Event → Rpcc
step r (began proc req un) = after_begin r (begin_call r proc req un)
step r (got b sz) = (got_pdu r b sz).1
step r (ended xid) = after_end r (r.calls xid)

-- xids are left, and every message that comes in answers a request that was sent.
abbrev pub Allowed : Rpcc → Event → Type 0
Allowed r (began proc req un) = r.xid + 1 < 2 ^ 32
Allowed r (got b sz) = reply_xid b sz < r.xid
Allowed r (ended xid) = Unit

-- Every event that the protocol allows keeps the client well-formed.
pub step-IsClient : (r : Rpcc) (e : Event) → Allowed r e → IsClient r → IsClient (step r e)
unfolding step begin_call got_pdu
step-IsClient r (began proc req un) room v =
    elim (Bool-cases (not (proc == bind) && not r.bind_done || proc == bind && r.bind_done)) [
      | inl refused ↦ rw (step, begin_call, refused) v
      | inr ready ↦ rw (step, begin_call, ready) (begun-IsClient r un room v)
    ]
step-IsClient r (got b sz) given v =
    let (h, rep) = unpack_reply_header (unmarshall b sz) in
    got-IsClient r h rep rep.is_ok (r.calls h.xid) given refl v
step-IsClient r (ended xid) a v = elim (Option-cases (r.calls xid)) [
  | inl e ↦ rw (step, e) v
  | inr (ca, e) ↦
      rw (step, e)
        (end_call-IsClient r ca
          (omega (arith, (v.registered xid ca e).0, (v.registered xid ca e).1)) v)
]

unfoldable pub run : Rpcc → List Event → Rpcc
run r [] = r
run r (e ∷ es) = run (step r e) es

-- Each event is allowed where it happens.
abbrev pub AllAllowed : Rpcc → List Event → Type 0
AllAllowed r [] = Unit
AllAllowed r (e ∷ es) = Allowed r e × AllAllowed (step r e) es

run-IsClient : (r : Rpcc) (es : List Event) → AllAllowed r es → IsClient r → IsClient (run r es)
unfolding run
run-IsClient r [] a v = v
run-IsClient r (e ∷ es) a v = run-IsClient (step r e) es a.1 (step-IsClient r e a.0 v)

-- Whatever has happened at a client since it was made, a call that is registered and has no reply has
-- an xid above the `xid_rep` that the next request carries, if xids have not wrapped and every
-- message that came in had an xid that was given out.
pub pending_unconfirmed :
    (nonce : ℕ) (retrans : Bool) (es : List Event) (y : ℕ) (ca : Caller) (proc : ℕ)
    → AllAllowed (rpcc nonce retrans) es
    → (run (rpcc nonce retrans) es).calls y ≡ some ca
    → ca.is_done ≡ false
    → (header_of (run (rpcc nonce retrans) es) proc).xid_rep < y
pending_unconfirmed nonce retrans es y ca proc a e d =
    pending_above_front (run (rpcc nonce retrans) es) y ca
      (run-IsClient (rpcc nonce retrans) es a (rpcc-IsClient nonce retrans)) e d
