-- ===== src/System/AtMostOnce.antt =====
-- At most once, from the client's call to the server's handler.
use native.Mathlib.Decide.{dec_le}
use yfs_lab.Prelude.{
  ℕ, zero, suc, ◌+◌, ◌≤◌, ◌<◌, ◌≡◌, ◌≢◌, subst, List, [], ◌∷◌, true, false, some, All, arith, ltb,
  Bool-cases, Option-cases, inl, inr, some_inj,
}
use yfs_lab.Prelude.Memory.{Cells}
use yfs_lab.Marshall.{ReqHeader}
use yfs_lab.Unmarshall.{unmarshall, unpack_reply_header}
use yfs_lab.XidWindow.{front, update_xid_rep}
use yfs_lab.XidWindow.Order.{IsUint, IsWindow, update_xid_rep-IsWindow}
use yfs_lab.XidWindow.Received.{received-update_xid_rep, front_longest}
use yfs_lab.Rpcc.{Caller, Rpcc, begin_call, got_pdu, end_call}
use yfs_lab.Rpcc.Pending.{IsClient, rpcc-IsClient, pending_above_front}
use yfs_lab.Rpcc.Calls
use yfs_lab.Rpcc.Calls.{Allowed, step-IsClient}
use yfs_lab.ReplyWindow.{Windows}
use yfs_lab.ReplyWindow.Once.{Unconfirmed, starts, at_most_once, checked, replied}
use yfs_lab.System.{
  World, world, Event, client, arrives, serves, nth, is_refused, sent, step, run, heard,
}

-- An update never takes the front back.
front-update_xid_rep :
    (w : List ℕ) (xid : ℕ) → IsUint xid → IsWindow w → front w ≤ front (update_xid_rep w xid)
front-update_xid_rep w xid u v =
    let next = front (update_xid_rep w xid) + 1 in
    let missing = (front_longest (update_xid_rep w xid) (update_xid_rep-IsWindow w xid u v)).1 in
    elim (dec_le next (front w)) [
      | no above ↦ omega (arith, above)
      | yes below ↦
          let had = (front_longest w v).0 next below in
          let has = received-update_xid_rep w xid next u v in
          absurd (ground (arith, had, has, missing))
    ]

abbrev front_of : Rpcc → ℕ
front_of r = front r.xid_rep_window

got-front :
    (r : Rpcc) (b : Cells) (sz : ℕ)
    → Calls.reply_xid b sz < r.xid
    → IsClient r
    → front_of r ≤ front_of (got_pdu r b sz).1
unfolding got_pdu
got-front r b sz lt v =
    let (h, rep) = unpack_reply_header (unmarshall b sz) in
    let up = front-update_xid_rep r.xid_rep_window h.xid (omega (arith, lt, v.bound)) v.window in
    elim (Bool-cases rep.is_ok) [
      | inr bad ↦ rw bad (omega arith)
      | inl good ↦ elim (Option-cases (r.calls h.xid)) [
        | inl e ↦ rw (good, e) up
        | inr (ca, e) ↦ rw (good, e) up
      ]
    ]

step-front :
    (r : Rpcc) (e : Calls.Event) → Allowed r e → IsClient r → front_of r ≤ front_of (Calls.step r e)
unfolding Calls.step begin_call end_call
step-front r (Calls.began proc req un) a v = elim (Bool-cases (is_refused r proc)) [
  | inl refused ↦ rw (Calls.step, begin_call, refused) (omega arith)
  | inr ready ↦ rw (Calls.step, begin_call, ready) (omega arith)
]
step-front r (Calls.got b sz) a v = got-front r b sz a v
step-front r (Calls.ended xid) a v = elim (Option-cases (r.calls xid)) [
  | inl e ↦ rw (Calls.step, e) (omega arith)
  | inr (ca, e) ↦
      let known = v.registered xid ca e in
      rw (Calls.step, e)
        (front-update_xid_rep r.xid_rep_window ca.xid (omega (arith, known.0, known.1, v.bound))
          v.window)
]

-- What the client may do, and that other requests come from other clients.
abbrev pub AllowedOf : ℕ → World → Event → Type 0
AllowedOf nonce w (client e) = Allowed w.client e
AllowedOf nonce w (arrives i) = Unit
AllowedOf nonce w (serves (checked c x r)) = c ≢ nonce
AllowedOf nonce w (serves (replied c x b sz)) = Unit

abbrev pub AllAllowed : ℕ → World → List Event → Type 0
AllAllowed nonce w [] = Unit
AllAllowed nonce w (e ∷ es) = AllowedOf nonce w e × AllAllowed nonce (step w e) es

-- A packet confirms no more than its client does now.
abbrev IsStale : Rpcc → ReqHeader → Type 0
IsStale r h = h.xid_rep ≤ front_of r

IsStale-later :
    (r r' : Rpcc) (hs : List ReqHeader)
    → front_of r ≤ front_of r'
    → All (IsStale r) hs
    → All (IsStale r') hs
IsStale-later r r' [] le a = tt
IsStale-later r r' (h ∷ hs) le a = (omega (arith, a.0, le), IsStale-later r r' hs le a.1)

sent-IsStale :
    (r r' : Rpcc) (e : Calls.Event) (hs : List ReqHeader)
    → front_of r ≤ front_of r'
    → All (IsStale r) hs
    → All (IsStale r') (sent r e hs)
sent-IsStale r r' (Calls.began proc req un) hs le a = elim (Bool-cases (is_refused r proc)) [
  | inl refused ↦ rw refused (IsStale-later r r' hs le a)
  | inr ready ↦ rw ready (le, IsStale-later r r' hs le a)
]
sent-IsStale r r' (Calls.got b sz) hs le a = IsStale-later r r' hs le a
sent-IsStale r r' (Calls.ended xid) hs le a = IsStale-later r r' hs le a

-- A run keeps the client well-formed and does not take its front back.
run-client :
    (nonce : ℕ) (w : World) (es : List Event)
    → AllAllowed nonce w es
    → IsClient w.client
    → IsClient (run w es).client × (front_of w.client ≤ front_of (run w es).client)
unfolding run step
run-client nonce w [] a v = (v, omega arith)
run-client nonce w (client e ∷ es) a v =
    let up = step-front w.client e a.0 v in
    let rest = run-client nonce (step w (client e)) es a.1 (step-IsClient w.client e a.0 v) in
    (rest.0, omega (arith, up, rest.1))
run-client nonce w (arrives i ∷ es) a v = run-client nonce w es a.1 v
run-client nonce w (serves e ∷ es) a v = run-client nonce w es a.1 v

nth-All :
    (P : ReqHeader → Type 0) (i : ℕ) (hs : List ReqHeader) (h : ReqHeader)
    → All P hs
    → nth i hs ≡ some h
    → P h
nth-All P i [] h a e = absurd (cc e)
nth-All P zero (x ∷ hs) h a e = subst P (some_inj e) a.0
nth-All P (suc i) (x ∷ hs) h a e = nth-All P i hs h a.1 e

heard-Unconfirmed :
    (nonce y : ℕ) (w : World) (es : List Event)
    → AllAllowed nonce w es
    → IsClient w.client
    → All (IsStale w.client) w.packets
    → front_of (run w es).client ≤ y
    → All (Unconfirmed nonce y) (heard w es)
unfolding run step heard
heard-Unconfirmed nonce y w [] a v p le = tt
heard-Unconfirmed nonce y w (client e ∷ es) a v p le =
    let up = step-front w.client e a.0 v in
    heard-Unconfirmed nonce y (step w (client e)) es a.1 (step-IsClient w.client e a.0 v)
      (sent-IsStale w.client (Calls.step w.client e) e w.packets up p) le
heard-Unconfirmed nonce y w (arrives i ∷ es) a v p le =
    let rest = heard-Unconfirmed nonce y w es a.1 v p le in
    elim (Option-cases (nth i w.packets)) [
      | inl e ↦ rw e rest
      | inr (h, e) ↦
          let low : h.xid_rep ≤ y = omega (
            arith,
            nth-All (IsStale w.client) i w.packets h p e,
            (run-client nonce w es a.1 v).1,
            le,
          ) in
          elim (Bool-cases (ltb 0 h.clt_nonce)) [
            | inl asked ↦ rw (e, asked) ((λ c. low), rest)
            | inr free ↦ rw (e, free) rest
          ]
    ]
heard-Unconfirmed nonce y w (serves (checked c x r) ∷ es) a v p le =
    ((λ same. absurd (a.0 same)), heard-Unconfirmed nonce y w es a.1 v p le)
heard-Unconfirmed nonce y w (serves (replied c x b sz) ∷ es) a v p le =
    (tt, heard-Unconfirmed nonce y w es a.1 v p le)

-- Let a client begin and end calls and get replies, and let the network hand over its packets in any
-- order, late, and any number of times, between requests of other clients and whatever replies the
-- server saves. As long as a call of the client is registered and has no reply, the server has taken
-- its request for new at most once, from any reply windows, if xids have not wrapped and each message
-- that came in had an xid that was given out.
pub pending_at_most_once :
    (nonce : ℕ) (windows : Windows) (es : List Event) (y : ℕ) (ca : Caller)
    → AllAllowed nonce (world nonce true) es
    → (run (world nonce true) es).client.calls y ≡ some ca
    → ca.is_done ≡ false
    → starts nonce y windows (heard (world nonce true) es) ≤ 1
pending_at_most_once nonce windows es y ca a e d =
    let start = rpcc-IsClient nonce true in
    let end = run-client nonce (world nonce true) es a start in
    let above = pending_above_front (run (world nonce true) es).client y ca end.0 e d in
    at_most_once windows (heard (world nonce true) es) nonce y
      (heard-Unconfirmed nonce y (world nonce true) es a start tt (omega (arith, above)))
