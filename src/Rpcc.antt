-- ===== src/Rpcc.antt =====
-- rpc/rpc.h: class rpcc, rpcc::caller, call_m, call; rpc/rpc.cc: rpcc::caller, rpcc::rpcc, bind,
-- call1, got_pdu.
--
-- `call1` is in parts: `begin_call` is the first block under m_, `Retry` the loop that sends and
-- waits, and `end_call` is what stands behind it. What other threads do to the client in between is
-- in the state that each part starts from. `calls` is a function from xids, and a caller holds the
-- `unmarshall` that its `un` points to.
pub mod Calls
pub mod Channels
pub mod EndToEnd
pub mod Remote
pub mod Pending
pub mod Retry
use yfs_lab.Prelude.{
  ℕ, zero, suc, ◌+◌, ◌%◌, ◌^◌, List, [], ◌∷◌, Bool, true, false, not, ◌&&◌, ◌||◌, Option, none,
  some, ltb, leb, ◌==◌, if◌then◌else◌,
}
use yfs_lab.Prelude.Int.{ℤ, pos, negsuc, is_negative, to_pattern}
use yfs_lab.Prelude.Memory.{Cells}
use yfs_lab.Marshall.{Marshall, marshall, ReqHeader, ReplyHeader, pack_req_header}
use yfs_lab.Unmarshall.{Unmarshall, no_buffer, unmarshall, unpack_reply_header, take_in, okdone}
use yfs_lab.Codec.{Codec}
use yfs_lab.XidWindow.{front, update_xid_rep}
use yfs_lab.Rpcs.{bind, timeout_failure, unmarshal_reply_failure, bind_failure}

pub record Caller : Type 0 where
  pub xid : ℕ
  pub un : Unmarshall
  pub intret : ℤ
  pub is_done : Bool

pub record Rpcc : Type 0 where
  pub clt_nonce : ℕ
  pub srv_nonce : ℕ
  pub bind_done : Bool
  pub xid : ℕ
  pub retrans : Bool
  pub calls : ℕ → Option Caller
  pub xid_rep_window : List ℕ

-- rpcc::rpcc; `nonce` is what random() gives.
unfoldable pub rpcc : ℕ → Bool → Rpcc
rpcc nonce retrans = record {
  clt_nonce = if retrans then nonce else 0;
  srv_nonce = 0;
  bind_done = false;
  xid = 1;
  retrans = retrans;
  calls = λ x. none;
  xid_rep_window = 0 ∷ [];
}

-- caller(xid, un); `intret` is not set, and not read before it is.
abbrev pub caller : ℕ → Unmarshall → Caller
caller xid un = record { xid = xid; un = un; intret = pos 0; is_done = false }

abbrev pub set_call : Rpcc → ℕ → Option Caller → Rpcc
set_call r x c = record r { calls = λ y. if x == y then c else r.calls y }

abbrev pub header_of : Rpcc → ℕ → ReqHeader
header_of r proc = record {
  xid = r.xid;
  proc = proc;
  clt_nonce = r.clt_nonce;
  srv_nonce = r.srv_nonce;
  xid_rep = front r.xid_rep_window;
}

-- The first block of call1: the xid and the packed request, or `none` for bind_failure.
unfoldable pub begin_call : Rpcc → ℕ → Marshall → Unmarshall → Option (ℕ × Marshall × Rpcc)
begin_call r proc req un =
    if not (proc == bind) && not r.bind_done || proc == bind && r.bind_done
    then none
    else some (
      r.xid,
      pack_req_header req (header_of r proc),
      record r {
        xid = (r.xid + 1) % 2 ^ 32;
        calls = λ y. if r.xid == y then some (caller r.xid un) else r.calls y;
      },
    )

-- What got_pdu does to the caller of the reply's xid.
unfoldable pub deliver : Caller → ReplyHeader → Unmarshall → Caller
deliver ca h rep =
    if ca.is_done
    then ca
    else record ca { un = (take_in ca.un rep).0; intret = h.ret; is_done = true }

unfoldable pub got_pdu : Rpcc → Cells → ℕ → Bool × Rpcc
got_pdu r b sz =
    let (h, rep) = unpack_reply_header (unmarshall b sz) in
    let r1 = record r { xid_rep_window = update_xid_rep r.xid_rep_window h.xid } in
    if not rep.is_ok then (true, r) else (elim (r.calls h.xid) [
      | none ↦ (true, r1)
      | some ca ↦ (true, set_call r1 h.xid (some (deliver ca h rep)))
    ])

-- The blocks behind the loop of call1, on the caller `ca` that this thread made.
unfoldable pub end_call : Rpcc → Caller → (ℤ × Unmarshall) × Rpcc
end_call r ca = (
  (if ca.is_done then ca.intret else timeout_failure, ca.un),
  record r {
    calls = λ y. if ca.xid == y then none else r.calls y;
    xid_rep_window = update_xid_rep r.xid_rep_window ca.xid;
  },
)

-- rpcc::call_m behind call1: the result and what `r` holds, unset where nothing is read.
unfoldable pub call_m : {R : Type 0} → Codec R → ℤ → Unmarshall → ℤ × Option R
call_m res intret u =
    let (r, u1) = res.get u in
    if is_negative intret
    then (intret, none)
    else if not (okdone u1)
    then (unmarshal_reply_failure, some r)
    else (intret, some r)

-- rpcc::call: the arguments, one after the other, in a new message.
unfoldable pub call : {A : Type 0} → Codec A → Cells → A → Marshall
call args junk a = args.put (marshall junk) a

-- rpcc::bind behind `call`.
unfoldable pub bind_result : Rpcc → ℤ × Option ℤ → ℤ × Rpcc
bind_result r (pos zero, some got) =
    (pos 0, record r { bind_done = true; srv_nonce = to_pattern got })
bind_result r (ret, _) = (ret, r)
