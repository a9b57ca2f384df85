-- ===== src/Rpcs.antt =====
-- rpc/rpc.h: rpc_const, class handler, class rpcs; rpc/rpc.cc: rpcs::rpcs, got_pdu, reg1,
-- updatestat, dispatch, rpcbind, and the calls of connection::incref, decref and send that they make.
--
-- A connection is a number; `refs` holds its reference count, `dead` what `isdead()` says, and
-- `deleted` whether decref has deleted it; `overdrawn` says that its assert on a count has failed. `app`
-- is the object whose methods the handlers call. One `dispatch` is one function here, without what
-- other threads do between its locks; Rpcs.Histories has it in two steps.
pub mod Handlers
pub mod Branches
pub mod Accounts
pub mod Admission
pub mod Outcomes
pub mod Dispatch
pub mod Histories
use yfs_lab.Prelude.{
  ℕ, ◌+◌, ◌-◌, ◌≤◌, List, [], ◌∷◌, ◌++◌, Bool, true, false, not, ◌&&◌, ◌||◌, Option, none, some,
  ltb, leb, ◌==◌, if◌then◌else◌,
}
use yfs_lab.Prelude.Int.{ℤ, pos, negsuc, signed32}
use yfs_lab.Prelude.Memory.{Cells}
pub use yfs_lab.Prelude.Outcome.{
  Fault, assertion, null_pointer, out_of_range, Outcome, returns, aborts, ◌>>=◌,
}
use yfs_lab.Marshall.{Marshall, marshall, ReqHeader, ReplyHeader, pack_reply_header, take_buf}
use yfs_lab.Unmarshall.{Unmarshall, unmarshall, unpack_req_header}
use yfs_lab.ReplyWindow.{
  RpcState, new, inprogress, done, forgotten, Windows, Verdict, assign, checkduplicate_and_update,
  add_reply, free_reply_window,
}

-- rpc_const
abbrev pub bind : ℕ
bind = 1

abbrev pub timeout_failure : ℤ
timeout_failure = negsuc 0

abbrev pub unmarshal_args_failure : ℤ
unmarshal_args_failure = negsuc 1

abbrev pub unmarshal_reply_failure : ℤ
unmarshal_reply_failure = negsuc 2

abbrev pub atmostonce_failure : ℤ
atmostonce_failure = negsuc 3

abbrev pub oldsrv_failure : ℤ
oldsrv_failure = negsuc 4

abbrev pub bind_failure : ℤ
bind_failure = negsuc 5

-- handler::fn on the server's object, the arguments and the reply under construction.
abbrev pub Handler : Type 0 → Type 0
Handler S = S → Unmarshall → Marshall → ℤ × Marshall × S

-- What `connection::send` was called with.
pub record Sent : Type 0 where
  pub conn : ℕ
  pub buf : Cells
  pub sz : ℕ

pub record Rpcs (S : Type 0) : Type 0 where
  pub nonce : ℕ
  pub reply_window : Windows
  pub conns : ℕ → Option ℕ
  pub counting : ℕ
  pub curr_counts : ℕ
  pub counts : ℕ → ℕ
  pub procs : ℕ → Option (Handler S)
  pub app : S
  pub refs : ℕ → ℕ
  pub dead : ℕ → Bool
  pub deleted : ℕ → Bool
  pub overdrawn : Bool
  pub sent : List Sent

-- assert(rh.ret >= 0 || rh.ret == rpc_const::unmarshal_args_failure)
abbrev pub is_allowed : ℤ → Bool
is_allowed (pos n) = true
is_allowed (negsuc n) = n == 1

-- A reply with no body.
abbrev pub bare_reply : Cells → ℕ → ℤ → Marshall
bare_reply junk xid ret = pack_reply_header (marshall junk) (record { xid = xid; ret = ret })

module _ {S : Type 0} where
  abbrev pub incref : Rpcs S → ℕ → Rpcs S
  incref s c = record s { refs = λ k. if c == k then s.refs k + 1 else s.refs k }

  -- A dead connection is deleted with its last reference. Where there is none to give back, the assert
  -- on the count fails.
  abbrev pub decref : Rpcs S → ℕ → Rpcs S
  decref s c = record s {
    refs = λ k. if c == k then s.refs k - 1 else s.refs k;
    deleted = λ k. if c == k && s.refs k == 1 && s.dead k then true else s.deleted k;
    overdrawn = s.overdrawn || s.refs c == 0;
  }

  abbrev pub send : Rpcs S → ℕ → Cells → ℕ → Rpcs S
  send s c b sz = record s { sent = s.sent ++ (record { conn = c; buf = b; sz = sz } ∷ []) }

  -- `none` where the assert fails that the number is free.
  unfoldable pub reg1 : Rpcs S → ℕ → Handler S → Outcome (Rpcs S)
  reg1 s proc h = elim (s.procs proc) [
    | some f ↦ aborts assertion
    | none ↦ returns (record s { procs = λ p. if proc == p then some h else s.procs p })
  ]

  unfoldable pub updatestat : Rpcs S → ℕ → Rpcs S
  updatestat s proc = record s {
    counts = λ p. if proc == p then s.counts p + 1 else s.counts p;
    curr_counts = if s.curr_counts - 1 == 0 then s.counting else s.curr_counts - 1;
  }

  -- "have i seen this client before?"
  unfoldable pub know_client : Rpcs S → ℕ → Rpcs S
  know_client s clt = elim (s.reply_window clt) [
    | none ↦ record s { reply_window = assign s.reply_window clt [] }
    | some l ↦ s
  ]

  abbrev pub set_conn : Rpcs S → ℕ → ℕ → Rpcs S
  set_conn s clt c = record s { conns = λ k. if clt == k then some c else s.conns k }

  -- "save the latest good connection to the client"
  unfoldable pub save_conn : Rpcs S → ℕ → ℕ → Rpcs S
  save_conn s clt c = elim (s.conns clt) [
    | none ↦ set_conn (incref s c) clt c
    | some d ↦ if d == c then s else set_conn (incref (decref s d) c) clt c
  ]

  -- "get the latest connection to the client": the connection to answer on. `conns_[clt]` is NULL
  -- for a client with no saved connection.
  unfoldable pub latest_conn : Rpcs S → ℕ → ℕ → Outcome (ℕ × Rpcs S)
  latest_conn s clt c =
      if s.dead c
      then elim (s.conns clt) [
        | none ↦ aborts null_pointer
        | some d ↦ if d == c then returns (c, s) else returns (d, incref (decref s c) d)
      ]
      else returns (c, s)

  unfoldable pub send_bare : Rpcs S → ℕ → Cells → ℕ → ℤ → Rpcs S
  send_bare s c junk xid ret = let rep = bare_reply junk xid ret in send s c rep.buf rep.ind

  -- "only record replies for clients that require at-most-once logic"
  unfoldable pub record_reply : Rpcs S → ReqHeader → Cells → ℕ → Outcome (Rpcs S)
  record_reply s h b sz =
      if ltb 0 h.clt_nonce
      then elim (add_reply s.reply_window h.clt_nonce h.xid b sz) [
        | none ↦ aborts out_of_range
        | some w ↦ returns (record s { reply_window = w })
      ]
      else returns s

  -- The end of `case NEW`: the assert on what the handler returned, the reply saved and sent. Given
  -- back are the connection that holds the job's reference now, and the state.
  unfoldable pub answer : Rpcs S → ReqHeader → ℕ → ℤ → Cells → ℕ → Outcome (ℕ × Rpcs S)
  answer s h c ret b1 sz1 = elim (is_allowed ret) [
    | false ↦ aborts assertion
    | true ↦ do
      s1 ← record_reply s h b1 sz1
      (d, s2) ← latest_conn s1 h.clt_nonce c
      returns (d, send s2 d b1 sz1)
  ]

  -- `case NEW`
  unfoldable pub run_handler :
      Rpcs S → ReqHeader → ℕ → Cells → Handler S → Unmarshall → Outcome (ℕ × Rpcs S)
  unfolding take_buf
  run_handler s h c junk f req =
      let s1 = if s.counting == 0 then s else updatestat s h.proc in
      let (ret, rep, app) = f s1.app req (marshall junk) in
      let taken = (take_buf (pack_reply_header rep (record { xid = h.xid; ret = ret }))).0 in
      answer (record s1 { app = app }) h c ret taken.0 taken.1

  -- `case DONE` sends the saved bytes.
  unfoldable pub resend : Rpcs S → ℕ → Option (Option Cells × ℕ) → Rpcs S
  resend s c none = s
  resend s c (some (none, sz)) = s
  resend s c (some (some b, sz)) = send s c b sz

  -- The switch over the four verdicts.
  unfoldable pub act :
      Rpcs S → ReqHeader → ℕ → Cells → Handler S → Unmarshall → Verdict → Outcome (ℕ × Rpcs S)
  act s h c junk f req v = elim v.stat [
    | new ↦ run_handler s h c junk f req
    | inprogress ↦ returns (c, s)
    | done ↦ returns (c, resend s c v.saved)
    | forgotten ↦ returns (c, send_bare s c junk h.xid atmostonce_failure)
  ]

  -- What is known of the client before the switch, and the verdict.
  unfoldable pub admit : Rpcs S → ReqHeader → ℕ → Verdict × Rpcs S
  unfolding know_client save_conn
  admit s h c =
      if h.clt_nonce == 0
      then (record { stat = new; saved = none }, s)
      else (let s1 = save_conn (know_client s h.clt_nonce) h.clt_nonce c in
          let (v, w) = checkduplicate_and_update s1.reply_window h.clt_nonce h.xid h.xid_rep in
          (v, record s1 { reply_window = w }))

  -- "is client sending to an old instance of server?"
  abbrev pub is_old : Rpcs S → ReqHeader → Bool
  is_old s h = not (h.srv_nonce == 0) && not (h.srv_nonce == s.nonce)

  -- rpcs::dispatch behind the unmarshalling of the header. The branch for an old server instance
  -- returns with the reference on `c` kept.
  unfoldable pub serve : Rpcs S → ℕ → ReqHeader → Unmarshall → Cells → Outcome (Rpcs S)
  serve s c h req junk =
      if not req.is_ok
      then returns (decref s c)
      else if is_old s h
      then returns (send_bare s c junk h.xid oldsrv_failure)
      else (elim (s.procs h.proc) [
        | none ↦ returns (decref s c)
        | some f ↦
            let (v, s1) = admit s h c in act s1 h c junk f req v >>= λ r. returns (decref r.1 r.0)
      ])

  -- rpcs::dispatch on the message `b` of `sz` bytes from connection `c`; `junk` is what malloc gives
  -- for the reply.
  unfoldable pub dispatch : Rpcs S → ℕ → Cells → ℕ → Cells → Outcome (Rpcs S)
  unfolding serve
  dispatch s c b sz junk =
      let (h, req) = unpack_req_header (unmarshall b sz) in serve s c h req junk

  -- rpcs::got_pdu, up to the thread pool: the job's reference, given back if the pool is full.
  unfoldable pub got_pdu : Rpcs S → ℕ → Bool → Bool × Rpcs S
  got_pdu s c succ = (succ, if succ then incref s c else decref (incref s c) c)

-- rpcs::rpcbind, the handler for `bind`: the server's nonce is its result.
unfoldable pub rpcbind : {S : Type 0} → ℕ → S → ℤ → ℤ → ℤ × ℤ × S
rpcbind nonce app a r = (pos 0, signed32 nonce, app)
