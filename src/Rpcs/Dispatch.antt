-- ===== src/Rpcs/Dispatch.antt =====
-- Theorems about whole dispatches.
use yfs_lab.Prelude.{
  ℕ, ◌≡◌, ◌≢◌, refl, sym, ap, subst, ◌∙◌, List, [], ◌∷◌, ◌++◌, true, false, Option, none, some,
}
use yfs_lab.Prelude.Memory.{Cells}
use yfs_lab.Marshall.{Marshall, ReqHeader, marshall, pack_reply_header}
use yfs_lab.Unmarshall.{Unmarshall, unmarshall, unpack_req_header}
use yfs_lab.ReplyWindow.{
  RpcState, new, inprogress, done, forgotten, Verdict, checkduplicate_and_update,
}
use yfs_lab.ReplyWindow.Checks.{entry}
use yfs_lab.ReplyWindow.Once.{checked, replied, run}
use yfs_lab.Rpcs.Branches.{serve_known}
use mathlib.Core.List.{append-nil}
use yfs_lab.Rpcs.Admission.{
  counted, counted_same, answer_null, admit_zero, result, reply_of, admit_same, entry-admit,
}
use yfs_lab.Rpcs.Outcomes.{
  Reaches, serve_new, serve_duplicate, answered_sent, answered_entry, duplicate_state, same_app,
}
use yfs_lab.Rpcs.{
  Rpcs, Handler, Sent, returns, aborts, null_pointer, ◌>>=◌, decref, run_handler, resend, send_bare,
  bare_reply, act, admit, serve, is_old, dispatch, is_allowed, atmostonce_failure,
}

-- The reply as packed when the handler runs on the object `a`.
abbrev packed : {S : Type 0} → Unmarshall → ReqHeader → Cells → Handler S → S → Marshall
packed u h junk f a =
    pack_reply_header (f a u (marshall junk)).1
      (record { xid = h.xid; ret = (f a u (marshall junk)).0 })

-- The header of a message, and the reader behind it.
abbrev pub header : Cells → ℕ → ReqHeader
header b sz = (unpack_req_header (unmarshall b sz)).0

abbrev pub body : Cells → ℕ → Unmarshall
body b sz = (unpack_req_header (unmarshall b sz)).1

-- The windows' verdict on a request.
abbrev pub verdict : {S : Type 0} → Rpcs S → ReqHeader → Verdict
verdict s h = (checkduplicate_and_update s.reply_window h.clt_nonce h.xid h.xid_rep).0

-- What is sent back for a request that is not taken for new.
abbrev pub resent : Verdict → ReqHeader → ℕ → Cells → RpcState → List Sent
resent v h c junk new = []
resent v h c junk inprogress = []
resent v h c junk done = elim v.saved [
  | none ↦ []
  | some (none, sz) ↦ []
  | some (some b, sz) ↦ record { conn = c; buf = b; sz = sz } ∷ []
]
resent v h c junk forgotten =
    record {
      conn = c;
      buf = (bare_reply junk h.xid atmostonce_failure).buf;
      sz = (bare_reply junk h.xid atmostonce_failure).ind;
    }
    ∷ []

-- A request with a whole header, for this server instance and a registered procedure, from a client
-- with a nonce, that is taken for new and whose handler's result passes the assert: the dispatch
-- returns; the handler has run once, on the server's object; the packed reply is sent on the
-- connection, and the windows hold what a check and then this reply leave in them.
pub dispatch_new :
    {S : Type 0} (s : Rpcs S) (c : ℕ) (b : Cells) (sz : ℕ) (junk : Cells) (f : Handler S)
    → Reaches s (header b sz) (body b sz) f
    → (verdict s (header b sz)).stat ≡ new
    → is_allowed (result s junk f (body b sz)).0 ≡ true
    → let h = header b sz in
      let rep = reply_of s h junk f (body b sz) in
      (s' : Rpcs S) × (dispatch s c b sz junk ≡ returns s')
      × (s'.app ≡ (result s junk f (body b sz)).2)
      × (s'.sent ≡ s.sent ++ (record { conn = c; buf = rep.buf; sz = rep.ind } ∷ []))
      × ((x y : ℕ)
          → entry s'.reply_window x y
            ≡ entry
                (run s.reply_window (
                  checked h.clt_nonce h.xid h.xid_rep
                  ∷ replied h.clt_nonce h.xid rep.buf rep.ind
                  ∷ []))
                x
                y)
unfolding dispatch run
dispatch_new s c b sz junk f r e ok =
    let h = header b sz in
    let u = body b sz in
    (
      _,
      serve_new s c h u junk f r ok e,
      ap (λ a. (f a u (marshall junk)).2) (same_app s c h u junk f r),
      answered_sent s c h u junk f r,
      answered_entry s c h u junk f r e,
    )

resend_app :
    {S : Type 0} (s : Rpcs S) (c : ℕ) (m : Option (Option Cells × ℕ)) → (resend s c m).app ≡ s.app
unfolding resend
resend_app s c none = refl
resend_app s c (some (none, sz)) = refl
resend_app s c (some (some b, sz)) = refl

resend_window :
    {S : Type 0} (s : Rpcs S) (c : ℕ) (m : Option (Option Cells × ℕ))
    → (resend s c m).reply_window ≡ s.reply_window
unfolding resend
resend_window s c none = refl
resend_window s c (some (none, sz)) = refl
resend_window s c (some (some b, sz)) = refl

resend_sent :
    {S : Type 0} (s : Rpcs S) (c : ℕ) (v : Verdict) (h : ReqHeader) (junk : Cells)
    → (resend s c v.saved).sent ≡ s.sent ++ resent v h c junk done
unfolding resend
resend_sent s c v h junk = by_saved v.saved v.stat
  where
    by_saved :
        (m : Option (Option Cells × ℕ)) (st : RpcState)
        → (resend s c m).sent ≡ s.sent ++ resent (record { stat = st; saved = m }) h c junk done
    by_saved none st = sym (append-nil s.sent)
    by_saved (some (none, sz)) st = sym (append-nil s.sent)
    by_saved (some (some b, sz)) st = refl

-- The state that a duplicate leaves, piece by piece.
duplicate_app :
    {S : Type 0} (s : Rpcs S) (c : ℕ) (h : ReqHeader) (u : Unmarshall) (junk : Cells)
    (f : Handler S) (r : Reaches s h u f) (st : RpcState)
    → (duplicate_state s c h u junk f r st).app ≡ s.app
unfolding resend send_bare
duplicate_app s c h u junk f r new = (admit_same s h c).0
duplicate_app s c h u junk f r inprogress = (admit_same s h c).0
duplicate_app s c h u junk f r done =
    resend_app (admit s h c).1 c (verdict s h).saved ∙ (admit_same s h c).0
duplicate_app s c h u junk f r forgotten = (admit_same s h c).0

duplicate_window :
    {S : Type 0} (s : Rpcs S) (c : ℕ) (h : ReqHeader) (u : Unmarshall) (junk : Cells)
    (f : Handler S) (r : Reaches s h u f) (st : RpcState)
    → (duplicate_state s c h u junk f r st).reply_window ≡ (admit s h c).1.reply_window
unfolding resend send_bare
duplicate_window s c h u junk f r new = refl
duplicate_window s c h u junk f r inprogress = refl
duplicate_window s c h u junk f r done = resend_window (admit s h c).1 c (verdict s h).saved
duplicate_window s c h u junk f r forgotten = refl

duplicate_sent :
    {S : Type 0} (s : Rpcs S) (c : ℕ) (h : ReqHeader) (u : Unmarshall) (junk : Cells)
    (f : Handler S) (r : Reaches s h u f) (st : RpcState)
    → (duplicate_state s c h u junk f r st).sent
      ≡ s.sent
        ++ resent
            (checkduplicate_and_update s.reply_window h.clt_nonce h.xid h.xid_rep).0
            h
            c
            junk
            st
unfolding resend send_bare
duplicate_sent s c h u junk f r new = (admit_same s h c).1 ∙ sym (append-nil s.sent)
duplicate_sent s c h u junk f r inprogress = (admit_same s h c).1 ∙ sym (append-nil s.sent)
duplicate_sent s c h u junk f r done =
    resend_sent (admit s h c).1 c (verdict s h) h junk
    ∙ ap (λ l. l ++ resent (verdict s h) h c junk done) (admit_same s h c).1
duplicate_sent s c h u junk f r forgotten =
    ap
      (λ l.
        l
        ++ (record {
          conn = c;
          buf = (bare_reply junk h.xid atmostonce_failure).buf;
          sz = (bare_reply junk h.xid atmostonce_failure).ind;
        }
            ∷ []))
      (admit_same s h c).1

-- A request with a whole header, for this server instance and a registered procedure, from a client
-- with a nonce, that is not taken for new: the dispatch returns with the server's object as it was.
-- One that is done is answered with the saved bytes, one that was confirmed with atmostonce_failure,
-- and for one in progress nothing is sent. The windows hold what the check alone leaves in them.
pub dispatch_duplicate :
    {S : Type 0} (s : Rpcs S) (c : ℕ) (b : Cells) (sz : ℕ) (junk : Cells) (f : Handler S)
    → Reaches s (header b sz) (body b sz) f
    → (verdict s (header b sz)).stat ≢ new
    → let h = header b sz in
      (s' : Rpcs S) × (dispatch s c b sz junk ≡ returns s')
      × (s'.app ≡ s.app)
      × (s'.sent ≡ s.sent ++ resent (verdict s h) h c junk (verdict s h).stat)
      × ((x y : ℕ)
          → entry s'.reply_window x y
            ≡ entry (run s.reply_window (checked h.clt_nonce h.xid h.xid_rep ∷ [])) x y)
unfolding dispatch run
dispatch_duplicate s c b sz junk f r n =
    let h = header b sz in
    let u = body b sz in
    let st = (verdict s h).stat in
    (
      _,
      serve_duplicate s c h u junk f r st refl n,
      duplicate_app s c h u junk f r st,
      duplicate_sent s c h u junk f r st,
      λ x y.
          ap (λ w. entry w x y) (duplicate_window s c h u junk f r st)
          ∙ entry-admit s h c x y r.client,
    )

-- The same, behind the header.
serve_null_pointer :
    {S : Type 0} (s : Rpcs S) (c : ℕ) (h : ReqHeader) (u : Unmarshall) (junk : Cells)
    (f : Handler S)
    → u.is_ok ≡ true
    → is_old s h ≡ false
    → s.procs h.proc ≡ some f
    → h.clt_nonce ≡ 0
    → s.conns 0 ≡ none
    → s.dead c ≡ true
    → is_allowed (result s junk f u).0 ≡ true
    → serve s c h u junk ≡ aborts null_pointer
unfolding act run_handler
serve_null_pointer s c h u junk f good young known zero none_saved dead ok =
    let same = counted_same s h in
    let stopped =
      answer_null (record (counted s h) { app = (result (counted s h) junk f u).2 }) h c
        (result (counted s h) junk f u).0 (packed u h junk f (counted s h).app).buf
        (packed u h junk f (counted s h).app).ind
        (subst (λ a. is_allowed (f a u (marshall junk)).0 ≡ true) (sym same.0) ok) zero
        (ap (λ w. w 0) same.2 ∙ none_saved) (ap (λ w. w c) same.3 ∙ dead) in
    serve_known s c h u junk good f young known
    ∙ ap (λ q. act q.1 h c junk f u q.0 >>= λ r. returns (decref r.1 r.0)) (admit_zero s h c zero)
    ∙ ap (λ o. o >>= λ r. returns (decref r.1 r.0)) stopped

-- A request with a whole header, for this server instance and a registered procedure, from a client
-- with nonce 0, for which no connection is saved: where its connection is dead when the handler has
-- returned a result that passes the assert, the dispatch dereferences NULL.
pub dispatch_null_pointer :
    {S : Type 0} (s : Rpcs S) (c : ℕ) (b : Cells) (sz : ℕ) (junk : Cells) (f : Handler S)
    → (body b sz).is_ok ≡ true
    → is_old s (header b sz) ≡ false
    → s.procs (header b sz).proc ≡ some f
    → (header b sz).clt_nonce ≡ 0
    → s.conns 0 ≡ none
    → s.dead c ≡ true
    → is_allowed (result s junk f (body b sz)).0 ≡ true
    → dispatch s c b sz junk ≡ aborts null_pointer
unfolding dispatch
dispatch_null_pointer s c b sz junk f = serve_null_pointer s c (header b sz) (body b sz) junk f
