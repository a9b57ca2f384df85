-- ===== src/Rpcs/Outcomes.antt =====
-- What `dispatch` does to the server's object, the reply windows and the connection.
use yfs_lab.Prelude.{
  ℕ, ◌≡◌, ◌≢◌, refl, sym, ap, subst, ◌∙◌, [], ◌∷◌, ◌++◌, true, false, some, arith,
}
use yfs_lab.Prelude.Memory.{Cells}
use yfs_lab.Marshall.{Marshall, ReqHeader, marshall, pack_reply_header}
use yfs_lab.Unmarshall.{Unmarshall}
use yfs_lab.ReplyWindow.{
  RpcState, new, inprogress, done, forgotten, Windows, Verdict, assign, replies,
  checkduplicate_and_update, save_reply,
}
use yfs_lab.ReplyWindow.Checks.{entry, reply_entry, after_reply, after_reply_lem, new_window}
use yfs_lab.Rpcs.Branches.{serve_known}
use yfs_lab.Rpcs.Admission.{
  result, reply_of, counted, counted_same, answer_known, admit_conns, admit_same, admit_check,
  admit_verdict, entry-admit,
}
use yfs_lab.Rpcs.{
  Rpcs, Handler, returns, ◌>>=◌, decref, know_client, run_handler, resend, send_bare, act, admit,
  serve, is_old, is_allowed, atmostonce_failure,
}

-- A request that reaches the switch: its header is complete, it is for this instance, its procedure
-- is registered with the handler `f`, and its client wants at-most-once.
pub record Reaches {S : Type 0} (s : Rpcs S) (h : ReqHeader) (req : Unmarshall) (f : Handler S)
    : Type 0 where
  pub good : req.is_ok ≡ true
  pub young : is_old s h ≡ false
  pub known : s.procs h.proc ≡ some f
  pub client : h.clt_nonce ≢ 0

module _ {S : Type 0} (s : Rpcs S) (c : ℕ) (h : ReqHeader) (req : Unmarshall) (junk : Cells)
    (f : Handler S) (r : Reaches s h req f) where
  abbrev pub s1 : Rpcs S
  s1 = (admit s h c).1

  -- The windows' verdict on the request.
  abbrev pub verdict : Verdict
  verdict = (checkduplicate_and_update s.reply_window h.clt_nonce h.xid h.xid_rep).0

  admitted_list :
      verdict.stat ≡ new → s1.reply_window h.clt_nonce ≡ some (replies s1.reply_window h.clt_nonce)
  admitted_list e =
      let check = admit_check s h c r.client in
      subst (λ w. w h.clt_nonce ≡ some (replies w h.clt_nonce)) (sym check.1)
        (new_window (know_client s h.clt_nonce).reply_window h.clt_nonce h.xid h.xid_rep
          (cc (check.0, admit_verdict s h c r.client)))

  -- The state after the handler has run and its reply has been saved and sent.
  abbrev pub answered_state : Rpcs S
  answered_state = record (counted s1 h) {
    app = (result (counted s1 h) junk f req).2;
    reply_window = assign (counted s1 h).reply_window h.clt_nonce (
        save_reply h.xid (reply_of (counted s1 h) h junk f req).buf
          (reply_of (counted s1 h) h junk f req).ind (replies s1.reply_window h.clt_nonce));
    sent =
        (counted s1 h).sent
        ++ (record {
          conn = c;
          buf = (reply_of (counted s1 h) h junk f req).buf;
          sz = (reply_of (counted s1 h) h junk f req).ind;
        }
            ∷ []);
  }

  pub same_app : (counted s1 h).app ≡ s.app
  same_app = (counted_same s1 h).0 ∙ (admit_same s h c).0

  run_new :
      is_allowed (result s junk f req).0 ≡ true
      → verdict.stat ≡ new
      → run_handler s1 h c junk f req ≡ returns (c, answered_state)
  unfolding run_handler
  run_new ok e =
      answer_known (record (counted s1 h) { app = (result (counted s1 h) junk f req).2 }) h c _ _ _
        (replies s1.reply_window h.clt_nonce)
        (subst (λ a. is_allowed (f a req (marshall junk)).0 ≡ true) (sym same_app) ok) r.client
        (ap (λ w. w h.clt_nonce) (counted_same s1 h).1 ∙ admitted_list e)
        (ap (λ w. w h.clt_nonce) (counted_same s1 h).2 ∙ admit_conns s h c r.client)

  pub serve_new :
      is_allowed (result s junk f req).0 ≡ true
      → verdict.stat ≡ new
      → serve s c h req junk ≡ returns (decref answered_state c)
  unfolding act
  serve_new ok e =
      let stat : (admit s h c).0.stat ≡ new = ap (λ v. v.stat) (admit_verdict s h c r.client) ∙ e in
      serve_known s c h req junk r.good f r.young r.known ∙ rw (stat, act, run_new ok e)

  -- The reply as packed when the handler runs on the object `a`.
  abbrev pub packed : S → Marshall
  packed a =
      pack_reply_header (f a req (marshall junk)).1
        (record { xid = h.xid; ret = (f a req (marshall junk)).0 })

  pub answered_sent :
      answered_state.sent
      ≡ s.sent
        ++ (record {
          conn = c;
          buf = (reply_of s h junk f req).buf;
          sz = (reply_of s h junk f req).ind;
        }
            ∷ [])
  answered_sent = λ i.
      ((counted_same s1 h).4 ∙ (admit_same s h c).1) i
      ++ (record { conn = c; buf = (packed (same_app i)).buf; sz = (packed (same_app i)).ind } ∷ [])

  -- The windows after the dispatch, as those after the two steps of the history.
  abbrev pub stepped : Windows
  stepped =
      after_reply (checkduplicate_and_update s.reply_window h.clt_nonce h.xid h.xid_rep).1
        h.clt_nonce h.xid (reply_of s h junk f req).buf (reply_of s h junk f req).ind

  answered_window :
      verdict.stat ≡ new
      → answered_state.reply_window
        ≡ after_reply s1.reply_window h.clt_nonce h.xid
            (reply_of s h junk f req).buf
            (reply_of s h junk f req).ind
  answered_window e =
      (λ i. assign ((counted_same s1 h).1 i) h.clt_nonce (
        save_reply h.xid (packed (same_app i)).buf (packed (same_app i)).ind
          (replies s1.reply_window h.clt_nonce)))
      ∙ sym (after_reply_lem s1.reply_window h.clt_nonce h.xid _ _ _ (admitted_list e))

  pub answered_entry :
      verdict.stat ≡ new → (x y : ℕ) → entry answered_state.reply_window x y ≡ entry stepped x y
  answered_entry e x y =
      ap (λ w. entry w x y) (answered_window e)
      ∙ ground (
        arith,
        reply_entry s1.reply_window h.clt_nonce h.xid (reply_of s h junk f req).buf
            (reply_of s h junk f req).ind x y,
        entry-admit s h c x y r.client,
        reply_entry (checkduplicate_and_update s.reply_window h.clt_nonce h.xid h.xid_rep).1
            h.clt_nonce h.xid (reply_of s h junk f req).buf (reply_of s h junk f req).ind x y,
      )

  -- What a duplicate leaves: nothing is sent for one in progress.
  abbrev pub duplicate_state : RpcState → Rpcs S
  duplicate_state new = s1
  duplicate_state inprogress = s1
  duplicate_state done = resend s1 c verdict.saved
  duplicate_state forgotten = send_bare s1 c junk h.xid atmostonce_failure

  pub serve_duplicate :
      (st : RpcState)
      → verdict.stat ≡ st
      → st ≢ new
      → serve s c h req junk ≡ returns (decref (duplicate_state st) c)
  unfolding act
  serve_duplicate st e n =
      let same = admit_verdict s h c r.client in
      serve_known s c h req junk r.good f r.young r.known
      ∙ by_stat st e n (ap (λ v. v.stat) same ∙ e) same
    where
      by_stat :
          (st : RpcState)
          → verdict.stat ≡ st
          → st ≢ new
          → (admit s h c).0.stat ≡ st
          → (admit s h c).0 ≡ verdict
          → (act s1 h c junk f req (admit s h c).0 >>= λ q. returns (decref q.1 q.0))
            ≡ returns (decref (duplicate_state st) c)
      by_stat new e n a q = absurd (n refl)
      by_stat inprogress e n a q = rw (a, act)
      by_stat done e n a q = ground (arith)
      by_stat forgotten e n a q = rw (a, act)
