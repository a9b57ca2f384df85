-- ===== src/Rpcs/Admission.antt =====
-- The steps of `dispatch` around the handler: what `admit` finds, and what `answer` does.
use yfs_lab.Prelude.{
  ℕ, ◌≡◌, ◌≢◌, ap, ◌∙◌, List, [], ◌∷◌, ◌++◌, true, none, some, arith, ◌==◌, if◌then◌else◌,
}
use yfs_lab.Prelude.Int.{ℤ}
use yfs_lab.Prelude.Memory.{Cells}
use yfs_lab.Marshall.{Marshall, ReqHeader, marshall, pack_reply_header}
use yfs_lab.Unmarshall.{Unmarshall}
use yfs_lab.ReplyWindow.{
  new, Reply, assign, find_reply, checkduplicate_and_update, add_reply, save_reply,
}
use yfs_lab.ReplyWindow.Checks.{entry, check_verdict, check_entry}
use yfs_lab.Rpcs.{
  Rpcs, Handler, returns, aborts, null_pointer, know_client, latest_conn, record_reply, answer,
  admit, updatestat, is_allowed,
}

module _ {S : Type 0} where
  -- What the handler gives on the server's object.
  abbrev pub result : Rpcs S → Cells → Handler S → Unmarshall → ℤ × Marshall × S
  result s junk f req = f s.app req (marshall junk)

  -- The packed reply.
  abbrev pub reply_of : Rpcs S → ReqHeader → Cells → Handler S → Unmarshall → Marshall
  reply_of s h junk f req =
      let r = result s junk f req in pack_reply_header r.1 (record { xid = h.xid; ret = r.0 })

  abbrev pub counted : Rpcs S → ReqHeader → Rpcs S
  counted s h = if s.counting == 0 then s else updatestat s h.proc

  pub counted_same :
      (s : Rpcs S) (h : ReqHeader)
      → ((counted s h).app ≡ s.app)
        × ((counted s h).reply_window ≡ s.reply_window)
        × ((counted s h).conns ≡ s.conns)
        × ((counted s h).dead ≡ s.dead)
        × ((counted s h).sent ≡ s.sent)
        × ((counted s h).refs ≡ s.refs)
  unfolding updatestat
  counted_same s h = ground arith

  -- `case NEW` for a client that is known, and whose connection `c` is.
  pub answer_known :
      (s : Rpcs S) (h : ReqHeader) (c : ℕ) (ret : ℤ) (b : Cells) (sz : ℕ) (l : List Reply)
      → is_allowed ret ≡ true
      → h.clt_nonce ≢ 0
      → s.reply_window h.clt_nonce ≡ some l
      → s.conns h.clt_nonce ≡ some c
      → answer s h c ret b sz
        ≡ returns (
          c,
          record s {
            reply_window = assign s.reply_window h.clt_nonce (save_reply h.xid b sz l);
            sent = s.sent ++ (record { conn = c; buf = b; sz = sz } ∷ []);
          },
        )
  unfolding answer record_reply latest_conn add_reply
  answer_known s h c ret b sz l ok nz w k = ground arith

  -- `case NEW` for nonce 0, where `conns_[0]` is NULL and the job's connection has died.
  pub answer_null :
      (s : Rpcs S) (h : ReqHeader) (c : ℕ) (ret : ℤ) (b : Cells) (sz : ℕ)
      → is_allowed ret ≡ true
      → h.clt_nonce ≡ 0
      → s.conns 0 ≡ none
      → s.dead c ≡ true
      → answer s h c ret b sz ≡ aborts null_pointer
  unfolding answer record_reply latest_conn
  answer_null s h c ret b sz ok zero k dead = ground arith

  pub entry-know_client :
      (s : Rpcs S) (clt x y : ℕ)
      → entry (know_client s clt).reply_window x y ≡ entry s.reply_window x y
  unfolding know_client find_reply
  entry-know_client s clt x y = ground arith

  pub admit_conns :
      (s : Rpcs S) (h : ReqHeader) (c : ℕ)
      → h.clt_nonce ≢ 0
      → (admit s h c).1.conns h.clt_nonce ≡ some c
  unfolding admit
  admit_conns s h c nz = ground arith

  pub admit_zero :
      (s : Rpcs S) (h : ReqHeader) (c : ℕ)
      → h.clt_nonce ≡ 0
      → admit s h c ≡ (record { stat = new; saved = none }, s)
  unfolding admit
  admit_zero s h c zero = ground arith

  pub admit_same :
      (s : Rpcs S) (h : ReqHeader) (c : ℕ)
      → ((admit s h c).1.app ≡ s.app)
        × ((admit s h c).1.sent ≡ s.sent)
        × ((admit s h c).1.dead ≡ s.dead)
  unfolding admit
  admit_same s h c = ground arith

  -- The check is made on the windows with the client's list created.
  pub admit_check :
      (s : Rpcs S) (h : ReqHeader) (c : ℕ)
      → h.clt_nonce ≢ 0
      → ((admit s h c).0
          ≡ (checkduplicate_and_update
              (know_client s h.clt_nonce).reply_window
              h.clt_nonce
              h.xid
              h.xid_rep).0)
        × ((admit s h c).1.reply_window
            ≡ (checkduplicate_and_update
                (know_client s h.clt_nonce).reply_window
                h.clt_nonce
                h.xid
                h.xid_rep).1)
  unfolding admit
  admit_check s h c nz = ground arith

  pub admit_verdict :
      (s : Rpcs S) (h : ReqHeader) (c : ℕ)
      → h.clt_nonce ≢ 0
      → (admit s h c).0 ≡ (checkduplicate_and_update s.reply_window h.clt_nonce h.xid h.xid_rep).0
  admit_verdict s h c nz = cc (
    (admit_check s h c nz).0,
    check_verdict (know_client s h.clt_nonce).reply_window h.clt_nonce h.xid h.xid_rep,
    check_verdict s.reply_window h.clt_nonce h.xid h.xid_rep,
    entry-know_client s h.clt_nonce h.clt_nonce h.xid,
  )

  pub entry-admit :
      (s : Rpcs S) (h : ReqHeader) (c x y : ℕ)
      → h.clt_nonce ≢ 0
      → entry (admit s h c).1.reply_window x y
        ≡ entry (checkduplicate_and_update s.reply_window h.clt_nonce h.xid h.xid_rep).1 x y
  entry-admit s h c x y nz =
      ap (λ w. entry w x y) (admit_check s h c nz).1
      ∙ check_entry (know_client s h.clt_nonce).reply_window h.clt_nonce h.xid h.xid_rep x y
      ∙ ground (
        arith,
        entry-know_client s h.clt_nonce x y,
        check_entry s.reply_window h.clt_nonce h.xid h.xid_rep x y,
      )
