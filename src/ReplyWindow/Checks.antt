-- ===== src/ReplyWindow/Checks.antt =====
-- What `checkduplicate_and_update` and `add_reply` do to the entry of any client and any xid.
use yfs_lab.Prelude.{
  ℕ, ◌≡◌, refl, List, true, Option, none, some, arith, ltb, leb, ◌==◌, if◌then◌else◌,
}
use yfs_lab.Prelude.Memory.{Cells}
use yfs_lab.ReplyWindow.{
  new, inprogress, done, forgotten, Reply, reply_t, Windows, replies, remove_confirmed, find_reply,
  save_reply, Verdict, checkduplicate_and_update, add_reply, assign,
}
use yfs_lab.ReplyWindow.Entries.{
  find_reply-remove_confirmed, find_reply-append_new, find_reply-save_reply,
}

-- What the window holds for one request.
abbrev pub entry : Windows → ℕ → ℕ → Option Reply
entry w clt xid = find_reply xid (replies w clt)

-- The verdict on a request, by what the window holds for it.
abbrev pub verdict_of : Option Reply → Verdict
verdict_of none = record { stat = new; saved = none }
verdict_of (some r) =
    if r.cb_present
    then record { stat = done; saved = some (r.buf, r.sz) }
    else record { stat = inprogress; saved = none }

-- The verdict is `forgotten` if the client has confirmed the request, and else goes by the window.
pub check_verdict :
    (w : Windows) (clt xid xid_rep : ℕ)
    → (checkduplicate_and_update w clt xid xid_rep).0 ≡ (
        if leb xid xid_rep
        then record { stat = forgotten; saved = none }
        else verdict_of (entry w clt xid))
unfolding checkduplicate_and_update
check_verdict w clt xid xid_rep =
    ground (arith, find_reply-remove_confirmed xid xid_rep (replies w clt))

-- The entry of any request after a check.
pub check_entry :
    (w : Windows) (c x r clt xid : ℕ)
    → entry (checkduplicate_and_update w c x r).1 clt xid ≡ (
        if c == clt
        then (if leb x r
            then entry w clt xid
            else if ltb xid r
            then none
            else elim (entry w clt xid) [
              | some e ↦ some e
              | none ↦ if x == xid then some (reply_t x) else none
            ])
        else entry w clt xid)
unfolding checkduplicate_and_update
check_entry w c x r clt xid = ground (
  arith,
  find_reply-remove_confirmed xid r (replies w c),
  find_reply-remove_confirmed x r (replies w c),
  find_reply-append_new xid x (remove_confirmed r (replies w c)),
)

-- The windows after `add_reply`, which stay where it throws.
abbrev pub after_reply : Windows → ℕ → ℕ → Cells → ℕ → Windows
after_reply w c x b sz = elim (add_reply w c x b sz) [ none ↦ w | some w' ↦ w' ]

abbrev pub answered : Reply → Cells → ℕ → Reply
answered r b sz = record r { cb_present = true; buf = some b; sz = sz }

abbrev pub replied_entry : Option Reply → ℕ → ℕ → Cells → ℕ → Option Reply
replied_entry none x xid b sz = none
replied_entry (some e) x xid b sz = some (if x == xid then answered e b sz else e)

reply_entry_at :
    (w : Windows) (c x : ℕ) (b : Cells) (sz clt xid : ℕ) (o : Option (List Reply))
    → w c ≡ o
    → entry (after_reply w c x b sz) clt xid
      ≡ (if c == clt then replied_entry (entry w clt xid) x xid b sz else entry w clt xid)
unfolding add_reply find_reply
reply_entry_at w c x b sz clt xid none e = ground arith
reply_entry_at w c x b sz clt xid (some l) e = ground (arith, find_reply-save_reply xid x b sz l)

-- The entry of any request after a reply has been saved.
pub reply_entry :
    (w : Windows) (c x : ℕ) (b : Cells) (sz clt xid : ℕ)
    → entry (after_reply w c x b sz) clt xid
      ≡ (if c == clt then replied_entry (entry w clt xid) x xid b sz else entry w clt xid)
reply_entry w c x b sz clt xid = reply_entry_at w c x b sz clt xid (w c) refl

-- A request taken for new leaves a list for its client.
pub new_window :
    (w : Windows) (clt xid xid_rep : ℕ)
    → (checkduplicate_and_update w clt xid xid_rep).0.stat ≡ new
    → (checkduplicate_and_update w clt xid xid_rep).1 clt
      ≡ some (replies (checkduplicate_and_update w clt xid xid_rep).1 clt)
unfolding checkduplicate_and_update
new_window w clt xid xid_rep e = ground arith

pub after_reply_lem :
    (w : Windows) (clt xid : ℕ) (b : Cells) (sz : ℕ) (l : List Reply)
    → w clt ≡ some l
    → after_reply w clt xid b sz ≡ assign w clt (save_reply xid b sz l)
unfolding add_reply
after_reply_lem w clt xid b sz l e = ground arith
