-- ===== src/ReplyWindow/Entries.antt =====
-- Lists of replies: which entries stay, which entry `find_if` gives.
use yfs_lab.Prelude.{
  ℕ, ◌≤◌, ◌≡◌, refl, List, [], ◌∷◌, ◌++◌, true, none, some, arith, All, ltb, ◌==◌, if◌then◌else◌,
}
use yfs_lab.Prelude.Memory.{Cells}
use yfs_lab.ReplyWindow.{Reply, reply_t, remove_confirmed, find_reply, save_reply}

-- Removal keeps exactly the entries from `xid_rep` on.
pub find_reply-remove_confirmed :
    (xid xid_rep : ℕ) (l : List Reply)
    → find_reply xid (remove_confirmed xid_rep l)
      ≡ (if ltb xid xid_rep then none else find_reply xid l)
unfolding find_reply remove_confirmed
find_reply-remove_confirmed xid xid_rep [] = ground arith
find_reply-remove_confirmed xid xid_rep (r ∷ l) =
    ground (arith, find_reply-remove_confirmed xid xid_rep l)

pub remove_confirmed-All :
    (xid_rep : ℕ) (l : List Reply) → All (λ r. xid_rep ≤ r.xid) (remove_confirmed xid_rep l)
unfolding remove_confirmed
remove_confirmed-All xid_rep [] = tt
remove_confirmed-All xid_rep (r ∷ l) = ground (arith, remove_confirmed-All xid_rep l)

pub find_reply-append_new :
    (xid y : ℕ) (l : List Reply)
    → find_reply xid (l ++ (reply_t y ∷ [])) ≡ (elim (find_reply xid l) [
      | some r ↦ some r
      | none ↦ if y == xid then some (reply_t y) else none
    ])
unfolding find_reply
find_reply-append_new xid y [] = ground arith
find_reply-append_new xid y (r ∷ l) = ground (arith, find_reply-append_new xid y l)

-- A saved reply is found under its own xid, and no other entry changes.
pub find_reply-save_reply :
    (xid y : ℕ) (b : Cells) (sz : ℕ) (l : List Reply)
    → find_reply xid (save_reply y b sz l) ≡ (elim (find_reply xid l) [
      | some r ↦
          some (if y == xid then record r { cb_present = true; buf = some b; sz = sz } else r)
      | none ↦ none
    ])
unfolding find_reply save_reply
find_reply-save_reply xid y b sz [] = refl
find_reply-save_reply xid y b sz (r ∷ l) = ground (arith, find_reply-save_reply xid y b sz l)
