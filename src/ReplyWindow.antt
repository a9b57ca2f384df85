-- ===== src/ReplyWindow.antt =====
-- rpc/rpc.h: rpcs::reply_t, rpcs::rpcstate_t and reply_window_; rpc/rpc.cc:
-- rpcs::checkduplicate_and_update, rpcs::add_reply, rpcs::free_reply_window.
--
-- Each operation runs under reply_window_m_, so it is one step. `reply_window_` is a function from
-- client nonces, `none` where the map has no such key.
pub mod Entries
pub mod Checks
pub mod Once
use yfs_lab.Prelude.{
  ℕ, ◌+◌, List, [], ◌∷◌, ◌++◌, Bool, true, false, Option, none, some, ltb, leb, ◌==◌, if◌then◌else◌,
}
use yfs_lab.Prelude.Memory.{Cells}

pub data RpcState : Type 0 where
  new inprogress done forgotten : RpcState

pub record Reply : Type 0 where
  pub xid : ℕ
  pub cb_present : Bool
  pub buf : Option Cells
  pub sz : ℕ

-- reply_t(xid)
abbrev pub reply_t : ℕ → Reply
reply_t xid = record { xid = xid; cb_present = false; buf = none; sz = 0 }

abbrev pub Windows : Type 0
Windows = ℕ → Option (List Reply)

abbrev pub assign : Windows → ℕ → List Reply → Windows
assign w clt l c = if clt == c then some l else w c

-- `reply_window_[clt]`, which creates an empty list for a new key.
abbrev pub replies : Windows → ℕ → List Reply
replies w clt = elim (w clt) [ none ↦ [] | some l ↦ l ]

-- The loop that removes the entries below `xid_rep`.
unfoldable pub remove_confirmed : ℕ → List Reply → List Reply
remove_confirmed xid_rep [] = []
remove_confirmed xid_rep (r ∷ l) =
    let rest = remove_confirmed xid_rep l in if ltb r.xid xid_rep then rest else r ∷ rest

-- std::find_if by xid.
unfoldable pub find_reply : ℕ → List Reply → Option Reply
find_reply xid [] = none
find_reply xid (r ∷ l) = if r.xid == xid then some r else find_reply xid l

-- What is returned: the state, and `*b` and `*sz` where they are set.
pub record Verdict : Type 0 where
  pub stat : RpcState
  pub saved : Option (Option Cells × ℕ)

-- The last part of checkduplicate_and_update, on what find_if gives in the list `l`.
unfoldable pub classify : Windows → ℕ → ℕ → List Reply → Option Reply → Verdict × Windows
classify w clt xid l (some r) =
    if r.cb_present
    then (record { stat = done; saved = some (r.buf, r.sz) }, assign w clt l)
    else (record { stat = inprogress; saved = none }, assign w clt l)
classify w clt xid l none =
    (record { stat = new; saved = none }, assign w clt (l ++ (reply_t xid ∷ [])))

unfoldable pub checkduplicate_and_update : Windows → ℕ → ℕ → ℕ → Verdict × Windows
unfolding classify
checkduplicate_and_update w clt xid xid_rep =
    let l = remove_confirmed xid_rep (replies w clt) in
    if leb xid xid_rep
    then (record { stat = forgotten; saved = none }, w)
    else classify w clt xid l (find_reply xid l)

unfoldable pub save_reply : ℕ → Cells → ℕ → List Reply → List Reply
save_reply xid b sz [] = []
save_reply xid b sz (r ∷ l) =
    if r.xid == xid
    then record r { cb_present = true; buf = some b; sz = sz } ∷ l
    else r ∷ save_reply xid b sz l

-- `none`: `reply_window_.at` throws.
unfoldable pub add_reply : Windows → ℕ → ℕ → Cells → ℕ → Option Windows
add_reply w clt xid b sz = elim (w clt) [
  | none ↦ none
  | some l ↦ some (assign w clt (save_reply xid b sz l))
]

unfoldable pub free_reply_window : Windows → Windows
free_reply_window w clt = none
