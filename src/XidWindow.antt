-- ===== src/XidWindow.antt =====
-- rpc/rpc.h: rpcc::xid_rep_window_; rpc/rpc.cc: rpcc::update_xid_rep.
--
-- The window is the std::list from `front()` on: `front()` is its head. It is never empty, since
-- rpcc::rpcc puts 0 into it.
pub mod Order
pub mod Received
use yfs_lab.Prelude.{
  ℕ, ◌+◌, ◌%◌, ◌^◌, List, [], ◌∷◌, ◌++◌, Bool, true, false, ltb, leb, ◌==◌, if◌then◌else◌,
}

-- `front()`; the window that the code leaves is never empty.
abbrev pub front : List ℕ → ℕ
front [] = 0
front (x ∷ xs) = x

-- The first loop: `xid` goes before the first element above it, or to the end.
unfoldable pub insert_xid : ℕ → List ℕ → List ℕ
insert_xid xid [] = xid ∷ []
insert_xid xid (x ∷ l) = if ltb xid x then xid ∷ x ∷ l else x ∷ insert_xid xid l

-- `while (front() + 1 == *it) pop_front()`, where `pre` holds the elements before `it`. It ends at
-- `it` at the latest, since `front()` is `*it` there.
unfoldable pub pop_fronts : ℕ → List ℕ → List ℕ
pop_fronts x [] = []
pop_fronts x (p ∷ pre) =
    let rest = pop_fronts x pre in if (p + 1) % 2 ^ 32 == x then rest else p ∷ pre

-- The loop at `compress`, from the element `it` on.
unfoldable pub compress : List ℕ → List ℕ → List ℕ
compress pre [] = pre
compress pre (x ∷ post) = compress (pop_fronts x pre ++ (x ∷ [])) post

-- `it` starts behind the front.
unfoldable pub compress_window : List ℕ → List ℕ
compress_window [] = []
compress_window (x ∷ l) = compress (x ∷ []) l

unfoldable pub update_xid_rep : List ℕ → ℕ → List ℕ
unfolding compress_window
update_xid_rep w xid = if leb xid (front w) then w else compress_window (insert_xid xid w)
