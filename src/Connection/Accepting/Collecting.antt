-- ===== src/Connection/Accepting/Collecting.antt =====
-- What process_accept keeps and what it deletes.
use yfs_lab.Prelude.{
  ℕ, zero, suc, ◌≡◌, refl, ap, ◌∙◌, List, [], ◌∷◌, Bool, true, false, ◌&&◌, Option, none, some, All,
  ◌==◌, if◌then◌else◌, Bool-cases, inl, inr,
}
use yfs_lab.Prelude.Int.{pos, same_int, same_int_sound}
use yfs_lab.Prelude.Outcome.{returns}
use yfs_lab.Connection.{Connection, connection, closeconn, decref, destroy}
use yfs_lab.Connection.Accepting.{
  Tcpsconn, is_garbage, collect, put_conn, process_accept, close_all,
}

-- The map's own reference is counted, and a dead connection that only the map refers to sends
-- nothing: `send` has let go of its message before the last of its callers' references goes.
pub record IsHeld (e : ℕ × Connection) : Type 0 where
  pub count : ℕ
  pub refs : e.1.refno ≡ pos (suc count)
  pub idle : is_garbage e.1 ≡ true → e.1.wpdu.buf ≡ none

-- The entries that are kept, in order.
abbrev pub live : List (ℕ × Connection) → List (ℕ × Connection)
live [] = []
live (e ∷ es) = if is_garbage e.1 then live es else e ∷ live es

-- The entries that are deleted, in order.
abbrev pub garbage : List (ℕ × Connection) → List (ℕ × Option Connection)
garbage [] = []
garbage (e ∷ es) = if is_garbage e.1 then (e.0, none) ∷ garbage es else garbage es

both_true : (a b : Bool) → (a && b) ≡ true → (a ≡ true) × (b ≡ true)
both_true true b e = (refl, e)
both_true false b e = absurd (cc e)

-- The last reference to a dead connection deletes it.
decref-garbage :
    (c : Connection) → is_garbage c ≡ true → c.wpdu.buf ≡ none → decref c ≡ returns none
unfolding decref destroy
decref-garbage c g idle =
    let p = both_true c.dead (same_int c.refno (pos 1)) g in
    let one = same_int_sound c.refno (pos 1) p.1 in rw (p.0, one, idle) refl

-- The loop deletes each dead connection that only the map refers to, and keeps the others in order.
pub collect-live :
    (es : List (ℕ × Connection)) → All IsHeld es → collect es ≡ returns (live es, garbage es)
unfolding collect
collect-live [] h = refl
collect-live (e ∷ es) h = elim (Bool-cases (is_garbage e.1)) [
  | inl g ↦ rw (collect, g, decref-garbage e.1 g (h.0.idle g), collect-live es h.1) refl
  | inr k ↦ rw (collect, k, collect-live es h.1) refl
]

-- A connection of the map that the loop has no reason to delete.
abbrev pub IsKept : ℕ × Connection → Type 0
IsKept e = IsHeld e × (is_garbage e.1 ≡ false)

live-IsKept : (es : List (ℕ × Connection)) → All IsHeld es → All IsKept (live es)
live-IsKept [] h = tt
live-IsKept (e ∷ es) h = elim (Bool-cases (is_garbage e.1)) [
  | inl g ↦ rw g (live-IsKept es h.1)
  | inr k ↦ rw k ((h.0, k), live-IsKept es h.1)
]

put_conn-IsKept :
    (fd : ℕ) (ch : Connection) (es : List (ℕ × Connection))
    → IsKept (fd, ch)
    → All IsKept es
    → All IsKept (put_conn fd ch es)
unfolding put_conn
put_conn-IsKept fd ch [] k h = (k, tt)
put_conn-IsKept fd ch (e ∷ es) k h = elim (Bool-cases (e.0 == fd)) [
  | inl same ↦ rw (put_conn, same) (k, h.1)
  | inr other ↦ rw (put_conn, other) (h.0, put_conn-IsKept fd ch es k h.1)
]

-- Where the map's reference to each of its connections is counted and none that is dead and that only
-- the map refers to holds a message, process_accept returns; decref deletes each dead connection that
-- only the map referred to, the others stay in order, the new one is entered, and behind it every
-- connection is counted again and none is left that could be deleted.
pub process_accept-IsKept :
    (t : Tcpsconn) (fd : ℕ)
    → All IsHeld t.conns
    → (process_accept t fd
        ≡ returns (record { conns = put_conn fd connection (live t.conns) }, garbage t.conns))
      × All IsKept (put_conn fd connection (live t.conns))
unfolding process_accept
process_accept-IsKept t fd h = (
  rw (collect-live t.conns h) refl,
  put_conn-IsKept fd connection (live t.conns)
      (record { count = 0; refs = refl; idle = λ g. refl }, refl) (live-IsKept t.conns h),
)

-- A connection that ended when the map lets go of it: deleted where nobody else refers to it.
abbrev pub let_go : Connection → ℕ → Option Connection
let_go c zero = none
let_go c (suc n) = some (record c { refno = pos (suc n) })

decref-let_go :
    (c : Connection) (n : ℕ)
    → c.refno ≡ pos (suc n)
    → c.dead ≡ true
    → c.wpdu.buf ≡ none
    → decref c ≡ returns (let_go c n)
unfolding decref destroy
decref-let_go c zero refs dead idle = rw (refs, dead, idle) refl
decref-let_go c (suc n) refs dead idle = rw refs refl

closed-dead : (c : Connection) → (closeconn c).dead ≡ true
unfolding closeconn
closed-dead c = elim (Bool-cases c.dead) [ inl d ↦ rw d refl | inr a ↦ rw a refl ]

closed-refno : (c : Connection) → (closeconn c).refno ≡ c.refno
unfolding closeconn
closed-refno c = elim (Bool-cases c.dead) [ inl d ↦ rw d refl | inr a ↦ rw a refl ]

closed-wpdu : (c : Connection) → (closeconn c).wpdu ≡ c.wpdu
unfolding closeconn
closed-wpdu c = elim (Bool-cases c.dead) [ inl d ↦ rw d refl | inr a ↦ rw a refl ]

-- What the destructor leaves of the connections.
abbrev pub left_over : (es : List (ℕ × Connection)) → All IsHeld es → List (ℕ × Option Connection)
left_over [] h = []
left_over (e ∷ es) h = (e.0, let_go (closeconn e.1) h.0.count) ∷ left_over es h.1

-- The destructor ends every connection, and deletes those that nobody else refers to; the others
-- have one reference less.
pub close_all-left_over :
    (es : List (ℕ × Connection)) (h : All IsHeld es)
    → All (λ e. e.1.wpdu.buf ≡ none) es
    → close_all es ≡ returns (left_over es h)
unfolding close_all
close_all-left_over [] h idle = refl
close_all-left_over (e ∷ es) h idle =
    let one =
      decref-let_go (closeconn e.1) h.0.count (closed-refno e.1 ∙ h.0.refs) (closed-dead e.1)
        (ap (λ w. w.buf) (closed-wpdu e.1) ∙ idle.0) in
    rw (close_all, one, close_all-left_over es h.1 idle.1) refl
