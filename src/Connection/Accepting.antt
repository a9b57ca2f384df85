-- ===== src/Connection/Accepting.antt =====
-- rpc/connection.h and rpc/connection.cc: class tcpsconn, the connections that a server has accepted.
--
-- `conns` is the std::map conns_, from descriptors to connections, as the list of its entries. accept
-- gives a descriptor that no connection in the map holds open: a connection keeps its own open until
-- it is deleted. The connections here are those of the map; other threads change them between calls.
pub mod Collecting
use yfs_lab.Prelude.{ℕ, List, [], ◌∷◌, Bool, ◌&&◌, Option, none, some, ◌==◌, if◌then◌else◌}
use yfs_lab.Prelude.Int.{ℤ, pos, same_int}
use yfs_lab.Prelude.Outcome.{Outcome, returns, ◌>>=◌}
use yfs_lab.Connection.{Connection, connection, closeconn, decref}

pub record Tcpsconn : Type 0 where
  pub conns : List (ℕ × Connection)

-- connection::isdead
abbrev pub isdead : Connection → Bool
isdead c = c.dead

-- connection::ref
abbrev pub ref : Connection → ℤ
ref c = c.refno

-- `i->second->isdead() && i->second->ref() == 1`
abbrev pub is_garbage : Connection → Bool
is_garbage c = isdead c && same_int (ref c) (pos 1)

-- The loop of process_accept over the map: the entries that it keeps, and what decref leaves of each
-- connection that it erases from the map, `none` where that is deleted.
abbrev pub Collected : Type 0
Collected = List (ℕ × Connection) × List (ℕ × Option Connection)

unfoldable pub collect : List (ℕ × Connection) → Outcome Collected
collect [] = returns ([], [])
collect (e ∷ es) =
    if is_garbage e.1
    then (decref e.1 >>= λ o. collect es >>= λ r. returns (r.0, (e.0, o) ∷ r.1))
    else (collect es >>= λ r. returns (e ∷ r.0, r.1))

-- `conns_[fd] = ch`; a connection that was there is left without a word.
unfoldable pub put_conn : ℕ → Connection → List (ℕ × Connection) → List (ℕ × Connection)
put_conn fd ch [] = (fd, ch) ∷ []
put_conn fd ch (e ∷ es) =
    let rest = put_conn fd ch es in if e.0 == fd then (fd, ch) ∷ es else e ∷ rest

-- process_accept, where accept(2) gives `fd`.
unfoldable pub process_accept : Tcpsconn → ℕ → Outcome (Tcpsconn × List (ℕ × Option Connection))
unfolding collect put_conn
process_accept t fd =
    collect t.conns >>= λ r. returns (record { conns = put_conn fd connection r.0 }, r.1)

-- The loop of the destructor: the connections that are left behind it.
unfoldable pub close_all : List (ℕ × Connection) → Outcome (List (ℕ × Option Connection))
close_all [] = returns []
close_all (e ∷ es) =
    decref (closeconn e.1) >>= λ o. close_all es >>= λ rest. returns ((e.0, o) ∷ rest)
