-- ===== src/Tests/Channels.antt =====
-- Runs of the connections of one client.
use yfs_lab.Prelude.{ℕ, ◌≡◌, refl, ap, List, [], ◌∷◌, true, none, some, arith, inl, some_inj}
use yfs_lab.Prelude.Int.{pos}
use yfs_lab.Prelude.Outcome.{returns}
use yfs_lab.Connection.{Connection, connection, incref, decref, destroy}
use yfs_lab.Rpcc.Channels.{
  Store, Channels, channels, put, load, get_refconn, renew_chan, share_chan, is_stale,
  connect_to_dst, drop_ref, decref_at, incref_at, destroy_rpcc,
}
use yfs_lab.Rpcc.Channels.Histories.{
  Event, entered, acted, changed, refers, begins_send, ends_send, takes_out, leaves, act, change,
  refer, begin_send, end_send, erase_call, leave, step, run, IsBalanced,
}
use yfs_lab.Rpcc.Channels.Lifetimes.{AllAllowed, run_counts, destroyed_all}

abbrev broken : Connection
broken = record connection { dead = true }

-- A call sends on a connection that dies, and again on another one.
abbrev resending : List Event
resending =
    entered
    ∷ acted 0 (refers true)
    ∷ acted 0 begins_send
    ∷ changed 0 (record broken { refno = pos 2 })
    ∷ acted 0 ends_send
    ∷ acted 0 (refers true)
    ∷ acted 0 takes_out
    ∷ acted 0 leaves
    ∷ []

-- The store with the first connection, which is dead.
abbrev first_dead : Store
first_dead =
    put (put (put (λ k. none) 0 (some connection)) 0 (some (incref connection))) 0
      (some (record broken { refno = pos 2 }))

only_one : (y : ℕ) (c : Connection) → first_dead y ≡ some c → c.wpdu.buf ≡ none
unfolding put
only_one y c e = ground arith

resending-AllAllowed : AllAllowed channels resending
unfolding channels step act change refer begin_send end_send erase_call leave get_refconn renew_chan
    share_chan is_stale connect_to_dst drop_ref decref_at incref_at load put incref decref destroy
resending-AllAllowed = (
  tt,
  (
    tt,
    (
      tt,
      (
        λ before e. (ap (λ c. c.refno) (some_inj e), λ d. refl, inl refl),
        (λ y c t e f. inl (only_one y c e), (tt, (tt, (tt, tt)))),
      ),
    ),
  ),
)

run_counts_example : (r : Channels) × (run channels resending ≡ returns r) × IsBalanced r
run_counts_example = run_counts resending resending-AllAllowed

-- The first connection is deleted, and the second is chan_.
abbrev last_store : Store
last_store =
    put
      (put (put (put (put first_dead 0 (some broken)) 1 (some connection)) 0 none) 1
        (some (incref connection)))
      1 (some connection)

abbrev behind : Channels
behind = record { store = last_store; next = 2; chan = some 1; threads = [] }

destroyed_all_example : (s : Store) × (destroy_rpcc behind ≡ returns s) × ((y : ℕ) → s y ≡ none)
unfolding run step act refer begin_send end_send erase_call leave change get_refconn renew_chan
    is_stale channels drop_ref share_chan connect_to_dst incref_at load put decref_at decref incref
    destroy
destroyed_all_example = destroyed_all resending behind resending-AllAllowed refl refl
