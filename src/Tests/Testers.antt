-- ===== src/Tests/Testers.antt =====
-- Runs of the lock tester and of the lock client.
use yfs_lab.Prelude.{ℕ, ◌≡◌, ◌≢◌, ◌≤◌, ◌⊎◌, refl, List, [], ◌∷◌, true, false, some, arith, length}
use yfs_lab.Prelude.Int.{ℤ, pos}
use yfs_lab.Prelude.Memory.{Cells}
use yfs_lab.Prelude.Outcome.{returns, aborts, assertion}
use yfs_lab.Marshall.{marshall, put_int, put_uint, put_uchar, pack_reply_header, pack, rawbyte}
use yfs_lab.Unmarshall.{unmarshall, unpack_reply_header}
use yfs_lab.Codec.Types.{int_codec}
use yfs_lab.Rpcc.{call_m}
use yfs_lab.LockServer.{
  LockServer, lock_server, no_client, release, enter, test, test_state, find, store,
}
use yfs_lab.LockServer.Exclusion.{entered, tested, run-IsServer}
use yfs_lab.LockServer.Exclusion
use yfs_lab.LockServer.Holder.{holder}
use yfs_lab.LockClient.{release_result}
use yfs_lab.LockClient.Replies.{reply_of, release_replied}
use yfs_lab.LockTester.{Testing, testing, threads, Event, acted, run}
use yfs_lab.LockTester.Owners.{owners}
use yfs_lab.LockTester.Passes.{IsQuiet, test_passes}

abbrev numbers : ℕ → ℤ
numbers i = pos i

numbers-real : (i : ℕ) → numbers i ≢ no_client
numbers-real i e = cc

new-IsQuiet : IsQuiet lock_server (λ x. 0)
unfolding holder find
new-IsQuiet = record {
  sound = record { healthy = tt; counted = refl };
  unheld = refl;
  none_granted = refl;
}

-- The first thread takes the lock and the second one waits for it.
abbrev contended : List Event
contended =
    acted 0 ∷ acted 1 ∷ acted 0 ∷ acted 1 ∷ acted 0 ∷ acted 0 ∷ acted 0 ∷ acted 1 ∷ acted 1 ∷ []

test_passes_example :
    ((s : Testing) × (run (testing lock_server (λ x. 0) (threads numbers 10 0 2)) contended
        ≡ returns s)
      × (length (owners s.testers) ≤ 1))
    ⊎ ((run (testing lock_server (λ x. 0) (threads numbers 10 0 2)) contended ≡ aborts assertion)
        × (false ≡ true))
test_passes_example =
    test_passes lock_server (λ x. 0) numbers 10 2 contended new-IsQuiet numbers-real

-- Client 9 has lock 5.
abbrev held_by_9 : LockServer
held_by_9 = Exclusion.run lock_server (entered 5 ∷ tested (pos 9) 5 ∷ [])

abbrev zeros : Cells
zeros i = 0

-- Client 8 releases it.
release_replied_example :
    let h = reply_of 1 (release held_by_9 (pos 8) 5).0 in
    let m = pack_reply_header (int_codec.put (marshall zeros) (pos 0)) h in
    let (h', u) = unpack_reply_header (unmarshall m.buf m.ind) in
    ((holder held_by_9 5 ≡ some (pos 8))
      × (release_result (call_m int_codec h'.ret u) ≡ returns (pos 0)))
    ⊎ ((holder held_by_9 5 ≢ some (pos 8))
        × (release_result (call_m int_codec h'.ret u) ≡ aborts assertion))
unfolding marshall pack_reply_header pack rawbyte put_int put_uint put_uchar release find store
    enter test test_state Exclusion.run
release_replied_example =
    release_replied held_by_9 (pos 8) 5 1 zeros
      (pack_reply_header (int_codec.put (marshall zeros) (pos 0))
        (reply_of 1 (release held_by_9 (pos 8) 5).0)).buf
      (pos 0) (λ e. absurd (cc e))
      (run-IsServer lock_server (entered 5 ∷ tested (pos 9) 5 ∷ []) (tt, ((λ e. absurd (cc e)), tt))
        (record { healthy = tt; counted = refl }))
      (omega arith) (omega arith) (record { same = λ j lo hi. refl; small = omega arith })
