-- ===== src/LockClient/Replies.antt =====
-- What the lock client makes of the server's replies.
use yfs_lab.Prelude.{ℕ, ◌^◌, ◌<◌, ◌≡◌, ◌≢◌, ◌⊎◌, refl, ap, ◌∙◌, some, false, arith, inl, inr}
use yfs_lab.Prelude.Int.{ℤ, pos, IsInt32, is_negative}
use yfs_lab.Prelude.Memory.{Cells}
use yfs_lab.Prelude.Outcome.{returns, aborts, assertion}
use yfs_lab.Marshall.{marshall, ReplyHeader, pack_reply_header}
use yfs_lab.Unmarshall.{unmarshall, unpack_reply_header}
use yfs_lab.Unmarshall.Header.{Arrives}
use yfs_lab.Codec.Types.{int_codec}
use yfs_lab.Rpcc.{call_m}
use yfs_lab.Rpcc.EndToEnd.{reply-call_m}
use yfs_lab.LockServer.{Status, ok, retry, rpcerr, noent, ioerr, LockServer, no_client, release}
use yfs_lab.LockServer.Exclusion.{IsServer}
use yfs_lab.LockServer.Holder.{holder, release_cases}
use yfs_lab.LockClient.{status_code, release_result}

status_code-IsInt32 : (st : Status) → IsInt32 (status_code st)
status_code-IsInt32 ok = omega arith
status_code-IsInt32 retry = omega arith
status_code-IsInt32 rpcerr = omega arith
status_code-IsInt32 noent = omega arith
status_code-IsInt32 ioerr = omega arith

status_code-not_negative : (st : Status) → is_negative (status_code st) ≡ false
status_code-not_negative ok = refl
status_code-not_negative retry = refl
status_code-not_negative rpcerr = refl
status_code-not_negative noent = refl
status_code-not_negative ioerr = refl

-- The header of the reply that the server sends.
abbrev pub reply_of : ℕ → Status → ReplyHeader
reply_of xid st = record { xid = xid; ret = status_code st }

-- A client whose number is not -1 and that calls `release` on a well-formed server, whose reply
-- arrives whole: where the client holds the lock, lock_client::release returns OK, and where it does
-- not, its assertion fails.
pub release_replied :
    (s : LockServer) (clt : ℤ) (lid xid : ℕ) (junk b : Cells) (r : ℤ)
    → clt ≢ no_client
    → IsServer s
    → xid < 2 ^ 32
    → IsInt32 r
    → let h = reply_of xid (release s clt lid).0 in
      let m = pack_reply_header (int_codec.put (marshall junk) r) h in
      Arrives m b
      → let (h', u) = unpack_reply_header (unmarshall b m.ind) in
        ((holder s lid ≡ some clt) × (release_result (call_m int_codec h'.ret u) ≡ returns (pos 0)))
        ⊎ ((holder s lid ≢ some clt)
            × (release_result (call_m int_codec h'.ret u) ≡ aborts assertion))
unfolding release_result
release_replied s clt lid xid junk b r real v small fits arr =
    let st = (release s clt lid).0 in
    let (same, got) =
      reply-call_m int_codec junk r (reply_of xid st) b fits small (status_code-IsInt32 st)
        (status_code-not_negative st) arr in
    elim (release_cases s clt lid real v) [
      | inl (mine, good, gone) ↦
          inl (mine, ap release_result (got ∙ ap (λ x. (status_code x, some r)) good))
      | inr (other, refused) ↦
          inr (other, ap release_result (got ∙ ap (λ x. (status_code x.0, some r)) refused))
    ]
