-- ===== src/Unmarshall/Hostile.antt =====
-- `unmarshall::rawbytes` and strings on lengths that a message does not bear out.
use yfs_lab.Prelude.{ℕ, ◌+◌, ◌^◌, ◌≤◌, ◌<◌, ◌≡◌, true, false, arith, length}
use yfs_lab.Prelude.Memory.{length-slice}
use yfs_lab.Prelude.Wire.{be32}
use yfs_lab.Unmarshall.{Unmarshall, rawbytes, get_string}
use yfs_lab.Unmarshall.Reads.{Next, skip, get_uint-Next}

-- Where `_ind + n` does not wrap and nothing has failed before, a read that succeeds stays within the
-- message, and a length that goes past its end clears `ok()`.
pub rawbytes_within :
    (u : Unmarshall) (n : ℕ)
    → u.ind + n < 2 ^ 32
    → u.is_ok ≡ true
    → ((rawbytes u n).1.is_ok ≡ true → u.ind + length (rawbytes u n).0 ≤ u.sz)
      × (u.sz < u.ind + n → (rawbytes u n).1.is_ok ≡ false)
unfolding rawbytes
rawbytes_within u n h good = ground (arith, length-slice u.buf u.ind n)

rawbytes_wraps :
    (u : Unmarshall) (n : ℕ)
    → n < 2 ^ 32
    → u.ind ≤ u.sz
    → 2 ^ 32 ≤ u.ind + n
    → ((rawbytes u n).1.is_ok ≡ u.is_ok) × (length (rawbytes u n).0 ≡ n)
unfolding rawbytes
rawbytes_wraps u n h in_message wraps = ground (arith, length-slice u.buf u.ind n)

-- Where the length word of a string in a message without a failure is so large that `_ind + n` wraps,
-- `ok()` stays set, and the string that is read goes past the end of the message.
pub get_string_overrun :
    (u : Unmarshall) (n : ℕ)
    → n < 2 ^ 32
    → u.is_ok ≡ true
    → Next u (be32 n)
    → 2 ^ 32 ≤ u.ind + 4 + n
    → ((get_string u).1.is_ok ≡ true) × (u.sz < u.ind + 4 + length (get_string u).0)
unfolding get_string
get_string_overrun u n h good next wraps =
    let r = rawbytes_wraps (skip u 4) n h next.room wraps in
    rw (get_uint-Next u n h next) (ground (arith, r, next.small, next.room))
