-- ===== src/Connection.antt =====
-- rpc/connection.h and rpc/connection.cc: class connection and the buffers of its messages.
--
-- The functions under m_ are one step each; `send`, which waits twice, is `send_start`, rounds of
-- `send_round`, and then rounds of `send_wait`. Where its first write fails, `send` gives up m_ around
-- block_remove_fd; what others do meanwhile is left out, since the connection is dead then. What a
-- system call gives is an argument: a `Write` of write(2) and a `Read` of read(2). The calls of
-- PollMgr are in `calls`, latest first; `signals` counts the signals of send_complete_; `wire` holds
-- the bytes that write(2) took, and `taken` the messages that the manager's got_pdu consumed.
pub mod Frames
pub mod Receive
pub mod Stream
pub mod Delivery
pub mod Pieces
pub mod Writing
pub mod Transmit
pub mod Finishing
pub mod Link
pub mod Closing
pub mod Accepting
use yfs_lab.Prelude.{
  ℕ, zero, suc, ◌+◌, ◌-◌, ◌%◌, ◌^◌, List, [], ◌∷◌, ◌++◌, Bool, true, false, not, ◌&&◌, ◌||◌, Option,
  none, some, length, ltb, leb, ◌==◌, if◌then◌else◌,
}
use yfs_lab.Prelude.Int.{ℤ, pos, negsuc, signed32, suc_int, pred_int}
use yfs_lab.Prelude.Memory.{Cells, memcpy, slice}
use yfs_lab.Prelude.Wire.{be32, from_be32}
use yfs_lab.Prelude.Outcome.{Outcome, returns, aborts, ◌>>=◌, assertion, null_pointer, overrun}

-- 10M
abbrev pub max_pdu : ℕ
max_pdu = 10_485_760

-- charbuf; `failed` says that `solong` is -1.
pub record Charbuf : Type 0 where
  pub buf : Option Cells
  pub sz : ℕ
  pub solong : ℕ
  pub failed : Bool

-- charbuf()
abbrev pub charbuf : Charbuf
charbuf = record { buf = none; sz = 0; solong = 0; failed = false }

pub data Call : Type 0 where
  add_read_callback add_write_callback del_write_callback del_callbacks block_remove : Call

pub record Connection : Type 0 where
  pub dead : Bool
  pub wpdu : Charbuf
  pub rpdu : Charbuf
  pub waiters : ℕ
  pub refno : ℤ
  pub calls : List Call
  pub signals : ℕ
  pub wire : List ℕ
  pub taken : List (List ℕ)

-- connection(): a read callback is registered.
abbrev pub connection : Connection
connection = record {
  dead = false;
  wpdu = charbuf;
  rpdu = charbuf;
  waiters = 0;
  refno = pos 1;
  calls = add_read_callback ∷ [];
  signals = 0;
  wire = [];
  taken = [];
}

-- What write(2) gives: a number of bytes that it took, EAGAIN, or another error.
pub data Write : Type 0 where
  wrote : ℕ → Write
  not_now : Write
  broken : Write

-- The size is put into the buffer before its first byte is written.
abbrev pub with_size : Charbuf → Cells → Cells
with_size w b = if w.solong == 0 then memcpy b 0 (be32 w.sz) else b

abbrev pub write_buf : Connection → Cells → Write → Bool × Connection
write_buf c b (wrote n) = (
  true,
  record c {
    wpdu = record c.wpdu { buf = some b; solong = c.wpdu.solong + n };
    wire = c.wire ++ slice b c.wpdu.solong n;
  },
)
write_buf c b not_now = (true, record c { wpdu = record c.wpdu { buf = some b } })
write_buf c b broken =
    (false, record c { wpdu = record c.wpdu { buf = some b; sz = 0; failed = true } })

abbrev pub write_from : Connection → Option Cells → Write → Outcome (Bool × Connection)
write_from c none r = aborts null_pointer
write_from c (some b) r = returns (write_buf c (with_size c.wpdu b) r)

unfoldable pub writepdu : Connection → Write → Outcome (Bool × Connection)
writepdu c r =
    if c.wpdu.failed
    then aborts assertion
    else if c.wpdu.solong == c.wpdu.sz
    then returns (true, c)
    else write_from c c.wpdu.buf r

-- send, up to its first loop.
unfoldable pub send_start : Connection → Connection
send_start c = record c { waiters = c.waiters + 1 }

-- `!dead_ && wpdu_.buf`
abbrev pub must_queue : Connection → Bool
must_queue c = elim c.wpdu.buf [ none ↦ false | some b ↦ not c.dead ]

-- Where a thread of `send` stands behind a step: it waits on send_wait_, or on send_complete_, or has
-- returned.
pub data Sending : Type 0 where
  queues : Sending
  completes : Sending
  ends : Bool → Sending

-- The end of `send`.
unfoldable pub send_end : Connection → Sending × Connection
send_end c = (
  ends (not c.dead && not c.wpdu.failed && c.wpdu.solong == c.wpdu.sz),
  record c { wpdu = charbuf },
)

-- `wpdu_.solong >= 0 && wpdu_.solong < wpdu_.sz`
abbrev pub is_partial : Charbuf → Bool
is_partial w = not w.failed && ltb w.solong w.sz

-- The second loop: one test.
unfoldable pub send_wait : Connection → Sending × Connection
unfolding send_end
send_wait c = if not c.dead && is_partial c.wpdu then (completes, c) else send_end c

abbrev pub call : Connection → Call → Connection
call c k = record c { calls = k ∷ c.calls }

-- What follows the first writepdu of a message.
unfoldable pub send_written : Bool × Connection → Sending × Connection
unfolding send_end send_wait
send_written (false, c) = send_end (call (record c { dead = true }) block_remove)
send_written (true, c) =
    if not c.wpdu.failed && c.wpdu.solong == c.wpdu.sz
    then send_end c
    else send_wait (call c add_write_callback)

-- The first loop of `send`, one test, and what follows it.
unfoldable pub send_round : Connection → Cells → ℕ → Write → Outcome (Sending × Connection)
unfolding writepdu send_written
send_round c b sz r =
    let c1 = record c { waiters = c.waiters - 1 } in
    if must_queue c
    then returns (queues, c)
    else if c.dead
    then returns (ends false, c1)
    else (writepdu
          (record c1 { wpdu = record { buf = some b; sz = sz; solong = 0; failed = false } }) r
        >>= λ q. returns (send_written q))

abbrev pub signal : Connection → Connection
signal c = record c { signals = c.signals + 1 }

-- The end of write_cb, behind writepdu.
unfoldable pub write_cb_written : Bool × Connection → Connection
write_cb_written (false, c) = signal (call (record c { dead = true }) del_callbacks)
write_cb_written (true, c) = if ltb c.wpdu.solong c.wpdu.sz then c else signal c

unfoldable pub write_cb : Connection → Write → Outcome Connection
unfolding writepdu write_cb_written
write_cb c r =
    if c.dead
    then aborts assertion
    else if c.wpdu.sz == 0
    then returns (call c del_write_callback)
    else (writepdu c r >>= λ q. returns (write_cb_written q))

-- What read(2) gives: the bytes that it put, the end of the stream, EAGAIN, or another error. At the
-- end of the stream errno is not set, so that it may say EAGAIN from before.
pub data Read : Type 0 where
  got : List ℕ → Read
  ended : (was_again : Bool) → Read
  again : Read
  failed : Read

-- The `int` sz as a size_t of 64 bits.
abbrev pub size_pattern : ℤ → ℕ
size_pattern (pos n) = n
size_pattern (negsuc n) = 2 ^ 64 - suc n

-- `sz + sizeof(sz)`
abbrev pub malloc_size : ℤ → ℕ
malloc_size z = (size_pattern z + 4) % 2 ^ 64

-- malloc gives nothing where more than PTRDIFF_MAX bytes are asked for; elsewhere it is taken to give
-- what is asked for.
abbrev pub malloc_fails : ℕ → Bool
malloc_fails n = leb (2 ^ 63) n

-- `sz > MAX_PDU`
abbrev pub is_too_big : ℤ → Bool
is_too_big (pos n) = ltb max_pdu n
is_too_big (negsuc n) = false

-- The part of readpdu from the test of the size on: malloc(sz + sizeof(sz)), its assert, and the copy
-- of the four bytes of the size, which overruns a buffer of less. `rpdu_.sz` is a natural number
-- here, since no negative size gets behind the copy: `size_pattern` is the size itself there.
unfoldable pub allocate : Connection → List ℕ → Cells → ℤ → Outcome (Bool × Connection)
allocate c bs junk z = if is_too_big z then returns (false, c) else (elim c.rpdu.buf [
  | some b ↦ aborts assertion
  | none ↦
      if malloc_fails (malloc_size z)
      then aborts assertion
      else if ltb (malloc_size z) 4
      then aborts overrun
      else returns (
        true,
        record c {
          rpdu = record {
            buf = some (memcpy junk 0 bs);
            sz = size_pattern z;
            solong = 4;
            failed = false;
          };
        },
      )
])

-- The first part of readpdu, for a new message.
unfoldable pub read_size : Connection → Cells → Read → Outcome (Bool × Connection)
unfolding allocate
read_size c junk (got bs) = elim (from_be32 bs) [
  | none ↦ returns (false, c)
  | some w ↦ allocate c bs junk (signed32 w)
]
read_size c junk (ended e) = returns (false, c)
read_size c junk again = aborts assertion
read_size c junk failed = returns (false, c)

abbrev pub drop_pdu : Connection → Connection
drop_pdu c = record c { rpdu = charbuf }

abbrev pub read_buf : Connection → Option Cells → List ℕ → Outcome (Bool × Connection)
read_buf c none bs = aborts null_pointer
read_buf c (some b) bs = returns (
  true,
  record c {
    rpdu = record c.rpdu {
      buf = some (memcpy b c.rpdu.solong bs);
      solong = c.rpdu.solong + length bs;
    };
  },
)

-- The second part, by what read(2) gave.
abbrev pub rest_read : Connection → Read → Outcome (Bool × Connection)
rest_read c (got bs) = read_buf c c.rpdu.buf bs
rest_read c (ended e) = if e then returns (true, c) else returns (false, drop_pdu c)
rest_read c again = returns (true, c)
rest_read c failed = returns (false, drop_pdu c)

-- The second part. A message of less than four bytes makes the count `rpdu_.sz - rpdu_.solong`
-- negative, which is more than SSIZE_MAX as a size_t; read(2) gives an error for it.
unfoldable pub read_rest : Connection → Read → Outcome (Bool × Connection)
read_rest c r = rest_read c (if ltb c.rpdu.sz c.rpdu.solong then failed else r)

unfoldable pub readpdu : Connection → Cells → Read → Read → Outcome (Bool × Connection)
unfolding read_size read_rest
readpdu c junk r1 r2 =
    if c.rpdu.sz == 0
    then (do
      (ok, c1) ← read_size c junk r1
      elim ok [ true ↦ read_rest c1 r2 | false ↦ returns (false, c1) ])
    else read_rest c r2

-- The end of read_cb, where `consumes` is what the manager's got_pdu returns.
unfoldable pub hand_over : Connection → Option Cells → Bool → Connection
hand_over c none consumes = c
hand_over c (some b) consumes =
    if c.rpdu.sz == c.rpdu.solong && consumes
    then record c { rpdu = charbuf; taken = c.taken ++ (slice b 0 c.rpdu.sz ∷ []) }
    else c

unfoldable pub read_cb_read : Bool × Connection → Bool → Connection
unfolding hand_over
read_cb_read (true, c) consumes = hand_over c c.rpdu.buf consumes
read_cb_read (false, c) consumes =
    hand_over (signal (call (record c { dead = true }) del_callbacks)) c.rpdu.buf consumes

-- `!rpdu_.buf || rpdu_.solong < rpdu_.sz`
abbrev pub needs_bytes : Charbuf → Bool
needs_bytes r = elim r.buf [ none ↦ true | some b ↦ ltb r.solong r.sz ]

unfoldable pub read_cb : Connection → Cells → Read → Read → Bool → Outcome Connection
unfolding readpdu read_cb_read
read_cb c junk r1 r2 consumes =
    if c.dead
    then returns c
    else if needs_bytes c.rpdu
    then (readpdu c junk r1 r2 >>= λ q. returns (read_cb_read q consumes))
    else returns (read_cb_read (true, c) consumes)

-- closeconn, its block under m_ and its call behind it.
unfoldable pub closeconn : Connection → Connection
closeconn c = if c.dead then c else call (record c { dead = true }) block_remove

unfoldable pub incref : Connection → Connection
incref c = record c { refno = suc_int c.refno }

-- The destructor, where the connection is deleted; it ends the connection.
unfoldable pub destroy : Connection → Outcome (Option Connection)
destroy c =
    if not c.dead
    then aborts assertion
    else (elim c.wpdu.buf [ none ↦ returns none | some b ↦ aborts assertion ])

-- decref: `none` where the connection is deleted.
unfoldable pub decref : Connection → Outcome (Option Connection)
unfolding destroy
decref c =
    let c1 = record c { refno = pred_int c.refno } in
    elim c1.refno [
      | negsuc n ↦ aborts assertion
      | pos zero ↦ if c.dead then destroy c1 else returns (some c1)
      | pos (suc n) ↦ returns (some c1)
    ]
