-- ===== src/Tests/Connections.antt =====
-- Connections that send and receive.
use yfs_lab.Prelude.{
  ℕ, ◌+◌, ◌-◌, ◌^◌, ◌≤◌, ◌<◌, ◌≡◌, refl, List, [], ◌∷◌, ◌++◌, true, false, none, some, arith,
}
use yfs_lab.Prelude.{All}
use yfs_lab.Prelude.Memory.{Cells, memcpy, slice}
use yfs_lab.Prelude.Outcome.{returns, ◌>>=◌, aborts, assertion, overrun}
use yfs_lab.Connection.{
  Connection, connection, got, ended, again, add_write_callback, del_callbacks, write_cb,
  send_round, read_cb, read_rest, read_cb_read, max_pdu,
}
use yfs_lab.Connection.Frames.{IsFrame}
use yfs_lab.Connection.Stream.{Channel, receive_all, taking}
use yfs_lab.Connection.Delivery.{before, receive_all_order, receive_all_complete}
use yfs_lab.Connection.Pieces.{framed, write_all, send_pieces}
use yfs_lab.Connection.Transmit.{Sent, send_pieces-Sent}
use yfs_lab.Connection.Link.{Job, frames, send_jobs, IsSendable, sent_received}
use mathlib.Core.Option.{Option}
use yfs_lab.Prelude.Int.{ℤ, pos}
use yfs_lab.Connection.Accepting.{Tcpsconn, put_conn, process_accept}
use yfs_lab.Connection.Accepting.Collecting.{IsHeld, IsKept, process_accept-IsKept}
use yfs_lab.Connection.{ends}
use yfs_lab.Connection.Finishing.{send_pieces-ends}
use yfs_lab.Connection.Receive.{begun}
use yfs_lab.Connection.Closing.{read_cb-signals, read_cb_sizes}

abbrev zeros : Cells
zeros i = 0

-- A message of six bytes, and one of five.
abbrev six : List ℕ
six = 0 ∷ 0 ∷ 0 ∷ 6 ∷ 104 ∷ 105 ∷ []

abbrev five : List ℕ
five = 0 ∷ 0 ∷ 0 ∷ 5 ∷ 33 ∷ []

six-IsFrame : IsFrame six
six-IsFrame = record {
  rest = 104 ∷ 105 ∷ [];
  bytes = refl;
  more = omega arith;
  small = omega arith;
}

five-IsFrame : IsFrame five
five-IsFrame = record { rest = 33 ∷ []; bytes = refl; more = omega arith; small = omega arith }

-- Nothing, a byte, another byte, and the second message.
abbrev cuts : List ℕ
cuts = 0 ∷ 1 ∷ 1 ∷ 9 ∷ []

receive_all_order_example :
    (ch : Channel) × (rest : List (List ℕ)) × (receive_all
        (before (six ∷ five ∷ []))
        zeros
        (taking cuts)
      ≡ returns ch)
    × (ch.conn.dead ≡ false)
    × (ch.conn.taken ++ rest ≡ six ∷ five ∷ [])
receive_all_order_example =
    receive_all_order (six ∷ five ∷ []) zeros cuts (six-IsFrame, (five-IsFrame, tt))

-- More calls than there are bytes.
abbrev many : List ℕ
many = 1 ∷ 1 ∷ 1 ∷ 1 ∷ 1 ∷ 1 ∷ 1 ∷ 1 ∷ 1 ∷ 1 ∷ 1 ∷ []

receive_all_complete_example :
    (ch : Channel) × (receive_all (before (six ∷ five ∷ [])) zeros (taking many) ≡ returns ch)
    × (ch.conn.taken ≡ six ∷ five ∷ [])
receive_all_complete_example =
    receive_all_complete (six ∷ five ∷ []) zeros many (six-IsFrame, (five-IsFrame, tt))
      (omega arith)

abbrev letters : Cells
letters = memcpy zeros 4 (104 ∷ 105 ∷ [])

-- The socket takes one byte at once, then nothing, and then the rest.
send_pieces-Sent_example :
    Sent [] (framed letters 6) (send_pieces connection letters 6 (some 1) (some 0 ∷ some 9 ∷ []))
send_pieces-Sent_example =
    send_pieces-Sent connection letters 6 (some 1) (some 0 ∷ some 9 ∷ []) refl refl (omega arith)

abbrev job : Job
job = record { b = letters; sz = 6; first = some 1; later = some 0 ∷ some 9 ∷ [] }

job-IsSendable : IsSendable job
job-IsSendable = record { header = omega arith; small = omega arith }

-- The connection behind the job.
abbrev sent : Connection
sent = record connection { calls = add_write_callback ∷ connection.calls; signals = 1; wire = six }

job-sent : send_jobs connection (job ∷ []) ≡ returns (true, sent)
unfolding send_jobs send_round write_all write_cb memcpy slice
job-sent = refl

sent_received_example :
    (ch : Channel) × (receive_all
        (record { conn = connection; stream = sent.wire })
        zeros
        (taking many)
      ≡ returns ch)
    × (ch.conn.taken ≡ frames (job ∷ []))
sent_received_example =
    sent_received (job ∷ []) sent zeros many (job-IsSendable, tt) job-sent (omega arith)

-- A connection whose other end has gone.
abbrev gone : Connection
gone = record connection { dead = true; signals = 1; calls = del_callbacks ∷ connection.calls }

read_cb-ended : read_cb connection zeros (ended false) again true ≡ returns gone
unfolding read_cb
read_cb-ended = refl

read_cb-signals_example : gone.signals ≡ connection.signals + 1
read_cb-signals_example =
    read_cb-signals connection gone zeros (ended false) again true refl read_cb-ended refl

-- The four bytes of -1.
abbrev minus_one : List ℕ
minus_one = 255 ∷ 255 ∷ 255 ∷ 255 ∷ []

read_cb_sizes_example :
    (4_294_967_295 ≤ max_pdu
      → read_cb connection zeros (got minus_one) again true ≡ (
          read_rest (begun connection zeros minus_one 4_294_967_295) again >>= λ q.
          returns (read_cb_read q true)))
    × (max_pdu < 4_294_967_295
        → 4_294_967_295 < 2 ^ 31
        → (c' : Connection) × (read_cb connection zeros (got minus_one) again true ≡ returns c')
          × (c'.dead ≡ true)
          × (c'.signals ≡ 1))
    × (2 ^ 31 ≤ 4_294_967_295
        → 4_294_967_295 < 2 ^ 32 - 4
        → read_cb connection zeros (got minus_one) again true ≡ aborts assertion)
    × (2 ^ 32 - 4 ≤ 4_294_967_295
        → read_cb connection zeros (got minus_one) again true ≡ aborts overrun)
read_cb_sizes_example =
    read_cb_sizes connection zeros minus_one 4_294_967_295 again true refl refl refl (omega arith)

-- Two connections that have ended, one of which a thread still refers to, and one that is alive.
abbrev over : ℤ → Connection
over n = record connection { dead = true; refno = n }

abbrev three : Tcpsconn
three = record { conns = (6, over (pos 1)) ∷ (7, over (pos 2)) ∷ (8, connection) ∷ [] }

three-IsHeld : All IsHeld three.conns
three-IsHeld = (
  record { count = 0; refs = refl; idle = λ g. refl },
  (
    record { count = 1; refs = refl; idle = λ g. refl },
    (record { count = 0; refs = refl; idle = λ g. refl }, tt),
  ),
)

process_accept-IsKept_example :
    (process_accept three 6
      ≡ returns (
        record { conns = put_conn 6 connection ((7, over (pos 2)) ∷ (8, connection) ∷ []) },
        (6, none) ∷ [],
      ))
    × All IsKept (put_conn 6 connection ((7, over (pos 2)) ∷ (8, connection) ∷ []))
process_accept-IsKept_example = process_accept-IsKept three 6 three-IsHeld

-- Six times a byte.
abbrev byte : Option ℕ
byte = some 1

send_pieces-ends_example :
    (c : Connection) × (send_pieces connection letters 6 byte
        (byte ∷ byte ∷ byte ∷ byte ∷ byte ∷ [])
      ≡ returns (ends true, c))
    × (c.dead ≡ false)
    × (c.wire ≡ [] ++ framed letters 6)
send_pieces-ends_example =
    send_pieces-ends connection letters 6 byte (byte ∷ byte ∷ byte ∷ byte ∷ byte ∷ []) refl refl
      (omega arith) (0, refl) ((0, refl), ((0, refl), ((0, refl), ((0, refl), ((0, refl), tt)))))
      (omega arith)
