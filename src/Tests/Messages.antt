-- ===== src/Tests/Messages.antt =====
-- Messages that are written and read.
use yfs_lab.Prelude.{
  ℕ, zero, suc, ◌+◌, ◌<◌, ◌≡◌, refl, List, [], ◌∷◌, true, false, some, arith, length, ltb,
}
use yfs_lab.Prelude.Int.{ℤ, pos}
use yfs_lab.Prelude.Memory.{Cells, memcpy, memcpy-At, slice}
use yfs_lab.Prelude.Wire.{be32}
use yfs_lab.Marshall.{
  Marshall, ReqHeader, ReplyHeader, marshall, pack_req_header, rawbyte, pack, put_uint, put_uchar,
}
use yfs_lab.Marshall.Writes.{encode_vector}
use yfs_lab.Unmarshall.{Unmarshall, unmarshall, unpack_req_header, get_string}
use yfs_lab.Unmarshall.Header.{InRange}
use yfs_lab.Unmarshall.Hostile.{get_string_overrun}
use yfs_lab.Codec.Types.{uint_codec}
use yfs_lab.Codec.Maps.{encode_entry}
use yfs_lab.Rpcs.Handlers.{handler_fn}
use yfs_lab.Rpcc.{call}
use yfs_lab.Prelude.Outcome.{returns}
use yfs_lab.Connection.{Connection, connection, send_round}
use yfs_lab.Connection.Stream.{Channel, receive_all, taking}
use yfs_lab.Connection.Pieces.{framed}
use yfs_lab.Connection.Link.{send_jobs}
use yfs_lab.Rpcc.Remote.{pdu_buf, request_delivered}
use yfs_lab.Rpcc.EndToEnd.{call-handler_fn}

abbrev zeros : Cells
zeros i = 0

abbrev word : List ℕ
word = 104 ∷ 105 ∷ []

-- A message of `n` bytes with `bs` at offset 24, where the reader stands.
abbrev reader : List ℕ → ℕ → Unmarshall
reader bs n = record (unmarshall (memcpy zeros 24 bs) n) { ind = 24 }

strict : (a b : ℕ) → ltb a b ≡ true → ltb b a ≡ false
strict a b h = ground arith

-- A map from two words to two others, as it stands in a message.
abbrev two : List (ℕ × ℕ)
two = (3, 30) ∷ (5, 50) ∷ []

abbrev two_bytes : List ℕ
two_bytes = encode_vector (encode_entry ltb strict uint_codec uint_codec) two

-- A message of 28 bytes whose string says that it has 2^32 - 8.
abbrev huge : ℕ
huge = 4_294_967_288

get_string_overrun_example :
    ((get_string (reader (be32 huge) 28)).1.is_ok ≡ true)
    × (28 < 24 + 4 + length (get_string (reader (be32 huge) 28)).0)
unfolding unmarshall
get_string_overrun_example =
    get_string_overrun (reader (be32 huge) 28) huge (omega arith) refl
      (record { room = omega arith; small = omega arith; bytes = memcpy-At zeros 24 (be32 huge) })
      (omega arith)

abbrev req : ReqHeader
req = record { xid = 1; proc = 2; clt_nonce = 9; srv_nonce = 77; xid_rep = 0 }

req-InRange : InRange req
req-InRange = record {
  xid = omega arith;
  proc = omega arith;
  clt_nonce = omega arith;
  srv_nonce = omega arith;
  xid_rep = omega arith;
}

abbrev reply : ReplyHeader
reply = record { xid = 1; ret = pos 3 }

-- The method adds its argument to the object, and its result is one more.
abbrev add : ℕ → ℕ → ℕ → ℤ × ℕ × ℕ
add s a r = (pos 3, a + 1, s + a)

call-handler_fn_example :
    let m = pack_req_header (call uint_codec zeros 5) req in
    let (h, u) = unpack_req_header (unmarshall m.buf m.ind) in
    (h ≡ req)
    × (handler_fn uint_codec uint_codec 0 add 10 u (marshall zeros)
        ≡ (pos 3, put_uint (marshall zeros) 6, 15))
unfolding marshall pack_req_header pack rawbyte call put_uint put_uchar
call-handler_fn_example =
    call-handler_fn uint_codec uint_codec 0 add 10 zeros zeros 5 req
      (pack_req_header (call uint_codec zeros 5) req).buf (omega arith) req-InRange
      (record { same = λ j lo hi. refl; small = omega arith })

-- As many calls as there are bytes of the request.
abbrev ones : ℕ → List ℕ
ones zero = []
ones (suc n) = 1 ∷ ones n

abbrev packed : Marshall
packed = pack_req_header (call uint_codec zeros 5) req

-- The socket takes the request at once.
abbrev sent : Connection
sent = record connection { wire = framed packed.buf packed.ind }

packed-sent :
    send_jobs connection
      (record { b = packed.buf; sz = packed.ind; first = some 99; later = [] } ∷ [])
    ≡ returns (true, sent)
unfolding send_jobs send_round memcpy slice marshall pack_req_header pack rawbyte call put_uint
    put_uchar
packed-sent = refl

request_delivered_example :
    (ch : Channel) × (pdu : List ℕ) × (receive_all
        (record { conn = connection; stream = sent.wire })
        zeros
        (taking (ones 28))
      ≡ returns ch)
    × (ch.conn.taken ≡ pdu ∷ [])
    × (let (h, u) = unpack_req_header (unmarshall (pdu_buf zeros pdu) (length pdu)) in
        (h ≡ req)
        × (handler_fn uint_codec uint_codec 0 add 10 u (marshall zeros)
            ≡ (pos 3, put_uint (marshall zeros) 6, 15)))
unfolding put_uint put_uchar slice marshall pack_req_header pack rawbyte call
request_delivered_example =
    request_delivered uint_codec uint_codec 0 add 10 zeros zeros zeros 5 req (some 99) [] sent
      (ones 28) (omega arith) req-InRange (omega arith) packed-sent (omega arith)
