-- ===== src/Rpcc/EndToEnd.antt =====
-- One call from end to end: what rpcc::call packs, the server's handler reads, and what the handler
-- packs, rpcc::call_m reads.
use yfs_lab.Prelude.{◌+◌, ◌^◌, ◌<◌, ◌≡◌, ◌∙◌, refl, ap, true, false, some, arith, length}
use yfs_lab.Prelude.Int.{ℤ, IsInt32, is_negative}
use yfs_lab.Prelude.Memory.{Cells, At}
use yfs_lab.Marshall.{
  ReqHeader, ReplyHeader, marshall, pack_req_header, pack_reply_header, rpc_header_sz,
}
use yfs_lab.Marshall.Writes.{Appends, marshall-IsValid}
use yfs_lab.Marshall.Header.{pack_req_header_lem, pack_reply_header_lem}
use yfs_lab.Unmarshall.{Unmarshall, unmarshall, unpack_req_header, unpack_reply_header, okdone}
use yfs_lab.Unmarshall.Reads.{Next}
use yfs_lab.Unmarshall.Header.{InRange, Arrives, at_body, request_roundtrip, reply_roundtrip}
use yfs_lab.Codec.{Codec}
use yfs_lab.Rpcs.Handlers.{handler_fn, handler_fn-Next}
use yfs_lab.Rpcc.{call, call_m}

-- The body of a new message in which one value was put.
module _ {A : Type 0} (c : Codec A) (junk : Cells) (a : A) (f : c.Fits a) where
  put-body : Appends (marshall junk) (c.put (marshall junk) a) (c.encode a)
  put-body = c.put-Appends (marshall junk) a (marshall-IsValid junk) f

  body_size : (c.put (marshall junk) a).ind ≡ rpc_header_sz + length (c.encode a)
  unfolding marshall
  body_size = put-body.size

  body_bytes : At (c.put (marshall junk) a).buf rpc_header_sz (c.encode a)
  unfolding marshall
  body_bytes = put-body.written

-- How long a packed request is.
pub request_size :
    {A : Type 0} (args : Codec A) (junk : Cells) (a : A) (h : ReqHeader)
    → args.Fits a
    → (pack_req_header (call args junk a) h).ind ≡ rpc_header_sz + length (args.encode a)
unfolding call
request_size args junk a h f =
    let v = (put-body args junk a f).valid in
    ap (λ m. m.ind) (pack_req_header_lem (call args junk a) h (omega (arith, v.within, v.big)))
    ∙ body_size args junk a f

-- A request that rpcc::call packs, with arguments that fit their types and a header of 32-bit words,
-- and that arrives whole, gives the server back its header, and the handler runs its method once, on
-- the very arguments of the call, and packs the method's result.
pub call-handler_fn :
    {S A R : Type 0} (args : Codec A) (res : Codec R) (r0 : R) (meth : S → A → R → ℤ × R × S)
    (s : S) (junk junk' : Cells) (a : A) (h : ReqHeader) (b : Cells)
    → args.Fits a
    → InRange h
    → Arrives (pack_req_header (call args junk a) h) b
    → let m = pack_req_header (call args junk a) h in
      let (h', u) = unpack_req_header (unmarshall b m.ind) in
      (h' ≡ h)
      × (handler_fn args res r0 meth s u (marshall junk')
          ≡ ((meth s a r0).0, res.put (marshall junk') (meth s a r0).1, (meth s a r0).2))
unfolding call unmarshall
call-handler_fn args res r0 meth s junk junk' a h b f r arr =
    let got =
      request_roundtrip (call args junk a) h (args.encode a) b (put-body args junk a f).valid r
        (body_size args junk a f) (body_bytes args junk a f) arr in
    let v = (put-body args junk a f).valid in
    let size : (pack_req_header (call args junk a) h).ind ≡ (call args junk a).ind =
      ap (λ m. m.ind) (pack_req_header_lem (call args junk a) h (omega (arith, v.within, v.big))) in
    rw got.0 (
      refl,
      handler_fn-Next args res r0 meth s
          (at_body (unmarshall b (pack_req_header (call args junk a) h).ind)) (marshall junk') a f
          refl got.1 (omega (arith, size, body_size args junk a f)),
    )

-- The result of a reply whose body is all of the rest of the message.
call_m-Next :
    {R : Type 0} (res : Codec R) (intret : ℤ) (u : Unmarshall) (x : R)
    → res.Fits x
    → is_negative intret ≡ false
    → u.is_ok ≡ true
    → Next u (res.encode x)
    → u.ind + length (res.encode x) ≡ u.sz
    → call_m res intret u ≡ (intret, some x)
unfolding call_m okdone
call_m-Next res intret u x f p good n all = rw (res.get-Next u x f good n) (ground arith)

-- A reply whose body is one result that fits its type, with a 32-bit xid and a status that is an
-- `int` and not negative, and that arrives whole, gives the client its header, and rpcc::call_m gives
-- the caller that status and that result.
pub reply-call_m :
    {R : Type 0} (res : Codec R) (junk : Cells) (x : R) (h : ReplyHeader) (b : Cells)
    → res.Fits x
    → h.xid < 2 ^ 32
    → IsInt32 h.ret
    → is_negative h.ret ≡ false
    → Arrives (pack_reply_header (res.put (marshall junk) x) h) b
    → let m = pack_reply_header (res.put (marshall junk) x) h in
      let (h', u) = unpack_reply_header (unmarshall b m.ind) in
      (h' ≡ h) × (call_m res h'.ret u ≡ (h.ret, some x))
unfolding unmarshall
reply-call_m res junk x h b f lt r pos_ret arr =
    let got =
      reply_roundtrip (res.put (marshall junk) x) h (res.encode x) b (put-body res junk x f).valid
        lt r (body_size res junk x f) (body_bytes res junk x f) arr in
    let v = (put-body res junk x f).valid in
    let size : (pack_reply_header (res.put (marshall junk) x) h).ind
        ≡ (res.put (marshall junk) x).ind =
      ap (λ m. m.ind)
        (pack_reply_header_lem (res.put (marshall junk) x) h (omega (arith, v.within, v.big))) in
    rw got.0 (
      refl,
      call_m-Next res h.ret
          (at_body (unmarshall b (pack_reply_header (res.put (marshall junk) x) h).ind)) x f pos_ret
          refl got.1 (omega (arith, size, body_size res junk x f)),
    )
