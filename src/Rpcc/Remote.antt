-- ===== src/Rpcc/Remote.antt =====
-- A request on its whole way: rpcc::call packs it, one connection sends it, the other end's connection
-- receives it, and the server's handler reads it.
use yfs_lab.Prelude.{
  ℕ, ◌+◌, ◌-◌, ◌≤◌, ◌≡◌, sym, ap, ◌∙◌, subst, List, [], ◌∷◌, true, Option, arith, length,
}
use yfs_lab.Prelude.Int.{ℤ}
use yfs_lab.Prelude.Memory.{Cells, memcpy, slice, memcpy-At, slice-At, length-slice}
use yfs_lab.Prelude.Outcome.{returns}
use yfs_lab.Marshall.{ReqHeader, marshall, pack_req_header, rpc_header_sz}
use yfs_lab.Unmarshall.{unmarshall, unpack_req_header}
use yfs_lab.Unmarshall.Header.{InRange}
use yfs_lab.Codec.{Codec}
use yfs_lab.Rpcs.Handlers.{handler_fn}
use yfs_lab.Rpcc.{call}
use yfs_lab.Connection.{Connection, connection, max_pdu}
use yfs_lab.Connection.Stream.{Channel, receive_all, taking}
use yfs_lab.Connection.Delivery.{busy}
use yfs_lab.Connection.Pieces.{framed}
use yfs_lab.Connection.Link.{IsSendable, send_jobs, sent_received, framed-Arrives}
use yfs_lab.Rpcc.EndToEnd.{request_size, call-handler_fn}

-- A buffer that holds a message which the connection handed over.
abbrev pub pdu_buf : Cells → List ℕ → Cells
pdu_buf junk pdu = memcpy junk 0 pdu

-- The one message of a connection, as it stands in a buffer.
pdu_buf-slice :
    (junk : Cells) (pdu : List ℕ) (n : ℕ) → length pdu ≡ n → slice (pdu_buf junk pdu) 0 n ≡ pdu
pdu_buf-slice junk pdu n e =
    ap (λ k. slice (pdu_buf junk pdu) 0 k) (sym e)
    ∙ slice-At (pdu_buf junk pdu) 0 pdu (memcpy-At junk 0 pdu)

length-framed : (b : Cells) (sz : ℕ) → 4 ≤ sz → length (framed b sz) ≡ sz
length-framed b sz h = omega (arith, h, length-slice b 4 (sz - 4))

-- A request of no more than MAX_PDU that rpcc::call packs, with arguments that fit their types and a
-- header of 32-bit words, and that `send` takes to its end, in any pieces, on a new connection: the
-- other end's connection, reading in any pieces that do not cut the size, hands over one message when
-- enough calls found bytes and its manager takes the message, and the header that the server reads in it is the one of the call, and
-- the handler runs its method once, on the very arguments of the call, and packs its result.
pub request_delivered :
    {S A R : Type 0} (args : Codec A) (res : Codec R) (r0 : R) (meth : S → A → R → ℤ × R × S)
    (s : S) (junk junk' pad : Cells) (a : A) (h : ReqHeader) (first : Option ℕ)
    (later : List (Option ℕ)) (c : Connection) (ks : List ℕ)
    → args.Fits a
    → InRange h
    → rpc_header_sz + length (args.encode a) ≤ max_pdu
    → send_jobs connection (
        record {
          b = (pack_req_header (call args junk a) h).buf;
          sz = (pack_req_header (call args junk a) h).ind;
          first = first;
          later = later;
        }
        ∷ [])
      ≡ returns (true, c)
    → length c.wire ≤ busy ks
    → (ch : Channel) × (pdu : List ℕ) × (receive_all
          (record { conn = connection; stream = c.wire })
          junk
          (taking ks)
        ≡ returns ch)
      × (ch.conn.taken ≡ pdu ∷ [])
      × (let (h', u) = unpack_req_header (unmarshall (pdu_buf pad pdu) (length pdu)) in
          (h' ≡ h)
          × (handler_fn args res r0 meth s u (marshall junk')
              ≡ ((meth s a r0).0, res.put (marshall junk') (meth s a r0).1, (meth s a r0).2)))
request_delivered args res r0 meth s junk junk' pad a h first later c ks f r small sent enough =
    let m = pack_req_header (call args junk a) h in
    let size = request_size args junk a h f in
    let sendable : IsSendable (record { b = m.buf; sz = m.ind; first = first; later = later }) =
      record { header = omega (arith, size); small = omega (arith, size, small) } in
    let got =
      sent_received (record { b = m.buf; sz = m.ind; first = first; later = later } ∷ []) c junk ks
        (sendable, tt) sent enough in
    let pdu = framed m.buf m.ind in
    let long = length-framed m.buf m.ind (omega (arith, size)) in
    let arrives =
      framed-Arrives m (pdu_buf pad pdu) (omega (arith, size)) (omega (arith, size, small))
        (pdu_buf-slice pad pdu m.ind long) in
    (
      got.0,
      pdu,
      got.1,
      got.2,
      subst
          (λ n.
            let (h', u) = unpack_req_header (unmarshall (pdu_buf pad pdu) n) in
            (h' ≡ h)
            × (handler_fn args res r0 meth s u (marshall junk')
                ≡ ((meth s a r0).0, res.put (marshall junk') (meth s a r0).1, (meth s a r0).2)))
          (sym long)
          (call-handler_fn args res r0 meth s junk junk' a h (pdu_buf pad pdu) f r arrives),
    )
