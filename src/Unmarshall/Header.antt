-- ===== src/Unmarshall/Header.antt =====
-- `unpack_req_header` and `unpack_reply_header` on messages that were packed, and on messages of any
-- length.
use Prim.Native.Nat.{max}
use yfs_lab.Prelude.{
  ℕ, ◌+◌, ◌^◌, ◌≤◌, ◌<◌, ◌≡◌, ◌↔◌, sym, ap, ◌∙◌, subst, List, true, false, arith, length, leb,
  if◌then◌else◌,
}
use yfs_lab.Prelude.Int.{IsInt32, to_pattern, signed32-to_pattern, to_pattern-lt}
use yfs_lab.Prelude.Memory.{Cells, memcpy, At, Agree, At-Agree, memcpy-At, memcpy-above}
use yfs_lab.Prelude.Wire.{be32}
use yfs_lab.Marshall.{
  Marshall, ReqHeader, ReplyHeader, pack_req_header, pack_reply_header, rpc_header_sz, rpc_sz_sz,
}
use yfs_lab.Marshall.Writes.{IsValid}
use yfs_lab.Marshall.Header.{req_bytes, reply_bytes, pack_req_header_lem, pack_reply_header_lem}
use yfs_lab.Unmarshall.{
  Unmarshall, unmarshall, rawbyte, unpack, unpack_req_header, unpack_reply_header,
}
use yfs_lab.Unmarshall.Reads.{
  Next, skip, get_uint-Next, unpack-eq-get_uint, Next-append_left, Next-append_right,
}

unpack-Next : (u : Unmarshall) (x : ℕ) → x < 2 ^ 32 → Next u (be32 x) → unpack u ≡ (x, skip u 4)
unpack-Next u x h n = unpack-eq-get_uint u ∙ get_uint-Next u x h n

pub record InRange (h : ReqHeader) : Type 0 where
  pub xid : h.xid < 2 ^ 32
  pub proc : h.proc < 2 ^ 32
  pub clt_nonce : h.clt_nonce < 2 ^ 32
  pub srv_nonce : h.srv_nonce < 2 ^ 32
  pub xid_rep : h.xid_rep < 2 ^ 32

-- After the header the reader stands at the body.
abbrev pub at_body : Unmarshall → Unmarshall
at_body u = record u { ind = rpc_header_sz }

pub unpack_req_header-Next :
    (u : Unmarshall) (h : ReqHeader)
    → InRange h
    → Next (record u { ind = rpc_sz_sz }) (req_bytes h)
    → unpack_req_header u ≡ (h, at_body u)
unfolding unpack_req_header
unpack_req_header-Next u h r n0 =
    let u0 = record u { ind = rpc_sz_sz } in
    let n1 = Next-append_right u0 (be32 h.xid) _ n0 in
    let n2 = Next-append_right (skip u0 4) (be32 h.proc) _ n1 in
    let n3 = Next-append_right (skip (skip u0 4) 4) (be32 h.clt_nonce) _ n2 in
    let n4 = Next-append_right (skip (skip (skip u0 4) 4) 4) (be32 h.srv_nonce) _ n3 in
    rw (
      unpack-Next u0 h.xid r.xid (Next-append_left u0 (be32 h.xid) _ n0),
      unpack-Next (skip u0 4) h.proc r.proc (Next-append_left (skip u0 4) (be32 h.proc) _ n1),
      unpack-Next (skip (skip u0 4) 4) h.clt_nonce r.clt_nonce
          (Next-append_left (skip (skip u0 4) 4) (be32 h.clt_nonce) _ n2),
      unpack-Next (skip (skip (skip u0 4) 4) 4) h.srv_nonce r.srv_nonce
          (Next-append_left (skip (skip (skip u0 4) 4) 4) (be32 h.srv_nonce) _ n3),
      unpack-Next (skip (skip (skip (skip u0 4) 4) 4) 4) h.xid_rep r.xid_rep n4,
    )

pub unpack_reply_header-Next :
    (u : Unmarshall) (h : ReplyHeader)
    → h.xid < 2 ^ 32
    → IsInt32 h.ret
    → Next (record u { ind = rpc_sz_sz }) (reply_bytes h)
    → unpack_reply_header u ≡ (h, at_body u)
unfolding unpack_reply_header
unpack_reply_header-Next u h x r n0 =
    let u0 = record u { ind = rpc_sz_sz } in
    rw
      (
        unpack-Next u0 h.xid x (Next-append_left u0 (be32 h.xid) _ n0),
        unpack-Next (skip u0 4) (to_pattern h.ret) (to_pattern-lt h.ret r)
            (Next-append_right u0 (be32 h.xid) _ n0),
      )
      (λ i. (record { xid = h.xid; ret = signed32-to_pattern h.ret r i }, at_body u))

-- A message as it arrives: the sender's buffer, but for the four bytes of the size, which the
-- connection fills in.
pub record Arrives (m : Marshall) (b : Cells) : Type 0 where
  pub same : Agree m.buf b rpc_sz_sz m.ind
  pub small : m.ind < 2 ^ 31

-- What the receiver finds of a message whose header words are `words` over the body `body`.
module _ (m : Marshall) (words body : List ℕ) (b : Cells)
    (fits : rpc_sz_sz + length words ≤ rpc_header_sz) (len : m.ind ≡ rpc_header_sz + length body)
    (here : At m.buf rpc_header_sz body)
    (a : Arrives (record m { buf = memcpy m.buf rpc_sz_sz words }) b) where
  words_arrive : Next (record (unmarshall b m.ind) { ind = rpc_sz_sz }) words
  unfolding unmarshall
  words_arrive = record {
    room = omega (arith, fits, len);
    small = a.small;
    bytes =
        At-Agree (memcpy m.buf rpc_sz_sz words) b rpc_sz_sz m.ind words a.same
          (omega (arith, fits, len)) (memcpy-At m.buf rpc_sz_sz words);
  }

  body_arrives : Next (at_body (unmarshall b m.ind)) body
  unfolding unmarshall
  body_arrives = record {
    room = omega (arith, len);
    small = a.small;
    bytes =
        At-Agree m.buf b rpc_header_sz m.ind body
          (λ j lo hi.
            sym (memcpy-above m.buf rpc_sz_sz words j (omega (arith, fits)))
            ∙ a.same j (omega arith) hi)
          (omega (arith, len)) here;
  }

-- A message in a sound buffer with the bytes `body` behind the header space, packed with a header of
-- 32-bit words and delivered whole, gives the receiver that header, and its reader stands at `body`.
pub request_roundtrip :
    (m : Marshall) (h : ReqHeader) (body : List ℕ) (b : Cells)
    → IsValid m
    → InRange h
    → m.ind ≡ rpc_header_sz + length body
    → At m.buf rpc_header_sz body
    → Arrives (pack_req_header m h) b
    → let u = unmarshall b (pack_req_header m h).ind in
      (unpack_req_header u ≡ (h, at_body u)) × Next (at_body u) body
request_roundtrip m h body b v r len here a =
    let e = pack_req_header_lem m h (omega (arith, v.within, v.big)) in
    let a' = subst (λ p. Arrives p b) e a in
    rw e (
      unpack_req_header-Next (unmarshall b m.ind) h r
          (words_arrive m (req_bytes h) body b (omega arith) len here a'),
      body_arrives m (req_bytes h) body b (omega arith) len here a',
    )

-- A reply in a sound buffer with the bytes `body` behind the header space, packed with a header whose
-- xid and result have 32 bits and delivered whole, gives the receiver that header, and its reader
-- stands at `body`.
pub reply_roundtrip :
    (m : Marshall) (h : ReplyHeader) (body : List ℕ) (b : Cells)
    → IsValid m
    → h.xid < 2 ^ 32
    → IsInt32 h.ret
    → m.ind ≡ rpc_header_sz + length body
    → At m.buf rpc_header_sz body
    → Arrives (pack_reply_header m h) b
    → let u = unmarshall b (pack_reply_header m h).ind in
      (unpack_reply_header u ≡ (h, at_body u)) × Next (at_body u) body
reply_roundtrip m h body b v x r len here a =
    let e = pack_reply_header_lem m h (omega (arith, v.within, v.big)) in
    let a' = subst (λ p. Arrives p b) e a in
    rw e (
      unpack_reply_header-Next (unmarshall b m.ind) h x r
          (words_arrive m (reply_bytes h) body b (omega arith) len here a'),
      body_arrives m (reply_bytes h) body b (omega arith) len here a',
    )

unpack_state :
    (u : Unmarshall)
    → (unpack u).1 ≡ (
        if leb (u.ind + 4) u.sz then skip u 4 else record u { ind = max u.ind u.sz; is_ok = false })
unfolding unpack rawbyte
unpack_state u = ground arith

-- Four bytes that were read without failure were there.
unpack-ok :
    (u : Unmarshall)
    → (unpack u).1.is_ok ≡ true
    → (u.is_ok ≡ true) × (u.ind + 4 ≤ u.sz) × ((unpack u).1 ≡ skip u 4)
unpack-ok u h = ground (arith, unpack_state u)

unpack-room : (u : Unmarshall) → u.ind + 4 ≤ u.sz → (unpack u).1 ≡ skip u 4
unpack-room u h = ground (arith, unpack_state u)

-- Five words read without failure, from the last to the first.
five_words :
    (u : Unmarshall)
    → (unpack (unpack (unpack (unpack (unpack u).1).1).1).1).1.is_ok ≡ true
    → u.ind + 20 ≤ u.sz
five_words u h =
    let e = unpack-ok (unpack (unpack (unpack (unpack u).1).1).1).1 h in
    let d = unpack-ok (unpack (unpack (unpack u).1).1).1 e.0 in
    let c = unpack-ok (unpack (unpack u).1).1 d.0 in
    let b = unpack-ok (unpack u).1 c.0 in
    let a = unpack-ok u b.0 in
    omega (
      arith,
      e.1,
      ap (λ v. v.ind) a.2,
      ap (λ v. v.ind) b.2,
      ap (λ v. v.ind) c.2,
      ap (λ v. v.ind) d.2,
      ap (λ v. v.sz) a.2,
      ap (λ v. v.sz) b.2,
      ap (λ v. v.sz) c.2,
      ap (λ v. v.sz) d.2,
    )

-- A fresh message passes `ok()` after its request header exactly when it has all 24 bytes.
pub unpack_req_header-ok :
    (b : Cells) (sz : ℕ)
    → ((unpack_req_header (unmarshall b sz)).1.is_ok ≡ true) ↔ (rpc_header_sz ≤ sz)
unfolding unpack_req_header unmarshall
unpack_req_header-ok b sz = (λ h. omega (arith, five_words u h), λ h. all_there h)
  where
    u : Unmarshall
    u = record { buf = b; has_buf = true; sz = sz; ind = rpc_sz_sz; is_ok = true }

    all_there :
        rpc_header_sz ≤ sz → (unpack (unpack (unpack (unpack (unpack u).1).1).1).1).1.is_ok ≡ true
    all_there h = rw (
      unpack-room u (omega arith),
      unpack-room (skip u 4) (omega arith),
      unpack-room (skip (skip u 4) 4) (omega arith),
      unpack-room (skip (skip (skip u 4) 4) 4) (omega arith),
      unpack-room (skip (skip (skip (skip u 4) 4) 4) 4) (omega arith),
    )

pub unpack_reply_header-ok :
    (b : Cells) (sz : ℕ) → ((unpack_reply_header (unmarshall b sz)).1.is_ok ≡ true) ↔ (12 ≤ sz)
unfolding unpack_reply_header unmarshall
unpack_reply_header-ok b sz = simp unpack_state (ground arith)
