-- ===== src/Marshall/Header.antt =====
-- `pack_req_header` and `pack_reply_header` as copies of bytes into the buffer.
use yfs_lab.Prelude.{ℕ, ◌+◌, ◌≤◌, ◌≡◌, ◌∙◌, List, [], ◌++◌, arith, length, length-append}
use yfs_lab.Prelude.Int.{to_pattern}
use yfs_lab.Prelude.Memory.{memcpy, memcpy-append}
use yfs_lab.Prelude.Wire.{be32}
use yfs_lab.Marshall.{
  Marshall, ReqHeader, ReplyHeader, rawbyte, pack, pack_req_header, pack_reply_header,
  rpc_header_sz, rpc_sz_sz,
}

abbrev pub req_bytes : ReqHeader → List ℕ
req_bytes h =
    be32 h.xid ++ (be32 h.proc ++ (be32 h.clt_nonce ++ (be32 h.srv_nonce ++ be32 h.xid_rep)))

abbrev pub reply_bytes : ReplyHeader → List ℕ
reply_bytes h = be32 h.xid ++ be32 (to_pattern h.ret)

-- Where the buffer has room, `pack` only copies four bytes.
pack_lem :
    (m : Marshall) (x : ℕ)
    → m.ind + 4 ≤ m.capa
    → pack m x ≡ record m { buf = memcpy m.buf m.ind (be32 x); ind = m.ind + 4 }
unfolding pack rawbyte memcpy
pack_lem m x h = ground arith

-- A header of which the words `bs` are filled in.
abbrev filled : Marshall → List ℕ → Marshall
filled m bs = record m { buf = memcpy m.buf rpc_sz_sz bs; ind = rpc_sz_sz + length bs }

pack-filled :
    (m : Marshall) (bs : List ℕ) (x : ℕ)
    → rpc_sz_sz + length bs + 4 ≤ m.capa
    → pack (filled m bs) x ≡ filled m (bs ++ be32 x)
pack-filled m bs x h =
    let len : rpc_sz_sz + length bs + 4 ≡ rpc_sz_sz + length (bs ++ be32 x) =
      omega (arith, length-append bs (be32 x)) in
    pack_lem (filled m bs) x h
    ∙ (λ i. record m { buf = memcpy-append m.buf rpc_sz_sz bs (be32 x) i; ind = len i })

-- Packing a request header fills bytes 4 to 23 and changes nothing else.
pub pack_req_header_lem :
    (m : Marshall) (h : ReqHeader)
    → rpc_header_sz ≤ m.capa
    → pack_req_header m h ≡ record m { buf = memcpy m.buf rpc_sz_sz (req_bytes h) }
unfolding pack_req_header memcpy
pack_req_header_lem m h room = rw (
  pack-filled m [] h.xid (omega arith),
  pack-filled m (be32 h.xid) h.proc (omega arith),
  pack-filled m (be32 h.xid ++ be32 h.proc) h.clt_nonce (omega arith),
  pack-filled m (be32 h.xid ++ (be32 h.proc ++ be32 h.clt_nonce)) h.srv_nonce (omega arith),
  pack-filled m (be32 h.xid ++ (be32 h.proc ++ (be32 h.clt_nonce ++ be32 h.srv_nonce))) h.xid_rep
      (omega arith),
)

-- Packing a reply header fills bytes 4 to 11 and changes nothing else.
pub pack_reply_header_lem :
    (m : Marshall) (h : ReplyHeader)
    → rpc_header_sz ≤ m.capa
    → pack_reply_header m h ≡ record m { buf = memcpy m.buf rpc_sz_sz (reply_bytes h) }
unfolding pack_reply_header memcpy
pack_reply_header_lem m h room = rw (
  pack-filled m [] h.xid (omega arith),
  pack-filled m (be32 h.xid) (to_pattern h.ret) (omega arith),
)
