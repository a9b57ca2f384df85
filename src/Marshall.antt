-- ===== src/Marshall.antt =====
-- rpc/marshall.h: class marshall, req_header, reply_header; rpc/rpc.cc: marshall::rawbyte,
-- marshall::rawbytes, marshall::pack and the `operator<<` overloads.
--
-- `buf` is what `_buf` points to. A cell at or above `capa` stands for the byte that the next
-- `realloc` will bring there; `has_buf` says whether `_buf` is not NULL. An `int`, `short` or
-- `char` is given to the byte level as its two's complement pattern.
pub mod Writes
pub mod Header
use yfs_lab.Prelude.{
  ℕ, ◌+◌, ◌*◌, ◌/◌, ◌%◌, ◌^◌, List, [], ◌∷◌, Bool, true, false, ltb, leb, length, if◌then◌else◌,
}
use yfs_lab.Prelude.Int.{ℤ, to_pattern}
use yfs_lab.Prelude.Memory.{Cells, store, memcpy}

pub record ReqHeader : Type 0 where
  pub xid : ℕ
  pub proc : ℕ
  pub clt_nonce : ℕ
  pub srv_nonce : ℕ
  pub xid_rep : ℕ

pub record ReplyHeader : Type 0 where
  pub xid : ℕ
  pub ret : ℤ

abbrev pub default_rpc_sz : ℕ
default_rpc_sz = 1024

-- sizeof(rpc_sz_t)
abbrev pub rpc_sz_sz : ℕ
rpc_sz_sz = 4

-- max(sizeof(req_header), sizeof(reply_header)) + sizeof(rpc_sz_t), without RPC_CHECKSUMMING
abbrev pub rpc_header_sz : ℕ
rpc_header_sz = 24

pub record Marshall : Type 0 where
  pub buf : Cells
  pub has_buf : Bool
  pub capa : ℕ
  pub ind : ℕ

-- The constructor; `junk` is what malloc'd memory holds.
unfoldable pub marshall : Cells → Marshall
marshall junk = record { buf = junk; has_buf = true; capa = default_rpc_sz; ind = rpc_header_sz }

unfoldable pub rawbyte : Marshall → ℕ → Marshall
rawbyte m x = record m {
  buf = store m.buf m.ind x;
  capa = if leb m.capa m.ind then m.capa * 2 else m.capa;
  ind = m.ind + 1;
}

unfoldable pub rawbytes : Marshall → List ℕ → Marshall
rawbytes m p =
    let n = length p in
    let capa' =
      if ltb m.capa (m.ind + n)
      then (if ltb n m.capa then 2 * m.capa else m.capa + n)
      else m.capa in
    record m { buf = memcpy m.buf m.ind p; capa = capa'; ind = m.ind + n }

unfoldable pub pack : Marshall → ℕ → Marshall
pack m x =
    let m1 = rawbyte m (x / 2 ^ 24 % 256) in
    let m2 = rawbyte m1 (x / 2 ^ 16 % 256) in
    let m3 = rawbyte m2 (x / 2 ^ 8 % 256) in rawbyte m3 (x % 256)

unfoldable pub pack_req_header : Marshall → ReqHeader → Marshall
pack_req_header m h =
    let saved_sz = m.ind in
    let m0 = record m { ind = rpc_sz_sz } in
    let m1 = pack m0 h.xid in
    let m2 = pack m1 h.proc in
    let m3 = pack m2 h.clt_nonce in
    let m4 = pack m3 h.srv_nonce in let m5 = pack m4 h.xid_rep in record m5 { ind = saved_sz }

unfoldable pub pack_reply_header : Marshall → ReplyHeader → Marshall
pack_reply_header m h =
    let saved_sz = m.ind in
    let m0 = record m { ind = rpc_sz_sz } in
    let m1 = pack m0 h.xid in let m2 = pack m1 (to_pattern h.ret) in record m2 { ind = saved_sz }

-- The buffer and its size, and the emptied object.
unfoldable pub take_buf : Marshall → (Cells × ℕ) × Marshall
take_buf m = ((m.buf, m.ind), record m { has_buf = false; ind = 0 })

-- operator<<, one for each type.
unfoldable pub put_uchar : Marshall → ℕ → Marshall
put_uchar m x = rawbyte m x

unfoldable pub put_char : Marshall → ℕ → Marshall
put_char m x = put_uchar m (x % 2 ^ 8)

unfoldable pub put_ushort : Marshall → ℕ → Marshall
put_ushort m x = let m1 = rawbyte m (x / 2 ^ 8 % 256) in rawbyte m1 (x % 256)

unfoldable pub put_short : Marshall → ℕ → Marshall
put_short m x = put_ushort m (x % 2 ^ 16)

unfoldable pub put_uint : Marshall → ℕ → Marshall
put_uint m x =
    let m1 = rawbyte m (x / 2 ^ 24 % 256) in
    let m2 = rawbyte m1 (x / 2 ^ 16 % 256) in
    let m3 = rawbyte m2 (x / 2 ^ 8 % 256) in rawbyte m3 (x % 256)

unfoldable pub put_int : Marshall → ℤ → Marshall
put_int m x = put_uint m (to_pattern x)

-- A std::string is the list of its bytes.
unfoldable pub put_string : Marshall → List ℕ → Marshall
put_string m s = rawbytes (put_uint m (length s % 2 ^ 32)) s

unfoldable pub put_ulonglong : Marshall → ℕ → Marshall
put_ulonglong m x = put_uint (put_uint m (x / 2 ^ 32 % 2 ^ 32)) (x % 2 ^ 32)

-- Where `unsigned long` has 64 bits.
unfoldable pub put_ulong : Marshall → ℕ → Marshall
put_ulong m x = put_ulonglong m x

-- The loop of operator<< for a std::vector, over the element type's operator.
unfoldable pub put_elements :
    {A : Type 0} → (Marshall → A → Marshall) → Marshall → List A → Marshall
put_elements put m [] = m
put_elements put m (x ∷ xs) = put_elements put (put m x) xs

unfoldable pub put_vector : {A : Type 0} → (Marshall → A → Marshall) → Marshall → List A → Marshall
put_vector put m v = put_elements put (put_uint m (length v % 2 ^ 32)) v

-- The loop of operator<< for a std::map, whose iterator goes over the keys in their order: a map is
-- the list of its entries in this order.
unfoldable pub put_entries :
    {A B : Type 0}
    → (Marshall → A → Marshall)
    → (Marshall → B → Marshall)
    → Marshall
    → List (A × B)
    → Marshall
put_entries put_a put_b m [] = m
put_entries put_a put_b m (e ∷ d) = put_entries put_a put_b (put_b (put_a m e.0) e.1) d

unfoldable pub put_map :
    {A B : Type 0}
    → (Marshall → A → Marshall)
    → (Marshall → B → Marshall)
    → Marshall
    → List (A × B)
    → Marshall
put_map put_a put_b m d = put_entries put_a put_b (put_uint m (length d % 2 ^ 32)) d
