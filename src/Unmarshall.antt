-- ===== src/Unmarshall.antt =====
-- rpc/marshall.h: class unmarshall; rpc/rpc.cc: unmarshall::unpack, take_in, okdone, rawbyte,
-- rawbytes and the `operator>>` overloads.
--
-- `buf` is what `_buf` points to, `sz` bytes of it belong to the message, and `has_buf` says
-- whether `_buf` is not NULL. An operation returns what it reads and the new object.
pub mod Reads
pub mod Header
pub mod Hostile
use Prim.Native.Nat.{bit_or}
use yfs_lab.Prelude.{
  ℕ, zero, suc, ◌+◌, ◌-◌, ◌*◌, ◌%◌, ◌^◌, List, [], ◌∷◌, Bool, true, false, ◌&&◌, ltb, leb, ◌==◌,
  if◌then◌else◌,
}
use yfs_lab.Prelude.Int.{ℤ, signed32}
use yfs_lab.Prelude.Memory.{Cells, slice}
use yfs_lab.Marshall.{ReqHeader, ReplyHeader, rpc_header_sz, rpc_sz_sz}

pub record Unmarshall : Type 0 where
  pub buf : Cells
  pub has_buf : Bool
  pub sz : ℕ
  pub ind : ℕ
  pub is_ok : Bool

-- unmarshall(): an object with no buffer; `nothing` is never read.
unfoldable pub no_buffer : Cells → Unmarshall
no_buffer nothing = record { buf = nothing; has_buf = false; sz = 0; ind = 0; is_ok = false }

-- unmarshall(b, sz)
unfoldable pub unmarshall : Cells → ℕ → Unmarshall
unmarshall b sz = record { buf = b; has_buf = true; sz = sz; ind = 0; is_ok = true }

-- `char` is signed: the byte 0x80 widens to 0xffffff80.
abbrev pub widen : ℕ → ℕ
widen c = if ltb c 128 then c else c + (2 ^ 32 - 256)

unfoldable pub rawbyte : Unmarshall → ℕ × Unmarshall
rawbyte u =
    if leb u.sz u.ind
    then (0, record u { is_ok = false })
    else (widen (u.buf u.ind), record u { ind = u.ind + 1 })

-- The test is on `unsigned int`, so `_ind + n` wraps.
unfoldable pub rawbytes : Unmarshall → ℕ → List ℕ × Unmarshall
rawbytes u n =
    if ltb u.sz ((u.ind + n) % 2 ^ 32)
    then ([], record u { is_ok = false })
    else (slice u.buf u.ind n, record u { ind = (u.ind + n) % 2 ^ 32 })

-- `a << 24 | b << 16 | c << 8 | d` for the low bytes of the four values.
abbrev pub word_of : ℕ → ℕ → ℕ → ℕ → ℕ
word_of a b c d =
    bit_or (bit_or (bit_or (a % 256 * 2 ^ 24) (b % 256 * 2 ^ 16)) (c % 256 * 2 ^ 8)) (d % 256)

unfoldable pub unpack : Unmarshall → ℕ × Unmarshall
unpack u =
    let (a, u1) = rawbyte u in
    let (b, u2) = rawbyte u1 in
    let (c, u3) = rawbyte u2 in let (d, u4) = rawbyte u3 in (word_of a b c d, u4)

unfoldable pub okdone : Unmarshall → Bool
okdone u = u.is_ok && u.ind == u.sz

-- The buffer and its size, and the emptied object.
unfoldable pub take_buf : Unmarshall → (Cells × ℕ) × Unmarshall
take_buf u = ((u.buf, u.sz), record u { has_buf = false; sz = 0; ind = 0 })

-- `take_in` frees the own buffer and moves the other's here: both objects after it.
unfoldable pub take_in : Unmarshall → Unmarshall → Unmarshall × Unmarshall
unfolding take_buf
take_in u another =
    let r = take_buf another in
    (
      record u {
        buf = r.0.0;
        has_buf = another.has_buf;
        sz = r.0.1;
        ind = rpc_header_sz;
        is_ok = leb rpc_header_sz r.0.1;
      },
      r.1,
    )

unfoldable pub unpack_req_header : Unmarshall → ReqHeader × Unmarshall
unpack_req_header u =
    let (xid, u1) = unpack (record u { ind = rpc_sz_sz }) in
    let (proc, u2) = unpack u1 in
    let (clt_nonce, u3) = unpack u2 in
    let (srv_nonce, u4) = unpack u3 in
    let (xid_rep, u5) = unpack u4 in
    (
      record {
        xid = xid;
        proc = proc;
        clt_nonce = clt_nonce;
        srv_nonce = srv_nonce;
        xid_rep = xid_rep;
      },
      record u5 { ind = rpc_header_sz },
    )

unfoldable pub unpack_reply_header : Unmarshall → ReplyHeader × Unmarshall
unpack_reply_header u =
    let (xid, u1) = unpack (record u { ind = rpc_sz_sz }) in
    let (ret, u2) = unpack u1 in
    (record { xid = xid; ret = signed32 ret }, record u2 { ind = rpc_header_sz })

-- operator>>, one for each type.
unfoldable pub get_uchar : Unmarshall → ℕ × Unmarshall
get_uchar u = let (c, u1) = rawbyte u in (c % 2 ^ 8, u1)

unfoldable pub get_char : Unmarshall → ℕ × Unmarshall
get_char u = let (c, u1) = rawbyte u in (c % 2 ^ 8, u1)

unfoldable pub get_ushort : Unmarshall → ℕ × Unmarshall
get_ushort u =
    let (a, u1) = rawbyte u in let (b, u2) = rawbyte u1 in (bit_or (a % 256 * 2 ^ 8) (b % 256), u2)

unfoldable pub get_short : Unmarshall → ℕ × Unmarshall
get_short u =
    let (a, u1) = rawbyte u in let (b, u2) = rawbyte u1 in (bit_or (a % 256 * 2 ^ 8) (b % 256), u2)

unfoldable pub get_uint : Unmarshall → ℕ × Unmarshall
get_uint u =
    let (a, u1) = rawbyte u in
    let (b, u2) = rawbyte u1 in
    let (c, u3) = rawbyte u2 in let (d, u4) = rawbyte u3 in (word_of a b c d, u4)

unfoldable pub get_int : Unmarshall → ℤ × Unmarshall
get_int u =
    let (a, u1) = rawbyte u in
    let (b, u2) = rawbyte u1 in
    let (c, u3) = rawbyte u2 in let (d, u4) = rawbyte u3 in (signed32 (word_of a b c d), u4)

unfoldable pub get_ulonglong : Unmarshall → ℕ × Unmarshall
get_ulonglong u =
    let (h, u1) = get_uint u in let (l, u2) = get_uint u1 in (bit_or l (h * 2 ^ 32), u2)

-- Where `unsigned long` has 64 bits.
unfoldable pub get_ulong : Unmarshall → ℕ × Unmarshall
get_ulong u = get_ulonglong u

-- The string is empty where the read fails.
unfoldable pub get_string : Unmarshall → List ℕ × Unmarshall
get_string u = let (sz, u1) = get_uint u in if u1.is_ok then rawbytes u1 sz else ([], u1)

-- The loop of operator>> for a std::vector: `n` elements are read, whatever `ok()` says.
unfoldable pub get_elements :
    {A : Type 0} → (Unmarshall → A × Unmarshall) → ℕ → Unmarshall → List A × Unmarshall
get_elements get zero u = ([], u)
get_elements get (suc n) u =
    let (z, u1) = get u in let (rest, u2) = get_elements get n u1 in (z ∷ rest, u2)

unfoldable pub get_vector :
    {A : Type 0} → (Unmarshall → A × Unmarshall) → Unmarshall → List A × Unmarshall
get_vector get u = let (n, u1) = get_uint u in get_elements get n u1

-- `d[a] = b`, where `lt` is the order of the std::map's keys.
unfoldable pub assign : {A B : Type 0} → (A → A → Bool) → A → B → List (A × B) → List (A × B)
assign lt a b [] = (a, b) ∷ []
assign lt a b (e ∷ d) =
    let rest = assign lt a b d in
    if lt a e.0 then (a, b) ∷ e ∷ d else if lt e.0 a then e ∷ rest else (e.0, b) ∷ d

-- The loop of operator>> for a std::map.
unfoldable pub get_entries :
    {A B : Type 0}
    → (A → A → Bool)
    → (Unmarshall → A × Unmarshall)
    → (Unmarshall → B × Unmarshall)
    → ℕ
    → List (A × B)
    → Unmarshall
    → List (A × B) × Unmarshall
get_entries lt get_a get_b zero d u = (d, u)
get_entries lt get_a get_b (suc n) d u =
    let (a, u1) = get_a u in
    let (b, u2) = get_b u1 in get_entries lt get_a get_b n (assign lt a b d) u2

unfoldable pub get_map :
    {A B : Type 0}
    → (A → A → Bool)
    → (Unmarshall → A × Unmarshall)
    → (Unmarshall → B × Unmarshall)
    → Unmarshall
    → List (A × B) × Unmarshall
get_map lt get_a get_b u = let (n, u1) = get_uint u in get_entries lt get_a get_b n [] u1
