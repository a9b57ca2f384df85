-- ===== src/Unmarshall/Reads.antt =====
-- What the reading operations of `unmarshall` return where the bytes of a value are next.
use Prim.Native.Nat.{bit_or}
use yfs_lab.Prelude.{
  ℕ, ◌+◌, ◌*◌, ◌/◌, ◌%◌, ◌^◌, ◌≤◌, ◌<◌, ◌≡◌, refl, ap, ◌∙◌, List, [], ◌∷◌, ◌++◌, true, arith,
  length, length-append, All, if◌then◌else◌,
}
use yfs_lab.Prelude.Bits.{bit_or-shifted, bit_or_comm}
use yfs_lab.Prelude.Int.{ℤ, IsInt32, to_pattern, signed32, signed32-to_pattern, to_pattern-lt}
use yfs_lab.Prelude.Memory.{At, At-append_left, At-append_right, slice-At}
use yfs_lab.Prelude.Wire.{be16, be32, be64, be32_sum}
use yfs_lab.Marshall.Writes.{encode_string, encode_elements, encode_vector}
use yfs_lab.Unmarshall.{
  Unmarshall, rawbyte, rawbytes, widen, word_of, unpack, get_uchar, get_ushort, get_uint, get_int,
  get_ulonglong, get_string, get_elements, get_vector,
}

-- The bytes `bs` are next, and belong to the message. Sizes are those of an `int`.
pub record Next (u : Unmarshall) (bs : List ℕ) : Type 0 where
  pub room : u.ind + length bs ≤ u.sz
  pub small : u.sz < 2 ^ 31
  pub bytes : At u.buf u.ind bs

-- The object after `n` bytes have been read.
abbrev pub skip : Unmarshall → ℕ → Unmarshall
skip u n = record u { ind = u.ind + n }

word_plain :
    (a b c d : ℕ)
    → b < 256
    → c < 256
    → d < 256
    → bit_or (bit_or (bit_or (a * 2 ^ 24) (b * 2 ^ 16)) (c * 2 ^ 8)) d
      ≡ a * 2 ^ 24 + b * 2 ^ 16 + c * 2 ^ 8 + d
word_plain a b c d hb hc hd =
    rw (two, three) (bit_or-shifted 8 (a * 2 ^ 16 + b * 2 ^ 8 + c) d hd ∙ omega arith)
  where
    two : bit_or (a * 2 ^ 24) (b * 2 ^ 16) ≡ (a * 2 ^ 8 + b) * 2 ^ 16
    two = bit_or-shifted 24 a (b * 2 ^ 16) (omega arith) ∙ omega arith

    three : bit_or ((a * 2 ^ 8 + b) * 2 ^ 16) (c * 2 ^ 8) ≡ (a * 2 ^ 16 + b * 2 ^ 8 + c) * 2 ^ 8
    three = bit_or-shifted 16 (a * 2 ^ 8 + b) (c * 2 ^ 8) (omega arith) ∙ omega arith

-- The mask undoes the sign extension.
widen_low : (b : ℕ) → b < 256 → widen b % 256 ≡ b
widen_low b h = ground arith

pub skip-zero : (u : Unmarshall) → u ≡ skip u 0
skip-zero u = ground arith

pub word_of-be32 :
    (x : ℕ)
    → x < 2 ^ 32
    → word_of
        (widen (x / 2 ^ 24 % 256))
        (widen (x / 2 ^ 16 % 256))
        (widen (x / 2 ^ 8 % 256))
        (widen (x % 256))
      ≡ x
word_of-be32 x h =
    rw
      (
        widen_low (x / 2 ^ 24 % 256) (omega arith),
        widen_low (x / 2 ^ 16 % 256) (omega arith),
        widen_low (x / 2 ^ 8 % 256) (omega arith),
        widen_low (x % 256) (omega arith),
      )
      (word_plain (x / 2 ^ 24 % 256) (x / 2 ^ 16 % 256) (x / 2 ^ 8 % 256) (x % 256) (omega arith)
          (omega arith) (omega arith)
        ∙ be32_sum x h)

pub Next-tail : (u : Unmarshall) (b : ℕ) (bs : List ℕ) → Next u (b ∷ bs) → Next (skip u 1) bs
Next-tail u b bs n = record { room = omega (arith, n.room); small = n.small; bytes = n.bytes.1 }

pub Next-append_left : (u : Unmarshall) (xs ys : List ℕ) → Next u (xs ++ ys) → Next u xs
Next-append_left u xs ys n = record {
  room = omega (arith, n.room, length-append xs ys);
  small = n.small;
  bytes = At-append_left u.buf u.ind xs ys n.bytes;
}

pub Next-append_right :
    (u : Unmarshall) (xs ys : List ℕ) → Next u (xs ++ ys) → Next (skip u (length xs)) ys
Next-append_right u xs ys n = record {
  room = omega (arith, n.room, length-append xs ys);
  small = n.small;
  bytes = At-append_right u.buf u.ind xs ys n.bytes;
}

pub rawbyte-Next :
    (u : Unmarshall) (b : ℕ) (bs : List ℕ) → Next u (b ∷ bs) → rawbyte u ≡ (widen b, skip u 1)
unfolding rawbyte
rawbyte-Next u b bs n = ground arith

-- Four reads in a row, as in `unpack` and the 32-bit operators.
module _ (u : Unmarshall) (a b c d : ℕ) (n : Next u (a ∷ b ∷ c ∷ d ∷ [])) where
  four_reads :
      (rawbyte u ≡ (widen a, skip u 1))
      × (rawbyte (skip u 1) ≡ (widen b, skip (skip u 1) 1))
      × (rawbyte (skip (skip u 1) 1) ≡ (widen c, skip (skip (skip u 1) 1) 1))
      × (rawbyte (skip (skip (skip u 1) 1) 1) ≡ (widen d, skip (skip (skip (skip u 1) 1) 1) 1))
  four_reads =
      let n1 = Next-tail u a (b ∷ c ∷ d ∷ []) n in
      let n2 = Next-tail (skip u 1) b (c ∷ d ∷ []) n1 in
      let n3 = Next-tail (skip (skip u 1) 1) c (d ∷ []) n2 in
      (
        rawbyte-Next u a _ n,
        rawbyte-Next (skip u 1) b _ n1,
        rawbyte-Next (skip (skip u 1) 1) c _ n2,
        rawbyte-Next (skip (skip (skip u 1) 1) 1) d _ n3,
      )

  four_skips : skip (skip (skip (skip u 1) 1) 1) 1 ≡ skip u 4
  four_skips = ground arith

  get_uint-bytes : get_uint u ≡ (word_of (widen a) (widen b) (widen c) (widen d), skip u 4)
  unfolding get_uint
  get_uint-bytes =
      rw (four_reads.0, four_reads.1, four_reads.2, four_reads.3)
        (ap {B = ℕ × Unmarshall} (λ v. (word_of (widen a) (widen b) (widen c) (widen d), v))
          four_skips)

pub get_uint-Next :
    (u : Unmarshall) (x : ℕ) → x < 2 ^ 32 → Next u (be32 x) → get_uint u ≡ (x, skip u 4)
get_uint-Next u x h n =
    get_uint-bytes u _ _ _ _ n ∙ ap {B = ℕ × Unmarshall} (λ w. (w, skip u 4)) (word_of-be32 x h)

pub unpack-eq-get_uint : (u : Unmarshall) → unpack u ≡ get_uint u
unfolding unpack get_uint
unpack-eq-get_uint u = refl

pub get_int-Next :
    (u : Unmarshall) (z : ℤ) → IsInt32 z → Next u (be32 (to_pattern z)) → get_int u ≡ (z, skip u 4)
unfolding get_int get_uint
get_int-Next u z h n =
    get_int_lem u
    ∙ ap {B = ℤ × Unmarshall} (λ r. (signed32 r.0, r.1))
        (get_uint-Next u (to_pattern z) (to_pattern-lt z h) n)
    ∙ ap {B = ℤ × Unmarshall} (λ w. (w, skip u 4)) (signed32-to_pattern z h)
  where
    get_int_lem : (u : Unmarshall) → get_int u ≡ (signed32 (get_uint u).0, (get_uint u).1)
    get_int_lem u = refl

pub get_uchar-Next :
    (u : Unmarshall) (x : ℕ) → x < 256 → Next u (x ∷ []) → get_uchar u ≡ (x, skip u 1)
unfolding get_uchar
get_uchar-Next u x h n =
    rw (rawbyte-Next u x [] n) (ap {B = ℕ × Unmarshall} (λ w. (w, skip u 1)) (widen_low x h))

pub get_ushort-Next :
    (u : Unmarshall) (x : ℕ) → x < 2 ^ 16 → Next u (be16 x) → get_ushort u ≡ (x, skip u 2)
unfolding get_ushort
get_ushort-Next u x h n =
    let hi = x / 2 ^ 8 % 256 in
    let lo = x % 256 in
    let joined : bit_or (widen hi % 256 * 2 ^ 8) (widen lo % 256) ≡ x =
      rw (widen_low hi (omega arith), widen_low lo (omega arith))
        (bit_or-shifted 8 hi lo (omega arith) ∙ omega arith) in
    let moved : skip (skip u 1) 1 ≡ skip u 2 = ground arith in
    rw (rawbyte-Next u hi (lo ∷ []) n, rawbyte-Next (skip u 1) lo [] (Next-tail u hi (lo ∷ []) n))
      (λ i. (joined i, moved i))

pub get_ulonglong-Next :
    (u : Unmarshall) (x : ℕ) → x < 2 ^ 64 → Next u (be64 x) → get_ulonglong u ≡ (x, skip u 8)
unfolding get_ulonglong
get_ulonglong-Next u x h n =
    let hi = x / 2 ^ 32 % 2 ^ 32 in
    let lo = x % 2 ^ 32 in
    let joined : bit_or lo (hi * 2 ^ 32) ≡ x =
      bit_or_comm lo (hi * 2 ^ 32) ∙ bit_or-shifted 32 hi lo (omega arith) ∙ omega arith in
    let moved : skip (skip u 4) 4 ≡ skip u 8 = ground arith in
    rw
      (
        get_uint-Next u hi (omega arith) (Next-append_left u (be32 hi) (be32 lo) n),
        get_uint-Next (skip u 4) lo (omega arith) (Next-append_right u (be32 hi) (be32 lo) n),
      )
      (λ i. (joined i, moved i))

rawbytes-Next :
    (u : Unmarshall) (s : List ℕ) → Next u s → rawbytes u (length s) ≡ (s, skip u (length s))
unfolding rawbytes
rawbytes-Next u s n = ground (arith, slice-At u.buf u.ind s n.bytes, n.room, n.small)

-- A string of less than 2^32 bytes that stands next in a message without a failure is what is read,
-- and the reader stands behind it.
pub get_string-Next :
    (u : Unmarshall) (s : List ℕ)
    → length s < 2 ^ 32
    → u.is_ok ≡ true
    → Next u (encode_string s)
    → get_string u ≡ (s, skip u (length (encode_string s)))
unfolding get_string
get_string-Next u s h good n =
    let len = length s % 2 ^ 32 in
    let same : len ≡ length s = omega arith in
    let rest = Next-append_right u (be32 len) s n in
    let body : rawbytes (skip u 4) len ≡ (s, skip (skip u 4) (length s)) =
      ap (rawbytes (skip u 4)) same ∙ rawbytes-Next (skip u 4) s rest in
    let moved : skip (skip u 4) (length s) ≡ skip u (length (encode_string s)) =
      ground (arith, length-append (be32 len) s) in
    rw (get_uint-Next u len (omega arith) (Next-append_left u (be32 len) s n)) (
      ap {B = List ℕ × Unmarshall} (λ t. if t then rawbytes (skip u 4) len else ([], skip u 4)) good
      ∙ body
      ∙ ap {B = List ℕ × Unmarshall} (λ v. (s, v)) moved)

-- The vector operator, for an element operator that reads back what `encode` gives.
module _ {A : Type 0} (get : Unmarshall → A × Unmarshall) (encode : A → List ℕ) (Fits : A → Type 0)
    (reads : (u : Unmarshall) (x : A)
      → Fits x
      → u.is_ok ≡ true
      → Next u (encode x)
      → get u ≡ (x, skip u (length (encode x)))) where
  get_elements-Next :
      (u : Unmarshall) (xs : List A)
      → All Fits xs
      → u.is_ok ≡ true
      → Next u (encode_elements encode xs)
      → get_elements get (length xs) u ≡ (xs, skip u (length (encode_elements encode xs)))
  unfolding get_elements
  get_elements-Next u [] f good n = λ i. ([], skip-zero u i)
  get_elements-Next u (x ∷ xs) f good n =
      rw
        (
          reads u x f.0 good (Next-append_left u (encode x) (encode_elements encode xs) n),
          get_elements-Next (skip u (length (encode x))) xs f.1 good
              (Next-append_right u (encode x) (encode_elements encode xs) n),
        )
        (λ i. (x ∷ xs, moved i))
    where
      moved :
          skip (skip u (length (encode x))) (length (encode_elements encode xs))
          ≡ skip u (length (encode_elements encode (x ∷ xs)))
      moved = ground (arith, length-append (encode x) (encode_elements encode xs))

  -- A vector of less than 2^32 elements that stands next in a message without a failure is what is
  -- read, and the reader stands behind it, if that holds of the element operator.
  pub get_vector-Next :
      (u : Unmarshall) (xs : List A)
      → length xs < 2 ^ 32
      → All Fits xs
      → u.is_ok ≡ true
      → Next u (encode_vector encode xs)
      → get_vector get u ≡ (xs, skip u (length (encode_vector encode xs)))
  unfolding get_vector
  get_vector-Next u xs h f good n =
      rw (get_uint-Next u len (omega arith) (Next-append_left u (be32 len) _ n)) (
        ap (λ k. get_elements get k (skip u 4)) same
        ∙ get_elements-Next (skip u 4) xs f good (Next-append_right u (be32 len) _ n)
        ∙ (λ i. (xs, moved i)))
    where
      len : ℕ
      len = length xs % 2 ^ 32

      same : len ≡ length xs
      same = omega arith

      moved :
          skip (skip u 4) (length (encode_elements encode xs))
          ≡ skip u (length (encode_vector encode xs))
      moved = ground (arith, length-append (be32 len) (encode_elements encode xs))
