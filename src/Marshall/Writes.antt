-- ===== src/Marshall/Writes.antt =====
-- What each writing operation of `marshall` does to the buffer.
use yfs_lab.Prelude.{
  ℕ, ◌+◌, ◌*◌, ◌/◌, ◌%◌, ◌^◌, ◌≤◌, ◌≡◌, refl, sym, ◌∙◌, subst, List, [], ◌∷◌, ◌++◌, true, arith,
  length, length-append, All,
}
use Prim.Native.Nat.{max}
use yfs_lab.Prelude.Int.{ℤ, to_pattern}
use yfs_lab.Prelude.Memory.{Cells, At, Agree, At-Agree, At-append, memcpy-below, memcpy-At}
use yfs_lab.Prelude.Wire.{be16, be32, be64}
use yfs_lab.Marshall.{
  Marshall, marshall, rawbyte, rawbytes, default_rpc_sz, rpc_header_sz, put_uchar, put_ushort,
  put_uint, put_int, put_string, put_ulonglong, put_elements, put_vector,
}

-- The buffer is there, what is written lies within it, and it is at most twice as long as that.
pub record IsValid (m : Marshall) : Type 0 where
  pub owned : m.has_buf ≡ true
  pub header : rpc_header_sz ≤ m.ind
  pub within : m.ind ≤ m.capa
  pub big : default_rpc_sz ≤ m.capa
  pub lean : m.capa ≤ max default_rpc_sz (2 * m.ind)

-- `m'` is `m` with the bytes `bs` written behind what it held.
pub record Appends (m m' : Marshall) (bs : List ℕ) : Type 0 where
  pub size : m'.ind ≡ m.ind + length bs
  pub written : At m'.buf m.ind bs
  pub kept : Agree m.buf m'.buf 0 m.ind
  pub valid : IsValid m'

pub marshall-IsValid : (junk : Cells) → IsValid (marshall junk)
unfolding marshall
marshall-IsValid junk = record {
  owned = refl;
  header = omega arith;
  within = omega arith;
  big = omega arith;
  lean = omega arith;
}

rawbyte-IsValid : (m : Marshall) (x : ℕ) → IsValid m → IsValid (rawbyte m x)
unfolding rawbyte
rawbyte-IsValid m x v = ground arith

pub rawbyte-Appends : (m : Marshall) (x : ℕ) → IsValid m → Appends m (rawbyte m x) (x ∷ [])
unfolding rawbyte
rawbyte-Appends m x v = record {
  size = omega arith;
  written = (ground arith, tt);
  kept = λ j lo hi. ground arith;
  valid = rawbyte-IsValid m x v;
}

rawbytes-IsValid : (m : Marshall) (p : List ℕ) → IsValid m → IsValid (rawbytes m p)
unfolding rawbytes
rawbytes-IsValid m p v = ground arith

-- For a sound buffer, `rawbytes` puts the bytes behind what was written, changes nothing before them,
-- and leaves a sound buffer: it has grown where it had to, and to no more than twice what is needed.
pub rawbytes-Appends : (m : Marshall) (p : List ℕ) → IsValid m → Appends m (rawbytes m p) p
unfolding rawbytes
rawbytes-Appends m p v = record {
  size = refl;
  written = memcpy-At m.buf m.ind p;
  kept = λ j lo hi. sym (memcpy-below m.buf m.ind p j hi);
  valid = rawbytes-IsValid m p v;
}

pub Appends-nil : (m : Marshall) → IsValid m → Appends m m []
Appends-nil m v = record { size = omega arith; written = tt; kept = λ j lo hi. refl; valid = v }

pub Appends-trans :
    {m n k : Marshall} {xs ys : List ℕ} → Appends m n xs → Appends n k ys → Appends m k (xs ++ ys)
Appends-trans {m} {n} {k} {xs} {ys} a b = record {
  size = omega (arith, a.size, b.size, length-append xs ys);
  written =
      At-append k.buf m.ind xs ys
        (At-Agree n.buf k.buf m.ind n.ind xs (λ j lo hi. b.kept j (omega arith) hi)
          (omega (arith, a.size)) a.written)
        (subst (λ i. At k.buf i ys) a.size b.written);
  kept = λ j lo hi. a.kept j lo hi ∙ b.kept j lo (omega (arith, a.size));
  valid = b.valid;
}

pub put_uchar-Appends : (m : Marshall) (x : ℕ) → IsValid m → Appends m (put_uchar m x) (x ∷ [])
unfolding put_uchar
put_uchar-Appends m x v = rawbyte-Appends m x v

pub put_ushort-Appends : (m : Marshall) (x : ℕ) → IsValid m → Appends m (put_ushort m x) (be16 x)
unfolding put_ushort
put_ushort-Appends m x v =
    let a = rawbyte-Appends m (x / 2 ^ 8 % 256) v in
    Appends-trans a (rawbyte-Appends _ (x % 256) a.valid)

pub put_uint-Appends : (m : Marshall) (x : ℕ) → IsValid m → Appends m (put_uint m x) (be32 x)
unfolding put_uint
put_uint-Appends m x v =
    let a = rawbyte-Appends m (x / 2 ^ 24 % 256) v in
    let b = rawbyte-Appends _ (x / 2 ^ 16 % 256) a.valid in
    let c = rawbyte-Appends _ (x / 2 ^ 8 % 256) b.valid in
    let d = rawbyte-Appends _ (x % 256) c.valid in
    Appends-trans a (Appends-trans b (Appends-trans c d))

pub put_int-Appends :
    (m : Marshall) (x : ℤ) → IsValid m → Appends m (put_int m x) (be32 (to_pattern x))
unfolding put_int
put_int-Appends m x v = put_uint-Appends m (to_pattern x) v

pub put_ulonglong-Appends :
    (m : Marshall) (x : ℕ) → IsValid m → Appends m (put_ulonglong m x) (be64 x)
unfolding put_ulonglong
put_ulonglong-Appends m x v =
    let a = put_uint-Appends m (x / 2 ^ 32 % 2 ^ 32) v in
    Appends-trans a (put_uint-Appends _ (x % 2 ^ 32) a.valid)

abbrev pub encode_string : List ℕ → List ℕ
encode_string s = be32 (length s % 2 ^ 32) ++ s

-- For a sound buffer, a string is written as its length in four bytes (modulo 2^32) and its
-- bytes, behind what was written, and the buffer stays sound.
pub put_string-Appends :
    (m : Marshall) (s : List ℕ) → IsValid m → Appends m (put_string m s) (encode_string s)
unfolding put_string
put_string-Appends m s v =
    let a = put_uint-Appends m (length s % 2 ^ 32) v in
    Appends-trans a (rawbytes-Appends _ s a.valid)

-- The vector operator, for an element operator that appends `encode x`.
module _ {A : Type 0} (encode : A → List ℕ) where
  abbrev pub encode_elements : List A → List ℕ
  encode_elements [] = []
  encode_elements (x ∷ xs) = encode x ++ encode_elements xs

  abbrev pub encode_vector : List A → List ℕ
  encode_vector v = be32 (length v % 2 ^ 32) ++ encode_elements v

module _ {A : Type 0} (put : Marshall → A → Marshall) (encode : A → List ℕ) (Fits : A → Type 0)
    (appends : (m : Marshall) (x : A) → IsValid m → Fits x → Appends m (put m x) (encode x)) where
  put_elements-Appends :
      (m : Marshall) (xs : List A)
      → IsValid m
      → All Fits xs
      → Appends m (put_elements put m xs) (encode_elements encode xs)
  unfolding put_elements
  put_elements-Appends m [] v f = Appends-nil m v
  put_elements-Appends m (x ∷ xs) v f =
      let a = appends m x v f.0 in Appends-trans a (put_elements-Appends (put m x) xs a.valid f.1)

  -- For a sound buffer and elements that fit, a vector is written as its length in four bytes (modulo
  -- 2^32) and its elements in order, if the element operator appends `encode x` for each `x` that fits.
  pub put_vector-Appends :
      (m : Marshall) (xs : List A)
      → IsValid m
      → All Fits xs
      → Appends m (put_vector put m xs) (encode_vector encode xs)
  unfolding put_vector
  put_vector-Appends m xs v f =
      let a = put_uint-Appends m (length xs % 2 ^ 32) v in
      Appends-trans a (put_elements-Appends _ xs a.valid f)
