-- ===== src/Codec/Types.antt =====
-- The codecs of the types that the library marshals, and of argument lists.
use yfs_lab.Prelude.{ℕ, ◌^◌, ◌<◌, ◌≡◌, List, [], ◌∷◌, ◌++◌, true, arith, length, length-append, All}
use yfs_lab.Prelude.Int.{ℤ, IsInt32, to_pattern}
use yfs_lab.Prelude.Wire.{be16, be32, be64}
use yfs_lab.Marshall.{
  Marshall, put_uchar, put_ushort, put_uint, put_int, put_ulonglong, put_string, put_vector,
}
use yfs_lab.Marshall.Writes.{
  put_uchar-Appends, put_ushort-Appends, put_uint-Appends, put_int-Appends, put_ulonglong-Appends,
  put_string-Appends, put_vector-Appends, encode_string, encode_vector, Appends-trans, Appends-nil,
}
use yfs_lab.Unmarshall.{
  Unmarshall, get_uchar, get_ushort, get_uint, get_int, get_ulonglong, get_string, get_vector,
}
use yfs_lab.Unmarshall.Reads.{
  Next, skip, skip-zero, get_uchar-Next, get_ushort-Next, get_uint-Next, get_int-Next,
  get_ulonglong-Next, get_string-Next, get_vector-Next, Next-append_left, Next-append_right,
}
use yfs_lab.Codec.{Codec}

abbrev pub uchar_codec : Codec ℕ
uchar_codec = record {
  put = put_uchar;
  get = get_uchar;
  encode = λ x. x ∷ [];
  Fits = λ x. x < 256;
  put-Appends = λ m x v f. put_uchar-Appends m x v;
  get-Next = λ u x f good n. get_uchar-Next u x f n;
}

abbrev pub ushort_codec : Codec ℕ
ushort_codec = record {
  put = put_ushort;
  get = get_ushort;
  encode = be16;
  Fits = λ x. x < 2 ^ 16;
  put-Appends = λ m x v f. put_ushort-Appends m x v;
  get-Next = λ u x f good n. get_ushort-Next u x f n;
}

abbrev pub uint_codec : Codec ℕ
uint_codec = record {
  put = put_uint;
  get = get_uint;
  encode = be32;
  Fits = λ x. x < 2 ^ 32;
  put-Appends = λ m x v f. put_uint-Appends m x v;
  get-Next = λ u x f good n. get_uint-Next u x f n;
}

abbrev pub int_codec : Codec ℤ
int_codec = record {
  put = put_int;
  get = get_int;
  encode = λ z. be32 (to_pattern z);
  Fits = IsInt32;
  put-Appends = λ m x v f. put_int-Appends m x v;
  get-Next = λ u x f good n. get_int-Next u x f n;
}

abbrev pub ulonglong_codec : Codec ℕ
ulonglong_codec = record {
  put = put_ulonglong;
  get = get_ulonglong;
  encode = be64;
  Fits = λ x. x < 2 ^ 64;
  put-Appends = λ m x v f. put_ulonglong-Appends m x v;
  get-Next = λ u x f good n. get_ulonglong-Next u x f n;
}

abbrev pub string_codec : Codec (List ℕ)
string_codec = record {
  put = put_string;
  get = get_string;
  encode = encode_string;
  Fits = λ s. length s < 2 ^ 32;
  put-Appends = λ m s v f. put_string-Appends m s v;
  get-Next = get_string-Next;
}

abbrev pub vector_codec : {A : Type 0} → Codec A → Codec (List A)
vector_codec c = record {
  put = put_vector c.put;
  get = get_vector c.get;
  encode = encode_vector c.encode;
  Fits = λ xs. (length xs < 2 ^ 32) × All c.Fits xs;
  put-Appends = λ m xs v f. put_vector-Appends c.put c.encode c.Fits c.put-Appends m xs v f.1;
  get-Next = λ u xs f good n. get_vector-Next c.get c.encode c.Fits c.get-Next u xs f.0 f.1 good n;
}

-- No argument.
abbrev pub none_codec : Codec (Unit {0})
none_codec = record {
  put = λ m x. m;
  get = λ u. (tt, u);
  encode = λ x. [];
  Fits = λ x. Unit {0};
  put-Appends = λ m x v f. Appends-nil m v;
  get-Next = λ u x f good n i. (tt, skip-zero u i);
}

-- One argument and then others: `m << a1; m << a2`.
module _ {A B : Type 0} (c : Codec A) (d : Codec B) where
  abbrev pub put_then : Marshall → A × B → Marshall
  put_then m x = d.put (c.put m x.0) x.1

  abbrev pub get_then : Unmarshall → (A × B) × Unmarshall
  get_then u = let (a, u1) = c.get u in let (b, u2) = d.get u1 in ((a, b), u2)

  pub get_then-Next :
      (u : Unmarshall) (x : A × B)
      → c.Fits x.0 × d.Fits x.1
      → u.is_ok ≡ true
      → Next u (c.encode x.0 ++ d.encode x.1)
      → get_then u ≡ (x, skip u (length (c.encode x.0 ++ d.encode x.1)))
  get_then-Next u x f good n =
      rw
        (
          c.get-Next u x.0 f.0 good (Next-append_left u (c.encode x.0) (d.encode x.1) n),
          d.get-Next (skip u (length (c.encode x.0))) x.1 f.1 good
              (Next-append_right u (c.encode x.0) (d.encode x.1) n),
        )
        (λ i. (x, moved i))
    where
      moved :
          skip (skip u (length (c.encode x.0))) (length (d.encode x.1))
          ≡ skip u (length (c.encode x.0 ++ d.encode x.1))
      moved = ground (arith, length-append (c.encode x.0) (d.encode x.1))

  abbrev pub then_codec : Codec (A × B)
  then_codec = record {
    put = put_then;
    get = get_then;
    encode = λ x. c.encode x.0 ++ d.encode x.1;
    Fits = λ x. c.Fits x.0 × d.Fits x.1;
    put-Appends = λ m x v f.
        let a = c.put-Appends m x.0 v f.0 in Appends-trans a (d.put-Appends _ x.1 a.valid f.1);
    get-Next = get_then-Next;
  }
