-- ===== src/Prelude/Memory.antt =====
-- Bytes in memory: what a `char *` points to, as a function from offsets to bytes.
use Prim.Native.Nat.{ℕ, zero, suc, ◌+◌, ◌≤◌, ◌<◌}
use mathlib.Core.Path.{◌≡◌, refl, ap, ◌∙◌, subst}
use mathlib.Core.List.{List, [], ◌∷◌, ◌++◌}
use native.Mathlib.Omega.{arith}
use yfs_lab.Prelude.Tests.{◌==◌, if◌then◌else◌}
use yfs_lab.Prelude.Lists.{length}

abbrev pub Cells : Type 0
Cells = ℕ → ℕ

-- `p[i] = v`
abbrev pub store : Cells → ℕ → ℕ → Cells
store f i v j = if i == j then v else f j

-- `memcpy(p + i, bytes, length bytes)`
unfoldable pub memcpy : Cells → ℕ → List ℕ → Cells
memcpy f i [] = f
memcpy f i (b ∷ bs) = memcpy (store f i b) (i + 1) bs

-- The `n` bytes from offset `i` on.
unfoldable pub slice : Cells → ℕ → ℕ → List ℕ
slice f i zero = []
slice f i (suc n) = f i ∷ slice f (i + 1) n

-- The bytes `bs` stand at offset `i`.
abbrev pub At : Cells → ℕ → List ℕ → Type 0
At f i [] = Unit
At f i (b ∷ bs) = (f i ≡ b) × At f (i + 1) bs

-- Two memories agree from `lo` up to `hi`.
abbrev pub Agree : Cells → Cells → ℕ → ℕ → Type 0
Agree f g lo hi = (j : ℕ) → lo ≤ j → j < hi → f j ≡ g j

pub At-Agree :
    (f g : Cells) (i hi : ℕ) (bs : List ℕ)
    → Agree f g i hi
    → i + length bs ≤ hi
    → At f i bs
    → At g i bs
At-Agree f g i hi [] a h w = tt
At-Agree f g i hi (b ∷ bs) a h w = (
  ground (arith, a i),
  At-Agree f g (i + 1) hi bs (λ j lo le. a j (omega arith) le) (omega arith) w.1,
)

pub At-append :
    (f : Cells) (i : ℕ) (xs ys : List ℕ) → At f i xs → At f (i + length xs) ys → At f i (xs ++ ys)
At-append f i [] ys p q = subst (λ k. At f k ys) (omega arith) q
At-append f i (x ∷ xs) ys p q =
    (p.0, At-append f (i + 1) xs ys p.1 (subst (λ k. At f k ys) (omega arith) q))

pub At-append_left : (f : Cells) (i : ℕ) (xs ys : List ℕ) → At f i (xs ++ ys) → At f i xs
At-append_left f i [] ys p = tt
At-append_left f i (x ∷ xs) ys p = (p.0, At-append_left f (i + 1) xs ys p.1)

pub At-append_right :
    (f : Cells) (i : ℕ) (xs ys : List ℕ) → At f i (xs ++ ys) → At f (i + length xs) ys
At-append_right f i [] ys p = subst (λ k. At f k ys) (omega arith) p
At-append_right f i (x ∷ xs) ys p =
    subst (λ k. At f k ys) (omega arith) (At-append_right f (i + 1) xs ys p.1)

pub memcpy-below : (f : Cells) (i : ℕ) (bs : List ℕ) (j : ℕ) → j < i → memcpy f i bs j ≡ f j
unfolding memcpy
memcpy-below f i [] j h = refl
memcpy-below f i (b ∷ bs) j h = ground (arith, memcpy-below (store f i b) (i + 1) bs j)

pub memcpy-At : (f : Cells) (i : ℕ) (bs : List ℕ) → At (memcpy f i bs) i bs
unfolding memcpy
memcpy-At f i [] = tt
memcpy-At f i (b ∷ bs) =
    (ground (arith, memcpy-below (store f i b) (i + 1) bs i), memcpy-At (store f i b) (i + 1) bs)

-- Bytes that stand at an offset are what is read from it.
pub slice-At : (f : Cells) (i : ℕ) (bs : List ℕ) → At f i bs → slice f i (length bs) ≡ bs
unfolding slice
slice-At f i [] p = refl
slice-At f i (b ∷ bs) p = ground (arith, slice-At f (i + 1) bs p.1)

pub length-slice : (f : Cells) (i n : ℕ) → length (slice f i n) ≡ n
unfolding slice
length-slice f i zero = refl
length-slice f i (suc n) = omega (arith, length-slice f (i + 1) n)

pub memcpy-above :
    (f : Cells) (i : ℕ) (bs : List ℕ) (j : ℕ) → i + length bs ≤ j → memcpy f i bs j ≡ f j
unfolding memcpy
memcpy-above f i [] j h = refl
memcpy-above f i (b ∷ bs) j h = ground (arith, memcpy-above (store f i b) (i + 1) bs j)

pub memcpy-append :
    (f : Cells) (i : ℕ) (xs ys : List ℕ)
    → memcpy (memcpy f i xs) (i + length xs) ys ≡ memcpy f i (xs ++ ys)
unfolding memcpy
memcpy-append f i [] ys = ap (λ k. memcpy f k ys) (omega arith)
memcpy-append f i (x ∷ xs) ys =
    ap (λ k. memcpy (memcpy (store f i x) (i + 1) xs) k ys) (omega arith)
    ∙ memcpy-append (store f i x) (i + 1) xs ys
