-- ===== src/XidWindow/Order.antt =====
-- The order of the window, and each round of the compression.
use yfs_lab.Prelude.{
  ℕ, ◌+◌, ◌%◌, ◌^◌, ◌≤◌, ◌<◌, ◌≡◌, ◌≢◌, ◌⊎◌, refl, sym, subst, List, [], ◌∷◌, ◌++◌, arith, All, inl,
  inr,
}
use mathlib.Core.List.{append_assoc, append-nil}
use native.Mathlib.Decide.{ℕ_discrete, dec_le}
use native.Mathlib.Nat.{le_refl}
use yfs_lab.XidWindow.{insert_xid, pop_fronts, compress, update_xid_rep}

-- The list ascends, from `n` on.
abbrev pub Above : ℕ → List ℕ → Type 0
Above n [] = Unit
Above n (x ∷ xs) = (n ≤ x) × Above x xs

abbrev pub IsUint : ℕ → Type 0
IsUint x = x < 2 ^ 32

abbrev pub IsGap : ℕ → ℕ → Type 0
IsGap f y = y ≢ f + 1

-- Not empty, ascending, of `unsigned int`s, and without the xid that follows the front.
abbrev pub IsWindow : List ℕ → Type 0
IsWindow [] = ⊥
IsWindow (f ∷ l) = Above f l × All (IsGap f) l × (IsUint f × All IsUint l)

-- What the order says about an element `x` in the middle.
pub record Middle (f : ℕ) (p : List ℕ) (x : ℕ) (post : List ℕ) : Type 0 where
  pub first : f ≤ x
  pub before : All (λ y. (f ≤ y) × (y ≤ x)) p
  pub after : Above x post

widen_before :
    (n f x : ℕ) (p : List ℕ)
    → n ≤ f
    → All (λ y. (f ≤ y) × (y ≤ x)) p
    → All (λ y. (n ≤ y) × (y ≤ x)) p
widen_before n f x [] h a = tt
widen_before n f x (y ∷ p) h a = ((omega (arith, a.0.0), a.0.1), widen_before n f x p h a.1)

pub Above-Middle :
    (f : ℕ) (p : List ℕ) (x : ℕ) (post : List ℕ) → Above f (p ++ (x ∷ post)) → Middle f p x post
Above-Middle f [] x post a = record { first = a.0; before = tt; after = a.1 }
Above-Middle f (y ∷ p) x post a =
    let m = Above-Middle y p x post a.1 in
    record {
      first = omega (arith, a.0, m.first);
      before = ((a.0, m.first), widen_before f y x p a.0 m.before);
      after = m.after;
    }

-- Nothing is removed where the front's successor is not `x`, and all that equals the front is.
pub pop_fronts-keep :
    (f x : ℕ) (p : List ℕ) → IsUint f → f ≤ x → IsGap f x → pop_fronts x (f ∷ p) ≡ f ∷ p
unfolding pop_fronts
pop_fronts-keep f x p u le g = ground arith

pop_fronts-equal :
    (f x : ℕ) (p : List ℕ)
    → IsUint x
    → x ≡ f + 1
    → All (λ y. (f ≤ y) × (y ≤ x)) p
    → All (IsGap f) p
    → pop_fronts x p ≡ []
unfolding pop_fronts
pop_fronts-equal f x [] u e b g = refl
pop_fronts-equal f x (y ∷ p) u e b g =
    let same : (y + 1) % 2 ^ 32 ≡ x = omega (arith, g.0, b.0) in
    ground (arith, same, pop_fronts-equal f x p u e b.1 g.1)

-- One round of the loop: the elements before `it` go, or none does.
pub pop_fronts_cases :
    (f x : ℕ) (p post : List ℕ)
    → Above f (p ++ (x ∷ post))
    → All (IsGap f) p
    → IsUint f
    → IsUint x
    → ((x ≡ f + 1) × (pop_fronts x (f ∷ p) ≡ [])) ⊎ (IsGap f x × (pop_fronts x (f ∷ p) ≡ f ∷ p))
pop_fronts_cases f x p post a g uf ux =
    let m = Above-Middle f p x post a in
    elim (ℕ_discrete x (f + 1)) [
      | yes e ↦
          inl (
            e,
            pop_fronts-equal f x (f ∷ p) ux e ((le_refl f, m.first), m.before) ((omega arith), g),
          )
      | no n ↦ inr (n, pop_fronts-keep f x p uf m.first n)
    ]

pub All-snoc {ℓ κ} :
    {A : Type ℓ} (P : A → Type κ) (xs : List A) (x : A) → All P xs → P x → All P (xs ++ (x ∷ []))
All-snoc P [] x h p = (p, tt)
All-snoc P (y ∷ xs) x h p = (h.0, All-snoc P xs x h.1 p)

pub regroup : (p : List ℕ) (x : ℕ) (post : List ℕ) → (p ++ (x ∷ [])) ++ post ≡ p ++ (x ∷ post)
regroup p x post = append_assoc p (x ∷ []) post

compress-IsWindow :
    (f : ℕ) (p post : List ℕ)
    → Above f (p ++ post)
    → All (IsGap f) p
    → IsUint f × All IsUint p
    → All IsUint post
    → IsWindow (compress (f ∷ p) post)
unfolding compress
compress-IsWindow f p [] a g u v = (subst (Above f) (append-nil p) a, g, u)
compress-IsWindow f p (x ∷ post) a g u v = elim (pop_fronts_cases f x p post a g u.0 v.0) [
  | inl (e, gone) ↦
      rw gone (compress-IsWindow x [] post (Above-Middle f p x post a).after tt (v.0, tt) v.1)
  | inr (n, kept) ↦ rw kept (
      compress-IsWindow f (p ++ (x ∷ [])) post (subst (Above f) (sym (regroup p x post)) a)
        (All-snoc (IsGap f) p x g n) (u.0, All-snoc IsUint p x u.1 v.0) v.1)
]

pub insert_xid-Above : (n xid : ℕ) (l : List ℕ) → n ≤ xid → Above n l → Above n (insert_xid xid l)
unfolding insert_xid
insert_xid-Above n xid [] h a = (h, tt)
insert_xid-Above n xid (x ∷ l) h a = ground (arith, insert_xid-Above x xid l)

pub insert_xid-IsUint :
    (xid : ℕ) (l : List ℕ) → IsUint xid → All IsUint l → All IsUint (insert_xid xid l)
unfolding insert_xid
insert_xid-IsUint xid [] h a = (h, tt)
insert_xid-IsUint xid (x ∷ l) h a = ground (arith, insert_xid-IsUint xid l)

-- An update either changes nothing, or inserts behind the front and compresses.
pub update_xid_rep_cases :
    (f : ℕ) (l : List ℕ) (xid : ℕ)
    → ((xid ≤ f) × (update_xid_rep (f ∷ l) xid ≡ f ∷ l))
      ⊎ ((f < xid) × (update_xid_rep (f ∷ l) xid ≡ compress (f ∷ []) (insert_xid xid l)))
unfolding update_xid_rep insert_xid
update_xid_rep_cases f l xid = elim (dec_le xid f) [
  | yes old ↦ inl (old, ground arith)
  | no later ↦ inr (omega arith, ground arith)
]

-- Every update by a 32-bit xid keeps the window in order, and leaves no xid behind the front that
-- could be merged.
pub update_xid_rep-IsWindow :
    (w : List ℕ) (xid : ℕ) → IsUint xid → IsWindow w → IsWindow (update_xid_rep w xid)
update_xid_rep-IsWindow [] xid u v = absurd v
update_xid_rep-IsWindow (f ∷ l) xid u v = elim (update_xid_rep_cases f l xid) [
  | inl (old, e) ↦ rw e v
  | inr (later, e) ↦ rw e (
      compress-IsWindow f [] (insert_xid xid l) (insert_xid-Above f xid l (omega arith) v.0) tt
        (v.2.0, tt) (insert_xid-IsUint xid l u v.2.1))
]
