-- ===== src/XidWindow/Received.antt =====
-- What the window says: the xids whose replies the client has.
use mathlib.Core.List.{append-nil}
use yfs_lab.Prelude.{
  ℕ, ◌+◌, ◌≤◌, ◌≡◌, refl, sym, ap, ◌∙◌, subst, List, [], ◌∷◌, ◌++◌, Bool, true, false, ◌||◌, arith,
  All, leb, ◌==◌, inl, inr,
}
use yfs_lab.XidWindow.{front, insert_xid, compress, update_xid_rep}
use yfs_lab.XidWindow.Order.{
  Above, IsGap, IsUint, IsWindow, Above-Middle, pop_fronts_cases, regroup, All-snoc,
  update_xid_rep_cases, insert_xid-Above, insert_xid-IsUint,
}

unfoldable pub elem : ℕ → List ℕ → Bool
elem y [] = false
elem y (x ∷ xs) = x == y || elem y xs

-- Every xid up to the front, and those that stand in the window.
unfoldable pub received : List ℕ → ℕ → Bool
received w y = leb y (front w) || elem y w

elem-append : (y : ℕ) (xs ys : List ℕ) → elem y (xs ++ ys) ≡ (elem y xs || elem y ys)
unfolding elem
elem-append y [] ys = refl
elem-append y (x ∷ xs) ys = ground (arith, elem-append y xs ys)

elem-insert_xid : (y xid : ℕ) (l : List ℕ) → elem y (insert_xid xid l) ≡ (xid == y || elem y l)
unfolding elem insert_xid
elem-insert_xid y xid [] = refl
elem-insert_xid y xid (x ∷ l) = ground (arith, elem-insert_xid y xid l)

elem_at_front :
    (f x y : ℕ) (p : List ℕ)
    → x ≡ f + 1
    → All (λ z. (f ≤ z) × (z ≤ x)) p
    → All (IsGap f) p
    → elem y p ≡ true
    → y ≡ f
unfolding elem
elem_at_front f x y [] e b g h = cc
elem_at_front f x y (z ∷ p) e b g h = ground (arith, elem_at_front f x y p e b.1 g.1)

-- One round of the loop does not change what the window says.
round_keeps :
    (f x y : ℕ) (p post : List ℕ)
    → x ≡ f + 1
    → Above f (p ++ (x ∷ post))
    → All (IsGap f) p
    → received (x ∷ post) y ≡ received (f ∷ (p ++ (x ∷ post))) y
unfolding received elem
round_keeps f x y p post e a g =
    let m = Above-Middle f p x post a in
    ground (arith, elem-append y p (x ∷ post), elem_at_front f x y p e m.before g)

compress-received :
    (f : ℕ) (p post : List ℕ) (y : ℕ)
    → Above f (p ++ post)
    → All (IsGap f) p
    → IsUint f
    → All IsUint post
    → received (compress (f ∷ p) post) y ≡ received (f ∷ (p ++ post)) y
unfolding compress
compress-received f p [] y a g u v = ap (λ l. received (f ∷ l) y) (sym (append-nil p))
compress-received f p (x ∷ post) y a g u v = elim (pop_fronts_cases f x p post a g u v.0) [
  | inl (e, gone) ↦ rw gone (
      compress-received x [] post y (Above-Middle f p x post a).after tt v.0 v.1
      ∙ round_keeps f x y p post e a g)
  | inr (n, kept) ↦ rw kept (
      compress-received f (p ++ (x ∷ [])) post y (subst (Above f) (sym (regroup p x post)) a)
        (All-snoc (IsGap f) p x g n) u v.1
      ∙ ap (λ l. received (f ∷ l) y) (regroup p x post))
]

-- An update of a window in order adds its 32-bit xid to what the window says, and nothing else.
pub received-update_xid_rep :
    (w : List ℕ) (xid y : ℕ)
    → IsUint xid
    → IsWindow w
    → received (update_xid_rep w xid) y ≡ (received w y || xid == y)
unfolding received elem
received-update_xid_rep [] xid y u v = absurd v
received-update_xid_rep (f ∷ l) xid y u v = elim (update_xid_rep_cases f l xid) [
  | inl (old, e) ↦ rw e (old_known f l xid y old)
  | inr (later, e) ↦ rw e (
      compress-received f [] (insert_xid xid l) y (insert_xid-Above f xid l (omega arith) v.0) tt
        v.2.0 (insert_xid-IsUint xid l u v.2.1)
      ∙ inserted f l xid y)
]
  where
    old_known :
        (f : ℕ) (l : List ℕ) (xid y : ℕ)
        → xid ≤ f
        → received (f ∷ l) y ≡ (received (f ∷ l) y || xid == y)
    old_known f l xid y old = ground arith

    inserted :
        (f : ℕ) (l : List ℕ) (xid y : ℕ)
        → received (f ∷ insert_xid xid l) y ≡ (received (f ∷ l) y || xid == y)
    inserted f l xid y = ground (arith, elem-insert_xid y xid l)

next_missing : (f : ℕ) (l : List ℕ) → All (IsGap f) l → elem (f + 1) l ≡ false
unfolding elem
next_missing f [] g = refl
next_missing f (x ∷ l) g = ground (arith, next_missing f l g.1)

-- In a window in order, the front, which each request carries as `xid_rep`, is the longest run: the
-- window says of every xid up to it that it has been received, and of the next one that it has not.
pub front_longest :
    (w : List ℕ)
    → IsWindow w
    → ((y : ℕ) → y ≤ front w → received w y ≡ true) × (received w (front w + 1) ≡ false)
unfolding received elem
front_longest [] v = absurd v
front_longest (f ∷ l) v = (λ y h. ground arith, ground (arith, next_missing f l v.1))
