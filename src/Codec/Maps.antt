-- ===== src/Codec/Maps.antt =====
-- std::map as an argument (rpc/marshall.h).
use mathlib.Core.List.{append_assoc, append-nil}
use yfs_lab.Prelude.{
  ℕ, zero, suc, ◌%◌, ◌^◌, ◌<◌, ◌≡◌, refl, sym, ap, ◌∙◌, subst, List, [], ◌∷◌, ◌++◌, Bool, true,
  false, All, length,
}
use yfs_lab.Marshall.{Marshall, put_uint, put_elements, put_vector, put_entries, put_map}
use yfs_lab.Marshall.Writes.{Appends, IsValid, put_vector-Appends, encode_vector}
use yfs_lab.Unmarshall.{
  Unmarshall, get_uint, get_elements, get_vector, assign, get_entries, get_map,
}
use yfs_lab.Unmarshall.Reads.{Next, skip, get_vector-Next}
use yfs_lab.Codec.{Codec}
use yfs_lab.Codec.Types.{put_then, get_then, then_codec}

-- The order of the keys, which is strict.
module _ {A B : Type 0} (lt : A → A → Bool) (strict : (a b : A) → lt a b ≡ true → lt b a ≡ false)
    (c : Codec A) (d : Codec B) where
  -- The entries of a map: each key is below all later ones.
  abbrev pub IsSorted : List (A × B) → Type 0
  IsSorted [] = Unit
  IsSorted (e ∷ l) = All (λ x. lt e.0 x.0 ≡ true) l × IsSorted l

  -- All of `acc` is below `a`.
  abbrev Below : A → List (A × B) → Type 0
  Below a acc = All (λ e. lt e.0 a ≡ true) acc

  assign-snoc :
      (a : A) (b : B) (acc : List (A × B)) → Below a acc → assign lt a b acc ≡ acc ++ ((a, b) ∷ [])
  unfolding assign
  assign-snoc a b [] h = refl
  assign-snoc a b (e ∷ acc) h =
      let not_before = strict e.0 a h.0 in
      let below = h.0 in rw (not_before, below) (ap (λ l. e ∷ l) (assign-snoc a b acc h.1))

  abbrev assign_all : List (A × B) → List (A × B) → List (A × B)
  assign_all acc [] = acc
  assign_all acc (e ∷ l) = assign_all (assign lt e.0 e.1 acc) l

  -- Every entry of `acc` is below every one of `l`.
  abbrev Under : List (A × B) → List (A × B) → Type 0
  Under acc [] = Unit
  Under acc (e ∷ l) = Below e.0 acc × Under acc l

  Under-snoc :
      (e : A × B) (acc l : List (A × B))
      → Under acc l
      → All (λ x. lt e.0 x.0 ≡ true) l
      → Under (acc ++ (e ∷ [])) l
  Under-snoc e acc [] u h = tt
  Under-snoc e acc (x ∷ l) u h = (Below-snoc acc u.0, Under-snoc e acc l u.1 h.1)
    where
      Below-snoc : (k : List (A × B)) → Below x.0 k → Below x.0 (k ++ (e ∷ []))
      Below-snoc [] p = (h.0, tt)
      Below-snoc (y ∷ k) p = (p.0, Below-snoc k p.1)

  assign_all-append :
      (acc l : List (A × B)) → Under acc l → IsSorted l → assign_all acc l ≡ acc ++ l
  assign_all-append acc [] u s = sym (append-nil acc)
  assign_all-append acc (e ∷ l) u s = rw (assign-snoc e.0 e.1 acc u.0) (
      assign_all-append (acc ++ (e ∷ [])) l (Under-snoc e acc l u.1 s.0) s.1
      ∙ append_assoc acc (e ∷ []) l)

  Under-nil : (l : List (A × B)) → Under [] l
  Under-nil [] = tt
  Under-nil (e ∷ l) = (tt, Under-nil l)

  -- The loop reads the entries as a vector's loop does, and assigns them one after the other.
  get_entries-eq :
      (n : ℕ) (acc : List (A × B)) (u : Unmarshall)
      → get_entries lt c.get d.get n acc u
        ≡ (assign_all acc (get_elements (get_then c d) n u).0, (get_elements (get_then c d) n u).1)
  unfolding get_entries get_elements
  get_entries-eq zero acc u = refl
  get_entries-eq (suc n) acc u =
      get_entries-eq n (assign lt (c.get u).0 (d.get (c.get u).1).0 acc) (d.get (c.get u).1).1

  put_entries-eq :
      (m : Marshall) (l : List (A × B))
      → put_entries c.put d.put m l ≡ put_elements (put_then c d) m l
  unfolding put_entries put_elements
  put_entries-eq m [] = refl
  put_entries-eq m (e ∷ l) = put_entries-eq (d.put (c.put m e.0) e.1) l

  abbrev pub encode_entry : A × B → List ℕ
  encode_entry e = c.encode e.0 ++ d.encode e.1

  abbrev pub FitsEntry : A × B → Type 0
  FitsEntry e = c.Fits e.0 × d.Fits e.1

  -- For a sound buffer and entries that fit, a map is written as its size in four bytes (modulo 2^32)
  -- and its entries in the order of their keys, each key in front of its value.
  pub put_map-Appends :
      (m : Marshall) (l : List (A × B))
      → IsValid m
      → All FitsEntry l
      → Appends m (put_map c.put d.put m l) (encode_vector encode_entry l)
  unfolding put_map put_vector
  put_map-Appends m l v f =
      subst (λ r. Appends m r (encode_vector encode_entry l))
        (sym (put_entries-eq (put_uint m (length l % 2 ^ 32)) l))
        (put_vector-Appends (put_then c d) encode_entry FitsEntry (then_codec c d).put-Appends m l v
          f)

  -- A map of less than 2^32 entries that stands next in a message without a failure, its keys in a
  -- strict order, is what is read, and the reader stands behind it.
  pub get_map-Next :
      (u : Unmarshall) (l : List (A × B))
      → length l < 2 ^ 32
      → All FitsEntry l
      → IsSorted l
      → u.is_ok ≡ true
      → Next u (encode_vector encode_entry l)
      → get_map lt c.get d.get u ≡ (l, skip u (length (encode_vector encode_entry l)))
  unfolding get_map get_vector
  get_map-Next u l small f s good n =
      let read =
        get_vector-Next (get_then c d) encode_entry FitsEntry (then_codec c d).get-Next u l small f
          good n in
      get_entries-eq (get_uint u).0 [] (get_uint u).1
      ∙ ap (λ (r : List (A × B) × Unmarshall). (assign_all [] r.0, r.1)) read
      ∙ ap (λ k. (k, skip u (length (encode_vector encode_entry l))))
          (assign_all-append [] l (Under-nil l) s)

  -- A std::map is an argument of calls.
  abbrev pub map_codec : Codec (List (A × B))
  map_codec = record {
    put = put_map c.put d.put;
    get = get_map lt c.get d.get;
    encode = encode_vector encode_entry;
    Fits = λ l. (length l < 2 ^ 32) × All FitsEntry l × IsSorted l;
    put-Appends = λ m l v f. put_map-Appends m l v f.1;
    get-Next = λ u l f good n. get_map-Next u l f.0 f.1 f.2 good n;
  }
