-- ===== src/LockTester/Owners.antt =====
-- The threads of a test that have the lock.
use yfs_lab.Prelude.{
  ℕ, zero, suc, ◌+◌, ◌≡◌, ◌≢◌, refl, sym, ap, subst, ◌∙◌, List, [], ◌∷◌, Bool, true, false, some,
  some_inj, arith, All, if◌then◌else◌, Bool-cases, inl, inr,
}
use yfs_lab.Prelude.Int.{ℤ}
use yfs_lab.LockTester.{
  Place, starts, acquires, holds, granted, checked, Tester, tester_at, set_tester,
}

abbrev pub is_owner : Place → Bool
is_owner starts = false
is_owner acquires = false
is_owner holds = true
is_owner granted = true
is_owner checked = true

abbrev pub one_granted : Place → ℕ
one_granted starts = 0
one_granted acquires = 0
one_granted holds = 0
one_granted granted = 1
one_granted checked = 0

-- The clients of the threads that are behind `acquire` and not yet in `release`.
abbrev pub owners : List Tester → List ℤ
owners [] = []
owners (t ∷ ts) = if is_owner t.place then t.clt ∷ owners ts else owners ts

-- The threads between check_grant and check_release.
abbrev pub granted_count : List Tester → ℕ
granted_count [] = 0
granted_count (t ∷ ts) = one_granted t.place + granted_count ts

-- The first of a list that has no other.
abbrev tail_of : List ℤ → List ℤ
tail_of [] = []
tail_of (x ∷ xs) = xs

abbrev head_or : ℤ → List ℤ → ℤ
head_or d [] = d
head_or d (x ∷ xs) = x

pub owner_has :
    (i : ℕ) (ts : List Tester) (t : Tester)
    → tester_at i ts ≡ some t
    → is_owner t.place ≡ true
    → owners ts ≢ []
owner_has i [] t e o n = cc
owner_has zero (x ∷ ts) t e o n =
    let own : is_owner x.place ≡ true = ap (λ u. is_owner u.place) (some_inj e) ∙ o in
    cc (rw own at n)
owner_has (suc i) (x ∷ ts) t e o n = elim (Bool-cases (is_owner x.place)) [
  | inl y ↦ cc (rw y at n)
  | inr f ↦ owner_has i ts t e o (rw f at n)
]

granted-le-owner : (p : Place) → is_owner p ≡ false → one_granted p ≡ 0
granted-le-owner starts e = refl
granted-le-owner acquires e = refl
granted-le-owner holds e = absurd (cc e)
granted-le-owner granted e = absurd (cc e)
granted-le-owner checked e = refl

unowned-granted : (ts : List Tester) → owners ts ≡ [] → granted_count ts ≡ 0
unowned-granted [] e = refl
unowned-granted (t ∷ ts) e = elim (Bool-cases (is_owner t.place)) [
  | inl y ↦ absurd (cc (rw y at e))
  | inr f ↦ omega (arith, granted-le-owner t.place f, unowned-granted ts (rw f at e))
]

-- Where no thread has the lock, one gets it.
pub owners-enter :
    (i : ℕ) (ts : List Tester) (t u : Tester)
    → tester_at i ts ≡ some t
    → owners ts ≡ []
    → is_owner u.place ≡ true
    → owners (set_tester i u ts) ≡ u.clt ∷ []
owners-enter i [] t u e n o = absurd (cc e)
owners-enter zero (x ∷ ts) t u e n o = elim (Bool-cases (is_owner x.place)) [
  | inl y ↦ absurd (cc (rw y at n))
  | inr f ↦ rw o (ap (λ l. u.clt ∷ l) (rw f at n))
]
owners-enter (suc i) (x ∷ ts) t u e n o = elim (Bool-cases (is_owner x.place)) [
  | inl y ↦ absurd (cc (rw y at n))
  | inr f ↦ rw f (owners-enter i ts t u e (rw f at n) o)
]

-- The one thread that has the lock: it is that of the client, nobody else has been granted it, and
-- nobody has it once that thread gives it up.
pub record Alone (i : ℕ) (ts : List Tester) (t : Tester) (c : ℤ) : Type 0 where
  pub client : t.clt ≡ c
  pub only : granted_count ts ≡ one_granted t.place
  pub given_up : (u : Tester) → is_owner u.place ≡ false → owners (set_tester i u ts) ≡ []

pub owner-Alone :
    (i : ℕ) (ts : List Tester) (t : Tester) (c : ℤ)
    → tester_at i ts ≡ some t
    → owners ts ≡ c ∷ []
    → is_owner t.place ≡ true
    → Alone i ts t c
owner-Alone i [] t c e n o = absurd (cc e)
owner-Alone zero (x ∷ ts) t c e n o =
    let same = some_inj e in
    let own : is_owner x.place ≡ true = ap (λ u. is_owner u.place) same ∙ o in
    let one : x.clt ∷ owners ts ≡ c ∷ [] = rw own at n in
    let rest : owners ts ≡ [] = ap tail_of one in
    record {
      client = sym (ap (λ u. u.clt) same) ∙ ap (head_or c) one;
      only = omega (arith, unowned-granted ts rest, ap (λ u. one_granted u.place) same);
      given_up = λ u f. rw f rest;
    }
owner-Alone (suc i) (x ∷ ts) t c e n o = elim (Bool-cases (is_owner x.place)) [
  | inl y ↦
      let one : x.clt ∷ owners ts ≡ c ∷ [] = rw y at n in
      absurd (owner_has i ts t e o (ap tail_of one))
  | inr f ↦
      let a = owner-Alone i ts t c e (rw f at n) o in
      record {
        client = a.client;
        only = omega (arith, a.only, granted-le-owner x.place f);
        given_up = λ u g. rw f (a.given_up u g);
      }
]

pub owners-stay :
    (i : ℕ) (ts : List Tester) (t u : Tester)
    → tester_at i ts ≡ some t
    → is_owner u.place ≡ is_owner t.place
    → u.clt ≡ t.clt
    → owners (set_tester i u ts) ≡ owners ts
owners-stay i [] t u e p c = refl
owners-stay zero (x ∷ ts) t u e p c = rw (p, c, some_inj e) refl
owners-stay (suc i) (x ∷ ts) t u e p c = rw (owners-stay i ts t u e p c) refl

pub granted_count-set :
    (i : ℕ) (ts : List Tester) (t u : Tester)
    → tester_at i ts ≡ some t
    → granted_count (set_tester i u ts) + one_granted t.place
      ≡ granted_count ts + one_granted u.place
granted_count-set i [] t u e = absurd (cc e)
granted_count-set zero (x ∷ ts) t u e = omega (arith, ap (λ v. one_granted v.place) (some_inj e))
granted_count-set (suc i) (x ∷ ts) t u e = omega (arith, granted_count-set i ts t u e)

pub All-set :
    (P : Tester → Type 0) (i : ℕ) (ts : List Tester) (u : Tester)
    → All P ts
    → P u
    → All P (set_tester i u ts)
All-set P i [] u a p = tt
All-set P zero (x ∷ ts) u a p = (p, a.1)
All-set P (suc i) (x ∷ ts) u a p = (a.0, All-set P i ts u a.1 p)

pub All-at :
    (P : Tester → Type 0) (i : ℕ) (ts : List Tester) (t : Tester)
    → tester_at i ts ≡ some t
    → All P ts
    → P t
All-at P i [] t e a = absurd (cc e)
All-at P zero (x ∷ ts) t e a = subst P (some_inj e) a.0
All-at P (suc i) (x ∷ ts) t e a = All-at P i ts t e a.1
