-- ===== src/Rpcc/Channels/Counts.antt =====
-- What incref, decref and closeconn do to the counts of a store.
use native.Mathlib.Decide.{dec_lt}
use yfs_lab.Prelude.{
  ◌≤◌, ℕ, zero, suc, ◌+◌, ◌-◌, ◌≡◌, ◌<◌, ◌⊎◌, refl, ap, ◌∙◌, subst, true, false, Option, none, some,
  arith, ◌==◌, if◌then◌else◌, Bool-cases, Option-cases, inl, inr, ==→≡,
}
use yfs_lab.Prelude.Int.{pos, suc_int}
use yfs_lab.Prelude.Outcome.{WillReturn, will-then}
use yfs_lab.Connection.{Connection, incref, decref, destroy}
use yfs_lab.Rpcc.Channels.{Store, put, load, incref_at, decref_at}

-- `n` pointers to a connection, of which `g` are in threads inside its `send` and `p` is chan_: the
-- count is their number, it is alive only where it is chan_, and it holds a message only where a
-- thread sends one.
pub record IsCounted (c : Connection) (n g p : ℕ) : Type 0 where
  pub count : c.refno ≡ pos n
  pub some_left : 0 < n
  pub alive : (0 < p) ⊎ (c.dead ≡ true)
  pub idle : (c.wpdu.buf ≡ none) ⊎ (0 < g)

-- A connection that is deleted, or was never made, has no pointers to it.
abbrev pub Fits : Option Connection → ℕ → ℕ → ℕ → Type 0
Fits none n g p = n ≡ 0
Fits (some c) n g p = IsCounted c n g p

pub Fits-subst :
    (o : Option Connection) (n n' g g' p p' : ℕ)
    → n ≡ n'
    → g ≡ g'
    → p ≡ p'
    → Fits o n g p
    → Fits o n' g' p'
Fits-subst o n n' g g' p p' a b c f =
    subst (λ x. Fits o x g' p') a (subst (λ x. Fits o n x p') b (subst (λ x. Fits o n g x) c f))

decref-Fits :
    (c : Connection) (m g p : ℕ)
    → IsCounted c (suc m) g p
    → (0 < m) ⊎ ((p ≡ 0) × (g ≡ 0))
    → WillReturn (λ o. Fits o m g p) (decref c)
unfolding decref destroy
decref-Fits c zero g p v (inl l) = absurd (omega (arith, l))
decref-Fits c zero g p v (inr (np, ng)) =
    let dead : c.dead ≡ true = ground (arith, v.alive) in
    let idle : c.wpdu.buf ≡ none = ground (arith, v.idle) in rw (v.count, dead, idle) refl
decref-Fits c (suc m) g p v last =
    rw v.count (record { count = refl; some_left = omega arith; alive = v.alive; idle = v.idle })

-- One at `k`.
abbrev pub one_at : ℕ → ℕ → ℕ
one_at k y = if k == y then 1 else 0

-- No connection stands at `b` or above.
abbrev pub AllFit : Store → ℕ → (ℕ → ℕ) → (ℕ → ℕ) → (ℕ → ℕ) → Type 0
AllFit s b n g p = (y : ℕ) → Fits (s y) (n y) (g y) (p y) × (b ≤ y → s y ≡ none)

none_left : (o : Option Connection) (n g p : ℕ) → o ≡ none → Fits o n g p → n ≡ 0
none_left none n g p e f = f
none_left (some c) n g p e f = absurd (cc e)

pub AllFit-ext :
    (s : Store) (b : ℕ) (n n' g g' p p' : ℕ → ℕ)
    → ((y : ℕ) → (n y ≡ n' y) × (g y ≡ g' y) × (p y ≡ p' y))
    → AllFit s b n g p
    → AllFit s b n' g' p'
AllFit-ext s b n n' g g' p p' same h y =
    let (i, j, k) = same y in (Fits-subst (s y) _ _ _ _ _ _ i j k (h y).0, (h y).1)

module _ (s : Store) (b : ℕ) (n g p : ℕ → ℕ) (h : AllFit s b n g p) where
  -- A pointer that is held is to a connection.
  pub pointed : (k : ℕ) → 0 < n k → (c : Connection) × (s k ≡ some c)
  pointed k l = elim (Option-cases (s k)) [
    | inl e ↦ absurd (omega (arith, l, none_left (s k) (n k) (g k) (p k) e (h k).0))
    | inr x ↦ x
  ]

  pub made : (k : ℕ) (c : Connection) → s k ≡ some c → k < b
  made k c e = elim (dec_lt k b) [
    | yes l ↦ l
    | no above ↦ absurd (cc ((h k).1 (omega (arith, above)), e))
  ]

  pub at : (k : ℕ) (c : Connection) → s k ≡ some c → IsCounted c (n k) (g k) (p k)
  at k c e = subst (λ o. Fits o (n k) (g k) (p k)) e (h k).0

  pub unmade : (k : ℕ) → b ≤ k → n k ≡ 0
  unmade k l = none_left (s k) (n k) (g k) (p k) ((h k).1 l) (h k).0

  pub put-AllFit :
      (k b' : ℕ) (o : Option Connection) (n' g' p' : ℕ → ℕ)
      → k < b'
      → b ≤ b'
      → Fits o (n' k) (g' k) (p' k)
      → ((y : ℕ) → (k == y) ≡ false → (n y ≡ n' y) × (g y ≡ g' y) × (p y ≡ p' y))
      → AllFit (put s k o) b' n' g' p'
  unfolding put
  put-AllFit k b' o n' g' p' l le f keep y = elim (Bool-cases (k == y)) [
    | inl t ↦ rw t (
      subst (λ x. Fits o (n' x) (g' x) (p' x)) (==→≡ k y t) f,
      λ m. absurd (omega (arith, l, m, ==→≡ k y t)),
    )
    | inr ne ↦
        let (i, j, q) = keep y ne in
        rw ne (Fits-subst (s y) _ _ _ _ _ _ i j q (h y).0, λ m. (h y).1 (omega (arith, le, m)))
  ]

  pub incref_at-AllFit :
      (k : ℕ) → 0 < n k → WillReturn (λ s'. AllFit s' b (λ y. n y + one_at k y) g p) (incref_at s k)
  unfolding incref_at load incref
  incref_at-AllFit k l =
      let (c, e) = pointed k l in
      let v = at k c e in
      rw (incref_at, load, e)
        (put-AllFit k b (some (incref c)) _ g p (made k c e) (omega arith)
          (record {
            count = ap suc_int v.count ∙ ap pos (ground arith);
            some_left = ground arith;
            alive = v.alive;
            idle = v.idle;
          })
          (λ y ne. (ground arith, refl, refl)))

  pub decref_at-AllFit :
      (k : ℕ)
      → 0 < n k
      → (1 < n k) ⊎ ((p k ≡ 0) × (g k ≡ 0))
      → WillReturn (λ s'. AllFit s' b (λ y. n y - one_at k y) g p) (decref_at s k)
  unfolding decref_at load
  decref_at-AllFit k l last =
      let (c, e) = pointed k l in
      let v = at k c e in
      let counted : IsCounted c (suc (n k - 1)) (g k) (p k) = record {
        count = v.count ∙ ap pos (omega (arith, v.some_left));
        some_left = omega arith;
        alive = v.alive;
        idle = v.idle;
      } in
      rw (decref_at, load, e)
        (will-then (λ o. Fits o (n k - 1) (g k) (p k))
          (λ s'. AllFit s' b (λ y. n y - one_at k y) g p) (decref c) _
          (decref-Fits c (n k - 1) (g k) (p k) counted (ground arith))
          (λ o f.
            put-AllFit k b o _ g p (made k c e) (omega arith)
              (Fits-subst o _ _ _ _ _ _ (ground arith) refl refl f)
              (λ y ne. (ground arith, refl, refl))))
