-- ===== src/PollMgr/SelectAio/Ready.antt =====
-- wait_ready of SelectAIO: what it reports of what select found.
use yfs_lab.Prelude.{
  ℕ, zero, suc, ◌+◌, ◌-◌, ◌≤◌, ◌≡◌, refl, sym, ap, ◌∙◌, Bool, true, false, not, ◌&&◌, List, [], ◌∷◌,
  arith, leb, ◌==◌, if◌then◌else◌, Bool-cases, inl, inr, ==→≡,
}
use yfs_lab.Prelude.Outcome.{returns}
use yfs_lab.PollMgr.SelectAio.{FdSet, SelectAio, selected, Asked, wait_asks, collect, wait_ready}
use yfs_lab.PollMgr.SelectAio.Watching.{IsValid}

-- How often a descriptor is in a list.
abbrev pub count : ℕ → List ℕ → ℕ
count x [] = 0
count x (y ∷ ys) = (if x == y then 1 else 0) + count x ys

-- 1 for a descriptor of the range that is in the set.
abbrev pub in_range : FdSet → ℕ → ℕ → ℕ → ℕ
in_range r i n j = if leb i j && not (leb (i + n) j) && r j then 1 else 0

in_range-suc :
    (r : FdSet) (i n j : ℕ)
    → in_range r i (suc n) j ≡ (if j == i then (if r i then 1 else 0) else in_range r (i + 1) n j)
in_range-suc r i n j = elim (Bool-cases (j == i)) [
  | inl same ↦
      let at = ==→≡ j i same in
      let lo : leb i j ≡ true = ground (arith, at) in
      let hi : leb (i + suc n) j ≡ false = ground (arith, at) in
      rw (same, lo, hi) (ap (λ k. if r k then 1 else 0) at)
  | inr differ ↦
      let lo : leb i j ≡ leb (i + 1) j = ground (arith, differ) in
      let hi : leb (i + suc n) j ≡ leb (i + 1 + n) j = ground arith in rw (differ, lo, hi) refl
]

in_range_empty : (r : FdSet) (i j : ℕ) → in_range r i 0 j ≡ 0
in_range_empty r i j = ground arith

in_range_self : (r : FdSet) (i n : ℕ) → in_range r (i + 1) n i ≡ 0
in_range_self r i n = ground arith

zero_more : (x : ℕ) → x ≡ 0 + x
zero_more x = omega arith

-- One list of one round.
counted :
    (r : FdSet) (i n j : ℕ) (l : List ℕ)
    → count j l ≡ in_range r (i + 1) n j
    → count j (if r i then i ∷ l else l) ≡ in_range r i (suc n) j
counted r i n j l h = elim (Bool-cases (j == i)) [
  | inr differ ↦
      let others : count j (if r i then i ∷ l else l) ≡ count j l = elim (Bool-cases (r i)) [
        | inl y ↦ rw (y, differ) (sym (zero_more (count j l)))
        | inr m ↦ rw m refl
      ] in
      others ∙ h ∙ sym (in_range-suc r i n j ∙ rw differ refl)
  | inl same ↦
      let none_left : count j l ≡ 0 =
        h ∙ ap (in_range r (i + 1) n) (==→≡ j i same) ∙ in_range_self r i n in
      let here : count j (if r i then i ∷ l else l) ≡ (if r i then 1 else 0) =
        elim (Bool-cases (r i)) [
          | inl y ↦ rw (y, same) (omega (arith, none_left))
          | inr m ↦ rw m none_left
        ] in
      here ∙ sym (in_range-suc r i n j ∙ rw same refl)
]

-- What of a set is reported: the pipe is not, where it is ready to be read.
abbrev pub but : ℕ → FdSet → FdSet → FdSet
but p r x j = x j && not (j == p && r j)

and_true : (b : Bool) → (b && true) ≡ b
and_true true = refl
and_true false = refl

and_false : (b : Bool) → (b && false) ≡ false
and_false true = refl
and_false false = refl

-- The lists hold each descriptor of the range as often as its set does, but for the pipe.
collect-count :
    (p : ℕ) (r w : FdSet) (i n j : ℕ)
    → (count j (collect p r w i n).0 ≡ in_range (but p r r) i n j)
      × (count j (collect p r w i n).1 ≡ in_range (but p r w) i n j)
unfolding collect
collect-count p r w i zero j =
    (sym (in_range_empty (but p r r) i j), sym (in_range_empty (but p r w) i j))
collect-count p r w i (suc n) j =
    let rest = collect-count p r w (i + 1) n j in
    let one = counted (but p r r) i n j _ rest.0 in
    let two = counted (but p r w) i n j _ rest.1 in
    elim (Bool-cases (i == p && r i)) [
      | inl pipe ↦
          rw pipe ((rw (pipe, and_false (r i)) at one), (rw (pipe, and_false (w i)) at two))
      | inr other ↦
          rw other ((rw (other, and_true (r i)) at one), (rw (other, and_true (w i)) at two))
    ]

-- It reads one byte where the pipe is ready, and no more.
collect-reads :
    (p : ℕ) (r w : FdSet) (i n : ℕ) → (collect p r w i n).2 ≤ (if leb i p && r p then 1 else 0)
unfolding collect
collect-reads p r w i zero = omega arith
collect-reads p r w i (suc n) =
    let rest = collect-reads p r w (i + 1) n in
    elim (Bool-cases (i == p && r i)) [
      | inl pipe ↦
          let at : i ≡ p = ground (arith, pipe) in
          let ready : r p ≡ true = ap r (sym at) ∙ ground (arith, pipe) in
          let past : leb (i + 1) p ≡ false = ground (arith, at) in
          let here : leb i p ≡ true = ground (arith, at) in
          let gone : (collect p r w (i + 1) n).2 ≤ 0 = rw (past) at rest in
          rw (pipe, here, ready) (omega (arith, gone))
      | inr other ↦ rw other (weaker i (r p) (collect p r w (i + 1) n).2 rest)
    ]
  where
    weaker :
        (k : ℕ) (b : Bool) (x : ℕ)
        → x ≤ (if leb (k + 1) p && b then 1 else 0)
        → x ≤ (if leb k p && b then 1 else 0)
    weaker k b x h = ground (arith, h)

-- What select(2) is documented to do: of the sets that it is given it leaves what is ready, so that a
-- byte can be read from a pipe that is left.
pub record IsSelected (a : Asked) (s : SelectAio) (r w : FdSet) : Type 0 where
  pub readable : (j : ℕ) → r j ≡ true → a.trfds j ≡ true
  pub writable : (j : ℕ) → w j ≡ true → a.twfds j ≡ true
  pub wakes : (if r s.pipefd then 1 else 0) ≤ s.wakes

reported :
    (r : FdSet) (h j : ℕ) → (r j ≡ true → j ≤ h) → in_range r 0 (h + 1) j ≡ (if r j then 1 else 0)
reported r h j bound = elim (Bool-cases (r j)) [
  | inl y ↦
      let hi : leb (0 + (h + 1)) j ≡ false = ground (arith, bound y) in
      let lo : leb 0 j ≡ true = ground arith in rw (lo, hi) refl
  | inr m ↦ rw m (ground arith)
]

-- Where a sound state was asked of, and select did what it is documented to do, wait_ready returns,
-- and each descriptor that select has found readable is among the readable ones exactly once, each
-- that it has found writable is among the writable ones exactly once, and no other is among them; only
-- the pipe is left out, where it is readable.
pub wait_ready-count :
    (s0 s : SelectAio) (r w : FdSet)
    → IsValid s0
    → IsSelected (wait_asks s0) s r w
    → (readable : List ℕ) × (writable : List ℕ) × (s' : SelectAio) × (wait_ready s
          (wait_asks s0)
          (selected r w)
        ≡ returns ((readable, writable), s'))
      × ((j : ℕ)
          → (count j readable ≡ (if but s.pipefd r r j then 1 else 0))
            × (count j writable ≡ (if but s.pipefd r w j then 1 else 0)))
unfolding wait_ready wait_asks
wait_ready-count s0 s r w v sel =
    let reads = collect-reads s.pipefd r w 0 (s0.highfds + 1) in
    let front : leb 0 s.pipefd ≡ true = ground arith in
    let few = rw front at reads in
    let enough : leb (collect s.pipefd r w 0 (s0.highfds + 1)).2 s.wakes ≡ true =
      ground (arith, few, sel.wakes) in
    (
      (collect s.pipefd r w 0 (s0.highfds + 1)).0,
      (collect s.pipefd r w 0 (s0.highfds + 1)).1,
      record s { wakes = s.wakes - (collect s.pipefd r w 0 (s0.highfds + 1)).2 },
      rw enough refl,
      λ j.
          let c = collect-count s.pipefd r w 0 (s0.highfds + 1) j in
          (
            c.0
                ∙ reported (but s.pipefd r r) s0.highfds j
                    (λ h. v.bound j (ground (arith, sel.readable j, h))),
            c.1
                ∙ reported (but s.pipefd r w) s0.highfds j
                    (λ h. v.bound j (ground (arith, sel.writable j, h))),
          ),
    )
