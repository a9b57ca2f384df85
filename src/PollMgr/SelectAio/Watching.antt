-- ===== src/PollMgr/SelectAio/Watching.antt =====
-- The sets and the highest descriptor of SelectAIO, and SelectAIO as the aio_mgr of PollMgr.
use yfs_lab.Prelude.{
  ℕ, zero, suc, ◌+◌, ◌≤◌, ◌<◌, ◌≡◌, ◌⊎◌, refl, sym, ap, ◌∙◌, subst, Bool, true, false, not, ◌&&◌,
  ◌||◌, some, arith, leb, ◌==◌, if◌then◌else◌, Bool-cases, inl, inr, ==→≡,
}
use native.Mathlib.Decide.{dec_le}
use yfs_lab.Prelude.Outcome.{returns}
use yfs_lab.PollMgr.{PollFlag, cb_none, cb_rdonly, cb_wronly, cb_rdwr, cb_mask, Mode, asks, update}
use yfs_lab.PollMgr.SelectAio.{
  FdSet, SelectAio, select_aio, watch_fd, scan, is_clear, lower_high, wake_all, unwatch_fd,
}

-- A descriptor in one of two sets.
abbrev pub in_sets : FdSet → FdSet → ℕ → Bool
in_sets r w j = r j || w j

scan-range :
    (r w : FdSet) (i n h : ℕ)
    → (scan r w i n h ≡ h) ⊎ ((i ≤ scan r w i n h) × (in_sets r w (scan r w i n h) ≡ true))
unfolding scan
scan-range r w i zero h = inl refl
scan-range r w i (suc n) h = elim (Bool-cases (r i)) [
  | inl yes_r ↦ rw yes_r (found (rw yes_r refl) (scan-range r w (i + 1) n i))
  | inr no_r ↦ elim (Bool-cases (w i)) [
    | inl yes_w ↦ rw (no_r, yes_w) (found (rw (no_r, yes_w) refl) (scan-range r w (i + 1) n i))
    | inr no_w ↦ rw (no_r, no_w) (later (scan-range r w (i + 1) n h))
  ]
]
  where
    found :
        {x : ℕ}
        → in_sets r w i ≡ true
        → (x ≡ i) ⊎ ((i + 1 ≤ x) × (in_sets r w x ≡ true))
        → (x ≡ h) ⊎ ((i ≤ x) × (in_sets r w x ≡ true))
    found here (inl e) = inr (omega (arith, e), subst (λ k. in_sets r w k ≡ true) (sym e) here)
    found here (inr (le, there)) = inr (omega (arith, le), there)

    later :
        {x : ℕ}
        → (x ≡ h) ⊎ ((i + 1 ≤ x) × (in_sets r w x ≡ true))
        → (x ≡ h) ⊎ ((i ≤ x) × (in_sets r w x ≡ true))
    later (inl e) = inl e
    later (inr (le, there)) = inr (omega (arith, le), there)

scan-bound :
    (r w : FdSet) (i n h j : ℕ) → i ≤ j → j < i + n → in_sets r w j ≡ true → j ≤ scan r w i n h
unfolding scan
scan-bound r w i zero h j lo hi e = absurd (omega (arith, lo, hi))
scan-bound r w i (suc n) h j lo hi e = elim (dec_le (i + 1) j) [
  | yes later ↦ scan-bound r w (i + 1) n _ j later (omega (arith, hi)) e
  | no first ↦
      let here : i ≡ j = omega (arith, lo, first) in
      let set : (if r i then i else if w i then i else h) ≡ i =
        set_here (r i) (w i) (ap (in_sets r w) here ∙ e) in
      rw set (reach (scan-range r w (i + 1) n i) here)
]
  where
    set_here : (a b : Bool) → (a || b) ≡ true → (if a then i else if b then i else h) ≡ i
    set_here true b q = refl
    set_here false true q = refl
    set_here false false q = absurd (cc q)

    reach : {x : ℕ} {P : Type 0} → (x ≡ i) ⊎ ((i + 1 ≤ x) × P) → i ≡ j → j ≤ x
    reach (inl q) here = omega (arith, q, here)
    reach (inr (le, there)) here = omega (arith, le, here)

-- The pipe is watched, no watched descriptor is above `highfds`, and `highfds` is watched.
pub record IsValid (s : SelectAio) : Type 0 where
  pub pipe : s.rfds s.pipefd ≡ true
  pub bound : (j : ℕ) → in_sets s.rfds s.wfds j ≡ true → j ≤ s.highfds
  pub tight : in_sets s.rfds s.wfds s.highfds ≡ true

-- A new SelectAIO is sound.
pub select_aio-IsValid : (p : ℕ) → IsValid (select_aio p)
unfolding select_aio
select_aio-IsValid p = record {
  pipe = ground arith;
  bound = λ j h. ground (arith, h);
  tight = ground arith;
}

-- One more descriptor is in the sets.
added-IsValid :
    (s s' : SelectAio) (fd : ℕ)
    → IsValid s
    → s'.highfds ≡ (if leb s.highfds fd then fd else s.highfds)
    → s'.rfds s'.pipefd ≡ true
    → in_sets s'.rfds s'.wfds fd ≡ true
    → ((j : ℕ) → (j == fd) ≡ false → in_sets s'.rfds s'.wfds j ≡ in_sets s.rfds s.wfds j)
    → IsValid s'
added-IsValid s s' fd v high pipe here others = record {
  pipe = pipe;
  bound = λ j h. elim (Bool-cases (j == fd)) [
    | inl same ↦ ground (arith, same, high)
    | inr differ ↦ ground (arith, high, v.bound j (sym (others j differ) ∙ h))
  ];
  tight = elim (Bool-cases (leb s.highfds fd)) [
    | inl up ↦ let at : s'.highfds ≡ fd = rw (high, up) refl in rw at here
    | inr stays ↦
        let at : s'.highfds ≡ s.highfds = rw (high, stays) refl in
        let differ : (s.highfds == fd) ≡ false = ground (arith, stays) in
        rw at (others s.highfds differ ∙ v.tight)
  ];
}

-- For every flag, watch_fd leaves a sound state sound.
pub watch_fd-IsValid :
    (s : SelectAio) (fd : ℕ) (flag : PollFlag) → IsValid s → IsValid (watch_fd s fd flag)
unfolding watch_fd
watch_fd-IsValid s fd cb_rdonly v =
    added-IsValid s _ fd v refl (ground (arith, v.pipe)) (ground arith) (λ j n. rw n refl)
watch_fd-IsValid s fd cb_wronly v =
    added-IsValid s _ fd v refl v.pipe (ground arith) (λ j n. rw n refl)
watch_fd-IsValid s fd flag v =
    added-IsValid s _ fd v refl (ground (arith, v.pipe)) (ground arith) (λ j n. rw n refl)

-- A descriptor may be in no set any more.
lower_high-IsValid :
    (s : SelectAio) (fd : ℕ)
    → s.rfds s.pipefd ≡ true
    → ((j : ℕ) → in_sets s.rfds s.wfds j ≡ true → j ≤ s.highfds)
    → ((s.highfds == fd) ≡ false → in_sets s.rfds s.wfds s.highfds ≡ true)
    → IsValid (lower_high s fd)
unfolding lower_high
lower_high-IsValid s fd pipe bound tight = elim (Bool-cases (is_clear s fd && fd == s.highfds)) [
  | inl low ↦ rw low (record {
    pipe = pipe;
    bound = λ j h.
        scan-bound s.rfds s.wfds 0 (s.highfds + 1) s.pipefd j (omega arith)
          (omega (arith, bound j h)) h;
    tight = elim (scan-range s.rfds s.wfds 0 (s.highfds + 1) s.pipefd) [
      | inl end ↦ rw (end, pipe) refl
      | inr (le, there) ↦ there
    ];
  })
  | inr keep ↦
      rw keep
        (record { pipe = pipe; bound = bound; tight = kept (Bool-cases (s.highfds == fd)) keep })
]
  where
    kept :
        ((s.highfds == fd) ≡ true) ⊎ ((s.highfds == fd) ≡ false)
        → (is_clear s fd && fd == s.highfds) ≡ false
        → in_sets s.rfds s.wfds s.highfds ≡ true
    kept (inr differ) e = tight differ
    kept (inl same) e =
        let at : s.highfds ≡ fd = ==→≡ s.highfds fd same in
        let alike : (fd == s.highfds) ≡ true = ground (arith, at) in
        rw at (left (s.rfds fd) (s.wfds fd) (fd == s.highfds) alike e)
      where
        left : (a b c : Bool) → c ≡ true → (not a && not b && c) ≡ false → (a || b) ≡ true
        left true b c h1 h2 = refl
        left false true c h1 h2 = refl
        left false false c h1 h2 = sym h2 ∙ h1

wake_all-IsValid : (s : SelectAio) (flag : PollFlag) → IsValid s → IsValid (wake_all s flag)
wake_all-IsValid s cb_rdwr v = record { pipe = v.pipe; bound = v.bound; tight = v.tight }
wake_all-IsValid s flag v = v

-- unwatch_fd with a flag that asks for something, for a descriptor that is not the pipe's, returns,
-- and keeps what the loop over select(2) needs: the pipe is watched for reading, no descriptor above
-- highfds_ is in a set, and highfds_ itself is in one.
pub unwatch_fd-IsValid :
    (s : SelectAio) (fd : ℕ) (flag : PollFlag) (m : Mode)
    → IsValid s
    → (s.pipefd == fd) ≡ false
    → asks flag ≡ some m
    → (gone : Bool) × (s' : SelectAio) × (unwatch_fd s fd flag ≡ returns (gone, s')) × IsValid s'
unfolding unwatch_fd
unwatch_fd-IsValid s fd cb_none m v own a = absurd (cc a)
unwatch_fd-IsValid s fd cb_mask m v own a = absurd (cc a)
unwatch_fd-IsValid s fd cb_rdonly m v own a = (
  _,
  _,
  refl,
  lower_high-IsValid (record s { rfds = update s.rfds fd false }) fd (rw own v.pipe)
      (λ j h. ground (arith, h, v.bound j)) (λ n. rw n v.tight),
)
unwatch_fd-IsValid s fd cb_wronly m v own a = (
  _,
  _,
  refl,
  lower_high-IsValid (record s { wfds = update s.wfds fd false }) fd v.pipe
      (λ j h. ground (arith, h, v.bound j)) (λ n. rw n v.tight),
)
unwatch_fd-IsValid s fd cb_rdwr m v own a =
    let s1 = record s { wfds = update s.wfds fd false; rfds = update s.rfds fd false } in
    (
      _,
      _,
      refl,
      wake_all-IsValid (lower_high s1 fd) cb_rdwr (
          lower_high-IsValid s1 fd (rw own v.pipe) (λ j h. ground (arith, h, v.bound j))
            (λ n. rw n v.tight)),
    )
