-- ===== src/PollMgr/Quiet.antt =====
-- One step of the loop or of another thread, for a descriptor of which nothing is watched.
use yfs_lab.Prelude.{
  ℕ, ◌≡◌, inl, inr, refl, sym, ap, ◌∙◌, subst, Bool, true, false, not, ◌&&◌, List, [], ◌∷◌, Option,
  none, some, All, arith, ltb, ◌==◌, Bool-cases, ==→≡,
}
use yfs_lab.Prelude.Outcome.{returns, aborts, assertion, then-returns, if-returns}
use yfs_lab.PollMgr.{
  PollFlag, cb_rdwr, Mode, nothing, asks, without, update, AioMgr, PollMgr, set_callback,
  is_free_for, add_callback, del_callback, block_remove_start, block_remove_end, max_poll_fds,
}
use yfs_lab.PollMgr.Loop.{
  Phase, turning, clearing, waiting, running, World, Action, adds, calls_read, calls_write, turn,
  Step, add_step, delete_step, remove_step, removed_step, turn_step, ask_step, find_step, read_step,
  skip_read, write_step, skip_write, end_step,
}

set_callback-aio :
    {S : Type 0} (p p' : PollMgr S) (fd : ℕ) (c : Option ℕ)
    → set_callback p fd c ≡ returns p'
    → p'.aio ≡ p.aio
set_callback-aio p p' fd c e = elim (Bool-cases (ltb fd max_poll_fds)) [
  | inl small ↦
      let same : record p { callbacks = update p.callbacks fd c } ≡ p' = cc (rw small at e) in
      ap (λ (q : PollMgr _). q.aio) (sym same)
  | inr large ↦ absurd (cc (rw large at e))
]

-- Nothing of `fd` is watched.
module _ {S : Type 0} (M : AioMgr S) (fd : ℕ) where
  abbrev pub IsOff : S → Type 0
  IsOff s = M.mode s fd ≡ nothing

  others-IsOff :
      (s s' : S) (x : ℕ) (a : Mode)
      → (fd == x) ≡ false
      → ((i : ℕ) → M.mode s' i ≡ update (M.mode s) x a i)
      → IsOff s
      → IsOff s'
  others-IsOff s s' x a differ u off = u fd ∙ rw differ off

  add_callback-IsOff :
      (p p' : PollMgr S) (x : ℕ) (flag : PollFlag) (ch : ℕ) (m : Mode)
      → (fd == x) ≡ false
      → asks flag ≡ some m
      → add_callback M p x flag ch ≡ returns p'
      → IsOff p.aio
      → IsOff p'.aio
  unfolding add_callback
  add_callback-IsOff p p' x flag ch m differ a e off =
      elim (if-returns (not (ltb x max_poll_fds)) (aborts assertion) _ p' e) [
        | inl large ↦ absurd (cc large)
        | inr small ↦
            let (s, watched, set) = then-returns (M.watch_fd p.aio x flag) _ p' small in
            let after =
              others-IsOff p.aio s x _ differ (M.watch_fd-mode p.aio s x flag m a watched) off in
            elim (if-returns (is_free_for (p.callbacks x) ch) _ (aborts assertion) p' set) [
              | inl free ↦
                  subst IsOff (sym (set_callback-aio (record p { aio = s }) p' x (some ch) free))
                    after
              | inr taken ↦ absurd (cc taken)
            ]
      ]

  off_without : (b c : Mode) → b ≡ nothing → without b c ≡ nothing
  off_without b c e = rw e refl

  update-IsOff :
      (s s' : S) (x : ℕ) (m : Mode)
      → ((i : ℕ) → M.mode s' i ≡ update (M.mode s) x (without (M.mode s x) m) i)
      → IsOff s
      → IsOff s'
  update-IsOff s s' x m u off = elim (Bool-cases (fd == x)) [
    | inr differ ↦ others-IsOff s s' x _ differ u off
    | inl same ↦
        u fd ∙ rw same (off_without (M.mode s x) m (ap (M.mode s) (sym (==→≡ fd x same)) ∙ off))
  ]

  del_callback-IsOff :
      (p p' : PollMgr S) (x : ℕ) (flag : PollFlag) (m : Mode)
      → asks flag ≡ some m
      → del_callback M p x flag ≡ returns p'
      → IsOff p.aio
      → IsOff p'.aio
  unfolding del_callback
  del_callback-IsOff p p' x flag m a e off =
      let ((gone, s), unwatched, set) = then-returns (M.unwatch_fd p.aio x flag) _ p' e in
      let after =
        update-IsOff p.aio s x m (M.unwatch_fd-mode p.aio s x flag m gone a unwatched).1 off in
      elim (if-returns gone _ _ p' set) [
        | inl cleared ↦
            subst IsOff (sym (set_callback-aio (record p { aio = s }) p' x none cleared)) after
        | inr kept ↦
            let same : record p { aio = s } ≡ p' = cc kept in
            subst (λ (q : PollMgr S). IsOff q.aio) same after
      ]

  without_all : (b : Mode) → without b (record { reads = true; writes = true }) ≡ nothing
  without_all b i = record { reads = and_false b.reads i; writes = and_false b.writes i }
    where
      and_false : (c : Bool) → (c && false) ≡ false
      and_false true = refl
      and_false false = refl

  same_fd : {x : ℕ} → x ≡ fd → (fd == x) ≡ true
  same_fd e = ground (arith, e)

  -- block_remove_fd takes everything of its own descriptor away.
  pub block_remove_start-IsOff :
      (p p' : PollMgr S) (x : ℕ)
      → block_remove_start M p x ≡ returns p'
      → (IsOff p.aio → IsOff p'.aio) × (x ≡ fd → IsOff p'.aio)
  unfolding block_remove_start
  block_remove_start-IsOff p p' x e =
      let ((gone, s), unwatched, set) = then-returns (M.unwatch_fd p.aio x cb_rdwr) _ p' e in
      let all : Mode = record { reads = true; writes = true } in
      let u = (M.unwatch_fd-mode p.aio s x cb_rdwr all gone refl unwatched).1 in
      let same : record p { aio = s; pending_change = true } ≡ p' = cc set in
      (
        λ off. subst (λ (q : PollMgr S). IsOff q.aio) same (update-IsOff p.aio s x all u off),
        λ at.
            subst (λ (q : PollMgr S). IsOff q.aio) same
              (u fd ∙ rw (same_fd at) (without_all (M.mode p.aio x))),
      )

  -- The loop has no descriptor `fd` in hand.
  abbrev pub PhaseOff : Phase S → Type 0
  PhaseOff turning = Unit
  PhaseOff clearing = Unit
  PhaseOff (waiting asked) = IsOff asked
  PhaseOff (running rs ws) = All (λ x. (fd == x) ≡ false) rs × All (λ x. (fd == x) ≡ false) ws

  pub record Quiet (w : World S) : Type 0 where
    pub off : IsOff w.mgr.aio
    pub phase : PhaseOff w.phase

  -- Nobody registers a callback of `fd`.
  abbrev pub KeepsOut : Action → Type 0
  KeepsOut (adds x flag ch) = (fd == x) ≡ false
  KeepsOut _ = Unit

  -- No callback of `fd` is called.
  abbrev pub Silent : Action → Type 0
  Silent (calls_read x c) = (fd == x) ≡ false
  Silent (calls_write x c) = (fd == x) ≡ false
  Silent _ = Unit

  pub set_callback-IsOff :
      (p p' : PollMgr S) (x : ℕ) (c : Option ℕ)
      → set_callback p x c ≡ returns p'
      → IsOff p.aio
      → IsOff p'.aio
  set_callback-IsOff p p' x c e off = subst IsOff (sym (set_callback-aio p p' x c e)) off

  pub step-IsOff :
      (w w' : World S) (a : Action)
      → Step M w a w'
      → KeepsOut a
      → IsOff w.mgr.aio
      → IsOff w'.mgr.aio
  unfolding block_remove_end turn
  step-IsOff _ _ _ (add_step w p x flag ch m asked e) k off =
      add_callback-IsOff w.mgr p x flag ch m k asked e off
  step-IsOff _ _ _ (delete_step w p x flag m asked e) k off =
      del_callback-IsOff w.mgr p x flag m asked e off
  step-IsOff _ _ _ (remove_step w p x e) k off = (block_remove_start-IsOff w.mgr p x e).0 off
  step-IsOff _ _ _ (removed_step w p x b e) k off =
      subst IsOff (sym (set_callback-aio w.mgr p x none e)) off
  step-IsOff _ _ _ (turn_step w e) k off = elim (Bool-cases w.mgr.pending_change) [
    | inl changed ↦ rw changed off
    | inr same ↦ rw same off
  ]
  step-IsOff _ _ _ (ask_step w e) k off = off
  step-IsOff _ _ _ (find_step w asked after rs ws e r1 r2 same) k off = same fd ∙ off
  step-IsOff _ _ _ (read_step w x c rs ws e some_c) k off = off
  step-IsOff _ _ _ (skip_read w x rs ws e none_c) k off = off
  step-IsOff _ _ _ (write_step w x c ws e some_c) k off = off
  step-IsOff _ _ _ (skip_write w x ws e none_c) k off = off
  step-IsOff _ _ _ (end_step w e) k off = off

  found-off :
      (get : Mode → Bool) (asked : S) (l : List ℕ)
      → get nothing ≡ false
      → IsOff asked
      → All (λ x. get (M.mode asked x) ≡ true) l
      → All (λ x. (fd == x) ≡ false) l
  found-off get asked [] z off f = tt
  found-off get asked (x ∷ l) z off f = (
    elim (Bool-cases (fd == x)) [
      | inr differ ↦ differ
      | inl same ↦
          let seen = ap (λ k. get (M.mode asked k)) (==→≡ fd x same) ∙ f.0 in
          absurd (cc (sym z ∙ ap get (sym off) ∙ seen))
    ],
    found-off get asked l z off f.1,
  )

  pub step-PhaseOff :
      (w w' : World S) (a : Action) → Step M w a w' → Quiet w → PhaseOff w'.phase × Silent a
  unfolding turn
  step-PhaseOff _ _ _ (add_step w p x flag ch m asked e) q = (q.phase, tt)
  step-PhaseOff _ _ _ (delete_step w p x flag m asked e) q = (q.phase, tt)
  step-PhaseOff _ _ _ (remove_step w p x e) q = (q.phase, tt)
  step-PhaseOff _ _ _ (removed_step w p x b e) q = (q.phase, tt)
  step-PhaseOff _ _ _ (turn_step w e) q = elim (Bool-cases w.mgr.pending_change) [
    | inl changed ↦ rw changed (tt, tt)
    | inr same ↦ rw same (tt, tt)
  ]
  step-PhaseOff _ _ _ (ask_step w e) q = (q.off, tt)
  step-PhaseOff _ _ _ (find_step w asked after rs ws e r1 r2 same) q =
      let off = subst PhaseOff e q.phase in
      (
        (
          found-off (λ m. m.reads) asked rs refl off r1,
          found-off (λ m. m.writes) asked ws refl off r2,
        ),
        tt,
      )
  step-PhaseOff _ _ _ (read_step w x c rs ws e some_c) q =
      let off = subst PhaseOff e q.phase in ((off.0.1, off.1), off.0.0)
  step-PhaseOff _ _ _ (skip_read w x rs ws e none_c) q =
      let off = subst PhaseOff e q.phase in ((off.0.1, off.1), tt)
  step-PhaseOff _ _ _ (write_step w x c ws e some_c) q =
      let off = subst PhaseOff e q.phase in ((tt, off.1.1), off.1.0)
  step-PhaseOff _ _ _ (skip_write w x ws e none_c) q =
      let off = subst PhaseOff e q.phase in ((tt, off.1.1), tt)
  step-PhaseOff _ _ _ (end_step w e) q = (tt, tt)
