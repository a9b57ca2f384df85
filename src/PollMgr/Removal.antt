-- ===== src/PollMgr/Removal.antt =====
-- block_remove_fd, from its start to behind its return.
use yfs_lab.Prelude.{
  ℕ, ◌≡◌, ◌⊎◌, inl, inr, refl, sym, ◌∙◌, Bool, true, false, ◌||◌, List, [], ◌∷◌, All, ◌==◌,
  Bool-cases,
}
use yfs_lab.PollMgr.{AioMgr}
use yfs_lab.PollMgr.Loop.{
  World, Action, removes, removed, turn, is_in, take_out, Step, add_step, delete_step, remove_step,
  removed_step, turn_step, ask_step, find_step, read_step, skip_read, write_step, skip_write,
  end_step, Run, done, then_step,
}
use yfs_lab.PollMgr.Quiet.{
  IsOff, PhaseOff, Quiet, KeepsOut, Silent, step-IsOff, step-PhaseOff, block_remove_start-IsOff,
}

take_out-is_in : (fd x : ℕ) (l : List ℕ) → is_in fd l ≡ false → is_in fd (take_out x l) ≡ false
take_out-is_in fd x [] h = refl
take_out-is_in fd x (y ∷ l) h = elim (Bool-cases (x == y)) [
  | inl same ↦ rw same (parts (fd == y) (is_in fd l) h).1
  | inr differ ↦
      let p = parts (fd == y) (is_in fd l) h in rw (differ, p.0) (take_out-is_in fd x l p.1)
]
  where
    parts : (a b : Bool) → (a || b) ≡ false → (a ≡ false) × (b ≡ false)
    parts true b e = absurd (cc e)
    parts false b e = (refl, e)

module _ {S : Type 0} (M : AioMgr S) (fd : ℕ) where
  -- The thread in block_remove_fd is not woken before the loop has come to its top.
  abbrev Unwoken : World S → Type 0
  Unwoken w = (is_in fd w.woken ≡ false) ⊎ PhaseOff M fd w.phase

  step-Unwoken :
      (w w' : World S) (a : Action) → Step M w a w' → is_in fd w.woken ≡ false → Unwoken w'
  unfolding turn
  step-Unwoken _ _ _ (add_step w p x flag ch m asked e) n = inl n
  step-Unwoken _ _ _ (delete_step w p x flag m asked e) n = inl n
  step-Unwoken _ _ _ (remove_step w p x e) n = inl n
  step-Unwoken _ _ _ (removed_step w p x b e) n = inl (take_out-is_in fd x w.woken n)
  step-Unwoken _ _ _ (turn_step w e) n = elim (Bool-cases w.mgr.pending_change) [
    | inl changed ↦ rw changed (inr tt)
    | inr same ↦ rw same (inl n)
  ]
  step-Unwoken _ _ _ (ask_step w e) n = inl n
  step-Unwoken _ _ _ (find_step w asked after rs ws e r1 r2 same) n = inl n
  step-Unwoken _ _ _ (read_step w x c rs ws e some_c) n = inl n
  step-Unwoken _ _ _ (skip_read w x rs ws e none_c) n = inl n
  step-Unwoken _ _ _ (write_step w x c ws e some_c) n = inl n
  step-Unwoken _ _ _ (skip_write w x ws e none_c) n = inl n
  step-Unwoken _ _ _ (end_step w e) n = inl n

  Run-Unwoken :
      (w w' : World S) (t : List Action)
      → Run M w t w'
      → All (KeepsOut M fd) t
      → IsOff M fd w.mgr.aio
      → Unwoken w
      → IsOff M fd w'.mgr.aio × Unwoken w'
  Run-Unwoken _ _ _ (done w) k off u = (off, u)
  Run-Unwoken w w' _ (then_step {next = v} {a = a} {t = t} s r) k off u =
      Run-Unwoken v w' t r k.1 (step-IsOff M fd w v a s k.0 off) (elim u [
        | inl n ↦ step-Unwoken w v a s n
        | inr q ↦ inr (step-PhaseOff M fd w v a s (record { off = off; phase = q })).0
      ])

  Run-Silent :
      (w w' : World S) (t : List Action)
      → Run M w t w'
      → All (KeepsOut M fd) t
      → Quiet M fd w
      → All (Silent M fd) t
  Run-Silent _ _ _ (done w) k q = tt
  Run-Silent w w' _ (then_step {next = v} {a = a} {t = t} s r) k q =
      let next = step-PhaseOff M fd w v a s q in
      (
        next.1,
        Run-Silent v w' t r k.1
            (record { off = step-IsOff M fd w v a s k.0 q.off; phase = next.0 }),
      )

  -- Let block_remove_fd start for a descriptor that no other thread has been woken for, and let nobody
  -- register a callback of it. Whatever the loop and the other threads do until the thread goes on,
  -- which it does only after a broadcast, and whatever they do behind its return: from its return on
  -- no callback of the descriptor is called.
  pub removed-Silent :
      (w0 w1 w2 w3 w4 : World S) (t1 t2 : List Action)
      → is_in fd w0.woken ≡ false
      → Step M w0 (removes fd) w1
      → Run M w1 t1 w2
      → All (KeepsOut M fd) t1
      → Step M w2 (removed fd) w3
      → Run M w3 t2 w4
      → All (KeepsOut M fd) t2
      → All (Silent M fd) t2
  removed-Silent w0 w1 w2 w3 w4 t1 t2 n s1 r1 k1 s2 r2 k2 =
      let middle = Run-Unwoken w1 w2 t1 r1 k1 (start w0 w1 s1) (started w0 w1 s1 n) in
      let off = step-IsOff M fd w2 w3 (removed fd) s2 tt middle.0 in
      Run-Silent w3 w4 t2 r2 k2 (record { off = off; phase = phase w2 w3 s2 middle.0 middle.1 })
    where
      start : (u v : World S) → Step M u (removes fd) v → IsOff M fd v.mgr.aio
      start _ _ (remove_step w p x e) = (block_remove_start-IsOff M fd w.mgr p x e).1 refl

      started : (u v : World S) → Step M u (removes fd) v → is_in fd u.woken ≡ false → Unwoken v
      started _ _ (remove_step w p x e) m = inl m

      phase :
          (u v : World S)
          → Step M u (removed fd) v
          → IsOff M fd u.mgr.aio
          → Unwoken u
          → PhaseOff M fd v.phase
      phase _ _ (removed_step w p x b e) off (inl m) = absurd (cc (sym m ∙ b))
      phase _ _ (removed_step w p x b e) off (inr q) = q
