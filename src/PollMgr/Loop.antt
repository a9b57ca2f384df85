-- ===== src/PollMgr/Loop.antt =====
-- rpc/pollmgr.cc: the steps of PollMgr::wait_loop and of the threads that call PollMgr.
--
-- The loop's thread is in one of four phases. Between any two of its steps other threads, and the
-- callback that it runs, call PollMgr. A thread in block_remove_fd goes on only behind a broadcast: a
-- wake-up without one, which POSIX allows to pthread_cond_wait, is not a step.
use yfs_lab.Prelude.{
  ℕ, ◌≡◌, Bool, true, false, ◌||◌, List, [], ◌∷◌, ◌++◌, none, some, All, ◌==◌, if◌then◌else◌,
}
use yfs_lab.Prelude.Outcome.{returns}
use yfs_lab.PollMgr.{
  PollFlag, Mode, asks, AioMgr, PollMgr, add_callback, del_callback, block_remove_start,
  block_remove_end,
}

pub data Phase (S : Type 0) : Type 0 where
  -- in front of the block at the top
  turning : Phase S
  -- behind it
  clearing : Phase S
  -- in wait_ready, with what it asked of
  waiting : S → Phase S
  -- in the two loops, with the descriptors that are left
  running : List ℕ → List ℕ → Phase S

-- `asleep` are the descriptors of the threads that wait in block_remove_fd, `woken` those of the
-- threads that a broadcast woke.
pub record World (S : Type 0) : Type 0 where
  pub mgr : PollMgr S
  pub phase : Phase S
  pub asleep : List ℕ
  pub woken : List ℕ

pub data Action : Type 0 where
  adds : ℕ → PollFlag → ℕ → Action
  deletes : ℕ → PollFlag → Action
  removes removed : ℕ → Action
  turns asks_ready : Action
  finds : List ℕ → List ℕ → Action
  calls_read calls_write : (fd c : ℕ) → Action
  skips : ℕ → Action
  ends : Action

-- The block at the top of the loop.
unfoldable pub turn : {S : Type 0} → World S → World S
turn w =
    if w.mgr.pending_change
    then record w {
      mgr = record w.mgr { pending_change = false };
      phase = clearing;
      asleep = [];
      woken = w.asleep ++ w.woken;
    }
    else record w { phase = clearing }

abbrev pub is_in : ℕ → List ℕ → Bool
is_in x [] = false
is_in x (y ∷ ys) = x == y || is_in x ys

-- Without its first `x`.
abbrev pub take_out : ℕ → List ℕ → List ℕ
take_out x [] = []
take_out x (y ∷ ys) = if x == y then ys else y ∷ take_out x ys

module _ {S : Type 0} (M : AioMgr S) where
  pub data Step : World S → Action → World S → Type 0 where
    add_step :
        (w : World S) (p : PollMgr S) (fd : ℕ) (flag : PollFlag) (ch : ℕ) (m : Mode)
        → asks flag ≡ some m
        → add_callback M w.mgr fd flag ch ≡ returns p
        → Step w (adds fd flag ch) (record w { mgr = p })
    delete_step :
        (w : World S) (p : PollMgr S) (fd : ℕ) (flag : PollFlag) (m : Mode)
        → asks flag ≡ some m
        → del_callback M w.mgr fd flag ≡ returns p
        → Step w (deletes fd flag) (record w { mgr = p })
    remove_step :
        (w : World S) (p : PollMgr S) (fd : ℕ)
        → block_remove_start M w.mgr fd ≡ returns p
        → Step w (removes fd) (record w { mgr = p; asleep = fd ∷ w.asleep })
    removed_step :
        (w : World S) (p : PollMgr S) (fd : ℕ)
        → is_in fd w.woken ≡ true
        → block_remove_end w.mgr fd ≡ returns p
        → Step w (removed fd) (record w { mgr = p; woken = take_out fd w.woken })
    turn_step : (w : World S) → w.phase ≡ turning → Step w turns (turn w)
    ask_step :
        (w : World S)
        → w.phase ≡ clearing
        → Step w asks_ready (record w { phase = waiting w.mgr.aio })
    -- wait_ready gives descriptors that were watched when it asked, and changes nothing of what is
    -- watched.
    find_step :
        (w : World S) (asked after : S) (rs ws : List ℕ)
        → w.phase ≡ waiting asked
        → All (λ fd. (M.mode asked fd).reads ≡ true) rs
        → All (λ fd. (M.mode asked fd).writes ≡ true) ws
        → ((fd : ℕ) → M.mode after fd ≡ M.mode w.mgr.aio fd)
        → Step w
            (finds rs ws)
            (record w { mgr = record w.mgr { aio = after }; phase = running rs ws })
    read_step :
        (w : World S) (fd c : ℕ) (rs ws : List ℕ)
        → w.phase ≡ running (fd ∷ rs) ws
        → w.mgr.callbacks fd ≡ some c
        → Step w (calls_read fd c) (record w { phase = running rs ws })
    skip_read :
        (w : World S) (fd : ℕ) (rs ws : List ℕ)
        → w.phase ≡ running (fd ∷ rs) ws
        → w.mgr.callbacks fd ≡ none
        → Step w (skips fd) (record w { phase = running rs ws })
    write_step :
        (w : World S) (fd c : ℕ) (ws : List ℕ)
        → w.phase ≡ running [] (fd ∷ ws)
        → w.mgr.callbacks fd ≡ some c
        → Step w (calls_write fd c) (record w { phase = running [] ws })
    skip_write :
        (w : World S) (fd : ℕ) (ws : List ℕ)
        → w.phase ≡ running [] (fd ∷ ws)
        → w.mgr.callbacks fd ≡ none
        → Step w (skips fd) (record w { phase = running [] ws })
    end_step : (w : World S) → w.phase ≡ running [] [] → Step w ends (record w { phase = turning })

  pub data Run : World S → List Action → World S → Type 0 where
    done : (w : World S) → Run w [] w
    then_step :
        {before next after : World S} {a : Action} {t : List Action}
        → Step before a next
        → Run next t after
        → Run before (a ∷ t) after
