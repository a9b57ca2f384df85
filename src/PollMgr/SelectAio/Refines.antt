-- ===== src/PollMgr/SelectAio/Refines.antt =====
-- SelectAIO as the aio_mgr of PollMgr.
use yfs_lab.Prelude.{
  ℕ, ◌≡◌, refl, sym, ap, ◌∙◌, Bool, true, false, ◌&&◌, ◌||◌, some, arith, ◌==◌, Bool-cases, inl,
  inr, ==→≡, some_inj,
}
use yfs_lab.Prelude.Outcome.{Outcome, returns}
use yfs_lab.PollMgr.{
  PollFlag, cb_none, cb_rdonly, cb_wronly, cb_rdwr, cb_mask, Mode, asks, join, without, covers,
  is_nothing, update, AioMgr,
}
use yfs_lab.PollMgr.SelectAio.{
  SelectAio, watch_fd, is_watched, is_clear, lower_high, wake_all, unwatch_fd,
}

-- What the two sets say of a descriptor.
abbrev pub mode : SelectAio → ℕ → Mode
mode s fd = record { reads = s.rfds fd; writes = s.wfds fd }

or_true : (b : Bool) → (b || true) ≡ true
or_true true = refl
or_true false = refl

or_false : (b : Bool) → (b || false) ≡ b
or_false true = refl
or_false false = refl

and_true : (b : Bool) → (b && true) ≡ b
and_true true = refl
and_true false = refl

and_false : (b : Bool) → (b && false) ≡ false
and_false true = refl
and_false false = refl

mode_ext :
    {a b c d : Bool}
    → a ≡ c
    → b ≡ d
    → Path Mode (record { reads = a; writes = b }) (record { reads = c; writes = d })
mode_ext p q i = record { reads = p i; writes = q i }

-- One descriptor changes as it is told.
updated :
    (s s' : SelectAio) (fd : ℕ) (a : Mode)
    → mode s' fd ≡ a
    → ((j : ℕ) → (j == fd) ≡ false → mode s' j ≡ mode s j)
    → (i : ℕ) → mode s' i ≡ update (mode s) fd a i
updated s s' fd a here others i = elim (Bool-cases (i == fd)) [
  | inl same ↦ rw same (ap (mode s') (==→≡ i fd same) ∙ here)
  | inr differ ↦ rw differ (others i differ)
]

same_fd : (fd : ℕ) → (fd == fd) ≡ true
same_fd fd = ground arith

-- watch_fd adds what the flag asks for to what is watched of its descriptor, and changes nothing of
-- another.
pub watch_fd-join :
    (s : SelectAio) (fd : ℕ) (flag : PollFlag) (m : Mode)
    → asks flag ≡ some m
    → (i : ℕ) → mode (watch_fd s fd flag) i ≡ update (mode s) fd (join (mode s fd) m) i
unfolding watch_fd
watch_fd-join s fd cb_none m a i = absurd (cc a)
watch_fd-join s fd cb_mask m a i = absurd (cc a)
watch_fd-join s fd cb_rdonly m a i = rw (sym (some_inj a)) (
    updated s (watch_fd s fd cb_rdonly) fd _
      (rw (same_fd fd) (mode_ext (sym (or_true (s.rfds fd))) (sym (or_false (s.wfds fd)))))
      (λ j n. rw n refl) i)
watch_fd-join s fd cb_wronly m a i = rw (sym (some_inj a)) (
    updated s (watch_fd s fd cb_wronly) fd _
      (rw (same_fd fd) (mode_ext (sym (or_false (s.rfds fd))) (sym (or_true (s.wfds fd)))))
      (λ j n. rw n refl) i)
watch_fd-join s fd cb_rdwr m a i = rw (sym (some_inj a)) (
    updated s (watch_fd s fd cb_rdwr) fd _
      (rw (same_fd fd) (mode_ext (sym (or_true (s.rfds fd))) (sym (or_true (s.wfds fd)))))
      (λ j n. rw n refl) i)

lower_high-mode : (s : SelectAio) (fd j : ℕ) → mode (lower_high s fd) j ≡ mode s j
unfolding lower_high
lower_high-mode s fd j = elim (Bool-cases (is_clear s fd && fd == s.highfds)) [
  | inl low ↦ rw low refl
  | inr keep ↦ rw keep refl
]

wake_all-mode : (s : SelectAio) (flag : PollFlag) (j : ℕ) → mode (wake_all s flag) j ≡ mode s j
wake_all-mode s cb_rdwr j = refl
wake_all-mode s flag j = refl

pub watch_fd-pipefd :
    (s : SelectAio) (fd : ℕ) (flag : PollFlag) → (watch_fd s fd flag).pipefd ≡ s.pipefd
unfolding watch_fd
watch_fd-pipefd s fd cb_rdonly = refl
watch_fd-pipefd s fd cb_wronly = refl
watch_fd-pipefd s fd flag = refl

lower_high-pipefd : (s : SelectAio) (fd : ℕ) → (lower_high s fd).pipefd ≡ s.pipefd
unfolding lower_high
lower_high-pipefd s fd = elim (Bool-cases (is_clear s fd && fd == s.highfds)) [
  | inl low ↦ rw low refl
  | inr keep ↦ rw keep refl
]

pub unwatch_fd-returns :
    (s : SelectAio) (fd : ℕ) (flag : PollFlag) (m : Mode)
    → asks flag ≡ some m
    → (gone : Bool) × (s' : SelectAio) × (unwatch_fd s fd flag ≡ returns (gone, s'))
      × (s'.pipefd ≡ s.pipefd)
unfolding unwatch_fd
unwatch_fd-returns s fd cb_none m a = absurd (cc a)
unwatch_fd-returns s fd cb_mask m a = absurd (cc a)
unwatch_fd-returns s fd cb_rdonly m a =
    (_, _, refl, lower_high-pipefd (record s { rfds = update s.rfds fd false }) fd)
unwatch_fd-returns s fd cb_wronly m a =
    (_, _, refl, lower_high-pipefd (record s { wfds = update s.wfds fd false }) fd)
unwatch_fd-returns s fd cb_rdwr m a = (
  _,
  _,
  refl,
  lower_high-pipefd (record s { wfds = update s.wfds fd false; rfds = update s.rfds fd false }) fd,
)

-- The end of unwatch_fd, where `s1` has the sets that it leaves.
unwatched :
    (s s1 s' : SelectAio) (fd : ℕ) (flag : PollFlag) (a : Mode) (gone : Bool)
    → ◌≡◌ {A = Outcome (Bool × SelectAio)}
        (returns (is_clear (wake_all (lower_high s1 fd) flag) fd, wake_all (lower_high s1 fd) flag))
        (returns (gone, s'))
    → mode s1 fd ≡ a
    → ((j : ℕ) → (j == fd) ≡ false → mode s1 j ≡ mode s j)
    → (gone ≡ is_nothing (mode s' fd)) × ((i : ℕ) → mode s' i ≡ update (mode s) fd a i)
unwatched s s1 s' fd flag a gone e here others =
    let s2 = wake_all (lower_high s1 fd) flag in
    let same : s2 ≡ s' = cc e in
    let answer : is_clear s2 fd ≡ gone = cc e in
    let kept : (j : ℕ) → mode s' j ≡ mode s1 j = λ j.
      ap (λ t. mode t j) (sym same)
      ∙ wake_all-mode (lower_high s1 fd) flag j
      ∙ lower_high-mode s1 fd j in
    (
      sym answer ∙ ap (λ t. is_clear t fd) same,
      updated s s' fd a (kept fd ∙ here) (λ j n. kept j ∙ others j n),
    )

-- unwatch_fd takes what the flag asks for from what is watched of its descriptor, changes nothing of
-- another, and says whether nothing is left.
pub unwatch_fd-without :
    (s s' : SelectAio) (fd : ℕ) (flag : PollFlag) (m : Mode) (gone : Bool)
    → asks flag ≡ some m
    → unwatch_fd s fd flag ≡ returns (gone, s')
    → (gone ≡ is_nothing (mode s' fd))
      × ((i : ℕ) → mode s' i ≡ update (mode s) fd (without (mode s fd) m) i)
unfolding unwatch_fd
unwatch_fd-without s s' fd cb_none m gone a e = absurd (cc a)
unwatch_fd-without s s' fd cb_mask m gone a e = absurd (cc a)
unwatch_fd-without s s' fd cb_rdonly m gone a e = rw (sym (some_inj a)) (
    unwatched s (record s { rfds = update s.rfds fd false }) s' fd cb_rdonly _ gone e
      (rw (same_fd fd) (mode_ext (sym (and_false (s.rfds fd))) (sym (and_true (s.wfds fd)))))
      (λ j n. rw n refl))
unwatch_fd-without s s' fd cb_wronly m gone a e = rw (sym (some_inj a)) (
    unwatched s (record s { wfds = update s.wfds fd false }) s' fd cb_wronly _ gone e
      (rw (same_fd fd) (mode_ext (sym (and_true (s.rfds fd))) (sym (and_false (s.wfds fd)))))
      (λ j n. rw n refl))
unwatch_fd-without s s' fd cb_rdwr m gone a e = rw (sym (some_inj a)) (
    unwatched s (record s { wfds = update s.wfds fd false; rfds = update s.rfds fd false }) s' fd
      cb_rdwr _ gone e
      (rw (same_fd fd) (mode_ext (sym (and_false (s.rfds fd))) (sym (and_false (s.wfds fd)))))
      (λ j n. rw n refl))

-- is_watched says whether all that the flag asks for is watched.
pub is_watched-covers :
    (s : SelectAio) (fd : ℕ) (flag : PollFlag) (m : Mode)
    → asks flag ≡ some m
    → is_watched s fd flag ≡ covers (mode s fd) m
unfolding is_watched
is_watched-covers s fd cb_none m a = absurd (cc a)
is_watched-covers s fd cb_mask m a = absurd (cc a)
is_watched-covers s fd cb_rdonly m a = rw (sym (some_inj a)) (ground arith)
is_watched-covers s fd cb_wronly m a = rw (sym (some_inj a)) (ground arith)
is_watched-covers s fd cb_rdwr m a = rw (sym (some_inj a)) (ground arith)

pub watch_fd-mode :
    (s s' : SelectAio) (fd : ℕ) (flag : PollFlag) (m : Mode)
    → asks flag ≡ some m
    → ◌≡◌ {A = Outcome SelectAio} (returns (watch_fd s fd flag)) (returns s')
    → (i : ℕ) → mode s' i ≡ update (mode s) fd (join (mode s fd) m) i
watch_fd-mode s s' fd flag m a e i =
    let same : watch_fd s fd flag ≡ s' = cc e in
    ap (λ t. mode t i) (sym same) ∙ watch_fd-join s fd flag m a i

-- SelectAIO is an aio_mgr.
abbrev pub select_mgr : AioMgr SelectAio
select_mgr = record {
  watch_fd = λ s fd flag. returns (watch_fd s fd flag);
  unwatch_fd = unwatch_fd;
  is_watched = λ s fd flag. returns (is_watched s fd flag);
  mode = mode;
  watch_fd-mode = watch_fd-mode;
  unwatch_fd-mode = unwatch_fd-without;
}
