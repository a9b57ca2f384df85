-- ===== src/PollMgr/EpollAio/Agreement.antt =====
-- EPollAIO against SelectAIO.
use Prim.Native.Nat.{bit_and, bit_or}
use yfs_lab.Prelude.{
  ℕ, ◌-◌, ◌^◌, ◌≡◌, ◌<◌, refl, sym, ap, ◌∙◌, Bool, true, false, List, [], ◌∷◌, some, All, arith,
  ltb, ◌==◌, if◌then◌else◌, Bool-cases, inl, inr,
}
use yfs_lab.Prelude.Outcome.{Outcome, returns, aborts, ◌>>=◌}
use yfs_lab.PollMgr.{PollFlag, Mode, asks, join, without, is_nothing, update, max_poll_fds}
use yfs_lab.PollMgr.EpollAio.{
  ctl_add, ctl_mod, ctl_del, value, epoll_aio, EpollAio, events, watch_fd, unwatch_fd, is_watched,
}
use yfs_lab.PollMgr.SelectAio.{
  SelectAio, select_aio, watch_fd as select_watch, is_watched as select_is_watched,
  unwatch_fd as select_unwatch,
}
use yfs_lab.PollMgr.SelectAio.Refines
use yfs_lab.PollMgr.EpollAio.Status.{IsStatus, or-IsStatus, and-IsStatus, is_watched-never}

-- The two say the same of every descriptor but the pipe's.
pub record Agrees (s : SelectAio) (e : EpollAio) : Type 0 where
  pub status : (fd : ℕ) → IsStatus (e.fdstatus fd)
  pub modes : (fd : ℕ) → (fd == s.pipefd) ≡ false → Refines.mode s fd ≡ events (e.fdstatus fd)

updated-IsStatus :
    (f : ℕ → ℕ) (fd st : ℕ)
    → ((i : ℕ) → IsStatus (f i))
    → IsStatus st
    → (i : ℕ) → IsStatus (update f fd st i)
updated-IsStatus f fd st all one i = elim (Bool-cases (i == fd)) [
  | inl same ↦ rw same one
  | inr differ ↦ rw differ (all i)
]

update_self : (f : ℕ → ℕ) (fd st : ℕ) → update f fd st fd ≡ st
update_self f fd st = ground arith

updated-modes :
    (s s' : SelectAio) (f : ℕ → ℕ) (fd st : ℕ) (a : Mode → Mode)
    → ((i : ℕ) → Refines.mode s' i ≡ update (Refines.mode s) fd (a (Refines.mode s fd)) i)
    → events st ≡ a (events (f fd))
    → (i : ℕ) → Refines.mode s fd ≡ events (f fd)
    → Refines.mode s i ≡ events (f i)
    → Refines.mode s' i ≡ events (update f fd st i)
updated-modes s s' f fd st a u new i here there = u i ∙ elim (Bool-cases (i == fd)) [
  | inl same ↦ rw same (ap a here ∙ sym new)
  | inr differ ↦ rw differ there
]

-- Where the two agree, watch_fd leaves them so.
pub watch_fd-Agrees :
    (s : SelectAio) (e : EpollAio) (fd : ℕ) (flag : PollFlag) (m : Mode)
    → Agrees s e
    → fd < max_poll_fds
    → (fd == s.pipefd) ≡ false
    → asks flag ≡ some m
    → (e' : EpollAio) × (watch_fd e fd flag true ≡ returns e') × Agrees (select_watch s fd flag) e'
unfolding watch_fd
watch_fd-Agrees s e fd flag m g lt own a =
    let or = or-IsStatus (e.fdstatus fd) flag m a (g.status fd) in
    let small : ltb fd max_poll_fds ≡ true = ground (arith, lt) in
    (
      record {
        fdstatus = update e.fdstatus fd (bit_or (e.fdstatus fd) (value flag));
        ctls =
            record {
              op = if e.fdstatus fd == 0 then ctl_add else ctl_mod;
              fd = fd;
              events = events (bit_or (e.fdstatus fd) (value flag));
            }
            ∷ e.ctls;
      },
      rw (small, or.2) refl,
      record {
        status = updated-IsStatus e.fdstatus fd (bit_or (e.fdstatus fd) (value flag)) g.status or.0;
        modes = λ i n.
            updated-modes s (select_watch s fd flag) e.fdstatus fd
              (bit_or (e.fdstatus fd) (value flag)) (λ x. join x m)
              (Refines.watch_fd-join s fd flag m a) or.1 i (g.modes fd own)
              (g.modes i (ap (λ p. i == p) (sym (Refines.watch_fd-pipefd s fd flag)) ∙ n));
      },
    )

-- Where the two agree, unwatch_fd returns from both with one answer and leaves them so.
pub unwatch_fd-Agrees :
    (s : SelectAio) (e : EpollAio) (fd : ℕ) (flag : PollFlag) (m : Mode)
    → Agrees s e
    → fd < max_poll_fds
    → (fd == s.pipefd) ≡ false
    → asks flag ≡ some m
    → (gone : Bool) × (s' : SelectAio) × (e' : EpollAio) × (select_unwatch s fd flag
        ≡ returns (gone, s'))
      × (unwatch_fd e fd flag true ≡ returns (gone, e'))
      × (s'.pipefd ≡ s.pipefd)
      × Agrees s' e'
unfolding unwatch_fd
unwatch_fd-Agrees s e fd flag m g lt own a =
    let st = bit_and (e.fdstatus fd) (2 ^ 32 - 1 - value flag) in
    let and = and-IsStatus (e.fdstatus fd) flag m a (g.status fd) in
    let small : ltb fd max_poll_fds ≡ true = ground (arith, lt) in
    let (gone, s', came, pipe) = Refines.unwatch_fd-returns s fd flag m a in
    let law = Refines.unwatch_fd-without s s' fd flag m gone a came in
    let modes : (i : ℕ)
        → (i == s'.pipefd) ≡ false
        → Refines.mode s' i ≡ events (update e.fdstatus fd st i) =
      λ i n.
        updated-modes s s' e.fdstatus fd st (λ x. without x m) law.1 and.1 i (g.modes fd own)
          (g.modes i (ap (λ p. i == p) (sym pipe) ∙ n)) in
    let here : Refines.mode s' fd ≡ events st =
      modes fd (ap (λ p. fd == p) pipe ∙ own) ∙ ap events (update_self e.fdstatus fd st) in
    (
      st == 0,
      s',
      record {
        fdstatus = update e.fdstatus fd st;
        ctls =
            record { op = if st == 0 then ctl_del else ctl_mod; fd = fd; events = events st }
            ∷ e.ctls;
      },
      came ∙ ap (λ b. returns (b, s')) (law.0 ∙ ap is_nothing here ∙ sym and.2),
      rw (small, and.3) refl,
      pipe,
      record { status = updated-IsStatus e.fdstatus fd st g.status and.0; modes = modes },
    )

-- What PollMgr asks of its aio_mgr, but for wait_ready, and what it is told.
pub data Request : Type 0 where
  watches unwatches asks_watched : ℕ → PollFlag → Request

pub data Answer : Type 0 where
  gone : Bool → Answer
  watched : Bool → Answer

-- The answers of SelectAIO, and of EPollAIO where every epoll_ctl succeeds.
unfoldable pub select_answers : SelectAio → List Request → Outcome (List Answer)
select_answers s [] = returns []
select_answers s (watches fd flag ∷ rs) = select_answers (select_watch s fd flag) rs
select_answers s (unwatches fd flag ∷ rs) = select_unwatch s fd flag >>= λ (b, s').
    select_answers s' rs >>= λ answers. returns (gone b ∷ answers)
select_answers s (asks_watched fd flag ∷ rs) =
    select_answers s rs >>= λ answers. returns (watched (select_is_watched s fd flag) ∷ answers)

unfoldable pub epoll_answers : EpollAio → List Request → Outcome (List Answer)
epoll_answers e [] = returns []
epoll_answers e (watches fd flag ∷ rs) = watch_fd e fd flag true >>= λ e'. epoll_answers e' rs
epoll_answers e (unwatches fd flag ∷ rs) = unwatch_fd e fd flag true >>= λ (b, e').
    epoll_answers e' rs >>= λ answers. returns (gone b ∷ answers)
epoll_answers e (asks_watched fd flag ∷ rs) =
    is_watched e fd flag >>= λ b. epoll_answers e rs >>= λ answers. returns (watched b ∷ answers)

-- Every answer to is_watched is `false` instead.
abbrev pub blind : List Answer → List Answer
blind [] = []
blind (gone b ∷ answers) = gone b ∷ blind answers
blind (watched b ∷ answers) = watched false ∷ blind answers

-- A request with a flag that asks for something, for a descriptor of the table that is not the pipe's.
pub record IsProper (pipe fd : ℕ) (flag : PollFlag) : Type 0 where
  pub small : fd < max_poll_fds
  pub own : (fd == pipe) ≡ false
  pub mode : Mode
  pub asked : asks flag ≡ some mode

abbrev pub Proper : ℕ → Request → Type 0
Proper pipe (watches fd flag) = IsProper pipe fd flag
Proper pipe (unwatches fd flag) = IsProper pipe fd flag
Proper pipe (asks_watched fd flag) = IsProper pipe fd flag

blind-then :
    (o : Outcome (List Answer)) (a b : Answer)
    → ((l : List Answer) → b ∷ blind l ≡ blind (a ∷ l))
    → ((o >>= λ l. returns (blind l)) >>= λ answers. returns (b ∷ answers))
      ≡ ((o >>= λ answers. returns (a ∷ answers)) >>= λ l. returns (blind l))
blind-then (returns l) a b h = ap returns (h l)
blind-then (aborts x) a b h = refl

answers_agree :
    (p : ℕ) (s : SelectAio) (e : EpollAio) (rs : List Request)
    → s.pipefd ≡ p
    → Agrees s e
    → All (Proper p) rs
    → epoll_answers e rs ≡ (select_answers s rs >>= λ l. returns (blind l))
unfolding select_answers epoll_answers
answers_agree p s e [] at g ok = refl
answers_agree p s e (watches fd flag ∷ rs) at g ok =
    let q = ok.0 in
    let (e', came, g') =
      watch_fd-Agrees s e fd flag q.mode g q.small (ap (λ k. fd == k) at ∙ q.own) q.asked in
    ap (λ o. o >>= λ x. epoll_answers x rs) came
    ∙ answers_agree p (select_watch s fd flag) e' rs (Refines.watch_fd-pipefd s fd flag ∙ at) g'
        ok.1
answers_agree p s e (unwatches fd flag ∷ rs) at g ok =
    let q = ok.0 in
    let (b, s', e', came_s, came_e, pipe, g') =
      unwatch_fd-Agrees s e fd flag q.mode g q.small (ap (λ k. fd == k) at ∙ q.own) q.asked in
    rw (came_s, came_e)
      (ap (λ o. o >>= λ answers. returns (gone b ∷ answers))
          (answers_agree p s' e' rs (pipe ∙ at) g' ok.1)
        ∙ blind-then (select_answers s' rs) (gone b) (gone b) (λ l. refl))
answers_agree p s e (asks_watched fd flag ∷ rs) at g ok =
    let q = ok.0 in
    ap (λ o. o >>= λ b. epoll_answers e rs >>= λ answers. returns (watched b ∷ answers))
      (is_watched-never e fd flag q.mode q.small q.asked (g.status fd))
    ∙ ap (λ o. o >>= λ answers. returns (watched false ∷ answers))
        (answers_agree p s e rs at g ok.1)
    ∙ blind-then (select_answers s rs) (watched (select_is_watched s fd flag)) (watched false)
        (λ l. refl)

-- A new SelectAIO and a new EPollAIO give the same answers to the same requests to watch and to
-- unwatch, but EPollAIO answers false wherever is_watched is asked, whatever SelectAIO answers; each
-- request is for a flag that asks for something and a descriptor of the table that is not the pipe's,
-- and every epoll_ctl succeeds.
pub answers-eq :
    (p : ℕ) (rs : List Request)
    → All (Proper p) rs
    → epoll_answers epoll_aio rs ≡ (select_answers (select_aio p) rs >>= λ l. returns (blind l))
unfolding select_aio
answers-eq p rs ok =
    answers_agree p (select_aio p) epoll_aio rs refl
      (record { status = λ fd. IsStatus.none; modes = λ fd n. rw n refl }) ok
