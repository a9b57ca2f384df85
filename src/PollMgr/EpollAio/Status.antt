-- ===== src/PollMgr/EpollAio/Status.antt =====
-- The status of a descriptor in EPollAIO.
use Prim.Native.Nat.{bit_and, bit_or}
use yfs_lab.Prelude.{
  ℕ, ◌-◌, ◌^◌, ◌≡◌, ◌<◌, refl, ap, true, false, not, ◌&&◌, some, arith, ltb, ◌==◌, some_inj,
}
use yfs_lab.Prelude.Outcome.{returns}
use yfs_lab.PollMgr.{
  PollFlag, cb_none, cb_rdonly, cb_wronly, cb_rdwr, cb_mask, Mode, asks, join, without, is_nothing,
  max_poll_fds,
}
use yfs_lab.PollMgr.EpollAio.{value, EpollAio, events, is_rdwr, is_watched}

-- The numbers that fdstatus_ holds: CB_NONE, CB_RDONLY, CB_WRONLY and CB_RDWR.
pub data IsStatus : ℕ → Type 0 where
  none : IsStatus 0
  reads : IsStatus 1
  writes : IsStatus 16
  both : IsStatus 17

pub or-IsStatus :
    (st : ℕ) (flag : PollFlag) (m : Mode)
    → asks flag ≡ some m
    → IsStatus st
    → let st' = bit_or st (value flag) in
      IsStatus st'
      × (events st' ≡ join (events st) m)
      × ((is_rdwr flag && not ((events st').reads && (events st').writes)) ≡ false)
or-IsStatus _ cb_none m a s = absurd (cc a)
or-IsStatus _ cb_mask m a s = absurd (cc a)
or-IsStatus _ cb_rdonly m a none = (reads, ap (join (events 0)) (some_inj a), refl)
or-IsStatus _ cb_rdonly m a reads = (reads, ap (join (events 1)) (some_inj a), refl)
or-IsStatus _ cb_rdonly m a writes = (both, ap (join (events 16)) (some_inj a), refl)
or-IsStatus _ cb_rdonly m a both = (both, ap (join (events 17)) (some_inj a), refl)
or-IsStatus _ cb_wronly m a none = (writes, ap (join (events 0)) (some_inj a), refl)
or-IsStatus _ cb_wronly m a reads = (both, ap (join (events 1)) (some_inj a), refl)
or-IsStatus _ cb_wronly m a writes = (writes, ap (join (events 16)) (some_inj a), refl)
or-IsStatus _ cb_wronly m a both = (both, ap (join (events 17)) (some_inj a), refl)
or-IsStatus _ cb_rdwr m a none = (both, ap (join (events 0)) (some_inj a), refl)
or-IsStatus _ cb_rdwr m a reads = (both, ap (join (events 1)) (some_inj a), refl)
or-IsStatus _ cb_rdwr m a writes = (both, ap (join (events 16)) (some_inj a), refl)
or-IsStatus _ cb_rdwr m a both = (both, ap (join (events 17)) (some_inj a), refl)

pub and-IsStatus :
    (st : ℕ) (flag : PollFlag) (m : Mode)
    → asks flag ≡ some m
    → IsStatus st
    → let st' = bit_and st (2 ^ 32 - 1 - value flag) in
      IsStatus st'
      × (events st' ≡ without (events st) m)
      × ((st' == 0) ≡ is_nothing (events st'))
      × ((is_rdwr flag && not (st' == 0)) ≡ false)
and-IsStatus _ cb_none m a s = absurd (cc a)
and-IsStatus _ cb_mask m a s = absurd (cc a)
and-IsStatus _ cb_rdonly m a none = (none, ap (without (events 0)) (some_inj a), refl, refl)
and-IsStatus _ cb_rdonly m a reads = (none, ap (without (events 1)) (some_inj a), refl, refl)
and-IsStatus _ cb_rdonly m a writes = (writes, ap (without (events 16)) (some_inj a), refl, refl)
and-IsStatus _ cb_rdonly m a both = (writes, ap (without (events 17)) (some_inj a), refl, refl)
and-IsStatus _ cb_wronly m a none = (none, ap (without (events 0)) (some_inj a), refl, refl)
and-IsStatus _ cb_wronly m a reads = (reads, ap (without (events 1)) (some_inj a), refl, refl)
and-IsStatus _ cb_wronly m a writes = (none, ap (without (events 16)) (some_inj a), refl, refl)
and-IsStatus _ cb_wronly m a both = (reads, ap (without (events 17)) (some_inj a), refl, refl)
and-IsStatus _ cb_rdwr m a none = (none, ap (without (events 0)) (some_inj a), refl, refl)
and-IsStatus _ cb_rdwr m a reads = (none, ap (without (events 1)) (some_inj a), refl, refl)
and-IsStatus _ cb_rdwr m a writes = (none, ap (without (events 16)) (some_inj a), refl, refl)
and-IsStatus _ cb_rdwr m a both = (none, ap (without (events 17)) (some_inj a), refl, refl)

-- is_watched of EPollAIO gives false for each of the statuses that fdstatus_ holds and each flag that
-- asks for something.
pub is_watched-never :
    (e : EpollAio) (fd : ℕ) (flag : PollFlag) (m : Mode)
    → fd < max_poll_fds
    → asks flag ≡ some m
    → IsStatus (e.fdstatus fd)
    → is_watched e fd flag ≡ returns false
unfolding is_watched
is_watched-never e fd flag m lt a s =
    let small : ltb fd max_poll_fds ≡ true = ground (arith, lt) in
    rw (small, unmasked (e.fdstatus fd) s) (ap returns (asked flag a))
  where
    unmasked : (st : ℕ) → IsStatus st → bit_and st (2 ^ 32 - 18) ≡ 0
    unmasked _ none = refl
    unmasked _ reads = refl
    unmasked _ writes = refl
    unmasked _ both = refl

    asked : (f : PollFlag) → asks f ≡ some m → (0 == value f) ≡ false
    asked cb_none b = absurd (cc b)
    asked cb_mask b = absurd (cc b)
    asked cb_rdonly b = refl
    asked cb_wronly b = refl
    asked cb_rdwr b = refl
