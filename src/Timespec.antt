-- ===== src/Timespec.antt =====
-- rpc/rpc.cc: cmp_timespec, add_timespec, diff_timespec, which rpcc::call1 computes deadlines with.
--
-- Times are natural numbers: `b` of add_timespec is a timeout that is not negative. time_t and
-- long do not overflow for times that occur.
pub mod Deadlines
use yfs_lab.Prelude.{
  ℕ, zero, suc, ◌+◌, ◌-◌, ◌*◌, ◌/◌, ◌%◌, Bool, true, false, ◌&&◌, not, Option, none, some, ltb, leb,
  ◌==◌, if◌then◌else◌,
}
use yfs_lab.Prelude.Int.{ℤ, pos, negsuc}

pub record Timespec : Type 0 where
  pub tv_sec : ℕ
  pub tv_nsec : ℕ

abbrev pub billion : ℕ
billion = 1_000_000_000

abbrev pub million : ℕ
million = 1_000_000

unfoldable pub cmp_timespec : Timespec → Timespec → ℤ
cmp_timespec a b =
    if ltb b.tv_sec a.tv_sec
    then pos 1
    else if ltb a.tv_sec b.tv_sec
    then negsuc 0
    else if ltb b.tv_nsec a.tv_nsec
    then pos 1
    else if ltb a.tv_nsec b.tv_nsec
    then negsuc 0
    else pos 0

-- `while (result->tv_nsec > 1000000000)`, with fuel for its rounds.
unfoldable pub carry : ℕ → Timespec → Timespec
carry zero r = r
carry (suc fuel) r = elim (ltb billion r.tv_nsec) [
  | true ↦ carry fuel (record r { tv_sec = r.tv_sec + 1; tv_nsec = r.tv_nsec - billion })
  | false ↦ r
]

-- Each round takes a billion off, so `tv_nsec / billion` rounds are enough.
unfoldable pub add_timespec : Timespec → ℕ → Timespec
add_timespec a b =
    let nsec = a.tv_nsec + b % 1000 * million in
    carry (nsec / billion) (record { tv_sec = a.tv_sec + b / 1000; tv_nsec = nsec })

-- `none` where the assert fails.
unfoldable pub diff_timespec : Timespec → Timespec → Option ℤ
diff_timespec end start =
    let diff = if ltb start.tv_sec end.tv_sec then (end.tv_sec - start.tv_sec) * 1000 else 0 in
    let back = (start.tv_nsec - end.tv_nsec) / million in
    if diff == 0 && not (end.tv_sec == start.tv_sec)
    then none
    else if ltb start.tv_nsec end.tv_nsec
    then some (pos (diff + (end.tv_nsec - start.tv_nsec) / million))
    else if leb back diff
    then some (pos (diff - back))
    else some (negsuc (back - diff - 1))
