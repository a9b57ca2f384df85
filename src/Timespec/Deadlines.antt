-- ===== src/Timespec/Deadlines.antt =====
-- What the time functions compute, in nanoseconds.
use native.Mathlib.Decide.{dec_lt}
use yfs_lab.Prelude.{
  ℕ, zero, suc, ◌+◌, ◌-◌, ◌*◌, ◌/◌, ◌%◌, ◌≤◌, ◌<◌, ◌≡◌, ◌≢◌, ◌↔◌, refl, inl, inr, some, arith, ltb,
  Bool-cases,
}
use yfs_lab.Prelude.Int.{pos, negsuc}
use yfs_lab.Timespec.{Timespec, billion, million, cmp_timespec, carry, add_timespec, diff_timespec}

abbrev pub nanoseconds : Timespec → ℕ
nanoseconds t = t.tv_sec * billion + t.tv_nsec

-- What POSIX asks of a timespec.
abbrev pub IsNormal : Timespec → Type 0
IsNormal t = t.tv_nsec < billion

carry_lem :
    (fuel : ℕ) (r : Timespec)
    → r.tv_nsec ≤ fuel * billion + billion
    → (nanoseconds (carry fuel r) ≡ nanoseconds r) × ((carry fuel r).tv_nsec ≤ billion)
unfolding carry
carry_lem zero r h = (refl, omega arith)
carry_lem (suc fuel) r h = elim (Bool-cases (ltb billion r.tv_nsec)) [
  | inl more ↦
      let ih =
        carry_lem fuel (record r { tv_sec = r.tv_sec + 1; tv_nsec = r.tv_nsec - billion })
          (ground arith) in
      ground (arith, ih)
  | inr stop ↦ ground arith
]

-- `add_timespec` adds `b` milliseconds, and its loop ends by its own test, with a `tv_nsec` of at
-- most a billion.
pub add_timespec_lem :
    (a : Timespec) (b : ℕ)
    → (nanoseconds (add_timespec a b) ≡ nanoseconds a + b * million)
      × ((add_timespec a b).tv_nsec ≤ billion)
unfolding add_timespec
add_timespec_lem a b =
    let nsec = a.tv_nsec + b % 1000 * million in
    let r =
      carry_lem (nsec / billion) (record { tv_sec = a.tv_sec + b / 1000; tv_nsec = nsec })
        (omega arith) in
    (omega (arith, r.0), r.1)

-- For a normal time, what add_timespec gives is a time that POSIX calls invalid exactly where the
-- nanoseconds of the time and of the timeout add up to a billion.
pub add_timespec-IsNormal :
    (a : Timespec) (b : ℕ)
    → IsNormal a
    → IsNormal (add_timespec a b) ↔ (a.tv_nsec + b % 1000 * million ≢ billion)
unfolding add_timespec carry
add_timespec-IsNormal a b n = elim (dec_lt (a.tv_nsec + b % 1000 * million) billion) [
  | yes below ↦
      let none_taken : (a.tv_nsec + b % 1000 * million) / billion ≡ 0 = omega (arith, below) in
      rw none_taken ((λ h e. omega (arith, below, e)), λ h. below)
  | no above ↦
      let once : (a.tv_nsec + b % 1000 * million) / billion ≡ 1 = omega (arith, above, n) in
      rw once (ground (arith, above, n))
]

-- On normal times `cmp_timespec` is the order of the nanoseconds.
pub cmp_timespec_lem :
    (a b : Timespec)
    → IsNormal a
    → IsNormal b
    → ((cmp_timespec a b ≡ pos 1) ↔ (nanoseconds b < nanoseconds a))
      × ((cmp_timespec a b ≡ pos 0) ↔ (nanoseconds a ≡ nanoseconds b))
      × ((cmp_timespec a b ≡ negsuc 0) ↔ (nanoseconds a < nanoseconds b))
unfolding cmp_timespec
cmp_timespec_lem a b na nb = (ground arith, ground arith, ground arith)

-- A time that is later by the nanoseconds compares as later even where `tv_nsec` is a billion.
pub cmp_timespec-later :
    (a b : Timespec)
    → a.tv_nsec ≤ billion
    → b.tv_nsec ≤ billion
    → nanoseconds b < nanoseconds a
    → cmp_timespec a b ≡ pos 1
unfolding cmp_timespec
cmp_timespec-later a b na nb h = ground arith

-- For normal times in order `diff_timespec` passes its assert and gives the milliseconds between
-- them, to less than one.
pub diff_timespec_lem :
    (end start : Timespec)
    → IsNormal end
    → IsNormal start
    → nanoseconds start ≤ nanoseconds end
    → (d : ℕ) × (diff_timespec end start ≡ some (pos d))
      × (nanoseconds end < nanoseconds start + (d + 1) * million)
      × (nanoseconds start + d * million < nanoseconds end + million)
unfolding diff_timespec
diff_timespec_lem end start ne ns h = elim (dec_lt start.tv_nsec end.tv_nsec) [
  | yes ahead ↦ (
    (end.tv_sec - start.tv_sec) * 1000 + (end.tv_nsec - start.tv_nsec) / million,
    ground arith,
    omega arith,
    omega arith,
  )
  | no behind ↦ (
    (end.tv_sec - start.tv_sec) * 1000 - (start.tv_nsec - end.tv_nsec) / million,
    ground arith,
    omega arith,
    omega arith,
  )
]
