-- ===== src/Rpcc/Retry/Rounds.antt =====
-- How many rounds the loop of `call1` takes.
use native.Mathlib.Nat.{pow-succ', mul_assoc}
use native.Mathlib.Decide.{ℕ_discrete, dec_lt}
use yfs_lab.Prelude.{
  ℕ, zero, suc, ◌+◌, ◌*◌, ◌%◌, ◌^◌, ◌≤◌, ◌<◌, ◌≡◌, ◌≢◌, ◌⊎◌, refl, sym, ap, subst, ◌∙◌, List, [],
  ◌∷◌, Bool, true, false, ◌==◌, Option, none, some, arith, All, length, Bool-cases, Option-cases,
  inl, inr,
}
use yfs_lab.Prelude.Int.{pos}
use yfs_lab.Timespec.{Timespec, add_timespec, cmp_timespec, million, billion}
use yfs_lab.Timespec.Deadlines.{
  nanoseconds, IsNormal, add_timespec_lem, add_timespec-IsNormal, cmp_timespec-later,
}
use yfs_lab.Rpcc.Retry.{
  Round, Loop, stops, goes_on, loop_start, transmit_round, cap_deadline, back_off, call_round,
  call_loop, is_positive, wait_reply, deadline, to_min,
}

-- The clock does not go back behind `start`.
abbrev pub IsLater : Timespec → Round → Type 0
IsLater start r = nanoseconds start ≤ nanoseconds r.now

-- The clock gives normal times that are not before `start`, and for a normal deadline the waiting
-- ends, by a reply or by ETIMEDOUT. For another one pthread_cond_timedwait gives EINVAL each time.
pub record IsTimed (start : Timespec) (r : Round) : Type 0 where
  pub later : IsLater start r
  pub normal : IsNormal r.now
  pub waits : (d : Timespec) → IsNormal d → wait_reply r.done (r.waits d) ≢ none

-- A deadline of the loop is normal where the final one is and the timeout is whole seconds.
deadline-IsNormal :
    (l : Loop) (now : Timespec)
    → IsNormal l.final
    → IsNormal now
    → l.curr_to % 1000 ≡ 0
    → IsNormal (deadline l now)
deadline-IsNormal l now f n whole =
    let next : IsNormal (add_timespec now l.curr_to) =
      (add_timespec-IsNormal now l.curr_to n).1 (λ e. omega (arith, n, e, whole)) in
    elim (Bool-cases (is_positive (cmp_timespec (add_timespec now l.curr_to) l.final))) [
      | inl t ↦ rw t f
      | inr k ↦ rw k next
    ]

transmit_round-keeps :
    (l : Loop) (chan : Option ℕ)
    → ((transmit_round l chan).final ≡ l.final) × ((transmit_round l chan).curr_to ≡ l.curr_to)
unfolding transmit_round
transmit_round-keeps l chan = ground arith

-- A timeout beyond the time that is left clears the final deadline.
cap_deadline-clears :
    (l : Loop) (start now : Timespec) (to : ℕ)
    → l.final ≡ add_timespec start to
    → nanoseconds start ≤ nanoseconds now
    → to < l.curr_to
    → (cap_deadline l now).final.tv_sec ≡ 0
unfolding cap_deadline
cap_deadline-clears l start now to e h lt =
    let next = add_timespec_lem now l.curr_to in
    let last = add_timespec_lem start to in
    let late : cmp_timespec (add_timespec now l.curr_to) (add_timespec start to) ≡ pos 1 =
      cmp_timespec-later _ _ next.1 last.1 (omega (arith, next.0, last.0)) in
    rw (e, late) refl

cap_deadline_cases :
    (l : Loop) (now : Timespec)
    → ((cap_deadline l now).final.tv_sec ≡ 0) ⊎ ((cap_deadline l now).final ≡ l.final)
unfolding cap_deadline
cap_deadline_cases l now =
    elim (Bool-cases (is_positive (cmp_timespec (add_timespec now l.curr_to) l.final))) [
      | inl t ↦ inl (rw t refl)
      | inr f ↦ inr (rw f refl)
    ]

cap_deadline-curr_to : (l : Loop) (now : Timespec) → (cap_deadline l now).curr_to ≡ l.curr_to
unfolding cap_deadline
cap_deadline-curr_to l now = ground arith

-- The state behind a round that does not end the loop.
abbrev waited : Bool → Loop → Round → Loop
waited retrans l r = back_off retrans (cap_deadline (transmit_round l r.chan) r.now) r.dead

call_round_cases :
    (retrans : Bool) (start : Timespec) (l : Loop) (r : Round)
    → IsTimed start r
    → (l.final.tv_sec ≡ 0) ⊎ IsNormal l.final
    → l.curr_to % 1000 ≡ 0
    → ((l' : Loop) × (call_round retrans l r ≡ stops l'))
      ⊎ ((call_round retrans l r ≡ goes_on (waited retrans l r)) × (l.final.tv_sec ≢ 0))
unfolding call_round
call_round_cases retrans start l r timed f whole =
    let keeps = transmit_round-keeps l r.chan in
    let l1 = transmit_round l r.chan in
    let same = ap (λ f. f.tv_sec) keeps.0 in
    let ends : l1.final.tv_sec ≢ 0 → wait_reply r.done (r.waits (deadline l1 r.now)) ≢ none = λ n.
      timed.waits (deadline l1 r.now) (
        deadline-IsNormal l1 r.now
          (elim f [ inl z ↦ absurd (n (same ∙ z)) | inr k ↦ subst IsNormal (sym keeps.0) k ])
          timed.normal (ap (λ c. c % 1000) keeps.1 ∙ whole)) in
    elim (ℕ_discrete (transmit_round l r.chan).final.tv_sec 0) [
      | yes z ↦ inl (transmit_round l r.chan, ground arith)
      | no n ↦
          let waits : (l1.final.tv_sec == 0) ≡ false = ground (arith, n) in
          elim (Option-cases (wait_reply r.done (r.waits (deadline l1 r.now)))) [
            | inl never ↦ absurd (ends n never)
            | inr (true, e) ↦ inl (cap_deadline l1 r.now, rw (call_round, waits, e) refl)
            | inr (false, e) ↦ inr (rw (call_round, waits, e) refl, λ z. n (same ∙ z))
          ]
    ]

-- Once the final deadline is cleared, the next round is the last.
cleared_ends :
    (retrans : Bool) (l : Loop) (r : Round) (rs : List Round)
    → l.final.tv_sec ≡ 0
    → call_loop retrans l (r ∷ rs) ≢ none
unfolding call_loop call_round
cleared_ends retrans l r rs z h =
    let last : ((transmit_round l r.chan).final.tv_sec == 0) ≡ true =
      ap (λ f. f.tv_sec == 0) (transmit_round-keeps l r.chan).0 ∙ ap (λ n. n == 0) z in
    let stop : call_round retrans l r ≡ stops (transmit_round l r.chan) =
      rw (call_round, last) refl in
    cc (rw (call_loop, stop) at h)

waited-curr_to :
    (retrans : Bool) (l : Loop) (r : Round) → (waited retrans l r).curr_to ≡ l.curr_to * 2 % 2 ^ 32
unfolding back_off
waited-curr_to retrans l r =
    ap (λ c. c * 2 % 2 ^ 32)
      (cap_deadline-curr_to (transmit_round l r.chan) r.now ∙ (transmit_round-keeps l r.chan).1)

waited_cases :
    (retrans : Bool) (l : Loop) (r : Round)
    → ((waited retrans l r).final.tv_sec ≡ 0) ⊎ ((waited retrans l r).final ≡ l.final)
unfolding back_off
waited_cases retrans l r = elim (cap_deadline_cases (transmit_round l r.chan) r.now) [
  | inl z ↦ inl z
  | inr e ↦ inr (e ∙ (transmit_round-keeps l r.chan).0)
]

waited-clears :
    (retrans : Bool) (l : Loop) (r : Round) (start : Timespec) (to : ℕ)
    → l.final ≡ add_timespec start to
    → IsLater start r
    → to < l.curr_to
    → (waited retrans l r).final.tv_sec ≡ 0
unfolding back_off
waited-clears retrans l r start to e h lt =
    let keeps = transmit_round-keeps l r.chan in
    cap_deadline-clears (transmit_round l r.chan) start r.now to (keeps.0 ∙ e) h
      (omega (arith, keeps.1, lt))

twice_more : (c j : ℕ) → c * 2 ^ suc j ≡ c * 2 * 2 ^ j
twice_more c j = ap (λ x. c * x) (pow-succ' 2 j) ∙ sym (mul_assoc c 2 (2 ^ j))

-- With the timeout doubled `j` times beyond the time that is left, `j + 2` rounds are enough.
loop_ends :
    (retrans : Bool) (start : Timespec) (to j : ℕ) (l : Loop) (rs : List Round)
    → to < 2 ^ 30
    → IsNormal (add_timespec start to)
    → (l.final.tv_sec ≡ 0) ⊎ (l.final ≡ add_timespec start to)
    → l.curr_to % 1000 ≡ 0
    → to < l.curr_to * 2 ^ j
    → All (IsTimed start) rs
    → j + 2 ≤ length rs
    → call_loop retrans l rs ≢ none
unfolding call_loop
loop_ends retrans start to j l [] small final f whole big a long h = omega (arith, long)
loop_ends retrans start to j l (r ∷ rs) small final (inl z) whole big a long h =
    cleared_ends retrans l r rs z h
loop_ends retrans start to j l (r ∷ []) small final (inr e) whole big a long h = omega (arith, long)
loop_ends retrans start to zero l (r ∷ r2 ∷ rs) small final (inr e) whole big a long h =
    elim (call_round_cases retrans start l r a.0 (inr (subst IsNormal (sym e) final)) whole) [
      | inl (l', q) ↦ cc (rw (call_loop, q) at h)
      | inr (q, n) ↦
          cleared_ends retrans (waited retrans l r) r2 rs
            (waited-clears retrans l r start to e a.0.later (omega (arith, big)))
            (rw (call_loop, q) at h)
    ]
loop_ends retrans start to (suc j) l (r ∷ r2 ∷ rs) small final (inr e) whole big a long h =
    elim (call_round_cases retrans start l r a.0 (inr (subst IsNormal (sym e) final)) whole) [
      | inl (l', q) ↦ cc (rw (call_loop, q) at h)
      | inr (q, n) ↦ elim (dec_lt to l.curr_to) [
        | yes beyond ↦
            cleared_ends retrans (waited retrans l r) r2 rs
              (waited-clears retrans l r start to e a.0.later beyond) (rw (call_loop, q) at h)
        | no within ↦
            let plain : l.curr_to * 2 % 2 ^ 32 ≡ l.curr_to * 2 = omega (arith, within, small) in
            let bigger = subst (λ x. to < x) (twice_more l.curr_to j) big in
            loop_ends retrans start to j (waited retrans l r) (r2 ∷ rs) small final
              (elim (waited_cases retrans l r) [ inl z ↦ inl z | inr k ↦ inr (k ∙ e) ])
              (ap (λ c. c % 1000) (waited-curr_to retrans l r ∙ plain) ∙ omega (arith, whole))
              (subst (λ c. to < c * 2 ^ j) (sym (waited-curr_to retrans l r ∙ plain)) bigger) a.1
              (omega (arith, long)) (rw (call_loop, q) at h)
      ]
    ]

-- On a clock with normal times that does not go back behind the start of a call with a timeout of
-- `to` milliseconds, less than 2^30, where the nanoseconds of the start and of the timeout do not add
-- up to exactly a billion, and where pthread_cond_timedwait ends the waiting for every normal deadline,
-- by a reply or by ETIMEDOUT: the loop ends after at most `j + 2` rounds, where `j` doublings bring
-- the first timeout of a second beyond `to`. For to_max these are nine.
pub call_loop_ends :
    (retrans : Bool) (start : Timespec) (to j : ℕ) (rs : List Round)
    → to < 2 ^ 30
    → IsNormal start
    → start.tv_nsec + to % 1000 * million ≢ billion
    → to < to_min * 2 ^ j
    → All (IsTimed start) rs
    → j + 2 ≤ length rs
    → (l : Loop) × (call_loop retrans (loop_start start to) rs ≡ some l)
call_loop_ends retrans start to j rs small n exact big a long =
    elim (Option-cases (call_loop retrans (loop_start start to) rs)) [
      | inl e ↦ absurd (
          loop_ends retrans start to j (loop_start start to) rs small
            ((add_timespec-IsNormal start to n).1 exact) (inr refl) refl big a long e)
      | inr s ↦ s
    ]
