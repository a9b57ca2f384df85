-- ===== src/Rpcc/Retry.antt =====
-- rpc/rpc.cc: the loop of rpcc::call1 that sends, waits and doubles the timeout, with get_refconn.
--
-- What the clock, the connections and pthread_cond_timedwait give in one round is a `Round`. A
-- connection is a number. A list of rounds is what happens; `call_loop` gives `none` where the list
-- ends before the loop does, or where the waits of a round end before its inner loop does.
pub mod Rounds
use yfs_lab.Prelude.{
  ℕ, ◌+◌, ◌*◌, ◌%◌, ◌^◌, List, [], ◌∷◌, Bool, true, false, not, ◌&&◌, ◌||◌, Option, none, some,
  ◌==◌, if◌then◌else◌,
}
use yfs_lab.Prelude.Int.{ℤ, pos, negsuc}
use yfs_lab.Timespec.{Timespec, add_timespec, cmp_timespec}

-- rpcc::to_max and to_min, in milliseconds.
abbrev pub to_max : ℕ
to_max = 120_000

abbrev pub to_min : ℕ
to_min = 1000

-- One return of pthread_cond_timedwait: whether it gave ETIMEDOUT, and not 0 or another error, and
-- what `ca.done` is then.
pub record Wait : Type 0 where
  pub timed_out : Bool
  pub done : Bool

-- `now` is the clock behind the test of the final deadline, `chan` is chan_ where get_refconn leaves
-- it, `done` is `ca.done` in front of the waiting, `waits` says what pthread_cond_timedwait gives for
-- a deadline, one call after the other, and `dead` what `ch->isdead()` says behind it.
pub record Round : Type 0 where
  pub now : Timespec
  pub chan : Option ℕ
  pub done : Bool
  pub waits : Timespec → List Wait
  pub dead : Bool

-- `while (!ca.done)`: what `ca.done` is behind the loop, or `none` where it does not end with these
-- waits.
unfoldable pub wait_reply : Bool → List Wait → Option Bool
wait_reply true ws = some true
wait_reply false [] = none
wait_reply false (w ∷ ws) =
    let rest = wait_reply w.done ws in if w.timed_out then some w.done else rest

-- The variables of the loop, and the connections that the request was sent on.
pub record Loop : Type 0 where
  pub curr_to : ℕ
  pub transmit : Bool
  pub ch : Option ℕ
  pub final : Timespec
  pub sends : List ℕ

pub data Next : Type 0 where
  stops : Loop → Next
  goes_on : Loop → Next
  hangs : Next

-- What stands before the loop; `now` is the clock there.
abbrev pub loop_start : Timespec → ℕ → Loop
loop_start now to = record {
  curr_to = to_min;
  transmit = true;
  ch = none;
  final = add_timespec now to;
  sends = [];
}

-- get_refconn on `ch`, which stays where there is no connection.
abbrev pub refconn : Option ℕ → Option ℕ → Option ℕ
refconn ch none = ch
refconn ch (some c) = some c

abbrev pub send_on : List ℕ → Option ℕ → List ℕ
send_on sends none = sends
send_on sends (some c) = c ∷ sends

-- `if (transmit)`
unfoldable pub transmit_round : Loop → Option ℕ → Loop
transmit_round l chan =
    if l.transmit
    then record l {
      ch = refconn l.ch chan;
      transmit = false;
      sends = send_on l.sends (refconn l.ch chan);
    }
    else l

abbrev pub is_positive : ℤ → Bool
is_positive (pos n) = not (n == 0)
is_positive (negsuc n) = false

-- `nextdeadline`
abbrev pub deadline : Loop → Timespec → Timespec
deadline l now =
    if is_positive (cmp_timespec (add_timespec now l.curr_to) l.final)
    then l.final
    else add_timespec now l.curr_to

-- The final deadline, of which tv_sec is cleared where the next deadline would be later.
unfoldable pub cap_deadline : Loop → Timespec → Loop
cap_deadline l now =
    if is_positive (cmp_timespec (add_timespec now l.curr_to) l.final)
    then record l { final = record { tv_sec = 0; tv_nsec = l.final.tv_nsec } }
    else l

abbrev pub is_gone : Option ℕ → Bool → Bool
is_gone none dead = true
is_gone (some c) dead = dead

-- What stands behind the wait: to send again, and with twice the timeout.
unfoldable pub back_off : Bool → Loop → Bool → Loop
back_off retrans l dead = record l {
  transmit = l.transmit || retrans && is_gone l.ch dead;
  curr_to = l.curr_to * 2 % 2 ^ 32;
}

unfoldable pub call_round : Bool → Loop → Round → Next
call_round retrans l r =
    let l1 = transmit_round l r.chan in
    let l2 = cap_deadline l1 r.now in
    if l1.final.tv_sec == 0
    then stops l1
    else elim (wait_reply r.done (r.waits (deadline l1 r.now))) [
      | none ↦ hangs
      | some true ↦ stops l2
      | some false ↦ goes_on (back_off retrans l2 r.dead)
    ]

unfoldable pub call_loop : Bool → Loop → List Round → Option Loop
call_loop retrans l [] = none
call_loop retrans l (r ∷ rs) = elim (call_round retrans l r) [
  | stops l' ↦ some l'
  | goes_on l' ↦ call_loop retrans l' rs
  | hangs ↦ none
]
