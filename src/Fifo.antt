-- ===== src/Fifo.antt =====
-- rpc/fifo.h: class fifo.
--
-- Every operation runs under `m_`, which pthread_cond_wait gives up: one round of the loop of `enq`
-- or `deq` is one `enq_round` or `deq_round`, on entry and after each wake-up. Of the threads in
-- `deq`, `deq_waiting` counts those blocked on `non_empty_c_`, and `deq_awake` those that have not
-- looked at the queue since they entered or were woken; so for `enq` and `has_space_c_`.
pub mod Wakeup
pub mod Order
pub mod Rounds
use yfs_lab.Prelude.{
  ℕ, ◌+◌, ◌-◌, List, [], ◌∷◌, ◌++◌, Bool, true, false, not, ◌&&◌, ◌||◌, Option, none, some, length,
  ltb, ◌==◌, if◌then◌else◌,
}

pub record Fifo (T : Type 0) : Type 0 where
  pub q : List T
  pub max : ℕ
  pub deq_waiting : ℕ
  pub deq_awake : ℕ
  pub enq_waiting : ℕ
  pub enq_awake : ℕ

module _ {T : Type 0} where
  unfoldable pub fifo : ℕ → Fifo T
  fifo limit = record {
    q = [];
    max = limit;
    deq_waiting = 0;
    deq_awake = 0;
    enq_waiting = 0;
    enq_awake = 0;
  }

  -- The code returns the number as a `bool`.
  unfoldable pub size : Fifo T → Bool
  size s = ltb 0 (length s.q)

  -- A thread enters `enq` or `deq`.
  abbrev pub enter_enq : Fifo T → Fifo T
  enter_enq s = record s { enq_awake = s.enq_awake + 1 }

  abbrev pub enter_deq : Fifo T → Fifo T
  enter_deq s = record s { deq_awake = s.deq_awake + 1 }

  -- pthread_cond_signal wakes one thread, where one waits; a thread may also wake up without it.
  unfoldable pub wake_deq : Fifo T → Fifo T
  wake_deq s =
      if s.deq_waiting == 0
      then s
      else record s { deq_waiting = s.deq_waiting - 1; deq_awake = s.deq_awake + 1 }

  unfoldable pub wake_enq : Fifo T → Fifo T
  wake_enq s =
      if s.enq_waiting == 0
      then s
      else record s { enq_waiting = s.enq_waiting - 1; enq_awake = s.enq_awake + 1 }

  abbrev pub has_space : Fifo T → Bool
  has_space s = s.max == 0 || ltb (length s.q) s.max

  -- One round of the loop in `enq`: what it returns, or `none` where the thread waits.
  unfoldable pub enq_round : Fifo T → T → Bool → Option Bool × Fifo T
  enq_round s e blocking =
      if has_space s
      then (some true, wake_deq (record s { q = s.q ++ (e ∷ []); enq_awake = s.enq_awake - 1 }))
      else if blocking
      then (none, record s { enq_awake = s.enq_awake - 1; enq_waiting = s.enq_waiting + 1 })
      else (some false, record s { enq_awake = s.enq_awake - 1 })

  -- The end of `deq` signals where the queue is below its limit.
  unfoldable pub signal_space : Fifo T → Fifo T
  signal_space s = if not (s.max == 0) && ltb (length s.q) s.max then wake_enq s else s

  -- One round of the loop in `deq`: the element, or `none` where the thread waits.
  unfoldable pub deq_from : Fifo T → List T → Option T × Fifo T
  deq_from s [] = (none, record s { deq_awake = s.deq_awake - 1; deq_waiting = s.deq_waiting + 1 })
  deq_from s (e ∷ q) = (some e, signal_space (record s { q = q; deq_awake = s.deq_awake - 1 }))

  unfoldable pub deq_round : Fifo T → Option T × Fifo T
  unfolding deq_from
  deq_round s = deq_from s s.q
