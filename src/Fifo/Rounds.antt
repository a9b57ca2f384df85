-- ===== src/Fifo/Rounds.antt =====
-- What one round of `enq` or `deq` does to the queue and to the numbers of threads in them.
use yfs_lab.Prelude.{
  ℕ, suc, ◌+◌, ◌-◌, ◌<◌, ◌≡◌, refl, List, [], ◌∷◌, ◌++◌, Bool, true, false, Option, none, some,
  arith, Bool-cases, inl, inr,
}
use yfs_lab.Fifo.{Fifo, wake_deq, wake_enq, has_space, enq_round, signal_space, deq_from, deq_round}
use yfs_lab.Fifo.Wakeup.{IsFifo, deq_from-IsFifo}

module _ {T : Type 0} where
  abbrev pub enq_total : Fifo T → ℕ
  enq_total s = s.enq_awake + s.enq_waiting

  abbrev pub deq_total : Fifo T → ℕ
  deq_total s = s.deq_awake + s.deq_waiting

  -- What a signal leaves as it was.
  pub record Woken (s s' : Fifo T) : Type 0 where
    pub q : s'.q ≡ s.q
    pub max : s'.max ≡ s.max
    pub enqs : enq_total s' ≡ enq_total s
    pub deqs : deq_total s' ≡ deq_total s

  pub wake_deq-Woken : (s : Fifo T) → Woken s (wake_deq s)
  unfolding wake_deq
  wake_deq-Woken s = record {
    q = ground arith;
    max = ground arith;
    enqs = ground arith;
    deqs = ground arith;
  }

  pub wake_enq-Woken : (s : Fifo T) → Woken s (wake_enq s)
  unfolding wake_enq
  wake_enq-Woken s = record {
    q = ground arith;
    max = ground arith;
    enqs = ground arith;
    deqs = ground arith;
  }

  pub data Enqueued (s : Fifo T) (e : T) (blocking : Bool) (o : Option Bool) (s' : Fifo T)
      : Type 0 where
    added :
        o ≡ some true
        → s'.q ≡ s.q ++ (e ∷ [])
        → suc (enq_total s') ≡ enq_total s
        → Enqueued s e blocking o s'
    refused :
        o ≡ some false
        → blocking ≡ false
        → s'.q ≡ s.q
        → suc (enq_total s') ≡ enq_total s
        → Enqueued s e blocking o s'
    waits :
        o ≡ none
        → has_space s ≡ false
        → s'.q ≡ s.q
        → enq_total s' ≡ enq_total s
        → Enqueued s e blocking o s'

  pub record EnqKeeps (s s' : Fifo T) : Type 0 where
    pub max : s'.max ≡ s.max
    pub deqs : deq_total s' ≡ deq_total s

  pub enq_round-keeps :
      (s : Fifo T) (e : T) (blocking : Bool) → EnqKeeps s (enq_round s e blocking).1
  unfolding enq_round
  enq_round-keeps s e blocking =
      let w = wake_deq-Woken (record s { q = s.q ++ (e ∷ []); enq_awake = s.enq_awake - 1 }) in
      record { max = ground (arith, w.max); deqs = ground (arith, w.deqs) }

  pub enq_round_cases :
      (s : Fifo T) (e : T) (blocking : Bool)
      → 0 < s.enq_awake
      → Enqueued s e blocking (enq_round s e blocking).0 (enq_round s e blocking).1
  unfolding enq_round
  enq_round_cases s e blocking l =
      let w = wake_deq-Woken (record s { q = s.q ++ (e ∷ []); enq_awake = s.enq_awake - 1 }) in
      elim (Bool-cases (has_space s)) [
        | inl y ↦ added (ground arith) (ground (arith, w.q)) (ground (arith, w.enqs))
        | inr n ↦ elim (Bool-cases blocking) [
          | inl b ↦ waits (ground arith) n (ground arith) (ground arith)
          | inr b ↦ refused (ground arith) b (ground arith) (ground arith)
        ]
      ]

  pub data Dequeued (s : Fifo T) (o : Option T) (s' : Fifo T) : Type 0 where
    took :
        (e : T) → o ≡ some e → s.q ≡ e ∷ s'.q → suc (deq_total s') ≡ deq_total s → Dequeued s o s'
    waits_for : o ≡ none → s.q ≡ [] → s'.q ≡ [] → deq_total s' ≡ deq_total s → Dequeued s o s'

  deq_from_cases :
      (s : Fifo T) (q : List T)
      → s.q ≡ q
      → 0 < s.deq_awake
      → Dequeued s (deq_from s q).0 (deq_from s q).1
        × ((deq_from s q).1.max ≡ s.max)
        × (enq_total (deq_from s q).1 ≡ enq_total s)
  unfolding deq_from signal_space
  deq_from_cases s [] e l = (waits_for refl e e (omega (arith, l)), refl, refl)
  deq_from_cases s (x ∷ q) e l =
      let w = wake_enq-Woken (record s { q = q; deq_awake = s.deq_awake - 1 }) in
      (
        took x refl (ground (arith, e, w.q)) (ground (arith, l, w.deqs)),
        ground (arith, w.max),
        ground (arith, w.enqs),
      )

  pub deq_round_cases :
      (s : Fifo T)
      → 0 < s.deq_awake
      → Dequeued s (deq_round s).0 (deq_round s).1
        × ((deq_round s).1.max ≡ s.max)
        × (enq_total (deq_round s).1 ≡ enq_total s)
  unfolding deq_round
  deq_round_cases s l = deq_from_cases s s.q refl l

  pub deq_round-IsFifo : (s : Fifo T) → 0 < s.deq_awake → IsFifo s → IsFifo (deq_round s).1
  unfolding deq_round
  deq_round-IsFifo s l v = deq_from-IsFifo s s.q refl l v
