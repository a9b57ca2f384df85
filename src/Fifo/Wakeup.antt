-- ===== src/Fifo/Wakeup.antt =====
-- Histories of one queue: its limit and its waiting threads.
use yfs_lab.Prelude.{
  ℕ, ◌+◌, ◌≤◌, ◌<◌, ◌≡◌, ◌≢◌, ◌⊎◌, refl, ap, List, [], ◌∷◌, Bool, arith, length, length-append,
  ◌==◌, if◌then◌else◌, Bool-cases, inl, inr,
}
use yfs_lab.Fifo.{
  Fifo, fifo, enter_enq, enter_deq, wake_deq, wake_enq, enq_round, signal_space, deq_from,
  deq_round,
}

-- What the threads do, in the order of m_; a round happens only where a thread is awake for it.
pub data Event (T : Type 0) : Type 0 where
  enq_entered : Event T
  deq_entered : Event T
  enq_woken : Event T
  deq_woken : Event T
  enq_tried : (e : T) (blocking : Bool) → Event T
  deq_tried : Event T

module _ {T : Type 0} where
  abbrev pub step : Fifo T → Event T → Fifo T
  step s enq_entered = enter_enq s
  step s deq_entered = enter_deq s
  step s enq_woken = wake_enq s
  step s deq_woken = wake_deq s
  step s (enq_tried e blocking) = if s.enq_awake == 0 then s else (enq_round s e blocking).1
  step s deq_tried = if s.deq_awake == 0 then s else (deq_round s).1

  -- Within the limit; where threads wait in `deq`, at least one is awake for each element, and where
  -- threads wait in `enq`, at least one is awake for each free place.
  pub record IsFifo (s : Fifo T) : Type 0 where
    pub bounded : (s.max ≡ 0) ⊎ (length s.q ≤ s.max)
    pub elements : (s.deq_waiting ≡ 0) ⊎ (length s.q ≤ s.deq_awake)
    pub places : (s.enq_waiting ≡ 0) ⊎ ((s.max ≢ 0) × (s.max ≤ length s.q + s.enq_awake))

  pub fifo-IsFifo : (limit : ℕ) → IsFifo (fifo limit)
  unfolding fifo
  fifo-IsFifo limit = record { bounded = inr (omega arith); elements = inl refl; places = inl refl }

  pub wake_enq-IsFifo : (s : Fifo T) → IsFifo s → IsFifo (wake_enq s)
  unfolding wake_enq
  wake_enq-IsFifo s v = elim (Bool-cases (s.enq_waiting == 0)) [
    | inl t ↦ rw (wake_enq, t) v
    | inr f ↦
        rw (wake_enq, f)
          (record { bounded = v.bounded; elements = v.elements; places = ground (arith, v.places) })
  ]

  pub wake_deq-IsFifo : (s : Fifo T) → IsFifo s → IsFifo (wake_deq s)
  unfolding wake_deq
  wake_deq-IsFifo s v = elim (Bool-cases (s.deq_waiting == 0)) [
    | inl t ↦ rw (wake_deq, t) v
    | inr f ↦
        rw (wake_deq, f)
          (record { bounded = v.bounded; elements = ground (arith, v.elements); places = v.places })
  ]

  pub enq_round-IsFifo :
      (s : Fifo T) (e : T) (blocking : Bool)
      → 0 < s.enq_awake
      → IsFifo s
      → IsFifo (enq_round s e blocking).1
  unfolding enq_round wake_deq
  enq_round-IsFifo s e blocking a v = record {
    bounded = ground (arith, v.bounded, length-append s.q (e ∷ []));
    elements = ground (arith, v.elements, length-append s.q (e ∷ []));
    places = ground (arith, v.places, length-append s.q (e ∷ []));
  }

  pub deq_from-IsFifo :
      (s : Fifo T) (q : List T) → s.q ≡ q → 0 < s.deq_awake → IsFifo s → IsFifo (deq_from s q).1
  unfolding deq_from signal_space wake_enq
  deq_from-IsFifo s [] n a v = record {
    bounded = v.bounded;
    elements = inr (omega (arith, ap length n));
    places = v.places;
  }
  deq_from-IsFifo s (x ∷ q) n a v =
      let shorter = ap length n in
      record {
        bounded = ground (arith, v.bounded, shorter);
        elements = ground (arith, v.elements, shorter);
        places = ground (arith, v.places, v.bounded, shorter);
      }

  -- Every step of every thread keeps the queue within its limit, and loses no wake-up.
  pub step-IsFifo : (s : Fifo T) (e : Event T) → IsFifo s → IsFifo (step s e)
  unfolding deq_round
  step-IsFifo s enq_entered v = record {
    bounded = v.bounded;
    elements = v.elements;
    places = ground (arith, v.places);
  }
  step-IsFifo s deq_entered v = record {
    bounded = v.bounded;
    elements = ground (arith, v.elements);
    places = v.places;
  }
  step-IsFifo s enq_woken v = wake_enq-IsFifo s v
  step-IsFifo s deq_woken v = wake_deq-IsFifo s v
  step-IsFifo s (enq_tried e blocking) v = elim (Bool-cases (s.enq_awake == 0)) [
    | inl t ↦ rw (step, t) v
    | inr f ↦ rw (step, f) (enq_round-IsFifo s e blocking (ground arith) v)
  ]
  step-IsFifo s deq_tried v = elim (Bool-cases (s.deq_awake == 0)) [
    | inl t ↦ rw (step, t) v
    | inr f ↦ rw (step, f) (deq_from-IsFifo s s.q refl (ground arith) v)
  ]

  unfoldable pub run : Fifo T → List (Event T) → Fifo T
  run s [] = s
  run s (e ∷ es) = run (step s e) es

  run-IsFifo : (s : Fifo T) (es : List (Event T)) → IsFifo s → IsFifo (run s es)
  unfolding run
  run-IsFifo s [] v = v
  run-IsFifo s (e ∷ es) v = run-IsFifo (step s e) es (step-IsFifo s e v)

  -- Whatever threads do with a new queue, it stays within its limit and loses no wake-up: where
  -- threads wait in `deq`, one is awake for each element, and where threads wait in `enq`, one is
  -- awake for each free place.
  pub fifo-run-IsFifo : (limit : ℕ) (es : List (Event T)) → IsFifo (run (fifo limit) es)
  fifo-run-IsFifo limit es = run-IsFifo (fifo limit) es (fifo-IsFifo limit)
