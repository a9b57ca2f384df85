-- ===== src/Fifo/Order.antt =====
-- Histories of one queue: the order of its elements.
use yfs_lab.Prelude.{
  ◌-◌, ◌≡◌, refl, sym, ap, ◌∙◌, List, [], ◌∷◌, ◌++◌, Option, none, some, arith, ◌==◌, if◌then◌else◌,
  Bool-cases, inl, inr,
}
use mathlib.Core.List.{append_assoc, append-nil}
use yfs_lab.Fifo.{Fifo, wake_deq, wake_enq, has_space, enq_round, signal_space, deq_from, deq_round}
use yfs_lab.Fifo.Wakeup.{
  Event, enq_entered, deq_entered, enq_woken, deq_woken, enq_tried, deq_tried, step, run,
}

module _ {T : Type 0} where
  -- What a step puts in at the back, and takes out at the front.
  abbrev pub put_in : Fifo T → Event T → List T
  put_in s enq_entered = []
  put_in s deq_entered = []
  put_in s enq_woken = []
  put_in s deq_woken = []
  put_in s (enq_tried e blocking) =
      if s.enq_awake == 0 then [] else if has_space s then e ∷ [] else []
  put_in s deq_tried = []

  abbrev taken : Option T → List T
  taken none = []
  taken (some e) = e ∷ []

  abbrev pub taken_out : Fifo T → Event T → List T
  taken_out s enq_entered = []
  taken_out s deq_entered = []
  taken_out s enq_woken = []
  taken_out s deq_woken = []
  taken_out s (enq_tried e blocking) = []
  taken_out s deq_tried = if s.deq_awake == 0 then [] else taken (deq_round s).0

  unfoldable pub all_in : Fifo T → List (Event T) → List T
  all_in s [] = []
  all_in s (e ∷ es) = put_in s e ++ all_in (step s e) es

  unfoldable pub all_out : Fifo T → List (Event T) → List T
  all_out s [] = []
  all_out s (e ∷ es) = taken_out s e ++ all_out (step s e) es

  wake_enq-q : (s : Fifo T) → (wake_enq s).q ≡ s.q
  unfolding wake_enq
  wake_enq-q s = ground arith

  wake_deq-q : (s : Fifo T) → (wake_deq s).q ≡ s.q
  unfolding wake_deq
  wake_deq-q s = ground arith

  deq_from-q :
      (s : Fifo T) (q : List T) → s.q ≡ q → taken (deq_from s q).0 ++ (deq_from s q).1.q ≡ q
  unfolding deq_from signal_space
  deq_from-q s [] n = n
  deq_from-q s (x ∷ q) n =
      ground (arith, wake_enq-q (record s { q = q; deq_awake = s.deq_awake - 1 }))

  step-q : (s : Fifo T) (e : Event T) → s.q ++ put_in s e ≡ taken_out s e ++ (step s e).q
  unfolding deq_round enq_round
  step-q s enq_entered = append-nil s.q
  step-q s deq_entered = append-nil s.q
  step-q s enq_woken = append-nil s.q ∙ sym (wake_enq-q s)
  step-q s deq_woken = append-nil s.q ∙ sym (wake_deq-q s)
  step-q s (enq_tried e blocking) = ground (
    arith,
    append-nil s.q,
    wake_deq-q (record s { q = s.q ++ (e ∷ []); enq_awake = s.enq_awake - 1 }),
  )
  step-q s deq_tried = elim (Bool-cases (s.deq_awake == 0)) [
    | inl t ↦ rw (step, taken_out, t) (append-nil s.q)
    | inr f ↦ rw (step, taken_out, f) (append-nil s.q ∙ sym (deq_from-q s s.q refl))
  ]

  -- The queue is first in, first out: what was in it, with all that `enq` put in behind, is all that
  -- `deq` took out, in the same order, with what is in it still.
  pub run-q : (s : Fifo T) (es : List (Event T)) → s.q ++ all_in s es ≡ all_out s es ++ (run s es).q
  unfolding run all_in all_out
  run-q s [] = append-nil s.q
  run-q s (e ∷ es) =
      sym (append_assoc s.q (put_in s e) (all_in (step s e) es))
      ∙ ap (λ l. l ++ all_in (step s e) es) (step-q s e)
      ∙ append_assoc (taken_out s e) (step s e).q (all_in (step s e) es)
      ∙ ap (λ l. taken_out s e ++ l) (run-q (step s e) es)
      ∙ sym (append_assoc (taken_out s e) (all_out (step s e) es) (run (step s e) es).q)
