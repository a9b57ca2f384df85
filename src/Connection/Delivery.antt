-- ===== src/Connection/Delivery.antt =====
-- What a connection hands over of a stream of messages.
use yfs_lab.Prelude.{
  ℕ, zero, suc, ◌+◌, ◌≤◌, ◌<◌, ◌≡◌, refl, sym, ap, ◌∙◌, ◌⊎◌, inl, inr, List, [], ◌∷◌, ◌++◌, true,
  false, arith, All, length, length-append, ltb, if◌then◌else◌,
}
use mathlib.Core.List.{append-nil}
use yfs_lab.Prelude.Memory.{Cells}
use yfs_lab.Prelude.Outcome.{Outcome, returns}
use yfs_lab.Connection.{connection}
use yfs_lab.Connection.Frames.{IsFrame, concat}
use yfs_lab.Connection.Stream.{
  Channel, receive, receive_some, receive_all, taking, Reading, between, inside, Received,
  receive-inside, receive-between,
}

receive-Received :
    (ch : Channel) (junk : Cells) (k : ℕ) (ps : List (List ℕ))
    → All IsFrame ps
    → Reading ch ps
    → Received ch k ps (receive ch junk k true)
unfolding receive
receive-Received ch junk k [] f (between alive idle e) = record {
  after = ch;
  rest = [];
  returned =
      ap
        (λ l. elim l as (λ _. Outcome Channel) [
          | [] ↦ returns ch
          | x ∷ s ↦ receive_some ch junk k true
        ])
        e;
  reading = between alive idle e;
  frames = tt;
  order = refl;
  shrinks = omega arith;
  progress = λ h1 h2. absurd (omega (arith, ap length e));
}
receive-Received ch junk k (m ∷ ps) f (between alive idle e) =
    receive-between ch junk k m ps f alive idle e
receive-Received ch junk k (m ∷ ps) f (inside pre post p whole e) =
    receive-inside ch junk k m ps pre post f p whole e

-- How many of the calls find bytes.
abbrev pub busy : List ℕ → ℕ
busy [] = 0
busy (k ∷ ks) = (if ltb 0 k then 1 else 0) + busy ks

-- The channel after a number of calls.
record Run (ch : Channel) (n : ℕ) (ps : List (List ℕ)) (o : Outcome Channel) : Type 0 where
  pub after : Channel
  pub rest : List (List ℕ)
  pub returned : o ≡ returns after
  pub reading : Reading after rest
  pub frames : All IsFrame rest
  pub order : after.conn.taken ++ rest ≡ ch.conn.taken ++ ps
  pub shrinks : length after.stream ≤ length ch.stream
  pub progress : (length after.stream ≡ 0) ⊎ (length after.stream + n ≤ length ch.stream)

progress_sum :
    (k a b c n : ℕ)
    → b ≤ a
    → c ≤ b
    → (0 < k → 0 < a → b < a)
    → (c ≡ 0) ⊎ (c + n ≤ b)
    → (c ≡ 0) ⊎ (c + ((if ltb 0 k then 1 else 0) + n) ≤ a)
progress_sum k a b c n h1 h2 step (inl z) = inl z
progress_sum zero a b c n h1 h2 step (inr le) = inr (omega arith)
progress_sum (suc k) zero b c n h1 h2 step (inr le) = inl (omega arith)
progress_sum (suc k) (suc a) b c n h1 h2 step (inr le) =
    inr (ground (arith, step (omega arith) (omega arith)))

receive_all-Run :
    (ch : Channel) (junk : Cells) (ks : List ℕ) (ps : List (List ℕ))
    → All IsFrame ps
    → Reading ch ps
    → Run ch (busy ks) ps (receive_all ch junk (taking ks))
unfolding receive_all
receive_all-Run ch junk [] ps f r = record {
  after = ch;
  rest = ps;
  returned = refl;
  reading = r;
  frames = f;
  order = refl;
  shrinks = omega arith;
  progress = inr (omega arith);
}
receive_all-Run ch junk (k ∷ ks) ps f r =
    let one = receive-Received ch junk k ps f r in
    let more = receive_all-Run one.after junk ks one.rest one.frames one.reading in
    record {
      after = more.after;
      rest = more.rest;
      returned = rw (receive_all, one.returned) more.returned;
      reading = more.reading;
      frames = more.frames;
      order = more.order ∙ one.order;
      shrinks = omega (arith, one.shrinks, more.shrinks);
      progress = progress_sum k _ _ _ (busy ks) one.shrinks more.shrinks one.progress more.progress;
    }

Reading-empty :
    (ch : Channel) (ps : List (List ℕ))
    → All IsFrame ps
    → Reading ch ps
    → length ch.stream ≡ 0
    → ps ≡ []
Reading-empty ch [] f r e = refl
Reading-empty ch (m ∷ ps) f (between alive idle s) e =
    absurd (omega (arith, ap length s, length-append m (concat ps), f.0.more, e))
Reading-empty ch (m ∷ ps) f (inside pre post p whole s) e =
    absurd (omega (arith, ap length s, length-append post (concat ps), p.more, e))

abbrev pub before : List (List ℕ) → Channel
before ms = record { conn = connection; stream = concat ms }

-- However the kernel cuts a stream of messages into pieces, as long as it does not cut their sizes,
-- and where the manager takes every message, a new connection stays alive and hands over the messages in order, each with all of its bytes: at
-- every time it has handed over the first ones.
pub receive_all_order :
    (ms : List (List ℕ)) (junk : Cells) (ks : List ℕ)
    → All IsFrame ms
    → (ch : Channel) × (rest : List (List ℕ)) × (receive_all (before ms) junk (taking ks)
        ≡ returns ch)
      × (ch.conn.dead ≡ false)
      × (ch.conn.taken ++ rest ≡ ms)
receive_all_order ms junk ks f =
    let run = receive_all-Run (before ms) junk ks ms f (between refl refl refl) in
    (run.after, run.rest, run.returned, alive run.after run.rest run.reading, run.order)
  where
    alive : (ch : Channel) (ps : List (List ℕ)) → Reading ch ps → ch.conn.dead ≡ false
    alive ch ps (between a i e) = a
    alive ch (m ∷ ps) (inside pre post p w e) = p.alive

-- Where the manager takes every message that it is offered, as many calls that find bytes as there are
-- bytes in the stream are enough to hand over every message.
pub receive_all_complete :
    (ms : List (List ℕ)) (junk : Cells) (ks : List ℕ)
    → All IsFrame ms
    → length (concat ms) ≤ busy ks
    → (ch : Channel) × (receive_all (before ms) junk (taking ks) ≡ returns ch)
      × (ch.conn.taken ≡ ms)
receive_all_complete ms junk ks f enough =
    let run = receive_all-Run (before ms) junk ks ms f (between refl refl refl) in
    let empty : length run.after.stream ≡ 0 = elim run.progress [
      | inl z ↦ z
      | inr le ↦ omega (arith, enough, le)
    ] in
    let none_left = Reading-empty run.after run.rest run.frames run.reading empty in
    (
      run.after,
      run.returned,
      sym (append-nil run.after.conn.taken)
          ∙ ap (λ l. run.after.conn.taken ++ l) (sym none_left)
          ∙ run.order,
    )
