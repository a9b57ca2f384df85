-- ===== src/Connection/Closing.antt =====
-- The ends of a connection: who is told, and what a size that is no size does.
use yfs_lab.Prelude.{
  ℕ, ◌+◌, ◌-◌, ◌^◌, ◌≤◌, ◌<◌, ◌≡◌, inl, inr, refl, sym, ap, ◌∙◌, Bool, true, false, ◌&&◌, List,
  Option, none, some, arith, ltb, ◌==◌, if◌then◌else◌, Bool-cases,
}
use yfs_lab.Prelude.Int.{ℤ, pos, signed32}
use yfs_lab.Prelude.Memory.{Cells}
use yfs_lab.Prelude.Wire.{from_be32}
use yfs_lab.Prelude.Outcome.{
  ◌>>=◌, returns, aborts, assertion, overrun, OnReturn, on-if, on-option, on-then, on-returns,
  on-weaken,
}
use yfs_lab.Connection.{
  Connection, charbuf, Write, wrote, not_now, broken, write_buf, write_from, with_size, max_pdu,
  read_buf, read_rest, Read, got, ended, again, failed, writepdu, write_cb, write_cb_written,
  rest_read, is_too_big, malloc_size, malloc_fails, del_callbacks, signal, call, readpdu, read_size,
  allocate, read_cb, read_cb_read, hand_over, needs_bytes,
}
use yfs_lab.Connection.Receive.{begun, allocate_fits}

-- The callback that ends a connection signals it.
written-signals :
    (s : ℕ) (q : Bool × Connection)
    → q.1.dead ≡ false
    → q.1.signals ≡ s
    → (write_cb_written q).dead ≡ true
    → (write_cb_written q).signals ≡ s + 1
unfolding write_cb_written
written-signals s (false, a) alive e d = omega (arith, e)
written-signals s (true, a) alive e d = elim (Bool-cases (ltb a.wpdu.solong a.wpdu.sz)) [
  | inl more ↦ absurd (cc (sym alive ∙ rw more at d))
  | inr all ↦ absurd (cc (sym alive ∙ rw all at d))
]

-- A part of a callback that neither ends the connection nor signals it.
record Keeps (c c' : Connection) : Type 0 where
  pub dead : c'.dead ≡ c.dead
  pub signals : c'.signals ≡ c.signals

abbrev Kept : Connection → Bool × Connection → Type 0
Kept c (ok, c') = Keeps c c'

write_buf-Keeps : (c : Connection) (b : Cells) (r : Write) → Keeps c (write_buf c b r).1
write_buf-Keeps c b (wrote n) = record { dead = refl; signals = refl }
write_buf-Keeps c b not_now = record { dead = refl; signals = refl }
write_buf-Keeps c b broken = record { dead = refl; signals = refl }

write_from-Keeps :
    (c : Connection) (b : Option Cells) (r : Write) → OnReturn (Kept c) (write_from c b r)
write_from-Keeps c none r = tt
write_from-Keeps c (some b) r = write_buf-Keeps c (with_size c.wpdu b) r

writepdu-Keeps : (c : Connection) (r : Write) → OnReturn (Kept c) (writepdu c r)
unfolding writepdu
writepdu-Keeps c r = on-if (Kept c) c.wpdu.failed _ _ tt (
    on-if (Kept c) (c.wpdu.solong == c.wpdu.sz) _ _ (record { dead = refl; signals = refl })
      (write_from-Keeps c c.wpdu.buf r))

-- Where a connection was alive, a callback that leaves it dead has signalled it once.
abbrev Tells : Connection → Connection → Type 0
Tells c c' = c'.dead ≡ true → c'.signals ≡ c.signals + 1

write_cb-Tells : (c : Connection) (r : Write) → c.dead ≡ false → OnReturn (Tells c) (write_cb c r)
unfolding write_cb
write_cb-Tells c r alive = on-if (Tells c) c.dead _ _ tt (
    on-if (Tells c) (c.wpdu.sz == 0) _ _ (λ d. absurd (cc (sym alive ∙ d)))
      (on-then (Kept c) (Tells c) (writepdu c r) (λ q. returns (write_cb_written q))
        (writepdu-Keeps c r) (λ q k. written-signals c.signals q (k.dead ∙ alive) k.signals)))

allocate-Keeps :
    (c : Connection) (bs : List ℕ) (junk : Cells) (z : ℤ) → OnReturn (Kept c) (allocate c bs junk z)
unfolding allocate
allocate-Keeps c bs junk z =
    on-if (Kept c) (is_too_big z) _ _ (record { dead = refl; signals = refl })
      (on-option (Kept c) c.rpdu.buf _ (λ b. aborts assertion)
        (on-if (Kept c) (malloc_fails (malloc_size z)) _ _ tt
          (on-if (Kept c) (ltb (malloc_size z) 4) _ _ tt (record { dead = refl; signals = refl })))
        (λ b. tt))

read_size-Keeps :
    (c : Connection) (junk : Cells) (r : Read) → OnReturn (Kept c) (read_size c junk r)
unfolding read_size
read_size-Keeps c junk (got bs) =
    on-option (Kept c) (from_be32 bs) _ (λ w. allocate c bs junk (signed32 w))
      (record { dead = refl; signals = refl }) (λ w. allocate-Keeps c bs junk (signed32 w))
read_size-Keeps c junk (ended e) = record { dead = refl; signals = refl }
read_size-Keeps c junk again = tt
read_size-Keeps c junk failed = record { dead = refl; signals = refl }

read_buf-Keeps :
    (c : Connection) (b : Option Cells) (bs : List ℕ) → OnReturn (Kept c) (read_buf c b bs)
read_buf-Keeps c none bs = tt
read_buf-Keeps c (some b) bs = record { dead = refl; signals = refl }

rest_read-Keeps : (c : Connection) (r : Read) → OnReturn (Kept c) (rest_read c r)
rest_read-Keeps c (got bs) = read_buf-Keeps c c.rpdu.buf bs
rest_read-Keeps c (ended e) =
    on-if (Kept c) e _ _ (record { dead = refl; signals = refl })
      (record { dead = refl; signals = refl })
rest_read-Keeps c again = record { dead = refl; signals = refl }
rest_read-Keeps c failed = record { dead = refl; signals = refl }

read_rest-Keeps : (c : Connection) (r : Read) → OnReturn (Kept c) (read_rest c r)
unfolding read_rest
read_rest-Keeps c r = rest_read-Keeps c _

Keeps-trans : {a b c : Connection} → Keeps a b → Keeps b c → Keeps a c
Keeps-trans k l = record { dead = l.dead ∙ k.dead; signals = l.signals ∙ k.signals }

after_size-Keeps :
    (c : Connection) (r2 : Read) (q : Bool × Connection)
    → Kept c q
    → OnReturn (Kept c) (elim q.0 [ true ↦ read_rest q.1 r2 | false ↦ returns (false, q.1) ])
after_size-Keeps c r2 (false, d) k = k
after_size-Keeps c r2 (true, d) k =
    on-weaken (Kept d) (Kept c) (read_rest d r2) (read_rest-Keeps d r2) (λ q l. Keeps-trans k l)

readpdu-Keeps :
    (c : Connection) (junk : Cells) (r1 r2 : Read) → OnReturn (Kept c) (readpdu c junk r1 r2)
unfolding readpdu
readpdu-Keeps c junk r1 r2 =
    on-if (Kept c) (c.rpdu.sz == 0) _ _
      (on-then (Kept c) (Kept c) (read_size c junk r1) _ (read_size-Keeps c junk r1)
        (λ q k. after_size-Keeps c r2 q k))
      (read_rest-Keeps c r2)

hand_over-Keeps :
    (c : Connection) (b : Option Cells) (consumes : Bool) → Keeps c (hand_over c b consumes)
unfolding hand_over
hand_over-Keeps c none consumes = record { dead = refl; signals = refl }
hand_over-Keeps c (some b) consumes = elim (Bool-cases (c.rpdu.sz == c.rpdu.solong && consumes)) [
  | inl y ↦ rw y (record { dead = refl; signals = refl })
  | inr n ↦ rw n (record { dead = refl; signals = refl })
]

read_signals :
    (c : Connection) (consumes : Bool) (q : Bool × Connection)
    → c.dead ≡ false
    → Kept c q
    → Tells c (read_cb_read q consumes)
unfolding read_cb_read
read_signals c consumes (true, a) alive k d =
    let h = hand_over-Keeps a a.rpdu.buf consumes in
    absurd (cc (sym alive ∙ sym k.dead ∙ sym h.dead ∙ d))
read_signals c consumes (false, a) alive k d =
    let h = hand_over-Keeps _ a.rpdu.buf consumes in h.signals ∙ ap (λ n. n + 1) k.signals

read_cb-Tells :
    (c : Connection) (junk : Cells) (r1 r2 : Read) (consumes : Bool)
    → c.dead ≡ false
    → OnReturn (Tells c) (read_cb c junk r1 r2 consumes)
unfolding read_cb
read_cb-Tells c junk r1 r2 consumes alive =
    on-if (Tells c) c.dead _ _ (λ d. absurd (cc (sym alive ∙ d)))
      (on-if (Tells c) (needs_bytes c.rpdu) _ _
        (on-then (Kept c) (Tells c) (readpdu c junk r1 r2) _ (readpdu-Keeps c junk r1 r2)
          (λ q k. read_signals c consumes q alive k))
        (read_signals c consumes (true, c) alive (record { dead = refl; signals = refl })))

-- Where write_cb is called on a connection that is alive and leaves it dead, it has signalled
-- send_complete_ once.
pub write_cb-signals :
    (c c' : Connection) (r : Write)
    → c.dead ≡ false
    → write_cb c r ≡ returns c'
    → c'.dead ≡ true
    → c'.signals ≡ c.signals + 1
write_cb-signals c c' r alive e d =
    on-returns (Tells c) (write_cb c r) c' (write_cb-Tells c r alive) e d

-- Where read_cb is called on a connection that is alive and leaves it dead, it has signalled
-- send_complete_ once.
pub read_cb-signals :
    (c c' : Connection) (junk : Cells) (r1 r2 : Read) (consumes : Bool)
    → c.dead ≡ false
    → read_cb c junk r1 r2 consumes ≡ returns c'
    → c'.dead ≡ true
    → c'.signals ≡ c.signals + 1
read_cb-signals c c' junk r1 r2 consumes alive e d =
    on-returns (Tells c) (read_cb c junk r1 r2 consumes) c'
      (read_cb-Tells c junk r1 r2 consumes alive) e d

read_size_word :
    (c : Connection) (junk : Cells) (bs : List ℕ) (w : ℕ)
    → from_be32 bs ≡ some w
    → read_size c junk (got bs) ≡ allocate c bs junk (signed32 w)
unfolding read_size
read_size_word c junk bs w e = rw (read_size, e) refl

-- What malloc is asked for where four bytes are a negative `int`.
negative_size :
    (w : ℕ)
    → 2 ^ 31 ≤ w
    → w < 2 ^ 32
    → malloc_size (signed32 w)
      ≡ (if ltb w (2 ^ 32 - 4) then w + 4 + (2 ^ 64 - 2 ^ 32) else w + 4 - 2 ^ 32)
negative_size w big small = ground arith

-- What a connection that is alive and between two messages does with the four bytes of a size, by the
-- number `w` that they are: it goes on with the message where `w` is no more than MAX_PDU, and ends,
-- with one signal, where `w` is more than that and no negative `int`. For an `int` below -4 the assert
-- on what malloc gives fails, and for one from -4 to -1 malloc is asked for less than four bytes, and
-- the copy of the size goes beyond them.
pub read_cb_sizes :
    (c : Connection) (junk : Cells) (bs : List ℕ) (w : ℕ) (r2 : Read) (consumes : Bool)
    → c.dead ≡ false
    → c.rpdu ≡ charbuf
    → from_be32 bs ≡ some w
    → w < 2 ^ 32
    → (w ≤ max_pdu
        → read_cb c junk (got bs) r2 consumes
          ≡ (read_rest (begun c junk bs w) r2 >>= λ q. returns (read_cb_read q consumes)))
      × (max_pdu < w
          → w < 2 ^ 31
          → (c' : Connection) × (read_cb c junk (got bs) r2 consumes ≡ returns c')
            × (c'.dead ≡ true)
            × (c'.signals ≡ c.signals + 1))
      × (2 ^ 31 ≤ w → w < 2 ^ 32 - 4 → read_cb c junk (got bs) r2 consumes ≡ aborts assertion)
      × (2 ^ 32 - 4 ≤ w → read_cb c junk (got bs) r2 consumes ≡ aborts overrun)
unfolding read_cb readpdu read_size allocate
read_cb_sizes c junk bs w r2 consumes alive idle e small =
    let fresh : (c.rpdu.sz == 0) ≡ true = ap (λ u. u.sz == 0) idle in
    let wants : needs_bytes c.rpdu ≡ true = ap needs_bytes idle in
    let empty : c.rpdu.buf ≡ none = ap (λ u. u.buf) idle in
    (
      λ le.
          let size : signed32 w ≡ pos w = ground (arith, le) in
          let first : read_size c junk (got bs) ≡ returns (true, begun c junk bs w) =
            read_size_word c junk bs w e
            ∙ ap (allocate c bs junk) size
            ∙ allocate_fits c junk bs w le empty in
          rw (first, fresh, wants, alive) refl,
      λ more positive.
          let size : signed32 w ≡ pos w = ground (arith, positive) in
          let beyond : ltb max_pdu w ≡ true = ground (arith, more) in
          let ended_one : Connection = signal (call (record c { dead = true }) del_callbacks) in
          let first : read_size c junk (got bs) ≡ returns (false, c) =
            read_size_word c junk bs w e
            ∙ ap (allocate c bs junk) size
            ∙ rw (allocate, beyond) refl in
          let kept = hand_over-Keeps ended_one c.rpdu.buf consumes in
          (
            hand_over ended_one c.rpdu.buf consumes,
            rw (first, fresh, wants, alive) refl,
            kept.dead,
            kept.signals,
          ),
      λ below far.
          let asked = negative_size w below small in
          let far' : ltb w (2 ^ 32 - 4) ≡ true = ground (arith, far) in
          let negative : is_too_big (signed32 w) ≡ false = ground (arith, below) in
          let nothing : malloc_fails (w + 4 + (2 ^ 64 - 2 ^ 32)) ≡ true = ground arith in
          let first : read_size c junk (got bs) ≡ aborts assertion =
            read_size_word c junk bs w e
            ∙ rw (allocate, negative, empty, asked, far', nothing) refl in
          rw (first, fresh, wants, alive) refl,
      λ near.
          let asked = negative_size w (omega (arith, near)) small in
          let near' : ltb w (2 ^ 32 - 4) ≡ false = ground (arith, near) in
          let negative : is_too_big (signed32 w) ≡ false = ground (arith, near) in
          let given : malloc_fails (w + 4 - 2 ^ 32) ≡ false = ground arith in
          let narrow : ltb (w + 4 - 2 ^ 32) 4 ≡ true = ground arith in
          let first : read_size c junk (got bs) ≡ aborts overrun =
            read_size_word c junk bs w e
            ∙ rw (allocate, negative, empty, asked, near', given, narrow) refl in
          rw (first, fresh, wants, alive) refl,
    )
