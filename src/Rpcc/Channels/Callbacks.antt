-- ===== src/Rpcc/Channels/Callbacks.antt =====
-- What the callbacks of a connection and closeconn do to its count.
use yfs_lab.Prelude.{
  ℕ, ◌≡◌, refl, sym, ap, ◌∙◌, inl, inr, Bool, true, false, List, Option, none, some, some_inj,
  arith, ◌==◌,
}
use yfs_lab.Prelude.Int.{ℤ, signed32}
use yfs_lab.Prelude.Memory.{Cells}
use yfs_lab.Prelude.Wire.{from_be32}
use yfs_lab.Prelude.Outcome.{Outcome, returns, OnReturn, on-if, on-option, on-then, on-weaken}
use yfs_lab.Connection.{
  Connection, Write, wrote, not_now, broken, write_from, read_rest, rest_read, Read, got, ended,
  again, failed, writepdu, write_cb, write_cb_written, readpdu, read_size, allocate, read_cb,
  read_cb_read, hand_over, needs_bytes, closeconn, signal, call, del_callbacks,
}
use yfs_lab.Rpcc.Channels.{Channels}
use yfs_lab.Rpcc.Channels.Counts.{at}
use yfs_lab.Rpcc.Channels.Histories.{changed, senders, IsBalanced}
use yfs_lab.Rpcc.Channels.Acting.{Allowed}

-- The count is the same, the dead stay dead, and no message comes into a connection without one.
pub record Changes (c c' : Connection) : Type 0 where
  pub count : c'.refno ≡ c.refno
  pub stays : c.dead ≡ true → c'.dead ≡ true
  pub idle : c.wpdu.buf ≡ none → c'.wpdu.buf ≡ none

Changes-refl : (c : Connection) → Changes c c
Changes-refl c = record { count = refl; stays = λ d. d; idle = λ e. e }

Changes-trans : {a b c : Connection} → Changes a b → Changes b c → Changes a c
Changes-trans p q = record {
  count = q.count ∙ p.count;
  stays = λ d. q.stays (p.stays d);
  idle = λ e. q.idle (p.idle e);
}

pub closeconn-Changes : (c : Connection) → Changes c (closeconn c)
unfolding closeconn
closeconn-Changes c = record {
  count = ground arith;
  stays = λ d. ground arith;
  idle = λ e. ground arith;
}

write_from-Changes :
    (c : Connection) (b : Option Cells) (r : Write)
    → c.wpdu.buf ≡ b
    → OnReturn (λ q. Changes c q.1) (write_from c b r)
write_from-Changes c none r e = tt
write_from-Changes c (some b) (wrote n) e = record {
  count = refl;
  stays = λ d. d;
  idle = λ z. absurd (cc (sym z ∙ e));
}
write_from-Changes c (some b) not_now e = record {
  count = refl;
  stays = λ d. d;
  idle = λ z. absurd (cc (sym z ∙ e));
}
write_from-Changes c (some b) broken e = record {
  count = refl;
  stays = λ d. d;
  idle = λ z. absurd (cc (sym z ∙ e));
}

writepdu-Changes : (c : Connection) (r : Write) → OnReturn (λ q. Changes c q.1) (writepdu c r)
unfolding writepdu
writepdu-Changes c r =
    on-if (λ q. Changes c q.1) c.wpdu.failed _ _ tt
      (on-if (λ q. Changes c q.1) (c.wpdu.solong == c.wpdu.sz) _ _ (Changes-refl c)
        (write_from-Changes c c.wpdu.buf r refl))

written-Changes : (ok : Bool) (c : Connection) → Changes c (write_cb_written (ok, c))
unfolding write_cb_written
written-Changes false c = record { count = refl; stays = λ d. refl; idle = λ e. e }
written-Changes true c = record {
  count = ground arith;
  stays = λ d. ground arith;
  idle = λ e. ground arith;
}

pub write_cb-Changes : (c : Connection) (r : Write) → OnReturn (Changes c) (write_cb c r)
unfolding write_cb
write_cb-Changes c r = on-if (Changes c) c.dead _ _ tt (
    on-if (Changes c) (c.wpdu.sz == 0) _ _ (record { count = refl; stays = λ d. d; idle = λ e. e })
      (on-then (λ q. Changes c q.1) (Changes c) (writepdu c r) _ (writepdu-Changes c r)
        (λ q k. Changes-trans k (written-Changes q.0 q.1))))

-- The part that reads has nothing to do with the message that is sent.
abbrev ReadKeeps : Connection → Connection → Type 0
ReadKeeps c c' = (c'.refno ≡ c.refno) × (c'.dead ≡ c.dead) × (c'.wpdu ≡ c.wpdu)

allocate-keeps :
    (c : Connection) (bs : List ℕ) (junk : Cells) (z : ℤ)
    → OnReturn (λ q. ReadKeeps c q.1) (allocate c bs junk z)
unfolding allocate
allocate-keeps c bs junk z = ground arith

read_size-keeps :
    (c : Connection) (junk : Cells) (r : Read)
    → OnReturn (λ q. ReadKeeps c q.1) (read_size c junk r)
unfolding read_size
read_size-keeps c junk (got bs) =
    on-option (λ q. ReadKeeps c q.1) (from_be32 bs) _ _ (refl, refl, refl)
      (λ w. allocate-keeps c bs junk (signed32 w))
read_size-keeps c junk (ended e) = (refl, refl, refl)
read_size-keeps c junk again = tt
read_size-keeps c junk failed = (refl, refl, refl)

rest_read-keeps : (c : Connection) (r : Read) → OnReturn (λ q. ReadKeeps c q.1) (rest_read c r)
rest_read-keeps c (got bs) = ground arith
rest_read-keeps c (ended e) = ground arith
rest_read-keeps c again = ground arith
rest_read-keeps c failed = ground arith

read_rest-keeps : (c : Connection) (r : Read) → OnReturn (λ q. ReadKeeps c q.1) (read_rest c r)
unfolding read_rest
read_rest-keeps c r = rest_read-keeps c _

keeps_trans : (a b c : Connection) → ReadKeeps a b → ReadKeeps b c → ReadKeeps a c
keeps_trans a b c p q = (q.0 ∙ p.0, q.1 ∙ p.1, q.2 ∙ p.2)

readpdu-keeps :
    (c : Connection) (junk : Cells) (r1 r2 : Read)
    → OnReturn (λ q. ReadKeeps c q.1) (readpdu c junk r1 r2)
unfolding readpdu
readpdu-keeps c junk r1 r2 =
    on-if (λ q. ReadKeeps c q.1) (c.rpdu.sz == 0) _ _
      (on-then (λ q. ReadKeeps c q.1) (λ q. ReadKeeps c q.1) (read_size c junk r1) _
        (read_size-keeps c junk r1) (λ q k. after_size q.0 q.1 k))
      (read_rest-keeps c r2)
  where
    after_size :
        (ok : Bool) (c1 : Connection)
        → ReadKeeps c c1
        → OnReturn {A = Bool × Connection}
            (λ q. ReadKeeps c q.1)
            (elim ok as (λ x. Outcome (Bool × Connection)) [
              | true ↦ read_rest c1 r2
              | false ↦ returns (false, c1)
            ])
    after_size true c1 k =
        on-weaken (λ q. ReadKeeps c1 q.1) (λ q. ReadKeeps c q.1) (read_rest c1 r2)
          (read_rest-keeps c1 r2) (λ q l. keeps_trans c c1 q.1 k l)
    after_size false c1 k = k

hand_over-keeps :
    (c : Connection) (b : Option Cells) (consumes : Bool) → ReadKeeps c (hand_over c b consumes)
unfolding hand_over
hand_over-keeps c none consumes = (refl, refl, refl)
hand_over-keeps c (some b) consumes = (ground arith, ground arith, ground arith)

keeps-Changes : (c c' : Connection) → ReadKeeps c c' → Changes c c'
keeps-Changes c c' k = record {
  count = k.0;
  stays = λ d. k.1 ∙ d;
  idle = λ e. ap (λ w. w.buf) k.2 ∙ e;
}

read-Changes :
    (ok : Bool) (c : Connection) (consumes : Bool) → Changes c (read_cb_read (ok, c) consumes)
unfolding read_cb_read
read-Changes true c consumes = keeps-Changes c _ (hand_over-keeps c c.rpdu.buf consumes)
read-Changes false c consumes =
    let ended_one = signal (call (record c { dead = true }) del_callbacks) in
    Changes-trans {b = ended_one} (record { count = refl; stays = λ d. refl; idle = λ e. e })
      (keeps-Changes ended_one _ (hand_over-keeps ended_one c.rpdu.buf consumes))

pub read_cb-Changes :
    (c : Connection) (junk : Cells) (r1 r2 : Read) (consumes : Bool)
    → OnReturn (Changes c) (read_cb c junk r1 r2 consumes)
unfolding read_cb
read_cb-Changes c junk r1 r2 consumes = on-if (Changes c) c.dead _ _ (Changes-refl c) (
    on-if (Changes c) (needs_bytes c.rpdu) _ _
      (on-then (λ q. ReadKeeps c q.1) (Changes c) (readpdu c junk r1 r2) _
        (readpdu-keeps c junk r1 r2)
        (λ q k. Changes-trans (keeps-Changes c q.1 k) (read-Changes q.0 q.1 consumes)))
      (read-Changes true c consumes))

-- What write_cb, read_cb or closeconn makes of a connection is allowed as a change of it.
pub callback-Allowed :
    (r : Channels) (k : ℕ) (before after : Connection)
    → IsBalanced r
    → r.store k ≡ some before
    → Changes before after
    → Allowed r (changed k after)
callback-Allowed r k before after v e h other e' =
    let same = some_inj (sym e ∙ e') in
    let c = at r.store r.next _ (senders r.threads) _ v k before e in
    (
      h.count ∙ ap (λ x. x.refno) same,
      λ d. h.stays (ap (λ x. x.dead) same ∙ d),
      elim c.idle [ inl n ↦ inl (h.idle n) | inr l ↦ inr l ],
    )
