-- ===== src/Connection/Writing.antt =====
-- One writepdu, one write_cb and all of them on a part of a frame.
use yfs_lab.Prelude.{
  ℕ, zero, suc, ◌+◌, ◌-◌, ◌≤◌, ◌<◌, ◌≡◌, refl, sym, ap, ◌∙◌, subst, List, [], ◌∷◌, ◌++◌, Bool, true,
  false, not, ◌&&◌, Option, none, some, arith, ltb, ◌==◌, Bool-cases, inl, inr,
}
use mathlib.Core.List.{append_assoc}
use yfs_lab.Prelude.Memory.{Cells, slice}
use yfs_lab.Prelude.Outcome.{Outcome, returns, ◌>>=◌}
use yfs_lab.Connection.{
  Connection, Write, not_now, broken, writepdu, write_buf, with_size, write_cb, write_cb_written,
  is_partial, signal,
}
use yfs_lab.Connection.Frames.{take}
use yfs_lab.Connection.Stream.{piece}
use yfs_lab.Connection.Pieces.{room, write_all, Writes, Died, sized-again, slice-frame-start}

-- One writepdu on a part of a frame.
pub record Stepped (c : Connection) (before frame : List ℕ) (k : Option ℕ)
    (o : Outcome (Bool × Connection)) : Type 0 where
  pub after : Connection
  pub ok : Bool
  pub returned : o ≡ returns (ok, after)
  pub writing : ok ≡ true → Writes after before frame
  pub lost : ok ≡ false → after.wire ≡ c.wire
  pub moves :
      (n : ℕ)
      → k ≡ some (suc n)
      → (ok ≡ true) × (c.wpdu.solong < after.wpdu.solong) × (after.wpdu.sz ≡ c.wpdu.sz)

piece-more : (k n : ℕ) → 0 < n → 0 < piece (suc k) n
piece-more k n h = ground (arith, h)

pub piece-le : (k n : ℕ) → piece k n ≤ n
piece-le k n = ground arith

writepdu-buf :
    (c : Connection) (b : Cells) (r : Write)
    → c.wpdu.failed ≡ false
    → c.wpdu.buf ≡ some b
    → c.wpdu.solong < c.wpdu.sz
    → writepdu c r ≡ returns (write_buf c (with_size c.wpdu b) r)
unfolding writepdu
writepdu-buf c b r ok buf lt =
    let differ : (c.wpdu.solong == c.wpdu.sz) ≡ false = ground (arith, lt) in
    rw (ok, differ, buf) refl

pub writepdu-Writes :
    (c : Connection) (before frame : List ℕ) (k : Option ℕ)
    → Writes c before frame
    → c.wpdu.solong < c.wpdu.sz
    → Stepped c before frame k (writepdu c (room c.wpdu k))
writepdu-Writes c before frame none w lt = record {
  after = _;
  ok = false;
  returned = writepdu-buf c w.b broken w.ok w.buf lt;
  writing = λ e. absurd (cc e);
  lost = λ e. refl;
  moves = λ n e. absurd (cc e);
}
writepdu-Writes c before frame (some zero) w lt = record {
  after = _;
  ok = true;
  returned = writepdu-buf c w.b not_now w.ok w.buf lt;
  writing = λ e. record {
    alive = w.alive;
    ok = w.ok;
    b = with_size c.wpdu w.b;
    buf = refl;
    rest = w.rest;
    sized = sized-again c before frame w (record c.wpdu { buf = some (with_size c.wpdu w.b) }) refl;
    start = w.start;
    size = w.size;
    within = w.within;
    wire = w.wire;
  };
  lost = λ e. absurd (cc e);
  moves = λ n e. absurd (cc e);
}
writepdu-Writes c before frame (some (suc k)) w lt = record {
  after = _;
  ok = true;
  returned = writepdu-buf c w.b (room c.wpdu (some (suc k))) w.ok w.buf lt;
  writing = λ e.
      let n = piece (suc k) (c.wpdu.sz - c.wpdu.solong) in
      let le = piece-le (suc k) (c.wpdu.sz - c.wpdu.solong) in
      record {
        alive = w.alive;
        ok = w.ok;
        b = with_size c.wpdu w.b;
        buf = refl;
        rest = w.rest;
        sized =
            sized-again c before frame w
              (record c.wpdu { buf = some (with_size c.wpdu w.b); solong = c.wpdu.solong + n })
              refl;
        start = w.start;
        size = w.size;
        within = omega (arith, le, lt);
        wire =
            ap (λ l. l ++ slice (with_size c.wpdu w.b) c.wpdu.solong n) w.wire
            ∙ append_assoc before (take c.wpdu.solong frame)
                (slice (with_size c.wpdu w.b) c.wpdu.solong n)
            ∙ ap (λ l. before ++ l)
                (slice-frame-start (with_size c.wpdu w.b) c.wpdu.solong n frame w.sized
                  (omega (arith, le, lt, w.size)));
      };
  lost = λ e. absurd (cc e);
  moves = λ n e.
      (refl, omega (arith, piece-more k (c.wpdu.sz - c.wpdu.solong) (omega (arith, lt))), refl);
}

-- What write_cb makes of it.
pub data Progress (before frame : List ℕ) : Outcome Connection → Type 0 where
  writing : (c : Connection) → Writes c before frame → Progress before frame (returns c)
  lost : (c : Connection) → Died c before frame → Progress before frame (returns c)

pub signal-Writes :
    (c : Connection) (before frame : List ℕ)
    → Writes c before frame
    → Writes (signal c) before frame
signal-Writes c before frame v = record {
  alive = v.alive;
  ok = v.ok;
  b = v.b;
  buf = v.buf;
  rest = v.rest;
  sized = v.sized;
  start = v.start;
  size = v.size;
  within = v.within;
  wire = v.wire;
}

write_cb_written-Progress :
    (c : Connection) (before frame : List ℕ) (ok : Bool) (a : Connection)
    → Writes c before frame
    → (ok ≡ true → Writes a before frame)
    → (ok ≡ false → a.wire ≡ c.wire)
    → Progress before frame (returns (write_cb_written (ok, a)))
unfolding write_cb_written
write_cb_written-Progress c before frame false a w h1 h2 =
    lost _ (record { dead = refl; part = c.wpdu.solong; wire = h2 refl ∙ w.wire })
write_cb_written-Progress c before frame true a w h1 h2 =
    elim (Bool-cases (ltb a.wpdu.solong a.wpdu.sz)) [
      | inl more ↦ rw more (writing a (h1 refl))
      | inr all ↦ rw all (writing (signal a) (signal-Writes a before frame (h1 refl)))
    ]

pub write_cb-returns :
    (c : Connection) (r : Write) (q : Bool × Connection)
    → c.dead ≡ false
    → 0 < c.wpdu.sz
    → writepdu c r ≡ returns q
    → write_cb c r ≡ returns (write_cb_written q)
unfolding write_cb writepdu
write_cb-returns c r q alive lt h =
    let some_size : (c.wpdu.sz == 0) ≡ false = ground (arith, lt) in rw (h, some_size, alive) refl

write_cb-Progress :
    (c : Connection) (before frame : List ℕ) (k : Option ℕ)
    → Writes c before frame
    → c.wpdu.solong < c.wpdu.sz
    → Progress before frame (write_cb c (room c.wpdu k))
write_cb-Progress c before frame k w lt =
    let s = writepdu-Writes c before frame k w lt in
    subst (Progress before frame)
      (sym
        (write_cb-returns c (room c.wpdu k) (s.ok, s.after) w.alive (omega (arith, lt)) s.returned))
      (write_cb_written-Progress c before frame s.ok s.after w s.writing s.lost)

write_all-dead :
    (c : Connection) (ks : List (Option ℕ)) → c.dead ≡ true → write_all c ks ≡ returns c
unfolding write_all
write_all-dead c [] d = refl
write_all-dead c (k ∷ ks) d = rw d refl

then_write_all :
    (before frame : List ℕ) (ks : List (Option ℕ))
    → ((c : Connection) → Writes c before frame → Progress before frame (write_all c ks))
    → (o : Outcome Connection) → Progress before frame o
    → Progress before frame (o >>= λ c. write_all c ks)
then_write_all before frame ks more _ (writing c v) = more c v
then_write_all before frame ks more _ (lost c d) =
    subst (Progress before frame) (sym (write_all-dead c ks d.dead)) (lost c d)

pub write_all-Progress :
    (c : Connection) (before frame : List ℕ) (ks : List (Option ℕ))
    → Writes c before frame
    → Progress before frame (write_all c ks)
unfolding write_all
write_all-Progress c before frame [] w = writing c w
write_all-Progress c before frame (k ∷ ks) w = elim (Bool-cases (not c.dead && is_partial c.wpdu)) [
  | inr stop ↦ rw (write_all, stop) (writing c w)
  | inl go ↦
      rw (write_all, go)
        (then_write_all before frame ks (λ c'. write_all-Progress c' before frame ks)
          (write_cb c (room c.wpdu k)) (write_cb-Progress c before frame k w (part go)))
]
  where
    part : (not c.dead && is_partial c.wpdu) ≡ true → c.wpdu.solong < c.wpdu.sz
    part h = ground (arith, h, w.alive, w.ok)
