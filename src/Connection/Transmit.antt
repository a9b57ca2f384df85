-- ===== src/Connection/Transmit.antt =====
-- What `send` leaves on the wire.
use yfs_lab.Prelude.{
  ℕ, zero, suc, ◌-◌, ◌≤◌, ◌<◌, ◌≡◌, ◌⊎◌, refl, sym, ap, ◌∙◌, subst, List, [], ◌∷◌, ◌++◌, Bool, true,
  false, Option, none, some, arith, length, ltb, ◌==◌, inl, inr,
}
use mathlib.Core.List.{append-nil}
use yfs_lab.Prelude.Memory.{Cells, slice, length-slice}
use yfs_lab.Prelude.Wire.{be32}
use yfs_lab.Prelude.Outcome.{Outcome, returns, ◌>>=◌}
use yfs_lab.Connection.{
  max_pdu, Connection, charbuf, Write, writepdu, Sending, completes, ends, send_round, send_written,
  send_wait, send_end, call, add_write_callback,
}
use yfs_lab.Connection.Frames.{IsFrame, take}
use yfs_lab.Connection.Pieces.{
  framed, room, write_all, then_write, send_pieces, Writes, Died, framed-At,
}
use yfs_lab.Connection.Writing.{writepdu-Writes, Progress, write_all-Progress, writing, lost}

-- Where `send` has come to, and what stands on the wire for it.
pub data Sent (before frame : List ℕ) : Outcome (Sending × Connection) → Type 0 where
  whole :
      (c : Connection)
      → c.dead ≡ false
      → c.wpdu ≡ charbuf
      → c.wire ≡ before ++ frame
      → Sent before frame (returns (ends true, c))
  part :
      (c : Connection) (j : ℕ)
      → j < length frame
      → c.wire ≡ before ++ take j frame
      → Sent before frame (returns (completes, c))
  gone :
      (c : Connection) (j : ℕ)
      → c.dead ≡ true
      → c.wpdu ≡ charbuf
      → c.wire ≡ before ++ take j frame
      → Sent before frame (returns (ends false, c))

pub take-all : (n : ℕ) (l : List ℕ) → n ≡ length l → take n l ≡ l
take-all zero [] e = refl
take-all zero (x ∷ l) e = absurd (omega (arith, e))
take-all (suc n) [] e = refl
take-all (suc n) (x ∷ l) e = ap (λ r. x ∷ r) (take-all n l (omega (arith, e)))

send_end-Died :
    (before frame : List ℕ) (c : Connection)
    → Died c before frame
    → Sent before frame (returns (send_end c))
unfolding send_end
send_end-Died before frame c d =
    rw d.dead (gone (record c { dead = true; wpdu = charbuf }) d.part refl refl d.wire)

send_wait-Died :
    (before frame : List ℕ) (c : Connection)
    → Died c before frame
    → Sent before frame (returns (send_wait c))
unfolding send_wait
send_wait-Died before frame c d =
    let over : send_wait c ≡ send_end c = rw d.dead refl in
    subst (λ q. Sent before frame (returns q)) (sym over) (send_end-Died before frame c d)

pub ltb-cases : (a b : ℕ) → a ≤ b → (a < b) ⊎ (a ≡ b)
ltb-cases a b h = omega (arith, h)

send_wait-Writes :
    (before frame : List ℕ) (c : Connection)
    → Writes c before frame
    → Sent before frame (returns (send_wait c))
unfolding send_wait send_end
send_wait-Writes before frame c w = elim (ltb-cases c.wpdu.solong c.wpdu.sz w.within) [
  | inl more ↦
      let test : ltb c.wpdu.solong c.wpdu.sz ≡ true = ground (arith, more) in
      rw (w.alive, w.ok, test) (part _ c.wpdu.solong (omega (arith, more, w.size)) w.wire)
  | inr all ↦
      let test : ltb c.wpdu.solong c.wpdu.sz ≡ false = ground (arith, all) in
      let same : (c.wpdu.solong == c.wpdu.sz) ≡ true = ground (arith, all) in
      rw (w.alive, w.ok, test, same)
        (whole _ refl refl
          (w.wire ∙ ap (λ l. before ++ l) (take-all c.wpdu.solong frame (all ∙ w.size))))
]

then_write-Sent :
    (before frame : List ℕ) (o : Outcome Connection)
    → Progress before frame o
    → Sent before frame (o >>= λ c. returns (send_wait c))
then_write-Sent before frame _ (writing c w) = send_wait-Writes before frame c w
then_write-Sent before frame _ (lost c d) = send_wait-Died before frame c d

-- The message as it is given to `send` on a connection that is not in use.
abbrev pub fresh : Connection → Cells → ℕ → Connection
fresh c b sz = record c {
  waiters = c.waiters - 1;
  wpdu = record { buf = some b; sz = sz; solong = 0; failed = false };
}

pub fresh-Writes :
    (c : Connection) (b : Cells) (sz : ℕ)
    → c.dead ≡ false
    → 4 ≤ sz
    → Writes (fresh c b sz) c.wire (framed b sz)
fresh-Writes c b sz alive h = record {
  alive = alive;
  ok = refl;
  b = b;
  buf = refl;
  rest = slice b 4 (sz - 4);
  sized = framed-At b sz;
  start = refl;
  size = omega (arith, h, length-slice b 4 (sz - 4));
  within = omega arith;
  wire = sym (append-nil c.wire);
}

pub call-Writes :
    (c : Connection) (before frame : List ℕ)
    → Writes c before frame
    → Writes (call c add_write_callback) before frame
call-Writes c before frame v = record {
  alive = v.alive;
  ok = v.ok;
  b = v.b;
  buf = v.buf;
  rest = v.rest;
  sized = v.sized;
  start = v.start;
  size = v.size;
  within = v.within;
  wire = v.wire;
}

-- Behind the first writepdu.
send_written-Sent :
    (c : Connection) (before frame : List ℕ) (ks : List (Option ℕ)) (ok : Bool) (a : Connection)
    → Writes c before frame
    → (ok ≡ true → Writes a before frame)
    → (ok ≡ false → a.wire ≡ c.wire)
    → Sent before frame (then_write ks (send_written (ok, a)))
unfolding send_written send_end send_wait
send_written-Sent c before frame ks false a w h1 h2 =
    gone _ c.wpdu.solong refl refl (h2 refl ∙ w.wire)
send_written-Sent c before frame ks true a w h1 h2 =
    let v = h1 refl in
    let waits = record a { calls = add_write_callback ∷ a.calls } in
    elim (ltb-cases a.wpdu.solong a.wpdu.sz v.within) [
      | inl more ↦
          let test : ltb a.wpdu.solong a.wpdu.sz ≡ true = ground (arith, more) in
          let differ : (a.wpdu.solong == a.wpdu.sz) ≡ false = ground (arith, more) in
          let came : then_write ks (send_written (true, a))
              ≡ (write_all waits ks >>= λ c'. returns (send_wait c')) =
            rw (v.ok, differ, v.alive, test) refl in
          subst (Sent before frame) (sym came) (
            then_write-Sent before frame (write_all waits ks)
              (write_all-Progress waits before frame ks (call-Writes a before frame v)))
      | inr all ↦
          let same : (a.wpdu.solong == a.wpdu.sz) ≡ true = ground (arith, all) in
          rw (v.ok, same, v.alive)
            (whole _ refl refl
              (v.wire ∙ ap (λ l. before ++ l) (take-all a.wpdu.solong frame (all ∙ v.size))))
    ]

pub send_round-idle :
    (c : Connection) (b : Cells) (sz : ℕ) (r : Write) (q : Bool × Connection)
    → c.dead ≡ false
    → c.wpdu.buf ≡ none
    → writepdu (fresh c b sz) r ≡ returns q
    → send_round c b sz r ≡ returns (send_written q)
unfolding send_round writepdu
send_round-idle c b sz r q alive idle h = rw (h, idle, alive) refl

-- On a connection that is alive and sends nothing, a message of at least four bytes goes on the wire
-- in any pieces that the socket takes: what stands there is what stood there and then a first part of
-- the frame, which is the size of the message and its bytes behind it. Where `send` gives true this
-- part is the whole frame, and the connection is alive and sends nothing again; where it gives false
-- the connection is dead and holds no message; while it waits a rest of the frame is left.
pub send_pieces-Sent :
    (c : Connection) (b : Cells) (sz : ℕ) (k : Option ℕ) (ks : List (Option ℕ))
    → c.dead ≡ false
    → c.wpdu ≡ charbuf
    → 4 ≤ sz
    → Sent c.wire (framed b sz) (send_pieces c b sz k ks)
send_pieces-Sent c b sz k ks alive idle h =
    let w = fresh-Writes c b sz alive h in
    let s = writepdu-Writes (fresh c b sz) c.wire (framed b sz) k w (omega (arith, h)) in
    let came =
      send_round-idle c b sz (room (fresh c b sz).wpdu k) (s.ok, s.after) alive
        (ap (λ u. u.buf) idle) s.returned in
    subst (Sent c.wire (framed b sz)) (sym (ap (λ o. o >>= then_write ks) came))
      (send_written-Sent (fresh c b sz) c.wire (framed b sz) ks s.ok s.after w s.writing s.lost)

-- The frame of a message of more than four bytes, and of no more than MAX_PDU, is one that the other
-- end can receive.
pub framed-IsFrame : (b : Cells) (sz : ℕ) → 4 < sz → sz ≤ max_pdu → IsFrame (framed b sz)
framed-IsFrame b sz h le =
    let counts : length (framed b sz) ≡ sz = omega (arith, h, length-slice b 4 (sz - 4)) in
    record {
      rest = slice b 4 (sz - 4);
      bytes = ap (λ n. be32 n ++ slice b 4 (sz - 4)) (sym counts);
      more = omega (arith, h, counts);
      small = omega (arith, le, counts);
    }
