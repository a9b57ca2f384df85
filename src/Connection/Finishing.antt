-- ===== src/Connection/Finishing.antt =====
-- `send` on a socket that takes something each time.
use yfs_lab.Prelude.{
  ℕ, suc, ◌+◌, ◌≤◌, ◌<◌, ◌≡◌, refl, sym, ap, ◌∙◌, subst, List, [], ◌∷◌, ◌++◌, Bool, true, false,
  not, ◌&&◌, Option, some, All, arith, length, ltb, ◌==◌, Bool-cases, inl, inr,
}
use yfs_lab.Prelude.Memory.{Cells}
use yfs_lab.Prelude.Outcome.{Outcome, returns, ◌>>=◌}
use yfs_lab.Connection.{
  Connection, charbuf, ends, write_cb, write_cb_written, is_partial, send_wait, send_end,
  send_written, add_write_callback, signal,
}
use yfs_lab.Connection.Pieces.{Writes, framed, room, write_all, then_write, send_pieces}
use yfs_lab.Connection.Writing.{writepdu-Writes, signal-Writes, write_cb-returns}
use yfs_lab.Connection.Transmit.{
  fresh, fresh-Writes, call-Writes, send_round-idle, take-all, ltb-cases,
}

-- The socket has room for a byte.
abbrev pub HasRoom : Option ℕ → Type 0
HasRoom k = (n : ℕ) × (k ≡ some (suc n))

-- A write_cb that wrote something.
record Moved (c : Connection) (before frame : List ℕ) (o : Outcome Connection) : Type 0 where
  pub after : Connection
  pub returned : o ≡ returns after
  pub writes : Writes after before frame
  pub more : c.wpdu.solong < after.wpdu.solong
  pub same : after.wpdu.sz ≡ c.wpdu.sz

written-Moved :
    (c : Connection) (before frame : List ℕ) (ok : Bool) (a : Connection)
    → ok ≡ true
    → Writes a before frame
    → c.wpdu.solong < a.wpdu.solong
    → a.wpdu.sz ≡ c.wpdu.sz
    → Moved c before frame (returns (write_cb_written (ok, a)))
unfolding write_cb_written
written-Moved c before frame false a e w more same = absurd (cc e)
written-Moved c before frame true a e w more same =
    elim (Bool-cases (ltb a.wpdu.solong a.wpdu.sz)) [
      | inl rest ↦
          rw rest (record { after = a; returned = refl; writes = w; more = more; same = same })
      | inr all ↦ rw all (record {
        after = signal a;
        returned = refl;
        writes = signal-Writes a before frame w;
        more = more;
        same = same;
      })
    ]

write_cb-Moved :
    (c : Connection) (before frame : List ℕ) (k : Option ℕ)
    → Writes c before frame
    → c.wpdu.solong < c.wpdu.sz
    → HasRoom k
    → Moved c before frame (write_cb c (room c.wpdu k))
write_cb-Moved c before frame k w lt (n, e) =
    let s = writepdu-Writes c before frame k w lt in
    let m = s.moves n e in
    subst (Moved c before frame)
      (sym
        (write_cb-returns c (room c.wpdu k) (s.ok, s.after) w.alive (omega (arith, lt)) s.returned))
      (written-Moved c before frame s.ok s.after m.0 (s.writing m.0) m.1 m.2)

-- All of the message was written.
record Full (before frame : List ℕ) (o : Outcome Connection) : Type 0 where
  pub after : Connection
  pub returned : o ≡ returns after
  pub writes : Writes after before frame
  pub full : after.wpdu.solong ≡ after.wpdu.sz

write_all-Full :
    (c : Connection) (before frame : List ℕ) (ks : List (Option ℕ))
    → Writes c before frame
    → All HasRoom ks
    → c.wpdu.sz ≤ c.wpdu.solong + length ks
    → Full before frame (write_all c ks)
unfolding write_all
write_all-Full c before frame [] w f le = record {
  after = c;
  returned = refl;
  writes = w;
  full = omega (arith, le, w.within);
}
write_all-Full c before frame (k ∷ ks) w f le = elim (ltb-cases c.wpdu.solong c.wpdu.sz w.within) [
  | inl more ↦
      let go : (not c.dead && is_partial c.wpdu) ≡ true = ground (arith, more, w.alive, w.ok) in
      let m = write_cb-Moved c before frame k w more f.0 in
      let rest =
        write_all-Full m.after before frame ks m.writes f.1 (omega (arith, m.more, m.same, le)) in
      record {
        after = rest.after;
        returned = rw (write_all, go, m.returned) rest.returned;
        writes = rest.writes;
        full = rest.full;
      }
  | inr all ↦
      let stop : (not c.dead && is_partial c.wpdu) ≡ false = ground (arith, all, w.alive, w.ok) in
      record { after = c; returned = rw (write_all, stop) refl; writes = w; full = all }
]

send_wait_full :
    (c : Connection) (before frame : List ℕ)
    → Writes c before frame
    → c.wpdu.solong ≡ c.wpdu.sz
    → send_wait c ≡ (ends true, record c { wpdu = charbuf })
unfolding send_wait send_end
send_wait_full c before frame w all =
    let test : ltb c.wpdu.solong c.wpdu.sz ≡ false = ground (arith, all) in
    let same : (c.wpdu.solong == c.wpdu.sz) ≡ true = ground (arith, all) in
    rw (w.alive, w.ok, test, same) refl

-- `send` behind its first writepdu.
send_written-ends :
    (a : Connection) (before frame : List ℕ) (ks : List (Option ℕ))
    → Writes a before frame
    → All HasRoom ks
    → a.wpdu.sz ≤ a.wpdu.solong + length ks
    → (c : Connection) × (then_write ks (send_written (true, a)) ≡ returns (ends true, c))
      × (c.dead ≡ false)
      × (c.wire ≡ before ++ frame)
unfolding send_written send_end send_wait
send_written-ends a before frame ks w f le =
    let waits = record a { calls = add_write_callback ∷ a.calls } in
    elim (ltb-cases a.wpdu.solong a.wpdu.sz w.within) [
      | inl more ↦
          let test : ltb a.wpdu.solong a.wpdu.sz ≡ true = ground (arith, more) in
          let differ : (a.wpdu.solong == a.wpdu.sz) ≡ false = ground (arith, more) in
          let came : then_write ks (send_written (true, a))
              ≡ (write_all waits ks >>= λ c'. returns (send_wait c')) =
            rw (w.ok, differ, w.alive, test) refl in
          let g = write_all-Full waits before frame ks (call-Writes a before frame w) f le in
          (
            record g.after { wpdu = charbuf },
            came
                ∙ ap (λ o. o >>= λ c'. returns (send_wait c')) g.returned
                ∙ ap returns (send_wait_full g.after before frame g.writes g.full),
            g.writes.alive,
            whole_wire g.after g.writes g.full,
          )
      | inr all ↦
          let same : (a.wpdu.solong == a.wpdu.sz) ≡ true = ground (arith, all) in
          (record a { wpdu = charbuf }, rw (w.ok, same, w.alive) refl, w.alive, whole_wire a w all)
    ]
  where
    whole_wire :
        (c : Connection)
        → Writes c before frame
        → c.wpdu.solong ≡ c.wpdu.sz
        → c.wire ≡ before ++ frame
    whole_wire c v all =
        v.wire ∙ ap (λ l. before ++ l) (take-all c.wpdu.solong frame (all ∙ v.size))

-- On a connection that is alive and sends nothing, `send` of a message of at least four bytes returns
-- true, with the whole frame behind what stood on the wire, where the socket takes at least one byte
-- each time and there are as many times as the message has bytes.
pub send_pieces-ends :
    (c : Connection) (b : Cells) (sz : ℕ) (k : Option ℕ) (ks : List (Option ℕ))
    → c.dead ≡ false
    → c.wpdu ≡ charbuf
    → 4 ≤ sz
    → HasRoom k
    → All HasRoom ks
    → sz ≤ suc (length ks)
    → (c' : Connection) × (send_pieces c b sz k ks ≡ returns (ends true, c'))
      × (c'.dead ≡ false)
      × (c'.wire ≡ c.wire ++ framed b sz)
send_pieces-ends c b sz k ks alive idle h (n, e) f enough =
    let w = fresh-Writes c b sz alive h in
    let s = writepdu-Writes (fresh c b sz) c.wire (framed b sz) k w (omega (arith, h)) in
    let m = s.moves n e in
    let came =
      send_round-idle c b sz (room (fresh c b sz).wpdu k) (s.ok, s.after) alive
        (ap (λ u. u.buf) idle) s.returned in
    let g =
      send_written-ends s.after c.wire (framed b sz) ks (s.writing m.0) f
        (omega (arith, m.1, m.2, enough)) in
    (
      g.0,
      ap (λ o. o >>= then_write ks) came
          ∙ ap (λ q. then_write ks (send_written (q, s.after))) m.0
          ∙ g.1,
      g.2,
      g.3,
    )
