-- ===== src/Connection/Link.antt =====
-- Two connections, one of which sends what the other receives: connection.cc with the messages of
-- rpc/marshall.h.
use yfs_lab.Prelude.{
  ℕ, zero, suc, ◌+◌, ◌-◌, ◌≤◌, ◌<◌, ◌≡◌, ◌^◌, refl, sym, ap, ◌∙◌, List, [], ◌∷◌, ◌++◌, Bool, true,
  false, Option, arith, All, length,
}
use mathlib.Core.List.{append_assoc, append-nil}
use native.Mathlib.Decide.{dec_le}
use yfs_lab.Prelude.Memory.{Cells, slice, Agree}
use yfs_lab.Prelude.Wire.{be32}
use yfs_lab.Prelude.Outcome.{Outcome, returns, ◌>>=◌}
use yfs_lab.Marshall.{Marshall}
use yfs_lab.Unmarshall.Header.{Arrives}
use yfs_lab.Connection.{Connection, connection, charbuf, max_pdu, Sending, queues, completes, ends}
use yfs_lab.Connection.Frames.{IsFrame, concat}
use yfs_lab.Connection.Stream.{Channel, receive_all, taking}
use yfs_lab.Connection.Delivery.{busy, receive_all_complete}
use yfs_lab.Connection.Pieces.{framed, send_pieces}
use yfs_lab.Connection.Transmit.{Sent, whole, part, gone, send_pieces-Sent, framed-IsFrame}

-- A message for `send`, and the room that the socket has for it: at once, and in the calls of write_cb.
pub record Job : Type 0 where
  pub b : Cells
  pub sz : ℕ
  pub first : Option ℕ
  pub later : List (Option ℕ)

-- A caller that goes on to its next message where `send` gives true.
abbrev pub next_send :
    (Connection → Outcome (Bool × Connection)) → Sending × Connection → Outcome (Bool × Connection)
next_send next (ends true, c) = next c
next_send next (ends false, c) = returns (false, c)
next_send next (queues, c) = returns (false, c)
next_send next (completes, c) = returns (false, c)

unfoldable pub send_jobs : Connection → List Job → Outcome (Bool × Connection)
send_jobs c [] = returns (true, c)
send_jobs c (j ∷ js) = send_pieces c j.b j.sz j.first j.later >>= next_send (λ c'. send_jobs c' js)

abbrev pub frames : List Job → List (List ℕ)
frames [] = []
frames (j ∷ js) = framed j.b j.sz ∷ frames js

pub record IsSendable (j : Job) : Type 0 where
  pub header : 4 < j.sz
  pub small : j.sz ≤ max_pdu

frames-IsFrame : (js : List Job) → All IsSendable js → All IsFrame (frames js)
frames-IsFrame [] f = tt
frames-IsFrame (j ∷ js) f = (framed-IsFrame j.b j.sz f.0.header f.0.small, frames-IsFrame js f.1)

record Finished (c : Connection) (js : List Job) (o : Outcome (Bool × Connection)) : Type 0 where
  pub ok : Bool
  pub after : Connection
  pub returned : o ≡ returns (ok, after)
  pub wire : ok ≡ true → after.wire ≡ c.wire ++ concat (frames js)

next-Finished :
    (c : Connection) (j : Job) (js : List Job)
    → ((c' : Connection) → c'.dead ≡ false → c'.wpdu ≡ charbuf → Finished c' js (send_jobs c' js))
    → (o : Outcome (Sending × Connection)) → Sent c.wire (framed j.b j.sz) o
    → Finished c (j ∷ js) (o >>= next_send (λ c'. send_jobs c' js))
next-Finished c j js rest _ (whole c' alive idle w) =
    let r = rest c' alive idle in
    record {
      ok = r.ok;
      after = r.after;
      returned = r.returned;
      wire = λ e.
          r.wire e
          ∙ ap (λ l. l ++ concat (frames js)) w
          ∙ append_assoc c.wire (framed j.b j.sz) (concat (frames js));
    }
next-Finished c j js rest _ (part c' n le w) = record {
  ok = false;
  after = c';
  returned = refl;
  wire = λ e. absurd (cc e);
}
next-Finished c j js rest _ (gone c' n d idle w) = record {
  ok = false;
  after = c';
  returned = refl;
  wire = λ e. absurd (cc e);
}

send_jobs-Finished :
    (c : Connection) (js : List Job)
    → All IsSendable js
    → c.dead ≡ false
    → c.wpdu ≡ charbuf
    → Finished c js (send_jobs c js)
unfolding send_jobs
send_jobs-Finished c [] f alive idle = record {
  ok = true;
  after = c;
  returned = refl;
  wire = λ e. sym (append-nil c.wire);
}
send_jobs-Finished c (j ∷ js) f alive idle =
    next-Finished c j js (λ c'. send_jobs-Finished c' js f.1)
      (send_pieces c j.b j.sz j.first j.later)
      (send_pieces-Sent c j.b j.sz j.first j.later alive idle (omega (arith, f.0.header)))

-- The messages that a new connection sends one behind the other, each of more than four bytes and of
-- no more than MAX_PDU, are the messages that the other end hands over, in order and with all of
-- their bytes, where every `send` gives true, the kernel carries the bytes in order in any pieces
-- that do not cut a size, the manager of the other end takes every message that it is offered, and as
-- many calls of read_cb find bytes as there are.
pub sent_received :
    (js : List Job) (c : Connection) (junk : Cells) (ks : List ℕ)
    → All IsSendable js
    → send_jobs connection js ≡ returns (true, c)
    → length c.wire ≤ busy ks
    → (ch : Channel) × (receive_all (record { conn = connection; stream = c.wire }) junk (taking ks)
        ≡ returns ch)
      × (ch.conn.taken ≡ frames js)
sent_received js c junk ks f sent enough =
    let r = send_jobs-Finished connection js f refl refl in
    let came : ◌≡◌ {A = Outcome (Bool × Connection)} (returns (r.ok, r.after)) (returns (true, c)) =
      sym r.returned ∙ sent in
    let ok : r.ok ≡ true = cc came in
    let same : r.after ≡ c = cc came in
    let wire : c.wire ≡ concat (frames js) =
      ap (λ (x : Connection). x.wire) (sym same) ∙ r.wire ok in
    let got =
      receive_all_complete (frames js) junk ks (frames-IsFrame js f)
        (omega (arith, enough, ap length wire)) in
    (
      got.0,
      ap (λ l. receive_all (record { conn = connection; stream = l }) junk (taking ks)) wire
          ∙ got.1,
      got.2,
    )

-- A message that was handed over is one that arrives, as the reader of its header takes it.
slice-Agree : (b b' : Cells) (i n : ℕ) → slice b i n ≡ slice b' i n → Agree b b' i (i + n)
unfolding slice
slice-Agree b b' i zero e j lo hi = absurd (omega (arith, lo, hi))
slice-Agree b b' i (suc n) e j lo hi = elim (dec_le (i + 1) j) [
  | yes later ↦ slice-Agree b b' (i + 1) n (cc e) j later (omega (arith, hi))
  | no first ↦
      let here : j ≡ i = omega (arith, lo, first) in
      let same : b i ≡ b' i = cc e in ap b here ∙ same ∙ ap b' (sym here)
]

slice-behind :
    (b : Cells) (n x : ℕ) (l : List ℕ)
    → slice b 0 (suc (suc (suc (suc n)))) ≡ be32 x ++ l
    → slice b 4 n ≡ l
unfolding slice
slice-behind b n x l e = cc e

-- Where a request or a reply that was packed into `m` is sent, and the bytes that the other end hands
-- over are in `b`, the message arrives there.
pub framed-Arrives :
    (m : Marshall) (b : Cells)
    → 4 ≤ m.ind
    → m.ind < 2 ^ 31
    → slice b 0 m.ind ≡ framed m.buf m.ind
    → Arrives m b
framed-Arrives m b h lt e =
    let four : m.ind ≡ suc (suc (suc (suc (m.ind - 4)))) = omega (arith, h) in
    let all : 4 + (m.ind - 4) ≡ m.ind = omega (arith, h) in
    let behind =
      slice-behind b (m.ind - 4) m.ind (slice m.buf 4 (m.ind - 4))
        (ap (λ n. slice b 0 n) (sym four) ∙ e) in
    record {
      same =
          λ j lo hi. slice-Agree m.buf b 4 (m.ind - 4) (sym behind) j lo (omega (arith, hi, all));
      small = lt;
    }
