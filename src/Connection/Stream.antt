-- ===== src/Connection/Stream.antt =====
-- A connection that reads a stream of messages, and the stream that the kernel holds for it.
use yfs_lab.Prelude.{
  ℕ, zero, suc, ◌-◌, ◌≤◌, ◌<◌, ◌≡◌, refl, sym, ap, ◌∙◌, List, [], ◌∷◌, ◌++◌, Bool, true, false,
  none, some, arith, All, length, length-append, leb, ◌==◌, if◌then◌else◌,
}
use mathlib.Core.List.{append_assoc}
use native.Mathlib.Decide.{dec_le}
use yfs_lab.Prelude.Memory.{Cells}
use yfs_lab.Prelude.Wire.{be32, be32_sum, from_be32}
use yfs_lab.Prelude.Outcome.{Outcome, returns, ◌>>=◌}
use yfs_lab.Connection.{Connection, charbuf, Read, got, again, read_cb, read_rest, read_cb_read}
use yfs_lab.Connection.Frames.{
  IsFrame, concat, take, drop, take-drop, length-drop, take-append, drop-append, take-length,
  drop-length,
}
use yfs_lab.Connection.Receive.{
  Partial, delivered, grown, grown-Partial, rest_partial, rest_whole, rest_again, read_cb-partial,
  started, started-Partial, read_cb-started,
}

pub record Channel : Type 0 where
  pub conn : Connection
  pub stream : List ℕ

-- How much read(2) gives of the `n` bytes that are asked for, where `k` are there.
abbrev pub piece : ℕ → ℕ → ℕ
piece k n = if leb k n then k else n

abbrev pub read_piece : ℕ → ℕ → List ℕ → Read
read_piece zero n s = again
read_piece (suc k) n s = got (take (piece (suc k) n) s)

-- The size that stands at the front of the stream.
abbrev pub next_size : List ℕ → ℕ
next_size s = elim (from_be32 (take 4 s)) [ none ↦ 0 | some w ↦ w ]

-- One call of read_cb, where the second read finds `k` bytes, and the first one all four bytes of a
-- size, and where `consumes` is what the manager's got_pdu returns if it is called. Where nothing is
-- in the stream there is no call.
abbrev pub receive_some : Channel → Cells → ℕ → Bool → Outcome Channel
receive_some ch junk k consumes =
    if ch.conn.rpdu.sz == 0
    then (let n = next_size ch.stream - 4 in
        (read_cb ch.conn junk (got (take 4 ch.stream)) (read_piece k n (drop 4 ch.stream)) consumes
          >>= λ c. returns (record { conn = c; stream = drop (piece k n) (drop 4 ch.stream) })))
    else (let n = ch.conn.rpdu.sz - ch.conn.rpdu.solong in
        (read_cb ch.conn junk again (read_piece k n ch.stream) consumes >>= λ c.
        returns (record { conn = c; stream = drop (piece k n) ch.stream })))

unfoldable pub receive : Channel → Cells → ℕ → Bool → Outcome Channel
receive ch junk k consumes = elim ch.stream [
  | [] ↦ returns ch
  | x ∷ s ↦ receive_some ch junk k consumes
]

unfoldable pub receive_all : Channel → Cells → List (ℕ × Bool) → Outcome Channel
receive_all ch junk [] = returns ch
receive_all ch junk (p ∷ ps) = receive ch junk p.0 p.1 >>= λ ch'. receive_all ch' junk ps

-- Calls that find these numbers of bytes, with a manager that takes every message.
abbrev pub taking : List ℕ → List (ℕ × Bool)
taking [] = []
taking (k ∷ ks) = (k, true) ∷ taking ks

-- What is still to be read: between two messages, or inside the first.
pub data Reading (ch : Channel) : List (List ℕ) → Type 0 where
  between :
      {ps : List (List ℕ)}
      → ch.conn.dead ≡ false
      → ch.conn.rpdu ≡ charbuf
      → ch.stream ≡ concat ps
      → Reading ch ps
  inside :
      {m : List ℕ} {ps : List (List ℕ)} (pre post : List ℕ)
      → Partial ch.conn pre post
      → m ≡ pre ++ post
      → ch.stream ≡ post ++ concat ps
      → Reading ch (m ∷ ps)

-- The result of one call: nothing is lost or doubled, and bytes that are there are read.
pub record Received (ch : Channel) (k : ℕ) (ps : List (List ℕ)) (o : Outcome Channel) : Type 0 where
  pub after : Channel
  pub rest : List (List ℕ)
  pub returned : o ≡ returns after
  pub reading : Reading after rest
  pub frames : All IsFrame rest
  pub order : after.conn.taken ++ rest ≡ ch.conn.taken ++ ps
  pub shrinks : length after.stream ≤ length ch.stream
  pub progress : 0 < k → 0 < length ch.stream → length after.stream < length ch.stream

-- One piece of a message that has begun.
module _ (c : Connection) (pre post m : List ℕ) (ps : List (List ℕ)) (p : Partial c pre post)
    (whole : m ≡ pre ++ post) (f : All IsFrame ps) where
  abbrev pub rest_result : ℕ → Outcome Channel
  rest_result k =
      (read_rest c (read_piece k (length post) (post ++ concat ps)) >>= λ q.
      returns (read_cb_read q true))
      >>= λ d.
          returns (record { conn = d; stream = drop (piece k (length post)) (post ++ concat ps) })

  rest_Received :
      (k : ℕ) (fm : IsFrame m)
      → Received (record { conn = c; stream = post ++ concat ps }) k (m ∷ ps) (rest_result k)
  rest_Received zero fm = record {
    after = record { conn = c; stream = post ++ concat ps };
    rest = m ∷ ps;
    returned =
        let none_read : leb 0 (length post) ≡ true = ground arith in
        rw (rest_again c pre post p, none_read) refl;
    reading = inside pre post p whole refl;
    frames = (fm, f);
    order = refl;
    shrinks = omega arith;
    progress = λ h. absurd (omega arith);
  }
  rest_Received (suc k) fm = elim (dec_le (length post) (suc k)) [
    | yes all ↦ record {
      after = record { conn = delivered c m; stream = concat ps };
      rest = ps;
      returned =
          let last : piece (suc k) (length post) ≡ length post = ground arith in
          rw
            (
              last,
              take-length post (concat ps),
              drop-length post (concat ps),
              rest_whole c pre post p post refl,
              sym whole,
            )
            refl;
      reading = between p.alive refl refl;
      frames = f;
      order = append_assoc c.taken (m ∷ []) ps;
      shrinks = omega (arith, length-append post (concat ps));
      progress = λ h1 h2. omega (arith, length-append post (concat ps), p.more);
    }
    | no some_left ↦ record {
      after = record {
        conn = grown c p.b (take (suc k) post);
        stream = drop (suc k) post ++ concat ps;
      };
      rest = m ∷ ps;
      returned =
          let part : piece (suc k) (length post) ≡ suc k = ground arith in
          rw
            (
              part,
              take-append (suc k) post (concat ps) (omega arith),
              drop-append (suc k) post (concat ps) (omega arith),
              rest_partial c pre post p (take (suc k) post) (drop (suc k) post)
                  (sym (take-drop (suc k) post)) (omega (arith, length-drop (suc k) post)),
            )
            refl;
      reading =
          inside (pre ++ take (suc k) post) (drop (suc k) post)
            (grown-Partial c pre post p (take (suc k) post) (drop (suc k) post)
              (sym (take-drop (suc k) post)) (omega (arith, length-drop (suc k) post)))
            (whole
              ∙ ap (λ l. pre ++ l) (sym (take-drop (suc k) post))
              ∙ sym (append_assoc pre (take (suc k) post) (drop (suc k) post)))
            refl;
      frames = (fm, f);
      order = refl;
      shrinks = omega (
        arith,
        length-append post (concat ps),
        length-append (drop (suc k) post) (concat ps),
        length-drop (suc k) post,
      );
      progress = λ h1 h2. omega (
        arith,
        length-append post (concat ps),
        length-append (drop (suc k) post) (concat ps),
        length-drop (suc k) post,
      );
    }
  ]

-- There is a call where there is something to read.
receive-receive_some :
    (ch : Channel) (junk : Cells) (k : ℕ) (s : List ℕ)
    → ch.stream ≡ s
    → 0 < length s
    → receive ch junk k true ≡ receive_some ch junk k true
unfolding receive
receive-receive_some ch junk k [] e h = absurd (omega arith)
receive-receive_some ch junk k (x ∷ s) e h =
    ap
      (λ l. elim l as (λ _. Outcome Channel) [
        | [] ↦ returns ch
        | y ∷ r ↦ receive_some ch junk k true
      ])
      e

-- A call inside a message.
pub receive-inside :
    (ch : Channel) (junk : Cells) (k : ℕ) (m : List ℕ) (ps : List (List ℕ)) (pre post : List ℕ)
    → All IsFrame (m ∷ ps)
    → Partial ch.conn pre post
    → m ≡ pre ++ post
    → ch.stream ≡ post ++ concat ps
    → Received ch k (m ∷ ps) (receive ch junk k true)
receive-inside ch junk k m ps pre post f p whole e =
    let same : receive ch junk k true ≡ rest_result ch.conn pre post m ps p whole f.1 k =
      let begun : (ch.conn.rpdu.sz == 0) ≡ false = ground (arith, p.size, p.more) in
      let wanted : ch.conn.rpdu.sz - ch.conn.rpdu.solong ≡ length post =
        omega (arith, p.size, p.sofar) in
      receive-receive_some ch junk k (post ++ concat ps) e
        (omega (arith, length-append post (concat ps), p.more))
      ∙ rw
          (
            begun,
            wanted,
            e,
            read_cb-partial ch.conn pre post p junk again
                (read_piece k (length post) (post ++ concat ps)),
          )
          refl in
    let got = rest_Received ch.conn pre post m ps p whole f.1 k f.0 in
    record {
      after = got.after;
      rest = got.rest;
      returned = same ∙ got.returned;
      reading = got.reading;
      frames = got.frames;
      order = got.order;
      shrinks = omega (arith, ap length e, got.shrinks);
      progress = λ h1 h2. omega (arith, ap length e, got.progress h1);
    }

-- A call between two messages.
pub receive-between :
    (ch : Channel) (junk : Cells) (k : ℕ) (m : List ℕ) (ps : List (List ℕ))
    → All IsFrame (m ∷ ps)
    → ch.conn.dead ≡ false
    → ch.conn.rpdu ≡ charbuf
    → ch.stream ≡ m ++ concat ps
    → Received ch k (m ∷ ps) (receive ch junk k true)
receive-between ch junk k m ps f alive idle e =
    let rest = f.0.rest in
    let whole = f.0.bytes in
    let c = started ch.conn m rest f.0 alive idle whole junk in
    let p = started-Partial ch.conn m rest f.0 alive idle whole junk in
    let same : receive ch junk k true ≡ rest_result c (be32 (length m)) rest m ps p whole f.1 k =
      let fresh : (ch.conn.rpdu.sz == 0) ≡ true = ap (λ r. r.sz == 0) idle in
      let sum = be32_sum (length m) (omega (arith, f.0.small)) in
      let wanted : length m - 4 ≡ length rest = omega (arith, ap length whole) in
      let start : ch.stream ≡ be32 (length m) ++ (rest ++ concat ps) =
        e ∙ ap (λ l. l ++ concat ps) whole in
      receive-receive_some ch junk k (be32 (length m) ++ (rest ++ concat ps)) start (omega arith)
      ∙ rw
          (
            fresh,
            start,
            sum,
            wanted,
            read_cb-started ch.conn m rest f.0 alive idle whole junk
                (read_piece k (length rest) (rest ++ concat ps)),
          )
          refl in
    let got = rest_Received c (be32 (length m)) rest m ps p whole f.1 k f.0 in
    record {
      after = got.after;
      rest = got.rest;
      returned = same ∙ got.returned;
      reading = got.reading;
      frames = got.frames;
      order = got.order;
      shrinks = omega (
        arith,
        ap length e,
        ap length whole,
        length-append m (concat ps),
        length-append rest (concat ps),
        got.shrinks,
        p.more,
      );
      progress = λ h1 h2. omega (
        arith,
        ap length e,
        ap length whole,
        length-append m (concat ps),
        length-append rest (concat ps),
        got.progress h1,
        p.more,
      );
    }
