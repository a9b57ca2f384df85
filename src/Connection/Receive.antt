-- ===== src/Connection/Receive.antt =====
-- `read_cb` on a stream of messages that the kernel hands over in pieces.
use yfs_lab.Prelude.{
  ℕ, ◌+◌, ◌≤◌, ◌<◌, ◌≡◌, refl, sym, ap, ◌∙◌, subst, List, [], ◌∷◌, ◌++◌, true, false, none, some,
  arith, length, length-append, ltb, ◌==◌,
}
use mathlib.Core.List.{append-nil}
use yfs_lab.Prelude.Int.{pos, signed32}
use yfs_lab.Prelude.Memory.{
  Cells, memcpy, slice, At, At-Agree, At-append, memcpy-At, memcpy-below, slice-At,
}
use yfs_lab.Prelude.Wire.{be32, be32_sum}
use yfs_lab.Prelude.Outcome.{returns, ◌>>=◌}
use yfs_lab.Connection.{
  Connection, charbuf, max_pdu, Read, got, again, read_cb, read_size, read_rest, read_cb_read,
  allocate, malloc_size, malloc_fails, needs_bytes,
}
use yfs_lab.Connection.Frames.{IsFrame}

-- The buffer holds the bytes `pre` of a message of which `post` is to come.
pub record Partial (c : Connection) (pre post : List ℕ) : Type 0 where
  pub alive : c.dead ≡ false
  pub b : Cells
  pub buf : c.rpdu.buf ≡ some b
  pub here : At b 0 pre
  pub size : c.rpdu.sz ≡ length pre + length post
  pub sofar : c.rpdu.solong ≡ length pre
  pub more : 0 < length post

-- The connection when all of the message `m` has been read and consumed.
abbrev pub delivered : Connection → List ℕ → Connection
delivered c m = record c { rpdu = charbuf; taken = c.taken ++ (m ∷ []) }

abbrev pub grown : Connection → Cells → List ℕ → Connection
grown c b bs = record c {
  rpdu = record c.rpdu {
    buf = some (memcpy b c.rpdu.solong bs);
    solong = c.rpdu.solong + length bs;
  };
}

grown_here :
    (b : Cells) (pre bs : List ℕ) → At b 0 pre → At (memcpy b (length pre) bs) 0 (pre ++ bs)
grown_here b pre bs h =
    At-append (memcpy b (length pre) bs) 0 pre bs
      (At-Agree b (memcpy b (length pre) bs) 0 (length pre) pre
        (λ j lo hi. sym (memcpy-below b (length pre) bs j hi)) (omega arith) h)
      (subst (λ k. At (memcpy b (length pre) bs) k bs) (omega arith) (memcpy-At b (length pre) bs))

module _ (c : Connection) (pre post : List ℕ) (p : Partial c pre post) where
  -- A piece that is not the last one stays in the buffer.
  pub grown-Partial :
      (bs tail : List ℕ)
      → post ≡ bs ++ tail
      → 0 < length tail
      → Partial (grown c p.b bs) (pre ++ bs) tail
  grown-Partial bs tail e h = record {
    alive = p.alive;
    b = memcpy p.b c.rpdu.solong bs;
    buf = refl;
    here =
        subst (λ k. At (memcpy p.b k bs) 0 (pre ++ bs)) (sym p.sofar)
          (grown_here p.b pre bs p.here);
    size = omega (arith, p.size, ap length e, length-append pre bs, length-append bs tail);
    sofar = omega (arith, p.sofar, length-append pre bs);
    more = h;
  }

  rest_reads :
      (bs tail : List ℕ) → post ≡ bs ++ tail → read_rest c (got bs) ≡ returns (true, grown c p.b bs)
  unfolding read_rest
  rest_reads bs tail e =
      let room : ltb c.rpdu.sz c.rpdu.solong ≡ false = ground (arith, p.size, p.sofar) in
      rw (room, p.buf) refl

  hand_partial :
      (bs tail : List ℕ)
      → post ≡ bs ++ tail
      → 0 < length tail
      → read_cb_read (true, grown c p.b bs) true ≡ grown c p.b bs
  unfolding read_cb_read
  hand_partial bs tail e h = ground (arith, p.size, p.sofar, ap length e, length-append bs tail)

  hand_whole :
      (bs : List ℕ) → post ≡ bs → read_cb_read (true, grown c p.b bs) true ≡ delivered c (pre ++ bs)
  unfolding read_cb_read
  hand_whole bs e =
      let len : c.rpdu.sz ≡ length (pre ++ bs) =
        omega (arith, p.size, ap length e, length-append pre bs) in
      let here : At (memcpy p.b c.rpdu.solong bs) 0 (pre ++ bs) =
        subst (λ k. At (memcpy p.b k bs) 0 (pre ++ bs)) (sym p.sofar)
          (grown_here p.b pre bs p.here) in
      let all : slice (memcpy p.b c.rpdu.solong bs) 0 c.rpdu.sz ≡ pre ++ bs =
        subst (λ k. slice (memcpy p.b c.rpdu.solong bs) 0 k ≡ pre ++ bs) (sym len)
          (slice-At (memcpy p.b c.rpdu.solong bs) 0 (pre ++ bs) here) in
      let full : (c.rpdu.sz == c.rpdu.solong + length bs) ≡ true =
        ground (arith, p.size, p.sofar, ap length e) in
      rw (full, all) refl

  -- What `read_cb` does behind the size, for a piece of the message and for no bytes.
  pub rest_partial :
      (bs tail : List ℕ)
      → post ≡ bs ++ tail
      → 0 < length tail
      → (read_rest c (got bs) >>= λ q. returns (read_cb_read q true)) ≡ returns (grown c p.b bs)
  rest_partial bs tail e h = rw (rest_reads bs tail e) (ap returns (hand_partial bs tail e h))

  pub rest_whole :
      (bs : List ℕ)
      → post ≡ bs
      → (read_rest c (got bs) >>= λ q. returns (read_cb_read q true))
        ≡ returns (delivered c (pre ++ bs))
  rest_whole bs e = rw (rest_reads bs [] (e ∙ sym (append-nil bs))) (ap returns (hand_whole bs e))

  pub rest_again : (read_rest c again >>= λ q. returns (read_cb_read q true)) ≡ returns c
  unfolding read_rest read_cb_read
  rest_again =
      let room : ltb c.rpdu.sz c.rpdu.solong ≡ false = ground (arith, p.size, p.sofar) in
      let short : (c.rpdu.sz == c.rpdu.solong) ≡ false = ground (arith, p.size, p.sofar, p.more) in
      rw (room, p.buf, short) refl

  -- `read_cb` on a message that has begun goes on with it.
  pub read_cb-partial :
      (junk : Cells) (r1 r2 : Read)
      → read_cb c junk r1 r2 true ≡ (read_rest c r2 >>= λ q. returns (read_cb_read q true))
  unfolding read_cb
  read_cb-partial junk r1 r2 =
      let needs : needs_bytes c.rpdu ≡ true = ground (arith, p.buf, p.size, p.sofar, p.more) in
      let begun : (c.rpdu.sz == 0) ≡ false = ground (arith, p.size, p.more) in
      rw (p.alive, needs, begun) refl

-- A connection that has read the size of a message of `n` bytes.
abbrev pub begun : Connection → Cells → List ℕ → ℕ → Connection
begun c junk bs n = record c {
  rpdu = record { buf = some (memcpy junk 0 bs); sz = n; solong = 4; failed = false };
}

-- A size of no more than MAX_PDU gets its buffer.
pub allocate_fits :
    (c : Connection) (junk : Cells) (bs : List ℕ) (n : ℕ)
    → n ≤ max_pdu
    → c.rpdu.buf ≡ none
    → allocate c bs junk (pos n) ≡ returns (true, begun c junk bs n)
unfolding allocate
allocate_fits c junk bs n small free =
    let fits : ltb max_pdu n ≡ false = ground (arith, small) in
    let size : malloc_size (pos n) ≡ n + 4 = omega (arith, small) in
    let given : malloc_fails (n + 4) ≡ false = ground (arith, small) in
    let room : ltb (n + 4) 4 ≡ false = ground arith in rw (fits, free, size, given, room) refl

-- `read_cb` on the size of a message goes on with the message.
module _ (c : Connection) (m rest : List ℕ) (f : IsFrame m) (alive : c.dead ≡ false)
    (idle : c.rpdu ≡ charbuf) (whole : m ≡ be32 (length m) ++ rest) where
  abbrev pub started : Cells → Connection
  started junk = begun c junk (be32 (length m)) (length m)

  pub started-Partial : (junk : Cells) → Partial (started junk) (be32 (length m)) rest
  started-Partial junk = record {
    alive = alive;
    b = memcpy junk 0 (be32 (length m));
    buf = refl;
    here = memcpy-At junk 0 (be32 (length m));
    size = omega (arith, ap length whole);
    sofar = refl;
    more = omega (arith, ap length whole, f.more);
  }

  size_reads :
      (junk : Cells) → read_size c junk (got (be32 (length m))) ≡ returns (true, started junk)
  unfolding read_size
  size_reads junk =
      let word = be32_sum (length m) (omega (arith, f.small)) in
      let sign : signed32 (length m) ≡ pos (length m) = ground (arith, f.small) in
      ap (λ w. allocate c (be32 (length m)) junk (signed32 w)) word
      ∙ ap (allocate c (be32 (length m)) junk) sign
      ∙ allocate_fits c junk (be32 (length m)) (length m) f.small (ap (λ r. r.buf) idle)

  pub read_cb-started :
      (junk : Cells) (r2 : Read)
      → read_cb c junk (got (be32 (length m))) r2 true
        ≡ (read_rest (started junk) r2 >>= λ q. returns (read_cb_read q true))
  unfolding read_cb
  read_cb-started junk r2 =
      let needs : needs_bytes c.rpdu ≡ true = ap needs_bytes idle in
      let fresh : (c.rpdu.sz == 0) ≡ true = ap (λ r. r.sz == 0) idle in
      ground (arith, needs, fresh, size_reads junk)
