-- ===== src/Connection/Pieces.antt =====
-- `send` and `write_cb` on a socket that takes a message in pieces: the definitions, and the bytes
-- in the buffer.
use yfs_lab.Prelude.{
  ℕ, zero, suc, ◌+◌, ◌-◌, ◌≤◌, ◌≡◌, refl, sym, ap, ◌∙◌, subst, List, [], ◌∷◌, ◌++◌, true, false,
  not, ◌&&◌, Option, none, some, arith, length, ◌==◌, Bool-cases, inl, inr,
}
use yfs_lab.Prelude.Memory.{
  Cells, memcpy, slice, At, At-Agree, At-append, At-append_right, memcpy-At, memcpy-above,
}
use yfs_lab.Prelude.Wire.{be32}
use yfs_lab.Prelude.Outcome.{Outcome, returns, ◌>>=◌}
use yfs_lab.Connection.{
  Connection, Charbuf, Write, wrote, not_now, broken, with_size, Sending, queues, completes, ends,
  send_round, send_wait, write_cb, is_partial,
}
use yfs_lab.Connection.Frames.{take}
use yfs_lab.Connection.Stream.{piece}

-- What stands on the wire for the buffer `b` of `sz` bytes: the size goes over its first four.
abbrev pub framed : Cells → ℕ → List ℕ
framed b sz = be32 sz ++ slice b 4 (sz - 4)

-- What write(2) does with the rest of a message where there is room for `k` bytes, and `none` where
-- the connection is broken.
abbrev pub room : Charbuf → Option ℕ → Write
room w none = broken
room w (some zero) = not_now
room w (some (suc k)) = wrote (piece (suc k) (w.sz - w.solong))

-- Calls of write_cb while `send` waits for the end of the message.
unfoldable pub write_all : Connection → List (Option ℕ) → Outcome Connection
write_all c [] = returns c
write_all c (k ∷ ks) = elim (not c.dead && is_partial c.wpdu) [
  | false ↦ returns c
  | true ↦ write_cb c (room c.wpdu k) >>= λ c'. write_all c' ks
]

abbrev pub then_write : List (Option ℕ) → Sending × Connection → Outcome (Sending × Connection)
then_write ks (completes, c) = write_all c ks >>= λ c'. returns (send_wait c')
then_write ks (queues, c) = returns (queues, c)
then_write ks (ends r, c) = returns (ends r, c)

-- One `send`, with the pieces that the socket takes at once and in calls of write_cb.
abbrev pub send_pieces :
    Connection → Cells → ℕ → Option ℕ → List (Option ℕ) → Outcome (Sending × Connection)
send_pieces c b sz k ks =
    send_round c b sz (room (record { buf = some b; sz = sz; solong = 0; failed = false }) k)
    >>= then_write ks

-- The wire holds what it held, and then the bytes of the frame that have been taken.
pub record Writes (c : Connection) (before frame : List ℕ) : Type 0 where
  pub alive : c.dead ≡ false
  pub ok : c.wpdu.failed ≡ false
  pub b : Cells
  pub buf : c.wpdu.buf ≡ some b
  pub rest : List ℕ
  pub sized : At (with_size c.wpdu b) 0 frame
  pub start : frame ≡ be32 c.wpdu.sz ++ rest
  pub size : c.wpdu.sz ≡ length frame
  pub within : c.wpdu.solong ≤ c.wpdu.sz
  pub wire : c.wire ≡ before ++ take c.wpdu.solong frame

-- The connection has died with a part of the frame on the wire.
pub record Died (c : Connection) (before frame : List ℕ) : Type 0 where
  pub dead : c.dead ≡ true
  pub part : ℕ
  pub wire : c.wire ≡ before ++ take part frame

resized :
    (b : Cells) (x : ℕ) (body : List ℕ)
    → At b 0 (be32 x ++ body)
    → At (memcpy b 0 (be32 x)) 0 (be32 x ++ body)
resized b x body h = At-append (memcpy b 0 (be32 x)) 0 (be32 x) body (memcpy-At b 0 (be32 x)) (
    At-Agree b (memcpy b 0 (be32 x)) 4 (4 + length body) body
      (λ j lo hi. sym (memcpy-above b 0 (be32 x) j lo)) (omega arith)
      (At-append_right b 0 (be32 x) body h))

At-slice : (b : Cells) (i n : ℕ) → At b i (slice b i n)
unfolding slice
At-slice b i zero = tt
At-slice b i (suc n) = (refl, At-slice b (i + 1) n)

pub framed-At : (b : Cells) (sz : ℕ) → At (memcpy b 0 (be32 sz)) 0 (framed b sz)
framed-At b sz =
    At-append (memcpy b 0 (be32 sz)) 0 (be32 sz) (slice b 4 (sz - 4)) (memcpy-At b 0 (be32 sz)) (
      At-Agree b (memcpy b 0 (be32 sz)) 4 (4 + length (slice b 4 (sz - 4))) (slice b 4 (sz - 4))
        (λ j lo hi. sym (memcpy-above b 0 (be32 sz) j lo)) (omega arith) (At-slice b 4 (sz - 4)))

slice-take : (b : Cells) (i n : ℕ) (l : List ℕ) → At b i l → n ≤ length l → slice b i n ≡ take n l
unfolding slice
slice-take b i zero l h le = refl
slice-take b i (suc n) [] h le = absurd (omega (arith, le))
slice-take b i (suc n) (x ∷ l) h le =
    ap (λ y. y ∷ slice b (i + 1) n) h.0
    ∙ ap (λ r. x ∷ r) (slice-take b (i + 1) n l h.1 (omega (arith, le)))

-- The bytes between `j` and `j + n` of what stands in the buffer.
slice-frame :
    (b : Cells) (i j n : ℕ) (frame : List ℕ)
    → At b i frame
    → j + n ≤ length frame
    → take j frame ++ slice b (i + j) n ≡ take (j + n) frame
slice-frame b i zero n frame h le =
    let at : i + 0 ≡ i = omega arith in
    let count : n ≡ 0 + n = omega arith in
    ap (λ k. slice b k n) at
    ∙ slice-take b i n frame h (omega (arith, le))
    ∙ ap (λ k. take k frame) count
slice-frame b i (suc j) n [] h le = absurd (omega (arith, le))
slice-frame b i (suc j) n (x ∷ l) h le =
    let at : i + suc j ≡ i + 1 + j = omega arith in
    let count : suc j + n ≡ suc (j + n) = omega arith in
    ap (λ k. x ∷ (take j l ++ slice b k n)) at
    ∙ ap (λ r. x ∷ r) (slice-frame b (i + 1) j n l h.1 (omega (arith, le)))
    ∙ ap (λ k. take k (x ∷ l)) (sym count)

pub slice-frame-start :
    (b : Cells) (j n : ℕ) (frame : List ℕ)
    → At b 0 frame
    → j + n ≤ length frame
    → take j frame ++ slice b j n ≡ take (j + n) frame
slice-frame-start b j n frame h le =
    let at : j ≡ 0 + j = omega arith in
    ap (λ k. take j frame ++ slice b k n) at ∙ slice-frame b 0 j n frame h le

with_size-At :
    (w : Charbuf) (b : Cells) (x : ℕ) (body : List ℕ)
    → w.sz ≡ x
    → At b 0 (be32 x ++ body)
    → At (with_size w b) 0 (be32 x ++ body)
with_size-At w b x body e h = elim (Bool-cases (w.solong == 0)) [
  | inl first ↦
      let filled : with_size w b ≡ memcpy b 0 (be32 x) = rw (first, e) refl in
      subst (λ g. At g 0 (be32 x ++ body)) (sym filled) (resized b x body h)
  | inr later ↦
      let kept : with_size w b ≡ b = rw later refl in
      subst (λ g. At g 0 (be32 x ++ body)) (sym kept) h
]

-- The size may be put into the buffer again.
pub sized-again :
    (c : Connection) (before frame : List ℕ) (w : Writes c before frame) (v : Charbuf)
    → v.sz ≡ c.wpdu.sz
    → At (with_size v (with_size c.wpdu w.b)) 0 frame
sized-again c before frame w v e =
    subst (λ l. At (with_size v (with_size c.wpdu w.b)) 0 l) (sym w.start)
      (with_size-At v (with_size c.wpdu w.b) c.wpdu.sz w.rest e
        (subst (λ l. At (with_size c.wpdu w.b) 0 l) w.start w.sized))
