-- ===== src/Rpcs/Handlers.antt =====
-- rpc/rpc.h: the handler classes that the seven `rpcs::reg` templates make, and the constructor of
-- rpcs, which registers `bind`.
use yfs_lab.Prelude.{ℕ, ◌+◌, ◌≡◌, [], true, false, none, arith, length, if◌then◌else◌}
use yfs_lab.Prelude.Int.{ℤ}
use yfs_lab.Marshall.{Marshall}
use yfs_lab.Unmarshall.{Unmarshall, okdone}
use yfs_lab.Unmarshall.Reads.{Next}
use yfs_lab.Codec.{Codec}
use yfs_lab.Codec.Types.{then_codec, int_codec}
use yfs_lab.Rpcs.{Rpcs, Handler, Outcome, bind, unmarshal_args_failure, reg1, rpcbind}

-- `h1::fn`: `r0` is what the variable `R r` holds before the method sets it.
module _ {S A R : Type 0} (args : Codec A) (res : Codec R) (r0 : R) where
  unfoldable pub handler_fn : (S → A → R → ℤ × R × S) → Handler S
  handler_fn meth s u ret =
      let (a, u1) = args.get u in
      let (b, r, s1) = meth s a r0 in
      if okdone u1 then (b, res.put ret r, s1) else (unmarshal_args_failure, ret, s)

-- reg for one argument, and for two to seven, which are read in turn.
module _ {S R : Type 0} (res : Codec R) (r0 : R) (s : Rpcs S) (proc : ℕ) where
  unfoldable pub reg_one : {A1 : Type 0} → Codec A1 → (S → A1 → R → ℤ × R × S) → Outcome (Rpcs S)
  reg_one a1 meth = reg1 s proc (handler_fn a1 res r0 meth)

  unfoldable pub reg_two :
      {A1 A2 : Type 0} → Codec A1 → Codec A2 → (S → A1 → A2 → R → ℤ × R × S) → Outcome (Rpcs S)
  reg_two a1 a2 meth = reg1 s proc (handler_fn (then_codec a1 a2) res r0 (λ o a. meth o a.0 a.1))

  unfoldable pub reg_three :
      {A1 A2 A3 : Type 0}
      → Codec A1
      → Codec A2
      → Codec A3
      → (S → A1 → A2 → A3 → R → ℤ × R × S)
      → Outcome (Rpcs S)
  reg_three a1 a2 a3 meth =
      reg1 s proc
        (handler_fn (then_codec a1 (then_codec a2 a3)) res r0 (λ o a. meth o a.0 a.1.0 a.1.1))

  unfoldable pub reg_four :
      {A1 A2 A3 A4 : Type 0}
      → Codec A1
      → Codec A2
      → Codec A3
      → Codec A4
      → (S → A1 → A2 → A3 → A4 → R → ℤ × R × S)
      → Outcome (Rpcs S)
  reg_four a1 a2 a3 a4 meth = reg1 s proc (
      handler_fn (then_codec a1 (then_codec a2 (then_codec a3 a4))) res r0
        (λ o a. meth o a.0 a.1.0 a.1.1.0 a.1.1.1))

  unfoldable pub reg_five :
      {A1 A2 A3 A4 A5 : Type 0}
      → Codec A1
      → Codec A2
      → Codec A3
      → Codec A4
      → Codec A5
      → (S → A1 → A2 → A3 → A4 → A5 → R → ℤ × R × S)
      → Outcome (Rpcs S)
  reg_five a1 a2 a3 a4 a5 meth = reg1 s proc (
      handler_fn (then_codec a1 (then_codec a2 (then_codec a3 (then_codec a4 a5)))) res r0
        (λ o a. meth o a.0 a.1.0 a.1.1.0 a.1.1.1.0 a.1.1.1.1))

  unfoldable pub reg_six :
      {A1 A2 A3 A4 A5 A6 : Type 0}
      → Codec A1
      → Codec A2
      → Codec A3
      → Codec A4
      → Codec A5
      → Codec A6
      → (S → A1 → A2 → A3 → A4 → A5 → A6 → R → ℤ × R × S)
      → Outcome (Rpcs S)
  reg_six a1 a2 a3 a4 a5 a6 meth = reg1 s proc (
      handler_fn (then_codec a1 (then_codec a2 (then_codec a3 (then_codec a4 (then_codec a5 a6)))))
        res r0 (λ o a. meth o a.0 a.1.0 a.1.1.0 a.1.1.1.0 a.1.1.1.1.0 a.1.1.1.1.1))

  unfoldable pub reg_seven :
      {A1 A2 A3 A4 A5 A6 A7 : Type 0}
      → Codec A1
      → Codec A2
      → Codec A3
      → Codec A4
      → Codec A5
      → Codec A6
      → Codec A7
      → (S → A1 → A2 → A3 → A4 → A5 → A6 → A7 → R → ℤ × R × S)
      → Outcome (Rpcs S)
  reg_seven a1 a2 a3 a4 a5 a6 a7 meth = reg1 s proc (
      handler_fn
        (then_codec a1
          (then_codec a2 (then_codec a3 (then_codec a4 (then_codec a5 (then_codec a6 a7))))))
        res r0 (λ o a. meth o a.0 a.1.0 a.1.1.0 a.1.1.1.0 a.1.1.1.1.0 a.1.1.1.1.1.0 a.1.1.1.1.1.1))

-- The fields as the constructor of rpcs sets them, with the nonce from random() and `counts`.
abbrev pub new_rpcs : {S : Type 0} → S → ℕ → ℕ → Rpcs S
new_rpcs app nonce counts = record {
  nonce = nonce;
  reply_window = λ c. none;
  conns = λ c. none;
  counting = counts;
  curr_counts = counts;
  counts = λ p. 0;
  procs = λ p. none;
  app = app;
  refs = λ k. 0;
  deleted = λ k. false;
  overdrawn = false;
  dead = λ k. false;
  sent = [];
}

-- rpcs::rpcs; `r0` is what the result variable of the handler for `bind` holds before it is set.
unfoldable pub rpcs : {S : Type 0} → S → ℕ → ℕ → ℤ → Outcome (Rpcs S)
unfolding reg_one
rpcs app nonce counts r0 =
    reg_one int_codec r0 (new_rpcs app nonce counts) bind int_codec (rpcbind nonce)

-- A handler whose arguments are all of the rest of the message runs its method on them once and
-- puts the result behind the header.
pub handler_fn-Next :
    {S A R : Type 0} (args : Codec A) (res : Codec R) (r0 : R) (meth : S → A → R → ℤ × R × S)
    (s : S) (u : Unmarshall) (ret : Marshall) (a : A)
    → args.Fits a
    → u.is_ok ≡ true
    → Next u (args.encode a)
    → u.ind + length (args.encode a) ≡ u.sz
    → handler_fn args res r0 meth s u ret
      ≡ ((meth s a r0).0, res.put ret (meth s a r0).1, (meth s a r0).2)
unfolding handler_fn okdone
handler_fn-Next args res r0 meth s u ret a f good n all =
    rw (args.get-Next u a f good n) (ground arith)
