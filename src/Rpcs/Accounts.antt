-- ===== src/Rpcs/Accounts.antt =====
-- The reference counts of connections: what `dispatch` takes and gives back.
use yfs_lab.Prelude.{
  ℕ, ◌+◌, ◌≤◌, ◌≡◌, refl, true, Option, none, some, arith, ◌==◌, if◌then◌else◌, Bool-cases, inl,
  inr,
}
use yfs_lab.Prelude.Int.{ℤ}
use yfs_lab.Prelude.Memory.{Cells}
use yfs_lab.Marshall.{ReqHeader}
use yfs_lab.Unmarshall.{Unmarshall}
use yfs_lab.ReplyWindow.{RpcState, new, inprogress, done, forgotten, Verdict}
use yfs_lab.Rpcs.{
  decref, Rpcs, Handler, returns, save_conn, know_client, latest_conn, record_reply, answer,
  run_handler, resend, send_bare, act, admit, updatestat,
}

-- 1 where the connections are one.
abbrev pub one_if : ℕ → ℕ → ℕ
one_if a b = if a == b then 1 else 0

module _ {S : Type 0} where
  -- The reference to `k` that `conns_` holds for the client.
  abbrev pub held : Rpcs S → ℕ → ℕ → ℕ
  held s clt k = elim (s.conns clt) [ none ↦ 0 | some d ↦ one_if d k ]

  save_conn_account :
      (s : Rpcs S) (clt c k : ℕ)
      → held s clt k ≤ s.refs k
      → (save_conn s clt c).refs k + held s clt k ≡ s.refs k + held (save_conn s clt c) clt k
  unfolding save_conn
  save_conn_account s clt c k h = ground arith

  pub admit_account :
      (s : Rpcs S) (h : ReqHeader) (c k : ℕ)
      → held s h.clt_nonce k ≤ s.refs k
      → (admit s h c).1.refs k + held s h.clt_nonce k
        ≡ s.refs k + held (admit s h c).1 h.clt_nonce k
  unfolding admit
  admit_account s h c k le = ground arith

  answer_account :
      (s : Rpcs S) (h : ReqHeader) (c : ℕ) (ret : ℤ) (b : Cells) (sz d : ℕ) (s' : Rpcs S) (k : ℕ)
      → answer s h c ret b sz ≡ returns (d, s')
      → one_if c k ≤ s.refs k
      → (s'.refs k + one_if c k ≡ s.refs k + one_if d k) × (s'.conns ≡ s.conns)
  unfolding answer record_reply latest_conn
  answer_account s h c ret b sz d s' k e le = ground arith

  run_handler_account :
      (s : Rpcs S) (h : ReqHeader) (c : ℕ) (junk : Cells) (f : Handler S) (req : Unmarshall) (d : ℕ)
      (s' : Rpcs S) (k : ℕ)
      → run_handler s h c junk f req ≡ returns (d, s')
      → one_if c k ≤ s.refs k
      → (s'.refs k + one_if c k ≡ s.refs k + one_if d k) × (s'.conns ≡ s.conns)
  unfolding run_handler updatestat
  run_handler_account s h c junk f req d s' k e le = elim (Bool-cases (s.counting == 0)) [
    | inl z ↦ answer_account _ h c _ _ _ d s' k (rw z at e) le
    | inr n ↦ answer_account _ h c _ _ _ d s' k (rw n at e) le
  ]

  pub act_account :
      (s : Rpcs S) (h : ReqHeader) (c : ℕ) (junk : Cells) (f : Handler S) (req : Unmarshall)
      (v : Verdict) (d : ℕ) (s' : Rpcs S) (k : ℕ) (st : RpcState)
      → v.stat ≡ st
      → act s h c junk f req v ≡ returns (d, s')
      → one_if c k ≤ s.refs k
      → (s'.refs k + one_if c k ≡ s.refs k + one_if d k) × (s'.conns ≡ s.conns)
  unfolding act resend send_bare
  act_account s h c junk f req v d s' k new n e le =
      run_handler_account s h c junk f req d s' k (rw n at e) le
  act_account s h c junk f req v d s' k inprogress n e le = ground arith
  act_account s h c junk f req v d s' k done n e le = ground arith
  act_account s h c junk f req v d s' k forgotten n e le = ground arith

  -- No assert on a count fails where the reference that is given back is counted.
  pub admit_overdrawn :
      (s : Rpcs S) (h : ReqHeader) (c : ℕ)
      → ((k : ℕ) → held s h.clt_nonce k ≤ s.refs k)
      → (admit s h c).1.overdrawn ≡ s.overdrawn
  unfolding admit know_client save_conn
  admit_overdrawn s h c le = by_conn (s.conns h.clt_nonce) refl
    where
      by_conn : (o : Option ℕ) → s.conns h.clt_nonce ≡ o → (admit s h c).1.overdrawn ≡ s.overdrawn
      by_conn none e = ground (arith, e)
      by_conn (some d) e =
          let one : 1 ≤ s.refs d = ground (arith, le d, e) in ground (arith, e, one)

  answer_overdrawn :
      (s : Rpcs S) (h : ReqHeader) (c : ℕ) (ret : ℤ) (b : Cells) (sz d : ℕ) (s' : Rpcs S)
      → answer s h c ret b sz ≡ returns (d, s')
      → one_if c c ≤ s.refs c
      → s'.overdrawn ≡ s.overdrawn
  unfolding answer record_reply latest_conn
  answer_overdrawn s h c ret b sz d s' e le = ground arith

  run_handler_overdrawn :
      (s : Rpcs S) (h : ReqHeader) (c : ℕ) (junk : Cells) (f : Handler S) (req : Unmarshall) (d : ℕ)
      (s' : Rpcs S)
      → run_handler s h c junk f req ≡ returns (d, s')
      → one_if c c ≤ s.refs c
      → s'.overdrawn ≡ s.overdrawn
  unfolding run_handler updatestat
  run_handler_overdrawn s h c junk f req d s' e le = elim (Bool-cases (s.counting == 0)) [
    | inl z ↦ answer_overdrawn _ h c _ _ _ d s' (rw z at e) le
    | inr n ↦ answer_overdrawn _ h c _ _ _ d s' (rw n at e) le
  ]

  pub act_overdrawn :
      (s : Rpcs S) (h : ReqHeader) (c : ℕ) (junk : Cells) (f : Handler S) (req : Unmarshall)
      (v : Verdict) (d : ℕ) (s' : Rpcs S) (st : RpcState)
      → v.stat ≡ st
      → act s h c junk f req v ≡ returns (d, s')
      → one_if c c ≤ s.refs c
      → s'.overdrawn ≡ s.overdrawn
  unfolding act resend send_bare
  act_overdrawn s h c junk f req v d s' new n e le =
      run_handler_overdrawn s h c junk f req d s' (rw n at e) le
  act_overdrawn s h c junk f req v d s' inprogress n e le = ground arith
  act_overdrawn s h c junk f req v d s' done n e le = ground arith
  act_overdrawn s h c junk f req v d s' forgotten n e le = ground arith

  -- A deleted connection has no reference.
  abbrev pub IsUnused : Rpcs S → ℕ → Type 0
  IsUnused s k = s.deleted k ≡ true → s.refs k ≡ 0

  pub admit-IsUnused :
      (s : Rpcs S) (h : ReqHeader) (c k : ℕ)
      → one_if c k ≤ s.refs k
      → IsUnused s k
      → IsUnused (admit s h c).1 k
  unfolding admit know_client save_conn
  admit-IsUnused s h c k le u g = ground arith

  answer-IsUnused :
      (s : Rpcs S) (h : ReqHeader) (c : ℕ) (ret : ℤ) (b : Cells) (sz d : ℕ) (s' : Rpcs S) (k : ℕ)
      → answer s h c ret b sz ≡ returns (d, s')
      → held s h.clt_nonce k ≤ s.refs k
      → IsUnused s k
      → IsUnused s' k
  unfolding answer record_reply latest_conn
  answer-IsUnused s h c ret b sz d s' k e le u g = ground arith

  run_handler-IsUnused :
      (s : Rpcs S) (h : ReqHeader) (c : ℕ) (junk : Cells) (f : Handler S) (req : Unmarshall) (d : ℕ)
      (s' : Rpcs S) (k : ℕ)
      → run_handler s h c junk f req ≡ returns (d, s')
      → held s h.clt_nonce k ≤ s.refs k
      → IsUnused s k
      → IsUnused s' k
  unfolding run_handler updatestat
  run_handler-IsUnused s h c junk f req d s' k e le u = elim (Bool-cases (s.counting == 0)) [
    | inl z ↦ answer-IsUnused _ h c _ _ _ d s' k (rw z at e) le u
    | inr n ↦ answer-IsUnused _ h c _ _ _ d s' k (rw n at e) le u
  ]

  pub act-IsUnused :
      (s : Rpcs S) (h : ReqHeader) (c : ℕ) (junk : Cells) (f : Handler S) (req : Unmarshall)
      (v : Verdict) (d : ℕ) (s' : Rpcs S) (k : ℕ) (st : RpcState)
      → v.stat ≡ st
      → act s h c junk f req v ≡ returns (d, s')
      → held s h.clt_nonce k ≤ s.refs k
      → IsUnused s k
      → IsUnused s' k
  unfolding act resend send_bare
  act-IsUnused s h c junk f req v d s' k new n e le u g =
      run_handler-IsUnused s h c junk f req d s' k (rw n at e) le u g
  act-IsUnused s h c junk f req v d s' k inprogress n e le u g = ground arith
  act-IsUnused s h c junk f req v d s' k done n e le u g = ground arith
  act-IsUnused s h c junk f req v d s' k forgotten n e le u g = ground arith

  pub decref-IsUnused : (s : Rpcs S) (c k : ℕ) → IsUnused s k → IsUnused (decref s c) k
  decref-IsUnused s c k u g = ground arith
