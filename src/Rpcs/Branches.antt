-- ===== src/Rpcs/Branches.antt =====
-- The branches of `dispatch` before the switch.
use yfs_lab.Prelude.{ℕ, ◌≡◌, true, false, none, some, arith}
use yfs_lab.Prelude.Memory.{Cells}
use yfs_lab.Marshall.{ReqHeader}
use yfs_lab.Unmarshall.{Unmarshall}
use yfs_lab.Rpcs.{
  Rpcs, Handler, returns, ◌>>=◌, decref, send_bare, act, admit, serve, is_old, oldsrv_failure,
}

module _ {S : Type 0} (s : Rpcs S) (c : ℕ) (h : ReqHeader) (req : Unmarshall) (junk : Cells) where
  pub serve_short : req.is_ok ≡ false → serve s c h req junk ≡ returns (decref s c)
  unfolding serve
  serve_short e = rw e

  module _ (good : req.is_ok ≡ true) where
    pub serve_old :
        is_old s h ≡ true → serve s c h req junk ≡ returns (send_bare s c junk h.xid oldsrv_failure)
    unfolding serve
    serve_old e = ground arith

    pub serve_unknown :
        is_old s h ≡ false → s.procs h.proc ≡ none → serve s c h req junk ≡ returns (decref s c)
    unfolding serve
    serve_unknown e p = ground arith

    -- The rest of `dispatch`, for a known procedure with the handler `f`.
    pub serve_known :
        (f : Handler S)
        → is_old s h ≡ false
        → s.procs h.proc ≡ some f
        → serve s c h req junk
          ≡ (act (admit s h c).1 h c junk f req (admit s h c).0 >>= λ r. returns (decref r.1 r.0))
    unfolding serve
    serve_known f e p = ground arith
