-- ===== src/Rpcs/Histories.antt =====
-- Histories of a server: the jobs of its pool, and the references to connections.
--
-- A message that comes in becomes a job, which holds a reference to its connection; a thread of the
-- pool takes a job and runs `dispatch` on it, in two steps: up to the verdict of the windows, and from
-- the switch on. Between them other threads run their dispatches, messages come in, and connections
-- die. `leaked` counts the references that were left behind.
pub mod References
pub mod Shutdown
use yfs_lab.Prelude.{
  ℕ, zero, suc, ◌+◌, ◌-◌, List, [], ◌∷◌, ◌++◌, Bool, true, false, not, Option, none, some, ◌==◌,
  if◌then◌else◌,
}
use yfs_lab.Prelude.Memory.{Cells}
use yfs_lab.Marshall.{ReqHeader}
use yfs_lab.Unmarshall.{Unmarshall, unmarshall, unpack_req_header}
use yfs_lab.ReplyWindow.{Verdict, free_reply_window}
use yfs_lab.Rpcs.{
  Rpcs, Handler, Outcome, returns, ◌>>=◌, decref, send_bare, oldsrv_failure, is_old, admit, act,
  got_pdu,
}
use yfs_lab.Rpcs.Accounts.{one_if}

-- rpcs::djob_t
pub record Djob : Type 0 where
  pub buf : Cells
  pub sz : ℕ
  pub conn : ℕ

abbrev pub client_of : Djob → ℕ
client_of j = (unpack_req_header (unmarshall j.buf j.sz)).0.clt_nonce

abbrev pub item_at {ℓ} : {A : Type ℓ} → ℕ → List A → Option A
item_at i [] = none
item_at zero (j ∷ js) = some j
item_at (suc i) (j ∷ js) = item_at i js

abbrev pub remove_item {ℓ} : {A : Type ℓ} → ℕ → List A → List A
remove_item i [] = []
remove_item zero (j ∷ js) = js
remove_item (suc i) (j ∷ js) = j ∷ remove_item i js

-- The variables of a dispatch in front of its switch.
pub record Pending (S : Type 0) : Type 0 where
  pub conn : ℕ
  pub header : ReqHeader
  pub junk : Cells
  pub fn : Handler S
  pub req : Unmarshall
  pub verdict : Verdict

-- How the first step of a dispatch ends: it has returned, with its reference given back or, where the
-- request is for another instance of the server, without, or it goes on to the switch.
pub data Begun (S : Type 0) : Type 0 where
  returned : Rpcs S → Begun S
  left : Rpcs S → Begun S
  goes_on : Pending S → Rpcs S → Begun S

pub data Event : Type 0 where
  arrived : (j : Djob) (succ : Bool) → Event
  began : (i : ℕ) (junk : Cells) → Event
  ended : (i : ℕ) → Event
  died : (c : ℕ) → Event

pub record Serving (S : Type 0) : Type 0 where
  pub server : Rpcs S
  pub jobs : List Djob
  pub running : List (Pending S)
  pub leaked : ℕ → ℕ

module _ {S : Type 0} where
  -- rpcs::got_pdu, where the pool takes the job or does not.
  unfoldable pub arrive : Serving S → Djob → Bool → Serving S
  arrive s j succ =
      let (taken, server) = got_pdu s.server j.conn succ in
      record s { server = server; jobs = if taken then s.jobs ++ (j ∷ []) else s.jobs }

  -- rpcs::dispatch behind the unmarshalling of the header, up to its switch.
  unfoldable pub serve_begin : Rpcs S → ℕ → ReqHeader → Unmarshall → Cells → Begun S
  serve_begin s c h req junk =
      if not req.is_ok
      then returned (decref s c)
      else if is_old s h
      then left (send_bare s c junk h.xid oldsrv_failure)
      else (elim (s.procs h.proc) [
        | none ↦ returned (decref s c)
        | some f ↦
            let (v, s1) = admit s h c in
            goes_on (record { conn = c; header = h; junk = junk; fn = f; req = req; verdict = v })
              s1
      ])

  -- rpcs::dispatch from its switch on.
  unfoldable pub serve_end : Rpcs S → Pending S → Outcome (Rpcs S)
  serve_end s p =
      act s p.header p.conn p.junk p.fn p.req p.verdict >>= λ r. returns (decref r.1 r.0)

  -- What a thread leaves that has taken the job.
  abbrev pub behind_begin : Serving S → ℕ → Djob → Begun S → Serving S
  behind_begin s i j (returned server) = record s { server = server; jobs = remove_item i s.jobs }
  behind_begin s i j (left server) = record s {
    server = server;
    jobs = remove_item i s.jobs;
    leaked = λ k. s.leaked k + one_if j.conn k;
  }
  behind_begin s i j (goes_on p server) = record s {
    server = server;
    jobs = remove_item i s.jobs;
    running = p ∷ s.running;
  }

  unfoldable pub begin_job : Serving S → ℕ → Djob → Cells → Serving S
  unfolding serve_begin
  begin_job s i j junk =
      let (h, req) = unpack_req_header (unmarshall j.buf j.sz) in
      behind_begin s i j (serve_begin s.server j.conn h req junk)

  unfoldable pub end_job : Serving S → ℕ → Pending S → Outcome (Serving S)
  unfolding serve_end
  end_job s i p = serve_end s.server p >>= λ server.
      returns (record s { server = server; running = remove_item i s.running })

  -- A connection dies.
  abbrev pub kill : Rpcs S → ℕ → Rpcs S
  kill s c = record s { dead = λ k. if c == k then true else s.dead k }

  unfoldable pub step : Serving S → Event → Outcome (Serving S)
  unfolding arrive begin_job end_job
  step s (arrived j succ) = returns (arrive s j succ)
  step s (began i junk) = elim (item_at i s.jobs) [
    | none ↦ returns s
    | some j ↦ returns (begin_job s i j junk)
  ]
  step s (ended i) = elim (item_at i s.running) [ none ↦ returns s | some p ↦ end_job s i p ]
  step s (died c) = returns (record s { server = kill s.server c })

  unfoldable pub run : Serving S → List Event → Outcome (Serving S)
  run s [] = returns s
  run s (e ∷ es) = step s e >>= λ s'. run s' es

  -- The loop of tcpsconn::~tcpsconn over the connections of the listener: closeconn and decref.
  unfoldable pub close_conns : List ℕ → Rpcs S → Rpcs S
  close_conns [] s = s
  close_conns (c ∷ cs) s = close_conns cs (decref (kill s c) c)

  -- rpcs::~rpcs: `delete listener_`, behind which `delete dispatchpool_` lets the jobs that are left
  -- be run, and then free_reply_window.
  abbrev pub delete_listener : Serving S → List ℕ → Serving S
  delete_listener s listeners = record s { server = close_conns listeners s.server }

  unfoldable pub end_server : Rpcs S → Rpcs S
  end_server s = record s { reply_window = free_reply_window s.reply_window }
