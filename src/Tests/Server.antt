-- ===== src/Tests/Server.antt =====
-- Runs of the server's dispatch.
use yfs_lab.Prelude.{
  ℕ, ◌+◌, ◌≡◌, refl, List, [], ◌∷◌, ◌++◌, true, false, none, some, arith, ◌==◌, if◌then◌else◌,
}
use yfs_lab.Prelude.Int.{pos}
use yfs_lab.Prelude.Memory.{Cells}
use yfs_lab.Unmarshall.{unmarshall, unpack_req_header, unpack, rawbyte}
use yfs_lab.ReplyWindow.{
  new, reply_t, find_reply, add_reply, checkduplicate_and_update, classify, remove_confirmed,
}
use yfs_lab.ReplyWindow.Checks.{entry}
use yfs_lab.ReplyWindow.Once.{checked, replied, run}
use yfs_lab.Rpcs.{
  Rpcs, Handler, Outcome, returns, aborts, null_pointer, dispatch, send_bare, got_pdu, Sent, admit,
  know_client, save_conn, act, run_handler, answer, record_reply, latest_conn,
}
use yfs_lab.Rpcs.Histories
use yfs_lab.Rpcs.Histories.{
  Djob, Event, Serving, arrived, began, ended, died, arrive, begin_job, end_job, serve_begin,
  serve_end, close_conns, delete_listener, end_server,
}
use yfs_lab.Rpcs.Histories.References.{job_refs, running_refs, saved_refs}
use yfs_lab.Rpcs.Histories.Shutdown.{Sound, conn_refs, references_kept, destroyed_leaves}
use yfs_lab.Rpcs.Handlers.{new_rpcs}
use yfs_lab.Rpcs.Admission.{reply_of}
use yfs_lab.Rpcs.Outcomes.{Reaches}
use yfs_lab.Rpcs.Dispatch.{
  header, body, verdict, resent, dispatch_new, dispatch_duplicate, dispatch_null_pointer,
}

abbrev zeros : Cells
zeros i = 0

-- A request with xid 1 for procedure 2 from the client `clt` to the server `srv`.
abbrev request : ℕ → ℕ → Cells
request clt srv i =
    if i == 7 then 1 else if i == 11 then 2 else if i == 15 then clt else if i == 19 then srv else 0

-- The object counts its calls.
abbrev count_call : Handler ℕ
count_call s u m = (pos 0, m, s + 1)

abbrev server : Rpcs ℕ
server = record (new_rpcs 0 77 0) {
  procs = λ p. if p == 2 then some count_call else none;
  refs = λ k. if k == 4 then 2 else 0;
}

-- Request 1 of client 9 is in progress.
abbrev busy : Rpcs ℕ
busy = record server { reply_window = λ c. if c == 9 then some (reply_t 1 ∷ []) else none }

abbrev dead_server : Rpcs ℕ
dead_server = record server { dead = λ k. true }

server-Reaches : Reaches server (header (request 9 0) 24) (body (request 9 0) 24) count_call
unfolding unpack_req_header unmarshall unpack rawbyte
server-Reaches = record { good = refl; young = refl; known = refl; client = λ e. cc e }

busy-Reaches : Reaches busy (header (request 9 0) 24) (body (request 9 0) 24) count_call
unfolding unpack_req_header unmarshall unpack rawbyte
busy-Reaches = record { good = refl; young = refl; known = refl; client = λ e. cc e }

dispatch_new_example :
    let h = header (request 9 0) 24 in
    let rep = reply_of server h zeros count_call (body (request 9 0) 24) in
    (s' : Rpcs ℕ) × (dispatch server 4 (request 9 0) 24 zeros ≡ returns s')
    × (s'.app ≡ 1)
    × (s'.sent ≡ [] ++ (record { conn = 4; buf = rep.buf; sz = rep.ind } ∷ []))
    × ((x y : ℕ)
        → entry s'.reply_window x y
          ≡ entry
              (run server.reply_window (
                checked h.clt_nonce h.xid h.xid_rep
                ∷ replied h.clt_nonce h.xid rep.buf rep.ind
                ∷ []))
              x
              y)
unfolding unpack_req_header unmarshall unpack rawbyte checkduplicate_and_update classify
    remove_confirmed find_reply
dispatch_new_example =
    dispatch_new server 4 (request 9 0) 24 zeros count_call server-Reaches refl refl

dispatch_duplicate_example :
    let h = header (request 9 0) 24 in
    (s' : Rpcs ℕ) × (dispatch busy 4 (request 9 0) 24 zeros ≡ returns s')
    × (s'.app ≡ 0)
    × (s'.sent ≡ [] ++ resent (verdict busy h) h 4 zeros (verdict busy h).stat)
    × ((x y : ℕ)
        → entry s'.reply_window x y
          ≡ entry (run busy.reply_window (checked h.clt_nonce h.xid h.xid_rep ∷ [])) x y)
unfolding unpack_req_header unmarshall unpack rawbyte checkduplicate_and_update classify
    remove_confirmed find_reply
dispatch_duplicate_example =
    dispatch_duplicate busy 4 (request 9 0) 24 zeros count_call busy-Reaches (λ e. cc e)

dispatch_null_pointer_example : dispatch dead_server 4 (request 0 0) 24 zeros ≡ aborts null_pointer
unfolding unpack_req_header unmarshall unpack rawbyte
dispatch_null_pointer_example =
    dispatch_null_pointer dead_server 4 (request 0 0) 24 zeros count_call refl refl refl refl refl
      refl refl

verdict_new : (verdict server (header (request 9 0) 24)).stat ≡ new
unfolding unpack_req_header unmarshall unpack rawbyte checkduplicate_and_update classify
    remove_confirmed find_reply
verdict_new = refl

served : (s' : Rpcs ℕ) × (dispatch server 4 (request 9 0) 24 zeros ≡ returns s')
served =
    let d =
      dispatch_new server 4 (request 9 0) 24 zeros count_call server-Reaches verdict_new refl in
    (d.0, d.1)

-- The listener holds connection 4, from which a request to another server comes.
abbrev misdirected : Djob
misdirected = record { buf = request 9 5; sz = 24; conn = 4 }

abbrev before : Serving ℕ
before = record {
  server = record server { refs = λ k. if 4 == k then 1 else 0 };
  jobs = [];
  running = [];
  leaked = λ k. 0;
}

abbrev serving_of : Outcome (Serving ℕ) → Serving ℕ
serving_of (returns s) = s
serving_of (aborts x) = before

abbrev with_job : Serving ℕ
with_job = serving_of (Histories.run before (arrived misdirected true ∷ []))

abbrev at_end : Serving ℕ
at_end = serving_of (Histories.run (delete_listener with_job (4 ∷ [])) (began 0 zeros ∷ []))

before-Sound : Sound (conn_refs (4 ∷ [])) (9 ∷ []) before
before-Sound = (
  tt,
  record { counts = λ k. ground arith; covered = refl; unused = λ k g. absurd (cc g); known = tt },
)

destroyed_leaves_example :
    ((end_server at_end.server).overdrawn ≡ false)
    × ((k : ℕ)
        → (end_server at_end.server).refs k ≡ saved_refs (9 ∷ []) at_end.server k + at_end.leaked k)
unfolding unpack_req_header unmarshall unpack rawbyte Histories.run Histories.step arrive got_pdu
    begin_job serve_begin close_conns send_bare
destroyed_leaves_example =
    destroyed_leaves (4 ∷ []) (9 ∷ []) before with_job at_end (arrived misdirected true ∷ [])
      (began 0 zeros ∷ []) (refl, tt) before-Sound ((refl, omega arith), tt) refl (tt, tt) refl refl
      refl

-- The listener holds connections 4 and 5. A request of client 9 comes from both; the dispatch of the
-- first one goes on when its connection has died, and answers on the other one.
abbrev two : Serving ℕ
two = record before { server = record server { refs = conn_refs (4 ∷ 5 ∷ []) } }

abbrev first_copy : Djob
first_copy = record { buf = request 9 0; sz = 24; conn = 4 }

abbrev second_copy : Djob
second_copy = record { buf = request 9 0; sz = 24; conn = 5 }

abbrev swapping : List Event
swapping =
    arrived first_copy true
    ∷ arrived second_copy true
    ∷ began 0 zeros
    ∷ began 0 zeros
    ∷ died 4
    ∷ ended 1
    ∷ []

abbrev swapped : Serving ℕ
swapped = serving_of (Histories.run two swapping)

abbrev conns_of : List Sent → List ℕ
conns_of [] = []
conns_of (x ∷ l) = x.conn ∷ conns_of l

answered_on_5 : conns_of swapped.server.sent ≡ 5 ∷ []
unfolding unpack_req_header unmarshall unpack rawbyte Histories.run Histories.step arrive got_pdu
    begin_job serve_begin end_job serve_end admit know_client save_conn act run_handler answer
    record_reply latest_conn checkduplicate_and_update classify remove_confirmed find_reply
    add_reply
answered_on_5 = refl

two-Sound : Sound (conn_refs (4 ∷ 5 ∷ [])) (9 ∷ []) two
two-Sound = (
  tt,
  record { counts = λ k. ground arith; covered = refl; unused = λ k g. absurd (cc g); known = tt },
)

references_kept_example :
    (swapped.server.overdrawn ≡ false)
    × ((k : ℕ) → swapped.server.deleted k ≡ true → swapped.server.refs k ≡ 0)
    × ((k : ℕ)
        → swapped.server.refs k
          ≡ conn_refs (4 ∷ 5 ∷ []) k
            + job_refs swapped.jobs k
            + running_refs swapped.running k
            + saved_refs (9 ∷ []) swapped.server k
            + swapped.leaked k)
unfolding unpack_req_header unmarshall unpack rawbyte Histories.run Histories.step arrive got_pdu
    begin_job serve_begin end_job serve_end admit know_client save_conn act run_handler answer
    record_reply latest_conn checkduplicate_and_update classify remove_confirmed find_reply
    add_reply
references_kept_example =
    references_kept (conn_refs (4 ∷ 5 ∷ [])) (9 ∷ []) (refl, tt) two swapped swapping two-Sound
      ((refl, omega arith), ((refl, omega arith), (tt, (tt, (tt, (tt, tt)))))) refl
