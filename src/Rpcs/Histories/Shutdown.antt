-- ===== src/Rpcs/Histories/Shutdown.antt =====
-- The references of a server from its start to its end.
use yfs_lab.Prelude.{
  ℕ, zero, suc, ◌+◌, ◌-◌, ◌≤◌, ◌≡◌, refl, ap, subst, List, [], ◌∷◌, ◌++◌, Bool, true, false, some,
  some_inj, arith, All, Option-cases, inl, inr,
}
use yfs_lab.Prelude.Memory.{Cells}
use yfs_lab.Prelude.Outcome.{OnReturn, on-then, on-each, on-and, on-returns}
use yfs_lab.Rpcs.Accounts.{one_if, IsUnused, decref-IsUnused}
use yfs_lab.Rpcs.{Rpcs, returns, decref, got_pdu}
use yfs_lab.Rpcs.Histories.{
  Djob, item_at, remove_item, Event, arrived, began, ended, died, Pending, Begun, returned, left,
  goes_on, Serving, arrive, behind_begin, begin_job, serve_end, end_job, kill, step, run,
  close_conns, delete_listener, end_server,
}
use yfs_lab.Rpcs.Histories.References.{
  Distinct, IsKnown, KnownEvent, job_refs, running_refs, saved_refs, saved_conns, one_of,
  IsAccounted, arrive-IsAccounted, begin_job-IsAccounted, end_job-IsAccounted, kill-IsAccounted,
}

append-IsKnown :
    (cs : List ℕ) (js : List Djob) (j : Djob)
    → All (IsKnown cs) js
    → IsKnown cs j
    → All (IsKnown cs) (js ++ (j ∷ []))
append-IsKnown cs [] j a k = (k, tt)
append-IsKnown cs (x ∷ js) j a k = (a.0, append-IsKnown cs js j a.1 k)

remove-IsKnown :
    (cs : List ℕ) (i : ℕ) (js : List Djob)
    → All (IsKnown cs) js
    → All (IsKnown cs) (remove_item i js)
remove-IsKnown cs i [] a = tt
remove-IsKnown cs zero (x ∷ js) a = a.1
remove-IsKnown cs (suc i) (x ∷ js) a = (a.0, remove-IsKnown cs i js a.1)

IsKnown-at :
    (cs : List ℕ) (i : ℕ) (js : List Djob) (j : Djob)
    → item_at i js ≡ some j
    → All (IsKnown cs) js
    → IsKnown cs j
IsKnown-at cs i [] j e a = absurd (cc e)
IsKnown-at cs zero (x ∷ js) j e a = subst (IsKnown cs) (some_inj e) a.0
IsKnown-at cs (suc i) (x ∷ js) j e a = IsKnown-at cs i js j e a.1

-- Its jobs are of these clients, and its references are accounted for.
abbrev pub Sound : {S : Type 0} → (ℕ → ℕ) → List ℕ → Serving S → Type 0
Sound others cs s = All (IsKnown cs) s.jobs × IsAccounted others cs s

module _ {S : Type 0} (others : ℕ → ℕ) (cs : List ℕ) (distinct : Distinct cs) where
  begin-jobs :
      (s : Serving S) (i : ℕ) (j : Djob) (b : Begun S)
      → All (IsKnown cs) s.jobs
      → All (IsKnown cs) (behind_begin s i j b).jobs
  begin-jobs s i j (returned server) k = remove-IsKnown cs i s.jobs k
  begin-jobs s i j (left server) k = remove-IsKnown cs i s.jobs k
  begin-jobs s i j (goes_on p server) k = remove-IsKnown cs i s.jobs k

  begin_job-jobs :
      (s : Serving S) (i : ℕ) (j : Djob) (junk : Cells)
      → All (IsKnown cs) s.jobs
      → All (IsKnown cs) (begin_job s i j junk).jobs
  unfolding begin_job
  begin_job-jobs s i j junk k = begin-jobs s i j _ k

  end_job-jobs :
      (s : Serving S) (i : ℕ) (p : Pending S)
      → All (IsKnown cs) s.jobs
      → OnReturn (λ s'. All (IsKnown cs) s'.jobs) (end_job s i p)
  unfolding end_job
  end_job-jobs s i p k =
      on-each (λ s'. All (IsKnown cs) s'.jobs) (serve_end s.server p) _ (λ server. k)

  arrive-jobs :
      (s : Serving S) (j : Djob) (succ : Bool)
      → IsKnown cs j
      → All (IsKnown cs) s.jobs
      → All (IsKnown cs) (arrive s j succ).jobs
  unfolding arrive got_pdu
  arrive-jobs s j true known k = append-IsKnown cs s.jobs j k known
  arrive-jobs s j false known k = k

  step-Sound :
      (s : Serving S) (e : Event)
      → KnownEvent others cs e
      → Sound others cs s
      → OnReturn (Sound others cs) (step s e)
  unfolding step
  step-Sound s (arrived j succ) k v =
      (arrive-jobs s j succ k.0 v.0, arrive-IsAccounted others cs distinct s j succ k.1 v.1)
  step-Sound s (began i junk) k v = elim (Option-cases (item_at i s.jobs)) [
    | inl e ↦ rw (step, e) v
    | inr (j, e) ↦
        rw (step, e)
          (
            begin_job-jobs s i j junk v.0,
            begin_job-IsAccounted others cs distinct s i j junk e (IsKnown-at cs i s.jobs j e v.0)
                v.1,
          )
  ]
  step-Sound s (ended i) k v = elim (Option-cases (item_at i s.running)) [
    | inl e ↦ rw (step, e) v
    | inr (p, e) ↦
        rw (step, e)
          (on-and (λ s'. All (IsKnown cs) s'.jobs) (IsAccounted others cs) (end_job s i p)
            (end_job-jobs s i p v.0) (end_job-IsAccounted others cs distinct s i p e v.1))
  ]
  step-Sound s (died c) k v = (v.0, kill-IsAccounted others cs distinct s c v.1)

  pub run-Sound :
      (s : Serving S) (es : List Event)
      → All (KnownEvent others cs) es
      → Sound others cs s
      → OnReturn (Sound others cs) (run s es)
  unfolding run
  run-Sound s [] k v = v
  run-Sound s (e ∷ es) k v =
      on-then (Sound others cs) (Sound others cs) (step s e) _ (step-Sound s e k.0 v)
        (λ s' w. run-Sound s' es k.1 w)

  -- In every history of a server whose references are accounted for, in which messages come in,
  -- connections die, and dispatches run side by side, each in a step up to its switch and one behind
  -- it, with the clients of the jobs and messages among `cs`, and with messages only from connections
  -- to which others hold a reference: as long as no dispatch ends the process,
  -- the count of each connection is what others hold, with one for each job of it, one for each
  -- dispatch that runs on it, one for each client whose saved connection it is, and one for each
  -- request to another instance of the server that was dispatched from it; no assert on a count has
  -- failed, and a deleted connection has no reference.
  pub references_kept :
      (s s' : Serving S) (es : List Event)
      → Sound others cs s
      → All (KnownEvent others cs) es
      → run s es ≡ returns s'
      → (s'.server.overdrawn ≡ false)
        × ((k : ℕ) → s'.server.deleted k ≡ true → s'.server.refs k ≡ 0)
        × ((k : ℕ)
            → s'.server.refs k
              ≡ others k
                + job_refs s'.jobs k
                + running_refs s'.running k
                + saved_refs cs s'.server k
                + s'.leaked k)
  references_kept s s' es v k e =
      let w = (on-returns (Sound others cs) (run s es) s' (run-Sound s es k v) e).1 in
      (w.covered, w.unused, w.counts)

-- The references of the listener.
abbrev pub conn_refs : List ℕ → ℕ → ℕ
conn_refs [] k = 0
conn_refs (c ∷ l) k = one_if c k + conn_refs l k

close_conns-refs :
    {S : Type 0} (l : List ℕ) (s : Rpcs S) (k : ℕ)
    → ((close_conns l s).refs k ≡ s.refs k - conn_refs l k) × ((close_conns l s).conns ≡ s.conns)
unfolding close_conns
close_conns-refs [] s k = (omega arith, refl)
close_conns-refs (c ∷ l) s k =
    let h = close_conns-refs l (decref (kill s c) c) k in (ground (arith, h.0), h.1)

close_conns-covered :
    {S : Type 0} (l : List ℕ) (s : Rpcs S)
    → s.overdrawn ≡ false
    → ((k : ℕ) → conn_refs l k ≤ s.refs k)
    → (close_conns l s).overdrawn ≡ false
unfolding close_conns
close_conns-covered [] s e le = e
close_conns-covered (c ∷ l) s e le =
    close_conns-covered l (decref (kill s c) c) (ground (arith, e, le c, one_of c))
      (λ k. ground (arith, le k))

close_conns-IsUnused :
    {S : Type 0} (l : List ℕ) (s : Rpcs S) (k : ℕ) → IsUnused s k → IsUnused (close_conns l s) k
unfolding close_conns
close_conns-IsUnused [] s k u = u
close_conns-IsUnused (c ∷ l) s k u =
    close_conns-IsUnused l (decref (kill s c) c) k (decref-IsUnused (kill s c) c k u)

-- In a history of a server whose messages come from the connections of its listener, when the
-- destructor has closed these and the threads of the pool have run the jobs and the dispatches that
-- were left, with no new message, in any order and none of them ending the process: no assert on a
-- count has failed, and the references that are left are those of the saved connections, which the
-- destructor does not give back, and those of requests to another instance.
pub destroyed_leaves :
    {S : Type 0} (listeners cs : List ℕ) (s s1 s2 : Serving S) (es es' : List Event)
    → Distinct cs
    → Sound (conn_refs listeners) cs s
    → All (KnownEvent (conn_refs listeners) cs) es
    → run s es ≡ returns s1
    → All (KnownEvent (λ x. 0) cs) es'
    → run (delete_listener s1 listeners) es' ≡ returns s2
    → s2.jobs ≡ []
    → s2.running ≡ []
    → ((end_server s2.server).overdrawn ≡ false)
      × ((k : ℕ) → (end_server s2.server).refs k ≡ saved_refs cs s2.server k + s2.leaked k)
unfolding end_server
destroyed_leaves listeners cs s s1 s2 es es' distinct v k e k' e' idle quiet =
    let v1 =
      on-returns (Sound (conn_refs listeners) cs) (run s es) s1
        (run-Sound (conn_refs listeners) cs distinct s es k v) e in
    let closed : Sound (λ x. 0) cs (delete_listener s1 listeners) = (
      v1.0,
      record {
        counts = λ x.
            let c = close_conns-refs listeners s1.server x in
            omega (
              arith,
              c.0,
              v1.1.counts x,
              saved_conns cs s1.server (close_conns listeners s1.server) x c.1,
            );
        unused = λ x. close_conns-IsUnused listeners s1.server x (v1.1.unused x);
        known = v1.1.known;
        covered =
            close_conns-covered listeners s1.server v1.1.covered
              (λ x. omega (arith, v1.1.counts x));
      },
    ) in
    let kept =
      references_kept (λ x. 0) cs distinct (delete_listener s1 listeners) s2 es' closed k' e' in
    (
      kept.0,
      λ y. omega (arith, kept.2 y, ap (λ l. job_refs l y) idle, ap (λ l. running_refs l y) quiet),
    )
