-- ===== src/Rpcs/Histories/References.antt =====
-- No reference is lost in a history of a server, but for requests to another instance.
use yfs_lab.Prelude.{
  ℕ, zero, suc, ◌+◌, ◌≤◌, ◌≡◌, refl, sym, ap, ◌∙◌, subst, List, [], ◌∷◌, ◌++◌, Bool, true, false,
  ◌||◌, Option, none, some, some_inj, arith, All, ◌==◌, Bool-cases, Option-cases, ==→≡, inl, inr,
}
use yfs_lab.Prelude.Memory.{Cells}
use yfs_lab.Prelude.Outcome.{OnReturn}
use yfs_lab.Marshall.{ReqHeader}
use yfs_lab.Unmarshall.{Unmarshall, unmarshall, unpack_req_header}
use yfs_lab.Rpcs.Accounts.{
  one_if, held, admit_account, act_account, admit_overdrawn, act_overdrawn, IsUnused,
  admit-IsUnused, act-IsUnused, decref-IsUnused,
}
use yfs_lab.Rpcs.{
  Rpcs, Handler, Outcome, returns, aborts, ◌>>=◌, incref, decref, save_conn, know_client, admit,
  act, serve, is_old, got_pdu, send_bare,
}
use yfs_lab.Rpcs.Histories.{
  Djob, client_of, item_at, remove_item, Event, arrived, began, ended, died, Pending, Begun,
  returned, left, goes_on, Serving, arrive, serve_begin, behind_begin, begin_job, serve_end,
  end_job, kill,
}

abbrev has : ℕ → List ℕ → Bool
has c [] = false
has c (d ∷ ds) = (c == d) || has c ds

abbrev pub Distinct : List ℕ → Type 0
Distinct [] = Unit
Distinct (c ∷ cs) = (has c cs ≡ false) × Distinct cs

-- The references of the jobs, and of the dispatches that run.
abbrev pub job_refs : List Djob → ℕ → ℕ
job_refs [] k = 0
job_refs (j ∷ js) k = one_if j.conn k + job_refs js k

abbrev pub running_refs : {S : Type 0} → List (Pending S) → ℕ → ℕ
running_refs [] k = 0
running_refs (p ∷ ps) k = one_if p.conn k + running_refs ps k

job_refs-append :
    (js : List Djob) (j : Djob) (k : ℕ)
    → job_refs (js ++ (j ∷ [])) k ≡ job_refs js k + one_if j.conn k
job_refs-append [] j k = omega arith
job_refs-append (x ∷ js) j k = omega (arith, job_refs-append js j k)

job_refs-remove :
    (i : ℕ) (js : List Djob) (j : Djob) (k : ℕ)
    → item_at i js ≡ some j
    → job_refs js k ≡ one_if j.conn k + job_refs (remove_item i js) k
job_refs-remove i [] j k e = absurd (cc e)
job_refs-remove zero (x ∷ js) j k e = rw (some_inj e) refl
job_refs-remove (suc i) (x ∷ js) j k e = omega (arith, job_refs-remove i js j k e)

running_refs-remove :
    {S : Type 0} (i : ℕ) (ps : List (Pending S)) (p : Pending S) (k : ℕ)
    → item_at i ps ≡ some p
    → running_refs ps k ≡ one_if p.conn k + running_refs (remove_item i ps) k
running_refs-remove i [] p k e = absurd (cc e)
running_refs-remove zero (x ∷ ps) p k e = rw (some_inj e) refl
running_refs-remove (suc i) (x ∷ ps) p k e = omega (arith, running_refs-remove i ps p k e)

-- The clients of the jobs and of the messages that come in.
abbrev pub IsKnown : List ℕ → Djob → Type 0
IsKnown cs j = has (client_of j) cs ≡ true

-- A message comes from a connection to which others hold a reference.
abbrev pub KnownEvent : (ℕ → ℕ) → List ℕ → Event → Type 0
KnownEvent others cs (arrived j succ) = IsKnown cs j × (1 ≤ others j.conn)
KnownEvent others cs (began i junk) = Unit
KnownEvent others cs (ended i) = Unit
KnownEvent others cs (died c) = Unit

abbrev pub IsPending : {S : Type 0} → List ℕ → Pending S → Type 0
IsPending cs p = has p.header.clt_nonce cs ≡ true

pending-at :
    {S : Type 0} (cs : List ℕ) (i : ℕ) (ps : List (Pending S)) (p : Pending S)
    → item_at i ps ≡ some p
    → All (IsPending cs) ps
    → IsPending cs p × All (IsPending cs) (remove_item i ps)
pending-at cs i [] p e a = absurd (cc e)
pending-at cs zero (x ∷ ps) p e a = (subst (IsPending cs) (some_inj e) a.0, a.1)
pending-at cs (suc i) (x ∷ ps) p e a =
    let rest = pending-at cs i ps p e a.1 in (rest.0, (a.0, rest.1))

pub one_of : (c : ℕ) → one_if c c ≡ 1
one_of c = ground arith

module _ {S : Type 0} where
  -- The references of `conns_` for these clients.
  abbrev pub saved_refs : List ℕ → Rpcs S → ℕ → ℕ
  saved_refs [] s k = 0
  saved_refs (c ∷ cs) s k = held s c k + saved_refs cs s k

  saved_refs-same :
      (cs : List ℕ) (s s' : Rpcs S) (k c : ℕ)
      → ((y : ℕ) → (c == y) ≡ false → s'.conns y ≡ s.conns y)
      → has c cs ≡ false
      → saved_refs cs s' k ≡ saved_refs cs s k
  saved_refs-same [] s s' k c same n = refl
  saved_refs-same (d ∷ cs) s s' k c same n = omega (
    arith,
    ap (λ o. elim o as (λ x. ℕ) [ none ↦ 0 | some x ↦ one_if x k ]) (same d (ground (arith, n))),
    saved_refs-same cs s s' k c same (ground (arith, n)),
  )

  pub saved_conns :
      (cs : List ℕ) (s s' : Rpcs S) (k : ℕ)
      → s'.conns ≡ s.conns
      → saved_refs cs s' k ≡ saved_refs cs s k
  saved_conns [] s s' k e = refl
  saved_conns (c ∷ cs) s s' k e = omega (
    arith,
    ap (λ x. elim (x c) as (λ y. ℕ) [ none ↦ 0 | some d ↦ one_if d k ]) e,
    saved_conns cs s s' k e,
  )

  saved_refs-change :
      (cs : List ℕ) (s s' : Rpcs S) (k c : ℕ)
      → ((y : ℕ) → (c == y) ≡ false → s'.conns y ≡ s.conns y)
      → Distinct cs
      → has c cs ≡ true
      → (saved_refs cs s' k + held s c k ≡ saved_refs cs s k + held s' c k)
        × (held s c k ≤ saved_refs cs s k)
  saved_refs-change [] s s' k c same u m = absurd (cc m)
  saved_refs-change (d ∷ cs) s s' k c same u m = elim (Bool-cases (c == d)) [
    | inl y ↦
        let e = ==→≡ c d y in
        let rest = saved_refs-same cs s s' k c same (subst (λ x. has x cs ≡ false) (sym e) u.0) in
        rw e (omega (arith, rest), omega arith)
    | inr n ↦
        let there : has c cs ≡ true = ground (arith, n, m) in
        let rest = saved_refs-change cs s s' k c same u.1 there in
        let kept = ap (λ o. elim o as (λ x. ℕ) [ none ↦ 0 | some x ↦ one_if x k ]) (same d n) in
        (omega (arith, rest, kept), omega (arith, rest))
  ]

  admit_conns :
      (s : Rpcs S) (h : ReqHeader) (c y : ℕ)
      → (h.clt_nonce == y) ≡ false
      → (admit s h c).1.conns y ≡ s.conns y
  unfolding admit save_conn know_client
  admit_conns s h c y n = ground arith

  -- A dispatch is its two steps, one behind the other.
  abbrev finish : Begun S → Outcome (Rpcs S)
  finish (returned s) = returns s
  finish (left s) = returns s
  finish (goes_on p s) = serve_end s p

  pub finish-serve_begin :
      (s : Rpcs S) (c : ℕ) (h : ReqHeader) (req : Unmarshall) (junk : Cells)
      → finish (serve_begin s c h req junk) ≡ serve s c h req junk
  unfolding serve_begin serve serve_end
  finish-serve_begin s c h req junk = elim (Bool-cases req.is_ok) [
    | inr bad ↦ rw (serve_begin, serve, bad) refl
    | inl good ↦ elim (Bool-cases (is_old s h)) [
      | inl old ↦ rw (serve_begin, serve, good, old) refl
      | inr young ↦ elim (Option-cases (s.procs h.proc)) [
        | inl e ↦ rw (serve_begin, serve, good, young, e) refl
        | inr (f, e) ↦ rw (serve_begin, serve, good, young, e) refl
      ]
    ]
  ]

  -- The count of each connection: what others hold, the references of the jobs, of the dispatches that
  -- run and of `conns_`, and those that were left behind. No assert on a count has failed, no deleted
  -- connection has a reference, and the dispatches that run are of these clients.
  pub record IsAccounted (others : ℕ → ℕ) (cs : List ℕ) (s : Serving S) : Type 0 where
    pub counts :
        (k : ℕ)
        → s.server.refs k
          ≡ others k
            + job_refs s.jobs k
            + running_refs s.running k
            + saved_refs cs s.server k
            + s.leaked k
    pub covered : s.server.overdrawn ≡ false
    pub unused : (k : ℕ) → IsUnused s.server k
    pub known : All (IsPending cs) s.running

  module _ (others : ℕ → ℕ) (cs : List ℕ) (distinct : Distinct cs) where
    pub arrive-IsAccounted :
        (s : Serving S) (j : Djob) (succ : Bool)
        → 1 ≤ others j.conn
        → IsAccounted others cs s
        → IsAccounted others cs (arrive s j succ)
    unfolding arrive got_pdu
    arrive-IsAccounted s j true h a = record {
      counts = λ k. ground (
        arith,
        a.counts k,
        job_refs-append s.jobs j k,
        saved_conns cs s.server (incref s.server j.conn) k refl,
      );
      covered = a.covered;
      unused = λ k g. ground (arith, h, a.counts k, a.unused k);
      known = a.known;
    }
    arrive-IsAccounted s j false h a = record {
      counts = λ k. ground (
        arith,
        a.counts k,
        saved_conns cs s.server (decref (incref s.server j.conn) j.conn) k refl,
      );
      covered = ground (arith, a.covered);
      unused = λ k.
          decref-IsUnused (incref s.server j.conn) j.conn k
            (λ g. ground (arith, h, a.counts k, a.unused k));
      known = a.known;
    }

    module _ (s : Serving S) (i : ℕ) (j : Djob) (at : item_at i s.jobs ≡ some j)
        (a : IsAccounted others cs s) where
      -- A dispatch that gives the reference of its job back at once.
      given_back : IsAccounted others cs (behind_begin s i j (returned (decref s.server j.conn)))
      given_back =
          let there = λ (k : ℕ). job_refs-remove i s.jobs j k at in
          record {
            counts = λ k. ground (
              arith,
              a.counts k,
              there k,
              saved_conns cs s.server (decref s.server j.conn) k refl,
            );
            covered = ground (arith, a.covered, a.counts j.conn, there j.conn, one_of j.conn);
            unused = λ k. decref-IsUnused s.server j.conn k (a.unused k);
            known = a.known;
          }

      left_behind :
          (server : Rpcs S)
          → server.refs ≡ s.server.refs
          → server.conns ≡ s.server.conns
          → server.overdrawn ≡ s.server.overdrawn
          → server.deleted ≡ s.server.deleted
          → IsAccounted others cs (behind_begin s i j (left server))
      left_behind server refs conns same gone = record {
        counts = λ k. omega (
          arith,
          a.counts k,
          job_refs-remove i s.jobs j k at,
          saved_conns cs s.server server k conns,
          ap (λ f. f k) refs,
        );
        covered = same ∙ a.covered;
        unused = λ k g. ap (λ f. f k) refs ∙ a.unused k (sym (ap (λ f. f k) gone) ∙ g);
        known = a.known;
      }

      -- A dispatch that goes on to its switch keeps the reference of its job.
      admitted :
          (h : ReqHeader) (p : Pending S)
          → p.conn ≡ j.conn
          → p.header ≡ h
          → has h.clt_nonce cs ≡ true
          → IsAccounted others cs (behind_begin s i j (goes_on p (admit s.server h j.conn).1))
      admitted h p same mine known =
          let least = λ (k : ℕ).
            (saved_refs-change cs s.server s.server k h.clt_nonce (λ y n. refl) distinct known).1 in
          let enough : (k : ℕ) → held s.server h.clt_nonce k ≤ s.server.refs k =
            λ k. omega (arith, a.counts k, least k) in
          record {
            counts = λ k.
                let saved =
                  saved_refs-change cs s.server (admit s.server h j.conn).1 k h.clt_nonce
                    (λ y n. admit_conns s.server h j.conn y n) distinct known in
                omega (
                  arith,
                  a.counts k,
                  job_refs-remove i s.jobs j k at,
                  ap (λ c. one_if c k) same,
                  admit_account s.server h j.conn k (enough k),
                  saved.0,
                  least k,
                );
            covered = admit_overdrawn s.server h j.conn enough ∙ a.covered;
            unused = λ k.
                admit-IsUnused s.server h j.conn k
                  (omega (arith, a.counts k, job_refs-remove i s.jobs j k at)) (a.unused k);
            known = (ap (λ x. has x.clt_nonce cs) mine ∙ known, a.known);
          }

      begun :
          (h : ReqHeader) (req : Unmarshall) (junk : Cells)
          → has h.clt_nonce cs ≡ true
          → IsAccounted others cs (behind_begin s i j (serve_begin s.server j.conn h req junk))
      unfolding serve_begin send_bare
      begun h req junk known = elim (Bool-cases req.is_ok) [
        | inr bad ↦ rw (serve_begin, bad) given_back
        | inl good ↦ elim (Bool-cases (is_old s.server h)) [
          | inl old ↦ rw (serve_begin, good, old) (left_behind _ refl refl refl refl)
          | inr young ↦ rw (serve_begin, good, young) (by_handler (s.server.procs h.proc))
        ]
      ]
        where
          by_handler :
              (o : Option (Handler S))
              → IsAccounted others cs (
                  behind_begin s i j (elim o as (λ x. Begun S) [
                    | none ↦ returned (decref s.server j.conn)
                    | some f ↦
                        goes_on
                          (record {
                            conn = j.conn;
                            header = h;
                            junk = junk;
                            fn = f;
                            req = req;
                            verdict = (admit s.server h j.conn).0;
                          })
                          (admit s.server h j.conn).1
                  ]))
          by_handler none = given_back
          by_handler (some f) = admitted h _ refl refl known

    pub begin_job-IsAccounted :
        (s : Serving S) (i : ℕ) (j : Djob) (junk : Cells)
        → item_at i s.jobs ≡ some j
        → IsKnown cs j
        → IsAccounted others cs s
        → IsAccounted others cs (begin_job s i j junk)
    unfolding begin_job
    begin_job-IsAccounted s i j junk at known a =
        let (h, req) = unpack_req_header (unmarshall j.buf j.sz) in
        begun s i j at a h req junk known

    -- The state behind a dispatch that returned from its switch.
    abbrev behind_end : Serving S → ℕ → Rpcs S → Serving S
    behind_end s i server = record s { server = server; running = remove_item i s.running }

    pub end_job-IsAccounted :
        (s : Serving S) (i : ℕ) (p : Pending S)
        → item_at i s.running ≡ some p
        → IsAccounted others cs s
        → OnReturn (IsAccounted others cs) (end_job s i p)
    unfolding end_job serve_end
    end_job-IsAccounted s i p at a =
        by_outcome (act s.server p.header p.conn p.junk p.fn p.req p.verdict) refl
      where
        by_outcome :
            (o : Outcome (ℕ × Rpcs S))
            → act s.server p.header p.conn p.junk p.fn p.req p.verdict ≡ o
            → OnReturn (IsAccounted others cs) (
                (o >>= λ r. returns (decref r.1 r.0)) >>= λ server. returns (behind_end s i server))
        by_outcome (aborts x) e = tt
        by_outcome (returns (d, t)) e =
            let there = λ (k : ℕ). running_refs-remove i s.running p k at in
            let mine = pending-at cs i s.running p at a.known in
            let least = λ (k : ℕ).
              (saved_refs-change cs s.server s.server k p.header.clt_nonce (λ y n. refl) distinct
                mine.0).1 in
            let enough : (k : ℕ) → one_if p.conn k ≤ s.server.refs k =
              λ k. omega (arith, a.counts k, there k) in
            let acc = λ (k : ℕ).
              act_account s.server p.header p.conn p.junk p.fn p.req p.verdict d t k p.verdict.stat
                refl e (enough k) in
            let over =
              act_overdrawn s.server p.header p.conn p.junk p.fn p.req p.verdict d t p.verdict.stat
                refl e (enough p.conn) in
            record {
              counts = λ k. ground (
                arith,
                a.counts k,
                there k,
                (acc k).0,
                saved_conns cs s.server (decref t d) k (acc k).1,
              );
              covered = ground (arith, a.covered, over, (acc d).0, a.counts d, there d, one_of d);
              unused = λ k. decref-IsUnused t d k (
                  act-IsUnused s.server p.header p.conn p.junk p.fn p.req p.verdict d t k
                    p.verdict.stat refl e (omega (arith, a.counts k, least k)) (a.unused k));
              known = mine.1;
            }

    pub kill-IsAccounted :
        (s : Serving S) (c : ℕ)
        → IsAccounted others cs s
        → IsAccounted others cs (record s { server = kill s.server c })
    kill-IsAccounted s c a = record {
      counts = λ k.
          a.counts k
          ∙ ap (λ n. others k + job_refs s.jobs k + running_refs s.running k + n + s.leaked k)
              (sym (saved_conns cs s.server (kill s.server c) k refl));
      covered = a.covered;
      unused = a.unused;
      known = a.known;
    }
