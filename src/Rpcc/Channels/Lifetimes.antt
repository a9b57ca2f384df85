-- ===== src/Rpcc/Channels/Lifetimes.antt =====
-- Every connection of a client lives as long as something points to it.
use yfs_lab.Prelude.{
  ℕ, ◌≡◌, ◌<◌, ◌⊎◌, refl, sym, ap, ◌∙◌, subst, List, [], ◌∷◌, true, false, Option, none, some,
  arith, Option-cases, inl, inr, ==→≡,
}
use yfs_lab.Prelude.Outcome.{
  returns, WillReturn, will-then, will-returns, OnReturn, will-on, returns_inj,
}
use yfs_lab.Connection.{Connection}
use yfs_lab.Rpcc.Channels.{Store, Channels, channels, Thread, destroy_rpcc}
use yfs_lab.Rpcc.Channels.Counts.{AllFit-ext, at, made, put-AllFit}
use yfs_lab.Rpcc.Channels.Balance.{points, chan_and, Deleted, destroy_rpcc-deletes}
use yfs_lab.Rpcc.Channels.Histories.{
  Act, refers, begins_send, ends_send, takes_out, leaves, Event, entered, acted, changed, thread_at,
  act, change, step, run, refs, senders, IsBalanced,
}
use yfs_lab.Rpcc.Channels.Acting.{
  AllowedAct, Allowed, refer-IsBalanced, begin_send-IsBalanced, end_send-IsBalanced,
  erase_call-IsBalanced, leave-IsBalanced,
}

act-IsBalanced :
    (r : Channels) (i : ℕ) (t : Thread) (a : Act)
    → thread_at i r.threads ≡ some t
    → AllowedAct r i a
    → IsBalanced r
    → WillReturn IsBalanced (act r i t a)
unfolding act
act-IsBalanced r i t (refers connects) e allowed h =
    refer-IsBalanced r i t e h connects t.place refl
act-IsBalanced r i t begins_send e allowed h = begin_send-IsBalanced r i t e h t.ch t.place refl
act-IsBalanced r i t ends_send e allowed h = end_send-IsBalanced r i t e h t.place allowed
act-IsBalanced r i t takes_out e allowed h = erase_call-IsBalanced r i t e h t.place refl
act-IsBalanced r i t leaves e allowed h = leave-IsBalanced r i t e h t.place refl

-- Every event that is allowed returns, and keeps the counts.
step-IsBalanced :
    (r : Channels) (e : Event) → Allowed r e → IsBalanced r → WillReturn IsBalanced (step r e)
unfolding step change
step-IsBalanced r entered a h =
    AllFit-ext r.store r.next _ _ _ _ _ _ (λ y. (omega arith, omega arith, refl)) h
step-IsBalanced r (acted i a) allowed h = elim (Option-cases (thread_at i r.threads)) [
  | inl e ↦ rw (step, e) h
  | inr (t, e) ↦ rw (step, e) (act-IsBalanced r i t a e allowed h)
]
step-IsBalanced r (changed k c) allowed h = elim (Option-cases (r.store k)) [
  | inl e ↦ rw (step, change, e) h
  | inr (before, e) ↦
      let n = chan_and r.chan (refs r.threads) in
      let v = at r.store r.next n _ _ h k before e in
      let (same, dies, idle) = allowed before e in
      rw (step, change, e)
        (put-AllFit r.store r.next n (senders r.threads) (points r.chan) h k r.next (some c) n
          (senders r.threads) (points r.chan) (made r.store r.next n _ _ h k before e) (omega arith)
          (record {
            count = same ∙ v.count;
            some_left = v.some_left;
            alive = elim v.alive [ inl p ↦ inl p | inr d ↦ inr (dies d) ];
            idle = idle;
          })
          (λ y ne. (refl, refl, refl)))
]

-- Each event is allowed where it happens.
abbrev pub AllAllowed : Channels → List Event → Type 0
AllAllowed r [] = Unit
AllAllowed r (e ∷ es) = Allowed r e × OnReturn (λ r'. AllAllowed r' es) (step r e)

run-IsBalanced :
    (r : Channels) (es : List Event)
    → AllAllowed r es
    → IsBalanced r
    → WillReturn IsBalanced (run r es)
unfolding run
run-IsBalanced r [] a h = h
run-IsBalanced r (e ∷ es) a h =
    will-then (λ r'. IsBalanced r' × AllAllowed r' es) IsBalanced (step r e) _
      (will-on IsBalanced (λ r'. AllAllowed r' es) (step r e) (step-IsBalanced r e a.0 h) a.1)
      (λ r' p. run-IsBalanced r' es p.1 p.0)

new-IsBalanced : IsBalanced channels
unfolding channels
new-IsBalanced = λ y. (omega arith, λ le. refl)

-- Whatever allowed events happen at a new client, none of them uses a deleted connection or fails an
-- assertion, and behind them the count of each connection that is left is the number of pointers to
-- it, from chan_ and from the threads in call1, and is not 0; no pointer is to a deleted connection.
pub run_counts :
    (es : List Event)
    → AllAllowed channels es
    → (r : Channels) × (run channels es ≡ returns r) × IsBalanced r
run_counts es a =
    will-returns IsBalanced (run channels es) (run-IsBalanced channels es a new-IsBalanced)

only_chan :
    (r : Channels) (y : ℕ) (c : Connection)
    → IsBalanced r
    → r.store y ≡ some c
    → c.dead ≡ false
    → r.chan ≡ some y
only_chan r y c h e d = by_chan r.chan (at r.store r.next _ _ (points r.chan) h y c e).alive
  where
    by_chan : (o : Option ℕ) → (0 < points o y) ⊎ (c.dead ≡ true) → o ≡ some y
    by_chan none l = absurd (ground (arith, l, d))
    by_chan (some k) l = ap some (==→≡ k y (ground (arith, l, d)))

-- After allowed events at a new client, at most one connection that is left is alive, and it is chan_.
pub run_one_alive :
    (es : List Event) (r : Channels) (y : ℕ) (c : Connection)
    → AllAllowed channels es
    → run channels es ≡ returns r
    → r.store y ≡ some c
    → c.dead ≡ false
    → r.chan ≡ some y
run_one_alive es r y c a e =
    let (r', e', h) = run_counts es a in
    let same = returns_inj (sym e' ∙ e) in only_chan r y c (subst IsBalanced same h)

-- Where no thread is left in call1 after allowed events at a new client, its destructor returns, and
-- every connection that the client ever made is deleted.
pub destroyed_all :
    (es : List Event) (r : Channels)
    → AllAllowed channels es
    → run channels es ≡ returns r
    → r.threads ≡ []
    → (s : Store) × (destroy_rpcc r ≡ returns s) × ((y : ℕ) → s y ≡ none)
destroyed_all es r a e idle =
    let (r', e', h) = run_counts es a in
    let balanced = subst IsBalanced (returns_inj (sym e' ∙ e)) h in
    will-returns Deleted (destroy_rpcc r) (
      destroy_rpcc-deletes r idle (
        AllFit-ext r.store r.next _ _ _ _ _ _
          (λ y. (ap (λ ts. chan_and r.chan (refs ts) y) idle, ap (λ ts. senders ts y) idle, refl))
          balanced))
