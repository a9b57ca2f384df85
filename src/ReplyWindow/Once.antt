-- ===== src/ReplyWindow/Once.antt =====
-- Histories of one server's reply windows: how often a request is taken for new.
use native.Mathlib.Decide.{ℕ_discrete}
use yfs_lab.Prelude.{
  ℕ, ◌+◌, ◌≤◌, ◌<◌, ◌≡◌, ◌≢◌, refl, List, [], ◌∷◌, false, ◌&&◌, none, some, arith, All, ◌==◌,
  if◌then◌else◌, Bool-cases, inl, inr,
}
use yfs_lab.Prelude.Memory.{Cells}
use yfs_lab.ReplyWindow.{
  RpcState, new, inprogress, done, forgotten, Reply, reply_t, Windows, checkduplicate_and_update,
}
use yfs_lab.ReplyWindow.Checks.{
  entry, check_verdict, check_entry, after_reply, reply_entry, answered,
}

-- What the dispatch threads do to the windows, in the order of the lock.
pub data Event : Type 0 where
  checked : (clt xid xid_rep : ℕ) → Event
  replied : (clt xid : ℕ) (b : Cells) (sz : ℕ) → Event

abbrev pub step : Windows → Event → Windows
step w (checked c x r) = (checkduplicate_and_update w c x r).1
step w (replied c x b sz) = after_reply w c x b sz

unfoldable pub run : Windows → List Event → Windows
run w [] = w
run w (e ∷ es) = run (step w e) es

abbrev pub is_new : RpcState → ℕ
is_new new = 1
is_new inprogress = 0
is_new done = 0
is_new forgotten = 0

-- 1 where the event takes the request of `clt` with this `xid` for new, so that its handler runs.
abbrev pub starts_at : ℕ → ℕ → Windows → Event → ℕ
starts_at clt xid w (checked c x r) =
    if c == clt && x == xid then is_new (checkduplicate_and_update w c x r).0.stat else 0
starts_at clt xid w (replied c x b sz) = 0

unfoldable pub starts : ℕ → ℕ → Windows → List Event → ℕ
starts clt xid w [] = 0
starts clt xid w (e ∷ es) = starts_at clt xid w e + starts clt xid (step w e) es

-- The client does not confirm more than `xid` with the event.
abbrev pub Unconfirmed : ℕ → ℕ → Event → Type 0
Unconfirmed clt xid (checked c x r) = c ≡ clt → r ≤ xid
Unconfirmed clt xid (replied c x b sz) = Unit

-- No reply is saved for the request.
abbrev pub NotReplied : ℕ → ℕ → Event → Type 0
NotReplied clt xid (checked c x r) = Unit
NotReplied clt xid (replied c x b sz) = (c == clt && x == xid) ≡ false

abbrev pub Known : Windows → ℕ → ℕ → Type 0
Known w clt xid = (r : Reply) × (entry w clt xid ≡ some r)

step-Known :
    (w : Windows) (e : Event) (clt xid : ℕ)
    → Unconfirmed clt xid e
    → Known w clt xid
    → Known (step w e) clt xid
step-Known w (checked c x r) clt xid u (k, h) = (k, ground (arith, check_entry w c x r clt xid))
step-Known w (replied c x b sz) clt xid u (k, h) = (
  if c == clt && x == xid then answered k b sz else k,
  ground (arith, reply_entry w c x b sz clt xid),
)

Known-starts_at :
    (w : Windows) (e : Event) (clt xid : ℕ) → Known w clt xid → starts_at clt xid w e ≡ 0
Known-starts_at w (checked c x r) clt xid (k, h) = ground (arith, check_verdict w c x r)
Known-starts_at w (replied c x b sz) clt xid k = refl

Known-starts :
    (w : Windows) (es : List Event) (clt xid : ℕ)
    → All (Unconfirmed clt xid) es
    → Known w clt xid
    → starts clt xid w es ≡ 0
unfolding starts
Known-starts w [] clt xid u k = refl
Known-starts w (e ∷ es) clt xid u k = omega (
  arith,
  Known-starts_at w e clt xid k,
  Known-starts (step w e) es clt xid u.1 (step-Known w e clt xid u.0 k),
)

starts_at-le : (w : Windows) (e : Event) (clt xid : ℕ) → starts_at clt xid w e ≤ 1
starts_at-le w (checked c x r) clt xid = elim (Bool-cases (c == clt && x == xid)) [
  | inl t ↦ ground (arith, check_verdict w c x r)
  | inr f ↦ ground arith
]
starts_at-le w (replied c x b sz) clt xid = omega arith

starts_at-Known :
    (w : Windows) (e : Event) (clt xid : ℕ)
    → Unconfirmed clt xid e
    → starts_at clt xid w e ≢ 0
    → Known (step w e) clt xid
starts_at-Known w (checked c x r) clt xid u h =
    (reply_t xid, ground (arith, check_verdict w c x r, check_entry w c x r clt xid))
starts_at-Known w (replied c x b sz) clt xid u h = absurd (h refl)

-- As long as the client confirms nothing above `xid`, the request is taken for new at most once,
-- from any windows and however often it and others arrive.
pub at_most_once :
    (w : Windows) (es : List Event) (clt xid : ℕ)
    → All (Unconfirmed clt xid) es
    → starts clt xid w es ≤ 1
unfolding starts
at_most_once w [] clt xid u = omega arith
at_most_once w (e ∷ es) clt xid u = elim (ℕ_discrete (starts_at clt xid w e) 0) [
  | yes not_here ↦ omega (arith, at_most_once (step w e) es clt xid u.1)
  | no here ↦ omega (
    arith,
    starts_at-le w e clt xid,
    Known-starts (step w e) es clt xid u.1 (starts_at-Known w e clt xid u.0 here),
  )
]

step_keeps_reply :
    (w : Windows) (e : Event) (clt xid : ℕ) (r : Reply)
    → Unconfirmed clt xid e
    → NotReplied clt xid e
    → entry w clt xid ≡ some r
    → entry (step w e) clt xid ≡ some r
step_keeps_reply w (checked c x rep) clt xid r u n h = ground (arith, check_entry w c x rep clt xid)
step_keeps_reply w (replied c x b sz) clt xid r u n h =
    ground (arith, reply_entry w c x b sz clt xid)

run_keeps_reply :
    (w : Windows) (es : List Event) (clt xid : ℕ) (r : Reply)
    → All (Unconfirmed clt xid) es
    → All (NotReplied clt xid) es
    → entry w clt xid ≡ some r
    → entry (run w es) clt xid ≡ some r
unfolding run
run_keeps_reply w [] clt xid r u n h = h
run_keeps_reply w (e ∷ es) clt xid r u n h =
    run_keeps_reply (step w e) es clt xid r u.1 n.1 (step_keeps_reply w e clt xid r u.0 n.0 h)

-- Once a reply has been saved for a known request, a duplicate with `xid_rep` below `xid` gets that very
-- reply, whatever happens in between, if the client confirms nothing above `xid` and no other reply
-- is saved for the request.
pub duplicate_gets_reply :
    (w : Windows) (es : List Event) (clt xid xid_rep : ℕ) (b : Cells) (sz : ℕ)
    → Known w clt xid
    → All (Unconfirmed clt xid) es
    → All (NotReplied clt xid) es
    → xid_rep < xid
    → (checkduplicate_and_update (run w (replied clt xid b sz ∷ es)) clt xid xid_rep).0
      ≡ record { stat = done; saved = some (some b, sz) }
unfolding run
duplicate_gets_reply w es clt xid xid_rep b sz (k, h) u n lt =
    let saved : entry (after_reply w clt xid b sz) clt xid ≡ some (answered k b sz) =
      ground (arith, reply_entry w clt xid b sz clt xid) in
    let still = run_keeps_reply (after_reply w clt xid b sz) es clt xid _ u n saved in
    ground (arith, check_verdict (run (after_reply w clt xid b sz) es) clt xid xid_rep, still)

-- A request that the client has confirmed past is removed, and a late copy of it, which still says
-- its own smaller `xid_rep`, is taken for new.
late_copy_is_new :
    (w : Windows) (clt xid xid_rep later_xid later_rep : ℕ)
    → xid_rep < xid
    → xid < later_rep
    → later_rep < later_xid
    → (checkduplicate_and_update (step w (checked clt later_xid later_rep)) clt xid xid_rep).0.stat
      ≡ new
late_copy_is_new w clt xid xid_rep later_xid later_rep h1 h2 h3 = ground (
  arith,
  check_entry w clt later_xid later_rep clt xid,
  check_verdict (step w (checked clt later_xid later_rep)) clt xid xid_rep,
)

-- A request that the windows do not hold, and that says an `xid_rep` before its own xid, arrives, is
-- answered, is confirmed past by a later request of its client, and arrives once more as it was: it is
-- taken for new twice.
pub late_copy_starts_again :
    (w : Windows) (clt xid xid_rep later_xid later_rep : ℕ) (b : Cells) (sz : ℕ)
    → entry w clt xid ≡ none
    → xid_rep < xid
    → xid < later_rep
    → later_rep < later_xid
    → starts clt xid w (
        checked clt xid xid_rep
        ∷ replied clt xid b sz
        ∷ checked clt later_xid later_rep
        ∷ checked clt xid xid_rep
        ∷ [])
      ≡ 2
unfolding starts
late_copy_starts_again w clt xid xid_rep later_xid later_rep b sz unheld h1 h2 h3 =
    let w2 = step (step w (checked clt xid xid_rep)) (replied clt xid b sz) in
    let first : starts_at clt xid w (checked clt xid xid_rep) ≡ 1 =
      ground (arith, check_verdict w clt xid xid_rep, unheld) in
    let third : starts_at clt xid w2 (checked clt later_xid later_rep) ≡ 0 = ground arith in
    let again = late_copy_is_new w2 clt xid xid_rep later_xid later_rep h1 h2 h3 in
    let fourth : starts_at clt xid (step w2 (checked clt later_xid later_rep))
          (checked clt xid xid_rep)
        ≡ 1 =
      ground (arith, again) in
    omega (arith, first, third, fourth)
