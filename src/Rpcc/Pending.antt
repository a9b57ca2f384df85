-- ===== src/Rpcc/Pending.antt =====
-- What a client's window says of its calls, and what each block under m_ does to that.
use native.Mathlib.Decide.{dec_le}
use yfs_lab.Prelude.{
  ℕ, ◌+◌, ◌%◌, ◌^◌, ◌≤◌, ◌<◌, ◌≡◌, ◌⊎◌, refl, sym, ap, ◌∙◌, Bool, true, false, not, Option, none,
  some, arith, ◌==◌, if◌then◌else◌, Bool-cases, ==→≡, some_inj, inl, inr,
}
use yfs_lab.Marshall.{ReplyHeader}
use yfs_lab.Unmarshall.{Unmarshall}
use yfs_lab.XidWindow.{front, update_xid_rep}
use yfs_lab.XidWindow.Order.{IsUint, IsWindow, update_xid_rep-IsWindow}
use yfs_lab.XidWindow.Received.{elem, received, received-update_xid_rep, front_longest}
use yfs_lab.Rpcc.{Caller, Rpcc, rpcc, caller, set_call, deliver, end_call}

-- The window is in order and says nothing of xids that are not given out yet; a registered caller
-- stands under its own xid, which was given out, and as long as it has no reply, the window does not
-- say that it has.
pub record IsClient (r : Rpcc) : Type 0 where
  pub window : IsWindow r.xid_rep_window
  pub bound : IsUint r.xid
  pub given : (y : ℕ) → received r.xid_rep_window y ≡ true → y < r.xid
  pub registered : (y : ℕ) (ca : Caller) → r.calls y ≡ some ca → (ca.xid ≡ y) × (y < r.xid)
  pub pending :
      (y : ℕ) (ca : Caller)
      → r.calls y ≡ some ca
      → ca.is_done ≡ false
      → received r.xid_rep_window y ≡ false

-- What a new client has.
pub rpcc-IsClient : (nonce : ℕ) (retrans : Bool) → IsClient (rpcc nonce retrans)
unfolding rpcc received elem
rpcc-IsClient nonce retrans = record {
  window = (tt, tt, (omega arith, tt));
  bound = omega arith;
  given = λ y h. ground arith;
  registered = λ y ca e. cc;
  pending = λ y ca e d. cc;
}

-- The xid of a call that has no reply is above what the next request confirms.
pub pending_above_front :
    (r : Rpcc) (y : ℕ) (ca : Caller)
    → IsClient r
    → r.calls y ≡ some ca
    → ca.is_done ≡ false
    → front r.xid_rep_window < y
pending_above_front r y ca v e d = elim (dec_le y (front r.xid_rep_window)) [
  | no above ↦ omega arith
  | yes below ↦ cc ((front_longest r.xid_rep_window v.window).0 y below, v.pending y ca e d)
]

-- The client after an update of the window by an xid that was given out.
updated-IsClient :
    (r : Rpcc) (xid : ℕ) (calls : ℕ → Option Caller)
    → xid < r.xid
    → IsClient r
    → ((y : ℕ) (ca : Caller) → calls y ≡ some ca → (ca.xid ≡ y) × (y < r.xid))
    → ((y : ℕ) (ca : Caller)
        → calls y ≡ some ca
        → ca.is_done ≡ false
        → (received r.xid_rep_window y ≡ false) × ((xid == y) ≡ false))
    → IsClient (record r { calls = calls; xid_rep_window = update_xid_rep r.xid_rep_window xid })
updated-IsClient r xid calls lt v reg pend =
    let small : IsUint xid = omega (arith, lt, v.bound) in
    record {
      window = update_xid_rep-IsWindow r.xid_rep_window xid small v.window;
      bound = v.bound;
      given = λ y h.
          ground (arith, received-update_xid_rep r.xid_rep_window xid y small v.window, v.given y);
      registered = reg;
      pending = λ y ca e d.
          let (before, other) = pend y ca e d in
          received-update_xid_rep r.xid_rep_window xid y small v.window ∙ rw (before, other) refl;
    }

stored_cases :
    (b : Bool) (o p : Option Caller) (ca : Caller)
    → (if b then o else p) ≡ some ca
    → ((b ≡ true) × (o ≡ some ca)) ⊎ ((b ≡ false) × (p ≡ some ca))
stored_cases true o p ca e = inl (refl, e)
stored_cases false o p ca e = inr (refl, e)

received_below :
    {r : Rpcc} (v : IsClient r) (y : ℕ) → r.xid ≤ y → received r.xid_rep_window y ≡ false
received_below {r = r} v y le = elim (Bool-cases (received r.xid_rep_window y)) [
  | inl t ↦ absurd (le_contra (v.given y t) le)
  | inr f ↦ f
]
  where
    le_contra : {a b : ℕ} → a < b → b ≤ a → ⊥
    le_contra h k = omega arith

-- The client with a caller registered under a new xid.
pub begun-IsClient :
    (r : Rpcc) (un : Unmarshall)
    → r.xid + 1 < 2 ^ 32
    → IsClient r
    → IsClient (record r {
      xid = (r.xid + 1) % 2 ^ 32;
      calls = λ y. if r.xid == y then some (caller r.xid un) else r.calls y;
    })
begun-IsClient r un room v =
    let next : (r.xid + 1) % 2 ^ 32 ≡ r.xid + 1 = omega (arith, room) in
    record {
      window = v.window;
      bound = omega arith;
      given = λ y h. omega (arith, v.given y h, next);
      registered = λ y ca e. elim (stored_cases (r.xid == y) _ _ ca e) [
        | inl (same, k) ↦ (
          sym (ap (λ c. c.xid) (some_inj k)) ∙ ==→≡ r.xid y same,
          omega (arith, ==→≡ r.xid y same, next),
        )
        | inr (other, k) ↦ ((v.registered y ca k).0, omega (arith, (v.registered y ca k).1, next))
      ];
      pending = λ y ca e d. elim (stored_cases (r.xid == y) _ _ ca e) [
        | inl (same, k) ↦ received_below v y (omega (arith, ==→≡ r.xid y same))
        | inr (other, k) ↦ v.pending y ca k d
      ];
    }

deliver-xid : (ca : Caller) (h : ReplyHeader) (rep : Unmarshall) → (deliver ca h rep).xid ≡ ca.xid
unfolding deliver
deliver-xid ca h rep = ground arith

deliver-is_done :
    (ca : Caller) (h : ReplyHeader) (rep : Unmarshall) → (deliver ca h rep).is_done ≡ true
unfolding deliver
deliver-is_done ca h rep = ground arith

pub got-IsClient :
    (r : Rpcc) (h : ReplyHeader) (rep : Unmarshall) (good : Bool) (known : Option Caller)
    → h.xid < r.xid
    → r.calls h.xid ≡ known
    → IsClient r
    → IsClient
        (if not good then (true, r) else (elim known as (λ o. Bool × Rpcc) [
          | none ↦ (true, record r { xid_rep_window = update_xid_rep r.xid_rep_window h.xid })
          | some ca ↦ (
            true,
            set_call
                (record r { xid_rep_window = update_xid_rep r.xid_rep_window h.xid })
                h.xid
                (some (deliver ca h rep)),
          )
        ])).1
got-IsClient r h rep false known lt e v = v
got-IsClient r h rep true none lt e v =
    updated-IsClient r h.xid r.calls lt v v.registered (λ y ca k d. (
      v.pending y ca k d,
      elim (Bool-cases (h.xid == y)) [
        | inl same ↦ cc (sym e ∙ ap r.calls (==→≡ h.xid y same) ∙ k)
        | inr other ↦ other
      ],
    ))
got-IsClient r h rep true (some ca) lt e v =
    updated-IsClient r h.xid (λ y. if h.xid == y then some (deliver ca h rep) else r.calls y) lt v
      (λ y k q. elim (stored_cases (h.xid == y) _ _ k q) [
        | inl (same, s) ↦ (
          sym (ap (λ c. c.xid) (some_inj s))
              ∙ deliver-xid ca h rep
              ∙ (v.registered h.xid ca e).0
              ∙ ==→≡ h.xid y same,
          omega (arith, ==→≡ h.xid y same, lt),
        )
        | inr (other, s) ↦ v.registered y k s
      ])
      (λ y k q d. elim (stored_cases (h.xid == y) _ _ k q) [
        | inl (same, s) ↦ cc (sym (deliver-is_done ca h rep) ∙ ap (λ c. c.is_done) (some_inj s) ∙ d)
        | inr (other, s) ↦ (v.pending y k s d, other)
      ])

pub end_call-IsClient :
    (r : Rpcc) (ca : Caller) → ca.xid < r.xid → IsClient r → IsClient (end_call r ca).1
unfolding end_call
end_call-IsClient r ca lt v =
    updated-IsClient r ca.xid _ lt v
      (λ y k e. elim (stored_cases (ca.xid == y) none (r.calls y) k e) [
        | inl (same, s) ↦ cc s
        | inr (other, s) ↦ v.registered y k s
      ])
      (λ y k e d. elim (stored_cases (ca.xid == y) none (r.calls y) k e) [
        | inl (same, s) ↦ cc s
        | inr (other, s) ↦ (v.pending y k s d, other)
      ])
