-- ===== src/Sockaddr/Parts.antt =====
-- How make_sockaddr takes its argument apart.
use yfs_lab.Prelude.{
  ℕ, ◌≤◌, ◌<◌, ◌≡◌, ◌⊎◌, refl, List, [], ◌∷◌, ◌++◌, true, false, Option, none, some, arith, All,
  length, ltb, ◌==◌, Bool-cases, inl, inr,
}
use yfs_lab.Prelude.Int.{ℤ}
use yfs_lab.Prelude.Outcome.{Outcome, aborts, overrun}
use yfs_lab.Sockaddr.{
  Sockaddr, index, colon, localhost, host_sz, copy_host, make_sockaddr_at, make_sockaddr,
}

-- No character of the string is `c`.
abbrev pub IsWithout : ℕ → List ℕ → Type 0
IsWithout c s = All (λ x. (x == c) ≡ false) s

index-without : (s : List ℕ) (c : ℕ) → IsWithout c s → index s c ≡ none
unfolding index
index-without [] c a = refl
index-without (x ∷ s) c a = rw (index, a.0, index-without s c a.1) refl

index-first :
    (h p : List ℕ) (c : ℕ) → (c == c) ≡ true → IsWithout c h → index (h ++ (c ∷ p)) c ≡ some (h, p)
unfolding index
index-first [] p c same a = rw (index, same) refl
index-first (x ∷ h) p c same a = rw (index, a.0, index-first h p c same a.1) refl

module _ (inet_addr : List ℕ → ℕ) (gethostbyname : List ℕ → Option (ℕ × ℕ))
    (atoi : List ℕ → ℤ) where
  abbrev pub resolve : List ℕ → List ℕ → Outcome Sockaddr
  resolve = make_sockaddr_at inet_addr gethostbyname atoi

  abbrev pub parse : List ℕ → Outcome Sockaddr
  parse = make_sockaddr inet_addr gethostbyname atoi

  -- A port alone is one of localhost.
  pub make_sockaddr_port : (p : List ℕ) → IsWithout colon p → parse p ≡ resolve localhost p
  unfolding make_sockaddr
  make_sockaddr_port p a = rw (make_sockaddr, index-without p colon a) refl

  -- What stands in front of the first colon is the host and what stands behind it the port, where the
  -- host has less than 200 characters; where it has more, its copy overruns the buffer.
  pub make_sockaddr_cases :
      (h p : List ℕ)
      → IsWithout colon h
      → ((length h < host_sz) × (parse (h ++ (colon ∷ p)) ≡ resolve h p))
        ⊎ ((host_sz ≤ length h) × (parse (h ++ (colon ∷ p)) ≡ aborts overrun))
  unfolding make_sockaddr copy_host
  make_sockaddr_cases h p a = elim (Bool-cases (ltb (length h) host_sz)) [
    | inl short ↦
        inl (ground arith, rw (make_sockaddr, index-first h p colon refl a, copy_host, short) refl)
    | inr long ↦
        inr (ground arith, rw (make_sockaddr, index-first h p colon refl a, copy_host, long) refl)
  ]
