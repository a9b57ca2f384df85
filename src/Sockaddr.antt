-- ===== src/Sockaddr.antt =====
-- rpc/rpc.cc: make_sockaddr and the order on struct sockaddr_in.
--
-- A C string is the list of its characters, without the final NUL. inet_addr, gethostbyname and atoi
-- are parameters: `inet_addr` gives 2^32 - 1 for INADDR_NONE, and `gethostbyname` the length and the
-- first address of the host that it finds.
pub mod Parts
pub mod Order
use yfs_lab.Prelude.{
  ℕ, ◌+◌, ◌-◌, ◌*◌, ◌/◌, ◌%◌, ◌^◌, List, [], ◌∷◌, Bool, true, false, ◌&&◌, ◌||◌, Option, none, some,
  length, ltb, ◌==◌, if◌then◌else◌,
}
use yfs_lab.Prelude.Int.{ℤ, to_pattern}
use yfs_lab.Prelude.Outcome.{Outcome, returns, aborts, ◌>>=◌, overrun, exits}

-- The members of sockaddr_in that are not the same for all: sin_addr.s_addr and sin_port.
pub record Sockaddr : Type 0 where
  pub s_addr : ℕ
  pub sin_port : ℕ

-- operator<
unfoldable pub is_less : Sockaddr → Sockaddr → Bool
is_less a b = ltb a.s_addr b.s_addr || a.s_addr == b.s_addr && ltb a.sin_port b.sin_port

abbrev pub colon : ℕ
colon = 58

-- `index(s, c)`: what stands in front of the first `c`, and behind it.
unfoldable pub index : List ℕ → ℕ → Option (List ℕ × List ℕ)
index [] c = none
index (x ∷ s) c =
    if x == c
    then some ([], s)
    else (elim (index s c) [ none ↦ none | some p ↦ some (x ∷ p.0, p.1) ])

-- "127.0.0.1"
abbrev pub localhost : List ℕ
localhost = 49 ∷ 50 ∷ 55 ∷ 46 ∷ 48 ∷ 46 ∷ 48 ∷ 46 ∷ 49 ∷ []

-- char host[200]
abbrev pub host_sz : ℕ
host_sz = 200

-- The copy of the host and the NUL behind it.
unfoldable pub copy_host : List ℕ → Outcome (List ℕ)
copy_host h = if ltb (length h) host_sz then returns h else aborts overrun

-- htons of an `int`, on a machine with the low byte first.
abbrev pub htons : ℤ → ℕ
htons z = to_pattern z % 256 * 256 + to_pattern z / 256 % 256

module _ (inet_addr : List ℕ → ℕ) (gethostbyname : List ℕ → Option (ℕ × ℕ))
    (atoi : List ℕ → ℤ) where
  abbrev pub inaddr_none : ℕ
  inaddr_none = 2 ^ 32 - 1

  -- `hp == 0 || hp->h_length != 4`
  unfoldable pub host_address : Option (ℕ × ℕ) → Outcome ℕ
  host_address none = aborts exits
  host_address (some (len, a)) = if len == 4 then returns a else aborts exits

  -- make_sockaddr(host, port, dst)
  unfoldable pub make_sockaddr_at : List ℕ → List ℕ → Outcome Sockaddr
  unfolding host_address
  make_sockaddr_at host port =
      let a = inet_addr host in
      (if a == inaddr_none then host_address (gethostbyname host) else returns a) >>= λ addr.
      returns (record { s_addr = addr; sin_port = htons (atoi port) })

  -- make_sockaddr(hostandport, dst)
  unfoldable pub make_sockaddr : List ℕ → Outcome Sockaddr
  unfolding copy_host
  make_sockaddr hostandport = elim (index hostandport colon) [
    | none ↦ make_sockaddr_at localhost hostandport
    | some p ↦ copy_host p.0 >>= λ host. make_sockaddr_at host p.1
  ]
