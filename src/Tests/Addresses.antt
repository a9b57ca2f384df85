-- ===== src/Tests/Addresses.antt =====
-- Runs of make_sockaddr.
use yfs_lab.Prelude.{ℕ, ◌≤◌, ◌<◌, ◌≡◌, ◌⊎◌, refl, List, [], ◌∷◌, ◌++◌, Option, none, length}
use yfs_lab.Prelude.Int.{ℤ, pos}
use yfs_lab.Prelude.Outcome.{aborts, overrun}
use yfs_lab.Sockaddr.{colon, host_sz}
use yfs_lab.Sockaddr.Parts.{resolve, parse, make_sockaddr_cases}

-- Every name stands for the address 16, no host is found, and every port is 80.
abbrev address : List ℕ → ℕ
address s = 16

abbrev no_host : List ℕ → Option (ℕ × ℕ)
no_host s = none

abbrev port : List ℕ → ℤ
port s = pos 80

-- "h:1"
abbrev host : List ℕ
host = 104 ∷ []

abbrev number : List ℕ
number = 49 ∷ []

make_sockaddr_cases_example :
    ((length host < host_sz)
      × (parse address no_host port (host ++ (colon ∷ number))
          ≡ resolve address no_host port host number))
    ⊎ ((host_sz ≤ length host)
        × (parse address no_host port (host ++ (colon ∷ number)) ≡ aborts overrun))
make_sockaddr_cases_example = make_sockaddr_cases address no_host port host number (refl, tt)
