-- ===== src/Prelude/Wire.antt =====
-- The wire format of numbers: bytes in network order.
use Prim.Native.Nat.{ℕ, ◌+◌, ◌*◌, ◌/◌, ◌%◌, ◌^◌, ◌<◌}
use mathlib.Core.Path.{◌≡◌}
use mathlib.Core.Option.{Option, none, some}
use mathlib.Core.List.{List, [], ◌∷◌, ◌++◌}
use native.Mathlib.Omega.{arith}

abbrev pub be16 : ℕ → List ℕ
be16 x = (x / 2 ^ 8 % 256) ∷ (x % 256) ∷ []

abbrev pub be32 : ℕ → List ℕ
be32 x = (x / 2 ^ 24 % 256) ∷ (x / 2 ^ 16 % 256) ∷ (x / 2 ^ 8 % 256) ∷ (x % 256) ∷ []

abbrev pub be64 : ℕ → List ℕ
be64 x = be32 (x / 2 ^ 32 % 2 ^ 32) ++ be32 (x % 2 ^ 32)

-- The bytes of a word determine it.
pub be32_sum :
    (x : ℕ)
    → x < 2 ^ 32
    → x / 2 ^ 24 % 256 * 2 ^ 24 + x / 2 ^ 16 % 256 * 2 ^ 16 + x / 2 ^ 8 % 256 * 2 ^ 8 + x % 256 ≡ x
be32_sum x h = omega arith

-- The word that four bytes stand for.
abbrev pub from_be32 : List ℕ → Option ℕ
from_be32 (a ∷ b ∷ c ∷ d ∷ []) = some (a * 2 ^ 24 + b * 2 ^ 16 + c * 2 ^ 8 + d)
from_be32 _ = none
