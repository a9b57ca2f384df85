-- ===== src/Codec.antt =====
-- The types that an RPC carries, as pairs of operators `<<` and `>>` that agree on a wire format.
-- `rpcc::call` and the handlers of `rpcs::reg` are written over these (rpc/rpc.h).
pub mod Types
pub mod Maps
use yfs_lab.Prelude.{ℕ, ◌≡◌, true, List, length}
use yfs_lab.Marshall.{Marshall}
use yfs_lab.Marshall.Writes.{IsValid, Appends}
use yfs_lab.Unmarshall.{Unmarshall}
use yfs_lab.Unmarshall.Reads.{Next, skip}

pub record Codec (A : Type 0) : Type 1 where
  pub put : Marshall → A → Marshall
  pub get : Unmarshall → A × Unmarshall
  pub encode : A → List ℕ
  -- The values that the C++ type has.
  pub Fits : A → Type 0
  pub put-Appends : (m : Marshall) (x : A) → IsValid m → Fits x → Appends m (put m x) (encode x)
  pub get-Next :
      (u : Unmarshall) (x : A)
      → Fits x
      → u.is_ok ≡ true
      → Next u (encode x)
      → get u ≡ (x, skip u (length (encode x)))
