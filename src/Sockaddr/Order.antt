-- ===== src/Sockaddr/Order.antt =====
-- The order on addresses.
use yfs_lab.Prelude.{◌≡◌, true, false, arith}
use yfs_lab.Sockaddr.{Sockaddr, is_less}

-- The order is a strict total one: no address is below itself, it is transitive, and of two addresses
-- of which neither is below the other, the members are equal.
pub is_less-total :
    (a b c : Sockaddr)
    → (is_less a a ≡ false)
      × (is_less a b ≡ true → is_less b c ≡ true → is_less a c ≡ true)
      × (is_less a b ≡ false
          → is_less b a ≡ false
          → (a.s_addr ≡ b.s_addr) × (a.sin_port ≡ b.sin_port))
unfolding is_less
is_less-total a b c = (ground arith, λ p q. ground arith, λ p q. ground arith)
