-- ===== src/Base/Net.antt =====
-- Addresses of the standard library, as the program compares them.
use Prim.Native.Nat.{ℕ}
use mathlib.Core.Path.{◌≡◌}
use mathlib.Core.Logic.{◌↔◌}
use mathlib.Core.Bool.{Bool, true, false, ◌&&◌}
use native.Mathlib.Omega.{arith}
use rathole_x.Base.Tests.{nat_beq}
use rathole_x.Base.Eq.{HasEq, nat_beq_iff}

-- `std::net::SocketAddr`: the bits of the IP address and the port, for IPv6 also flow label and scope.
pub data SocketAddr : Type 0 where
  v4 : ℕ → ℕ → SocketAddr
  v6 : ℕ → ℕ → ℕ → ℕ → SocketAddr

abbrev pub socket_addr_beq : SocketAddr → SocketAddr → Bool
socket_addr_beq (v4 a p) (v4 b q) = nat_beq a b && nat_beq p q
socket_addr_beq (v4 a p) (v6 b q f t) = false
socket_addr_beq (v6 a p e s) (v4 b q) = false
socket_addr_beq (v6 a p e s) (v6 b q f t) = nat_beq a b && nat_beq p q && nat_beq e f && nat_beq s t

pub socket_addr_beq_iff : (a b : SocketAddr) → (socket_addr_beq a b ≡ true) ↔ (a ≡ b)
socket_addr_beq_iff (v4 a p) (v4 b q) = ground (arith, nat_beq_iff a b, nat_beq_iff p q)
socket_addr_beq_iff (v4 a p) (v6 b q f t) = ground arith
socket_addr_beq_iff (v6 a p e s) (v4 b q) = ground arith
socket_addr_beq_iff (v6 a p e s) (v6 b q f t) =
    ground (arith, nat_beq_iff a b, nat_beq_iff p q, nat_beq_iff e f, nat_beq_iff s t)

instance abbrev pub socket_addr_eq : HasEq SocketAddr
socket_addr_eq = record { beq = socket_addr_beq; beq_iff = socket_addr_beq_iff }
