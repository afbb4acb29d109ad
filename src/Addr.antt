-- ===== src/Addr.antt =====
-- `std::net::{IpAddr, SocketAddr}` as the program uses them: octets and a port, compared by value.
use never_been_found.Prelude.{
  ℕ, ◌≡◌, ◌≢◌, refl, ◌↔◌, Bool, true, false, ◌&&◌, Bytes, ◌==◌, bytes_eq, bytes_eq_iff, Eq, arith,
}

pub data IpAddr : Type 0 where
  v4 : Bytes → IpAddr
  v6 : Bytes → IpAddr

pub record SocketAddr : Type 0 where
  pub ip : IpAddr
  pub port : ℕ

abbrev ip_eq : IpAddr → IpAddr → Bool
ip_eq (v4 a) (v4 b) = bytes_eq a b
ip_eq (v4 a) (v6 b) = false
ip_eq (v6 a) (v4 b) = false
ip_eq (v6 a) (v6 b) = bytes_eq a b

ip_eq_iff : (a b : IpAddr) → (ip_eq a b ≡ true) ↔ (a ≡ b)
ip_eq_iff (v4 a) (v4 b) = ground (arith, bytes_eq_iff a b)
ip_eq_iff (v4 a) (v6 b) = (λ e. cc, λ e. cc)
ip_eq_iff (v6 a) (v4 b) = (λ e. cc, λ e. cc)
ip_eq_iff (v6 a) (v6 b) = ground (arith, bytes_eq_iff a b)

unfoldable pub addr_eq : SocketAddr → SocketAddr → Bool
addr_eq a b = ip_eq a.ip b.ip && (a.port == b.port)

pub addr_eq_iff : (a b : SocketAddr) → (addr_eq a b ≡ true) ↔ (a ≡ b)
unfolding addr_eq
addr_eq_iff a b = ground (arith, ip_eq_iff a.ip b.ip)

pub addr_eq_refl : (a : SocketAddr) → addr_eq a a ≡ true
addr_eq_refl a = (addr_eq_iff a a).1 refl

pub addr_eq_ne : (a b : SocketAddr) → a ≢ b → addr_eq a b ≡ false
addr_eq_ne a b ne = ground (arith, addr_eq_iff a b)

instance abbrev pub addr_eq_inst : Eq SocketAddr
addr_eq_inst = record { beq = addr_eq; beq_iff = addr_eq_iff }
