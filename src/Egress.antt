-- ===== src/Egress.antt =====
-- src/egress.rs: what netd accepts as a proxy and as a WireGuard configuration.
--
-- `url::Url::parse`, `base64` and the address parsers of `std::net` are functions of the record
-- `Parsers`; an address is its number, by its family.
pub mod Proxy
pub mod Config
pub mod Routes
pub mod Policy
mod Examples
pub mod Wireguard
use xanh_tab.Prelude.{ℕ, Bool, Option, List, ◌/◌, ◌==◌, false, true}
use xanh_tab.Text.{Text}
use xanh_tab.Model.{Url}

-- `std::net::IpAddr`
pub data IpAddr : Type 0 where
  v4 v6 : ℕ → IpAddr

abbrev pub is_unspecified : IpAddr → Bool
is_unspecified (v4 n) = n == 0
is_unspecified (v6 n) = n == 0

-- `IpAddr::is_loopback`
abbrev pub is_loopback : IpAddr → Bool
is_loopback (v4 n) = n / 0x1000000 == 127
is_loopback (v6 n) = n == 1

-- `std::net::SocketAddr`
pub record SocketAddr : Type 0 where
  pub ip : IpAddr
  pub port : ℕ

abbrev pub ip_eq : IpAddr → IpAddr → Bool
ip_eq (v4 m) (v4 n) = m == n
ip_eq (v6 m) (v6 n) = m == n
ip_eq _ _ = false

pub record Parsers : Type 0 where
  pub parse_url : Text → Option Url
  pub parse_ip : Text → Option IpAddr
  pub decode_base64 : Text → Option (List ℕ)
