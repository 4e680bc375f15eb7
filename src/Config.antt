-- ===== src/Config.antt =====
-- src/config.rs: the configuration file, and what `validate` asks of it.
--
-- A path is its text, a `SocketAddr` is parsed already; `toml` is not modelled.
pub mod Validate
pub mod Sections
pub mod Accepted
pub mod Modes
mod Examples
use xanh_tab.Prelude.{
  ℕ, ◌*◌, String, Bool, true, false, not, ◌&&◌, ◌||◌, Option, none, some, List, [], ◌∷◌, ◌==◌,
  if◌then◌else◌, is_some_and, length, all,
}
use mathlib.Core.List.{reverse}
use xanh_tab.Text.{Text, codes, text_eq}
use xanh_tab.Text.Methods.{strip_prefix, strip_suffix, rsplit_once}
use xanh_tab.Model.{EgressMode, StreamProfile, full_hd30, direct}
use xanh_tab.Egress.{IpAddr, v4, is_loopback, SocketAddr, Parsers}
use xanh_tab.Paths.{Component, root_dir, cur_dir, parent_dir, normal, components}
use xanh_tab.Netd.Plans.{NetworkConfig}

pub record ServerConfig : Type 0 where
  pub listen : SocketAddr
  pub public_base_url : Text
  pub static_dir : Text
  pub tls_cert : Option Text
  pub tls_key : Option Text
  pub secure_cookies : Bool
  pub allow_insecure_http : Bool
  pub allowed_origins : List Text

pub record SessionConfig : Type 0 where
  pub runtime_dir : Text
  pub pairing_file : Text
  pub auth_ttl_seconds : ℕ
  pub ticket_ttl_seconds : ℕ
  pub auto_burn_seconds : ℕ
  pub initial_url : Text
  pub initial_profile : StreamProfile

pub record BrowserConfig : Type 0 where
  pub enabled : Bool
  pub command : Text
  pub socket : Text
  pub stop_timeout_seconds : ℕ
  pub ipc_timeout_seconds : ℕ

pub record SignalingConfig : Type 0 where
  pub enabled : Bool
  pub upstream_uri : Text
  pub plugin_directory : Text
  pub stun_config_file : Option Text
  pub turn_config_file : Option Text

pub record BlocklistConfig : Type 0 where
  pub fst_path : Text
  pub custom_hosts_path : Text

pub record Config : Type 0 where
  pub server : ServerConfig
  pub session : SessionConfig
  pub browser : BrowserConfig
  pub signaling : SignalingConfig
  pub network : NetworkConfig
  pub blocklist : BlocklistConfig

-- The `Default` of each section.
abbrev pub default_server : ServerConfig
default_server = record {
  listen = record { ip = v4 0x7f000001; port = 8088 };
  public_base_url = codes "http://127.0.0.1:8088";
  static_dir = codes "web";
  tls_cert = none;
  tls_key = none;
  secure_cookies = false;
  allow_insecure_http = true;
  allowed_origins = codes "http://127.0.0.1:8088" ∷ [];
}

abbrev pub default_session : SessionConfig
default_session = record {
  runtime_dir = codes "/run/xanhtab-session";
  pairing_file = codes "/run/xanhtab/pairing.txt";
  auth_ttl_seconds = 28_800;
  ticket_ttl_seconds = 60;
  auto_burn_seconds = 1_800;
  initial_url = codes "xanhtab://home";
  initial_profile = full_hd30;
}

abbrev pub default_browser : BrowserConfig
default_browser = record {
  enabled = false;
  command = codes "/usr/local/libexec/xanhtab-browser";
  socket = codes "/run/xanhtab/browser.sock";
  stop_timeout_seconds = 2;
  ipc_timeout_seconds = 2;
}

abbrev pub default_signaling : SignalingConfig
default_signaling = record {
  enabled = false;
  upstream_uri = codes "ws://127.0.0.1:8444";
  plugin_directory = codes "/usr/lib/xanhtab/gstreamer-1.0";
  stun_config_file = none;
  turn_config_file = none;
}

abbrev pub default_network : NetworkConfig
default_network = record {
  enabled = false;
  initial_mode = direct;
  netd_socket = codes "/run/xanhtab/netd.sock";
  ipc_timeout_seconds = 2;
  control_uid = none;
  browser_uid = 988;
  tor_proxy = codes "socks5://127.0.0.1:9050";
  warp_proxy = codes "socks5://127.0.0.1:40000";
  wireguard_config = codes "/etc/xanhtab/secrets/wg0.conf";
  proxy_url_file = codes "/etc/xanhtab/secrets/proxy-url";
  proxy_endpoint = codes "127.0.0.1:1080";
}

abbrev pub default_blocklist : BlocklistConfig
default_blocklist = record {
  fst_path = codes "/var/lib/xanhtab/blocklist.fst";
  custom_hosts_path = codes "/etc/xanhtab/custom_hosts.txt";
}

abbrev pub default_config : Config
default_config = record {
  server = default_server;
  session = default_session;
  browser = default_browser;
  signaling = default_signaling;
  network = default_network;
  blocklist = default_blocklist;
}

-- `Config::auth_ttl` and `Config::ticket_ttl`, in nanoseconds.
unfoldable pub auth_ttl : Config → ℕ
auth_ttl config = config.session.auth_ttl_seconds * 1_000_000_000

unfoldable pub ticket_ttl : Config → ℕ
ticket_ttl config = config.session.ticket_ttl_seconds * 1_000_000_000

-- The host without the brackets of an IPv6 address.
unfoldable pub unbracketed : Text → Text
unfolding strip_suffix
unbracketed host = elim (strip_prefix b'[' host) [
  | none ↦ host
  | some rest ↦ elim (strip_suffix b']' rest) [ none ↦ host | some inner ↦ inner ]
]

unfoldable pub is_loopback_host : (Text → Option IpAddr) → Text → Bool
unfolding unbracketed text_eq
is_loopback_host parse_ip host =
    text_eq (unbracketed host) (codes "localhost")
    || is_some_and (parse_ip (unbracketed host)) is_loopback

abbrev component_eq : Component → Component → Bool
component_eq root_dir root_dir = true
component_eq cur_dir cur_dir = true
component_eq parent_dir parent_dir = true
component_eq (normal a) (normal b) = text_eq a b
component_eq _ _ = false

-- `Path::starts_with`, component by component.
abbrev pub is_prefix : List Component → List Component → Bool
is_prefix [] cs = true
is_prefix (b ∷ base) [] = false
is_prefix (b ∷ base) (c ∷ cs) = component_eq b c && is_prefix base cs

unfoldable pub is_under : Text → Text → Bool
unfolding components text_eq
is_under base path = is_prefix (components base) (components path)

-- `Path::file_stem`: what stands before the last dot of the last component, unless nothing does.
abbrev pub stem_of : List Component → Option Text
unfolding rsplit_once
stem_of (normal name ∷ _) = elim (rsplit_once b'.' name) [
  | none ↦ some name
  | some (before, _) ↦ if length before == 0 then some name else some before
]
stem_of _ = none

unfoldable pub file_stem : Text → Option Text
unfolding components rsplit_once
file_stem path = stem_of (reverse (components path))
