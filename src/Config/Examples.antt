-- ===== src/Config/Examples.antt =====
-- src/config.rs: the default configuration, one of production, and the refusals of the tests there.
use xanh_tab.Prelude.{
  ◌≡◌, ◌⊎◌, refl, true, false, Option, none, some, List, [], ◌∷◌, String, if◌then◌else◌, not, any,
  all, is_some, str_eq, ◌+◌, ◌*◌, ◌<◌,
}
use xanh_tab.Text.{Text, codes, text_eq, starts_with}
use xanh_tab.Model.{Url}
use xanh_tab.Fallible.{done, is_done}
use xanh_tab.Session.State.{Manager, Entry, clear_from}
use xanh_tab.Samples.{device}
use xanh_tab.Netd.Service.{authorize_peer_uid, helper_deadline}
use xanh_tab.Egress.{is_loopback, v4, SocketAddr, Parsers}
use xanh_tab.Config.{Config, default_config, default_server, default_network, is_under}
use xanh_tab.Config.Validate.{
  validate, check_tls, check_mode, check_lifetimes, check_users, check_paths,
  check_production_paths, check_addresses, check_secret_paths, check_signaling, normalize_origins,
  is_https_origin, runtime_paths,
}
use xanh_tab.Config.Accepted.{accepted_services_fit}
use xanh_tab.Daemon.{bind_rustls, bind, listener}
use xanh_tab.Daemon.Serving.{accepted_daemon_is_guarded}
use xanh_tab.Config.Modes.{accepted_production_is_hardened}

abbrev at : String → String → String → Url
at scheme host path = record {
  text = scheme;
  scheme = scheme;
  host_str = some host;
  path = path;
  query = none;
  fragment = none;
  username = "";
  password = none;
  port = some 8088;
  origin = scheme;
}

-- Enough of a parser for the URLs below, by their schemes.
abbrev parse_url : Text → Option Url
unfolding starts_with
parse_url s =
    if starts_with s (codes "http://127.0.0.1")
    then some (record (at "http" "127.0.0.1" "/") { origin = "http://127.0.0.1:8088" })
    else if starts_with s (codes "https://")
    then some (record (at "https" "xanhtab.local" "/") { origin = "https://xanhtab.local:8443" })
    else if starts_with s (codes "xanhtab://")
    then some (at "xanhtab" "home" "")
    else if starts_with s (codes "ws://127.0.0.1")
    then some (at "ws" "127.0.0.1" "/")
    else if starts_with s (codes "socks5://127.0.0.1")
    then some (at "socks5" "127.0.0.1" "")
    else none

abbrev parsers : Parsers
unfolding starts_with text_eq
parsers = record {
  parse_url = parse_url;
  parse_ip = λ s. if text_eq s (codes "127.0.0.1") then some (v4 0x7f000001) else none;
  decode_base64 = λ _. none;
}

abbrev parse_endpoint : Text → Option SocketAddr
parse_endpoint _ = some (record { ip = v4 0x7f000001; port = 1080 })

abbrev production : Config
production = record default_config {
  server = record default_server {
    public_base_url = codes "https://xanhtab.local:8443";
    static_dir = codes "/usr/share/xanhtab/web";
    tls_cert = some (codes "/etc/xanhtab/tls/server.crt");
    tls_key = some (codes "/etc/xanhtab/tls/server.key");
    secure_cookies = true;
    allow_insecure_http = false;
    allowed_origins = codes "https://xanhtab.local:8443" ∷ [];
  };
  browser = record default_config.browser { enabled = true };
  signaling = record default_config.signaling { enabled = true };
  network = record default_network { enabled = true; control_uid = some 987 };
}

default_is_accepted : validate parsers parse_endpoint default_config ≡ done tt
unfolding validate parsers check_tls check_mode check_lifetimes check_users check_paths
    check_production_paths check_addresses check_secret_paths check_signaling
default_is_accepted = refl

production_is_accepted : validate parsers parse_endpoint production ≡ done tt
unfolding validate parsers check_tls check_mode check_lifetimes check_users check_paths
    check_production_paths check_addresses check_secret_paths check_signaling
production_is_accepted = refl

-- `network_control_uid_cannot_be_root_or_browser`
browser_as_control_is_refused :
    is_done (
      validate parsers parse_endpoint
        (record default_config { network = record default_network { control_uid = some 988 } }))
    ≡ false
unfolding validate parsers check_tls check_mode check_lifetimes check_users check_paths
    check_production_paths check_addresses check_secret_paths check_signaling
browser_as_control_is_refused = refl

-- `managed_proxies_and_secret_paths_are_pinned`
other_interface_is_refused :
    is_done (
      validate parsers parse_endpoint (record default_config {
        network = record default_network {
          wireguard_config = codes "/etc/xanhtab/secrets/private.conf";
        };
      }))
    ≡ false
unfolding validate parsers check_tls check_mode check_lifetimes check_users check_paths
    check_production_paths check_addresses check_secret_paths check_signaling
other_interface_is_refused = refl

-- The device at the runtime directory of the configuration.
abbrev cleaner : Manager
cleaner = record (device true) { runtime_dir = "/run/xanhtab-session" }

abbrev cookies : List Entry
cookies = record { name = "cookies"; is_dir = false } ∷ []

accepted_services_fit_example :
    ((clear_from cleaner 0 cookies).0 ≡ none)
    × ((clear_from cleaner 0 cookies).1 ≡ [])
    × (is_done (authorize_peer_uid 988 (some 987) 988) ≡ false)
    × (helper_deadline 2 + 250 ≡ 2 * 1_000)
    × (0 < helper_deadline 2)
accepted_services_fit_example =
    accepted_services_fit parsers parse_endpoint production cleaner 0 cookies production_is_accepted
      refl (λ _. ((λ _. refl), refl))

accepted_production_is_hardened_example :
    (public_url : Url) × (origins : List String) × (parsers.parse_url
        production.server.public_base_url
      ≡ some public_url)
    × (str_eq public_url.scheme "https" ≡ true)
    × (normalize_origins parsers production.server.allowed_origins ≡ done origins)
    × (any (λ origin. str_eq origin public_url.origin) origins ≡ true)
    × (any (λ origin. not (is_https_origin origin)) origins ≡ false)
    × (is_some production.server.tls_cert ≡ true)
    × (is_some production.server.tls_key ≡ true)
    × (production.server.secure_cookies ≡ true)
    × (production.browser.enabled ≡ true)
    × (production.network.enabled ≡ true)
    × (production.signaling.enabled ≡ true)
    × (is_some production.network.control_uid ≡ true)
    × (all (λ p. is_under (codes "/run") p.1) (runtime_paths production) ≡ true)
accepted_production_is_hardened_example =
    accepted_production_is_hardened parsers parse_endpoint production production_is_accepted refl

accepted_daemon_is_guarded_example :
    ((cert : Text) × (key : Text) × (listener production.server ≡ done (bind_rustls cert key))
      × (production.server.tls_cert ≡ some cert)
      × (production.server.tls_key ≡ some key))
    ⊎ ((listener production.server ≡ done bind)
        × (production.server.allow_insecure_http ≡ true)
        × (is_loopback production.server.listen.ip ≡ true))
accepted_daemon_is_guarded_example =
    accepted_daemon_is_guarded parsers parse_endpoint production production_is_accepted
