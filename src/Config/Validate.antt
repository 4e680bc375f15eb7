-- ===== src/Config/Validate.antt =====
-- src/config.rs: `Config::validate`, section by section in the order of its tests.
--
-- `url::Url::parse`, `IpAddr::from_str` and `SocketAddr::from_str` are parameters.
use Prim.Native.String.{◌++◌ as ◌+++◌}
use xanh_tab.Prelude.{
  ℕ, String, Bool, true, false, not, ◌&&◌, ◌||◌, Option, List, [], ◌∷◌, ◌==◌, ltb, leb,
  if◌then◌else◌, is_some, is_none, is_some_and, any, str_eq,
}
use xanh_tab.Text.{Text, codes, text_eq, starts_with}
use xanh_tab.Model.{Url}
use xanh_tab.Fallible.{Fallible, done, bail, ◌>>=◌, ◌>>◌, bail_if, context}
use xanh_tab.Egress.{is_loopback, SocketAddr, Parsers}
use xanh_tab.Egress.Proxy.{validate_proxy_url}
use xanh_tab.Paths.{is_absolute, is_normalized_absolute, runtime_dir_refused}
use xanh_tab.Netd.Plans.{NetworkConfig}
use xanh_tab.Config.{ServerConfig, SignalingConfig, Config, is_loopback_host, is_under, file_stem}

-- `is_some() != is_some()`
abbrev pub differ : Bool → Bool → Bool
differ true b = not b
differ false b = b

-- `with_context`: the error is told by the message.
abbrev pub with_context {ℓ} : {A : Type ℓ} → Fallible A → String → Fallible A
with_context (done a) e = done a
with_context (bail _) e = bail e

abbrev pub is_http : String → Bool
is_http scheme = str_eq scheme "http" || str_eq scheme "https"

-- The path, the query, the fragment and the credentials of an origin.
abbrev pub has_more_than_origin : Url → Bool
has_more_than_origin url =
    not (str_eq url.path "/")
    || is_some url.query
    || is_some url.fragment
    || not (str_eq url.username "")
    || is_some url.password

-- `path.as_ref().is_some_and(|path| !path.is_absolute())`
abbrev pub is_relative : Option Text → Bool
unfolding is_absolute
is_relative path = is_some_and path (λ p. not (is_absolute p))

-- `!(1..=30).contains(&seconds)`
abbrev pub outside_lifecycle : ℕ → Bool
outside_lifecycle seconds = not (leb 1 seconds && leb seconds 30)

abbrev pub is_https_origin : String → Bool
unfolding starts_with
is_https_origin origin = starts_with (codes origin) (codes "https://")

unfoldable pub check_tls : ServerConfig → Fallible (Unit {0})
unfolding is_absolute
check_tls server = do
  bail_if (differ (is_some server.tls_cert) (is_some server.tls_key))
      "TLS certificate and key must be configured together"
  bail_if (is_relative server.tls_cert) "server.tls_cert must be an absolute path"
  bail_if (is_relative server.tls_key) "server.tls_key must be an absolute path"
  bail_if (not server.allow_insecure_http && (is_none server.tls_cert || is_none server.tls_key))
      "TLS certificate and key are required outside development mode"

unfoldable pub check_lifetimes : Config → Fallible (Unit {0})
check_lifetimes config = do
  bail_if (ltb config.session.auth_ttl_seconds 300) "auth_ttl_seconds must be at least 300"
  bail_if (config.session.ticket_ttl_seconds == 0 || ltb 300 config.session.ticket_ttl_seconds)
      "ticket_ttl_seconds must be between 1 and 300"
  bail_if
      (outside_lifecycle config.browser.stop_timeout_seconds
        || outside_lifecycle config.browser.ipc_timeout_seconds
        || outside_lifecycle config.network.ipc_timeout_seconds)
      "browser and network lifecycle timeouts must be between 1 and 30 seconds"

unfoldable pub check_users : Config → Fallible (Unit {0})
check_users config = do
  bail_if (config.network.browser_uid == 0) "browser_uid must not be root"
  bail_if
      (is_some_and config.network.control_uid
        (λ uid. uid == 0 || uid == config.network.browser_uid))
      "control_uid must be non-root and distinct from browser_uid"
  bail_if
      (is_none config.network.control_uid
        && (not config.server.allow_insecure_http || config.network.enabled))
      "network.control_uid is required whenever the real network backend is enabled"

-- The paths that production keeps under `/run`, by their names.
abbrev pub runtime_paths : Config → List (String × Text)
runtime_paths config =
    ("session.runtime_dir", config.session.runtime_dir)
    ∷ ("session.pairing_file", config.session.pairing_file)
    ∷ ("browser.socket", config.browser.socket)
    ∷ ("network.netd_socket", config.network.netd_socket)
    ∷ []

unfoldable pub stay_under_run : List (String × Text) → Fallible (Unit {0})
unfolding is_under
stay_under_run [] = done tt
stay_under_run ((name, path) ∷ paths) = do
  bail_if (not (is_under (codes "/run") path))
      (◌+++◌ "production " (◌+++◌ name " must stay under /run"))
  stay_under_run paths

-- What production asks of the paths.
unfoldable pub check_production_paths : Config → Fallible (Unit {0})
unfolding stay_under_run is_normalized_absolute
check_production_paths config = do
  stay_under_run (runtime_paths config)
  bail_if
      (not (is_normalized_absolute config.server.static_dir)
        || not (is_normalized_absolute config.browser.command))
      "production static_dir and browser command must be absolute paths"

unfoldable pub check_paths : Config → Fallible (Unit {0})
unfolding runtime_dir_refused is_normalized_absolute
check_paths config = do
  bail_if (runtime_dir_refused config.session.runtime_dir)
      "runtime_dir must be a specific normalized absolute directory"
  bail_if
      (not (is_normalized_absolute config.session.pairing_file)
        || not (is_normalized_absolute config.browser.socket)
        || not (is_normalized_absolute config.network.netd_socket))
      "pairing and service socket paths must be normalized absolute paths"
  elim config.server.allow_insecure_http [ true ↦ done tt | false ↦ check_production_paths config ]

unfoldable pub check_secret_paths : NetworkConfig → Fallible (Unit {0})
unfolding is_normalized_absolute file_stem text_eq
check_secret_paths network = do
  bail_if
      (not (is_normalized_absolute network.wireguard_config)
        || not (is_normalized_absolute network.proxy_url_file))
      "network secret references must be normalized absolute paths"
  bail_if
      (not (is_some_and (file_stem network.wireguard_config) (λ stem. text_eq stem (codes "wg0"))))
      "network.wireguard_config must target the dedicated wg0 interface"

module _ (parsers : Parsers) where
  unfoldable pub check_public_url : ServerConfig → Fallible Url
  unfolding starts_with
  check_public_url server = do
    public_url ←
        context (parsers.parse_url server.public_base_url) "public_base_url must be an absolute URL"
    bail_if (not (is_http public_url.scheme) || is_none public_url.host_str)
        "public_base_url must be an HTTP(S) origin"
    bail_if (has_more_than_origin public_url)
        "public_base_url must not contain credentials, path, query, or fragment"
    bail_if (starts_with server.public_base_url (codes "http://") && not server.allow_insecure_http)
        "insecure public_base_url requires allow_insecure_http=true"
    done public_url

  -- The loop over `allowed_origins`: their origins, in order.
  unfoldable pub normalize_origins : List Text → Fallible (List String)
  normalize_origins [] = done []
  normalize_origins (origin ∷ origins) = do
    -- The message leaves out the origin that it prints.
    parsed ← context (parsers.parse_url origin) "allowed origin is not an absolute URL"
    bail_if (not (is_http parsed.scheme) || is_none parsed.host_str || has_more_than_origin parsed)
        "allowed origins must be HTTP(S) origins without credentials or paths"
    rest ← normalize_origins origins
    done (parsed.origin ∷ rest)

  unfoldable pub check_origins : ServerConfig → Url → Fallible (List String)
  unfolding normalize_origins
  check_origins server public_url = do
    normalized_origins ← normalize_origins server.allowed_origins
    bail_if (not (any (λ origin. str_eq origin public_url.origin) normalized_origins))
        "allowed_origins must include the public_base_url origin"
    done normalized_origins

  unfoldable pub check_mode : Config → Url → List String → Fallible (Unit {0})
  unfolding is_loopback_host starts_with
  check_mode config public_url normalized_origins =
      if config.server.allow_insecure_http
      then bail_if
          (not (is_loopback config.server.listen.ip)
            || not (
                is_some_and public_url.host_str
                  (λ host. is_loopback_host parsers.parse_ip (codes host))))
          "development mode must stay on loopback"
      else (do
        bail_if (not (str_eq public_url.scheme "https")) "production public_base_url must use HTTPS"
        bail_if (not config.server.secure_cookies) "production requires secure cookies"
        bail_if
            (not config.browser.enabled
              || not config.network.enabled
              || not config.signaling.enabled)
            "production requires browser, network, and signaling backends"
        bail_if (any (λ origin. not (is_https_origin origin)) normalized_origins)
            "production allowed_origins must use HTTPS")

  unfoldable pub check_managed_proxy : String → Text → Fallible (Unit {0})
  unfolding validate_proxy_url
  check_managed_proxy name raw = do
    proxy ←
        with_context (validate_proxy_url parsers raw false)
          (◌+++◌ "network." (◌+++◌ name " is invalid"))
    bail_if (not (is_loopback proxy.endpoint.ip))
        (◌+++◌ "network." (◌+++◌ name " must use a loopback endpoint"))

  unfoldable pub check_signaling : SignalingConfig → Fallible (Unit {0})
  unfolding is_loopback_host is_absolute
  check_signaling signaling = do
    signaling_uri ←
        context (parsers.parse_url signaling.upstream_uri)
          "signaling.upstream_uri must be an absolute WebSocket URL"
    bail_if (not (str_eq signaling_uri.scheme "ws" || str_eq signaling_uri.scheme "wss"))
        "signaling.upstream_uri must use ws or wss"
    signaling_host ← context signaling_uri.host_str "signaling.upstream_uri must include a host"
    bail_if (signaling.enabled && not (is_loopback_host parsers.parse_ip (codes signaling_host)))
        "signaling upstream must be loopback-only"
    bail_if (not (is_absolute signaling.plugin_directory))
        "signaling.plugin_directory must be absolute"
    bail_if (is_relative signaling.stun_config_file)
        "signaling.stun_config_file must be an absolute secret file reference"
    bail_if (is_relative signaling.turn_config_file)
        "signaling.turn_config_file must be an absolute secret file reference"

module _ (parsers : Parsers) (parse_endpoint : Text → Option SocketAddr) where
  unfoldable pub check_addresses : Config → Fallible (Unit {0})
  unfolding check_managed_proxy
  check_addresses config = do
    bail_if (is_none (parsers.parse_url config.session.initial_url))
        "initial_url must be an absolute URL"
    bail_if (is_none (parse_endpoint config.network.proxy_endpoint))
        "proxy_endpoint must be an IP address and port"
    check_managed_proxy parsers "tor_proxy" config.network.tor_proxy
    check_managed_proxy parsers "warp_proxy" config.network.warp_proxy

  -- `Config::validate`
  unfoldable pub validate : Config → Fallible (Unit {0})
  unfolding check_public_url check_origins
  validate config = do
    public_url ← check_public_url parsers config.server
    check_tls config.server
    normalized_origins ← check_origins parsers config.server public_url
    check_mode parsers config public_url normalized_origins
    check_lifetimes config
    check_users config
    check_paths config
    check_addresses config
    check_secret_paths config.network
    check_signaling parsers config.signaling
