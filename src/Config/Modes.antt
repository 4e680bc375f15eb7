-- ===== src/Config/Modes.antt =====
-- src/config.rs: production and development.
use xanh_tab.Prelude.{
  ◌≡◌, true, false, not, Option, some, List, String, arith, is_some, is_some_and, all, any, inl,
  inr, str_eq,
}
use xanh_tab.Text.{Text, codes}
use xanh_tab.Model.{Url}
use xanh_tab.Fallible.{done, Fallible-cases}
use xanh_tab.Egress.{SocketAddr, Parsers, is_loopback}
use xanh_tab.Config.{ServerConfig, Config, is_loopback_host, is_under}
use xanh_tab.Config.Validate.{
  check_public_url, check_origins, validate, normalize_origins, is_https_origin, runtime_paths,
}
use xanh_tab.Config.Sections.{
  tls_is_paired, production_has_control_uid, paths_are_under_run, production_mode, development_mode,
}
use xanh_tab.Config.Accepted.{validate-done}

module _ (parsers : Parsers) (server : ServerConfig) where
  public_url_is_parsed :
      (public_url : Url)
      → check_public_url parsers server ≡ done public_url
      → parsers.parse_url server.public_base_url ≡ some public_url
  unfolding check_public_url
  public_url_is_parsed public_url h = ground arith

  origins_are_normalized :
      (public_url : Url) (origins : List String)
      → check_origins parsers server public_url ≡ done origins
      → (normalize_origins parsers server.allowed_origins ≡ done origins)
        × (any (λ origin. str_eq origin public_url.origin) origins ≡ true)
  unfolding check_origins
  origins_are_normalized public_url origins h =
      elim (Fallible-cases (normalize_origins parsers server.allowed_origins)) [
        | inl (found, q) ↦ ground arith
        | inr (e, q) ↦ ground arith
      ]

module _ (parsers : Parsers) (parse_endpoint : Text → Option SocketAddr) (config : Config) where
  -- An accepted configuration of production has a certificate and a key, an HTTPS public URL,
  -- secure cookies, all three backends, a user for the control plane, only HTTPS origins, among
  -- them the public URL's, and keeps its runtime paths under `/run`.
  pub accepted_production_is_hardened :
      validate parsers parse_endpoint config ≡ done tt
      → config.server.allow_insecure_http ≡ false
      → (public_url : Url) × (origins : List String) × (parsers.parse_url
            config.server.public_base_url
          ≡ some public_url)
        × (str_eq public_url.scheme "https" ≡ true)
        × (normalize_origins parsers config.server.allowed_origins ≡ done origins)
        × (any (λ origin. str_eq origin public_url.origin) origins ≡ true)
        × (any (λ origin. not (is_https_origin origin)) origins ≡ false)
        × (is_some config.server.tls_cert ≡ true)
        × (is_some config.server.tls_key ≡ true)
        × (config.server.secure_cookies ≡ true)
        × (config.browser.enabled ≡ true)
        × (config.network.enabled ≡ true)
        × (config.signaling.enabled ≡ true)
        × (is_some config.network.control_uid ≡ true)
        × (all (λ p. is_under (codes "/run") p.1) (runtime_paths config) ≡ true)
  accepted_production_is_hardened h production =
      let (public_url, origins, url, tls, normalized, mode, _, users, paths, _, _, _) =
        validate-done parsers parse_endpoint config h in
      let (https, cookies, browser, network, signaling, only_https) =
        production_mode parsers config public_url origins mode production in
      let (cert, key) = tls_is_paired config.server tls production in
      let (normal, listed) =
        origins_are_normalized parsers config.server public_url origins normalized in
      (
        public_url,
        origins,
        public_url_is_parsed parsers config.server public_url url,
        https,
        normal,
        listed,
        only_https,
        cert,
        key,
        cookies,
        browser,
        network,
        signaling,
        production_has_control_uid config users production,
        paths_are_under_run config paths production,
      )

  -- An accepted configuration of development listens on a loopback address, and its public URL
  -- names a loopback host.
  pub accepted_development_is_local :
      validate parsers parse_endpoint config ≡ done tt
      → config.server.allow_insecure_http ≡ true
      → (public_url : Url) × (parsers.parse_url config.server.public_base_url ≡ some public_url)
        × (is_loopback config.server.listen.ip ≡ true)
        × (is_some_and public_url.host_str (λ host. is_loopback_host parsers.parse_ip (codes host))
            ≡ true)
  accepted_development_is_local h development =
      let (public_url, origins, url, _, _, mode, _, _, _, _, _, _) =
        validate-done parsers parse_endpoint config h in
      let (listen, host) = development_mode parsers config public_url origins mode development in
      (public_url, public_url_is_parsed parsers config.server public_url url, listen, host)
