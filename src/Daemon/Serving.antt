-- ===== src/Daemon/Serving.antt =====
-- src/main.rs: whom the daemon listens to.
use xanh_tab.Prelude.{◌≡◌, ◌⊎◌, inl, inr, true, Option, some, arith, Bool-cases, Option-cases}
use xanh_tab.Text.{Text}
use xanh_tab.Fallible.{done}
use xanh_tab.Egress.{SocketAddr, Parsers, is_loopback}
use xanh_tab.Config.{Config}
use xanh_tab.Config.Validate.{validate}
use xanh_tab.Config.Modes.{accepted_production_is_hardened, accepted_development_is_local}
use xanh_tab.Daemon.{bind_rustls, bind, listener}

module _ (parsers : Parsers) (parse_endpoint : Text → Option SocketAddr) (config : Config) where
  -- With an accepted configuration the daemon listens: over TLS with the certificate and the key
  -- of the configuration, or, in development only, without TLS at a loopback address.
  pub accepted_daemon_is_guarded :
      validate parsers parse_endpoint config ≡ done tt
      → ((cert : Text) × (key : Text) × (listener config.server ≡ done (bind_rustls cert key))
          × (config.server.tls_cert ≡ some cert)
          × (config.server.tls_key ≡ some key))
        ⊎ ((listener config.server ≡ done bind)
            × (config.server.allow_insecure_http ≡ true)
            × (is_loopback config.server.listen.ip ≡ true))
  unfolding listener
  accepted_daemon_is_guarded h = elim (Bool-cases config.server.allow_insecure_http) [
    | inr production ↦
        let (_, _, _, _, _, _, _, cert, key, _, _, _, _, _, _) =
          accepted_production_is_hardened parsers parse_endpoint config h production in
        elim (Option-cases config.server.tls_cert) [
          | inl q ↦ ground arith
          | inr (c, q) ↦ elim (Option-cases config.server.tls_key) [
            | inl p ↦ ground arith
            | inr (k, p) ↦ inl (c, k, ground arith, q, p)
          ]
        ]
    | inl development ↦
        let (_, _, local, _) =
          accepted_development_is_local parsers parse_endpoint config h development in
        elim (Option-cases config.server.tls_cert) [
          | inl q ↦ inr (ground arith, development, local)
          | inr (c, q) ↦ elim (Option-cases config.server.tls_key) [
            | inl p ↦ inr (ground arith, development, local)
            | inr (k, p) ↦ inl (c, k, ground arith, q, p)
          ]
        ]
  ]
