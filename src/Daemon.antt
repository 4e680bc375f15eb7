-- ===== src/Daemon.antt =====
-- src/main.rs: what the daemon does between its configuration and its first request, and its
-- watchdog.
pub mod Serving
use xanh_tab.Prelude.{
  ℕ, Bool, true, false, not, ◌&&◌, ◌*◌, Option, none, some, List, [], ◌∷◌, if◌then◌else◌,
}
use xanh_tab.Text.{Text}
use xanh_tab.Fallible.{Fallible, done, bail, bail_if, ◌>>=◌, ◌>>◌}
use xanh_tab.Blocklist.{Blocklist, is_empty}
use xanh_tab.Auth.State.{Auth, new}
use xanh_tab.Session.State.{Manager}
use xanh_tab.App as App
use xanh_tab.App.{App, System, Supply}
use xanh_tab.Config.{ServerConfig, Config, auth_ttl, ticket_ttl}

-- How the daemon listens.
pub data Listener : Type 0 where
  bind_rustls : Text → Text → Listener
  bind : Listener

unfoldable pub ensure_runtime_blocklist : Config → Blocklist → Fallible (Unit {0})
unfolding is_empty
ensure_runtime_blocklist config blocklist =
    bail_if (not config.server.allow_insecure_http && is_empty blocklist)
      "production blocklist must exist and contain at least one hostname"

-- The `match` on the certificate and the key.
unfoldable pub listener : ServerConfig → Fallible Listener
listener server = elim server.tls_cert [
  | some cert ↦ elim server.tls_key [
    | some key ↦ done (bind_rustls cert key)
    | none ↦
        if server.allow_insecure_http then done bind else bail "TLS is required by configuration"
  ]
  | none ↦ if server.allow_insecure_http then done bind else bail "TLS is required by configuration"
]

-- The managers that the configuration asks for; the rest of them is given, with the runtime
-- directory, whose text is a `String` there.
unfoldable pub managers : Config → Manager → Auth → App
unfolding auth_ttl ticket_ttl
managers config manager auth = record {
  sessions = record manager {
    initial_egress = config.network.initial_mode;
    initial_profile = config.session.initial_profile;
    initial_auto_burn_seconds = config.session.auto_burn_seconds;
  };
  auth = record auth { auth_ttl = auth_ttl config; ticket_ttl = ticket_ttl config };
  public_base_url = config.server.public_base_url;
}

-- A round of `spawn_lifecycle_watchdog`, which only tells of what fails.
unfoldable pub watch : App → ℕ → Supply → Supply → System → System
watch app now first second s =
    (App.auto_burn_if_due app second (App.recover_expired_auth app now first s).1).1
