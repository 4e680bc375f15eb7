-- ===== src/RemoteConfig/Applied.antt =====
-- src/remote_config.rs: what a public configuration can change.
use xanh_tab.Prelude.{String, ℕ, ◌≡◌, ◌≤◌, refl, ◌⊎◌, Option, arith}
use xanh_tab.Text.{Text}
use xanh_tab.Fallible.{Fallible, done, bail, ◌>>=◌}
use xanh_tab.Egress.{SocketAddr, Parsers}
use xanh_tab.Config.{Config}
use xanh_tab.Config.Validate.{validate, with_context}
use xanh_tab.Config.Sections.{>>=-done}
use xanh_tab.RemoteConfig.{
  RemoteConfigDocument, Place, parse_remote_config, require_schema_v1, require_regular_file,
  auto_burn_ok, or_else, override, apply_public_config_file,
}

-- The seconds are the old ones, or zero, or between a minute and a day.
abbrev pub IsReviewed : ℕ → ℕ → Type 0
IsReviewed old seconds = (seconds ≡ old) ⊎ ((seconds ≡ 0) ⊎ ((60 ≤ seconds) × (seconds ≤ 86_400)))

parsed-IsReviewed :
    (document parsed : RemoteConfigDocument) (old : ℕ)
    → parse_remote_config document ≡ done parsed
    → IsReviewed old (or_else parsed.session.auto_burn_seconds old)
unfolding parse_remote_config require_schema_v1 auto_burn_ok
parsed-IsReviewed document parsed old h = ground arith

with_context-done :
    {A : Type 0} (m : Fallible A) (e : String) (a : A) → with_context m e ≡ done a → m ≡ done a
with_context-done (done b) e a h = h
with_context-done (bail m) e a h = cc

module _ (parsers : Parsers) (parse_endpoint : Text → Option SocketAddr) where
  applied_is_parsed :
      (config config' : Config) (place : Place RemoteConfigDocument)
      → apply_public_config_file parsers parse_endpoint config place ≡ done config'
      → (document : RemoteConfigDocument) × (parsed : RemoteConfigDocument) × (parse_remote_config
            document
          ≡ done parsed)
        × (validate parsers parse_endpoint (override parsed.session config) ≡ done tt)
        × (config' ≡ override parsed.session config)
  unfolding apply_public_config_file
  applied_is_parsed config config' place h =
      let (_, _, k1) = >>=-done (require_regular_file place) _ config' h in
      let read = with_context (place.document >>= parse_remote_config) "invalid public config" in
      let (parsed, r, k2) = >>=-done read _ config' k1 in
      let (document, _, p) =
        >>=-done place.document parse_remote_config parsed
          (with_context-done (place.document >>= parse_remote_config) _ parsed r) in
      let (_, valid, k3) =
        >>=-done (validate parsers parse_endpoint (override parsed.session config)) _ config' k2 in
      (document, parsed, p, valid, ground arith)

  -- A public configuration that is applied leaves a valid configuration, in which only the initial
  -- URL, the initial profile and the time of the automatic burn may have changed, the last to zero
  -- or to a time between a minute and a day.
  pub applied_changes_little :
      (config config' : Config) (place : Place RemoteConfigDocument)
      → apply_public_config_file parsers parse_endpoint config place ≡ done config'
      → (validate parsers parse_endpoint config' ≡ done tt)
        × (config'.server ≡ config.server)
        × (config'.browser ≡ config.browser)
        × (config'.signaling ≡ config.signaling)
        × (config'.network ≡ config.network)
        × (config'.blocklist ≡ config.blocklist)
        × (config'.session.runtime_dir ≡ config.session.runtime_dir)
        × (config'.session.pairing_file ≡ config.session.pairing_file)
        × (config'.session.auth_ttl_seconds ≡ config.session.auth_ttl_seconds)
        × (config'.session.ticket_ttl_seconds ≡ config.session.ticket_ttl_seconds)
        × IsReviewed config.session.auto_burn_seconds config'.session.auto_burn_seconds
  unfolding override
  applied_changes_little config config' place h =
      let (document, parsed, p, valid, e) = applied_is_parsed config config' place h in
      rw e (
        valid,
        refl,
        refl,
        refl,
        refl,
        refl,
        refl,
        refl,
        refl,
        refl,
        parsed-IsReviewed document parsed config.session.auto_burn_seconds p,
      )
