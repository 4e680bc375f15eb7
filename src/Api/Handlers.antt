-- ===== src/Api/Handlers.antt =====
-- src/api.rs: the handlers of the HTTP API.
use xanh_tab.Prelude.{ℕ, Bool, true, false, ◌||◌, Option, none, some, ltb, if◌then◌else◌}
use xanh_tab.Text.{Text, codes, byte_len}
use xanh_tab.Errors.{Result, ok, err, invalid_pairing}
use xanh_tab.Model.{Url, EgressMode, StreamProfile, NavigationCommand}
use xanh_tab.Auth.State.{TicketPurpose, ExchangeResult}
use xanh_tab.Auth.Pairing as Pairing
use xanh_tab.Auth.Access as Access
use xanh_tab.Session.Control as Control
use xanh_tab.App as App
use xanh_tab.App.{System, Operation, on_auth, on_world, and_then, require_session_id}
use xanh_tab.Api.{
  Headers, Cookie, Reply, Outside, Api, give, with_body, validate_origin, validate_navigation_url,
  authenticate, paired, session, snapshot, burnt, sampled, ticket,
}

-- The cookie of a handler, by its value.
abbrev pub session_cookie : Bool → Text → Cookie
session_cookie secure value = record {
  value = value;
  path = codes "/";
  http_only = true;
  secure = secure;
  same_site_strict = true;
}

-- The guards on what a start and a navigation ask for.
abbrev pub check_navigation : NavigationCommand → Result (Unit {0})
check_navigation (NavigationCommand.navigate url) = validate_navigation_url url
check_navigation _ = ok tt

abbrev pub secret_fits : Text → Result (Unit {0})
unfolding byte_len
secret_fits secret =
    if ltb (byte_len secret) 40 || ltb 128 (byte_len secret) then err invalid_pairing else ok tt

-- The reply to a pairing.
abbrev pub paired_reply : Bool → ExchangeResult → Reply
paired_reply secure exchange = paired (session_cookie secure exchange.session_token) (record {
  client_id = exchange.client_id;
  csrf_token = exchange.csrf_token;
  expires_in_seconds = exchange.expires_in_seconds;
})

abbrev pub replying : {A : Type 0} → (A → Reply) → Operation A → Operation Reply
replying f o = and_then o (λ a s. (ok (f a), s))

module _ (api : Api) (outside : Outside) (headers : Headers) where
  unfoldable pub exchange_pairing : Option Text → Operation Reply
  unfolding byte_len
  exchange_pairing payload = with_body payload (λ secret.
      and_then (give (validate_origin api.config headers)) (λ _.
        and_then (give (secret_fits secret)) (λ _.
          replying (paired_reply api.config.server.secure_cookies) (
            on_auth (
              Pairing.exchange_pairing api.app.auth outside.now secret outside.session_token
                outside.csrf_token outside.client_id)))))

  unfoldable pub get_session : Operation Reply
  get_session =
      and_then (authenticate api outside.seen headers false)
        (λ _ s. (ok (session s.world.data_of.snapshot s.world.data_of.history), s))

  unfoldable pub start_session : Option (Option Url) → Operation Reply
  start_session payload = with_body payload (λ requested.
      and_then (authenticate api outside.seen headers true) (λ context.
        let url : Url = elim requested [ some u ↦ u | none ↦ api.initial_url ] in
        and_then (give (validate_navigation_url url))
          (λ _. replying snapshot (App.start_session api.app outside.now context url))))

  unfoldable pub burn_session : ℕ → Operation Reply
  burn_session id = and_then (authenticate api outside.seen headers true) (λ context.
      replying (burnt (session_cookie api.config.server.secure_cookies (codes "")))
        (App.burn_controller_session api.app outside.now context id outside.supply))

  unfoldable pub navigate : ℕ → Option NavigationCommand → Operation Reply
  navigate id payload = with_body payload (λ command.
      and_then (authenticate api outside.seen headers true) (λ context.
        and_then (give (check_navigation command))
          (λ _. replying snapshot (App.navigate api.app outside.now context id command))))

  unfoldable pub set_egress : ℕ → Option EgressMode → Operation Reply
  set_egress id payload = with_body payload (λ mode.
      and_then (authenticate api outside.seen headers true)
        (λ context. replying snapshot (App.switch_egress api.app outside.now context id mode)))

  unfoldable pub set_stream_profile : ℕ → Option StreamProfile → Operation Reply
  set_stream_profile id payload = with_body payload (λ profile.
      and_then (authenticate api outside.seen headers true) (λ context.
        and_then (require_session_id id) (λ _.
          replying snapshot
            (on_world (Control.set_stream_profile api.app.sessions context.client_id profile)))))

  unfoldable pub set_blocklist : ℕ → Option Bool → Operation Reply
  set_blocklist id payload = with_body payload (λ enabled.
      and_then (authenticate api outside.seen headers true) (λ context.
        and_then (require_session_id id) (λ _.
          replying snapshot
            (on_world (Control.set_blocklist_enabled api.app.sessions context.client_id enabled)))))

  unfoldable pub set_auto_burn : ℕ → Option ℕ → Operation Reply
  set_auto_burn id payload = with_body payload (λ seconds.
      and_then (authenticate api outside.seen headers true) (λ context.
        and_then (require_session_id id) (λ _.
          replying snapshot
            (on_world (Control.set_auto_burn_seconds api.app.sessions context.client_id seconds)))))

  unfoldable pub metrics : Operation Reply
  metrics = and_then (authenticate api outside.seen headers false) (λ _ s.
      let d = s.world.data_of.snapshot in
      (ok (sampled d.stream_profile d.egress d.blocklist_enabled), s))

  unfoldable pub issue_ticket : Option TicketPurpose → Operation Reply
  issue_ticket payload = with_body payload (λ purpose.
      and_then (authenticate api outside.seen headers true) (λ context.
        and_then (on_world (Control.ensure_controller context.client_id)) (λ _.
          replying (λ token. ticket token api.config.session.ticket_ttl_seconds)
            (on_auth (
              Access.issue_ticket api.app.auth outside.now outside.ticket_token context purpose)))))
