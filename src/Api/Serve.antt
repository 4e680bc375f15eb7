-- ===== src/Api/Serve.antt =====
-- src/api.rs: the router.
use xanh_tab.Prelude.{Bool, true, false}
use xanh_tab.Errors.{ok}
use xanh_tab.App.{Operation}
use xanh_tab.Auth.State.{pairing_available}
use xanh_tab.Api.{
  Headers, Route, Reply, Outside, Api, no_content, status, health, public_status, get_session,
  metrics, exchange_pairing, start_session, burn_session, navigate, set_egress, set_stream_profile,
  set_blocklist, set_auto_burn, issue_ticket, session_events, session_signal, static_file, upgraded,
  content,
}
use xanh_tab.Api.Handlers.{replying}
use xanh_tab.Api.Sockets as Sockets
use xanh_tab.Api.Handlers as Handlers

-- The routes whose method is not GET.
abbrev pub is_mutation : Route → Bool
is_mutation health = false
is_mutation public_status = false
is_mutation get_session = false
is_mutation metrics = false
is_mutation (session_events _) = false
is_mutation (session_signal _) = false
is_mutation static_file = false
is_mutation _ = true

-- The routes that need no controller session: the client of a WebSocket is authorized behind the
-- upgrade, by `authorize_websocket`.
abbrev pub is_public : Route → Bool
is_public health = true
is_public public_status = true
is_public (exchange_pairing _) = true
is_public (session_events _) = true
is_public (session_signal _) = true
is_public static_file = true
is_public _ = false

module _ (api : Api) where
  -- `router`
  unfoldable pub serve : Outside → Headers → Route → Operation Reply
  unfolding pairing_available
  serve outside headers health s = (ok no_content, s)
  serve outside headers public_status s =
      (ok (status (pairing_available s.auth) s.world.data_of.snapshot.phase), s)
  serve outside headers get_session s = Handlers.get_session api outside headers s
  serve outside headers metrics s = Handlers.metrics api outside headers s
  serve outside headers (exchange_pairing payload) s =
      Handlers.exchange_pairing api outside headers payload s
  serve outside headers (start_session payload) s =
      Handlers.start_session api outside headers payload s
  serve outside headers (burn_session id) s = Handlers.burn_session api outside headers id s
  serve outside headers (navigate id payload) s = Handlers.navigate api outside headers id payload s
  serve outside headers (set_egress id payload) s =
      Handlers.set_egress api outside headers id payload s
  serve outside headers (set_stream_profile id payload) s =
      Handlers.set_stream_profile api outside headers id payload s
  serve outside headers (set_blocklist id payload) s =
      Handlers.set_blocklist api outside headers id payload s
  serve outside headers (set_auto_burn id payload) s =
      Handlers.set_auto_burn api outside headers id payload s
  serve outside headers (issue_ticket payload) s =
      Handlers.issue_ticket api outside headers payload s
  serve outside headers (session_events id) s =
      replying (λ _. upgraded) (Sockets.session_events api headers id) s
  serve outside headers (session_signal id) s =
      replying (λ _. upgraded) (Sockets.session_signal api headers id) s
  serve outside headers static_file s = (ok content, s)
