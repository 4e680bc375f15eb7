-- ===== src/Api/Runs.antt =====
-- src/api.rs: a request as a run of the managers' operations.
use xanh_tab.Prelude.{◌≡◌, refl, none, some, arith}
use xanh_tab.App.{System, require_session_id}
use xanh_tab.App.Requests.{run}
use xanh_tab.Api.{
  Headers, Route, Outside, Api, with_body, parse_json, session, sampled, health, public_status,
  get_session, metrics, exchange_pairing, start_session, burn_session, navigate, set_egress,
  set_stream_profile, set_blocklist, set_auto_burn, issue_ticket, session_events, session_signal,
  static_file,
}
use xanh_tab.Api.Handlers as Handlers
use xanh_tab.Api.Serve.{serve}
use xanh_tab.Api.Sockets as Sockets
use xanh_tab.Api.Calls.{calls_of}
use xanh_tab.Api.Operations.{
  makes_start, makes_burn, makes_navigation, makes_switch, makes_profile, makes_blocklist,
  makes_auto_burn, makes_ticket, makes_pairing, makes_reading,
}

module _ (api : Api) (outside : Outside) (headers : Headers) where
  -- What a request makes of the system, whatever its route, its headers and its body, and however
  -- the generator and the clocks answer, is what its calls of the managers make of it one after the
  -- other. Behind the guards on the origin and the body these are: the exchange, for a pairing; the
  -- authentication of the headers, and behind it, for a change, the operation of that route for the
  -- context found, unless the URL, the id of the session or the lease is refused; and none for the
  -- health check, the status, the start of a WebSocket and the files of the web client.
  pub serve_is_run :
      (route : Route) (s : System)
      → (serve api outside headers route s).1 ≡ run api.app (calls_of api outside headers route s) s
  unfolding serve with_body parse_json Handlers.get_session Handlers.metrics Handlers.start_session
      Handlers.navigate Handlers.set_egress Handlers.set_stream_profile Handlers.set_blocklist
      Handlers.set_auto_burn Handlers.issue_ticket Handlers.exchange_pairing calls_of run
      Sockets.session_events Sockets.session_signal require_session_id
  serve_is_run health s = refl
  serve_is_run public_status s = refl
  serve_is_run get_session s =
      makes_reading api outside headers
        (λ t. session t.world.data_of.snapshot t.world.data_of.history) s
  serve_is_run metrics s =
      makes_reading api outside headers
        (λ t.
          let d = t.world.data_of.snapshot in sampled d.stream_profile d.egress d.blocklist_enabled)
        s
  serve_is_run (burn_session id) s = makes_burn api outside headers id s
  serve_is_run (start_session (some body)) s = makes_start api outside headers body s
  serve_is_run (start_session none) s = refl
  serve_is_run (navigate id (some body)) s = makes_navigation api outside headers id body s
  serve_is_run (navigate id none) s = refl
  serve_is_run (set_egress id (some body)) s = makes_switch api outside headers id body s
  serve_is_run (set_egress id none) s = refl
  serve_is_run (set_stream_profile id (some body)) s = makes_profile api outside headers id body s
  serve_is_run (set_stream_profile id none) s = refl
  serve_is_run (set_blocklist id (some body)) s = makes_blocklist api outside headers id body s
  serve_is_run (set_blocklist id none) s = refl
  serve_is_run (set_auto_burn id (some body)) s = makes_auto_burn api outside headers id body s
  serve_is_run (set_auto_burn id none) s = refl
  serve_is_run (issue_ticket (some body)) s = makes_ticket api outside headers body s
  serve_is_run (issue_ticket none) s = refl
  serve_is_run (exchange_pairing (some body)) s = makes_pairing api outside headers body s
  serve_is_run (exchange_pairing none) s = refl
  serve_is_run (session_events id) s = ground arith
  serve_is_run (session_signal id) s = ground arith
  serve_is_run static_file s = refl
