-- ===== src/Api/Examples.antt =====
-- src/api.rs: requests to a device whose session runs.
use xanh_tab.Prelude.{
  ◌≡◌, ◌<◌, refl, inl, inr, true, false, none, some, Option, List, [], ◌∷◌, eq_iff,
}
use xanh_tab.Text.{Text, codes, text_eq}
use xanh_tab.Text.Laws.{text_eq_iff}
use xanh_tab.Errors.{ok, is_ok}
use xanh_tab.Model.{Url, active, idle, is_active, NavigationCommand}
use xanh_tab.Samples.{auth, bytes, session, csrf, url, device, no_blocklist}
use xanh_tab.Auth.State.{Ticket, for_events, lookup, new}
use xanh_tab.Session.State.{ServerEvent, holds}
use xanh_tab.Session.Requests.{new_with_blocklist}
use xanh_tab.Auth.Access as Access
use xanh_tab.Session.Control as Control
use xanh_tab.App.{System, require_session_id}
use xanh_tab.App.Requests as Requests
use xanh_tab.App.Requests.{run, happen}
use xanh_tab.Auth.Requests as Auth
use xanh_tab.Api.Calls.{calls_of}
use xanh_tab.Config.{default_config}
use xanh_tab.Api.{Headers, Outside, Api, navigate, burn_session, set_auto_burn, validate_origin}
use xanh_tab.Api.Serve.{serve}
use xanh_tab.Api.Guarded.{ComesFromElsewhere, cross_site_is_refused}
use xanh_tab.Api.Anonymous.{NoSession, anonymous_is_refused}
use xanh_tab.Api.Schemes.{foreign_scheme_is_refused}
use xanh_tab.Api.Runs.{serve_is_run}
use xanh_tab.Api.Sockets.{
  text, ping, WebSocketAuthFrame, read_frame, authorize_websocket, Stimulus, incoming, received,
  lagged, forward,
}
use xanh_tab.Api.Authorized.{authorized_holds_lease}
use xanh_tab.Api.Stream.{until_end, received_events, Undisturbed, stream_is_complete}

abbrev api : Api
api = record {
  app = record {
    sessions = device true;
    auth = auth;
    public_base_url = codes "https://tab.example/";
  };
  config = default_config;
  initial_url = url;
}

abbrev outside : Outside
outside = record {
  seen = 3;
  now = 4;
  supply = record { random = some bytes; written = true };
  session_token = some session;
  csrf_token = some csrf;
  ticket_token = some (codes "ticket");
  client_id = 9;
}

-- A page of another site, with the controller's cookie.
abbrev foreign : Headers
foreign = record {
  sec_fetch_site = none;
  origin = some (codes "https://attacker.example");
  csrf = some csrf;
  session = some session;
}

abbrev anonymous : Headers
anonymous = record { sec_fetch_site = none; origin = none; csrf = none; session = none }

abbrev event_ticket : Text
event_ticket = codes "0123456789012345678901234567890123456789"

-- Client 9 holds the lease of session 5, and a ticket for its events is stored.
abbrev system : System
unfolding new_with_blocklist
system =
    let world = new_with_blocklist (device true) no_blocklist 0 in
    record {
      world = record world {
        data_of = record world.data_of {
          snapshot = record world.data_of.snapshot { id = some 5; phase = active };
          controller = some 9;
        };
      };
      auth = record new {
        tickets =
            (
              auth.hash event_ticket,
              record { client_id = 9; expires_at = 100; generation = 0; purpose = for_events },
            )
            ∷ [];
      };
      pairing_file = none;
    }

foreign-ComesFromElsewhere : ComesFromElsewhere default_config foreign
unfolding ComesFromElsewhere text_eq
foreign-ComesFromElsewhere = inr (
  codes "https://attacker.example",
  refl,
  (
    λ e. cc ((text_eq_iff (codes "http://127.0.0.1:8088") (codes "https://attacker.example")).1 e),
    tt,
  ),
)

cross_site_is_refused_example :
    (is_ok (serve api outside foreign (burn_session 5) system).0 ≡ false)
    × ((serve api outside foreign (burn_session 5) system).1 ≡ system)
cross_site_is_refused_example =
    cross_site_is_refused api outside foreign system (burn_session 5) refl
      foreign-ComesFromElsewhere

anonymous_is_refused_example :
    (is_ok (serve api outside anonymous (burn_session 5) system).0 ≡ false)
    × ((serve api outside anonymous (burn_session 5) system).1.world ≡ system.world)
    × ((serve api outside anonymous (burn_session 5) system).1.pairing_file ≡ none)
unfolding NoSession system
anonymous_is_refused_example =
    anonymous_is_refused api outside anonymous system (burn_session 5) refl (inl refl)

abbrev script : Url
script = record url { scheme = "javascript" }

foreign_scheme_is_refused_example :
    let route = navigate 5 (some (NavigationCommand.navigate script)) in
    (is_ok (serve api outside anonymous route system).0 ≡ false)
    × ((serve api outside anonymous route system).1.world ≡ system.world)
    × ((serve api outside anonymous route system).1.pairing_file ≡ none)
unfolding system
foreign_scheme_is_refused_example =
    foreign_scheme_is_refused api outside anonymous system
      (navigate 5 (some (NavigationCommand.navigate script))) script refl
      (λ e. cc ((eq_iff "javascript" "http").1 e)) (λ e. cc ((eq_iff "javascript" "https").1 e))
      (λ e. cc ((eq_iff "javascript" "xanhtab").1 e))

-- Client 9 is signed in, and its own page asks for another time of the burn.
abbrev signed_in : System
signed_in = record system {
  auth = record system.auth {
    sessions =
        (
          auth.hash session,
          record { client_id = 9; csrf_hash = auth.hash csrf; expires_at = 100; generation = 0 },
        )
        ∷ [];
  };
}

abbrev own : Headers
own = record anonymous { csrf = some csrf; session = some session }

calls_of-setting :
    calls_of api outside own (set_auto_burn 5 (some 60)) signed_in
    ≡ Requests.authenticate 3 (some session) (some csrf) true
      ∷ Requests.set_auto_burn_seconds 9 60
      ∷ []
unfolding calls_of system happen Auth.after Access.authenticate validate_origin
calls_of-setting = refl

serve_is_run_example :
    let route = set_auto_burn 5 (some 60) in
    (serve api outside own route signed_in).1
    ≡ run api.app (calls_of api outside own route signed_in) signed_in
serve_is_run_example = serve_is_run api outside own (set_auto_burn 5 (some 60)) signed_in

-- A frame that is its ticket.
abbrev parse_frame : Text → Option WebSocketAuthFrame
parse_frame payload = some (record { kind = codes "authenticate"; ticket = payload })

abbrev authorized : System
authorized =
    (authorize_websocket api parse_frame (some (text event_ticket)) true 4 5 for_events system).1

system_is_authorized :
    (authorize_websocket api parse_frame (some (text event_ticket)) true 4 5 for_events system).0
    ≡ ok tt
unfolding authorize_websocket read_frame Access.consume_ticket system require_session_id
    Control.ensure_controller
system_is_authorized = refl

authorized_holds_lease_example :
    (frame : WebSocketAuthFrame) × (t : Ticket) × (read_frame parse_frame (some (text event_ticket))
      ≡ ok frame)
    × (lookup (auth.hash frame.ticket) system.auth.tickets ≡ some t)
    × (4 < t.expires_at)
    × (t.generation ≡ 0)
    × (t.purpose ≡ for_events)
    × (system.world.data_of.snapshot.id ≡ some 5)
    × (holds (some 9) t.client_id ≡ true)
    × (is_active system.world.data_of.snapshot.phase ≡ true)
    × (lookup (auth.hash frame.ticket) authorized.auth.tickets ≡ none)
unfolding system
authorized_holds_lease_example =
    authorized_holds_lease api parse_frame (some (text event_ticket)) true 4 5 for_events system
      system_is_authorized

abbrev encode : ServerEvent → Option Text
encode event = some (codes "event")

abbrev running : ServerEvent
running = record { event = "session.active"; session = system.world.data_of.snapshot }

abbrev over : ServerEvent
over = record { event = "session.idle"; session = record running.session { phase = idle } }

abbrev stimuli : List Stimulus
stimuli =
    received running true
    ∷ incoming (some (ping []))
    ∷ lagged
    ∷ received over true
    ∷ received running true
    ∷ []

stream_is_complete_example : forward encode stimuli ≡ until_end (running ∷ over ∷ running ∷ [])
unfolding received_events Undisturbed
stream_is_complete_example =
    stream_is_complete encode stimuli ((refl, refl), (tt, (tt, ((refl, refl), ((refl, refl), tt)))))
