-- ===== src/App/Requests.antt =====
-- src/lib.rs and src/api.rs: what may happen to the system, and runs of it.
--
-- The operations of `AppState` exclude each other. A handler of src/api.rs that changes a setting,
-- pairs, or asks for a ticket takes no part in that lock: here each of its calls on a manager is an
-- event of its own, so runs have them in every order.
use xanh_tab.Prelude.{ℕ, Bool, Option, none, List, [], ◌∷◌}
use xanh_tab.Text.{Text}
use xanh_tab.Model.{Url, EgressMode, StreamProfile, NavigationCommand}
use xanh_tab.Blocklist.{Blocklist}
use xanh_tab.Auth.State.{AuthContext, TicketPurpose, new}
use xanh_tab.Auth.Requests as Auth
use xanh_tab.Auth.Requests.{Call, after}
use xanh_tab.Session.Requests.{new_with_blocklist}
use xanh_tab.Session.Control as Control
use xanh_tab.App as App
use xanh_tab.App.{App, System, Supply}

pub data Event : Type 0 where
  start_session : ℕ → AuthContext → Url → Event
  navigate : ℕ → AuthContext → ℕ → NavigationCommand → Event
  switch_egress : ℕ → AuthContext → ℕ → EgressMode → Event
  burn_controller_session : ℕ → AuthContext → ℕ → Supply → Event
  auto_burn_if_due : Supply → Event
  recover_expired_auth : ℕ → Supply → Event
  exchange_pairing : ℕ → Text → Option Text → Option Text → ℕ → Event
  authenticate : ℕ → Option Text → Option Text → Bool → Event
  issue_ticket : ℕ → Option Text → AuthContext → TicketPurpose → Event
  consume_ticket : ℕ → Text → TicketPurpose → Event
  set_stream_profile : ℕ → StreamProfile → Event
  set_blocklist_enabled : ℕ → Bool → Event
  set_auto_burn_seconds : ℕ → ℕ → Event

module _ (app : App) where
  -- A call of the authentication manager.
  abbrev pub calling : Call → System → System
  calling c s = record s { auth = after app.auth c s.auth }

  unfoldable pub happen : Event → System → System
  happen (start_session now context url) s = (App.start_session app now context url s).1
  happen (navigate now context id command) s = (App.navigate app now context id command s).1
  happen (switch_egress now context id mode) s = (App.switch_egress app now context id mode s).1
  happen (burn_controller_session now context id supply) s =
      (App.burn_controller_session app now context id supply s).1
  happen (auto_burn_if_due supply) s = (App.auto_burn_if_due app supply s).1
  happen (recover_expired_auth now supply) s = (App.recover_expired_auth app now supply s).1
  happen (exchange_pairing now presented session csrf client_id) s =
      calling (Auth.exchange_pairing now presented session csrf client_id) s
  happen (authenticate now session csrf require_csrf) s =
      calling (Auth.authenticate now session csrf require_csrf) s
  happen (issue_ticket now token context purpose) s =
      calling (Auth.issue_ticket now token context purpose) s
  happen (consume_ticket now token purpose) s = calling (Auth.consume_ticket now token purpose) s
  happen (set_stream_profile client_id profile) s =
      (App.on_world (Control.set_stream_profile app.sessions client_id profile) s).1
  happen (set_blocklist_enabled client_id enabled) s =
      (App.on_world (Control.set_blocklist_enabled app.sessions client_id enabled) s).1
  happen (set_auto_burn_seconds client_id seconds) s =
      (App.on_world (Control.set_auto_burn_seconds app.sessions client_id seconds) s).1

  unfoldable pub run : List Event → System → System
  run [] s = s
  run (e ∷ es) s = run es (happen e s)

  -- The system when the daemon has started: `rotate_pairing` and `write_pairing_file`, whose errors
  -- end the daemon.
  unfoldable pub boot : Blocklist → ℕ → Supply → System
  unfolding new_with_blocklist
  boot blocklist now supply =
      (App.rotate_pairing_material app supply (record {
        world = new_with_blocklist app.sessions blocklist now;
        auth = new;
        pairing_file = none;
      })).1
