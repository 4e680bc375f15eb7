-- ===== src/Api/Calls.antt =====
-- src/api.rs: which calls of the managers a request is, by its guards.
use xanh_tab.Prelude.{
  ℕ, Bool, true, false, not, ◌&&◌, ◌||◌, none, some, List, [], ◌∷◌, ◌==◌, if◌then◌else◌,
  is_some_and,
}
use xanh_tab.Errors.{ok, err, is_ok}
use xanh_tab.Model.{Url, is_active}
use xanh_tab.Auth.State.{AuthContext}
use xanh_tab.Auth.Access as Access
use xanh_tab.Session.State.{holds}
use xanh_tab.App.{System}
use xanh_tab.App.Requests as Requests
use xanh_tab.App.Requests.{Event, happen}
use xanh_tab.Api.{
  Headers, Route, Outside, Api, validate_origin, validate_navigation_url, get_session, metrics,
  exchange_pairing, start_session, burn_session, navigate, set_egress, set_stream_profile,
  set_blocklist, set_auto_burn, issue_ticket,
}
use xanh_tab.Api.Handlers.{check_navigation, secret_fits}

-- The calls behind a guard.
abbrev pub only : Bool → List Event → List Event
only b es = if b then es else []

-- The session has the id of the path.
abbrev pub is_addressed : ℕ → System → Bool
is_addressed id s = is_some_and s.world.data_of.snapshot.id (λ current. current == id)

-- The client holds the lease of an active session.
abbrev pub controls : ℕ → System → Bool
controls client_id s =
    holds s.world.data_of.controller client_id && is_active s.world.data_of.snapshot.phase

module _ (api : Api) (outside : Outside) (headers : Headers) where
  abbrev pub entering : Bool → Event
  entering require_csrf =
      Requests.authenticate outside.seen headers.session headers.csrf require_csrf

  -- The authentication, and behind it the calls for its context.
  abbrev pub behind : Bool → (AuthContext → System → List Event) → System → List Event
  behind require_csrf calls s =
      let (r, _) =
        Access.authenticate api.app.auth outside.seen headers.session headers.csrf require_csrf
          s.auth in
      let rest : List Event = elim r [
        | ok context ↦ calls context (happen api.app (entering require_csrf) s)
        | err _ ↦ []
      ] in
      only (not require_csrf || is_ok (validate_origin api.config headers))
        (entering require_csrf ∷ rest)

  -- The calls that a request makes, one after the other, in a system.
  unfoldable pub calls_of : Route → System → List Event
  calls_of get_session s = behind false (λ _ _. []) s
  calls_of metrics s = behind false (λ _ _. []) s
  calls_of (exchange_pairing (some secret)) s = only (is_ok (validate_origin api.config headers)) (
      only (is_ok (secret_fits secret)) (
        Requests.exchange_pairing outside.now secret outside.session_token outside.csrf_token
          outside.client_id
        ∷ []))
  calls_of (start_session (some requested)) s =
      let url : Url = elim requested [ some u ↦ u | none ↦ api.initial_url ] in
      behind true
        (λ context _.
          only (is_ok (validate_navigation_url url))
            (Requests.start_session outside.now context url ∷ []))
        s
  calls_of (burn_session id) s =
      behind true
        (λ context _. Requests.burn_controller_session outside.now context id outside.supply ∷ []) s
  calls_of (navigate id (some command)) s =
      behind true
        (λ context _.
          only (is_ok (check_navigation command))
            (Requests.navigate outside.now context id command ∷ []))
        s
  calls_of (set_egress id (some mode)) s =
      behind true (λ context _. Requests.switch_egress outside.now context id mode ∷ []) s
  calls_of (set_stream_profile id (some profile)) s =
      behind true
        (λ context t.
          only (is_addressed id t) (Requests.set_stream_profile context.client_id profile ∷ []))
        s
  calls_of (set_blocklist id (some enabled)) s =
      behind true
        (λ context t.
          only (is_addressed id t) (Requests.set_blocklist_enabled context.client_id enabled ∷ []))
        s
  calls_of (set_auto_burn id (some seconds)) s =
      behind true
        (λ context t.
          only (is_addressed id t) (Requests.set_auto_burn_seconds context.client_id seconds ∷ []))
        s
  calls_of (issue_ticket (some purpose)) s =
      behind true
        (λ context t.
          only (controls context.client_id t)
            (Requests.issue_ticket outside.now outside.ticket_token context purpose ∷ []))
        s
  calls_of _ s = []
