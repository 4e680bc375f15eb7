-- ===== src/Api/Operations.antt =====
-- src/api.rs: the operations of the managers behind each handler's guards.
use xanh_tab.Prelude.{ℕ, ◌≡◌, refl, Bool, true, false, Option, none, some, [], ◌∷◌, arith}
use xanh_tab.Text.{Text, codes}
use xanh_tab.Errors.{ok, is_ok}
use xanh_tab.Model.{Url, EgressMode, StreamProfile, NavigationCommand, SessionSnapshot}
use xanh_tab.Auth.State.{AuthContext, TicketPurpose}
use xanh_tab.Auth.Access as Access
use xanh_tab.Auth.Pairing as Pairing
use xanh_tab.Auth.Requests as Auth
use xanh_tab.Session.State.{ensure_active_lease, ensure_lease}
use xanh_tab.Session.Control as Control
use xanh_tab.App as App
use xanh_tab.App.{System, Operation, and_then, on_auth, on_world, require_session_id}
use xanh_tab.App.Requests as Requests
use xanh_tab.App.Requests.{Event, happen, run}
use xanh_tab.Api.{
  Headers, Reply, Outside, Api, give, with_body, parse_json, validate_origin, authenticate,
  validate_navigation_url, snapshot, burnt, ticket, exchange_pairing, start_session, burn_session,
  navigate, set_egress, set_stream_profile, set_blocklist, set_auto_burn, issue_ticket,
}
use xanh_tab.Api.Handlers.{replying, paired_reply, secret_fits, check_navigation, session_cookie}
use xanh_tab.Api.Handlers as Handlers
use xanh_tab.Api.Calls.{only, is_addressed, controls, behind, calls_of}
use xanh_tab.Api.Steps.{
  ActsAs, makes_call, makes_nothing, makes_replying, makes_checked, makes_admitted, makes_behind,
}

module _ (api : Api) (outside : Outside) (headers : Headers) where
  -- A handler whose operation is one call behind `authenticate`.
  makes_one :
      {A : Type 0} (reply : A → Reply) (o : AuthContext → Operation A) (e : AuthContext → Event)
      → ((context : AuthContext) (t : System) → (o context t).1 ≡ happen api.app (e context) t)
      → (context : AuthContext) → ActsAs api.app (replying reply (o context)) (λ _. e context ∷ [])
  makes_one reply o e h context =
      makes_replying api.app reply (o context) (λ _. e context ∷ [])
        (makes_call api.app (o context) (e context) (h context))

  pub makes_start :
      (requested : Option Url)
      → ActsAs api.app
          (Handlers.start_session api outside headers (some requested))
          (calls_of api outside headers (start_session (some requested)))
  unfolding Handlers.start_session with_body parse_json happen calls_of
  makes_start requested =
      let url : Url = elim requested [ some u ↦ u | none ↦ api.initial_url ] in
      let started = λ (context : AuthContext). App.start_session api.app outside.now context url in
      let call = λ (context : AuthContext). Requests.start_session outside.now context url in
      let guard = validate_navigation_url url in
      makes_behind api outside headers
        (λ context. and_then (give guard) (λ _. replying snapshot (started context)))
        (λ context _. only (is_ok guard) (call context ∷ []))
        (λ context.
          makes_checked api.app guard (replying snapshot (started context)) (λ _. call context ∷ [])
            (makes_one snapshot started call (λ _ _. refl) context))
        true

  pub makes_burn :
      (id : ℕ)
      → ActsAs api.app
          (Handlers.burn_session api outside headers id)
          (calls_of api outside headers (burn_session id))
  unfolding Handlers.burn_session happen calls_of
  makes_burn id =
      let reply = burnt (session_cookie api.config.server.secure_cookies (codes "")) in
      let burn = λ (context : AuthContext).
        App.burn_controller_session api.app outside.now context id outside.supply in
      let call = λ (context : AuthContext).
        Requests.burn_controller_session outside.now context id outside.supply in
      makes_behind api outside headers (λ context. replying reply (burn context))
        (λ context _. call context ∷ []) (makes_one reply burn call (λ _ _. refl)) true

  pub makes_navigation :
      (id : ℕ) (command : NavigationCommand)
      → ActsAs api.app
          (Handlers.navigate api outside headers id (some command))
          (calls_of api outside headers (navigate id (some command)))
  unfolding Handlers.navigate with_body parse_json happen calls_of
  makes_navigation id command =
      let moved = λ (context : AuthContext). App.navigate api.app outside.now context id command in
      let call = λ (context : AuthContext). Requests.navigate outside.now context id command in
      let guard = check_navigation command in
      makes_behind api outside headers
        (λ context. and_then (give guard) (λ _. replying snapshot (moved context)))
        (λ context _. only (is_ok guard) (call context ∷ []))
        (λ context.
          makes_checked api.app guard (replying snapshot (moved context)) (λ _. call context ∷ [])
            (makes_one snapshot moved call (λ _ _. refl) context))
        true

  pub makes_switch :
      (id : ℕ) (mode : EgressMode)
      → ActsAs api.app
          (Handlers.set_egress api outside headers id (some mode))
          (calls_of api outside headers (set_egress id (some mode)))
  unfolding Handlers.set_egress with_body parse_json happen calls_of
  makes_switch id mode =
      let switch =
        λ (context : AuthContext). App.switch_egress api.app outside.now context id mode in
      let call = λ (context : AuthContext). Requests.switch_egress outside.now context id mode in
      makes_behind api outside headers (λ context. replying snapshot (switch context))
        (λ context _. call context ∷ []) (makes_one snapshot switch call (λ _ _. refl)) true

  -- The three handlers that change a setting.
  makes_setting :
      (id : ℕ) (set : ℕ → Operation SessionSnapshot) (call : ℕ → Event)
      → ((client_id : ℕ) (u : System) → (set client_id u).1 ≡ happen api.app (call client_id) u)
      → (s : System)
      → (and_then
          (authenticate api outside.seen headers true)
          (λ context.
            and_then (require_session_id id) (λ _. replying snapshot (set context.client_id)))
          s).1
        ≡ run api.app
            (behind api outside headers true
              (λ context t. only (is_addressed id t) (call context.client_id ∷ []))
              s)
            s
  makes_setting id set call h =
      makes_behind api outside headers
        (λ context.
          and_then (require_session_id id) (λ _. replying snapshot (set context.client_id)))
        (λ context t. only (is_addressed id t) (call context.client_id ∷ []))
        (λ context.
          makes_admitted api.app id (replying snapshot (set context.client_id))
            (λ _. call context.client_id ∷ [])
            (makes_one snapshot (λ (c : AuthContext). set c.client_id)
              (λ (c : AuthContext). call c.client_id) (λ c. h c.client_id) context))
        true

  pub makes_profile :
      (id : ℕ) (profile : StreamProfile)
      → ActsAs api.app
          (Handlers.set_stream_profile api outside headers id (some profile))
          (calls_of api outside headers (set_stream_profile id (some profile)))
  unfolding Handlers.set_stream_profile with_body parse_json happen calls_of
  makes_profile id profile =
      makes_setting id
        (λ client_id. on_world (Control.set_stream_profile api.app.sessions client_id profile))
        (λ client_id. Requests.set_stream_profile client_id profile) (λ _ _. refl)

  pub makes_blocklist :
      (id : ℕ) (enabled : Bool)
      → ActsAs api.app
          (Handlers.set_blocklist api outside headers id (some enabled))
          (calls_of api outside headers (set_blocklist id (some enabled)))
  unfolding Handlers.set_blocklist with_body parse_json happen calls_of
  makes_blocklist id enabled =
      makes_setting id
        (λ client_id. on_world (Control.set_blocklist_enabled api.app.sessions client_id enabled))
        (λ client_id. Requests.set_blocklist_enabled client_id enabled) (λ _ _. refl)

  pub makes_auto_burn :
      (id seconds : ℕ)
      → ActsAs api.app
          (Handlers.set_auto_burn api outside headers id (some seconds))
          (calls_of api outside headers (set_auto_burn id (some seconds)))
  unfolding Handlers.set_auto_burn with_body parse_json happen calls_of
  makes_auto_burn id seconds =
      makes_setting id
        (λ client_id. on_world (Control.set_auto_burn_seconds api.app.sessions client_id seconds))
        (λ client_id. Requests.set_auto_burn_seconds client_id seconds) (λ _ _. refl)

  -- The guard on who asks for a ticket.
  makes_controlled :
      (client_id : ℕ) (o : Operation Reply) (e : Event)
      → ActsAs api.app o (λ _. e ∷ [])
      → ActsAs api.app
          (and_then (on_world (Control.ensure_controller client_id)) (λ _. o))
          (λ t. only (controls client_id t) (e ∷ []))
  unfolding run Control.ensure_controller ensure_active_lease ensure_lease
  makes_controlled client_id o e h t = ground (arith, h t)

  pub makes_ticket :
      (purpose : TicketPurpose)
      → ActsAs api.app
          (Handlers.issue_ticket api outside headers (some purpose))
          (calls_of api outside headers (issue_ticket (some purpose)))
  unfolding Handlers.issue_ticket with_body parse_json happen Auth.after calls_of
  makes_ticket purpose =
      let reply = λ (token : Text). ticket token api.config.session.ticket_ttl_seconds in
      let issue = λ (context : AuthContext).
        on_auth
          (Access.issue_ticket api.app.auth outside.now outside.ticket_token context purpose) in
      let call = λ (context : AuthContext).
        Requests.issue_ticket outside.now outside.ticket_token context purpose in
      makes_behind api outside headers
        (λ context.
          and_then (on_world (Control.ensure_controller context.client_id))
            (λ _. replying reply (issue context)))
        (λ context t. only (controls context.client_id t) (call context ∷ []))
        (λ context.
          makes_controlled context.client_id (replying reply (issue context)) (call context)
            (makes_one reply issue call (λ _ _. refl) context))
        true

  pub makes_pairing :
      (secret : Text)
      → ActsAs api.app
          (Handlers.exchange_pairing api outside headers (some secret))
          (calls_of api outside headers (exchange_pairing (some secret)))
  unfolding Handlers.exchange_pairing with_body parse_json happen Auth.after calls_of
  makes_pairing secret =
      let exchange = on_auth (
        Pairing.exchange_pairing api.app.auth outside.now secret outside.session_token
          outside.csrf_token outside.client_id) in
      let reply = paired_reply api.config.server.secure_cookies in
      let call : Event =
        Requests.exchange_pairing outside.now secret outside.session_token outside.csrf_token
          outside.client_id in
      makes_checked api.app (validate_origin api.config headers)
        (and_then (give (secret_fits secret)) (λ _. replying reply exchange))
        (λ _. only (is_ok (secret_fits secret)) (call ∷ []))
        (makes_checked api.app (secret_fits secret) (replying reply exchange) (λ _. call ∷ [])
          (makes_replying api.app reply exchange (λ _. call ∷ [])
            (makes_call api.app exchange call (λ _. refl))))

  pub makes_reading :
      (read : System → Reply) (s : System)
      → (and_then (authenticate api outside.seen headers false) (λ _ t. (ok (read t), t)) s).1
        ≡ run api.app (behind api outside headers false (λ _ _. []) s) s
  makes_reading read =
      makes_behind api outside headers (λ _ t. (ok (read t), t)) (λ _ _. [])
        (λ _. makes_nothing api.app (λ t. ok (read t))) false
