-- ===== src/Api.antt =====
-- src/api.rs: the requests of the HTTP API, and the guards that stand before its handlers.
--
-- A header or a cookie is `none` where it is missing or no text; a body is `none` where the JSON is
-- refused. The times that a handler reads, and what the generator gives it, are `Outside`.
pub mod Handlers
pub mod Serve
pub mod Guarded
pub mod Anonymous
pub mod Schemes
pub mod Calls
pub mod Steps
pub mod Operations
pub mod Runs
pub mod Sockets
pub mod Authorized
pub mod Stream
pub mod Relay
pub mod Connected
mod Examples
use xanh_tab.Prelude.{
  ℕ, String, Bool, true, false, not, ◌&&◌, ◌||◌, Option, none, some, List, [], ◌∷◌, if◌then◌else◌,
  is_some_and, any, str_eq,
}
use xanh_tab.Text.{Text, codes, text_eq, one_of}
use xanh_tab.Errors.{
  AppError, Result, ok, err, invalid_csrf, invalid_request, unauthorized, not_found,
}
use xanh_tab.Model.{
  Url, EgressMode, StreamProfile, NavigationCommand, SessionPhase, SessionSnapshot,
}
use xanh_tab.Auth.State.{AuthContext, AuthState, TicketPurpose}
use xanh_tab.Auth.Access as Access
use xanh_tab.Session.State.{HistoryEntry}
use xanh_tab.App as App
use xanh_tab.App.{App, System, Supply, Operation, on_auth, and_then}
use xanh_tab.Config.{Config}

-- What the guards read of a request: two headers of the browser, the CSRF header and the cookie.
pub record Headers : Type 0 where
  pub sec_fetch_site : Option Text
  pub origin : Option Text
  pub csrf : Option Text
  pub session : Option Text

-- The routes of `router` with their paths' ids and their bodies; `static_file` is its fallback, and
-- what the extractors of axum refuse is left out.
pub data Route : Type 0 where
  health public_status get_session metrics : Route
  exchange_pairing : Option Text → Route
  start_session : Option (Option Url) → Route
  burn_session : ℕ → Route
  navigate : ℕ → Option NavigationCommand → Route
  set_egress : ℕ → Option EgressMode → Route
  set_stream_profile : ℕ → Option StreamProfile → Route
  set_blocklist : ℕ → Option Bool → Route
  set_auto_burn : ℕ → Option ℕ → Route
  issue_ticket : Option TicketPurpose → Route
  session_events session_signal : ℕ → Route
  static_file : Route

-- The cookie that a handler sets or, without a value, removes.
pub record Cookie : Type 0 where
  pub value : Text
  pub path : Text
  pub http_only : Bool
  pub secure : Bool
  pub same_site_strict : Bool

pub record PairResponse : Type 0 where
  pub client_id : ℕ
  pub csrf_token : Text
  pub expires_in_seconds : ℕ

-- What the handlers answer; `sampled` is the call of `MetricsCollector::sample`, `upgraded` the
-- start of a WebSocket, and `content` what `ServeDir` answers.
pub data Reply : Type 0 where
  no_content : Reply
  status : Bool → SessionPhase → Reply
  paired : Cookie → PairResponse → Reply
  session : SessionSnapshot → List HistoryEntry → Reply
  snapshot : SessionSnapshot → Reply
  burnt : Cookie → SessionSnapshot → Reply
  sampled : StreamProfile → EgressMode → Bool → Reply
  ticket : Text → ℕ → Reply
  upgraded content : Reply

-- The time of `authenticate`, the time of the operation behind it, and what the generator gives.
pub record Outside : Type 0 where
  pub seen : ℕ
  pub now : ℕ
  pub supply : Supply
  pub session_token : Option Text
  pub csrf_token : Option Text
  pub ticket_token : Option Text
  pub client_id : ℕ

-- The parts of `AppState`. `initial_url` is `Url::parse` of the configured one, which
-- `Config::validate` parses too.
pub record Api : Type 0 where
  pub app : App
  pub config : Config
  pub initial_url : Url

-- A result that leaves the system as it is.
abbrev pub give : {A : Type 0} → Result A → Operation A
give r s = (r, s)

unfoldable pub parse_json : {A : Type 0} → Option A → Result A
parse_json none = err (invalid_request "malformed JSON body")
parse_json (some body) = ok body

unfoldable pub is_own_site : Text → Bool
unfolding one_of
is_own_site site = one_of site (codes "same-origin" ∷ codes "same-site" ∷ codes "none" ∷ [])

unfoldable pub is_allowed_origin : List Text → Text → Bool
unfolding text_eq
is_allowed_origin allowed_origins origin = any (λ allowed. text_eq allowed origin) allowed_origins

unfoldable pub validate_origin : Config → Headers → Result (Unit {0})
unfolding is_own_site is_allowed_origin
validate_origin config headers =
    if is_some_and headers.sec_fetch_site (λ site. not (is_own_site site))
    then err invalid_csrf
    else if is_some_and headers.origin
        (λ origin. not (is_allowed_origin config.server.allowed_origins origin))
    then err invalid_csrf
    else ok tt

unfoldable pub is_navigable : String → Bool
is_navigable scheme = str_eq scheme "http" || str_eq scheme "https" || str_eq scheme "xanhtab"

unfoldable pub validate_navigation_url : Url → Result (Unit {0})
unfolding is_navigable
validate_navigation_url url =
    if is_navigable url.scheme
    then ok tt
    else err (invalid_request "only http, https, and xanhtab URLs are allowed")

module _ (api : Api) where
  unfoldable pub authenticate : ℕ → Headers → Bool → Operation AuthContext
  unfolding validate_origin
  authenticate seen headers require_csrf =
      and_then (give (if require_csrf then validate_origin api.config headers else ok tt)) (λ _.
        on_auth (Access.authenticate api.app.auth seen headers.session headers.csrf require_csrf))

-- A handler goes on with the body, where it is accepted.
unfoldable pub with_body : {A B : Type 0} → Option A → (A → Operation B) → Operation B
unfolding parse_json
with_body body f = and_then (give (parse_json body)) f
