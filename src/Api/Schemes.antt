-- ===== src/Api/Schemes.antt =====
-- src/api.rs: the URLs that a request may open.
use xanh_tab.Prelude.{◌≡◌, ◌≢◌, true, false, Option, none, some, arith, eq_iff}
use xanh_tab.Errors.{is_ok}
use xanh_tab.Model.{Url, NavigationCommand}
use xanh_tab.App.{System}
use xanh_tab.Api.{
  Headers, Route, Outside, Api, is_navigable, validate_navigation_url, with_body, parse_json,
  start_session, navigate,
}
use xanh_tab.Api.Handlers.{check_navigation}
use xanh_tab.Api.Handlers as Handlers
use xanh_tab.Api.Serve.{serve}
use xanh_tab.Api.Anonymous.{authenticate_touches_auth}

-- The URL that a request asks to open.
abbrev pub opens : Route → Option Url
opens (start_session (some (some url))) = some url
opens (navigate _ (some (NavigationCommand.navigate url))) = some url
opens _ = none

foreign_scheme :
    (url : Url)
    → url.scheme ≢ "http"
    → url.scheme ≢ "https"
    → url.scheme ≢ "xanhtab"
    → is_ok (validate_navigation_url url) ≡ false
unfolding validate_navigation_url is_navigable
foreign_scheme url h1 h2 h3 = ground (
  arith,
  (eq_iff url.scheme "http").0,
  (eq_iff url.scheme "https").0,
  (eq_iff url.scheme "xanhtab").0,
)

module _ (api : Api) (outside : Outside) (headers : Headers) (s : System) where
  -- A request that asks to open a URL whose scheme is neither `http`, `https` nor `xanhtab` fails,
  -- and it changes neither the session manager nor the pairing file.
  pub foreign_scheme_is_refused :
      (route : Route) (url : Url)
      → opens route ≡ some url
      → url.scheme ≢ "http"
      → url.scheme ≢ "https"
      → url.scheme ≢ "xanhtab"
      → (is_ok (serve api outside headers route s).0 ≡ false)
        × ((serve api outside headers route s).1.world ≡ s.world)
        × ((serve api outside headers route s).1.pairing_file ≡ s.pairing_file)
  unfolding serve with_body parse_json Handlers.start_session Handlers.navigate
  foreign_scheme_is_refused (start_session (some (some asked))) url e h1 h2 h3 = ground (
    arith,
    foreign_scheme url h1 h2 h3,
    authenticate_touches_auth api outside.seen headers s true,
  )
  foreign_scheme_is_refused (navigate id (some (NavigationCommand.navigate asked))) url e h1 h2 h3 =
      ground (
        arith,
        foreign_scheme url h1 h2 h3,
        authenticate_touches_auth api outside.seen headers s true,
      )
  foreign_scheme_is_refused Route.health url e h1 h2 h3 = cc
  foreign_scheme_is_refused Route.public_status url e h1 h2 h3 = cc
  foreign_scheme_is_refused Route.get_session url e h1 h2 h3 = cc
  foreign_scheme_is_refused Route.metrics url e h1 h2 h3 = cc
  foreign_scheme_is_refused (Route.exchange_pairing _) url e h1 h2 h3 = cc
  foreign_scheme_is_refused (start_session none) url e h1 h2 h3 = cc
  foreign_scheme_is_refused (start_session (some none)) url e h1 h2 h3 = cc
  foreign_scheme_is_refused (Route.burn_session _) url e h1 h2 h3 = cc
  foreign_scheme_is_refused (navigate _ none) url e h1 h2 h3 = cc
  foreign_scheme_is_refused (navigate _ (some NavigationCommand.back)) url e h1 h2 h3 = cc
  foreign_scheme_is_refused (navigate _ (some NavigationCommand.forward)) url e h1 h2 h3 = cc
  foreign_scheme_is_refused (navigate _ (some NavigationCommand.reload)) url e h1 h2 h3 = cc
  foreign_scheme_is_refused (navigate _ (some NavigationCommand.stop)) url e h1 h2 h3 = cc
  foreign_scheme_is_refused (Route.set_egress _ _) url e h1 h2 h3 = cc
  foreign_scheme_is_refused (Route.set_stream_profile _ _) url e h1 h2 h3 = cc
  foreign_scheme_is_refused (Route.set_blocklist _ _) url e h1 h2 h3 = cc
  foreign_scheme_is_refused (Route.set_auto_burn _ _) url e h1 h2 h3 = cc
  foreign_scheme_is_refused (Route.issue_ticket _) url e h1 h2 h3 = cc
  foreign_scheme_is_refused (Route.session_events _) url e h1 h2 h3 = cc
  foreign_scheme_is_refused (Route.session_signal _) url e h1 h2 h3 = cc
  foreign_scheme_is_refused Route.static_file url e h1 h2 h3 = cc
