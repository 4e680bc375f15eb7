-- ===== src/Browser.antt =====
-- src/bin/xanhtab-browser.rs: the process that shows the browser, with its history.
--
-- The arguments of the process are modelled as far as they may be refused; what `spawn` answers is
-- an argument. `Url::from_file_path` of the home page, and the reading of the proxy's file, are
-- what they return.
pub mod History
pub mod Arguments
pub mod Backend
pub mod Remote
pub mod Bridge
mod Examples
use xanh_tab.Prelude.{
  ℕ, ◌+◌, ◌-◌, ◌/◌, String, Bool, true, false, not, ◌&&◌, ◌||◌, Option, none, some, List, [], ◌∷◌,
  ◌++◌, ltb, ◌==◌, length, take, get_elem?, if◌then◌else◌, str_eq, is_some_and,
}
use xanh_tab.Text.{Text}
use xanh_tab.Model.{
  Url, EgressMode, StreamProfile, NavigationCommand, navigate, back, forward, reload, full_hd30,
  direct, tor, warp, wire_guard, proxy,
}
use xanh_tab.Fallible.{Fallible, done, bail, ◌>>=◌, ◌>>◌, bail_if, context}
use xanh_tab.Egress.{IpAddr, is_loopback, Parsers}
use xanh_tab.Egress.Proxy.{validate_proxy_url}

-- `BrowserCommand` of src/browser.rs
pub data BrowserCommand : Type 0 where
  start : ℕ → Url → StreamProfile → EgressMode → BrowserCommand
  go : NavigationCommand → BrowserCommand
  stop : BrowserCommand

-- `Pipeline`: the child is the location that it was launched with.
pub record Pipeline : Type 0 where
  pub child : Option Url
  pub session_id : Option ℕ
  pub profile : StreamProfile
  pub egress : EgressMode
  pub history : List Url
  pub position : ℕ

-- `Pipeline::default`
abbrev pub fresh : Pipeline
fresh = record {
  child = none;
  session_id = none;
  profile = full_hd30;
  egress = direct;
  history = [];
  position = 0;
}

-- `Args`, as far as a launch may fail by them, and the parsers.
pub record Setup : Type 0 where
  pub internal_home : Option Url
  pub signaling_host : String
  pub signaling_ip : Option IpAddr
  pub signaling_port : ℕ
  pub proxy_file : Option Text
  pub parsers : Parsers

unfoldable pub resolve_location : Setup → Url → Fallible Url
resolve_location setup url =
    if not (str_eq url.scheme "xanhtab")
    then done url
    else if not (is_some_and url.host_str (λ host. str_eq host "home"))
    then bail "unsupported internal XanhTab route"
    else context setup.internal_home "internal home path must be absolute"

-- The guards of `pipeline_args`.
unfoldable pub check_pipeline_args : Setup → Url → Fallible (Unit {0})
check_pipeline_args setup url = do
  bail_if (not (str_eq url.scheme "http" || str_eq url.scheme "https" || str_eq url.scheme "file"))
      "unsupported browser URL scheme"
  bail_if
      (not (str_eq setup.signaling_host "localhost" || is_some_and setup.signaling_ip is_loopback)
        || setup.signaling_port == 0)
      "embedded signaling server must bind a loopback host and non-zero port"

unfoldable pub proxy_for : Setup → EgressMode → Fallible (Unit {0})
proxy_for setup proxy = do
  value ← context setup.proxy_file "failed to read the proxy URL"
  validate_proxy_url setup.parsers value true
  done tt
proxy_for setup direct = done tt
proxy_for setup tor = done tt
proxy_for setup warp = done tt
proxy_for setup wire_guard = done tt

module _ (setup : Setup) where
  -- What a launch at an address comes to: the location, or the failure.
  unfoldable pub launch : Fallible (Unit {0}) → EgressMode → Url → Fallible Url
  unfolding resolve_location check_pipeline_args proxy_for
  launch spawned egress url = do
    location ← resolve_location setup url
    check_pipeline_args setup location
    proxy_for setup egress
    spawned
    done location

  -- `Pipeline::spawn`
  unfoldable pub spawn : Fallible (Unit {0}) → Url → Pipeline → Fallible (Unit {0}) × Pipeline
  spawn spawned url p = elim (launch spawned p.egress url) [
    | bail e ↦ (bail e, p)
    | done location ↦ (done tt, record p { child = some location })
  ]

  -- `Pipeline::stop`
  abbrev pub halt : Pipeline → Pipeline
  halt p = record p { child = none }

  -- The `next` of `Pipeline::apply`, with the change of the history; an index out of range, where
  -- the source would panic, is `none`.
  unfoldable pub step : NavigationCommand → Pipeline → Option Url × Pipeline
  step (navigate url) p =
      let history = take (p.position + 1) p.history ++ url ∷ [] in
      (some url, record p { history = history; position = length history - 1 })
  step back p =
      let position = p.position - 1 in
      if ltb 0 p.position
      then (get_elem? p.history position, record p { position = position })
      else (none, p)
  step forward p =
      let position = p.position + 1 in
      if ltb position (length p.history)
      then (get_elem? p.history position, record p { position = position })
      else (none, p)
  step reload p = (get_elem? p.history p.position, p)
  step NavigationCommand.stop p = (none, halt p)

  -- `Pipeline::apply`
  unfoldable pub apply :
      Fallible (Unit {0}) → BrowserCommand → Pipeline → Fallible (Unit {0}) × Pipeline
  unfolding step
  apply spawned (start session_id url profile egress) p = spawn spawned url (record {
    child = none;
    session_id = some session_id;
    profile = profile;
    egress = egress;
    history = url ∷ [];
    position = 0;
  })
  apply spawned (go navigation) p =
      let (next, moved) = step navigation p in
      elim next [ none ↦ (done tt, moved) | some url ↦ spawn spawned url (halt moved) ]
  apply spawned stop p = (done tt, halt p)

  unfoldable pub run : List (Fallible (Unit {0}) × BrowserCommand) → Pipeline → Pipeline
  run [] p = p
  run ((spawned, command) ∷ rest) p = run rest (apply spawned command p).1
