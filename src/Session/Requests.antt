-- ===== src/Session/Requests.antt =====
-- src/session.rs: the operations of the session manager as requests, and runs of them.
--
-- `AppState.lifecycle` (src/lib.rs) lets one of `start`, `navigate`, `switch_egress` and the burns
-- run at a time, so a run is a list.
use xanh_tab.Prelude.{ℕ, Bool, Option, none, some, List, [], ◌∷◌, arith}
use xanh_tab.Model.{Url, EgressMode, StreamProfile, NavigationCommand, SessionSnapshot}
use xanh_tab.Blocklist.{Blocklist}
use xanh_tab.Session.State.{World, Manager, Action}
use xanh_tab.Session.Lifecycle.{fresh_snapshot}
use xanh_tab.Session.Lifecycle
use xanh_tab.Session.Switch
use xanh_tab.Session.Control
use xanh_tab.Session.Invariant.{
  IsSettled, start-IsSettled, burn-IsSettled, burn_unchecked-IsSettled,
}
use xanh_tab.Session.Settled.{
  navigate-IsSettled, set_stream_profile-IsSettled, set_blocklist_enabled-IsSettled,
  set_auto_burn_seconds-IsSettled, switch_egress-IsSettled,
}

pub data Request : Type 0 where
  start : ℕ → Url → Request
  navigate : ℕ → NavigationCommand → Request
  set_stream_profile : ℕ → StreamProfile → Request
  set_blocklist_enabled : ℕ → Bool → Request
  set_auto_burn_seconds : ℕ → ℕ → Request
  switch_egress : ℕ → EgressMode → Request
  burn : ℕ → Request
  force_burn : Request

-- The client that asks; the watchdog's burn has none.
abbrev pub client : Request → Option ℕ
client (start c _) = some c
client (navigate c _) = some c
client (set_stream_profile c _) = some c
client (set_blocklist_enabled c _) = some c
client (set_auto_burn_seconds c _) = some c
client (switch_egress c _) = some c
client (burn c) = some c
client force_burn = none

module _ (m : Manager) where
  unfoldable pub serve : Request → Action SessionSnapshot
  serve (start c url) = Lifecycle.start m c url
  serve (navigate c command) = Control.navigate m c command
  serve (set_stream_profile c profile) = Control.set_stream_profile m c profile
  serve (set_blocklist_enabled c enabled) = Control.set_blocklist_enabled m c enabled
  serve (set_auto_burn_seconds c seconds) = Control.set_auto_burn_seconds m c seconds
  serve (switch_egress c mode) = Switch.switch_egress m c mode
  serve (burn c) = Lifecycle.burn m c
  serve force_burn = Lifecycle.burn_unchecked m

  -- The world after a list of requests, whatever each of them returned.
  unfoldable pub run : List Request → World → World
  run [] w = w
  run (r ∷ rs) w = run rs (serve r w).1

  -- `SessionManager::new_with_blocklist`, in a world where the daemon has just started.
  unfoldable pub new_with_blocklist : Blocklist → ℕ → World
  new_with_blocklist blocklist now = record {
    data_of = record {
      snapshot = fresh_snapshot m;
      controller = none;
      history = [];
      last_activity = now;
    };
    runtime = [];
    blocklist = blocklist;
    log = [];
    events = [];
    tick = 0;
  }

  pub serve-IsSettled :
      (r : Request) (w : World) → IsSettled w.data_of → IsSettled (serve r w).1.data_of
  unfolding serve
  serve-IsSettled (start c url) w h = start-IsSettled m c url w h
  serve-IsSettled (navigate c command) w h = navigate-IsSettled m c command w h
  serve-IsSettled (set_stream_profile c profile) w h = set_stream_profile-IsSettled m c profile w h
  serve-IsSettled (set_blocklist_enabled c enabled) w h =
      set_blocklist_enabled-IsSettled m c enabled w h
  serve-IsSettled (set_auto_burn_seconds c seconds) w h =
      set_auto_burn_seconds-IsSettled m c seconds w h
  serve-IsSettled (switch_egress c mode) w h = switch_egress-IsSettled m c mode w h
  serve-IsSettled (burn c) w h = burn-IsSettled m c w h
  serve-IsSettled force_burn w h = burn_unchecked-IsSettled m w h

  pub run-IsSettled :
      (rs : List Request) (w : World) → IsSettled w.data_of → IsSettled (run rs w).data_of
  unfolding run
  run-IsSettled [] w h = h
  run-IsSettled (r ∷ rs) w h = run-IsSettled rs (serve r w).1 (serve-IsSettled r w h)

  -- From the start of the daemon on, whatever requests come and however the backends and the file
  -- system answer, the manager is settled between requests: the phase is Idle, Active or Failed;
  -- an idle session has no id, no history, no failure and no controller attached, an active one an
  -- id, a history, no failure and an attached controller, a failed one a message; there is a lease
  -- exactly if there is an id, and so for the address; the history keeps its bound.
  pub run-new-IsSettled :
      (blocklist : Blocklist) (now : ℕ) (rs : List Request)
      → IsSettled (run rs (new_with_blocklist blocklist now)).data_of
  unfolding new_with_blocklist
  run-new-IsSettled blocklist now rs =
      run-IsSettled rs (new_with_blocklist blocklist now) (ground arith)
