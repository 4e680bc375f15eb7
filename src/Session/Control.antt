-- ===== src/Session/Control.antt =====
-- src/session.rs: navigation and the settings of a running session.
use xanh_tab.Prelude.{ℕ, Bool, some, ltb}
use xanh_tab.Errors.{invalid_request}
use xanh_tab.Model.{StreamProfile, NavigationCommand, SessionSnapshot}
use xanh_tab.Session.State.{
  browser_navigate, Manager, Action, ◌>>=◌, ◌>>◌, pure, throw_if, get, modify, publish, call,
  instant_now, utc_now, ensure_active_lease, push_history, ensure_navigation_allowed,
}

module _ (m : Manager) where
  -- The test of an address by the policy.
  abbrev check_target : NavigationCommand → Bool → Action (Unit {0})
  check_target (NavigationCommand.navigate url) enabled = ensure_navigation_allowed url enabled
  check_target _ enabled = pure tt

  -- The first section of `navigate`: the activity is noted before the address is tested.
  unfoldable pub begin_navigate : ℕ → NavigationCommand → Action (Unit {0})
  unfolding ensure_active_lease ensure_navigation_allowed
  begin_navigate client_id command = do
    ensure_active_lease client_id
    now ← instant_now m
    modify (λ d. record d { last_activity = now })
    d ← get
    check_target command d.snapshot.blocklist_enabled

  -- Its last section.
  unfoldable pub finish_navigate : NavigationCommand → Action SessionSnapshot
  unfolding push_history
  finish_navigate (NavigationCommand.navigate url) = do
    visited_at ← utc_now m
    modify (λ d. record d {
      snapshot = record d.snapshot { url = some url };
      history = push_history d.history url visited_at;
    })
    publish "session.navigation"
  finish_navigate _ = publish "session.navigation"

  -- `SessionManager::navigate`
  unfoldable pub navigate : ℕ → NavigationCommand → Action SessionSnapshot
  navigate client_id command = do
    begin_navigate client_id command
    call m (browser_navigate command)
    finish_navigate command

  -- `SessionManager::set_stream_profile`
  unfoldable pub set_stream_profile : ℕ → StreamProfile → Action SessionSnapshot
  unfolding ensure_active_lease
  set_stream_profile client_id profile = do
    ensure_active_lease client_id
    now ← instant_now m
    modify (λ d. record d {
      snapshot = record d.snapshot { stream_profile = profile };
      last_activity = now;
    })
    publish "stream.profile"

  -- `SessionManager::set_blocklist_enabled`
  unfoldable pub set_blocklist_enabled : ℕ → Bool → Action SessionSnapshot
  unfolding ensure_active_lease
  set_blocklist_enabled client_id enabled = do
    ensure_active_lease client_id
    now ← instant_now m
    modify (λ d. record d {
      snapshot = record d.snapshot { blocklist_enabled = enabled };
      last_activity = now;
    })
    publish "blocklist.setting"

  -- `SessionManager::set_auto_burn_seconds`
  unfoldable pub set_auto_burn_seconds : ℕ → ℕ → Action SessionSnapshot
  unfolding ensure_active_lease
  set_auto_burn_seconds client_id seconds = do
    throw_if (ltb 86_400 seconds)
        (invalid_request "auto-burn must be zero or no more than 86400 seconds")
    ensure_active_lease client_id
    now ← instant_now m
    modify (λ d. record d {
      snapshot = record d.snapshot { auto_burn_seconds = seconds };
      last_activity = now;
    })
    publish "auto_burn.setting"

-- `SessionManager::ensure_controller`
unfoldable pub ensure_controller : ℕ → Action (Unit {0})
unfolding ensure_active_lease
ensure_controller client_id = ensure_active_lease client_id
