-- ===== src/Session/Switch.antt =====
-- src/session.rs: `switch_egress`, with its rollback.
use Prim.Native.String.{◌++◌ as ◌+++◌}
use xanh_tab.Prelude.{ℕ, String, Option, none, some, []}
use xanh_tab.Errors.{AppError, ok, err, session_not_active, service_unavailable, display}
use xanh_tab.Model.{Url, EgressMode, StreamProfile, SessionSnapshot, active, burning, failed}
use xanh_tab.Session.State.{
  SessionData, egress_apply, egress_reset, browser_start, browser_stop, Manager, Action, ◌>>=◌,
  ◌>>◌, pure, throw, get, modify, publish, attempt, call, clear, new_uuid, instant_now, utc_now,
  ensure_active_lease, push_history,
}

-- `map_err(|error| AppError::ServiceUnavailable(format!("what: {error}")))?`
abbrev pub or_fail : String → Option String → Action (Unit {0})
or_fail what none = pure tt
or_fail what (some message) = throw (service_unavailable (◌+++◌ what message))

-- `url.clone().ok_or(AppError::SessionNotActive)?`
abbrev pub or_inactive : Option Url → Action Url
or_inactive none = throw session_not_active
or_inactive (some url) = pure url

module _ (m : Manager) where
  -- The first section: the phase is `Burning` before the address is looked at.
  unfoldable pub begin_switch : ℕ → Action (Url × StreamProfile × EgressMode)
  unfolding ensure_active_lease
  begin_switch client_id = do
    ensure_active_lease client_id
    modify (λ d. record d { snapshot = record d.snapshot { phase = burning } })
    d ← get
    url ← or_inactive d.snapshot.url
    pure (url, d.snapshot.stream_profile, d.snapshot.egress)

  -- The block of `switch_result`.
  unfoldable pub restart_under : ℕ → Url → StreamProfile → EgressMode → Action (Unit {0})
  restart_under id url profile mode = do
    call m browser_stop
    call m egress_reset
    cleanup ← clear m
    or_fail "session cleanup: " cleanup
    call m (egress_apply mode)
    call m (browser_start id url profile mode)

  -- The block of `rollback_result`: the stop's own failure is passed over.
  unfoldable pub roll_back : ℕ → Url → StreamProfile → EgressMode → Action (Unit {0})
  roll_back id url profile mode = do
    attempt (call m browser_stop)
    call m egress_reset
    cleanup ← clear m
    or_fail "rollback cleanup: " cleanup
    call m (egress_apply mode)
    call m (browser_start id url profile mode)

  -- The last section where the rollback fails too.
  unfoldable pub give_up : AppError → AppError → Action SessionSnapshot
  give_up switch_error rollback_error = do
    let message =
        ◌+++◌ "egress switch failed: "
          (◌+++◌ (display switch_error) (◌+++◌ "; rollback failed: " (display rollback_error)))
    modify (λ d. record d {
      snapshot = record d.snapshot { phase = failed; failure = some message };
      history = [];
    })
    publish "egress.failed"
    throw (service_unavailable message)

  -- The snapshot and the history of a session that runs again under `mode`.
  abbrev pub resume : ℕ → Url → EgressMode → ℕ → ℕ → ℕ → SessionData → SessionData
  resume id url mode started_at visited_at now d = record d {
    snapshot = record d.snapshot {
      id = some id;
      phase = active;
      egress = mode;
      started_at = some started_at;
    };
    history = push_history [] url visited_at;
    last_activity = now;
  }

  -- The last section where the rollback succeeds.
  unfoldable pub settle_back : ℕ → Url → EgressMode → AppError → Action SessionSnapshot
  unfolding push_history
  settle_back id url mode switch_error = do
    started_at ← utc_now m
    visited_at ← utc_now m
    now ← instant_now m
    modify (λ d.
        resume id url mode started_at visited_at now
          (record d { snapshot = record d.snapshot { failure = none } }))
    publish "egress.rolled_back"
    throw (
        service_unavailable
          (◌+++◌ "egress switch failed and was rolled back: " (display switch_error)))

  -- The last section where the switch succeeds.
  unfoldable pub finish_switch : ℕ → Url → EgressMode → Action SessionSnapshot
  unfolding push_history
  finish_switch id url mode = do
    started_at ← utc_now m
    visited_at ← utc_now m
    now ← instant_now m
    modify (resume id url mode started_at visited_at now)
    publish "egress.active"

  -- What follows a switch that failed.
  unfoldable pub recover_switch :
      Url → StreamProfile → EgressMode → AppError → Action SessionSnapshot
  recover_switch url profile previous switch_error = do
    rollback_id ← new_uuid m
    rolled ← attempt (roll_back rollback_id url profile previous)
    elim rolled [
      | err rollback_error ↦ give_up switch_error rollback_error
      | ok _ ↦ settle_back rollback_id url previous switch_error
    ]

  -- What `switch_egress` does behind its first section.
  unfoldable pub relaunch : EgressMode → Url × StreamProfile × EgressMode → Action SessionSnapshot
  relaunch mode (url, profile, previous) = do
    publish "egress.switching"
    new_id ← new_uuid m
    switched ← attempt (restart_under new_id url profile mode)
    elim switched [
      | err switch_error ↦ recover_switch url profile previous switch_error
      | ok _ ↦ finish_switch new_id url mode
    ]

  -- `SessionManager::switch_egress`
  unfoldable pub switch_egress : ℕ → EgressMode → Action SessionSnapshot
  switch_egress client_id mode = do begun ← begin_switch client_id; relaunch mode begun
