-- ===== src/Session/Lifecycle.antt =====
-- src/session.rs: starting and burning a session, and switching its egress.
use xanh_tab.Prelude.{ℕ, String, Bool, true, false, not, Option, none, some, List, [], ◌∷◌}
use xanh_tab.Errors.{AppError, ok, err, invalid_transition, service_unavailable}
use xanh_tab.Model.{
  Url, EgressMode, StreamProfile, SessionSnapshot, SessionPhase, default_snapshot, starting, active,
  burning, failed, is_idle,
}
use xanh_tab.Session.State.{
  egress_apply, egress_reset, browser_start, browser_stop, Manager, Action, ◌>>=◌, ◌>>◌, pure,
  throw, throw_if, get, modify, publish, attempt, call, clear, new_uuid, instant_now, utc_now,
  acquire_lease, ensure_lease, push_history, ensure_navigation_allowed, fail, join_failures, note,
  note_cleanup,
}

-- `SessionManager::new_with_blocklist`: the snapshot of a manager without a session.
abbrev pub fresh_snapshot : Manager → SessionSnapshot
fresh_snapshot m = record default_snapshot {
  egress = m.initial_egress;
  stream_profile = m.initial_profile;
  auto_burn_seconds = m.initial_auto_burn_seconds;
}

-- `matches!(phase, Idle | Failed)`
abbrev pub may_start : SessionPhase → Bool
may_start SessionPhase.idle = true
may_start SessionPhase.failed = true
may_start _ = false

abbrev or_else : {A : Type 0} → Option A → AppError → Action A
or_else none e = throw e
or_else (some a) e = pure a

module _ (m : Manager) where
  -- The first section of `start`, under the lock.
  unfoldable pub begin_start : ℕ → Url → Action (ℕ × StreamProfile × EgressMode)
  unfolding ensure_navigation_allowed acquire_lease
  begin_start client_id url = do
    d ← get
    throw_if (not (may_start d.snapshot.phase)) invalid_transition
    ensure_navigation_allowed url d.snapshot.blocklist_enabled
    acquire_lease client_id
    id ← new_uuid m
    started_at ← utc_now m
    last_activity ← instant_now m
    modify (λ d. record d {
      snapshot = record d.snapshot {
        id = some id;
        phase = starting;
        url = some url;
        started_at = some started_at;
        failure = none;
        controller_attached = true;
      };
      last_activity = last_activity;
    })
    d ← get
    pure (id, d.snapshot.stream_profile, d.snapshot.egress)

  -- The branch of `start` where `egress.apply` fails.
  unfoldable pub abort_apply : AppError → Action SessionSnapshot
  unfolding note note_cleanup join_failures fail
  abort_apply error = do
    reset ← attempt (call m egress_reset)
    cleanup ← clear m
    fail (
        join_failures (
          note_cleanup cleanup
            (note "egress reset: " reset (note "egress apply: " (err error) []))))

  -- The branch of `start` where `browser.start` fails.
  unfoldable pub abort_browser : AppError → Action SessionSnapshot
  unfolding note note_cleanup join_failures fail
  abort_browser error = do
    stop ← attempt (call m browser_stop)
    reset ← attempt (call m egress_reset)
    cleanup ← clear m
    fail (
        join_failures (
          note_cleanup cleanup (
            note "egress reset: " reset
              (note "browser stop: " stop (note "browser start: " (err error) [])))))

  -- The last section of `start`.
  unfoldable pub finish_start : Url → Action SessionSnapshot
  unfolding push_history
  finish_start url = do
    visited_at ← utc_now m
    modify (λ d. record d {
      snapshot = record d.snapshot { phase = active };
      history = push_history d.history url visited_at;
    })
    publish "session.active"

  -- What `start` does behind its first section.
  unfoldable pub launch : Url → ℕ × StreamProfile × EgressMode → Action SessionSnapshot
  launch url (id, profile, egress) = do
    publish "session.starting"
    applied ← attempt (call m (egress_apply egress))
    elim applied [
      | err error ↦ abort_apply error
      | ok _ ↦ do
        started ← attempt (call m (browser_start id url profile egress))
        elim started [ err error ↦ abort_browser error | ok _ ↦ finish_start url ]
    ]

  -- `SessionManager::start`
  unfoldable pub start : ℕ → Url → Action SessionSnapshot
  start client_id url = do begun ← begin_start client_id url; launch url begun

  -- The last section of `burn_unchecked`: a fresh snapshot, or a failed one.
  unfoldable pub finish_burn : List String → Action SessionSnapshot
  unfolding join_failures
  finish_burn [] = do
    now ← instant_now m
    modify (λ d. record {
      snapshot = fresh_snapshot m;
      controller = none;
      history = [];
      last_activity = now;
    })
    publish "session.idle"
  finish_burn (f ∷ fs) = do
    now ← instant_now m
    modify (λ d. record {
      snapshot = record (fresh_snapshot m) {
        phase = failed;
        failure = some (join_failures (f ∷ fs));
      };
      controller = none;
      history = [];
      last_activity = now;
    })
    publish "session.burn_failed"
    throw (service_unavailable (join_failures (f ∷ fs)))

  -- What `burn_unchecked` does where the phase is not `Idle`: all three steps are tried.
  unfoldable pub burn_running : Action SessionSnapshot
  unfolding note note_cleanup
  burn_running = do
    modify (λ d. record d { snapshot = record d.snapshot { phase = burning } })
    publish "session.burning"
    stop ← attempt (call m browser_stop)
    reset ← attempt (call m egress_reset)
    cleanup ← clear m
    finish_burn (note_cleanup cleanup (note "egress reset: " reset (note "browser stop: " stop [])))

  -- `SessionManager::burn_unchecked`, which is also `force_burn`.
  unfoldable pub burn_unchecked : Action SessionSnapshot
  unfolding is_idle
  burn_unchecked = do
    d ← get
    elim (is_idle d.snapshot.phase) [ true ↦ pure d.snapshot | false ↦ burn_running ]

  -- `SessionManager::burn`
  unfoldable pub burn : ℕ → Action SessionSnapshot
  burn client_id = do ensure_lease client_id; burn_unchecked
