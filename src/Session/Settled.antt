-- ===== src/Session/Settled.antt =====
-- The other operations keep a session manager settled: a switch of the egress, navigation and the
-- settings.
use xanh_tab.Prelude.{inl, inr, ℕ, suc, ◌≡◌, Bool, arith}
use xanh_tab.Errors.{AppError, ok, Result-cases}
use xanh_tab.Model.{Url, EgressMode, StreamProfile, NavigationCommand, active, navigate as go}
use xanh_tab.Session.State.{World, Manager, publish, browser_navigate, ◌>>=◌}
use xanh_tab.Session.Invariant.{IsSettled, IsBetween, Begun, push_history_bounds}
use xanh_tab.Session.Switch.{
  begin_switch, restart_under, roll_back, give_up, settle_back, finish_switch, recover_switch,
  relaunch, switch_egress,
}
use xanh_tab.Session.Control.{
  begin_navigate, finish_navigate, navigate, set_stream_profile, set_blocklist_enabled,
  set_auto_burn_seconds,
}

module _ (m : Manager) where
  pub restart_under-data :
      (id : ℕ) (url : Url) (profile : StreamProfile) (mode : EgressMode) (w : World)
      → (restart_under m id url profile mode w).1.data_of ≡ w.data_of
  unfolding restart_under
  restart_under-data id url profile mode w = ground arith

  pub roll_back-data :
      (id : ℕ) (url : Url) (profile : StreamProfile) (mode : EgressMode) (w : World)
      → (roll_back m id url profile mode w).1.data_of ≡ w.data_of
  unfolding roll_back
  roll_back-data id url profile mode w = ground arith

  finish_switch-IsSettled :
      (id : ℕ) (url : Url) (mode : EgressMode) (w : World)
      → IsBetween m w.data_of
      → IsSettled (finish_switch m id url mode w).1.data_of
  unfolding finish_switch
  finish_switch-IsSettled id url mode w h = ground arith

  settle_back-IsSettled :
      (id : ℕ) (url : Url) (mode : EgressMode) (e : AppError) (w : World)
      → IsBetween m w.data_of
      → IsSettled (settle_back m id url mode e w).1.data_of
  unfolding settle_back
  settle_back-IsSettled id url mode e w h = ground arith

  give_up-IsSettled :
      (e f : AppError) (w : World) → IsBetween m w.data_of → IsSettled (give_up m e f w).1.data_of
  unfolding give_up
  give_up-IsSettled e f w h = ground arith

  recover_switch-IsSettled :
      (url : Url) (profile : StreamProfile) (mode : EgressMode) (e : AppError) (w : World)
      → IsBetween m w.data_of
      → IsSettled (recover_switch m url profile mode e w).1.data_of
  unfolding recover_switch
  recover_switch-IsSettled url profile mode e w h =
      let w1 : World = record w { tick = suc w.tick } in
      let (r, w2) = roll_back m (m.env.uuid w.tick) url profile mode w1 in
      let kept : IsBetween m w2.data_of =
        rw (roll_back-data (m.env.uuid w.tick) url profile mode w1) h in
      elim (Result-cases r) [
        | inl (_, q) ↦ rw (q, recover_switch, ◌>>=◌) (settle_back-IsSettled _ url mode e _ kept)
        | inr (f, q) ↦ rw (q, recover_switch, ◌>>=◌) (give_up-IsSettled e f _ kept)
      ]

  relaunch-IsSettled :
      (mode : EgressMode) (begun : Url × StreamProfile × EgressMode) (w : World)
      → IsBetween m w.data_of
      → IsSettled (relaunch m mode begun w).1.data_of
  unfolding relaunch
  relaunch-IsSettled mode (url, profile, previous) w h =
      let announced : World = (publish "egress.switching" w).1 in
      let w1 : World = record announced { tick = suc w.tick } in
      let id = m.env.uuid w.tick in
      let (r, w2) = restart_under m id url profile mode w1 in
      let kept : IsBetween m w2.data_of = rw (restart_under-data id url profile mode w1) h in
      elim (Result-cases r) [
        | inl (_, q) ↦ rw (q, relaunch, ◌>>=◌) (finish_switch-IsSettled id url mode _ kept)
        | inr (e, q) ↦
            rw (q, relaunch, ◌>>=◌) (recover_switch-IsSettled url profile previous e _ kept)
      ]

  begin_switch-Begun :
      (client_id : ℕ) (w : World)
      → IsSettled w.data_of
      → let (r, w') = begin_switch m client_id w in Begun m w.data_of r w'.data_of
  unfolding begin_switch
  begin_switch-Begun client_id w h = ground arith

  pub switch_egress-IsSettled :
      (client_id : ℕ) (mode : EgressMode) (w : World)
      → IsSettled w.data_of
      → IsSettled (switch_egress m client_id mode w).1.data_of
  unfolding switch_egress
  switch_egress-IsSettled client_id mode w h =
      let begun = begin_switch-Begun client_id w h in
      elim (Result-cases (begin_switch m client_id w).0) [
        | inr (e, q) ↦ rw (q, switch_egress, ◌>>=◌) (rw (rw q at begun) h)
        | inl (a, q) ↦ rw (q, switch_egress, ◌>>=◌) (relaunch-IsSettled mode a _ (rw q at begun))
      ]

  -- The first section keeps all but the time of the last activity, and passes only in `Active`.
  pub begin_navigate-data :
      (client_id : ℕ) (command : NavigationCommand) (w : World)
      → let (r, w') = begin_navigate m client_id command w in
        (record w'.data_of { last_activity = w.data_of.last_activity } ≡ w.data_of)
        × (r ≡ ok tt → w.data_of.snapshot.phase ≡ active)
  unfolding begin_navigate
  begin_navigate-data client_id (go url) w = ground arith
  begin_navigate-data client_id _ w = ground arith

  finish_navigate-IsSettled :
      (command : NavigationCommand) (w : World)
      → IsSettled w.data_of
      → w.data_of.snapshot.phase ≡ active
      → IsSettled (finish_navigate m command w).1.data_of
  unfolding finish_navigate
  finish_navigate-IsSettled (go url) w h e =
      ground (arith, push_history_bounds w.data_of.history url (m.env.utc w.tick))
  finish_navigate-IsSettled _ w h e = h

  pub navigate-IsSettled :
      (client_id : ℕ) (command : NavigationCommand) (w : World)
      → IsSettled w.data_of
      → IsSettled (navigate m client_id command w).1.data_of
  unfolding navigate
  navigate-IsSettled client_id command w h =
      let (r, w1) = begin_navigate m client_id command w in
      let (same, only) = begin_navigate-data client_id command w in
      let kept : IsSettled w1.data_of = ground (arith, same) in
      elim (Result-cases r) [
        | inr (e, q) ↦ rw (q, navigate, ◌>>=◌) kept
        | inl (_, q) ↦ elim (Result-cases (m.env.answer w1.tick (browser_navigate command))) [
          | inr (e, p) ↦ rw (q, p, navigate, ◌>>=◌) kept
          | inl (_, p) ↦
              rw (q, p, navigate, ◌>>=◌)
                (finish_navigate-IsSettled command _ kept (ground (arith, same, only q)))
        ]
      ]

  pub set_stream_profile-IsSettled :
      (client_id : ℕ) (profile : StreamProfile) (w : World)
      → IsSettled w.data_of
      → IsSettled (set_stream_profile m client_id profile w).1.data_of
  unfolding set_stream_profile
  set_stream_profile-IsSettled client_id profile w h = ground arith

  pub set_blocklist_enabled-IsSettled :
      (client_id : ℕ) (enabled : Bool) (w : World)
      → IsSettled w.data_of
      → IsSettled (set_blocklist_enabled m client_id enabled w).1.data_of
  unfolding set_blocklist_enabled
  set_blocklist_enabled-IsSettled client_id enabled w h = ground arith

  pub set_auto_burn_seconds-IsSettled :
      (client_id seconds : ℕ) (w : World)
      → IsSettled w.data_of
      → IsSettled (set_auto_burn_seconds m client_id seconds w).1.data_of
  unfolding set_auto_burn_seconds
  set_auto_burn_seconds-IsSettled client_id seconds w h = ground arith
