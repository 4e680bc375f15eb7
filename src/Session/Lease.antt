-- ===== src/Session/Lease.antt =====
-- Who may change a session: the holder of the lease, and the watchdog.
use xanh_tab.Prelude.{ℕ, ◌≡◌, ◌≢◌, false, arith, some}
use xanh_tab.Errors.{Result, err, lease_conflict, is_ok}
use xanh_tab.Model.{Url, EgressMode, NavigationCommand, SessionSnapshot}
use xanh_tab.Session.State.{World, Manager, ensure_lease, ensure_active_lease}
use xanh_tab.Session.Lifecycle
use xanh_tab.Session.Switch
use xanh_tab.Session.Control
use xanh_tab.Session.Requests.{
  Request, start, navigate, set_stream_profile, set_blocklist_enabled, set_auto_burn_seconds,
  switch_egress, burn, force_burn, client, serve,
}

-- The end of a request that had no effect: it failed, and all but the counter of hits and the
-- clocks is as it was.
pub record IsRefused (w : World) (end : Result SessionSnapshot × World) : Type 0 where
  pub fails : is_ok end.0 ≡ false
  pub keeps_data : end.1.data_of ≡ w.data_of
  pub keeps_runtime : end.1.runtime ≡ w.runtime
  pub calls_nothing : end.1.log ≡ w.log
  pub tells_nothing : end.1.events ≡ w.events

module _ (m : Manager) (c holder : ℕ) (w : World) (other : holder ≢ c)
    (held : w.data_of.controller ≡ some holder) where
  refused_active : ensure_active_lease c w ≡ (err lease_conflict, w)
  unfolding ensure_active_lease
  refused_active = ground arith

  begin_start-refused :
      (url : Url)
      → let (r, w') = Lifecycle.begin_start m c url w in
        (is_ok r ≡ false)
        × (w'.data_of ≡ w.data_of)
        × (w'.runtime ≡ w.runtime)
        × (w'.log ≡ w.log)
        × (w'.events ≡ w.events)
  unfolding Lifecycle.begin_start
  begin_start-refused url = ground arith

  start-IsRefused : (url : Url) → IsRefused w (Lifecycle.start m c url w)
  unfolding Lifecycle.start
  start-IsRefused url = ground (arith, begin_start-refused url)

  switch_egress-IsRefused : (mode : EgressMode) → IsRefused w (Switch.switch_egress m c mode w)
  unfolding Switch.switch_egress Switch.begin_switch
  switch_egress-IsRefused mode = ground arith

  navigate-IsRefused : (command : NavigationCommand) → IsRefused w (Control.navigate m c command w)
  unfolding Control.navigate Control.begin_navigate
  navigate-IsRefused command = ground arith

  burn-IsRefused : IsRefused w (Lifecycle.burn m c w)
  unfolding Lifecycle.burn ensure_lease
  burn-IsRefused = ground arith

same_client : {a c holder : ℕ} → some a ≡ some c → holder ≢ c → holder ≢ a
same_client e o = ground arith

-- While one client holds the lease, a request of another fails, calls no backend, publishes no
-- event, and leaves the session and the runtime directory as they are.
pub serve-IsRefused :
    (m : Manager) (r : Request) (c holder : ℕ) (w : World)
    → client r ≡ some c
    → holder ≢ c
    → w.data_of.controller ≡ some holder
    → IsRefused w (serve m r w)
unfolding serve Control.set_stream_profile Control.set_blocklist_enabled
    Control.set_auto_burn_seconds
serve-IsRefused m (start a url) c holder w e o h =
    start-IsRefused m a holder w (same_client e o) h url
serve-IsRefused m (navigate a command) c holder w e o h =
    navigate-IsRefused m a holder w (same_client e o) h command
serve-IsRefused m (switch_egress a mode) c holder w e o h =
    switch_egress-IsRefused m a holder w (same_client e o) h mode
serve-IsRefused m (burn a) c holder w e o h = burn-IsRefused m a holder w (same_client e o) h
serve-IsRefused m (set_stream_profile a profile) c holder w e o h =
    let other = same_client e o in ground arith
serve-IsRefused m (set_blocklist_enabled a enabled) c holder w e o h =
    let other = same_client e o in ground arith
serve-IsRefused m (set_auto_burn_seconds a seconds) c holder w e o h =
    let other = same_client e o in ground arith
serve-IsRefused m force_burn c holder w e o h = cc
