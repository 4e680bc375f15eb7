-- ===== src/Session/Leaseholder.antt =====
-- Who holds the lease behind an operation.
use xanh_tab.Prelude.{ℕ, suc, ◌≡◌, ◌⊎◌, true, arith, none, some, inl, inr}
use xanh_tab.Errors.{AppError, Result-cases}
use xanh_tab.Model.{Url, EgressMode, StreamProfile, NavigationCommand, navigate as go}
use xanh_tab.Session.State.{World, Manager, ◌>>=◌, holds, ensure_lease, publish}
use xanh_tab.Session.Lifecycle.{begin_start, launch, start, burn_unchecked, burn}
use xanh_tab.Session.Switch.{
  begin_switch, recover_switch, relaunch, switch_egress, restart_under, give_up, settle_back,
  finish_switch,
}
use xanh_tab.Session.Control
use xanh_tab.Session.Invariant.{IsSettled}
use xanh_tab.Session.Settled.{restart_under-data, roll_back-data, begin_navigate-data}
use xanh_tab.Session.Burning.{burn_running-IsBurned}
use xanh_tab.Session.Starting.{launch-Launched}

module _ (m : Manager) where
  launch-controller :
      (url : Url) (begun : ℕ × StreamProfile × EgressMode) (w : World)
      → (launch m url begun w).1.data_of.controller ≡ w.data_of.controller
  launch-controller url (id, profile, egress) w =
      let (_, _, _, same, _, _) = launch-Launched m url id profile egress w in same

  begin_start-controller :
      (c : ℕ) (url : Url) (w : World)
      → let w' = (begin_start m c url w).1 in
        (w'.data_of.controller ≡ w.data_of.controller) ⊎ (w'.data_of.controller ≡ some c)
  unfolding begin_start
  begin_start-controller c url w = ground arith

  -- A start leaves the lease as it is, or gives it to its client.
  pub start-controller :
      (c : ℕ) (url : Url) (w : World)
      → let w' = (start m c url w).1 in
        (w'.data_of.controller ≡ w.data_of.controller) ⊎ (w'.data_of.controller ≡ some c)
  unfolding start
  start-controller c url w =
      let w1 = (begin_start m c url w).1 in
      elim (Result-cases (begin_start m c url w).0) [
        | inr (e, q) ↦ rw (q, start, ◌>>=◌) (begin_start-controller c url w)
        | inl (a, q) ↦
            rw (q, start, ◌>>=◌) (rw (launch-controller url a w1) (begin_start-controller c url w))
      ]

  recover_switch-controller :
      (url : Url) (profile : StreamProfile) (mode : EgressMode) (e : AppError) (w : World)
      → (recover_switch m url profile mode e w).1.data_of.controller ≡ w.data_of.controller
  unfolding recover_switch give_up settle_back
  recover_switch-controller url profile mode e w =
      let w1 : World = record w { tick = suc w.tick } in
      ground (arith, roll_back-data m (m.env.uuid w.tick) url profile mode w1)

  relaunch-controller :
      (mode : EgressMode) (begun : Url × StreamProfile × EgressMode) (w : World)
      → (relaunch m mode begun w).1.data_of.controller ≡ w.data_of.controller
  unfolding relaunch finish_switch
  relaunch-controller mode (url, profile, previous) w =
      let announced : World = (publish "egress.switching" w).1 in
      let w1 : World = record announced { tick = suc w.tick } in
      let id = m.env.uuid w.tick in
      let (r, w2) = restart_under m id url profile mode w1 in
      let kept = restart_under-data m id url profile mode w1 in
      elim (Result-cases r) [
        | inl (_, q) ↦ ground (arith, q, kept)
        | inr (e, q) ↦ ground (arith, q, kept, recover_switch-controller url profile previous e w2)
      ]

  begin_switch-controller :
      (c : ℕ) (w : World) → (begin_switch m c w).1.data_of.controller ≡ w.data_of.controller
  unfolding begin_switch
  begin_switch-controller c w = ground arith

  -- No other operation but a burn changes it.
  pub switch_egress-controller :
      (c : ℕ) (mode : EgressMode) (w : World)
      → (switch_egress m c mode w).1.data_of.controller ≡ w.data_of.controller
  unfolding switch_egress
  switch_egress-controller c mode w =
      let w1 = (begin_switch m c w).1 in
      elim (Result-cases (begin_switch m c w).0) [
        | inr (e, q) ↦ rw (q, switch_egress, ◌>>=◌) (begin_switch-controller c w)
        | inl (a, q) ↦
            rw (q, switch_egress, ◌>>=◌)
              (rw (relaunch-controller mode a w1) (begin_switch-controller c w))
      ]

  pub navigate-controller :
      (c : ℕ) (command : NavigationCommand) (w : World)
      → (Control.navigate m c command w).1.data_of.controller ≡ w.data_of.controller
  unfolding Control.navigate Control.finish_navigate
  navigate-controller c (go url) w = ground (arith, begin_navigate-data m c (go url) w)
  navigate-controller c NavigationCommand.back w =
      ground (arith, begin_navigate-data m c NavigationCommand.back w)
  navigate-controller c NavigationCommand.forward w =
      ground (arith, begin_navigate-data m c NavigationCommand.forward w)
  navigate-controller c NavigationCommand.reload w =
      ground (arith, begin_navigate-data m c NavigationCommand.reload w)
  navigate-controller c NavigationCommand.stop w =
      ground (arith, begin_navigate-data m c NavigationCommand.stop w)

  -- Behind a burn of the watchdog there is no lease, and behind one of its holder.
  pub burn_unchecked-controller :
      (w : World) → IsSettled w.data_of → (burn_unchecked m w).1.data_of.controller ≡ none
  unfolding burn_unchecked
  burn_unchecked-controller w h =
      ground (arith, h.fits, h.leased, (burn_running-IsBurned m w).frees_lease)

  pub burn-controller :
      (c : ℕ) (w : World)
      → IsSettled w.data_of
      → holds w.data_of.controller c ≡ true
      → (burn m c w).1.data_of.controller ≡ none
  unfolding burn ensure_lease
  burn-controller c w h held = ground (arith, burn_unchecked-controller w h)
