-- ===== src/App/Recovery.antt =====
-- src/lib.rs: what the watchdog and a burn leave behind.
use xanh_tab.Prelude.{
  ℕ, ◌*◌, ◌≤◌, ◌<◌, ◌≡◌, Bool, true, arith, Option, none, some, List, [], ◌∷◌, if◌then◌else◌,
}
use xanh_tab.Text.{Text}
use xanh_tab.Errors.{err, unauthorized}
use xanh_tab.Model.{is_idle, idle, active, failed}
use xanh_tab.Auth.State.{AuthContext, TicketPurpose, pairing_available}
use xanh_tab.Auth.Pairing as Pairing
use xanh_tab.Auth.Pairing.{group_manual_code}
use xanh_tab.Auth.Access as Access
use xanh_tab.Session.State.{clear_runtime_dir, egress_reset, browser_stop}
use xanh_tab.Session.Lifecycle as Lifecycle
use xanh_tab.Session.Invariant.{IsSettled}
use xanh_tab.Session.Burning.{all_steps_succeed, burn_running-IsBurned, burning_ends_in}
use xanh_tab.Session.Leaseholder.{burn_unchecked-controller}
use xanh_tab.App as App
use xanh_tab.App.{App, System, Supply, pairing_body}

module _ (app : App) where
  -- Behind a burn with its rotation, by a controller or by the watchdog, and whether or not the
  -- backends, the generator and the pairing file failed: no session token, no ticket and no context
  -- is good any more.
  pub burned_is_locked_out :
      (controller : Option ℕ) (supply : Supply) (s : System) (now : ℕ) (token csrf : Option Text)
      (require_csrf : Bool) (ticket : Text) (purpose : TicketPurpose) (context : AuthContext)
      → let a = (App.burn_and_rotate app controller supply s).1.auth in
        ((Access.authenticate app.auth now token csrf require_csrf a).0 ≡ err unauthorized)
        × ((Access.consume_ticket app.auth now ticket purpose a).0 ≡ err unauthorized)
        × ((Access.validate_context now context a).0 ≡ err unauthorized)
  unfolding App.burn_and_rotate App.rotate_pairing_material Pairing.revoke_all Access.authenticate
      Access.consume_ticket Access.validate_context
  burned_is_locked_out controller supply s now none csrf require_csrf ticket purpose context =
      ground arith
  burned_is_locked_out controller supply s now (some token) csrf require_csrf ticket purpose
        context =
      ground arith

  leftover-controller :
      (s : System)
      → IsSettled s.world.data_of
      → (App.burn_leftover app s).1.world.data_of.controller ≡ none
  unfolding App.burn_leftover is_idle
  leftover-controller s h =
      ground (arith, h.fits, h.leased, burn_unchecked-controller app.sessions s.world h)

  -- Where the watchdog finds that pairing has to be recovered, and the generator and the pairing
  -- file serve it, the device can be paired again whatever the backends answer: material is
  -- available, the pairing file tells it, nobody holds the lease, and no session and no ticket is
  -- stored.
  pub recover_makes_pairable :
      (now : ℕ) (raw : List ℕ) (s : System)
      → IsSettled s.world.data_of
      → (Pairing.pairing_recovery_required now s.auth).0 ≡ true
      → let s' =
          (App.recover_expired_auth app now (record { random = some raw; written = true }) s).1 in
        (pairing_available s'.auth ≡ true)
        × (s'.pairing_file
            ≡ some (
                pairing_body app.public_base_url (record {
                  secret = app.auth.encode_url_safe raw;
                  manual_code = group_manual_code app.auth raw;
                })))
        × (s'.world.data_of.controller ≡ none)
        × (s'.auth.sessions ≡ [])
        × (s'.auth.tickets ≡ [])
  unfolding App.recover_expired_auth App.rotate_pairing_material pairing_available
  recover_makes_pairable now raw s h required =
      let s1 : System = record s { auth = (Pairing.pairing_recovery_required now s.auth).1 } in
      ground (arith, required, leftover-controller s1 h)

  -- A session that has been idle for its `auto_burn_seconds`, unless these are 0, is burned by the
  -- watchdog: it tries to stop the browser, to reset the egress and to clear the runtime directory,
  -- in this order and each whatever the others answer. The phase is `Idle` exactly if the three
  -- succeed, and otherwise `Failed`. The lease and the history are gone either way, and so are all
  -- sessions and tickets, whatever the backends, the generator and the pairing file answer.
  pub auto_burn_burns :
      (supply : Supply) (s : System)
      → let snapshot = s.world.data_of.snapshot in
        snapshot.phase ≡ active
        → 0 < snapshot.auto_burn_seconds
        → snapshot.auto_burn_seconds * 1_000_000_000 ≤ App.idle_for app s.world
        → let s' = (App.auto_burn_if_due app supply s).1 in
          (s'.world.log ≡ clear_runtime_dir ∷ egress_reset ∷ browser_stop ∷ s.world.log)
          × (s'.world.data_of.snapshot.phase
              ≡ (if all_steps_succeed app.sessions s.world then idle else failed))
          × (s'.world.data_of.controller ≡ none)
          × (s'.world.data_of.history ≡ [])
          × (s'.auth.sessions ≡ [])
          × (s'.auth.tickets ≡ [])
  unfolding App.auto_burn_if_due App.burn_and_rotate App.rotate_pairing_material
      Lifecycle.burn_unchecked Pairing.revoke_all
  auto_burn_burns supply s phase seconds due =
      let burned = burn_running-IsBurned app.sessions s.world in
      ground (
        arith,
        phase,
        seconds,
        due,
        burning_ends_in app.sessions s.world,
        burned.tries_all_steps,
        burned.frees_lease,
        burned.forgets_history,
      )
