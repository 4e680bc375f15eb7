-- ===== src/App/Runs.antt =====
-- Runs of the system from its start.
use xanh_tab.Prelude.{
  ℕ, ◌≡◌, refl, true, false, arith, none, some, List, [], ◌∷◌, inl, inr, Bool-cases,
}
use xanh_tab.Errors.{ok}
use xanh_tab.Model.{is_idle}
use xanh_tab.Blocklist.{Blocklist}
use xanh_tab.Auth.State.{AuthContext, new}
use xanh_tab.Auth.Pairing as Pairing
use xanh_tab.Auth.Access as Access
use xanh_tab.Auth.Requests as Auth
use xanh_tab.Auth.Requests.{after, run}
use xanh_tab.Auth.Invariant.{run-new-IsSound}
use xanh_tab.Session.State.{holds, held_by_other}
use xanh_tab.Session.Lifecycle as Lifecycle
use xanh_tab.Session.Control as Control
use xanh_tab.Session.Invariant.{burn_unchecked-IsSettled}
use xanh_tab.Session.Settled.{
  set_stream_profile-IsSettled, set_blocklist_enabled-IsSettled, set_auto_burn_seconds-IsSettled,
}
use xanh_tab.Session.Leaseholder.{burn_unchecked-controller}
use xanh_tab.Session.Requests as Session
use xanh_tab.Session.Requests.{new_with_blocklist, run-new-IsSettled}
use xanh_tab.App as App
use xanh_tab.App.{App, System, Supply}
use xanh_tab.App.Alignment.{none-IsFitting}
use xanh_tab.App.Guards.{validated}
use xanh_tab.App.Invariant.{
  IsAligned, calling-IsAligned, rotate-IsAligned, burnt-IsAligned, kept-IsAligned, freed-IsAligned,
  admitted-IsAligned, start_session-IsAligned, navigate-IsAligned, switch_egress-IsAligned,
  burn_and_rotate_held, burn_and_rotate_due, admitted_holds_lease, validated_is_not_refused,
}
use xanh_tab.App.Requests as Requests
use xanh_tab.App.Requests.{
  Event, start_session, navigate, switch_egress, burn_controller_session, auto_burn_if_due,
  recover_expired_auth, exchange_pairing, authenticate, issue_ticket, consume_ticket,
  set_stream_profile, set_blocklist_enabled, set_auto_burn_seconds, happen, boot,
}

module _ (app : App) where
  burn_controller_session-IsAligned :
      (now : ℕ) (context : AuthContext) (id : ℕ) (supply : Supply) (s : System)
      → IsAligned s
      → IsAligned (App.burn_controller_session app now context id supply s).1
  unfolding App.burn_controller_session
  burn_controller_session-IsAligned now context id supply s h =
      let c = context.client_id in
      admitted-IsAligned app now context id (λ _. App.burn_and_rotate app (some c) supply) s h
        (λ held checked. burn_and_rotate_held app c supply (validated now context s) checked held)

  auto_burn_if_due-IsAligned :
      (supply : Supply) (s : System) → IsAligned s → IsAligned (App.auto_burn_if_due app supply s).1
  unfolding App.auto_burn_if_due
  auto_burn_if_due-IsAligned supply s h = ground (arith, h, burn_and_rotate_due app supply s h)

  idle_is_free :
      (s : System)
      → IsAligned s
      → is_idle s.world.data_of.snapshot.phase ≡ true
      → s.world.data_of.controller ≡ none
  unfolding is_idle
  idle_is_free s h e = ground (arith, h.settled.fits, h.settled.leased)

  recover_expired_auth-IsAligned :
      (now : ℕ) (supply : Supply) (s : System)
      → IsAligned s
      → IsAligned (App.recover_expired_auth app now supply s).1
  unfolding App.recover_expired_auth App.burn_leftover after
  recover_expired_auth-IsAligned now supply s h =
      let checked = calling-IsAligned app (Auth.pairing_recovery_required now) s tt h in
      let s1 : System = record s { auth = (Pairing.pairing_recovery_required now s.auth).1 } in
      let burned = (Lifecycle.burn_unchecked app.sessions s.world).1 in
      let free = burn_unchecked-controller app.sessions s.world h.settled in
      let settled = burn_unchecked-IsSettled app.sessions s.world h.settled in
      elim (Bool-cases (Pairing.pairing_recovery_required now s.auth).0) [
        | inr q ↦ rw (q, App.recover_expired_auth) checked
        | inl q ↦
            rw (q, App.recover_expired_auth)
              (elim (Bool-cases (is_idle s.world.data_of.snapshot.phase)) [
                | inl p ↦
                    rw (p, App.burn_leftover)
                      (burnt-IsAligned app supply s1 checked (idle_is_free s h p))
                | inr p ↦
                    rw (p, App.burn_leftover)
                      (burnt-IsAligned app supply (record s1 { world = burned })
                        (freed-IsAligned app burned s1 checked settled free) free)
              ])
      ]

  happen-IsAligned : (e : Event) (s : System) → IsAligned s → IsAligned (happen app e s)
  unfolding happen Control.set_stream_profile Control.set_blocklist_enabled
      Control.set_auto_burn_seconds
  happen-IsAligned (start_session now context url) s h =
      start_session-IsAligned app now context url s h
  happen-IsAligned (navigate now context id command) s h =
      navigate-IsAligned app now context id command s h
  happen-IsAligned (switch_egress now context id mode) s h =
      switch_egress-IsAligned app now context id mode s h
  happen-IsAligned (burn_controller_session now context id supply) s h =
      burn_controller_session-IsAligned now context id supply s h
  happen-IsAligned (auto_burn_if_due supply) s h = auto_burn_if_due-IsAligned supply s h
  happen-IsAligned (recover_expired_auth now supply) s h =
      recover_expired_auth-IsAligned now supply s h
  happen-IsAligned (exchange_pairing now presented session csrf client_id) s h =
      calling-IsAligned app (Auth.exchange_pairing now presented session csrf client_id) s tt h
  happen-IsAligned (authenticate now session csrf require_csrf) s h =
      calling-IsAligned app (Auth.authenticate now session csrf require_csrf) s tt h
  happen-IsAligned (issue_ticket now token context purpose) s h =
      calling-IsAligned app (Auth.issue_ticket now token context purpose) s tt h
  happen-IsAligned (consume_ticket now token purpose) s h =
      calling-IsAligned app (Auth.consume_ticket now token purpose) s tt h
  happen-IsAligned (set_stream_profile c profile) s h =
      kept-IsAligned app _ s h
        (set_stream_profile-IsSettled app.sessions c profile s.world h.settled) (ground arith)
  happen-IsAligned (set_blocklist_enabled c enabled) s h =
      kept-IsAligned app _ s h
        (set_blocklist_enabled-IsSettled app.sessions c enabled s.world h.settled) (ground arith)
  happen-IsAligned (set_auto_burn_seconds c seconds) s h =
      kept-IsAligned app _ s h
        (set_auto_burn_seconds-IsSettled app.sessions c seconds s.world h.settled) (ground arith)

  run-IsAligned : (es : List Event) (s : System) → IsAligned s → IsAligned (Requests.run app es s)
  unfolding Requests.run
  run-IsAligned [] s h = h
  run-IsAligned (e ∷ es) s h = run-IsAligned es (happen app e s) (happen-IsAligned e s h)

  -- From the start of the daemon on, whatever happens in whatever order, and however the backends,
  -- the file system, the generator and the clocks answer: both managers keep their own invariants,
  -- no pairing material is available while the lease is held, and every stored controller session
  -- is of the client that holds the lease, if one does.
  pub run-boot-IsAligned :
      (blocklist : Blocklist) (now : ℕ) (supply : Supply) (es : List Event)
      → IsAligned (Requests.run app es (boot app blocklist now supply))
  unfolding boot
  run-boot-IsAligned blocklist now supply es =
      let s0 : System = record {
        world = new_with_blocklist app.sessions blocklist now;
        auth = new;
        pairing_file = none;
      } in
      let h0 : IsAligned s0 = record {
        sound = unfold run in run-new-IsSound app.auth [];
        settled = unfold Session.run in run-new-IsSettled app.sessions blocklist now [];
        fitting = unfold new_with_blocklist in none-IsFitting new;
      } in
      run-IsAligned es _ (rotate-IsAligned app supply s0 h0 (unfold new_with_blocklist in refl))

  -- Behind any run, a request that passes the guards of `navigate`, of `switch_egress` and of the
  -- controller's burn is by the client that holds the lease.
  pub run-boot-admits :
      (blocklist : Blocklist) (started : ℕ) (supply : Supply) (es : List Event) (now : ℕ)
      (context : AuthContext) (id : ℕ)
      → let s = Requests.run app es (boot app blocklist started supply) in
        (App.admit app now context id s).0 ≡ ok tt
        → holds s.world.data_of.controller context.client_id ≡ true
  run-boot-admits blocklist started supply es now context id e =
      admitted_holds_lease app now context id _ (run-boot-IsAligned blocklist started supply es) e

  -- Behind any run, a request that passes the guard of a start is not kept from the lease: no other
  -- client holds it.
  pub run-boot-starts :
      (blocklist : Blocklist) (started : ℕ) (supply : Supply) (es : List Event) (now : ℕ)
      (context : AuthContext)
      → let s = Requests.run app es (boot app blocklist started supply) in
        (Access.validate_context now context s.auth).0 ≡ ok tt
        → held_by_other s.world.data_of.controller context.client_id ≡ false
  run-boot-starts blocklist started supply es now context e =
      validated_is_not_refused app now context _ (run-boot-IsAligned blocklist started supply es) e
