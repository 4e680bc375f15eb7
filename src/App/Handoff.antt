-- ===== src/App/Handoff.antt =====
-- src/lib.rs and src/auth.rs: the pairing file tells what may be exchanged.
use xanh_tab.Prelude.{
  ℕ, ◌≡◌, refl, ◌⊎◌, false, arith, Option, none, some, List, [], ◌∷◌, inl, inr, Bool-cases,
  Option-cases,
}
use xanh_tab.Text.{Text}
use xanh_tab.Model.{is_idle}
use xanh_tab.Blocklist.{Blocklist}
use xanh_tab.Auth.State.{AuthState, AuthContext, PairingMaterial, pairing_available}
use xanh_tab.Auth.Pairing as Pairing
use xanh_tab.Auth.Access as Access
use xanh_tab.Auth.Requests as Auth
use xanh_tab.Auth.Requests.{Call, after}
use xanh_tab.Auth.OneTime.{NoRotation}
use xanh_tab.Session.Lifecycle as Lifecycle
use xanh_tab.Session.Switch as Switch
use xanh_tab.Session.Control as Control
use xanh_tab.App as App
use xanh_tab.App.{App, System, Supply, Operation, pairing_body}
use xanh_tab.App.Requests as Requests
use xanh_tab.App.Guards.{and_then-end, admit-validated}
use xanh_tab.App.Requests.{
  Event, start_session, navigate, switch_egress, burn_controller_session, auto_burn_if_due,
  recover_expired_auth, exchange_pairing, authenticate, issue_ticket, consume_ticket,
  set_stream_profile, set_blocklist_enabled, set_auto_burn_seconds, happen, boot,
}

-- The pairing is the same as before, or withdrawn.
abbrev KeepsPairing : AuthState → AuthState → Type 0
KeepsPairing s s' =
    (pairing_available s' ≡ false)
    ⊎ ((s'.pairing_hash ≡ s.pairing_hash) × (s'.manual_pairing_hash ≡ s.manual_pairing_hash))

module _ (app : App) where
  after-KeepsPairing :
      (c : Call) (s : AuthState) → NoRotation c → KeepsPairing s (after app.auth c s)
  unfolding after pairing_available Access.validate_context Pairing.revoke_all
      Pairing.invalidate_unpublished_pairing Pairing.pairing_recovery_required
      Pairing.exchange_pairing Access.authenticate Access.issue_ticket Access.consume_ticket
  after-KeepsPairing (Auth.rotate_pairing _) s n = absurd n
  after-KeepsPairing (Auth.exchange_pairing now presented session csrf client_id) s n = ground arith
  after-KeepsPairing (Auth.authenticate now none csrf require_csrf) s n = ground arith
  after-KeepsPairing (Auth.authenticate now (some token) csrf require_csrf) s n = ground arith
  after-KeepsPairing (Auth.validate_context now context) s n = inr (refl, refl)
  after-KeepsPairing (Auth.issue_ticket now none context purpose) s n = inr (refl, refl)
  after-KeepsPairing (Auth.issue_ticket now (some token) context purpose) s n = ground arith
  after-KeepsPairing (Auth.consume_ticket now token purpose) s n = ground arith
  after-KeepsPairing Auth.revoke_all s n = inr (refl, refl)
  after-KeepsPairing Auth.invalidate_unpublished_pairing s n = inl refl
  after-KeepsPairing (Auth.pairing_recovery_required now) s n = inr (refl, refl)

  -- The file holds the material of both digests.
  pub record IsOffered (material : PairingMaterial) (file : Option Text) (s : AuthState)
      : Type 0 where
    pub written : file ≡ some (pairing_body app.public_base_url material)
    pub by_secret : s.pairing_hash ≡ some (app.auth.hash material.secret)
    pub by_code : s.manual_pairing_hash ≡ some (app.auth.hash material.manual_code)

  -- No pairing is available, or the file tells which.
  abbrev pub IsPublished : System → Type 0
  IsPublished s =
      (pairing_available s.auth ≡ false)
      ⊎ ((material : PairingMaterial) × IsOffered material s.pairing_file s.auth)

  calling-IsPublished :
      (c : Call) (s : System)
      → NoRotation c
      → IsPublished s
      → IsPublished (Requests.calling app c s)
  unfolding pairing_available
  calling-IsPublished c s n (inr (material, offered)) = elim (after-KeepsPairing c s.auth n) [
    | inl closed ↦ inl closed
    | inr (secret, code) ↦ inr (material, ground (arith, offered, secret, code))
  ]
  calling-IsPublished c s n (inl closed) = elim (after-KeepsPairing c s.auth n) [
    | inl still ↦ inl still
    | inr (secret, code) ↦ inl (ground (arith, closed, secret, code))
  ]

  rotate-IsPublished :
      (supply : Supply) (s : System)
      → IsPublished s
      → IsPublished (App.rotate_pairing_material app supply s).1
  unfolding App.rotate_pairing_material pairing_available
  rotate-IsPublished supply s h = elim (Option-cases supply.random) [
    | inl q ↦ rw q h
    | inr (raw, q) ↦ rw q (elim (Bool-cases supply.written) [
      | inr p ↦ rw p (inl refl)
      | inl p ↦ rw p (inr (_, record { written = refl; by_secret = refl; by_code = refl }))
    ])
  ]

  burn_and_rotate-IsPublished :
      (controller : Option ℕ) (supply : Supply) (s : System)
      → IsPublished s
      → IsPublished (App.burn_and_rotate app controller supply s).1
  unfolding App.burn_and_rotate after
  burn_and_rotate-IsPublished controller supply s h =
      rotate-IsPublished supply _ (calling-IsPublished Auth.revoke_all s tt h)

  -- An operation that is admitted.
  admitted-IsPublished :
      {A : Type 0} (now : ℕ) (context : AuthContext) (id : ℕ) (next : Unit {0} → Operation A)
      (s : System)
      → IsPublished s
      → ((s' : System) → IsPublished s' → IsPublished (next tt s').1)
      → IsPublished (App.and_then (App.admit app now context id) next s).1
  unfolding after
  admitted-IsPublished now context id next s h k =
      let checked = calling-IsPublished (Auth.validate_context now context) s tt h in
      let behind : IsPublished (App.admit app now context id s).1 =
        rw (admit-validated app now context id s) checked in
      and_then-end IsPublished (App.admit app now context id) next s behind (λ _ q. k _ behind)

  leftover-IsPublished : (s : System) → IsPublished s → IsPublished (App.burn_leftover app s).1
  unfolding App.burn_leftover
  leftover-IsPublished s h = elim (Bool-cases (is_idle s.world.data_of.snapshot.phase)) [
    | inl p ↦ rw (p, App.burn_leftover) h
    | inr p ↦ rw (p, App.burn_leftover) h
  ]

  recover-IsPublished :
      (now : ℕ) (supply : Supply) (s : System)
      → IsPublished s
      → IsPublished (App.recover_expired_auth app now supply s).1
  unfolding App.recover_expired_auth after
  recover-IsPublished now supply s h =
      let checked = calling-IsPublished (Auth.pairing_recovery_required now) s tt h in
      let s1 : System = Requests.calling app (Auth.pairing_recovery_required now) s in
      elim (Bool-cases (Pairing.pairing_recovery_required now s.auth).0) [
        | inr q ↦ rw (q, App.recover_expired_auth) checked
        | inl q ↦
            rw (q, App.recover_expired_auth)
              (rotate-IsPublished supply _ (
                calling-IsPublished Auth.revoke_all (App.burn_leftover app s1).1 tt
                  (leftover-IsPublished s1 checked)))
      ]

  happen-IsPublished : (e : Event) (s : System) → IsPublished s → IsPublished (happen app e s)
  unfolding happen App.start_session App.navigate App.switch_egress App.burn_controller_session
      App.auto_burn_if_due after
  happen-IsPublished (start_session now context url) s h =
      let checked = calling-IsPublished (Auth.validate_context now context) s tt h in
      and_then-end IsPublished (App.on_auth (Access.validate_context now context))
        (λ _. App.on_world (Lifecycle.start app.sessions context.client_id url)) s checked
        (λ _ q. checked)
  happen-IsPublished (navigate now context id command) s h =
      admitted-IsPublished now context id
        (λ _. App.on_world (Control.navigate app.sessions context.client_id command)) s h
        (λ s' h'. h')
  happen-IsPublished (switch_egress now context id mode) s h =
      admitted-IsPublished now context id
        (λ _. App.on_world (Switch.switch_egress app.sessions context.client_id mode)) s h
        (λ s' h'. h')
  happen-IsPublished (burn_controller_session now context id supply) s h =
      admitted-IsPublished now context id
        (λ _. App.burn_and_rotate app (some context.client_id) supply) s h
        (burn_and_rotate-IsPublished (some context.client_id) supply)
  happen-IsPublished (auto_burn_if_due supply) s h =
      ground (arith, burn_and_rotate-IsPublished none supply s h)
  happen-IsPublished (recover_expired_auth now supply) s h = recover-IsPublished now supply s h
  happen-IsPublished (exchange_pairing now presented session csrf client_id) s h =
      calling-IsPublished (Auth.exchange_pairing now presented session csrf client_id) s tt h
  happen-IsPublished (authenticate now session csrf require_csrf) s h =
      calling-IsPublished (Auth.authenticate now session csrf require_csrf) s tt h
  happen-IsPublished (issue_ticket now token context purpose) s h =
      calling-IsPublished (Auth.issue_ticket now token context purpose) s tt h
  happen-IsPublished (consume_ticket now token purpose) s h =
      calling-IsPublished (Auth.consume_ticket now token purpose) s tt h
  happen-IsPublished (set_stream_profile c profile) s h = h
  happen-IsPublished (set_blocklist_enabled c enabled) s h = h
  happen-IsPublished (set_auto_burn_seconds c seconds) s h = h

  run-IsPublished :
      (es : List Event) (s : System) → IsPublished s → IsPublished (Requests.run app es s)
  unfolding Requests.run
  run-IsPublished [] s h = h
  run-IsPublished (e ∷ es) s h = run-IsPublished es (happen app e s) (happen-IsPublished e s h)

  -- From the start of the daemon on, whatever happens: while pairing material is available, the
  -- pairing file is the body of material whose secret and manual code have the two stored digests.
  pub run-boot-IsPublished :
      (blocklist : Blocklist) (now : ℕ) (supply : Supply) (es : List Event)
      → IsPublished (Requests.run app es (boot app blocklist now supply))
  unfolding boot pairing_available
  run-boot-IsPublished blocklist now supply es =
      run-IsPublished es _ (rotate-IsPublished supply _ (inl refl))
