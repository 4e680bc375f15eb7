-- ===== src/App/Invariant.antt =====
-- Every event keeps the managers in agreement, and the guards let only the holder through.
use xanh_tab.Prelude.{ℕ, ◌≡◌, true, false, arith, Option, none, some, inl, inr}
use xanh_tab.Errors.{ok, Result-cases}
use xanh_tab.Model.{Url, EgressMode, NavigationCommand}
use xanh_tab.Auth.State.{AuthState, AuthContext}
use xanh_tab.Auth.Pairing as Pairing
use xanh_tab.Auth.Access as Access
use xanh_tab.Auth.Requests as Auth
use xanh_tab.Auth.Requests.{Call, after}
use xanh_tab.Auth.Invariant.{IsSound, after-IsSound}
use xanh_tab.Auth.OneTime.{NoRotation}
use xanh_tab.Session.State.{World, holds, held_by_other}
use xanh_tab.Session.Lifecycle as Lifecycle
use xanh_tab.Session.Switch as Switch
use xanh_tab.Session.Control as Control
use xanh_tab.Session.Invariant.{
  IsSettled, start-IsSettled, burn-IsSettled, burn_unchecked-IsSettled,
}
use xanh_tab.Session.Settled.{navigate-IsSettled, switch_egress-IsSettled}
use xanh_tab.Session.Leaseholder.{
  start-controller, switch_egress-controller, navigate-controller, burn_unchecked-controller,
  burn-controller,
}
use xanh_tab.App as App
use xanh_tab.App.{App, System, Supply, Operation}
use xanh_tab.App.Alignment.{
  IsFitting, none-IsFitting, after-IsFitting, validate_context-holder, validate_context-IsFitting,
}
use xanh_tab.App.Guards.{and_then-end, validated, admit-validated}
use xanh_tab.App.Requests.{calling}

-- The invariant of the system.
pub record IsAligned (s : System) : Type 0 where
  pub sound : IsSound s.auth
  pub settled : IsSettled s.world.data_of
  pub fitting : IsFitting s.world.data_of.controller s.auth

module _ (app : App) where
  -- A call of the authentication manager that makes no pairing material.
  pub calling-IsAligned :
      (c : Call) (s : System) → NoRotation c → IsAligned s → IsAligned (calling app c s)
  calling-IsAligned c s n h = record {
    sound = after-IsSound app.auth c s.auth h.sound;
    settled = h.settled;
    fitting = after-IsFitting app.auth _ c s.auth n h.fitting;
  }

  free-IsFitting :
      (controller : Option ℕ) (a : AuthState) → controller ≡ none → IsFitting controller a
  free-IsFitting controller a free = rw free (none-IsFitting a)

  -- New pairing material, where nobody holds the lease.
  pub rotate-IsAligned :
      (supply : Supply) (s : System)
      → IsAligned s
      → s.world.data_of.controller ≡ none
      → IsAligned (App.rotate_pairing_material app supply s).1
  unfolding App.rotate_pairing_material after
  rotate-IsAligned supply s h free =
      let made = after app.auth (Auth.rotate_pairing supply.random) s.auth in
      let renewed = after-IsSound app.auth (Auth.rotate_pairing supply.random) s.auth h.sound in
      let withdrawn = after-IsSound app.auth Auth.invalidate_unpublished_pairing made renewed in
      ground (
        arith,
        renewed,
        withdrawn,
        h.settled,
        free-IsFitting s.world.data_of.controller made free,
        free-IsFitting s.world.data_of.controller (Pairing.invalidate_unpublished_pairing made)
            free,
      )

  -- What follows a burn that freed the lease.
  pub burnt-IsAligned :
      (supply : Supply) (s : System)
      → IsAligned s
      → s.world.data_of.controller ≡ none
      → IsAligned
          (App.rotate_pairing_material app supply (record s { auth = Pairing.revoke_all s.auth })).1
  unfolding after
  burnt-IsAligned supply s h free =
      rotate-IsAligned supply (calling app Auth.revoke_all s)
        (calling-IsAligned Auth.revoke_all s tt h) free

  -- The guard of a start: nobody else holds the lease.
  pub validated_is_not_refused :
      (now : ℕ) (context : AuthContext) (s : System)
      → IsAligned s
      → (Access.validate_context now context s.auth).0 ≡ ok tt
      → held_by_other s.world.data_of.controller context.client_id ≡ false
  validated_is_not_refused now context s h e =
      validate_context-holder now context _ s.auth h.fitting e

  -- The guards of the other operations: the client holds the lease.
  pub admitted_holds_lease :
      (now : ℕ) (context : AuthContext) (id : ℕ) (s : System)
      → IsAligned s
      → (App.admit app now context id s).0 ≡ ok tt
      → holds s.world.data_of.controller context.client_id ≡ true
  unfolding App.admit App.require_session_id
  admitted_holds_lease now context id s h e =
      elim (Result-cases (Access.validate_context now context s.auth).0) [
        | inr (f, q) ↦ ground (arith, q)
        | inl (_, q) ↦
            ground (arith, q, h.settled.leased, validated_is_not_refused now context s h q)
      ]

  pub kept-IsAligned :
      (w : World) (s : System)
      → IsAligned s
      → IsSettled w.data_of
      → w.data_of.controller ≡ s.world.data_of.controller
      → IsAligned (record s { world = w })
  kept-IsAligned w s h settled same = record {
    sound = h.sound;
    settled = settled;
    fitting = rw same h.fitting;
  }

  pub freed-IsAligned :
      (w : World) (s : System)
      → IsAligned s
      → IsSettled w.data_of
      → w.data_of.controller ≡ none
      → IsAligned (record s { world = w })
  freed-IsAligned w s h settled free = record {
    sound = h.sound;
    settled = settled;
    fitting = free-IsFitting _ s.auth free;
  }

  validated-IsAligned :
      (now : ℕ) (context : AuthContext) (s : System)
      → IsAligned s
      → IsAligned (validated now context s)
  unfolding after
  validated-IsAligned now context s h = calling-IsAligned (Auth.validate_context now context) s tt h

  pub start_session-IsAligned :
      (now : ℕ) (context : AuthContext) (url : Url) (s : System)
      → IsAligned s
      → IsAligned (App.start_session app now context url s).1
  unfolding App.start_session
  start_session-IsAligned now context url s h =
      let checked = validated-IsAligned now context s h in
      let w = (Lifecycle.start app.sessions context.client_id url s.world).1 in
      let settled = start-IsSettled app.sessions context.client_id url s.world h.settled in
      and_then-end IsAligned (App.on_auth (Access.validate_context now context))
        (λ _. App.on_world (Lifecycle.start app.sessions context.client_id url)) s checked
        (λ _ q. elim (start-controller app.sessions context.client_id url s.world) [
          | inl same ↦ kept-IsAligned w (validated now context s) checked settled same
          | inr taken ↦ record {
            sound = checked.sound;
            settled = settled;
            fitting = rw taken (validate_context-IsFitting now context s.auth checked.sound q);
          }
        ])

  -- An operation that is admitted.
  pub admitted-IsAligned :
      {A : Type 0} (now : ℕ) (context : AuthContext) (id : ℕ) (next : Unit {0} → Operation A)
      (s : System)
      → IsAligned s
      → (holds s.world.data_of.controller context.client_id ≡ true
          → IsAligned (validated now context s)
          → IsAligned (next tt (validated now context s)).1)
      → IsAligned (App.and_then (App.admit app now context id) next s).1
  admitted-IsAligned now context id next s h k =
      let checked = validated-IsAligned now context s h in
      let same = admit-validated app now context id s in
      and_then-end IsAligned (App.admit app now context id) next s (rw same checked)
        (λ _ q. rw same (k (admitted_holds_lease now context id s h q) checked))

  pub navigate-IsAligned :
      (now : ℕ) (context : AuthContext) (id : ℕ) (command : NavigationCommand) (s : System)
      → IsAligned s
      → IsAligned (App.navigate app now context id command s).1
  unfolding App.navigate
  navigate-IsAligned now context id command s h =
      let act = Control.navigate app.sessions context.client_id command in
      admitted-IsAligned now context id (λ _. App.on_world act) s h
        (λ held checked.
          kept-IsAligned (act s.world).1 (validated now context s) checked
            (navigate-IsSettled app.sessions context.client_id command s.world h.settled)
            (navigate-controller app.sessions context.client_id command s.world))

  pub switch_egress-IsAligned :
      (now : ℕ) (context : AuthContext) (id : ℕ) (mode : EgressMode) (s : System)
      → IsAligned s
      → IsAligned (App.switch_egress app now context id mode s).1
  unfolding App.switch_egress
  switch_egress-IsAligned now context id mode s h =
      let act = Switch.switch_egress app.sessions context.client_id mode in
      admitted-IsAligned now context id (λ _. App.on_world act) s h
        (λ held checked.
          kept-IsAligned (act s.world).1 (validated now context s) checked
            (switch_egress-IsSettled app.sessions context.client_id mode s.world h.settled)
            (switch_egress-controller app.sessions context.client_id mode s.world))

  pub burn_and_rotate_held :
      (c : ℕ) (supply : Supply) (s : System)
      → IsAligned s
      → holds s.world.data_of.controller c ≡ true
      → IsAligned (App.burn_and_rotate app (some c) supply s).1
  unfolding App.burn_and_rotate
  burn_and_rotate_held c supply s h held =
      let free = burn-controller app.sessions c s.world h.settled held in
      let w = (Lifecycle.burn app.sessions c s.world).1 in
      burnt-IsAligned supply (record s { world = w })
        (freed-IsAligned w s h (burn-IsSettled app.sessions c s.world h.settled) free) free

  pub burn_and_rotate_due :
      (supply : Supply) (s : System)
      → IsAligned s
      → IsAligned (App.burn_and_rotate app none supply s).1
  unfolding App.burn_and_rotate
  burn_and_rotate_due supply s h =
      let free = burn_unchecked-controller app.sessions s.world h.settled in
      let w = (Lifecycle.burn_unchecked app.sessions s.world).1 in
      burnt-IsAligned supply (record s { world = w })
        (freed-IsAligned w s h (burn_unchecked-IsSettled app.sessions s.world h.settled) free) free
