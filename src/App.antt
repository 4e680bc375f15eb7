-- ===== src/App.antt =====
-- src/lib.rs: `AppState`, which joins the session manager and the authentication manager.
--
-- The mutex `lifecycle` is held by each operation for as long as it runs, so an operation is a
-- function of the system. What an operation takes from outside of both managers is an argument:
-- the time of the authentication manager, and with new pairing material what the generator gave
-- and whether the pairing file could be written.
pub mod Alignment
pub mod Invariant
pub mod Runs
pub mod Handoff
pub mod Guards
pub mod Recovery
pub mod Requests
mod Examples
use xanh_tab.Prelude.{
  ℕ, ◌*◌, ◌-◌, Bool, true, false, not, ◌||◌, Option, none, some, List, ◌++◌, ◌==◌, ltb,
  if◌then◌else◌, is_some_and,
}
use xanh_tab.Text.{Text, codes, trim_end_matches}
use xanh_tab.Errors.{AppError, Result, ok, err, internal, not_found}
use xanh_tab.Model.{Url, EgressMode, NavigationCommand, SessionSnapshot, is_active, is_idle}
use xanh_tab.Auth.State.{Auth, AuthState, AuthContext, PairingMaterial}
use xanh_tab.Auth.Pairing.{
  rotate_pairing, revoke_all, invalidate_unpublished_pairing, pairing_recovery_required,
}
use xanh_tab.Auth.Access.{validate_context}
use xanh_tab.Session.State.{World, Manager, Action}
use xanh_tab.Session.Lifecycle as Lifecycle
use xanh_tab.Session.Switch as Switch
use xanh_tab.Session.Control as Control

-- The parts of `AppState` that do not change.
pub record App : Type 0 where
  pub sessions : Manager
  pub auth : Auth
  pub public_base_url : Text

pub record System : Type 0 where
  pub world : World
  pub auth : AuthState
  pub pairing_file : Option Text

-- What the generator gives, and whether the pairing file is written.
pub record Supply : Type 0 where
  pub random : Option (List ℕ)
  pub written : Bool

-- An operation on the system.
abbrev pub Operation : Type 0 → Type 0
Operation A = System → Result A × System

-- An operation of the session manager, and one of the authentication manager.
abbrev pub on_world : {A : Type 0} → Action A → Operation A
on_world act s = let (r, w) = act s.world in (r, record s { world = w })

abbrev pub on_auth : {A : Type 0} → (AuthState → Result A × AuthState) → Operation A
on_auth act s = let (r, a) = act s.auth in (r, record s { auth = a })

-- `?`
abbrev pub and_then : {A B : Type 0} → Operation A → (A → Operation B) → Operation B
and_then o f s = let (r, s') = o s in elim r [ ok a ↦ f a s' | err e ↦ (err e, s') ]

-- The body that `AuthManager::write_pairing_file` writes.
unfoldable pub pairing_body : Text → PairingMaterial → Text
unfolding trim_end_matches
pairing_body public_base_url material =
    codes "PAIRING_URL="
    ++ (trim_end_matches (λ c. c == b'/') public_base_url
        ++ (codes "#pair="
            ++ (material.secret
                ++ (codes "\nMANUAL_CODE=" ++ (material.manual_code ++ codes "\n")))))

-- `AppState::require_session_id`
unfoldable pub require_session_id : ℕ → Operation (Unit {0})
require_session_id expected_id s = (
  if is_some_and s.world.data_of.snapshot.id (λ id. id == expected_id)
      then ok tt
      else err not_found,
  s,
)

module _ (app : App) where
  -- `AppState::rotate_pairing_material`
  unfoldable pub rotate_pairing_material : Supply → Operation (Unit {0})
  unfolding rotate_pairing invalidate_unpublished_pairing
  rotate_pairing_material supply s =
      let (material, auth) = rotate_pairing app.auth supply.random s.auth in
      elim material [
        | none ↦ (err internal, record s { auth = auth })
        | some pairing ↦
            if supply.written
            then (
              ok tt,
              record s {
                auth = auth;
                pairing_file = some (pairing_body app.public_base_url pairing);
              },
            )
            else (err internal, record s { auth = invalidate_unpublished_pairing auth })
      ]

  -- `AppState::burn_and_rotate`: the burn's own failure does not keep the pairing from changing.
  unfoldable pub burn_and_rotate : Option ℕ → Supply → Operation SessionSnapshot
  burn_and_rotate controller supply s =
      let (burned, s1) =
        on_world
          (elim controller [
            | some client_id ↦ Lifecycle.burn app.sessions client_id
            | none ↦ Lifecycle.burn_unchecked app.sessions
          ])
          s in
      let (paired, s2) = rotate_pairing_material supply (record s1 { auth = revoke_all s1.auth }) in
      (
        elim burned [
          | err e ↦ err e
          | ok snapshot ↦ elim paired [ err e ↦ err e | ok _ ↦ ok snapshot ]
        ],
        s2,
      )

  -- `AppState::start_session`
  unfoldable pub start_session : ℕ → AuthContext → Url → Operation SessionSnapshot
  start_session now context url =
      and_then (on_auth (validate_context now context))
        (λ _. on_world (Lifecycle.start app.sessions context.client_id url))

  -- The guards of the three operations on a session that runs.
  unfoldable pub admit : ℕ → AuthContext → ℕ → Operation (Unit {0})
  admit now context expected_id =
      and_then (on_auth (validate_context now context)) (λ _. require_session_id expected_id)

  -- `AppState::navigate`
  unfoldable pub navigate : ℕ → AuthContext → ℕ → NavigationCommand → Operation SessionSnapshot
  navigate now context expected_id command =
      and_then (admit now context expected_id)
        (λ _. on_world (Control.navigate app.sessions context.client_id command))

  -- `AppState::switch_egress`
  unfoldable pub switch_egress : ℕ → AuthContext → ℕ → EgressMode → Operation SessionSnapshot
  switch_egress now context expected_id mode =
      and_then (admit now context expected_id)
        (λ _. on_world (Switch.switch_egress app.sessions context.client_id mode))

  -- `AppState::burn_controller_session`
  unfoldable pub burn_controller_session : ℕ → AuthContext → ℕ → Supply → Operation SessionSnapshot
  burn_controller_session now context expected_id supply =
      and_then (admit now context expected_id)
        (λ _. burn_and_rotate (some context.client_id) supply)

  -- `SessionManager::idle_for`, in nanoseconds; it leaves the tick as it is.
  unfoldable pub idle_for : World → ℕ
  idle_for w = app.sessions.env.instant w.tick - w.data_of.last_activity

  -- `AppState::auto_burn_if_due`
  unfoldable pub auto_burn_if_due : Supply → Operation Bool
  unfolding idle_for is_active
  auto_burn_if_due supply s =
      let snapshot = s.world.data_of.snapshot in
      let threshold = snapshot.auto_burn_seconds * 1_000_000_000 in
      if not (is_active snapshot.phase) || threshold == 0 || ltb (idle_for s.world) threshold
      then (ok false, s)
      else and_then (burn_and_rotate none supply) (λ _ s'. (ok true, s')) s

  -- The `burn_result` of `recover_expired_auth`.
  unfoldable pub burn_leftover : Operation SessionSnapshot
  burn_leftover s =
      let snapshot = s.world.data_of.snapshot in
      elim (is_idle snapshot.phase) [
        | true ↦ (ok snapshot, s)
        | false ↦ on_world (Lifecycle.burn_unchecked app.sessions) s
      ]

  -- `AppState::recover_expired_auth`
  unfoldable pub recover_expired_auth : ℕ → Supply → Operation Bool
  recover_expired_auth now supply s =
      let (required, auth) = pairing_recovery_required now s.auth in
      let s1 : System = record s { auth = auth } in
      elim required [
        | false ↦ (ok false, s1)
        | true ↦
            let (burned, s2) = burn_leftover s1 in
            let (paired, s3) =
              rotate_pairing_material supply (record s2 { auth = revoke_all s2.auth }) in
            (
              elim burned [ err e ↦ err e | ok _ ↦ elim paired [ err e ↦ err e | ok _ ↦ ok true ] ],
              s3,
            )
      ]
