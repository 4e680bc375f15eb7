-- ===== src/Auth/Recovery.antt =====
-- When the watchdog finds that pairing has to be recovered.
use xanh_tab.Prelude.{
  ℕ, ◌+◌, ◌≤◌, ◌<◌, ◌≡◌, refl, true, false, Option, none, some, List, [], ◌∷◌, arith, All,
}
use xanh_tab.Text.{Text}
use xanh_tab.Errors.{ok}
use xanh_tab.Auth.State.{
  Auth, AuthState, AuthSession, ExchangeResult, Map, retain, prune_expired, pairing_available,
  session_lives, is_empty,
}
use xanh_tab.Auth.Pairing
use xanh_tab.Auth.Access
use xanh_tab.Auth.Invariant.{IsSound, All-retain}
use xanh_tab.Auth.OneTime.{NoRotation}
use xanh_tab.Auth.Requests.{
  Call, rotate_pairing, exchange_pairing, authenticate, validate_context, issue_ticket,
  consume_ticket, revoke_all, invalidate_unpublished_pairing, pairing_recovery_required, after, run,
}

module _ (auth : Auth) where
  abbrev Until : ℕ → ℕ × AuthSession → Type 0
  Until end (_, e) = e.expires_at ≤ end

  expired-is_empty :
      (end now generation : ℕ) (m : Map AuthSession)
      → All (Until end) m
      → end ≤ now
      → is_empty (retain (session_lives now generation) m) ≡ true
  expired-is_empty end now generation [] h le = refl
  expired-is_empty end now generation ((k, e) ∷ m) h le =
      ground (arith, h.0, expired-is_empty end now generation m h.1 le)

  -- The sessions expire by `end`, no pairing material is available, and some was made before.
  pub record IsWaning (end : ℕ) (s : AuthState) : Type 0 where
    pub expiring : All (Until end) s.sessions
    pub unavailable : pairing_available s ≡ false
    pub used : 0 < s.generation

  prune-IsWaning :
      (end now : ℕ) (s : AuthState) → IsWaning end s → IsWaning end (prune_expired s now)
  unfolding prune_expired pairing_available
  prune-IsWaning end now s h = record {
    expiring = All-retain (Until end) _ s.sessions h.expiring;
    unavailable = h.unavailable;
    used = h.used;
  }

  after-IsWaning :
      (end : ℕ) (c : Call) (s : AuthState)
      → NoRotation c
      → IsWaning end s
      → IsWaning end (after auth c s)
  unfolding after Access.validate_context Pairing.revoke_all Pairing.exchange_pairing
      Pairing.invalidate_unpublished_pairing Pairing.pairing_recovery_required Access.authenticate
      Access.issue_ticket Access.consume_ticket pairing_available
  after-IsWaning end (rotate_pairing _) s n h = absurd n
  after-IsWaning end (exchange_pairing now presented session csrf client_id) s n h = ground arith
  after-IsWaning end (authenticate now none csrf require_csrf) s n h = h
  after-IsWaning end (authenticate now (some token) csrf require_csrf) s n h =
      ground (arith, prune-IsWaning end now s h)
  after-IsWaning end (validate_context now context) s n h = prune-IsWaning end now s h
  after-IsWaning end (issue_ticket now none context purpose) s n h = h
  after-IsWaning end (issue_ticket now (some token) context purpose) s n h =
      ground (arith, prune-IsWaning end now s h)
  after-IsWaning end (consume_ticket now token purpose) s n h = ground arith
  after-IsWaning end revoke_all s n h = ground arith
  after-IsWaning end invalidate_unpublished_pairing s n h = ground arith
  after-IsWaning end (pairing_recovery_required now) s n h = prune-IsWaning end now s h

  run-IsWaning :
      (end : ℕ) (cs : List Call) (s : AuthState)
      → All NoRotation cs
      → IsWaning end s
      → IsWaning end (run auth cs s)
  unfolding run
  run-IsWaning end [] s n h = h
  run-IsWaning end (c ∷ cs) s n h =
      run-IsWaning end cs (after auth c s) n.1 (after-IsWaning end c s n.0 h)

  IsWaning-required :
      (end now : ℕ) (s : AuthState)
      → IsWaning end s
      → end ≤ now
      → (Pairing.pairing_recovery_required now s).0 ≡ true
  unfolding Pairing.pairing_recovery_required pairing_available
  IsWaning-required end now s h le =
      ground (
        arith,
        h.unavailable,
        h.used,
        expired-is_empty end now s.generation s.sessions h.expiring le,
      )

  exchange-IsWaning :
      (now : ℕ) (presented : Text) (session csrf : Option Text) (client_id : ℕ) (s : AuthState)
      (r : ExchangeResult)
      → IsSound s
      → 0 < s.generation
      → (Pairing.exchange_pairing auth now presented session csrf client_id s).0 ≡ ok r
      → IsWaning
          (now + auth.auth_ttl)
          (Pairing.exchange_pairing auth now presented session csrf client_id s).1
  unfolding Pairing.exchange_pairing pairing_available
  exchange-IsWaning now presented session csrf client_id s r h g e = ground (arith, h.exclusive)

  -- Behind a successful exchange on material of some generation, and any calls that make no new
  -- material, the watchdog's test holds as soon as `auth_ttl` has passed: no controller keeps the
  -- device from being paired again.
  pub recovery_is_required :
      (now : ℕ) (presented : Text) (session csrf : Option Text) (client_id : ℕ) (s : AuthState)
      (r : ExchangeResult) (cs : List Call) (now' : ℕ)
      → IsSound s
      → 0 < s.generation
      → (Pairing.exchange_pairing auth now presented session csrf client_id s).0 ≡ ok r
      → All NoRotation cs
      → now + auth.auth_ttl ≤ now'
      → (Pairing.pairing_recovery_required now'
          (run auth cs (Pairing.exchange_pairing auth now presented session csrf client_id s).1)).0
        ≡ true
  recovery_is_required now presented session csrf client_id s r cs now' h g e n le =
      let end = now + auth.auth_ttl in
      IsWaning-required end now' _
        (run-IsWaning end cs _ n (exchange-IsWaning now presented session csrf client_id s r h g e))
        le
