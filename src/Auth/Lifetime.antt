-- ===== src/Auth/Lifetime.antt =====
-- How long a session and a ticket are good for, and what ends them.
use xanh_tab.Prelude.{
  ℕ, ◌+◌, ◌≡◌, refl, Bool, true, not, ◌||◌, ◌==◌, is_some_and, Option, none, some, List, arith,
  if◌then◌else◌, ltb,
}
use xanh_tab.Text.{Text}
use xanh_tab.Errors.{ok, err, unauthorized, invalid_csrf, is_ok}
use xanh_tab.Auth.State.{
  Auth, AuthState, AuthContext, ExchangeResult, TicketPurpose, erase, purpose_eq, session_lives,
}
use xanh_tab.Auth.Pairing
use xanh_tab.Auth.Access
use xanh_tab.Auth.OneTime.{lookup-erase_self, lookup-retain-none}

purpose_eq_refl : (p : TicketPurpose) → purpose_eq p p ≡ true
purpose_eq_refl TicketPurpose.for_events = refl
purpose_eq_refl TicketPurpose.for_signaling = refl

module _ (auth : Auth) where
  -- The session token of a successful exchange authenticates its client before `auth_ttl` is over,
  -- and no longer. Where a CSRF token is asked for, only one with the digest of the exchange's own
  -- does; a missing or another one is refused as an invalid CSRF token.
  pub authenticate-exchange :
      (now : ℕ) (presented session csrf : Text) (client_id : ℕ) (s : AuthState) (r : ExchangeResult)
      (now' : ℕ) (shown : Option Text) (require_csrf : Bool)
      → (Pairing.exchange_pairing auth now presented (some session) (some csrf) client_id s).0
        ≡ ok r
      → let s' =
          (Pairing.exchange_pairing auth now presented (some session) (some csrf) client_id s).1 in
        (Access.authenticate auth now' (some session) shown require_csrf s').0 ≡ (
          if ltb now' (now + auth.auth_ttl)
          then (if not require_csrf || is_some_and shown (λ t. auth.hash t == auth.hash csrf)
              then ok (record { client_id = r.client_id; generation = s.generation })
              else err invalid_csrf)
          else err unauthorized)
  unfolding Pairing.exchange_pairing Access.authenticate Access.csrf_matches
  authenticate-exchange now presented session csrf client_id s r now' shown require_csrf h =
      let k = auth.hash session in
      ground (
        arith,
        lookup-retain-none (session_lives now' s.generation) k (erase k s.sessions)
            (lookup-erase_self k s.sessions),
      )

  -- A ticket that was issued is worth its context for its purpose, before `ticket_ttl` is over;
  -- for another purpose, or later, it is worth nothing.
  pub consume-issue :
      (now : ℕ) (token : Text) (context : AuthContext) (purpose : TicketPurpose) (s : AuthState)
      (now' : ℕ) (purpose' : TicketPurpose)
      → is_ok (Access.issue_ticket auth now (some token) context purpose s).0 ≡ true
      → let s' = (Access.issue_ticket auth now (some token) context purpose s).1 in
        (Access.consume_ticket auth now' token purpose' s').0 ≡ (
          if ltb now' (now + auth.ticket_ttl)
          then (if purpose_eq purpose purpose' then ok context else err unauthorized)
          else err unauthorized)
  unfolding Access.issue_ticket Access.consume_ticket
  consume-issue now token context purpose s now' purpose' h = ground arith

  -- A session or a ticket that has been given out is worth nothing behind a rotation, a revocation,
  -- or a withdrawal of unpublished material, whenever it is presented.
  pub revoked_is_refused :
      (raw : List ℕ) (s : AuthState) (now : ℕ) (token csrf : Option Text) (require_csrf : Bool)
      (ticket : Text) (purpose : TicketPurpose) (context : AuthContext)
      → let Refuses = λ (s' : AuthState).
        ((Access.authenticate auth now token csrf require_csrf s').0 ≡ err unauthorized)
        × ((Access.consume_ticket auth now ticket purpose s').0 ≡ err unauthorized)
        × ((Access.validate_context now context s').0 ≡ err unauthorized) in
        Refuses (Pairing.rotate_pairing auth (some raw) s).1
        × Refuses (Pairing.revoke_all s)
        × Refuses (Pairing.invalidate_unpublished_pairing s)
  unfolding Pairing.rotate_pairing Pairing.revoke_all Pairing.invalidate_unpublished_pairing
      Access.authenticate Access.consume_ticket Access.validate_context
  revoked_is_refused raw s now none csrf require_csrf ticket purpose context = ground arith
  revoked_is_refused raw s now (some token) csrf require_csrf ticket purpose context = ground arith
