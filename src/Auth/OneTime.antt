-- ===== src/Auth/OneTime.antt =====
-- What may be used once: pairing material, and tickets.
use xanh_tab.Prelude.{ℕ, ◌≡◌, ◌≢◌, refl, Bool, false, Option, none, some, List, [], ◌∷◌, arith, All}
use xanh_tab.Text.{Text}
use xanh_tab.Errors.{ok, err, invalid_pairing, unauthorized}
use xanh_tab.Auth.State.{
  Auth, AuthState, ExchangeResult, TicketPurpose, Map, lookup, erase, retain, prune_expired,
  pairing_available,
}
use xanh_tab.Auth.Pairing
use xanh_tab.Auth.Access
use xanh_tab.Auth.Requests.{
  Call, rotate_pairing, exchange_pairing, authenticate, validate_context, issue_ticket,
  consume_ticket, revoke_all, invalidate_unpublished_pairing, pairing_recovery_required, after, run,
}

-- A call that makes no new pairing material.
abbrev pub NoRotation : Call → Type 0
NoRotation (rotate_pairing _) = ⊥
NoRotation (exchange_pairing _ _ _ _ _) = Unit
NoRotation (authenticate _ _ _ _) = Unit
NoRotation (validate_context _ _) = Unit
NoRotation (issue_ticket _ _ _ _) = Unit
NoRotation (consume_ticket _ _ _) = Unit
NoRotation revoke_all = Unit
NoRotation invalidate_unpublished_pairing = Unit
NoRotation (pairing_recovery_required _) = Unit

module _ (auth : Auth) where
  exchange_unavailable :
      (now : ℕ) (presented : Text) (session csrf : Option Text) (client_id : ℕ) (s : AuthState)
      → pairing_available s ≡ false
      → ((Pairing.exchange_pairing auth now presented session csrf client_id s).0
          ≡ err invalid_pairing)
        × (pairing_available
              (Pairing.exchange_pairing auth now presented session csrf client_id s).1
            ≡ false)
  unfolding Pairing.exchange_pairing pairing_available
  exchange_unavailable now presented session csrf client_id s h = ground arith

  after-unavailable :
      (c : Call) (s : AuthState)
      → NoRotation c
      → pairing_available s ≡ false
      → pairing_available (after auth c s) ≡ false
  unfolding after pairing_available Access.validate_context Pairing.revoke_all
      Pairing.invalidate_unpublished_pairing Pairing.pairing_recovery_required Access.authenticate
      Access.issue_ticket Access.consume_ticket
  after-unavailable (rotate_pairing _) s n h = absurd n
  after-unavailable (exchange_pairing now presented session csrf client_id) s n h =
      (exchange_unavailable now presented session csrf client_id s h).1
  after-unavailable (authenticate now none csrf require_csrf) s n h = h
  after-unavailable (authenticate now (some token) csrf require_csrf) s n h = ground arith
  after-unavailable (validate_context now context) s n h = h
  after-unavailable (issue_ticket now none context purpose) s n h = h
  after-unavailable (issue_ticket now (some token) context purpose) s n h = ground arith
  after-unavailable (consume_ticket now token purpose) s n h = ground arith
  after-unavailable revoke_all s n h = h
  after-unavailable invalidate_unpublished_pairing s n h = refl
  after-unavailable (pairing_recovery_required now) s n h = h

  pub run-unavailable :
      (cs : List Call) (s : AuthState)
      → All NoRotation cs
      → pairing_available s ≡ false
      → pairing_available (run auth cs s) ≡ false
  unfolding run
  run-unavailable [] s n h = h
  run-unavailable (c ∷ cs) s n h =
      run-unavailable cs (after auth c s) n.1 (after-unavailable c s n.0 h)

  pub exchange-unavailable :
      (now : ℕ) (presented : Text) (session csrf : Option Text) (client_id : ℕ) (s : AuthState)
      (r : ExchangeResult)
      → (Pairing.exchange_pairing auth now presented session csrf client_id s).0 ≡ ok r
      → pairing_available (Pairing.exchange_pairing auth now presented session csrf client_id s).1
        ≡ false
  unfolding Pairing.exchange_pairing pairing_available
  exchange-unavailable now presented session csrf client_id s r h = ground arith

  -- Pairing material is good for one exchange: behind a successful one, and any calls that make no
  -- new material, every exchange is refused, whatever is presented and whenever.
  pub exchange_once :
      (now : ℕ) (presented : Text) (session csrf : Option Text) (client_id : ℕ) (s : AuthState)
      (r : ExchangeResult) (cs : List Call) (now' : ℕ) (presented' : Text)
      (session' csrf' : Option Text) (client_id' : ℕ)
      → (Pairing.exchange_pairing auth now presented session csrf client_id s).0 ≡ ok r
      → All NoRotation cs
      → (Pairing.exchange_pairing auth now' presented' session' csrf' client_id'
          (run auth cs (Pairing.exchange_pairing auth now presented session csrf client_id s).1)).0
        ≡ err invalid_pairing
  exchange_once now presented session csrf client_id s r cs now' presented' session' csrf'
        client_id' h n =
      (exchange_unavailable now' presented' session' csrf' client_id' _ (
        run-unavailable cs _ n (exchange-unavailable now presented session csrf client_id s r h))).0

-- A ticket that is gone stays gone.
module _ {ℓ} {V : Type ℓ} where
  pub lookup-erase_self : (k : ℕ) (m : Map V) → lookup k (erase k m) ≡ none
  lookup-erase_self k [] = refl
  lookup-erase_self k ((j, v) ∷ m) = ground (arith, lookup-erase_self k m)

  lookup-erase-none : (j k : ℕ) (m : Map V) → lookup k m ≡ none → lookup k (erase j m) ≡ none
  lookup-erase-none j k [] h = refl
  lookup-erase-none j k ((i, v) ∷ m) h = ground (arith, lookup-erase-none j k m)

  pub lookup-retain-none :
      (p : V → Bool) (k : ℕ) (m : Map V) → lookup k m ≡ none → lookup k (retain p m) ≡ none
  lookup-retain-none p k [] h = refl
  lookup-retain-none p k ((i, v) ∷ m) h = ground (arith, lookup-retain-none p k m)

module _ (auth : Auth) (k : ℕ) where
  -- A call that issues no ticket under the digest `k`.
  abbrev pub NoTicket : Call → Type 0
  NoTicket (issue_ticket _ (some token) _ _) = auth.hash token ≢ k
  NoTicket (issue_ticket _ none _ _) = Unit
  NoTicket (rotate_pairing _) = Unit
  NoTicket (exchange_pairing _ _ _ _ _) = Unit
  NoTicket (authenticate _ _ _ _) = Unit
  NoTicket (validate_context _ _) = Unit
  NoTicket (consume_ticket _ _ _) = Unit
  NoTicket revoke_all = Unit
  NoTicket invalidate_unpublished_pairing = Unit
  NoTicket (pairing_recovery_required _) = Unit

  prune-no_ticket :
      (now : ℕ) (s : AuthState)
      → lookup k s.tickets ≡ none
      → lookup k (prune_expired s now).tickets ≡ none
  unfolding prune_expired
  prune-no_ticket now s h = lookup-retain-none _ k s.tickets h

  after-NoTicket :
      (c : Call) (s : AuthState)
      → NoTicket c
      → lookup k s.tickets ≡ none
      → lookup k (after auth c s).tickets ≡ none
  unfolding after Access.validate_context Pairing.revoke_all Pairing.rotate_pairing
      Pairing.invalidate_unpublished_pairing Pairing.pairing_recovery_required Access.authenticate
      Access.issue_ticket Access.consume_ticket Pairing.exchange_pairing
  after-NoTicket (rotate_pairing none) s n h = h
  after-NoTicket (rotate_pairing (some raw)) s n h = refl
  after-NoTicket (exchange_pairing now presented session csrf client_id) s n h = ground arith
  after-NoTicket (authenticate now none csrf require_csrf) s n h = h
  after-NoTicket (authenticate now (some token) csrf require_csrf) s n h =
      ground (arith, prune-no_ticket now s h)
  after-NoTicket (validate_context now context) s n h = prune-no_ticket now s h
  after-NoTicket (issue_ticket now none context purpose) s n h = h
  after-NoTicket (issue_ticket now (some token) context purpose) s n h = ground (
    arith,
    prune-no_ticket now s h,
    lookup-erase-none (auth.hash token) k (prune_expired s now).tickets,
  )
  after-NoTicket (consume_ticket now token purpose) s n h =
      ground (arith, lookup-erase-none (auth.hash token) k s.tickets h)
  after-NoTicket revoke_all s n h = refl
  after-NoTicket invalidate_unpublished_pairing s n h = refl
  after-NoTicket (pairing_recovery_required now) s n h = prune-no_ticket now s h

  run-NoTicket :
      (cs : List Call) (s : AuthState)
      → All NoTicket cs
      → lookup k s.tickets ≡ none
      → lookup k (run auth cs s).tickets ≡ none
  unfolding run
  run-NoTicket [] s n h = h
  run-NoTicket (c ∷ cs) s n h = run-NoTicket cs (after auth c s) n.1 (after-NoTicket c s n.0 h)

consume-no_ticket :
    (auth : Auth) (now : ℕ) (token : Text) (purpose : TicketPurpose) (s : AuthState)
    → lookup (auth.hash token) (Access.consume_ticket auth now token purpose s).1.tickets ≡ none
unfolding Access.consume_ticket
consume-no_ticket auth now token purpose s =
    ground (arith, lookup-erase_self (auth.hash token) s.tickets)

no_ticket-unauthorized :
    (auth : Auth) (now : ℕ) (token : Text) (purpose : TicketPurpose) (s : AuthState)
    → lookup (auth.hash token) s.tickets ≡ none
    → (Access.consume_ticket auth now token purpose s).0 ≡ err unauthorized
unfolding Access.consume_ticket
no_ticket-unauthorized auth now token purpose s h = ground arith

-- A ticket is good for one use, also one that failed: behind it, and any calls that issue no ticket
-- of the same digest, the token is refused for every purpose, whenever.
pub consume_once :
    (auth : Auth) (now : ℕ) (token : Text) (purpose : TicketPurpose) (s : AuthState)
    (cs : List Call) (now' : ℕ) (purpose' : TicketPurpose)
    → All (NoTicket auth (auth.hash token)) cs
    → (Access.consume_ticket auth now' token purpose'
        (run auth cs (Access.consume_ticket auth now token purpose s).1)).0
      ≡ err unauthorized
consume_once auth now token purpose s cs now' purpose' n =
    no_ticket-unauthorized auth now' token purpose' _
      (run-NoTicket auth (auth.hash token) cs _ n (consume-no_ticket auth now token purpose s))
