-- ===== src/App/Alignment.antt =====
-- Both managers agree on who the controller is.
use xanh_tab.Prelude.{
  ℕ, ◌≤◌, ◌≡◌, refl, true, false, ◌&&◌, arith, Option, none, some, [], ◌∷◌, is_some, All, length,
}
use xanh_tab.Errors.{ok}
use xanh_tab.Auth.State.{
  Auth, AuthState, AuthSession, AuthContext, Map, pairing_available, prune_expired, any_value,
}
use xanh_tab.Auth.Pairing
use xanh_tab.Auth.Access
use xanh_tab.Auth.Access.{session_of}
use xanh_tab.Auth.Requests.{
  Call, rotate_pairing, exchange_pairing, authenticate, validate_context, issue_ticket,
  consume_ticket, revoke_all, invalidate_unpublished_pairing, pairing_recovery_required, after,
}
use xanh_tab.Auth.Invariant.{IsSound, All-retain}
use xanh_tab.Auth.OneTime.{NoRotation}
use xanh_tab.Session.State.{held_by_other}

-- A stored session is of the client that holds the lease, if one does.
abbrev pub OfHolder : Option ℕ → ℕ × AuthSession → Type 0
OfHolder none e = Unit
OfHolder (some holder) (_, e) = e.client_id ≡ holder

-- No pairing material is available while the lease is held, and the stored sessions are the
-- holder's.
pub record IsFitting (controller : Option ℕ) (s : AuthState) : Type 0 where
  pub closed : (is_some controller && pairing_available s) ≡ false
  pub of_holder : All (OfHolder controller) s.sessions

All-none : (m : Map AuthSession) → All (OfHolder none) m
All-none [] = tt
All-none (_ ∷ m) = (tt, All-none m)

pub none-IsFitting : (s : AuthState) → IsFitting none s
none-IsFitting s = record { closed = refl; of_holder = All-none s.sessions }

prune_expired-IsFitting :
    (controller : Option ℕ) (now : ℕ) (s : AuthState)
    → IsFitting controller s
    → IsFitting controller (prune_expired s now)
unfolding prune_expired pairing_available
prune_expired-IsFitting controller now s h = record {
  closed = h.closed;
  of_holder = All-retain (OfHolder controller) _ s.sessions h.of_holder;
}

-- No call but a rotation lets a second client in.
pub after-IsFitting :
    (auth : Auth) (controller : Option ℕ) (c : Call) (s : AuthState)
    → NoRotation c
    → IsFitting controller s
    → IsFitting controller (after auth c s)
unfolding after pairing_available Access.validate_context Pairing.revoke_all
    Pairing.invalidate_unpublished_pairing Pairing.pairing_recovery_required
    Pairing.exchange_pairing Access.authenticate Access.issue_ticket Access.consume_ticket
after-IsFitting auth none c s n h = none-IsFitting (after auth c s)
after-IsFitting auth (some holder) (rotate_pairing _) s n h = absurd n
after-IsFitting auth (some holder) (exchange_pairing now presented session csrf client_id) s n h =
    ground (arith, h.closed, h.of_holder)
after-IsFitting auth (some holder) (authenticate now none csrf require_csrf) s n h = h
after-IsFitting auth (some holder) (authenticate now (some token) csrf require_csrf) s n h =
    ground (arith, prune_expired-IsFitting (some holder) now s h)
after-IsFitting auth (some holder) (validate_context now context) s n h =
    prune_expired-IsFitting (some holder) now s h
after-IsFitting auth (some holder) (issue_ticket now none context purpose) s n h = h
after-IsFitting auth (some holder) (issue_ticket now (some token) context purpose) s n h =
    ground (arith, prune_expired-IsFitting (some holder) now s h)
after-IsFitting auth (some holder) (consume_ticket now token purpose) s n h = ground arith
after-IsFitting auth (some holder) revoke_all s n h = ground arith
after-IsFitting auth (some holder) invalidate_unpublished_pairing s n h = ground arith
after-IsFitting auth (some holder) (pairing_recovery_required now) s n h =
    prune_expired-IsFitting (some holder) now s h

-- A client with a session among the holder's is the holder.
session_of-holder :
    (holder now generation : ℕ) (context : AuthContext) (m : Map AuthSession)
    → All (OfHolder (some holder)) m
    → any_value (session_of context generation now) m ≡ true
    → holder ≡ context.client_id
session_of-holder holder now generation context [] h e = cc
session_of-holder holder now generation context ((k, v) ∷ m) h e =
    ground (arith, h.0, session_of-holder holder now generation context m h.1)

-- The other client's sessions are none.
pub validate_context-holder :
    (now : ℕ) (context : AuthContext) (controller : Option ℕ) (s : AuthState)
    → IsFitting controller s
    → (Access.validate_context now context s).0 ≡ ok tt
    → held_by_other controller context.client_id ≡ false
unfolding Access.validate_context
validate_context-holder now context none s h e = refl
validate_context-holder now context (some holder) s h e =
    let pruned = prune_expired s now in
    ground (
      arith,
      session_of-holder holder now pruned.generation context pruned.sessions
          (prune_expired-IsFitting (some holder) now s h).of_holder,
    )

-- Where one session is stored at most, a client with a session has the only one.
session_of-single :
    (now generation : ℕ) (context : AuthContext) (m : Map AuthSession)
    → length m ≤ 1
    → any_value (session_of context generation now) m ≡ true
    → All (OfHolder (some context.client_id)) m
session_of-single now generation context [] h e = tt
session_of-single now generation context ((k, v) ∷ []) h e = ground arith
session_of-single now generation context ((k, v) ∷ next ∷ m) h e = absurd (omega (arith, h))

-- A client whose context is valid may take the lease.
pub validate_context-IsFitting :
    (now : ℕ) (context : AuthContext) (s : AuthState)
    → IsSound (Access.validate_context now context s).1
    → (Access.validate_context now context s).0 ≡ ok tt
    → IsFitting (some context.client_id) (Access.validate_context now context s).1
unfolding Access.validate_context pairing_available
validate_context-IsFitting now context s h e =
    let pruned = prune_expired s now in
    ground
      (arith, h.exclusive, session_of-single now pruned.generation context pruned.sessions h.single)
