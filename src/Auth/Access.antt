-- ===== src/Auth/Access.antt =====
-- src/auth.rs: who a request is from, and the tickets of the WebSockets.
use xanh_tab.Prelude.{
  ℕ, ◌+◌, Bool, false, not, ◌&&◌, ◌||◌, Option, none, some, ◌==◌, ltb, leb, if◌then◌else◌,
}
use xanh_tab.Text.{Text}
use xanh_tab.Errors.{Result, ok, err, unauthorized, invalid_csrf, internal}
use xanh_tab.Auth.State.{
  Auth, AuthState, AuthSession, AuthContext, TicketPurpose, lookup, insert, erase, any_value,
  purpose_eq, prune_expired,
}

-- The test of `validate_context` and `issue_ticket` on a session.
abbrev pub session_of : AuthContext → ℕ → ℕ → AuthSession → Bool
session_of context generation now session =
    session.client_id == context.client_id
    && session.generation == generation
    && ltb now session.expires_at

-- The context is of the current generation, and one of its sessions lives.
unfoldable pub is_current : AuthContext → ℕ → AuthState → Bool
is_current context now s =
    context.generation == s.generation && any_value (session_of context s.generation now) s.sessions

module _ (auth : Auth) where
  -- The test of the CSRF token.
  unfoldable pub csrf_matches : Option Text → AuthSession → Bool
  csrf_matches none session = false
  csrf_matches (some presented) session = session.csrf_hash == auth.hash presented

  -- `AuthManager::authenticate`
  unfoldable pub authenticate :
      ℕ → Option Text → Option Text → Bool → AuthState → Result AuthContext × AuthState
  unfolding prune_expired csrf_matches
  authenticate now none csrf require_csrf s = (err unauthorized, s)
  authenticate now (some token) csrf require_csrf s =
      let pruned = prune_expired s now in
      elim (lookup (auth.hash token) pruned.sessions) [
        | none ↦ (err unauthorized, pruned)
        | some session ↦
            if require_csrf && not (csrf_matches csrf session)
            then (err invalid_csrf, pruned)
            else (
              ok (record { client_id = session.client_id; generation = session.generation }),
              pruned,
            )
      ]

  -- `AuthManager::issue_ticket`: the token is what the generator gave.
  unfoldable pub issue_ticket :
      ℕ → Option Text → AuthContext → TicketPurpose → AuthState → Result Text × AuthState
  unfolding prune_expired is_current
  issue_ticket now none context purpose s = (err internal, s)
  issue_ticket now (some token) context purpose s =
      let pruned = prune_expired s now in
      if is_current context now pruned
      then (
        ok token,
        record pruned {
          tickets =
              insert (auth.hash token)
                (record {
                  client_id = context.client_id;
                  expires_at = now + auth.ticket_ttl;
                  generation = pruned.generation;
                  purpose = purpose;
                })
                pruned.tickets;
        },
      )
      else (err unauthorized, pruned)

  -- `AuthManager::consume_ticket`: the ticket is taken out before it is looked at.
  unfoldable pub consume_ticket :
      ℕ → Text → TicketPurpose → AuthState → Result AuthContext × AuthState
  consume_ticket now token expected_purpose s = elim (lookup (auth.hash token) s.tickets) [
    | none ↦ (err unauthorized, s)
    | some ticket ↦ (
      if leb ticket.expires_at now
            || not (ticket.generation == s.generation)
            || not (purpose_eq ticket.purpose expected_purpose)
          then err unauthorized
          else ok (record { client_id = ticket.client_id; generation = ticket.generation }),
      record s { tickets = erase (auth.hash token) s.tickets },
    )
  ]

-- `AuthManager::validate_context`
unfoldable pub validate_context : ℕ → AuthContext → AuthState → Result (Unit {0}) × AuthState
unfolding prune_expired is_current
validate_context now context s =
    let pruned = prune_expired s now in
    (if is_current context now pruned then ok tt else err unauthorized, pruned)
