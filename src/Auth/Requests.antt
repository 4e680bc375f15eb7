-- ===== src/Auth/Requests.antt =====
-- src/auth.rs: the operations of the authentication manager as calls, and runs of them. Each takes
-- the lock for as long as it runs, so a run is a list.
use xanh_tab.Prelude.{ℕ, Bool, Option, List, [], ◌∷◌}
use xanh_tab.Text.{Text}
use xanh_tab.Auth.State.{Auth, AuthState, AuthContext, TicketPurpose}
use xanh_tab.Auth.Pairing
use xanh_tab.Auth.Access

-- A call with its time, where it reads the clock, and with what the generator gave it.
pub data Call : Type 0 where
  rotate_pairing : Option (List ℕ) → Call
  exchange_pairing : ℕ → Text → Option Text → Option Text → ℕ → Call
  authenticate : ℕ → Option Text → Option Text → Bool → Call
  validate_context : ℕ → AuthContext → Call
  issue_ticket : ℕ → Option Text → AuthContext → TicketPurpose → Call
  consume_ticket : ℕ → Text → TicketPurpose → Call
  revoke_all : Call
  invalidate_unpublished_pairing : Call
  pairing_recovery_required : ℕ → Call

module _ (auth : Auth) where
  -- The state after a call.
  unfoldable pub after : Call → AuthState → AuthState
  after (rotate_pairing raw) s = (Pairing.rotate_pairing auth raw s).1
  after (exchange_pairing now presented session csrf client_id) s =
      (Pairing.exchange_pairing auth now presented session csrf client_id s).1
  after (authenticate now session csrf require_csrf) s =
      (Access.authenticate auth now session csrf require_csrf s).1
  after (validate_context now context) s = (Access.validate_context now context s).1
  after (issue_ticket now token context purpose) s =
      (Access.issue_ticket auth now token context purpose s).1
  after (consume_ticket now token purpose) s = (Access.consume_ticket auth now token purpose s).1
  after revoke_all s = Pairing.revoke_all s
  after invalidate_unpublished_pairing s = Pairing.invalidate_unpublished_pairing s
  after (pairing_recovery_required now) s = (Pairing.pairing_recovery_required now s).1

  unfoldable pub run : List Call → AuthState → AuthState
  run [] s = s
  run (c ∷ cs) s = run cs (after c s)
