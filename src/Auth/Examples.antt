-- ===== src/Auth/Examples.antt =====
-- The theorems about src/auth.rs at a device that is paired once.
use xanh_tab.Prelude.{
  ℕ, ◌+◌, ◌*◌, ◌-◌, ◌≤◌, ◌≡◌, refl, true, some, List, [], ◌∷◌, arith, All, length,
}
use xanh_tab.Text.{Text, codes, join}
use xanh_tab.Errors.{ok, err, unauthorized, invalid_pairing, is_ok}
use xanh_tab.Samples.{auth, bytes, secret, session, csrf, ticket, digest}
use xanh_tab.Auth.State.{
  AuthState, AuthContext, ExchangeResult, for_events, for_signaling, new, pair_lockout,
}
use xanh_tab.Auth.Pairing
use xanh_tab.Auth.Pairing.{chunks4, group_manual_code}
use xanh_tab.Auth.Grouping.{without_dashes, group_manual_code_loses_nothing}
use xanh_tab.Auth.Access
use xanh_tab.Auth.Requests.{Call, exchange_pairing, authenticate, pairing_recovery_required, run}
use xanh_tab.Auth.Invariant.{IsSound}
use xanh_tab.Auth.OneTime.{exchange_once, consume_once}
use xanh_tab.Auth.Lockout.{guesses, guesses_bound}
use xanh_tab.Auth.Lifetime.{authenticate-exchange, consume-issue, revoked_is_refused}
use xanh_tab.Auth.Recovery.{recovery_is_required}

abbrev offered : AuthState
offered = record new {
  generation = 1;
  pairing_hash = some (digest secret);
  manual_pairing_hash = some (digest (codes "BCD"));
}

rotate_pairing-new :
    Pairing.rotate_pairing auth (some bytes) new
    ≡ (some (record { secret = secret; manual_code = codes "BCD" }), offered)
unfolding Pairing.rotate_pairing
rotate_pairing-new = refl

abbrev exchanged : ExchangeResult
exchanged = record {
  session_token = session;
  csrf_token = csrf;
  client_id = 9;
  expires_in_seconds = 3_600;
}

exchange_pairing-offered :
    (Pairing.exchange_pairing auth 5 secret (some session) (some csrf) 9 offered).0 ≡ ok exchanged
unfolding Pairing.exchange_pairing
exchange_pairing-offered = refl

-- The state behind the exchange.
abbrev paired : AuthState
paired = (Pairing.exchange_pairing auth 5 secret (some session) (some csrf) 9 offered).1

abbrev context : AuthContext
context = record { client_id = 9; generation = 1 }

abbrev later_calls : List Call
later_calls =
    authenticate 6 (some session) (some csrf) true
    ∷ exchange_pairing 7 secret (some session) (some csrf) 10
    ∷ pairing_recovery_required 8
    ∷ []

exchange_once_example :
    (Pairing.exchange_pairing auth 9 secret
      (some session)
      (some csrf)
      11
      (run auth later_calls paired)).0
    ≡ err invalid_pairing
exchange_once_example =
    exchange_once auth 5 secret (some session) (some csrf) 9 offered exchanged later_calls 9 secret
      (some session) (some csrf) 11 exchange_pairing-offered (tt, (tt, (tt, tt)))

abbrev ticketed : AuthState
ticketed = (Access.issue_ticket auth 6 (some ticket) context for_events paired).1

consume_once_example :
    (Access.consume_ticket auth 8 ticket for_events
      (run auth later_calls (Access.consume_ticket auth 7 ticket for_events ticketed).1)).0
    ≡ err unauthorized
consume_once_example =
    consume_once auth 7 ticket for_events ticketed later_calls 8 for_events (tt, (tt, (tt, tt)))

abbrev attempts : List (ℕ × Text)
attempts =
    (1, codes "a")
    ∷ (2, codes "b")
    ∷ (3, codes "c")
    ∷ (4, codes "d")
    ∷ (5, codes "e")
    ∷ (6, codes "f")
    ∷ []

guesses-offered : guesses auth session csrf 9 secret attempts offered ≡ 5
unfolding guesses Pairing.exchange_pairing
guesses-offered = refl

guesses_bound_example :
    pair_lockout * guesses auth session csrf 9 secret attempts offered
    ≤ 5 * (pair_lockout + (10 - 1))
guesses_bound_example =
    guesses_bound auth session csrf 9 secret attempts offered 1 10 (ground arith) refl refl

authenticate-exchange_example :
    (Access.authenticate auth 100 (some session) (some csrf) true paired).0 ≡ ok context
authenticate-exchange_example =
    authenticate-exchange auth 5 secret session csrf 9 offered exchanged 100 (some csrf) true
      exchange_pairing-offered

issue_ticket-paired :
    is_ok (Access.issue_ticket auth 6 (some ticket) context for_events paired).0 ≡ true
unfolding Access.issue_ticket Pairing.exchange_pairing
issue_ticket-paired = refl

consume-issue_example :
    (Access.consume_ticket auth 7 ticket for_signaling ticketed).0 ≡ err unauthorized
consume-issue_example =
    consume-issue auth 6 ticket context for_events paired 7 for_signaling issue_ticket-paired

revoked_is_refused_example :
    let Refuses = λ (s' : AuthState).
      ((Access.authenticate auth 7 (some session) (some csrf) true s').0 ≡ err unauthorized)
      × ((Access.consume_ticket auth 7 ticket for_events s').0 ≡ err unauthorized)
      × ((Access.validate_context 7 context s').0 ≡ err unauthorized) in
    Refuses (Pairing.rotate_pairing auth (some bytes) ticketed).1
    × Refuses (Pairing.revoke_all ticketed)
    × Refuses (Pairing.invalidate_unpublished_pairing ticketed)
revoked_is_refused_example =
    revoked_is_refused auth bytes ticketed 7 (some session) (some csrf) true ticket for_events
      context

offered-IsSound : IsSound offered
unfolding Pairing.pairing_recovery_required
offered-IsSound = ground arith

recovery_is_required_example :
    (Pairing.pairing_recovery_required 4_000_000_000_000 (run auth later_calls paired)).0 ≡ true
recovery_is_required_example =
    recovery_is_required auth 5 secret (some session) (some csrf) 9 offered exchanged later_calls
      4_000_000_000_000 offered-IsSound (omega arith) exchange_pairing-offered (tt, (tt, (tt, tt)))
      (omega arith)

group_manual_code_loses_nothing_example :
    (without_dashes (group_manual_code auth bytes) ≡ codes "BCD")
    × (group_manual_code auth bytes ≡ join (codes "-") (chunks4 3 (codes "BCD")))
    × All (λ piece. length piece ≤ 4) (chunks4 3 (codes "BCD"))
group_manual_code_loses_nothing_example = group_manual_code_loses_nothing auth bytes refl
