-- ===== src/Auth/Invariant.antt =====
-- There is one controller at a time, and nothing of an older generation.
use xanh_tab.Prelude.{
  ℕ, ◌≤◌, ◌<◌, ◌≡◌, refl, ◌⊎◌, inl, inr, Bool, true, false, Option, none, some, List, [], ◌∷◌,
  arith, length, All, ◌==◌, Bool-cases, Option-cases,
}
use xanh_tab.Text.{Text}
use xanh_tab.Auth.State.{
  Auth, AuthState, AuthSession, AuthContext, Ticket, TicketPurpose, Map, lookup, insert, erase,
  retain, new, prune_expired, pairing_available, max_pair_failures, session_lives,
}
use xanh_tab.Auth.Pairing
use xanh_tab.Auth.Access
use xanh_tab.Auth.Requests.{
  Call, rotate_pairing, exchange_pairing, authenticate, validate_context, issue_ticket,
  consume_ticket, revoke_all, invalidate_unpublished_pairing, pairing_recovery_required, after, run,
}

module _ {ℓ κ} {V : Type ℓ} where
  pub All-retain : (P : ℕ × V → Type κ) (p : V → Bool) (m : Map V) → All P m → All P (retain p m)
  All-retain P p [] h = h
  All-retain P p ((k, v) ∷ m) h = elim (Bool-cases (p v)) [
    | inl e ↦ rw e (h.0, All-retain P p m h.1)
    | inr e ↦ rw e (All-retain P p m h.1)
  ]

  pub All-erase : (P : ℕ × V → Type κ) (k : ℕ) (m : Map V) → All P m → All P (erase k m)
  All-erase P k [] h = h
  All-erase P k ((j, v) ∷ m) h = elim (Bool-cases (k == j)) [
    | inl e ↦ rw e (All-erase P k m h.1)
    | inr e ↦ rw e (h.0, All-erase P k m h.1)
  ]

module _ {ℓ} {V : Type ℓ} where
  pub length-retain : (p : V → Bool) (m : Map V) → length (retain p m) ≤ length m
  length-retain p [] = omega arith
  length-retain p ((k, v) ∷ m) = ground (arith, length-retain p m)

-- A stored session or ticket is of the state's generation.
abbrev pub SessionOf : ℕ → ℕ × AuthSession → Type 0
SessionOf generation (_, s) = s.generation ≡ generation

abbrev pub TicketOf : ℕ → ℕ × Ticket → Type 0
TicketOf generation (_, t) = t.generation ≡ generation

pub record IsSound (s : AuthState) : Type 0 where
  pub exclusive : (pairing_available s ≡ false) ⊎ ((s.sessions ≡ []) × (s.tickets ≡ []))
  pub single : length s.sessions ≤ 1
  pub sessions_of : All (SessionOf s.generation) s.sessions
  pub tickets_of : All (TicketOf s.generation) s.tickets
  pub counted : s.failed_pairings < max_pair_failures

pub prune_expired-IsSound : (s : AuthState) (now : ℕ) → IsSound s → IsSound (prune_expired s now)
unfolding prune_expired pairing_available
prune_expired-IsSound s now h = record {
  exclusive = ground (arith, h.exclusive);
  single = omega (arith, length-retain {0} (session_lives now s.generation) s.sessions, h.single);
  sessions_of = All-retain (SessionOf s.generation) _ s.sessions h.sessions_of;
  tickets_of = All-retain (TicketOf s.generation) _ s.tickets h.tickets_of;
  counted = h.counted;
}

add_ticket-IsSound :
    (k : ℕ) (t : Ticket) (context : AuthContext) (now : ℕ) (s : AuthState)
    → IsSound s
    → Access.is_current context now s ≡ true
    → t.generation ≡ s.generation
    → IsSound (record s { tickets = insert k t s.tickets })
unfolding Access.is_current pairing_available
add_ticket-IsSound k t context now s h current e = record {
  exclusive = ground (arith, h.exclusive);
  single = h.single;
  sessions_of = h.sessions_of;
  tickets_of = (e, All-erase (TicketOf s.generation) k s.tickets h.tickets_of);
  counted = h.counted;
}

erase_ticket-IsSound :
    (k : ℕ) (s : AuthState) → IsSound s → IsSound (record s { tickets = erase k s.tickets })
unfolding pairing_available
erase_ticket-IsSound k s h = record {
  exclusive = ground (arith, h.exclusive);
  single = h.single;
  sessions_of = h.sessions_of;
  tickets_of = All-erase (TicketOf s.generation) k s.tickets h.tickets_of;
  counted = h.counted;
}

module _ (auth : Auth) where
  rotate-IsSound :
      (raw : Option (List ℕ)) (s : AuthState)
      → IsSound s
      → IsSound (Pairing.rotate_pairing auth raw s).1
  unfolding Pairing.rotate_pairing
  rotate-IsSound raw s h = ground arith

  exchange-IsSound :
      (now : ℕ) (presented : Text) (session csrf : Option Text) (client_id : ℕ) (s : AuthState)
      → IsSound s
      → IsSound (Pairing.exchange_pairing auth now presented session csrf client_id s).1
  unfolding Pairing.exchange_pairing pairing_available
  exchange-IsSound now presented session csrf client_id s h = ground arith

  authenticate-IsSound :
      (now : ℕ) (session csrf : Option Text) (require_csrf : Bool) (s : AuthState)
      → IsSound s
      → IsSound (Access.authenticate auth now session csrf require_csrf s).1
  unfolding Access.authenticate
  authenticate-IsSound now session csrf require_csrf s h =
      ground (arith, prune_expired-IsSound s now h)

  issue-IsSound :
      (now : ℕ) (token : Option Text) (context : AuthContext) (purpose : TicketPurpose)
      (s : AuthState)
      → IsSound s
      → IsSound (Access.issue_ticket auth now token context purpose s).1
  unfolding Access.issue_ticket
  issue-IsSound now none context purpose s h = h
  issue-IsSound now (some token) context purpose s h =
      let pruned = prune_expired s now in
      let kept = prune_expired-IsSound s now h in
      elim (Bool-cases (Access.is_current context now pruned)) [
        | inl e ↦
            rw (e, Access.issue_ticket)
              (add_ticket-IsSound (auth.hash token) _ context now pruned kept e refl)
        | inr e ↦ rw (e, Access.issue_ticket) kept
      ]

  consume-IsSound :
      (now : ℕ) (token : Text) (purpose : TicketPurpose) (s : AuthState)
      → IsSound s
      → IsSound (Access.consume_ticket auth now token purpose s).1
  unfolding Access.consume_ticket
  consume-IsSound now token purpose s h = elim (Option-cases (lookup (auth.hash token) s.tickets)) [
    | inl e ↦ rw (e, Access.consume_ticket) h
    | inr (t, e) ↦ rw (e, Access.consume_ticket) (erase_ticket-IsSound (auth.hash token) s h)
  ]

  pub after-IsSound : (c : Call) (s : AuthState) → IsSound s → IsSound (after auth c s)
  unfolding after
  after-IsSound (rotate_pairing raw) s h = rotate-IsSound raw s h
  after-IsSound (exchange_pairing now presented session csrf client_id) s h =
      exchange-IsSound now presented session csrf client_id s h
  after-IsSound (authenticate now session csrf require_csrf) s h =
      authenticate-IsSound now session csrf require_csrf s h
  after-IsSound (validate_context now context) s h =
      unfold Access.validate_context in prune_expired-IsSound s now h
  after-IsSound (issue_ticket now token context purpose) s h =
      issue-IsSound now token context purpose s h
  after-IsSound (consume_ticket now token purpose) s h = consume-IsSound now token purpose s h
  after-IsSound revoke_all s h = unfold Pairing.revoke_all pairing_available in ground arith
  after-IsSound invalidate_unpublished_pairing s h =
      unfold Pairing.invalidate_unpublished_pairing pairing_available in ground arith
  after-IsSound (pairing_recovery_required now) s h =
      unfold Pairing.pairing_recovery_required in prune_expired-IsSound s now h

  run-IsSound : (cs : List Call) (s : AuthState) → IsSound s → IsSound (run auth cs s)
  unfolding run
  run-IsSound [] s h = h
  run-IsSound (c ∷ cs) s h = run-IsSound cs (after auth c s) (after-IsSound c s h)

  -- Whatever calls come, in any order and with any secrets: at most one controller session is
  -- stored, and none and no ticket while pairing material is available; every stored session and
  -- ticket is of the current generation; fewer than five failures are counted.
  pub run-new-IsSound : (cs : List Call) → IsSound (run auth cs new)
  run-new-IsSound cs = run-IsSound cs new (unfold pairing_available in ground arith)
