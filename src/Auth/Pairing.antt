-- ===== src/Auth/Pairing.antt =====
-- src/auth.rs: pairing material is made, exchanged for a session, and withdrawn.
--
-- What the operating system's generator returns is an argument, `none` where it fails; so are the
-- client's new id and the time.
use xanh_tab.Prelude.{
  ℕ, ◌+◌, ◌-◌, ◌/◌, ◌%◌, ◌^◌, Bool, ◌&&◌, ◌||◌, Option, none, some, List, [], ◌∷◌, ◌==◌, ltb, leb,
  if◌then◌else◌, is_some_and, is_none, length, suc, zero,
}
use xanh_tab.Text.{Text, codes, join}
use xanh_tab.Errors.{Result, ok, err, invalid_pairing, internal}
use xanh_tab.Auth.State.{
  Auth, AuthState, PairingMaterial, ExchangeResult, insert, max_pair_failures, pair_lockout,
  prune_expired, is_empty,
}

-- `u64::wrapping_add(1)` and `u32::saturating_add(1)`
abbrev pub wrapping_succ : ℕ → ℕ
wrapping_succ n = (n + 1) % 2 ^ 64

abbrev pub saturating_succ : ℕ → ℕ
saturating_succ n = if ltb n (2 ^ 32 - 1) then n + 1 else 2 ^ 32 - 1

-- `chunks(4)`, with as many rounds as there are characters.
unfoldable pub chunks4 : ℕ → Text → List Text
chunks4 zero s = []
chunks4 (suc fuel) [] = []
chunks4 (suc fuel) (a ∷ b ∷ c ∷ d ∷ s) = (a ∷ b ∷ c ∷ d ∷ []) ∷ chunks4 fuel s
chunks4 (suc fuel) s = s ∷ []

module _ (auth : Auth) where
  unfoldable pub group_manual_code : List ℕ → Text
  unfolding chunks4 join
  group_manual_code bytes =
      let encoded = auth.encode_base32 bytes in join (codes "-") (chunks4 (length encoded) encoded)

  -- The state with new pairing material: a new generation, and nothing of the old one.
  unfoldable pub renew : PairingMaterial → AuthState → AuthState
  renew material s = record s {
    generation = wrapping_succ s.generation;
    pairing_hash = some (auth.hash material.secret);
    manual_pairing_hash = some (auth.hash material.manual_code);
    sessions = [];
    tickets = [];
    failed_pairings = 0;
    locked_until = none;
  }

  -- `AuthManager::rotate_pairing`: `none` where the generator fails, before any change.
  unfoldable pub rotate_pairing : Option (List ℕ) → AuthState → Option PairingMaterial × AuthState
  unfolding renew group_manual_code
  rotate_pairing none s = (none, s)
  rotate_pairing (some raw) s =
      let material : PairingMaterial = record {
        secret = auth.encode_url_safe raw;
        manual_code = group_manual_code raw;
      } in
      (some material, renew material s)

  -- The presented secret is the pairing secret or the manual code.
  unfoldable pub is_valid : Text → AuthState → Bool
  is_valid presented s =
      is_some_and s.pairing_hash (λ expected. expected == auth.hash presented)
      || is_some_and s.manual_pairing_hash (λ expected. expected == auth.hash presented)

  -- `state.locked_until.is_some_and(|until| until > now)`
  unfoldable pub is_locked : AuthState → ℕ → Bool
  is_locked s now = is_some_and s.locked_until (λ until. ltb now until)

  -- A wrong secret: it counts, and the fifth locks.
  unfoldable pub count_failure : ℕ → AuthState → AuthState
  count_failure now s =
      let failed = saturating_succ s.failed_pairings in
      if leb max_pair_failures failed
      then record s { failed_pairings = 0; locked_until = some (now + pair_lockout) }
      else record s { failed_pairings = failed; locked_until = none }

  -- The right secret: it is used up before the session is made.
  unfoldable pub open_session :
      ℕ → Option Text → Option Text → ℕ → AuthState → Result ExchangeResult × AuthState
  open_session now session csrf client_id s =
      let used = record s {
        pairing_hash = none;
        manual_pairing_hash = none;
        failed_pairings = 0;
        locked_until = none;
      } in
      elim session [
        | none ↦ (err internal, used)
        | some session_token ↦ elim csrf [
          | none ↦ (err internal, used)
          | some csrf_token ↦ (
            ok (record {
              session_token = session_token;
              csrf_token = csrf_token;
              client_id = client_id;
              expires_in_seconds = auth.auth_ttl / 1_000_000_000;
            }),
            record used {
              sessions =
                  insert (auth.hash session_token)
                    (record {
                      client_id = client_id;
                      csrf_hash = auth.hash csrf_token;
                      expires_at = now + auth.auth_ttl;
                      generation = s.generation;
                    })
                    s.sessions;
            },
          )
        ]
      ]

  -- `AuthManager::exchange_pairing`
  unfoldable pub exchange_pairing :
      ℕ → Text → Option Text → Option Text → ℕ → AuthState → Result ExchangeResult × AuthState
  unfolding is_locked is_valid count_failure open_session
  exchange_pairing now presented session csrf client_id s =
      if is_locked s now
      then (err invalid_pairing, s)
      else if is_valid presented s
      then open_session now session csrf client_id s
      else (err invalid_pairing, count_failure now s)

-- `AuthManager::revoke_all`
unfoldable pub revoke_all : AuthState → AuthState
revoke_all s = record s { sessions = []; tickets = [] }

-- `AuthManager::invalidate_unpublished_pairing`
unfoldable pub invalidate_unpublished_pairing : AuthState → AuthState
invalidate_unpublished_pairing s = record s {
  pairing_hash = none;
  manual_pairing_hash = none;
  sessions = [];
  tickets = [];
}

-- `AuthManager::pairing_recovery_required`
unfoldable pub pairing_recovery_required : ℕ → AuthState → Bool × AuthState
unfolding prune_expired
pairing_recovery_required now s =
    let pruned = prune_expired s now in
    (
      ltb 0 pruned.generation
          && is_none pruned.pairing_hash
          && is_none pruned.manual_pairing_hash
          && is_empty pruned.sessions,
      pruned,
    )
