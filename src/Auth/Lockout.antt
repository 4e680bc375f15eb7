-- ===== src/Auth/Lockout.antt =====
-- How many guesses the lockout lets through.
use xanh_tab.Prelude.{
  ℕ, ◌+◌, ◌-◌, ◌*◌, ◌≤◌, ◌<◌, ◌≡◌, refl, true, false, ◌⊎◌, inl, inr, none, some, List, [], ◌∷◌,
  arith, if◌then◌else◌, Bool-cases, ltb,
}
use xanh_tab.Text.{Text}
use xanh_tab.Errors.{Result, is_ok}
use xanh_tab.Auth.State.{Auth, AuthState, ExchangeResult, max_pair_failures, pair_lockout}
use xanh_tab.Auth.Pairing.{is_locked, is_valid, count_failure, open_session, exchange_pairing}

-- A presented secret and its time.
abbrev pub Attempt : Type 0
Attempt = ℕ × Text

-- The times do not fall, from `t` on to `end`.
abbrev pub IsOrdered : ℕ → List Attempt → ℕ → Type 0
IsOrdered t [] end = t ≤ end
IsOrdered t ((now, _) ∷ attempts) end = (t ≤ now) × IsOrdered now attempts end

-- Attempts of a client that gets the tokens and the id below where a secret is accepted.
module _ (auth : Auth) (session csrf : Text) (client_id : ℕ) where
  abbrev pub attempt : ℕ → Text → AuthState → Result ExchangeResult × AuthState
  attempt now presented s =
      exchange_pairing auth now presented (some session) (some csrf) client_id s

  -- How many attempts fail at a time at which `secret` would have been accepted: those that could
  -- have been a hit. They run on `exchange_pairing` one behind the other, up to the first that
  -- succeeds, which is not counted.
  unfoldable pub guesses : Text → List Attempt → AuthState → ℕ
  guesses secret [] s = 0
  guesses secret ((now, presented) ∷ attempts) s =
      let (r, s') = attempt now presented s in
      let more = guesses secret attempts s' in
      if is_ok r then 0 else if is_ok (attempt now secret s).0 then more + 1 else more

IsOrdered-le : (attempts : List Attempt) (t end : ℕ) → IsOrdered t attempts end → t ≤ end
IsOrdered-le [] t end o = o
IsOrdered-le ((now, _) ∷ attempts) t end o = omega (arith, IsOrdered-le attempts now end o.1, o.0)

-- The end of the lockout, 0 where there is none.
abbrev lock_end : AuthState → ℕ
lock_end s = elim s.locked_until [ none ↦ 0 | some until ↦ until ]

-- The bound, by the guesses `g`, the failures `f` that are counted already, and the lockout.
abbrev Bound : ℕ → ℕ → ℕ → ℕ → ℕ → Type 0
Bound g f lock t end =
    (g ≡ 0)
    ⊎ ((lock ≤ end)
        × (pair_lockout * (g + f) ≤ 5 * pair_lockout + 5 * (end - t))
        × (pair_lockout * (g + f) ≤ 5 * pair_lockout + 5 * (end - lock)))

-- What a failure does to the count and to the lockout.
abbrev Counted : ℕ → ℕ → ℕ → ℕ → Type 0
Counted now f f' lock' =
    ((f + 1 < max_pair_failures) × (f' ≡ f + 1) × (lock' ≡ 0))
    ⊎ ((f + 1 ≡ max_pair_failures) × (f' ≡ 0) × (lock' ≡ now + pair_lockout))

-- A refused attempt only passes the time.
locked_step : (g f lock t now end : ℕ) → Bound g f lock now end → t ≤ now → Bound g f lock t end
locked_step g f lock t now end (inl e) le = inl e
locked_step g f lock t now end (inr h) le = inr (omega arith, omega arith, omega arith)

-- A guess that fails.
guess_step :
    (g f f' lock lock' t now end : ℕ)
    → Counted now f f' lock'
    → Bound g f' lock' now end
    → t ≤ now
    → now ≤ end
    → lock ≤ now
    → Bound (g + 1) f lock t end
guess_step g f f' lock lock' t now end (inl c) (inl e) le le' free =
    inr (omega arith, omega arith, omega arith)
guess_step g f f' lock lock' t now end (inl c) (inr h) le le' free =
    inr (omega arith, omega arith, omega arith)
guess_step g f f' lock lock' t now end (inr c) (inl e) le le' free =
    inr (omega arith, omega arith, omega arith)
guess_step g f f' lock lock' t now end (inr c) (inr h) le le' free =
    inr (omega arith, omega arith, omega arith)

fewer : (g f lock t end : ℕ) → Bound (g + 1) f lock t end → Bound g f lock t end
fewer g f lock t end (inl e) = inl (omega arith)
fewer g f lock t end (inr h) = inr (omega arith, omega arith, omega arith)

module _ (auth : Auth) where
  is_locked-eq : (s : AuthState) (now : ℕ) → is_locked auth s now ≡ ltb now (lock_end s)
  unfolding is_locked
  is_locked-eq s now = ground arith

  -- A failure below the fifth counts, and the fifth locks.
  count_failure-cases :
      (now : ℕ) (s : AuthState)
      → s.failed_pairings < max_pair_failures
      → let s' = count_failure auth now s in
        Counted now s.failed_pairings s'.failed_pairings (lock_end s')
  unfolding count_failure
  count_failure-cases now s h = ground arith

module _ (auth : Auth) (session csrf : Text) (client_id : ℕ) where
  -- What `exchange_pairing` does with an attempt, by its guards.
  attempt-locked :
      (now : ℕ) (presented : Text) (s : AuthState)
      → is_locked auth s now ≡ true
      → let (r, s') = attempt auth session csrf client_id now presented s in
        (is_ok r ≡ false) × (s' ≡ s)
  unfolding exchange_pairing
  attempt-locked now presented s h = rw h (refl, refl)

  attempt-right :
      (now : ℕ) (presented : Text) (s : AuthState)
      → is_locked auth s now ≡ false
      → is_valid auth presented s ≡ true
      → is_ok (attempt auth session csrf client_id now presented s).0 ≡ true
  unfolding exchange_pairing open_session
  attempt-right now presented s h right = rw (h, right) refl

  attempt-wrong :
      (now : ℕ) (presented : Text) (s : AuthState)
      → is_locked auth s now ≡ false
      → is_valid auth presented s ≡ false
      → let (r, s') = attempt auth session csrf client_id now presented s in
        (is_ok r ≡ false) × (s' ≡ count_failure auth now s)
  unfolding exchange_pairing
  attempt-wrong now presented s h wrong = rw (h, wrong) (refl, refl)

  guesses-Bound :
      (secret : Text) (attempts : List Attempt) (s : AuthState) (t end : ℕ)
      → IsOrdered t attempts end
      → s.failed_pairings < max_pair_failures
      → Bound
          (guesses auth session csrf client_id secret attempts s)
          s.failed_pairings
          (lock_end s)
          t
          end
  unfolding guesses
  guesses-Bound secret [] s t end o h = inl refl
  guesses-Bound secret ((now, presented) ∷ attempts) s t end o h =
      let le = IsOrdered-le attempts now end o.1 in
      let s' = count_failure auth now s in
      let more = λ (u : AuthState). guesses auth session csrf client_id secret attempts u in
      elim (Bool-cases (is_locked auth s now)) [
        | inl locked ↦
            let (refused, same) = attempt-locked now presented s locked in
            rw (refused, (attempt-locked now secret s locked).0, same, guesses)
              (locked_step (more s) s.failed_pairings (lock_end s) t now end
                (guesses-Bound secret attempts s now end o.1 h) o.0)
        | inr unlocked ↦ elim (Bool-cases (is_valid auth presented s)) [
          | inl right ↦ rw (attempt-right now presented s unlocked right, guesses) (inl refl)
          | inr wrong ↦
              let (refused, counts) = attempt-wrong now presented s unlocked wrong in
              let counted = count_failure-cases auth now s h in
              let free : lock_end s ≤ now = ground (arith, is_locked-eq auth s now) in
              let bound = guesses-Bound secret attempts s' now end o.1 (ground (arith, counted)) in
              let step =
                guess_step (more s') s.failed_pairings s'.failed_pairings (lock_end s) (lock_end s')
                  t now end counted bound o.0 le free in
              elim (Bool-cases (is_ok (attempt auth session csrf client_id now secret s).0)) [
                | inl hit ↦ rw (refused, hit, counts, guesses) step
                | inr miss ↦ rw (refused, miss, counts, guesses) (fewer _ _ _ _ _ step)
              ]
        ]
      ]

  -- The lockout bounds guessing: from a state that is not locked and counts no failure, with the
  -- attempts in the order of their times between `start` and `end`, no other call between them and
  -- a generator that serves an exchange, the attempts that fail before the first that succeeds,
  -- each at a time at which `secret` would have been accepted, are at most five, and five more for
  -- each thirty seconds from `start` to `end`. This holds for every `secret`.
  pub guesses_bound :
      (secret : Text) (attempts : List Attempt) (s : AuthState) (start end : ℕ)
      → IsOrdered start attempts end
      → s.failed_pairings ≡ 0
      → s.locked_until ≡ none
      → pair_lockout * guesses auth session csrf client_id secret attempts s
        ≤ 5 * (pair_lockout + (end - start))
  guesses_bound secret attempts s start end o f l =
      elim (guesses-Bound secret attempts s start end o (omega arith)) [
        | inl e ↦ omega arith
        | inr h ↦ omega arith
      ]
