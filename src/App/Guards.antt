-- ===== src/App/Guards.antt =====
-- src/lib.rs: an operation behind a guard, and the session id's guard.
use xanh_tab.Prelude.{ℕ, ◌≡◌, arith, inl, inr}
use xanh_tab.Errors.{ok, Result-cases}
use xanh_tab.Auth.State.{AuthContext}
use xanh_tab.Auth.Access as Access
use xanh_tab.App as App
use xanh_tab.App.{App, System, Operation}

-- What holds behind the guard, and behind what follows where the guard passes, holds behind both.
pub and_then-end :
    {A B : Type 0} (P : System → Type 0) (guard : Operation A) (next : A → Operation B) (s : System)
    → P (guard s).1
    → ((a : A) → (guard s).0 ≡ ok a → P (next a (guard s).1).1)
    → P (App.and_then guard next s).1
and_then-end P guard next s h k = elim (Result-cases (guard s).0) [
  | inr (e, q) ↦ rw (q, App.and_then) h
  | inl (a, q) ↦ rw (q, App.and_then) (k a q)
]

-- The system behind the test of a context.
abbrev pub validated : ℕ → AuthContext → System → System
validated now context s = (App.on_auth (Access.validate_context now context) s).1

-- The guards change nothing else.
pub admit-validated :
    (app : App) (now : ℕ) (context : AuthContext) (id : ℕ) (s : System)
    → (App.admit app now context id s).1 ≡ validated now context s
unfolding App.admit App.require_session_id
admit-validated app now context id s = ground arith
