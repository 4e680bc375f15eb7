-- ===== src/Api/Steps.antt =====
-- src/api.rs: the guards of a request, and what follows them, as calls of the managers.
use xanh_tab.Prelude.{
  ℕ, ◌≡◌, refl, ap, ◌∙◌, inl, inr, Bool, true, false, List, [], ◌∷◌, if◌then◌else◌, Bool-cases,
}
use xanh_tab.Errors.{AppError, Result, ok, err, is_ok, Result-cases}
use xanh_tab.Auth.State.{AuthContext}
use xanh_tab.Auth.Access as Access
use xanh_tab.Auth.Requests as Auth
use xanh_tab.App.{App, System, Operation, and_then, require_session_id}
use xanh_tab.App.Requests.{Event, happen, run}
use xanh_tab.Api.{Headers, Reply, Outside, Api, give, validate_origin, authenticate}
use xanh_tab.Api.Handlers.{replying}
use xanh_tab.Api.Calls.{only, is_addressed, entering, behind}

and_then-eq :
    {A B : Type 0} (o : Operation A) (f : A → Operation B) (s : System) (r : Result A) (t : System)
    → o s ≡ (r, t)
    → (and_then o f s).1
      ≡ (elim r as (λ _. Result B × System) [ ok a ↦ f a t | err e ↦ (err e, t) ]).1
and_then-eq {B = B} o f s r t h =
    ap (λ x. (elim x.0 as (λ _. Result B × System) [ ok a ↦ f a x.1 | err e ↦ (err e, x.1) ]).1) h

module _ (app : App) where
  -- What an operation makes of a system is what its calls make of it.
  abbrev pub ActsAs : {A : Type 0} → Operation A → (System → List Event) → Type 0
  ActsAs o calls = (s : System) → (o s).1 ≡ run app (calls s) s

  pub makes_call :
      {A : Type 0} (o : Operation A) (e : Event)
      → ((s : System) → (o s).1 ≡ happen app e s)
      → ActsAs o (λ _. e ∷ [])
  unfolding run
  makes_call o e h s = h s

  pub makes_nothing : {A : Type 0} (r : System → Result A) → ActsAs (λ s. (r s, s)) (λ _. [])
  unfolding run
  makes_nothing r s = refl

  pub makes_replying :
      {A : Type 0} (f : A → Reply) (o : Operation A) (calls : System → List Event)
      → ActsAs o calls
      → ActsAs (replying f o) calls
  makes_replying f o calls h s = elim (Result-cases (o s).0) [
    | inl (a, q) ↦ rw (q, and_then) (h s)
    | inr (e, q) ↦ rw (q, and_then) (h s)
  ]

  pub makes_checked :
      {A : Type 0} (r : Result (Unit {0})) (o : Operation A) (calls : System → List Event)
      → ActsAs o calls
      → ActsAs (and_then (give r) (λ _. o)) (λ s. only (is_ok r) (calls s))
  unfolding run
  makes_checked (ok _) o calls h s = h s
  makes_checked (err e) o calls h s = refl

  pub makes_admitted :
      {A : Type 0} (id : ℕ) (o : Operation A) (calls : System → List Event)
      → ActsAs o calls
      → ActsAs (and_then (require_session_id id) (λ _. o)) (λ s. only (is_addressed id s) (calls s))
  unfolding run require_session_id
  makes_admitted id o calls h s = elim (Bool-cases (is_addressed id s)) [
    | inl q ↦ rw (q, and_then) (h s)
    | inr q ↦ rw (q, and_then) refl
  ]

module _ (api : Api) (outside : Outside) (headers : Headers) where
  abbrev access : Bool → System → Result AuthContext
  access require_csrf s =
      (Access.authenticate api.app.auth outside.seen headers.session headers.csrf require_csrf
        s.auth).0

  abbrev entry : Bool → Result (Unit {0})
  entry require_csrf = if require_csrf then validate_origin api.config headers else ok tt

  authenticate-entered :
      (require_csrf : Bool) (s : System)
      → entry require_csrf ≡ ok tt
      → authenticate api outside.seen headers require_csrf s
        ≡ (access require_csrf s, happen api.app (entering api outside headers require_csrf) s)
  unfolding authenticate happen Auth.after
  authenticate-entered require_csrf s p = rw p refl

  authenticate-refused :
      (require_csrf : Bool) (s : System) (e : AppError)
      → entry require_csrf ≡ err e
      → authenticate api outside.seen headers require_csrf s ≡ (err e, s)
  unfolding authenticate
  authenticate-refused require_csrf s e p = rw p refl

  module _ (next : AuthContext → Operation Reply) (calls : AuthContext → System → List Event)
      (h : (context : AuthContext) → ActsAs api.app (next context) (calls context)) where
    makes_entered :
        (require_csrf : Bool) (s : System)
        → entry require_csrf ≡ ok tt
        → (and_then (authenticate api outside.seen headers require_csrf) next s).1
          ≡ run api.app
              (entering api outside headers require_csrf ∷ (elim (access require_csrf s) [
                | ok context ↦
                    calls context (happen api.app (entering api outside headers require_csrf) s)
                | err _ ↦ []
              ]))
              s
    unfolding run
    makes_entered require_csrf s p =
        let t = happen api.app (entering api outside headers require_csrf) s in
        and_then-eq (authenticate api outside.seen headers require_csrf) next s
          (access require_csrf s) t (authenticate-entered require_csrf s p)
        ∙ (elim (Result-cases (access require_csrf s)) [
          | inl (context, q) ↦ rw q (h context t)
          | inr (e, q) ↦ rw q refl
        ])

    -- What a handler does behind `authenticate`.
    pub makes_behind :
        (require_csrf : Bool)
        → ActsAs api.app
            (and_then (authenticate api outside.seen headers require_csrf) next)
            (behind api outside headers require_csrf calls)
    unfolding run
    makes_behind false s = makes_entered false s refl
    makes_behind true s = elim (Result-cases (validate_origin api.config headers)) [
      | inl (_, p) ↦ rw p (makes_entered true s p)
      | inr (e, p) ↦ rw p (
          and_then-eq (authenticate api outside.seen headers true) next s (err e) s
            (authenticate-refused true s e p))
    ]
