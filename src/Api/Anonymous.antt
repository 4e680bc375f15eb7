-- ===== src/Api/Anonymous.antt =====
-- src/api.rs: requests without a controller session.
use xanh_tab.Prelude.{
  ℕ, ◌≡◌, refl, ◌⊎◌, inl, inr, Bool, true, false, ◌&&◌, Option, none, some, [], ◌∷◌, arith, All,
  ltb, ◌==◌,
}
use xanh_tab.Text.{Text}
use xanh_tab.Errors.{err, is_ok, AppError, Result-cases}
use xanh_tab.Auth.State.{Auth, AuthSession, Map, lookup, retain, session_lives, prune_expired}
use xanh_tab.Auth.Access as Access
use xanh_tab.App.{System}
use xanh_tab.Api.{Headers, Route, Outside, Api, authenticate}
use xanh_tab.Api.Serve.{serve, is_mutation, is_public}
use xanh_tab.Api.Guarded.{behind_csrf, behind_session}

-- Each session that is stored under the hash is past its end.
abbrev AllOver : ℕ → ℕ → Map AuthSession → Type 0
AllOver hash now = All (λ e. (hash == e.0 && ltb now e.1.expires_at) ≡ false)

-- The request has no cookie, or one under whose hash no session lives.
unfoldable pub NoSession : Auth → ℕ → Headers → System → Type 0
NoSession auth seen headers s =
    (headers.session ≡ none)
    ⊎ ((token : Text) × (headers.session ≡ some token)
        × All (λ e. (auth.hash token == e.0 && ltb seen e.1.expires_at) ≡ false) s.auth.sessions)

over_is_pruned :
    (hash now generation : ℕ) (m : Map AuthSession)
    → AllOver hash now m
    → lookup hash (retain (session_lives now generation) m) ≡ none
over_is_pruned hash now generation [] h = refl
over_is_pruned hash now generation ((k, v) ∷ m) h =
    ground (arith, h.0, over_is_pruned hash now generation m h.1)

module _ (api : Api) (seen : ℕ) (headers : Headers) (s : System) where
  access_is_refused :
      (csrf : Option Text) (require_csrf : Bool)
      → NoSession api.app.auth seen headers s
      → is_ok (Access.authenticate api.app.auth seen headers.session csrf require_csrf s.auth).0
        ≡ false
  unfolding NoSession Access.authenticate prune_expired
  access_is_refused csrf require_csrf (inl e) = rw e refl
  access_is_refused csrf require_csrf (inr (token, e, h)) =
      let q = over_is_pruned (api.app.auth.hash token) seen s.auth.generation s.auth.sessions h in
      rw (e, q, Access.authenticate, prune_expired) refl

  refused_without_session :
      (require_csrf : Bool)
      → NoSession api.app.auth seen headers s
      → is_ok (authenticate api seen headers require_csrf s).0 ≡ false
  unfolding authenticate
  refused_without_session require_csrf n =
      ground (arith, access_is_refused headers.csrf require_csrf n)

  pub authenticate_touches_auth :
      (require_csrf : Bool)
      → ((authenticate api seen headers require_csrf s).1.world ≡ s.world)
        × ((authenticate api seen headers require_csrf s).1.pairing_file ≡ s.pairing_file)
  unfolding authenticate
  authenticate_touches_auth require_csrf = ground arith

module _ (api : Api) (outside : Outside) (headers : Headers) (s : System) where
  kept :
      (after s' : System)
      → (after.world ≡ s.world) × (after.pairing_file ≡ s.pairing_file)
      → (s' ≡ s) ⊎ (s' ≡ after)
      → (s'.world ≡ s.world) × (s'.pairing_file ≡ s.pairing_file)
  kept after s' h (inl e) = rw e (refl, refl)
  kept after s' h (inr e) = rw e h

  refused_keeps :
      (route : Route) (require_csrf : Bool) (e : AppError)
      → (authenticate api outside.seen headers require_csrf s).0 ≡ err e
      → is_mutation route ≡ require_csrf
      → is_public route ≡ false
      → (is_ok (serve api outside headers route s).0 ≡ false)
        × ((serve api outside headers route s).1.world ≡ s.world)
        × ((serve api outside headers route s).1.pairing_file ≡ s.pairing_file)
  refused_keeps route true e q m p =
      let (refused, after) = behind_csrf api outside headers s e route m p q in
      let (world, file) =
        kept _ _ (authenticate_touches_auth api outside.seen headers s true) after in
      (refused, world, file)
  refused_keeps route false e q m p =
      let (refused, after) = behind_session api outside headers s e route m p q in
      let (world, file) =
        kept _ _ (authenticate_touches_auth api outside.seen headers s false) after in
      (refused, world, file)

  -- A request without a cookie under whose hash a session lives fails on every route but those of
  -- the health check, the status, the pairing, the two WebSockets and the files of the web client,
  -- and there it changes neither the session manager nor the pairing file.
  pub anonymous_is_refused :
      (route : Route)
      → is_public route ≡ false
      → NoSession api.app.auth outside.seen headers s
      → (is_ok (serve api outside headers route s).0 ≡ false)
        × ((serve api outside headers route s).1.world ≡ s.world)
        × ((serve api outside headers route s).1.pairing_file ≡ s.pairing_file)
  anonymous_is_refused route p n =
      let b = is_mutation route in
      elim (Result-cases (authenticate api outside.seen headers b s).0) [
        | inl (a, q) ↦ ground (arith, refused_without_session api outside.seen headers s b n)
        | inr (e, q) ↦ refused_keeps route b e q refl p
      ]
