-- ===== src/Api/Guarded.antt =====
-- src/api.rs: requests that the guards refuse.
use xanh_tab.Prelude.{
  ◌≡◌, ◌≢◌, refl, ap, ◌∙◌, ◌⊎◌, inl, inr, true, false, Option, none, some, List, [], ◌∷◌, arith,
  All,
}
use xanh_tab.Text.{Text, codes, one_of}
use xanh_tab.Text.Laws.{text_eq_iff}
use xanh_tab.Errors.{err, is_ok, invalid_csrf, AppError}
use xanh_tab.App.{System, Operation, and_then}
use xanh_tab.Config.{Config}
use xanh_tab.Api.{
  Headers, Route, Outside, Api, with_body, is_own_site, is_allowed_origin, validate_origin,
  parse_json, authenticate, health, public_status, get_session, metrics, exchange_pairing,
  start_session, burn_session, navigate, set_egress, set_stream_profile, set_blocklist,
  set_auto_burn, issue_ticket, session_events, session_signal, static_file,
}
use xanh_tab.Api.Handlers as Handlers
use xanh_tab.Api.Serve.{serve, is_mutation, is_public}

-- The site of the request is a foreign one, or its origin is none of the allowed ones.
unfoldable pub ComesFromElsewhere : Config → Headers → Type 0
ComesFromElsewhere config headers =
    ((site : Text) × (headers.sec_fetch_site ≡ some site)
      × (site ≢ codes "same-origin")
      × (site ≢ codes "same-site")
      × (site ≢ codes "none"))
    ⊎ ((origin : Text) × (headers.origin ≡ some origin)
        × All (λ allowed. allowed ≢ origin) config.server.allowed_origins)

foreign_site :
    (site : Text)
    → site ≢ codes "same-origin"
    → site ≢ codes "same-site"
    → site ≢ codes "none"
    → is_own_site site ≡ false
unfolding is_own_site one_of
foreign_site site h1 h2 h3 = ground (
  arith,
  (text_eq_iff site (codes "same-origin")).0,
  (text_eq_iff site (codes "same-site")).0,
  (text_eq_iff site (codes "none")).0,
)

foreign_origin :
    (allowed : List Text) (origin : Text)
    → All (λ a. a ≢ origin) allowed
    → is_allowed_origin allowed origin ≡ false
unfolding is_allowed_origin
foreign_origin [] origin h = refl
foreign_origin (a ∷ allowed) origin h =
    ground (arith, (text_eq_iff a origin).0, foreign_origin allowed origin h.1, h.0)

cross_site_has_no_origin :
    (config : Config) (headers : Headers)
    → ComesFromElsewhere config headers
    → validate_origin config headers ≡ err invalid_csrf
unfolding validate_origin ComesFromElsewhere
cross_site_has_no_origin config headers (inl (site, e, h1, h2, h3)) =
    ground (arith, foreign_site site h1 h2 h3)
cross_site_has_no_origin config headers (inr (origin, e, h)) =
    ground (arith, foreign_origin config.server.allowed_origins origin h)

-- The operation fails, in the system it was asked in or in the one given.
abbrev pub RefusedIn : {A : Type 0} → System → Operation A → System → Type 0
RefusedIn after o s = (is_ok (o s).0 ≡ false) × (((o s).1 ≡ s) ⊎ ((o s).1 ≡ after))

module _ (api : Api) (outside : Outside) (headers : Headers) (s : System) (e : AppError) where
  -- A request that `authenticate` refuses is refused by its handler.
  pub behind_csrf :
      (route : Route)
      → is_mutation route ≡ true
      → is_public route ≡ false
      → (authenticate api outside.seen headers true s).0 ≡ err e
      → RefusedIn
          (authenticate api outside.seen headers true s).1
          (serve api outside headers route)
          s
  unfolding serve with_body parse_json Handlers.start_session Handlers.burn_session
      Handlers.navigate Handlers.set_egress Handlers.set_stream_profile Handlers.set_blocklist
      Handlers.set_auto_burn Handlers.issue_ticket
  behind_csrf (start_session none) m p h = (refl, inl refl)
  behind_csrf (start_session (some body)) m p h = rw (h, and_then) (refl, inr refl)
  behind_csrf (navigate id none) m p h = (refl, inl refl)
  behind_csrf (navigate id (some body)) m p h = rw (h, and_then) (refl, inr refl)
  behind_csrf (set_egress id none) m p h = (refl, inl refl)
  behind_csrf (set_egress id (some body)) m p h = rw (h, and_then) (refl, inr refl)
  behind_csrf (set_stream_profile id none) m p h = (refl, inl refl)
  behind_csrf (set_stream_profile id (some body)) m p h = rw (h, and_then) (refl, inr refl)
  behind_csrf (set_blocklist id none) m p h = (refl, inl refl)
  behind_csrf (set_blocklist id (some body)) m p h = rw (h, and_then) (refl, inr refl)
  behind_csrf (set_auto_burn id none) m p h = (refl, inl refl)
  behind_csrf (set_auto_burn id (some body)) m p h = rw (h, and_then) (refl, inr refl)
  behind_csrf (issue_ticket none) m p h = (refl, inl refl)
  behind_csrf (issue_ticket (some body)) m p h = rw (h, and_then) (refl, inr refl)
  behind_csrf (burn_session id) m p h = rw (h, and_then) (refl, inr refl)
  behind_csrf (exchange_pairing payload) m p h = cc
  behind_csrf health m p h = cc
  behind_csrf public_status m p h = cc
  behind_csrf get_session m p h = cc
  behind_csrf metrics m p h = cc
  behind_csrf (session_events id) m p h = cc
  behind_csrf (session_signal id) m p h = cc
  behind_csrf static_file m p h = cc

  -- The same of the two routes that read.
  pub behind_session :
      (route : Route)
      → is_mutation route ≡ false
      → is_public route ≡ false
      → (authenticate api outside.seen headers false s).0 ≡ err e
      → RefusedIn
          (authenticate api outside.seen headers false s).1
          (serve api outside headers route)
          s
  unfolding serve Handlers.get_session Handlers.metrics
  behind_session get_session m p h = rw (h, and_then) (refl, inr refl)
  behind_session metrics m p h = rw (h, and_then) (refl, inr refl)
  behind_session health m p h = cc
  behind_session public_status m p h = cc
  behind_session (start_session payload) m p h = cc
  behind_session (burn_session id) m p h = cc
  behind_session (navigate id payload) m p h = cc
  behind_session (set_egress id payload) m p h = cc
  behind_session (set_stream_profile id payload) m p h = cc
  behind_session (set_blocklist id payload) m p h = cc
  behind_session (set_auto_burn id payload) m p h = cc
  behind_session (issue_ticket payload) m p h = cc
  behind_session (exchange_pairing payload) m p h = cc
  behind_session (session_events id) m p h = cc
  behind_session (session_signal id) m p h = cc
  behind_session static_file m p h = cc

module _ (api : Api) (outside : Outside) (headers : Headers) (s : System) where
  cross_site_authenticate :
      validate_origin api.config headers ≡ err invalid_csrf
      → authenticate api outside.seen headers true s ≡ (err invalid_csrf, s)
  unfolding authenticate
  cross_site_authenticate h = rw h refl

  cross_site_pairing :
      (payload : Option Text)
      → validate_origin api.config headers ≡ err invalid_csrf
      → (is_ok (serve api outside headers (exchange_pairing payload) s).0 ≡ false)
        × ((serve api outside headers (exchange_pairing payload) s).1 ≡ s)
  unfolding serve with_body parse_json Handlers.exchange_pairing
  cross_site_pairing none h = (refl, refl)
  cross_site_pairing (some secret) h = rw h (refl, refl)

  cross_site_mutation :
      (route : Route)
      → is_mutation route ≡ true
      → is_public route ≡ false
      → validate_origin api.config headers ≡ err invalid_csrf
      → (is_ok (serve api outside headers route s).0 ≡ false)
        × ((serve api outside headers route s).1 ≡ s)
  cross_site_mutation route m p h =
      let q = cross_site_authenticate h in
      let (refused, after) =
        behind_csrf api outside headers s invalid_csrf route m p (ap (λ x. x.0) q) in
      (refused, elim after [ inl same ↦ same | inr same ↦ same ∙ ap (λ x. x.1) q ])

  -- A request from another site that is not a GET fails, whatever its route, its body and its
  -- cookie, and leaves the system as it is.
  pub cross_site_is_refused :
      (route : Route)
      → is_mutation route ≡ true
      → ComesFromElsewhere api.config headers
      → (is_ok (serve api outside headers route s).0 ≡ false)
        × ((serve api outside headers route s).1 ≡ s)
  cross_site_is_refused (exchange_pairing payload) m c =
      cross_site_pairing payload (cross_site_has_no_origin api.config headers c)
  cross_site_is_refused (start_session payload) m c =
      cross_site_mutation (start_session payload) refl refl
        (cross_site_has_no_origin api.config headers c)
  cross_site_is_refused (burn_session id) m c =
      cross_site_mutation (burn_session id) refl refl
        (cross_site_has_no_origin api.config headers c)
  cross_site_is_refused (navigate id payload) m c =
      cross_site_mutation (navigate id payload) refl refl
        (cross_site_has_no_origin api.config headers c)
  cross_site_is_refused (set_egress id payload) m c =
      cross_site_mutation (set_egress id payload) refl refl
        (cross_site_has_no_origin api.config headers c)
  cross_site_is_refused (set_stream_profile id payload) m c =
      cross_site_mutation (set_stream_profile id payload) refl refl
        (cross_site_has_no_origin api.config headers c)
  cross_site_is_refused (set_blocklist id payload) m c =
      cross_site_mutation (set_blocklist id payload) refl refl
        (cross_site_has_no_origin api.config headers c)
  cross_site_is_refused (set_auto_burn id payload) m c =
      cross_site_mutation (set_auto_burn id payload) refl refl
        (cross_site_has_no_origin api.config headers c)
  cross_site_is_refused (issue_ticket payload) m c =
      cross_site_mutation (issue_ticket payload) refl refl
        (cross_site_has_no_origin api.config headers c)
  cross_site_is_refused health m c = cc
  cross_site_is_refused public_status m c = cc
  cross_site_is_refused get_session m c = cc
  cross_site_is_refused metrics m c = cc
  cross_site_is_refused (session_events id) m c = cc
  cross_site_is_refused (session_signal id) m c = cc
  cross_site_is_refused static_file m c = cc
