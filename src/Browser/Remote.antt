-- ===== src/Browser/Remote.antt =====
-- src/browser.rs and src/bin/xanhtab-browser.rs: both ends of the socket.
use xanh_tab.Prelude.{ℕ, ◌≡◌, inl, inr, Bool, some, [], ◌∷◌, arith, Bool-cases}
use xanh_tab.Errors.{ok}
use xanh_tab.Model.{Url, EgressMode, StreamProfile}
use xanh_tab.Fallible.{Fallible, done, Fallible-cases}
use xanh_tab.Browser.{
  BrowserCommand, start, Pipeline, Setup, apply, spawn, launch, resolve_location,
}
use xanh_tab.Browser.Backend.{Exchange, response, handle, request, socket_start}

module _ (setup : Setup) (spawned : Fallible (Unit {0})) (late : Bool) where
  -- The helper at the other end of the socket, and what a command makes of its pipeline.
  unfoldable pub answers : Pipeline → BrowserCommand → Exchange
  unfolding handle
  answers p command = response (handle setup spawned late (done command) p).0

  unfoldable pub served : Pipeline → BrowserCommand → Pipeline
  unfolding handle
  served p command = (handle setup spawned late (done command) p).1

  launched_is_resolved :
      (egress : EgressMode) (url location : Url)
      → launch setup spawned egress url ≡ done location
      → resolve_location setup url ≡ done location
  unfolding launch
  launched_is_resolved egress url location h = elim (Fallible-cases (resolve_location setup url)) [
    | inr (e, q) ↦ ground arith
    | inl (found, q) ↦ ground arith
  ]

  -- Where the control plane takes a start for done, the helper shows the location of the URL under
  -- the session's id, with the profile and the mode that were asked for, and its history is the
  -- URL alone.
  pub started_is_shown :
      (p : Pipeline) (session_id : ℕ) (url : Url) (profile : StreamProfile) (egress : EgressMode)
      → socket_start (answers p) session_id url profile egress ≡ ok tt
      → let p' = served p (start session_id url profile egress) in
        (location : Url) × (resolve_location setup url ≡ done location)
        × (p'.child ≡ some location)
        × (p'.session_id ≡ some session_id)
        × (p'.profile ≡ profile)
        × (p'.egress ≡ egress)
        × (p'.history ≡ url ∷ [])
        × (p'.position ≡ 0)
  unfolding answers served socket_start request handle apply spawn
  started_is_shown p session_id url profile egress h = elim (Bool-cases late) [
    | inl q ↦ ground arith
    | inr q ↦ elim (Fallible-cases (launch setup spawned egress url)) [
      | inr (e, r) ↦ ground arith
      | inl (location, r) ↦ (
        location,
        launched_is_resolved egress url location r,
        ground arith,
        ground arith,
        ground arith,
        ground arith,
        ground arith,
        ground arith,
      )
    ]
  ]
