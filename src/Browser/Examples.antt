-- ===== src/Browser/Examples.antt =====
-- The theorems about the browser helper, at a session that goes back, and at a start.
use xanh_tab.Prelude.{◌≡◌, refl, false, some, none, List, [], ◌∷◌}
use xanh_tab.Model.{Url, navigate, back, forward, direct, full_hd30}
use xanh_tab.Fallible.{Fallible, done, bail}
use xanh_tab.Samples.{url}
use xanh_tab.Browser.{
  BrowserCommand, start, go, fresh, Setup, run, resolve_location, apply, spawn, launch,
}
use xanh_tab.Errors.{ok}
use xanh_tab.Browser.Backend.{socket_start}
use xanh_tab.Browser.Remote.{answers, served, started_is_shown}
use xanh_tab.Browser.History.{IsPlaced, run-fresh-IsPlaced}

abbrev setup : Setup
setup = record {
  internal_home = none;
  signaling_host = "localhost";
  signaling_ip = none;
  signaling_port = 8444;
  proxy_file = none;
  parsers = record { parse_url = λ _. none; parse_ip = λ _. none; decode_base64 = λ _. none };
}

-- The second launch fails.
abbrev commands : List (Fallible (Unit {0}) × BrowserCommand)
commands =
    (done tt, start 7 url full_hd30 direct)
    ∷ (bail "failed to launch GStreamer pipeline", go (navigate url))
    ∷ (done tt, go back)
    ∷ (done tt, go forward)
    ∷ []

run-fresh-IsPlaced_example : IsPlaced setup (run setup commands fresh)
run-fresh-IsPlaced_example = run-fresh-IsPlaced setup commands

web_start_is_taken :
    socket_start (answers setup (done tt) false fresh) 7 url full_hd30 direct ≡ ok tt
unfolding socket_start answers apply spawn launch
web_start_is_taken = refl

started_is_shown_example :
    let p' = served setup (done tt) false fresh (start 7 url full_hd30 direct) in
    (location : Url) × (resolve_location setup url ≡ done location)
    × (p'.child ≡ some location)
    × (p'.session_id ≡ some 7)
    × (p'.profile ≡ full_hd30)
    × (p'.egress ≡ direct)
    × (p'.history ≡ url ∷ [])
    × (p'.position ≡ 0)
started_is_shown_example =
    started_is_shown setup (done tt) false fresh 7 url full_hd30 direct web_start_is_taken
