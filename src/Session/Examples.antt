-- ===== src/Session/Examples.antt =====
-- The theorems about src/session.rs at a daemon whose browser answers, and at one whose browser
-- does not start.
use xanh_tab.Prelude.{◌≡◌, refl, Bool, true, false, none, some, arith}
use xanh_tab.Model as Model
use xanh_tab.Model.{Url, direct, tor, full_hd30, SessionPhase}
use xanh_tab.Blocklist as Blocklist
use xanh_tab.Blocklist.{Blocklist}
use xanh_tab.Session.State.{World, ensure_navigation_allowed}
use xanh_tab.Samples.{url, device, no_blocklist}
use xanh_tab.Session.Lifecycle
use xanh_tab.Session.Switch
use xanh_tab.Session.Switching.{SwitchEnds, switch_egress-ends}
use xanh_tab.Session.Requests.{start, burn, serve, new_with_blocklist}
use xanh_tab.Session.Lease.{IsRefused, serve-IsRefused}
use xanh_tab.Session.Burning.{IsBurned, burn-IsBurned}
use xanh_tab.Session.Starting.{IsStarted, start-IsStarted}

abbrev fresh : Bool → World
fresh starts = new_with_blocklist (device starts) no_blocklist 0

abbrev started : Bool → World
started starts = (serve (device starts) (start 9 url) (fresh starts)).1

phase-started : (started true).data_of.snapshot.phase ≡ SessionPhase.active
unfolding serve Lifecycle.start Lifecycle.begin_start Lifecycle.launch Lifecycle.finish_start
    new_with_blocklist Blocklist.contains
phase-started = refl

controller-started : (started true).data_of.controller ≡ some 9
unfolding serve Lifecycle.start Lifecycle.begin_start Lifecycle.launch Lifecycle.finish_start
    new_with_blocklist Blocklist.contains
controller-started = refl

serve-IsRefused_example : IsRefused (started true) (serve (device true) (burn 10) (started true))
serve-IsRefused_example =
    serve-IsRefused (device true) (burn 10) 10 9 (started true) refl (ground arith)
      controller-started

is_running-started : Model.is_idle (started true).data_of.snapshot.phase ≡ false
unfolding serve Lifecycle.start Lifecycle.begin_start Lifecycle.launch Lifecycle.finish_start
    new_with_blocklist Blocklist.contains Model.is_idle
is_running-started = refl

-- A session that a burn left `Failed`: nobody holds it.
abbrev left_over : World
left_over = record (started true) {
  data_of = record (started true).data_of {
    snapshot = record (started true).data_of.snapshot { phase = SessionPhase.failed };
    controller = none;
  };
}

burn-IsBurned_example :
    IsBurned (device true) left_over (Lifecycle.burn_unchecked (device true) left_over)
unfolding Model.is_idle
burn-IsBurned_example = burn-IsBurned (device true) none left_over refl refl

-- A browser that does not start.
start-IsStarted_example :
    IsStarted
      (device false)
      9
      url
      (fresh false)
      3
      (Lifecycle.start (device false) 9 url (fresh false))
unfolding new_with_blocklist Blocklist.contains
start-IsStarted_example =
    start-IsStarted (device false) 9 url (fresh false) refl
      (unfold ensure_navigation_allowed in refl) refl

url-started : (started true).data_of.snapshot.url ≡ some url
unfolding serve Lifecycle.start Lifecycle.begin_start Lifecycle.launch Lifecycle.finish_start
    new_with_blocklist Blocklist.contains
url-started = refl

switch_egress-ends_example :
    let (r, w') = Switch.switch_egress (device true) 9 tor (started true) in
    let s = (started true).data_of.snapshot in
    SwitchEnds (device true) url s.stream_profile s.egress tor r w'
switch_egress-ends_example =
    switch_egress-ends (device true) 9 url tor (started true) phase-started controller-started
      url-started
