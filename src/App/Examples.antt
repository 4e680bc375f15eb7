-- ===== src/App/Examples.antt =====
-- The theorems about src/lib.rs at a device that is paired and browses.
use xanh_tab.Prelude.{
  ◌≡◌, ◌<◌, ◌≤◌, ◌*◌, refl, true, false, if◌then◌else◌, arith, none, some, List, [], ◌∷◌,
}
use xanh_tab.Text.{codes}
use xanh_tab.Errors.{ok, err, unauthorized}
use xanh_tab.Model.{active, idle, failed}
use xanh_tab.Samples.{auth, bytes, secret, session, csrf, ticket, url, device, no_blocklist}
use xanh_tab.Auth.State.{AuthContext, for_events, pairing_available}
use xanh_tab.Auth.Access as Access
use xanh_tab.Auth.Pairing as Pairing
use xanh_tab.Auth.Pairing.{group_manual_code}
use xanh_tab.Session.State.{holds, held_by_other, clear_runtime_dir, egress_reset, browser_stop}
use xanh_tab.Auth.Requests.{after}
use xanh_tab.Session.Lifecycle as Lifecycle
use xanh_tab.Blocklist as Blocklist
use xanh_tab.App as App
use xanh_tab.App.{App, System, Supply, pairing_body}
use xanh_tab.App.Requests.{Event, start_session, exchange_pairing, run, boot, happen}
use xanh_tab.Session.Burning.{all_steps_succeed}
use xanh_tab.App.Invariant.{IsAligned}
use xanh_tab.App.Runs.{run-boot-IsAligned, run-boot-admits, run-boot-starts}
use xanh_tab.App.Handoff.{IsPublished, run-boot-IsPublished}
use xanh_tab.App.Recovery.{burned_is_locked_out, recover_makes_pairable, auto_burn_burns}

abbrev app : App
app = record { sessions = device true; auth = auth; public_base_url = codes "https://tab.example/" }

abbrev supply : Supply
supply = record { random = some bytes; written = true }

abbrev context : AuthContext
context = record { client_id = 9; generation = 1 }

-- The device is paired, and a session is started.
abbrev events : List Event
events = exchange_pairing 1 secret (some session) (some csrf) 9 ∷ start_session 2 context url ∷ []

abbrev system : System
system = run app events (boot app no_blocklist 0 supply)

-- What the examples below ask of the system.
record IsReady (s : System) : Type 0 where
  admitted : (App.admit app 3 context 0 s).0 ≡ ok tt
  valid : (Access.validate_context 3 context s.auth).0 ≡ ok tt
  abandoned : (Pairing.pairing_recovery_required 4_000_000_000_000 s.auth).0 ≡ true
  running : s.world.data_of.snapshot.phase ≡ active
  timed : 0 < s.world.data_of.snapshot.auto_burn_seconds
  idle : s.world.data_of.snapshot.auto_burn_seconds * 1_000_000_000 ≤ App.idle_for app s.world

system-IsReady : IsReady system
unfolding App.admit Access.validate_context run happen App.start_session after
    Pairing.exchange_pairing boot App.rotate_pairing_material App.require_session_id Lifecycle.start
    Lifecycle.begin_start Blocklist.contains Lifecycle.launch Lifecycle.finish_start
    Pairing.pairing_recovery_required App.idle_for
system-IsReady = record {
  admitted = refl;
  valid = refl;
  abandoned = refl;
  running = refl;
  timed = omega arith;
  idle = omega arith;
}

run-boot-IsAligned_example : IsAligned system
run-boot-IsAligned_example = run-boot-IsAligned app no_blocklist 0 supply events

run-boot-admits_example : holds system.world.data_of.controller 9 ≡ true
run-boot-admits_example =
    run-boot-admits app no_blocklist 0 supply events 3 context 0 system-IsReady.admitted

run-boot-starts_example : held_by_other system.world.data_of.controller 9 ≡ false
run-boot-starts_example =
    run-boot-starts app no_blocklist 0 supply events 3 context system-IsReady.valid

run-boot-IsPublished_example : IsPublished app (run app [] (boot app no_blocklist 0 supply))
run-boot-IsPublished_example = run-boot-IsPublished app no_blocklist 0 supply []

burned_is_locked_out_example :
    let a = (App.burn_and_rotate app (some 9) supply system).1.auth in
    ((Access.authenticate auth 4 (some session) (some csrf) true a).0 ≡ err unauthorized)
    × ((Access.consume_ticket auth 4 ticket for_events a).0 ≡ err unauthorized)
    × ((Access.validate_context 4 context a).0 ≡ err unauthorized)
burned_is_locked_out_example =
    burned_is_locked_out app (some 9) supply system 4 (some session) (some csrf) true ticket
      for_events context

recover_makes_pairable_example :
    let s' =
      (App.recover_expired_auth app 4_000_000_000_000
        (record { random = some bytes; written = true })
        system).1 in
    (pairing_available s'.auth ≡ true)
    × (s'.pairing_file
        ≡ some (
            pairing_body (codes "https://tab.example/") (record {
              secret = auth.encode_url_safe bytes;
              manual_code = group_manual_code auth bytes;
            })))
    × (s'.world.data_of.controller ≡ none)
    × (s'.auth.sessions ≡ [])
    × (s'.auth.tickets ≡ [])
recover_makes_pairable_example =
    recover_makes_pairable app 4_000_000_000_000 bytes system
      (run-boot-IsAligned app no_blocklist 0 supply events).settled system-IsReady.abandoned

auto_burn_burns_example :
    let s' = (App.auto_burn_if_due app supply system).1 in
    (s'.world.log ≡ clear_runtime_dir ∷ egress_reset ∷ browser_stop ∷ system.world.log)
    × (s'.world.data_of.snapshot.phase
        ≡ (if all_steps_succeed (device true) system.world then idle else failed))
    × (s'.world.data_of.controller ≡ none)
    × (s'.world.data_of.history ≡ [])
    × (s'.auth.sessions ≡ [])
    × (s'.auth.tickets ≡ [])
auto_burn_burns_example =
    auto_burn_burns app supply system system-IsReady.running system-IsReady.timed
      system-IsReady.idle
