-- ===== src/Session/Starting.antt =====
-- What a start calls, and where it ends, by the answers of the backends.
use xanh_tab.Prelude.{
  ℕ, suc, ◌≡◌, Bool, true, false, ◌&&◌, arith, some, List, [], ◌∷◌, ◌++◌, inl, inr, if◌then◌else◌,
}
use xanh_tab.Errors.{AppError, Result, ok, Result-cases, is_ok}
use xanh_tab.Model.{Url, EgressMode, StreamProfile, SessionSnapshot, active, failed}
use xanh_tab.Session.State.{
  World, Manager, Effect, egress_apply, egress_reset, browser_start, browser_stop,
  clear_runtime_dir, held_by_other, ensure_navigation_allowed, publish,
}
use xanh_tab.Session.Lifecycle.{
  may_start, begin_start, abort_apply, abort_browser, finish_start, launch, start,
}

-- The calls of a start, newest first, where `applied` and `started` say which of the two succeed.
abbrev pub start_calls : Bool → Bool → ℕ → Url → StreamProfile → EgressMode → List Effect
start_calls false _ id url profile egress =
    clear_runtime_dir ∷ egress_reset ∷ egress_apply egress ∷ []
start_calls true false id url profile egress =
    clear_runtime_dir
    ∷ egress_reset
    ∷ browser_stop
    ∷ browser_start id url profile egress
    ∷ egress_apply egress
    ∷ []
start_calls true true id url profile egress =
    browser_start id url profile egress ∷ egress_apply egress ∷ []

-- The end of a start that began in `w`, its backends asked at `tick` and behind it.
pub record IsStarted (m : Manager) (c : ℕ) (url : Url) (w : World) (tick : ℕ)
    (end : Result SessionSnapshot × World) : Type 0 where
  pub calls :
      let s = w.data_of.snapshot in
      let id = m.env.uuid w.tick in
      let applied = is_ok (m.env.answer tick (egress_apply s.egress)) in
      let started =
        is_ok (m.env.answer (suc tick) (browser_start id url s.stream_profile s.egress)) in
      (end.1.log ≡ start_calls applied started id url s.stream_profile s.egress ++ w.log)
      × (is_ok end.0 ≡ applied && started)
  pub phase : end.1.data_of.snapshot.phase ≡ (if is_ok end.0 then active else failed)
  pub leased : end.1.data_of.controller ≡ some c
  pub located : end.1.data_of.snapshot.url ≡ some url
  pub named : end.1.data_of.snapshot.id ≡ some (m.env.uuid w.tick)

module _ (m : Manager) where
  abort_apply-log :
      (e : AppError) (w : World)
      → let (r, w') = abort_apply m e w in
        (w'.log ≡ clear_runtime_dir ∷ egress_reset ∷ w.log)
        × (is_ok r ≡ false)
        × (w'.data_of.snapshot.phase ≡ failed)
        × (w'.data_of.controller ≡ w.data_of.controller)
        × (w'.data_of.snapshot.url ≡ w.data_of.snapshot.url)
        × (w'.data_of.snapshot.id ≡ w.data_of.snapshot.id)
  unfolding abort_apply
  abort_apply-log e w = ground arith

  abort_browser-log :
      (e : AppError) (w : World)
      → let (r, w') = abort_browser m e w in
        (w'.log ≡ clear_runtime_dir ∷ egress_reset ∷ browser_stop ∷ w.log)
        × (is_ok r ≡ false)
        × (w'.data_of.snapshot.phase ≡ failed)
        × (w'.data_of.controller ≡ w.data_of.controller)
        × (w'.data_of.snapshot.url ≡ w.data_of.snapshot.url)
        × (w'.data_of.snapshot.id ≡ w.data_of.snapshot.id)
  unfolding abort_browser
  abort_browser-log e w = ground arith

  -- What `launch` does with the world that it finds.
  abbrev Launched :
      Url → ℕ × StreamProfile × EgressMode → World → Result SessionSnapshot × World → Type 0
  Launched url (id, profile, egress) w (r, w') =
      let applied = is_ok (m.env.answer w.tick (egress_apply egress)) in
      let started = is_ok (m.env.answer (suc w.tick) (browser_start id url profile egress)) in
      (w'.log ≡ start_calls applied started id url profile egress ++ w.log)
      × (is_ok r ≡ applied && started)
      × (w'.data_of.snapshot.phase ≡ (if is_ok r then active else failed))
      × (w'.data_of.controller ≡ w.data_of.controller)
      × (w'.data_of.snapshot.url ≡ w.data_of.snapshot.url)
      × (w'.data_of.snapshot.id ≡ w.data_of.snapshot.id)

  pub launch-Launched :
      (url : Url) (id : ℕ) (profile : StreamProfile) (egress : EgressMode) (w : World)
      → Launched url (id, profile, egress) w (launch m url (id, profile, egress) w)
  unfolding launch finish_start
  launch-Launched url id profile egress w =
      let called : World = record w {
        runtime = m.env.files w.tick (egress_apply egress) w.runtime;
        log = egress_apply egress ∷ w.log;
        events = (publish "session.starting" w).1.events;
        tick = suc w.tick;
      } in
      let start : Effect = browser_start id url profile egress in
      let again : World = record called {
        runtime = m.env.files called.tick start called.runtime;
        log = start ∷ called.log;
        tick = suc called.tick;
      } in
      elim (Result-cases (m.env.answer w.tick (egress_apply egress))) [
        | inr (e, q) ↦ ground (arith, abort_apply-log e called)
        | inl (_, q) ↦ elim (Result-cases (m.env.answer (suc w.tick) start)) [
          | inr (e, p) ↦ ground (arith, abort_browser-log e again)
          | inl (_, p) ↦ ground arith
        ]
      ]

  begin_start-ok :
      (c : ℕ) (url : Url) (w : World)
      → may_start w.data_of.snapshot.phase ≡ true
      → (ensure_navigation_allowed url w.data_of.snapshot.blocklist_enabled w).0 ≡ ok tt
      → held_by_other w.data_of.controller c ≡ false
      → let (r, w') = begin_start m c url w in
        let s = w.data_of.snapshot in
        (r ≡ ok (m.env.uuid w.tick, s.stream_profile, s.egress))
        × (w'.tick ≡ suc (suc (suc w.tick)))
        × (w'.log ≡ w.log)
        × (w'.data_of.controller ≡ some c)
        × (w'.data_of.snapshot.url ≡ some url)
        × (w'.data_of.snapshot.id ≡ some (m.env.uuid w.tick))
  unfolding begin_start
  begin_start-ok c url w phase allowed free = ground arith

  -- Where a session may start, its address is allowed and no other client holds the lease, a start
  -- applies the egress and then starts the browser, under the session's new id and the egress and
  -- the profile of the snapshot. It succeeds exactly if both calls do, and is then `Active`. Where
  -- a call fails it ends in `Failed`, and the last calls reset the egress and clear the runtime
  -- directory, behind a stop of the browser if that was the call that failed. Either way the
  -- client holds the lease.
  pub start-IsStarted :
      (c : ℕ) (url : Url) (w : World)
      → may_start w.data_of.snapshot.phase ≡ true
      → (ensure_navigation_allowed url w.data_of.snapshot.blocklist_enabled w).0 ≡ ok tt
      → held_by_other w.data_of.controller c ≡ false
      → IsStarted m c url w (suc (suc (suc w.tick))) (start m c url w)
  unfolding start
  start-IsStarted c url w phase allowed free =
      let s = w.data_of.snapshot in
      let w1 : World = (begin_start m c url w).1 in
      ground (
        arith,
        begin_start-ok c url w phase allowed free,
        launch-Launched url (m.env.uuid w.tick) s.stream_profile s.egress w1,
      )
