-- ===== src/Session/Switching.antt =====
-- Where a switch of the egress ends, by its result.
use xanh_tab.Prelude.{
  ℕ, suc, ◌≡◌, refl, ◌⊎◌, inl, inr, true, false, arith, some, List, [], ◌∷◌, map, is_some,
}
use xanh_tab.Errors.{AppError, Result, ok, err, Result-cases, is_ok}
use xanh_tab.Model.{Url, EgressMode, StreamProfile, SessionSnapshot, active, burning, failed}
use xanh_tab.Session.State.{
  HistoryEntry, World, Manager, Effect, egress_apply, egress_reset, browser_start, browser_stop,
  clear_runtime_dir, ◌>>=◌, publish,
}
use xanh_tab.Session.Switch.{
  begin_switch, restart_under, roll_back, give_up, settle_back, finish_switch, recover_switch,
  relaunch, switch_egress,
}

-- The calls of a restart, newest first.
abbrev pub restart_calls : ℕ → Url → StreamProfile → EgressMode → List Effect → List Effect
restart_calls id url profile mode log =
    browser_start id url profile mode
    ∷ egress_apply mode
    ∷ clear_runtime_dir
    ∷ egress_reset
    ∷ browser_stop
    ∷ log

module _ (m : Manager) where
  restart_under-log :
      (id : ℕ) (url : Url) (profile : StreamProfile) (mode : EgressMode) (w : World)
      → (restart_under m id url profile mode w).0 ≡ ok tt
      → (restart_under m id url profile mode w).1.log ≡ restart_calls id url profile mode w.log
  unfolding restart_under
  restart_under-log id url profile mode w h = ground arith

  roll_back-log :
      (id : ℕ) (url : Url) (profile : StreamProfile) (mode : EgressMode) (w : World)
      → (roll_back m id url profile mode w).0 ≡ ok tt
      → (roll_back m id url profile mode w).1.log ≡ restart_calls id url profile mode w.log
  unfolding roll_back
  roll_back-log id url profile mode w h = ground arith

  -- A session runs under `mode`: the last calls have started its browser, under the snapshot's id,
  -- with the egress applied, and the history has its address alone.
  pub record Runs (url : Url) (profile : StreamProfile) (mode : EgressMode) (w : World)
      : Type 0 where
    pub phase : w.data_of.snapshot.phase ≡ active
    pub egress : w.data_of.snapshot.egress ≡ mode
    pub history : map (λ (e : HistoryEntry). e.url) w.data_of.history ≡ url ∷ []
    pub started :
        (id : ℕ) × (before : List Effect) × (w.data_of.snapshot.id ≡ some id)
        × (w.log ≡ restart_calls id url profile mode before)

  -- What a session is behind a switch, by its result.
  abbrev pub SwitchEnds :
      Url → StreamProfile → EgressMode → EgressMode → Result SessionSnapshot → World → Type 0
  SwitchEnds url profile previous mode (ok _) w = Runs url profile mode w
  SwitchEnds url profile previous mode (err _) w =
      Runs url profile previous w
      ⊎ ((w.data_of.snapshot.phase ≡ failed)
          × (is_some w.data_of.snapshot.failure ≡ true)
          × (w.data_of.history ≡ []))

  finish_switch-Runs :
      (id : ℕ) (url : Url) (profile : StreamProfile) (mode : EgressMode) (before : List Effect)
      (w : World)
      → w.log ≡ restart_calls id url profile mode before
      → let (r, w') = finish_switch m id url mode w in (is_ok r ≡ true) × Runs url profile mode w'
  unfolding finish_switch
  finish_switch-Runs id url profile mode before w h = (
    refl,
    record { phase = refl; egress = refl; history = refl; started = (id, before, refl, h) },
  )

  settle_back-Runs :
      (id : ℕ) (url : Url) (profile : StreamProfile) (mode : EgressMode) (e : AppError)
      (before : List Effect) (w : World)
      → w.log ≡ restart_calls id url profile mode before
      → let (r, w') = settle_back m id url mode e w in (is_ok r ≡ false) × Runs url profile mode w'
  unfolding settle_back
  settle_back-Runs id url profile mode e before w h = (
    refl,
    record { phase = refl; egress = refl; history = refl; started = (id, before, refl, h) },
  )

  recover_switch-ends :
      (url : Url) (profile : StreamProfile) (previous mode : EgressMode) (e : AppError) (w : World)
      → let (r, w') = recover_switch m url profile previous e w in
        SwitchEnds url profile previous mode r w'
  unfolding recover_switch give_up settle_back
  recover_switch-ends url profile previous mode e w =
      let w1 : World = record w { tick = suc w.tick } in
      let id = m.env.uuid w.tick in
      let w2 = (roll_back m id url profile previous w1).1 in
      elim (Result-cases (roll_back m id url profile previous w1).0) [
        | inl (_, q) ↦
            let back = roll_back-log id url profile previous w1 q in
            rw (q, recover_switch, ◌>>=◌)
              (inl (settle_back-Runs id url profile previous e w.log w2 back).1)
        | inr (f, q) ↦ rw (q, recover_switch, ◌>>=◌) (inr (refl, refl, refl))
      ]

  relaunch-ends :
      (url : Url) (profile : StreamProfile) (previous mode : EgressMode) (w : World)
      → let (r, w') = relaunch m mode (url, profile, previous) w in
        SwitchEnds url profile previous mode r w'
  unfolding relaunch finish_switch
  relaunch-ends url profile previous mode w =
      let announced : World = (publish "egress.switching" w).1 in
      let w1 : World = record announced { tick = suc w.tick } in
      let id = m.env.uuid w.tick in
      let w2 = (restart_under m id url profile mode w1).1 in
      elim (Result-cases (restart_under m id url profile mode w1).0) [
        | inl (_, q) ↦
            let log = restart_under-log id url profile mode w1 q in
            rw (q, relaunch, ◌>>=◌) (finish_switch-Runs id url profile mode w.log w2 log).1
        | inr (e, q) ↦ rw (q, relaunch, ◌>>=◌) (recover_switch-ends url profile previous mode e w2)
      ]

  -- The world behind the first section.
  abbrev switching : World → World
  switching w = record w {
    data_of = record w.data_of { snapshot = record w.data_of.snapshot { phase = burning } };
  }

  begin_switch-ok :
      (c : ℕ) (url : Url) (w : World)
      → w.data_of.snapshot.phase ≡ active
      → w.data_of.controller ≡ some c
      → w.data_of.snapshot.url ≡ some url
      → let s = w.data_of.snapshot in
        ((begin_switch m c w).0 ≡ ok (url, s.stream_profile, s.egress))
        × ((begin_switch m c w).1 ≡ switching w)
  unfolding begin_switch
  begin_switch-ok c url w phase held located = ground arith

  -- A switch of the egress, asked for by the holder of the lease of an active session with an
  -- address: where it succeeds, the session runs under the new mode; where it fails, it runs again
  -- under the old one, or its phase is `Failed`, with a message and no history. A session that runs
  -- has been started anew with the applied egress behind a stop, a reset and a cleanup, has the id
  -- of that start, and in its history the address alone.
  pub switch_egress-ends :
      (c : ℕ) (url : Url) (mode : EgressMode) (w : World)
      → w.data_of.snapshot.phase ≡ active
      → w.data_of.controller ≡ some c
      → w.data_of.snapshot.url ≡ some url
      → let (r, w') = switch_egress m c mode w in
        let s = w.data_of.snapshot in SwitchEnds url s.stream_profile s.egress mode r w'
  unfolding switch_egress
  switch_egress-ends c url mode w phase held located =
      let s = w.data_of.snapshot in
      let (passes, behind) = begin_switch-ok c url w phase held located in
      rw (passes, behind, switch_egress, ◌>>=◌)
        (relaunch-ends url s.stream_profile s.egress mode (switching w))
