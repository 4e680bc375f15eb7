-- ===== src/Session/Burning.antt =====
-- What a burn leaves behind, on every path.
use xanh_tab.Prelude.{
  ℕ, suc, ◌≡◌, refl, Bool, true, false, ◌&&◌, arith, Option, none, some, if◌then◌else◌, List, [],
  ◌∷◌, is_none, is_some,
}
use xanh_tab.Text.{codes}
use xanh_tab.Paths.{refuses_to_clear}
use xanh_tab.Errors.{Result, ok, err, is_ok}
use xanh_tab.Model.{SessionSnapshot, idle, failed, is_idle}
use xanh_tab.Session.State.{
  World, Manager, Entry, browser_stop, egress_reset, clear_runtime_dir, remove_entries,
  clear_directory, clear_from, ensure_lease, holds,
}
use xanh_tab.Session.Lifecycle.{fresh_snapshot, finish_burn, burn_running, burn_unchecked, burn}

module _ (m : Manager) where
  remove_entries-none :
      (t : ℕ) (es : List Entry) → (remove_entries m t es).0 ≡ none → (remove_entries m t es).1 ≡ []
  unfolding remove_entries
  remove_entries-none t [] h = refl
  remove_entries-none t (e ∷ es) h = ground (arith, remove_entries-none (suc t) es)

  -- A cleanup that reports no error has emptied the directory.
  pub clear_from-none :
      (t : ℕ) (es : List Entry) → (clear_from m t es).0 ≡ none → (clear_from m t es).1 ≡ []
  unfolding clear_from clear_directory
  clear_from-none t es h = ground (arith, remove_entries-none (suc (suc (suc t))) es)

  -- No call about the directory or its entries fails, and it is no symbolic link.
  abbrev pub Serves : ℕ → Type 0
  Serves tick =
      ((e : Option Entry) → m.env.fs_error tick e ≡ none) × (m.env.is_symlink tick ≡ false)

  remove_entries-Serves :
      (t : ℕ) (es : List Entry)
      → ((tick : ℕ) → Serves tick)
      → ((remove_entries m t es).0 ≡ none) × ((remove_entries m t es).1 ≡ [])
  unfolding remove_entries
  remove_entries-Serves t [] h = (refl, refl)
  remove_entries-Serves t (e ∷ es) h =
      rw (remove_entries, (h t).0 (some e)) (remove_entries-Serves (suc t) es h)

  -- Where the file system serves it, a cleanup at a path that the guard lets through is complete.
  pub clear_from-Serves :
      (t : ℕ) (es : List Entry)
      → refuses_to_clear (codes m.runtime_dir) ≡ false
      → ((tick : ℕ) → Serves tick)
      → ((clear_from m t es).0 ≡ none) × ((clear_from m t es).1 ≡ [])
  unfolding clear_from clear_directory
  clear_from-Serves t es allowed h =
      rw (allowed, (h t).0 none, (h (suc t)).0 none, (h (suc (suc t))).1, (h (suc (suc t))).0 none)
        (remove_entries-Serves (suc (suc (suc t))) es h)

  -- What the three steps of a burn that begins in `w` report.
  abbrev after_stop : World → List Entry
  after_stop w = m.env.files w.tick browser_stop w.runtime

  abbrev after_reset : World → List Entry
  after_reset w = m.env.files (suc w.tick) egress_reset (after_stop w)

  abbrev pub all_steps_succeed : World → Bool
  all_steps_succeed w =
      is_ok (m.env.answer w.tick browser_stop)
      && is_ok (m.env.answer (suc w.tick) egress_reset)
      && is_none (clear_from m (suc (suc w.tick)) (after_reset w)).0

  -- What the result of a burn says of the world after it.
  abbrev pub BurnEnds : Result SessionSnapshot → World → Type 0
  BurnEnds (ok s) w' =
      (s ≡ fresh_snapshot m) × (w'.data_of.snapshot ≡ fresh_snapshot m) × (w'.runtime ≡ [])
  BurnEnds (err _) w' =
      (w'.data_of.snapshot.phase ≡ failed)
      × (is_some w'.data_of.snapshot.failure ≡ true)
      × (record w'.data_of.snapshot { phase = idle; failure = none } ≡ fresh_snapshot m)

  -- The end of a burn that began in `w`.
  pub record IsBurned (w : World) (end : Result SessionSnapshot × World) : Type 0 where
    pub frees_lease : end.1.data_of.controller ≡ none
    pub forgets_history : end.1.data_of.history ≡ []
    pub tries_all_steps : end.1.log ≡ clear_runtime_dir ∷ egress_reset ∷ browser_stop ∷ w.log
    pub reports : is_ok end.0 ≡ all_steps_succeed w
    pub ends : BurnEnds end.0 end.1

  pub burn_running-IsBurned : (w : World) → IsBurned w (burn_running m w)
  unfolding burn_running finish_burn
  burn_running-IsBurned w = ground (arith, clear_from-none (suc (suc w.tick)) (after_reset w))

  pub burning_ends_in :
      (w : World)
      → (burn_running m w).1.data_of.snapshot.phase ≡ (if all_steps_succeed w then idle else failed)
  unfolding burn_running finish_burn
  burning_ends_in w = ground arith

-- Who asks for a burn: a client, or, without one, the watchdog.
abbrev pub burn_by : Manager → Option ℕ → World → Result SessionSnapshot × World
burn_by m (some c) = burn m c
burn_by m none = burn_unchecked m

abbrev pub may_burn : Option ℕ → World → Bool
may_burn (some c) w = holds w.data_of.controller c
may_burn none w = true

-- A burn of a session that is not idle, asked for by the holder of the lease, or by the watchdog
-- whether or not a client holds the lease, always tries to stop the browser, to reset the egress
-- and to clear the runtime directory, in this order; it always frees the lease and forgets the
-- history and all of the session. It succeeds exactly if the three steps do, and then the snapshot
-- is a fresh one and the runtime directory is empty; otherwise the snapshot is a fresh one but for
-- the phase `Failed` and a message.
pub burn-IsBurned :
    (m : Manager) (asked_by : Option ℕ) (w : World)
    → is_idle w.data_of.snapshot.phase ≡ false
    → may_burn asked_by w ≡ true
    → IsBurned m w (burn_by m asked_by w)
unfolding burn_unchecked burn ensure_lease
burn-IsBurned m (some c) w running held = ground (arith, burn_running-IsBurned m w)
burn-IsBurned m none w running held = ground (arith, burn_running-IsBurned m w)
