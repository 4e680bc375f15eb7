-- ===== src/Session/Invariant.antt =====
-- Between two operations a session manager is settled: every operation keeps that, on every path.
use xanh_tab.Prelude.{
  ℕ, suc, ◌≤◌, ◌≡◌, String, true, false, none, List, [], ◌∷◌, arith, length, length-append, is_some,
  inl, inr,
}
use xanh_tab.Errors.{AppError, Result, ok, err, Result-cases}
use xanh_tab.Model.{
  Url, EgressMode, StreamProfile, SessionPhase, idle, starting, active, burning, failed,
}
use xanh_tab.Session.State.{
  egress_apply, browser_start, SessionData, HistoryEntry, ◌>>=◌, World, Manager, push_history,
  history_limit, ensure_lease, fail,
}
use xanh_tab.Session.Lifecycle.{
  launch, begin_start, finish_start, abort_apply, abort_browser, finish_burn, burn_running, start,
  burn, burn_unchecked,
}

-- What the phase says of the other fields. No operation ends in `Starting` or `Burning`.
abbrev pub PhaseFits : SessionPhase → SessionData → Type 0
PhaseFits idle d =
    (d.snapshot.id ≡ none)
    × (d.history ≡ [])
    × (d.snapshot.failure ≡ none)
    × (d.snapshot.controller_attached ≡ false)
PhaseFits active d =
    (is_some d.snapshot.id ≡ true)
    × (1 ≤ length d.history)
    × (d.snapshot.failure ≡ none)
    × (d.snapshot.controller_attached ≡ true)
PhaseFits failed d = is_some d.snapshot.failure ≡ true
PhaseFits starting d = ⊥
PhaseFits burning d = ⊥

pub record IsSettled (d : SessionData) : Type 0 where
  pub fits : PhaseFits d.snapshot.phase d
  pub leased : is_some d.controller ≡ is_some d.snapshot.id
  pub located : is_some d.snapshot.url ≡ is_some d.snapshot.id
  pub attached : d.snapshot.controller_attached ≡ is_some d.snapshot.id
  pub bounded : length d.history ≤ history_limit

-- The history never grows past its bound, and holds the new entry.
pub push_history_bounds :
    (h : List HistoryEntry) (url : Url) (t : ℕ)
    → length h ≤ history_limit
    → (length (push_history h url t) ≤ history_limit) × (1 ≤ length (push_history h url t))
unfolding push_history
push_history_bounds [] url t k = omega arith
push_history_bounds (e ∷ h) url t k =
    ground (arith, length-append {0} h (record { url = url; visited_at = t } ∷ []))

module _ (m : Manager) where
  finish_burn-IsSettled : (fs : List String) (w : World) → IsSettled (finish_burn m fs w).1.data_of
  unfolding finish_burn
  finish_burn-IsSettled [] w = ground arith
  finish_burn-IsSettled (f ∷ fs) w = ground arith

  burn_running-IsSettled : (w : World) → IsSettled (burn_running m w).1.data_of
  unfolding burn_running
  burn_running-IsSettled w = finish_burn-IsSettled _ _

  pub burn_unchecked-IsSettled :
      (w : World) → IsSettled w.data_of → IsSettled (burn_unchecked m w).1.data_of
  unfolding burn_unchecked
  burn_unchecked-IsSettled w h = ground (arith, burn_running-IsSettled w)

  pub burn-IsSettled :
      (client_id : ℕ) (w : World) → IsSettled w.data_of → IsSettled (burn m client_id w).1.data_of
  unfolding burn ensure_lease
  burn-IsSettled client_id w h = ground (arith, burn_unchecked-IsSettled w h)

  -- The data while a session starts, or changes its egress.
  pub record IsBetween (d : SessionData) : Type 0 where
    pub named : is_some d.snapshot.id ≡ true
    pub held : is_some d.controller ≡ true
    pub placed : is_some d.snapshot.url ≡ true
    pub attached : d.snapshot.controller_attached ≡ true
    pub healthy : d.snapshot.failure ≡ none
    pub bounded : length d.history ≤ history_limit

  finish_start-IsSettled :
      (url : Url) (w : World) → IsBetween w.data_of → IsSettled (finish_start m url w).1.data_of
  unfolding finish_start
  finish_start-IsSettled url w h =
      ground (arith, push_history_bounds w.data_of.history url (m.env.utc w.tick))

  abort_apply-IsSettled :
      (e : AppError) (w : World) → IsBetween w.data_of → IsSettled (abort_apply m e w).1.data_of
  unfolding abort_apply fail
  abort_apply-IsSettled e w h = ground arith

  abort_browser-IsSettled :
      (e : AppError) (w : World) → IsBetween w.data_of → IsSettled (abort_browser m e w).1.data_of
  unfolding abort_browser fail
  abort_browser-IsSettled e w h = ground arith

  launch-IsSettled :
      (url : Url) (begun : ℕ × StreamProfile × EgressMode) (w : World)
      → IsBetween w.data_of
      → IsSettled (launch m url begun w).1.data_of
  unfolding launch
  launch-IsSettled url (id, profile, egress) w h =
      let next : ℕ = suc w.tick in
      elim (Result-cases (m.env.answer w.tick (egress_apply egress))) [
        | inr (e, q) ↦ rw q (abort_apply-IsSettled e _ h)
        | inl (_, q) ↦
            rw q (elim (Result-cases (m.env.answer next (browser_start id url profile egress))) [
              | inr (e, p) ↦ rw p (abort_browser-IsSettled e _ h)
              | inl (_, p) ↦ rw p (finish_start-IsSettled url _ h)
            ])
      ]

  -- A first section that fails leaves the data as they are.
  abbrev pub Begun : {A : Type 0} → SessionData → Result A → SessionData → Type 0
  Begun d (err _) d' = d' ≡ d
  Begun d (ok _) d' = IsBetween d'

  begin_start-Begun :
      (client_id : ℕ) (url : Url) (w : World)
      → IsSettled w.data_of
      → let (r, w') = begin_start m client_id url w in Begun w.data_of r w'.data_of
  unfolding begin_start
  begin_start-Begun client_id url w h = ground arith

  pub start-IsSettled :
      (client_id : ℕ) (url : Url) (w : World)
      → IsSettled w.data_of
      → IsSettled (start m client_id url w).1.data_of
  unfolding start
  start-IsSettled client_id url w h =
      let begun = begin_start-Begun client_id url w h in
      elim (Result-cases (begin_start m client_id url w).0) [
        | inr (e, q) ↦ rw (q, start, ◌>>=◌) (rw (rw q at begun) h)
        | inl (a, q) ↦ rw (q, start, ◌>>=◌) (launch-IsSettled url a _ (rw q at begun))
      ]
