-- ===== src/Session/State.antt =====
-- src/session.rs: the data of the session manager, and the world that its operations act on.
--
-- The backends (`dyn BrowserBackend`, `dyn EgressBackend`) and the file system answer as an
-- environment says, each call at its own tick; a call and a reading of a clock each take a tick.
-- The log holds the calls, newest first, and `events` what the bus was given, newest first.
use Prim.Native.String.{◌++◌ as ◌+++◌}
use xanh_tab.Prelude.{
  ℕ, suc, String, Bool, not, ◌&&◌, Option, none, some, List, [], ◌∷◌, ◌++◌, ◌==◌, length,
  if◌then◌else◌, is_some_and, str_eq, ◌||◌,
}
use xanh_tab.Text.{codes}
use xanh_tab.Paths.{refuses_to_clear}
use xanh_tab.Errors.{
  AppError, Result, ok, err, lease_conflict, session_not_active, navigation_blocked, display,
  service_unavailable,
}
use xanh_tab.Model.{
  Url, EgressMode, StreamProfile, NavigationCommand, SessionSnapshot, is_active, failed,
}
use xanh_tab.Blocklist as Blocklist
use xanh_tab.Blocklist.{Blocklist}

-- `HistoryEntry`
pub record HistoryEntry : Type 0 where
  pub url : Url
  pub visited_at : ℕ

-- `SessionData`
pub record SessionData : Type 0 where
  pub snapshot : SessionSnapshot
  pub controller : Option ℕ
  pub history : List HistoryEntry
  pub last_activity : ℕ

-- The calls that leave the daemon.
pub data Effect : Type 0 where
  egress_apply : EgressMode → Effect
  egress_reset : Effect
  browser_start : ℕ → Url → StreamProfile → EgressMode → Effect
  browser_stop : Effect
  browser_navigate : NavigationCommand → Effect
  clear_runtime_dir : Effect

-- `ServerEvent`, without its time.
pub record ServerEvent : Type 0 where
  pub event : String
  pub session : SessionSnapshot

-- An entry of the runtime directory: its name, and whether it is a directory.
pub record Entry : Type 0 where
  pub name : String
  pub is_dir : Bool

pub record World : Type 0 where
  pub data_of : SessionData
  pub runtime : List Entry
  pub blocklist : Blocklist
  pub log : List Effect
  pub events : List ServerEvent
  pub tick : ℕ

-- What the world answers: a backend's result, what the runtime directory holds after that call,
-- the error of a call of `std::fs` (an entry, if it is about one), whether the directory's path is
-- a symbolic link, `Uuid::new_v4`, `Instant::now` and `Utc::now`.
pub record Env : Type 0 where
  pub answer : ℕ → Effect → Result (Unit {0})
  pub files : ℕ → Effect → List Entry → List Entry
  pub fs_error : ℕ → Option Entry → Option String
  pub is_symlink : ℕ → Bool
  pub uuid : ℕ → ℕ
  pub instant : ℕ → ℕ
  pub utc : ℕ → ℕ

-- The fields of `SessionManager` that do not change.
pub record Manager : Type 0 where
  pub initial_egress : EgressMode
  pub initial_profile : StreamProfile
  pub initial_auto_burn_seconds : ℕ
  pub runtime_dir : String
  pub env : Env

-- An operation: its result, and the world after it, also where it fails.
abbrev pub Action : Type 0 → Type 0
Action A = World → Result A × World

infixl 5 ◌>>=◌ ◌>>◌
abbrev pub ◌>>=◌ : {A B : Type 0} → Action A → (A → Action B) → Action B
◌>>=◌ m f w = let (r, w') = m w in elim r [ ok a ↦ f a w' | err e ↦ (err e, w') ]

abbrev pub ◌>>◌ : {A B : Type 0} → Action A → Action B → Action B
m >> k = m >>= λ _. k

abbrev pub pure : {A : Type 0} → A → Action A
pure a w = (ok a, w)

abbrev pub throw : {A : Type 0} → AppError → Action A
throw e w = (err e, w)

abbrev pub throw_if : Bool → AppError → Action (Unit {0})
throw_if b e w = (if b then err e else ok tt, w)

abbrev pub get : Action SessionData
get w = (ok w.data_of, w)

abbrev pub modify : (SessionData → SessionData) → Action (Unit {0})
modify f w = (ok tt, record w { data_of = f w.data_of })

-- `EventBus::publish` with the snapshot of the moment.
abbrev pub publish : String → Action SessionSnapshot
publish event w =
    let snapshot = w.data_of.snapshot in
    (ok snapshot, record w { events = record { event = event; session = snapshot } ∷ w.events })

-- The result of an action as a value: a failure does not end what follows.
abbrev pub attempt : {A : Type 0} → Action A → Action (Result A)
attempt m w = let (r, w') = m w in (ok r, w')

module _ (m : Manager) where
  abbrev pub call : Effect → Action (Unit {0})
  call e w = (
    m.env.answer w.tick e,
    record w { runtime = m.env.files w.tick e w.runtime; log = e ∷ w.log; tick = suc w.tick },
  )

  -- The loop of `clear_runtime_dir` over the entries: an error of one of the three calls about an
  -- entry ends it. The result is the error,
  -- the entries that are left, and the tick.
  unfoldable pub remove_entries : ℕ → List Entry → Option String × List Entry × ℕ
  remove_entries tick [] = (none, [], tick)
  remove_entries tick (entry ∷ entries) =
      let rest = remove_entries (suc tick) entries in
      elim (m.env.fs_error tick (some entry)) [
        | some error ↦ (some error, entry ∷ entries, suc tick)
        | none ↦ rest
      ]

  -- Its part behind `symlink_metadata`: a symbolic link is refused, and `read_dir` may fail.
  unfoldable pub clear_directory : ℕ → List Entry → Option String × List Entry × ℕ
  unfolding remove_entries
  clear_directory tick entries =
      if m.env.is_symlink tick
      then (
        some (◌+++◌ "refusing to clear symlinked runtime path " m.runtime_dir),
        entries,
        suc tick,
      )
      else elim (m.env.fs_error tick none) [
        | some error ↦ (some error, entries, suc tick)
        | none ↦ remove_entries (suc tick) entries
      ]

  -- `clear_runtime_dir`: the path is tested, `create_dir_all` and `symlink_metadata` may fail, a
  -- symbolic link is refused, and every entry is removed.
  unfoldable pub clear_from : ℕ → List Entry → Option String × List Entry × ℕ
  unfolding clear_directory
  clear_from tick entries =
      if refuses_to_clear (codes m.runtime_dir)
      then (some (◌+++◌ "refusing to clear unsafe runtime path " m.runtime_dir), entries, tick)
      else elim (m.env.fs_error tick none) [
        | some error ↦ (some error, entries, suc tick)
        | none ↦ elim (m.env.fs_error (suc tick) none) [
          | some error ↦ (some error, entries, suc (suc tick))
          | none ↦ clear_directory (suc (suc tick)) entries
        ]
      ]

  abbrev pub clear : Action (Option String)
  clear w =
      let (error, entries, tick) = clear_from w.tick w.runtime in
      (ok error, record w { runtime = entries; log = clear_runtime_dir ∷ w.log; tick = tick })

  abbrev pub new_uuid : Action ℕ
  new_uuid w = (ok (m.env.uuid w.tick), record w { tick = suc w.tick })

  abbrev pub instant_now : Action ℕ
  instant_now w = (ok (m.env.instant w.tick), record w { tick = suc w.tick })

  abbrev pub utc_now : Action ℕ
  utc_now w = (ok (m.env.utc w.tick), record w { tick = suc w.tick })

-- `data.controller == Some(client_id)` and `is_some_and(|current| current != client_id)`
abbrev pub holds : Option ℕ → ℕ → Bool
holds controller client_id = is_some_and controller (λ current. current == client_id)

abbrev pub held_by_other : Option ℕ → ℕ → Bool
held_by_other controller client_id = is_some_and controller (λ current. not (current == client_id))

unfoldable pub acquire_lease : ℕ → Action (Unit {0})
acquire_lease client_id = do
  d ← get
  throw_if (held_by_other d.controller client_id) lease_conflict
  modify (λ d. record d { controller = some client_id })

unfoldable pub ensure_lease : ℕ → Action (Unit {0})
ensure_lease client_id = do d ← get; throw_if (not (holds d.controller client_id)) lease_conflict

unfoldable pub ensure_active_lease : ℕ → Action (Unit {0})
unfolding ensure_lease is_active
ensure_active_lease client_id = do
  ensure_lease client_id
  d ← get
  throw_if (not (is_active d.snapshot.phase)) session_not_active

-- The bound of the history.
abbrev pub history_limit : ℕ
history_limit = 128

abbrev pop_front : List HistoryEntry → List HistoryEntry
pop_front [] = []
pop_front (_ ∷ entries) = entries

-- `push_history`: at 128 entries the oldest goes first.
unfoldable pub push_history : List HistoryEntry → Url → ℕ → List HistoryEntry
push_history history url visited_at =
    (if length history == history_limit then pop_front history else history)
    ++ record { url = url; visited_at = visited_at } ∷ []

-- `SessionManager::ensure_navigation_allowed`: a hit counts, also where it is refused.
unfoldable pub is_web : String → Bool
is_web scheme = str_eq scheme "http" || str_eq scheme "https"

unfoldable pub ensure_navigation_allowed : Url → Bool → Action (Unit {0})
unfolding is_web
ensure_navigation_allowed url enabled w =
    if enabled && is_web url.scheme
    then elim url.host_str [
      | none ↦ (ok tt, w)
      | some host ↦
          let (found, list) = Blocklist.contains w.blocklist (codes host) in
          (if found then err navigation_blocked else ok tt, record w { blocklist = list })
    ]
    else (ok tt, w)

-- `SessionManager::fail`
unfoldable pub fail : {A : Type 0} → String → Action A
fail message = do
  modify (λ d. record d { snapshot = record d.snapshot { phase = failed; failure = some message } })
  publish "session.failed"
  throw (service_unavailable message)

-- `failures.join("; ")`
unfoldable pub join_failures : List String → String
join_failures [] = ""
join_failures (f ∷ []) = f
join_failures (f ∷ g ∷ fs) = ◌+++◌ f (◌+++◌ "; " (join_failures (g ∷ fs)))

-- `if let Err(error) = ... { failures.push(format!("what: {error}")); }`
unfoldable pub note : String → Result (Unit {0}) → List String → List String
note what (ok _) failures = failures
note what (err e) failures = failures ++ ◌+++◌ what (display e) ∷ []

unfoldable pub note_cleanup : Option String → List String → List String
note_cleanup none failures = failures
note_cleanup (some message) failures = failures ++ ◌+++◌ "session cleanup: " message ∷ []
