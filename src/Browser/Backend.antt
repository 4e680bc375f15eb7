-- ===== src/Browser/Backend.antt =====
-- src/browser.rs: the browser backends of the control plane, and `handle` of
-- src/bin/xanhtab-browser.rs, which answers one of them.
--
-- The socket and the process answer as the arguments say.
use Prim.Native.String.{◌++◌ as ◌+++◌}
use xanh_tab.Prelude.{
  ℕ, String, Bool, true, false, Option, none, some, List, [], ◌∷◌, ◌++◌, if◌then◌else◌,
}
use xanh_tab.Errors.{Result, ok, err, service_unavailable, internal, session_not_active}
use xanh_tab.Model.{Url, EgressMode, StreamProfile, NavigationCommand}
use xanh_tab.Fallible.{Fallible, done, bail}
use xanh_tab.Browser.{BrowserCommand, start, go, stop, Pipeline, fresh, Setup, apply}

pub record BrowserResponse : Type 0 where
  pub ok : Bool
  pub detail : String

-- The calls of `request_unbounded` with their errors, and the answer.
pub data Exchange : Type 0 where
  connect_error write_error read_error parse_error : String → Exchange
  timed_out : Exchange
  response : BrowserResponse → Exchange

-- `SocketBrowser::request`
unfoldable pub request : Exchange → Result (Unit {0})
request (connect_error e) = err (service_unavailable (◌+++◌ "browser connect: " e))
request (write_error e) = err (service_unavailable (◌+++◌ "browser request: " e))
request (read_error e) = err (service_unavailable (◌+++◌ "browser response: " e))
request (parse_error e) = err (service_unavailable (◌+++◌ "invalid browser response: " e))
request timed_out = err (service_unavailable "browser helper timed out")
request (response r) = if r.ok then Result.ok tt else err (service_unavailable r.detail)

-- `handle` of the helper: what it writes back, and its pipeline. The line is `bail` where it is no
-- command; a command may run out of time, and then the pipeline is a fresh one.
unfoldable pub handle :
    Setup
    → Fallible (Unit {0})
    → Bool
    → Fallible BrowserCommand
    → Pipeline
    → BrowserResponse × Pipeline
handle setup spawned late (bail e) p =
    (record { ok = false; detail = ◌+++◌ "invalid browser command: " e }, p)
handle setup spawned true (done command) p =
    (record { ok = false; detail = "browser command timed out" }, fresh)
handle setup spawned false (done command) p =
    let (r, p') = apply setup spawned command p in
    (
      elim r [
        | done _ ↦ record { ok = true; detail = "browser command applied" }
        | bail e ↦ record { ok = false; detail = e }
      ],
      p',
    )

-- `SocketBrowser` as a `BrowserBackend`, over a socket that answers by the command.
module _ (socket : BrowserCommand → Exchange) where
  unfoldable pub socket_start : ℕ → Url → StreamProfile → EgressMode → Result (Unit {0})
  unfolding request
  socket_start session_id url profile egress =
      request (socket (start session_id url profile egress))

  unfoldable pub socket_stop : Result (Unit {0})
  unfolding request
  socket_stop = request (socket stop)

  unfoldable pub socket_navigate : NavigationCommand → Result (Unit {0})
  unfolding request
  socket_navigate command = request (socket (go command))

-- `ProcessBrowser`: its process, by the commands that were written to it.
pub record Answers : Type 0 where
  -- The spawn, whether the process has a standard input, a write to it, the wait for the end of
  -- the process, and the kill of it.
  pub spawned : Fallible (Unit {0})
  pub has_stdin : Bool
  pub written : Fallible (Unit {0})
  pub ends_in_time : Bool
  pub killed : Fallible (Unit {0})

abbrev pub Process : Type 0
Process = Option (List BrowserCommand)

-- `ProcessBrowser::send`
unfoldable pub send : Answers → Result (Unit {0})
send answers = elim answers.written [
  | done _ ↦ ok tt
  | bail e ↦ err (service_unavailable (◌+++◌ "browser bridge: " e))
]

unfoldable pub process_stop : Answers → Process → Result (Unit {0}) × Process
process_stop answers none = (ok tt, none)
process_stop answers (some written) = if answers.ends_in_time then (ok tt, none) else (
  elim answers.killed [
    | done _ ↦ ok tt
    | bail e ↦ err (service_unavailable (◌+++◌ "browser kill: " e))
  ],
  none,
)

-- The start stops what runs first; a process to which the command cannot be written is dropped.
unfoldable pub process_start :
    Answers → Answers → BrowserCommand → Process → Result (Unit {0}) × Process
unfolding send process_stop
process_start stopping answers command process =
    let (stopped, after) = process_stop stopping process in
    elim stopped [
      | err e ↦ (err e, after)
      | ok _ ↦ elim answers.spawned [
        | bail e ↦ (err (service_unavailable (◌+++◌ "browser spawn: " e)), after)
        | done _ ↦
            if answers.has_stdin
            then (elim (send answers) [
              | err e ↦ (err e, after)
              | ok _ ↦ (ok tt, some (command ∷ []))
            ])
            else (err internal, after)
      ]
    ]

unfoldable pub process_navigate :
    Answers → NavigationCommand → Process → Result (Unit {0}) × Process
unfolding send
process_navigate answers command none = (err session_not_active, none)
process_navigate answers command (some written) = elim (send answers) [
  | err e ↦ (err e, some written)
  | ok _ ↦ (ok tt, some (written ++ go command ∷ []))
]

-- `MockBrowser`, by the calls that it has noted.
unfoldable pub mock_call :
    BrowserCommand → List BrowserCommand → Result (Unit {0}) × List BrowserCommand
mock_call command calls = (ok tt, calls ++ command ∷ [])
