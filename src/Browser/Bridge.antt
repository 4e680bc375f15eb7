-- ===== src/Browser/Bridge.antt =====
-- src/bin/xanhtab-browser.rs: `main` and `run_stdio`, the helper behind a bridge.
use xanh_tab.Prelude.{
  ℕ, ltb, ◌==◌, ◌||◌, ◌≡◌, String, Bool, true, false, if◌then◌else◌, List, [], ◌∷◌, arith,
}
use xanh_tab.Fallible.{Fallible, done, bail, ◌>>=◌, ◌>>◌, bail_if}
use xanh_tab.Browser.{BrowserCommand, Pipeline, Setup, fresh, apply, halt, run}

-- What a read of a line comes to: an error, or a line, which may be no command, with what its
-- launch comes to and whether it runs out of time.
pub data Input : Type 0 where
  read_error : String → Input
  line : Fallible (Unit {0}) → Bool → Fallible BrowserCommand → Input

-- How `main` gets on: the end of the bridge, or the loop of the socket.
pub data Stage : Type 0 where
  ended : Pipeline → Stage
  listening : Stage

module _ (setup : Setup) where
  -- One round of the loop; where it fails, the pipeline is dropped.
  unfoldable pub take_line : Input → Pipeline → Fallible Pipeline
  take_line (read_error e) p = bail e
  take_line (line spawned late (bail e)) p = bail "invalid bridge command"
  take_line (line spawned true (done command)) p = bail "browser command timed out"
  take_line (line spawned false (done command)) p =
      let (r, p') = apply setup spawned command p in elim r [ bail e ↦ bail e | done _ ↦ done p' ]

  -- `run_stdio`, where `stop_late` says whether the last stop runs out of time.
  unfoldable pub run_stdio : Bool → List Input → Pipeline → Fallible Pipeline
  unfolding take_line
  run_stdio stop_late [] p = do bail_if stop_late "browser stop timed out"; done (halt setup p)
  run_stdio stop_late (input ∷ rest) p = do p' ← take_line input p; run_stdio stop_late rest p'

  -- `main` behind its check, where `bound` is what binding the socket and its permissions come to.
  unfoldable pub go_on : Bool → Fallible (Unit {0}) → Bool → List Input → Fallible Stage
  go_on stdio bound stop_late inputs =
      if stdio
      then (do p ← run_stdio stop_late inputs fresh; done (ended p))
      else (do bound; done listening)

  -- `main`
  unfoldable pub main : ℕ → Bool → Fallible (Unit {0}) → Bool → List Input → Fallible Stage
  unfolding go_on
  main command_timeout_ms stdio bound stop_late inputs = do
    bail_if (command_timeout_ms == 0 || ltb 30_000 command_timeout_ms)
        "command timeout must be between 1 and 30000 milliseconds"
    go_on stdio bound stop_late inputs

  -- The commands of a bridge, with what their launches come to.
  unfoldable pub commands_of : List Input → List (Fallible (Unit {0}) × BrowserCommand)
  commands_of [] = []
  commands_of (line spawned _ (done command) ∷ rest) = (spawned, command) ∷ commands_of rest
  commands_of (_ ∷ rest) = commands_of rest

  -- A bridge that ends well has carried out every command of its input, and then stopped.
  pub run_stdio-run :
      (stop_late : Bool) (inputs : List Input) (p q : Pipeline)
      → run_stdio stop_late inputs p ≡ done q
      → q ≡ halt setup (run setup (commands_of inputs) p)
  unfolding run_stdio take_line commands_of run
  run_stdio-run stop_late [] p q h = ground arith
  run_stdio-run stop_late (read_error e ∷ rest) p q h = ground arith
  run_stdio-run stop_late (line spawned late (bail e) ∷ rest) p q h = ground arith
  run_stdio-run stop_late (line spawned true (done command) ∷ rest) p q h = ground arith
  run_stdio-run stop_late (line spawned false (done command) ∷ rest) p q h =
      let p' = (apply setup spawned command p).1 in
      ground (arith, run_stdio-run stop_late rest p' q)
