-- ===== src/Netd/Daemon.antt =====
-- src/bin/xanhtab-netd.rs: what netd does on a request.
--
-- The host answers each command, look and probe at its own tick. `loaded` is the last script that
-- `nft -f -` took: it replaces the whole table or nothing, as nft documents of a script. That `nft`
-- takes a script and netd then fails to wait for it is not modelled.
use Prim.Native.String.{◌++◌ as ◌+++◌}
use xanh_tab.Prelude.{
  ℕ, suc, String, Bool, true, false, ◌&&◌, Option, none, some, List, [], ◌∷◌, ◌++◌, if◌then◌else◌,
  any, str_eq,
}
use xanh_tab.Text.{Text, codes, text_eq, contains}
use xanh_tab.Text.Methods.{lines}
use xanh_tab.Model.{EgressMode, direct, tor, warp, wire_guard, proxy}
use xanh_tab.Fallible.{Fallible, done, bail, context}
use xanh_tab.Egress.{IpAddr, SocketAddr, Parsers}
use xanh_tab.Egress.Proxy.{SecretFile, validate_proxy_url, validate_proxy_url_file}
use xanh_tab.Egress.Config.{validate_wireguard_config_file}
use xanh_tab.Netd.Plans.{
  NetworkConfig, CommandSpec, nft_program, wireguard_route_table, add_table, uid_range,
  wireguard_setup_plan, wireguard_teardown_plan, kill_switch_plan, active_policy_plan,
}

-- How a command ends: with success, with a failure and its stderr, trimmed, or without running.
pub data Outcome : Type 0 where
  success : Outcome
  failure broken : String → Outcome

pub record Host : Type 0 where
  pub outcome : ℕ → CommandSpec → Outcome
  pub interface_exists : ℕ → Bool
  pub show_rules : ℕ → Bool → Fallible Text
  pub probe : ℕ → SocketAddr → Fallible (Unit {0})
  pub secret_file : ℕ → Text → Option SecretFile
  pub parsers : Parsers
  pub parse_endpoint : Text → Option SocketAddr
  pub print_ip : IpAddr → Text
  pub print_path : Text → String

-- `NetworkState`, and what the host has seen.
pub record Node : Type 0 where
  pub active_mode : Option EgressMode
  pub log : List CommandSpec
  pub loaded : Option Text
  pub tick : ℕ

abbrev pub Step : Type 0 → Type 0
Step A = Node → Fallible A × Node

infixl 5 ◌>>=◌ ◌>>◌
abbrev pub ◌>>=◌ : {A B : Type 0} → Step A → (A → Step B) → Step B
◌>>=◌ m f n = let (r, n') = m n in elim r [ done a ↦ f a n' | bail e ↦ (bail e, n') ]

abbrev pub ◌>>◌ : {A B : Type 0} → Step A → Step B → Step B
m >> k = m >>= λ _. k

abbrev pub pure : {A : Type 0} → A → Step A
pure a n = (done a, n)

abbrev pub lift : {A : Type 0} → Fallible A → Step A
lift r n = (r, n)

abbrev pub attempt : {A : Type 0} → Step A → Step (Fallible A)
attempt m n = let (r, n') = m n in (done r, n')

-- The table behind a command.
abbrev pub load : Outcome → CommandSpec → Option Text → Option Text
load success spec loaded = elim spec.stdin [ none ↦ loaded | some script ↦ some script ]
load (failure _) spec loaded = loaded
load (broken _) spec loaded = loaded

abbrev pub texts_eq : List Text → List Text → Bool
texts_eq [] [] = true
texts_eq (s ∷ ss) (t ∷ ts) = text_eq s t && texts_eq ss ts
texts_eq _ _ = false

-- The test of `run_plan` for a table that is there already.
unfoldable pub is_existing_table : CommandSpec → String → Bool
unfolding text_eq contains
is_existing_table spec stderr =
    str_eq spec.program nft_program
    && texts_eq spec.args add_table.args
    && contains (codes stderr) (codes "File exists")

module _ (host : Host) (config : NetworkConfig) where
  abbrev pub execute : CommandSpec → Node → Outcome × Node
  execute spec n =
      let o = host.outcome n.tick spec in
      (o, record n { log = spec ∷ n.log; loaded = load o spec n.loaded; tick = suc n.tick })

  -- How the loop of `run_plan` takes an outcome: `none` where it goes on.
  unfoldable pub judge : Bool → Bool → CommandSpec → Outcome → Option String
  unfolding is_existing_table
  judge allow_existing_table ignore_failures spec success = none
  judge allow_existing_table ignore_failures spec (broken message) = some message
  judge allow_existing_table ignore_failures spec (failure stderr) =
      if allow_existing_table && is_existing_table spec stderr
      then none
      else if ignore_failures
      then none
      else some (◌+++◌ spec.program (◌+++◌ " failed: " stderr))

  -- `run_plan`, outside a dry run.
  unfoldable pub run_plan : List CommandSpec → Bool → Bool → Step (Unit {0})
  run_plan [] allow_existing_table ignore_failures n = (done tt, n)
  run_plan (spec ∷ plan) allow_existing_table ignore_failures n =
      let (o, n') = execute spec n in
      let rest = run_plan plan allow_existing_table ignore_failures n' in
      elim (judge allow_existing_table ignore_failures spec o) [
        | some message ↦ (bail message, n')
        | none ↦ rest
      ]

  -- The test of `policy_rule_remains` on what `ip rule show` prints.
  unfoldable pub rule_remains : Text → Bool
  unfolding lines contains uid_range
  rule_remains rules =
      any
        (λ line.
          contains line (codes "uidrange " ++ uid_range config.browser_uid)
          && contains line (codes "lookup " ++ wireguard_route_table))
        (lines rules)

  abbrev bail_when : Bool → String → Step (Unit {0})
  bail_when b message n = (if b then bail message else done tt, n)

  -- `policy_rule_remains`, with the test of its caller.
  unfoldable pub check_rules : Bool → Step (Unit {0})
  unfolding rule_remains
  check_rules ipv6 n =
      let n' : Node = record n { tick = suc n.tick } in
      elim (host.show_rules n.tick ipv6) [
        | bail e ↦ (bail e, n')
        | done rules ↦
            bail_when (rule_remains rules)
              "dedicated WireGuard UID policy rule remained after teardown" n'
      ]

  abbrev check_interface : Step (Unit {0})
  check_interface n =
      bail_when (host.interface_exists n.tick)
        "dedicated WireGuard interface remained after teardown" (record n { tick = suc n.tick })

  -- `teardown_wireguard`
  unfoldable pub teardown_wireguard : Step (Unit {0})
  teardown_wireguard = do
    run_plan (wireguard_teardown_plan config) false true
    check_interface
    check_rules false
    check_rules true

  abbrev pub read_file : Text → Step (Option SecretFile)
  read_file path n = (done (host.secret_file n.tick path), record n { tick = suc n.tick })

  abbrev pub parse_endpoint : Step SocketAddr
  parse_endpoint n =
      (context (host.parse_endpoint config.proxy_endpoint) "invalid socket address syntax", n)

  -- The endpoint of a mode, in `transition_inner`.
  unfoldable pub endpoint_of : EgressMode → Step (Option SocketAddr)
  endpoint_of direct = pure none
  endpoint_of wire_guard = pure none
  endpoint_of tor = do
    validated ← lift (validate_proxy_url host.parsers config.tor_proxy false)
    pure (some validated.endpoint)
  endpoint_of warp = do
    validated ← lift (validate_proxy_url host.parsers config.warp_proxy false)
    pure (some validated.endpoint)
  endpoint_of proxy = do
    expected ← parse_endpoint
    found ← read_file config.proxy_url_file
    validated ← lift (
        validate_proxy_url_file host.parsers (host.print_path config.proxy_url_file) found
          (some expected) (some 0))
    pure (some validated.endpoint)

  -- Its part for WireGuard.
  unfoldable pub bring_up : EgressMode → Step (Unit {0})
  bring_up wire_guard = do
    found ← read_file config.wireguard_config
    lift (
        validate_wireguard_config_file host.parsers (host.print_path config.wireguard_config) found
          (some 0))
    run_plan (wireguard_setup_plan config) false false
  bring_up _ = pure tt

  -- `probe_proxy`, where there is an endpoint.
  unfoldable pub probe_proxy : Option SocketAddr → Step (Unit {0})
  probe_proxy none n = (done tt, n)
  probe_proxy (some endpoint) n = (host.probe n.tick endpoint, record n { tick = suc n.tick })

  -- Its end: the policy of the mode.
  unfoldable pub activate : EgressMode → Option SocketAddr → Step (Unit {0})
  activate mode endpoint = do
    plan ← lift (active_policy_plan host.print_ip config mode endpoint)
    run_plan plan false false

  -- `transition_inner`
  unfoldable pub transition_inner : EgressMode → Step (Unit {0})
  transition_inner mode = do
    teardown_wireguard
    endpoint ← endpoint_of mode
    bring_up mode
    probe_proxy endpoint
    activate mode endpoint

  abbrev pub engage : Step (Unit {0})
  engage = run_plan (kill_switch_plan host.print_ip config) true false

  -- `if let Err(error) = ... { failures.push(...) }` and `failures.join("; ")`
  abbrev add_failure : String → Fallible (Unit {0}) → String → String
  add_failure what (done _) message = message
  add_failure what (bail e) message = ◌+++◌ message (◌+++◌ "; " (◌+++◌ what e))

  -- The branch of `transition` where it fails.
  unfoldable pub restore : String → Step EgressMode
  restore error = do
    cleanup ← attempt teardown_wireguard
    held ← attempt engage
    lift (
        bail (
          add_failure "kill-switch restore: " held
            (add_failure "WireGuard cleanup: " cleanup error)))

  abbrev set_active : Option EgressMode → Step (Unit {0})
  set_active mode n = (done tt, record n { active_mode = mode })

  -- What `transition` does behind the kill switch.
  unfoldable pub change : EgressMode → Step EgressMode
  change mode = do
    result ← attempt (transition_inner mode)
    elim result [ bail error ↦ restore error | done _ ↦ do set_active (some mode); pure mode ]

  -- `transition`: the mode of the response.
  unfoldable pub transition : EgressMode → Step EgressMode
  transition mode = do set_active none; engage; change mode
