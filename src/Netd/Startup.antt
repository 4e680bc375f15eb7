-- ===== src/Netd/Startup.antt =====
-- src/bin/xanhtab-netd.rs: `main` until its socket listens, outside a dry run.
use xanh_tab.Prelude.{
  Bool, true, false, ◌||◌, Option, none, some, is_some, if◌then◌else◌, ◌≡◌, inl, inr, arith,
}
use xanh_tab.Text.{Text}
use xanh_tab.Fallible.{Fallible, done, bail, Fallible-cases}
use xanh_tab.Egress.{SocketAddr}
use xanh_tab.Egress.Proxy.{validate_proxy_url_file}
use xanh_tab.Egress.Config.{validate_wireguard_config_file}
use xanh_tab.Netd.Plans.{NetworkConfig}
use xanh_tab.Netd.Daemon.{
  Host, Node, Step, ◌>>=◌, ◌>>◌, pure, engage, lift, read_file, parse_endpoint,
}
use xanh_tab.Netd.Rules.{held}
use xanh_tab.Netd.FailClosed.{script, engage-loaded, teardown-loaded}
use xanh_tab.Netd.Handle.{initialize_network, cleanup_network}

-- `Args` without the path of the configuration.
pub record Args : Type 0 where
  pub check_wireguard_config : Option Text
  pub check_proxy_url : Option Text
  pub print_proxy_endpoint : Bool
  pub cleanup : Bool

-- How `main` gets on: what a check prints, the end of a cleanup, or the loop of the socket.
pub data Stage : Type 0 where
  checked : Option SocketAddr → Stage
  cleaned listening : Stage

module _ (host : Host) (config : NetworkConfig) where
  -- A check takes a file of any owner.
  unfoldable pub check_wireguard : Option Text → Step (Unit {0})
  check_wireguard none = pure tt
  check_wireguard (some path) = do
    found ← read_file host config path
    lift (validate_wireguard_config_file host.parsers (host.print_path path) found none)
    pure tt

  abbrev expected_endpoint : Bool → Step (Option SocketAddr)
  expected_endpoint print_proxy_endpoint =
      if print_proxy_endpoint
      then pure none
      else (do expected ← parse_endpoint host config; pure (some expected))

  unfoldable pub check_proxy : Option Text → Bool → Step (Option SocketAddr)
  check_proxy none print_proxy_endpoint = pure none
  check_proxy (some path) print_proxy_endpoint = do
    expected ← expected_endpoint print_proxy_endpoint
    found ← read_file host config path
    proxy ← lift (validate_proxy_url_file host.parsers (host.print_path path) found expected none)
    pure (if print_proxy_endpoint then some proxy.endpoint else none)

  -- `main` behind the checks, where `bound` is what binding the socket and its permissions come to.
  unfoldable pub go_on : Args → Fallible (Unit {0}) → Option SocketAddr → Step Stage
  go_on args bound printed =
      if is_some args.check_wireguard_config || is_some args.check_proxy_url
      then pure (checked printed)
      else if args.cleanup
      then (do cleanup_network host config; pure cleaned)
      else (do initialize_network host config; lift bound; pure listening)

  -- `main`
  unfoldable pub start_up : Args → Fallible (Unit {0}) → Step Stage
  start_up args bound = do
    check_wireguard args.check_wireguard_config
    printed ← check_proxy args.check_proxy_url args.print_proxy_endpoint
    go_on args bound printed

  -- A start that ends in a check runs no command.
  Untouched : {A : Type 0} → Node → Fallible A × Node → Type 0
  Untouched n (r, n') = (n'.log ≡ n.log) × (n'.loaded ≡ n.loaded) × (n'.active_mode ≡ n.active_mode)

  check_wireguard-Untouched : (path : Option Text) (n : Node) → Untouched n (check_wireguard path n)
  unfolding Untouched check_wireguard
  check_wireguard-Untouched none n = ground arith
  check_wireguard-Untouched (some path) n = ground arith

  check_proxy-Untouched :
      (path : Option Text) (b : Bool) (n : Node) → Untouched n (check_proxy path b n)
  unfolding Untouched check_proxy
  check_proxy-Untouched none b n = ground arith
  check_proxy-Untouched (some path) true n = ground arith
  check_proxy-Untouched (some path) false n = ground arith

  -- A step that succeeds leaves the table of the kill switch.
  Held : {A : Type 0} → Fallible A × Node → Type 0
  Held (done _, n) = n.loaded ≡ some (script host config held)
  Held (bail _, n) = Unit {0}

  initialize_network-Held : (n : Node) → Held (initialize_network host config n)
  unfolding Held initialize_network
  initialize_network-Held n =
      let (r, n') = engage host config n in
      ground (arith, engage-loaded host config n, teardown-loaded host config n')

  -- Where a start gets to its socket, the table is the kill switch.
  Guarded : Fallible Stage → Node → Type 0
  unfolding Held
  Guarded (done listening) n = Held {A = Unit {0}} (done tt, n)
  Guarded _ n = Unit {0}

  go_on-Guarded :
      (args : Args) (bound : Fallible (Unit {0})) (printed : Option SocketAddr) (n : Node)
      → let (r, n') = go_on args bound printed n in Guarded r n'
  unfolding Guarded Held go_on
  go_on-Guarded args bound printed n = ground (arith, initialize_network-Held n)

  bind-Guarded :
      {A : Type 0} (m : Node → Fallible A × Node) (f : A → Node → Fallible Stage × Node) (n : Node)
      → ((a : A) (n' : Node) → let (r, n'') = f a n' in Guarded r n'')
      → let (r, n') = ◌>>=◌ m f n in Guarded r n'
  unfolding Guarded
  bind-Guarded m f n k = elim (Fallible-cases (m n).0) [
    | inr (e, q) ↦ rw (q, ◌>>=◌) tt
    | inl (a, q) ↦ rw (q, ◌>>=◌) (k a (m n).1)
  ]

  start_up-Guarded :
      (args : Args) (bound : Fallible (Unit {0})) (n : Node)
      → let (r, n') = start_up args bound n in Guarded r n'
  unfolding start_up
  start_up-Guarded args bound n =
      let proxied = check_proxy args.check_proxy_url args.print_proxy_endpoint in
      bind-Guarded (check_wireguard args.check_wireguard_config)
        (λ _. ◌>>=◌ proxied (go_on args bound)) n
        (λ _ n1. bind-Guarded proxied (go_on args bound) n1 (go_on-Guarded args bound))

  pub listening_is_held :
      (args : Args) (bound : Fallible (Unit {0})) (n : Node)
      → (start_up args bound n).0 ≡ done listening
      → (start_up args bound n).1.loaded ≡ some (script host config held)
  unfolding Guarded Held
  listening_is_held args bound n h = rw h at (start_up-Guarded args bound n)

  -- A start that is asked for a check runs no command.
  check_runs_nothing :
      (args : Args) (bound : Fallible (Unit {0})) (n : Node)
      → (is_some args.check_wireguard_config || is_some args.check_proxy_url) ≡ true
      → Untouched n (start_up args bound n)
  unfolding start_up go_on Untouched
  check_runs_nothing args bound n h =
      let n1 = (check_wireguard args.check_wireguard_config n).1 in
      ground (
        arith,
        check_wireguard-Untouched args.check_wireguard_config n,
        check_proxy-Untouched args.check_proxy_url args.print_proxy_endpoint n1,
      )
