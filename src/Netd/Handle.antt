-- ===== src/Netd/Handle.antt =====
-- src/bin/xanhtab-netd.rs: a request from its peer to its answer, and the start and the end of
-- netd.
--
-- A request that is cancelled at netd's deadline is not modelled.
use xanh_tab.Prelude.{ℕ, true, false, not, [], ◌∷◌, ◌==◌, if◌then◌else◌}
use xanh_tab.Model.{EgressMode, direct}
use xanh_tab.Fallible.{Fallible, done, bail}
use xanh_tab.Netd.Plans.{NetworkConfig, delete_table, kill_switch_plan}
use xanh_tab.Netd.Daemon.{Host, Node, Step, ◌>>◌, run_plan, teardown_wireguard, transition}
use xanh_tab.Netd.Service.{EgressResponse, authorize_peer_uid, status_response}
use xanh_tab.Netd.Client.{EgressCommand, EgressRequest, apply, reset, status}

module _ (host : Host) (config : NetworkConfig) where
  -- The response of a transition that succeeds.
  abbrev pub applied : EgressMode → EgressResponse
  applied mode = record {
    ok = true;
    active_mode = mode;
    detail = "egress policy applied after fail-closed transition";
  }

  -- The `match` on the command.
  unfoldable pub perform : EgressCommand → Node → Fallible EgressResponse × Node
  unfolding status_response
  perform (apply mode) n =
      let (r, n') = transition host config mode n in
      (elim r [ done m ↦ done (applied m) | bail e ↦ bail e ], n')
  perform reset n =
      let (r, n') = transition host config direct n in
      (elim r [ done m ↦ done (applied m) | bail e ↦ bail e ], n')
  perform status n = (done (status_response n.active_mode), n)

  -- `unwrap_or_else`: a failure is answered too.
  unfoldable pub answer : Fallible EgressResponse → EgressResponse
  answer (done r) = r
  answer (bail e) = record { ok = false; active_mode = direct; detail = e }

  -- `handle`: what is written back, where anything is. The request is `bail` where it cannot be
  -- read in time or parsed.
  unfoldable pub handle : ℕ → Fallible EgressRequest → Node → Fallible EgressResponse × Node
  unfolding perform answer
  handle peer_uid received n =
      elim (authorize_peer_uid peer_uid config.control_uid config.browser_uid) [
        | bail e ↦ (bail e, n)
        | done _ ↦ elim received [
          | bail e ↦ (bail e, n)
          | done request ↦
              if not (request.version == 1)
              then (bail "unsupported netd protocol version", n)
              else (let (r, n') = perform request.command n in (done (answer r), n'))
        ]
      ]

  unfoldable pub initialize_network : Step (Unit {0})
  initialize_network = do
    run_plan host config (kill_switch_plan host.print_ip config) true false
    teardown_wireguard host config

  unfoldable pub cleanup_network : Step (Unit {0})
  cleanup_network = do
    run_plan host config (kill_switch_plan host.print_ip config) true false
    teardown_wireguard host config
    run_plan host config (delete_table ∷ []) false true
