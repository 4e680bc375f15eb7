-- ===== src/Netd/Examples.antt =====
-- The theorems about netd at a host whose interface of WireGuard is missing.
use xanh_tab.Prelude.{refl, Option, ◌≡◌, true, false, not, ◌||◌, ◌==◌, none, some, []}
use xanh_tab.Text.{codes}
use xanh_tab.Model.{direct, wire_guard}
use xanh_tab.Fallible.{done}
use xanh_tab.Egress.{v4, SocketAddr}
use xanh_tab.Netd.Rules.{
  Policy, policy_of, through_proxy, Packet, passes, rules_of, allows, passes-rules_of,
}
use xanh_tab.Netd.Plans.{
  NetworkConfig, kill_switch_plan, wireguard_teardown_plan, active_policy_plan,
}
use xanh_tab.Netd.Service.{authorize_peer_uid}
use xanh_tab.Netd.Daemon.{
  Host, Node, success, transition, run_plan, judge, change, transition_inner, teardown_wireguard,
  check_rules, endpoint_of, bring_up, probe_proxy, activate,
}
use xanh_tab.Netd.Transition.{TransitionEnds, transition_fails_closed}
use xanh_tab.Errors.{ok}
use xanh_tab.Netd.FailClosed.{script}
use xanh_tab.Netd.Client.{apply, request_of, apply_egress}
use xanh_tab.Netd.Handle.{applied}
use xanh_tab.Netd.Applied.{socket, served, applied_is_active}

abbrev config : NetworkConfig
config = record {
  enabled = true;
  initial_mode = direct;
  netd_socket = codes "/run/xanhtab/netd.sock";
  control_uid = some 990;
  browser_uid = 991;
  ipc_timeout_seconds = 15;
  tor_proxy = codes "socks5://127.0.0.1:9050";
  warp_proxy = codes "socks5://127.0.0.1:40000";
  wireguard_config = codes "/etc/xanhtab/wg0.conf";
  proxy_url_file = codes "/etc/xanhtab/proxy-url";
  proxy_endpoint = codes "127.0.0.1:1080";
}

-- Every command succeeds; there is no secret file, and nothing is parsed.
abbrev host : Host
host = record {
  outcome = λ _ _. success;
  interface_exists = λ _. false;
  show_rules = λ _ _. done [];
  probe = λ _ _. done tt;
  secret_file = λ _ _. none;
  parsers = record { parse_url = λ _. none; parse_ip = λ _. none; decode_base64 = λ _. none };
  parse_endpoint = λ _. none;
  print_ip = λ _. codes "127.0.0.1";
  print_path = λ _. "";
}

abbrev node : Node
node = record { active_mode = some direct; log = []; loaded = none; tick = 0 }

-- The configuration of WireGuard is missing.
transition_fails_closed_example :
    TransitionEnds host config wire_guard node
      (transition host config wire_guard node).0
      (transition host config wire_guard node).1
transition_fails_closed_example = transition_fails_closed host config wire_guard node

abbrev local_proxy : SocketAddr
local_proxy = record { ip = v4 0x7f000001; port = 9050 }

abbrev segment : Packet
segment = record { uid = 991; interface = codes "lo"; is_tcp = true; destination = local_proxy }

passes-rules_of_example :
    passes (rules_of 991 (through_proxy local_proxy)) segment
    ≡ (not (segment.uid == 991) || allows (through_proxy local_proxy) segment)
passes-rules_of_example = passes-rules_of 991 (through_proxy local_proxy) segment

direct_is_applied :
    apply_egress (socket host config 990 node) direct ≡ ok (applied host config direct)
unfolding apply_egress socket authorize_peer_uid transition run_plan kill_switch_plan judge change
    transition_inner teardown_wireguard wireguard_teardown_plan check_rules endpoint_of bring_up
    probe_proxy activate active_policy_plan
direct_is_applied = refl

applied_is_active_example :
    (direct ≡ direct)
    × ((served host config 990 (request_of (apply direct)) node).active_mode ≡ some direct)
    × (endpoint : Option SocketAddr) × (policy : Policy) × (policy_of direct endpoint ≡ some policy)
    × ((served host config 990 (request_of (apply direct)) node).loaded
        ≡ some (script host config policy))
applied_is_active_example =
    applied_is_active host config 990 direct node (applied host config direct) direct_is_applied
