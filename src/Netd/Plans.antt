-- ===== src/Netd/Plans.antt =====
-- src/netd.rs: the commands of netd.
use xanh_tab.Prelude.{ℕ, Bool, String, Option, none, some, List, [], ◌∷◌, ◌++◌}
use xanh_tab.Text.{Text, codes}
use xanh_tab.Text.Methods.{print_u32}
use xanh_tab.Model.{EgressMode}
use xanh_tab.Fallible.{Fallible, done, bail}
use xanh_tab.Egress.{IpAddr, SocketAddr}
use xanh_tab.Netd.Rules.{Policy, held, policy_of, script_of, wireguard_interface}

-- `NetworkConfig` of src/config.rs
pub record NetworkConfig : Type 0 where
  pub enabled : Bool
  pub initial_mode : EgressMode
  pub netd_socket : Text
  pub control_uid : Option ℕ
  pub browser_uid : ℕ
  pub ipc_timeout_seconds : ℕ
  pub tor_proxy : Text
  pub warp_proxy : Text
  pub wireguard_config : Text
  pub proxy_url_file : Text
  pub proxy_endpoint : Text

pub record CommandSpec : Type 0 where
  pub program : String
  pub args : List Text
  pub stdin : Option Text

abbrev pub nft_program : String
nft_program = "/usr/sbin/nft"

abbrev pub ip_program : String
ip_program = "/usr/sbin/ip"

abbrev pub wg_program : String
wg_program = "/usr/bin/wg"

abbrev pub wg_quick_program : String
wg_quick_program = "/usr/bin/wg-quick"

abbrev pub wireguard_route_table : Text
wireguard_route_table = codes "51820"

abbrev pub wireguard_rule_priority : Text
wireguard_rule_priority = codes "10000"

-- A command without input.
abbrev pub command : String → List Text → CommandSpec
command program args = record { program = program; args = args; stdin = none }

abbrev pub add_table : CommandSpec
add_table = command nft_program (codes "add" ∷ codes "table" ∷ codes "inet" ∷ codes "xanhtab" ∷ [])

abbrev pub delete_table : CommandSpec
delete_table =
    command nft_program (codes "delete" ∷ codes "table" ∷ codes "inet" ∷ codes "xanhtab" ∷ [])

-- `format!("{0}-{0}", uid)`
unfoldable pub uid_range : ℕ → Text
unfolding print_u32
uid_range uid = print_u32 uid ++ (codes "-" ++ print_u32 uid)

-- The arguments of `ip` for IPv6.
abbrev pub on_ipv6 : List Text → List Text
on_ipv6 args = codes "-6" ∷ args

abbrev pub default_route : List Text
default_route =
    codes "route"
    ∷ codes "replace"
    ∷ codes "default"
    ∷ codes "dev"
    ∷ wireguard_interface
    ∷ codes "table"
    ∷ wireguard_route_table
    ∷ []

-- The rule of the browser's user: `add` or `del`.
abbrev pub user_rule : String → ℕ → List Text
user_rule action uid =
    codes "rule"
    ∷ codes action
    ∷ codes "priority"
    ∷ wireguard_rule_priority
    ∷ codes "uidrange"
    ∷ uid_range uid
    ∷ codes "lookup"
    ∷ wireguard_route_table
    ∷ []

abbrev pub flush_routes : List Text
flush_routes = codes "route" ∷ codes "flush" ∷ codes "table" ∷ wireguard_route_table ∷ []

unfoldable pub wireguard_setup_plan : NetworkConfig → List CommandSpec
wireguard_setup_plan config =
    command wg_quick_program (codes "up" ∷ config.wireguard_config ∷ [])
    ∷ command ip_program default_route
    ∷ command ip_program (on_ipv6 default_route)
    ∷ command ip_program (user_rule "add" config.browser_uid)
    ∷ command ip_program (on_ipv6 (user_rule "add" config.browser_uid))
    ∷ command wg_program (codes "show" ∷ wireguard_interface ∷ [])
    ∷ []

unfoldable pub wireguard_teardown_plan : NetworkConfig → List CommandSpec
wireguard_teardown_plan config =
    command ip_program (user_rule "del" config.browser_uid)
    ∷ command ip_program (on_ipv6 (user_rule "del" config.browser_uid))
    ∷ command ip_program flush_routes
    ∷ command ip_program (on_ipv6 flush_routes)
    ∷ command ip_program (codes "link" ∷ codes "delete" ∷ codes "dev" ∷ wireguard_interface ∷ [])
    ∷ []

module _ (print_ip : IpAddr → Text) where
  unfoldable pub nft_transaction : NetworkConfig → Policy → CommandSpec
  unfolding script_of
  nft_transaction config policy = record {
    program = nft_program;
    args = codes "-f" ∷ codes "-" ∷ [];
    stdin = some (script_of print_ip config.browser_uid policy);
  }

  unfoldable pub kill_switch_plan : NetworkConfig → List CommandSpec
  kill_switch_plan config = add_table ∷ nft_transaction config held ∷ []

  unfoldable pub active_policy_plan :
      NetworkConfig → EgressMode → Option SocketAddr → Fallible (List CommandSpec)
  unfolding policy_of
  active_policy_plan config mode proxy_endpoint = elim (policy_of mode proxy_endpoint) [
    | none ↦ bail "proxy egress requires a validated endpoint"
    | some policy ↦ done (nft_transaction config policy ∷ [])
  ]
