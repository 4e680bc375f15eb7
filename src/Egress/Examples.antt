-- ===== src/Egress/Examples.antt =====
-- The theorem about WireGuard configurations at one that is accepted.
use xanh_tab.Prelude.{◌≡◌, refl, ◌||◌, true, false, none, some, [], ◌∷◌, All, if◌then◌else◌}
use xanh_tab.Text.{Text, codes, text_eq, is_ascii_alphanumeric}
use xanh_tab.Text.Methods as Methods
use xanh_tab.Text.Methods.{lines}
use xanh_tab.Fallible.{done}
use xanh_tab.Egress.{v4, Parsers}
use xanh_tab.Egress.Wireguard as Wireguard
use xanh_tab.Egress.Wireguard.{WireGuardPolicy}
use xanh_tab.Egress.Config as Config
use xanh_tab.Egress.Config.{validate_wireguard_config, without_comment}
use xanh_tab.Egress.Routes.{Any, RoutesAll}
use xanh_tab.Egress.Policy.{Harmless, accepted_is_Harmless}

-- Parsers that know what the configuration holds.
abbrev parsers : Parsers
parsers = record {
  parse_url = λ _. none;
  parse_ip = λ s. if text_eq s (codes "0.0.0.0") then some (v4 0) else some (v4 0x0a000002);
  decode_base64 = λ s. some (
      0 ∷ 1 ∷ 2 ∷ 3 ∷ 4 ∷ 5 ∷ 6 ∷ 7 ∷ 0 ∷ 1 ∷ 2 ∷ 3 ∷ 4 ∷ 5 ∷ 6 ∷ 7 ∷ 0 ∷ 1 ∷ 2 ∷ 3 ∷ 4 ∷ 5 ∷ 6 ∷ 7
      ∷ 0 ∷ 1 ∷ 2 ∷ 3 ∷ 4 ∷ 5 ∷ 6 ∷ 7 ∷ []);
}

abbrev config : Text
config =
    codes
      "[Interface]\nPrivateKey=key # of the device\nAddress=10.0.0.2/32\nTable=off\n[Peer]\nPublicKey=key\nAllowedIPs=0.0.0.0/0\nEndpoint=vpn.example:51820\n"

abbrev policy : WireGuardPolicy
policy = record { ipv4_default = true; ipv6_default = false }

config_is_accepted : validate_wireguard_config parsers config ≡ done policy
unfolding validate_wireguard_config Config.read_lines Config.read_line without_comment
    Methods.ends_with_char Config.enter_section Config.directive Config.interface_directive
    Wireguard.validate_wireguard_key Wireguard.validate_cidr_list Methods.eq_ignore_ascii_case
    Config.peer_directive Wireguard.validate_wireguard_endpoint is_ascii_alphanumeric
    Config.conclude
config_is_accepted = refl

accepted_is_Harmless_example :
    All (λ line. Harmless (without_comment parsers line)) (lines config)
    × ((policy.ipv4_default || policy.ipv6_default) ≡ true)
    × Any (λ line. RoutesAll parsers (without_comment parsers line)) (lines config)
accepted_is_Harmless_example = accepted_is_Harmless parsers config policy config_is_accepted
