-- ===== src/Netd/Rules.antt =====
-- src/netd.rs: the rules of a policy, and their text.
use xanh_tab.Prelude.{
  ℕ, Bool, ◌≡◌, true, false, not, arith, ◌||◌, ◌&&◌, Option, none, some, List, [], ◌∷◌, ◌++◌, ◌==◌,
  if◌then◌else◌,
}
use xanh_tab.Text.{Text, codes, text_eq, contains_char}
use xanh_tab.Text.Methods.{print_u32}
use xanh_tab.Model.{EgressMode, direct, tor, warp, wire_guard, proxy}
use xanh_tab.Egress.{IpAddr, SocketAddr, ip_eq}

-- `WIREGUARD_INTERFACE`
abbrev pub wireguard_interface : Text
wireguard_interface = codes "wg0"

-- What a transaction sets up: `None` of the source is `held`.
pub data Policy : Type 0 where
  held unrestricted through_wireguard : Policy
  through_proxy : SocketAddr → Policy

-- The policy of a mode; `none` where a proxy's mode comes without an endpoint.
unfoldable pub policy_of : EgressMode → Option SocketAddr → Option Policy
policy_of direct endpoint = some unrestricted
policy_of wire_guard endpoint = some through_wireguard
policy_of tor none = none
policy_of tor (some endpoint) = some (through_proxy endpoint)
policy_of warp none = none
policy_of warp (some endpoint) = some (through_proxy endpoint)
policy_of proxy none = none
policy_of proxy (some endpoint) = some (through_proxy endpoint)

pub data Rule : Type 0 where
  accept_interface : ℕ → Text → Rule
  accept_endpoint : ℕ → SocketAddr → Rule
  drop : ℕ → Rule

-- The rules of the chain, which accepts what no rule matches.
unfoldable pub rules_of : ℕ → Policy → List Rule
rules_of uid held = drop uid ∷ []
rules_of uid unrestricted = []
rules_of uid through_wireguard = accept_interface uid wireguard_interface ∷ drop uid ∷ []
rules_of uid (through_proxy endpoint) = accept_endpoint uid endpoint ∷ drop uid ∷ []

-- `print_ip` stands for `IpAddr::to_string`.
module _ (print_ip : IpAddr → Text) where
  -- The matches of a rule behind the user's id.
  unfoldable pub print_match : Rule → Text
  unfolding contains_char print_u32
  print_match (accept_interface uid name) = codes " oifname \"" ++ (name ++ codes "\" accept\n")
  print_match (accept_endpoint uid endpoint) =
      let address = print_ip endpoint.ip in
      codes " "
      ++ ((if contains_char address b':' then codes "ip6" else codes "ip")
          ++ (codes " daddr "
              ++ (address
                  ++ (codes " tcp dport " ++ (print_u32 endpoint.port ++ codes " accept\n")))))
  print_match (drop uid) = codes " counter drop\n"

  abbrev uid_of : Rule → ℕ
  uid_of (accept_interface uid _) = uid
  uid_of (accept_endpoint uid _) = uid
  uid_of (drop uid) = uid

  unfoldable pub print_rules : List Rule → Text
  unfolding print_match print_u32
  print_rules [] = []
  print_rules (rule ∷ rules) =
      codes "add rule inet xanhtab browser_output meta skuid "
      ++ (print_u32 (uid_of rule) ++ (print_match rule ++ print_rules rules))

  -- The script of `nft_transaction`.
  unfoldable pub script_of : ℕ → Policy → Text
  unfolding print_rules rules_of
  script_of uid policy =
      codes "flush table inet xanhtab\n"
      ++ (codes
            "add chain inet xanhtab browser_output { type filter hook output priority filter; policy accept; }\n"
          ++ print_rules (rules_of uid policy))

-- What the rules say of a packet that leaves.
pub record Packet : Type 0 where
  pub uid : ℕ
  pub interface : Text
  pub is_tcp : Bool
  pub destination : SocketAddr

abbrev pub matches : Rule → Packet → Bool
matches (accept_interface uid name) p = p.uid == uid && text_eq p.interface name
matches (accept_endpoint uid endpoint) p =
    p.uid == uid
    && p.is_tcp
    && ip_eq p.destination.ip endpoint.ip
    && p.destination.port == endpoint.port
matches (drop uid) p = p.uid == uid

abbrev pub is_drop : Rule → Bool
is_drop (drop _) = true
is_drop _ = false

-- Whether a packet passes: the first rule that matches decides, and the chain's policy accepts.
unfoldable pub passes : List Rule → Packet → Bool
passes [] p = true
passes (rule ∷ rules) p =
    let later = passes rules p in
    if matches rule p then (if is_drop rule then false else true) else later

-- What a policy lets the browser's user send, in its own words.
abbrev pub allows : Policy → Packet → Bool
allows held p = false
allows unrestricted p = true
allows through_wireguard p = text_eq p.interface wireguard_interface
allows (through_proxy endpoint) p =
    p.is_tcp && ip_eq p.destination.ip endpoint.ip && p.destination.port == endpoint.port

-- The rules of a policy let the packets of every other user pass, and of the browser's user those
-- that the policy allows: none under the kill switch, all under direct egress, those into the
-- WireGuard interface, or the TCP segments to the proxy.
pub passes-rules_of :
    (uid : ℕ) (policy : Policy) (p : Packet)
    → passes (rules_of uid policy) p ≡ (not (p.uid == uid) || allows policy p)
unfolding passes rules_of
passes-rules_of uid held p = ground arith
passes-rules_of uid unrestricted p = ground arith
passes-rules_of uid through_wireguard p = ground arith
passes-rules_of uid (through_proxy endpoint) p = ground arith
