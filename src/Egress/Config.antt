-- ===== src/Egress/Config.antt =====
-- src/egress.rs: `validate_wireguard_config`, its loop over the lines.
use xanh_tab.Prelude.{
  ℕ, ◌+◌, String, true, false, not, ◌&&◌, ◌||◌, Option, none, some, List, [], ◌∷◌, ltb, ◌==◌,
  length, if◌then◌else◌,
}
use xanh_tab.Text.{Text, codes, text_eq, one_of, trim, split_once, to_ascii_lowercase}
use xanh_tab.Text.Methods.{lines, starts_with_char, ends_with_char, eq_ignore_ascii_case}
use xanh_tab.Fallible.{Fallible, done, bail, ◌>>=◌, ◌>>◌, bail_if, context}
use xanh_tab.Egress.{Parsers}
use xanh_tab.Egress.Proxy.{SecretFile, owner_only, read_secret_file}
use xanh_tab.Egress.Wireguard.{
  WireGuardPolicy, Section, interface, peer, Progress, at_start, validate_u16, validate_nonzero_u16,
  validate_mtu, validate_wireguard_key, validate_cidr_list, validate_wireguard_endpoint,
  max_wireguard_config_bytes,
}

-- The closure `finish_peer`.
unfoldable pub finish_peer : Progress → Fallible (Unit {0})
finish_peer p =
    bail_if
      (ltb 0 p.peer_count
        && (not p.peer_public_key || not p.peer_allowed_ips || not p.peer_endpoint))
      "every WireGuard peer requires PublicKey, AllowedIPs, and Endpoint"

-- A line in brackets.
unfoldable pub enter_section : Text → Progress → Fallible Progress
unfolding text_eq to_ascii_lowercase finish_peer
enter_section line p =
    let name = to_ascii_lowercase line in
    if text_eq name (codes "[interface]")
    then (do
      finish_peer p
      let count = p.interface_count + 1
      bail_if (not (count == 1) || not (p.peer_count == 0))
          "WireGuard config must contain one Interface section before peers"
      done (record p { interface_count = count; section = some interface }))
    else if text_eq name (codes "[peer]")
    then (do
      bail_if (not (p.interface_count == 1)) "WireGuard Peer must follow the Interface section"
      finish_peer p
      done (record p {
        peer_count = p.peer_count + 1;
        peer_public_key = false;
        peer_allowed_ips = false;
        peer_endpoint = false;
        section = some peer;
      }))
    else bail "WireGuard config contains an unsupported section"

-- The directives that would let wg-quick run commands or change the resolver.
abbrev pub prohibited : List Text
prohibited =
    codes "dns"
    ∷ codes "preup"
    ∷ codes "postup"
    ∷ codes "predown"
    ∷ codes "postdown"
    ∷ codes "saveconfig"
    ∷ []

module _ (parsers : Parsers) where
  -- A directive of the Interface section.
  unfoldable pub interface_directive : Text → Text → Progress → Fallible Progress
  unfolding text_eq one_of
  interface_directive key value p =
      if text_eq key (codes "privatekey")
      then (do
        validate_wireguard_key parsers value "PrivateKey"
        bail_if p.interface_private_key "WireGuard Interface contains duplicate PrivateKey"
        done (record p { interface_private_key = true }))
      else if text_eq key (codes "address")
      then (do
        validate_cidr_list parsers value "Interface Address"
        done (record p { interface_address = true }))
      else if text_eq key (codes "listenport")
      then (do validate_nonzero_u16 value "ListenPort"; done p)
      else if text_eq key (codes "mtu")
      then (do validate_mtu value; done p)
      else if text_eq key (codes "table")
      then (do
        bail_if (p.table_off || not (eq_ignore_ascii_case value (codes "off")))
            "WireGuard Interface must contain exactly one Table=off"
        done (record p { table_off = true }))
      else if one_of key prohibited
      then bail "WireGuard config contains a prohibited wg-quick directive"
      else bail "WireGuard Interface contains an unsupported directive"

  -- A directive of a Peer section.
  unfoldable pub peer_directive : Text → Text → Progress → Fallible Progress
  unfolding text_eq
  peer_directive key value p =
      if text_eq key (codes "publickey")
      then (do
        validate_wireguard_key parsers value "PublicKey"
        bail_if p.peer_public_key "WireGuard Peer contains duplicate PublicKey"
        done (record p { peer_public_key = true }))
      else if text_eq key (codes "presharedkey")
      then (do validate_wireguard_key parsers value "PresharedKey"; done p)
      else if text_eq key (codes "allowedips")
      then (do
        (ipv4, ipv6) ← validate_cidr_list parsers value "AllowedIPs"
        done (record p {
          ipv4_default = p.ipv4_default || ipv4;
          ipv6_default = p.ipv6_default || ipv6;
          peer_allowed_ips = true;
        }))
      else if text_eq key (codes "endpoint")
      then (do
        validate_wireguard_endpoint parsers value
        bail_if p.peer_endpoint "WireGuard Peer contains duplicate Endpoint"
        done (record p { peer_endpoint = true }))
      else if text_eq key (codes "persistentkeepalive")
      then (do validate_u16 value "PersistentKeepalive"; done p)
      else bail "WireGuard Peer contains an unsupported directive"

  unfoldable pub directive : Option Section → Text → Text → Progress → Fallible Progress
  directive none key value p = bail "WireGuard directive appears outside a section"
  directive (some interface) key value p = interface_directive key value p
  directive (some peer) key value p = peer_directive key value p

  -- A line without its comment.
  unfoldable pub without_comment : Text → Text
  unfolding split_once trim
  without_comment raw_line =
      trim (elim (split_once b'#' raw_line) [ none ↦ raw_line | some (content, _) ↦ content ])

  -- What the loop does with a line. The source's messages also have the line's number.
  unfoldable pub read_line : Text → Progress → Fallible Progress
  unfolding split_once trim to_ascii_lowercase
  read_line line p =
      if length line == 0
      then done p
      else if starts_with_char line b'[' && ends_with_char line b']'
      then enter_section line p
      else (do
        (key, value) ← context (split_once b'=' line) "invalid WireGuard line"
        bail_if (length (trim value) == 0) "WireGuard value must not be empty"
        directive p.section (to_ascii_lowercase (trim key)) (trim value) p)

  unfoldable pub read_lines : List Text → Progress → Fallible Progress
  read_lines [] p = done p
  read_lines (raw_line ∷ rest) p = do
    next ← read_line (without_comment raw_line) p
    read_lines rest next

  -- What follows the loop.
  unfoldable pub conclude : Progress → Fallible WireGuardPolicy
  unfolding finish_peer
  conclude p = do
    finish_peer p
    bail_if
        (not (p.interface_count == 1)
          || not p.interface_private_key
          || not p.interface_address
          || not p.table_off)
        "WireGuard Interface requires PrivateKey, Address, and Table=off"
    bail_if (p.peer_count == 0 || (not p.ipv4_default && not p.ipv6_default))
        "WireGuard config requires at least one full-tunnel default route"
    done (record { ipv4_default = p.ipv4_default; ipv6_default = p.ipv6_default })

  -- `validate_wireguard_config`
  unfoldable pub validate_wireguard_config : Text → Fallible WireGuardPolicy
  unfolding lines
  validate_wireguard_config raw = do p ← read_lines (lines raw) at_start; conclude p

  -- `validate_wireguard_config_file`
  unfoldable pub validate_wireguard_config_file :
      String → Option SecretFile → Option ℕ → Fallible WireGuardPolicy
  validate_wireguard_config_file path found required_uid = do
    raw ← read_secret_file path found max_wireguard_config_bytes owner_only required_uid
    validate_wireguard_config raw
