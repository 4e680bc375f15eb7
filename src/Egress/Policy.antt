-- ===== src/Egress/Policy.antt =====
-- What an accepted WireGuard configuration cannot do.
use xanh_tab.Prelude.{
  ◌≡◌, refl, ◌⊎◌, inl, inr, Bool, true, false, ◌&&◌, ◌||◌, arith, Option, none, some, List, [], ◌∷◌,
  All, Bool-cases, Option-cases,
}
use xanh_tab.Text.{Text, codes, text_eq, one_of, trim, split_once, to_ascii_lowercase}
use xanh_tab.Text.Laws.{text_eq_iff}
use xanh_tab.Text.Methods.{lines, starts_with_char, ends_with_char}
use xanh_tab.Fallible.{done, Fallible-cases, is_done}
use xanh_tab.Egress.{Parsers}
use xanh_tab.Egress.Wireguard.{WireGuardPolicy, Section, interface, peer, Progress, at_start}
use xanh_tab.Egress.Routes.{Any, RoutesAll, found, read_lines-RoutesAll}
use xanh_tab.Egress.Config.{
  prohibited, interface_directive, peer_directive, directive, without_comment, read_line,
  read_lines, conclude, validate_wireguard_config,
}

-- The key of a directive, of a line without its comment.
abbrev pub key_of : Text → Option Text
key_of line = elim (split_once b'=' line) [
  | none ↦ none
  | some (key, _) ↦ some (to_ascii_lowercase (trim key))
]

abbrev pub is_header : Text → Bool
is_header line = starts_with_char line b'[' && ends_with_char line b']'

-- A line is a header, has no key, or a key that is not prohibited.
abbrev pub Harmless : Text → Type 0
Harmless line =
    (is_header line ≡ true)
    ⊎ (elim (key_of line) [ none ↦ false | some key ↦ one_of key prohibited ] ≡ false)

literal_is_harmless :
    (key literal : Text)
    → text_eq key literal ≡ true
    → one_of literal prohibited ≡ false
    → one_of key prohibited ≡ false
literal_is_harmless key literal e h = rw ((text_eq_iff key literal).0 e) h

module _ (parsers : Parsers) where
  interface_directive_is_harmless :
      (key value : Text) (p : Progress)
      → is_done (interface_directive parsers key value p) ≡ true
      → one_of key prohibited ≡ false
  unfolding interface_directive
  interface_directive_is_harmless key value p h = ground (
    arith,
    literal_is_harmless key (codes "privatekey"),
    literal_is_harmless key (codes "address"),
    literal_is_harmless key (codes "listenport"),
    literal_is_harmless key (codes "mtu"),
    literal_is_harmless key (codes "table"),
  )

  peer_directive_is_harmless :
      (key value : Text) (p : Progress)
      → is_done (peer_directive parsers key value p) ≡ true
      → one_of key prohibited ≡ false
  unfolding peer_directive one_of
  peer_directive_is_harmless key value p h = ground (
    arith,
    literal_is_harmless key (codes "publickey"),
    literal_is_harmless key (codes "presharedkey"),
    literal_is_harmless key (codes "allowedips"),
    literal_is_harmless key (codes "endpoint"),
    literal_is_harmless key (codes "persistentkeepalive"),
  )

  directive_is_harmless :
      (section : Option Section) (key value : Text) (p : Progress)
      → is_done (directive parsers section key value p) ≡ true
      → one_of key prohibited ≡ false
  unfolding directive
  directive_is_harmless none key value p h = cc
  directive_is_harmless (some interface) key value p h =
      interface_directive_is_harmless key value p h
  directive_is_harmless (some peer) key value p h = peer_directive_is_harmless key value p h

  read_line-Harmless :
      (line : Text) (p : Progress) → is_done (read_line parsers line p) ≡ true → Harmless line
  unfolding read_line
  read_line-Harmless [] p h = inr refl
  read_line-Harmless (c ∷ rest) p h = elim (Bool-cases (is_header (c ∷ rest))) [
    | inl header ↦ inl header
    | inr plain ↦ elim (Option-cases (split_once b'=' (c ∷ rest))) [
      | inl q ↦ inr (rw q refl)
      | inr ((key, value), q) ↦ inr (
          ground (
            arith,
            q,
            plain,
            directive_is_harmless p.section (to_ascii_lowercase (trim key)) (trim value) p,
          ))
    ]
  ]

  read_lines-Harmless :
      (raw : List Text) (p : Progress)
      → is_done (read_lines parsers raw p) ≡ true
      → All (λ line. Harmless (without_comment parsers line)) raw
  unfolding read_lines
  read_lines-Harmless [] p h = tt
  read_lines-Harmless (line ∷ rest) p h =
      elim (Fallible-cases (read_line parsers (without_comment parsers line) p)) [
        | inr (e, q) ↦ ground (arith, q)
        | inl (next, q) ↦ (
          read_line-Harmless (without_comment parsers line) p (rw q refl),
          read_lines-Harmless rest next (ground (arith, q)),
        )
      ]

  -- Of an accepted configuration no line outside a section header has a key that runs a command or
  -- changes the resolver, and a line `AllowedIPs` has a default route: the unspecified address with
  -- the prefix 0. The policy tells that there is one.
  pub accepted_is_Harmless :
      (raw : Text) (policy : WireGuardPolicy)
      → validate_wireguard_config parsers raw ≡ done policy
      → All (λ line. Harmless (without_comment parsers line)) (lines raw)
        × ((policy.ipv4_default || policy.ipv6_default) ≡ true)
        × Any (λ line. RoutesAll parsers (without_comment parsers line)) (lines raw)
  unfolding validate_wireguard_config conclude
  accepted_is_Harmless raw policy h =
      elim (Fallible-cases (read_lines parsers (lines raw) at_start)) [
        | inr (e, q) ↦ ground (arith, q)
        | inl (p, q) ↦
            let routed : found p ≡ true = ground (arith, h, q) in
            (
              read_lines-Harmless (lines raw) at_start (rw q refl),
              ground (arith, q),
              elim (read_lines-RoutesAll parsers (lines raw) at_start p q routed) [
                | inl never ↦ cc
                | inr routes ↦ routes
              ],
            )
      ]
