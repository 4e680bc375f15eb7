-- ===== src/Egress/Routes.antt =====
-- src/egress.rs: the default routes of a WireGuard configuration.
use xanh_tab.Prelude.{
  ℕ, ◌≡◌, sym, subst, ◌∙◌, ◌⊎◌, inl, inr, String, Bool, true, false, ◌&&◌, ◌||◌, arith, Option,
  none, some, List, [], ◌∷◌, Bool-cases, Option-cases,
}
use xanh_tab.Text.{Text, codes, text_eq, trim, split, split_once, to_ascii_lowercase}
use xanh_tab.Text.Laws.{text_eq_iff}
use xanh_tab.Text.Methods.{parse_unsigned, starts_with_char, ends_with_char}
use xanh_tab.Fallible.{done, Fallible-cases}
use xanh_tab.Egress.{IpAddr, v4, v6, Parsers}
use xanh_tab.Egress.Wireguard.{
  Section, interface, peer, Progress, route_of, validate_cidr, validate_cidrs, validate_cidr_list,
}
use xanh_tab.Egress.Config.{
  interface_directive, peer_directive, directive, without_comment, enter_section, read_line,
  read_lines,
}

-- One at least has the property.
abbrev pub Any : {A : Type 0} → (A → Type 0) → List A → Type 0
Any P [] = ⊥
Any P (x ∷ xs) = P x ⊎ Any P xs

-- The unspecified address of either family.
abbrev pub IsUnspecified : IpAddr → Type 0
IsUnspecified (v4 n) = n ≡ 0
IsUnspecified (v6 n) = n ≡ 0

-- What a section has found: a default route.
abbrev pub found : Progress → Bool
found p = p.ipv4_default || p.ipv6_default

module _ (parsers : Parsers) where
  -- The unspecified address with the prefix 0.
  pub record IsDefaultRoute (piece : Text) : Type 0 where
    pub address : Text
    pub prefix : Text
    pub ip : IpAddr
    pub splits : split_once b'/' (trim piece) ≡ some (address, prefix)
    pub parses : parsers.parse_ip address ≡ some ip
    pub whole : IsUnspecified ip
    pub every : parse_unsigned 255 prefix ≡ some 0

  -- A line `AllowedIPs = ...` with a default route.
  pub record RoutesAll (line : Text) : Type 0 where
    pub key : Text
    pub value : Text
    pub assigns : split_once b'=' line ≡ some (key, value)
    pub allows : to_ascii_lowercase (trim key) ≡ codes "allowedips"
    pub covers : Any IsDefaultRoute (split b',' (trim value))

  route_of-default :
      (name : String) (ip : IpAddr) (bits : ℕ) (four six : Bool)
      → route_of parsers name ip bits ≡ done (four, six)
      → (four || six) ≡ true
      → IsUnspecified ip × (bits ≡ 0)
  unfolding route_of
  route_of-default name (v4 n) bits four six h d = ground (arith, h, d)
  route_of-default name (v6 n) bits four six h d = ground (arith, h, d)

  validate_cidr-IsDefaultRoute :
      (name : String) (piece : Text) (four six : Bool)
      → validate_cidr parsers name piece ≡ done (four, six)
      → (four || six) ≡ true
      → IsDefaultRoute piece
  unfolding validate_cidr
  validate_cidr-IsDefaultRoute name piece four six h d =
      elim (Option-cases (split_once b'/' (trim piece))) [
        | inl q ↦ ground (arith, h)
        | inr ((address, prefix), q) ↦ elim (Option-cases (parsers.parse_ip address)) [
          | inl r ↦ ground (arith, h)
          | inr (ip, r) ↦ elim (Option-cases (parse_unsigned 255 prefix)) [
            | inl t ↦ ground (arith, h)
            | inr (bits, t) ↦
                let (whole, zero) =
                  route_of-default name ip bits four six (ground (arith, h, q, r, t)) d in
                record {
                  address = address;
                  prefix = prefix;
                  ip = ip;
                  splits = q;
                  parses = r;
                  whole = whole;
                  every = rw zero at t;
                }
          ]
        ]
      ]

  validate_cidrs-Any :
      (name : String) (pieces : List Text) (four six : Bool) (r : Bool × Bool)
      → validate_cidrs parsers name pieces (four, six) ≡ done r
      → (r.0 || r.1) ≡ true
      → ((four || six) ≡ true) ⊎ Any IsDefaultRoute pieces
  unfolding validate_cidrs
  validate_cidrs-Any name [] four six r h d = ground (arith, h, d)
  validate_cidrs-Any name (piece ∷ pieces) four six r h d =
      elim (Fallible-cases (validate_cidr parsers name piece)) [
        | inr (e, q) ↦ ground (arith, h)
        | inl ((a, b), q) ↦
            elim (validate_cidrs-Any name pieces (four || a) (six || b) r (ground (arith, h, q))
              d) [
                | inr later ↦ inr (inr later)
                | inl either ↦ elim (Bool-cases (four || six)) [
                  | inl before ↦ inl before
                  | inr none_yet ↦ inr (
                      inl (
                        validate_cidr-IsDefaultRoute name piece a b q
                          (ground (arith, either, none_yet))))
                ]
              ]
      ]

  allowed_ips :
      (value : Text) (p p' : Progress)
      → peer_directive parsers (codes "allowedips") value p ≡ done p'
      → found p' ≡ true
      → (found p ≡ true) ⊎ Any IsDefaultRoute (split b',' value)
  unfolding peer_directive validate_cidr_list
  allowed_ips value p p' h d =
      elim (Fallible-cases (validate_cidr_list parsers value "AllowedIPs")) [
        | inr (e, q) ↦ ground (arith, h)
        | inl ((a, b), q) ↦ elim (Bool-cases (a || b)) [
          | inl new ↦
              elim (validate_cidrs-Any "AllowedIPs" (split b',' value) false false (a, b) q new) [
                | inl never ↦ cc
                | inr routes ↦ inr routes
              ]
          | inr old ↦ inl (ground (arith, h, d, old))
        ]
      ]

  peer_directive-routes :
      (key value : Text) (p p' : Progress)
      → peer_directive parsers key value p ≡ done p'
      → found p' ≡ true
      → (found p ≡ true) ⊎ ((key ≡ codes "allowedips") × Any IsDefaultRoute (split b',' value))
  unfolding peer_directive
  peer_directive-routes key value p p' h d = elim (Bool-cases (text_eq key (codes "allowedips"))) [
    | inr other ↦ inl (ground (arith, h, d, other))
    | inl same ↦
        let e = (text_eq_iff key (codes "allowedips")).0 same in
        elim (allowed_ips value p p' (subst (λ k. peer_directive parsers k value p ≡ done p') e h)
          d) [ inl before ↦ inl before | inr routes ↦ inr (e, routes) ]
  ]

  interface_directive-routes :
      (key value : Text) (p p' : Progress)
      → interface_directive parsers key value p ≡ done p'
      → found p' ≡ found p
  unfolding interface_directive
  interface_directive-routes key value p p' h = ground (arith, h)

  enter_section-routes :
      (line : Text) (p p' : Progress) → enter_section line p ≡ done p' → found p' ≡ found p
  unfolding enter_section
  enter_section-routes line p p' h = ground (arith, h)

  directive-routes :
      (section : Option Section) (key value : Text) (p p' : Progress)
      → directive parsers section key value p ≡ done p'
      → found p' ≡ true
      → (found p ≡ true) ⊎ ((key ≡ codes "allowedips") × Any IsDefaultRoute (split b',' value))
  unfolding directive
  directive-routes none key value p p' h d = cc
  directive-routes (some interface) key value p p' h d =
      inl (sym (interface_directive-routes key value p p' h) ∙ d)
  directive-routes (some peer) key value p p' h d = peer_directive-routes key value p p' h d

  read_line-RoutesAll :
      (line : Text) (p p' : Progress)
      → read_line parsers line p ≡ done p'
      → found p' ≡ true
      → (found p ≡ true) ⊎ RoutesAll line
  unfolding read_line
  read_line-RoutesAll [] p p' h d = inl (ground (arith, h, d))
  read_line-RoutesAll (c ∷ rest) p p' h d =
      let line = c ∷ rest in
      elim (Bool-cases (starts_with_char line b'[' && ends_with_char line b']')) [
        | inl header ↦ inl (sym (enter_section-routes line p p' (ground (arith, h, header))) ∙ d)
        | inr plain ↦ elim (Option-cases (split_once b'=' line)) [
          | inl q ↦ ground (arith, h, plain, q)
          | inr ((key, value), q) ↦
              elim (directive-routes p.section (to_ascii_lowercase (trim key)) (trim value) p p'
                (ground (arith, h, plain, q)) d) [
                  | inl before ↦ inl before
                  | inr (allows, covers) ↦ inr (record {
                    key = key;
                    value = value;
                    assigns = q;
                    allows = allows;
                    covers = covers;
                  })
                ]
        ]
      ]

  -- What the loop has found in the end, it had found before or stands in one of its lines.
  pub read_lines-RoutesAll :
      (raw : List Text) (p p' : Progress)
      → read_lines parsers raw p ≡ done p'
      → found p' ≡ true
      → (found p ≡ true) ⊎ Any (λ line. RoutesAll (without_comment parsers line)) raw
  unfolding read_lines
  read_lines-RoutesAll [] p p' h d = ground (arith, h, d)
  read_lines-RoutesAll (line ∷ rest) p p' h d =
      elim (Fallible-cases (read_line parsers (without_comment parsers line) p)) [
        | inr (e, q) ↦ ground (arith, h, q)
        | inl (next, q) ↦ elim (read_lines-RoutesAll rest next p' (ground (arith, h, q)) d) [
          | inr later ↦ inr (inr later)
          | inl before ↦ elim (read_line-RoutesAll (without_comment parsers line) p next q before) [
            | inl earlier ↦ inl earlier
            | inr here ↦ inr (inl here)
          ]
        ]
      ]
