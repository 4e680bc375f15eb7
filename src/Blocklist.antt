-- ===== src/Blocklist.antt =====
-- src/blocklist.rs: the hosts that a session may not visit, and the compiler of hosts files.
--
-- The fst set of the `fst` crate is its `contains` and its `len`. `is_ip` stands for
-- `parse::<IpAddr>().is_ok()`.
pub mod Matching
pub mod Compile
pub mod Order
pub mod Compiled
pub mod Files
pub mod Merged
pub mod Tool
mod Examples
use xanh_tab.Prelude.{
  ℕ, ◌+◌, ◌%◌, ◌^◌, Bool, true, false, not, ◌&&◌, ◌||◌, Option, none, some, List, [], ◌∷◌, ◌++◌,
  leb, ltb, ◌==◌, if◌then◌else◌, all, is_some_and, length,
}
use xanh_tab.Text.{
  Text, codes, text_eq, byte_len, is_ascii_alphanumeric, to_ascii_lowercase, trim, trim_end_matches,
  split, split_whitespace, join, contains_char, first, last,
}

pub record FstSet : Type 0 where
  pub contains : Text → Bool
  pub len : ℕ

-- `Blocklist`
pub record Blocklist : Type 0 where
  pub set : Option FstSet
  pub hits : ℕ

-- `Blocklist::default`
abbrev pub empty : Blocklist
empty = record { set = none; hits = 0 }

unfoldable pub normalize_host : Text → Text
unfolding trim trim_end_matches to_ascii_lowercase
normalize_host host = to_ascii_lowercase (trim_end_matches (λ c. c == b'.') (trim host))

-- The loop of `Blocklist::contains`: each suffix of the labels, the longest first.
unfoldable pub any_suffix : (Text → Bool) → List Text → Bool
unfolding join
any_suffix set [] = false
any_suffix set (label ∷ labels) = set (join (b'.' ∷ []) (label ∷ labels)) || any_suffix set labels

unfoldable pub is_listed : Option FstSet → Text → Bool
unfolding any_suffix normalize_host split
is_listed none host = false
is_listed (some set) host = any_suffix set.contains (split b'.' (normalize_host host))

-- `Blocklist::contains`: the answer, and the list with its counter of hits.
unfoldable pub contains : Blocklist → Text → Bool × Blocklist
unfolding is_listed
contains b host =
    if is_listed b.set host then (true, record b { hits = (b.hits + 1) % 2 ^ 64 }) else (false, b)

unfoldable pub len : Blocklist → ℕ
len b = elim b.set [ none ↦ 0 | some set ↦ set.len ]

unfoldable pub is_empty : Blocklist → Bool
unfolding len
is_empty b = len b == 0

-- One label of a host name.
unfoldable pub label_ok : Text → Bool
unfolding byte_len first last is_ascii_alphanumeric
label_ok label =
    not (length label == 0)
    && leb (byte_len label) 63
    && is_some_and (first label) is_ascii_alphanumeric
    && is_some_and (last label) is_ascii_alphanumeric
    && all (λ b. is_ascii_alphanumeric b || b == b'-') label

module _ (is_ip : Text → Bool) where
  unfoldable pub normalize_domain : Text → Option Text
  unfolding normalize_host text_eq contains_char byte_len split label_ok
  normalize_domain candidate =
      let host = normalize_host candidate in
      if length host == 0
        || text_eq host (codes "localhost")
        || not (contains_char host b'.')
        || ltb 253 (byte_len host)
        || is_ip host
      then none
      else if all label_ok (split b'.' host)
      then some host
      else none

  -- What stands before the first `#`, trimmed.
  unfoldable pub content : Text → Text
  unfolding split trim
  content line = elim (split b'#' line) [ [] ↦ [] | piece ∷ _ ↦ trim piece ]

  -- The words of a line without a leading address.
  unfoldable pub candidates : Text → List Text
  unfolding split_whitespace
  candidates text = elim (split_whitespace text) [
    | [] ↦ []
    | part ∷ parts ↦ if is_ip part then parts else part ∷ parts
  ]

  unfoldable pub filter_map : (Text → Option Text) → List Text → List Text
  filter_map f [] = []
  filter_map f (x ∷ xs) = elim (f x) [ none ↦ filter_map f xs | some y ↦ y ∷ filter_map f xs ]

  unfoldable pub parse_hosts_line : Text → List Text
  unfolding content candidates filter_map normalize_domain
  parse_hosts_line line =
      let text = content line in
      if length text == 0 then [] else filter_map normalize_domain (candidates text)
