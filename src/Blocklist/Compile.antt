-- ===== src/Blocklist/Compile.antt =====
-- src/blocklist.rs: the domains of hosts files, in a set, and the check of such a file.
--
-- A `BTreeSet` of domains is the increasing list of them: UTF-8 is ordered as its code points are.
-- A line that cannot be read is a failure of its own.
use xanh_tab.Prelude.{
  ℕ, String, Bool, true, false, none, some, List, [], ◌∷◌, ltb, ◌==◌, if◌then◌else◌, length,
}
use xanh_tab.Text.{Text, text_eq}
use xanh_tab.Fallible.{Fallible, done, bail, ◌>>=◌}
use xanh_tab.Blocklist.{content, candidates, normalize_domain, parse_hosts_line}

-- An input of `compile_hosts`.
pub data Input : Type 0 where
  absent : Input
  unreadable : String → Input
  file : List (Fallible Text) → Input

unfoldable pub text_lt : Text → Text → Bool
text_lt [] [] = false
text_lt [] (_ ∷ _) = true
text_lt (_ ∷ _) [] = false
text_lt (c ∷ s) (d ∷ t) = let rest = text_lt s t in if c == d then rest else ltb c d

-- `BTreeSet::insert`
unfoldable pub insert_domain : Text → List Text → List Text
unfolding text_lt text_eq
insert_domain domain [] = domain ∷ []
insert_domain domain (x ∷ xs) =
    let rest = x ∷ insert_domain domain xs in
    if text_eq domain x then x ∷ xs else if text_lt domain x then domain ∷ x ∷ xs else rest

unfoldable pub insert_all : List Text → List Text → List Text
unfolding insert_domain
insert_all [] domains = domains
insert_all (d ∷ ds) domains = insert_all ds (insert_domain d domains)

module _ (is_ip : Text → Bool) where
  -- The loop over the lines of one input.
  unfoldable pub read_input : List (Fallible Text) → List Text → Fallible (List Text)
  unfolding insert_all parse_hosts_line
  read_input [] domains = done domains
  read_input (bail e ∷ lines) domains = bail e
  read_input (done line ∷ lines) domains =
      read_input lines (insert_all (parse_hosts_line is_ip line) domains)

  -- The loop over the inputs of `compile_hosts`.
  unfoldable pub read_inputs : List Input → List Text → Fallible (List Text)
  unfolding read_input
  read_inputs [] domains = done domains
  read_inputs (absent ∷ inputs) domains = read_inputs inputs domains
  read_inputs (unreadable e ∷ inputs) domains = bail e
  read_inputs (file lines ∷ inputs) domains = elim (read_input lines domains) [
    | done more ↦ read_inputs inputs more
    | bail e ↦ bail e
  ]

  -- The candidates of a line of `validate_hosts_file`, each of which must be a domain.
  unfoldable pub insert_valid : List Text → List Text → Fallible (List Text)
  unfolding insert_domain normalize_domain
  insert_valid [] domains = done domains
  insert_valid (c ∷ cs) domains = elim (normalize_domain is_ip c) [
    | none ↦ bail "contains an invalid hostname"
    | some domain ↦ insert_valid cs (insert_domain domain domains)
  ]

  unfoldable pub validate_line : Text → List Text → Fallible (List Text)
  unfolding insert_valid content candidates
  validate_line line domains =
      let found = candidates is_ip (content is_ip line) in
      if length (content is_ip line) == 0
      then done domains
      else if length found == 0
      then bail "does not contain a hostname"
      else insert_valid found domains

  unfoldable pub validate_lines : List (Fallible Text) → List Text → Fallible (List Text)
  unfolding validate_line
  validate_lines [] domains = done domains
  validate_lines (bail e ∷ lines) domains = bail e
  validate_lines (done line ∷ lines) domains = elim (validate_line line domains) [
    | done more ↦ validate_lines lines more
    | bail e ↦ bail e
  ]

  -- `validate_hosts_file`: the number of domains; a message leaves out the path and the line.
  unfoldable pub validate_hosts_file : Input → Fallible ℕ
  unfolding validate_lines
  validate_hosts_file absent = bail "failed to read"
  validate_hosts_file (unreadable e) = bail e
  validate_hosts_file (file lines) = do domains ← validate_lines lines []; done (length domains)
