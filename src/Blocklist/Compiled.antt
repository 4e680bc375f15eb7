-- ===== src/Blocklist/Compiled.antt =====
-- src/blocklist.rs: what a compiled blocklist lists.
use xanh_tab.Prelude.{
  ℕ, ◌≡◌, refl, inl, inr, Bool, true, ◌||◌, List, [], ◌∷◌, ◌++◌, arith, length, Option-cases,
}
use xanh_tab.Text.{Text}
use xanh_tab.Fallible.{Fallible, done, bail, Fallible-cases}
use xanh_tab.Blocklist.{content, candidates, normalize_domain, parse_hosts_line, filter_map}
use xanh_tab.Blocklist.Compile.{
  Input, absent, unreadable, file, insert_domain, insert_all, read_input, read_inputs, insert_valid,
  validate_line, validate_lines, validate_hosts_file,
}
use xanh_tab.Blocklist.Order.{
  increasing, member, insert_all-increasing, insert_all-member, member-append,
}

module _ (is_ip : Text → Bool) where
  -- The domains of the lines that can be read.
  unfoldable pub domains_of_lines : List (Fallible Text) → List Text
  domains_of_lines [] = []
  domains_of_lines (done line ∷ lines) = parse_hosts_line is_ip line ++ domains_of_lines lines
  domains_of_lines (bail _ ∷ lines) = domains_of_lines lines

  unfoldable pub domains_of : List Input → List Text
  unfolding domains_of_lines
  domains_of [] = []
  domains_of (file lines ∷ inputs) = domains_of_lines lines ++ domains_of inputs
  domains_of (_ ∷ inputs) = domains_of inputs

  read_input_adds :
      (e : Text) (lines : List (Fallible Text)) (xs keys : List Text)
      → increasing xs ≡ true
      → read_input is_ip lines xs ≡ done keys
      → (increasing keys ≡ true)
        × (member e keys ≡ (member e (domains_of_lines lines) || member e xs))
  unfolding read_input domains_of_lines member
  read_input_adds e [] xs keys h r = ground arith
  read_input_adds e (bail m ∷ lines) xs keys h r = cc
  read_input_adds e (done line ∷ lines) xs keys h r =
      let found = parse_hosts_line is_ip line in
      ground (
        arith,
        read_input_adds e lines (insert_all found xs) keys (insert_all-increasing found xs h) r,
        insert_all-member e found xs,
        member-append e found (domains_of_lines lines),
      )

  read_inputs_adds :
      (e : Text) (inputs : List Input) (xs keys : List Text)
      → increasing xs ≡ true
      → read_inputs is_ip inputs xs ≡ done keys
      → (increasing keys ≡ true) × (member e keys ≡ (member e (domains_of inputs) || member e xs))
  unfolding read_inputs domains_of member
  read_inputs_adds e [] xs keys h r = ground arith
  read_inputs_adds e (absent ∷ inputs) xs keys h r = read_inputs_adds e inputs xs keys h r
  read_inputs_adds e (unreadable m ∷ inputs) xs keys h r = cc
  read_inputs_adds e (file lines ∷ inputs) xs keys h r =
      elim (Fallible-cases (read_input is_ip lines xs)) [
        | inr (m, q) ↦ ground arith
        | inl (more, q) ↦
            let (sorted, first) = read_input_adds e lines xs more h q in
            ground (
              arith,
              read_inputs_adds e inputs more keys sorted,
              first,
              member-append e (domains_of_lines lines) (domains_of inputs),
            )
      ]

  -- The keys of a compiled blocklist increase, so that they have no repetition, and they are the
  -- domains of the inputs' lines and no other.
  pub read_inputs_are_the_domains :
      (e : Text) (inputs : List Input) (keys : List Text)
      → read_inputs is_ip inputs [] ≡ done keys
      → (increasing keys ≡ true) × (member e keys ≡ member e (domains_of inputs))
  unfolding member increasing
  read_inputs_are_the_domains e inputs keys r =
      ground (arith, read_inputs_adds e inputs [] keys refl r)

  insert_valid_adds :
      (cs xs keys : List Text)
      → insert_valid is_ip cs xs ≡ done keys
      → insert_all (filter_map is_ip (normalize_domain is_ip) cs) xs ≡ keys
  unfolding insert_valid insert_all filter_map
  insert_valid_adds [] xs keys r = ground arith
  insert_valid_adds (c ∷ cs) xs keys r = elim (Option-cases (normalize_domain is_ip c)) [
    | inl q ↦ ground arith
    | inr (d, q) ↦ ground (arith, insert_valid_adds cs (insert_domain d xs) keys)
  ]

  validate_line_adds :
      (line : Text) (xs keys : List Text)
      → validate_line is_ip line xs ≡ done keys
      → insert_all (parse_hosts_line is_ip line) xs ≡ keys
  unfolding validate_line parse_hosts_line insert_all
  validate_line_adds line xs keys r =
      ground (arith, insert_valid_adds (candidates is_ip (content is_ip line)) xs keys)

  validate_lines_add :
      (lines : List (Fallible Text)) (xs keys : List Text)
      → validate_lines is_ip lines xs ≡ done keys
      → read_input is_ip lines xs ≡ done keys
  unfolding validate_lines read_input
  validate_lines_add [] xs keys r = r
  validate_lines_add (bail e ∷ lines) xs keys r = cc
  validate_lines_add (done line ∷ lines) xs keys r =
      elim (Fallible-cases (validate_line is_ip line xs)) [
        | inr (m, q) ↦ ground arith
        | inl (more, q) ↦
            rw (validate_line_adds line xs more q)
              (validate_lines_add lines more keys (ground arith))
      ]

  -- A hosts file that passes the check compiles, to as many domains as the check counts.
  pub validated_file_compiles :
      (lines : List (Fallible Text)) (n : ℕ)
      → validate_hosts_file is_ip (file lines) ≡ done n
      → (keys : List Text) × (read_inputs is_ip (file lines ∷ []) [] ≡ done keys)
        × (length keys ≡ n)
  unfolding validate_hosts_file read_inputs
  validated_file_compiles lines n r = elim (Fallible-cases (validate_lines is_ip lines [])) [
    | inr (m, q) ↦ ground arith
    | inl (keys, q) ↦
        let p = validate_lines_add lines [] keys q in (keys, ground arith, ground arith)
  ]
