-- ===== src/Blocklist/Merged.antt =====
-- src/blocklist.rs: a merge is atomic, and exact.
use xanh_tab.Prelude.{
  ℕ, String, ◌≡◌, refl, ◌⊎◌, inl, inr, Bool, true, false, ◌||◌, Option, some, List, [], arith,
  length, Option-cases,
}
use xanh_tab.Text.{Text}
use xanh_tab.Fallible.{Fallible, done, bail, Fallible-cases, is_done}
use xanh_tab.Blocklist.Compile.{Input, read_inputs}
use xanh_tab.Blocklist.Order.{increasing, member}
use xanh_tab.Blocklist.Compiled.{domains_of, read_inputs_are_the_domains}
use xanh_tab.Blocklist.Files.{
  Crate, output, custom, custom_temporary, merged, Call, create_dir_all, create, finish, rename,
  read, Files, write_keys, compile_hosts, merge, clean_up, merge_hosts_with_base,
}

-- What the fst crate documents: keys that increase make a set of just these keys, and a union has
-- the keys of both, in order.
pub record IsCrate {Fst : Type 0} (crate : Crate Fst) : Type 0 where
  pub builds :
      (keys : List Text)
      → increasing keys ≡ true
      → (fst : Fst) × (crate.build keys ≡ some fst) × (crate.stream fst ≡ keys)
  pub union-increasing : (a b : Fst) → increasing (crate.union a b) ≡ true
  pub union-member :
      (e : Text) (a b : Fst)
      → member e (crate.union a b) ≡ (member e (crate.stream a) || member e (crate.stream b))
  pub len_lem : (fst : Fst) → crate.len fst ≡ length (crate.stream fst)

module _ {Fst : Type 0} (crate : Crate Fst) (h : IsCrate crate) (is_ip : Text → Bool)
    (fault : Call → Option String) where
  -- Writing the output fails and leaves it, or puts there the FST of the keys.
  write_output-outcome :
      (keys : List Text) (files : Files crate is_ip fault)
      → increasing keys ≡ true
      → let (r, after) = write_keys crate is_ip fault output merged keys files in
        ((e : String) × (r ≡ bail e) × (after output ≡ files output))
        ⊎ ((fst : Fst) × (r ≡ done tt)
            × (after output ≡ some (some fst))
            × (crate.stream fst ≡ keys))
  unfolding write_keys
  write_output-outcome keys files sorted =
      let (fst, built, streamed) = h.builds keys sorted in
      elim (Option-cases (fault (create merged))) [
        | inr (e, q) ↦ inl (e, ground arith, ground arith)
        | inl q1 ↦ elim (Option-cases (fault (finish merged))) [
          | inr (e, q) ↦ inl (e, ground arith, ground arith)
          | inl q2 ↦ elim (Option-cases (fault (rename output))) [
            | inr (e, q) ↦ inl (e, ground arith, ground arith)
            | inl q3 ↦ inr (fst, ground arith, ground arith, streamed)
          ]
        ]
      ]

  -- Writing the custom FST leaves the output.
  write_custom-outcome :
      (keys : List Text) (files : Files crate is_ip fault)
      → increasing keys ≡ true
      → let (r, after) = write_keys crate is_ip fault custom custom_temporary keys files in
        (after output ≡ files output)
        × (((e : String) × (r ≡ bail e))
            ⊎ ((fst : Fst) × (r ≡ done tt)
                × (after custom ≡ some (some fst))
                × (crate.stream fst ≡ keys)))
  unfolding write_keys
  write_custom-outcome keys files sorted =
      let (fst, built, streamed) = h.builds keys sorted in
      elim (Option-cases (fault (create custom_temporary))) [
        | inr (e, q) ↦ (ground arith, inl (e, ground arith))
        | inl q1 ↦ elim (Option-cases (fault (finish custom_temporary))) [
          | inr (e, q) ↦ (ground arith, inl (e, ground arith))
          | inl q2 ↦ elim (Option-cases (fault (rename custom))) [
            | inr (e, q) ↦ (ground arith, inl (e, ground arith))
            | inl q3 ↦ (ground arith, inr (fst, ground arith, ground arith, streamed))
          ]
        ]
      ]

  -- Compiling the inputs leaves the output, and where it succeeds the custom FST has the domains.
  compile-outcome :
      (e : Text) (inputs : List Input) (files : Files crate is_ip fault)
      → let (r, after) = compile_hosts crate is_ip fault custom custom_temporary inputs files in
        (after output ≡ files output)
        × (((m : String) × (r ≡ bail m))
            ⊎ ((n : ℕ) × (fst : Fst) × (r ≡ done n)
                × (after custom ≡ some (some fst))
                × (member e (crate.stream fst) ≡ member e (domains_of is_ip inputs))))
  unfolding compile_hosts
  compile-outcome e inputs files = elim (Fallible-cases (read_inputs is_ip inputs [])) [
    | inr (m, q) ↦ (ground arith, inl (m, ground arith))
    | inl (keys, q) ↦
        let (sorted, exact) = read_inputs_are_the_domains is_ip e inputs keys q in
        let (kept, outcome) = write_custom-outcome keys files sorted in
        elim (Option-cases (fault create_dir_all)) [
          | inr (m, p) ↦ (ground arith, inl (m, ground arith))
          | inl p ↦ elim outcome [
            | inl (m, failed) ↦ (ground arith, inl (m, ground arith))
            | inr (fst, wrote, at_custom, streamed) ↦ (
              ground arith,
              inr (length keys, fst, ground arith, ground arith, rw streamed exact),
            )
          ]
        ]
  ]

  -- The outcomes of a merge: nothing happened to the output, or it is the union, and is counted.
  abbrev pub MergeOutcome :
      Text
      → List Input
      → Fst
      → Fallible ℕ × Files crate is_ip fault
      → Files crate is_ip fault
      → Type 0
  MergeOutcome e inputs base x files =
      ((is_done x.0 ≡ false) × (x.1 output ≡ files output))
      ⊎ ((fst : Fst) × (x.1 output ≡ some (some fst))
          × (x.0 ≡ done (crate.len fst))
          × (increasing (crate.stream fst) ≡ true)
          × (member e (crate.stream fst)
              ≡ (member e (crate.stream base) || member e (domains_of is_ip inputs))))

  merge-MergeOutcome :
      (e : Text) (inputs : List Input) (base : Fst) (files : Files crate is_ip fault)
      → MergeOutcome e inputs base (merge crate is_ip fault base inputs files) files
  unfolding merge
  merge-MergeOutcome e inputs base files =
      let (kept, outcome) = compile-outcome e inputs files in
      let after = (compile_hosts crate is_ip fault custom custom_temporary inputs files).1 in
      elim outcome [
        | inl (m, failed) ↦ inl (ground arith, ground arith)
        | inr (n, mid, compiled, at_custom, exact) ↦ elim (Option-cases (fault (read custom))) [
          | inr (m, q) ↦ inl (ground arith, ground arith)
          | inl q ↦
              elim (write_output-outcome (crate.union base mid) after
                (h.union-increasing base mid)) [
                  | inl (m, failed, left) ↦ inl (ground arith, ground arith)
                  | inr (fst, wrote, at_output, streamed) ↦ inr (
                    fst,
                    ground arith,
                    ground (arith, h.len_lem fst, streamed),
                    rw streamed (h.union-increasing base mid),
                    rw (streamed, h.union-member e base mid, exact) refl,
                  )
                ]
        ]
      ]

  clean_up-output :
      (x : Fallible ℕ × Files crate is_ip fault)
      → ((clean_up crate is_ip fault x).0 ≡ x.0)
        × ((clean_up crate is_ip fault x).1 output ≡ x.1 output)
  clean_up-output (done n, files) = (refl, refl)
  clean_up-output (bail e, files) = (refl, refl)

  -- A merge either fails and leaves the output as it was, or it puts there an FST whose keys
  -- increase and are those of the base and the domains of the inputs, and returns their number.
  pub merge_is_atomic :
      (e : Text) (inputs : List Input) (base : Fst) (files : Files crate is_ip fault)
      → MergeOutcome e inputs base
          (merge_hosts_with_base crate is_ip fault (done base) inputs files)
          files
  unfolding merge_hosts_with_base
  merge_is_atomic e inputs base files = elim (Option-cases (fault create_dir_all)) [
    | inr (m, q) ↦ inl (ground arith, ground arith)
    | inl q ↦
        let (same_result, same_output) =
          clean_up-output (merge crate is_ip fault base inputs files) in
        elim (merge-MergeOutcome e inputs base files) [
          | inl (failed, left) ↦ inl (ground arith, ground arith)
          | inr (fst, at_output, counted, sorted, exact) ↦
              inr (fst, ground arith, ground arith, sorted, exact)
        ]
  ]
