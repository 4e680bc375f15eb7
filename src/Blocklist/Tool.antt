-- ===== src/Blocklist/Tool.antt =====
-- src/bin/xanhtab-blocklist.rs: the command line around the compiler of hosts files.
use xanh_tab.Prelude.{ℕ, String, Bool, not, ◌&&◌, Option, none, some, List, ◌==◌, is_some_and}
use xanh_tab.Text.{Text}
use xanh_tab.Fallible.{Fallible, done, ◌>>=◌, ◌>>◌, bail_if}
use xanh_tab.Blocklist.Compile.{Input}
use xanh_tab.Blocklist.Files.{
  Crate, Call, Files, Metadata, output, merged, validate_fst_file, compile_hosts,
  merge_hosts_with_base,
}

-- `Args`, as clap admits them: a check, or inputs with an output, and perhaps a base. A path is
-- what is there.
pub data Args (Fst : Type 0) : Type 0 where
  check_fst : Fallible Metadata → Option Fst → Bool → Option ℕ → Args Fst
  compile : Option (Fallible Fst) → List Input → Args Fst

module _ {Fst : Type 0} (crate : Crate Fst) (is_ip : Text → Bool)
    (fault : Call → Option String) where
  -- The check of `main`: the number that it prints; a message leaves out the numbers.
  unfoldable pub check : Fallible Metadata → Option Fst → Bool → Option ℕ → Fallible ℕ
  unfolding validate_fst_file
  check metadata content require_non_empty expected_count = do
    count ← validate_fst_file crate metadata content
    bail_if (require_non_empty && count == 0) "blocklist FST must contain at least one hostname"
    bail_if (is_some_and expected_count (λ expected. not (expected == count)))
        "blocklist FST contains another number of hostnames than metadata declares"
    done count

  -- `main`
  unfoldable pub main : Args Fst → Files crate is_ip fault → Fallible ℕ × Files crate is_ip fault
  unfolding check compile_hosts merge_hosts_with_base
  main (check_fst metadata content require_non_empty expected_count) files =
      (check metadata content require_non_empty expected_count, files)
  main (compile (some base) inputs) files =
      merge_hosts_with_base crate is_ip fault base inputs files
  main (compile none inputs) files = compile_hosts crate is_ip fault output merged inputs files
