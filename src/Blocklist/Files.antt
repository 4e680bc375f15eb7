-- ===== src/Blocklist/Files.antt =====
-- src/blocklist.rs: the files of a blocklist, as `open`, `compile_hosts` and
-- `merge_hosts_with_base` read and write them.
--
-- An FST of the fst crate is abstract: `Crate` has its operations. A file is what `Set::new` makes
-- of it, `none` where that fails. Which calls of the file system fail is the argument `fault`.
use xanh_tab.Prelude.{
  ℕ, String, Bool, true, false, not, ◌||◌, Option, none, some, List, [], if◌then◌else◌, length,
}
use xanh_tab.Text.{Text}
use xanh_tab.Fallible.{Fallible, done, bail}
use xanh_tab.Blocklist.{Blocklist, empty}
use xanh_tab.Blocklist.Compile.{Input, read_inputs}

-- `SetBuilder` over the keys in order, the keys in the order of `Streamer`, the keys of
-- `op().add(..).union()`, `Set::contains` and `Set::len`.
pub record Crate (Fst : Type 0) : Type 0 where
  pub build : List Text → Option Fst
  pub stream : Fst → List Text
  pub union : Fst → Fst → List Text
  pub contains : Fst → Text → Bool
  pub len : Fst → ℕ

-- The files: the output, and what `with_extension` names beside it.
pub data Name : Type 0 where
  output custom custom_temporary merged : Name

-- The calls of the file system that may fail.
pub data Call : Type 0 where
  create_dir_all : Call
  create finish rename read : Name → Call

abbrev same : Name → Name → Bool
same output output = true
same custom custom = true
same custom_temporary custom_temporary = true
same merged merged = true
same _ _ = false

-- What `symlink_metadata` says of a path.
pub record Metadata : Type 0 where
  pub is_symlink : Bool
  pub is_file : Bool

module _ {Fst : Type 0} where
  -- `open_fst`: the metadata, or why there is none, and what `Set::new` makes of the content.
  unfoldable pub open_fst : Fallible Metadata → Option Fst → Fallible Fst
  open_fst (bail e) content = bail e
  open_fst (done metadata) content =
      if metadata.is_symlink || not metadata.is_file
      then bail "blocklist must be a regular non-symlink file"
      else elim content [ none ↦ bail "invalid FST blocklist" | some fst ↦ done fst ]

  -- `validate_fst_file`
  unfoldable pub validate_fst_file : Crate Fst → Fallible Metadata → Option Fst → Fallible ℕ
  unfolding open_fst
  validate_fst_file crate metadata content = elim (open_fst metadata content) [
    | bail e ↦ bail e
    | done fst ↦ done (crate.len fst)
  ]

  -- `Blocklist::open`, where `none` is a path at which nothing is.
  unfoldable pub open_blocklist :
      Crate Fst → Option (Fallible Metadata) → Option Fst → Fallible Blocklist
  unfolding open_fst
  open_blocklist crate none content = done empty
  open_blocklist crate (some metadata) content = elim (open_fst metadata content) [
    | bail e ↦ bail e
    | done fst ↦ done (record {
      set = some (record { contains = crate.contains fst; len = crate.len fst });
      hits = 0;
    })
  ]

module _ {Fst : Type 0} (crate : Crate Fst) (is_ip : Text → Bool)
    (fault : Call → Option String) where
  -- A file is missing, unfinished, or an FST.
  abbrev pub Files : Type 0
  Files = Name → Option (Option Fst)

  abbrev pub put : Name → Option (Option Fst) → Files → Files
  put name content files n = if same name n then content else files n

  abbrev pub attempt : Call → Fallible (Unit {0})
  attempt call = elim (fault call) [ none ↦ done tt | some e ↦ bail e ]

  -- `File::create`, the builder over the keys, and the rename to the target.
  unfoldable pub write_keys : Name → Name → List Text → Files → Fallible (Unit {0}) × Files
  write_keys target temporary keys files = elim (attempt (create temporary)) [
    | bail e ↦ (bail e, files)
    | done _ ↦
        let created = put temporary (some none) files in
        elim (attempt (finish temporary)) [
          | bail e ↦ (bail e, created)
          | done _ ↦ elim (crate.build keys) [
            | none ↦ (bail "keys out of order", created)
            | some fst ↦ elim (attempt (rename target)) [
              | bail e ↦ (bail e, put temporary (some (some fst)) created)
              | done _ ↦ (done tt, put target (some (some fst)) (put temporary none created))
            ]
          ]
        ]
  ]

  -- `compile_hosts`
  unfoldable pub compile_hosts : Name → Name → List Input → Files → Fallible ℕ × Files
  unfolding write_keys read_inputs
  compile_hosts target temporary inputs files = elim (read_inputs is_ip inputs []) [
    | bail e ↦ (bail e, files)
    | done domains ↦ elim (attempt create_dir_all) [
      | bail e ↦ (bail e, files)
      | done _ ↦
          let (written, after) = write_keys target temporary domains files in
          (elim written [ bail e ↦ bail e | done _ ↦ done (length domains) ], after)
    ]
  ]

  -- `open_fst` of the file that was just compiled.
  abbrev pub open_custom : Files → Fallible Fst
  open_custom files = elim (attempt (read custom)) [
    | bail e ↦ bail e
    | done _ ↦ elim (files custom) [
      | some (some fst) ↦ done fst
      | some none ↦ bail "invalid FST blocklist"
      | none ↦ bail "failed to inspect blocklist"
    ]
  ]

  -- The closure of `merge_hosts_with_base`.
  unfoldable pub merge : Fst → List Input → Files → Fallible ℕ × Files
  unfolding write_keys
  merge base inputs files =
      let (compiled, after) = compile_hosts custom custom_temporary inputs files in
      elim compiled [
        | bail e ↦ (bail e, after)
        | done _ ↦ elim (open_custom after) [
          | bail e ↦ (bail e, after)
          | done fst ↦
              let keys = crate.union base fst in
              let (written, last) = write_keys output merged keys after in
              (elim written [ bail e ↦ bail e | done _ ↦ done (length keys) ], last)
        ]
      ]

  -- The removals behind it, which succeed.
  abbrev pub clean_up : Fallible ℕ × Files → Fallible ℕ × Files
  clean_up (done n, files) = (done n, put custom none files)
  clean_up (bail e, files) = (bail e, put merged none (put custom none files))

  -- `merge_hosts_with_base`, where `base` is its FST or why that cannot be opened.
  unfoldable pub merge_hosts_with_base : Fallible Fst → List Input → Files → Fallible ℕ × Files
  unfolding merge
  merge_hosts_with_base (bail e) inputs files = (bail e, files)
  merge_hosts_with_base (done base) inputs files = elim (attempt create_dir_all) [
    | bail e ↦ (bail e, files)
    | done _ ↦ clean_up (merge base inputs files)
  ]
