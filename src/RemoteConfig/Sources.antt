-- ===== src/RemoteConfig/Sources.antt =====
-- src/remote_config.rs: the files that the sources of a blocklist name.
use xanh_tab.Prelude.{
  ℕ, ◌≡◌, ◌≤◌, refl, Bool, true, false, not, ◌&&◌, ◌||◌, List, [], ◌∷◌, arith, length, any, all,
  ◌==◌, All,
}
use xanh_tab.Text.{
  Text, text_eq, split, extend, first, is_ascii_alphanumeric, is_ascii_digit, is_ascii_lowercase,
  is_ascii_uppercase,
}
use xanh_tab.Fallible.{done}
use xanh_tab.Paths.{normal, components, is_absolute, relative, pieces_of}
use xanh_tab.RemoteConfig.{require_schema_v1}
use xanh_tab.RemoteConfig.Documents.{
  BlocklistSource, BlocklistMetadataDocument, bounded_ok, is_file_extra, check_sources,
  validate_blocklist_metadata,
}

-- No text stands twice.
unfoldable pub distinct : List Text → Bool
unfolding text_eq
distinct [] = true
distinct (x ∷ xs) = all (λ y. not (text_eq x y)) xs && distinct xs

-- The name of a file in the directory itself.
abbrev pub StaysInside : Text → Type 0
StaysInside file = components file ≡ normal file ∷ []

split_alone : (c : ℕ) (s : Text) → any (λ d. d == c) s ≡ false → split c s ≡ s ∷ []
unfolding split extend
split_alone c [] h = refl
split_alone c (d ∷ s) h = ground (arith, split_alone c s)

no_slash :
    (s : Text)
    → all (λ c. is_ascii_alphanumeric c || is_file_extra c) s ≡ true
    → any (λ d. d == b'/') s ≡ false
unfolding is_ascii_alphanumeric is_ascii_digit is_ascii_lowercase is_ascii_uppercase
no_slash [] h = refl
no_slash (c ∷ s) h = ground (arith, no_slash s)

-- A file's name of a source that is accepted is that of a file in the directory.
file-StaysInside : (file : Text) → bounded_ok is_file_extra file ≡ true → StaysInside file
unfolding bounded_ok components is_absolute relative pieces_of first text_eq is_ascii_alphanumeric
    is_ascii_digit is_ascii_lowercase is_ascii_uppercase
file-StaysInside [] h = cc
file-StaysInside (c ∷ s) h = ground (arith, no_slash (c ∷ s), split_alone b'/' (c ∷ s))

unfoldable pub files_of : List BlocklistSource → List Text
files_of [] = []
files_of (source ∷ sources) = source.file ∷ files_of sources

-- None of the names stands among those seen.
abbrev fresh : List Text → List Text → Bool
unfolding text_eq
fresh files = all (λ name. not (any (λ file. text_eq file name) files))

fresh-cons :
    (x : Text) (files names : List Text)
    → fresh (x ∷ files) names ≡ true
    → (all (λ y. not (text_eq x y)) names ≡ true) × (fresh files names ≡ true)
unfolding fresh
fresh-cons x files [] h = (refl, refl)
fresh-cons x files (n ∷ names) h = ground (arith, fresh-cons x files names)

one_source :
    (source : BlocklistSource) (sources : List BlocklistSource) (names files : List Text)
    → check_sources (source ∷ sources) names files ≡ done tt
    → (bounded_ok is_file_extra source.file ≡ true)
      × (any (λ file. text_eq file source.file) files ≡ false)
      × (check_sources sources (source.name ∷ names) (source.file ∷ files) ≡ done tt)
unfolding check_sources
one_source source sources names files h = ground arith

sources_are_fresh :
    (sources : List BlocklistSource) (names files : List Text)
    → check_sources sources names files ≡ done tt
    → All StaysInside (files_of sources)
      × (distinct (files_of sources) ≡ true)
      × (fresh files (files_of sources) ≡ true)
unfolding fresh files_of distinct
sources_are_fresh [] names files h = (tt, refl, refl)
sources_are_fresh (source ∷ sources) names files h =
    let (bounded, new, rest) = one_source source sources names files h in
    let (plain, apart, others) =
      sources_are_fresh sources (source.name ∷ names) (source.file ∷ files) rest in
    let (differ, still) = fresh-cons source.file files (files_of sources) others in
    ((file-StaysInside source.file bounded, plain), ground arith, ground arith)

-- The sources of accepted blocklist metadata are one to thirty-two, each names a file of the
-- directory itself, whatever its path is joined to, and no two name the same.
pub accepted_sources_are_plain :
    (document : BlocklistMetadataDocument)
    → validate_blocklist_metadata document ≡ done tt
    → (1 ≤ length document.sources)
      × (length document.sources ≤ 32)
      × All StaysInside (files_of document.sources)
      × (distinct (files_of document.sources) ≡ true)
unfolding validate_blocklist_metadata require_schema_v1
accepted_sources_are_plain document h =
    let checked : check_sources document.sources [] [] ≡ done tt = ground arith in
    let (plain, apart, _) = sources_are_fresh document.sources [] [] checked in
    (ground arith, ground arith, plain, apart)
