-- ===== src/Paths.antt =====
-- Unix paths by their components, as `std::path` gives them, with the tests of src/config.rs and
-- src/session.rs on them.
use xanh_tab.Prelude.{
  Bool, true, false, not, ◌&&◌, ◌||◌, List, [], ◌∷◌, ltb, ◌==◌, if◌then◌else◌, all, any, length,
  is_some_and, ◌≡◌, refl, arith,
}
use xanh_tab.Text.{Text, codes, text_eq, split, first}

-- `std::path::Component` on Unix.
pub data Component : Type 0 where
  root_dir cur_dir parent_dir : Component
  normal : Text → Component

-- Empty pieces and `.` inside a path are skipped.
unfoldable pub pieces_of : List Text → List Component
unfolding text_eq
pieces_of [] = []
pieces_of (piece ∷ pieces) =
    let rest = pieces_of pieces in
    if length piece == 0 || text_eq piece (codes ".")
    then rest
    else if text_eq piece (codes "..")
    then parent_dir ∷ rest
    else normal piece ∷ rest

-- A leading `.` stands in a relative path only.
unfoldable pub relative : List Text → List Component
unfolding pieces_of text_eq
relative [] = []
relative (piece ∷ pieces) =
    if text_eq piece (codes ".") then cur_dir ∷ pieces_of pieces else pieces_of (piece ∷ pieces)

unfoldable pub is_absolute : Text → Bool
unfolding first
is_absolute path = is_some_and (first path) (λ c. c == b'/')

unfoldable pub components : Text → List Component
unfolding relative split is_absolute
components path =
    if is_absolute path then root_dir ∷ pieces_of (split b'/' path) else relative (split b'/' path)

abbrev pub is_dots : Component → Bool
is_dots parent_dir = true
is_dots cur_dir = true
is_dots _ = false

abbrev pub is_plain : Component → Bool
is_plain root_dir = true
is_plain (normal _) = true
is_plain _ = false

-- `path == Path::new("/")`
abbrev pub is_root : List Component → Bool
is_root (root_dir ∷ []) = true
is_root _ = false

-- The guard of `clear_runtime_dir`.
unfoldable pub refuses_to_clear : Text → Bool
unfolding components is_absolute
refuses_to_clear path =
    not (is_absolute path)
    || is_root (components path)
    || ltb (length (components path)) 3
    || any is_dots (components path)

-- `is_normalized_absolute` of src/config.rs
unfoldable pub is_normalized_absolute : Text → Bool
unfolding components is_absolute
is_normalized_absolute path = is_absolute path && all is_plain (components path)

-- The test of `Config::validate` on `runtime_dir`, by which it is refused.
unfoldable pub runtime_dir_refused : Text → Bool
unfolding is_normalized_absolute components
runtime_dir_refused path =
    not (is_normalized_absolute path)
    || is_root (components path)
    || ltb (length (components path)) 3

plain_has_no_dots : (cs : List Component) → all is_plain cs ≡ true → any is_dots cs ≡ false
plain_has_no_dots [] h = refl
plain_has_no_dots (root_dir ∷ cs) h = plain_has_no_dots cs h
plain_has_no_dots (normal t ∷ cs) h = plain_has_no_dots cs h
plain_has_no_dots (cur_dir ∷ cs) h = cc
plain_has_no_dots (parent_dir ∷ cs) h = cc

-- A runtime directory that the configuration accepts is never refused by `clear_runtime_dir`.
pub refuses_to_clear-of_accepted :
    (path : Text) → runtime_dir_refused path ≡ false → refuses_to_clear path ≡ false
unfolding runtime_dir_refused refuses_to_clear is_normalized_absolute
refuses_to_clear-of_accepted path h = ground (arith, plain_has_no_dots (components path))
