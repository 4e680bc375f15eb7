-- ===== src/RemoteConfig/Documents.antt =====
-- src/remote_config.rs: the bookmarks, the sources of the blocklist, and the directory of both.
use xanh_tab.Prelude.{
  ℕ, Bool, not, ◌&&◌, ◌||◌, List, [], ◌∷◌, ◌==◌, leb, ltb, if◌then◌else◌, is_some, is_none,
  is_some_and, str_eq, length, any, all,
}
use xanh_tab.Text.{Text, codes, text_eq, byte_len, first, is_ascii_alphanumeric, is_ascii_digit}
use xanh_tab.Text.Methods.{starts_with_char, ends_with_char}
use xanh_tab.Model.{Url}
use xanh_tab.Fallible.{Fallible, done, ◌>>=◌, ◌>>◌, bail_if}
use xanh_tab.Config.Validate.{is_http}
use xanh_tab.Blocklist.Compile.{Input, validate_hosts_file}
use xanh_tab.RemoteConfig.{
  RemoteConfigDocument, Place, require_schema_v1, require_regular_file, validate_optional_json,
  validate_remote_config,
}

abbrev pub max_bookmarks : ℕ
max_bookmarks = 500

abbrev pub max_blocklist_sources : ℕ
max_blocklist_sources = 32

pub record Bookmark : Type 0 where
  pub id : ℕ
  pub title : Text
  pub url : Url

pub record BookmarksDocument : Type 0 where
  pub schema_version : ℕ
  pub bookmarks : List Bookmark

pub data RedistributionStatus : Type 0 where
  reviewed external_fetch_only : RedistributionStatus

pub record BlocklistSource : Type 0 where
  pub name : Text
  pub file : Text
  pub url : Url
  pub revision : Text
  pub sha256 : Text
  pub license : Text
  pub license_url : Url
  pub redistribution : RedistributionStatus

pub record BlocklistMetadataDocument : Type 0 where
  pub schema_version : ℕ
  pub generated_at : ℕ
  pub entry_count : ℕ
  pub sources : List BlocklistSource

unfoldable pub bookmark_url_ok : Url → Bool
unfolding byte_len
bookmark_url_ok url =
    leb (byte_len (codes url.text)) 4096
    && is_http url.scheme
    && is_some url.host_str
    && str_eq url.username ""
    && is_none url.password

-- The loop of `validate_bookmarks`, with the ids that it has seen.
unfoldable pub check_bookmarks : List Bookmark → List ℕ → Fallible (Unit {0})
unfolding bookmark_url_ok
check_bookmarks [] ids = done tt
check_bookmarks (bookmark ∷ bookmarks) ids = do
  bail_if (any (λ id. id == bookmark.id) ids) "bookmark IDs must be unique"
  bail_if (not (leb 1 (length bookmark.title) && leb (length bookmark.title) 256))
      "bookmark title must contain between 1 and 256 characters"
  bail_if (not (bookmark_url_ok bookmark.url)) "bookmark URL must be a credential-free HTTP(S) URL"
  check_bookmarks bookmarks (bookmark.id ∷ ids)

unfoldable pub validate_bookmarks : BookmarksDocument → Fallible (Unit {0})
unfolding require_schema_v1 check_bookmarks
validate_bookmarks document = do
  require_schema_v1 document.schema_version
  bail_if (ltb max_bookmarks (length document.bookmarks)) "bookmarks exceeds the 500-item limit"
  check_bookmarks document.bookmarks []

-- A text that is not empty, is bounded, starts with a letter or a digit and has such bytes only.
unfoldable pub bounded_ok : (ℕ → Bool) → Text → Bool
unfolding byte_len first is_ascii_alphanumeric
bounded_ok extra text =
    not (length text == 0)
    && leb (byte_len text) 128
    && is_some_and (first text) is_ascii_alphanumeric
    && all (λ c. is_ascii_alphanumeric c || extra c) text

abbrev pub is_name_extra : ℕ → Bool
is_name_extra c = c == b' ' || c == b'.' || c == b'_' || c == b'-'

abbrev pub is_file_extra : ℕ → Bool
is_file_extra c = c == b'.' || c == b'_' || c == b'-'

abbrev pub is_revision_extra : ℕ → Bool
is_revision_extra c = c == b'.' || c == b'_' || c == b'-' || c == b'/'

unfoldable pub https_ok : Url → Bool
https_ok url =
    str_eq url.scheme "https"
    && is_some url.host_str
    && str_eq url.username ""
    && is_none url.password

unfoldable pub sha256_ok : Text → Bool
unfolding byte_len is_ascii_digit
sha256_ok sha256 =
    byte_len sha256 == 64 && all (λ c. is_ascii_digit c || (leb b'a' c && leb c b'f')) sha256

unfoldable pub license_ok : Text → Bool
unfolding byte_len ends_with_char
license_ok license =
    not (length license == 0)
    && leb (byte_len license) 128
    && not (starts_with_char license b' ')
    && not (ends_with_char license b' ')
    && all (λ c. c == b' ' || (leb b'!' c && leb c b'~')) license

-- The loop of `validate_blocklist_metadata`, with the names and the files that it has seen. A
-- character beyond ASCII fails each test that all bytes must pass, so that the number of the
-- characters of a name is that of its bytes.
unfoldable pub check_sources : List BlocklistSource → List Text → List Text → Fallible (Unit {0})
unfolding bounded_ok https_ok sha256_ok license_ok text_eq ends_with_char
check_sources [] names files = done tt
check_sources (source ∷ sources) names files = do
  bail_if
      (not (bounded_ok is_name_extra source.name)
        || ends_with_char source.name b' '
        || any (λ name. text_eq name source.name) names)
      "blocklist source names must be non-empty, bounded, and unique"
  bail_if
      (not (bounded_ok is_file_extra source.file) || any (λ file. text_eq file source.file) files)
      "blocklist source filenames must be safe, bounded, and unique"
  bail_if (not (https_ok source.url)) "blocklist source URL must be credential-free HTTPS"
  bail_if (not (bounded_ok is_revision_extra source.revision))
      "blocklist source revision is invalid"
  bail_if (not (sha256_ok source.sha256)) "blocklist source checksum must be lowercase SHA-256"
  bail_if (not (license_ok source.license)) "blocklist source license identifier is invalid"
  bail_if (not (https_ok source.license_url))
      "blocklist source license URL must be credential-free HTTPS"
  check_sources sources (source.name ∷ names) (source.file ∷ files)

unfoldable pub validate_blocklist_metadata : BlocklistMetadataDocument → Fallible (Unit {0})
unfolding require_schema_v1 check_sources
validate_blocklist_metadata document = do
  require_schema_v1 document.schema_version
  bail_if (length document.sources == 0 || ltb max_blocklist_sources (length document.sources))
      "blocklist metadata must contain between 1 and 32 sources"
  check_sources document.sources [] []

-- The directory, and what is at the four paths in it.
pub record Directory : Type 0 where
  pub is_dir : Bool
  pub is_symlink : Bool
  pub config : Place RemoteConfigDocument
  pub bookmarks : Place BookmarksDocument
  pub metadata : Place BlocklistMetadataDocument
  pub custom_hosts : Place Input

-- `validate_public_config_dir`
unfoldable pub validate_public_config_dir : (Text → Bool) → Directory → Fallible (Unit {0})
unfolding validate_optional_json validate_remote_config validate_bookmarks
    validate_blocklist_metadata require_regular_file validate_hosts_file
validate_public_config_dir is_ip directory = do
  bail_if (not directory.is_dir || directory.is_symlink)
      "public config directory is unavailable or unsafe"
  validate_optional_json directory.config validate_remote_config
  validate_optional_json directory.bookmarks validate_bookmarks
  validate_optional_json directory.metadata validate_blocklist_metadata
  exists ← directory.custom_hosts.exists
  if not exists then done tt else (do
    require_regular_file directory.custom_hosts
    hosts ← directory.custom_hosts.document
    validate_hosts_file is_ip hosts
    done tt)
