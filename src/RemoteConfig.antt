-- ===== src/RemoteConfig.antt =====
-- src/remote_config.rs: public configuration that is fetched from elsewhere.
--
-- `serde_json` is not modelled: a file is its metadata and what the parser makes of it. A time and
-- a `Uuid` are numbers.
pub mod Documents
pub mod Applied
pub mod Sources
mod Examples
use xanh_tab.Prelude.{
  ℕ, String, Bool, true, not, ◌&&◌, ◌||◌, Option, none, some, List, [], ◌∷◌, ◌==◌, leb, ltb,
  if◌then◌else◌, is_some, is_none, is_some_and, str_eq,
}
use xanh_tab.Text.{Text, codes}
use xanh_tab.Model.{Url, StreamProfile}
use xanh_tab.Fallible.{Fallible, done, bail, ◌>>=◌, ◌>>◌, bail_if}
use xanh_tab.Egress.{SocketAddr, Parsers}
use xanh_tab.Config.{Config}
use xanh_tab.Config.Validate.{validate, is_http, with_context}

pub record RemoteSessionConfig : Type 0 where
  pub initial_url : Option Url
  pub initial_profile : Option StreamProfile
  pub auto_burn_seconds : Option ℕ

pub record RemoteConfigDocument : Type 0 where
  pub schema_version : ℕ
  pub session : RemoteSessionConfig

-- A path: whether something is there, what it is, and what its content parses to.
pub record Place (Document : Type 0) : Type 0 where
  pub exists : Fallible Bool
  pub is_symlink : Bool
  pub is_file : Bool
  pub document : Fallible Document

unfoldable pub require_schema_v1 : ℕ → Fallible (Unit {0})
require_schema_v1 version = bail_if (not (version == 1)) "schema_version must be 1"

unfoldable pub require_regular_file : {D : Type 0} → Place D → Fallible (Unit {0})
require_regular_file place =
    bail_if (place.is_symlink || not place.is_file) "public config path is not a regular file"

unfoldable pub validate_optional_json :
    {D : Type 0} → Place D → (D → Fallible (Unit {0})) → Fallible (Unit {0})
unfolding require_regular_file
validate_optional_json place check = do
  exists ← place.exists
  if not exists
      then done tt
      else (require_regular_file place
          >> with_context (place.document >>= check) "invalid public config")

-- An initial URL that a public configuration may name.
unfoldable pub initial_url_ok : Url → Bool
initial_url_ok url =
    str_eq url.text "xanhtab://home"
    || (is_http url.scheme
        && is_some url.host_str
        && str_eq url.username ""
        && is_none url.password)

-- Zero turns the burn off.
unfoldable pub auto_burn_ok : ℕ → Bool
auto_burn_ok seconds = seconds == 0 || (leb 60 seconds && leb seconds 86_400)

-- The guards of `parse_remote_config` on its document.
unfoldable pub parse_remote_config : RemoteConfigDocument → Fallible RemoteConfigDocument
unfolding require_schema_v1 initial_url_ok auto_burn_ok
parse_remote_config document = do
  require_schema_v1 document.schema_version
  bail_if
      (is_none document.session.initial_url
        && is_none document.session.initial_profile
        && is_none document.session.auto_burn_seconds)
      "session must contain at least one reviewed setting"
  bail_if (is_some_and document.session.initial_url (λ url. not (initial_url_ok url)))
      "initial_url must be HTTP(S) without credentials or xanhtab://home"
  bail_if (is_some_and document.session.auto_burn_seconds (λ seconds. not (auto_burn_ok seconds)))
      "auto_burn_seconds must be zero or between 60 and 86400"
  done document

unfoldable pub validate_remote_config : RemoteConfigDocument → Fallible (Unit {0})
unfolding parse_remote_config
validate_remote_config document = do parse_remote_config document; done tt

-- `if let Some(value)`
abbrev pub or_else : {A : Type 0} → Option A → A → A
or_else none old = old
or_else (some value) old = value

-- The assignments of `apply_public_config_file`.
unfoldable pub override : RemoteSessionConfig → Config → Config
override session config = record config {
  session = record config.session {
    initial_url = elim session.initial_url [
      | none ↦ config.session.initial_url
      | some url ↦ codes url.text
    ];
    initial_profile = or_else session.initial_profile config.session.initial_profile;
    auto_burn_seconds = or_else session.auto_burn_seconds config.session.auto_burn_seconds;
  };
}

module _ (parsers : Parsers) (parse_endpoint : Text → Option SocketAddr) where
  -- `apply_public_config_file`: what becomes of the configuration, which a failure ends.
  unfoldable pub apply_public_config_file : Config → Place RemoteConfigDocument → Fallible Config
  unfolding require_regular_file parse_remote_config override
  apply_public_config_file config place = do
    require_regular_file place
    document ← with_context (place.document >>= parse_remote_config) "invalid public config"
    validate parsers parse_endpoint (override document.session config)
    done (override document.session config)
