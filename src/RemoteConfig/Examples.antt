-- ===== src/RemoteConfig/Examples.antt =====
-- src/remote_config.rs: a document that turns the automatic burn off, and metadata of two sources.
use xanh_tab.Prelude.{
  ◌≡◌, ◌≤◌, refl, true, false, none, some, Option, [], ◌∷◌, length, All, if◌then◌else◌,
}
use xanh_tab.Text.{Text, codes, starts_with}
use xanh_tab.Model.{Url}
use xanh_tab.Samples.{url}
use xanh_tab.Fallible.{done}
use xanh_tab.Egress.{v4, SocketAddr, Parsers}
use xanh_tab.Config.{Config, default_config}
use xanh_tab.Config.Validate.{
  validate, check_tls, check_lifetimes, check_users, check_paths, check_mode, check_addresses,
  check_secret_paths, check_signaling,
}
use xanh_tab.RemoteConfig.{RemoteConfigDocument, Place, apply_public_config_file}
use xanh_tab.RemoteConfig.Documents.{
  BlocklistSource, BlocklistMetadataDocument, reviewed, validate_blocklist_metadata,
}
use xanh_tab.RemoteConfig.Applied.{IsReviewed, applied_changes_little}
use xanh_tab.RemoteConfig.Sources.{StaysInside, files_of, distinct, accepted_sources_are_plain}

-- Every URL is one of this host, and has the scheme that it starts with.
abbrev with_scheme : Text → Option Url
unfolding starts_with
with_scheme s =
    let local = record url { host_str = some "127.0.0.1"; origin = "http://127.0.0.1:8088" } in
    if starts_with s (codes "http:")
    then some (record local { scheme = "http" })
    else if starts_with s (codes "ws:")
    then some (record local { scheme = "ws" })
    else some (record local { scheme = "socks5" })

abbrev parsers : Parsers
parsers = record {
  parse_url = with_scheme;
  parse_ip = λ _. some (v4 0x7f000001);
  decode_base64 = λ _. none;
}

abbrev parse_endpoint : Text → Option SocketAddr
parse_endpoint _ = some (record { ip = v4 0x7f000001; port = 1080 })

abbrev place : Place RemoteConfigDocument
place = record {
  exists = done true;
  is_symlink = false;
  is_file = true;
  document = done (record {
    schema_version = 1;
    session = record { initial_url = none; initial_profile = none; auto_burn_seconds = some 0 };
  });
}

abbrev never_burnt : Config
never_burnt = record default_config {
  session = record default_config.session { auto_burn_seconds = 0 };
}

place_is_applied :
    apply_public_config_file parsers parse_endpoint default_config place ≡ done never_burnt
unfolding apply_public_config_file validate with_scheme parsers check_tls check_mode check_lifetimes
    check_users check_paths check_addresses check_secret_paths check_signaling
place_is_applied = refl

applied_changes_little_example :
    (validate parsers parse_endpoint never_burnt ≡ done tt)
    × (never_burnt.server ≡ default_config.server)
    × (never_burnt.browser ≡ default_config.browser)
    × (never_burnt.signaling ≡ default_config.signaling)
    × (never_burnt.network ≡ default_config.network)
    × (never_burnt.blocklist ≡ default_config.blocklist)
    × (never_burnt.session.runtime_dir ≡ default_config.session.runtime_dir)
    × (never_burnt.session.pairing_file ≡ default_config.session.pairing_file)
    × (never_burnt.session.auth_ttl_seconds ≡ default_config.session.auth_ttl_seconds)
    × (never_burnt.session.ticket_ttl_seconds ≡ default_config.session.ticket_ttl_seconds)
    × IsReviewed 1_800 0
applied_changes_little_example =
    applied_changes_little parsers parse_endpoint default_config never_burnt place place_is_applied

abbrev source : Text → BlocklistSource
source name = record {
  name = name;
  file = name;
  url = url;
  revision = codes "v1/2";
  sha256 = codes "0123456789abcdef0123456789abcdef0123456789abcdef0123456789abcdef";
  license = codes "CC BY";
  license_url = url;
  redistribution = reviewed;
}

abbrev metadata : BlocklistMetadataDocument
metadata = record {
  schema_version = 1;
  generated_at = 0;
  entry_count = 2;
  sources = source (codes "ads.txt") ∷ source (codes "trackers.txt") ∷ [];
}

metadata_is_valid : validate_blocklist_metadata metadata ≡ done tt
unfolding validate_blocklist_metadata
metadata_is_valid = refl

accepted_sources_are_plain_example :
    (1 ≤ length metadata.sources)
    × (length metadata.sources ≤ 32)
    × All StaysInside (files_of metadata.sources)
    × (distinct (files_of metadata.sources) ≡ true)
accepted_sources_are_plain_example = accepted_sources_are_plain metadata metadata_is_valid
