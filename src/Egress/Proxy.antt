-- ===== src/Egress/Proxy.antt =====
-- src/egress.rs: the address of a proxy, and the file that holds one.
use Prim.Native.String.{◌++◌ as ◌+++◌}
use xanh_tab.Prelude.{
  ℕ, String, Bool, true, not, ◌&&◌, ◌||◌, Option, ltb, ◌==◌, is_some, is_some_and, ◌*◌, ◌%◌, ◌/◌,
  length, str_eq,
}
use xanh_tab.Text.{Text, codes, byte_len, trim, trim_start_matches, trim_end_matches}
use xanh_tab.Model.{Url}
use xanh_tab.Fallible.{Fallible, done, ◌>>=◌, ◌>>◌, bail_if, context}
use xanh_tab.Egress.{ip_eq, SocketAddr, Parsers}

abbrev pub max_proxy_url_bytes : ℕ
max_proxy_url_bytes = 8 * 1024

-- `ValidatedProxy`
pub record ValidatedProxy : Type 0 where
  pub url : Url
  pub endpoint : SocketAddr

abbrev pub endpoint_eq : SocketAddr → SocketAddr → Bool
endpoint_eq a b = ip_eq a.ip b.ip && a.port == b.port

unfoldable pub is_proxy_scheme : String → Bool
is_proxy_scheme scheme =
    str_eq scheme "http"
    || str_eq scheme "https"
    || str_eq scheme "socks5"
    || str_eq scheme "socks5h"

-- The host of a proxy, without the brackets of an IPv6 address.
unfoldable pub bare_host : String → Text
unfolding trim_start_matches trim_end_matches
bare_host host =
    trim_end_matches (λ c. c == b']') (trim_start_matches (λ c. c == b'[') (codes host))

module _ (parsers : Parsers) where
  unfoldable pub validate_proxy_url : Text → Bool → Fallible ValidatedProxy
  unfolding trim byte_len is_proxy_scheme bare_host
  validate_proxy_url raw allow_credentials = do
    let value = trim raw
    bail_if (length value == 0 || ltb max_proxy_url_bytes (byte_len value))
        "proxy URL must be non-empty and no larger than 8 KiB"
    url ← context (parsers.parse_url value) "proxy URL is invalid"
    bail_if (not (is_proxy_scheme url.scheme)) "proxy URL uses an unsupported scheme"
    bail_if
        (not (str_eq url.path "" || str_eq url.path "/")
          || is_some url.query
          || is_some url.fragment)
        "proxy URL must not contain a path, query, or fragment"
    bail_if (not allow_credentials && (not (str_eq url.username "") || is_some url.password))
        "managed proxy URL must not contain credentials"
    host ← context url.host_str "proxy URL must contain a host"
    ip ← context (parsers.parse_ip (bare_host host)) "proxy host must be a literal IP address"
    port ← context url.port "proxy URL scheme does not provide a usable port"
    done (record { url = url; endpoint = record { ip = ip; port = port } })

-- `SecretPermissions`
pub data SecretPermissions : Type 0 where
  owner_only group_readable : SecretPermissions

-- What `symlink_metadata` says of a path, and what `read_to_string` returns.
pub record SecretFile : Type 0 where
  pub is_symlink : Bool
  pub is_file : Bool
  pub len : ℕ
  pub uid : ℕ
  pub mode : ℕ
  pub content : Option Text

-- The bits that no file may have: `mode & forbidden != 0`, by the octal digits of the mode.
unfoldable pub too_broad : SecretPermissions → ℕ → Bool
too_broad owner_only mode = not (mode % 64 == 0)
too_broad group_readable mode = not (mode % 8 == 0) || not (mode / 16 % 2 == 0)

-- `read_secret_file`, where `none` is a path that cannot be inspected.
unfoldable pub read_secret_file :
    String → Option SecretFile → ℕ → SecretPermissions → Option ℕ → Fallible Text
unfolding too_broad
read_secret_file path found max_bytes permissions required_uid = do
  file ← context found (◌+++◌ "failed to inspect secret file " path)
  bail_if (file.is_symlink || not file.is_file) "secret input must be a regular non-symlink file"
  bail_if (file.len == 0 || ltb max_bytes file.len) "secret input has an invalid size"
  bail_if (is_some_and required_uid (λ uid. not (file.uid == uid)))
      "secret input has an unexpected owner"
  bail_if (too_broad permissions (file.mode % 512)) "secret input permissions are too broad"
  context file.content (◌+++◌ "failed to read secret file " path)

-- `validate_proxy_url_file`
unfoldable pub validate_proxy_url_file :
    Parsers → String → Option SecretFile → Option SocketAddr → Option ℕ → Fallible ValidatedProxy
validate_proxy_url_file parsers path found expected_endpoint required_uid = do
  raw ← read_secret_file path found max_proxy_url_bytes group_readable required_uid
  proxy ← validate_proxy_url parsers raw true
  bail_if (is_some_and expected_endpoint (λ expected. not (endpoint_eq expected proxy.endpoint)))
      "proxy URL endpoint does not match the configured kill-switch endpoint"
  done proxy
