-- ===== src/Samples.antt =====
-- A device, its browser and its pairing material, for the examples.
use xanh_tab.Prelude.{ℕ, ◌+◌, ◌*◌, ◌%◌, ◌^◌, Bool, false, none, some, List, [], ◌∷◌, map}
use xanh_tab.Text.{Text, codes}
use xanh_tab.Errors.{Result, ok, err, service_unavailable}
use xanh_tab.Model.{Url, direct, full_hd30}
use xanh_tab.Blocklist.{Blocklist}
use xanh_tab.Auth.State.{Auth}
use xanh_tab.Session.State.{Entry, Effect, browser_start, Manager}

abbrev pub digest : Text → ℕ
digest [] = 7
digest (c ∷ s) = (c + 31 * digest s) % 2 ^ 256

-- A session of one hour, a ticket of twenty seconds.
abbrev pub auth : Auth
auth = record {
  auth_ttl = 3_600_000_000_000;
  ticket_ttl = 20_000_000_000;
  hash = digest;
  encode_url_safe = λ bytes. map (λ b. 97 + b % 26) bytes;
  encode_base32 = λ bytes. map (λ b. 65 + b % 26) bytes;
}

abbrev pub bytes : List ℕ
bytes = 1 ∷ 2 ∷ 3 ∷ []

-- The material of `bytes`: the secret and the manual code.
abbrev pub secret : Text
secret = codes "bcd"

abbrev pub session : Text
session = codes "session"

abbrev pub csrf : Text
csrf = codes "csrf"

abbrev pub ticket : Text
ticket = codes "ticket"

abbrev pub url : Url
url = record {
  text = "https://example.com/";
  scheme = "https";
  host_str = some "example.com";
  path = "/";
  query = none;
  fragment = none;
  username = "";
  password = none;
  port = some 443;
  origin = "https://example.com";
}

-- The browser leaves a file behind; it starts only if `starts`.
abbrev pub answers : Bool → ℕ → Effect → Result (Unit {0})
answers false _ (browser_start _ _ _ _) = err (service_unavailable "no display")
answers _ _ _ = ok tt

abbrev pub leaves : ℕ → Effect → List Entry → List Entry
leaves _ (browser_start _ _ _ _) entries = record { name = "cookies"; is_dir = false } ∷ entries
leaves _ _ entries = entries

abbrev pub device : Bool → Manager
device starts = record {
  initial_egress = direct;
  initial_profile = full_hd30;
  initial_auto_burn_seconds = 900;
  runtime_dir = "/run/xanhtab/session";
  env = record {
    answer = answers starts;
    files = leaves;
    fs_error = λ _ _. none;
    is_symlink = λ _. false;
    uuid = λ tick. tick;
    instant = λ tick. tick * 1_000_000_000_000;
    utc = λ tick. tick;
  };
}

abbrev pub no_blocklist : Blocklist
no_blocklist = record { set = none; hits = 0 }
