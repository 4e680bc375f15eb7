-- ===== src/Model.antt =====
-- src/model.rs: the enums and records that the components exchange.
--
-- A `Url` of the url crate is what its accessors return, a `Uuid` is a 128-bit number, and a point
-- in time (`Instant`, `DateTime`) is a number.
pub mod Laws
use xanh_tab.Prelude.{
  List, [], ◌∷◌, ℕ, String, Option, none, some, Bool, true, false, if◌then◌else◌,
}
use xanh_tab.Text.{Text, codes, text_eq, one_of, to_ascii_lowercase}

pub record Url : Type 0 where
  pub text : String
  pub scheme : String
  pub host_str : Option String
  pub path : String
  pub query : Option String
  pub fragment : Option String
  pub username : String
  pub password : Option String
  -- `port_or_known_default()` and `origin().ascii_serialization()`
  pub port : Option ℕ
  pub origin : String

pub data SessionPhase : Type 0 where
  idle starting active burning failed : SessionPhase

pub data EgressMode : Type 0 where
  direct tor warp wire_guard proxy : EgressMode

pub data StreamProfile : Type 0 where
  full_hd30 hd15 sd10 : StreamProfile

pub data NavigationCommand : Type 0 where
  navigate : Url → NavigationCommand
  back forward reload stop : NavigationCommand

-- `SessionSnapshot`
pub record SessionSnapshot : Type 0 where
  pub id : Option ℕ
  pub phase : SessionPhase
  pub url : Option Url
  pub title : Option String
  pub egress : EgressMode
  pub stream_profile : StreamProfile
  pub blocklist_enabled : Bool
  pub auto_burn_seconds : ℕ
  pub controller_attached : Bool
  pub started_at : Option ℕ
  pub failure : Option String

-- `SessionSnapshot::default`
abbrev pub default_snapshot : SessionSnapshot
default_snapshot = record {
  id = none;
  phase = idle;
  url = none;
  title = none;
  egress = direct;
  stream_profile = full_hd30;
  blocklist_enabled = true;
  auto_burn_seconds = 1_800;
  controller_attached = false;
  started_at = none;
  failure = none;
}

-- `Display for EgressMode`
unfoldable pub display : EgressMode → Text
display direct = codes "direct"
display tor = codes "tor"
display warp = codes "warp"
display wire_guard = codes "wireguard"
display proxy = codes "proxy"

-- `FromStr for EgressMode`, on the text in lower case.
unfoldable pub mode_of : Text → Option EgressMode
unfolding text_eq one_of
mode_of s =
    if text_eq s (codes "direct")
    then some direct
    else if text_eq s (codes "tor")
    then some tor
    else if text_eq s (codes "warp")
    then some warp
    else if one_of s (codes "wireguard" ∷ codes "wg" ∷ [])
    then some wire_guard
    else if text_eq s (codes "proxy")
    then some proxy
    else none

unfoldable pub from_str : Text → Option EgressMode
unfolding mode_of to_ascii_lowercase
from_str value = mode_of (to_ascii_lowercase value)

-- `StreamProfile::dimensions`: width, height and frames in a second.
unfoldable pub dimensions : StreamProfile → ℕ × ℕ × ℕ
dimensions full_hd30 = (1920, 1080, 30)
dimensions hd15 = (1280, 720, 15)
dimensions sd10 = (854, 480, 10)

-- The comparisons of a phase with `SessionPhase::Active` and with `SessionPhase::Idle`.
unfoldable pub is_active : SessionPhase → Bool
is_active active = true
is_active _ = false

unfoldable pub is_idle : SessionPhase → Bool
is_idle idle = true
is_idle _ = false
