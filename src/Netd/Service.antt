-- ===== src/Netd/Service.antt =====
-- src/bin/xanhtab-netd.rs: who may ask netd, how long it takes, and what it answers.
use xanh_tab.Prelude.{
  ℕ, ◌*◌, ◌-◌, ◌^◌, ◌+◌, ◌≤◌, ◌<◌, ◌≡◌, ◌≢◌, String, Bool, false, not, Option, none, some, arith,
  ltb, leb, ◌==◌, if◌then◌else◌, is_some,
}
use xanh_tab.Model.{EgressMode, direct}
use xanh_tab.Fallible.{Fallible, done, bail, is_done}

unfoldable pub authorize_peer_uid : ℕ → Option ℕ → ℕ → Fallible (Unit {0})
authorize_peer_uid peer_uid (some expected) browser_uid =
    if peer_uid == expected
    then done tt
    else bail "netd peer is not the configured control-plane UID"
authorize_peer_uid peer_uid none browser_uid =
    if not (peer_uid == browser_uid)
    then done tt
    else bail "browser UID is not authorized to call netd"

-- `saturating_mul(1_000)` of a `u64`
abbrev saturating_millis : ℕ → ℕ
saturating_millis n = if leb (n * 1_000) (2 ^ 64 - 1) then n * 1_000 else 2 ^ 64 - 1

-- `helper_deadline`, in milliseconds: subtraction of ℕ stops at 0 as `saturating_sub` does.
unfoldable pub helper_deadline : ℕ → ℕ
helper_deadline ipc_timeout_seconds =
    let left = saturating_millis ipc_timeout_seconds - 250 in if ltb left 1 then 1 else left

-- `EgressResponse`, without `proxy_url`, which is always `None`.
pub record EgressResponse : Type 0 where
  pub ok : Bool
  pub active_mode : EgressMode
  pub detail : String

unfoldable pub status_response : Option EgressMode → EgressResponse
status_response active_mode = record {
  ok = is_some active_mode;
  active_mode = elim active_mode [ none ↦ direct | some mode ↦ mode ];
  detail =
      if is_some active_mode
      then "egress policy active"
      else "browser UID is held by the transition kill-switch";
}

-- The browser's user is never authorized, unless it is itself configured as the control plane's.
pub browser_is_not_authorized :
    (control_uid : Option ℕ) (browser_uid : ℕ)
    → control_uid ≢ some browser_uid
    → is_done (authorize_peer_uid browser_uid control_uid browser_uid) ≡ false
unfolding authorize_peer_uid
browser_is_not_authorized none browser_uid h = ground arith
browser_is_not_authorized (some control) browser_uid h = ground arith

-- netd gives up a quarter of a second before the control plane does, for every timeout from one
-- second on that fits a `u64` in milliseconds; and its deadline is never zero.
pub helper_deadline_bounds :
    (seconds : ℕ)
    → 1 ≤ seconds
    → seconds * 1_000 < 2 ^ 64
    → (helper_deadline seconds + 250 ≡ seconds * 1_000) × (0 < helper_deadline seconds)
unfolding helper_deadline
helper_deadline_bounds seconds low high = ground arith
