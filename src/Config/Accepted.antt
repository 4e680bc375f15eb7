-- ===== src/Config/Accepted.antt =====
-- src/config.rs: what an accepted configuration means for the session manager and for netd.
use xanh_tab.Prelude.{
  ℕ, [], none, ◌+◌, ◌*◌, ◌<◌, ◌≡◌, true, false, Option, List, arith, String, is_none,
}
use xanh_tab.Text.{Text, codes}
use xanh_tab.Model.{Url}
use xanh_tab.Fallible.{done, is_done, bail_if}
use xanh_tab.Egress.{SocketAddr, Parsers, is_loopback}
use xanh_tab.Egress.Proxy.{ValidatedProxy, validate_proxy_url}
use xanh_tab.Paths.{refuses_to_clear, refuses_to_clear-of_accepted}
use xanh_tab.Session.State.{Manager, Entry, clear_from}
use xanh_tab.Session.Burning.{Serves, clear_from-Serves}
use xanh_tab.Netd.Service.{
  authorize_peer_uid, helper_deadline, browser_is_not_authorized, helper_deadline_bounds,
}
use xanh_tab.Config.{Config}
use xanh_tab.Config.Validate.{
  check_public_url, check_tls, check_origins, check_mode, check_lifetimes, check_users, check_paths,
  check_managed_proxy, check_addresses, check_secret_paths, check_signaling, validate,
}
use xanh_tab.Config.Sections.{
  >>=-done, lifetimes_are_bounded, users_differ, runtime_dir_is_accepted, managed_proxy_is_loopback,
}

module _ (parsers : Parsers) (parse_endpoint : Text → Option SocketAddr) (config : Config) where
  -- Every section of an accepted configuration is done.
  pub validate-done :
      validate parsers parse_endpoint config ≡ done tt
      → (public_url : Url) × (origins : List String) × (check_public_url parsers config.server
          ≡ done public_url)
        × (check_tls config.server ≡ done tt)
        × (check_origins parsers config.server public_url ≡ done origins)
        × (check_mode parsers config public_url origins ≡ done tt)
        × (check_lifetimes config ≡ done tt)
        × (check_users config ≡ done tt)
        × (check_paths config ≡ done tt)
        × (check_addresses parsers parse_endpoint config ≡ done tt)
        × (check_secret_paths config.network ≡ done tt)
        × (check_signaling parsers config.signaling ≡ done tt)
  unfolding validate
  validate-done h =
      let (public_url, h1, k1) = >>=-done (check_public_url parsers config.server) _ tt h in
      let (_, h2, k2) = >>=-done (check_tls config.server) _ tt k1 in
      let (origins, h3, k3) = >>=-done (check_origins parsers config.server public_url) _ tt k2 in
      let (_, h4, k4) = >>=-done (check_mode parsers config public_url origins) _ tt k3 in
      let (_, h5, k5) = >>=-done (check_lifetimes config) _ tt k4 in
      let (_, h6, k6) = >>=-done (check_users config) _ tt k5 in
      let (_, h7, k7) = >>=-done (check_paths config) _ tt k6 in
      let (_, h8, k8) = >>=-done (check_addresses parsers parse_endpoint config) _ tt k7 in
      let (_, h9, k9) = >>=-done (check_secret_paths config.network) _ tt k8 in
      (public_url, origins, h1, h2, h3, h4, h5, h6, h7, h8, h9, k9)

  managed_proxies_pass :
      check_addresses parsers parse_endpoint config ≡ done tt
      → (check_managed_proxy parsers "tor_proxy" config.network.tor_proxy ≡ done tt)
        × (check_managed_proxy parsers "warp_proxy" config.network.warp_proxy ≡ done tt)
  unfolding check_addresses
  managed_proxies_pass h =
      let no_url =
        bail_if (is_none (parsers.parse_url config.session.initial_url))
          "initial_url must be an absolute URL" in
      let no_endpoint =
        bail_if (is_none (parse_endpoint config.network.proxy_endpoint))
          "proxy_endpoint must be an IP address and port" in
      let (_, _, k1) = >>=-done no_url _ tt h in
      let (_, _, k2) = >>=-done no_endpoint _ tt k1 in
      let (_, tor, warp) =
        >>=-done (check_managed_proxy parsers "tor_proxy" config.network.tor_proxy) _ tt k2 in
      (tor, warp)

  -- With an accepted configuration, a cleanup of its runtime directory reports no error and leaves
  -- no entry, where no call about the directory or an entry fails and the directory is no symbolic
  -- link: its path is never what is refused. And netd never authorizes the browser's user, and the
  -- time that netd gives a command is a quarter of a second shorter than the time that the control
  -- plane gives the whole request, and not zero.
  pub accepted_services_fit :
      (m : Manager) (tick : ℕ) (entries : List Entry)
      → validate parsers parse_endpoint config ≡ done tt
      → codes m.runtime_dir ≡ config.session.runtime_dir
      → ((t : ℕ) → Serves m t)
      → ((clear_from m tick entries).0 ≡ none)
        × ((clear_from m tick entries).1 ≡ [])
        × (is_done (
              authorize_peer_uid config.network.browser_uid config.network.control_uid
                config.network.browser_uid)
            ≡ false)
        × (helper_deadline config.network.ipc_timeout_seconds + 250
            ≡ config.network.ipc_timeout_seconds * 1_000)
        × (0 < helper_deadline config.network.ipc_timeout_seconds)
  accepted_services_fit m tick entries h same serves =
      let (_, _, _, _, _, _, lifetimes, users, paths, _, _, _) = validate-done h in
      let (low, high) = lifetimes_are_bounded config lifetimes in
      let (exact, positive) =
        helper_deadline_bounds config.network.ipc_timeout_seconds low (omega arith) in
      let allowed : refuses_to_clear (codes m.runtime_dir) ≡ false = rw same (
        refuses_to_clear-of_accepted config.session.runtime_dir
          (runtime_dir_is_accepted config paths)) in
      let (cleared, empty) = clear_from-Serves m tick entries allowed serves in
      (
        cleared,
        empty,
        browser_is_not_authorized config.network.control_uid config.network.browser_uid
            (users_differ config users),
        exact,
        positive,
      )

  -- Both managed proxies of an accepted configuration are valid without credentials, and their
  -- endpoints are loopback addresses.
  pub accepted_proxies_are_local :
      validate parsers parse_endpoint config ≡ done tt
      → ((tor : ValidatedProxy) × (validate_proxy_url parsers config.network.tor_proxy false
            ≡ done tor)
          × (is_loopback tor.endpoint.ip ≡ true))
        × ((warp : ValidatedProxy) × (validate_proxy_url parsers config.network.warp_proxy false
              ≡ done warp)
            × (is_loopback warp.endpoint.ip ≡ true))
  accepted_proxies_are_local h =
      let (_, _, _, _, _, _, _, _, _, addresses, _, _) = validate-done h in
      let (tor, warp) = managed_proxies_pass addresses in
      (
        managed_proxy_is_loopback parsers "tor_proxy" config.network.tor_proxy tor,
        managed_proxy_is_loopback parsers "warp_proxy" config.network.warp_proxy warp,
      )
