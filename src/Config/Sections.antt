-- ===== src/Config/Sections.antt =====
-- src/config.rs: what a section of an accepted configuration is.
use xanh_tab.Prelude.{
  ◌≤◌, ◌≡◌, ◌≢◌, refl, true, false, not, some, List, [], ◌∷◌, arith, is_some, is_some_and, all, any,
  str_eq, inl, inr, String,
}
use xanh_tab.Text.{Text, codes}
use xanh_tab.Model.{Url}
use xanh_tab.Fallible.{Fallible, done, bail, Fallible-cases, ◌>>=◌}
use xanh_tab.Egress.{is_loopback, Parsers}
use xanh_tab.Egress.Proxy.{ValidatedProxy, validate_proxy_url}
use xanh_tab.Paths.{runtime_dir_refused}
use xanh_tab.Config.{ServerConfig, Config, is_loopback_host, is_under}
use xanh_tab.Config.Validate.{
  check_tls, check_lifetimes, check_users, stay_under_run, runtime_paths, check_production_paths,
  check_paths, check_mode, check_managed_proxy, is_https_origin,
}

-- What came before the rest of a chain that is done.
pub >>=-done {ℓ κ} :
    {A : Type ℓ} {B : Type κ} (m : Fallible A) (f : A → Fallible B) (b : B)
    → m >>= f ≡ done b
    → (a : A) × (m ≡ done a) × (f a ≡ done b)
>>=-done (done a) f b h = (a, refl, h)
>>=-done (bail e) f b h = cc

pub tls_is_paired :
    (server : ServerConfig)
    → check_tls server ≡ done tt
    → server.allow_insecure_http ≡ false
    → (is_some server.tls_cert ≡ true) × (is_some server.tls_key ≡ true)
unfolding check_tls
tls_is_paired server h production = ground arith

pub lifetimes_are_bounded :
    (config : Config)
    → check_lifetimes config ≡ done tt
    → (1 ≤ config.network.ipc_timeout_seconds) × (config.network.ipc_timeout_seconds ≤ 30)
unfolding check_lifetimes
lifetimes_are_bounded config h = ground arith

pub users_differ :
    (config : Config)
    → check_users config ≡ done tt
    → config.network.control_uid ≢ some config.network.browser_uid
unfolding check_users
users_differ config h = ground arith

pub production_has_control_uid :
    (config : Config)
    → check_users config ≡ done tt
    → config.server.allow_insecure_http ≡ false
    → is_some config.network.control_uid ≡ true
unfolding check_users
production_has_control_uid config h production = ground arith

pub runtime_dir_is_accepted :
    (config : Config)
    → check_paths config ≡ done tt
    → runtime_dir_refused config.session.runtime_dir ≡ false
unfolding check_paths
runtime_dir_is_accepted config h = ground arith

stays_under_run :
    (paths : List (String × Text))
    → stay_under_run paths ≡ done tt
    → all (λ p. is_under (codes "/run") p.1) paths ≡ true
unfolding stay_under_run
stays_under_run [] h = refl
stays_under_run ((name, path) ∷ paths) h = ground (arith, stays_under_run paths)

production_paths_hold :
    (config : Config)
    → check_production_paths config ≡ done tt
    → stay_under_run (runtime_paths config) ≡ done tt
unfolding check_production_paths
production_paths_hold config h =
    let (_, q, _) = >>=-done (stay_under_run (runtime_paths config)) _ tt h in q

pub paths_are_under_run :
    (config : Config)
    → check_paths config ≡ done tt
    → config.server.allow_insecure_http ≡ false
    → all (λ p. is_under (codes "/run") p.1) (runtime_paths config) ≡ true
unfolding check_paths
paths_are_under_run config h production =
    stays_under_run (runtime_paths config) (production_paths_hold config (ground arith))

module _ (parsers : Parsers) where
  pub production_mode :
      (config : Config) (public_url : Url) (normalized_origins : List String)
      → check_mode parsers config public_url normalized_origins ≡ done tt
      → config.server.allow_insecure_http ≡ false
      → (str_eq public_url.scheme "https" ≡ true)
        × (config.server.secure_cookies ≡ true)
        × (config.browser.enabled ≡ true)
        × (config.network.enabled ≡ true)
        × (config.signaling.enabled ≡ true)
        × (any (λ origin. not (is_https_origin origin)) normalized_origins ≡ false)
  unfolding check_mode
  production_mode config public_url normalized_origins h production = ground arith

  pub development_mode :
      (config : Config) (public_url : Url) (normalized_origins : List String)
      → check_mode parsers config public_url normalized_origins ≡ done tt
      → config.server.allow_insecure_http ≡ true
      → (is_loopback config.server.listen.ip ≡ true)
        × (is_some_and public_url.host_str (λ host. is_loopback_host parsers.parse_ip (codes host))
            ≡ true)
  unfolding check_mode
  development_mode config public_url normalized_origins h development = ground arith

  pub managed_proxy_is_loopback :
      (name : String) (raw : Text)
      → check_managed_proxy parsers name raw ≡ done tt
      → (proxy : ValidatedProxy) × (validate_proxy_url parsers raw false ≡ done proxy)
        × (is_loopback proxy.endpoint.ip ≡ true)
  unfolding check_managed_proxy
  managed_proxy_is_loopback name raw h =
      elim (Fallible-cases (validate_proxy_url parsers raw false)) [
        | inl (proxy, q) ↦ (proxy, q, ground arith)
        | inr (e, q) ↦ ground arith
      ]
