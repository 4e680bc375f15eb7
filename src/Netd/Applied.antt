-- ===== src/Netd/Applied.antt =====
-- src/netd.rs and src/bin/xanhtab-netd.rs: both ends of the socket.
use xanh_tab.Prelude.{ℕ, ◌≡◌, inl, inr, Option, some, arith}
use xanh_tab.Errors.{ok}
use xanh_tab.Model.{EgressMode}
use xanh_tab.Fallible.{done, bail, Fallible-cases}
use xanh_tab.Egress.{SocketAddr}
use xanh_tab.Netd.Rules.{Policy, policy_of}
use xanh_tab.Netd.Plans.{NetworkConfig}
use xanh_tab.Netd.Daemon.{Host, Node, transition}
use xanh_tab.Netd.FailClosed.{script}
use xanh_tab.Netd.Transition.{TransitionEnds, transition_fails_closed}
use xanh_tab.Netd.Service.{EgressResponse, authorize_peer_uid}
use xanh_tab.Netd.Client.{
  EgressRequest, apply, Exchange, read_error, response, request, request_of, apply_egress,
}
use xanh_tab.Netd.Handle.{handle, perform, answer}

module _ (host : Host) (config : NetworkConfig) where
  -- The socket between the control plane and netd: no line comes back where netd gives up.
  unfoldable pub socket : ℕ → Node → EgressRequest → Exchange EgressResponse
  unfolding handle
  socket control_uid n received = elim (handle host config control_uid (done received) n).0 [
    | done r ↦ response r
    | bail e ↦ read_error e
  ]

  -- netd, after a request of the control plane.
  unfoldable pub served : ℕ → EgressRequest → Node → Node
  unfolding handle
  served control_uid received n = (handle host config control_uid (done received) n).1

  -- Where the control plane takes a mode for applied, it is active in netd, and the table of the
  -- firewall is the script of a policy of that mode.
  pub applied_is_active :
      (control_uid : ℕ) (mode : EgressMode) (n : Node) (r : EgressResponse)
      → apply_egress (socket control_uid n) mode ≡ ok r
      → (r.active_mode ≡ mode)
        × ((served control_uid (request_of (apply mode)) n).active_mode ≡ some mode)
        × (endpoint : Option SocketAddr) × (policy : Policy) × (policy_of mode endpoint
            ≡ some policy)
        × ((served control_uid (request_of (apply mode)) n).loaded
            ≡ some (script host config policy))
  unfolding socket served apply_egress request request_of handle perform answer
  applied_is_active control_uid mode n r h =
      elim (Fallible-cases (authorize_peer_uid control_uid config.control_uid config.browser_uid)) [
        | inr (e, q) ↦ ground arith
        | inl (u, q) ↦ elim (Fallible-cases (transition host config mode n).0) [
          | inr (e, p) ↦ ground arith
          | inl (m, p) ↦
              let (same, active, (endpoint, policy, fits, loaded)) : TransitionEnds host config mode
                  n (done m) (transition host config mode n).1 =
                rw p at (transition_fails_closed host config mode n) in
              (ground arith, ground arith, endpoint, policy, fits, ground arith)
        ]
      ]
