-- ===== src/Netd/Client.antt =====
-- src/netd.rs: the control plane's side of the socket to netd.
--
-- What the socket does is `Exchange`: which call on it fails, and the line that comes back, where
-- `none` is one that `serde_json` refuses. The time of the request may run out.
use Prim.Native.String.{◌++◌ as ◌+++◌}
use xanh_tab.Prelude.{ℕ, String, true, if◌then◌else◌}
use xanh_tab.Errors.{Result, ok, err, service_unavailable}
use xanh_tab.Model.{EgressMode, direct}
use xanh_tab.Netd.Service.{EgressResponse}

pub data EgressCommand : Type 0 where
  apply : EgressMode → EgressCommand
  reset status : EgressCommand

pub record EgressRequest : Type 0 where
  pub version : ℕ
  pub command : EgressCommand

-- The calls of `request_unbounded`, each with its error: `connect`, `write_all`, `read_line` and
-- the parser of the line.
pub data Exchange (Response : Type 0) : Type 0 where
  connect_error write_error read_error parse_error : String → Exchange Response
  timed_out : Exchange Response
  response : Response → Exchange Response

-- `SocketEgress::request`: its request, and what its answer comes to.
unfoldable pub request_of : EgressCommand → EgressRequest
request_of command = record { version = 1; command = command }

unfoldable pub request : Exchange EgressResponse → Result EgressResponse
request (connect_error e) = err (service_unavailable (◌+++◌ "netd connect: " e))
request (write_error e) = err (service_unavailable (◌+++◌ "netd write: " e))
request (read_error e) = err (service_unavailable (◌+++◌ "netd read: " e))
request (parse_error e) = err (service_unavailable (◌+++◌ "netd response: " e))
request timed_out = err (service_unavailable "network helper timed out")
request (response r) = if r.ok then ok r else err (service_unavailable r.detail)

-- The two operations of `EgressBackend`, over a socket that answers by the request.
module _ (socket : EgressRequest → Exchange EgressResponse) where
  unfoldable pub apply_egress : EgressMode → Result EgressResponse
  unfolding request request_of
  apply_egress mode = request (socket (request_of (apply mode)))

  unfoldable pub reset_egress : Result EgressResponse
  unfolding request request_of
  reset_egress = request (socket (request_of reset))

-- `MockEgress`: the answer, and the mode that it holds.
unfoldable pub mock_apply : EgressMode → Result EgressResponse × EgressMode
mock_apply mode =
    (ok (record { ok = true; active_mode = mode; detail = "mock egress applied" }), mode)

unfoldable pub mock_reset : Result EgressResponse × EgressMode
unfolding mock_apply
mock_reset = mock_apply direct
