-- ===== src/Api/Sockets.antt =====
-- src/api.rs: the two WebSockets: who may open one, and what the events' socket sends.
--
-- `serde_json` is the parameters `parse_frame` and `encode`. What a socket gives is a list in the
-- order in which it comes, and whether a message could be sent stands with what it answers.
use xanh_tab.Prelude.{
  ℕ, String, Bool, true, false, not, ◌||◌, Option, none, some, List, [], ◌∷◌, ltb, if◌then◌else◌,
}
use xanh_tab.Text.{Text, codes, text_eq, byte_len}
use xanh_tab.Errors.{AppError, Result, ok, err, unauthorized, signaling_failure}
use xanh_tab.Model.{SessionPhase, idle, burning}
use xanh_tab.Auth.State.{TicketPurpose}
use xanh_tab.Auth.Access as Access
use xanh_tab.Session.State.{ServerEvent}
use xanh_tab.Session.Control as Control
use xanh_tab.App.{Operation, and_then, on_auth, on_world, require_session_id}
use xanh_tab.Api.{Api, Headers, give, validate_origin}

-- `axum::extract::ws::Message`; a close frame with its reason.
pub data Message : Type 0 where
  text : Text → Message
  binary ping pong : List ℕ → Message
  close : Option Text → Message

-- `WebSocketAuthFrame`
pub record WebSocketAuthFrame : Type 0 where
  pub kind : Text
  pub ticket : Text

-- The guards on what the client sends first, `none` where nothing comes in time or the socket ends.
unfoldable pub read_frame :
    (Text → Option WebSocketAuthFrame) → Option Message → Result WebSocketAuthFrame
unfolding text_eq byte_len
read_frame parse_frame (some (text payload)) =
    if ltb 256 (byte_len payload) then err unauthorized else elim (parse_frame payload) [
      | none ↦ err unauthorized
      | some frame ↦
          if not (text_eq frame.kind (codes "authenticate"))
            || ltb (byte_len frame.ticket) 40
            || ltb 128 (byte_len frame.ticket)
          then err unauthorized
          else ok frame
    ]
read_frame parse_frame _ = err unauthorized

module _ (api : Api) where
  -- `authorize_websocket`, where `sent` is whether its answer could be sent.
  unfoldable pub authorize_websocket :
      (Text → Option WebSocketAuthFrame)
      → Option Message
      → Bool
      → ℕ
      → ℕ
      → TicketPurpose
      → Operation (Unit {0})
  authorize_websocket parse_frame incoming sent now id purpose =
      and_then (give (read_frame parse_frame incoming)) (λ frame.
        and_then (on_auth (Access.consume_ticket api.app.auth now frame.ticket purpose)) (λ context.
          and_then (require_session_id id) (λ _.
            and_then (on_world (Control.ensure_controller context.client_id))
              (λ _. give (if sent then ok tt else err unauthorized)))))

  -- `session_events` and `session_signal`: whether the request becomes a socket.
  unfoldable pub session_events : Headers → ℕ → Operation (Unit {0})
  session_events headers id =
      and_then (give (validate_origin api.config headers)) (λ _. require_session_id id)

  unfoldable pub session_signal : Headers → ℕ → Operation (Unit {0})
  session_signal headers id = and_then (give (validate_origin api.config headers)) (λ _.
      and_then
        (give (
          if not api.config.signaling.enabled
          then err (signaling_failure "signaling relay is disabled")
          else ok tt))
        (λ _. require_session_id id))

-- The code that `reject_websocket` sends before it closes.
unfoldable pub reject_websocket : AppError → String
reject_websocket (signaling_failure _) = "SIGNALING_UNAVAILABLE"
reject_websocket _ = "AUTH_REQUIRED"

-- `Burning | Idle`
unfoldable pub ends : ServerEvent → Bool
ends event = elim event.session.phase [
  | burning ↦ true
  | idle ↦ true
  | SessionPhase.starting ↦ false
  | SessionPhase.active ↦ false
  | SessionPhase.failed ↦ false
]

-- What the loop of `event_socket` waits for: a message of the client, `none` where the socket ends
-- or fails, or the bus: an event that it hands over, with whether it can be sent, or the notice
-- that it has dropped events of a socket that lags.
pub data Stimulus : Type 0 where
  incoming : Option Message → Stimulus
  received : ServerEvent → Bool → Stimulus
  lagged closed : Stimulus

-- The loop of `event_socket`: the events whose text was handed to the socket.
module _ (encode : ServerEvent → Option Text) where
  unfoldable pub forward : List Stimulus → List ServerEvent
  unfolding ends
  forward [] = []
  forward (incoming none ∷ rest) = []
  forward (incoming (some (close _)) ∷ rest) = []
  forward (incoming (some (text _)) ∷ rest) = forward rest
  forward (incoming (some (binary _)) ∷ rest) = forward rest
  forward (incoming (some (ping _)) ∷ rest) = forward rest
  forward (incoming (some (pong _)) ∷ rest) = forward rest
  forward (lagged ∷ rest) = forward rest
  forward (closed ∷ rest) = []
  forward (received event sent ∷ rest) =
      let more = forward rest in
      elim (encode event) [
        | none ↦ more
        | some payload ↦ if not sent || ends event then event ∷ [] else event ∷ more
      ]
