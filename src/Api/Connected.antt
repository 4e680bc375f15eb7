-- ===== src/Api/Connected.antt =====
-- src/api.rs: `event_socket` and `signal_socket`, from the first message of the client to the end.
use xanh_tab.Prelude.{
  ℕ, ◌≡◌, ◌⊎◌, inl, inr, String, Bool, Option, none, some, List, [], ◌∷◌, if◌then◌else◌, arith,
}
use xanh_tab.Text.{Text}
use xanh_tab.Fallible.{Fallible, done, bail}
use xanh_tab.Errors.{ok, err, signaling_failure}
use xanh_tab.Model.{SessionSnapshot}
use xanh_tab.Auth.State.{for_events, for_signaling}
use xanh_tab.Session.State.{ServerEvent}
use xanh_tab.App.{System}
use xanh_tab.Api.{Api}
use xanh_tab.Api.Sockets.{
  Message, WebSocketAuthFrame, authorize_websocket, reject_websocket, Stimulus, forward,
}
use xanh_tab.Api.Relay.{Turn, Relayed, relay_signaling}

-- What a socket hands to its client behind the authorization: its events, with the snapshot first,
-- or the code of a refusal.
pub data Handed : Type 0 where
  snapshot : SessionSnapshot → Handed
  events : List ServerEvent → Handed
  refusal : String → Handed

module _ (api : Api) (parse_frame : Text → Option WebSocketAuthFrame) (incoming : Option Message)
    (sent : Bool) (now id : ℕ) where
  -- `event_socket`, where `snapshot_sent` is whether the snapshot could be sent.
  unfoldable pub event_socket :
      (SessionSnapshot → Option Text)
      → (ServerEvent → Option Text)
      → Bool
      → List Stimulus
      → System
      → List Handed × System
  event_socket encode_snapshot encode snapshot_sent stimuli system =
      let (r, after) = authorize_websocket api parse_frame incoming sent now id for_events system in
      let current = after.world.data_of.snapshot in
      let forwarded = events (forward encode stimuli) ∷ [] in
      (
        elim r [
          | err e ↦ refusal (reject_websocket e) ∷ []
          | ok _ ↦ elim (encode_snapshot current) [
            | none ↦ forwarded
            | some _ ↦ snapshot current ∷ (if snapshot_sent then forwarded else [])
          ]
        ],
        after,
      )

  -- `signal_socket`: a refusal, or what is relayed. The connection to the signaling server is
  -- `bail` where it fails.
  unfoldable pub signal_socket :
      Fallible (Unit {0}) → List Turn → System → (String ⊎ Relayed) × System
  signal_socket connected turns system =
      let (r, after) =
        authorize_websocket api parse_frame incoming sent now id for_signaling system in
      (
        elim r [
          | err e ↦ inl (reject_websocket e)
          | ok _ ↦ elim connected [
            | bail e ↦ inl (reject_websocket (signaling_failure e))
            | done _ ↦ inr (relay_signaling turns)
          ]
        ],
        after,
      )

  -- A client that is relayed was authorized, and the signaling server was reached.
  pub relayed_is_authorized :
      (connected : Fallible (Unit {0})) (turns : List Turn) (system : System) (relayed : Relayed)
      → (signal_socket connected turns system).0 ≡ inr relayed
      → ((authorize_websocket api parse_frame incoming sent now id for_signaling system).0 ≡ ok tt)
        × (connected ≡ done tt)
        × (relayed ≡ relay_signaling turns)
  unfolding signal_socket
  relayed_is_authorized connected turns system relayed h = ground arith
