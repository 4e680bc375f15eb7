-- ===== src/Api/Relay.antt =====
-- src/api.rs: `relay_signaling`, between the client's socket and the signaling server's.
use xanh_tab.Prelude.{
  ℕ, ◌≡◌, refl, Bool, true, false, not, ◌||◌, Option, none, some, List, [], ◌∷◌, ◌++◌, arith, All,
  if◌then◌else◌,
}
use xanh_tab.Text.{Text}
use xanh_tab.Api.Sockets.{Message}

-- `tungstenite::Message`
pub data UpstreamMessage : Type 0 where
  text : Text → UpstreamMessage
  binary ping pong : List ℕ → UpstreamMessage
  close : Option Text → UpstreamMessage
  frame : UpstreamMessage

unfoldable pub to_upstream_message : Message → Option UpstreamMessage
to_upstream_message (Message.text value) = some (UpstreamMessage.text value)
to_upstream_message (Message.binary value) = some (UpstreamMessage.binary value)
to_upstream_message (Message.ping value) = some (UpstreamMessage.ping value)
to_upstream_message (Message.pong value) = some (UpstreamMessage.pong value)
to_upstream_message (Message.close _) = some (UpstreamMessage.close none)

unfoldable pub to_client_message : UpstreamMessage → Option Message
to_client_message (UpstreamMessage.text value) = some (Message.text value)
to_client_message (UpstreamMessage.binary value) = some (Message.binary value)
to_client_message (UpstreamMessage.ping value) = some (Message.ping value)
to_client_message (UpstreamMessage.pong value) = some (Message.pong value)
to_client_message (UpstreamMessage.close _) = some (Message.close none)
to_client_message UpstreamMessage.frame = none

-- What the loop waits for: the next message of either side, `none` at its end or its failure, with
-- whether it can be passed on.
pub data Turn : Type 0 where
  client : Option Message → Bool → Turn
  upstream : Option UpstreamMessage → Bool → Turn

-- What was handed to the two sockets before they are closed.
pub record Relayed : Type 0 where
  pub to_upstream : List UpstreamMessage
  pub to_client : List Message

abbrev pub silence : Relayed
silence = record { to_upstream = []; to_client = [] }

abbrev is_close : Message → Bool
is_close (Message.close _) = true
is_close _ = false

abbrev is_upstream_close : UpstreamMessage → Bool
is_upstream_close (UpstreamMessage.close _) = true
is_upstream_close _ = false

abbrev pub hand_up : UpstreamMessage → Relayed → Relayed
hand_up m r = record r { to_upstream = m ∷ r.to_upstream }

abbrev pub hand_down : Message → Relayed → Relayed
hand_down m r = record r { to_client = m ∷ r.to_client }

-- The loop of `relay_signaling`.
unfoldable pub relay_signaling : List Turn → Relayed
unfolding to_upstream_message to_client_message
relay_signaling [] = silence
relay_signaling (client none _ ∷ turns) = silence
relay_signaling (client (some incoming) sent ∷ turns) =
    let more = relay_signaling turns in
    elim (to_upstream_message incoming) [
      | none ↦ more
      | some message ↦
          hand_up message (if not sent || is_upstream_close message then silence else more)
    ]
relay_signaling (upstream none _ ∷ turns) = silence
relay_signaling (upstream (some incoming) sent ∷ turns) =
    let more = relay_signaling turns in
    elim (to_client_message incoming) [
      | none ↦ more
      | some message ↦ hand_down message (if not sent || is_close message then silence else more)
    ]

-- The messages of one side, in their order.
pub from_client : List Turn → List Message
from_client [] = []
from_client (client (some m) _ ∷ turns) = m ∷ from_client turns
from_client (_ ∷ turns) = from_client turns

pub from_upstream : List Turn → List UpstreamMessage
from_upstream [] = []
from_upstream (upstream (some m) _ ∷ turns) = m ∷ from_upstream turns
from_upstream (_ ∷ turns) = from_upstream turns

-- The content of a message: its kind and its bytes.
pub data Content : Type 0 where
  text binary ping pong : List ℕ → Content

pub content : Message → List Content
content (Message.text v) = Content.text v ∷ []
content (Message.binary v) = Content.binary v ∷ []
content (Message.ping v) = Content.ping v ∷ []
content (Message.pong v) = Content.pong v ∷ []
content (Message.close _) = []

pub upstream_content : UpstreamMessage → List Content
upstream_content (UpstreamMessage.text v) = Content.text v ∷ []
upstream_content (UpstreamMessage.binary v) = Content.binary v ∷ []
upstream_content (UpstreamMessage.ping v) = Content.ping v ∷ []
upstream_content (UpstreamMessage.pong v) = Content.pong v ∷ []
upstream_content _ = []

-- Neither side ends, fails or closes.
unfoldable pub Open : Turn → Type 0
Open (client (some m) sent) = (sent ≡ true) × (is_close m ≡ false)
Open (upstream (some m) sent) = (sent ≡ true) × (is_upstream_close m ≡ false)
Open _ = ⊥

pub contents : List Message → List Content
contents [] = []
contents (m ∷ ms) = content m ++ contents ms

pub upstream_contents : List UpstreamMessage → List Content
upstream_contents [] = []
upstream_contents (m ∷ ms) = upstream_content m ++ upstream_contents ms

-- While both sides stay, whatever the order in which they speak, each gets the other's messages
-- with their kinds and bytes, in the other's order, and nothing else.
pub relay_keeps_order :
    (turns : List Turn)
    → All Open turns
    → (upstream_contents (relay_signaling turns).to_upstream ≡ contents (from_client turns))
      × (contents (relay_signaling turns).to_client ≡ upstream_contents (from_upstream turns))
unfolding relay_signaling from_client from_upstream content upstream_content contents
    upstream_contents Open
relay_keeps_order [] h = (refl, refl)
relay_keeps_order (client none sent ∷ turns) h = absurd h.0
relay_keeps_order (upstream none sent ∷ turns) h = absurd h.0
relay_keeps_order (client (some m) sent ∷ turns) h =
    ground (arith, relay_keeps_order turns h.1, h.0)
relay_keeps_order (upstream (some m) sent ∷ turns) h =
    ground (arith, relay_keeps_order turns h.1, h.0)
