-- ===== src/Api/Stream.antt =====
-- src/api.rs: which events a client sees.
use xanh_tab.Prelude.{
  ◌≡◌, refl, true, Option, none, some, List, [], ◌∷◌, arith, All, if◌then◌else◌, is_some,
}
use xanh_tab.Text.{Text}
use xanh_tab.Session.State.{ServerEvent}
use xanh_tab.Api.Sockets.{
  text, binary, ping, pong, close, Stimulus, incoming, received, lagged, closed, ends, forward,
}

-- The events that the bus handed to the socket.
unfoldable pub received_events : List Stimulus → List ServerEvent
received_events [] = []
received_events (received event _ ∷ rest) = event ∷ received_events rest
received_events (_ ∷ rest) = received_events rest

-- Events up to the first that ends the stream, with it.
unfoldable pub until_end : List ServerEvent → List ServerEvent
unfolding ends
until_end [] = []
until_end (event ∷ rest) =
    let more = until_end rest in if ends event then event ∷ [] else event ∷ more

-- Neither the client nor the bus ends the socket, and every message can be sent.
unfoldable pub Undisturbed : (ServerEvent → Option Text) → Stimulus → Type 0
Undisturbed encode (incoming none) = ⊥
Undisturbed encode (incoming (some (close _))) = ⊥
Undisturbed encode (incoming (some _)) = Unit
Undisturbed encode lagged = Unit
Undisturbed encode closed = ⊥
Undisturbed encode (received event sent) = (sent ≡ true) × (is_some (encode event) ≡ true)

module _ (encode : ServerEvent → Option Text) where
  -- Whatever the socket and the bus do, nothing is sent behind an event of a burning or idle
  -- session.
  pub nothing_follows_the_end :
      (stimuli : List Stimulus) → until_end (forward encode stimuli) ≡ forward encode stimuli
  unfolding forward until_end
  nothing_follows_the_end [] = refl
  nothing_follows_the_end (incoming none ∷ rest) = refl
  nothing_follows_the_end (incoming (some (close _)) ∷ rest) = refl
  nothing_follows_the_end (incoming (some (text _)) ∷ rest) = nothing_follows_the_end rest
  nothing_follows_the_end (incoming (some (binary _)) ∷ rest) = nothing_follows_the_end rest
  nothing_follows_the_end (incoming (some (ping _)) ∷ rest) = nothing_follows_the_end rest
  nothing_follows_the_end (incoming (some (pong _)) ∷ rest) = nothing_follows_the_end rest
  nothing_follows_the_end (lagged ∷ rest) = nothing_follows_the_end rest
  nothing_follows_the_end (closed ∷ rest) = refl
  nothing_follows_the_end (received event sent ∷ rest) =
      ground (arith, nothing_follows_the_end rest)

  -- To a client that stays, over a bus that stays, where every message can be encoded and sent,
  -- each event is sent that the bus hands to the socket, in their order, up to the first of a
  -- burning or idle session, and no other. Events that the bus drops where the socket lags behind
  -- it are not handed to the socket.
  pub stream_is_complete :
      (stimuli : List Stimulus)
      → All (Undisturbed encode) stimuli
      → forward encode stimuli ≡ until_end (received_events stimuli)
  unfolding forward until_end received_events Undisturbed
  stream_is_complete [] h = refl
  stream_is_complete (incoming none ∷ rest) h = absurd h.0
  stream_is_complete (incoming (some (close _)) ∷ rest) h = absurd h.0
  stream_is_complete (incoming (some (text _)) ∷ rest) h = stream_is_complete rest h.1
  stream_is_complete (incoming (some (binary _)) ∷ rest) h = stream_is_complete rest h.1
  stream_is_complete (incoming (some (ping _)) ∷ rest) h = stream_is_complete rest h.1
  stream_is_complete (incoming (some (pong _)) ∷ rest) h = stream_is_complete rest h.1
  stream_is_complete (lagged ∷ rest) h = stream_is_complete rest h.1
  stream_is_complete (closed ∷ rest) h = absurd h.0
  stream_is_complete (received event sent ∷ rest) h =
      ground (arith, stream_is_complete rest h.1, h.0)
