-- ===== src/Api/Authorized.antt =====
-- src/api.rs: who is let on to a WebSocket.
use xanh_tab.Prelude.{
  ℕ, ◌≡◌, ◌<◌, refl, inl, inr, Bool, true, Option, none, some, arith, Option-cases,
}
use xanh_tab.Text.{Text}
use xanh_tab.Errors.{ok, Result-cases}
use xanh_tab.Model.{is_active}
use xanh_tab.Auth.State.{
  AuthContext, Ticket, TicketPurpose, Auth, AuthState, lookup, purpose_eq, for_events,
  for_signaling,
}
use xanh_tab.Auth.OneTime.{lookup-erase_self}
use xanh_tab.Auth.Access as Access
use xanh_tab.Session.State.{holds, ensure_active_lease, ensure_lease}
use xanh_tab.Session.Control as Control
use xanh_tab.App.{System, require_session_id}
use xanh_tab.Api.{Api}
use xanh_tab.Api.Sockets.{Message, WebSocketAuthFrame, read_frame, authorize_websocket}

purpose_eq→eq : (p q : TicketPurpose) → purpose_eq p q ≡ true → p ≡ q
purpose_eq→eq for_events for_events h = refl
purpose_eq→eq for_signaling for_signaling h = refl
purpose_eq→eq for_events for_signaling h = cc
purpose_eq→eq for_signaling for_events h = cc

module _ (auth : Auth) (now : ℕ) (token : Text) (purpose : TicketPurpose) (s : AuthState) where
  consume_finds :
      (context : AuthContext)
      → (Access.consume_ticket auth now token purpose s).0 ≡ ok context
      → (t : Ticket) × (lookup (auth.hash token) s.tickets ≡ some t)
        × (now < t.expires_at)
        × (t.generation ≡ s.generation)
        × (t.purpose ≡ purpose)
        × (t.client_id ≡ context.client_id)
  unfolding Access.consume_ticket
  consume_finds context h = elim (Option-cases (lookup (auth.hash token) s.tickets)) [
    | inl q ↦ ground arith
    | inr (t, q) ↦ (
      t,
      q,
      ground arith,
      ground arith,
      purpose_eq→eq t.purpose purpose (ground arith),
      ground arith,
    )
  ]

  consume_spends :
      lookup (auth.hash token) (Access.consume_ticket auth now token purpose s).1.tickets ≡ none
  unfolding Access.consume_ticket
  consume_spends = elim (Option-cases (lookup (auth.hash token) s.tickets)) [
    | inl q ↦ ground arith
    | inr (t, q) ↦ rw (q, Access.consume_ticket) (lookup-erase_self (auth.hash token) s.tickets)
  ]

module _ (api : Api) (parse_frame : Text → Option WebSocketAuthFrame) (incoming : Option Message)
    (sent : Bool) (now id : ℕ) (purpose : TicketPurpose) (s : System) where
  -- A WebSocket is authorized only by a ticket that is stored for its purpose, of the current
  -- generation and not past its end, whose client holds the lease of the active session with the
  -- id of the path; and that ticket is no longer stored.
  pub authorized_holds_lease :
      (authorize_websocket api parse_frame incoming sent now id purpose s).0 ≡ ok tt
      → (frame : WebSocketAuthFrame) × (t : Ticket) × (read_frame parse_frame incoming ≡ ok frame)
        × (lookup (api.app.auth.hash frame.ticket) s.auth.tickets ≡ some t)
        × (now < t.expires_at)
        × (t.generation ≡ s.auth.generation)
        × (t.purpose ≡ purpose)
        × (s.world.data_of.snapshot.id ≡ some id)
        × (holds s.world.data_of.controller t.client_id ≡ true)
        × (is_active s.world.data_of.snapshot.phase ≡ true)
        × (lookup
              (api.app.auth.hash frame.ticket)
              (authorize_websocket api parse_frame incoming sent now id purpose s).1.auth.tickets
            ≡ none)
  unfolding authorize_websocket require_session_id Control.ensure_controller ensure_active_lease
      ensure_lease
  authorized_holds_lease h = elim (Result-cases (read_frame parse_frame incoming)) [
    | inr (e, q) ↦ ground arith
    | inl (frame, q) ↦
        elim (Result-cases (Access.consume_ticket api.app.auth now frame.ticket purpose s.auth).0) [
          | inr (e, p) ↦ ground arith
          | inl (context, p) ↦
              let (t, stored, lives, current, fits, client) =
                consume_finds api.app.auth now frame.ticket purpose s.auth context p in
              let spent = consume_spends api.app.auth now frame.ticket purpose s.auth in
              (
                frame,
                t,
                q,
                stored,
                lives,
                current,
                fits,
                ground arith,
                rw client (ground arith),
                ground arith,
                ground arith,
              )
        ]
  ]
