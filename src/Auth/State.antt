-- ===== src/Auth/State.antt =====
-- src/auth.rs: the state of the authentication manager.
--
-- A digest of blake3 is a 256-bit number. `Instant` and `Duration` are numbers of nanoseconds, and
-- a `HashMap` is an association list with each key once.
use xanh_tab.Prelude.{
  ℕ, Bool, true, false, ◌&&◌, ◌||◌, Option, none, some, List, [], ◌∷◌, ◌==◌, ltb, if◌then◌else◌,
  is_some,
}
use xanh_tab.Text.{Text}

-- `HashMap`
abbrev pub Map {ℓ} : Type ℓ → Type ℓ
Map V = List (ℕ × V)

module _ {ℓ} {V : Type ℓ} where
  abbrev pub lookup : ℕ → Map V → Option V
  lookup k [] = none
  lookup k ((j, v) ∷ m) = if k == j then some v else lookup k m

  -- `HashMap::remove`, without the value that it returns.
  abbrev pub erase : ℕ → Map V → Map V
  erase k [] = []
  erase k ((j, v) ∷ m) = if k == j then erase k m else (j, v) ∷ erase k m

  abbrev pub insert : ℕ → V → Map V → Map V
  insert k v m = (k, v) ∷ erase k m

  -- `HashMap::retain` at a test on the value.
  abbrev pub retain : (V → Bool) → Map V → Map V
  retain p [] = []
  retain p ((j, v) ∷ m) = if p v then (j, v) ∷ retain p m else retain p m

  -- `HashMap::is_empty`
  abbrev pub is_empty : Map V → Bool
  is_empty [] = true
  is_empty (_ ∷ _) = false

  -- `values().any(...)`
  abbrev pub any_value : (V → Bool) → Map V → Bool
  any_value p [] = false
  any_value p ((_, v) ∷ m) = p v || any_value p m

-- `TicketPurpose`
pub data TicketPurpose : Type 0 where
  for_events for_signaling : TicketPurpose

abbrev pub purpose_eq : TicketPurpose → TicketPurpose → Bool
purpose_eq for_events for_events = true
purpose_eq for_signaling for_signaling = true
purpose_eq _ _ = false

pub record AuthSession : Type 0 where
  pub client_id : ℕ
  pub csrf_hash : ℕ
  pub expires_at : ℕ
  pub generation : ℕ

pub record Ticket : Type 0 where
  pub client_id : ℕ
  pub expires_at : ℕ
  pub generation : ℕ
  pub purpose : TicketPurpose

pub record AuthState : Type 0 where
  pub pairing_hash : Option ℕ
  pub manual_pairing_hash : Option ℕ
  pub sessions : Map AuthSession
  pub tickets : Map Ticket
  pub failed_pairings : ℕ
  pub locked_until : Option ℕ
  pub generation : ℕ

-- `AuthManager::new`
abbrev pub new : AuthState
new = record {
  pairing_hash = none;
  manual_pairing_hash = none;
  sessions = [];
  tickets = [];
  failed_pairings = 0;
  locked_until = none;
  generation = 0;
}

pub record AuthContext : Type 0 where
  pub client_id : ℕ
  pub generation : ℕ

-- `PairingMaterial`
pub record PairingMaterial : Type 0 where
  pub secret : Text
  pub manual_code : Text

pub record ExchangeResult : Type 0 where
  pub session_token : Text
  pub csrf_token : Text
  pub client_id : ℕ
  pub expires_in_seconds : ℕ

-- The two durations of `AuthManager`, and the functions of blake3, base64 and data_encoding.
pub record Auth : Type 0 where
  pub auth_ttl : ℕ
  pub ticket_ttl : ℕ
  pub hash : Text → ℕ
  pub encode_url_safe : List ℕ → Text
  pub encode_base32 : List ℕ → Text

abbrev pub max_pair_failures : ℕ
max_pair_failures = 5

-- 30 seconds.
abbrev pub pair_lockout : ℕ
pair_lockout = 30_000_000_000

-- The test of `prune_expired` on a session and on a ticket.
abbrev pub session_lives : ℕ → ℕ → AuthSession → Bool
session_lives now generation s = ltb now s.expires_at && s.generation == generation

abbrev pub ticket_lives : ℕ → ℕ → Ticket → Bool
ticket_lives now generation t = ltb now t.expires_at && t.generation == generation

unfoldable pub prune_expired : AuthState → ℕ → AuthState
prune_expired s now = record s {
  sessions = retain (session_lives now s.generation) s.sessions;
  tickets = retain (ticket_lives now s.generation) s.tickets;
}

-- `AuthManager::pairing_available`
unfoldable pub pairing_available : AuthState → Bool
pairing_available s = is_some s.pairing_hash || is_some s.manual_pairing_hash
