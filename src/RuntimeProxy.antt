-- ===== src/RuntimeProxy.antt =====
-- apps/api/src/runtime-proxy.ts: who may use a mount of the runtime proxy, and for which upstream.
-- A request's path is read up to its ticket by a pattern of the source; the model takes the ticket
-- that this finds. The database's `authorize` and `route` are parameters.
pub mod Tickets
pub mod Lifetime
pub mod Gate
pub mod Bridge
pub mod Headers
pub mod Response
pub mod DialHost
mod Tests
use botroost.Prelude.{
  ℕ, ◌+◌, String, Bool, true, false, not, ◌&&◌, ◌||◌, Option, none, some, List, [], ◌∷◌, ltb, leb,
  ◌==◌, text_test, number_test, if◌then◌else◌, length, keep, drop, Assoc, lookup, insert, erase,
  is_some,
}

pub record RuntimeTicket : Type 0 where
  pub endpoint_id : String
  pub port : ℕ
  pub workspace_id : String
  pub expires_at : ℕ

pub record TicketStore : Type 0 where
  pub entries : Assoc String RuntimeTicket
  pub ttl_ms : ℕ

abbrev pub ticket_limit : ℕ
ticket_limit = 512

abbrev pub is_live : ℕ → String × RuntimeTicket → Bool
is_live now e = ltb now e.1.expires_at

unfoldable pub sweep : ℕ → Assoc String RuntimeTicket → Assoc String RuntimeTicket
sweep now entries = keep (is_live now) entries

-- The oldest ticket goes where the store is full.
unfoldable pub make_room : Assoc String RuntimeTicket → Assoc String RuntimeTicket
make_room entries = if leb ticket_limit (length entries) then drop 1 entries else entries

-- `mint`, with the random token that it draws.
unfoldable pub mint : ℕ → String → String → ℕ → String → TicketStore → TicketStore
unfolding sweep make_room
mint now token endpoint_id port workspace_id s = record s {
  entries =
      insert token
        (record {
          endpoint_id = endpoint_id;
          port = port;
          workspace_id = workspace_id;
          expires_at = now + s.ttl_ms;
        })
        (make_room (sweep now s.entries));
}

unfoldable redeem_entry :
    ℕ → String → String → ℕ → Option RuntimeTicket → TicketStore → Option String × TicketStore
redeem_entry now token endpoint_id port none s = (none, s)
redeem_entry now token endpoint_id port (some entry) s =
    if leb entry.expires_at now
    then (none, record s { entries = erase token s.entries })
    else if not (entry.endpoint_id == endpoint_id) || not (entry.port == port)
    then (none, s)
    else (some entry.workspace_id, s)

-- `redeem`: the workspace of a live ticket for this mount.
unfoldable pub redeem : ℕ → String → String → ℕ → TicketStore → Option String × TicketStore
unfolding redeem_entry
redeem now token endpoint_id port s =
    redeem_entry now token endpoint_id port (lookup token s.entries) s

-- What the gate reads of a request: the mount's parameters (none where the port is no integer), the
-- ticket in its path, its method and its headers.
pub record Request : Type 0 where
  pub endpoint_id : String
  pub port : Option ℕ
  pub ticket : Option String
  pub method : String
  pub marker : Option String
  pub fetch_site : Option String
  pub fetch_mode : Option String
  pub accepts_html : Bool

abbrev is_text : String → Option String → Bool
is_text expected none = false
is_text expected (some value) = value == expected

-- `Boolean` of a header: missing and empty are false.
abbrev is_truthy : Option String → Bool
is_truthy none = false
is_truthy (some value) = not (value == "")

unfoldable pub is_safe : String → Bool
is_safe method = method == "GET" || (method == "HEAD" || method == "OPTIONS")

-- `fromConsole`
unfoldable pub from_console : Request → Bool
unfolding is_safe
from_console request =
    if is_safe request.method
    then true
    else if is_text "1" request.marker
    then true
    else is_text "same-origin" request.fetch_site && is_truthy request.fetch_mode

pub data Scheme : Type 0 where
  http https : Scheme

pub record RuntimeRoute : Type 0 where
  pub host : String
  pub port : ℕ
  pub scheme : Option Scheme
  pub base_path : Option String
  pub query : Option String

-- What a call of the database does: it answers, or throws.
pub data Answer {ℓ} (A : Type ℓ) : Type ℓ where
  answered : A → Answer A
  threw : Answer A

-- `RuntimeProxyOptions`
pub record Options : Type 0 where
  pub authorize : Request → String → ℕ → Answer String
  pub route : String → String → ℕ → Answer (Option RuntimeRoute)

pub data Refusal : Type 0 where
  endpoint_required invalid_port not_from_console not_found unavailable unreachable : Refusal

abbrev pub status_of : Refusal → ℕ
status_of endpoint_required = 400
status_of invalid_port = 400
status_of not_from_console = 403
status_of not_found = 404
status_of unavailable = 503
status_of unreachable = 409

pub record Target : Type 0 where
  pub target : RuntimeRoute
  pub workspace_id : String
  pub ticketed : Bool

pub data Resolved : Type 0 where
  refused : Refusal → Resolved
  resolved : Target → Resolved

unfoldable valid_port : Option ℕ → Option ℕ
valid_port none = none
valid_port (some port) = if ltb port 1 || ltb 65535 port then none else some port

module _ (options : Options) where
  -- The end of `resolveTarget`: the route of the workspace's endpoint.
  unfoldable route_to : String → String → ℕ → Bool → Resolved
  route_to workspace_id id port ticketed = elim (options.route workspace_id id port) [
    | threw ↦ refused unavailable
    | answered none ↦ refused unreachable
    | answered (some route) ↦
        resolved (record { target = route; workspace_id = workspace_id; ticketed = ticketed })
  ]

  -- A ticket names no workspace where it is stale or for another mount; an empty name counts as
  -- none.
  unfoldable ticket_owner : String → ℕ → Option String → Resolved
  unfolding route_to
  ticket_owner id port none = refused not_found
  ticket_owner id port (some owner) =
      if owner == "" then refused not_found else route_to owner id port true

  unfoldable session_owner : String → ℕ → Answer String → Resolved
  unfolding route_to
  session_owner id port threw = refused not_found
  session_owner id port (answered workspace_id) = route_to workspace_id id port false

  unfoldable by_credential :
      ℕ → Request → TicketStore → String → ℕ → Option String → Resolved × TicketStore
  unfolding ticket_owner session_owner
  by_credential now request s id port (some ticket) =
      (ticket_owner id port (redeem now ticket id port s).0, (redeem now ticket id port s).1)
  by_credential now request s id port none =
      if from_console request
      then (session_owner id port (options.authorize request id port), s)
      else (refused not_from_console, s)

  unfoldable at_port : ℕ → Request → TicketStore → Option ℕ → Resolved × TicketStore
  unfolding by_credential
  at_port now request s none = (refused invalid_port, s)
  at_port now request s (some port) =
      by_credential now request s request.endpoint_id port request.ticket

  -- `resolveTarget`
  unfoldable pub resolve_target : ℕ → Request → TicketStore → Resolved × TicketStore
  unfolding at_port valid_port
  resolve_target now request s =
      if request.endpoint_id == ""
      then (refused endpoint_required, s)
      else at_port now request s (valid_port request.port)
