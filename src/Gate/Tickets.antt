-- ===== src/Gate/Tickets.antt =====
-- The ticket queries of internal/gate: the owner of a bindable ticket, and the status of a ticket.
use theme_park_nftengine.Prelude.{
  ℕ, String, Bool, true, false, Option, none, some, List, [], ◌∷◌, ◌==◌, ◌&&◌, str_eq,
  if◌then◌else◌, find_by, update_where,
}
use theme_park_nftengine.Models.{Ticket, TicketStatus, active, used, expired, User}
use theme_park_nftengine.Errors.{gate_error, ticket_invalid, wrap, no_rows, is_no_rows}
use theme_park_nftengine.World.{State, Result, ok, err, M, Backend, call, catch, pure, raise}

-- `status NOT IN ('USED','EXPIRED')`.
abbrev pub is_bindable : TicketStatus → Bool
is_bindable used = false
is_bindable expired = false
is_bindable _ = true

abbrev pub is_active : TicketStatus → Bool
is_active active = true
is_active _ = false

abbrev pub names_ticket : String → Ticket → Bool
names_ticket ticket_id t = str_eq t.ticket_id ticket_id

abbrev pub names_user : ℕ → User → Bool
names_user id u = u.id == id

abbrev owner_of : List User → Ticket → Option String
owner_of users t = elim t.user_id [
  | none ↦ none
  | some id ↦ elim (find_by (names_user id) users) [ none ↦ none | some u ↦ some u.email ]
]

-- SELECT u.email FROM tickets t JOIN users u …: the first row of the join.
unfoldable pub owner_email : String → List User → List Ticket → Option String
owner_email ticket_id users [] = none
owner_email ticket_id users (t ∷ ts) =
    let rest = owner_email ticket_id users ts in
    if names_ticket ticket_id t && is_bindable t.status
    then elim (owner_of users t) [ none ↦ rest | some email ↦ some email ]
    else rest

unfoldable pub select_owner : String → State → Result String × State
select_owner ticket_id s = elim (owner_email ticket_id s.tables.users s.tables.tickets) [
  | none ↦ (err no_rows, s)
  | some email ↦ (ok email, s)
]

-- UPDATE tickets SET status = … WHERE ticket_id = …
unfoldable pub update_status : String → TicketStatus → State → Result (Unit {0}) × State
update_status ticket_id status s = (
  ok tt,
  record s {
    tables = record s.tables {
      tickets =
          update_where (names_ticket ticket_id) (λ t. record t { status = status })
            s.tables.tickets;
    };
  },
)

-- The same with `AND status='ACTIVE'`.
unfoldable pub redeem : String → State → Result (Unit {0}) × State
redeem ticket_id s = (
  ok tt,
  record s {
    tables = record s.tables {
      tickets =
          update_where (λ t. names_ticket ticket_id t && is_active t.status)
            (λ t. record t { status = used }) s.tables.tickets;
    };
  },
)

unfoldable pub ticket_owner_email : String → M String
ticket_owner_email ticket_id =
    catch (call Backend.postgres (select_owner ticket_id)) pure
      λ e. raise (if is_no_rows e then gate_error ticket_invalid else wrap "resolve ticket owner" e)

unfoldable pub set_ticket_status : String → TicketStatus → M (Unit {0})
set_ticket_status ticket_id status = call Backend.postgres (update_status ticket_id status)
