-- ===== src/Ticket/Model.antt =====
-- The status matrix of tickets, and what a reply does to the status
-- (packages/database/src/domain/ticket-engine.ts).
use d_n_i_p.Prelude.{Bool, true, false, ◌||◌, if◌then◌else◌}

pub data TicketStatus : Type 0 where
  opened waiting_staff in_progress waiting_customer resolved closed : TicketStatus

pub data TicketSenderType : Type 0 where
  customer staff system : TicketSenderType

-- ALLOWED_TICKET_TRANSITIONS
unfoldable pub allowed : TicketStatus → TicketStatus → Bool
allowed TicketStatus.opened TicketStatus.opened = false
allowed TicketStatus.opened _ = true
allowed TicketStatus.waiting_staff TicketStatus.opened = false
allowed TicketStatus.waiting_staff TicketStatus.waiting_staff = false
allowed TicketStatus.waiting_staff _ = true
allowed TicketStatus.in_progress TicketStatus.opened = false
allowed TicketStatus.in_progress TicketStatus.in_progress = false
allowed TicketStatus.in_progress _ = true
allowed TicketStatus.waiting_customer TicketStatus.opened = false
allowed TicketStatus.waiting_customer TicketStatus.waiting_customer = false
allowed TicketStatus.waiting_customer _ = true
allowed TicketStatus.resolved TicketStatus.resolved = false
allowed TicketStatus.resolved TicketStatus.waiting_customer = false
allowed TicketStatus.resolved _ = true
allowed TicketStatus.closed TicketStatus.opened = true
allowed TicketStatus.closed _ = false

abbrev pub same_status : TicketStatus → TicketStatus → Bool
same_status TicketStatus.opened TicketStatus.opened = true
same_status TicketStatus.waiting_staff TicketStatus.waiting_staff = true
same_status TicketStatus.in_progress TicketStatus.in_progress = true
same_status TicketStatus.waiting_customer TicketStatus.waiting_customer = true
same_status TicketStatus.resolved TicketStatus.resolved = true
same_status TicketStatus.closed TicketStatus.closed = true
same_status _ _ = false

unfoldable pub is_valid_ticket_transition : TicketStatus → TicketStatus → Bool
unfolding allowed
is_valid_ticket_transition from to = same_status from to || allowed from to

abbrev pub is_over : TicketStatus → Bool
is_over TicketStatus.resolved = true
is_over TicketStatus.closed = true
is_over _ = false

unfoldable pub determine_status_on_reply : TicketStatus → TicketSenderType → Bool → TicketStatus
determine_status_on_reply current sender true = current
determine_status_on_reply current TicketSenderType.customer false =
    if is_over current then TicketStatus.opened else TicketStatus.waiting_staff
determine_status_on_reply current TicketSenderType.staff false = TicketStatus.waiting_customer
determine_status_on_reply current TicketSenderType.system false = current
