-- ===== src/Ticket/Examples.antt =====
-- A reply of the staff on a ticket that is CLOSED. The theorem is applied here.
use d_n_i_p.Prelude.{◌≡◌, false}
use d_n_i_p.Ticket.Model.{
  TicketStatus, TicketSenderType, is_valid_ticket_transition, determine_status_on_reply,
}
use d_n_i_p.Ticket.Replies.{determine_status_on_reply_allowed}

determine_status_on_reply_allowed_example :
    is_valid_ticket_transition TicketStatus.closed
      (determine_status_on_reply TicketStatus.closed TicketSenderType.staff false)
    ≡ false
determine_status_on_reply_allowed_example =
    determine_status_on_reply_allowed TicketStatus.closed TicketSenderType.staff false
