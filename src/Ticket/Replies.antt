-- ===== src/Ticket/Replies.antt =====
-- Whether the status that a reply gives a ticket is one that the matrix allows.
use d_n_i_p.Prelude.{◌≡◌, Bool, true, false, ◌&&◌, not, arith}
use d_n_i_p.Ticket.Model.{
  TicketStatus, TicketSenderType, is_over, is_valid_ticket_transition, determine_status_on_reply,
}

abbrev pub is_staff : TicketSenderType → Bool
is_staff TicketSenderType.staff = true
is_staff _ = false

-- The status after a reply is one that the matrix allows, unless the reply is a public one of the
-- staff on a ticket that is RESOLVED or CLOSED, and then it is not.
pub determine_status_on_reply_allowed :
    (st : TicketStatus) (sender : TicketSenderType) (note : Bool)
    → is_valid_ticket_transition st (determine_status_on_reply st sender note)
      ≡ not (is_staff sender && not note && is_over st)
unfolding is_valid_ticket_transition determine_status_on_reply
determine_status_on_reply_allowed st sender note = ground arith
