-- ===== src/Lib.antt =====
-- Verification library of the platform's domain engines, the functions that decide who may use
-- what: the sale and the payment of orders, the delivery of outbox events, jobs that send e-mail, the issue and the end of rights, the licence keys that the platform manages itself, the
-- licences that an external provider manages, the books, and support tickets. Paths are from the repository's
-- root.
--
-- The parts and how they interact. The checkout of a cart makes an order with its items and a
-- pending payment (apps/api/src/modules/orders/orders.service.ts). An event of a payment
-- provider, or a query of it, ends the payment and pays the order, and writes an ORDER_PAID row
-- to the outbox (apps/api/src/modules/payments/payments.service.ts). The worker delivers the rows
-- of the outbox, with retries (apps/worker/src/outbox-processor.ts), and so calls the engines. A
-- paid order gives rights, one entitlement for each item
-- (packages/database/src/domain/entitlement-engine.ts). An entitlement with internal
-- fulfilment gives a licence key, which sites activate on their domains
-- (packages/database/src/domain/internal-license-engine.ts). One with external fulfilment gives
-- allocations of seats on the accounts of a provider, which administrators confirm by hand
-- (packages/database/src/domain/allocation-engine.ts). The payment is booked by double entry
-- (packages/database/src/domain/ledger-engine.ts, packages/utils/src/tax-utils.ts). The API and
-- the worker call these functions; the worker runs the sweeps. All share the database of
-- packages/database/prisma/schema.prisma, and the entitlements table is what the licence and the
-- allocation engine read of the entitlement engine.
--
-- How the code is modelled.
-- - A table is the list of its rows, in Prelude/Tables: `find?` for findFirst and findUnique,
--   `count_where` for count, `update_where` for update and updateMany, `take` for LIMIT. The laws
--   of these queries are in Prelude/Rows and Prelude/Batches.
-- - An interactive transaction is an action of the monad of Tx; `transaction` commits what an
--   action that returns has done, and rolls back all of it if the action throws. The engines
--   lock the rows that they decide on, so transactions on the same rows run one after another,
--   and a history is a sequence of calls (License/Calls, Allocation/Calls, Payment/Spec/History). A row that another
--   transaction holds is left out by SKIP LOCKED; which rows are held is an argument. The issue
--   of entitlements takes no lock and relies on a unique index: there the row that a rival
--   commits between look-up and insert is an argument.
-- - Ids, hashes and normalized domains, which the code only compares, are numbers; so are times,
--   in milliseconds since 1970. Columns that may be negative are the integers of Prelude/Int.
--   Texts that the code takes apart are lists of code units (Text), metadata is JSON (Json).
-- - Errors are values, one constructor for each message. New ids, the clock and what comes from
--   node's crypto, the URL parser or the licence key utilities are arguments.
--
-- The files.
-- - Checkout/Model: the tables of a checkout. Checkout/Pricing: the checks of items and prices,
--   and the order items. Checkout/Orders: the transaction of checkout. Checkout/Keys: the
--   idempotency keys, pollIdempotencyResponse, and checkout; what a waiting request reads of the
--   key is a list, which ends with its time. The proofs: Totals, Placed (what a checkout has
--   stored), Amounts, Once, Issuable (its items and the entitlement engine) and Joined (its tables
--   and those of the payments).
-- - Payment/Model: the payment tables. Payment/Events: processAuthoritativePaymentEvent.
--   Payment/Callback: processTestCallback. Payment/Sessions: createPaymentSession, in three parts
--   between which other calls may come. Payment/Reconcile: reconcilePayment. The proofs: Outcome
--   (what an event that returned has done), Repeat, Paying and Exact. Payment/Spec is the
--   abstract state machine of payments and orders, with its Invariant; Spec/Abstract is the view
--   of the tables, Spec/Valid their validity, Spec/Refine, Spec/Callbacks, Spec/Attempts and
--   Spec/Placing show that each call and each checkout is a move, and Spec/History takes sequences of calls.
-- - Outbox/Model: the outbox table. Outbox/Dispatch: the handling of an event by its type, with
--   the handlers as parameters. Outbox/Process: processOutboxEvents. The proofs: Delivery,
--   Retries and Fits, and Attempt and Ends about runs whose handlers fail; what else happens to
--   the table before and during a run, and the time at which each event is settled, are
--   arguments.
-- - Jobs/Model: the automation jobs and the matrix of their statuses. Jobs/Claim:
--   claimDueAutomationJobs. Jobs/Enqueue: the two functions that enqueue e-mail jobs
--   (packages/database/src/domain/automation-engine.ts). The proofs: Attempts and Sent.
-- - Entitlement/Model: the entitlements table. Entitlement/Calendar: addUtcMonths, with the UTC
--   calendar of Date; the search of the year has as much fuel as there are days, and each year
--   takes off more than one; a time past the range of a Date is none. Entitlement/Policy:
--   calculateExpirationDate, the dates of an item and the check of its snapshot. Entitlement/Issue: issueEntitlementsForOrder. Entitlement/Expire:
--   expireDueEntitlements. The proofs: Days (the calendar), Dates
--   (addUtcMonths), Ranges, Rights, Issued, Once, Expired.
-- - License/Model: the licence tables. License/Activation: activateInternalLicense,
--   validateInternalLicense and deactivateInternalLicense. License/Customer: what a customer sees
--   and does. License/Admin: adminRevokeLicense and the lists. License/Worker:
--   provisionInternalLicenses and reconcileInternalLicenses. The proofs: Capacity and Seats (the
--   seats), Provision, Revocation, RoundTrip and Sweeps.
-- - Allocation/Model: the provider tables. Allocation/Requests: requestDomainAllocation and
--   requestAllocationDeactivation. Allocation/Review: adminActivateAllocation,
--   adminRejectAllocation and adminConfirmDeactivated. Allocation/Accounts: the provider
--   accounts. Allocation/Reconcile: reconcileExternalAllocations. The proofs: Outcome (what a
--   call that returned has found), Seats, Leave, Enter and Capacity (the seats), Lifecycle and
--   Endings (the state machine), Statuses, Settled and Truth (the status of an account),
--   Granted, Secrets and Clean (metadata). Json and Json/Secrets: assertSafeMetadata.
-- - Ledger/Model: the builders of entries, isZeroSumLedger and calculateLedgerBalances.
--   Ledger/Tax: calculateTaxMinor. The proofs: Booking, Orders, Equation and Reversal.
-- - Ticket/Model: the status matrix of support tickets and the status after a reply
--   (packages/database/src/domain/ticket-engine.ts). The proof: Replies.
-- - The files called Examples apply the theorems to concrete tables.
--
-- Not modelled: the normalization of domains and the licence key cryptography, which are
-- arguments; the branches that run only under NODE_ENV test; columns and audit details that only
-- repeat texts for display; the other rules of tickets; the status matrices of hosting, services, memberships
-- and content; the workers that run the automation jobs; the handlers of outbox events but for the
-- issue; the adapters of payment providers, the check of redirect URLs and the throttled
-- refresh; the carts; the download engine; the request handling of the API, the SDK and the user interfaces.
-- Two transactions that lock different rows are taken one after another, so what depends on
-- their interleaving under READ COMMITTED is outside the model, except for the issue.
pub mod Checkout
pub mod Outbox
pub mod Payment
pub mod Prelude
pub mod Tx
pub mod Text
pub mod Jobs
pub mod Json
pub mod Entitlement
pub mod License
pub mod Allocation
pub mod Ledger
pub mod Ticket
