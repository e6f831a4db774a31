-- ===== src/Lib.antt =====
-- Verification of the backend of roomies, a service in which the members of a house share expenses
-- (src/backend, in Go). What is modelled is the part that decides: who owes what, who may see and
-- change what, and what happens once only.
--
-- The parts and their files:
-- - Base and its modules: tests on numbers and lists, integers with the wrap-around of `int64`
--   (Base.Int), rearranged lists (Base.Perms), results of failing code (Base.Result), tables as lists of
--   rows with the statements of SQL (Base.Sql), transactions, which keep the old tables on an error
--   (Base.Tx), and relations that a chain of statements keeps (Base.Keeps).
-- - Models: the rows and bodies of src/backend/internal/models/models.go.
-- - Money: `moneyToCents` of src/backend/internal/handlers/expenses.go over the interface `Float64`.
-- - Splits: `validateVisibleUsers`, `buildSplits` and `buildCustomSplits` of the same file. Splits.Even
--   and Splits.Custom hold the proofs about the two ways to share.
-- - Balances: `GetBalances` and `calculateSettlements` of src/backend/internal/handlers/balances.go over
--   the interface `Sort`, which stands for `sort.Slice` and for the order in which Go walks a map.
--   Balances.Settle is about the settlements, Balances.Totals about the accounts, and Balances.Clears
--   joins them.
-- - Queue: the durable jobs and their outbox, `AcquireNextJob`, `CompleteOutboxJob` and `failOutboxJob`
--   of src/backend/internal/repository/jobs.go. Queue.Enqueue inserts a message with its job,
--   Queue.Candidate, Queue.Lease and Queue.Acquired are about taking one,
--   Queue.Fence about workers whose lease is over, Queue.Retry about the backoff.
-- - RateLimit: `WindowLimiter` of src/backend/internal/middleware/ratelimit.go, with RateLimit.Refines.
-- - Houses: members and roles, src/backend/internal/repository/houses.go and the handlers of
--   src/backend/internal/handlers/houses.go. Houses.Admins counts admins, Houses.Managed is about the
--   operations, Houses.Requests about sequences of requests.
-- - Expenses: src/backend/internal/repository/expenses.go and `visibleExpense`; Expenses.Stored is
--   about creating an expense, Expenses.Visible about who sees one. Expenses.Requests: the handlers of
--   src/backend/internal/handlers/expenses.go with src/backend/internal/handlers/authorization.go;
--   Expenses.Requests.Hidden is about expenses that the caller may not see, and Expenses.Requests.Foreign
--   (with Expenses.Requests.Steady and Expenses.Requests.Permitted) about those it may not change.
-- - Idempotency: src/backend/internal/repository/idempotency.go and the middleware of
--   src/backend/internal/middleware/idempotency.go around any handler; Idempotency.Replay.
-- - Invitations: src/backend/internal/repository/reliability.go. Invitations.Ops holds the
--   transactions, Invitations.Links `BuildInvitationAcceptanceURL`, Invitations.Requests the handlers of
--   src/backend/internal/handlers/invitations.go. Invitations.Notices and Invitations.Statements take
--   the transactions apart into SQL statements, so that a relation that respects each statement
--   (Invitations.Rows, Invitations.Unique) holds of all requests (Invitations.Runs).
--   Invitations.Accepting, Invitations.Acceptance, Invitations.Joining and Invitations.Progress are about
--   accepting one.
-- - Worker: one round of src/backend/internal/worker/worker.go on the queue and the invitations;
--   Worker.Sends is about the links it sends.
-- - Notifications: src/backend/internal/repository/notifications.go. The parent holds the rows and the
--   preferences, Notifications.Payload what is sent, Notifications.Times when (Notifications.Times.Quiet
--   is about quiet hours), Notifications.Enqueue `EnqueueTx` (Enqueue.Deliveries and
--   Enqueue.Once),
--   Notifications.Subscriptions the devices and Notifications.Dispatch `WithAuthorizedDispatch`, with
--   Dispatch.Targets about the devices it calls, Dispatch.Once about a second run, and Dispatch.Stable
--   and Dispatch.Revoked about what a run leaves as it is. Notifications.Devices is about registering a
--   device, Notifications.Revoking about revoking one, Notifications.Runs about sequences of all of these.
-- - Scheduler: `RunDueScheduledEvent` of src/backend/internal/repository/scheduler.go, with the saving and
--   deletion of events. Scheduler.Due is about one run, Scheduler.Occurrences and Scheduler.Runs about
--   many.
-- - Auth: the sessions of src/backend/internal/repository/users.go,
--   src/backend/internal/middleware/auth.go and src/backend/internal/handlers/auth.go; Auth.Accepted and
--   Auth.SignedOut. Auth.Accounts: registering, signing in and returning from WorkOS, with
--   Auth.Accounts.Rows, Auth.Accounts.Linked and Auth.Accounts.Protected.
-- - Household: src/backend/internal/repository/household.go. The parent holds what the versioned tables
--   share; Household.Groceries, Household.Chores and Household.Calendar are its three tables,
--   Household.Chat the messages and their retention. Household.Stale and Household.Refused are about
--   writers with an old version, Household.Once about completions, Household.Removed about texts that
--   were taken away, with Household.Removed.Deleted about those that their authors deleted.
--   Household.Requests holds handlers of
--   src/backend/internal/handlers/household.go; Household.Owned and Household.Foreign are about the rows
--   of other members.
-- - Examples: runs on small data.
--
-- How the parts meet: the expense handlers share an amount with Splits, which reads amounts with Money,
-- and store the result with the operations of Expenses; the balances read what Expenses stores; the
-- middleware of Idempotency stands before all handlers that change something; accepting an invitation
-- adds a member to the tables of Houses and a message to those of Queue; an occurrence of the scheduler is
-- enqueued as a notification, which reads the members of Houses and adds to the tables of Queue.
--
-- How the code is read:
-- - A transaction is one step from tables to tables or an error. Transactions happen in turn: the code
--   locks the row of the house, or the candidate row of the queue, for that.
-- - Identifiers, keys and worker names are numbers, since the code only compares them; 0 is the empty
--   text where the code tests for it. Times and durations are numbers of nanoseconds; the expiry of a
--   session token is in whole seconds, as its claim is.
-- - Counters of the database (attempts, lease generations) do not wrap.
-- - Sums, differences and negations of cents wrap as `int64` does; the theorems on balances, settlements
--   and stored splits name the bound under which they are exact.
-- - The loop of the settlements is recursion on fuel, the number of creditors and debtors, and each
--   round leaves one of them behind; all other loops are recursion on a list.
-- - The notification and the event of a created expense are an `Announcer`: two tests say whether
--   `EnqueueTx` and the INSERT of the event succeed, and an error of either undoes the creation.
-- - What a handler reads before its transaction is read from the same tables as the transaction's.
--
-- Code outside the repository is a parameter with what the code relies on: `float64` (Float64), sorting
-- (Sort), and as plain functions the identifiers of `models.NewID`, `strings.TrimSpace`, the parser of
-- dates, SHA-256, the length of a body, the JSON encoder that redacts a stored body, and the handler
-- behind the middleware; for invitations, the JSON of a notification, the hash of a token, the normal form
-- of an address, the URL library and the delivery cipher; for household domains, recurrence rules, time
-- zones and the date one year before; for notifications, the local time of a zone, the cipher, the hash,
-- the check of an address and the answers of the push services; for the scheduler, the recurrence rules;
-- for sign-ins, the token library, `bcrypt`, the check of an address, the functions on texts and what the
-- rate limiters answer.
--
-- Not modelled: failures of the database itself, foreign keys to users, the check on empty descriptions
-- in the table (the handlers refuse them before), the copies of amounts as floats, decoding JSON and
-- writing HTTP answers beyond their kind, cookies, the stream of house events, the reads of household
-- domains and the handlers of completions and of the chat, the worker's other tasks, the expansion of
-- recurrence rules, the handlers of notifications, notes, configuration and the process itself.
pub mod Base
pub mod Models
pub mod Money
pub mod Splits
pub mod Balances
pub mod Queue
pub mod RateLimit
pub mod Houses
pub mod Expenses
pub mod Household
pub mod Idempotency
pub mod Worker
pub mod Notifications
pub mod Scheduler
pub mod Auth
pub mod Invitations
pub mod Examples
