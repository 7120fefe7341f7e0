-- ===== src/Lib.antt =====
-- Verification library of the backend: bookings, payments, groups of attendees, connections,
-- communities, notifications, sign-in and plans.
--
-- A user reserves a seat of a plan. A plan without a price confirms the booking at once; a plan with
-- one holds the seat for 15 minutes while the user pays. A full plan has a waitlist, whose head is
-- offered a seat for 30 minutes when one falls free. Payments asks bookings what a booking owes, asks
-- the gateway for the money, records the capture once, and confirms the booking; a cancellation gives
-- the seat up and is answered by a refund. The two parts meet at `BookingPort` alone. Apart from them,
-- the attendees of a plan are dealt into groups, so that shared interests are spread. Users ask one
-- another to connect, and are told of it by notifications, which nobody gets of a blocked user or in a
-- muted category. Communities let members in by their type. Sign-in, refresh and recovery give the
-- sessions that the users call with.
--
-- Bookings (internal/bookings)
--   Bookings/Types         the rows and errors; `Store` is the tables as lists of rows
--   Bookings/Create        repository.go: Create, seatConfirmedBooking, notifyHost; waitlist.go: activeHolds
--   Bookings/Waitlist      waitlist.go: offerFreedSeats, JoinWaitlist, LeaveWaitlist, SweepWaitlist
--     Queue, Offers, Rules   the order of the queue, the seats offered, joins, leaves and sweeps
--   Bookings/Lifecycle     repository.go: ConfirmPaid, ExpirePending, Cancel, CheckIn; lifecycle.go
--   Bookings/History       any sequence of these calls, each at its own time
--   Bookings/Seats         the invariant on `confirmed_count`; Reserve, Settle, Release and Invariant
--                          keep it call by call and over a history
--   Bookings/Outcomes, Confirmation, Cancellation, Attendance   what each call comes to
--   Bookings/Access, Quote, Pass, Service   access.go, pass.go, and the methods of service.go
--   Bookings/Tests         small tables, and the theorems applied to them
-- Payments (internal/payments)
--   Payments/Types         the rows and errors; `Money` is the tables
--   Payments/Capture, Refunds, Credits   repository.go, and the refunds of service.go
--     Bounds, Owed, Overflow   what refunds come to, and the wrap of their sum
--   Payments/Settlement    service.go: CreateOrder, MarkCaptured, VerifyOrder, over `BookingPort`;
--                          Port fills the port with Bookings, as adapters.go does
--   Payments/Tests         small tables, and the theorems applied to them
-- Groups of attendees (internal/smartgroups)
--   SmartGroups            balance.go: BuildGroups; Dealt and Sizes say where everyone goes and how
--                          large the groups get, Tests applies this
-- Connections (internal/connections)
--   Connections/Types      the rows; `Network` is them beside the other components' tables
--   Connections/Requests, Methods, MeetAgain   repository.go, service.go, meetagain.go
--   Connections/Pairs, History   one row for two users, kept over any sequence of calls
--   Connections/Bonds, Refused   the rows as an implementation of an abstract relation of two users
--   Connections/Groups     who is in a group of people who meet again
--   Connections/Rows, Tests   lemmas on rows; a small network, and the theorems applied to it
-- Communities (internal/communities)
--   Communities/Types, Members, Service   the rows, repository.go and service.go; `Clubs` is the tables
--   Communities/Owners, Admission, Tests   who owns a community and who gets in; a small community
-- Notifications (internal/notifications)
--   Notifications/Types    the rows; `Board` is the tables with the users and their blocks
--   Notifications/Emit, Inbox, Dispatch, Settings   emit.go, repository.go and service.go
--   Notifications/Unread, History   unread rows, and that none repeats
--   Notifications/Order, Limit, Pages   the pages of the inbox and a client that follows them
--   Notifications/Delivery, Tests   pushes and muted categories; small tables
-- Plans (internal/plans)
--   Plans/Types            the rows and errors; `Schedule` is the tables
--   Plans/Recurrence, Series   recurrence.go and series.go
--   Plans/Creation, Requests, Hosting   repository.go and service.go: CreatePlan; join requests; invites,
--                          saves and CancelPlan
--   Plans/Occurrences, Extension, Ending, Soundness   the times of a series, how it grows and ends, and
--                          what a created plan is like
--   Plans/Tests            a small series, and the theorems applied to it
-- Sign-in and sessions (internal/auth)
--   Auth/Types, Accounts, Credentials, Service   the rows, repository.go and service.go
--   Auth/Sessions, Recovery, Suspended   refresh tokens; identities and recovery codes; the recovery of
--                          an account that is not active
--   Auth/Tests             small tables, and the theorems applied to them
-- Prelude                  numbers and tests, tables as lists, results, signed amounts, sums of `int64`
--
-- An operation has the name of its method, in this library's spelling: `ConfirmPaid` is
-- `confirm_paid`. It takes the time, the keys that the database would draw, and the tables, and gives
-- the new tables or an error. A transaction that returns an error is rolled back, so an error carries
-- no tables; a method of several transactions gives the tables with the error too. Rows are found by
-- their key, and an UPDATE by primary key changes the first row with it.
--
-- Bounds: an id is a number and 0 is the empty string, or NULL where the column may be NULL; a time is
-- a number of microseconds; an amount is a number of minor units, signed for prices, charges and the
-- credit ledger. The sum of a refund and what was returned before is one of `int64`, which wraps, as
-- the staff may ask for any amount. Other sums, of seats, prices and amounts that were paid, stay far
-- below 2^31 and 2^63, and do not wrap. Every loop of the code goes over a list or a number of seats.
-- The 2,000 rounds of `Occurrences` are the code's own. Fuel bounds only `walk`, the client that asks
-- for one page after another: one page more than there are notifications is enough.
--
-- Not modelled: failures of the database itself, which roll back; the column check that a plan's
-- count fits its capacity, so that the theorems do not rest on it; several `time.Now()` in one call,
-- which is one time here; SKIP LOCKED, as a plan's lock is held; texts of notifications, titles and
-- logs. Redis, the entitlement check, the verification of a pass's signature, the payment gateway, Go's
-- sort, the hash of tokens, the verifiers of ID tokens, the senders of email and push, the chat, the
-- dates that Go's `time` makes in the zone of a city, the reading of numbers and dates in a text, the
-- media of a plan and every random draw are not part of these components, and are parameters or
-- arguments. Two calls at once appear only where the code reads before it locks (`confirm_read` and
-- `confirm_locked`). The reminders of bookings (internal/notifications/reminders.go) and the other
-- components of the repository are not modelled.
pub mod Prelude
pub mod Bookings
pub mod Payments
pub mod SmartGroups
pub mod Communities
pub mod Connections
pub mod Notifications
pub mod Plans
pub mod Auth
