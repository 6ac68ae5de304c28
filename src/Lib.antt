-- ===== src/Lib.antt =====
-- ADLTS core engine: bookings, accounts and their tokens, and the tests, devices and maneuvers.
--
-- The engine serves an automated driving licence test. The identity module (internal/identity)
-- keeps the accounts of candidates, experts, administrators and organizations, logs them in and
-- signs their tokens, which the guards of internal/platform/security check in front of every route.
-- Candidates book a test at an institute; the booking module (internal/booking) takes a booking
-- from verification over scheduling and payment to confirmation, and asks the testing core
-- (internal/testing) to create the test. The testing core runs the test: it reads the camera's
-- stream, cuts it into maneuvers by the QR cards it sees, and scores each maneuver. The other
-- modules (internal/appeal, internal/recording, internal/reporting) keep appeals, videos and
-- reports.
--
-- Prelude and the files under it hold the shared lemmas; Prelude/GoStrings.antt has Go's string
-- functions as functions on lists of codes.
--
-- Program.antt has programs over a database: a state, a tick, a value or an error, and the host
-- that says which queries fail; Program/Triple.antt the triples about them. The identity module
-- runs in it, and the booking and testing modules in monads of the same kind.
--
-- Security/Guards.antt has the claims, Manager.signWithTTL and Parse, Authenticate, RequireEntities
-- and RequireInternalToken; Refusals what a request that passes has brought, Sample a token library
-- for which the hypotheses hold. golang-jwt is the record Jwt, bcrypt two functions of the
-- environment.
--
-- Identity/Accounts.antt has the entities of internal/domain (person.go, org.go, superadmin.go,
-- invitation.go), Identity/World.antt the tables, the errors and what the service takes from
-- outside, Identity/Requests.antt the requests of internal/identity/dto.go. Identity/Repository has
-- the queries of internal/identity/repository.go (Rows.antt what they do to rows, Lookups.antt and
-- Writes.antt one operation for each method), Identity/Service the operations of
-- internal/identity/service.go: Registration.antt SeedSuperAdmin to ResendOTP, Login.antt Login and
-- RefreshToken, Passwords.antt ForgotPassword to ChangePassword, Invitations.antt the invitations,
-- Tokens.antt what they share. An operation is named as in the source, in snake case; a query that
-- has the name of an operation ends in _row. Reads, Reliable and Searches carry the proofs; Otp,
-- Guesses, Codes and Activation are about one-time codes, Entry, Renewal and Lockout about logins,
-- Signup, Resets, Hashes, Changes, Opening, Accepting, Acceptance, Scope and Cancellation about
-- registration, passwords and invitations. Identity/Handlers has the handlers of
-- internal/identity/handler.go, from the decoded
-- request to the status, the code and the tables (Auth.antt, Invites.antt, Persons.antt,
-- Organizations.antt with the super administrators), and Repository/Profiles.antt and Listings.antt
-- the queries that only they use; Lists has the handlers that list, and Self, Root and Hidden are
-- about the others. A handler of an operation of the service is named handle_ and the operation;
-- the five that set a status are set_candidate_status and so on. A body that does not decode and an
-- id that is no UUID are none. Passwords and times are as the code compares them: a length in
-- bytes, times in seconds.
--
-- Booking/Types.antt has the entities of internal/domain/booking.go, the identities of
-- internal/platform/security/security.go and the errors of internal/booking/dto.go;
-- Booking/Requests.antt the request bodies of dto.go and their Validate. Booking/World.antt has the
-- tables, what the service takes from outside, and the monad in which it runs. Booking/Repository
-- has the queries of internal/booking/repository.go (Rows.antt what they do to rows, Queries.antt
-- one operation for each method), Booking/Service the operations of internal/booking/service.go
-- (Lifecycle.antt CreateBooking to ArchiveBooking, Payment.antt InitiatePayment to ListPayments,
-- Slots.antt the slots), and Booking/Chapa.antt the pure functions of chapa_provider.go and
-- normalizeChapaStatus. An operation of the service is named as in the source, in snake case;
-- create_booking_for and list_bookings_for are Service.CreateBooking and Service.ListBookings, and
-- create_booking and list_bookings those of the repository. ScheduleBookingRequest and
-- RescheduleBookingRequest are SlotRequest. Booking/History.antt makes calls of the service one
-- after another.
--
-- Booking/Handlers.antt has the handlers of internal/booking/handler.go, from the decoded request
-- to the status, the code and the tables: each is named as in the source, with _request behind it,
-- and handle_chapa_webhook and handle_chapa_callback; Callbacks is about the latter two.
--
-- Booking/Triple.antt, Reads.antt and Reliable.antt carry the proofs: triples over the monad, what
-- the reads give, and what the queries give where none fails. Invariant proves what holds after
-- every history, Closed what becomes of closed bookings, Listing what a listing shows, Decisions,
-- Seats, Settlement and Proof what the operations do, Booking/Chapa/ what its functions do.
-- Examples applies the theorems to a small database.
--
-- State and failure. The tables are lists of rows. Each query, clock reading, generated id and
-- outside call is one tick of the world, and the environment says by tick which queries fail, what
-- the clock and the gateway say and which ids come; a failed query changes nothing, and an
-- operation that returns an error keeps what it wrote before, as the code does, which uses no
-- transactions. The environment stands for what is not under the repository's control: PostgreSQL's
-- answers, the clock, uuid.New and uuid.Parse, the payment gateway (the interface PaymentProvider)
-- and the HTTP call to the testing core. Hypotheses on it are named: a theorem about calls that
-- succeed says that no query fails, and the others hold whichever fail. Two calls in progress at
-- the same time are modelled only where a theorem says so, by running the tail of one after the
-- other.
--
-- Numbers. Ids and times are natural numbers; amounts, pages and capacities that a client sends are
-- integers. The int of Go has 64 bits, and no sum here comes near its bounds: counts grow by one. A
-- base-36 nonce is written with fuel of 13 digits, enough for any int64 time (below 36 ^ 13).
--
-- Testing/Segmenter.antt has ManeuverSegmenter of internal/testing/stream.go and the session that
-- Orchestrator.runLifecycle of internal/testing/scoring.go makes with it for one maneuver; what a
-- callback is given is an element of a list. Testing/QrEvents.antt has parseQREvent of
-- internal/testing/lane_client.go. Segments, Alternation and Scored prove what a session hands on,
-- calls and scores. Testing/Scoring.antt has the score and verdict of FinalizeTest and
-- ComputeWeightedTotal of internal/testing/scoring.go over an interface of the float operations,
-- whose laws hold for float64 with its NaN, and Verdict what they say. Testing/Store.antt has the
-- rows of tests and devices and the monad of the handlers, which is that of the booking module with
-- the failures of the testing core; Testing/Statements.antt the statements of
-- internal/testing/repository.go, and two of deviceCheckin, that move tests and devices,
-- Testing/Handlers.antt the handlers of internal/testing/handler.go that use them (deviceCheckin,
-- acknowledgeGuidelines, startTest, resultWebhook, adminAbortTest, deleteTestAdmin,
-- cancelTestByBooking), from the decoded request to the outcome, and expireStaleTests of
-- internal/testing/expiry.go. Testing/History.antt makes calls of the handlers one after another,
-- Keeps, Upkeep and Records prove what every row keeps, Checkin, Taking, Starting and Ending what
-- the handlers do. Commands to the device and the lane service's calibration and start change no
-- table here; whether they succeed is asked of the environment. A score is only stored, and stands
-- as the bits of its float64. The environment's failing queries stand also for refusals by a
-- constraint.
--
-- Not modelled: the JSON that the handlers answer with, ListActiveInstitutes, the dashboard, the
-- audit trail and the uploads of photos of the identity module, ChapaProvider's HTTP calls and
-- signatures (library code around the interface), mails, the plans, maneuvers, sessions and results
-- of the testing core, its orchestrator beyond a session, its other handlers, the other modules of
-- the engine, the Python services, and the columns that no operation here reads. Text is compared
-- as lists of codes; equal_fold folds ASCII and the two other letters that fold to ASCII ones.
pub mod Prelude
pub mod Program
pub mod Security
pub mod Booking
pub mod Identity
pub mod Testing
