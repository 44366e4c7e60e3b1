-- ===== src/Lib.antt =====
-- Khel Arena: booking futsal courts and paying for them, as the Go service under internal/ does it.
--
-- The program has three layers. internal/domain holds rules without I/O; internal/postgres holds one
-- transaction for each change of the tables; internal/service calls both, and the HTTP layer of
-- internal/api calls the services. The model follows the layers.
--   Domain      internal/domain: Errors (errors.go), Enums (enums.go), Slot (slot.go; Clock is what it
--               takes from `time`), Pricing (pricing.go), Booking (booking.go), Payment
--               (paymentar.go), Grid (availability.go), Call (matchmaking.go), Match (team.go),
--               Tournament (tournament.go), Team (names and codes of team.go), Slug and
--               Arena (arena.go), User (the password rule of user.go), Text (`strings`), and Word (the
--               wrap-around of integers).
--   Store       internal/postgres: Tables (the rows, the constraints of migrations/, InTx of db.go),
--               Bookings, Cancellation and Sweeps (booking.go, and the sweep of service/janitor.go),
--               Payments and Cash (payment.go), Ranges (BookedRanges of availability.go), Calls
--               (matchmaking.go, with the trigger of migrations/0007_matchmaking.sql), Matches
--               (match.go), Sessions and Accounts (session.go, user.go), Squads (team.go), Brackets
--               (tournament.go, with the trigger of migrations/0006_tournaments.sql), Venues
--               (arena_admin.go, under migrations/0003_arenas.sql), Reviews (review.go, with
--               the trigger of migrations/0008_arena_reviews.sql). Invariant
--               says when the tables are sound; Updates and Changes say what an UPDATE keeps; Holds,
--               Settling, Standing and Soundness prove what the transactions do; Tenure
--               is about the bookings that have their court, and what each transaction leaves of one.
--   Service     internal/service: Bookings (booking.go: Create, Cancel), Availability (booking.go),
--               Payments (payment.go: Checkout, Settle), Matches (match.go), Calls (matchmaking.go),
--               Auth (auth.go), Squads (team.go), Brackets (tournament.go), Owner (owner.go), Reviews
--               (review.go), and Runs, the sequences of the bookings' and payments' transactions, through which Tenure follows a booking that is paid for; Auth.Steps are
--               the sequences of the calls on sessions.
--   Tests       runs on concrete inputs.
--
-- State. The tables of bookings and payments are the record `Db` of lists; those of community calls
-- (`Board`), of results (`League`), of accounts and their tokens (`Vault`), of teams (`Squads`), of
-- entries in tournaments (`Brackets`), of venues (`Venues`) and of reviews (`Reviews`) are records of
-- their own, since no transaction joins them but the closing of a cancelled booking's posts, which is
-- a change of their status in `Db`, and what the deletion of a user, a team or a tournament takes with
-- it, which is not modelled. A statement is a function on whole tables, a transaction a function from
-- the tables to a result and the tables, and `in_tx` undoes one that fails. A transaction is one step:
-- each takes a lock on the rows, or the advisory lock on the slot, that it decides on, so what happens
-- inside two of them is not interleaved in the model. The constraints of the migrations are tested
-- where a statement can break them.
--
-- Numbers. An instant is the nanoseconds since Go's zero time, so that IsZero is the test for 0;
-- `Sub` saturates at 64 bits as in Go. An `int` is ℤ, and does not overflow where prices and
-- minutes stay far from 64 bits; the shares of a prize split, which no check bounds, are added and
-- multiplied with the wrap-around of 64 bits, and stored with that of 32 (Domain.Word).
-- Identifiers, transaction names, gateway references and raw responses are numbers that are only
-- compared, and 0 is the nil or empty one. A text is the list of its runes. A time zone is a
-- `Location`: the wall clock at an instant, and the instant of a day's midnight; `IsFixed` says
-- that its offset never changes, which is so of Asia/Kathmandu.
--
-- Fuel. Only the loop of BuildGrid runs on fuel, `capacity` turns of it, the number that the code
-- allocates for. `build_grid-cells` shows that the loop has ended by then. All else is structural.
--
-- Parameters. gen_random_uuid() and uuid.NewString() are arguments, fresh where a theorem needs that
-- (`IsFreshBooking`); so are the clocks of the service and of the database, the end of a ban of one
-- calendar month (`ban_end`), and the gateway: which account a booking resolves to, whether it takes
-- the player to its page, and what it answers about a payment, an error included. Of AuthService, the
-- hash of a password, the check of one against a hash, the digest of a token and the issuing of an
-- access token are parameters, and the tokens and salts that it draws are arguments; the random source
-- and the signing do not fail.
--
-- Not modelled: messages beyond their format strings and the causes inside an error; lists for
-- display; updated_at of rows that change; jsonb columns; foreign keys beyond those of a booking to
-- its court and player, of a payment to its booking, and of the members of a team to the users;
-- CHECKs that the code cannot break, as that of a timestamp on a verified payment; failures of the
-- database itself; and what a service's read sees when another request writes before its own write,
-- in the services of matches, teams and tournaments. The pages of arenas, photos and highlights,
-- the registration of accounts, the HTTP layer and the gateways are left out.
mod Prelude
pub mod Domain
pub mod Store
pub mod Service
mod Tests
