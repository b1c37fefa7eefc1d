-- ===== src/Lib.antt =====
-- CarPayIn: a parking lot that a car pays by itself. The parking lot's server (services/pms) keeps
-- the sessions of parked vehicles, answers the cameras at entry and exit, computes the fee and is
-- told of payments by the backend (services/carpayin-backend), which charges the vehicle's card
-- through a payment gateway (PG) and announces payments to the app.
--
-- Base holds the shared names, Integer Python's int; Exec the monad of Python methods that change
-- state and may raise, with what such a method keeps (Exec.Keeps) and how a run is taken apart
-- (Exec.Run). Table, Redis and DateTime are the interfaces to what is not code of this repository:
-- a database table behind SQLAlchemy, a Redis client, and the ISO texts of datetimes. Each is a
-- record of operations with a record of laws, and each has an instance in memory (Table.Memory,
-- Redis.Memory, DateTime.Unary) that shows the laws can hold.
--
-- Pms is services/pms/app. Pms.Models has the rows of infra/db/models.py, the declared constraints
-- as Boolean tests (a row that fails one is refused with `integrity_error`), and the state: two
-- tables, two Redis keyspaces and the log of calls to other processes. Pms.Sessions, Pms.Payments
-- and Pms.Stores have the repositories and the Redis stores, one function per method; Pms.Entry,
-- Pms.Exit, Pms.Payments and Pms.Fee the services of application/pms, one function per service and
-- a helper for each branch. Pms.Paid and Pms.System relate paid sessions to payments over any
-- sequence of requests; Pms.Flow follows one vehicle through entry, payment and exit.
--
-- Backend is services/carpayin-backend/app. Backend.Models has the rows of infra/db/models.py and
-- the values of infra/redis/stores.py, Backend.Env the state and the calls. Backend.Transactions
-- has the repositories; Backend.Payment is application/payment/process_payment.py, one function per
-- method and per branch, and Backend.Outbox the outbox repository with
-- infra/workers/payment_outbox_worker.py. Backend.Fees is application/payment/get_parking_fee.py,
-- Backend.Entry application/parking/handle_entry_webhook.py, Backend.Retries
-- infra/workers/notify_retry_worker.py, with one key of a scan in Backend.Retries.Step and a whole
-- scan in Backend.Retries.Settled, and Backend.Signature the check of webhook signatures of
-- infra/security.py. Below Backend.Payment, Runs and Accept compute the parts of a payment,
-- Outcomes and Atomic say how a payment ends, Again what a known payment answers, OneCharge and
-- Keeps carry invariants through it. Backend.System lets payments and scans of the outbox follow
-- each other in any order. What the backend takes from outside is in the record Env: `uuid.UUID`,
-- `uuid5`, SHA-256, the text of a database error, and the token validator that the services are
-- given.
--
-- Backend.Accounts has the rows and values of users, refresh tokens, sign-in and card orders;
-- Backend.Vehicles the repositories of vehicles and users; Backend.Plates the texts that are
-- checked by character. Backend.Cards is application/card, Backend.Tokens the token codec of
-- infra/security.py; Backend.SignIn, Backend.Confirm and Backend.Refresh are application/auth, and
-- Backend.PreNotifications is application/parking/register_pre_notify.py. Base64, JSON, HMAC,
-- `urlencode`, and which characters are digits or spaces are parameters.
--
-- MockCard is services/mock-card/app, the card company of the test setup:
-- application/card/approve_card_payment.py with the rows and methods that it uses, and the result
-- of an approval in MockCard.Approvals and MockCard.Approved. MockCard.Cards has the rows of users
-- and cards, MockCard.Validator the check of a card in infra/security/card_security.py, and
-- MockCard.Tokenization is application/card/verify_and_tokenize_card.py with its repository.
--
-- MockPg is services/mock-pg/app, the PG of the test setup. MockPg.Repositories has its
-- repositories, MockPg.Charge is application/pg/charge_billing_key.py and MockPg.Registration
-- application/pg/complete_card_registration.py. The card company is a record, CardClient, with a
-- state of its own. MockPg.Charge.Ends lists the ways in which a charge ends, MockPg.Charge.Runs
-- shows that there are no others, and MockPg.Charge.Ledger has the view that a client has of the
-- charges. MockPg.Settlement puts the service of MockCard in the place of the card company, with
-- calls that can be lost on the way there or back.
--
-- Webots is carpayin-webots/controllers, the simulation of the parking lot: Webots.Barrier is a
-- barrier with its timer, and Webots.Vehicle the phases of the car in vehicle_controller, over
-- floating-point seconds as a parameter.
--
-- The services are wired as in api/deps.py, where every optional collaborator is present. The time,
-- the random part of an id, and how a call to another process ends are arguments. Amounts are
-- natural numbers where the database's check constraint demands it; the lengths of columns and the
-- pattern of a currency are left out. The database and Redis carry out every operation: a row that
-- breaks a constraint is refused, but a connection that fails in the middle of a request, and what
-- it would leave behind, is not modelled. Durations are exact, where the source divides them in
-- floating point. Only the decimal text of a number runs on fuel, one more than the
-- number, and Integer shows that more fuel gives the same text. The threads around the workers, the
-- HTTP routes and clients, and the backend's explicit notification of the parking lot are not
-- modelled.
pub mod Base
pub mod Integer
pub mod Exec
pub mod Table
pub mod Redis
pub mod DateTime
pub mod Pms
pub mod Backend
pub mod MockCard
pub mod MockPg
pub mod Webots
