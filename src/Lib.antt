-- ===== src/Lib.antt =====
-- Blink LNURL server: verification of its core logic.
--
-- The server gives Lightning addresses to accounts of two providers, Spark and Blink. A request
-- goes through a rate limiter, has its identifier parsed, has its timestamp and signature checked,
-- and then runs one method of the repository, which is a database transaction. The parts, each by
-- its file:
--
-- RateLimit models src/rate_limit.rs: PerIpRateLimiter with its table of windows and GlobalBudget.
-- Times are natural numbers of one unit with the saturating difference of Instant, and the clock is
-- an argument; counts saturate in u32. A HashMap is an association list with one entry for each
-- key.
--
-- Identifier models src/identifier.rs. A text is the list of its code points (Prelude/Texts). The
-- phone number crate and str::to_lowercase are the fields of Services; of the latter the theorems
-- use what it does to ASCII.
--
-- Repository models the accounts types of src/repository.rs, with the texts of its enums in
-- Repository/Names. Result stands for Result, and a do block for the question mark operator.
--
-- Sqlite models the accounts part of src/sqlite/repository.rs, with src/error.rs in Sqlite/Tables.
-- A table of migrations/sqlite is a list of rows, and a query is find, exists, count, delete or
-- update over it (Sqlite/Query); unique indexes and ON CONFLICT clauses are written out where a
-- statement can meet them. The columns of the enums hold the enums themselves. Sqlite/Tables has
-- the rows, the database and Env, what a call reads from outside: the clock, the generated account
-- id, and the name that the driver gives to a violated index. Claims is insert_statement_claim and
-- the pruning, Registration is upsert_spark_registration, ensure_spark_account and
-- delete_spark_registration, Transfer the two transfers, Mode the mode of Spark accounts, Blink the
-- Blink accounts, and Recipient the look-ups. A transaction runs alone, as SQLite runs its writers,
-- and leaves the database as it was where it fails; failures of input and output, and the message
-- of a general error, are left out. A mode request runs its first contact and its write as two
-- transactions: a history has them as two calls, which others may come between, and as one.
-- Sqlite/History is a history of calls; Sqlite/Integrity states the integrity of the tables.
--
-- Signed models src/routes/signed.rs: the accept window, candidate messages, claims and the counts
-- of legacy verifications; prune_tick is a round of the pruner. serve is an abstract service that
-- no code stands for by itself: a signed request, at the place of its repository call among all
-- others, with the time at which its timestamp was checked before, or a round of the pruner. The
-- validity comes from the crate lnurl-models and is a parameter, as are the hash, the encoding of
-- strings and the verification of a signature.
--
-- Payments models the rest of src/sqlite/repository.rs: Payments.antt has the rows and the whole
-- database, Store, whose field db is the database of Sqlite. Invoices, Zaps, Receipts, Deliveries,
-- Settings and Payloads have the methods on the table of that name; an upsert is the function
-- upsert, and a column that REFERENCES accounts is tested against the table of accounts. Times are
-- milliseconds. ORDER BY with LIMIT is a stable sort and take; rows of one domain and one time are
-- handed out by their ids. Exclusive and Limit are on histories of the queue of zap receipts.
--
-- Settlement models src/invoice_paid.rs, with src/webhook_notify.rs in Payments/Payloads; the
-- libraries hex, bitcoin, lightning_invoice and serde_json are the fields of Codecs.
-- Settlement/History is a history of the calls that write invoices; the call resumes is a
-- handle_invoice_paid that read the invoice before other calls wrote. A call that fails leaves the
-- database as it was.
--
-- Zap models src/zap.rs: a poll of the queue, one receipt, and its publishing, with nostr and
-- nostr_sdk as the fields of Nostr. The delays of retries are computed in the source in f64; here
-- they are exact, as they are there for the retries of fourteen days. The clock is a function of
-- the number of its readings.
--
-- Webhooks models src/webhooks/background.rs and, in Webhooks/Config, src/webhooks/config.rs. The
-- task that a poll starts for a delivery is a call of its own, at any time and after any other
-- calls; HTTP and HMAC are the fields of Client.
--
-- Account models src/routes/account.rs: register, transfer and unregister in Account/Handlers,
-- recover with the message of src/signed_message.rs in Account/Recover, and what they share in
-- Account.antt. A handler takes the state of the server, Server, which holds the database of Sqlite
-- and the counts of Signed, and gives an answer and the state after it; a do block goes on where
-- the question mark operator does. A public key is its text, and hex, bitcoin, spark_client and
-- lnurl-models are the fields of Outside. A handler runs alone here, from its first reading to its
-- last write, and a reading of the database does not fail. The task that refreshes a country after
-- an answer, and then writes to the database, is recorded in the state and not run. Account/Spec
-- states what a request asks for apart from the code: its name, domain, keys and texts, and the
-- claim on a text.
--
-- Recursion is structural, on the lists of rows, characters, calls or events, but for the loop of
-- the zap receipt processor: it has a number of rounds, and one more than there are rows in the
-- queue are enough; and the digits of a timestamp, of which a number of 64 bits has at most twenty.
--
-- Not modelled: the PostgreSQL repository, which implements the same methods; the handlers of the
-- other routes and the task that looks up a country; the HTTP layer, the clients of remote
-- services, timers, logging, configuration and start-up; the tools of src/bin.
pub mod Prelude
pub mod RateLimit
pub mod Identifier
pub mod Repository
pub mod Sqlite
pub mod Signed
pub mod Payments
pub mod Settlement
pub mod Zap
pub mod Webhooks
pub mod Account
