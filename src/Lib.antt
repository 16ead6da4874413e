-- ===== src/Lib.antt =====
-- Hashira backend: an HTTP server (TypeScript, Express, TypeORM) that takes in records of what AI
-- agents were asked and answered, anchors a hash of each on a blockchain, and shows the records to
-- the organisation they belong to. This library models the server's own logic.
--
-- The parts, and the files that model them (paths from the repository's root):
--   src/types, src/entities           Types, Entities: enumerations, errors, rows of tables
--   src/repositories                  Repositories, one module for each file; Repositories/Sql and
--                                     Repositories/Rows say what UPDATE and findOne do to rows
--   src/services/auth, src/controllers/auth/logout.controller.ts
--                                     Auth: login by password with its lockout (Login, Attempts),
--                                     one-time codes (Otp), refresh tokens and logout (Refresh),
--                                     PasswordReset, Google, Mfa, and the opening of a session (Session);
--                                     SignedIn, Seats and Enrolment are about Google
--                                     accounts, joining and the second factor
--   src/utils/encryption.ts, src/utils/totp-encryption.ts
--                                     Crypto: Envelope and Totp; Cipher has the laws of the cipher
--   src/services/CanonicalisationService.ts
--                                     Canonical: JSON values, JavaScript objects, sorted keys, text
--   src/services/event, src/controllers/event/event-query.controller.ts
--                                     Events: Ingestion, Processing, Query, Scope
--   src/services/BlockchainAnchoringService.ts, src/workers, src/utils/withExponentialBackoff.ts
--                                     Anchoring: Service and Backoff
--   src/services/BlockchainSigningService.ts
--                                     Signing: Der (the parsers) and Service; Encoding describes DER
--   src/services/organisation, src/controllers/invitation
--                                     Organisations: Service and Invitation
--   src/services/api-key              ApiKeys
--   src/middleware                    Middleware: Access and Errors
--   src/controllers, src/validators, src/routes
--                                     Controllers: Http (answers and cookies), a module for each group
--                                     of handlers, Validators, and Routes, which puts the middleware
--                                     before the handlers
--   the callbacks of setImmediate and setTimeout, and the jobs of the worker
--                                     Tasks
-- How they interact: a request passes the middleware and the validation of its body, in the order of
-- Controllers/Routes, and reaches a handler, which calls a service and writes the answer. Ingestion
-- writes an event and puts off its processing; processing hashes and encrypts it, updates its row and
-- queues a job; the worker anchors the job and writes the end of it to the row. Tasks has the steps by
-- which ingestions, signups (which put off an activation), callbacks and jobs follow each other in any
-- order.
--
-- The state is World: the database with a list for each table, the maps of failed attempts, the mail,
-- the work put off, the queue and the clock. An operation is an action on it, World -> Result A x
-- World (World/Monad): a throw gives the error, what was written before it stays, and a transaction
-- rolls the database back. A JavaScript function keeps its name in snake case.
--
-- What the program calls and does not implement is the record Platform, an instance argument: bcrypt,
-- jsonwebtoken, jose, otplib, node's crypto, SES, Stripe, viem, zod's patterns, and which row
-- PostgreSQL picks (Platform/Rows, with the laws of SELECT). AWS KMS is KeyService of Signing/Service,
-- and the limiters of express-rate-limit are parameters of Controllers/Routes. Samples holds concrete
-- ones, with which the modules Checks run the code.
--
-- Bounds: a uuid and a date are numbers. A string is the list of its UTF-16 code units; its methods
-- are those of Base/Strings, with toLowerCase and toUpperCase on ASCII. No arithmetic of the source comes near
-- 2 ^ 53. The retry loop recurses on the attempts that are left, which the source counts too;
-- toString of a number recurses on the number and one, more than it has digits; everything else
-- recurses on its data. In the DER parser an offset that becomes NaN is `none`, and an index out of
-- range reads `none`.
--
-- Not modelled: HTTP parsing, headers other than the idempotency key, how zod reads JSON, logging, CORS,
-- configuration, start-up, the health of the queue, migrations and scripts that fill a database, and
-- interleavings of requests between awaits.
pub mod Base
pub mod Types
pub mod Canonical
pub mod Entities
pub mod Platform
pub mod World
pub mod Repositories
pub mod Crypto
pub mod Auth
pub mod Samples
pub mod Signing
pub mod Organisations
pub mod Tasks
pub mod Controllers
pub mod Anchoring
pub mod Events
pub mod ApiKeys
pub mod Middleware
