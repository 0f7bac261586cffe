-- ===== src/Lib.antt =====
-- xapi-lrs, a learning record store: its handlers, its queries and their transactions.
--
-- The program is a web service over PostgreSQL. A request passes the middleware of src/app.ts, which
-- rewrites the alternate syntax, negotiates the version, parses the body, authenticates, checks the
-- scopes and limits the rate; and then a handler of src/routes, which validates its parameters and its
-- body and runs queries of src/repositories in one transaction (`withClient` of src/db.ts).
--
-- How the code is modelled. A handler takes the parsed request and the tables and gives the response or
-- the error, and the tables that it leaves. A table is the list of its rows, and a statement of SQL is
-- the function of the tables that it denotes, with NULL, unique indexes and failing casts written out.
-- An error is `http` with its status and message (`HttpError`), `with_status` for an error of a library
-- that carries a status, or `other` for any other thrown value. JSON values are trees; their objects
-- are lists of properties. Times are milliseconds, and microseconds in Statement.Consistent.
--
-- The files, and the code that each is about:
--   Prelude      names of the library, tests on numbers, lists, rows of tables, texts
--   Http         `HttpError` of src/db.ts, and what a handler returns or throws
--   Json         JavaScript's operations on parsed JSON; Json.Laws: reads after writes
--   Platform     what the handlers take from Node and the database, as one record of parameters
--   Agent        src/helpers/agent.ts
--   Version      src/xapi/versions.ts and the negotiation of src/app.ts
--   Etag         src/helpers/etag.ts
--   Document     `withClient` and `parseMergeBody` of src/db.ts, `documentResponse` of
--                src/routes/activity-helpers.ts
--   Document.State    src/repositories/activity-state.ts, with its handlers of
--                src/routes/activities.ts in Routes; Table, Unique, Concurrency, RoundTrip, Merge and
--                Delete prove what their names say
--   Document.Profile  src/repositories/activity-profile.ts and agent-profile.ts, with the handlers of
--                src/routes/activities.ts and agents.ts in Routes; proofs in Table and Refine
--   Statement.Decompose    src/repositories/statement-decomposition.ts
--   Squuid       src/helpers/squuid.ts; proofs in Digits and Laws
--   Statement.Store        src/repositories/statements.ts: inserting, reading by id, voiding
--   Statement.Query        `queryStatements` of src/repositories/statements.ts; Pages and
--                Pages.Sequence follow the cursors of its pages
--   Statement.Activity     `getActivityDefinition` of src/repositories/statements.ts
--   Statement.Consistent   `getConsistentThrough` and `getTransactionTime` of
--                src/repositories/statements.ts
--   Statement.Format       the formats of src/helpers/enrichment.ts: `ids`, and `canonical` in Languages;
--                proofs in Laws.Identity and Languages.Laws
--   Statement.Compare      `statementsMatch` of src/xapi/statement-compare.ts; Equivalent:
--                `statementsEquivalent`
--   Statement.Services     what the statement handlers take from libraries and from
--                parts that are not modelled, as parameters
--   Statement.Attachments  `validateAttachmentParts` of src/routes/statement-helpers.ts, and the rows
--                of src/repositories/attachments.ts
--   Statement.Routes       POST and PUT of src/routes/statements.ts, with
--                src/routes/statement-helpers.ts and src/xapi/statement-validator.ts; proofs in Laws,
--                PutLaws and Voiding
--   Statement.Retrieve     GET of src/routes/statements.ts, with src/routes/statement-helpers.ts;
--                Answer: its response, More: the request that the `more` link makes; proofs in Laws,
--                Involved and More.Laws
--   Statement.Signatures   src/xapi/signature.ts
--   Person       src/repositories/agents.ts and GET /xapi/agents of src/routes/agents.ts; proofs in
--                Values and Laws
--   Multipart    src/xapi/multipart.ts over lists of bytes; Frame: the parts between boundaries, Part:
--                the headers and data of one part; proofs in Laws, Frame.Laws, Part.Laws and Safety
--   App          the middleware of src/app.ts in its order; Rewrite: the alternate request syntax
--   Authentication         src/middleware/authentication.ts and src/auth/jwt.ts; proofs in Laws and
--                Scopes
--   Auth         src/auth/types.ts, src/helpers/auth-agent.ts, src/middleware/authorization.ts
--   RateLimit    src/middleware/rate-limit.ts
--   ClientIp     src/helpers/client-ip.ts
--   Stream       the connections of src/sse/sse-producer.ts; Events: its notifications, with
--                src/sse/statement-event.ts; Listener: src/sse/pg-listener.ts, with proofs in its Laws and
--                Recovery
--   Tests        the theorems at concrete inputs
--
-- How the components meet: the document handlers check `Etag` preconditions on what the table reads
-- inside the transaction that then writes; the statement handlers decompose a statement into actors and
-- activities, insert it, and compare a repeated id by `statementsMatch`; both name agents by the IFI of
-- `Agent`, as `Auth` does for the caller.
--
-- Recursion is structural everywhere. There are three kinds of fuel: that of the printing of a number,
-- in tens or sixteens, whose digits are fewer than its value plus one; that of requests that are made
-- from a request, of which two are enough; and that of a client that follows pages, for which one more
-- than the number of statements is enough. Transactions are atomic: what other transactions commit
-- meanwhile is a parameter of the upsert of a state document (`Others`), and absent elsewhere.
--
-- Not modelled: the schema of statements, jose, UTF-8 and the random identifiers (parameters), CORS,
-- request identifiers and tracing, the discovery of the key set of an OIDC provider, the listener of
-- PGlite, the admin console, configuration and instrumentation.
pub mod Prelude
pub mod Http
pub mod Multipart
pub mod Json
pub mod Person
pub mod Platform
pub mod Agent
pub mod App
pub mod Squuid
pub mod ClientIp
pub mod Stream
pub mod Version
pub mod Etag
pub mod Document
pub mod Statement
pub mod Auth
pub mod Authentication
pub mod RateLimit
pub mod Tests
