-- ===== src/Lib.antt =====
-- ImmutableCore, a financial services API in Go: a double-entry ledger, an audit trail with an
-- outbox, refresh tokens, users, records and the HTTP layers around them.
--
-- The parts. The handlers (handlers/) read a request and call a service (services/), and the
-- services keep all state in a PostgreSQL database through gorm. Most services that write do so in
-- one database transaction, in which they also log an audit event. models/ has the rows, errors/ the
-- typed errors, middleware/ the checks in front of the handlers.
--
-- Which file models which part.
--   Errors        errors/apperrors.go: the constructors of `AppError`.
--   Models        models/*.go: a record for each struct, with the columns that the code reads.
--   Action        a Go method that returns a value and an `error`, as a function of the state: it
--                 returns, fails or panics. An early `return` is a failure or the other branch.
--   Platform      what is not in this repository, as one parameter: Amounts (shopspring/decimal),
--                 Runtime (time, uuid, json, crypto), Database (gorm and PostgreSQL). Each is a
--                 record of operations and of the laws that the code relies on.
--   Session       the state of a run (the database, and how many calls of time.Now and uuid.New have
--                 been made) and gorm's statements as actions; Session.Laws is what they guarantee.
--                 Session.Keeps and Session.Reads carry a property of the database, or the state
--                 itself, through an action however it ends.
--   Text, Dates   what the program uses of strings, strconv and time.Parse.
--   Pages         the pages that three services list: the sanitised number and size, the offset as
--                 an int that wraps around at 64 bits, the count and the rows.
--   Audit         services/audit_service.go: `BuildAuditEvent`, `LogEvent`, `QueryEvents`.
--   Ledger        services/ledger_service.go: `PostTransaction`, `GetTransactions`.
--   Records       services/record_service.go: every method. An update is a map of values, which the
--                 service checks and gorm assigns (Platform.Updates).
--   Users         services/user_service.go: every method.
--   Dashboard     services/dashboard_service.go: the three reports, with the grouping and the sums
--                 that their SQL asks for over the rows that the database selects.
--   Outbox        services/outbox_publisher.go: a round of the publisher and its clean-up; the loop
--                 is a number of ticks.
--   Jwt           utils/jwt.go: `GenerateToken` and `ValidateToken`, over a JWT library that signs,
--                 and that accepts what it has signed until it expires.
--   Tokens        services/token_service.go: `IssueTokenPair`, `RefreshTokens`, and the revocation of
--                 a user's or a family's tokens. The service runs without a transaction, and drops
--                 the errors of its last two updates; `attempt` is such a statement.
--   Accounts      services/account_service.go: every method.
--   Auth          services/auth_service.go: `Register` and `Login`.
--   Http          gin's context, utils/response.go and handlers/error_handler.go. A handler takes
--                 the context to an action that returns the response; JSON is read and written by
--                 Http.Requests.Json, a parameter.
--   Handlers      handlers/*.go: every handler, on its services.
--   Access        middleware/auth.go and rbac.go: each takes the next handler to a handler.
--   Idempotency   middleware/idempotency.go. What the writer captures is the status and the text of
--                 the response that the next handler returns.
--   RateLimiter   middleware/rate_limiter.go: the map of limiters, its eviction, and the middleware on
--                 the limiter's answer.
--   Routes        routes/routes.go: a constructor for each route, the roles that it requires, and
--                 the middlewares of /api around its handler.
--   Server        the whole of routes/routes.go around a route: recovery, request ids, the logger
--                 (middleware/request_id.go, logger.go), the limiter, CORS, and the health check. Its
--                 state is that of the services, the limiters, the log, and the headers of the
--                 response under way; a run is a sequence of requests, rounds of the eviction and
--                 rounds of the publisher.
--   Kept          what all operations keep of the database, from what the single statements keep.
--   Config        config/config.go: the settings.
--   Startup       cmd/main.go and `ConnectDB`: the start and the shutdown as sequences of effects.
--   Example       a platform in memory that meets every law, and the theorems at concrete inputs.
--
-- State and concurrency. A statement is one step on the database and may fail at any point, which
-- the interface leaves open, so each theorem covers every pattern of failures. Requests, rounds and
-- transactions run one after the other, and the steps of two are not interleaved: for transactions
-- the row locks of `PostTransaction` are what makes this the view of a run, and their waiting is not
-- modelled. Go's random iteration over the map of accounts is the order of the query here.
--
-- Bounds. No function takes fuel: every loop is over a list, except that of the publisher,
-- which is a number of ticks. Amounts are exact decimals in memory, and a column of type numeric(19,4)
-- holds them rounded: the interface has the rounding (Platform.Amounts), each write of a row applies
-- it (Platform.Database), and the theorems on stored amounts are about the rounded ones or about
-- amounts that are not changed by it. A sum that overflows its column is a statement that fails. The
-- expiry settings are integers, and the times that they give are not bounded as an int64 of
-- nanoseconds is.
--
-- Not modelled: the columns created_at and updated_at, which gorm fills; the log, except for the lines
-- of the requests, which are without the user's id; the timeouts of the HTTP server and
-- gin's mode; gin's matching of paths.
pub mod Prelude
pub mod Errors
pub mod Models
pub mod Text
pub mod Dates
pub mod Pages
pub mod Records
pub mod Users
pub mod Dashboard
pub mod Http
pub mod Access
pub mod Handlers
pub mod Outbox
pub mod Idempotency
pub mod RateLimiter
pub mod Routes
pub mod Action
pub mod Platform
pub mod Session
pub mod Audit
pub mod Ledger
pub mod Jwt
pub mod Config
pub mod Startup
pub mod Kept
pub mod Server
pub mod Tokens
pub mod Accounts
pub mod Auth
pub mod Example
